-- ===== src/Generator/Roots.antt =====
-- Which paths the generator takes for paths inside the package.
use Prim.Native.Char.{Char, code}
use text.Mathlib.TextLemmas.{cons-append}
use libpglite.Prelude.{◌≡◌, refl, String, ◌<>◌, true, false, ◌==◌, arith, starts_with, ends_with}
use libpglite.Generator.{classify}

same_code : (c : Char) → (code c == code c) ≡ true
same_code c = ground arith

starts_with-append : (s t : String) → starts_with (s <> t) s ≡ true
unfolding starts_with
starts_with-append String.[] t = refl
starts_with-append (String.◌∷◌ c s) t =
    rw (cons-append c s t) (rw (same_code c) (starts_with-append s t))

-- An absolute path has no other start.
absolute :
    (s : String) (d : Char) (prefix : String)
    → starts_with s "/" ≡ true
    → (47 == code d) ≡ false
    → starts_with s (String.◌∷◌ d prefix) ≡ false
unfolding starts_with
absolute String.[] d prefix slash other = refl
absolute (String.◌∷◌ c s) d prefix slash other = ground (arith)

slash-append : (s t : String) → starts_with s "/" ≡ true → starts_with (s <> t) "/" ≡ true
unfolding starts_with
slash-append String.[] t h = absurd (cc)
slash-append (String.◌∷◌ c s) t h = rw (cons-append c s t) (ground (arith, h))

-- A path whose text goes on from that of an absolute root is of the class `package`, whatever
-- character comes next: also a path of a sibling directory whose name begins with the root's. A
-- report that ends in `=> not found` is left out.
pub classify-package :
    (root rest : String)
    → starts_with root "/" ≡ true
    → ends_with (root <> rest) "=> not found" ≡ false
    → classify root (root <> rest) ≡ "package"
unfolding classify
classify-package root rest slash found =
    let raw = root <> rest in
    let absolute_raw = slash-append root rest slash in
    let inside = starts_with-append root rest in
    let loader : starts_with raw "@loader_path/" ≡ false = absolute raw _ _ absolute_raw refl in
    let rpath : starts_with raw "@rpath/" ≡ false = absolute raw _ _ absolute_raw refl in
    let executable : starts_with raw "@executable_path/" ≡ false =
      absolute raw _ _ absolute_raw refl in
    let origin : starts_with raw "$ORIGIN/" ≡ false = absolute raw _ _ absolute_raw refl in
    rw (found, loader, rpath, executable, origin, inside) refl
