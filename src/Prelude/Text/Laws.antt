-- ===== src/Prelude/Text/Laws.antt =====
-- A text that is put together around a separator is taken apart there.
use Prim.Native.Nat.{ℕ}
use Prim.Native.Char.{Char, code}
use Prim.Native.String.{String, ◌++◌ as ◌<>◌}
use mathlib.Core.Path.{◌≡◌, refl, ap, ◌∙◌}
use mathlib.Core.Bool.{Bool, true, false, ◌&&◌, not}
use mathlib.Core.Option.{some}
use mathlib.Core.List.{[], ◌∷◌}
use native.Mathlib.Omega.{arith}
use text.Mathlib.TextLemmas.{cons-append, nil-append}
use libpglite.Prelude.Tests.{◌==◌}
use libpglite.Prelude.Text.{split, split_once, splitlines, is_line_break}

-- The separator does not stand in the text.
abbrev pub is_free : ℕ → String → Bool
is_free sep String.[] = true
is_free sep (String.◌∷◌ c s) = not (code c == sep) && is_free sep s

cons-text : (c : Char) (t : String) → String.◌∷◌ c String.[] <> t ≡ String.◌∷◌ c t
cons-text c t = cons-append c String.[] t ∙ ap (λ u. String.◌∷◌ c u) (nil-append t)

split_once-cons :
    (sep : ℕ) (s : String) (c : Char) (t : String)
    → is_free sep s ≡ true
    → (code c == sep) ≡ true
    → split_once sep (s <> String.◌∷◌ c t) ≡ some (s, t)
unfolding split_once
split_once-cons sep String.[] c t free here = rw (nil-append (String.◌∷◌ c t)) (rw here refl)
split_once-cons sep (String.◌∷◌ d s) c t free here =
    let other : (code d == sep) ≡ false = ground arith in
    rw (cons-append d s (String.◌∷◌ c t))
      (rw (other, split_once-cons sep s c t (ground arith) here) refl)

pub split-free : (sep : ℕ) (s : String) → is_free sep s ≡ true → split sep s ≡ s ∷ []
unfolding split
split-free sep String.[] free = refl
split-free sep (String.◌∷◌ d s) free =
    let other : (code d == sep) ≡ false = ground arith in
    rw (other, split-free sep s (ground arith)) refl

split-cons :
    (sep : ℕ) (s : String) (c : Char) (t : String)
    → is_free sep s ≡ true
    → (code c == sep) ≡ true
    → split sep (s <> String.◌∷◌ c t) ≡ s ∷ split sep t
unfolding split
split-cons sep String.[] c t free here = rw (nil-append (String.◌∷◌ c t)) (rw here refl)
split-cons sep (String.◌∷◌ d s) c t free here =
    let other : (code d == sep) ≡ false = ground arith in
    rw (cons-append d s (String.◌∷◌ c t))
      (rw (other, split-cons sep s c t (ground arith) here) refl)

-- The separator as a text of one character.
pub split_once-append :
    (sep : ℕ) (s : String) (c : Char) (t : String)
    → is_free sep s ≡ true
    → (code c == sep) ≡ true
    → split_once sep (s <> (String.◌∷◌ c String.[] <> t)) ≡ some (s, t)
split_once-append sep s c t free here =
    ap (λ u. split_once sep (s <> u)) (cons-text c t) ∙ split_once-cons sep s c t free here

pub split-append :
    (sep : ℕ) (s : String) (c : Char) (t : String)
    → is_free sep s ≡ true
    → (code c == sep) ≡ true
    → split sep (s <> (String.◌∷◌ c String.[] <> t)) ≡ s ∷ split sep t
split-append sep s c t free here =
    ap (λ u. split sep (s <> u)) (cons-text c t) ∙ split-cons sep s c t free here

pub is_free-append :
    (sep : ℕ) (s t : String)
    → is_free sep s ≡ true
    → is_free sep t ≡ true
    → is_free sep (s <> t) ≡ true
is_free-append sep String.[] t h k = rw (nil-append t) k
is_free-append sep (String.◌∷◌ c s) t h k =
    let rest = is_free-append sep s t (ground arith) k in
    rw (cons-append c s t) (ground (arith, rest))

-- No line ends within the text.
abbrev pub is_line : String → Bool
is_line String.[] = true
is_line (String.◌∷◌ c s) = not (is_line_break (code c)) && is_line s

pub is_line-append : (s t : String) → is_line s ≡ true → is_line t ≡ true → is_line (s <> t) ≡ true
is_line-append String.[] t h k = rw (nil-append t) k
is_line-append (String.◌∷◌ c s) t h k =
    let rest = is_line-append s t (ground arith) k in rw (cons-append c s t) (ground (arith, rest))

splitlines-cons :
    (s t : String) → is_line s ≡ true → splitlines (s <> String.◌∷◌ "\n" t) ≡ s ∷ splitlines t
unfolding splitlines
splitlines-cons String.[] t h = rw (nil-append (String.◌∷◌ "\n" t)) refl
splitlines-cons (String.◌∷◌ c s) t h =
    let inside : is_line_break (code c) ≡ false = ground arith in
    let other : (code c == 13) ≡ false = ground arith in
    rw (cons-append c s (String.◌∷◌ "\n" t))
      (rw (other, inside, splitlines-cons s t (ground arith)) refl)

pub splitlines-append :
    (s t : String) → is_line s ≡ true → splitlines (s <> ("\n" <> t)) ≡ s ∷ splitlines t
splitlines-append s t h = ap (λ u. splitlines (s <> u)) (cons-text "\n" t) ∙ splitlines-cons s t h
