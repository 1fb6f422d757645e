-- ===== src/Doctor/Sources/Listed.antt =====
-- The patch entries of a source provenance that passes.
use libpglite.Prelude.{◌≡◌, sym, ◌∙◌, String, true, false, some, List, [], ◌∷◌, mem, is_hex}
use libpglite.Prelude.Dict.{Dict, lookup}
use libpglite.Json.{Fields, Value, object, text, get, as_object, as_text, as_nonempty_text}
use libpglite.Json.Laws.{is_text_iff, as_object-eq-some, as_text-eq-some, as_nonempty_text-eq-some}
use libpglite.Check.Laws.{
  Passes, Passes-bind, Passes-seq, Passes-require, Passes-some, Passes-then, Passes-else,
  Passes-error, Passes-pure, not-Passes-error_then,
}
use libpglite.Doctor.Sources.{
  agrees, see_path, expected_digest, compare_digest, check_digest, validate_patch, validate_patches,
}

-- A patch entry of this path, with a digest that is the link manifest's where that has one.
pub record IsPatch (digests : Dict String) (path : String) (patch : Value) : Type 0 where
  pub fields : Fields
  pub digest : String
  pub is_object : patch ≡ object fields
  pub named : get fields "path" ≡ text path
  pub hashed : get fields "sha256" ≡ text digest
  pub full : is_hex 64 digest ≡ true
  pub agrees : (expected : String) → lookup path digests ≡ some expected → digest ≡ expected

-- The entries are patches of distinct paths, which come to the paths seen before.
pub data Listing (digests : Dict String) : List String → List Value → List String → Type 0 where
  nothing : {seen : List String} → Listing digests seen [] seen
  next :
      {seen : List String} {patches : List Value} {all_seen : List String} {path : String}
      {patch : Value}
      → IsPatch digests path patch
      → mem path seen ≡ false
      → Listing digests (path ∷ seen) patches all_seen
      → Listing digests seen (patch ∷ patches) all_seen

see_path-new :
    (seen : List String) (rel : Value) (seen' : List String)
    → Passes (see_path seen rel) seen'
    → (path : String) × (rel ≡ text path) × (mem path seen ≡ false) × (seen' ≡ path ∷ seen)
unfolding see_path
see_path-new seen rel seen' p =
    let (path, found, p1) = Passes-some (as_nonempty_text rel) _ _ (not-Passes-error_then _ _) p in
    let (fresh, p2) = Passes-else (mem path seen) _ _ (not-Passes-error_then _ _) p1 in
    (path, (as_nonempty_text-eq-some rel found).0, fresh, sym (Passes-pure p2))

digest-agrees :
    (digests : Dict String) (path digest expected : String)
    → Passes (compare_digest digests (text path) digest) tt
    → lookup path digests ≡ some expected
    → digest ≡ expected
unfolding compare_digest expected_digest
digest-agrees digests path digest expected p e =
    let same =
      (is_text_iff (text digest) expected).0
        ((Passes-require _ _).0 (rw (e, compare_digest) at p)) in
    cc same

check_digest-agrees :
    (digests : Dict String) (path : String) (v : Value)
    → Passes (check_digest digests (text path) v) tt
    → (digest : String) × (v ≡ text digest)
      × (is_hex 64 digest ≡ true)
      × ((expected : String) → lookup path digests ≡ some expected → digest ≡ expected)
unfolding check_digest
check_digest-agrees digests path v p =
    let (digest, found, p1) = Passes-some (as_text v) _ _ Passes-error p in
    let (full, p2) = Passes-then (is_hex 64 digest) _ _ Passes-error p1 in
    (
      digest,
      as_text-eq-some v found,
      full,
      λ expected e. digest-agrees digests path digest expected p2 e,
    )

validate_patch-IsPatch :
    (digests : Dict String) (seen : List String) (patch : Value) (seen' : List String)
    → Passes (validate_patch digests seen patch) seen'
    → (path : String) × IsPatch digests path patch × (mem path seen ≡ false) × (seen' ≡ path ∷ seen)
unfolding validate_patch
validate_patch-IsPatch digests seen patch seen' p =
    let (fields, found, p1) = Passes-some (as_object patch) _ _ (not-Passes-error_then _ _) p in
    let (after_path, q, p2) = Passes-bind (see_path seen (get fields "path")) _ _ p1 in
    let (path, named, fresh, e) = see_path-new seen (get fields "path") after_path q in
    let (checked, p3) = (Passes-seq _ _).0 p2 in
    let (digest, hashed, full, agrees) =
      check_digest-agrees digests path (get fields "sha256") (rw named at checked) in
    (
      path,
      record {
        fields = fields;
        digest = digest;
        is_object = as_object-eq-some patch found;
        named = named;
        hashed = hashed;
        full = full;
        agrees = agrees;
      },
      fresh,
      sym (Passes-pure p3) ∙ e,
    )

pub patches-Listing :
    (digests : Dict String) (patches : List Value) (seen all_seen : List String)
    → Passes (validate_patches digests patches seen) all_seen
    → Listing digests seen patches all_seen
unfolding validate_patches
patches-Listing digests [] seen all_seen p = rw (Passes-pure p) nothing
patches-Listing digests (patch ∷ patches) seen all_seen p =
    let (seen', q, p1) = Passes-bind (validate_patch digests seen patch) _ _ p in
    let (path, is_patch, fresh, e) = validate_patch-IsPatch digests seen patch seen' q in
    next is_patch fresh (patches-Listing digests patches (path ∷ seen) all_seen (rw e at p1))
