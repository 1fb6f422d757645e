-- ===== src/Doctor/Sources.antt =====
-- `validate_source_provenance`.
pub mod Patched
pub mod Listed
use libpglite.Prelude.{
  String, Bool, true, false, Option, none, some, List, [], ◌∷◌, ◌||◌, is_hex, is_empty, is_blank,
  join, mem, if◌then◌else◌,
}
use libpglite.Prelude.Dict.{Dict, lookup, keys, missing_from}
use libpglite.Json.{
  Fields, Value, text, get, is_text, as_text, as_list, as_object, as_nonempty_text,
}
use libpglite.Check.{Check, lit, repr, str, pure, done, error, require, each, ◌>>=◌, ◌>>◌}
use libpglite.Manifest.{manifest_values, manifest_patch_sha256s}
use libpglite.Doctor.{Doctor, diagnostic_path, with_diagnostic, with_document, manifest_value_at}
use libpglite.Doctor.Baseline.{require_nonempty_text}

-- `isinstance(v, str) and re.fullmatch(r"[0-9a-f]{40}", v)`
abbrev pub is_full_sha1 : Value → Bool
is_full_sha1 v = elim (as_text v) [ none ↦ false | some s ↦ is_hex 40 s ]

unfoldable pub validate_postgres_pglite : Value → Check (Unit {0})
validate_postgres_pglite postgres_pglite = elim (as_object postgres_pglite) [
  | none ↦ error (lit "source provenance postgresPglite must be an object" ∷ [])
  | some source ↦ do
    each ("repository" ∷ "ref" ∷ "commit" ∷ []) (λ key.
        require_nonempty_text source key
          (lit "source provenance postgresPglite." ∷ lit key ∷ lit " is missing" ∷ []))
    elim (as_text (get source "commit")) [
      | none ↦ done
      | some commit ↦
          require (is_hex 40 commit)
            (lit "source provenance postgresPglite.commit is not a full SHA-1" ∷ [])
    ]
]

-- What the native link manifest says of the patches: `manifest_patch_paths` and
-- `manifest_patch_digests`.
pub record ManifestSource : Type 0 where
  pub patch_paths : List String
  pub patch_digests : Dict String

abbrev pub no_manifest : ManifestSource
no_manifest = record { patch_paths = []; patch_digests = [] }

unfoldable pub agrees : Option String → Value → Bool
agrees none actual = true
agrees (some expected) actual = is_blank expected || is_text actual expected

unfoldable pub value_of : Option String → Value
value_of none = Value.null
value_of (some s) = text s

module _ (d : Doctor) where
  -- The comparison of the sources, and the two listings of the patches with each other.
  unfoldable pub compare_source : Value → List (String × Option String) → Check (Unit {0})
  compare_source postgres_pglite manifest_source = elim (as_object postgres_pglite) [
    | none ↦ done
    | some source ↦ each manifest_source (λ (key, expected).
        require (agrees expected (get source key)) (
          lit "source provenance postgresPglite."
          ∷ lit key
          ∷ lit " mismatch: manifest="
          ∷ repr (value_of expected)
          ∷ lit " provenance="
          ∷ repr (get source key)
          ∷ []))
  ]

  -- The fingerprint of the provenance is that of the manifest, where that has one.
  unfoldable pub compare_fingerprint : Value → Option String → Check (Unit {0})
  compare_fingerprint fingerprint expected = require (agrees expected fingerprint) (
      lit "source provenance patchFingerprint mismatch: manifest="
      ∷ repr (value_of expected)
      ∷ lit " provenance="
      ∷ repr fingerprint
      ∷ [])

  -- The two listings of the patches in the link manifest, compared with each other.
  unfoldable pub read_patch_listing : String → Check ManifestSource
  read_patch_listing native_manifest = do
    paths ← manifest_values d.root native_manifest "patch"
    digests ← manifest_patch_sha256s d.root native_manifest
    require (is_empty (missing_from paths (keys digests))) (
        lit "native link manifest is missing patch_sha256 entries for patches: "
        ∷ lit (join ", " (missing_from paths (keys digests)))
        ∷ [])
    require (is_empty (missing_from (keys digests) paths)) (
        lit "native link manifest has patch_sha256 entries without patch entries: "
        ∷ lit (join ", " (missing_from (keys digests) paths))
        ∷ [])
    pure (record { patch_paths = paths; patch_digests = digests })

  unfoldable pub read_manifest_source : Value → Value → Option String → Check ManifestSource
  read_manifest_source postgres_pglite fingerprint none = pure no_manifest
  read_manifest_source postgres_pglite fingerprint (some native_manifest) = do
    repository ← manifest_value_at d.root (some native_manifest) "source_repository"
    ref ← manifest_value_at d.root (some native_manifest) "source_ref"
    commit ← manifest_value_at d.root (some native_manifest) "source_commit"
    compare_source postgres_pglite
        (("repository", repository) ∷ ("ref", ref) ∷ ("commit", commit) ∷ [])
    manifest_fingerprint ← manifest_value_at d.root (some native_manifest) "patch_fingerprint"
    compare_fingerprint fingerprint manifest_fingerprint
    read_patch_listing native_manifest

-- The path of one patch entry: the paths seen after it.
unfoldable pub see_path : List String → Value → Check (List String)
see_path seen rel = elim (as_nonempty_text rel) [
  | none ↦ do error (lit "source provenance patch.path is missing" ∷ []); pure seen
  | some path ↦
      if mem path seen
      then (do error (lit "source provenance repeats patch path: " ∷ lit path ∷ []); pure seen)
      else pure (path ∷ seen)
]

-- The digest that the manifest has for a patch, if it has one.
unfoldable pub expected_digest : Dict String → Value → Option String
expected_digest digests rel = elim (as_text rel) [ none ↦ none | some path ↦ lookup path digests ]

unfoldable pub compare_digest : Dict String → Value → String → Check (Unit {0})
compare_digest digests rel digest = elim (expected_digest digests rel) [
  | none ↦ done
  | some expected ↦ require (is_text (text digest) expected) (
      lit "source provenance patch sha256 mismatch for "
      ∷ str rel
      ∷ lit ": manifest="
      ∷ lit expected
      ∷ lit " provenance="
      ∷ lit digest
      ∷ [])
]

unfoldable pub check_digest : Dict String → Value → Value → Check (Unit {0})
check_digest digests rel digest = elim (as_text digest) [
  | none ↦ error (lit "source provenance patch has invalid sha256: " ∷ str rel ∷ [])
  | some s ↦
      if is_hex 64 s
      then compare_digest digests rel s
      else error (lit "source provenance patch has invalid sha256: " ∷ str rel ∷ [])
]

unfoldable pub validate_patch : Dict String → List String → Value → Check (List String)
validate_patch digests seen patch = elim (as_object patch) [
  | none ↦ do error (lit "source provenance patch entry must be an object" ∷ []); pure seen
  | some fields ↦ do
    seen' ← see_path seen (get fields "path")
    check_digest digests (get fields "path") (get fields "sha256")
    pure seen'
]

-- The loop over `patches`; returns `seen_paths`.
unfoldable pub validate_patches : Dict String → List Value → List String → Check (List String)
validate_patches digests [] seen = pure seen
validate_patches digests (patch ∷ patches) seen = do
  seen' ← validate_patch digests seen patch
  validate_patches digests patches seen'

module _ (d : Doctor) where
  unfoldable pub validate_patch_list : Value → Value → List Value → Check (Unit {0})
  validate_patch_list postgres_pglite fingerprint patches = do
    require (is_full_sha1 fingerprint)
        (lit "source provenance patchFingerprint is not a full SHA-1" ∷ [])
    native_manifest ← diagnostic_path d "nativeLinkManifest"
    manifest ← read_manifest_source d postgres_pglite fingerprint native_manifest
    seen_paths ← validate_patches manifest.patch_digests patches []
    require (is_empty (missing_from manifest.patch_paths seen_paths)) (
        lit "source provenance is missing native manifest patches: "
        ∷ lit (join ", " (missing_from manifest.patch_paths seen_paths))
        ∷ [])
    require (is_empty (missing_from seen_paths manifest.patch_paths)) (
        lit "source provenance lists patches absent from native manifest: "
        ∷ lit (join ", " (missing_from seen_paths manifest.patch_paths))
        ∷ [])

  unfoldable pub validate_provenance : Fields → Check (Unit {0})
  validate_provenance provenance = do
    require (is_text (get provenance "format") "libpglite-native-source-provenance-v1")
        (lit "source provenance diagnostic has wrong format" ∷ [])
    validate_postgres_pglite (get provenance "postgresPglite")
    elim (as_list (get provenance "patches")) [
      | none ↦ error (lit "source provenance patches must be a nonempty list" ∷ [])
      | some patches ↦
          if is_empty patches
          then error (lit "source provenance patches must be a nonempty list" ∷ [])
          else validate_patch_list (get provenance "postgresPglite")
              (get provenance "patchFingerprint") patches
    ]

  unfoldable pub validate_source_provenance : Check (Unit {0})
  validate_source_provenance = with_diagnostic d "sourceProvenance" λ path.
      with_document d.root path (lit "source provenance diagnostic is not readable: " ∷ [])
        (lit "source provenance diagnostic root must be an object" ∷ []) validate_provenance
