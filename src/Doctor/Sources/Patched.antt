-- ===== src/Doctor/Sources/Patched.antt =====
-- What a passing source provenance says of the patches of a package.
use libpglite.Prelude.{
  ◌≡◌, sym, ap, ◌∙◌, String, true, false, some, List, [], All, mem, is_hex, is_empty, is_blank,
  Option, ◌||◌, arith, Option-cases, inl, inr,
}
use libpglite.Prelude.Dict.{Dict, keys}
use libpglite.Prelude.Dict.Laws.{missing_from-empty}
use libpglite.Json.{Fields, Value, object, text, get, is_text, as_list, as_text}
use libpglite.Json.Laws.{is_text_iff, as_text-eq-some}
use libpglite.Check.Laws.{
  Passes, Passes-bind, Passes-seq, Passes-require, Passes-some, Passes-else, Passes-error,
  Passes-pure,
}
use libpglite.Manifest.{manifest_values, manifest_patch_sha256s}
use libpglite.Doctor.{Doctor, diagnostic_path, manifest_value_at}
use libpglite.Doctor.Laws.{
  Names, Passes-diagnostic_path, Passes-with_diagnostic, Passes-with_document,
}
use libpglite.Doctor.Sources.Listed.{Listing, patches-Listing}
use libpglite.Doctor.Sources.{
  ManifestSource, agrees, is_full_sha1, compare_fingerprint, read_patch_listing,
  read_manifest_source, validate_patches, validate_patch_list, validate_provenance,
  validate_source_provenance,
}

-- Each text of `a` is one of `b`.
abbrev pub Within : List String → List String → Type 0
Within a b = All (λ path. mem path b ≡ true) a

-- A text that the link manifest gives is the one that is compared with it.
agrees-text :
    (given : Option String) (actual : Value) (expected : String)
    → agrees given actual ≡ true
    → given ≡ some expected
    → is_blank expected ≡ false
    → actual ≡ text expected
unfolding agrees
agrees-text given actual expected h e there =
    let compared : (is_blank expected || is_text actual expected) ≡ true = rw (e, agrees) at h in
    let same : is_text actual expected ≡ true = ground arith in (is_text_iff actual expected).0 same

text-eq : (s t : String) → text s ≡ text t → s ≡ t
text-eq s t h = cc

full_sha1-text :
    (v : Value) → is_full_sha1 v ≡ true → (s : String) × (v ≡ text s) × (is_hex 40 s ≡ true)
full_sha1-text v h = elim (Option-cases (as_text v)) [
  | inl other ↦ absurd (cc (rw (other, is_full_sha1) at h))
  | inr (s, e) ↦ (s, as_text-eq-some v e, rw (e, is_full_sha1) at h)
]

module _ (d : Doctor) where
  -- The patches of the package: those of the provenance and of the link manifest are the same.
  pub record ArePatched (diagnostics : Fields) : Type 0 where
    pub file : String
    pub provenance : Fields
    pub patches : List Value
    pub link_manifest : String
    pub paths : List String
    pub digests : Dict String
    pub listed_paths : List String
    pub names : Names d diagnostics "sourceProvenance" file
    pub reads : d.root.load_json file ≡ some (object provenance)
    pub lists : as_list (get provenance "patches") ≡ some patches
    pub link_names : Names d diagnostics "nativeLinkManifest" link_manifest
    pub fingerprint : String
    pub fingerprinted : get provenance "patchFingerprint" ≡ text fingerprint
    pub full : is_hex 40 fingerprint ≡ true
    pub link_fingerprint : Option String
    pub link_fingerprinted :
        Passes (manifest_value_at d.root (some link_manifest) "patch_fingerprint") link_fingerprint
    pub same_fingerprint :
        (expected : String)
        → link_fingerprint ≡ some expected
        → is_blank expected ≡ false
        → fingerprint ≡ expected
    pub link_paths : Passes (manifest_values d.root link_manifest "patch") paths
    pub link_digests : Passes (manifest_patch_sha256s d.root link_manifest) digests
    pub listing : Listing digests [] patches listed_paths
    pub digests_given : Within paths (keys digests)
    pub complete : Within paths listed_paths
    pub known : Within listed_paths paths

  read_patch_listing-reads :
      (link_manifest : String) (manifest : ManifestSource)
      → Passes (read_patch_listing d link_manifest) manifest
      → Passes (manifest_values d.root link_manifest "patch") manifest.patch_paths
        × Passes (manifest_patch_sha256s d.root link_manifest) manifest.patch_digests
        × Within manifest.patch_paths (keys manifest.patch_digests)
  unfolding read_patch_listing
  read_patch_listing-reads link_manifest manifest p =
      let (paths, q1, p1) = Passes-bind (manifest_values d.root link_manifest "patch") _ _ p in
      let (digests, q2, p2) = Passes-bind (manifest_patch_sha256s d.root link_manifest) _ _ p1 in
      let (given, p3) = (Passes-seq _ _).0 p2 in
      let same = Passes-pure ((Passes-seq _ _).0 p3).1 in
      let same_paths : paths ≡ manifest.patch_paths =
        ap (λ (m : ManifestSource). m.patch_paths) same in
      let same_digests : digests ≡ manifest.patch_digests =
        ap (λ (m : ManifestSource). m.patch_digests) same in
      (
        rw same_paths at q1,
        rw same_digests at q2,
        rw (same_paths, same_digests) at
            ((missing_from-empty paths (keys digests)).0 ((Passes-require _ _).0 given)),
      )

  link_manifest-reads :
      (postgres_pglite fingerprint : Value) (link_manifest : String) (manifest : ManifestSource)
      → Passes (read_manifest_source d postgres_pglite fingerprint (some link_manifest)) manifest
      → (expected : Option String) × Passes
          (manifest_value_at d.root (some link_manifest) "patch_fingerprint")
          expected
        × (agrees expected fingerprint ≡ true)
        × Passes (manifest_values d.root link_manifest "patch") manifest.patch_paths
        × Passes (manifest_patch_sha256s d.root link_manifest) manifest.patch_digests
        × Within manifest.patch_paths (keys manifest.patch_digests)
  unfolding read_manifest_source compare_fingerprint
  link_manifest-reads postgres_pglite fingerprint link_manifest manifest p =
      let (repository, q1, p1) =
        Passes-bind (manifest_value_at d.root (some link_manifest) "source_repository") _ _ p in
      let (branch, q2, p2) =
        Passes-bind (manifest_value_at d.root (some link_manifest) "source_ref") _ _ p1 in
      let (commit, q3, p3) =
        Passes-bind (manifest_value_at d.root (some link_manifest) "source_commit") _ _ p2 in
      let p4 = ((Passes-seq _ _).0 p3).1 in
      let (expected, q5, p5) =
        Passes-bind (manifest_value_at d.root (some link_manifest) "patch_fingerprint") _ _ p4 in
      let (agreed, p6) = (Passes-seq (compare_fingerprint d fingerprint expected) _).0 p5 in
      let (paths, digests, given) = read_patch_listing-reads link_manifest manifest p6 in
      (
        expected,
        q5,
        (Passes-require (agrees expected fingerprint) _).0 agreed,
        paths,
        digests,
        given,
      )

  -- A source provenance that passes lists patches of distinct paths, each with a full digest, which
  -- is that of the link manifest where it has one, and a fingerprint that is a full SHA-1 and that of
  -- the link manifest where it has one that is not blank; its paths are those of the link manifest, which
  -- has a digest for each of them.
  pub validate_source_provenance-ArePatched :
      (diagnostics : Fields)
      → get d.bundle "diagnostics" ≡ object diagnostics
      → Passes (validate_source_provenance d) tt
      → ArePatched diagnostics
  unfolding validate_source_provenance validate_provenance validate_patch_list
  validate_source_provenance-ArePatched diagnostics e p =
      let (file, names, p1) = Passes-with_diagnostic d "sourceProvenance" diagnostics _ e p in
      let (provenance, reads, p2) = Passes-with_document d.root file _ _ _ p1 in
      let p3 = ((Passes-seq _ _).0 ((Passes-seq _ _).0 p2).1).1 in
      let (patches, lists, p4) =
        Passes-some (as_list (get provenance "patches")) _ _ Passes-error p3 in
      let (nonempty, p5) = Passes-else (is_empty patches) _ _ Passes-error p4 in
      let (is_full, p6) = (Passes-seq _ _).0 p5 in
      let (fingerprint, fingerprinted, full) =
        full_sha1-text (get provenance "patchFingerprint") ((Passes-require _ _).0 is_full) in
      let (o, q, p7) = Passes-bind (diagnostic_path d "nativeLinkManifest") _ _ p6 in
      let (link_manifest, found, link_names) =
        Passes-diagnostic_path d "nativeLinkManifest" diagnostics o e q in
      let (manifest, r, p8) =
        Passes-bind
          (read_manifest_source d (get provenance "postgresPglite")
            (get provenance "patchFingerprint") (some link_manifest))
          _ _ (rw found at p7) in
      let (expected, link_fingerprinted, agreed, link_paths, link_digests, digests_given) =
        link_manifest-reads (get provenance "postgresPglite") (get provenance "patchFingerprint")
          link_manifest manifest r in
      let (listed_paths, s, p9) =
        Passes-bind (validate_patches manifest.patch_digests patches []) _ _ p8 in
      let (complete, known) = (Passes-seq _ _).0 p9 in
      record {
        file = file;
        provenance = provenance;
        patches = patches;
        link_manifest = link_manifest;
        paths = manifest.patch_paths;
        digests = manifest.patch_digests;
        listed_paths = listed_paths;
        names = names;
        reads = reads;
        lists = lists;
        link_names = link_names;
        fingerprint = fingerprint;
        fingerprinted = fingerprinted;
        full = full;
        link_fingerprint = expected;
        link_fingerprinted = link_fingerprinted;
        same_fingerprint = λ given is there.
            text-eq fingerprint given
              (sym fingerprinted ∙ agrees-text expected _ given agreed is there);
        link_paths = link_paths;
        link_digests = link_digests;
        listing = patches-Listing manifest.patch_digests patches [] listed_paths s;
        digests_given = digests_given;
        complete =
            (missing_from-empty manifest.patch_paths listed_paths).0
              ((Passes-require _ _).0 complete);
        known =
            (missing_from-empty listed_paths manifest.patch_paths).0 ((Passes-require _ _).0 known);
      }
