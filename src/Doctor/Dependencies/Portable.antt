-- ===== src/Doctor/Dependencies/Portable.antt =====
-- What passing dependency checks say of the dependencies of a package.
use libpglite.Prelude.{
  ◌≡◌, refl, sym, ap, ◌∙◌, String, true, false, some, List, [], ◌∷◌, ◌||◌, All, All-map, is_empty,
  join, if◌then◌else◌, Bool-cases, inl, inr, arith,
}
use libpglite.Json.{
  Fields, Value, object, text, get, is_text, is_num, is_null, is_hashable, is_one_of, as_object,
  as_list, as_nonempty_text,
}
use libpglite.Json.Laws.{is_text_iff, as_object-eq-some, as_nonempty_text-eq-some}
use libpglite.Check.{Check, Message, done}
use libpglite.Check.Laws.{
  Passes, Passes-bind, Passes-seq, Passes-require, Passes-some, Passes-then, Passes-else,
  Passes-error, Passes-pure, append-eq-nil, not-Passes-error_then, not-Passes-require_then,
  not-Passes-raise,
}
use libpglite.Manifest.{nonempty_lines}
use libpglite.Doctor.{Doctor, error_if_strict}
use libpglite.Doctor.Laws.{
  Names, Passes-error_if_strict, Passes-with_diagnostic, Passes-with_document,
}
use libpglite.Doctor.Bundle.Valid.{Passes-member}
use libpglite.Doctor.Prefix.Clean.{is_strict}
use libpglite.Doctor.Dependencies.{
  loader_relative_escapes_package, classifications, bad_classifications, Bad, bad_entry,
  validate_dependency, collect_bad, require_exit_code, validate_object, validate_objects,
  validate_manifest, validate_dependencies,
}

collect_bad-nil {ℓ} :
    {A : Type ℓ} (f : A → Check Bad) (xs : List A) (bad : Bad)
    → Passes (collect_bad f xs) bad
    → bad ≡ []
    → All (λ x. Passes (f x) []) xs
unfolding collect_bad
collect_bad-nil f [] bad p e = tt
collect_bad-nil f (x ∷ xs) bad p e =
    let (first, q, p1) = Passes-bind (f x) _ _ p in
    let (rest, r, p2) = Passes-bind (collect_bad f xs) _ _ p1 in
    let (first_nil, rest_nil) = append-eq-nil first rest (Passes-pure p2 ∙ e) in
    (rw first_nil at q, collect_bad-nil f xs rest r rest_nil)

-- A dependency that a package may have where it is moved to another machine.
pub record IsPortable (dependency : Value) : Type 0 where
  pub fields : Fields
  pub raw : String
  pub is_object : dependency ≡ object fields
  pub path : get fields "raw" ≡ text raw
  pub classified :
      is_one_of (get fields "classification") ("package" ∷ "platform" ∷ "loader-relative" ∷ [])
      ≡ true
  pub contained :
      get fields "classification" ≡ text "loader-relative"
      → loader_relative_escapes_package raw ≡ false

portable_class :
    (v : Value)
    → is_one_of v classifications ≡ true
    → is_one_of v bad_classifications ≡ false
    → is_one_of v ("package" ∷ "platform" ∷ "loader-relative" ∷ []) ≡ true
portable_class v h n = ground arith

-- A dependency that adds no bad entry.
pub bad_entry-nil :
    (path v : Value) (raw : String)
    → bad_entry path (text raw) v ≡ []
    → (is_one_of v bad_classifications ≡ false)
      × (is_text v "loader-relative" ≡ true → loader_relative_escapes_package raw ≡ false)
unfolding bad_entry
bad_entry-nil path v raw e = elim (Bool-cases (is_one_of v bad_classifications)) [
  | inl bad ↦ absurd (ground arith)
  | inr good ↦ (good, λ h. ground arith)
]

dependency-IsPortable :
    (path dependency : Value)
    → Passes (validate_dependency path dependency) []
    → IsPortable dependency
unfolding validate_dependency
dependency-IsPortable path dependency p =
    let (fields, found, p1) =
      Passes-some (as_object dependency) _ _ (not-Passes-error_then _ _) p in
    let (raw_ok, p2) = (Passes-seq _ _).0 p1 in
    let (raw, is_raw, q) =
      Passes-some (as_nonempty_text (get fields "raw")) _ _ Passes-error raw_ok in
    let v = get fields "classification" in
    let (known, p3) = (Passes-member v classifications _ (not-Passes-error_then _ _)).0 p2 in
    let entry = (as_nonempty_text-eq-some _ is_raw).0 in
    let (good, contained) =
      bad_entry-nil path v raw (ap (λ r. bad_entry path r v) (sym entry) ∙ Passes-pure p3) in
    record {
      fields = fields;
      raw = raw;
      is_object = as_object-eq-some dependency found;
      path = entry;
      classified = portable_class v known good;
      contained = λ h. contained ((is_text_iff v _).1 h);
    }

-- A scanned object of the manifest: a plugin or a module, all of whose dependencies are portable.
pub record IsScanned (obj : Value) : Type 0 where
  pub fields : Fields
  pub path : String
  pub dependencies : List Value
  pub is_object : obj ≡ object fields
  pub named : get fields "path" ≡ text path
  pub kind : is_one_of (get fields "kind") ("plugin" ∷ "postgres-lib" ∷ []) ≡ true
  pub exit_code : is_num (get fields "toolExitCode") 0 || is_null (get fields "toolExitCode") ≡ true
  pub listed : as_list (get fields "dependencies") ≡ some dependencies
  pub portable : All IsPortable dependencies

Passes-exit_code :
    (v : Value) (m : Message) → Passes (require_exit_code v m) tt → is_num v 0 || is_null v ≡ true
unfolding require_exit_code
Passes-exit_code v m p =
    (Passes-require _ _).0 (Passes-then (is_hashable v) _ _ not-Passes-raise p).1

object-IsScanned : (obj : Value) → Passes (validate_object obj) [] → IsScanned obj
unfolding validate_object
object-IsScanned obj p =
    let (fields, found, p1) = Passes-some (as_object obj) _ _ (not-Passes-error_then _ _) p in
    let (path_ok, p2) = (Passes-seq _ _).0 p1 in
    let (path, is_path, q) =
      Passes-some (as_nonempty_text (get fields "path")) _ _ Passes-error path_ok in
    let (kind, p3) =
      (Passes-member (get fields "kind") ("plugin" ∷ "postgres-lib" ∷ []) _
          (not-Passes-require_then _ _)).0
        p2 in
    let (exit_code, p4) = (Passes-seq _ _).0 ((Passes-seq _ _).0 p3).1 in
    let (dependencies, listed, p5) =
      Passes-some (as_list (get fields "dependencies")) _ _ (not-Passes-error_then _ _) p4 in
    record {
      fields = fields;
      path = path;
      dependencies = dependencies;
      is_object = as_object-eq-some obj found;
      named = (as_nonempty_text-eq-some _ is_path).0;
      kind = kind;
      exit_code = Passes-exit_code _ _ exit_code;
      listed = listed;
      portable =
          All-map {P = λ dependency. Passes (validate_dependency (get fields "path") dependency) []}
            (dependency-IsPortable (get fields "path")) dependencies
            (collect_bad-nil _ dependencies [] p5 refl);
    }

no_bad :
    (d : Doctor) (bad : Bad) (m : Message)
    → is_strict d ≡ true
    → Passes (if is_empty bad then done else error_if_strict d m) tt
    → bad ≡ []
no_bad d [] m s p = refl
no_bad d (b ∷ bad) m s p = absurd (ground (arith, Passes-error_if_strict d m p))

objects-IsScanned :
    (d : Doctor) (joined : String) (objects : List Value)
    → is_strict d ≡ true
    → Passes (validate_objects d joined objects) tt
    → All IsScanned objects
unfolding validate_objects
objects-IsScanned d joined objects s p =
    let (bad, collected, p1) = Passes-bind (collect_bad validate_object objects) _ _ p in
    let (reported, p2) = (Passes-seq _ _).0 ((Passes-seq _ _).0 p1).1 in
    All-map {P = λ obj. Passes (validate_object obj) []} object-IsScanned objects
      (collect_bad-nil validate_object objects bad collected (no_bad d bad _ s reported))

-- The dependencies of an accepted package, as the manifest that the bundle names lists them.
pub record Dependencies (d : Doctor) (diagnostics : Fields) : Type 0 where
  pub file : String
  pub manifest : Fields
  pub objects : List Value
  pub names : Names d diagnostics "dependencyManifest" file
  pub reads : d.root.load_json file ≡ some (object manifest)
  pub listed : as_list (get manifest "objects") ≡ some objects
  pub nonempty : is_empty objects ≡ false
  pub scanned : All IsScanned objects

manifest-objects :
    (d : Doctor) (joined : String) (manifest : Fields)
    → is_strict d ≡ true
    → Passes (validate_manifest d joined manifest) tt
    → (objects : List Value) × (as_list (get manifest "objects") ≡ some objects)
      × (is_empty objects ≡ false)
      × All IsScanned objects
unfolding validate_manifest
manifest-objects d joined manifest s p =
    let (format, p1) = (Passes-seq _ _).0 p in
    let (platform, p2) = (Passes-seq _ _).0 p1 in
    let (tool, p3) = (Passes-seq _ _).0 p2 in
    let (objects, listed, p4) =
      Passes-some (as_list (get manifest "objects")) _ _ Passes-error p3 in
    let (nonempty, p5) = Passes-else (is_empty objects) _ _ Passes-error p4 in
    (objects, listed, nonempty, objects-IsScanned d joined objects s p5)

-- In a strict run, or for a production package, the dependency check passes only if the dependency
-- manifest lists at least one object, each a plugin or a module that was scanned without an error,
-- and each of their dependencies is of the package, of the platform or loader-relative, and a
-- loader-relative one does not leave the package.
pub validate_dependencies-Dependencies :
    (d : Doctor) (diagnostics : Fields)
    → get d.bundle "diagnostics" ≡ object diagnostics
    → is_strict d ≡ true
    → Passes (validate_dependencies d) tt
    → Dependencies d diagnostics
unfolding validate_dependencies
validate_dependencies-Dependencies d diagnostics e s p =
    let (report, report_names, p1) = Passes-with_diagnostic d "dependencies" diagnostics _ e p in
    let (lines, q, p2) = Passes-bind (nonempty_lines d.root report) _ _ p1 in
    let p3 = ((Passes-seq _ _).0 p2).1 in
    let (file, names, p4) = Passes-with_diagnostic d "dependencyManifest" diagnostics _ e p3 in
    let (manifest, reads, p5) = Passes-with_document d.root file _ _ _ p4 in
    let (objects, listed, nonempty, scanned) = manifest-objects d (join "\n" lines) manifest s p5 in
    record {
      file = file;
      manifest = manifest;
      objects = objects;
      names = names;
      reads = reads;
      listed = listed;
      nonempty = nonempty;
      scanned = scanned;
    }
