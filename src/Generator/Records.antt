-- ===== src/Generator/Records.antt =====
-- What the doctor finds in the objects of a generated dependency manifest.
use libpglite.Prelude.{
  ◌≡◌, refl, ap, ◌↔◌, String, Bool, true, false, List, [], ◌∷◌, ◌++◌, map, All, is_blank, str_eq,
  eq_iff, if◌then◌else◌, Bool-cases, inl, inr, arith, starts_with, ends_with,
}
use libpglite.Json.{Value, object, text, get, is_num, is_hashable, is_one_of, to_list}
use libpglite.Check.Laws.{
  Passes, bind-Passes, Passes-seq, Passes-require, Passes-done, append-eq-nil,
  not-Passes-error_then, not-Passes-require_then,
}
use libpglite.Doctor.Bundle.Valid.{Passes-member}
use libpglite.Doctor.Dependencies.{
  loader_relative_escapes_package, classifications, bad_classifications, Bad, bad_entry,
  validate_dependency, collect_bad, require_exit_code, validate_object,
}
use libpglite.Doctor.Dependencies.Portable.{bad_entry-nil}
use libpglite.Generator.{
  Build, starts_with_any, classify, dependency_record, items_of, manifest_object,
}

if-holds {ℓ κ} :
    {A : Type ℓ} (P : A → Type κ) (b : Bool) {x y : A} → P x → P y → P (if b then x else y)
if-holds P true h k = h
if-holds P false h k = k

-- What holds of each class holds of the class that is given.
classify-holds :
    (P : String → Type 0) (root raw : String)
    → P "missing"
    → P "loader-relative"
    → P "package"
    → P "platform"
    → P "local-provider"
    → P "build-machine"
    → P "absolute-external"
    → P "unknown"
    → P (classify root raw)
unfolding classify
classify-holds P root raw missing loader packaged platform local machine external unknown =
    let any_of = λ (prefixes : List String). starts_with_any raw prefixes in
    if-holds P (ends_with raw "=> not found") missing (
      if-holds P (any_of ("@loader_path/" ∷ "@rpath/" ∷ "@executable_path/" ∷ [])) loader (
        if-holds P (starts_with raw "$ORIGIN/") loader (
          if-holds P (starts_with raw root) packaged (
            if-holds P (any_of ("./" ∷ "postgres/" ∷ "diagnostics/" ∷ [])) packaged (
              if-holds P (starts_with raw "linux-vdso.so.") platform (
                if-holds P (any_of ("/usr/lib/" ∷ "/System/Library/" ∷ [])) platform (
                  if-holds P (any_of ("/lib/" ∷ "/lib64/" ∷ "/usr/lib/" ∷ "/usr/lib64/" ∷ []))
                    platform
                    (if-holds P (any_of ("/opt/homebrew/" ∷ "/usr/local/" ∷ [])) local (
                      if-holds P
                        (any_of
                          ("/Users/" ∷ "/home/" ∷ "/private/var/" ∷ "/tmp/" ∷ "/var/folders/" ∷ []))
                        machine (if-holds P (starts_with raw "/") external unknown))))))))))

-- The doctor knows each class that the generator gives.
classify-known : (root raw : String) → is_one_of (text (classify root raw)) classifications ≡ true
classify-known root raw =
    classify-holds (λ c. is_one_of (text c) classifications ≡ true) root raw refl refl refl refl
      refl refl refl refl

module _ (build : Build) where
  -- The generator gives the dependency a class that does not tie the package to the machine.
  pub record IsMovable (raw : String) : Type 0 where
    pub good : is_one_of (text (classify build.package_root raw)) bad_classifications ≡ false
    pub contained :
        classify build.package_root raw ≡ "loader-relative"
        → loader_relative_escapes_package raw ≡ false

  abbrev entry : Value → String → Bad
  entry path raw = bad_entry path (text raw) (text (classify build.package_root raw))

  entry-nil : (path : Value) (raw : String) → (entry path raw ≡ []) ↔ IsMovable raw
  unfolding bad_entry
  entry-nil path raw = (
    λ h.
        let (good, contained) = bad_entry-nil path (text (classify build.package_root raw)) raw h in
        record {
          good = good;
          contained =
              λ e. contained ((eq_iff (classify build.package_root raw) "loader-relative").1 e);
        },
    λ m. elim (Bool-cases (str_eq (classify build.package_root raw) "loader-relative")) [
      | inl e ↦ ground (
        arith,
        m.good,
        m.contained ((eq_iff (classify build.package_root raw) "loader-relative").0 e),
      )
      | inr e ↦ ground (arith, m.good)
    ],
  )

  record-Passes :
      (path : Value) (raw : String)
      → is_blank raw ≡ false
      → Passes (validate_dependency path (object (dependency_record build raw))) (entry path raw)
  unfolding validate_dependency dependency_record get
  record-Passes path raw named = (Passes-seq _ _).1 (
    rw named Passes-done,
    (Passes-member (text (classify build.package_root raw)) classifications _
          (not-Passes-error_then _ _)).1
        (classify-known build.package_root raw, record { returns = refl; clean = refl }),
  )

  records : List String → List Value
  records raws = map (λ raw. object (dependency_record build raw)) raws

  to_list-items_of : (vs : List Value) → to_list (items_of build vs) ≡ vs
  unfolding items_of
  to_list-items_of [] = refl
  to_list-items_of (v ∷ vs) = ap (λ ws. v ∷ ws) (to_list-items_of vs)

  records-Passes :
      (path : Value) (raws : List String)
      → All (λ raw. is_blank raw ≡ false) raws
      → (bad : Bad) × Passes (collect_bad (validate_dependency path) (records raws)) bad
        × ((bad ≡ []) ↔ All IsMovable raws)
  unfolding collect_bad records
  records-Passes path [] h = ([], record { returns = refl; clean = refl }, (λ e. tt, λ a. refl))
  records-Passes path (raw ∷ raws) h =
      let (rest, passes, iff) = records-Passes path raws h.1 in
      (
        entry path raw ++ rest,
        bind-Passes (validate_dependency path (object (dependency_record build raw))) _
            (entry path raw) _ (record-Passes path raw h.0)
            (bind-Passes (collect_bad (validate_dependency path) (records raws)) _ rest _ passes
              (record { returns = refl; clean = refl })),
        (
          λ e.
              let (first, others) = append-eq-nil (entry path raw) rest e in
              ((entry-nil path raw).0 first, iff.0 others),
          λ a. rw ((entry-nil path raw).1 a.0, iff.1 a.1) refl,
        ),
      )

  -- The doctor reads an object that the generator writes without an error, where the object has a
  -- path, the kind is one of the two, the tool exited with 0 and no dependency is empty, and it
  -- finds no bad dependency exactly if each has a class that does not tie the package to the
  -- machine.
  pub manifest_object-Passes :
      (relative kind : String) (returncode : Value) (raws : List String)
      → is_blank relative ≡ false
      → is_one_of (text kind) ("plugin" ∷ "postgres-lib" ∷ []) ≡ true
      → is_hashable returncode ≡ true
      → is_num returncode 0 ≡ true
      → All (λ raw. is_blank raw ≡ false) raws
      → (bad : Bad) × Passes
          (validate_object (manifest_object build relative kind returncode raws))
          bad
        × ((bad ≡ []) ↔ All IsMovable raws)
  unfolding validate_object manifest_object get records require_exit_code
  manifest_object-Passes relative kind returncode raws named known hashable exited h =
      let (bad, passes, iff) = records-Passes (text relative) raws h in
      (
        bad,
        (Passes-seq _ _).1 (
          rw named Passes-done,
          (Passes-member (text kind) ("plugin" ∷ "postgres-lib" ∷ []) _
                (not-Passes-require_then _ _)).1
              (
                known,
                (Passes-seq _ _).1 (
                  (Passes-require true _).1 refl,
                  (Passes-seq _ _).1 (
                    rw (hashable, exited) ((Passes-require true _).1 refl),
                    rw (to_list-items_of (records raws)) passes,
                  ),
                ),
              ),
        ),
        iff,
      )
