-- ===== src/Doctor/Prefix/Clean.antt =====
-- What passing checks of the PostgreSQL prefix and of the payload say of the package's files.
use libpglite.Prelude.{
  ◌≡◌, refl, ◌↔◌, inl, inr, String, Bool, true, false, not, ◌&&◌, ◌||◌, some, List, [], ◌∷◌, ◌∙◌,
  All, All-map, mem, contains, file_name, eq_iff, str_eq, lower, suffix, is_empty, if◌then◌else◌,
  Bool-cases, arith,
}
use libpglite.Json.{Fields, object, text, get, is_text, as_object, as_nonempty_text}
use libpglite.Json.Laws.{as_object-eq-some, as_nonempty_text-eq-some}
use libpglite.Check.{Message, done, require}
use libpglite.Check.Laws.{
  Passes, Passes-bind, Passes-seq, Passes-require, Passes-each, Passes-each-require, Passes-some,
  Passes-pure, Passes-error,
}
use libpglite.Package.{Package}
use libpglite.Manifest.{read_text}
use libpglite.Doctor.{Doctor, is_production, error_if_strict}
use libpglite.Doctor.Laws.{Passes-read_text, Passes-error_if_strict}
use libpglite.Doctor.Prefix.{
  looks_like_build_path, postgres_prefix_layout, prefix_keys, directory_keys, required_prefix_files,
  text_suffixes, leaked_paths, validate_postgres_prefix_text_paths, validate_prefix_entry,
  validate_postgres_prefix, is_non_native, validate_native_only_payload,
}

-- The texts whose paths must be relocatable.
abbrev pub is_metadata : Package → String → Bool
is_metadata root path = root.is_file path && mem (lower (suffix path)) text_suffixes

-- The file is for another runtime, by its suffix or by a tool that its name speaks of, in capitals
-- or not.
pub data IsForeign (path : String) : Type 0 where
  wasm : lower (suffix path) ≡ ".wasm" → IsForeign path
  script : lower (suffix path) ≡ ".js" → IsForeign path
  module_script : lower (suffix path) ≡ ".mjs" → IsForeign path
  bitcode : lower (suffix path) ≡ ".bc" → IsForeign path
  emscripten : contains (lower (file_name path)) "emscripten" ≡ true → IsForeign path
  wasm2c : contains (lower (file_name path)) "wasm2c" ≡ true → IsForeign path

-- The file can be read, and names no build-machine path.
pub record IsRelocatable (root : Package) (path : String) : Type 0 where
  pub content : String
  pub reads : root.read_text path ≡ some content
  pub clean : looks_like_build_path content ≡ false

no_leak :
    (leaks : Bool) (path : String) (rest leaked : List String)
    → (if leaks then path ∷ rest else rest) ≡ leaked
    → leaked ≡ []
    → (leaks ≡ false) × (rest ≡ [])
no_leak true path rest leaked e n = absurd (cc (e, n))
no_leak false path rest leaked e n = (refl, e ∙ n)

module _ (d : Doctor) where
  leaked_paths-nil :
      (paths leaked : List String)
      → leaked ≡ []
      → Passes (leaked_paths d.root paths) leaked
      → All (λ path. is_metadata d.root path ≡ true → IsRelocatable d.root path) paths
  unfolding leaked_paths
  leaked_paths-nil [] leaked e p = tt
  leaked_paths-nil (path ∷ paths) leaked e p = elim (Bool-cases (is_metadata d.root path)) [
    | inr other ↦ (λ h. absurd (cc), leaked_paths-nil paths leaked e (rw other at p))
    | inl meta ↦
        let p1 = rw meta at p in
        let (content, reads, p2) = Passes-bind (read_text d.root path) _ _ p1 in
        let (rest, p3, p4) = Passes-bind (leaked_paths d.root paths) _ _ p2 in
        let (clean, ends) =
          no_leak (looks_like_build_path content) path rest leaked (Passes-pure p4) e in
        (
          λ _. record {
            content = content;
            reads = Passes-read_text d.root path content reads;
            clean = clean;
          },
          leaked_paths-nil paths rest ends p3,
        )
  ]

either-require :
    (b x y : Bool) (m n : Message)
    → Passes (if b then require x m else require y n) tt
    → (if b then x else y) ≡ true
either-require true x y m n p = (Passes-require x m).0 p
either-require false x y m n p = (Passes-require y n).0 p

-- Where a run is strict, or of a production package.
abbrev pub is_strict : Doctor → Bool
is_strict d = d.strict_relocatable || is_production d.bundle

module _ (d : Doctor) where
  reported_leaks :
      (leaked : List String) (m : Message)
      → Passes (if is_empty leaked then done else error_if_strict d m) tt
      → is_strict d ≡ true
      → leaked ≡ []
  reported_leaks [] m p s = refl
  reported_leaks (path ∷ rest) m p s = absurd (ground (arith, Passes-error_if_strict d m p))

  text_paths-IsRelocatable :
      Passes (validate_postgres_prefix_text_paths d) tt
      → is_strict d ≡ true
      → d.root.is_dir "postgres" ≡ true
      → All
          (λ path. is_metadata d.root path ≡ true → IsRelocatable d.root path)
          (d.root.rglob "postgres")
  unfolding validate_postgres_prefix_text_paths
  text_paths-IsRelocatable p s there =
      let (leaked, q, r) =
        Passes-bind (leaked_paths d.root (d.root.rglob "postgres")) _ _ (rw there at p) in
      leaked_paths-nil d (d.root.rglob "postgres") leaked (reported_leaks leaked _ r s) q

  -- One key of the prefix names a directory or a file that is there.
  abbrev pub Entry : Fields → String → Type 0
  Entry prefix key =
      (value : String) × (get prefix key ≡ text value)
      × ((if mem key directory_keys then d.root.is_dir value else d.root.is_file value) ≡ true)

  Entry-Passes :
      (prefix : Fields) (key : String)
      → Passes (validate_prefix_entry d prefix key) tt
      → Entry prefix key
  unfolding validate_prefix_entry
  Entry-Passes prefix key p =
      let (value, found, q) = Passes-some (as_nonempty_text (get prefix key)) _ _ Passes-error p in
      (
        value,
        (as_nonempty_text-eq-some _ found).0,
        either-require (mem key directory_keys) _ _ _ _ q,
      )

  -- The prefix of an accepted package: the layout is the fixed one, what it names and the required
  -- files are there, and in a strict run the texts are relocatable.
  pub record IsComplete : Type 0 where
    pub prefix : Fields
    pub bundled : get d.bundle "postgresPrefix" ≡ object prefix
    pub layout :
        All (λ (key, expected). is_text (get prefix key) expected ≡ true) postgres_prefix_layout
    pub entries : All (Entry prefix) prefix_keys
    pub files : All (λ rel. d.root.is_file rel ≡ true) required_prefix_files
    pub relocatable :
        is_strict d ≡ true
        → d.root.is_dir "postgres" ≡ true
        → All
            (λ path. is_metadata d.root path ≡ true → IsRelocatable d.root path)
            (d.root.rglob "postgres")

  -- A prefix that passes has the fixed layout, its directories and files and the six required files
  -- are there, and in a strict run or for a production package each metadata text below it can be
  -- read and names no build-machine path.
  pub validate_postgres_prefix-IsComplete : Passes (validate_postgres_prefix d) tt → IsComplete
  unfolding validate_postgres_prefix
  validate_postgres_prefix-IsComplete p =
      let (prefix, is_object, p1) =
        Passes-some (as_object (get d.bundle "postgresPrefix")) _ _ Passes-error p in
      let (layout, p2) = (Passes-seq _ _).0 p1 in
      let (entries, p3) = (Passes-seq _ _).0 p2 in
      let (files, texts) = (Passes-seq _ _).0 p3 in
      record {
        prefix = prefix;
        bundled = as_object-eq-some _ is_object;
        layout =
            (Passes-each-require (λ (key, expected). is_text (get prefix key) expected) _
                postgres_prefix_layout).0
              layout;
        entries =
            All-map {P = λ key. Passes (validate_prefix_entry d prefix key) tt}
              (Entry-Passes prefix) prefix_keys ((Passes-each prefix_keys _).0 entries);
        files = (Passes-each-require d.root.is_file _ required_prefix_files).0 files;
        relocatable = text_paths-IsRelocatable texts;
      }

  is_non_native-eq-false : (path : String) → is_non_native d path ≡ false → ¬ IsForeign path
  unfolding is_non_native mem
  is_non_native-eq-false path h (wasm e) = ground (arith, eq_iff (lower (suffix path)) ".wasm")
  is_non_native-eq-false path h (script e) = ground (arith, eq_iff (lower (suffix path)) ".js")
  is_non_native-eq-false path h (module_script e) =
      ground (arith, eq_iff (lower (suffix path)) ".mjs")
  is_non_native-eq-false path h (bitcode e) = ground (arith, eq_iff (lower (suffix path)) ".bc")
  is_non_native-eq-false path h (emscripten e) = ground arith
  is_non_native-eq-false path h (wasm2c e) = ground arith

  is_non_native-IsForeign : (path : String) → is_non_native d path ≡ true → IsForeign path
  unfolding is_non_native mem
  is_non_native-IsForeign path h = elim (Bool-cases (str_eq (lower (suffix path)) ".wasm")) [
    | inl e1 ↦ wasm ((eq_iff _ _).0 e1)
    | inr n1 ↦ elim (Bool-cases (str_eq (lower (suffix path)) ".js")) [
      | inl e2 ↦ script ((eq_iff _ _).0 e2)
      | inr n2 ↦ elim (Bool-cases (str_eq (lower (suffix path)) ".mjs")) [
        | inl e3 ↦ module_script ((eq_iff _ _).0 e3)
        | inr n3 ↦ elim (Bool-cases (str_eq (lower (suffix path)) ".bc")) [
          | inl e4 ↦ bitcode ((eq_iff _ _).0 e4)
          | inr n4 ↦ elim (Bool-cases (contains (lower (file_name path)) "emscripten")) [
            | inl e5 ↦ emscripten e5
            | inr n5 ↦ wasm2c (ground arith)
          ]
        ]
      ]
    ]
  ]

  allowed-IsForeign :
      (path : String)
      → (not (d.root.is_file path && is_non_native d path) ≡ true)
        ↔ (d.root.is_file path ≡ true → ¬ IsForeign path)
  allowed-IsForeign path = (
    λ h present. is_non_native-eq-false path (ground arith),
    λ h. elim (Bool-cases (d.root.is_file path)) [
      | inr missing ↦ ground arith
      | inl present ↦ elim (Bool-cases (is_non_native d path)) [
        | inl e ↦ absurd (h present (is_non_native-IsForeign path e))
        | inr e ↦ ground arith
      ]
    ],
  )

  -- The payload check passes exactly if no file of the package has the suffix of WebAssembly, of
  -- JavaScript or of bitcode, or a name with `emscripten` or `wasm2c` in it, in capitals or not.
  pub validate_native_only_payload-Passes :
      Passes (validate_native_only_payload d) tt
      ↔ All (λ path. d.root.is_file path ≡ true → ¬ IsForeign path) (d.root.rglob "")
  unfolding validate_native_only_payload
  validate_native_only_payload-Passes =
      let checked =
        Passes-each-require (λ path. not (d.root.is_file path && is_non_native d path)) _
          (d.root.rglob "") in
      (
        λ p. All-map (λ path. (allowed-IsForeign path).0) (d.root.rglob "") (checked.0 p),
        λ all. checked.1 (All-map (λ path. (allowed-IsForeign path).1) (d.root.rglob "") all),
      )
