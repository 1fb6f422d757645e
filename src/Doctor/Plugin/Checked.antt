-- ===== src/Doctor/Plugin/Checked.antt =====
-- What a passing `validate_plugin` says of the plugin binary.
use libpglite.Prelude.{◌≡◌, sym, ap, ◌∙◌, String, true, Option, some, List, All, mem}
use libpglite.Prelude.Dict.Laws.{missing_from-empty}
use libpglite.Json.{Fields, Value, object, text, get, as_object, as_nonempty_text}
use libpglite.Json.Laws.{is_text_iff, as_object-eq-some, as_nonempty_text-eq-some}
use libpglite.Check.Laws.{
  Passes, Passes-bind, Passes-seq, Passes-require, Passes-some, Passes-then, Passes-pure,
  not-Passes-raise, not-Passes-error_then,
}
use libpglite.Package.{Package}
use libpglite.Symbols.{defined_symbols}
use libpglite.Doctor.{abi_symbols}
use libpglite.Doctor.Plugin.{hash_of, validate_binary, validate_plugin}

-- The plugin that the bundle names is a file with the recorded checksum, and its symbol table,
-- which the method keeps, has every function of the plugin ABI.
pub record IsChecked (root : Package) (bundle : Fields) (symbols : Option (List String))
    : Type 0 where
  pub plugin : Fields
  pub filename : String
  pub digest : String
  pub actual_symbols : List String
  pub bundled : get bundle "plugin" ≡ object plugin
  pub named : get plugin "filename" ≡ text filename
  pub there : root.is_file filename ≡ true
  pub hashed : root.hash filename ≡ some digest
  pub recorded : get plugin "sha256" ≡ text digest
  pub scanned : Passes (defined_symbols root filename) actual_symbols
  pub kept : symbols ≡ some actual_symbols
  pub exports : All (λ symbol. mem symbol actual_symbols ≡ true) abi_symbols

-- A hash that was computed is the hash of the file.
pub Passes-hash_of :
    (root : Package) (path digest : String)
    → Passes (hash_of root path) digest
    → root.hash path ≡ some digest
unfolding hash_of
Passes-hash_of root path digest p =
    let (found, is_some, q) = Passes-some (root.hash path) _ _ not-Passes-raise p in
    is_some ∙ ap some (Passes-pure q)

validate_binary-checks :
    (root : Package) (filename : String) (expected : Value) (symbols : Option (List String))
    → Passes (validate_binary root filename expected) symbols
    → (digest : String) × (actual : List String) × (root.hash filename ≡ some digest)
      × (expected ≡ text digest)
      × Passes (defined_symbols root filename) actual
      × (symbols ≡ some actual)
      × All (λ symbol. mem symbol actual ≡ true) abi_symbols
unfolding validate_binary
validate_binary-checks root filename expected symbols p =
    let (digest, hashed, p1) = Passes-bind (hash_of root filename) _ _ p in
    let (matches, p2) = (Passes-seq _ _).0 p1 in
    let (actual, scanned, p3) = Passes-bind (defined_symbols root filename) _ _ p2 in
    let (exports, p4) = (Passes-seq _ _).0 p3 in
    (
      digest,
      actual,
      Passes-hash_of root filename digest hashed,
      (is_text_iff expected digest).0 ((Passes-require _ _).0 matches),
      scanned,
      sym (Passes-pure p4),
      (missing_from-empty abi_symbols actual).0 ((Passes-require _ _).0 exports),
    )

-- A plugin that passes is a file of the package with the checksum that the bundle records, `nm`
-- reads its symbol table, which is the result, and the table has every function of the plugin ABI.
pub validate_plugin-IsChecked :
    (root : Package) (bundle : Fields) (symbols : Option (List String))
    → Passes (validate_plugin root bundle) symbols
    → IsChecked root bundle symbols
unfolding validate_plugin
validate_plugin-IsChecked root bundle symbols p =
    let (plugin, is_object, p1) =
      Passes-some (as_object (get bundle "plugin")) _ _ (not-Passes-error_then _ _) p in
    let (filename, is_name, p2) =
      Passes-some (as_nonempty_text (get plugin "filename")) _ _ (not-Passes-error_then _ _) p1 in
    let (there, p3) = Passes-then (root.is_file filename) _ _ (not-Passes-error_then _ _) p2 in
    let (digest, actual, hashed, recorded, scanned, kept, exports) =
      validate_binary-checks root filename (get plugin "sha256") symbols p3 in
    record {
      plugin = plugin;
      filename = filename;
      digest = digest;
      actual_symbols = actual;
      bundled = as_object-eq-some _ is_object;
      named = (as_nonempty_text-eq-some _ is_name).0;
      there = there;
      hashed = hashed;
      recorded = recorded;
      scanned = scanned;
      kept = kept;
      exports = exports;
    }
