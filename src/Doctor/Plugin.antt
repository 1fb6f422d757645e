-- ===== src/Doctor/Plugin.antt =====
-- `validate_plugin`.
pub mod Checked
use libpglite.Prelude.{String, Option, none, some, List, [], ◌∷◌, join, is_empty, if◌then◌else◌}
use libpglite.Prelude.Dict.{missing_from}
use libpglite.Json.{Fields, Value, get, is_text, as_object, as_nonempty_text}
use libpglite.Check.{Check, lit, str, os_error, pure, done, raise, error, require, ◌>>=◌, ◌>>◌}
use libpglite.Package.{Package}
use libpglite.Symbols.{defined_symbols}
use libpglite.Doctor.{abi_symbols}

-- `sha256(path)`
unfoldable pub hash_of : Package → String → Check String
hash_of root path = elim (root.hash path) [ none ↦ raise os_error | some digest ↦ pure digest ]

-- The part of the method for a plugin binary that is there.
unfoldable pub validate_binary : Package → String → Value → Check (Option (List String))
validate_binary root filename expected_sha = do
  actual_sha ← hash_of root filename
  require (is_text expected_sha actual_sha) (
      lit "plugin checksum mismatch: bundle="
      ∷ str expected_sha
      ∷ lit " actual="
      ∷ lit actual_sha
      ∷ [])
  actual_symbols ← defined_symbols root filename
  require (is_empty (missing_from abi_symbols actual_symbols)) (
      lit "plugin binary is missing ABI symbols: "
      ∷ lit (join ", " (missing_from abi_symbols actual_symbols))
      ∷ [])
  pure (some actual_symbols)

-- Returns what the method stores in `actual_plugin_symbols`.
unfoldable pub validate_plugin : Package → Fields → Check (Option (List String))
validate_plugin root bundle = elim (as_object (get bundle "plugin")) [
  | none ↦ do error (lit "bundle plugin field must be an object" ∷ []); pure none
  | some plugin ↦ elim (as_nonempty_text (get plugin "filename")) [
    | none ↦ do error (lit "bundle plugin.filename is missing" ∷ []); pure none
    | some filename ↦
        if root.is_file filename
        then validate_binary root filename (get plugin "sha256")
        else (do error (lit "plugin binary is missing: " ∷ lit filename ∷ []); pure none)
  ]
]
