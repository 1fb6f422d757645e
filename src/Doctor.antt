-- ===== src/Doctor.antt =====
-- The class `Doctor` of scripts/doctor-native-plugin-package.py: its attributes, and what several
-- of its methods share. `self.errors` and `self.warnings` are the messages of a `Check`.
pub mod Laws
pub mod Bundle
pub mod Plugin
pub mod Prefix
pub mod Diagnostics
pub mod Provenance
pub mod Baseline
pub mod Sources
pub mod Lifecycle
pub mod Conformance
pub mod Extensions
pub mod Dependencies
pub mod Run
pub mod SelfTest
pub mod Main
use libpglite.Prelude.{
  String, Bool, true, false, Option, none, some, List, [], ◌∷◌, ◌||◌, if◌then◌else◌, ◌≡◌, refl,
}
use libpglite.Json.{
  Fields, Value, get, is_text, is_one_of, is_hashable, as_object, as_nonempty_text, null,
}
use libpglite.Check.{
  Check, Message, lit, type_error, pure, done, raise, error, warning, ◌>>=◌, ◌>>◌,
}
use libpglite.Package.{Package}
use libpglite.Manifest.{first_manifest_value}

pub record Doctor : Type 0 where
  pub root : Package
  pub strict_relocatable : Bool
  pub bundle : Fields
  pub actual_plugin_symbols : Option (List String)

abbrev pub abi_symbols : List String
abi_symbols =
    "libpglite_plugin_abi_version" ∷ "libpglite_plugin_buffer_free"
    ∷ "libpglite_plugin_runtime_create" ∷ "libpglite_plugin_runtime_destroy"
    ∷ "libpglite_plugin_runtime_exec_protocol_raw" ∷ "libpglite_plugin_runtime_shutdown" ∷ []

-- `v in {…}` for a set of texts, which raises where `v` cannot be hashed
unfoldable pub in_set : Value → List String → Check Bool
in_set v names = if is_hashable v then pure (is_one_of v names) else raise type_error

unfoldable pub is_production : Fields → Bool
is_production bundle = is_text (get bundle "releaseMode") "production"

-- An error where the package must be relocatable, and a warning elsewhere.
unfoldable pub error_if_strict : Doctor → Message → Check (Unit {0})
error_if_strict d message =
    if d.strict_relocatable || is_production d.bundle then error message else warning message

-- The file of a diagnostic that the bundle must name.
unfoldable pub file_of : Package → Value → String → Check (Option String)
file_of root value key = elim (as_nonempty_text value) [
  | none ↦ do error (lit "bundle diagnostics." ∷ lit key ∷ lit " is missing" ∷ []); pure none
  | some path ↦
      if root.is_file path
      then pure (some path)
      else (do error (lit "diagnostic file is missing: " ∷ lit path ∷ []); pure none)
]

unfoldable pub diagnostic_path : Doctor → String → Check (Option String)
diagnostic_path d key = elim (as_object (get d.bundle "diagnostics")) [
  | none ↦ pure none
  | some diagnostics ↦ file_of d.root (get diagnostics key) key
]

-- The file of a diagnostic that the bundle may leave out.
unfoldable pub present_file : Package → Value → String → Check (Option String)
present_file root null key = pure none
present_file root value key = elim (as_nonempty_text value) [
  | none ↦ do error (lit "bundle diagnostics." ∷ lit key ∷ lit " is invalid" ∷ []); pure none
  | some path ↦
      if root.is_file path
      then pure (some path)
      else (do error (lit "diagnostic file is missing: " ∷ lit path ∷ []); pure none)
]

unfoldable pub diagnostic_path_if_present : Doctor → String → Check (Option String)
diagnostic_path_if_present d key = elim (as_object (get d.bundle "diagnostics")) [
  | none ↦ pure none
  | some diagnostics ↦ present_file d.root (get diagnostics key) key
]

-- `path = self.diagnostic_path(key)`, then the rest of the method unless it is `None`.
unfoldable pub with_diagnostic : Doctor → String → (String → Check (Unit {0})) → Check (Unit {0})
with_diagnostic d key rest = do
  path ← diagnostic_path d key
  elim path [ none ↦ done | some file ↦ rest file ]

-- A JSON document whose root must be an object, then the rest of the method.
unfoldable pub with_document :
    Package → String → Message → Message → (Fields → Check (Unit {0})) → Check (Unit {0})
with_document root path unreadable not_object rest = elim (root.load_json path) [
  | none ↦ error unreadable
  | some document ↦ elim (as_object document) [
    | none ↦ error not_object
    | some fields ↦ rest fields
  ]
]

-- `first_manifest_value` of the native link manifest, if its path is known.
unfoldable pub manifest_value_at : Package → Option String → String → Check (Option String)
manifest_value_at root none key = pure none
manifest_value_at root (some path) key = first_manifest_value root path key
