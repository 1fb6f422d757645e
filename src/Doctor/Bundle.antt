-- ===== src/Doctor/Bundle.antt =====
-- `read_bundle` and `validate_bundle`.
pub mod Valid
use libpglite.Prelude.{
  String, Bool, true, false, Option, none, some, List, [], ◌∷◌, ◌&&◌, not, if◌then◌else◌,
}
use libpglite.Json.{Fields, end, Value, get, has, is_text, is_num, as_object}
use libpglite.Check.{Check, lit, repr, pure, done, error, require, each, ◌>>=◌, ◌>>◌}
use libpglite.Package.{Package}
use libpglite.Doctor.{in_set}

unfoldable pub read_bundle : Package → Check Fields
read_bundle root =
    if root.is_file "libpglite-native-bundle.json"
    then elim (root.load_json "libpglite-native-bundle.json") [
      | none ↦ do error (lit "bundle JSON is not readable: " ∷ []); pure end
      | some document ↦ elim (as_object document) [
        | none ↦ do error (lit "bundle JSON root must be an object" ∷ []); pure end
        | some bundle ↦ pure bundle
      ]
    ]
    else (do error (lit "missing libpglite-native-bundle.json" ∷ []); pure end)

abbrev pub required_keys : List String
required_keys =
    "target" ∷ "pluginAbiVersion" ∷ "libpgliteReleaseVersion" ∷ "libpgliteGitCommit" ∷ "releaseMode"
    ∷ "runtimeStatus" ∷ "plugin" ∷ "postgresPrefix" ∷ "diagnostics" ∷ []

abbrev pub release_modes : List String
release_modes = "development" ∷ "production" ∷ []

abbrev pub runtime_statuses : List String
runtime_statuses =
    "native-runtime-development" ∷ "native-runtime-pending-adr-0002" ∷ "runtime-ready" ∷ []

-- The chain of tests on `runtimeStatus`; `known` is its membership.
unfoldable pub validate_status : Value → Value → Bool → Check (Unit {0})
validate_status mode status known =
    if not known
    then error (lit "unsupported runtimeStatus: " ∷ repr status ∷ [])
    else if is_text mode "production" && not (is_text status "runtime-ready")
    then error (lit "production package runtimeStatus must be 'runtime-ready'" ∷ [])
    else if is_text mode "development" && is_text status "runtime-ready"
    then error (lit "development package must not claim runtimeStatus 'runtime-ready'" ∷ [])
    else done

unfoldable pub validate_bundle : Fields → Check (Unit {0})
validate_bundle bundle = do
  each required_keys (λ key. require (has bundle key) (lit "bundle is missing " ∷ lit key ∷ []))
  known_mode ← in_set (get bundle "releaseMode") release_modes
  require known_mode (lit "unsupported releaseMode: " ∷ repr (get bundle "releaseMode") ∷ [])
  known_status ← in_set (get bundle "runtimeStatus") runtime_statuses
  validate_status (get bundle "releaseMode") (get bundle "runtimeStatus") known_status
  require (is_num (get bundle "pluginAbiVersion") 1) (lit "pluginAbiVersion must be 1" ∷ [])
