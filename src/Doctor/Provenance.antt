-- ===== src/Doctor/Provenance.antt =====
-- `validate_build_provenance`.
pub mod Recorded
use libpglite.Prelude.{
  String, Bool, false, Option, none, some, List, [], ◌∷◌, ◌&&◌, ends_with, file_name, if◌then◌else◌,
}
use libpglite.Prelude.Dict.{Dict, lookup, has_key}
use libpglite.Json.{
  get, text, as_text, as_object, as_nonempty_text, to_value, is_some_text, same_text,
}
use libpglite.Check.{Check, lit, repr, done, error, require, each, ◌>>=◌, ◌>>◌}
use libpglite.Manifest.{parse_key_value_file}
use libpglite.Timestamp.{is_utc_form}
use libpglite.Doctor.{Doctor, diagnostic_path, with_diagnostic, manifest_value_at}

abbrev pub provenance_fields : List (String × String)
provenance_fields =
    ("target", "target")
    ∷ ("release_version", "libpgliteReleaseVersion")
    ∷ ("release_mode", "releaseMode")
    ∷ ("runtime_status", "runtimeStatus")
    ∷ ("libpglite_git_commit", "libpgliteGitCommit")
    ∷ []

abbrev pub provenance_files : List (String × String)
provenance_files =
    ("nativeLinkManifest", "native_manifest")
    ∷ ("extensionInventory", "extension_inventory")
    ∷ ("pluginDefinedSymbols", "plugin_defined_symbols")
    ∷ ("backendExportSymbols", "backend_export_symbols")
    ∷ ("dependencies", "dependencies")
    ∷ ("dependencyManifest", "dependency_manifest")
    ∷ ("platformBaseline", "platform_baseline")
    ∷ ("sourceProvenance", "source_provenance")
    ∷ ("runtimeLifecycle", "runtime_lifecycle")
    ∷ ("conformanceResults", "conformance_results")
    ∷ []

-- `values.get(key) == expected`, with the message of a mismatch.
unfoldable pub require_value : Dict String → String → String → Check (Unit {0})
require_value values key expected = require (is_some_text (lookup key values) expected) (
    lit "build provenance "
    ∷ lit key
    ∷ lit " mismatch: bundle="
    ∷ repr (text expected)
    ∷ lit " provenance="
    ∷ repr (to_value (lookup key values))
    ∷ [])

unfoldable pub require_some_value : Dict String → String → Option String → Check (Unit {0})
require_some_value values key none = done
require_some_value values key (some expected) = require_value values key expected

module _ (d : Doctor) (values : Dict String) where
  unfoldable pub validate_plugin_fields : Check (Unit {0})
  validate_plugin_fields = elim (as_object (get d.bundle "plugin")) [
    | none ↦ done
    | some plugin ↦ do
      require_some_value values "plugin_filename" (as_text (get plugin "filename"))
      require_some_value values "plugin_sha256" (as_text (get plugin "sha256"))
  ]

  unfoldable pub validate_macos_target : Check (Unit {0})
  validate_macos_target = do
    native_manifest_path ← diagnostic_path d "nativeLinkManifest"
    expected ← manifest_value_at d.root native_manifest_path "macos_deployment_target"
    elim (as_nonempty_text (to_value (lookup "macos_deployment_target" values))) [
      | none ↦ error (lit "build provenance is missing macos_deployment_target" ∷ [])
      | some actual ↦ require (same_text (some actual) expected) (
          lit "build provenance macos_deployment_target mismatch: manifest="
          ∷ repr (to_value expected)
          ∷ lit " provenance="
          ∷ repr (text actual)
          ∷ [])
    ]

  unfoldable pub validate_linux_baseline : Check (Unit {0})
  validate_linux_baseline =
      require
        (is_some_text (lookup "linux_baseline_id" values) "ubuntu"
          && is_some_text (lookup "linux_baseline_version_id" values) "24.04")
        (lit "build provenance Linux baseline mismatch: "
          ∷ repr (to_value (lookup "linux_baseline_id" values))
          ∷ lit " "
          ∷ repr (to_value (lookup "linux_baseline_version_id" values))
          ∷ [])

  unfoldable pub validate_target_baseline : Option String → Check (Unit {0})
  validate_target_baseline none = done
  validate_target_baseline (some target) =
      if ends_with target "apple-darwin"
      then validate_macos_target
      else if ends_with target "linux-gnu"
      then validate_linux_baseline
      else done

  unfoldable pub name_of : Option String → Option String
  name_of none = none
  name_of (some path) = some (file_name path)

  unfoldable pub validate_recorded_files : Check (Unit {0})
  validate_recorded_files = elim (as_object (get d.bundle "diagnostics")) [
    | none ↦ done
    | some diagnostics ↦ do
      each provenance_files (λ (diagnostic_key, provenance_key).
          require_some_value values provenance_key
            (name_of (as_text (get diagnostics diagnostic_key))))
      validate_target_baseline (as_text (get d.bundle "target"))
      require_some_value values "dependency_prefix"
          (name_of (as_text (get diagnostics "dependencyPrefix")))
  ]

  unfoldable pub is_stamp : Option String → Bool
  is_stamp none = false
  is_stamp (some s) = is_utc_form d.root.digit s

  unfoldable pub validate_values : Check (Unit {0})
  validate_values = do
    each provenance_fields (λ (key, bundle_key).
        require_some_value values key (as_nonempty_text (get d.bundle bundle_key)))
    validate_plugin_fields
    validate_recorded_files
    require (is_stamp (lookup "packaged_at_utc" values))
        (lit "build provenance packaged_at_utc is missing or invalid" ∷ [])
    each ("uname" ∷ "rustc_begin" ∷ "rustc_end" ∷ "cc_begin" ∷ "cc_end" ∷ [])
        (λ key. require (has_key key values) (lit "build provenance is missing " ∷ lit key ∷ []))

unfoldable pub validate_build_provenance : Doctor → Check (Unit {0})
validate_build_provenance d =
    with_diagnostic d "buildProvenance"
      λ path. do values ← parse_key_value_file d.root path; validate_values d values
