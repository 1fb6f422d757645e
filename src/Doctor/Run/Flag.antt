-- ===== src/Doctor/Run/Flag.antt =====
-- The validators that do not read the flag `strict_relocatable`.
use libpglite.Prelude.{◌≡◌, refl, String, Bool, true, false, Option, List}
use libpglite.Json.{Fields}
use libpglite.Package.{Package}
use libpglite.Doctor
use libpglite.Doctor.{Doctor, is_production, error_if_strict}
use libpglite.Doctor.Prefix
use libpglite.Doctor.Diagnostics
use libpglite.Doctor.Provenance
use libpglite.Doctor.Baseline
use libpglite.Doctor.Sources
use libpglite.Doctor.Lifecycle
use libpglite.Doctor.Conformance
use libpglite.Doctor.Extensions

-- The doctor with the flag and without it.
abbrev pub doctor : Package → Fields → Option (List String) → Bool → Doctor
doctor root bundle symbols strict = record {
  root = root;
  strict_relocatable = strict;
  bundle = bundle;
  actual_plugin_symbols = symbols;
}

module _ (root : Package) (bundle : Fields) (symbols : Option (List String)) where
  -- The flag is of no matter to the validators that do not read it.
  pub payload :
      Prefix.validate_native_only_payload (doctor root bundle symbols true)
      ≡ Prefix.validate_native_only_payload (doctor root bundle symbols false)
  unfolding Prefix.validate_native_only_payload Prefix.is_non_native
  payload = refl

  pub diagnostics :
      Diagnostics.validate_diagnostics (doctor root bundle symbols true)
      ≡ Diagnostics.validate_diagnostics (doctor root bundle symbols false)
  unfolding Diagnostics.validate_freshness Diagnostics.validate_format_header
      Diagnostics.validate_not_empty Diagnostics.validate_plugin_symbols
      Diagnostics.validate_extension_backend_symbol_claims
      Diagnostics.validate_linux_plugin_symbol_boundary Diagnostics.validate_exports
      Diagnostics.validate_link_manifest Diagnostics.validate_backend_symbols
      Diagnostics.validate_diagnostics Doctor.with_diagnostic Doctor.diagnostic_path
      Doctor.diagnostic_path_if_present Doctor.is_production
  diagnostics = refl

  pub provenance :
      Provenance.validate_build_provenance (doctor root bundle symbols true)
      ≡ Provenance.validate_build_provenance (doctor root bundle symbols false)
  unfolding Provenance.name_of Provenance.is_stamp Provenance.validate_plugin_fields
      Provenance.validate_macos_target Provenance.validate_linux_baseline
      Provenance.validate_target_baseline Provenance.validate_recorded_files
      Provenance.require_value Provenance.require_some_value Provenance.validate_values
      Provenance.validate_build_provenance Doctor.with_diagnostic Doctor.diagnostic_path
      Doctor.diagnostic_path_if_present Doctor.is_production
  provenance = refl

  pub baseline :
      Baseline.validate_platform_baseline (doctor root bundle symbols true)
      ≡ Baseline.validate_platform_baseline (doctor root bundle symbols false)
  unfolding Baseline.validate_linux Baseline.validate_macos Baseline.validate_target
      Baseline.validate_baseline Baseline.validate_platform_baseline Baseline.require_nonempty_text
      Baseline.validate_os_release Doctor.with_diagnostic Doctor.diagnostic_path
      Doctor.diagnostic_path_if_present Doctor.is_production
  baseline = refl

  pub sources :
      Sources.validate_source_provenance (doctor root bundle symbols true)
      ≡ Sources.validate_source_provenance (doctor root bundle symbols false)
  unfolding Sources.compare_source Sources.compare_fingerprint Sources.read_patch_listing
      Sources.read_manifest_source Sources.validate_patch_list Sources.validate_provenance
      Sources.validate_source_provenance Doctor.with_diagnostic Doctor.diagnostic_path
      Doctor.diagnostic_path_if_present Doctor.is_production
  sources = refl

  pub lifecycle :
      Lifecycle.validate_lifecycle (doctor root bundle symbols true)
      ≡ Lifecycle.validate_lifecycle (doctor root bundle symbols false)
  unfolding Lifecycle.validate_lifecycle Doctor.with_diagnostic Doctor.diagnostic_path
      Doctor.diagnostic_path_if_present Doctor.is_production
  lifecycle = refl

  pub conformance :
      Conformance.validate_conformance (doctor root bundle symbols true)
      ≡ Conformance.validate_conformance (doctor root bundle symbols false)
  unfolding Conformance.log_path Conformance.validate_times Conformance.validate_command
      Conformance.validate_log Conformance.validate_cases Conformance.validate_result
      Conformance.validate_conformance_result Conformance.validate_conformance
      Doctor.with_diagnostic Doctor.diagnostic_path Doctor.diagnostic_path_if_present
      Doctor.is_production
  conformance = refl

  pub extensions :
      Extensions.validate_extensions (doctor root bundle symbols true)
      ≡ Extensions.validate_extensions (doctor root bundle symbols false)
  unfolding Extensions.validate_versions Extensions.validate_contrib_extension
      Extensions.validate_contrib_module_inventory Extensions.validate_postgis_runtime_data
      Extensions.is_commit Extensions.is_https Extensions.validate_extension_status
      Extensions.validate_other_extension_inventory Extensions.named Extensions.validate_entry
      Extensions.validate_inventory_line Extensions.validate_extensions Doctor.with_diagnostic
      Doctor.diagnostic_path Doctor.diagnostic_path_if_present Doctor.is_production
  extensions = refl
