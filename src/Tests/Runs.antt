-- ===== src/Tests/Runs.antt =====
-- Whole runs of the doctor over the sample.
use libpglite.Prelude.{◌∷◌, ◌≡◌, refl, Bool, true, [], some, String, ◌<>◌, str_eq, if◌then◌else◌}
use libpglite.Check.{ok, lit, repr}
use libpglite.Json.{Fields, text}
use libpglite.Package.{Package}
use libpglite.Prelude.Text
use libpglite.Prelude.Dict
use libpglite.Json
use libpglite.Check
use libpglite.Manifest
use libpglite.Symbols
use libpglite.Timestamp
use libpglite.Extension
use libpglite.Doctor
use libpglite.Doctor.Baseline
use libpglite.Doctor.Bundle
use libpglite.Doctor.Conformance
use libpglite.Doctor.Dependencies
use libpglite.Doctor.Diagnostics
use libpglite.Doctor.Extensions
use libpglite.Doctor.Lifecycle
use libpglite.Doctor.Plugin
use libpglite.Doctor.Prefix
use libpglite.Doctor.Provenance
use libpglite.Doctor.Run
use libpglite.Doctor.Sources
use libpglite.Check.Laws.{Passes}
use libpglite.Tests.Sample.{sample, bundle, symbols, lines, digest, commit}

-- `Run.run` with all that it calls unfolded.
unfoldable pub check : Package → Bool → Check.Check Fields
unfolding Text.starts_with Text.strip_prefix Text.remove_prefix Text.ends_with Text.contains
    Text.lstrip Text.rstrip Text.strip Text.splitlines Text.split Text.split_once Text.before
    Text.words_from Text.words Text.is_hex Text.is_digits Text.mem Text.lower Text.file_name
    Text.suffix Text.has_parent_part Dict.lookup Dict.insert Dict.keys Dict.set_default
    Dict.insert_sorted Dict.sort_unique Dict.missing_from Json.get Json.has Check.◌>>=◌
    Check.require Check.each Manifest.parse_semicolon_fields Manifest.parse_inventory_line
    Manifest.format_symbol_delta Manifest.lines_of Manifest.read_text Manifest.nonempty_lines
    Manifest.parse_key_value_file Manifest.manifest_values Manifest.first_manifest_value
    Manifest.manifest_patch_sha256s Symbols.is_version_node Symbols.output_of
    Symbols.defined_symbols Symbols.undefined_symbols Symbols.native_extension_modules
    Timestamp.earlier Timestamp.is_utc_form Timestamp.strptime Timestamp.parse_utc_timestamp
    Extension.match_sql Extension.read_scripts Extension.can_install
    Extension.extension_can_install_version Json.equals Doctor.in_set Doctor.is_production
    Doctor.error_if_strict Doctor.file_of Doctor.diagnostic_path Doctor.present_file
    Doctor.diagnostic_path_if_present Doctor.with_diagnostic Doctor.with_document
    Doctor.manifest_value_at Baseline.require_nonempty_text Baseline.validate_os_release
    Baseline.validate_linux Baseline.validate_macos Baseline.validate_target
    Baseline.validate_baseline Baseline.validate_platform_baseline Bundle.read_bundle
    Bundle.validate_status Bundle.validate_bundle Conformance.all_texts Conformance.texts_of
    Conformance.is_missing Conformance.ends_early Conformance.log_path Conformance.validate_times
    Conformance.validate_command Conformance.validate_log Conformance.validate_cases
    Conformance.validate_result Conformance.validate_conformance_result
    Conformance.validate_conformance Dependencies.escapes
    Dependencies.loader_relative_escapes_package Dependencies.platform_of Dependencies.bad_entry
    Dependencies.validate_dependency Dependencies.collect_bad Dependencies.require_exit_code
    Dependencies.validate_object Dependencies.path_seen Dependencies.is_seen
    Dependencies.join_messages Dependencies.validate_tool Dependencies.validate_platform
    Dependencies.validate_prefix_manifest Dependencies.validate_dependency_prefix
    Dependencies.validate_objects Dependencies.validate_manifest Dependencies.is_leaking_line
    Dependencies.validate_dependency_lines Dependencies.validate_dependencies
    Diagnostics.require_within Diagnostics.validate_format_header Diagnostics.validate_not_empty
    Diagnostics.validate_freshness Diagnostics.validate_plugin_symbols Diagnostics.claims_of
    Diagnostics.missing_claims Diagnostics.validate_extension_backend_symbol_claims
    Diagnostics.validate_linux_plugin_symbol_boundary Diagnostics.validate_exports
    Diagnostics.validate_link_manifest Diagnostics.validate_backend_symbols
    Diagnostics.validate_diagnostics Extensions.until_quote Extensions.quoted
    Extensions.control_line Extensions.first_line Extensions.control_value Extensions.is_module_char
    Extensions.module_run Extensions.libdir_modules Extensions.native_module_exists
    Extensions.path_modules Extensions.text_modules Extensions.module_names Extensions.read_texts
    Extensions.validate_versions Extensions.validate_contrib_extension
    Extensions.validate_contrib_module_inventory Extensions.validate_postgis_runtime_data
    Extensions.is_commit Extensions.is_https Extensions.validate_extension_status
    Extensions.validate_other_extension_inventory Extensions.named Extensions.validate_entry
    Extensions.validate_inventory_line Extensions.validate_extensions Lifecycle.validate_contract
    Lifecycle.validate_lifecycle Plugin.hash_of Plugin.validate_binary Plugin.validate_plugin
    Prefix.looks_like_build_path Prefix.leaked_paths Prefix.validate_postgres_prefix_text_paths
    Prefix.validate_prefix_entry Prefix.validate_postgres_prefix Prefix.is_non_native
    Prefix.validate_native_only_payload Provenance.require_value Provenance.require_some_value
    Provenance.validate_plugin_fields Provenance.validate_macos_target
    Provenance.validate_linux_baseline Provenance.validate_target_baseline Provenance.name_of
    Provenance.validate_recorded_files Provenance.is_stamp Provenance.validate_values
    Provenance.validate_build_provenance Run.validate_contents Run.run Run.finish Run.exit_status
    Sources.validate_postgres_pglite Sources.agrees Sources.value_of Sources.compare_source
    Sources.compare_fingerprint Sources.read_patch_listing Sources.read_manifest_source
    Sources.see_path Sources.expected_digest Sources.compare_digest Sources.check_digest
    Sources.validate_patch Sources.validate_patches Sources.validate_patch_list
    Sources.validate_provenance Sources.validate_source_provenance
check root strict = Run.run root strict

sample_report : check sample true ≡ record { outcome = ok bundle; errors = []; warnings = [] }
unfolding check
sample_report = refl

pub sample_status : Run.exit_status (Run.run sample true) ≡ 0
unfolding check
sample_status = refl

-- The same package with the link manifest of a build from other patches.
abbrev other_fingerprint : String
other_fingerprint = "0000000000000000000000000000000000000000"

abbrev stale_link_manifest : String
stale_link_manifest = lines (
    "format=libpglite-native-link-manifest-v1"
    ∷ "backend_export_symbol=palloc"
    ∷ ("patch_fingerprint=" <> other_fingerprint)
    ∷ "patch=patches/a.patch"
    ∷ ("patch_sha256=patches/a.patch;sha256=" <> digest)
    ∷ [])

abbrev stale : Package
stale = record sample {
  read_text =
      λ path. if str_eq path "d/link.txt" then some stale_link_manifest else sample.read_text path;
}

stale_report :
    (check stale true).errors
    ≡ (lit "source provenance patchFingerprint mismatch: manifest="
        ∷ repr (text other_fingerprint)
        ∷ lit " provenance="
        ∷ repr (text commit)
        ∷ [])
      ∷ []
unfolding check
stale_report = refl

stale_status : Run.exit_status (Run.run stale true) ≡ 1
unfolding check
stale_status = refl

-- The doctor when it has read the sample.
abbrev pub doctor : Doctor.Doctor
doctor = record {
  root = sample;
  strict_relocatable = true;
  bundle = bundle;
  actual_plugin_symbols = some symbols;
}

pub sample_bundle : Passes (Bundle.validate_bundle bundle) tt
unfolding check
sample_bundle = record { returns = refl; clean = refl }

pub sample_plugin : Passes (Plugin.validate_plugin sample bundle) (some symbols)
unfolding check
sample_plugin = record { returns = refl; clean = refl }

pub sample_postgres_prefix : Passes (Prefix.validate_postgres_prefix doctor) tt
unfolding check
sample_postgres_prefix = record { returns = refl; clean = refl }

pub sample_native_only_payload : Passes (Prefix.validate_native_only_payload doctor) tt
unfolding check
sample_native_only_payload = record { returns = refl; clean = refl }

pub sample_diagnostics : Passes (Diagnostics.validate_diagnostics doctor) tt
unfolding check
sample_diagnostics = record { returns = refl; clean = refl }

pub sample_build_provenance : Passes (Provenance.validate_build_provenance doctor) tt
unfolding check
sample_build_provenance = record { returns = refl; clean = refl }

pub sample_platform_baseline : Passes (Baseline.validate_platform_baseline doctor) tt
unfolding check
sample_platform_baseline = record { returns = refl; clean = refl }

pub sample_source_provenance : Passes (Sources.validate_source_provenance doctor) tt
unfolding check
sample_source_provenance = record { returns = refl; clean = refl }

pub sample_lifecycle : Passes (Lifecycle.validate_lifecycle doctor) tt
unfolding check
sample_lifecycle = record { returns = refl; clean = refl }

pub sample_conformance : Passes (Conformance.validate_conformance doctor) tt
unfolding check
sample_conformance = record { returns = refl; clean = refl }

pub sample_extensions : Passes (Extensions.validate_extensions doctor) tt
unfolding check
sample_extensions = record { returns = refl; clean = refl }

pub sample_dependencies : Passes (Dependencies.validate_dependencies doctor) tt
unfolding check
sample_dependencies = record { returns = refl; clean = refl }

postgis_upgrade :
    Extension.extension_can_install_version "postgis"
      ("postgis--3.4.0.sql" ∷ "postgis--3.4.0--3.5.0.sql" ∷ "postgis--3.5.0--3.6.0.sql"
        ∷ "postgis--ANY--3.7.0.sql" ∷ [])
      "3.6.0"
    ≡ true
unfolding Extension.extension_can_install_version Extension.can_install Extension.read_scripts
    Extension.match_sql Text.strip_prefix
postgis_upgrade = refl
