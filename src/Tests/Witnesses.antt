-- ===== src/Tests/Witnesses.antt =====
-- The theorems at the sample package and at a few scripts of an extension.
use libpglite.Prelude.{false, String, mem, ◌≡◌, refl, true, some, [], ◌∷◌, All, inl, inr}
use libpglite.Extension.{Scripts, can_install}
use libpglite.Extension.Graph.{base, upgrade}
use libpglite.Extension.Installs.{can_install_iff}
use libpglite.Doctor.Bundle.Valid.{IsValid, validate_bundle-Passes}
use libpglite.Doctor.Plugin.Checked.{IsChecked, validate_plugin-IsChecked}
use libpglite.Doctor.Prefix.Clean.{
  IsForeign, IsComplete, validate_postgres_prefix-IsComplete, validate_native_only_payload-Passes,
}
use libpglite.Doctor.Run.{run, exit_status}
use libpglite.Doctor.Run.Strict.{strict-exit_status}
use libpglite.Doctor.Conformance.{conformance_results}
use libpglite.Doctor.Conformance.Verified.{IsVerified, validate_conformance-IsVerified}
use libpglite.Doctor.Diagnostics.Agrees.{IsConsistent, validate_diagnostics-IsConsistent}
use libpglite.Doctor.Dependencies.Portable.{Dependencies, validate_dependencies-Dependencies}
use libpglite.Doctor.Extensions.Installable.{
  Lists, IsInstallable, validate_extensions-IsInstallable,
}
use libpglite.Doctor.Laws.{Names}
use libpglite.Doctor.Sources.Patched.{ArePatched, validate_source_provenance-ArePatched}
use libpglite.Manifest.{lines_of}
use libpglite.Json.{text, get}
use libpglite.Doctor.Run.Accepted.{Accepted, exit_status-Accepted}
use libpglite.Tests.Sample.{sample, bundle, diagnostics, symbols}
use libpglite.Tests.Runs.{
  doctor, sample_status, sample_bundle, sample_plugin, sample_postgres_prefix,
  sample_native_only_payload, sample_source_provenance, sample_conformance, sample_diagnostics,
  sample_dependencies, sample_extensions,
}

exit_status-Accepted_example : Accepted sample true
exit_status-Accepted_example = (exit_status-Accepted sample true).0 sample_status

validate_bundle-Passes_example : IsValid bundle
validate_bundle-Passes_example = (validate_bundle-Passes bundle).0 sample_bundle

validate_plugin-IsChecked_example : IsChecked sample bundle (some symbols)
validate_plugin-IsChecked_example =
    validate_plugin-IsChecked sample bundle (some symbols) sample_plugin

validate_postgres_prefix-IsComplete_example : IsComplete doctor
validate_postgres_prefix-IsComplete_example =
    validate_postgres_prefix-IsComplete doctor sample_postgres_prefix

validate_native_only_payload-Passes_example :
    All (λ path. sample.is_file path ≡ true → ¬ IsForeign path) (sample.rglob "")
validate_native_only_payload-Passes_example =
    (validate_native_only_payload-Passes doctor).0 sample_native_only_payload

-- A cycle of upgrades that is left by its second version.
abbrev cyclic : Scripts
cyclic = record {
  base_versions = "1.0" ∷ [];
  upgrade_edges = ("1.1", "1.0") ∷ ("1.0", "1.1") ∷ ("1.1", "2.0") ∷ [];
}

can_install_iff_example : can_install cyclic "2.0" ≡ true
unfolding mem
can_install_iff_example =
    (can_install_iff cyclic "2.0").1
      (upgrade (upgrade (base refl) (inr (inl (refl, refl)))) (inr (inr (inl (refl, refl)))))

strict-exit_status_example : exit_status (run sample false) ≡ 0
strict-exit_status_example = strict-exit_status sample sample_status

validate_conformance-IsVerified_example :
    (dir : String) × (get diagnostics "conformanceResults" ≡ text dir)
    × (sample.is_dir dir ≡ true)
    × All (λ (name, fragments). IsVerified doctor dir name fragments) conformance_results
unfolding get
validate_conformance-IsVerified_example =
    validate_conformance-IsVerified doctor diagnostics refl sample_conformance

validate_diagnostics-IsConsistent_example : IsConsistent doctor diagnostics symbols
unfolding get
validate_diagnostics-IsConsistent_example =
    validate_diagnostics-IsConsistent doctor diagnostics symbols refl refl sample_diagnostics

validate_dependencies-Dependencies_example : Dependencies doctor diagnostics
unfolding get
validate_dependencies-Dependencies_example =
    validate_dependencies-Dependencies doctor diagnostics refl refl sample_dependencies

validate_extensions-IsInstallable_example :
    (inventory content : String) × Names doctor diagnostics "extensionInventory" inventory
    × (sample.read_text inventory ≡ some content)
    × All
        (λ line. (extension : String) → Lists line extension → IsInstallable doctor extension)
        (lines_of content)
unfolding get
validate_extensions-IsInstallable_example =
    validate_extensions-IsInstallable doctor diagnostics refl sample_extensions

validate_source_provenance-ArePatched_example : ArePatched doctor diagnostics
unfolding get
validate_source_provenance-ArePatched_example =
    validate_source_provenance-ArePatched doctor diagnostics refl sample_source_provenance
