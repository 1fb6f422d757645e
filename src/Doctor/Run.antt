-- ===== src/Doctor/Run.antt =====
-- `Doctor.run` and `Doctor.finish`: the validators in their order, and the exit status.
pub mod Accepted
pub mod Flag
pub mod Strict
use libpglite.Prelude.{ℕ, Bool, List, is_empty, if◌then◌else◌}
use libpglite.Json.{Fields}
use libpglite.Check.{Message, Outcome, ok, raised, Check, pure, ◌>>=◌, ◌>>◌}
use libpglite.Package.{Package}
use libpglite.Doctor.{Doctor}
use libpglite.Doctor.Bundle.{read_bundle, validate_bundle}
use libpglite.Doctor.Plugin.{validate_plugin}
use libpglite.Doctor.Prefix.{validate_postgres_prefix, validate_native_only_payload}
use libpglite.Doctor.Diagnostics.{validate_diagnostics}
use libpglite.Doctor.Provenance.{validate_build_provenance}
use libpglite.Doctor.Baseline.{validate_platform_baseline}
use libpglite.Doctor.Sources.{validate_source_provenance}
use libpglite.Doctor.Lifecycle.{validate_lifecycle}
use libpglite.Doctor.Conformance.{validate_conformance}
use libpglite.Doctor.Extensions.{validate_extensions}
use libpglite.Doctor.Dependencies.{validate_dependencies}

-- The validators that run once the bundle and the plugin's symbols are known.
unfoldable pub validate_contents : Doctor → Check (Unit {0})
validate_contents d = do
  validate_postgres_prefix d
  validate_native_only_payload d
  validate_diagnostics d
  validate_build_provenance d
  validate_platform_baseline d
  validate_source_provenance d
  validate_lifecycle d
  validate_conformance d
  validate_extensions d
  validate_dependencies d

-- Returns the attribute `bundle`, which the self-test reads.
unfoldable pub run : Package → Bool → Check Fields
run root strict_relocatable = do
  bundle ← read_bundle root
  validate_bundle bundle
  symbols ← validate_plugin root bundle
  validate_contents (record {
    root = root;
    strict_relocatable = strict_relocatable;
    bundle = bundle;
    actual_plugin_symbols = symbols;
  })
  pure bundle

unfoldable pub finish {ℓ} : {A : Type ℓ} → Outcome A → List Message → ℕ
finish (ok a) errors = if is_empty errors then 0 else 1
finish (raised e) errors = 1

-- The status of the process: `finish` after a run that returned, and 1 after an exception.
unfoldable pub exit_status {ℓ} : {A : Type ℓ} → Check A → ℕ
exit_status m = finish m.outcome m.errors
