-- ===== src/Tests/Recorded.antt =====
-- The theorems on the lifecycle, the platform baseline and the build provenance at the sample.
use libpglite.Prelude.{refl, [], ◌∷◌}
use libpglite.Json.{Fields, text, get}
use libpglite.Doctor.Lifecycle.SingleStart.{IsSingleStart, validate_lifecycle-IsSingleStart}
use libpglite.Doctor.Baseline.Supported.{IsSupported, validate_platform_baseline-IsSupported}
use libpglite.Doctor.Provenance.Recorded.{IsRecorded, validate_build_provenance-IsRecorded}
use libpglite.Tests.Sample.{fields, digest, target, diagnostics}
use libpglite.Tests.Runs.{
  doctor, sample_lifecycle, sample_platform_baseline, sample_build_provenance,
}

abbrev plugin : Fields
plugin = fields (("filename", text "plugin.so") ∷ ("sha256", text digest) ∷ [])

validate_lifecycle-IsSingleStart_example : IsSingleStart doctor diagnostics
unfolding get
validate_lifecycle-IsSingleStart_example =
    validate_lifecycle-IsSingleStart doctor diagnostics refl sample_lifecycle

validate_platform_baseline-IsSupported_example : IsSupported doctor diagnostics target
unfolding get
validate_platform_baseline-IsSupported_example =
    validate_platform_baseline-IsSupported doctor diagnostics target refl refl
      sample_platform_baseline

validate_build_provenance-IsRecorded_example : IsRecorded doctor diagnostics plugin
unfolding get
validate_build_provenance-IsRecorded_example =
    validate_build_provenance-IsRecorded doctor diagnostics plugin refl refl sample_build_provenance
