-- ===== src/Tests/SelfTested.antt =====
-- The doctor with its self-test over the sample.
use libpglite.Prelude.{◌≡◌, refl, ◌<>◌, true, false, none, some, [], ◌∷◌, All}
use libpglite.Check.Laws.{Passes}
use libpglite.Package.{Package}
use libpglite.Doctor.SelfTest.{Host, exited, suites, run_suite, test_prefix, run_self_test}
use libpglite.Doctor.SelfTest.Suites.{IsTested, run_self_test-IsTested, Sees, suites-Sees}
use libpglite.Doctor.Main.{Argument, maybe_extract, examine, main, process}
use libpglite.Doctor.Main.Status.{IsReleased, process-eq-zero}
use libpglite.Tests.Sample.{sample, bundle}
use libpglite.Tests.Runs.{check}

-- A machine on which every test run succeeds, with a home elsewhere in its environment.
abbrev host : Host
host = record {
  has_cargo = true;
  has_tar = true;
  environ = ("LIBPGLITE_HOME", "/opt/old") ∷ [];
  run = λ arguments env. exited 0;
  root = "/package";
  path_text = λ path. "/package/" <> path;
}

abbrev directory : Argument
directory = record { is_dir = true; is_file = false; directory = sample; extracted = none }

sample_self_test : Passes (run_self_test host sample bundle) tt
unfolding check run_self_test test_prefix run_suite suites
sample_self_test = record { returns = refl; clean = refl }

run_self_test-IsTested_example : IsTested host sample bundle
run_self_test-IsTested_example = run_self_test-IsTested host sample bundle sample_self_test

suites-Sees_example :
    All
      (λ suite. Sees "/package" "/package/lib/p.so" "/package/postgres" suite.env)
      (suites host "/package/lib/p.so" "/package/postgres")
suites-Sees_example = suites-Sees host "/package/lib/p.so" "/package/postgres"

sample_process : process host directory true true ≡ 0
unfolding check process main maybe_extract examine run_self_test test_prefix run_suite suites
sample_process = refl

process-eq-zero_example :
    (host.has_tar ≡ true)
    × (root : Package) × (maybe_extract directory ≡ some root)
    × IsReleased host root true true
process-eq-zero_example = (process-eq-zero host directory true true).0 sample_process
