-- ===== src/Doctor/Lifecycle/SingleStart.antt =====
-- What a passing `validate_lifecycle` says of the runtime lifecycle.
use libpglite.Prelude.{◌≡◌, String, true, false, some}
use libpglite.Json.{Fields, Value, object, text, boolean, get, equals}
use libpglite.Check.Laws.{Passes, Passes-seq, Passes-require, Passes-each-require}
use libpglite.Doctor.{Doctor}
use libpglite.Doctor.Laws.{Names, Passes-with_diagnostic, Passes-with_document}
use libpglite.Doctor.Lifecycle.{
  lifecycle_contract, lists_text, validate_contract, validate_lifecycle,
}

-- The document that the bundle names allows one start in a process, neither a restart nor a second
-- runtime, and cites the suite that proves it.
pub record IsSingleStart (d : Doctor) (diagnostics : Fields) : Type 0 where
  pub path : String
  pub lifecycle : Fields
  pub named : Names d diagnostics "runtimeLifecycle" path
  pub loaded : d.root.load_json path ≡ some (object lifecycle)
  pub of_format :
      equals (get lifecycle "format") (text "libpglite-native-runtime-lifecycle-v1") ≡ true
  pub single_start : equals (get lifecycle "contract") (text "single-start-per-process") ≡ true
  pub not_restarted : equals (get lifecycle "restartSupported") (boolean false) ≡ true
  pub not_concurrent : equals (get lifecycle "concurrentRuntimeSupported") (boolean false) ≡ true
  pub second_fails :
      equals (get lifecycle "secondStartupBehavior") (text "fails-before-entering-postgres") ≡ true
  pub proven : lists_text (get lifecycle "provenByConformance") "raw-protocol" ≡ true

-- A passing validate_lifecycle means that the diagnostic which the bundle names is a JSON object
-- with the five entries of the contract, a single start per process among them, and that it cites
-- the conformance of the raw protocol.
pub validate_lifecycle-IsSingleStart :
    (d : Doctor) (diagnostics : Fields)
    → get d.bundle "diagnostics" ≡ object diagnostics
    → Passes (validate_lifecycle d) tt
    → IsSingleStart d diagnostics
unfolding validate_lifecycle validate_contract
validate_lifecycle-IsSingleStart d diagnostics e p =
    let (path, names, q) = Passes-with_diagnostic d "runtimeLifecycle" diagnostics _ e p in
    let (fields, loads, r) = Passes-with_document d.root path _ _ validate_contract q in
    let (entries, cites) = (Passes-seq _ _).0 r in
    let contracted =
      (Passes-each-require (λ (entry : String × Value). equals (get fields entry.0) entry.1) _
          lifecycle_contract).0
        entries in
    record {
      path = path;
      lifecycle = fields;
      named = names;
      loaded = loads;
      of_format = contracted.0;
      single_start = contracted.1.0;
      not_restarted = contracted.1.1.0;
      not_concurrent = contracted.1.1.1.0;
      second_fails = contracted.1.1.1.1.0;
      proven = (Passes-require _ _).0 cites;
    }
