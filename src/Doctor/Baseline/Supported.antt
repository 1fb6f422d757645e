-- ===== src/Doctor/Baseline/Supported.antt =====
-- What a passing `validate_platform_baseline` says of the platform that the plugin was built on.
use libpglite.Prelude.{◌≡◌, String, true, some, arith, ends_with}
use libpglite.Json.{Fields, object, text, get, is_text, as_text, as_object, equals}
use libpglite.Json.Laws.{is_text_iff, as_object-eq-some}
use libpglite.Check.Laws.{Passes, Passes-seq, Passes-require, Passes-some, Passes-error}
use libpglite.Doctor.{Doctor}
use libpglite.Doctor.Laws.{Names, Passes-with_diagnostic, Passes-with_document}
use libpglite.Doctor.Baseline.{
  validate_os_release, validate_linux, validate_target, validate_baseline,
  validate_platform_baseline,
}

-- The baseline of a Linux plugin is Ubuntu 24.04, and the machine was one.
pub record IsUbuntu (baseline : Fields) : Type 0 where
  pub expected : Fields
  pub os_release : Fields
  pub described : get baseline "baseline" ≡ object expected
  pub kind : get expected "kind" ≡ text "linux-distro"
  pub id : get expected "id" ≡ text "ubuntu"
  pub version : get expected "versionId" ≡ text "24.04"
  pub released : get baseline "osRelease" ≡ object os_release
  pub same_id : equals (get os_release "id") (get expected "id") ≡ true
  pub same_version : equals (get os_release "versionId") (get expected "versionId") ≡ true

pub record IsSupported (d : Doctor) (diagnostics : Fields) (target : String) : Type 0 where
  pub path : String
  pub baseline : Fields
  pub named : Names d diagnostics "platformBaseline" path
  pub loaded : d.root.load_json path ≡ some (object baseline)
  pub formatted : get baseline "format" ≡ text "libpglite-native-platform-baseline-v1"
  pub same_target : equals (get baseline "target") (get d.bundle "target") ≡ true
  pub linux : ends_with target "linux-gnu" ≡ true → IsUbuntu baseline

module _ (d : Doctor) (baseline : Fields) where
  validate_linux-IsUbuntu : Passes (validate_linux d baseline) tt → IsUbuntu baseline
  unfolding validate_linux validate_os_release
  validate_linux-IsUbuntu p =
      let (expected, is_object, p1) =
        Passes-some (as_object (get baseline "baseline")) _ _ Passes-error p in
      let (kind, p2) = (Passes-seq _ _).0 p1 in
      let (version, p3) = (Passes-seq _ _).0 p2 in
      let (release, p4) = (Passes-seq _ _).0 p3 in
      let (os_release, is_release, p5) =
        Passes-some (as_object (get baseline "osRelease")) _ _ Passes-error release in
      let both = (Passes-require _ _).0 version in
      let same = (Passes-require _ _).0 p5 in
      let is_id : is_text (get expected "id") "ubuntu" ≡ true = ground arith in
      let is_version : is_text (get expected "versionId") "24.04" ≡ true = ground arith in
      record {
        expected = expected;
        os_release = os_release;
        described = as_object-eq-some _ is_object;
        kind = (is_text_iff _ _).0 ((Passes-require _ _).0 kind);
        id = (is_text_iff _ _).0 is_id;
        version = (is_text_iff _ _).0 is_version;
        released = as_object-eq-some _ is_release;
        same_id = ground arith;
        same_version = ground arith;
      }

-- A passing validate_platform_baseline means that the diagnostic which the bundle names is a JSON
-- object of the right format for the target of the bundle, and for a target that ends in linux-gnu
-- that its baseline is Ubuntu 24.04 and the machine that was described is of that release.
pub validate_platform_baseline-IsSupported :
    (d : Doctor) (diagnostics : Fields) (target : String)
    → get d.bundle "diagnostics" ≡ object diagnostics
    → get d.bundle "target" ≡ text target
    → Passes (validate_platform_baseline d) tt
    → IsSupported d diagnostics target
unfolding validate_platform_baseline validate_baseline validate_target
validate_platform_baseline-IsSupported d diagnostics target e t p =
    let (path, names, q) = Passes-with_diagnostic d "platformBaseline" diagnostics _ e p in
    let (fields, loads, r) = Passes-with_document d.root path _ _ (validate_baseline d) q in
    let (format, r1) = (Passes-seq _ _).0 r in
    let (texts, r2) = (Passes-seq _ _).0 r1 in
    let (same, r3) = (Passes-seq _ _).0 r2 in
    let targeted : Passes (validate_target d fields (as_text (text target))) tt = rw t at r3 in
    record {
      path = path;
      baseline = fields;
      named = names;
      loaded = loads;
      formatted = (is_text_iff _ _).0 ((Passes-require _ _).0 format);
      same_target = (Passes-require _ _).0 same;
      linux =
          λ on_linux. validate_linux-IsUbuntu d fields (rw (on_linux, validate_target) at targeted);
    }
