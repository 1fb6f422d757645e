-- ===== src/Doctor/Baseline.antt =====
-- `validate_platform_baseline`.
pub mod Supported
use libpglite.Prelude.{String, Option, none, some, [], ◌∷◌, ◌&&◌, ends_with, if◌then◌else◌}
use libpglite.Json.{Fields, get, is_text, as_text, as_object, as_nonempty_text, to_value, equals}
use libpglite.Check.{Check, Message, lit, repr, done, error, require, each, ◌>>=◌, ◌>>◌}
use libpglite.Doctor.{Doctor, diagnostic_path, with_diagnostic, with_document, manifest_value_at}

-- `isinstance(value, str) and value`, or the message.
unfoldable pub require_nonempty_text : Fields → String → Message → Check (Unit {0})
require_nonempty_text fields key message = elim (as_nonempty_text (get fields key)) [
  | none ↦ error message
  | some s ↦ done
]

module _ (d : Doctor) (baseline : Fields) where
  unfoldable pub validate_os_release : Fields → Check (Unit {0})
  validate_os_release expected = elim (as_object (get baseline "osRelease")) [
    | none ↦ error (lit "Linux platform baseline is missing osRelease object" ∷ [])
    | some os_release ↦
        require
          (equals (get os_release "id") (get expected "id")
            && equals (get os_release "versionId") (get expected "versionId"))
          (lit "Linux platform baseline osRelease mismatch" ∷ [])
  ]

  unfoldable pub validate_linux : Check (Unit {0})
  validate_linux = elim (as_object (get baseline "baseline")) [
    | none ↦ error (lit "Linux platform baseline is missing baseline object" ∷ [])
    | some expected ↦ do
      require (is_text (get expected "kind") "linux-distro")
          (lit "Linux platform baseline kind must be linux-distro" ∷ [])
      require (is_text (get expected "id") "ubuntu" && is_text (get expected "versionId") "24.04") (
          lit "Linux platform baseline must be ubuntu 24.04: "
          ∷ repr (get expected "id")
          ∷ lit " "
          ∷ repr (get expected "versionId")
          ∷ [])
      validate_os_release expected
      require_nonempty_text baseline "libcVersionLine"
          (lit "Linux platform baseline is missing libcVersionLine" ∷ [])
  ]

  unfoldable pub validate_macos : Check (Unit {0})
  validate_macos = elim (as_object (get baseline "baseline")) [
    | none ↦ error (lit "macOS platform baseline is missing baseline object" ∷ [])
    | some expected ↦ do
      require (is_text (get expected "kind") "macos-deployment-target")
          (lit "macOS platform baseline kind must be macos-deployment-target" ∷ [])
      require_nonempty_text expected "deploymentTarget"
          (lit "macOS platform baseline is missing deploymentTarget" ∷ [])
      native_manifest ← diagnostic_path d "nativeLinkManifest"
      manifest_deployment_target ←
          manifest_value_at d.root native_manifest "macos_deployment_target"
      require (equals (get expected "deploymentTarget") (to_value manifest_deployment_target)) (
          lit "macOS platform baseline deployment target mismatch: manifest="
          ∷ repr (to_value manifest_deployment_target)
          ∷ lit " diagnostic="
          ∷ repr (get expected "deploymentTarget")
          ∷ [])
  ]

  unfoldable pub validate_target : Option String → Check (Unit {0})
  validate_target none = done
  validate_target (some target) =
      if ends_with target "linux-gnu"
      then validate_linux
      else if ends_with target "apple-darwin"
      then validate_macos
      else done

  unfoldable pub validate_baseline : Check (Unit {0})
  validate_baseline = do
    require (is_text (get baseline "format") "libpglite-native-platform-baseline-v1")
        (lit "platform baseline diagnostic has wrong format" ∷ [])
    each ("system" ∷ "machine" ∷ []) (λ key.
        require_nonempty_text baseline key (lit "platform baseline is missing " ∷ lit key ∷ []))
    require (equals (get baseline "target") (get d.bundle "target")) (
        lit "platform baseline target mismatch: bundle="
        ∷ repr (get d.bundle "target")
        ∷ lit " diagnostic="
        ∷ repr (get baseline "target")
        ∷ [])
    validate_target (as_text (get d.bundle "target"))

unfoldable pub validate_platform_baseline : Doctor → Check (Unit {0})
validate_platform_baseline d = with_diagnostic d "platformBaseline" λ path.
    with_document d.root path (lit "platform baseline diagnostic is not readable: " ∷ [])
      (lit "platform baseline diagnostic root must be an object" ∷ []) (validate_baseline d)
