-- ===== src/Doctor/Lifecycle.antt =====
-- `validate_lifecycle`.
pub mod SingleStart
use libpglite.Prelude.{String, Bool, false, none, some, List, [], ◌∷◌, any}
use libpglite.Json.{Fields, Value, text, boolean, get, is_text, as_list, equals}
use libpglite.Check.{Check, lit, require, each, ◌>>◌}
use libpglite.Doctor.{Doctor, with_diagnostic, with_document}

abbrev pub lifecycle_contract : List (String × Value)
lifecycle_contract =
    ("format", text "libpglite-native-runtime-lifecycle-v1")
    ∷ ("contract", text "single-start-per-process")
    ∷ ("restartSupported", boolean false)
    ∷ ("concurrentRuntimeSupported", boolean false)
    ∷ ("secondStartupBehavior", text "fails-before-entering-postgres")
    ∷ []

-- `isinstance(v, list) and s in v`
abbrev pub lists_text : Value → String → Bool
lists_text v s = elim (as_list v) [ none ↦ false | some items ↦ any (λ item. is_text item s) items ]

unfoldable pub validate_contract : Fields → Check (Unit {0})
validate_contract lifecycle = do
  each lifecycle_contract (λ (key, value).
      require (equals (get lifecycle key) value)
        (lit "runtime lifecycle diagnostic has wrong " ∷ lit key ∷ []))
  require (lists_text (get lifecycle "provenByConformance") "raw-protocol")
      (lit "runtime lifecycle diagnostic must cite raw-protocol conformance" ∷ [])

unfoldable pub validate_lifecycle : Doctor → Check (Unit {0})
validate_lifecycle d = with_diagnostic d "runtimeLifecycle" λ path.
    with_document d.root path (lit "runtime lifecycle diagnostic is not readable: " ∷ [])
      (lit "runtime lifecycle diagnostic root must be an object" ∷ []) validate_contract
