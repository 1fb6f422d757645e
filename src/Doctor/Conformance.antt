-- ===== src/Doctor/Conformance.antt =====
-- `validate_conformance`.
pub mod Verified
use libpglite.Prelude.{
  String, ◌<>◌, Bool, true, false, not, Option, none, some, List, [], ◌∷◌, is_empty, is_blank, keep,
  join, str_eq, strip, contains, if◌then◌else◌,
}
use libpglite.Prelude.Dict.{missing_from}
use libpglite.Json.{
  Fields, Value, get, is_text, is_num, as_text, as_list, as_object, as_nonempty_text,
}
use libpglite.Check.{Check, lit, attribute_error, done, raise, error, require, each, ◌>>=◌, ◌>>◌}
use libpglite.Timestamp.{DateTime, earlier, parse_utc_timestamp}
use libpglite.Doctor.{Doctor}
use libpglite.Doctor.Plugin.{hash_of}

abbrev pub raw_protocol_cases : List String
raw_protocol_cases =
    "startup" ∷ "simple-query" ∷ "empty-query" ∷ "transaction-rollback" ∷ "transaction-commit"
    ∷ "recoverable-protocol-error" ∷ "extended-query" ∷ "parameterized-extended-query"
    ∷ "named-prepared-statement" ∷ "deterministic-shutdown" ∷ []

-- The names of the results, in the order of the loop, with their `CONFORMANCE_COMMAND_FRAGMENTS`.
abbrev pub conformance_results : List (String × List String)
conformance_results =
    ("raw-protocol", "cargo test" ∷ "--features dynamic-loading" ∷ "--test dynamic_plugin" ∷ [])
    ∷ (
      "tokio-postgres-client",
      "LIBPGLITE_RUN_TOKIO_POSTGRES_CHILD=1" ∷ "--features dynamic-loading,client-tokio-postgres"
          ∷ "--test dynamic_plugin" ∷ "dynamic_plugin_tokio_postgres_client_child" ∷ [],
    )
    ∷ (
      "stdin-sealed-startup",
      "--features dynamic-loading" ∷ "--test dynamic_plugin"
          ∷ "dynamic_plugin_native_startup_seals_inherited_stdin" ∷ [],
    )
    ∷ (
      "prefix-initialize",
      "LIBPGLITE_RUN_PREFIX_INITIALIZE_CHILD=1" ∷ "--features dynamic-loading"
          ∷ "--test dynamic_plugin" ∷ "dynamic_plugin_prefix_initialize_child" ∷ [],
    )
    ∷ (
      "prefix-resume",
      "LIBPGLITE_RUN_PREFIX_RESUME_CHILD=1" ∷ "--features dynamic-loading" ∷ "--test dynamic_plugin"
          ∷ "dynamic_plugin_prefix_resume_child" ∷ [],
    )
    ∷ []

-- `all(isinstance(case, str) for case in cases)`, with the texts
unfoldable pub all_texts : List Value → Option (List String)
all_texts [] = some []
all_texts (v ∷ vs) = elim (as_text v) [
  | none ↦ none
  | some s ↦ elim (all_texts vs) [ none ↦ none | some ss ↦ some (s ∷ ss) ]
]

-- `isinstance(v, list) and all(…)`
unfoldable pub texts_of : Value → Option (List String)
texts_of v = elim (as_list v) [ none ↦ none | some vs ↦ all_texts vs ]

unfoldable pub is_missing : Option DateTime → Bool
is_missing none = true
is_missing (some t) = false

unfoldable pub ends_early : Option DateTime → Option DateTime → Bool
ends_early (some started) (some ended) = earlier ended started
ends_early _ _ = false

module _ (d : Doctor) (dir name : String) where
  unfoldable pub log_path : String
  log_path = dir <> ("/" <> (name <> ".log"))

  unfoldable pub validate_times : Value → Value → Check (Unit {0})
  validate_times started ended = do
    started_at ← parse_utc_timestamp d.root.digit started
    ended_at ← parse_utc_timestamp d.root.digit ended
    require (not (is_missing started_at))
        (lit "conformance result " ∷ lit name ∷ lit ".json has invalid startedAt" ∷ [])
    require (not (is_missing ended_at))
        (lit "conformance result " ∷ lit name ∷ lit ".json has invalid endedAt" ∷ [])
    require (not (ends_early started_at ended_at))
        (lit "conformance result " ∷ lit name ∷ lit ".json ended before it started" ∷ [])

  unfoldable pub validate_command : List String → Value → Check (Unit {0})
  validate_command fragments v = elim (as_text v) [
    | none ↦ error (lit "conformance result " ∷ lit name ∷ lit ".json is missing command" ∷ [])
    | some command ↦
        if is_blank (strip command)
        then error (lit "conformance result " ∷ lit name ∷ lit ".json is missing command" ∷ [])
        else require (is_empty (keep (λ fragment. not (contains command fragment)) fragments)) (
            lit "conformance result "
            ∷ lit name
            ∷ lit ".json command is missing fragments: "
            ∷ lit (join ", " (keep (λ fragment. not (contains command fragment)) fragments))
            ∷ [])
  ]

  unfoldable pub validate_log : Value → Check (Unit {0})
  validate_log expected = elim (as_nonempty_text expected) [
    | none ↦ error (lit "conformance result " ∷ lit name ∷ lit ".json is missing logSha256" ∷ [])
    | some expected_log_sha ↦
        if d.root.is_file log_path
        then (do
          actual ← hash_of d.root log_path
          require (is_text expected actual)
              (lit "conformance result " ∷ lit name ∷ lit ".json logSha256 mismatch" ∷ []))
        else done
  ]

  unfoldable pub validate_cases : Value → Check (Unit {0})
  validate_cases v = elim (texts_of v) [
    | none ↦ error (lit "raw-protocol conformance result is missing cases" ∷ [])
    | some cases ↦ require (is_empty (missing_from raw_protocol_cases cases)) (
        lit "raw-protocol conformance result is missing cases: "
        ∷ lit (join ", " (missing_from raw_protocol_cases cases))
        ∷ [])
  ]

  unfoldable pub validate_result : List String → Fields → Check (Unit {0})
  validate_result fragments result = do
    require (is_text (get result "format") "libpglite-native-conformance-result-v1")
        (lit "conformance result " ∷ lit name ∷ lit ".json has wrong format" ∷ [])
    require (is_text (get result "name") name)
        (lit "conformance result " ∷ lit name ∷ lit ".json has wrong name" ∷ [])
    require (is_text (get result "status") "passed")
        (lit "conformance result " ∷ lit name ∷ lit ".json did not pass" ∷ [])
    require (is_num (get result "exitCode") 0)
        (lit "conformance result " ∷ lit name ∷ lit ".json exitCode is not 0" ∷ [])
    validate_times (get result "startedAt") (get result "endedAt")
    validate_command fragments (get result "command")
    require (is_text (get result "log") (name <> ".log"))
        (lit "conformance result " ∷ lit name ∷ lit ".json points at wrong log" ∷ [])
    validate_log (get result "logSha256")
    (if str_eq name "raw-protocol" then validate_cases (get result "cases") else done)

  -- One round of the loop. A root that is no object has no method `get`.
  unfoldable pub validate_conformance_result : List String → Check (Unit {0})
  validate_conformance_result fragments =
      let result_path = dir <> ("/" <> (name <> ".json")) in
      if d.root.is_file result_path
      then (do
        require (d.root.is_file log_path)
            (lit "conformance log is missing: " ∷ lit name ∷ lit ".log" ∷ [])
        elim (d.root.load_json result_path) [
          | none ↦ error (lit "conformance result " ∷ lit name ∷ lit ".json is not readable: " ∷ [])
          | some document ↦ elim (as_object document) [
            | none ↦ raise attribute_error
            | some result ↦ validate_result fragments result
          ]
        ])
      else error (lit "conformance result is missing: " ∷ lit name ∷ lit ".json" ∷ [])

unfoldable pub validate_conformance : Doctor → Check (Unit {0})
validate_conformance d = elim (as_object (get d.bundle "diagnostics")) [
  | none ↦ done
  | some diagnostics ↦ elim (as_nonempty_text (get diagnostics "conformanceResults")) [
    | none ↦ error (lit "bundle diagnostics.conformanceResults is missing" ∷ [])
    | some dir ↦
        if d.root.is_dir dir
        then each conformance_results
            (λ (name, fragments). validate_conformance_result d dir name fragments)
        else error (lit "conformance diagnostics directory is missing: " ∷ lit dir ∷ [])
  ]
]
