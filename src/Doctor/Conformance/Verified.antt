-- ===== src/Doctor/Conformance/Verified.antt =====
-- What passing conformance results say of the package.
use libpglite.Prelude.{
  ◌≡◌, refl, ap, ◌∙◌, String, ◌<>◌, str_eq, true, false, not, Option, none, some, List, All,
  All-map, is_empty-keep, mem, contains, is_blank, strip, arith,
}
use libpglite.Prelude.Dict.Laws.{missing_from-empty}
use libpglite.Json.{Fields, Value, object, text, get, is_num, as_object, as_text, as_nonempty_text}
use libpglite.Json.Laws.{is_text_iff, as_object-eq-some, as_text-eq-some, as_nonempty_text-eq-some}
use libpglite.Check.Laws.{
  Passes, Passes-bind, Passes-seq, Passes-require, Passes-each, Passes-some, Passes-then,
  Passes-else, Passes-error, not-Passes-raise,
}
use libpglite.Timestamp.{DateTime, earlier, parse_utc_timestamp}
use libpglite.Doctor.{Doctor}
use libpglite.Doctor.Plugin.{hash_of}
use libpglite.Doctor.Plugin.Checked.{Passes-hash_of}
use libpglite.Doctor.Conformance.{
  raw_protocol_cases, conformance_results, texts_of, is_missing, ends_early, log_path,
  validate_times, validate_command, validate_log, validate_cases, validate_result,
  validate_conformance_result, validate_conformance,
}

module _ (d : Doctor) where
  -- The result began and ended at these times, in this order.
  pub record Lasts (result : Fields) : Type 0 where
    pub started : DateTime
    pub ended : DateTime
    pub starts : Passes (parse_utc_timestamp d.root.digit (get result "startedAt")) (some started)
    pub ends : Passes (parse_utc_timestamp d.root.digit (get result "endedAt")) (some ended)
    pub ordered : earlier ended started ≡ false

  -- A result is a passed run of the expected command, with its log unchanged.
  pub record IsVerified (dir name : String) (fragments : List String) : Type 0 where
    pub result : Fields
    pub command : String
    pub digest : String
    pub reads : d.root.load_json (dir <> ("/" <> (name <> ".json"))) ≡ some (object result)
    pub named : get result "name" ≡ text name
    pub passed : get result "status" ≡ text "passed"
    pub exit_code : is_num (get result "exitCode") 0 ≡ true
    pub lasts : Lasts result
    pub runs : get result "command" ≡ text command
    pub complete : All (λ fragment. contains command fragment ≡ true) fragments
    pub logged : d.root.is_file (log_path d dir name) ≡ true
    pub hashed : d.root.hash (log_path d dir name) ≡ some digest
    pub recorded : get result "logSha256" ≡ text digest
    pub cases :
        str_eq name "raw-protocol" ≡ true
        → (names : List String) × (texts_of (get result "cases") ≡ some names)
          × All (λ name. mem name names ≡ true) raw_protocol_cases

  present_time : (o : Option DateTime) → not (is_missing o) ≡ true → (t : DateTime) × (o ≡ some t)
  unfolding is_missing
  present_time none h = cc
  present_time (some t) h = (t, refl)

  times-Lasts :
      (dir name : String) (result : Fields)
      → Passes (validate_times d dir name (get result "startedAt") (get result "endedAt")) tt
      → Lasts result
  unfolding validate_times ends_early
  times-Lasts dir name result p =
      let (o, starts, p1) =
        Passes-bind (parse_utc_timestamp d.root.digit (get result "startedAt")) _ _ p in
      let (o', ends, p2) =
        Passes-bind (parse_utc_timestamp d.root.digit (get result "endedAt")) _ _ p1 in
      let (first, p3) = (Passes-seq _ _).0 p2 in
      let (second, p4) = (Passes-seq _ _).0 p3 in
      let (started, e) = present_time o ((Passes-require _ _).0 first) in
      let (ended, e') = present_time o' ((Passes-require _ _).0 second) in
      let ordered = (Passes-require _ _).0 (rw (e, e') at p4) in
      record {
        started = started;
        ended = ended;
        starts = rw e at starts;
        ends = rw e' at ends;
        ordered = ground (arith, ordered);
      }

  command-runs :
      (dir name : String) (fragments : List String) (v : Value)
      → Passes (validate_command d dir name fragments v) tt
      → (command : String) × (v ≡ text command)
        × All (λ fragment. contains command fragment ≡ true) fragments
  unfolding validate_command
  command-runs dir name fragments v p =
      let (command, found, p1) = Passes-some (as_text v) _ _ Passes-error p in
      let (there, p2) = Passes-else (is_blank (strip command)) _ _ Passes-error p1 in
      (
        command,
        as_text-eq-some v found,
        (is_empty-keep (contains command) fragments).0 ((Passes-require _ _).0 p2),
      )

  log-hashed :
      (dir name : String) (v : Value)
      → d.root.is_file (log_path d dir name) ≡ true
      → Passes (validate_log d dir name v) tt
      → (digest : String) × (d.root.hash (log_path d dir name) ≡ some digest) × (v ≡ text digest)
  unfolding validate_log
  log-hashed dir name v there p =
      let (expected, found, p1) = Passes-some (as_nonempty_text v) _ _ Passes-error p in
      let (digest, hashed, p2) =
        Passes-bind (hash_of d.root (log_path d dir name)) _ _ (rw there at p1) in
      (
        digest,
        Passes-hash_of d.root _ digest hashed,
        (is_text_iff v digest).0 ((Passes-require _ _).0 p2),
      )

  cases_complete :
      (dir name : String) (v : Value)
      → Passes (validate_cases d dir name v) tt
      → (names : List String) × (texts_of v ≡ some names)
        × All (λ name. mem name names ≡ true) raw_protocol_cases
  unfolding validate_cases
  cases_complete dir name v p =
      let (names, found, p1) = Passes-some (texts_of v) _ _ Passes-error p in
      (names, found, (missing_from-empty raw_protocol_cases names).0 ((Passes-require _ _).0 p1))

  result-IsVerified :
      (dir name : String) (fragments : List String) (result : Fields)
      → d.root.load_json (dir <> ("/" <> (name <> ".json"))) ≡ some (object result)
      → d.root.is_file (log_path d dir name) ≡ true
      → Passes (validate_result d dir name fragments result) tt
      → IsVerified dir name fragments
  unfolding validate_result
  result-IsVerified dir name fragments result reads logged p =
      let (format, p1) = (Passes-seq _ _).0 p in
      let (named, p2) = (Passes-seq _ _).0 p1 in
      let (passed, p3) = (Passes-seq _ _).0 p2 in
      let (exit_code, p4) = (Passes-seq _ _).0 p3 in
      let (times, p5) = (Passes-seq _ _).0 p4 in
      let (command_ok, p6) = (Passes-seq _ _).0 p5 in
      let (log, p7) = (Passes-seq _ _).0 p6 in
      let (log_ok, p8) = (Passes-seq _ _).0 p7 in
      let (command, runs, complete) =
        command-runs dir name fragments (get result "command") command_ok in
      let (digest, hashed, recorded) = log-hashed dir name (get result "logSha256") logged log_ok in
      record {
        result = result;
        command = command;
        digest = digest;
        reads = reads;
        named = (is_text_iff _ name).0 ((Passes-require _ _).0 named);
        passed = (is_text_iff _ "passed").0 ((Passes-require _ _).0 passed);
        exit_code = (Passes-require _ _).0 exit_code;
        lasts = times-Lasts dir name result times;
        runs = runs;
        complete = complete;
        logged = logged;
        hashed = hashed;
        recorded = recorded;
        cases = λ protocol. cases_complete dir name (get result "cases") (rw protocol at p8);
      }

  one-IsVerified :
      (dir name : String) (fragments : List String)
      → Passes (validate_conformance_result d dir name fragments) tt
      → IsVerified dir name fragments
  unfolding validate_conformance_result
  one-IsVerified dir name fragments p =
      let (there, p1) =
        Passes-then (d.root.is_file (dir <> ("/" <> (name <> ".json")))) _ _ Passes-error p in
      let (logged, p2) = (Passes-seq _ _).0 p1 in
      let (document, reads, p3) =
        Passes-some (d.root.load_json (dir <> ("/" <> (name <> ".json")))) _ _ Passes-error p2 in
      let (result, is_object, p4) = Passes-some (as_object document) _ _ not-Passes-raise p3 in
      result-IsVerified dir name fragments result
        (reads ∙ ap some (as_object-eq-some document is_object)) ((Passes-require _ _).0 logged) p4

  -- Where the conformance check passes on a bundle with diagnostics, the bundle names a directory
  -- that has for each of the five suites a JSON result of that name which passed with exit code 0,
  -- did not end before it started, ran a command with the suite's fragments, and records the hash
  -- of its log; the raw-protocol result lists each of its required cases.
  pub validate_conformance-IsVerified :
      (diagnostics : Fields)
      → get d.bundle "diagnostics" ≡ object diagnostics
      → Passes (validate_conformance d) tt
      → (dir : String) × (get diagnostics "conformanceResults" ≡ text dir)
        × (d.root.is_dir dir ≡ true)
        × All (λ (name, fragments). IsVerified dir name fragments) conformance_results
  unfolding validate_conformance
  validate_conformance-IsVerified diagnostics e p =
      let (dir, found, p1) =
        Passes-some (as_nonempty_text (get diagnostics "conformanceResults")) _ _ Passes-error
          (rw (e, validate_conformance) at p) in
      let (there, p2) = Passes-then (d.root.is_dir dir) _ _ Passes-error p1 in
      (
        dir,
        (as_nonempty_text-eq-some _ found).0,
        there,
        All-map
            {P = λ (name, fragments). Passes (validate_conformance_result d dir name fragments) tt}
            (λ (name, fragments). one-IsVerified dir name fragments) conformance_results
            ((Passes-each conformance_results _).0 p2),
      )
