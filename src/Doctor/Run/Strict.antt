-- ===== src/Doctor/Run/Strict.antt =====
-- A package that a strict run accepts, a run that is not strict accepts.
use libpglite.Prelude.{
  ◌≡◌, String, true, false, Option, List, [], ◌∷◌, is_empty, keep, join, if◌then◌else◌, Bool-cases,
  Option-cases, inl, inr,
}
use libpglite.Json.{Fields, Value, get, as_object, as_list}
use libpglite.Check.{Check, Message, done}
use libpglite.Check.Laws.{
  Passes, Passes-error, Passes-some, Passes-else, Passes-bind, bind-Passes, Passes-seq, Passes-done,
}
use libpglite.Package.{Package}
use libpglite.Manifest.{nonempty_lines}
use libpglite.Doctor.Laws.{Passes-with_document}
use libpglite.Doctor
use libpglite.Doctor.{Doctor, is_production, error_if_strict}
use libpglite.Doctor.Prefix
use libpglite.Doctor.Dependencies
use libpglite.Doctor.Run.{run, exit_status}
use libpglite.Doctor.Run.Accepted.{Contents, exit_status-Accepted}
use libpglite.Doctor.Run.Flag.{
  doctor, payload, diagnostics, provenance, baseline, sources, lifecycle, conformance, extensions,
}

module _ (root : Package) (bundle : Fields) (symbols : Option (List String)) where
  -- What a strict run finds nothing of, another run finds nothing of.
  tolerated :
      {A : Type 0} (found : List A) (m : Message)
      → Passes
          (if is_empty found then done else error_if_strict (doctor root bundle symbols true) m)
          tt
      → Passes
          (if is_empty found then done else error_if_strict (doctor root bundle symbols false) m)
          tt
  unfolding error_if_strict
  tolerated [] m p = p
  tolerated (x ∷ found) m p = absurd (Passes-error p)

  text_paths :
      Passes (Prefix.validate_postgres_prefix_text_paths (doctor root bundle symbols true)) tt
      → Passes (Prefix.validate_postgres_prefix_text_paths (doctor root bundle symbols false)) tt
  unfolding Prefix.validate_postgres_prefix_text_paths
  text_paths p = elim (Bool-cases (root.is_dir "postgres")) [
    | inr away ↦ rw away Passes-done
    | inl there ↦
        let (leaked, q, r) =
          Passes-bind (Prefix.leaked_paths root (root.rglob "postgres")) _ tt (rw there at p) in
        rw there (
          bind-Passes (Prefix.leaked_paths root (root.rglob "postgres")) _ leaked tt q
            (tolerated leaked _ r))
  ]

  prefix :
      Passes (Prefix.validate_postgres_prefix (doctor root bundle symbols true)) tt
      → Passes (Prefix.validate_postgres_prefix (doctor root bundle symbols false)) tt
  unfolding Prefix.validate_postgres_prefix Prefix.validate_prefix_entry get
  prefix p =
      let (layout, found, p1) =
        Passes-some (as_object (get bundle "postgresPrefix")) _ _ Passes-error p in
      let (a, p2) = (Passes-seq _ _).0 p1 in
      let (b, p3) = (Passes-seq _ _).0 p2 in
      let (c, texts) = (Passes-seq _ _).0 p3 in
      rw found
        ((Passes-seq _ _).1 (a, (Passes-seq _ _).1 (b, (Passes-seq _ _).1 (c, text_paths texts))))

  diagnostic :
      (key : String) (f g : String → Check (Unit {0}))
      → ((path : String) → Passes (f path) tt → Passes (g path) tt)
      → Passes (Doctor.with_diagnostic (doctor root bundle symbols true) key f) tt
      → Passes (Doctor.with_diagnostic (doctor root bundle symbols false) key g) tt
  unfolding Doctor.with_diagnostic Doctor.diagnostic_path
  diagnostic key f g h p =
      let (o, q, r) =
        Passes-bind (Doctor.diagnostic_path (doctor root bundle symbols true) key) _ tt p in
      bind-Passes (Doctor.diagnostic_path (doctor root bundle symbols false) key) _ o tt q
        (elim (Option-cases o) [
          | inl e ↦ rw e Passes-done
          | inr (path, e) ↦ rw e (h path (rw e at r))
        ])

  objects :
      (joined : String) (objs : List Value)
      → Passes (Dependencies.validate_objects (doctor root bundle symbols true) joined objs) tt
      → Passes (Dependencies.validate_objects (doctor root bundle symbols false) joined objs) tt
  unfolding Dependencies.validate_prefix_manifest Dependencies.validate_objects
      Dependencies.validate_dependency_prefix Doctor.diagnostic_path_if_present Doctor.is_production
  objects joined objs p =
      let (bad, q, p1) =
        Passes-bind (Dependencies.collect_bad Dependencies.validate_object objs) _ tt p in
      let (seen, p2) = (Passes-seq _ _).0 p1 in
      let (reported, p3) = (Passes-seq _ _).0 p2 in
      bind-Passes (Dependencies.collect_bad Dependencies.validate_object objs) _ bad tt q
        ((Passes-seq _ _).1 (seen, (Passes-seq _ _).1 (tolerated bad _ reported, p3)))

  manifest :
      (joined : String) (fields : Fields)
      → Passes (Dependencies.validate_manifest (doctor root bundle symbols true) joined fields) tt
      → Passes (Dependencies.validate_manifest (doctor root bundle symbols false) joined fields) tt
  unfolding Dependencies.validate_manifest Dependencies.validate_platform Dependencies.validate_tool
      get
  manifest joined fields p =
      let (format, p1) = (Passes-seq _ _).0 p in
      let (platform, p2) = (Passes-seq _ _).0 p1 in
      let (tool, p3) = (Passes-seq _ _).0 p2 in
      let (objs, listed, p4) = Passes-some (as_list (get fields "objects")) _ _ Passes-error p3 in
      let (nonempty, p5) = Passes-else (is_empty objs) _ _ Passes-error p4 in
      (Passes-seq _ _).1 (
        format,
        (Passes-seq _ _).1
            (platform, (Passes-seq _ _).1 (tool, rw (listed, nonempty) (objects joined objs p5))),
      )

  dependencies :
      Passes (Dependencies.validate_dependencies (doctor root bundle symbols true)) tt
      → Passes (Dependencies.validate_dependencies (doctor root bundle symbols false)) tt
  unfolding Dependencies.validate_dependencies Dependencies.validate_dependency_lines
      Doctor.with_document
  dependencies p =
      diagnostic "dependencies" _ _
        (λ report p0.
          let (lines, q, p1) = Passes-bind (nonempty_lines root report) _ tt p0 in
          let (scanned, p2) = (Passes-seq _ _).0 p1 in
          let (tool, leaks) = (Passes-seq _ _).0 scanned in
          bind-Passes (nonempty_lines root report) _ lines tt q (
            (Passes-seq _ _).1 (
              (Passes-seq _ _).1
                  (tool, tolerated (keep Dependencies.is_leaking_line lines) _ leaks),
              diagnostic "dependencyManifest" _ _
                  (λ file p3.
                    let (fields, reads, p4) = Passes-with_document root file _ _ _ p3 in
                    rw (reads, Doctor.with_document) (manifest (join "\n" lines) fields p4))
                  p2,
            )))
        p

  contents :
      Contents (doctor root bundle symbols true) → Contents (doctor root bundle symbols false)
  contents c = record {
    prefix = prefix c.prefix;
    payload = rw (payload root bundle symbols) at c.payload;
    diagnostics = rw (diagnostics root bundle symbols) at c.diagnostics;
    provenance = rw (provenance root bundle symbols) at c.provenance;
    baseline = rw (baseline root bundle symbols) at c.baseline;
    sources = rw (sources root bundle symbols) at c.sources;
    lifecycle = rw (lifecycle root bundle symbols) at c.lifecycle;
    conformance = rw (conformance root bundle symbols) at c.conformance;
    extensions = rw (extensions root bundle symbols) at c.extensions;
    dependencies = dependencies c.dependencies;
  }

-- A package that the doctor accepts in a strict run, it accepts in a run without the flag.
pub strict-exit_status :
    (root : Package) → exit_status (run root true) ≡ 0 → exit_status (run root false) ≡ 0
strict-exit_status root h =
    let a = (exit_status-Accepted root true).0 h in
    (exit_status-Accepted root false).1 (record {
      bundle = a.bundle;
      symbols = a.symbols;
      reads = a.reads;
      valid_bundle = a.valid_bundle;
      valid_plugin = a.valid_plugin;
      contents = contents root a.bundle a.symbols a.contents;
    })
