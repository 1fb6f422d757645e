-- ===== src/Doctor/Run/Accepted.antt =====
-- The process exits with status 0 exactly if every validator passes.
use libpglite.Prelude.{◌≡◌, refl, ◌↔◌, Bool, String, Option, List, [], ◌∷◌, arith}
use libpglite.Json.{Fields}
use libpglite.Check.{Message, Outcome, ok, raised, Check}
use libpglite.Check.Laws.{Passes, Passes-bind, bind-Passes, Passes-seq}
use libpglite.Package.{Package}
use libpglite.Doctor.{Doctor}
use libpglite.Doctor.Bundle.{read_bundle, validate_bundle}
use libpglite.Doctor.Plugin.{validate_plugin}
use libpglite.Doctor.Prefix.{validate_postgres_prefix, validate_native_only_payload}
use libpglite.Doctor.Diagnostics.{validate_diagnostics}
use libpglite.Doctor.Provenance.{validate_build_provenance}
use libpglite.Doctor.Baseline.{validate_platform_baseline}
use libpglite.Doctor.Sources.{validate_source_provenance}
use libpglite.Doctor.Lifecycle.{validate_lifecycle}
use libpglite.Doctor.Conformance.{validate_conformance}
use libpglite.Doctor.Extensions.{validate_extensions}
use libpglite.Doctor.Dependencies.{validate_dependencies}
use libpglite.Doctor.Run.{validate_contents, run, finish, exit_status}

pub record Contents (d : Doctor) : Type 0 where
  pub prefix : Passes (validate_postgres_prefix d) tt
  pub payload : Passes (validate_native_only_payload d) tt
  pub diagnostics : Passes (validate_diagnostics d) tt
  pub provenance : Passes (validate_build_provenance d) tt
  pub baseline : Passes (validate_platform_baseline d) tt
  pub sources : Passes (validate_source_provenance d) tt
  pub lifecycle : Passes (validate_lifecycle d) tt
  pub conformance : Passes (validate_conformance d) tt
  pub extensions : Passes (validate_extensions d) tt
  pub dependencies : Passes (validate_dependencies d) tt

pub record Accepted (root : Package) (strict : Bool) : Type 0 where
  pub bundle : Fields
  pub symbols : Option (List String)
  pub reads : Passes (read_bundle root) bundle
  pub valid_bundle : Passes (validate_bundle bundle) tt
  pub valid_plugin : Passes (validate_plugin root bundle) symbols
  pub contents : Contents (record {
    root = root;
    strict_relocatable = strict;
    bundle = bundle;
    actual_plugin_symbols = symbols;
  })

finish-eq-zero {ℓ} :
    {A : Type ℓ} (o : Outcome A) (errors : List Message)
    → finish o errors ≡ 0
    → (a : A) × (o ≡ ok a) × (errors ≡ [])
unfolding finish
finish-eq-zero (ok a) [] h = (a, refl, refl)
finish-eq-zero (ok a) (m ∷ errors) h = absurd (omega arith)
finish-eq-zero (raised e) errors h = absurd (omega arith)

pub exit_status-eq-zero {ℓ} :
    {A : Type ℓ} (m : Check A) → (exit_status m ≡ 0) ↔ ((a : A) × Passes m a)
unfolding exit_status finish
exit_status-eq-zero m = (
  λ h.
      let (a, returns, clean) = finish-eq-zero m.outcome m.errors h in
      (a, record { returns = returns; clean = clean }),
  λ p. rw (p.1.returns, p.1.clean) refl,
)

validate_contents-Passes : (d : Doctor) → Passes (validate_contents d) tt ↔ Contents d
unfolding validate_contents
validate_contents-Passes d = (
  λ p0.
      let (prefix, p1) = (Passes-seq _ _).0 p0 in
      let (payload, p2) = (Passes-seq _ _).0 p1 in
      let (diagnostics, p3) = (Passes-seq _ _).0 p2 in
      let (provenance, p4) = (Passes-seq _ _).0 p3 in
      let (baseline, p5) = (Passes-seq _ _).0 p4 in
      let (sources, p6) = (Passes-seq _ _).0 p5 in
      let (lifecycle, p7) = (Passes-seq _ _).0 p6 in
      let (conformance, p8) = (Passes-seq _ _).0 p7 in
      let (extensions, dependencies) = (Passes-seq _ _).0 p8 in
      record {
        prefix = prefix;
        payload = payload;
        diagnostics = diagnostics;
        provenance = provenance;
        baseline = baseline;
        sources = sources;
        lifecycle = lifecycle;
        conformance = conformance;
        extensions = extensions;
        dependencies = dependencies;
      },
  λ c. (Passes-seq _ _).1 (
    c.prefix,
    (Passes-seq _ _).1 (
      c.payload,
      (Passes-seq _ _).1 (
        c.diagnostics,
        (Passes-seq _ _).1 (
          c.provenance,
          (Passes-seq _ _).1 (
            c.baseline,
            (Passes-seq _ _).1 (
              c.sources,
              (Passes-seq _ _).1 (
                c.lifecycle,
                (Passes-seq _ _).1
                    (c.conformance, (Passes-seq _ _).1 (c.extensions, c.dependencies)),
              ),
            ),
          ),
        ),
      ),
    ),
  ),
)

-- A run over an accepted package returns its bundle.
pub Accepted-Passes :
    (root : Package) (strict : Bool) (a : Accepted root strict) → Passes (run root strict) a.bundle
unfolding run
Accepted-Passes root strict a = bind-Passes (read_bundle root) _ a.bundle a.bundle a.reads (
    (Passes-seq _ _).1 (
      a.valid_bundle,
      bind-Passes (validate_plugin root a.bundle) _ a.symbols a.bundle a.valid_plugin (
          (Passes-seq _ _).1
            ((validate_contents-Passes _).1 a.contents, record { returns = refl; clean = refl })),
    ))

pub run-Passes :
    (root : Package) (strict : Bool)
    → ((bundle : Fields) × Passes (run root strict) bundle) ↔ Accepted root strict
unfolding run
run-Passes root strict = (
  λ (returned, p0).
      let (bundle, reads, p1) = Passes-bind (read_bundle root) _ _ p0 in
      let (valid_bundle, p2) = (Passes-seq _ _).0 p1 in
      let (symbols, valid_plugin, p3) = Passes-bind (validate_plugin root bundle) _ _ p2 in
      record {
        bundle = bundle;
        symbols = symbols;
        reads = reads;
        valid_bundle = valid_bundle;
        valid_plugin = valid_plugin;
        contents = (validate_contents-Passes _).0 ((Passes-seq _ _).0 p3).0;
      },
  λ a. (a.bundle, Accepted-Passes root strict a),
)

-- Status 0 means that the bundle was read and that each validator returned and reported no error,
-- and any other run, one that ends in an exception included, has another status.
pub exit_status-Accepted :
    (root : Package) (strict : Bool) → (exit_status (run root strict) ≡ 0) ↔ Accepted root strict
exit_status-Accepted root strict = (
  λ h. (run-Passes root strict).0 ((exit_status-eq-zero _).0 h),
  λ a. (exit_status-eq-zero _).1 ((run-Passes root strict).1 a),
)
