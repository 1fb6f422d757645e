-- ===== src/Doctor/Bundle/Valid.antt =====
-- Which bundles `validate_bundle` passes.
use mathlib.Core.Path.{subst}
use libpglite.Prelude.{
  ◌≡◌, refl, ◌↔◌, ◌⊎◌, inl, inr, String, Bool, true, false, List, arith, All, Bool-cases, ◌∙◌,
}
use libpglite.Json.{Fields, Value, text, get, has, is_text, is_num, is_one_of, is_hashable}
use libpglite.Json.Laws.{is_text_iff, is_one_of-hashable}
use libpglite.Check.{Check, ◌>>=◌, ◌>>◌}
use libpglite.Check.Laws.{
  Passes, Passes-bind, bind-Passes, Passes-seq, Passes-require, Passes-each-require,
  not-Passes-raise, not-Passes-error_then, not-Passes-require_then, Passes-done,
}
use libpglite.Doctor.{in_set}
use libpglite.Doctor.Bundle.{
  required_keys, release_modes, runtime_statuses, validate_status, validate_bundle,
}

pub Passes-in_set :
    (v : Value) (names : List String) (b : Bool)
    → Passes (in_set v names) b ↔ ((is_hashable v ≡ true) × (is_one_of v names ≡ b))
unfolding in_set
Passes-in_set v names b = elim (Bool-cases (is_hashable v)) [
  | inl h ↦ (
    λ p. (h, ground (arith, p.returns)),
    λ q. rw (h, q.1) (record { returns = refl; clean = refl }),
  )
  | inr h ↦ (λ p. absurd (not-Passes-raise (rw h at p)), λ q. absurd (cc (q.0, h)))
]

-- A membership test whose failure is an error.
pub Passes-member {ℓ} :
    {A : Type ℓ} (v : Value) (names : List String) (f : Bool → Check A) {a : A}
    → ¬ Passes (f false) a
    → Passes (in_set v names >>= f) a ↔ ((is_one_of v names ≡ true) × Passes (f true) a)
Passes-member v names f {a} refuses = (
  λ p.
      let (b, q, r) = Passes-bind (in_set v names) f a p in
      let found = (Passes-in_set v names b).0 q in
      elim (Bool-cases b) [
        | inl e ↦ (found.1 ∙ e, subst (λ x. Passes (f x) a) e r)
        | inr e ↦ absurd (refuses (subst (λ x. Passes (f x) a) e r))
      ],
  λ h.
      bind-Passes (in_set v names) f true a
        ((Passes-in_set v names true).1 (is_one_of-hashable v names h.0, h.0)) h.1,
)

-- The mode and the status that a package may have.
pub data Stage (mode status : Value) : Type 0 where
  production : mode ≡ text "production" → status ≡ text "runtime-ready" → Stage mode status
  development :
      mode ≡ text "development"
      → (status ≡ text "native-runtime-development")
        ⊎ (status ≡ text "native-runtime-pending-adr-0002")
      → Stage mode status

pub record IsValid (bundle : Fields) : Type 0 where
  pub complete : All (λ key. has bundle key ≡ true) required_keys
  pub stage : Stage (get bundle "releaseMode") (get bundle "runtimeStatus")
  pub abi : is_num (get bundle "pluginAbiVersion") 1 ≡ true

status-Stage :
    (mode status : Value)
    → is_one_of mode release_modes ≡ true
    → is_one_of status runtime_statuses ≡ true
    → Passes (validate_status mode status true) tt
    → Stage mode status
unfolding validate_status
status-Stage mode status m s p = elim (Bool-cases (is_text mode "production")) [
  | inl prod ↦
      production ((is_text_iff mode _).0 prod) ((is_text_iff status _).0 (ground (arith, p.clean)))
  | inr dev ↦
      let claims_nothing : is_text status "runtime-ready" ≡ false = ground (arith, p.clean) in
      development ((is_text_iff mode _).0 (ground arith))
        (elim (Bool-cases (is_text status "native-runtime-development")) [
          | inl first ↦ inl ((is_text_iff status _).0 first)
          | inr second ↦ inr ((is_text_iff status _).0 (ground arith))
        ])
]

Stage-status :
    (mode status : Value)
    → Stage mode status
    → (is_one_of mode release_modes ≡ true)
      × (is_one_of status runtime_statuses ≡ true)
      × Passes (validate_status mode status true) tt
unfolding validate_status
Stage-status mode status (production m s) = rw (m, s) (refl, refl, Passes-done)
Stage-status mode status (development m (inl s)) = rw (m, s) (refl, refl, Passes-done)
Stage-status mode status (development m (inr s)) = rw (m, s) (refl, refl, Passes-done)

unknown_status-fails :
    (mode status : Value) (rest : Check (Unit {0}))
    → ¬ Passes (validate_status mode status false >> rest) tt
unfolding validate_status
unknown_status-fails mode status rest = not-Passes-error_then _ rest

-- The validator passes exactly the bundles that have every required key, of plugin ABI version 1,
-- and either in production mode and runtime-ready, or in development mode and not.
pub validate_bundle-Passes : (bundle : Fields) → Passes (validate_bundle bundle) tt ↔ IsValid bundle
unfolding validate_bundle
validate_bundle-Passes bundle =
    let mode = get bundle "releaseMode" in
    let status = get bundle "runtimeStatus" in
    (
      λ p0.
          let (complete, p1) = (Passes-seq _ _).0 p0 in
          let (m, p2) = (Passes-member mode release_modes _ (not-Passes-require_then _ _)).0 p1 in
          let p3 = ((Passes-seq _ _).0 p2).1 in
          let (s, p4) =
            (Passes-member status runtime_statuses _ (unknown_status-fails mode status _)).0 p3 in
          let (allowed, abi) = (Passes-seq _ _).0 p4 in
          record {
            complete = (Passes-each-require (has bundle) _ required_keys).0 complete;
            stage = status-Stage mode status m s allowed;
            abi = (Passes-require _ _).0 abi;
          },
      λ v.
          let (m, s, allowed) = Stage-status mode status v.stage in
          (Passes-seq _ _).1 (
            (Passes-each-require (has bundle) _ required_keys).1 v.complete,
            (Passes-member mode release_modes _ (not-Passes-require_then _ _)).1 (
              m,
              (Passes-seq _ _).1 (
                (Passes-require true _).1 refl,
                (Passes-member status runtime_statuses _ (unknown_status-fails mode status _)).1
                    (s, (Passes-seq _ _).1 (allowed, (Passes-require _ _).1 v.abi)),
              ),
            ),
          ),
    )
