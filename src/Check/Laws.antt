-- ===== src/Check/Laws.antt =====
-- When a validator passes: it returns and appends no error. One rule for each way to build one.
use libpglite.Prelude.{
  ◌≡◌, refl, ◌↔◌, Bool, true, false, List, [], ◌∷◌, ◌++◌, All, All-map, Option, none, some,
  if◌then◌else◌,
}
use libpglite.Check.{
  Message, Exception, Outcome, ok, raised, Check, pure, done, raise, error, after, ◌>>◌, ◌>>=◌,
  require, each,
}

pub record Passes {ℓ} {A : Type ℓ} (m : Check A) (a : A) : Type ℓ where
  pub returns : m.outcome ≡ ok a
  pub clean : m.errors ≡ []

pub append-eq-nil {ℓ} : {A : Type ℓ} (xs ys : List A) → xs ++ ys ≡ [] → (xs ≡ []) × (ys ≡ [])
append-eq-nil [] ys h = (refl, h)
append-eq-nil (x ∷ xs) ys h = cc

module _ {ℓ κ} {A : Type ℓ} {B : Type κ} where
  after-inv :
      (es ws : List Message) (o : Outcome A) (f : A → Check B) (b : B)
      → Passes (after es ws o f) b
      → (a : A) × (o ≡ ok a) × (es ≡ []) × Passes (f a) b
  after-inv es ws (raised e) f b p = absurd (cc p.returns)
  after-inv es ws (ok a) f b p =
      let (first, second) = append-eq-nil es (f a).errors p.clean in
      (a, refl, first, record { returns = p.returns; clean = second })

  pub Passes-bind :
      (m : Check A) (f : A → Check B) (b : B)
      → Passes (m >>= f) b
      → (a : A) × Passes m a × Passes (f a) b
  unfolding ◌>>=◌
  Passes-bind m f b p =
      let (a, r, c, q) = after-inv m.errors m.warnings m.outcome f b p in
      (a, record { returns = r; clean = c }, q)

  pub bind-Passes :
      (m : Check A) (f : A → Check B) (a : A) (b : B)
      → Passes m a
      → Passes (f a) b
      → Passes (m >>= f) b
  unfolding ◌>>=◌
  bind-Passes m f a b p q =
      rw (p.returns, p.clean) (record { returns = q.returns; clean = q.clean })

pub Passes-error : {m : Message} {a : Unit {0}} → ¬ Passes (error m) a
Passes-error p = cc p.clean

pub Passes-require : (test : Bool) (m : Message) → Passes (require test m) tt ↔ (test ≡ true)
unfolding require
Passes-require true m = (λ p. refl, λ h. record { returns = refl; clean = refl })
Passes-require false m = (λ p. absurd (Passes-error p), λ h. cc)

pub Passes-each {ℓ} :
    {A : Type ℓ} (xs : List A) (f : A → Check (Unit {0}))
    → Passes (each xs f) tt ↔ All (λ x. Passes (f x) tt) xs
unfolding each
Passes-each [] f = (λ p. tt, λ h. record { returns = refl; clean = refl })
Passes-each (x ∷ xs) f = (
  λ p. let (u, q, r) = Passes-bind (f x) (λ _. each xs f) tt p in (q, (Passes-each xs f).0 r),
  λ h. bind-Passes (f x) (λ _. each xs f) tt tt h.0 ((Passes-each xs f).1 h.1),
)

-- A loop that makes one test on every item.
pub Passes-each-require {ℓ} :
    {A : Type ℓ} (test : A → Bool) (m : A → Message) (xs : List A)
    → Passes (each xs (λ x. require (test x) (m x))) tt ↔ All (λ x. test x ≡ true) xs
Passes-each-require test m xs = (
  λ p.
      All-map {P = λ x. Passes (require (test x) (m x)) tt} (λ x. (Passes-require (test x) (m x)).0)
        xs ((Passes-each xs _).0 p),
  λ h. (Passes-each xs _).1 (
      All-map {Q = λ x. Passes (require (test x) (m x)) tt} (λ x. (Passes-require (test x) (m x)).1)
        xs h),
)

-- The parts of a block that passes, and the block of parts that pass.
pub Passes-seq {ℓ} :
    {A : Type ℓ} (m : Check (Unit {0})) (n : Check A) {b : A}
    → Passes (m >> n) b ↔ (Passes m tt × Passes n b)
Passes-seq m n {b} = (
  λ p. let (u, q, r) = Passes-bind m (λ _. n) b p in (q, r),
  λ h. bind-Passes m (λ _. n) tt b h.0 h.1,
)

pub Passes-pure {ℓ} : {A : Type ℓ} {a b : A} → Passes (pure a) b → a ≡ b
Passes-pure p = cc p.returns

pub not-Passes-raise {ℓ} : {A : Type ℓ} {e : Exception} {a : A} → ¬ Passes (raise e) a
not-Passes-raise p = cc p.returns

pub Passes-done : Passes done tt
Passes-done = record { returns = refl; clean = refl }

-- A validator that ends in an error passes in no case.
pub not-Passes-error_then {ℓ} :
    {A : Type ℓ} (m : Message) (n : Check A) {b : A} → ¬ Passes (error m >> n) b
not-Passes-error_then m n p = Passes-error ((Passes-seq (error m) n).0 p).0

-- Nor does one that goes on after a test that failed.
pub not-Passes-require_then {ℓ} :
    {A : Type ℓ} (m : Message) (n : Check A) {a : A} → ¬ Passes (require false m >> n) a
unfolding require
not-Passes-require_then m n = not-Passes-error_then m n

-- A match on an optional value, and a test, whose other case is an error.
pub Passes-some {ℓ κ} :
    {A : Type ℓ} {B : Type κ} (o : Option A) (e : Check B) (f : A → Check B) {b : B}
    → ¬ Passes e b
    → Passes (elim o [ none ↦ e | some a ↦ f a ]) b
    → (a : A) × (o ≡ some a) × Passes (f a) b
Passes-some none e f refuses p = absurd (refuses p)
Passes-some (some a) e f refuses p = (a, refl, p)

pub Passes-then {ℓ} :
    {A : Type ℓ} (test : Bool) (m n : Check A) {a : A}
    → ¬ Passes n a
    → Passes (if test then m else n) a
    → (test ≡ true) × Passes m a
Passes-then true m n refuses p = (refl, p)
Passes-then false m n refuses p = absurd (refuses p)

pub Passes-else {ℓ} :
    {A : Type ℓ} (test : Bool) (m n : Check A) {a : A}
    → ¬ Passes m a
    → Passes (if test then m else n) a
    → (test ≡ false) × Passes n a
Passes-else true m n refuses p = absurd (refuses p)
Passes-else false m n refuses p = (refl, p)
