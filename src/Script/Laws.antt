-- ===== src/Script/Laws.antt =====
-- What a script that returns has done, and what it leaves as it was.
use libpglite.Prelude.{
  ◌≡◌, refl, sym, ap, ◌∙◌, Bool, true, false, Option, none, some, List, [], ◌∷◌, if◌then◌else◌, ◌⊎◌,
  inl, inr, All, subst,
}
use libpglite.Script.{
  Message, Result, returned, exited, failed, Action, of_option, pure, exit, fail, lift, ask,
  require_some, continue, ◌>>=◌, each,
}

-- The action returns `a` in the world `w'`.
abbrev pub Returns {ℓ} : {W : Type 0} {A : Type ℓ} → Action W A → W → A → W → Type ℓ
Returns m w a w' = m w ≡ (returned a, w')

module _ {ℓ κ} {W : Type 0} {A : Type ℓ} {B : Type κ} where
  continue-Returns :
      (f : A → Action W B) (r : Result A) (w : W) {b : B} {w' : W}
      → continue f r w ≡ (returned b, w')
      → (a : A) × (r ≡ returned a) × (f a w ≡ (returned b, w'))
  continue-Returns f (returned a) w h = (a, refl, h)
  continue-Returns f (exited m) w h = absurd (cc h)
  continue-Returns f failed w h = absurd (cc h)

  pub Returns-bind :
      (m : Action W A) (f : A → Action W B) (w : W) {b : B} {w' : W}
      → Returns (m >>= f) w b w'
      → (a : A) × (v : W) × Returns m w a v × Returns (f a) v b w'
  unfolding ◌>>=◌
  Returns-bind m f w h =
      let (a, e, k) = continue-Returns f (m w).0 (m w).1 h in
      (a, (m w).1, ap (λ r. (r, (m w).1)) e, k)

  pub bind-Returns :
      (m : Action W A) (f : A → Action W B) (w : W) {a : A} {v : W} {r : Result B × W}
      → Returns m w a v
      → f a v ≡ r
      → (m >>= f) w ≡ r
  unfolding ◌>>=◌
  bind-Returns m f w h k = rw h k

module _ {ℓ} {W : Type 0} {A : Type ℓ} where
  pub not-Returns-exit : {m : Message} {w w' : W} {a : A} → ¬ Returns (exit m) w a w'
  not-Returns-exit h = cc h

  pub not-Returns-fail : {w w' : W} {a : A} → ¬ Returns fail w a w'
  not-Returns-fail h = cc h

  pub Returns-pure : {w w' : W} {a b : A} → Returns (pure a) w b w' → (a ≡ b) × (w ≡ w')
  Returns-pure h = (cc h, cc h)

  -- The action ends in the world it began in, however it ends.
  pub record Keeps (m : Action W A) : Type ℓ where
    pub at : (w : W) → (m w).1 ≡ w

  pub Keeps-pure : (a : A) → Keeps (pure a)
  Keeps-pure a = record { at = λ w. refl }

  pub Keeps-exit : (m : Message) → Keeps (exit m)
  Keeps-exit m = record { at = λ w. refl }

  pub Keeps-fail : Keeps fail
  Keeps-fail = record { at = λ w. refl }

  pub Keeps-lift : (r : Result A) → Keeps (lift r)
  Keeps-lift r = record { at = λ w. refl }

  pub Keeps-ask : (f : W → A) → Keeps (ask f)
  Keeps-ask f = record { at = λ w. refl }

  pub Keeps-require_some : (f : W → Option A) → Keeps (require_some f)
  Keeps-require_some f = record { at = λ w. refl }

  pub Keeps-if :
      (b : Bool) (m n : Action W A)
      → (b ≡ true → Keeps m)
      → (b ≡ false → Keeps n)
      → Keeps (if b then m else n)
  Keeps-if true m n km kn = km refl
  Keeps-if false m n km kn = kn refl

module _ {ℓ κ} {W : Type 0} {A : Type ℓ} {B : Type κ} where
  Keeps-continue :
      (f : A → Action W B) (r : Result A) → ((a : A) → Keeps (f a)) → Keeps (continue f r)
  Keeps-continue f (returned a) kf = record { at = λ w. (kf a).at w }
  Keeps-continue f (exited m) kf = record { at = λ w. refl }
  Keeps-continue f failed kf = record { at = λ w. refl }

  pub Keeps-bind :
      (m : Action W A) (f : A → Action W B) → Keeps m → ((a : A) → Keeps (f a)) → Keeps (m >>= f)
  unfolding ◌>>=◌
  Keeps-bind m f km kf = record { at = λ w. (Keeps-continue f (m w).0 kf).at (m w).1 ∙ km.at w }

  pub Keeps-option :
      (o : Option A) (m : Action W B) (f : A → Action W B)
      → Keeps m
      → ((a : A) → Keeps (f a))
      → Keeps (elim o [ none ↦ m | some a ↦ f a ])
  Keeps-option none m f km kf = km
  Keeps-option (some a) m f km kf = kf a

module _ {ℓ} {W : Type 0} {A : Type ℓ} where
  -- An action that keeps the world returns in the world it began in.
  pub Returns-Keeps :
      (m : Action W A) (w : W) {a : A} {v : W} → Keeps m → Returns m w a v → Returns m w a w
  Returns-Keeps m w {a} kept h =
      h ∙ ap (λ u. (returned a, u)) (sym (ap (λ (p : Result A × W). p.1) h) ∙ kept.at w)

  -- An action that keeps the world ends in the world it began in.
  pub Keeps-same : (m : Action W A) (w : W) {a : A} {v : W} → Keeps m → Returns m w a v → w ≡ v
  Keeps-same m w kept h = sym (kept.at w) ∙ ap (λ (p : Result A × W). p.1) h

module _ {ℓ κ} {W : Type 0} {A : Type ℓ} {B : Type κ} where
  pub Keeps-each : (f : A → Action W B) (xs : List A) → ((a : A) → Keeps (f a)) → Keeps (each f xs)
  unfolding each
  Keeps-each f [] kf = Keeps-pure []
  Keeps-each f (x ∷ xs) kf =
      Keeps-bind (f x) _ (kf x)
        (λ b. Keeps-bind (each f xs) _ (Keeps-each f xs kf) (λ bs. Keeps-pure _))

pub ruleset keeps_rules = (
  Keeps-pure, Keeps-exit, Keeps-fail, Keeps-lift, Keeps-ask, Keeps-require_some, Keeps-if,
  Keeps-bind, Keeps-option, Keeps-each,
)

of_option-returned {ℓ} : {A : Type ℓ} (o : Option A) {a : A} → of_option o ≡ returned a → o ≡ some a
of_option-returned none h = cc
of_option-returned (some b) h = cc

module _ {ℓ} {W : Type 0} {A : Type ℓ} where
  pub Returns-require_some :
      (f : W → Option A) {w w' : W} {a : A}
      → Returns (require_some f) w a w'
      → (f w ≡ some a) × (w ≡ w')
  Returns-require_some f {w} h = (
    of_option-returned (f w) (ap (λ (p : Result A × W). p.0) h),
    ap (λ (p : Result A × W). p.1) h,
  )

  pub Returns-lift :
      (o : Option A) {w w' : W} {a : A}
      → Returns (lift (of_option o)) w a w'
      → (o ≡ some a) × (w ≡ w')
  Returns-lift o h = Returns-require_some (λ v. o) h

  pub Returns-ask : (f : W → A) {w w' : W} {a : A} → Returns (ask f) w a w' → (f w ≡ a) × (w ≡ w')
  Returns-ask f h = (cc h, cc h)

  -- A test whose other branch does not return.
  pub Returns-then :
      (b : Bool) (m n : Action W A) {w w' : W} {a : A}
      → ¬ Returns n w a w'
      → Returns (if b then m else n) w a w'
      → (b ≡ true) × Returns m w a w'
  Returns-then true m n refuses h = (refl, h)
  Returns-then false m n refuses h = absurd (refuses h)

  pub Returns-if :
      (b : Bool) (m n : Action W A) {w w' : W} {a : A}
      → Returns (if b then m else n) w a w'
      → ((b ≡ true) × Returns m w a w') ⊎ ((b ≡ false) × Returns n w a w')
  Returns-if true m n h = inl (refl, h)
  Returns-if false m n h = inr (refl, h)

module _ {ℓ κ} {W : Type 0} {A : Type ℓ} {B : Type κ} where
  -- A match on an optional value, whose case for none does not return.
  pub Returns-some :
      (o : Option A) (m : Action W B) (f : A → Action W B) {w w' : W} {b : B}
      → ¬ Returns m w b w'
      → Returns (elim o [ none ↦ m | some a ↦ f a ]) w b w'
      → (a : A) × (o ≡ some a) × Returns (f a) w b w'
  Returns-some none m f refuses h = absurd (refuses h)
  Returns-some (some a) m f refuses h = (a, refl, h)

returned-injective {ℓ} : {A : Type ℓ} {a b : A} → returned a ≡ returned b → a ≡ b
returned-injective h = cc h

-- An action returns one value from a world.
pub Returns-unique {ℓ} :
    {W : Type 0} {A : Type ℓ} (m : Action W A) {w v v' : W} {a b : A}
    → Returns m w a v
    → Returns m w b v'
    → a ≡ b
Returns-unique m h k = returned-injective (ap (λ p. p.0) (sym h ∙ k))

module _ {W A B : Type 0} where
  -- A loop from one world to another, round by round: each round begins in the world that the one
  -- before it has left.
  pub data Rounds (P : A → B → W → W → Type 0) : List A → List B → W → W → Type 0 where
    done : (w : W) → Rounds P [] [] w w
    next :
        (x : A) (xs : List A) (y : B) (ys : List B) (u v w : W)
        → P x y u v
        → Rounds P xs ys v w
        → Rounds P (x ∷ xs) (y ∷ ys) u w

  pub each-Rounds :
      (P : A → B → W → W → Type 0) (Q : A → Type 0) (f : A → Action W B)
      → ((x : A) (y : B) (v v' : W) → Q x → Returns (f x) v y v' → P x y v v')
      → (xs : List A) (ys : List B) (w w' : W) → All Q xs
      → Returns (each f xs) w ys w'
      → Rounds P xs ys w w'
  unfolding each
  each-Rounds P Q f step [] ys w w' qs h =
      let (none_left, ends) = Returns-pure h in
      subst (λ v. Rounds P [] ys w v) ends (subst (λ zs. Rounds P [] zs w w) none_left (done w))
  each-Rounds P Q f step (x ∷ xs) ys w w' (q, qs) h =
      let (y, v, first, h1) = Returns-bind (f x) _ w h in
      let (rest, v', others, h2) = Returns-bind (each f xs) _ v h1 in
      let (returned_list, ends) = Returns-pure h2 in
      let result : Rounds P (x ∷ xs) (y ∷ rest) w v' =
        next x xs y rest w v v' (step x y w v q first)
          (each-Rounds P Q f step xs rest v v' qs others) in
      rw (returned_list, ends) at result
