-- ===== src/Script.antt =====
-- The effects of the scripts that change files: they act on a world, and end by returning, by
-- `SystemExit` with a message, or in another exception.
pub mod Laws
use libpglite.Prelude.{String, Bool, Option, none, some, List, [], ◌∷◌, if◌then◌else◌}
use libpglite.Json.{Value}

-- A part of a message: literal text or a text that is put in, and `{v}`.
pub data Part : Type 0 where
  lit : String → Part
  str : Value → Part

abbrev pub Message : Type 0
Message = List Part

pub data Result {ℓ} (A : Type ℓ) : Type ℓ where
  returned : A → Result A
  exited : Message → Result A
  failed : Result A

abbrev pub of_option {ℓ} : {A : Type ℓ} → Option A → Result A
of_option none = failed
of_option (some a) = returned a

abbrev pub Action {ℓ} : Type 0 → Type ℓ → Type ℓ
Action W A = W → Result A × W

module _ {W : Type 0} where
  abbrev pub pure {ℓ} : {A : Type ℓ} → A → Action W A
  pure a w = (returned a, w)

  abbrev pub exit {ℓ} : {A : Type ℓ} → Message → Action W A
  exit m w = (exited m, w)

  abbrev pub fail {ℓ} : {A : Type ℓ} → Action W A
  fail w = (failed, w)

  abbrev pub lift {ℓ} : {A : Type ℓ} → Result A → Action W A
  lift r w = (r, w)

  -- What a function of the world answers.
  abbrev pub ask {ℓ} : {A : Type ℓ} → (W → A) → Action W A
  ask f w = (returned (f w), w)

  -- A question that may raise.
  abbrev pub require_some {ℓ} : {A : Type ℓ} → (W → Option A) → Action W A
  require_some f w = (of_option (f w), w)

module _ {ℓ κ} {W : Type 0} {A : Type ℓ} {B : Type κ} where
  abbrev pub continue : (A → Action W B) → Result A → Action W B
  continue f (returned a) w = f a w
  continue f (exited m) w = (exited m, w)
  continue f failed w = (failed, w)

  infixl 5 ◌>>=◌
  unfoldable pub ◌>>=◌ : Action W A → (A → Action W B) → Action W B
  (m >>= f) w = let (r, w') = m w in continue f r w'

infixl 5 ◌>>◌
abbrev pub ◌>>◌ {ℓ κ} :
    {W : Type 0} {A : Type ℓ} {B : Type κ} → Action W A → Action W B → Action W B
m >> n = m >>= λ _. n

-- `for x in xs: …`, with the results of the rounds
unfoldable pub each {ℓ κ} :
    {W : Type 0} {A : Type ℓ} {B : Type κ} → (A → Action W B) → List A → Action W (List B)
each f [] = pure []
each f (x ∷ xs) = do b ← f x; bs ← each f xs; pure (b ∷ bs)
