-- ===== src/Check.antt =====
-- The effects of a validator of the doctor (scripts/doctor-native-plugin-package.py): it appends
-- to `self.errors` and `self.warnings`, and may raise. Both lists only grow, so a method is the
-- messages that it appends and its outcome.
pub mod Laws
use libpglite.Prelude.{ℕ, String, Bool, true, false, List, [], ◌∷◌, ◌++◌, if◌then◌else◌}
use libpglite.Json.{Value}

-- A part of an f-string: literal text or a text that is put in, a count, `{v!r}` and `{v}`.
pub data Piece : Type 0 where
  lit : String → Piece
  num : ℕ → Piece
  repr : Value → Piece
  str : Value → Piece

abbrev pub Message : Type 0
Message = List Piece

-- The exceptions that the methods do not catch.
pub data Exception : Type 0 where
  type_error attribute_error value_error os_error : Exception

pub data Outcome {ℓ} (A : Type ℓ) : Type ℓ where
  ok : A → Outcome A
  raised : Exception → Outcome A

pub record Check {ℓ} (A : Type ℓ) : Type ℓ where
  pub outcome : Outcome A
  pub errors : List Message
  pub warnings : List Message

abbrev pub pure {ℓ} : {A : Type ℓ} → A → Check A
pure a = record { outcome = ok a; errors = []; warnings = [] }

abbrev pub done : Check (Unit {0})
done = pure tt

abbrev pub raise {ℓ} : {A : Type ℓ} → Exception → Check A
raise e = record { outcome = raised e; errors = []; warnings = [] }

-- `self.errors.append(…)`
abbrev pub error : Message → Check (Unit {0})
error m = record { outcome = ok tt; errors = m ∷ []; warnings = [] }

-- `self.warnings.append(…)`
abbrev pub warning : Message → Check (Unit {0})
warning m = record { outcome = ok tt; errors = []; warnings = m ∷ [] }

module _ {ℓ κ} {A : Type ℓ} {B : Type κ} where
  -- What runs after a method that appended `es` and `ws`.
  abbrev pub after : List Message → List Message → Outcome A → (A → Check B) → Check B
  after es ws (raised e) f = record { outcome = raised e; errors = es; warnings = ws }
  after es ws (ok a) f =
      let next = f a in
      record { outcome = next.outcome; errors = es ++ next.errors; warnings = ws ++ next.warnings }

  infixl 5 ◌>>=◌
  unfoldable pub ◌>>=◌ : Check A → (A → Check B) → Check B
  m >>= f = after m.errors m.warnings m.outcome f

infixl 5 ◌>>◌
abbrev pub ◌>>◌ {ℓ κ} : {A : Type ℓ} {B : Type κ} → Check A → Check B → Check B
m >> n = m >>= λ _. n

-- `if not test: self.errors.append(m)`
unfoldable pub require : Bool → Message → Check (Unit {0})
require test m = if test then done else error m

-- `for x in xs: …`
unfoldable pub each {ℓ} : {A : Type ℓ} → List A → (A → Check (Unit {0})) → Check (Unit {0})
each [] f = done
each (x ∷ xs) f = f x >> each xs f
