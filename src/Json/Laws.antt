-- ===== src/Json/Laws.antt =====
-- What the tests on values say.
use libpglite.Prelude.{
  ◌≡◌, refl, ap, ◌↔◌, String, eq_iff, eq_refl, true, false, Option, none, some, List, [], ◌∷◌,
  arith, is_blank,
}
use libpglite.Json.{
  Value, null, boolean, nat, negsuc, float, nonfinite, text, array, object, Fields, is_text,
  is_one_of, is_some_text, is_hashable, as_text, as_object, as_nonempty_text,
}

pub is_text_iff : (v : Value) (s : String) → (is_text v s ≡ true) ↔ (v ≡ text s)
is_text_iff (text t) s =
    (λ h. ap text ((eq_iff t s).0 h), λ e. let same : t ≡ s = cc in rw same (eq_refl s))
is_text_iff null s = (λ h. cc, λ e. cc)
is_text_iff (boolean b) s = (λ h. cc, λ e. cc)
is_text_iff (nat n) s = (λ h. cc, λ e. cc)
is_text_iff (negsuc n) s = (λ h. cc, λ e. cc)
is_text_iff (float b m k) s = (λ h. cc, λ e. cc)
is_text_iff (nonfinite t) s = (λ h. cc, λ e. cc)
is_text_iff (array vs) s = (λ h. cc, λ e. cc)
is_text_iff (object fs) s = (λ h. cc, λ e. cc)

-- A member of a set of texts can be hashed.
pub is_one_of-hashable :
    (v : Value) (names : List String) → is_one_of v names ≡ true → is_hashable v ≡ true
is_one_of-hashable v [] h = cc
is_one_of-hashable (array vs) (s ∷ names) h = is_one_of-hashable (array vs) names h
is_one_of-hashable (object fs) (s ∷ names) h = is_one_of-hashable (object fs) names h
is_one_of-hashable null (s ∷ names) h = refl
is_one_of-hashable (boolean b) (s ∷ names) h = refl
is_one_of-hashable (nat n) (s ∷ names) h = refl
is_one_of-hashable (negsuc n) (s ∷ names) h = refl
is_one_of-hashable (float b m k) (s ∷ names) h = refl
is_one_of-hashable (nonfinite t) (s ∷ names) h = refl
is_one_of-hashable (text t) (s ∷ names) h = refl

pub as_object-eq-some : (v : Value) {fs : Fields} → as_object v ≡ some fs → v ≡ object fs
as_object-eq-some (object gs) h = cc
as_object-eq-some _ h = cc

pub as_text-eq-some : (v : Value) {s : String} → as_text v ≡ some s → v ≡ text s
as_text-eq-some (text t) h = cc
as_text-eq-some _ h = cc

pub as_nonempty_text-eq-some :
    (v : Value) {s : String} → as_nonempty_text v ≡ some s → (v ≡ text s) × (is_blank s ≡ false)
as_nonempty_text-eq-some (text t) h = ground arith
as_nonempty_text-eq-some _ h = cc

pub is_some_text_iff : (o : Option String) (s : String) → (is_some_text o s ≡ true) ↔ (o ≡ some s)
is_some_text_iff none s = (λ h. absurd (cc h), λ h. absurd (cc h))
is_some_text_iff (some t) s =
    (λ h. ap some ((eq_iff t s).0 h), λ h. let same : t ≡ s = cc h in (eq_iff t s).1 same)
