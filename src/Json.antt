-- ===== src/Json.antt =====
-- The values that `json.load` returns, and the tests that the scripts make on them: `isinstance`,
-- `dict.get`, `in`, and Python's `==` with a text or with a small number, by which `True == 1`.
pub mod Laws
use libpglite.Prelude.{
  ℕ, suc, ◌*◌, ◌^◌, String, str_eq, Bool, true, false, not, ◌&&◌, ◌||◌, Option, none, some, List,
  [], ◌∷◌, ◌==◌, if◌then◌else◌, is_blank,
}

mutual
  -- `nat n` is n, `negsuc n` is -(n + 1), `float s m k` is m / 2 ^ k, negated if `s`; `nonfinite`
  -- is NaN or an infinity, which Python's parser admits.
  pub data Value : Type 0 where
    null : Value
    boolean : Bool → Value
    nat : ℕ → Value
    negsuc : ℕ → Value
    float : Bool → ℕ → ℕ → Value
    nonfinite : String → Value
    text : String → Value
    array : Items → Value
    object : Fields → Value

  pub data Items : Type 0 where
    nil : Items
    cons : Value → Items → Items

  -- A `dict`: each key stands once.
  pub data Fields : Type 0 where
    end : Fields
    field : String → Value → Fields → Fields

abbrev pub to_list : Items → List Value
to_list nil = []
to_list (cons v vs) = v ∷ to_list vs

-- `d.get(key)`, which is `None` for a missing key
unfoldable pub get : Fields → String → Value
get end key = null
get (field k v fs) key = let rest = get fs key in if str_eq k key then v else rest

-- `key in d`
unfoldable pub has : Fields → String → Bool
has end key = false
has (field k v fs) key = str_eq k key || has fs key

-- `v == s` for a text s
abbrev pub is_text : Value → String → Bool
is_text (text t) s = str_eq t s
is_text _ s = false

-- `v == n` for a natural number n
abbrev pub is_num : Value → ℕ → Bool
is_num (boolean b) n = (if b then 1 else 0) == n
is_num (nat m) n = m == n
is_num (float s m k) n = m == n * 2 ^ k && (not s || n == 0)
is_num _ n = false

-- `v is True`
abbrev pub is_true : Value → Bool
is_true (boolean b) = b
is_true _ = false

-- `v is None`
abbrev pub is_null : Value → Bool
is_null null = true
is_null _ = false

-- `isinstance(v, str)`, with the text
abbrev pub as_text : Value → Option String
as_text (text s) = some s
as_text _ = none

-- `isinstance(v, str) and v`, with the text
abbrev pub as_nonempty_text : Value → Option String
as_nonempty_text (text s) = if is_blank s then none else some s
as_nonempty_text _ = none

-- `isinstance(v, dict)`, with the fields
abbrev pub as_object : Value → Option Fields
as_object (object fs) = some fs
as_object _ = none

-- `isinstance(v, list)`, with the items
abbrev pub as_list : Value → Option (List Value)
as_list (array vs) = some (to_list vs)
as_list _ = none

-- A list or a dict cannot be hashed: `v in {…}` raises `TypeError`.
abbrev pub is_hashable : Value → Bool
is_hashable (array vs) = false
is_hashable (object fs) = false
is_hashable _ = true

-- `v in {…}` for a set of texts
abbrev pub is_one_of : Value → List String → Bool
is_one_of v [] = false
is_one_of v (s ∷ ss) = is_text v s || is_one_of v ss

-- A text of a `dict[str, str]` or `None`, as a value.
abbrev pub to_value : Option String → Value
to_value none = null
to_value (some s) = text s

-- `values.get(key) == expected` for a text `expected`
abbrev pub is_some_text : Option String → String → Bool
is_some_text none s = false
is_some_text (some t) s = str_eq t s

-- `a == b` of two values that are a text or `None`
abbrev pub same_text : Option String → Option String → Bool
same_text none none = true
same_text (some s) (some t) = str_eq s t
same_text _ _ = false

-- A number as a sign, m and k: it is m / 2 ^ k.
abbrev as_number : Value → Option (Bool × ℕ × ℕ)
as_number (boolean b) = some (false, (if b then 1 else 0), 0)
as_number (nat m) = some (false, m, 0)
as_number (negsuc m) = some (true, suc m, 0)
as_number (float s m k) = some (s, m, k)
as_number _ = none

abbrev same_sign : Bool → Bool → Bool
same_sign true b = b
same_sign false b = not b

abbrev same_number : Bool × ℕ × ℕ → Bool × ℕ × ℕ → Bool
same_number (s, m, k) (t, n, j) = m * 2 ^ j == n * 2 ^ k && (same_sign s t || m == 0)

abbrev equal_numbers : Option (Bool × ℕ × ℕ) → Option (Bool × ℕ × ℕ) → Bool
equal_numbers (some a) (some b) = same_number a b
equal_numbers _ _ = false

abbrev size : Fields → ℕ
size end = 0
size (field k v fs) = suc (size fs)

abbrev as_items : Value → Option Items
as_items (array vs) = some vs
as_items _ = none

-- `v == w`; NaN differs from everything, and the order of a dict does not count.
unfoldable mutual
  unfolding get has

  pub equals : Value → Value → Bool
  equals null w = is_null w
  equals (text s) w = is_text w s
  equals (nonfinite s) (nonfinite t) = not (str_eq s "NaN") && str_eq s t
  equals (array vs) w = elim (as_items w) [ none ↦ false | some ws ↦ equals_items vs ws ]
  equals (object fs) w = elim (as_object w) [
    | none ↦ false
    | some gs ↦ size fs == size gs && equals_fields fs gs
  ]
  equals (boolean b) w = equal_numbers (as_number (boolean b)) (as_number w)
  equals (nat n) w = equal_numbers (as_number (nat n)) (as_number w)
  equals (negsuc n) w = equal_numbers (as_number (negsuc n)) (as_number w)
  equals (float s m k) w = equal_numbers (as_number (float s m k)) (as_number w)
  equals (nonfinite s) w = false

  equals_items : Items → Items → Bool
  equals_items nil nil = true
  equals_items (cons v vs) (cons w ws) = equals v w && equals_items vs ws
  equals_items _ _ = false

  equals_fields : Fields → Fields → Bool
  equals_fields end gs = true
  equals_fields (field k v fs) gs = has gs k && equals v (get gs k) && equals_fields fs gs
