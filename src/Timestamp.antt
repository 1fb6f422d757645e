-- ===== src/Timestamp.antt =====
-- `parse_utc_timestamp` of scripts/doctor-native-plugin-package.py. The pattern admits any decimal
-- digits; `strptime` admits fewer, and raises where the pattern has let a text through.
pub mod Bounds
use libpglite.Prelude.{
  ℕ, zero, suc, ◌+◌, ◌*◌, String, Bool, true, false, not, Option, none, some, List, [], ◌∷◌, ◌&&◌,
  ◌||◌, ◌==◌, ltb, leb, codes, if◌then◌else◌,
}
use Prim.Native.Nat.{◌%◌}
use libpglite.Json.{Value, as_text}
use libpglite.Check.{Check, value_error, pure, raise, ◌>>=◌}

-- A point in time: the numbers from the year down to the second.
abbrev pub DateTime : Type 0
DateTime = List ℕ

-- `a < b`
unfoldable pub earlier : DateTime → DateTime → Bool
earlier [] [] = false
earlier [] (y ∷ b) = true
earlier (x ∷ a) [] = false
earlier (x ∷ a) (y ∷ b) = let rest = earlier a b in ltb x y || (x == y && rest)

abbrev char_at : List ℕ → ℕ → ℕ
char_at [] i = 0
char_at (c ∷ cs) zero = c
char_at (c ∷ cs) (suc i) = char_at cs i

abbrev is_leap : ℕ → Bool
is_leap y = y % 4 == 0 && (not (y % 100 == 0) || y % 400 == 0)

pub days_in_month : ℕ → ℕ → ℕ
days_in_month y m =
    if m == 2
    then (if is_leap y then 29 else 28)
    else if m == 4 || m == 6 || m == 9 || m == 11
    then 30
    else 31

module _ (digit : ℕ → Option ℕ) where
  is_digit : ℕ → Bool
  is_digit c = elim (digit c) [ none ↦ false | some v ↦ true ]

  value : ℕ → ℕ
  value c = elim (digit c) [ none ↦ 0 | some v ↦ v ]

  -- `fullmatch` against a form in which `d` stands for `\d`.
  matches : List ℕ → List ℕ → Bool
  matches [] [] = true
  matches [] (c ∷ cs) = false
  matches (f ∷ form) [] = false
  matches (f ∷ form) (c ∷ cs) = (if f == b'd' then is_digit c else f == c) && matches form cs

  -- `UTC_TIMESTAMP.fullmatch(s)`, and the pattern that `validate_build_provenance` repeats.
  unfoldable pub is_utc_form : String → Bool
  unfolding matches is_digit
  is_utc_form s = matches (codes "dddd-dd-ddTdd:dd:ddZ") (codes s)

  pair : List ℕ → ℕ → ℕ
  pair cs i = value (char_at cs i) * 10 + value (char_at cs (suc i))

  -- The directives of `strptime`, on the two characters of a field.
  is_month : ℕ → ℕ → Bool
  is_month a b = (a == b'1' && leb b'0' b && leb b b'2') || (a == b'0' && leb b'1' b && leb b b'9')

  is_day : ℕ → ℕ → Bool
  is_day a b =
      (a == b'3' && leb b'0' b && leb b b'1')
      || ((a == b'1' || a == b'2') && is_digit b)
      || (a == b'0' && leb b'1' b && leb b b'9')

  is_hour : ℕ → ℕ → Bool
  is_hour a b = (a == b'2' && leb b'0' b && leb b b'3') || ((a == b'0' || a == b'1') && is_digit b)

  is_minute : ℕ → ℕ → Bool
  is_minute a b = leb b'0' a && leb a b'5' && is_digit b

  -- 60 and 61 pass the directive, and the constructor of `datetime` refuses them.
  is_second : ℕ → ℕ → Bool
  is_second a b = leb b'0' a && leb a b'5' && is_digit b

  year_of : List ℕ → ℕ
  year_of cs = pair cs 0 * 100 + pair cs 2

  -- The directives match, and the fields are a date of the calendar.
  is_calendar_time : List ℕ → Bool
  is_calendar_time cs =
      is_month (char_at cs 5) (char_at cs 6)
      && is_day (char_at cs 8) (char_at cs 9)
      && is_hour (char_at cs 11) (char_at cs 12)
      && is_minute (char_at cs 14) (char_at cs 15)
      && is_second (char_at cs 17) (char_at cs 18)
      && ltb 0 (year_of cs)
      && leb (pair cs 8) (days_in_month (year_of cs) (pair cs 5))

  unfoldable pub strptime : String → Check DateTime
  unfolding is_calendar_time is_month is_day is_hour is_minute is_second is_digit value pair year_of
      days_in_month
  strptime s =
      let cs = codes s in
      if is_calendar_time cs
      then pure (year_of cs ∷ pair cs 5 ∷ pair cs 8 ∷ pair cs 11 ∷ pair cs 14 ∷ pair cs 17 ∷ [])
      else raise value_error

  pub stamp_of : Bool → String → Check (Option DateTime)
  unfolding strptime
  stamp_of false s = pure none
  stamp_of true s = strptime s >>= λ t. pure (some t)

  unfoldable pub parse_utc_timestamp : Value → Check (Option DateTime)
  unfolding is_utc_form stamp_of
  parse_utc_timestamp v = elim (as_text v) [
    | none ↦ pure none
    | some s ↦ stamp_of (is_utc_form s) s
  ]
