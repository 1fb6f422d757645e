-- ===== src/Timestamp/Bounds.antt =====
-- The fields of a timestamp that is read are those of a point in time.
use libpglite.Prelude.{
  ℕ, suc, ◌+◌, ◌*◌, ◌-◌, ◌≤◌, ◌≡◌, refl, String, Bool, true, false, Option, some, List, [], ◌∷◌,
  ltb, codes, arith, Option-cases, Bool-cases, inl, inr,
}
use libpglite.Check.{Check, Outcome, Message, ok, raised, pure, after, ◌>>=◌}
use libpglite.Json.{Value, as_text}
use libpglite.Timestamp.{
  DateTime, char_at, value, pair, is_month, is_day, is_hour, is_minute, is_second, is_calendar_time,
  days_in_month, year_of, is_utc_form, strptime, stamp_of, parse_utc_timestamp,
}

-- The fields of a point in time, of a proleptic Gregorian calendar.
pub record InRange (t : DateTime) : Type 0 where
  pub year : ℕ
  pub month : ℕ
  pub day : ℕ
  pub hour : ℕ
  pub minute : ℕ
  pub second : ℕ
  pub fields : t ≡ year ∷ month ∷ day ∷ hour ∷ minute ∷ second ∷ []
  pub years : (1 ≤ year) × (year ≤ 9999)
  pub months : (1 ≤ month) × (month ≤ 12)
  pub days : (1 ≤ day) × (day ≤ days_in_month year month)
  pub hours : hour ≤ 23
  pub minutes : minute ≤ 59
  pub seconds : second ≤ 59

-- The values of the decimal digits, those of ASCII among them.
pub record HasDigits (digit : ℕ → Option ℕ) : Type 0 where
  pub ascii : (c : ℕ) → 48 ≤ c → c ≤ 57 → digit c ≡ some (c - 48)
  pub below_ten : (c v : ℕ) → digit c ≡ some v → v ≤ 9

module _ (digit : ℕ → Option ℕ) (digits : HasDigits digit) where
  value-ascii : (c : ℕ) → 48 ≤ c → c ≤ 57 → value digit c ≡ c - 48
  unfolding value
  value-ascii c low high = rw (digits.ascii c low high, value) refl

  value-le : (c : ℕ) → value digit c ≤ 9
  unfolding value
  value-le c = elim (Option-cases (digit c)) [
    | inl none_there ↦ rw (none_there, value) (omega arith)
    | inr (v, e) ↦ rw (e, value) (digits.below_ten c v e)
  ]

  month-range :
      (a b : ℕ)
      → is_month digit a b ≡ true
      → (1 ≤ value digit a * 10 + value digit b) × (value digit a * 10 + value digit b ≤ 12)
  unfolding is_month
  month-range a b h = ground (arith, value-ascii a, value-ascii b)

  day-range : (a b : ℕ) → is_day digit a b ≡ true → 1 ≤ value digit a * 10 + value digit b
  unfolding is_day
  day-range a b h = ground (arith, value-ascii a, value-ascii b)

  hour-range : (a b : ℕ) → is_hour digit a b ≡ true → value digit a * 10 + value digit b ≤ 23
  unfolding is_hour
  hour-range a b h = ground (arith, value-ascii a, value-ascii b, value-le b)

  minute-range : (a b : ℕ) → is_minute digit a b ≡ true → value digit a * 10 + value digit b ≤ 59
  unfolding is_minute
  minute-range a b h = ground (arith, value-ascii a, value-le b)

  second-range : (a b : ℕ) → is_second digit a b ≡ true → value digit a * 10 + value digit b ≤ 59
  unfolding is_second
  second-range a b h = ground (arith, value-ascii a, value-le b)

  pair-le : (cs : List ℕ) (i : ℕ) → pair digit cs i ≤ 99
  unfolding pair
  pair-le cs i = omega (arith, value-le (char_at cs i), value-le (char_at cs (suc i)))

  year-range :
      (cs : List ℕ)
      → ltb 0 (year_of digit cs) ≡ true
      → (1 ≤ year_of digit cs) × (year_of digit cs ≤ 9999)
  unfolding year_of
  year-range cs h = ground (arith, pair-le cs 0, pair-le cs 2)

  -- What the tests of the fields come to.
  calendar-parts :
      (cs : List ℕ)
      → is_calendar_time digit cs ≡ true
      → (is_month digit (char_at cs 5) (char_at cs 6) ≡ true)
        × (is_day digit (char_at cs 8) (char_at cs 9) ≡ true)
        × (is_hour digit (char_at cs 11) (char_at cs 12) ≡ true)
        × (is_minute digit (char_at cs 14) (char_at cs 15) ≡ true)
        × (is_second digit (char_at cs 17) (char_at cs 18) ≡ true)
        × (ltb 0 (year_of digit cs) ≡ true)
        × (pair digit cs 8 ≤ days_in_month (year_of digit cs) (pair digit cs 5))
  unfolding is_calendar_time
  calendar-parts cs h = ground arith

  ok-eq : (t u : DateTime) → ok t ≡ ok u → u ≡ t
  ok-eq t u h = cc

  read-fields :
      (s : String) (t : DateTime)
      → is_calendar_time digit (codes s) ≡ true
      → (strptime digit s).outcome ≡ ok t
      → t
        ≡ year_of digit (codes s)
          ∷ pair digit (codes s) 5
          ∷ pair digit (codes s) 8
          ∷ pair digit (codes s) 11
          ∷ pair digit (codes s) 14
          ∷ pair digit (codes s) 17
          ∷ []
  unfolding strptime
  read-fields s t accepted h = ok-eq _ t (rw (accepted, strptime) at h)

  strptime-InRange : (s : String) (t : DateTime) → (strptime digit s).outcome ≡ ok t → InRange t
  unfolding strptime pair
  strptime-InRange s t h = elim (Bool-cases (is_calendar_time digit (codes s))) [
    | inl accepted ↦
        let cs = codes s in
        let (month, day, hour, minute, second, year, last) = calendar-parts cs accepted in
        record {
          year = year_of digit cs;
          month = pair digit cs 5;
          day = pair digit cs 8;
          hour = pair digit cs 11;
          minute = pair digit cs 14;
          second = pair digit cs 17;
          fields = read-fields s t accepted h;
          years = year-range cs year;
          months = month-range (char_at cs 5) (char_at cs 6) month;
          days = (day-range (char_at cs 8) (char_at cs 9) day, last);
          hours = hour-range (char_at cs 11) (char_at cs 12) hour;
          minutes = minute-range (char_at cs 14) (char_at cs 15) minute;
          seconds = second-range (char_at cs 17) (char_at cs 18) second;
        }
    | inr refused ↦ absurd (ground arith)
  ]

  stamped :
      (m : Check DateTime) (t : DateTime)
      → (m >>= λ u. pure (some u)).outcome ≡ ok (some t)
      → m.outcome ≡ ok t
  unfolding ◌>>=◌
  stamped m t h = by_outcome m.outcome m.errors m.warnings h
    where
      by_outcome :
          (o : Outcome DateTime) (es ws : List Message)
          → (after es ws o (λ u. pure (some u))).outcome ≡ ok (some t)
          → o ≡ ok t
      by_outcome (ok u) es ws h = cc
      by_outcome (raised e) es ws h = absurd (cc h)

  stamp_of-InRange :
      (is_form : Bool) (s : String) (t : DateTime)
      → (stamp_of digit is_form s).outcome ≡ ok (some t)
      → InRange t
  unfolding stamp_of
  stamp_of-InRange false s t h = absurd (cc h)
  stamp_of-InRange true s t h = strptime-InRange s t (stamped (strptime digit s) t h)

  -- Whatever JSON value is read as a timestamp, its fields are a year from 1 to 9999, a month, a
  -- day of that month in that year, an hour up to 23, and minutes and seconds up to 59, where the
  -- decimal digits have the values 0 to 9.
  pub parse_utc_timestamp-InRange :
      (v : Value) (t : DateTime) → (parse_utc_timestamp digit v).outcome ≡ ok (some t) → InRange t
  unfolding parse_utc_timestamp
  parse_utc_timestamp-InRange v t h = elim (Option-cases (as_text v)) [
    | inl other ↦ absurd (cc (rw (other, parse_utc_timestamp) at h))
    | inr (s, e) ↦ stamp_of-InRange (is_utc_form digit s) s t (rw (e, parse_utc_timestamp) at h)
  ]
