-- ===== src/Tests/Bounded.antt =====
-- A timestamp at the end of a month, and a cycle of upgrades.
use libpglite.Prelude.{
  ℕ, ◌-◌, ◌≡◌, refl, Option, none, some, [], ◌∷◌, leb, ◌&&◌, if◌then◌else◌, arith,
}
use libpglite.Json.{text}
use libpglite.Check.{ok, ◌>>=◌}
use libpglite.Timestamp.{parse_utc_timestamp, strptime, is_utc_form}
use libpglite.Timestamp.Bounds.{InRange, HasDigits, parse_utc_timestamp-InRange}
use libpglite.Extension.{Scripts, can_install}
use libpglite.Extension.Ends.{Runs, can_install-Runs}
use libpglite.Prelude.Text.{mem}

-- The digits of ASCII.
abbrev digit : ℕ → Option ℕ
digit c = if leb 48 c && leb c 57 then some (c - 48) else none

digit-HasDigits : HasDigits digit
digit-HasDigits = record { ascii = λ c low high. ground arith; below_ten = λ c v h. ground arith }

read :
    (parse_utc_timestamp digit (text "2028-02-29T23:59:59Z")).outcome
    ≡ ok (some (2028 ∷ 2 ∷ 29 ∷ 23 ∷ 59 ∷ 59 ∷ []))
unfolding parse_utc_timestamp strptime is_utc_form ◌>>=◌
read = refl

parse_utc_timestamp-InRange_example : InRange (2028 ∷ 2 ∷ 29 ∷ 23 ∷ 59 ∷ 59 ∷ [])
parse_utc_timestamp-InRange_example =
    parse_utc_timestamp-InRange digit digit-HasDigits (text "2028-02-29T23:59:59Z")
      (2028 ∷ 2 ∷ 29 ∷ 23 ∷ 59 ∷ 59 ∷ []) read

abbrev upgrades : Scripts
upgrades = record {
  base_versions = "1.0" ∷ [];
  upgrade_edges = ("1.0", "1.1") ∷ ("1.1", "1.0") ∷ ("1.1", "1.2") ∷ [];
}

can_install-Runs_example :
    Runs "1.2" upgrades.upgrade_edges
      (record { seen = "1.0" ∷ []; pending = "1.0" ∷ [] })
      (can_install upgrades "1.2")
unfolding mem
can_install-Runs_example = can_install-Runs upgrades "1.2" refl
