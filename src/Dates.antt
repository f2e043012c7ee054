-- ===== src/Dates.antt =====
-- `Date.prototype.toISOString` on a time in milliseconds. The day number becomes a date of the
-- proleptic Gregorian calendar by eras of 400 years, which are 146097 days.
use program_capacity_invoice.Prelude.{
  ℕ, suc, ◌+◌, ◌-◌, ◌*◌, ◌/◌, ◌%◌, ◌++◌, ◌∷◌, ℤ, pos, negsuc, ◌+ℤ◌, ◌*ℤ◌, leb, if◌then◌else◌, Text,
  codes, none, some,
}
use program_capacity_invoice.Money.Types.{Date}
use program_capacity_invoice.Money.Decimal.{to_string, pad_start}
use program_capacity_invoice.Errors.{Result, ok, err, foreign}

-- the floor of a / d, and what is left of it
unfoldable pub floor_div : ℤ → ℕ → ℤ
floor_div (pos n) d = pos (n / d)
floor_div (negsuc n) d = negsuc (n / d)

unfoldable pub floor_mod : ℤ → ℕ → ℕ
floor_mod (pos n) d = n % d
floor_mod (negsuc n) d = d - 1 - n % d

pub record CivilDate : Type 0 where
  pub year : ℤ
  pub month : ℕ
  pub day : ℕ

-- The date that comes so many days after 1970-01-01. Years here begin in March: leap days come last.
unfoldable pub civil_date : ℤ → CivilDate
civil_date days =
    let shifted = days +ℤ pos 719468 in
    let of_era = floor_mod shifted 146097 in
    let year = (of_era - of_era / 1460 + of_era / 36524 - of_era / 146096) / 365 in
    let of_year = of_era - (365 * year + year / 4 - year / 100) in
    let from_march = (5 * of_year + 2) / 153 in
    let whole_year = floor_div shifted 146097 *ℤ pos 400 +ℤ pos year in
    record {
      year = if leb 10 from_march then whole_year +ℤ pos 1 else whole_year;
      month = if leb 10 from_march then from_march - 9 else from_march + 3;
      day = of_year - (153 * from_march + 2) / 5 + 1;
    }

-- four digits, or a sign and six of them outside the years 0 to 9999
abbrev pub year_digits : ℤ → Text
year_digits (pos n) =
    if leb n 9999 then pad_start (to_string n) 4 else b'+' ∷ pad_start (to_string n) 6
year_digits (negsuc n) = b'-' ∷ pad_start (to_string (suc n)) 6

abbrev pub iso_date : CivilDate → Text
iso_date date =
    year_digits date.year
    ++ b'-' ∷ pad_start (to_string date.month) 2
    ++ b'-' ∷ pad_start (to_string date.day) 2

abbrev pub iso_time : ℕ → Text
iso_time ms =
    pad_start (to_string (ms / 3600000)) 2
    ++ b':' ∷ pad_start (to_string (ms / 60000 % 60)) 2
    ++ b':' ∷ pad_start (to_string (ms / 1000 % 60)) 2
    ++ b'.' ∷ pad_start (to_string (ms % 1000)) 3
    ++ codes "Z"

-- An invalid date throws a `RangeError`.
unfoldable pub to_iso_string : Date → Result Text
to_iso_string none = err (foreign (codes "RangeError"))
to_iso_string (some ms) =
    ok (iso_date (civil_date (floor_div ms 86400000)) ++ b'T' ∷ iso_time (floor_mod ms 86400000))
