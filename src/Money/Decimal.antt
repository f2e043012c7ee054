-- ===== src/Money/Decimal.antt =====
-- src/shared/money/decimal.ts: exact conversion between decimal strings and scaled integers.
pub mod Digits
pub mod RoundTrip
use program_capacity_invoice.Prelude.{
  ℕ, zero, suc, ◌+◌, ◌-◌, ◌*◌, ◌/◌, ◌%◌, ◌^◌, Bool, true, false, Option, none, some, List, [], ◌∷◌,
  ◌++◌, ◌==◌, ltb, leb, ◌&&◌, if◌then◌else◌, ℤ, pos, negsuc, neg_ℤ, ltb_ℤ, nat_abs, Text, length,
  replicate, trim, is_digit,
}

-- `reason` of a failed parse
pub data DecimalProblem : Type 0 where
  not_decimal : DecimalProblem
  too_many_places : ℕ → DecimalProblem

pub data DecimalParseResult : Type 0 where
  parsed : ℤ → DecimalParseResult
  refused : DecimalProblem → DecimalParseResult

-- `BigInt(s)` of a string of decimal digits
unfoldable pub read_digits : ℕ → Text → ℕ
read_digits acc [] = acc
read_digits acc (c ∷ s) = read_digits (acc * 10 + (c - b'0')) s

-- The longest prefix of digits (`\d+` is greedy, and what may follow it is no digit), and the rest.
unfoldable pub span_digits : Text → Text × Text
span_digits [] = ([], [])
span_digits (c ∷ s) =
    let (ds, rest) = span_digits s in if is_digit c then (c ∷ ds, rest) else ([], c ∷ s)

-- A match of DECIMAL_PATTERN: whether there is a sign, the whole part, and the fraction, which is
-- empty where its group did not take part.
pub record DecimalMatch : Type 0 where
  pub sign : Bool
  pub whole : Text
  pub fraction : Text

-- what is left behind the fraction's digits must be nothing
unfoldable pub match_end : Bool → Text → Text → Text → Option DecimalMatch
match_end sign whole [] rest = none
match_end sign whole (f ∷ fs) (c ∷ rest) = none
match_end sign whole (f ∷ fs) [] = some (record { sign = sign; whole = whole; fraction = f ∷ fs })

unfoldable pub match_fraction : Bool → Text → Text → Option DecimalMatch
match_fraction sign [] rest = none
match_fraction sign (w ∷ ws) [] = some (record { sign = sign; whole = w ∷ ws; fraction = [] })
match_fraction sign (w ∷ ws) (c ∷ rest) =
    let (fraction, end) = span_digits rest in
    if c == b'.' then match_end sign (w ∷ ws) fraction end else none

unfoldable pub match_whole : Bool → Text → Option DecimalMatch
match_whole sign s = let (whole, rest) = span_digits s in match_fraction sign whole rest

-- `DECIMAL_PATTERN.exec(s)`, the pattern being /^(-?)(\d+)(?:\.(\d+))?$/
unfoldable pub match_decimal : Text → Option DecimalMatch
match_decimal [] = none
match_decimal (c ∷ s) = if c == b'-' then match_whole true s else match_whole false (c ∷ s)

-- `s.padEnd(n, '0')` and `s.padStart(n, '0')`
abbrev pub pad_end : Text → ℕ → Text
pad_end s n = s ++ replicate (n - length s) b'0'

abbrev pub pad_start : Text → ℕ → Text
pad_start s n = replicate (n - length s) b'0' ++ s

unfoldable pub scale_match : ℕ → Option DecimalMatch → DecimalParseResult
scale_match scale none = refused not_decimal
scale_match scale (some m) =
    if ltb scale (length m.fraction)
    then refused (too_many_places scale)
    else let absolute = read_digits 0 (m.whole ++ pad_end m.fraction scale) in
      parsed (if m.sign then neg_ℤ (pos absolute) else pos absolute)

-- The test `typeof raw !== 'string'` is met by the type of `raw`.
unfoldable pub parse_scaled_decimal : Text → ℕ → DecimalParseResult
parse_scaled_decimal raw scale = scale_match scale (match_decimal (trim raw))

-- `n.toString()`: the decimal digits of n. A number has fewer digits than its value plus one, so
-- the fuel is enough (`Money.Decimal.Digits`).
unfoldable pub digits_fuel : ℕ → ℕ → Text
digits_fuel zero n = []
digits_fuel (suc f) n =
    let rest = digits_fuel f (n / 10) in
    if ltb n 10 then (b'0' + n) ∷ [] else rest ++ (b'0' + n % 10) ∷ []

unfoldable pub to_string : ℕ → Text
unfolding digits_fuel
to_string n = digits_fuel (n + 1) n

unfoldable pub format_scaled_decimal : ℤ → ℕ → Text
format_scaled_decimal scaled scale =
    let absolute = nat_abs scaled in
    let sign : Text = if ltb_ℤ scaled (pos 0) then b'-' ∷ [] else [] in
    if scale == 0
    then sign ++ to_string absolute
    else let divisor = 10 ^ scale in
      let fraction = pad_start (to_string (absolute % divisor)) scale in
      sign ++ to_string (absolute / divisor) ++ b'.' ∷ fraction
