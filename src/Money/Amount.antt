-- ===== src/Money/Amount.antt =====
-- src/shared/money/money.ts: the operations of `Money`. Amounts are bigints; that `fromMinorUnits`
-- also takes a number is not modelled, since the callers in src/ pass a bigint.
pub mod SameCurrency
use program_capacity_invoice.Prelude.{
  ℕ, ◌-◌, ◌^◌, Bool, true, false, not, ◌&&◌, ◌||◌, if◌then◌else◌, ℤ, pos, negsuc, neg_ℤ, ◌+ℤ◌, ◌-ℤ◌,
  ltb_ℤ, ◌==ℤ◌, Text,
}
use program_capacity_invoice.Money.Types.{Currency, Money, currency_equals}
use program_capacity_invoice.Money.Decimal.{
  DecimalParseResult, parsed, refused, parse_scaled_decimal, format_scaled_decimal,
}
use program_capacity_invoice.Errors.{
  Result, ok, err, ◌>>=◌, ◌>>◌, throw_if, invalid_amount, currency_mismatch,
}

-- MAX_MINOR_UNITS
abbrev pub max_minor_units : ℤ
max_minor_units = pos (2 ^ 63 - 1)

-- `Money.fromMinorUnits` on a bigint
abbrev pub from_minor_units : ℤ → Currency → Money
from_minor_units minor_units currency = record { minor_units = minor_units; currency = currency }

unfoldable pub of_parsed : Currency → DecimalParseResult → Result Money
of_parsed currency (refused _) = err invalid_amount
of_parsed currency (parsed n) = ok (from_minor_units n currency)

-- `Money.fromDecimal`
unfoldable pub from_decimal : Text → Currency → Result Money
from_decimal amount currency =
    of_parsed currency (parse_scaled_decimal amount currency.minor_unit_digits)

-- `Money.zero`
abbrev pub zero_of : Currency → Money
zero_of currency = from_minor_units (pos 0) currency

-- `assertSameCurrency`
abbrev pub assert_same_currency : Money → Money → Result (Unit {0})
assert_same_currency a b =
    throw_if (not (currency_equals a.currency b.currency)) (currency_mismatch a.currency b.currency)

abbrev pub plus : Money → Money → Result Money
plus a b = do
  assert_same_currency a b
  ok (from_minor_units (a.minor_units +ℤ b.minor_units) a.currency)

abbrev pub minus : Money → Money → Result Money
minus a b = do
  assert_same_currency a b
  ok (from_minor_units (a.minor_units -ℤ b.minor_units) a.currency)

abbrev pub negated : Money → Money
negated a = from_minor_units (neg_ℤ a.minor_units) a.currency

abbrev pub sign_of_difference : ℤ → ℤ → ℤ
sign_of_difference a b = if ltb_ℤ a b then negsuc 0 else if ltb_ℤ b a then pos 1 else pos 0

-- `compareTo`: -1, 0 or 1
abbrev pub compare_to : Money → Money → Result ℤ
compare_to a b = do assert_same_currency a b; ok (sign_of_difference a.minor_units b.minor_units)

abbrev pub is_greater_than : Money → Money → Result Bool
is_greater_than a b = do c ← compare_to a b; ok (ltb_ℤ (pos 0) c)

abbrev pub is_positive : Money → Bool
is_positive a = ltb_ℤ (pos 0) a.minor_units

abbrev pub is_negative : Money → Bool
is_negative a = ltb_ℤ a.minor_units (pos 0)

-- `Money.equals`, on another `Money`
abbrev pub money_equals : Money → Money → Bool
money_equals a b = (b.minor_units ==ℤ a.minor_units) && currency_equals b.currency a.currency

-- `toDecimalString`
unfoldable pub to_decimal_string : Money → Text
to_decimal_string a = format_scaled_decimal a.minor_units a.currency.minor_unit_digits
