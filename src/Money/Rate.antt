-- ===== src/Money/Rate.antt =====
-- src/shared/money/exchange-rate.ts
pub mod Convert
use program_capacity_invoice.Prelude.{
  ℕ, ◌∷◌, [], ◌^◌, ◌*◌, Bool, not, Option, none, some, ℤ, pos, ◌*ℤ◌, leb_ℤ, ◌==ℤ◌, ◌&&◌,
  if◌then◌else◌, Text, codes,
}
use program_capacity_invoice.Money.Types.{
  Currency, Money, ExchangeRate, RoundingMode, Date, minor_units_per_unit, currency_equals,
}
use program_capacity_invoice.Money.Decimal.{
  DecimalParseResult, parsed, refused, parse_scaled_decimal, format_scaled_decimal,
}
use program_capacity_invoice.Money.Rounding.{divide_with_rounding}
use program_capacity_invoice.Money.Amount.{from_minor_units}
use program_capacity_invoice.Errors.{
  Result, ok, err, ◌>>=◌, ◌>>◌, throw_if, invalid_exchange_rate, rate_not_applicable,
}

-- RATE_DECIMAL_PLACES and RATE_SCALE
abbrev pub rate_decimal_places : ℕ
rate_decimal_places = 8

abbrev pub rate_scale : ℕ
rate_scale = 10 ^ rate_decimal_places

unfoldable pub of_date : Currency → Currency → ℤ → Date → Result ExchangeRate
of_date from to scaled none = err invalid_exchange_rate
of_date from to scaled (some as_of) =
    ok (record { from = from; to = to; scaled_rate = scaled; as_of = as_of })

unfoldable pub of_scaled : Currency → Currency → DecimalParseResult → Date → Result ExchangeRate
of_scaled from to (refused _) as_of = err invalid_exchange_rate
of_scaled from to (parsed n) as_of =
    if leb_ℤ n (pos 0) then err invalid_exchange_rate else of_date from to n as_of

-- `ExchangeRate.of`
unfoldable pub of : Currency → Currency → Text → Date → Result ExchangeRate
of from to rate as_of = of_scaled from to (parse_scaled_decimal rate rate_decimal_places) as_of

-- `ExchangeRate.identity`
unfoldable pub identity : Currency → Date → Result ExchangeRate
identity currency as_of = of currency currency (codes "1") as_of

-- `get rate`
unfoldable pub rate : ExchangeRate → Text
rate r = format_scaled_decimal r.scaled_rate rate_decimal_places

-- `convert`: one integer division, so it rounds once
unfoldable pub convert : ExchangeRate → Money → RoundingMode → Result Money
convert r amount mode = do
  throw_if (not (currency_equals amount.currency r.from))
      (rate_not_applicable r.from r.to amount.currency)
  let numerator = amount.minor_units *ℤ r.scaled_rate *ℤ pos (minor_units_per_unit r.to)
  let divisor = rate_scale * minor_units_per_unit r.from
  converted ← divide_with_rounding numerator (pos divisor) mode
  ok (from_minor_units converted r.to)

-- `ExchangeRate.equals`, on another rate
abbrev pub rate_equals : ExchangeRate → ExchangeRate → Bool
rate_equals a b =
    currency_equals b.from a.from
    && currency_equals b.to a.to
    && (b.scaled_rate ==ℤ a.scaled_rate)
    && (b.as_of ==ℤ a.as_of)
