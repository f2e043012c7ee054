-- ===== src/Capacity/Rates.antt =====
-- src/contexts/capacity/infrastructure/fx/static-exchange-rate-provider.ts
pub mod Codes
pub mod Quoted
use program_capacity_invoice.Prelude.{
  Option, none, some, List, [], ◌∷◌, ◌++◌, Text, split_on, codes, if◌then◌else◌, Dict, lookup,
  insert,
}
use program_capacity_invoice.Money.Types.{Currency, ExchangeRate, Date, currency_equals}
use program_capacity_invoice.Money.Currency
use program_capacity_invoice.Money.Rate.{identity}
use program_capacity_invoice.Money.Rate
use program_capacity_invoice.Errors.{Result, ok, err, ◌>>=◌, foreign, exchange_rate_unavailable}

-- The fields of the provider.
pub record StaticRates : Type 0 where
  pub as_of : Date
  pub rates : Dict ExchangeRate

-- `key`
abbrev pub pair_key : Currency → Currency → Text
pair_key from to = from.code ++ b'/' ∷ to.code

-- the two codes of a key of the table
abbrev pub two_codes : List Text → Option (Text × Text)
two_codes (from ∷ to ∷ []) = some (from, to)
two_codes _ = none

abbrev pub parse_entry : Date → Option (Text × Text) → Text → Result ExchangeRate
parse_entry as_of none rate = err (foreign (codes "Error"))
parse_entry as_of (some (from, to)) rate = do
  from_currency ← Currency.of from
  to_currency ← Currency.of to
  Rate.of from_currency to_currency rate as_of

-- `new Map(entries)`: a later entry replaces an earlier one of its key
unfoldable pub read_rates :
    Date → List (Text × Text) → Dict ExchangeRate → Result (Dict ExchangeRate)
read_rates as_of [] rates = ok rates
read_rates as_of ((pair, rate) ∷ entries) rates = do
  parsed ← parse_entry as_of (two_codes (split_on b'/' pair)) rate
  read_rates as_of entries (insert (pair_key parsed.from parsed.to) parsed rates)

-- the constructor
unfoldable pub static_rates : Date → List (Text × Text) → Result StaticRates
static_rates as_of table = do
  rates ← read_rates as_of table []
  ok (record { as_of = as_of; rates = rates })

abbrev pub or_unavailable : Currency → Currency → Option ExchangeRate → Result ExchangeRate
or_unavailable from to none = err (exchange_rate_unavailable from to)
or_unavailable from to (some rate) = ok rate

-- `rateFor`
unfoldable pub rate_for : StaticRates → Currency → Currency → Result ExchangeRate
rate_for provider from to =
    if currency_equals from to
    then identity from provider.as_of
    else or_unavailable from to (lookup (pair_key from to) provider.rates)
