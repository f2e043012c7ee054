-- ===== src/Money/Types.antt =====
-- The value objects of src/shared/money, and the identifiers and dates that travel with them. The
-- constructors of the classes are private: `Money.Currency.of`, `Money.Amount` and `Money.Rate`
-- model the static methods that make their values.
use program_capacity_invoice.Prelude.{ℕ, Option, ◌^◌, Bool, Text, text_eq, ℤ}

-- currency.ts, `Currency`
pub record Currency : Type 0 where
  pub code : Text
  pub minor_unit_digits : ℕ

-- `minorUnitsPerUnit`, which the constructor computes
abbrev pub minor_units_per_unit : Currency → ℕ
minor_units_per_unit c = 10 ^ c.minor_unit_digits

-- `Currency.equals`
abbrev pub currency_equals : Currency → Currency → Bool
currency_equals a b = text_eq b.code a.code

-- money.ts, `Money`
pub record Money : Type 0 where
  pub minor_units : ℤ
  pub currency : Currency

-- rounding.ts
pub data RoundingMode : Type 0 where
  ceiling floor : RoundingMode

-- exchange-rate.ts, `ExchangeRate`; `as_of` is `#asOfMillis`
pub record ExchangeRate : Type 0 where
  pub from : Currency
  pub to : Currency
  pub scaled_rate : ℤ
  pub as_of : ℤ

-- A `Date` by its time value in milliseconds; `none` is an invalid date, whose time is NaN.
abbrev pub Date : Type 0
Date = Option ℤ

-- identifier.ts; the classes of ids.ts differ in name only, and are kept apart by their types
pub record Identifier : Type 0 where
  pub value : Text

-- `Identifier.equals` within one class
abbrev pub id_equals : Identifier → Identifier → Bool
id_equals a b = text_eq b.value a.value
