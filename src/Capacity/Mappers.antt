-- ===== src/Capacity/Mappers.antt =====
-- src/contexts/capacity/infrastructure/persistence/prisma/mappers.ts, and the rows of
-- prisma-capacity-ledger.ts. What the database makes of a decimal string, and the `toFixed` of what
-- it gives back, are arguments.

pub mod Known
pub mod Programs
pub mod Reservations
use program_capacity_invoice.Prelude.{
  Bool, true, false, not, ◌&&◌, Option, none, some, List, [], ◌∷◌, ◌++◌, ℤ, pos, neg_ℤ, leb_ℤ, ◌-◌,
  ◌^◌, ℕ, Text, is_none,
}
use program_capacity_invoice.Money.Types.{Currency, Money, ExchangeRate, Date, Identifier}
use program_capacity_invoice.Money.Currency
use program_capacity_invoice.Money.Amount.{from_minor_units}
use program_capacity_invoice.Money.Rate
use program_capacity_invoice.Money.Rate.{rate, rate_decimal_places}
use program_capacity_invoice.Errors.{
  Result, ok, err, ◌>>=◌, ◌>>◌, throw_if, invariant_violation, ProgramStatus, ReservationStatus,
}
use program_capacity_invoice.Capacity.Ids
use program_capacity_invoice.Capacity.Events.{
  DomainEvent, program_opened, capacity_reserved, capacity_released, credit_limit_changed,
  program_status_changed,
}
use program_capacity_invoice.Capacity.Program.State.{Program}
use program_capacity_invoice.Capacity.Program.Guards.{program_currency}
use program_capacity_invoice.Capacity.Program.Guards
use program_capacity_invoice.Capacity.Reservation.{Reservation, as_date}
use program_capacity_invoice.Capacity.Reservation

-- `ProgramRow`
pub record ProgramRow : Type 0 where
  pub id : Text
  pub currency : Text
  pub credit_limit_minor : ℤ
  pub reserved_minor : ℤ
  pub status : ProgramStatus
  pub version : ℤ
  pub treasury_sequence : ℤ

-- `Number.isSafeInteger`
abbrev pub is_safe_integer : ℤ → Bool
is_safe_integer n = leb_ℤ n (pos (2 ^ 53 - 1)) && leb_ℤ (neg_ℤ n) (pos (2 ^ 53 - 1))

-- `toSequence`: above 2^53 the number is not safe either, whatever it is rounded to
abbrev pub to_sequence : ℤ → Result ℤ
to_sequence sequence = throw_if (not (is_safe_integer sequence)) invariant_violation >> ok sequence

-- `toProgram`
unfoldable pub to_program : ProgramRow → Result Program
to_program row = do
  currency ← Currency.of row.currency
  id ← Ids.of row.id
  sequence ← to_sequence row.treasury_sequence
  Guards.rehydrate (record {
    id = id;
    credit_limit = from_minor_units row.credit_limit_minor currency;
    reserved_amount = from_minor_units row.reserved_minor currency;
    status = row.status;
    version = row.version;
    treasury_sequence = sequence;
  })

-- `fromProgram`
unfoldable pub from_program : Program → ProgramRow
from_program p = record {
  id = p.id.value;
  currency = (program_currency p).code;
  credit_limit_minor = p.credit_limit.minor_units;
  reserved_minor = p.reserved_amount.minor_units;
  status = p.status;
  version = p.version;
  treasury_sequence = p.treasury_sequence;
}

-- A row of reservations, as it is read; `Decimal` is the type of a decimal column.
pub record ReservationRow (Decimal : Type 0) : Type 0 where
  pub id : Text
  pub program_id : Text
  pub invoice_id : Text
  pub reservation_key : Option Text
  pub invoice_currency : Text
  pub invoice_minor : ℤ
  pub reserved_currency : Text
  pub reserved_minor : ℤ
  pub exchange_rate : Option Decimal
  pub rate_as_of : Option Date
  pub repaid_minor : ℤ
  pub released_minor : ℤ
  pub status : ReservationStatus
  pub reserved_at : Date
  pub released_at : Option Date

abbrev pub key_value : Option Identifier → Option Text
key_value none = none
key_value (some key) = some key.value

abbrev pub key_of_text : Option Text → Result (Option Identifier)
key_of_text none = ok none
key_of_text (some key) = do id ← Ids.of key; ok (some id)

module _ {Decimal : Type 0} (stored : Text → Decimal) (to_fixed : Decimal → ℕ → Text) where
  abbrev pub rate_value : Option ExchangeRate → Option Decimal
  rate_value none = none
  rate_value (some r) = some (stored (rate r))

  abbrev pub rate_time : Option ExchangeRate → Option Date
  rate_time none = none
  rate_time (some r) = some (some r.as_of)

  -- `fromReservation`, and what the database stores of it
  unfoldable pub from_reservation : Reservation → ReservationRow Decimal
  from_reservation r = record {
    id = r.id.value;
    program_id = r.program_id.value;
    invoice_id = r.invoice_id.value;
    reservation_key = key_value r.reservation_key;
    invoice_currency = r.invoice_amount.currency.code;
    invoice_minor = r.invoice_amount.minor_units;
    reserved_currency = r.reserved_amount.currency.code;
    reserved_minor = r.reserved_amount.minor_units;
    exchange_rate = rate_value r.exchange_rate;
    rate_as_of = rate_time r.exchange_rate;
    repaid_minor = r.repaid_amount.minor_units;
    released_minor = r.released_amount.minor_units;
    status = r.status;
    reserved_at = some r.reserved_at;
    released_at = as_date r.released_at;
  }

  abbrev pub some_exchange_rate : Result ExchangeRate → Result (Option ExchangeRate)
  some_exchange_rate (ok r) = ok (some r)
  some_exchange_rate (err error) = err error

  -- `toExchangeRate`
  abbrev pub to_exchange_rate :
      Option Decimal → Option Date → Currency → Currency → Result (Option ExchangeRate)
  to_exchange_rate none none from to = ok none
  to_exchange_rate (some value) (some as_of) from to =
      some_exchange_rate (Rate.of from to (to_fixed value rate_decimal_places) as_of)
  to_exchange_rate _ _ from to = err invariant_violation

  -- `toReservation`
  unfoldable pub to_reservation : ReservationRow Decimal → Result Reservation
  to_reservation row = do
    invoice_currency ← Currency.of row.invoice_currency
    reserved_currency ← Currency.of row.reserved_currency
    id ← Ids.of row.id
    program_id ← Ids.of row.program_id
    invoice_id ← Ids.of row.invoice_id
    key ← key_of_text row.reservation_key
    exchange_rate ←
        to_exchange_rate row.exchange_rate row.rate_as_of invoice_currency reserved_currency
    Reservation.rehydrate (record {
      id = id;
      program_id = program_id;
      invoice_id = invoice_id;
      reservation_key = key;
      invoice_amount = from_minor_units row.invoice_minor invoice_currency;
      reserved_amount = from_minor_units row.reserved_minor reserved_currency;
      exchange_rate = exchange_rate;
      repaid_amount = from_minor_units row.repaid_minor invoice_currency;
      released_amount = from_minor_units row.released_minor reserved_currency;
      status = row.status;
      reserved_at = row.reserved_at;
      released_at = row.released_at;
    })
