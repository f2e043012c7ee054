-- ===== src/Capacity/Ledger.antt =====
-- src/contexts/capacity/infrastructure/persistence/prisma/prisma-capacity-ledger.ts: the rows of the
-- ledger, and the repayment that is read back from one. `createMany` and `findUnique` are the
-- database's.
pub mod Recorded
use program_capacity_invoice.Prelude.{
  Bool, true, false, ◌&&◌, Option, none, some, List, [], ◌∷◌, ◌++◌, ℤ, Text, text_eq,
}
use program_capacity_invoice.Money.Types.{Money, Date, Identifier}
use program_capacity_invoice.Money.Currency
use program_capacity_invoice.Money.Amount.{from_minor_units}
use program_capacity_invoice.Errors.{Result, ok, err, ◌>>=◌, invariant_violation}
use program_capacity_invoice.Capacity.Ids
use program_capacity_invoice.Capacity.Events.{
  DomainEvent, program_opened, capacity_reserved, capacity_released, credit_limit_changed,
  program_status_changed,
}
use program_capacity_invoice.Capacity.Store.{RecordedRepayment}

pub data MovementType : Type 0 where
  reserve release : MovementType

-- `MovementInput`; a field that is not given is null
pub record MovementRow : Type 0 where
  pub program_id : Text
  pub reservation_id : Text
  pub movement_type : MovementType
  pub currency : Text
  pub amount_minor : ℤ
  pub available_after_minor : ℤ
  pub repayment_id : Option Text
  pub repaid_currency : Option Text
  pub repaid_minor : Option ℤ
  pub occurred_at : Date

-- `toMovements`; the classes are all there are, so that none is unknown
abbrev pub to_movements : DomainEvent → List MovementRow
to_movements (capacity_reserved event) =
    record {
      program_id = event.aggregate_id;
      reservation_id = event.reservation_id.value;
      movement_type = reserve;
      currency = event.reserved_amount.currency.code;
      amount_minor = event.reserved_amount.minor_units;
      available_after_minor = event.available_after.minor_units;
      repayment_id = none;
      repaid_currency = none;
      repaid_minor = none;
      occurred_at = event.occurred_at;
    }
    ∷ []
to_movements (capacity_released event) =
    record {
      program_id = event.aggregate_id;
      reservation_id = event.reservation_id.value;
      movement_type = release;
      currency = event.released_amount.currency.code;
      amount_minor = event.released_amount.minor_units;
      available_after_minor = event.available_after.minor_units;
      repayment_id = some event.repayment_id.value;
      repaid_currency = some event.repaid_amount.currency.code;
      repaid_minor = some event.repaid_amount.minor_units;
      occurred_at = event.occurred_at;
    }
    ∷ []
to_movements (program_opened event) = []
to_movements (credit_limit_changed event) = []
to_movements (program_status_changed event) = []

-- `events.flatMap(toMovements)`
unfoldable pub movement_rows : List DomainEvent → List MovementRow
movement_rows [] = []
movement_rows (event ∷ events) = to_movements event ++ movement_rows events

-- the key of `findUnique`: a null repayment equals no id
abbrev pub is_repayment : Text → Option Text → Bool
is_repayment repayment_id none = false
is_repayment repayment_id (some id) = text_eq repayment_id id

abbrev pub has_movement_key : Text → Text → MovementRow → Bool
has_movement_key program_id repayment_id row =
    text_eq row.program_id program_id && is_repayment repayment_id row.repayment_id

-- `findRepayment`, from the row that was found
abbrev pub recorded_in : MovementRow → Option Text → Option ℤ → Result (Option RecordedRepayment)
recorded_in row (some repaid_currency) (some repaid_minor) = do
  reservation_id ← Ids.of row.reservation_id
  repaid ← Currency.of repaid_currency
  released ← Currency.of row.currency
  ok (
      some (record {
        reservation_id = reservation_id;
        repaid_amount = from_minor_units repaid_minor repaid;
        released_amount = from_minor_units row.amount_minor released;
        occurred_at = row.occurred_at;
      }))
recorded_in row _ _ = err invariant_violation

unfoldable pub repayment_in : Option MovementRow → Result (Option RecordedRepayment)
repayment_in none = ok none
repayment_in (some row) = recorded_in row row.repaid_currency row.repaid_minor
