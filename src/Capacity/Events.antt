-- ===== src/Capacity/Events.antt =====
-- src/contexts/capacity/domain/events.ts, and `AggregateRoot`'s list of events
use program_capacity_invoice.Prelude.{List, [], ◌∷◌, ◌++◌, Bool, ℤ, Text}
use program_capacity_invoice.Money.Types.{Money, Date, Identifier}
use program_capacity_invoice.Money.Amount.{is_greater_than}
use program_capacity_invoice.Errors.{Result, ok, ◌>>=◌, ProgramStatus}

pub record ProgramOpened : Type 0 where
  pub aggregate_id : Text
  pub occurred_at : Date
  pub credit_limit : Money
  pub status : ProgramStatus

pub record CapacityReserved : Type 0 where
  pub aggregate_id : Text
  pub occurred_at : Date
  pub reservation_id : Identifier
  pub invoice_id : Identifier
  pub invoice_amount : Money
  pub reserved_amount : Money
  pub available_after : Money

pub record CapacityReleased : Type 0 where
  pub aggregate_id : Text
  pub occurred_at : Date
  pub reservation_id : Identifier
  pub invoice_id : Identifier
  pub repayment_id : Identifier
  pub repaid_amount : Money
  pub released_amount : Money
  pub reservation_fully_released : Bool
  pub available_after : Money

pub record CreditLimitChanged : Type 0 where
  pub aggregate_id : Text
  pub occurred_at : Date
  pub previous_limit : Money
  pub credit_limit : Money
  pub reserved_amount : Money
  pub over_limit : Bool
  pub treasury_sequence : ℤ

pub record ProgramStatusChanged : Type 0 where
  pub aggregate_id : Text
  pub occurred_at : Date
  pub previous_status : ProgramStatus
  pub status : ProgramStatus
  pub treasury_sequence : ℤ

-- The classes that implement `DomainEvent`.
pub data DomainEvent : Type 0 where
  program_opened : ProgramOpened → DomainEvent
  capacity_reserved : CapacityReserved → DomainEvent
  capacity_released : CapacityReleased → DomainEvent
  credit_limit_changed : CreditLimitChanged → DomainEvent
  program_status_changed : ProgramStatusChanged → DomainEvent

-- The constructor of `CreditLimitChanged`, which computes `overLimit`
abbrev pub new_credit_limit_changed :
    Identifier → Money → Money → Money → ℤ → Date → Result CreditLimitChanged
new_credit_limit_changed program_id previous_limit credit_limit reserved_amount sequence at = do
  over_limit ← is_greater_than reserved_amount credit_limit
  ok (record {
    aggregate_id = program_id.value;
    occurred_at = at;
    previous_limit = previous_limit;
    credit_limit = credit_limit;
    reserved_amount = reserved_amount;
    over_limit = over_limit;
    treasury_sequence = sequence;
  })

-- `AggregateRoot.raise` on the list of events
abbrev pub raise : DomainEvent → List DomainEvent → List DomainEvent
raise event events = events ++ event ∷ []
