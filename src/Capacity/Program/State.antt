-- ===== src/Capacity/Program/State.antt =====
-- The state of program.ts: the program, its snapshot, and what its methods are handed.
use program_capacity_invoice.Prelude.{List, Bool, true, false, not, Option, none, some, ℤ}
use program_capacity_invoice.Money.Types.{Money, ExchangeRate, Date, Identifier}
use program_capacity_invoice.Errors.{ProgramStatus}
use program_capacity_invoice.Capacity.Events.{DomainEvent}

pub record ProgramSnapshot : Type 0 where
  pub id : Identifier
  pub credit_limit : Money
  pub reserved_amount : Money
  pub status : ProgramStatus
  pub version : ℤ
  pub treasury_sequence : ℤ

-- The fields of the class, with the events that `raise` collected.
pub record Program : Type 0 where
  pub id : Identifier
  pub version : ℤ
  pub credit_limit : Money
  pub reserved_amount : Money
  pub status : ProgramStatus
  pub treasury_sequence : ℤ
  pub events : List DomainEvent

-- What a treasury message says; `none` leaves the field unchanged.
pub record TreasuryState : Type 0 where
  pub credit_limit : Option Money
  pub sequence : ℤ
  pub status : Option ProgramStatus
  pub at : Date

pub record ReserveCapacity : Type 0 where
  pub reservation_id : Identifier
  pub invoice_id : Identifier
  pub reservation_key : Option Identifier
  pub invoice_amount : Money
  pub exchange_rate : Option ExchangeRate
  pub at : Date

pub record ApplyRepayment : Type 0 where
  pub repayment_id : Identifier
  pub amount : Option Money
  pub at : Date

abbrev pub is_active : ProgramStatus → Bool
is_active ProgramStatus.active = true
is_active ProgramStatus.suspended = false

abbrev pub same_status : ProgramStatus → ProgramStatus → Bool
same_status ProgramStatus.active s = is_active s
same_status ProgramStatus.suspended s = not (is_active s)

abbrev pub status_or_active : Option ProgramStatus → ProgramStatus
status_or_active none = ProgramStatus.active
status_or_active (some s) = s

-- `toSnapshot`
abbrev pub to_snapshot : Program → ProgramSnapshot
to_snapshot p = record {
  id = p.id;
  credit_limit = p.credit_limit;
  reserved_amount = p.reserved_amount;
  status = p.status;
  version = p.version;
  treasury_sequence = p.treasury_sequence;
}
