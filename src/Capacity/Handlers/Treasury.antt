-- ===== src/Capacity/Handlers/Treasury.antt =====
-- src/contexts/capacity/application/apply-treasury-update
use program_capacity_invoice.Prelude.{
  Json, Bool, true, false, Option, none, some, List, [], ℤ, Text, if◌then◌else◌,
}
use program_capacity_invoice.Money.Types.{Money, Date, Identifier}
use program_capacity_invoice.Errors.{
  ProgramStatus, Error, Result, ok, err, program_already_exists, program_not_found,
  stale_treasury_update, treasury_event_already_recorded,
}
use program_capacity_invoice.Exec.{Exec, pure, throw, lift, ◌>>=◌, ◌>>◌}
use program_capacity_invoice.Capacity.Events.{DomainEvent}
use program_capacity_invoice.Capacity.Views.{ProgramCapacityView, to_program_capacity_view}
use program_capacity_invoice.Capacity.Program.{apply_treasury_state}
use program_capacity_invoice.Capacity.Program.State.{Program, TreasuryState}
use program_capacity_invoice.Capacity.Program.Guards.{open_from_treasury}
use program_capacity_invoice.Capacity.Store.{
  Store, TreasuryEventKind, run, lock_by_id, insert_program, save_program, record_movements,
  record_treasury_event, add_outbox,
}

pub record ApplyTreasuryUpdateCommand : Type 0 where
  pub program_id : Identifier
  pub event_id : Text
  pub kind : TreasuryEventKind
  pub sequence : ℤ
  pub credit_limit : Option Money
  pub occurred_at : Date
  pub payload : Json
  pub status : Option ProgramStatus

pub data TreasuryUpdateOutcome : Type 0 where
  created applied duplicate stale : TreasuryUpdateOutcome

pub record ApplyTreasuryUpdateResult : Type 0 where
  pub outcome : TreasuryUpdateOutcome
  pub program : Option ProgramCapacityView

-- The handler's `Outcome`; the reason is the error whose message it is.
pub record Outcome : Type 0 where
  pub outcome : TreasuryUpdateOutcome
  pub program : Program
  pub events : List DomainEvent
  pub reason : Option Error

-- `stateOf`
abbrev pub state_of : ApplyTreasuryUpdateCommand → TreasuryState
state_of command = record {
  credit_limit = command.credit_limit;
  sequence = command.sequence;
  status = command.status;
  at = command.occurred_at;
}

abbrev pub is_stale_outcome : TreasuryUpdateOutcome → Bool
is_stale_outcome stale = true
is_stale_outcome _ = false

abbrev pub is_stale_error : Error → Bool
is_stale_error (stale_treasury_update id applied_sequence received) = true
is_stale_error _ = false

abbrev pub is_already_exists : Error → Bool
is_already_exists (program_already_exists id) = true
is_already_exists _ = false

abbrev pub is_already_recorded : Error → Bool
is_already_recorded (treasury_event_already_recorded event_id) = true
is_already_recorded _ = false

-- `open`, on the command's limit
unfoldable pub open_with : ApplyTreasuryUpdateCommand → Option Money → Exec Store Outcome
open_with command none = throw (program_not_found command.program_id)
open_with command (some credit_limit) = do
  program ← lift (open_from_treasury command.program_id credit_limit (state_of command))
  insert_program program
  pure (record { outcome = created; program = program; events = program.events; reason = none })

-- `update`, after `applyTreasuryState` returned or threw
unfoldable pub updated : Result (Unit {0}) × Program → Exec Store Outcome
updated (ok _, program) = do
  save_program program
  pure (record { outcome = applied; program = program; events = program.events; reason = none })
updated (err error, program) =
    if is_stale_error error
    then pure (record { outcome = stale; program = program; events = []; reason = some error })
    else throw error

unfoldable pub open_or_update : ApplyTreasuryUpdateCommand → Option Program → Exec Store Outcome
open_or_update command none = open_with command command.credit_limit
open_or_update command (some program) = updated (apply_treasury_state (state_of command) program)

-- the work of `applyOnce`
unfoldable pub apply_work : ApplyTreasuryUpdateCommand → Exec Store Outcome
apply_work command = do
  existing ← lock_by_id command.program_id
  outcome ← open_or_update command existing
  record_treasury_event (record {
    program_id = command.program_id;
    event_id = command.event_id;
    kind = command.kind;
    sequence = command.sequence;
    applied = if is_stale_outcome outcome.outcome then false else true;
    reason = outcome.reason;
    payload = command.payload;
    occurred_at = command.occurred_at;
  })
  record_movements outcome.events
  add_outbox outcome.events
  pure outcome

unfoldable pub apply_once : ApplyTreasuryUpdateCommand → Exec Store Outcome
apply_once command = run (apply_work command)

-- `.catch(…)`: a program that another message opened is updated instead
unfoldable pub or_retry : Exec Store Outcome → Result Outcome × Store → Result Outcome × Store
or_retry again (ok outcome, store) = (ok outcome, store)
or_retry again (err error, store) =
    if is_already_exists error then again store else (err error, store)

unfoldable pub reported : Result Outcome → Result ApplyTreasuryUpdateResult
reported (ok outcome) = elim (to_program_capacity_view outcome.program) [
  | ok view ↦ ok (record { outcome = outcome.outcome; program = some view })
  | err error ↦ err error
]
reported (err error) =
    if is_already_recorded error
    then ok (record { outcome = duplicate; program = none })
    else err error

-- `execute`
unfoldable pub apply_treasury_update :
    ApplyTreasuryUpdateCommand → Exec Store ApplyTreasuryUpdateResult
apply_treasury_update command store =
    let (outcome, store') = or_retry (apply_once command) (apply_once command store) in
    (reported outcome, store')
