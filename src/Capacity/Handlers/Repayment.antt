-- ===== src/Capacity/Handlers/Repayment.antt =====
-- src/contexts/capacity/application/record-repayment; `now` is the clock's reading
use program_capacity_invoice.Prelude.{Bool, true, false, not, ◌||◌, Option, none, some, Text}
use program_capacity_invoice.Money.Types.{Money, Date, Identifier, id_equals}
use program_capacity_invoice.Money.Amount.{money_equals}
use program_capacity_invoice.Errors.{
  Result, throw_if, invariant_violation, program_not_found, reservation_not_found,
  repayment_id_reused,
}
use program_capacity_invoice.Exec.{Exec, pure, throw, lift, ◌>>=◌, ◌>>◌}
use program_capacity_invoice.Capacity.Views.{ReservationView, to_reservation_view}
use program_capacity_invoice.Capacity.Reservation.{Reservation}
use program_capacity_invoice.Capacity.Program.{release}
use program_capacity_invoice.Capacity.Program.State.{Program}
use program_capacity_invoice.Capacity.Program.Guards.{amount_or_outstanding}
use program_capacity_invoice.Capacity.Store.{
  Store, RecordedRepayment, run, lock_by_id, save_program, find_by_id, find_active_by_invoice,
  find_repayment, save_reservation, record_movements, add_outbox,
}

pub record RecordRepaymentCommand : Type 0 where
  pub program_id : Identifier
  pub invoice_id : Identifier
  pub repayment_id : Identifier
  pub amount : Option Money

pub record RecordRepaymentResult : Type 0 where
  pub repayment_id : Text
  pub repaid_amount : Money
  pub released_amount : Money
  pub reservation : ReservationView
  pub replayed : Bool

-- The handler's `Outcome`
pub record RepaymentOutcome : Type 0 where
  pub reservation : Reservation
  pub repaid_amount : Money
  pub released_amount : Money
  pub replayed : Bool

-- an object that was changed, or left as it was, in a store that it is not yet saved to
abbrev pub called : {A B : Type 0} → Result A × B → Exec Store (A × B)
called (r, b) = do a ← lift r; pure (a, b)

-- `uow.….find…` when it must be there
abbrev pub or_throw : {A : Type 0} → Exec Store A → Option A → Exec Store A
or_throw absent none = absent
or_throw absent (some a) = pure a

abbrev pub same_amount : Option Money → Money → Bool
same_amount none repaid = true
same_amount (some amount) repaid = money_equals amount repaid

-- `replayOf`
unfoldable pub replay_of : RecordedRepayment → RecordRepaymentCommand → Exec Store RepaymentOutcome
replay_of recorded command = do
  found ← find_by_id recorded.reservation_id
  reservation ← or_throw (throw invariant_violation) found
  lift (
      throw_if
        (not (id_equals reservation.invoice_id command.invoice_id)
          || not (same_amount command.amount recorded.repaid_amount))
        (repayment_id_reused command.repayment_id))
  pure (record {
    reservation = reservation;
    repaid_amount = recorded.repaid_amount;
    released_amount = recorded.released_amount;
    replayed = true;
  })

-- a repayment that is not in the ledger
unfoldable pub repay_now : RecordRepaymentCommand → Date → Program → Exec Store RepaymentOutcome
repay_now command now program = do
  found ← find_active_by_invoice command.program_id command.invoice_id
  reservation ← or_throw (throw (reservation_not_found command.program_id command.invoice_id)) found
  repaid_amount ← lift (amount_or_outstanding command.amount reservation)
  after ← called (
      release
        (record { repayment_id = command.repayment_id; amount = some repaid_amount; at = now })
        (record { program = program; reservation = reservation }))
  save_program after.1.program
  save_reservation after.1.reservation
  record_movements after.1.program.events
  add_outbox after.1.program.events
  pure (record {
    reservation = after.1.reservation;
    repaid_amount = repaid_amount;
    released_amount = after.0;
    replayed = false;
  })

unfoldable pub replay_or_repay :
    RecordRepaymentCommand → Date → Program → Option RecordedRepayment → Exec Store RepaymentOutcome
replay_or_repay command now program none = repay_now command now program
replay_or_repay command now program (some recorded) = replay_of recorded command

-- the work of the transaction
unfoldable pub repayment_work : RecordRepaymentCommand → Date → Exec Store RepaymentOutcome
repayment_work command now = do
  found ← lock_by_id command.program_id
  program ← or_throw (throw (program_not_found command.program_id)) found
  recorded ← find_repayment command.program_id command.repayment_id
  replay_or_repay command now program recorded

-- `execute`
unfoldable pub record_repayment_for :
    RecordRepaymentCommand → Date → Exec Store RecordRepaymentResult
record_repayment_for command now = do
  outcome ← run (repayment_work command now)
  view ← lift (to_reservation_view outcome.reservation)
  pure (record {
    repayment_id = command.repayment_id.value;
    repaid_amount = outcome.repaid_amount;
    released_amount = outcome.released_amount;
    reservation = view;
    replayed = outcome.replayed;
  })
