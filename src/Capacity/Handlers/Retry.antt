-- ===== src/Capacity/Handlers/Retry.antt =====
-- Retries of repayments: a repayment whose id is in the ledger.
use program_capacity_invoice.Prelude.{◌≡◌, ◌⊎◌, true, some, refl, inl, inr}
use program_capacity_invoice.Money.Types.{Date}
use program_capacity_invoice.Errors.{Result, ok, err, repayment_id_reused}
use program_capacity_invoice.Capacity.Events.{CapacityReleased}
use program_capacity_invoice.Capacity.Reservation.{Reservation}
use program_capacity_invoice.Capacity.Program.State.{Program}
use program_capacity_invoice.Capacity.Views.{ReservationView, to_reservation_view}
use program_capacity_invoice.Capacity.Store.{
  Store, run, lock_by_id, find_by_id, find_repayment, released_movement,
}
use program_capacity_invoice.Capacity.Handlers.Repayment.{
  RecordRepaymentCommand, RecordRepaymentResult, replay_of, repayment_work, replay_or_repay,
  record_repayment_for,
}
use program_capacity_invoice.Capacity.Handlers.Same.{IsSameId, IsSameAmount, differs-cases}

-- The command repeats the repayment that the ledger has as e, of the reservation r.
abbrev pub IsRetryOf : CapacityReleased → Reservation → RecordRepaymentCommand → Type 0
IsRetryOf e r command =
    IsSameId r.invoice_id command.invoice_id × IsSameAmount command.amount e.repaid_amount

-- The recorded answer.
abbrev pub replayed_result :
    CapacityReleased → RecordRepaymentCommand → ReservationView → RecordRepaymentResult
replayed_result e command view = record {
  repayment_id = command.repayment_id.value;
  repaid_amount = e.repaid_amount;
  released_amount = e.released_amount;
  reservation = view;
  replayed = true;
}

-- What the handler does with a repayment id that is in the ledger.
abbrev pub IsReplayed :
    CapacityReleased
    → Reservation
    → RecordRepaymentCommand
    → ReservationView
    → Result RecordRepaymentResult
    → Type 0
IsReplayed e r command view result =
    (IsRetryOf e r command × (result ≡ ok (replayed_result e command view)))
    ⊎ (¬ IsRetryOf e r command × (result ≡ err (repayment_id_reused command.repayment_id)))

-- Let the ledger have a release of the command's program under the command's repayment id, and
-- let the program, the release's reservation and its view be read without an error. Whatever
-- else the store holds and whatever the time, the handler leaves the whole store as it was. If
-- the reservation is of the command's invoice and the command names no amount or the amount
-- that was repaid, it returns the amounts that the ledger recorded and the view, marked as
-- replayed; otherwise it throws RepaymentIdReused for that id.
pub recorded_repayment_replays :
    (e : CapacityReleased) (command : RecordRepaymentCommand) (now : Date) (s : Store) (p : Program)
    (r : Reservation) (view : ReservationView)
    → released_movement command.program_id.value command.repayment_id s.movements ≡ some e
    → (lock_by_id command.program_id s).0 ≡ ok (some p)
    → (find_by_id e.reservation_id s).0 ≡ ok (some r)
    → to_reservation_view r ≡ ok view
    → ((record_repayment_for command now s).1 ≡ s)
      × IsReplayed e r command view (record_repayment_for command now s).0
unfolding record_repayment_for run repayment_work lock_by_id find_repayment replay_or_repay
    replay_of find_by_id
recorded_repayment_replays e command now s p r view there stored held viewed =
    elim (differs-cases r.invoice_id command.invoice_id command.amount e.repaid_amount) [
      | inl (same, retry) ↦
          rw stored (rw there (rw held (rw same (rw viewed (refl, inl (retry, refl))))))
      | inr (other, no_retry) ↦
          rw stored (rw there (rw held (rw other (refl, inr (no_retry, refl)))))
    ]
