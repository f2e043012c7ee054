-- ===== src/Examples/Handlers.antt =====
-- Runs of the handlers on a store with one program, one reservation and one of each record.
use program_capacity_invoice.Prelude.{
  Json, ◌≡◌, true, false, none, some, [], ◌∷◌, pos, codes, text_eq, refl, ◌≢◌, neg_ℤ, ◌-ℤ◌, ◌+ℤ◌,
}
use program_capacity_invoice.Errors.{ProgramStatus, ReservationStatus, ok, err, foreign}
use program_capacity_invoice.Capacity.Events.{CapacityReleased, capacity_released}
use program_capacity_invoice.Capacity.Reservation
use program_capacity_invoice.Capacity.Program.State
use program_capacity_invoice.Capacity.Store.{
  Store, state_reconciled, is_recorded, released_movement, run, lock_by_id, find_by_id,
  save_program, record_treasury_event, record_movements, record_event, add_outbox,
}
use program_capacity_invoice.Capacity.Handlers.Treasury.{
  ApplyTreasuryUpdateCommand, ApplyTreasuryUpdateResult, applied, duplicate, or_retry, apply_once,
  apply_work, open_or_update, updated, reported, apply_treasury_update,
}
use program_capacity_invoice.Capacity.Handlers.Redelivery.{
  IsNotApplied, recorded_event_changes_nothing,
}
use program_capacity_invoice.Capacity.Handlers.Twice.{redelivered_update_changes_nothing}
use program_capacity_invoice.Capacity.Program.{apply_treasury_state, change_limit, change_status}
use program_capacity_invoice.Capacity.Program.Guards.{
  rehydrate, assert_consistent, check_treasury_state, check_limit,
}
use program_capacity_invoice.Capacity.Views.{
  ProgramCapacityView, ReservationView, to_program_capacity_view, to_reservation_view,
}
use program_capacity_invoice.Capacity.Handlers.Repayment.{
  RecordRepaymentCommand, record_repayment_for,
}
use program_capacity_invoice.Capacity.Handlers.Retry.{IsReplayed, recorded_repayment_replays}
use program_capacity_invoice.Capacity.Handlers.Reserving.{
  Ports, ReserveCapacityCommand, reserve_capacity,
}
use program_capacity_invoice.Capacity.Handlers.Repeat.{
  IsRepeat, repeated_row, repeated_request_reserves_nothing,
}
use program_capacity_invoice.Examples.{usd, program, reservation, dollars, euros, named}

abbrev released_event : CapacityReleased
released_event = record {
  aggregate_id = codes "program-1";
  occurred_at = some (pos 2000);
  reservation_id = named "reservation-1";
  invoice_id = named "invoice-1";
  repayment_id = named "repayment-1";
  repaid_amount = euros 500;
  released_amount = dollars 540;
  reservation_fully_released = false;
  available_after = dollars 7461;
}

abbrev store : Store
store = record {
  programs = (codes "program-1", State.to_snapshot program) ∷ [];
  reservations = (codes "reservation-1", Reservation.to_snapshot reservation) ∷ [];
  movements = capacity_released released_event ∷ [];
  treasury_events =
      record {
        program_id = named "program-1";
        event_id = codes "event-1";
        kind = state_reconciled;
        sequence = pos 1;
        applied = true;
        reason = none;
        payload = Json.null;
        occurred_at = some (pos 500);
      }
      ∷ [];
  outbox = [];
}

abbrev update : ApplyTreasuryUpdateCommand
update = record {
  program_id = named "program-1";
  event_id = codes "event-1";
  kind = state_reconciled;
  sequence = pos 7;
  credit_limit = some (dollars 500);
  occurred_at = some (pos 5000);
  payload = Json.null;
  status = none;
}

update_recorded : is_recorded update.event_id store ≡ true
unfolding text_eq
update_recorded = refl

recorded_event_changes_nothing_example :
    ((apply_treasury_update update store).1 ≡ store)
    × IsNotApplied (apply_treasury_update update store).0
recorded_event_changes_nothing_example = recorded_event_changes_nothing update store update_recorded

-- A message that is new: it cuts the limit below what is reserved.
abbrev fresh_update : ApplyTreasuryUpdateCommand
fresh_update = record update { event_id = codes "event-2" }

abbrev store_after : Store
store_after = (apply_treasury_update fresh_update store).1

abbrev fresh_result : ApplyTreasuryUpdateResult
fresh_result = record {
  outcome = applied;
  program = some (record {
    program_id = codes "program-1";
    currency = usd;
    credit_limit = dollars 500;
    reserved_amount = dollars 2000;
    available_capacity = record { minor_units = neg_ℤ (pos 1500); currency = usd };
    status = ProgramStatus.active;
  });
}

fresh_update_applied : apply_treasury_update fresh_update store ≡ (ok fresh_result, store_after)
unfolding apply_treasury_update or_retry apply_once run apply_work lock_by_id rehydrate
    assert_consistent open_or_update updated apply_treasury_state check_treasury_state check_limit
    change_limit change_status save_program record_treasury_event record_movements record_event
    add_outbox reported to_program_capacity_view text_eq ◌-ℤ◌ ◌+ℤ◌
fresh_update_applied = refl

applied-≢-duplicate : applied ≢ duplicate
applied-≢-duplicate e = cc

redelivered_update_changes_nothing_example :
    ((apply_treasury_update fresh_update store_after).1 ≡ store_after)
    × IsNotApplied (apply_treasury_update fresh_update store_after).0
redelivered_update_changes_nothing_example =
    redelivered_update_changes_nothing fresh_update store store_after fresh_result
      fresh_update_applied applied-≢-duplicate

abbrev repayment : RecordRepaymentCommand
repayment = record {
  program_id = named "program-1";
  invoice_id = named "invoice-1";
  repayment_id = named "repayment-1";
  amount = some (euros 500);
}

repayment_recorded :
    released_movement repayment.program_id.value repayment.repayment_id store.movements
    ≡ some released_event
unfolding released_movement text_eq
repayment_recorded = refl

program_stored : (lock_by_id repayment.program_id store).0 ≡ ok (some program)
unfolding lock_by_id rehydrate assert_consistent text_eq
program_stored = refl

reservation_held : (find_by_id released_event.reservation_id store).0 ≡ ok (some reservation)
unfolding find_by_id Reservation.rehydrate Reservation.assert_consistent text_eq
    Reservation.assert_rate Reservation.assert_currencies Reservation.assert_within
    Reservation.assert_progress Reservation.assert_release_time
reservation_held = refl

abbrev view : ReservationView
view = record {
  reservation_id = codes "reservation-1";
  program_id = codes "program-1";
  invoice_id = codes "invoice-1";
  reservation_key = none;
  status = ReservationStatus.active;
  invoice_amount = euros 999;
  reserved_amount = dollars 1079;
  exchange_rate = reservation.exchange_rate;
  repaid_amount = euros 0;
  released_amount = dollars 0;
  outstanding_amount = euros 999;
  held_amount = dollars 1079;
  reserved_at = some (pos 1000);
  released_at = none;
}

viewed : to_reservation_view reservation ≡ ok view
unfolding to_reservation_view text_eq ◌-ℤ◌ ◌+ℤ◌
viewed = refl

recorded_repayment_replays_example :
    ((record_repayment_for repayment (some (pos 3000)) store).1 ≡ store)
    × IsReplayed released_event reservation repayment view
        (record_repayment_for repayment (some (pos 3000)) store).0
recorded_repayment_replays_example =
    recorded_repayment_replays released_event repayment (some (pos 3000)) store program reservation
      view repayment_recorded program_stored reservation_held viewed

abbrev ports : Ports
ports = record {
  rate_for = λ from to. err (foreign (codes "TimeoutError"));
  random_id = codes "reservation-2";
  now = some (pos 3000);
}

abbrev again : ReserveCapacityCommand
again = record {
  program_id = named "program-1";
  invoice_id = named "invoice-1";
  invoice_amount = euros 999;
  reservation_key = none;
}

again_there :
    repeated_row again again.reservation_key store ≡ some (Reservation.to_snapshot reservation)
unfolding text_eq
again_there = refl

abbrev shown : ProgramCapacityView
shown = record {
  program_id = codes "program-1";
  currency = usd;
  credit_limit = dollars 10000;
  reserved_amount = dollars 2000;
  available_capacity = dollars 8000;
  status = ProgramStatus.active;
}

program_shown : to_program_capacity_view program ≡ ok shown
unfolding to_program_capacity_view text_eq ◌-ℤ◌ ◌+ℤ◌
program_shown = refl

again_held : Reservation.rehydrate (Reservation.to_snapshot reservation) ≡ ok reservation
unfolding Reservation.rehydrate Reservation.assert_consistent text_eq Reservation.assert_rate
    Reservation.assert_currencies Reservation.assert_within Reservation.assert_progress
    Reservation.assert_release_time
again_held = refl

repeated_request_reserves_nothing_example :
    ((reserve_capacity ports again store).1 ≡ store)
    × IsRepeat reservation again view (reserve_capacity ports again store).0
repeated_request_reserves_nothing_example =
    repeated_request_reserves_nothing ports again store program shown
      (Reservation.to_snapshot reservation) reservation view program_stored program_shown
      again_there again_held viewed
