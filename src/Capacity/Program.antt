-- ===== src/Capacity/Program.antt =====
-- src/contexts/capacity/domain/program.ts. A method is an action on the program, or on the program
-- and the reservation that it is handed: what it assigned before a throw stays assigned.
pub mod State
pub mod Guards
pub mod Sound
pub mod Reserve
pub mod Release
pub mod Moves
pub mod Treasury
pub mod Order
pub mod Portfolio
use program_capacity_invoice.Prelude.{
  ◌&&◌, not, Bool, true, false, Option, none, some, ℤ, max_ℤ, if◌then◌else◌,
}
use program_capacity_invoice.Money.Types.{Money, Date}
use program_capacity_invoice.Money.Amount.{plus, minus, money_equals}
use program_capacity_invoice.Errors.{ProgramStatus, Error, Result, ok, err}
use program_capacity_invoice.Exec.{Exec, pure, lift, get, modify, ◌>>=◌, ◌>>◌}
use program_capacity_invoice.Capacity.Events.{
  DomainEvent, capacity_reserved, capacity_released, credit_limit_changed, program_status_changed,
  new_credit_limit_changed, raise,
}
use program_capacity_invoice.Capacity.Reservation.{
  Reservation, open_reservation, record_repayment, is_released,
}
use program_capacity_invoice.Capacity.Program.State.{
  Program, TreasuryState, ReserveCapacity, ApplyRepayment, same_status,
}
use program_capacity_invoice.Capacity.Program.Guards.{
  available_capacity, amount_to_hold, new_reservation, check_release, amount_or_outstanding,
  check_treasury_state,
}

abbrev pub raise_event : DomainEvent → Exec Program (Unit {0})
raise_event event = modify (λ p. record p { events = raise event p.events })

-- `this.availableCapacity`, of the program as it stands
abbrev pub get_available : Exec Program Money
get_available p = (available_capacity p, p)

-- `reserveFor`
unfoldable pub reserve_for : ReserveCapacity → Exec Program Reservation
reserve_for request = do
  p ← get
  to_hold ← lift (amount_to_hold p request)
  reservation ← lift (open_reservation (new_reservation p request to_hold))
  reserved_amount ← lift (plus p.reserved_amount to_hold)
  modify (λ q. record q { reserved_amount = reserved_amount })
  available_after ← get_available
  raise_event (
      capacity_reserved (record {
        aggregate_id = p.id.value;
        occurred_at = request.at;
        reservation_id = reservation.id;
        invoice_id = reservation.invoice_id;
        invoice_amount = reservation.invoice_amount;
        reserved_amount = to_hold;
        available_after = available_after;
      }))
  pure reservation

-- `new Date(Math.max(a.getTime(), b.getTime()))`, where b is valid
abbrev pub later_date : Date → ℤ → Date
later_date none b = none
later_date (some a) b = some (max_ℤ a b)

-- A program and one of its reservations, as `release` is handed them.
pub record Holding : Type 0 where
  pub program : Program
  pub reservation : Reservation

-- `reservation.recordRepayment(…)`, which changes the reservation if it returns
abbrev pub recorded : Result (Money × Reservation) → Exec Holding Money
recorded (ok (released, r)) h = (ok released, record h { reservation = r })
recorded (err e) h = (err e, h)

-- an action on the program alone
abbrev pub on_program : {A : Type 0} → Exec Program A → Exec Holding A
on_program m h = let (r, p) = m h.program in (r, record h { program = p })

-- `release`
unfoldable pub release : ApplyRepayment → Exec Holding Money
release repayment = do
  h ← get
  lift (check_release h.program h.reservation)
  let at = later_date repayment.at h.reservation.reserved_at
  repaid ← lift (amount_or_outstanding repayment.amount h.reservation)
  released ← recorded (record_repayment h.reservation repaid at)
  reserved_amount ← lift (minus h.program.reserved_amount released)
  on_program (modify (λ p. record p { reserved_amount = reserved_amount }))
  available_after ← on_program get_available
  after ← get
  on_program (
      raise_event (
        capacity_released (record {
          aggregate_id = after.program.id.value;
          occurred_at = at;
          reservation_id = after.reservation.id;
          invoice_id = after.reservation.invoice_id;
          repayment_id = repayment.repayment_id;
          repaid_amount = repaid;
          released_amount = released;
          reservation_fully_released = is_released after.reservation;
          available_after = available_after;
        })))
  pure released

-- the part of `applyTreasuryState` that moves the limit
unfoldable pub change_limit : TreasuryState → Option Money → Exec Program (Unit {0})
change_limit state none p = (ok tt, p)
change_limit state (some limit) p =
    if money_equals limit p.credit_limit
    then (ok tt, p)
    else (do
      modify (λ q. record q { credit_limit = limit })
      event ← lift (
          new_credit_limit_changed p.id p.credit_limit limit p.reserved_amount state.sequence
            state.at)
      raise_event (credit_limit_changed event))
        p

-- the part that moves the status
unfoldable pub change_status : TreasuryState → Option ProgramStatus → Exec Program (Unit {0})
change_status state none p = (ok tt, p)
change_status state (some status) p =
    if same_status status p.status
    then (ok tt, p)
    else (do
      modify (λ q. record q { status = status })
      raise_event (
          program_status_changed (record {
            aggregate_id = p.id.value;
            occurred_at = state.at;
            previous_status = p.status;
            status = status;
            treasury_sequence = state.sequence;
          })))
        p

-- `applyTreasuryState`
unfoldable pub apply_treasury_state : TreasuryState → Exec Program (Unit {0})
apply_treasury_state state = do
  p ← get
  lift (check_treasury_state p state)
  modify (λ q. record q { treasury_sequence = state.sequence })
  change_limit state state.credit_limit
  change_status state state.status
