-- ===== src/Examples/Portfolio.antt =====
-- A program that treasury opens, a reservation, and a repayment of a part of it.
use program_capacity_invoice.Prelude.{
  ◌≡◌, none, some, [], ◌∷◌, pos, refl, text_eq, ◌-ℤ◌, ◌+ℤ◌, ◌*ℤ◌, tdiv, tmod,
}
use program_capacity_invoice.Money.Rounding.{divide_with_rounding, adjust}
use program_capacity_invoice.Money.Rate.{convert}
use program_capacity_invoice.Errors.{ProgramStatus, ok}
use program_capacity_invoice.Capacity.Reservation.{
  open_reservation, assert_consistent, assert_rate, assert_currencies, assert_within,
  assert_progress, assert_release_time, record_repayment, check_repayment,
  capacity_released_once_repaid,
}
use program_capacity_invoice.Capacity.Program.{Holding, reserve_for, release}
use program_capacity_invoice.Capacity.Program.State.{Program, TreasuryState}
use program_capacity_invoice.Capacity.Program.Guards.{
  open_program, open_from_treasury, amount_to_hold, to_program_currency, check_release,
}
use program_capacity_invoice.Capacity.Program.Portfolio.{
  Portfolio, Reaches, stay, step, reserved, repaid, IsBalanced, counter_is_what_is_held,
}
use program_capacity_invoice.Capacity.Events.{program_opened}
use program_capacity_invoice.Examples.{
  program, reservation, request, repayment, usable, dollars, named,
}

abbrev opening : TreasuryState
opening = record {
  credit_limit = some (dollars 10000);
  sequence = pos 1;
  status = none;
  at = some (pos 500);
}

abbrev opened : Program
opened = record program {
  reserved_amount = dollars 0;
  events =
      program_opened (record {
        aggregate_id = program.id.value;
        occurred_at = some (pos 500);
        credit_limit = dollars 10000;
        status = ProgramStatus.active;
      })
      ∷ [];
}

opened-run : open_from_treasury (named "program-1") (dollars 10000) opening ≡ ok opened
unfolding open_from_treasury open_program
opened-run = refl

abbrev holding_after : Holding
holding_after = record { program = (reserve_for request opened).1; reservation = reservation }

reserve-run : reserve_for request opened ≡ (ok reservation, holding_after.program)
unfolding reserve_for amount_to_hold to_program_currency convert divide_with_rounding adjust tdiv
    tmod open_reservation assert_consistent assert_rate assert_currencies assert_within
    assert_progress assert_release_time text_eq ◌-ℤ◌ ◌+ℤ◌ ◌*ℤ◌ open_from_treasury open_program
reserve-run = refl

abbrev holding_repaid : Holding
holding_repaid = (release repayment holding_after).1

release-run : release repayment holding_after ≡ (ok (dollars 540), holding_repaid)
unfolding reserve_for amount_to_hold to_program_currency convert divide_with_rounding adjust tdiv
    tmod open_reservation assert_consistent assert_rate assert_currencies assert_within
    assert_progress assert_release_time text_eq ◌-ℤ◌ ◌+ℤ◌ ◌*ℤ◌ open_from_treasury open_program
    release check_release record_repayment check_repayment capacity_released_once_repaid
release-run = refl

abbrev at_the_end : Portfolio
at_the_end = record {
  program = holding_repaid.program;
  reservations = holding_repaid.reservation ∷ [];
}

path : Reaches (record { program = opened; reservations = [] }) at_the_end
path =
    step _ _ _ (reserved opened holding_after.program [] request reservation usable reserve-run) (
      step _ _ _ (repaid holding_after holding_repaid [] [] repayment (dollars 540) release-run)
        (stay at_the_end))

counter_is_what_is_held_example : IsBalanced at_the_end
counter_is_what_is_held_example =
    counter_is_what_is_held (named "program-1") (dollars 10000) opening opened at_the_end opened-run
      path
