-- ===== src/Examples/Domain.antt =====
-- Runs of the domain on concrete values, and its theorems applied to them.
use program_capacity_invoice.Prelude.{
  ◌≡◌, [], ◌∷◌, ◌++◌, none, some, ℤ, pos, neg_ℤ, ◌-ℤ◌, ◌+ℤ◌, ◌*ℤ◌, ◌≤ℤ◌, ◌<ℤ◌, tdiv, tmod, text_eq,
  arith, refl,
}
use program_capacity_invoice.Money.Types.{Money, ceiling, floor}
use program_capacity_invoice.Money.Rounding.{divide_with_rounding, adjust}
use program_capacity_invoice.Money.Rounding.Bounds.{
  divide_with_rounding-floor, divide_with_rounding-ceiling,
}
use program_capacity_invoice.Money.Decimal.{parse_scaled_decimal, format_scaled_decimal, parsed}
use program_capacity_invoice.Money.Decimal.RoundTrip.{parse-format}
use program_capacity_invoice.Money.Rate.{convert}
use program_capacity_invoice.Errors.{
  ProgramStatus, ReservationStatus, ok, err, insufficient_capacity,
}
use program_capacity_invoice.Capacity.Reservation.{
  Reservation, record_repayment, capacity_released_once_repaid, check_repayment, rehydrate,
  to_snapshot,
}
use program_capacity_invoice.Capacity.Reservation.Repay.{
  IsRepaid, IsAcceptable, record_repayment-IsRepaid,
}
use program_capacity_invoice.Capacity.Reservation.Instalments.{
  repay_all, recorded-IsAcceptable, repaid_in_full_frees_held, instalments_do_not_matter,
  accepted-IsRepaid,
}
use program_capacity_invoice.Capacity.Reservation.Restore.{rehydrate-to_snapshot}
use program_capacity_invoice.Capacity.Program.{reserve_for, release, apply_treasury_state}
use program_capacity_invoice.Capacity.Program.Guards.{to_program_currency}
use program_capacity_invoice.Capacity.Program.Reserve.{
  Reserves, reserve_for_lem, reserve_for_grants, reserve_for_over_limit,
}
use program_capacity_invoice.Capacity.Program.Release.{Releases, release_lem}
use program_capacity_invoice.Capacity.Program.Moves.{LimitFits}
use program_capacity_invoice.Capacity.Program.Treasury.{
  IsApplied, Applies, apply_treasury_state_lem, newer-IsApplied,
}
use program_capacity_invoice.Capacity.Program.Order.{apply_all, newest_wins, IsReconciled}
use program_capacity_invoice.Examples.{
  usd, dollars, euros, eur_to_usd, program, program-IsSound, request, large_request, usable,
  reservation, reservation-IsSound, holding, repayment, repaid_by, two_halves, at_once,
  reconciliation, older,
}

-- 9.99 euros at 1.08 hold 10.79 dollars, rounded up from 10.7892.
to_program_currency_test :
    to_program_currency program (euros 999) (some eur_to_usd) ≡ ok (dollars 1079)
unfolding to_program_currency convert divide_with_rounding adjust tdiv tmod ◌*ℤ◌ ◌+ℤ◌ text_eq
to_program_currency_test = refl

large_test : to_program_currency program (euros 9999) (some eur_to_usd) ≡ ok (dollars 10799)
unfolding to_program_currency convert divide_with_rounding adjust tdiv tmod ◌*ℤ◌ ◌+ℤ◌ text_eq
large_test = refl

request_fits : program.reserved_amount.minor_units +ℤ pos 1079 ≤ℤ program.credit_limit.minor_units
unfolding ◌+ℤ◌
request_fits = omega arith

request_over : program.credit_limit.minor_units <ℤ program.reserved_amount.minor_units +ℤ pos 10799
unfolding ◌+ℤ◌
request_over = omega arith

reserve_for_lem_example : Reserves program request (reserve_for request program)
reserve_for_lem_example = reserve_for_lem program request program-IsSound usable

reserve_for_grants_example :
    (r : Reservation) × ((reserve_for request program).0 ≡ ok r)
    × (r.reserved_amount ≡ dollars 1079)
reserve_for_grants_example =
    reserve_for_grants program request (dollars 1079) program-IsSound usable refl (omega arith)
      to_program_currency_test (pos 1000) request_fits refl

reserve_for_over_limit_example : reserve_for large_request program ≡ (
  err (
      insufficient_capacity program.id (dollars 10799) (record {
        minor_units = program.credit_limit.minor_units -ℤ program.reserved_amount.minor_units;
        currency = usd;
      })),
  program,
)
reserve_for_over_limit_example =
    reserve_for_over_limit program large_request (dollars 10799) program-IsSound usable refl
      (omega arith) large_test request_over

release_lem_example : Releases holding repayment (release repayment holding)
release_lem_example = release_lem holding repayment program-IsSound reservation-IsSound

rehydrate-to_snapshot_example : rehydrate (to_snapshot reservation) ≡ ok reservation
rehydrate-to_snapshot_example = rehydrate-to_snapshot reservation reservation-IsSound

euros_500-IsAcceptable : IsAcceptable reservation (euros 500) (pos 2000)
euros_500-IsAcceptable = record {
  still_active = refl;
  in_currency = refl;
  positive = omega arith;
  not_above = omega arith;
  in_time = omega arith;
}

record_repayment-IsRepaid_example :
    (released : Money) × (r' : Reservation) × (record_repayment reservation
        (euros 500)
        (some (pos 2000))
      ≡ ok (released, r'))
    × IsRepaid reservation (euros 500) released r'
record_repayment-IsRepaid_example =
    record_repayment-IsRepaid reservation reservation-IsSound (euros 500) (pos 2000)
      euros_500-IsAcceptable

-- 5 euros free 5.40 dollars.
repay_500 :
    record_repayment reservation (euros 500) (some (pos 2000))
    ≡ ok (dollars 540, repaid_by 500 540 ReservationStatus.active none)
unfolding record_repayment check_repayment capacity_released_once_repaid convert
    divide_with_rounding adjust tdiv tmod ◌*ℤ◌ ◌+ℤ◌ ◌-ℤ◌ text_eq
repay_500 = refl

recorded-IsAcceptable_example :
    (u : ℤ) × (some (pos 2000) ≡ some u) × IsAcceptable reservation (euros 500) u
recorded-IsAcceptable_example =
    recorded-IsAcceptable reservation (euros 500) (some (pos 2000)) _ reservation-IsSound repay_500

accepted-IsRepaid_example :
    IsRepaid reservation (euros 500) (dollars 540) (repaid_by 500 540 ReservationStatus.active none)
accepted-IsRepaid_example =
    accepted-IsRepaid reservation (euros 500) (some (pos 2000)) _ reservation-IsSound repay_500

repay_halves :
    repay_all two_halves reservation
    ≡ ok (pos 1079, repaid_by 999 1079 ReservationStatus.released (some (pos 3000)))
unfolding repay_all record_repayment check_repayment capacity_released_once_repaid convert
    divide_with_rounding adjust tdiv tmod ◌*ℤ◌ ◌+ℤ◌ ◌-ℤ◌ text_eq
repay_halves = refl

repay_at_once :
    repay_all at_once reservation
    ≡ ok (pos 1079, repaid_by 999 1079 ReservationStatus.released (some (pos 4000)))
unfolding repay_all record_repayment check_repayment capacity_released_once_repaid convert
    divide_with_rounding adjust tdiv tmod ◌*ℤ◌ ◌+ℤ◌ ◌-ℤ◌ text_eq
repay_at_once = refl

repaid_in_full_frees_held_example :
    pos 1079 ≡ reservation.reserved_amount.minor_units -ℤ reservation.released_amount.minor_units
repaid_in_full_frees_held_example =
    repaid_in_full_frees_held two_halves reservation _ (pos 1079) reservation-IsSound repay_halves
      refl

instalments_do_not_matter_example :
    (pos 1079 ≡ pos 1079) × (ReservationStatus.released ≡ ReservationStatus.released)
instalments_do_not_matter_example =
    instalments_do_not_matter two_halves at_once reservation
      (repaid_by 999 1079 ReservationStatus.released (some (pos 3000)))
      (repaid_by 999 1079 ReservationStatus.released (some (pos 4000))) (pos 1079) (pos 1079)
      reservation-IsSound refl repay_halves repay_at_once

reconciliation-LimitFits : LimitFits program (some (dollars 500))
reconciliation-LimitFits = (refl, omega arith)

apply_treasury_state_lem_example :
    Applies program reconciliation (apply_treasury_state reconciliation program)
apply_treasury_state_lem_example = apply_treasury_state_lem program reconciliation program-IsSound

newer-IsApplied_example :
    ((apply_treasury_state reconciliation program).0 ≡ ok tt)
    × IsApplied program reconciliation (apply_treasury_state reconciliation program).1
newer-IsApplied_example =
    newer-IsApplied program reconciliation program-IsSound (omega arith) reconciliation-LimitFits

newest_wins_example :
    IsReconciled program
      (dollars 500)
      ProgramStatus.suspended
      (pos 7)
      (apply_all ((older ∷ []) ++ reconciliation ∷ reconciliation ∷ older ∷ []) program)
newest_wins_example =
    newest_wins program (older ∷ []) (reconciliation ∷ older ∷ []) reconciliation (dollars 500)
      ProgramStatus.suspended program-IsSound refl refl reconciliation-LimitFits (omega arith)
      (omega arith, tt) (omega arith, (omega arith, tt))

-- Numbers: -7 over 2, and 1.25.
divide_with_rounding-floor_example :
    (q : ℤ) × (divide_with_rounding (neg_ℤ (pos 7)) (pos 2) floor ≡ ok q)
    × (q *ℤ pos 2 ≤ℤ neg_ℤ (pos 7))
    × (neg_ℤ (pos 7) <ℤ (q +ℤ pos 1) *ℤ pos 2)
divide_with_rounding-floor_example = divide_with_rounding-floor (neg_ℤ (pos 7)) 2 (omega arith)

divide_with_rounding-ceiling_example :
    (q : ℤ) × (divide_with_rounding (neg_ℤ (pos 7)) (pos 2) ceiling ≡ ok q)
    × (neg_ℤ (pos 7) ≤ℤ q *ℤ pos 2)
    × ((q -ℤ pos 1) *ℤ pos 2 <ℤ neg_ℤ (pos 7))
divide_with_rounding-ceiling_example = divide_with_rounding-ceiling (neg_ℤ (pos 7)) 2 (omega arith)

parse-format_example :
    parse_scaled_decimal (format_scaled_decimal (neg_ℤ (pos 125)) 2) 2 ≡ parsed (neg_ℤ (pos 125))
parse-format_example = parse-format (neg_ℤ (pos 125)) 2
