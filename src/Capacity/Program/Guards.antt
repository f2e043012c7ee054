-- ===== src/Capacity/Program/Guards.antt =====
-- The static methods of `Program`, and the guards of its methods: computations that read a program
-- and return or throw.
use program_capacity_invoice.Prelude.{
  ◌-◌, ◌^◌, [], Bool, not, ◌&&◌, ◌||◌, Option, none, some, ℤ, pos, leb_ℤ,
}
use program_capacity_invoice.Money.Types.{
  Currency, Money, ExchangeRate, ceiling, Date, Identifier, currency_equals, id_equals,
}
use program_capacity_invoice.Money.Amount.{
  zero_of, minus, is_greater_than, is_positive, is_negative,
}
use program_capacity_invoice.Money.Rate.{convert}
use program_capacity_invoice.Errors.{
  ProgramStatus, Result, ok, ◌>>=◌, ◌>>◌, throw_if, invariant_violation, invalid_amount,
  program_not_active, insufficient_capacity, reservation_program_mismatch,
  reservation_already_released, stale_treasury_update, treasury_currency_mismatch,
  exchange_rate_missing, exchange_rate_wrong_target,
}
use program_capacity_invoice.Capacity.Events.{program_opened, raise}
use program_capacity_invoice.Capacity.Reservation.{
  Reservation, NewReservation, is_released, outstanding_amount, held_amount,
}
use program_capacity_invoice.Capacity.Program.State.{
  Program, ProgramSnapshot, TreasuryState, ReserveCapacity, is_active, status_or_active,
}

-- `Program.open`
unfoldable pub open_program : Identifier → Money → Date → Option ProgramStatus → Result Program
open_program id credit_limit opened_at status = do
  throw_if (not (is_positive credit_limit)) invalid_amount
  ok (record {
    id = id;
    version = pos 0;
    credit_limit = credit_limit;
    reserved_amount = zero_of credit_limit.currency;
    status = status_or_active status;
    treasury_sequence = pos 0;
    events =
        raise
          (program_opened (record {
            aggregate_id = id.value;
            occurred_at = opened_at;
            credit_limit = credit_limit;
            status = status_or_active status;
          }))
          [];
  })

-- `Program.openFromTreasury`, on a state whose limit is there
unfoldable pub open_from_treasury : Identifier → Money → TreasuryState → Result Program
open_from_treasury id credit_limit state = do
  program ← open_program id credit_limit state.at (some (status_or_active state.status))
  ok (record program { treasury_sequence = state.sequence })

-- `Number.isSafeInteger` of a whole number, and not negative
abbrev pub is_safe_counter : ℤ → Bool
is_safe_counter n = leb_ℤ (pos 0) n && leb_ℤ n (pos (2 ^ 53 - 1))

-- `assertConsistent` of program.ts
unfoldable pub assert_consistent : ProgramSnapshot → Result (Unit {0})
assert_consistent state = do
  throw_if (not (is_safe_counter state.version)) invariant_violation
  throw_if (not (currency_equals state.credit_limit.currency state.reserved_amount.currency))
      invariant_violation
  throw_if (is_negative state.credit_limit || is_negative state.reserved_amount) invariant_violation
  throw_if (not (is_safe_counter state.treasury_sequence)) invariant_violation

-- the constructor
abbrev pub of_snapshot : ProgramSnapshot → Program
of_snapshot snapshot = record {
  id = snapshot.id;
  version = snapshot.version;
  credit_limit = snapshot.credit_limit;
  reserved_amount = snapshot.reserved_amount;
  status = snapshot.status;
  treasury_sequence = snapshot.treasury_sequence;
  events = [];
}

-- `Program.rehydrate`
unfoldable pub rehydrate : ProgramSnapshot → Result Program
rehydrate snapshot = do assert_consistent snapshot; ok (of_snapshot snapshot)

-- `get currency`, `get availableCapacity` and `get isOverLimit`
abbrev pub program_currency : Program → Currency
program_currency p = p.credit_limit.currency

abbrev pub available_capacity : Program → Result Money
available_capacity p = minus p.credit_limit p.reserved_amount

abbrev pub is_over_limit : Program → Result Bool
is_over_limit p = is_greater_than p.reserved_amount p.credit_limit

-- `toProgramCurrency`
unfoldable pub to_program_currency : Program → Money → Option ExchangeRate → Result Money
to_program_currency p amount none = do
  throw_if (not (currency_equals amount.currency (program_currency p)))
      (exchange_rate_missing amount.currency (program_currency p))
  ok amount
to_program_currency p amount (some rate) = do
  throw_if (not (currency_equals rate.to (program_currency p)))
      (exchange_rate_wrong_target rate (program_currency p))
  convert rate amount ceiling

-- The guards of `reserveFor`, up to the comparison with what is available: the amount to hold.
unfoldable pub amount_to_hold : Program → ReserveCapacity → Result Money
amount_to_hold p request = do
  throw_if (not (is_active p.status)) (program_not_active p.id p.status)
  throw_if (not (is_positive request.invoice_amount)) invalid_amount
  to_hold ← to_program_currency p request.invoice_amount request.exchange_rate
  available ← available_capacity p
  too_much ← is_greater_than to_hold available
  throw_if too_much (insufficient_capacity p.id to_hold available)
  ok to_hold

-- what `reserveFor` opens
abbrev pub new_reservation : Program → ReserveCapacity → Money → NewReservation
new_reservation p request to_hold = record {
  id = request.reservation_id;
  program_id = p.id;
  invoice_id = request.invoice_id;
  reservation_key = request.reservation_key;
  invoice_amount = request.invoice_amount;
  reserved_amount = to_hold;
  exchange_rate = request.exchange_rate;
  reserved_at = request.at;
}

-- the guards of `release`
unfoldable pub check_release : Program → Reservation → Result (Unit {0})
check_release p r = do
  throw_if (not (id_equals r.program_id p.id)) (reservation_program_mismatch r.id p.id r.program_id)
  throw_if (is_released r) (reservation_already_released r.id)
  held ← held_amount r
  drifted ← is_greater_than held p.reserved_amount
  throw_if drifted invariant_violation

-- `repayment.amount ?? reservation.outstandingAmount`
abbrev pub amount_or_outstanding : Option Money → Reservation → Result Money
amount_or_outstanding none r = outstanding_amount r
amount_or_outstanding (some amount) r = ok amount

-- the guards of `applyTreasuryState` on the limit
unfoldable pub check_limit : Program → Option Money → Result (Unit {0})
check_limit p none = ok tt
check_limit p (some limit) = do
  throw_if (not (currency_equals limit.currency (program_currency p)))
      (treasury_currency_mismatch p.id limit.currency (program_currency p))
  throw_if (not (is_positive limit)) invalid_amount

unfoldable pub check_treasury_state : Program → TreasuryState → Result (Unit {0})
check_treasury_state p state = do
  throw_if (leb_ℤ state.sequence p.treasury_sequence)
      (stale_treasury_update p.id p.treasury_sequence state.sequence)
  check_limit p state.credit_limit
