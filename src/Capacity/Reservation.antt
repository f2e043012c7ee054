-- ===== src/Capacity/Reservation.antt =====
-- src/contexts/capacity/domain/reservation.ts. A reservation raises no events of its own. Statuses
-- outside RESERVATION_STATUSES are met by the type.
pub mod Sound
pub mod Repay
pub mod Instalments
pub mod Restore
pub mod Open
use program_capacity_invoice.Prelude.{
  Bool, true, false, not, ◌&&◌, ◌||◌, Option, none, some, is_none, if◌then◌else◌, ℤ, ltb_ℤ, Text,
}
use program_capacity_invoice.Money.Types.{
  Currency, Money, ExchangeRate, RoundingMode, floor, Date, Identifier, currency_equals,
}
use program_capacity_invoice.Money.Amount.{
  zero_of, plus, minus, is_greater_than, is_positive, is_negative, money_equals,
}
use program_capacity_invoice.Money.Rate.{convert}
use program_capacity_invoice.Errors.{
  ReservationStatus, Error, Result, ok, err, ◌>>=◌, ◌>>◌, throw_if, invariant_violation,
  invalid_amount, reservation_already_released, repayment_currency_mismatch,
  repayment_exceeds_outstanding,
}

pub record ReservationSnapshot : Type 0 where
  pub id : Identifier
  pub program_id : Identifier
  pub invoice_id : Identifier
  pub reservation_key : Option Identifier
  pub invoice_amount : Money
  pub reserved_amount : Money
  pub exchange_rate : Option ExchangeRate
  pub repaid_amount : Money
  pub released_amount : Money
  pub status : ReservationStatus
  pub reserved_at : Date
  pub released_at : Option Date

pub record NewReservation : Type 0 where
  pub id : Identifier
  pub program_id : Identifier
  pub invoice_id : Identifier
  pub reservation_key : Option Identifier
  pub invoice_amount : Money
  pub reserved_amount : Money
  pub exchange_rate : Option ExchangeRate
  pub reserved_at : Date

-- The times are `#reservedAtMillis` and `#releasedAtMillis`, valid once `assertConsistent` passed.
pub record Reservation : Type 0 where
  pub id : Identifier
  pub program_id : Identifier
  pub invoice_id : Identifier
  pub reservation_key : Option Identifier
  pub invoice_amount : Money
  pub reserved_amount : Money
  pub exchange_rate : Option ExchangeRate
  pub repaid_amount : Money
  pub released_amount : Money
  pub status : ReservationStatus
  pub reserved_at : ℤ
  pub released_at : Option ℤ

-- `validTime`
abbrev pub valid_time : Date → Result ℤ
valid_time none = err invariant_violation
valid_time (some at) = ok at

abbrev pub is_released_status : ReservationStatus → Bool
is_released_status ReservationStatus.active = false
is_released_status ReservationStatus.released = true

-- `a || b`, where `b` may throw
abbrev pub or_else : Bool → Result Bool → Result Bool
or_else true b = ok true
or_else false b = b

abbrev pub violation_if : Bool → Result (Unit {0})
violation_if bad = throw_if bad invariant_violation

-- The parts of `assertConsistent`, in order. The amounts are positive, and related as the rate says.
unfoldable pub assert_rate : Option ExchangeRate → Money → Money → Result (Unit {0})
assert_rate none invoice_amount reserved_amount =
    violation_if (not (money_equals invoice_amount reserved_amount))
assert_rate (some rate) invoice_amount reserved_amount = violation_if (
    not (currency_equals rate.from invoice_amount.currency)
    || not (currency_equals rate.to reserved_amount.currency))

unfoldable pub assert_currencies : ReservationSnapshot → Result (Unit {0})
assert_currencies state = violation_if (
    not (currency_equals state.repaid_amount.currency state.invoice_amount.currency)
    || not (currency_equals state.released_amount.currency state.reserved_amount.currency))

-- what is spent lies between zero and what there is
unfoldable pub assert_within : Money → Money → Result (Unit {0})
assert_within part whole = do
  outside ← or_else (is_negative part) (is_greater_than part whole)
  violation_if outside

abbrev pub same_truth : Bool → Bool → Bool
same_truth true b = b
same_truth false b = not b

unfoldable pub assert_progress : ReservationSnapshot → Result (Unit {0})
assert_progress state = do
  violation_if
      (is_none state.exchange_rate && not (money_equals state.repaid_amount state.released_amount))
  let fully_repaid = money_equals state.repaid_amount state.invoice_amount
  violation_if (not (same_truth fully_repaid (is_released_status state.status)))
  violation_if (fully_repaid && not (money_equals state.released_amount state.reserved_amount))

-- the last checks, by the status: the release time, and its order
unfoldable pub assert_release_time : ReservationStatus → Option Date → ℤ → Result (Unit {0})
assert_release_time ReservationStatus.active released_at reserved_at =
    violation_if (not (is_none released_at))
assert_release_time ReservationStatus.released none reserved_at = err invariant_violation
assert_release_time ReservationStatus.released (some released_at) reserved_at = do
  released_millis ← valid_time released_at
  violation_if (ltb_ℤ released_millis reserved_at)

-- `assertConsistent`, which hands on the valid reservation time
unfoldable pub assert_consistent : ReservationSnapshot → Result ℤ
assert_consistent state = do
  violation_if (not (is_positive state.invoice_amount) || not (is_positive state.reserved_amount))
  assert_rate state.exchange_rate state.invoice_amount state.reserved_amount
  assert_currencies state
  assert_within state.repaid_amount state.invoice_amount
  assert_within state.released_amount state.reserved_amount
  assert_progress state
  reserved_millis ← valid_time state.reserved_at
  assert_release_time state.status state.released_at reserved_millis
  ok reserved_millis

-- `releasedAt.getTime()` of a date that was found valid
abbrev pub release_millis : Option Date → Option ℤ
release_millis none = none
release_millis (some at) = at

-- the constructor
abbrev pub of_snapshot : ReservationSnapshot → ℤ → Reservation
of_snapshot state reserved_millis = record {
  id = state.id;
  program_id = state.program_id;
  invoice_id = state.invoice_id;
  reservation_key = state.reservation_key;
  invoice_amount = state.invoice_amount;
  reserved_amount = state.reserved_amount;
  exchange_rate = state.exchange_rate;
  repaid_amount = state.repaid_amount;
  released_amount = state.released_amount;
  status = state.status;
  reserved_at = reserved_millis;
  released_at = release_millis state.released_at;
}

-- `Reservation.rehydrate`
unfoldable pub rehydrate : ReservationSnapshot → Result Reservation
rehydrate snapshot = do
  reserved_millis ← assert_consistent snapshot
  ok (of_snapshot snapshot reserved_millis)

abbrev pub opening_state : NewReservation → ReservationSnapshot
opening_state params = record {
  id = params.id;
  program_id = params.program_id;
  invoice_id = params.invoice_id;
  reservation_key = params.reservation_key;
  invoice_amount = params.invoice_amount;
  reserved_amount = params.reserved_amount;
  exchange_rate = params.exchange_rate;
  repaid_amount = zero_of params.invoice_amount.currency;
  released_amount = zero_of params.reserved_amount.currency;
  status = ReservationStatus.active;
  reserved_at = params.reserved_at;
  released_at = none;
}

-- `Reservation.open`
unfoldable pub open_reservation : NewReservation → Result Reservation
open_reservation params = do
  reserved_millis ← assert_consistent (opening_state params)
  ok (of_snapshot (opening_state params) reserved_millis)

abbrev pub is_released : Reservation → Bool
is_released r = is_released_status r.status

-- `outstandingAmount` and `heldAmount`
abbrev pub outstanding_amount : Reservation → Result Money
outstanding_amount r = minus r.invoice_amount r.repaid_amount

abbrev pub held_amount : Reservation → Result Money
held_amount r = minus r.reserved_amount r.released_amount

abbrev pub convert_repaid : Option ExchangeRate → Money → Result Money
convert_repaid none repaid = ok repaid
convert_repaid (some rate) repaid = convert rate repaid floor

-- `capacityReleasedOnceRepaid`
unfoldable pub capacity_released_once_repaid : Reservation → Money → Result Money
capacity_released_once_repaid r repaid =
    if money_equals repaid r.invoice_amount
    then ok r.reserved_amount
    else convert_repaid r.exchange_rate repaid

-- the guards of `recordRepayment`, up to the time of the repayment
unfoldable pub check_repayment : Reservation → Money → Date → Result ℤ
check_repayment r repayment at = do
  throw_if (is_released r) (reservation_already_released r.id)
  throw_if (not (currency_equals repayment.currency r.invoice_amount.currency))
      (repayment_currency_mismatch r.invoice_id r.invoice_amount.currency repayment.currency)
  throw_if (not (is_positive repayment)) invalid_amount
  outstanding ← outstanding_amount r
  too_much ← is_greater_than repayment outstanding
  throw_if too_much (repayment_exceeds_outstanding r.invoice_id repayment outstanding)
  at_millis ← valid_time at
  violation_if (ltb_ℤ at_millis r.reserved_at)
  ok at_millis

-- the fields that `recordRepayment` assigns; the last two only when nothing is left to repay
abbrev pub settle : Bool → Reservation → Money → Money → ℤ → Reservation
settle true r repaid_after released_after at_millis = record r {
  repaid_amount = repaid_after;
  released_amount = released_after;
  status = ReservationStatus.released;
  released_at = some at_millis;
}
settle false r repaid_after released_after at_millis = record r {
  repaid_amount = repaid_after;
  released_amount = released_after;
}

-- `recordRepayment`: every call that can throw comes before the first assignment, so a throw leaves
-- the reservation as it was; otherwise the capacity freed now, and the reservation after.
unfoldable pub record_repayment : Reservation → Money → Date → Result (Money × Reservation)
record_repayment r repayment at = do
  at_millis ← check_repayment r repayment at
  repaid_after ← plus r.repaid_amount repayment
  released_after ← capacity_released_once_repaid r repaid_after
  released_now ← minus released_after r.released_amount
  ok (
    released_now,
    settle (money_equals repaid_after r.invoice_amount) r repaid_after released_after at_millis,
  )

abbrev pub as_date : Option ℤ → Option Date
as_date none = none
as_date (some at) = some (some at)

-- `toSnapshot`
abbrev pub to_snapshot : Reservation → ReservationSnapshot
to_snapshot r = record {
  id = r.id;
  program_id = r.program_id;
  invoice_id = r.invoice_id;
  reservation_key = r.reservation_key;
  invoice_amount = r.invoice_amount;
  reserved_amount = r.reserved_amount;
  exchange_rate = r.exchange_rate;
  repaid_amount = r.repaid_amount;
  released_amount = r.released_amount;
  status = r.status;
  reserved_at = some r.reserved_at;
  released_at = as_date r.released_at;
}
