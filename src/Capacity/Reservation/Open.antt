-- ===== src/Capacity/Reservation/Open.antt =====
-- `Reservation.open`, on amounts that the rate relates.
use program_capacity_invoice.Prelude.{◌≡◌, Option, none, some, ℤ, pos, nat_abs, ◌<ℤ◌, arith, refl}
use program_capacity_invoice.Money.Rate.Convert.{hold, converted, IsUsable}
use program_capacity_invoice.Money.Types.{ExchangeRate}
use program_capacity_invoice.Errors.{ok, >>=-ok, ok_injective}
use program_capacity_invoice.Capacity.Reservation.{
  ReservationSnapshot, assert_consistent, Reservation, NewReservation, of_snapshot, opening_state,
  open_reservation,
}
use program_capacity_invoice.Capacity.Reservation.Sound.{IsSound, Leads}
use program_capacity_invoice.Capacity.Reservation.Restore.{assert_consistent-ok}

-- What a new reservation must bring: a positive invoice, and the hold that its rate gives.
pub record IsOpenable (params : NewReservation) : Type 0 where
  pub invoice_positive : pos 0 <ℤ params.invoice_amount.minor_units
  pub usable : IsUsable params.exchange_rate
  pub leads :
      Leads params.exchange_rate params.invoice_amount.currency params.reserved_amount.currency
  pub holds :
      params.reserved_amount.minor_units
      ≡ pos (hold params.exchange_rate (nat_abs params.invoice_amount.minor_units))

abbrev pub opened : NewReservation → ℤ → Reservation
opened params at = of_snapshot (opening_state params) at

converted-zero : (rate : Option ExchangeRate) → converted rate 0 ≡ 0
unfolding converted
converted-zero none = refl
converted-zero (some r) = omega arith

pub opened-IsSound :
    (params : NewReservation) (at : ℤ) → IsOpenable params → IsSound (opened params at)
opened-IsSound params at h = record {
  invoice_positive = h.invoice_positive;
  repaid_nonneg = omega arith;
  repaid_within = omega (arith, h.invoice_positive);
  usable = h.usable;
  leads = h.leads;
  holds = h.holds;
  frees = ground (arith, h.invoice_positive, converted-zero params.exchange_rate);
  repaid_currency = refl;
  released_currency = refl;
  status_fits = ground (arith, h.invoice_positive);
  times_fit = refl;
}

-- At a valid time, such a reservation opens.
pub open_reservation-ok :
    (params : NewReservation) (at : ℤ)
    → IsOpenable params
    → params.reserved_at ≡ some at
    → open_reservation params ≡ ok (opened params at)
unfolding open_reservation
open_reservation-ok params at h e =
    rw e (rw (assert_consistent-ok (opened params at) (opened-IsSound params at h)))

consistent_date :
    (s : ReservationSnapshot) (t : ℤ) → assert_consistent s ≡ ok t → s.reserved_at ≡ some t
unfolding assert_consistent
consistent_date s t e = ground arith

-- A reservation that opens does so at a valid time, as it was asked for.
pub open_reservation-opened :
    (params : NewReservation) (r : Reservation)
    → open_reservation params ≡ ok r
    → (at : ℤ) × (params.reserved_at ≡ some at) × (opened params at ≡ r)
unfolding open_reservation
open_reservation-opened params r e =
    let (at, run, same) = >>=-ok (assert_consistent (opening_state params)) _ e in
    (at, consistent_date (opening_state params) at run, ok_injective same)
