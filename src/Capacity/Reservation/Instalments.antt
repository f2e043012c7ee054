-- ===== src/Capacity/Reservation/Instalments.antt =====
-- Repayments in instalments: which are accepted, and what they free in total.
use program_capacity_invoice.Prelude.{
  ℕ, ◌≡◌, ◌≤◌, ◌+◌, none, some, List, [], ◌∷◌, ℤ, pos, nat_abs, ◌≤ℤ◌, ◌<ℤ◌, ◌+ℤ◌, ◌-ℤ◌, arith, refl,
  sym, ◌∙◌, int_laws, text_eq_sound, ap, subst,
}
use program_capacity_invoice.Money.Types.{Money, Date}
use program_capacity_invoice.Errors.{ReservationStatus, Result, ok, err, >>=-ok, ok_injective}
use program_capacity_invoice.Capacity.Reservation.{Reservation, record_repayment, check_repayment}
use program_capacity_invoice.Capacity.Reservation.Sound.{
  IsSound, freed, status_at, invoiced, repaid,
}
use program_capacity_invoice.Capacity.Reservation.Repay.{
  IsAcceptable, IsRepaid, record_repayment-IsRepaid,
}

module _ (r : Reservation) (a : Money) (at t : ℤ) (e : check_repayment r a (some at) ≡ ok t) where
  checked_time : (at ≡ t) × (r.reserved_at ≤ℤ at)
  unfolding check_repayment
  checked_time = (ground arith, ground arith)

  checked_status : r.status ≡ ReservationStatus.active
  unfolding check_repayment
  checked_status = ground arith

  checked_currency : a.currency.code ≡ r.invoice_amount.currency.code
  unfolding check_repayment
  checked_currency = ground (arith, text_eq_sound r.invoice_amount.currency.code a.currency.code)

  checked_amount :
      (pos 0 <ℤ a.minor_units)
      × (a.minor_units ≤ℤ r.invoice_amount.minor_units -ℤ r.repaid_amount.minor_units)
  unfolding check_repayment
  checked_amount = (ground arith, ground arith)

checked_date :
    (r : Reservation) (a : Money) (at : Date) (t : ℤ)
    → check_repayment r a at ≡ ok t
    → (u : ℤ) × (at ≡ some u)
unfolding check_repayment
checked_date r a none t e = absurd (ground arith)
checked_date r a (some u) t e = (u, refl)

below_outstanding :
    (x y z : ℤ) → pos 0 ≤ℤ y → y ≤ℤ x → pos 0 <ℤ z → z ≤ℤ x -ℤ y → nat_abs y + nat_abs z ≤ nat_abs x
unfolding ◌-ℤ◌
below_outstanding x y z h k l m = ground arith

-- The guards of `recordRepayment` let only acceptable repayments pass.
checked-IsAcceptable :
    (r : Reservation) (a : Money) (at t : ℤ)
    → IsSound r
    → check_repayment r a (some at) ≡ ok t
    → IsAcceptable r a at
checked-IsAcceptable r a at t sound e =
    let (nonneg, below) = checked_amount r a at t e in
    record {
      still_active = checked_status r a at t e;
      in_currency = checked_currency r a at t e;
      positive = nonneg;
      not_above =
          below_outstanding r.invoice_amount.minor_units r.repaid_amount.minor_units a.minor_units
            sound.repaid_nonneg sound.repaid_within nonneg below;
      in_time = (checked_time r a at t e).1;
    }

recorded-checked :
    (r : Reservation) (a : Money) (at : Date) (x : Money × Reservation)
    → record_repayment r a at ≡ ok x
    → (t : ℤ) × (check_repayment r a at ≡ ok t)
unfolding record_repayment
recorded-checked r a at x e =
    let (t, checked, _) = >>=-ok (check_repayment r a at) _ e in (t, checked)

-- A repayment that recordRepayment accepts on a sound reservation has a valid time not before
-- the reservation, is positive, in the invoice's currency and not above what is outstanding,
-- and the reservation was active.
pub recorded-IsAcceptable :
    (r : Reservation) (a : Money) (at : Date) (x : Money × Reservation)
    → IsSound r
    → record_repayment r a at ≡ ok x
    → (u : ℤ) × (at ≡ some u) × IsAcceptable r a u
recorded-IsAcceptable r a at x sound e =
    let (t, checked) = recorded-checked r a at x e in
    let (u, date) = checked_date r a at t checked in
    (u, date, checked-IsAcceptable r a u t sound (rw date at checked))

-- It leaves a sound reservation with the running total raised by it, and frees what it says.
pub accepted-IsRepaid :
    (r : Reservation) (a : Money) (at : Date) (x : Money × Reservation)
    → IsSound r
    → record_repayment r a at ≡ ok x
    → IsRepaid r a x.0 x.1
accepted-IsRepaid r a at x sound e =
    let (u, date, fits) = recorded-IsAcceptable r a at x sound e in
    let (m, r', run, repaid') = record_repayment-IsRepaid r sound a u fits in
    subst (λ y. IsRepaid r a y.0 y.1) (ok_injective (sym run ∙ (rw date at e))) repaid'

-- Repayments one after another, until one is refused; the sum of what they free.
abbrev add_released : Money → Result (ℤ × Reservation) → Result (ℤ × Reservation)
add_released m (ok (total, r)) = ok (m.minor_units +ℤ total, r)
add_released m (err e) = err e

abbrev then_repay :
    (Reservation → Result (ℤ × Reservation))
    → Result (Money × Reservation)
    → Result (ℤ × Reservation)
then_repay rest (ok (m, r)) = add_released m (rest r)
then_repay rest (err e) = err e

unfoldable pub repay_all : List (Money × Date) → Reservation → Result (ℤ × Reservation)
repay_all [] r = ok (pos 0, r)
repay_all ((a, at) ∷ rest) r = then_repay (repay_all rest) (record_repayment r a at)

-- the sum of the amounts, in minor units
abbrev pub amounts : List (Money × Date) → ℕ
amounts [] = 0
amounts ((a, at) ∷ rest) = nat_abs a.minor_units + amounts rest

-- Both reservations are of one invoice, with one hold at one rate.
pub record IsSameHold (r r' : Reservation) : Type 0 where
  pub amount : r'.invoice_amount ≡ r.invoice_amount
  pub hold' : r'.reserved_amount ≡ r.reserved_amount
  pub rate : r'.exchange_rate ≡ r.exchange_rate

pub record IsRepaidBy (r : Reservation) (n : ℕ) (total : ℤ) (r' : Reservation) : Type 0 where
  pub sound' : IsSound r'
  pub same : IsSameHold r r'
  pub repaid_total : repaid r' ≡ repaid r + n
  pub freed_total : total ≡ r'.released_amount.minor_units -ℤ r.released_amount.minor_units

add_released-ok :
    (m : Money) (t : Result (ℤ × Reservation)) (x : ℤ × Reservation)
    → add_released m t ≡ ok x
    → (z : ℤ × Reservation) × (t ≡ ok z) × ((m.minor_units +ℤ z.0, z.1) ≡ x)
add_released-ok m (ok z) x e = (z, refl, ok_injective e)
add_released-ok m (err _) x e = absurd (cc)

then_repay-ok :
    (f : Reservation → Result (ℤ × Reservation)) (res : Result (Money × Reservation))
    (x : ℤ × Reservation)
    → then_repay f res ≡ ok x
    → (y : Money × Reservation) × (res ≡ ok y)
      × (z : ℤ × Reservation) × (f y.1 ≡ ok z)
      × ((y.0.minor_units +ℤ z.0, z.1) ≡ x)
then_repay-ok f (ok (m, r)) x e =
    let (z, run, same) = add_released-ok m (f r) x e in ((m, r), refl, z, run, same)
then_repay-ok f (err _) x e = absurd (cc)

IsRepaidBy-next :
    (r r₁ r₂ : Reservation) (a m : Money) (n : ℕ) (t : ℤ)
    → IsRepaid r a m r₁
    → IsRepaidBy r₁ n t r₂
    → IsRepaidBy r (nat_abs a.minor_units + n) (m.minor_units +ℤ t) r₂
IsRepaidBy-next r r₁ r₂ a m n t first rest = record {
  sound' = rest.sound';
  same = record {
    amount = rest.same.amount ∙ first.same_amount;
    hold' = rest.same.hold' ∙ first.same_hold;
    rate = rest.same.rate ∙ first.same_rate;
  };
  repaid_total = omega (arith, rest.repaid_total, first.total);
  freed_total = rw (first.freed_now, rest.freed_total) (omega int_laws);
}

repay_all-IsRepaidBy :
    (steps : List (Money × Date)) (r : Reservation) (x : ℤ × Reservation)
    → IsSound r
    → repay_all steps r ≡ ok x
    → IsRepaidBy r (amounts steps) x.0 x.1
unfolding repay_all
repay_all-IsRepaidBy [] r x sound e =
    subst (λ y. IsRepaidBy r 0 y.0 y.1) (ok_injective e)
      (record {
        sound' = sound;
        same = record { amount = refl; hold' = refl; rate = refl };
        repaid_total = omega arith;
        freed_total = omega int_laws;
      })
repay_all-IsRepaidBy ((a, at) ∷ rest) r x sound e =
    let (y, first, z, run, same) = then_repay-ok (repay_all rest) (record_repayment r a at) x e in
    let one = accepted-IsRepaid r a at y sound first in
    subst (λ w. IsRepaidBy r (nat_abs a.minor_units + amounts rest) w.0 w.1) same
      (IsRepaidBy-next r y.1 z.1 a y.0 (amounts rest) z.0 one
        (repay_all-IsRepaidBy rest y.1 z one.sound' run))

-- A released reservation has freed all that it held.
pub released_in_full :
    (r : Reservation)
    → IsSound r
    → r.status ≡ ReservationStatus.released
    → r.released_amount.minor_units ≡ r.reserved_amount.minor_units
released_in_full r sound done = ground (arith, sound.status_fits, sound.frees, sound.holds)

-- What a run of repayments has freed depends on their sum alone, and so does the status.
module _ (r r' : Reservation) (n : ℕ) (t : ℤ) (by : IsRepaidBy r n t r') where
  released_by :
      r'.released_amount.minor_units ≡ pos (freed r.exchange_rate (invoiced r) (repaid r + n))
  released_by = by.sound'.frees ∙ λ i.
      pos (freed (by.same.rate i) (nat_abs (by.same.amount i).minor_units) (by.repaid_total i))

  status_by : r'.status ≡ status_at (invoiced r) (repaid r + n)
  status_by = by.sound'.status_fits ∙ λ i.
      status_at (nat_abs (by.same.amount i).minor_units) (by.repaid_total i)

-- For a sound reservation and a list of repayments that are all accepted: if the reservation
-- is released after them, then the capacity that they freed sums to what the reservation still
-- held before them, however the repayments were split and whatever the rounding of the rate.
pub repaid_in_full_frees_held :
    (steps : List (Money × Date)) (r r' : Reservation) (total : ℤ)
    → IsSound r
    → repay_all steps r ≡ ok (total, r')
    → r'.status ≡ ReservationStatus.released
    → total ≡ r.reserved_amount.minor_units -ℤ r.released_amount.minor_units
repaid_in_full_frees_held steps r r' total sound e done =
    let by = repay_all-IsRepaidBy steps r (total, r') sound e in
    by.freed_total
    ∙ ap (λ (u : ℤ). u -ℤ r.released_amount.minor_units)
        (released_in_full r' by.sound' done ∙ ap (λ (m : Money). m.minor_units) by.same.hold')

-- For a sound reservation and two lists of repayments whose amounts, in minor units, have the
-- same sum, each accepted in full: both lists free the same capacity in total and leave the
-- same status.
pub instalments_do_not_matter :
    (xs ys : List (Money × Date)) (r r' r'' : Reservation) (t u : ℤ)
    → IsSound r
    → amounts xs ≡ amounts ys
    → repay_all xs r ≡ ok (t, r')
    → repay_all ys r ≡ ok (u, r'')
    → (t ≡ u) × (r'.status ≡ r''.status)
instalments_do_not_matter xs ys r r' r'' t u sound same e e' =
    let by = repay_all-IsRepaidBy xs r (t, r') sound e in
    let by' = repay_all-IsRepaidBy ys r (u, r'') sound e' in
    let level : ℕ → ℤ = λ n.
      pos (freed r.exchange_rate (invoiced r) (repaid r + n)) -ℤ r.released_amount.minor_units in
    (
      by.freed_total
          ∙ ap (λ (v : ℤ). v -ℤ r.released_amount.minor_units) (released_by r r' _ t by)
          ∙ ap level same
          ∙ sym (
              by'.freed_total
              ∙ ap (λ (v : ℤ). v -ℤ r.released_amount.minor_units) (released_by r r'' _ u by')),
      status_by r r' _ t by
          ∙ ap (λ (n : ℕ). status_at (invoiced r) (repaid r + n)) same
          ∙ sym (status_by r r'' _ u by'),
    )
