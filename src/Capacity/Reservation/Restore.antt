-- ===== src/Capacity/Reservation/Restore.antt =====
-- Snapshots of sound reservations, and what `assertConsistent` finds of them.
use program_capacity_invoice.Prelude.{
  ◌≡◌, ◌≤◌, ◌<◌, true, false, not, ◌&&◌, ◌||◌, Option, none, some, is_none, ℤ, pos, ◌≤ℤ◌, ◌<ℤ◌,
  ◌==ℤ◌, arith, refl, sym, ◌∙◌, ap, text_eq_complete,
}
use program_capacity_invoice.Money.Types.{Money, ExchangeRate}
use program_capacity_invoice.Money.Amount.{money_equals, is_positive}
use program_capacity_invoice.Money.Amount.SameCurrency.{is_greater_than-ok, money_equals-eq}
use program_capacity_invoice.Money.Rate.Convert.{hold, converted, hold_pos, converted-le-hold}
use program_capacity_invoice.Errors.{ReservationStatus, ok}
use program_capacity_invoice.Capacity.Reservation.{
  Reservation, assert_rate, assert_currencies, assert_within, assert_progress, assert_release_time,
  same_truth, is_released_status, assert_consistent, rehydrate, to_snapshot, as_date,
  release_millis,
}
use program_capacity_invoice.Capacity.Reservation.Sound.{
  IsSound, freed, invoiced, repaid, Leads, TimesFit,
}

assert_rate-ok :
    (rate : Option ExchangeRate) (a b : Money)
    → Leads rate a.currency b.currency
    → (rate ≡ none → b.minor_units ≡ a.minor_units)
    → assert_rate rate a b ≡ ok tt
unfolding assert_rate
assert_rate-ok none a b l e = rw (money_equals-eq a b (sym l)) (rw (e refl) (ground arith))
assert_rate-ok (some r) a b l e = ground (
  arith,
  text_eq_complete a.currency.code r.from.code (sym l.0),
  text_eq_complete b.currency.code r.to.code (sym l.1),
)

assert_within-ok :
    (part whole : Money)
    → part.currency.code ≡ whole.currency.code
    → pos 0 ≤ℤ part.minor_units
    → part.minor_units ≤ℤ whole.minor_units
    → assert_within part whole ≡ ok tt
unfolding assert_within
assert_within-ok part whole same lo hi = rw (is_greater_than-ok part whole same) (ground arith)

assert_release_time-ok :
    (status : ReservationStatus) (released_at : Option ℤ) (reserved_at : ℤ)
    → TimesFit status released_at reserved_at
    → assert_release_time status (as_date released_at) reserved_at ≡ ok tt
unfolding assert_release_time
assert_release_time-ok ReservationStatus.active none reserved_at h = refl
assert_release_time-ok ReservationStatus.active (some t) reserved_at h = absurd (cc)
assert_release_time-ok ReservationStatus.released none reserved_at h = absurd h
assert_release_time-ok ReservationStatus.released (some t) reserved_at h = ground arith

invoiced_positive : (r : Reservation) → IsSound r → 0 < invoiced r
invoiced_positive r sound = ground (arith, sound.invoice_positive)

repaid-le-invoiced : (r : Reservation) → IsSound r → repaid r ≤ invoiced r
repaid-le-invoiced r sound = ground (arith, sound.repaid_nonneg, sound.repaid_within)

release_millis-as_date : (t : Option ℤ) → release_millis (as_date t) ≡ t
release_millis-as_date none = refl
release_millis-as_date (some t) = refl

module _ (r : Reservation) (sound : IsSound r) where
  released_nonneg : pos 0 ≤ℤ r.released_amount.minor_units
  released_nonneg = rw sound.frees (omega arith)

  freed-le-hold : freed r.exchange_rate (invoiced r) (repaid r) ≤ hold r.exchange_rate (invoiced r)
  freed-le-hold =
      ground (
        arith,
        converted-le-hold r.exchange_rate (repaid r) (invoiced r),
        repaid-le-invoiced r sound,
      )

  pub released_within : r.released_amount.minor_units ≤ℤ r.reserved_amount.minor_units
  released_within = rw (sound.frees, sound.holds) (omega (arith, freed-le-hold))

  reserved_positive : pos 0 <ℤ r.reserved_amount.minor_units
  reserved_positive = rw sound.holds (
      omega (arith, hold_pos r.exchange_rate (invoiced r) (invoiced_positive r sound) sound.usable))

  unconverted :
      r.exchange_rate ≡ none → r.reserved_amount.minor_units ≡ r.invoice_amount.minor_units
  unfolding hold
  unconverted e = rw sound.holds (rw e (ground (arith, sound.invoice_positive)))

  assert_currencies-ok : assert_currencies (to_snapshot r) ≡ ok tt
  unfolding assert_currencies
  assert_currencies-ok = ground (
    arith,
    text_eq_complete r.invoice_amount.currency.code r.repaid_amount.currency.code
        (sym sound.repaid_currency),
    text_eq_complete r.reserved_amount.currency.code r.released_amount.currency.code
        (sym sound.released_currency),
  )

  -- Without a rate, what was freed is what was repaid.
  unconverted_progress :
      (rate : Option ExchangeRate)
      → r.exchange_rate ≡ rate
      → (is_none rate && not (money_equals r.repaid_amount r.released_amount)) ≡ false
  unfolding hold converted
  unconverted_progress (some _) e = refl
  unconverted_progress none e =
      let frees = rw e at sound.frees in
      let leads = rw e at sound.leads in
      rw
        (money_equals-eq r.repaid_amount r.released_amount
          (sound.repaid_currency ∙ sym leads ∙ sym sound.released_currency))
        (ground (arith, frees, sound.repaid_nonneg))

  status_agrees :
      same_truth
        (r.invoice_amount.minor_units ==ℤ r.repaid_amount.minor_units)
        (is_released_status r.status)
      ≡ true
  status_agrees = ground (arith, sound.status_fits, sound.invoice_positive, sound.repaid_nonneg)

  all_freed :
      (r.invoice_amount.minor_units ==ℤ r.repaid_amount.minor_units
        && not (r.reserved_amount.minor_units ==ℤ r.released_amount.minor_units))
      ≡ false
  all_freed = ground (arith, sound.frees, sound.holds, sound.invoice_positive, sound.repaid_nonneg)

  assert_progress-ok : assert_progress (to_snapshot r) ≡ ok tt
  unfolding assert_progress
  assert_progress-ok = rw (unconverted_progress r.exchange_rate refl) (
      rw (money_equals-eq r.repaid_amount r.invoice_amount sound.repaid_currency) (
        rw (money_equals-eq r.released_amount r.reserved_amount sound.released_currency)
          (rw (status_agrees, all_freed))))

  positive_amounts :
      (not (is_positive r.invoice_amount) || not (is_positive r.reserved_amount)) ≡ false
  positive_amounts = ground (arith, sound.invoice_positive, reserved_positive)

  pub assert_consistent-ok : assert_consistent (to_snapshot r) ≡ ok r.reserved_at
  unfolding assert_consistent
  assert_consistent-ok = rw positive_amounts (
      rw (assert_rate-ok r.exchange_rate r.invoice_amount r.reserved_amount sound.leads unconverted)
        (rw assert_currencies-ok (
          rw
            (assert_within-ok r.repaid_amount r.invoice_amount sound.repaid_currency
              sound.repaid_nonneg sound.repaid_within)
            (rw
              (assert_within-ok r.released_amount r.reserved_amount sound.released_currency
                released_nonneg released_within)
              (rw assert_progress-ok (
                rw (
                  assert_release_time-ok r.status r.released_at r.reserved_at sound.times_fit)))))))

  -- Rehydrating the snapshot of a sound reservation passes every consistency check and gives
  -- the reservation back.
  pub rehydrate-to_snapshot : rehydrate (to_snapshot r) ≡ ok r
  unfolding rehydrate
  rehydrate-to_snapshot = rw assert_consistent-ok (
      ap (λ (t : Option ℤ). ok (record r { released_at = t }))
        (release_millis-as_date r.released_at))
