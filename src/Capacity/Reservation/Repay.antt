-- ===== src/Capacity/Reservation/Repay.antt =====
-- What `recordRepayment` does to a sound reservation.
use program_capacity_invoice.Prelude.{
  ℕ, ◌≡◌, ◌≢◌, ◌≤◌, ◌+◌, ◌==◌, Bool, true, false, Option, none, some, ℤ, pos, nat_abs, ◌≤ℤ◌, ◌<ℤ◌,
  ◌+ℤ◌, ◌-ℤ◌, arith, refl, sym, ◌∙◌, -ℤ_parts, text_eq_complete, Bool-cases, inl, inr,
}
use program_capacity_invoice.Money.Types.{Currency, Money, ExchangeRate}
use program_capacity_invoice.Money.Amount.{from_minor_units, plus, money_equals}
use program_capacity_invoice.Money.Amount.SameCurrency.{plus-ok, minus-ok, money_equals-pos}
use program_capacity_invoice.Money.Rate.Convert.{
  converted, IsUsable, convert-floor, converted_mono, converted-le-hold,
}
use program_capacity_invoice.Errors.{ReservationStatus, ok}
use program_capacity_invoice.Capacity.Reservation.{
  Reservation, record_repayment, check_repayment, capacity_released_once_repaid, convert_repaid,
  settle,
}
use program_capacity_invoice.Capacity.Reservation.Sound.{IsSound, freed, invoiced, repaid, Leads}

-- Converting an amount of the invoice's currency by the reservation's rate frees what the rate gives.
convert_repaid-freed :
    (rate : Option ExchangeRate) (p : ℕ) (c from to : Currency)
    → IsUsable rate
    → Leads rate from to
    → c.code ≡ from.code
    → (m : Money) × (convert_repaid rate (from_minor_units (pos p) c) ≡ ok m)
      × (m.minor_units ≡ pos (converted rate p))
      × (m.currency.code ≡ to.code)
unfolding converted
convert_repaid-freed none p c from to u l e = (from_minor_units (pos p) c, refl, refl, e ∙ sym l)
convert_repaid-freed (some rate) p c from to u l e =
    (_, convert-floor rate p c (e ∙ sym l.0) u, refl, l.1)

module _ (r : Reservation) (sound : IsSound r) where
  -- `capacityReleasedOnceRepaid` succeeds, and gives the capacity that the invariant names.
  capacity_released-freed :
      (p : ℕ) (c : Currency)
      → c.code ≡ r.invoice_amount.currency.code
      → (m : Money) × (capacity_released_once_repaid r (from_minor_units (pos p) c) ≡ ok m)
        × (m.minor_units ≡ pos (freed r.exchange_rate (invoiced r) p))
        × (m.currency.code ≡ r.reserved_amount.currency.code)
  unfolding capacity_released_once_repaid
  capacity_released-freed p c e =
      let same = money_equals-pos p c r.invoice_amount e (omega (arith, sound.invoice_positive)) in
      elim (Bool-cases (p == invoiced r)) [
        | inl whole ↦ (r.reserved_amount, rw same (rw whole), rw whole sound.holds, refl)
        | inr part ↦
            let (m, run, units, code) =
              convert_repaid-freed r.exchange_rate p c r.invoice_amount.currency
                r.reserved_amount.currency sound.usable sound.leads e in
            (m, rw same (rw part run), rw part units, code)
      ]

-- A repayment that `recordRepayment` should accept: positive, in the invoice's currency, not above
-- what is outstanding, and not before the reservation.
pub record IsAcceptable (r : Reservation) (a : Money) (at : ℤ) : Type 0 where
  pub still_active : r.status ≡ ReservationStatus.active
  pub in_currency : a.currency.code ≡ r.invoice_amount.currency.code
  pub positive : pos 0 <ℤ a.minor_units
  pub not_above : repaid r + nat_abs a.minor_units ≤ invoiced r
  pub in_time : r.reserved_at ≤ℤ at

-- What an accepted repayment leaves: the invariant, the running total, and the capacity freed.
pub record IsRepaid (r : Reservation) (a : Money) (released : Money) (r' : Reservation)
    : Type 0 where
  pub sound' : IsSound r'
  pub total : repaid r' ≡ repaid r + nat_abs a.minor_units
  pub freed_now :
      released.minor_units ≡ r'.released_amount.minor_units -ℤ r.released_amount.minor_units
  pub freed_nonneg : pos 0 ≤ℤ released.minor_units
  pub freed_currency : released.currency.code ≡ r.reserved_amount.currency.code
  pub same_id : r'.id ≡ r.id
  pub same_program : r'.program_id ≡ r.program_id
  pub same_invoice : r'.invoice_id ≡ r.invoice_id
  pub same_amount : r'.invoice_amount ≡ r.invoice_amount
  pub same_hold : r'.reserved_amount ≡ r.reserved_amount
  pub same_rate : r'.exchange_rate ≡ r.exchange_rate
  pub same_time : r'.reserved_at ≡ r.reserved_at

-- While some of the invoice is outstanding, repaying more frees no less in total.
freed_mono :
    (rate : Option ExchangeRate) (n p q : ℕ)
    → p ≢ n
    → p ≤ q
    → q ≤ n
    → freed rate n p ≤ freed rate n q
freed_mono rate n p q ne le le' =
    ground (arith, converted_mono rate p q le, converted-le-hold rate p n)

within_units : (x : ℤ) (q : ℕ) → pos 0 <ℤ x → q ≤ nat_abs x → pos q ≤ℤ x
within_units x q h k = ground arith

still_part :
    (r : Reservation) → IsSound r → r.status ≡ ReservationStatus.active → repaid r ≢ invoiced r
still_part r sound e same = ground (arith, sound.status_fits)

sum_units : (x y : ℤ) → pos 0 ≤ℤ x → pos 0 <ℤ y → x +ℤ y ≡ pos (nat_abs x + nat_abs y)
unfolding ◌+ℤ◌
sum_units x y h k = ground arith

module _ (r : Reservation) (sound : IsSound r) (a : Money) (at : ℤ)
    (fits : IsAcceptable r a at) where
  check_repayment-ok : check_repayment r a (some at) ≡ ok at
  unfolding check_repayment
  check_repayment-ok = ground (
    arith,
    text_eq_complete r.invoice_amount.currency.code a.currency.code (sym fits.in_currency),
    text_eq_complete r.repaid_amount.currency.code r.invoice_amount.currency.code
        sound.repaid_currency,
    -ℤ_parts r.invoice_amount.minor_units r.repaid_amount.minor_units,
  )

  plus-repaid :
      plus r.repaid_amount a
      ≡ ok (from_minor_units (pos (repaid r + nat_abs a.minor_units)) r.repaid_amount.currency)
  plus-repaid =
      rw (plus-ok r.repaid_amount a (sound.repaid_currency ∙ sym fits.in_currency))
        (rw (sum_units r.repaid_amount.minor_units a.minor_units sound.repaid_nonneg fits.positive))

  module _ (m : Money)
      (units : m.minor_units
        ≡ pos (freed r.exchange_rate (invoiced r) (repaid r + nat_abs a.minor_units)))
      (code : m.currency.code ≡ r.reserved_amount.currency.code) where
    grows : pos 0 ≤ℤ m.minor_units -ℤ r.released_amount.minor_units
    grows =
        rw (units, sound.frees)
          (omega (
            arith,
            -ℤ_parts (pos (freed r.exchange_rate (invoiced r) (repaid r + nat_abs a.minor_units)))
                (pos (freed r.exchange_rate (invoiced r) (repaid r))),
            freed_mono r.exchange_rate (invoiced r) (repaid r) (repaid r + nat_abs a.minor_units)
                (still_part r sound fits.still_active) (omega arith) fits.not_above,
          ))

    is_last :
        money_equals
          (from_minor_units (pos (repaid r + nat_abs a.minor_units)) r.repaid_amount.currency)
          r.invoice_amount
        ≡ (repaid r + nat_abs a.minor_units == invoiced r)
    is_last =
        money_equals-pos (repaid r + nat_abs a.minor_units) r.repaid_amount.currency
          r.invoice_amount sound.repaid_currency (omega (arith, sound.invoice_positive))

    settled : Bool → Reservation
    settled b =
        settle b r
          (from_minor_units (pos (repaid r + nat_abs a.minor_units)) r.repaid_amount.currency) m at

    settled-IsSound :
        (b : Bool) → (repaid r + nat_abs a.minor_units == invoiced r) ≡ b → IsSound (settled b)
    unfolding settled
    settled-IsSound true e = record {
      invoice_positive = sound.invoice_positive;
      repaid_nonneg = omega arith;
      repaid_within =
          within_units r.invoice_amount.minor_units _ sound.invoice_positive fits.not_above;
      usable = sound.usable;
      leads = sound.leads;
      holds = sound.holds;
      frees = units;
      repaid_currency = sound.repaid_currency;
      released_currency = code;
      status_fits = rw e;
      times_fit = fits.in_time;
    }
    settled-IsSound false e = record {
      invoice_positive = sound.invoice_positive;
      repaid_nonneg = omega arith;
      repaid_within =
          within_units r.invoice_amount.minor_units _ sound.invoice_positive fits.not_above;
      usable = sound.usable;
      leads = sound.leads;
      holds = sound.holds;
      frees = units;
      repaid_currency = sound.repaid_currency;
      released_currency = code;
      status_fits = rw e fits.still_active;
      times_fit = sound.times_fit;
    }

    settled-IsRepaid :
        (b : Bool)
        → (repaid r + nat_abs a.minor_units == invoiced r) ≡ b
        → IsRepaid r a
            (from_minor_units (m.minor_units -ℤ r.released_amount.minor_units) m.currency)
            (settled b)
    unfolding settled
    settled-IsRepaid true e = record {
      sound' = settled-IsSound true e;
      total = refl;
      freed_now = refl;
      freed_nonneg = grows;
      freed_currency = code;
      same_id = refl;
      same_program = refl;
      same_invoice = refl;
      same_amount = refl;
      same_hold = refl;
      same_rate = refl;
      same_time = refl;
    }
    settled-IsRepaid false e = record {
      sound' = settled-IsSound false e;
      total = refl;
      freed_now = refl;
      freed_nonneg = grows;
      freed_currency = code;
      same_id = refl;
      same_program = refl;
      same_invoice = refl;
      same_amount = refl;
      same_hold = refl;
      same_rate = refl;
      same_time = refl;
    }

  -- For a sound reservation that is active, and a repayment that is positive, in the invoice's
  -- currency, not above what is outstanding and not before the reservation was made:
  -- recordRepayment returns, the reservation stays sound, the total repaid has risen by the
  -- repayment, the capacity freed is not negative, is in a currency with the code of the
  -- amount held and is the difference of the released amounts, and the ids of the reservation,
  -- its program and its invoice, and the invoice amount, the amount held, the rate and the
  -- time stay.
  pub record_repayment-IsRepaid :
      (released : Money) × (r' : Reservation) × (record_repayment r a (some at) ≡ ok (released, r'))
      × IsRepaid r a released r'
  unfolding record_repayment
  record_repayment-IsRepaid =
      let q = repaid r + nat_abs a.minor_units in
      let (m, run, units, code) =
        capacity_released-freed r sound q r.repaid_amount.currency sound.repaid_currency in
      let run_minus = minus-ok m r.released_amount (code ∙ sym sound.released_currency) in
      (
        from_minor_units (m.minor_units -ℤ r.released_amount.minor_units) m.currency,
        settled m units code (repaid r + nat_abs a.minor_units == invoiced r),
        rw check_repayment-ok (
            rw plus-repaid
              (rw run (rw run_minus (rw (is_last m units code) (unfold settled in refl))))),
        settled-IsRepaid m units code _ refl,
      )
