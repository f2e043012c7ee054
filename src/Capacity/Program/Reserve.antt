-- ===== src/Capacity/Program/Reserve.antt =====
-- `reserveFor`: what a reservation that is granted does to the program, and when it is granted.
use program_capacity_invoice.Prelude.{
  ℕ, ◌≡◌, true, false, [], ◌∷◌, ◌++◌, some, ℤ, pos, ◌≤ℤ◌, ◌<ℤ◌, ◌+ℤ◌, ◌-ℤ◌, ltb_ℤ, arith, refl, inl,
  inr, sym, ◌∙◌, -ℤ_parts, +ℤ_parts, ap,
}
use program_capacity_invoice.Money.Types.{Money}
use program_capacity_invoice.Money.Amount.{
  from_minor_units, plus, minus, is_greater_than, is_positive,
}
use program_capacity_invoice.Money.Amount.SameCurrency.{plus-ok, minus-ok, is_greater_than-ok}
use program_capacity_invoice.Money.Rate.Convert.{IsUsable}
use program_capacity_invoice.Errors.{
  ProgramStatus, Result, ok, err, throw_if, ◌>>◌, insufficient_capacity, Result-cases,
}
use program_capacity_invoice.Capacity.Events.{capacity_reserved}
use program_capacity_invoice.Capacity.Reservation.{Reservation, open_reservation}
use program_capacity_invoice.Capacity.Reservation.Sound
use program_capacity_invoice.Capacity.Reservation.Open.{
  IsOpenable, opened, opened-IsSound, open_reservation-ok, open_reservation-opened,
}
use program_capacity_invoice.Capacity.Program.{reserve_for}
use program_capacity_invoice.Capacity.Program.State.{Program, ReserveCapacity, is_active}
use program_capacity_invoice.Capacity.Program.Guards.{
  to_program_currency, amount_to_hold, new_reservation,
}
use program_capacity_invoice.Capacity.Program.Sound.{IsSound, IsHold, to_program_currency-IsHold}

-- What the guards of `reserveFor` establish of the amount that they let be held.
pub record IsGranted (p : Program) (request : ReserveCapacity) (m : Money) : Type 0 where
  pub active : p.status ≡ ProgramStatus.active
  pub positive : pos 0 <ℤ request.invoice_amount.minor_units
  pub held : IsHold p request.invoice_amount request.exchange_rate m
  pub fits : p.reserved_amount.minor_units +ℤ m.minor_units ≤ℤ p.credit_limit.minor_units

module _ (p : Program) (request : ReserveCapacity) (m : Money)
    (e : amount_to_hold p request ≡ ok m) where
  granted_active : p.status ≡ ProgramStatus.active
  unfolding amount_to_hold
  granted_active = ground arith

  granted_positive : pos 0 <ℤ request.invoice_amount.minor_units
  unfolding amount_to_hold
  granted_positive = ground arith

  granted_conversion : to_program_currency p request.invoice_amount request.exchange_rate ≡ ok m
  unfolding amount_to_hold
  granted_conversion = ground arith

  granted_fits : m.minor_units ≤ℤ p.credit_limit.minor_units -ℤ p.reserved_amount.minor_units
  unfolding amount_to_hold
  granted_fits = ground arith

below_limit : (x y z : ℤ) → x ≤ℤ z -ℤ y → y +ℤ x ≤ℤ z
below_limit x y z h = omega (arith, -ℤ_parts z y, +ℤ_parts y x)

amount_to_hold-IsGranted :
    (p : Program) (request : ReserveCapacity) (m : Money)
    → IsUsable request.exchange_rate
    → amount_to_hold p request ≡ ok m
    → IsGranted p request m
amount_to_hold-IsGranted p request m u e =
    let positive' = granted_positive p request m e in
    record {
      active = granted_active p request m e;
      positive = positive';
      held =
          to_program_currency-IsHold p request.invoice_amount m request.exchange_rate positive' u
            (granted_conversion p request m e);
      fits = below_limit _ _ _ (granted_fits p request m e);
    }

sum_nonneg : (x y : ℤ) (n : ℕ) → pos 0 ≤ℤ x → y ≡ pos n → pos 0 ≤ℤ x +ℤ y
sum_nonneg x y n h e = rw e (omega (arith, +ℤ_parts x (pos n)))

-- What a request that is granted does.
pub record IsReserved (p : Program) (request : ReserveCapacity) (r : Reservation) (p' : Program)
    : Type 0 where
  pub was_active : p.status ≡ ProgramStatus.active
  pub sound_reservation : Sound.IsSound r
  pub sound_program : IsSound p'
  pub same_request :
      (r.id ≡ request.reservation_id)
      × (r.program_id ≡ p.id)
      × (r.invoice_id ≡ request.invoice_id)
      × (r.reservation_key ≡ request.reservation_key)
      × (r.invoice_amount ≡ request.invoice_amount)
      × (r.exchange_rate ≡ request.exchange_rate)
      × (r.released_amount.minor_units ≡ pos 0)
  pub counter :
      p'.reserved_amount.minor_units
      ≡ p.reserved_amount.minor_units +ℤ r.reserved_amount.minor_units
  pub within_limit : p'.reserved_amount.minor_units ≤ℤ p'.credit_limit.minor_units
  pub only_counter : p' ≡ record p { reserved_amount = p'.reserved_amount; events = p'.events }
  pub one_event :
      (available : Money) × (p'.events
        ≡ p.events
          ++ capacity_reserved (record {
            aggregate_id = p.id.value;
            occurred_at = request.at;
            reservation_id = r.id;
            invoice_id = r.invoice_id;
            invoice_amount = r.invoice_amount;
            reserved_amount = r.reserved_amount;
            available_after = available;
          })
            ∷ [])
      × (available.minor_units ≡ p'.credit_limit.minor_units -ℤ p'.reserved_amount.minor_units)

-- A request is granted as said, or refused with the program left as it was.
abbrev pub Reserves : Program → ReserveCapacity → Result Reservation × Program → Type 0
Reserves p request (ok r, p') = IsReserved p request r p'
Reserves p request (err _, p') = p' ≡ p

module _ (p : Program) (request : ReserveCapacity) (m : Money) (at : ℤ) (sound : IsSound p)
    (usable : IsUsable request.exchange_rate) (granted : IsGranted p request m) where
  openable : IsOpenable (new_reservation p request m)
  openable = record {
    invoice_positive = granted.positive;
    usable = usable;
    leads = granted.held.leads;
    holds = granted.held.units;
  }

  raised : Money
  raised =
      from_minor_units (p.reserved_amount.minor_units +ℤ m.minor_units) p.reserved_amount.currency

  plus_hold : plus p.reserved_amount m ≡ ok raised
  unfolding raised
  plus_hold = plus-ok p.reserved_amount m (sound.one_currency ∙ sym granted.held.in_currency)

  left_after : Money
  left_after =
      from_minor_units
        (p.credit_limit.minor_units -ℤ (p.reserved_amount.minor_units +ℤ m.minor_units))
        p.credit_limit.currency

  minus_hold : minus p.credit_limit raised ≡ ok left_after
  unfolding raised left_after
  minus_hold = minus-ok p.credit_limit _ (sym sound.one_currency)

  runs :
      amount_to_hold p request ≡ ok m
      → open_reservation (new_reservation p request m)
        ≡ ok (opened (new_reservation p request m) at)
      → (reserve_for request p).0 ≡ ok (opened (new_reservation p request m) at)
  unfolding reserve_for raised left_after
  runs e o = rw e (rw o (rw plus_hold (rw minus_hold)))

  Reserves-opened :
      amount_to_hold p request ≡ ok m
      → open_reservation (new_reservation p request m)
        ≡ ok (opened (new_reservation p request m) at)
      → Reserves p request (reserve_for request p)
  unfolding reserve_for raised left_after
  Reserves-opened e o = rw e (
      rw o (
        rw plus_hold (
          rw minus_hold (record {
            was_active = granted.active;
            sound_reservation = opened-IsSound (new_reservation p request m) at openable;
            sound_program = record {
              limit_positive = sound.limit_positive;
              reserved_nonneg =
                  sum_nonneg p.reserved_amount.minor_units m.minor_units _ sound.reserved_nonneg
                    granted.held.units;
              one_currency = sound.one_currency;
            };
            same_request = (refl, refl, refl, refl, refl, refl, refl);
            counter = refl;
            within_limit = granted.fits;
            only_counter = refl;
            one_event = (left_after, refl, refl);
          }))))

-- For a sound program and a request whose rate, if it has one, is positive: reserveFor either
-- throws and leaves the program as it was, or the program was active and a sound reservation
-- of the request comes back, the reserved amount has risen by what the reservation holds and
-- is within the limit, nothing else of the program changed but its events, one
-- CapacityReserved with the amounts of the reservation and the capacity left was raised after
-- the earlier events, and the program is sound.
pub reserve_for_lem :
    (p : Program) (request : ReserveCapacity)
    → IsSound p
    → IsUsable request.exchange_rate
    → Reserves p request (reserve_for request p)
reserve_for_lem p request sound usable = elim (Result-cases (amount_to_hold p request)) [
  | inr (x, e) ↦ unfold reserve_for in rw e refl
  | inl (m, e) ↦ elim (Result-cases (open_reservation (new_reservation p request m))) [
    | inr (x, o) ↦ unfold reserve_for in rw e (rw o refl)
    | inl (r, o) ↦
        let (at, _, same) = open_reservation-opened (new_reservation p request m) r o in
        Reserves-opened p request m at sound usable (amount_to_hold-IsGranted p request m usable e)
          e (rw same o)
  ]
]

is_positive-true : (a : Money) → pos 0 <ℤ a.minor_units → is_positive a ≡ true
is_positive-true a h = ground arith

fits-false : (x y z : ℤ) → x +ℤ y ≤ℤ z → ltb_ℤ (z -ℤ x) y ≡ false
fits-false x y z h = ground (arith, +ℤ_parts x y, -ℤ_parts z x)

over-true : (x y z : ℤ) → z <ℤ x +ℤ y → ltb_ℤ (z -ℤ x) y ≡ true
over-true x y z h = ground (arith, +ℤ_parts x y, -ℤ_parts z x)

-- A request to an active program, for a positive amount that converts to m.
module _ (p : Program) (request : ReserveCapacity) (m : Money) (sound : IsSound p)
    (usable : IsUsable request.exchange_rate) (active : p.status ≡ ProgramStatus.active)
    (positive : pos 0 <ℤ request.invoice_amount.minor_units)
    (converts : to_program_currency p request.invoice_amount request.exchange_rate ≡ ok m) where
  request-IsHold : IsHold p request.invoice_amount request.exchange_rate m
  request-IsHold =
      to_program_currency-IsHold p request.invoice_amount m request.exchange_rate positive usable
        converts

  abbrev available : Money
  available =
      from_minor_units (p.credit_limit.minor_units -ℤ p.reserved_amount.minor_units)
        p.credit_limit.currency

  available-run : minus p.credit_limit p.reserved_amount ≡ ok available
  available-run = minus-ok p.credit_limit p.reserved_amount (sym sound.one_currency)

  compare-run : is_greater_than m available ≡ ok (ltb_ℤ available.minor_units m.minor_units)
  compare-run = is_greater_than-ok m available request-IsHold.in_currency

  -- It is compared with what is available.
  amount_to_hold-run : amount_to_hold p request ≡ (
      throw_if (ltb_ℤ available.minor_units m.minor_units) (insufficient_capacity p.id m available)
      >> ok m)
  unfolding amount_to_hold
  amount_to_hold-run =
      rw (ap is_active active, is_positive-true request.invoice_amount positive)
        (rw converts (rw available-run (rw compare-run)))

  -- For a sound and active program and a request at a valid time, with a positive rate if it
  -- has one, for a positive invoice that converts to m: if m and the reserved amount together
  -- are within the limit, then reserveFor returns a reservation that holds m.
  pub reserve_for_grants :
      (at : ℤ)
      → p.reserved_amount.minor_units +ℤ m.minor_units ≤ℤ p.credit_limit.minor_units
      → request.at ≡ some at
      → (r : Reservation) × ((reserve_for request p).0 ≡ ok r) × (r.reserved_amount ≡ m)
  reserve_for_grants at fits date =
      let granted : IsGranted p request m = record {
        active = active;
        positive = positive;
        held = request-IsHold;
        fits = fits;
      } in
      (
        _,
        runs p request m at sound usable granted (amount_to_hold-run ∙ rw (fits-false _ _ _ fits)) (
            open_reservation-ok (new_reservation p request m) at
              (openable p request m at sound usable granted) date),
        refl,
      )

  -- For a sound and active program and a request, with a positive rate if it has one, for a
  -- positive invoice that converts to m: if m and the reserved amount together are above the
  -- limit, then reserveFor throws InsufficientCapacity with m and what is available, and
  -- leaves the program as it was.
  pub reserve_for_over_limit :
      p.credit_limit.minor_units <ℤ p.reserved_amount.minor_units +ℤ m.minor_units
      → reserve_for request p ≡ (err (insufficient_capacity p.id m available), p)
  unfolding reserve_for
  reserve_for_over_limit over = rw amount_to_hold-run (rw (over-true _ _ _ over))
