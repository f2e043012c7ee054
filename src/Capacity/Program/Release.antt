-- ===== src/Capacity/Program/Release.antt =====
-- `release`: what a repayment that is accepted does to the program and the reservation.
use program_capacity_invoice.Prelude.{
  ◌≡◌, [], ◌∷◌, ◌++◌, ℤ, pos, ◌≤ℤ◌, ◌-ℤ◌, arith, refl, inl, inr, sym, ◌∙◌, text_eq_sound, -ℤ_parts,
}
use program_capacity_invoice.Money.Types.{Money}
use program_capacity_invoice.Money.Amount.{from_minor_units, minus}
use program_capacity_invoice.Money.Amount.SameCurrency.{minus-ok}
use program_capacity_invoice.Errors.{Result, ok, err, Result-cases}
use program_capacity_invoice.Capacity.Events.{capacity_released}
use program_capacity_invoice.Capacity.Reservation.{Reservation, record_repayment, is_released}
use program_capacity_invoice.Capacity.Reservation.Sound
use program_capacity_invoice.Capacity.Reservation.Repay.{IsRepaid}
use program_capacity_invoice.Capacity.Reservation.Instalments.{accepted-IsRepaid}
use program_capacity_invoice.Capacity.Reservation.Restore.{released_within}
use program_capacity_invoice.Capacity.Program.{Holding, release, later_date}
use program_capacity_invoice.Capacity.Program.State.{Program, ApplyRepayment}
use program_capacity_invoice.Capacity.Program.Guards.{check_release, amount_or_outstanding}
use program_capacity_invoice.Capacity.Program.Sound.{IsSound}

module _ (p : Program) (r : Reservation) (e : check_release p r ≡ ok tt) where
  checked_program : r.program_id.value ≡ p.id.value
  unfolding check_release
  checked_program = sym (ground (arith, text_eq_sound p.id.value r.program_id.value))

  checked_currency : p.reserved_amount.currency.code ≡ r.reserved_amount.currency.code
  unfolding check_release
  checked_currency =
      ground (arith, text_eq_sound p.reserved_amount.currency.code r.reserved_amount.currency.code)

  checked_counter :
      r.reserved_amount.minor_units -ℤ r.released_amount.minor_units
      ≤ℤ p.reserved_amount.minor_units
  unfolding check_release
  checked_counter = ground arith

-- What a repayment that is accepted does.
pub record IsReleased (h : Holding) (repayment : ApplyRepayment) (released : Money) (h' : Holding)
    : Type 0 where
  pub amount : Money
  pub this_amount : amount_or_outstanding repayment.amount h.reservation ≡ ok amount
  pub own_program : h.reservation.program_id.value ≡ h.program.id.value
  pub repaid' : IsRepaid h.reservation amount released h'.reservation
  pub counter :
      h'.program.reserved_amount.minor_units
      ≡ h.program.reserved_amount.minor_units -ℤ released.minor_units
  pub sound_program : IsSound h'.program
  pub only_counter : h'.program ≡ record h.program {
    reserved_amount = h'.program.reserved_amount;
    events = h'.program.events;
  }
  pub one_event :
      (available : Money) × (h'.program.events
        ≡ h.program.events
          ++ capacity_released (record {
            aggregate_id = h.program.id.value;
            occurred_at = later_date repayment.at h.reservation.reserved_at;
            reservation_id = h'.reservation.id;
            invoice_id = h'.reservation.invoice_id;
            repayment_id = repayment.repayment_id;
            repaid_amount = amount;
            released_amount = released;
            reservation_fully_released = is_released h'.reservation;
            available_after = available;
          })
            ∷ [])
      × (available.minor_units
          ≡ h'.program.credit_limit.minor_units -ℤ h'.program.reserved_amount.minor_units)

-- A repayment is applied as said, or refused with both left as they were.
abbrev pub Releases : Holding → ApplyRepayment → Result Money × Holding → Type 0
Releases h repayment (ok released, h') = IsReleased h repayment released h'
Releases h repayment (err _, h') = h' ≡ h

stays_nonneg :
    (total reserved freed freed' : ℤ)
    → reserved -ℤ freed ≤ℤ total
    → freed' ≤ℤ reserved
    → pos 0 ≤ℤ total -ℤ (freed' -ℤ freed)
stays_nonneg total reserved freed freed' h k =
    omega (arith, -ℤ_parts reserved freed, -ℤ_parts total (freed' -ℤ freed), -ℤ_parts freed' freed)

module _ (h : Holding) (repayment : ApplyRepayment) (amount released : Money) (r' : Reservation)
    (sound : IsSound h.program) (checked : check_release h.program h.reservation ≡ ok tt)
    (this : amount_or_outstanding repayment.amount h.reservation ≡ ok amount)
    (run : record_repayment h.reservation amount (later_date repayment.at h.reservation.reserved_at)
      ≡ ok (released, r'))
    (by : IsRepaid h.reservation amount released r') where
  abbrev lowered : Money
  lowered =
      from_minor_units (h.program.reserved_amount.minor_units -ℤ released.minor_units)
        h.program.reserved_amount.currency

  minus-released : minus h.program.reserved_amount released ≡ ok lowered
  minus-released =
      minus-ok h.program.reserved_amount released
        (checked_currency h.program h.reservation checked ∙ sym by.freed_currency)

  abbrev left_after : Money
  left_after =
      from_minor_units (h.program.credit_limit.minor_units -ℤ lowered.minor_units)
        h.program.credit_limit.currency

  minus-lowered : minus h.program.credit_limit lowered ≡ ok left_after
  minus-lowered = minus-ok h.program.credit_limit lowered (sym sound.one_currency)

  lowered_nonneg : pos 0 ≤ℤ lowered.minor_units
  lowered_nonneg = rw by.freed_now (
      stays_nonneg h.program.reserved_amount.minor_units h.reservation.reserved_amount.minor_units
        h.reservation.released_amount.minor_units r'.released_amount.minor_units
        (checked_counter h.program h.reservation checked)
        (rw (← by.same_hold) (released_within r' by.sound')))

  Releases-recorded : Releases h repayment (release repayment h)
  unfolding release
  Releases-recorded =
      rw (checked, this, run, minus-released, minus-lowered)
        (record {
          amount = amount;
          this_amount = this;
          own_program = checked_program h.program h.reservation checked;
          repaid' = by;
          counter = refl;
          sound_program = record {
            limit_positive = sound.limit_positive;
            reserved_nonneg = lowered_nonneg;
            one_currency = sound.one_currency;
          };
          only_counter = refl;
          one_event = (left_after, refl, refl);
        })

-- For a sound program and a sound reservation: release either throws and leaves both as they
-- were, or the reservation is one of this program, the amount, or what is outstanding without
-- one, is recorded as repaid on it as IsRepaid says, the reserved amount has fallen by the
-- capacity freed, nothing else of the program changed but its events, one CapacityReleased
-- with the amounts, the later of the two times and whether the reservation is released was
-- raised after the earlier events, and the program is sound.
pub release_lem :
    (h : Holding) (repayment : ApplyRepayment)
    → IsSound h.program
    → Sound.IsSound h.reservation
    → Releases h repayment (release repayment h)
release_lem h repayment sound sound_r =
    elim (Result-cases (check_release h.program h.reservation)) [
      | inr (x, e) ↦ unfold release in rw e refl
      | inl (_, checked) ↦
          elim (Result-cases (amount_or_outstanding repayment.amount h.reservation)) [
            | inr (x, e) ↦ unfold release in rw (checked, e) refl
            | inl (amount, this) ↦
                let at = later_date repayment.at h.reservation.reserved_at in
                elim (Result-cases (record_repayment h.reservation amount at)) [
                  | inr (x, e) ↦ unfold release in rw (checked, this, e) refl
                  | inl (y, run) ↦
                      Releases-recorded h repayment amount y.0 y.1 sound checked this run
                        (accepted-IsRepaid h.reservation amount at y sound_r run)
                ]
          ]
    ]
