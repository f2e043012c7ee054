-- ===== src/Capacity/Mappers/Programs.antt =====
-- persistence/prisma/mappers.ts: a program that is stored comes back as it was, without its events.
use program_capacity_invoice.Prelude.{
  ◌≡◌, refl, sym, ap, ◌∙◌, arith, true, ◌||◌, [], ℤ, pos, false, ltb_ℤ, ◌<ℤ◌, ◌≤ℤ◌,
  text_eq_complete,
}
use program_capacity_invoice.Money.Types.{Money}
use program_capacity_invoice.Errors.{ok}
use program_capacity_invoice.Capacity.Program.State
use program_capacity_invoice.Capacity.Program.State.{Program}
use program_capacity_invoice.Capacity.Program.Guards
use program_capacity_invoice.Capacity.Program.Guards.{is_safe_counter}
use program_capacity_invoice.Capacity.Program.Sound.{IsSound}
use program_capacity_invoice.Capacity.Mappers.{to_program, from_program, to_sequence}
use program_capacity_invoice.Capacity.Mappers.Known.{IsKnown, IsTidy, known_by_code, money_in}

safe_sequence : (n : ℤ) → is_safe_counter n ≡ true → to_sequence n ≡ ok n
safe_sequence n h = ground arith

nonneg_amounts : (a b : ℤ) → pos 0 <ℤ a → pos 0 ≤ℤ b → (ltb_ℤ a (pos 0) || ltb_ℤ b (pos 0)) ≡ false
nonneg_amounts a b h k = ground arith

-- What the checks of `rehydrate` find of a sound program.
rehydrate_sound :
    (p : Program)
    → IsSound p
    → is_safe_counter p.version ≡ true
    → is_safe_counter p.treasury_sequence ≡ true
    → Guards.rehydrate (State.to_snapshot p) ≡ ok (record p { events = [] })
unfolding Guards.rehydrate Guards.assert_consistent
rehydrate_sound p sound version sequence = rw version (
    rw
      (text_eq_complete p.reserved_amount.currency.code p.credit_limit.currency.code
        sound.one_currency)
      (rw
        (nonneg_amounts p.credit_limit.minor_units p.reserved_amount.minor_units
          sound.limit_positive sound.reserved_nonneg)
        (rw sequence refl)))

-- For a sound program whose version and sequence are safe counters, whose id is trimmed and
-- not empty, and whose currencies are the ones that the table has for their codes: toProgram
-- of the row that fromProgram makes passes every consistency check and gives the program back,
-- without its events.
pub to_program-from_program :
    (p : Program)
    → IsSound p
    → is_safe_counter p.version ≡ true
    → is_safe_counter p.treasury_sequence ≡ true
    → IsTidy p.id
    → IsKnown p.credit_limit.currency
    → IsKnown p.reserved_amount.currency
    → to_program (from_program p) ≡ ok (record p { events = [] })
unfolding to_program from_program
to_program-from_program p sound version sequence tidy known reserved_known =
    let same =
      known_by_code p.credit_limit.currency p.reserved_amount.currency known reserved_known
        (sym sound.one_currency) in
    rw known (
      rw tidy (
        rw (safe_sequence p.treasury_sequence sequence) (
          ap
            (λ (m : Money). Guards.rehydrate (record (State.to_snapshot p) { reserved_amount = m }))
            (money_in p.reserved_amount p.credit_limit.currency same)
          ∙ rehydrate_sound p sound version sequence)))
