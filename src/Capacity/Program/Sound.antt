-- ===== src/Capacity/Program/Sound.antt =====
-- The invariant of a program, and what a request is checked for before anything is held.
use program_capacity_invoice.Prelude.{
  ◌≡◌, Option, none, some, ℤ, pos, nat_abs, ◌≤ℤ◌, ◌<ℤ◌, arith, refl, sym, ◌∙◌, text_eq_sound, ap,
  not, subst,
}
use program_capacity_invoice.Money.Types.{currency_equals, Money, ExchangeRate, ceiling}
use program_capacity_invoice.Money.Amount.{from_minor_units}
use program_capacity_invoice.Money.Rate.{convert}
use program_capacity_invoice.Money.Rate.Convert.{hold, IsUsable, convert-ceiling}
use program_capacity_invoice.Errors.{throw_if, ok, ok_injective, >>=-ok}
use program_capacity_invoice.Capacity.Reservation.Sound.{Leads}
use program_capacity_invoice.Capacity.Program.State.{Program}
use program_capacity_invoice.Capacity.Program.Guards.{to_program_currency}

-- The limit is positive, and the amount reserved is not negative and in the same currency. It may
-- be above the limit, since treasury can cut the limit.
pub record IsSound (p : Program) : Type 0 where
  pub limit_positive : pos 0 <ℤ p.credit_limit.minor_units
  pub reserved_nonneg : pos 0 ≤ℤ p.reserved_amount.minor_units
  pub one_currency : p.reserved_amount.currency.code ≡ p.credit_limit.currency.code

-- What a request holds, in the program's currency.
pub record IsHold (p : Program) (amount : Money) (rate : Option ExchangeRate) (m : Money)
    : Type 0 where
  pub units : m.minor_units ≡ pos (hold rate (nat_abs amount.minor_units))
  pub leads : Leads rate amount.currency m.currency
  pub in_currency : m.currency.code ≡ p.credit_limit.currency.code

nonneg_units : (x : ℤ) → pos 0 <ℤ x → x ≡ pos (nat_abs x)
nonneg_units x h = ground arith

-- `convert` takes an amount in the rate's source currency only.
convert_source :
    (r : ExchangeRate) (a m : Money) → convert r a ceiling ≡ ok m → a.currency.code ≡ r.from.code
unfolding convert
convert_source r a m e = sym (ground (arith, text_eq_sound r.from.code a.currency.code))

ceiling_of :
    (r : ExchangeRate) (a : Money)
    → pos 0 <ℤ a.minor_units
    → pos 0 <ℤ r.scaled_rate
    → a.currency.code ≡ r.from.code
    → convert r a ceiling ≡ ok (from_minor_units (pos (hold (some r) (nat_abs a.minor_units))) r.to)
unfolding hold
ceiling_of r a h u from =
    ap (λ (x : ℤ). convert r (from_minor_units x a.currency) ceiling) (nonneg_units a.minor_units h)
    ∙ convert-ceiling r (nat_abs a.minor_units) a.currency from u

unconverted-IsHold :
    (p : Program) (a m : Money)
    → pos 0 <ℤ a.minor_units
    → to_program_currency p a none ≡ ok m
    → IsHold p a none m
unfolding to_program_currency hold
unconverted-IsHold p a m h e =
    let same = text_eq_sound p.credit_limit.currency.code a.currency.code in
    record { units = ground arith; leads = ground arith; in_currency = ground (arith, same) }

converted-IsHold :
    (p : Program) (a m : Money) (r : ExchangeRate)
    → pos 0 <ℤ a.minor_units
    → pos 0 <ℤ r.scaled_rate
    → to_program_currency p a (some r) ≡ ok m
    → IsHold p a (some r) m
unfolding to_program_currency hold
converted-IsHold p a m r h u e =
    let (_, target, run) =
      >>=-ok (throw_if (not (currency_equals r.to p.credit_limit.currency)) _) _ e in
    let from = convert_source r a m run in
    subst (IsHold p a (some r)) (ok_injective (sym (ceiling_of r a h u from) ∙ run)) (record {
      units = refl;
      leads = (sym from, refl);
      in_currency = ground (arith, text_eq_sound p.credit_limit.currency.code r.to.code);
    })

-- An amount that `toProgramCurrency` converts is what the invariant of reservations asks to be held.
pub to_program_currency-IsHold :
    (p : Program) (a m : Money) (rate : Option ExchangeRate)
    → pos 0 <ℤ a.minor_units
    → IsUsable rate
    → to_program_currency p a rate ≡ ok m
    → IsHold p a rate m
to_program_currency-IsHold p a m none h u e = unconverted-IsHold p a m h e
to_program_currency-IsHold p a m (some r) h u e = converted-IsHold p a m r h u e
