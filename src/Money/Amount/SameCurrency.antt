-- ===== src/Money/Amount/SameCurrency.antt =====
-- The operations of `Money` on amounts in one currency.
use program_capacity_invoice.Prelude.{
  ℕ, ◌≡◌, ◌==◌, pos, nat_abs, ltb_ℤ, ◌==ℤ◌, ◌≤ℤ◌, ◌+ℤ◌, ◌-ℤ◌, arith, sym, text_eq_complete,
}
use program_capacity_invoice.Money.Types.{Currency, Money}
use program_capacity_invoice.Money.Amount.{
  from_minor_units, plus, minus, is_greater_than, money_equals,
}
use program_capacity_invoice.Errors.{ok}

module _ (a b : Money) (same : a.currency.code ≡ b.currency.code) where
  pub plus-ok : plus a b ≡ ok (from_minor_units (a.minor_units +ℤ b.minor_units) a.currency)
  plus-ok = rw (text_eq_complete b.currency.code a.currency.code (sym same))

  pub minus-ok : minus a b ≡ ok (from_minor_units (a.minor_units -ℤ b.minor_units) a.currency)
  minus-ok = rw (text_eq_complete b.currency.code a.currency.code (sym same))

  pub is_greater_than-ok : is_greater_than a b ≡ ok (ltb_ℤ b.minor_units a.minor_units)
  is_greater_than-ok =
      rw (text_eq_complete b.currency.code a.currency.code (sym same)) (ground arith)

  pub money_equals-eq : money_equals a b ≡ (b.minor_units ==ℤ a.minor_units)
  money_equals-eq = rw (text_eq_complete a.currency.code b.currency.code same) (ground arith)

-- On amounts that are not negative, equality is that of natural numbers.
pub money_equals-pos :
    (p : ℕ) (c : Currency) (b : Money)
    → c.code ≡ b.currency.code
    → pos 0 ≤ℤ b.minor_units
    → money_equals (from_minor_units (pos p) c) b ≡ (p == nat_abs b.minor_units)
money_equals-pos p c b same h =
    rw (money_equals-eq (from_minor_units (pos p) c) b same) (ground arith)
