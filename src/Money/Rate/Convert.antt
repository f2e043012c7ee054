-- ===== src/Money/Rate/Convert.antt =====
-- Converting amounts that are not negative.
use native.Mathlib.Nat.{
  pow-suc, mul_assoc, le_trans, le-div_iff_mul-le, mul-div-le, mul-le-mul, mul-le-mul_right,
  div-add-mod,
}
use program_capacity_invoice.Prelude.{
  ℕ, ◌*◌, ◌/◌, ◌≤◌, ◌<◌, ◌≡◌, ◌^◌, zero, suc, sym, ap, negsuc, Option, none, some, arith, ℤ, pos,
  nat_abs, ◌*ℤ◌, ◌<ℤ◌, text_eq_complete,
}
use program_capacity_invoice.Money.Types.{
  Currency, ExchangeRate, ceiling, floor, minor_units_per_unit,
}
use program_capacity_invoice.Money.Rounding.Bounds.{ceil_div, divide_floor-pos, divide_ceiling-pos}
use program_capacity_invoice.Money.Amount.{from_minor_units}
use program_capacity_invoice.Money.Rate.{convert, rate_scale}
use program_capacity_invoice.Errors.{ok}

-- The factors of a conversion, as natural numbers.
unfoldable pub multiplier : ExchangeRate → ℕ
multiplier r = nat_abs r.scaled_rate * minor_units_per_unit r.to

unfoldable pub divider : ExchangeRate → ℕ
divider r = rate_scale * minor_units_per_unit r.from

product_of : (n : ℕ) (s : ℤ) (u : ℕ) → pos 0 <ℤ s → pos n *ℤ s *ℤ pos u ≡ pos (n * (nat_abs s * u))
unfolding ◌*ℤ◌
product_of n (pos s) u h = ap pos (mul_assoc n s u)
product_of n (negsuc s) u h = absurd (omega arith)

pub power_pos : (k : ℕ) → 0 < 10 ^ k
power_pos zero = omega arith
power_pos (suc k) = rw (pow-suc 10 k) (omega (arith, power_pos k))

pub divider_pos : (r : ExchangeRate) → 0 < divider r
unfolding divider
divider_pos r = omega (arith, power_pos r.from.minor_unit_digits)

-- An amount in the rate's source currency, that is not negative, at a positive rate.
module _ (r : ExchangeRate) (n : ℕ) (c : Currency) (same : c.code ≡ r.from.code)
    (positive : pos 0 <ℤ r.scaled_rate) where
  -- FLOOR divides and drops the remainder.
  pub convert-floor :
      convert r (from_minor_units (pos n) c) floor
      ≡ ok (from_minor_units (pos (n * multiplier r / divider r)) r.to)
  unfolding convert multiplier divider
  convert-floor = rw (text_eq_complete r.from.code c.code (sym same)) (
      rw (product_of n r.scaled_rate (minor_units_per_unit r.to) positive)
        (rw (divide_floor-pos (n * multiplier r) (divider r) (divider_pos r))))

  -- CEILING divides and rounds up.
  pub convert-ceiling :
      convert r (from_minor_units (pos n) c) ceiling
      ≡ ok (from_minor_units (pos (ceil_div (n * multiplier r) (divider r))) r.to)
  unfolding convert multiplier divider
  convert-ceiling = rw (text_eq_complete r.from.code c.code (sym same)) (
      rw (product_of n r.scaled_rate (minor_units_per_unit r.to) positive)
        (rw (divide_ceiling-pos (n * multiplier r) (divider r) (divider_pos r))))

nat_abs_pos : (s : ℤ) → pos 0 <ℤ s → 0 < nat_abs s
nat_abs_pos s h = ground arith

div-le-ceil_div : (n d : ℕ) → n / d ≤ ceil_div n d
div-le-ceil_div n d = ground arith

-- A rate is positive, as `ExchangeRate.of` makes it.
abbrev pub IsUsable : Option ExchangeRate → Type 0
IsUsable none = Unit {0}
IsUsable (some r) = pos 0 <ℤ r.scaled_rate

-- What an amount of n holds under a rate, and what n repaid frees, in minor units of the target.
unfoldable pub hold : Option ExchangeRate → ℕ → ℕ
hold none n = n
hold (some r) n = ceil_div (n * multiplier r) (divider r)

unfoldable pub converted : Option ExchangeRate → ℕ → ℕ
converted none n = n
converted (some r) n = n * multiplier r / divider r

div_mono : (a b d : ℕ) → 0 < d → a ≤ b → a / d ≤ b / d
div_mono a b d pos_d h = (le-div_iff_mul-le pos_d).1 (omega (arith, mul-div-le a d))

-- A greater repayment frees no less.
pub converted_mono :
    (rate : Option ExchangeRate) (p q : ℕ) → p ≤ q → converted rate p ≤ converted rate q
unfolding converted
converted_mono none p q h = h
converted_mono (some r) p q h =
    div_mono (p * multiplier r) (q * multiplier r) (divider r) (divider_pos r)
      (mul-le-mul_right (multiplier r) h)

-- What is freed before the end is never more than was held.
pub converted-le-hold :
    (rate : Option ExchangeRate) (p n : ℕ) → p ≤ n → converted rate p ≤ hold rate n
unfolding converted hold
converted-le-hold none p n h = h
converted-le-hold (some r) p n h =
    le_trans (converted_mono (some r) p n h) (div-le-ceil_div (n * multiplier r) (divider r))

-- The factor of a positive rate is positive.
pub multiplier_pos : (r : ExchangeRate) → pos 0 <ℤ r.scaled_rate → 0 < multiplier r
unfolding multiplier
multiplier_pos r h =
    mul-le-mul {n₁ = 1} {m₁ = 1} (nat_abs_pos r.scaled_rate h) (power_pos r.to.minor_unit_digits)

pub ceil_div_pos : (n d : ℕ) → 0 < n → 0 < d → 0 < ceil_div n d
ceil_div_pos n d h h' = ground (arith, div-add-mod n d, ap (λ (t : ℕ). d * t) {x = n / d} {y = 0})

-- A positive amount holds something.
pub hold_pos : (rate : Option ExchangeRate) (n : ℕ) → 0 < n → IsUsable rate → 0 < hold rate n
unfolding hold
hold_pos none n h u = h
hold_pos (some r) n h u =
    ceil_div_pos (n * multiplier r) (divider r)
      (mul-le-mul {n₁ = 1} {m₁ = 1} h (multiplier_pos r u)) (divider_pos r)
