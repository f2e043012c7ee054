-- ===== src/Money/Rounding.antt =====
-- src/shared/money/rounding.ts
pub mod Bounds
use program_capacity_invoice.Prelude.{
  ℤ, pos, ◌+ℤ◌, ◌-ℤ◌, tdiv, tmod, leb_ℤ, ltb_ℤ, ◌==ℤ◌, if◌then◌else◌,
}
use program_capacity_invoice.Money.Types.{RoundingMode, ceiling, floor}
use program_capacity_invoice.Errors.{Result, ok, err, invalid_divisor}

-- the last lines of `divideWithRounding`, on the quotient and the remainder
unfoldable pub adjust : RoundingMode → ℤ → ℤ → ℤ
adjust ceiling quotient remainder = if ltb_ℤ (pos 0) remainder then quotient +ℤ pos 1 else quotient
adjust floor quotient remainder = if ltb_ℤ remainder (pos 0) then quotient -ℤ pos 1 else quotient

unfoldable pub divide_with_rounding : ℤ → ℤ → RoundingMode → Result ℤ
unfolding adjust
divide_with_rounding numerator divisor mode =
    if leb_ℤ divisor (pos 0)
    then err invalid_divisor
    else let quotient = tdiv numerator divisor in
      let remainder = tmod numerator divisor in
      if remainder ==ℤ pos 0 then ok quotient else ok (adjust mode quotient remainder)
