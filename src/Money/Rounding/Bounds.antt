-- ===== src/Money/Rounding/Bounds.antt =====
-- What `divideWithRounding` returns, for numerators of both signs.
use program_capacity_invoice.Prelude.{
  ◌==◌, if◌then◌else◌, ap, +ℤ_parts, -ℤ_parts, ℕ, suc, ◌+◌, ◌*◌, ◌/◌, ◌%◌, ◌<◌, ◌≡◌, arith, ℤ, pos,
  negsuc, ◌+ℤ◌, ◌-ℤ◌, ◌*ℤ◌, ◌≤ℤ◌, ◌<ℤ◌, tdiv, tmod, pos_part, neg_part, pos_part-*ℤ, neg_part-*ℤ,
}
use native.Mathlib.Nat.{div-add-mod}
use program_capacity_invoice.Money.Types.{RoundingMode, ceiling, floor}
use program_capacity_invoice.Errors.{ok}
use program_capacity_invoice.Money.Rounding.{divide_with_rounding, adjust}

-- The truncated quotient and its remainder make up the numerator, and the remainder is smaller
-- than the divisor, with the sign of the numerator.
tdiv-tmod :
    (n : ℤ) (d : ℕ)
    → 0 < d
    → (pos_part (tdiv n (pos d)) * d + pos_part (tmod n (pos d)) + neg_part n
        ≡ neg_part (tdiv n (pos d)) * d + neg_part (tmod n (pos d)) + pos_part n)
      × (pos_part (tmod n (pos d)) < d)
      × (neg_part (tmod n (pos d)) < d)
unfolding tdiv tmod
tdiv-tmod (pos m) d h = (omega (arith, div-add-mod m d), omega arith, omega arith)
tdiv-tmod (negsuc m) d h = ground (arith, div-add-mod (suc m) d)

parts-*ℤ-pos :
    (q : ℤ) (d : ℕ)
    → (pos_part (q *ℤ pos d) ≡ pos_part q * d) × (neg_part (q *ℤ pos d) ≡ neg_part q * d)
parts-*ℤ-pos q d = (rw pos_part-*ℤ (omega arith), rw neg_part-*ℤ (omega arith))

plus_one_scaled :
    (q : ℤ) (d : ℕ)
    → pos_part ((q +ℤ pos 1) *ℤ pos d) + neg_part (q *ℤ pos d)
      ≡ neg_part ((q +ℤ pos 1) *ℤ pos d) + pos_part (q *ℤ pos d) + d
plus_one_scaled q d = omega (
  arith,
  parts-*ℤ-pos q d,
  parts-*ℤ-pos (q +ℤ pos 1) d,
  ap (λ (t : ℕ). t * d) (+ℤ_parts q (pos 1)),
)

minus_one_scaled :
    (q : ℤ) (d : ℕ)
    → pos_part ((q -ℤ pos 1) *ℤ pos d) + neg_part (q *ℤ pos d) + d
      ≡ neg_part ((q -ℤ pos 1) *ℤ pos d) + pos_part (q *ℤ pos d)
minus_one_scaled q d = omega (
  arith,
  parts-*ℤ-pos q d,
  parts-*ℤ-pos (q -ℤ pos 1) d,
  ap (λ (t : ℕ). t * d) (-ℤ_parts q (pos 1)),
)

module _ (n q r : ℤ) (d : ℕ)
    (e : pos_part q * d + pos_part r + neg_part n ≡ neg_part q * d + neg_part r + pos_part n)
    (below : pos_part r < d) (below' : neg_part r < d) where
  adjust_floor : (adjust floor q r *ℤ pos d ≤ℤ n) × (n <ℤ (adjust floor q r +ℤ pos 1) *ℤ pos d)
  unfolding adjust
  adjust_floor = ground (
    arith,
    parts-*ℤ-pos q d,
    plus_one_scaled q d,
    minus_one_scaled q d,
    plus_one_scaled (q -ℤ pos 1) d,
  )

  adjust_ceiling :
      (n ≤ℤ adjust ceiling q r *ℤ pos d) × ((adjust ceiling q r -ℤ pos 1) *ℤ pos d <ℤ n)
  unfolding adjust
  adjust_ceiling = ground (
    arith,
    parts-*ℤ-pos q d,
    plus_one_scaled q d,
    minus_one_scaled q d,
    minus_one_scaled (q +ℤ pos 1) d,
  )

divide_with_rounding-adjust :
    (n : ℤ) (d : ℕ) (mode : RoundingMode)
    → 0 < d
    → divide_with_rounding n (pos d) mode ≡ ok (adjust mode (tdiv n (pos d)) (tmod n (pos d)))
unfolding divide_with_rounding
divide_with_rounding-adjust n d ceiling h = ground arith
divide_with_rounding-adjust n d floor h = ground arith

-- For every numerator, of either sign, and every positive divisor d, FLOOR returns the whole
-- number q with q * d not above the numerator and (q + 1) * d above it.
pub divide_with_rounding-floor :
    (n : ℤ) (d : ℕ)
    → 0 < d
    → (q : ℤ) × (divide_with_rounding n (pos d) floor ≡ ok q)
      × (q *ℤ pos d ≤ℤ n)
      × (n <ℤ (q +ℤ pos 1) *ℤ pos d)
divide_with_rounding-floor n d h =
    let (e, below, below') = tdiv-tmod n d h in
    let (lo, hi) = adjust_floor n (tdiv n (pos d)) (tmod n (pos d)) d e below below' in
    (_, divide_with_rounding-adjust n d floor h, lo, hi)

-- For every numerator, of either sign, and every positive divisor d, CEILING returns the whole
-- number q with q * d not below the numerator and (q - 1) * d below it.
pub divide_with_rounding-ceiling :
    (n : ℤ) (d : ℕ)
    → 0 < d
    → (q : ℤ) × (divide_with_rounding n (pos d) ceiling ≡ ok q)
      × (n ≤ℤ q *ℤ pos d)
      × ((q -ℤ pos 1) *ℤ pos d <ℤ n)
divide_with_rounding-ceiling n d h =
    let (e, below, below') = tdiv-tmod n d h in
    let (lo, hi) = adjust_ceiling n (tdiv n (pos d)) (tmod n (pos d)) d e below below' in
    (_, divide_with_rounding-adjust n d ceiling h, lo, hi)

-- On a numerator that is not negative the two modes are divisions of natural numbers.
pub divide_floor-pos :
    (n d : ℕ) → 0 < d → divide_with_rounding (pos n) (pos d) floor ≡ ok (pos (n / d))
unfolding divide_with_rounding tdiv tmod
divide_floor-pos n d h = ground arith

abbrev pub ceil_div : ℕ → ℕ → ℕ
ceil_div n d = if n % d == 0 then n / d else n / d + 1

pub divide_ceiling-pos :
    (n d : ℕ) → 0 < d → divide_with_rounding (pos n) (pos d) ceiling ≡ ok (pos (ceil_div n d))
unfolding divide_with_rounding tdiv tmod ◌+ℤ◌
divide_ceiling-pos n d h = ground arith
