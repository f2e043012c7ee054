-- ===== src/Money/Decimal/Digits.antt =====
-- The digits that `toString` writes, and reading them back.
use native.Mathlib.Nat.{pow-suc}
use program_capacity_invoice.Prelude.{
  ℕ, zero, suc, ◌+◌, ◌-◌, ◌*◌, ◌/◌, ◌%◌, ◌^◌, ◌<◌, ◌≤◌, ◌≡◌, refl, ◌∙◌, true, [], ◌∷◌, ◌++◌, ltb,
  Text, length, replicate, is_digit, arith, Bool-cases, inl, inr, ap, length-append,
}
use program_capacity_invoice.Money.Decimal.{read_digits, span_digits, digits_fuel, to_string}

-- Every code unit is a decimal digit.
abbrev pub AllDigits : Text → Type 0
AllDigits [] = Unit
AllDigits (c ∷ s) = (is_digit c ≡ true) × AllDigits s

pub AllDigits-append : (s t : Text) → AllDigits s → AllDigits t → AllDigits (s ++ t)
AllDigits-append [] t hs ht = ht
AllDigits-append (c ∷ s) t hs ht = (hs.0, AllDigits-append s t hs.1 ht)

pub AllDigits-replicate : (n : ℕ) → AllDigits (replicate n b'0')
unfolding is_digit
AllDigits-replicate zero = tt
AllDigits-replicate (suc n) = (refl, AllDigits-replicate n)

pub read_digits-append :
    (acc : ℕ) (s t : Text) → read_digits acc (s ++ t) ≡ read_digits (read_digits acc s) t
unfolding read_digits
read_digits-append acc [] t = refl
read_digits-append acc (c ∷ s) t = read_digits-append (acc * 10 + (c - b'0')) s t

digit_code : (d : ℕ) → d < 10 → is_digit (b'0' + d) ≡ true
unfolding is_digit
digit_code d h = ground arith

digits_fuel-AllDigits : (f n : ℕ) → AllDigits (digits_fuel f n)
unfolding digits_fuel
digits_fuel-AllDigits zero n = tt
digits_fuel-AllDigits (suc f) n = elim (Bool-cases (ltb n 10)) [
  | inl one ↦ rw one (digit_code n (ground arith), tt)
  | inr more ↦ rw more (
      AllDigits-append (digits_fuel f (n / 10)) _ (digits_fuel-AllDigits f (n / 10))
        (digit_code (n % 10) (omega arith), tt))
]

read_digits-digits_fuel : (f n : ℕ) → n < f → read_digits 0 (digits_fuel f n) ≡ n
unfolding digits_fuel read_digits
read_digits-digits_fuel zero n h = absurd (omega arith)
read_digits-digits_fuel (suc f) n h = elim (Bool-cases (ltb n 10)) [
  | inl one ↦ rw one (omega arith)
  | inr more ↦ rw more (
      rw (read_digits-append 0 (digits_fuel f (n / 10))) (
        rw (read_digits-digits_fuel f (n / 10) (ground arith)) (unfold read_digits in omega arith)))
]

lt→ltb : (a b : ℕ) → a < b → ltb a b ≡ true
lt→ltb a b h = ground arith

cons_of_length : (s : Text) → 0 < length s → (d : ℕ) × (t : Text) × (s ≡ d ∷ t)
cons_of_length [] h = absurd (omega arith)
cons_of_length (d ∷ t) h = (d, t, refl)

-- A number below 10 ^ k has at most k digits, and every number has one.
length-digits_fuel :
    (f n k : ℕ)
    → n < f
    → n < 10 ^ suc k
    → (0 < length (digits_fuel f n)) × (length (digits_fuel f n) ≤ suc k)
unfolding digits_fuel
length-digits_fuel zero n k h lt = absurd (omega arith)
length-digits_fuel (suc f) n zero h lt = rw (lt→ltb n 10 (omega arith)) (omega arith, omega arith)
length-digits_fuel (suc f) n (suc k) h lt = elim (Bool-cases (ltb n 10)) [
  | inl one ↦ rw one (omega arith, omega arith)
  | inr more ↦
      let shorter =
        length-digits_fuel f (n / 10) k (ground arith) (omega (arith, pow-suc 10 (suc k))) in
      rw more (
        rw (length-append (digits_fuel f (n / 10)))
          (omega (arith, shorter), omega (arith, shorter)))
]

-- The digits of a number read back as the number.
pub read_digits-to_string : (n : ℕ) → read_digits 0 (to_string n) ≡ n
unfolding to_string
read_digits-to_string n = read_digits-digits_fuel (n + 1) n (omega arith)

pub to_string-AllDigits : (n : ℕ) → AllDigits (to_string n)
unfolding to_string
to_string-AllDigits n = digits_fuel-AllDigits (n + 1) n

pub length-to_string :
    (n k : ℕ) → n < 10 ^ suc k → (0 < length (to_string n)) × (length (to_string n) ≤ suc k)
unfolding to_string
length-to_string n k h = length-digits_fuel (n + 1) n k (omega arith) h

lt_power : (n : ℕ) → n < 10 ^ n
lt_power zero = omega arith
lt_power (suc n) = rw (pow-suc 10 n) (omega (arith, lt_power n))

pub to_string_nonempty : (n : ℕ) → (d : ℕ) × (s : Text) × (to_string n ≡ d ∷ s)
to_string_nonempty n =
    cons_of_length (to_string n)
      (length-to_string n n (rw (pow-suc 10 n) (omega (arith, lt_power n)))).0

pub read_digits-from :
    (acc : ℕ) (s : Text) → read_digits acc s ≡ acc * 10 ^ length s + read_digits 0 s
unfolding read_digits
read_digits-from acc [] = omega arith
read_digits-from acc (c ∷ s) =
    read_digits-from (acc * 10 + (c - b'0')) s
    ∙ omega (
      arith,
      read_digits-from (0 + (c - b'0')) s,
      pow-suc 10 (length s),
      ap (λ (t : ℕ). acc * t) (pow-suc 10 (length s)),
    )

pub read_digits-replicate :
    (n : ℕ) (s : Text) → read_digits 0 (replicate n b'0' ++ s) ≡ read_digits 0 s
unfolding read_digits
read_digits-replicate zero s = refl
read_digits-replicate (suc n) s = read_digits-replicate n s

-- Digits, followed by something that is no digit, are split off as they stand.
pub span_digits-append :
    (s t : Text) → AllDigits s → span_digits t ≡ ([], t) → span_digits (s ++ t) ≡ (s, t)
unfolding span_digits
span_digits-append [] t hs ht = ht
span_digits-append (c ∷ s) t hs ht = rw (span_digits-append s t hs.1 ht) (rw hs.0)
