-- ===== src/Money/Decimal/RoundTrip.antt =====
-- Parsing what was printed of a scaled integer.
use mathlib.Core.List.{append-nil}
use native.Mathlib.Nat.{pow-suc, div-add-mod', mod-lt}
use program_capacity_invoice.Prelude.{
  ℕ, zero, suc, ◌-◌, ◌/◌, ◌%◌, ◌^◌, ◌<◌, ◌≡◌, refl, ◌∙◌, Bool, true, false, [], ◌∷◌, ◌++◌, ltb,
  if◌then◌else◌, Text, length, replicate, is_digit, is_space, arith, length-append,
  length-replicate, some, ℤ, pos, negsuc, neg_ℤ, nat_abs, ltb_ℤ,
}
use program_capacity_invoice.Prelude.Plain.{AllPlain, AllPlain-append, trim-AllPlain}
use program_capacity_invoice.Money.Decimal.{
  DecimalMatch, parsed, read_digits, span_digits, to_string, match_fraction, match_end, match_whole,
  match_decimal, scale_match, pad_start, parse_scaled_decimal, format_scaled_decimal,
}
use program_capacity_invoice.Money.Decimal.Digits.{
  AllDigits, AllDigits-append, AllDigits-replicate, read_digits-to_string, to_string-AllDigits,
  length-to_string, to_string_nonempty, read_digits-append, read_digits-from, read_digits-replicate,
  span_digits-append,
}

digit_plain : (c : ℕ) → is_digit c ≡ true → is_space c ≡ false
unfolding is_digit is_space
digit_plain c h = ground arith

AllDigits-AllPlain : (s : Text) → AllDigits s → AllPlain s
AllDigits-AllPlain [] h = tt
AllDigits-AllPlain (c ∷ s) h = (digit_plain c h.0, AllDigits-AllPlain s h.1)

-- Digits that do not start with a sign are matched without one.
match_unsigned :
    (s t : Text) → AllDigits s → 0 < length s → match_decimal (s ++ t) ≡ match_whole false (s ++ t)
unfolding match_decimal is_digit
match_unsigned [] t hs h = absurd (omega arith)
match_unsigned (c ∷ s) t hs h = ground arith

match_signed : (s : Text) → match_decimal (b'-' ∷ s) ≡ match_whole true s
unfolding match_decimal
match_signed s = refl

span_digits-all : (s : Text) → AllDigits s → span_digits s ≡ (s, [])
unfolding span_digits
span_digits-all [] hs = refl
span_digits-all (c ∷ s) hs = rw (span_digits-all s hs.1) (rw hs.0)

span_digits-point : (t : Text) → span_digits (b'.' ∷ t) ≡ ([], b'.' ∷ t)
unfolding span_digits is_digit
span_digits-point t = refl

match_whole_number :
    (sign : Bool) (s : Text)
    → AllDigits s
    → 0 < length s
    → match_whole sign s ≡ some (record { sign = sign; whole = s; fraction = [] })
unfolding match_whole match_fraction
match_whole_number sign [] hs h = absurd (omega arith)
match_whole_number sign (c ∷ s) hs h = rw (span_digits-all (c ∷ s) hs)

match_with_fraction :
    (sign : Bool) (s t : Text)
    → AllDigits s
    → 0 < length s
    → AllDigits t
    → 0 < length t
    → match_whole sign (s ++ b'.' ∷ t) ≡ some (record { sign = sign; whole = s; fraction = t })
unfolding match_whole match_fraction match_end
match_with_fraction sign [] t hs h ht h' = absurd (omega arith)
match_with_fraction sign (c ∷ s) [] hs h ht h' = absurd (omega arith)
match_with_fraction sign (c ∷ s) (d ∷ t) hs h ht h' =
    rw (span_digits-append (c ∷ s) (b'.' ∷ d ∷ t) hs (span_digits-point (d ∷ t)))
      (rw (span_digits-all (d ∷ t) ht))

-- The fraction of `format_scaled_decimal` has exactly `scale` digits.
abbrev fraction_of : ℕ → ℕ → Text
fraction_of a k = pad_start (to_string (a % 10 ^ suc k)) (suc k)

power_pos : (k : ℕ) → 0 < 10 ^ k
power_pos zero = omega arith
power_pos (suc k) = rw (pow-suc 10 k) (omega (arith, power_pos k))

length-fraction_of : (a k : ℕ) → length (fraction_of a k) ≡ suc k
length-fraction_of a k =
    let short = length-to_string (a % 10 ^ suc k) k (mod-lt a (power_pos (suc k))) in
    rw (length-append {A = ℕ} (replicate (suc k - length (to_string (a % 10 ^ suc k))) b'0'))
      (rw length-replicate (omega (arith, short)))

fraction_of-AllDigits : (a k : ℕ) → AllDigits (fraction_of a k)
fraction_of-AllDigits a k =
    AllDigits-append (replicate (suc k - length (to_string (a % 10 ^ suc k))) b'0') _
      (AllDigits-replicate _) (to_string-AllDigits _)

-- The whole part followed by the fraction reads as the number that was printed.
read_digits-parts : (a k : ℕ) → read_digits 0 (to_string (a / 10 ^ suc k) ++ fraction_of a k) ≡ a
read_digits-parts a k =
    read_digits-append 0 (to_string (a / 10 ^ suc k)) (fraction_of a k)
    ∙ rw (read_digits-to_string (a / 10 ^ suc k)) (
        rw (read_digits-from (a / 10 ^ suc k) (fraction_of a k)) (
          rw (length-fraction_of a k) (
            rw (read_digits-replicate (suc k - length (to_string (a % 10 ^ suc k))))
              (rw read_digits-to_string (div-add-mod' a (10 ^ suc k))))))

with_sign : (x : ℤ) → (if ltb_ℤ x (pos 0) then neg_ℤ (pos (nat_abs x)) else pos (nat_abs x)) ≡ x
with_sign (pos n) = ground arith
with_sign (negsuc n) = ground arith

-- The digits and the point, without the sign.
abbrev body : ℕ → ℕ → Text
body a zero = to_string a
body a (suc k) = to_string (a / 10 ^ suc k) ++ b'.' ∷ fraction_of a k

nonempty : (n : ℕ) → 0 < length (to_string n)
nonempty n = rw ((to_string_nonempty n).2) (omega arith)

point_plain : is_space b'.' ≡ false
unfolding is_space
point_plain = refl

body-AllPlain : (a k : ℕ) → AllPlain (body a k)
body-AllPlain a zero = AllDigits-AllPlain _ (to_string-AllDigits a)
body-AllPlain a (suc k) =
    AllPlain-append (to_string (a / 10 ^ suc k)) _ (AllDigits-AllPlain _ (to_string-AllDigits _))
      (point_plain, AllDigits-AllPlain _ (fraction_of-AllDigits a k))

-- What the body matches.
abbrev matched : Bool → ℕ → ℕ → DecimalMatch
matched sign a zero = record { sign = sign; whole = to_string a; fraction = [] }
matched sign a (suc k) = record {
  sign = sign;
  whole = to_string (a / 10 ^ suc k);
  fraction = fraction_of a k;
}

match_whole-body : (sign : Bool) (a k : ℕ) → match_whole sign (body a k) ≡ some (matched sign a k)
match_whole-body sign a zero = match_whole_number sign _ (to_string-AllDigits a) (nonempty a)
match_whole-body sign a (suc k) =
    match_with_fraction sign _ _ (to_string-AllDigits _) (nonempty _) (fraction_of-AllDigits a k)
      (rw (length-fraction_of a k) (omega arith))

match_decimal-body : (a k : ℕ) → match_decimal (body a k) ≡ match_whole false (body a k)
match_decimal-body a zero =
    rw (← append-nil (to_string a)) (match_unsigned _ [] (to_string-AllDigits a) (nonempty a))
match_decimal-body a (suc k) = match_unsigned _ _ (to_string-AllDigits _) (nonempty _)

abbrev signed : Bool → ℕ → ℤ
signed sign a = if sign then neg_ℤ (pos a) else pos a

ltb_irrefl : (n : ℕ) → ltb n n ≡ false
ltb_irrefl n = ground arith

sub_same : (n : ℕ) → n - n ≡ 0
sub_same n = omega arith

scale_match-matched :
    (sign : Bool) (a k : ℕ) → scale_match k (some (matched sign a k)) ≡ parsed (signed sign a)
unfolding scale_match
scale_match-matched sign a zero = rw (append-nil (to_string a)) (rw read_digits-to_string)
scale_match-matched sign a (suc k) = rw (length-fraction_of a k) (
    rw (ltb_irrefl (suc k))
      (rw (sub_same (suc k)) (rw (append-nil (fraction_of a k)) (rw (read_digits-parts a k)))))

minus_plain : is_space b'-' ≡ false
unfolding is_space
minus_plain = refl

-- A printed body, with or without its sign, parses to the number that it stands for.
parse-body : (a k : ℕ) → parse_scaled_decimal (body a k) k ≡ parsed (pos a)
unfolding parse_scaled_decimal
parse-body a k =
    rw (trim-AllPlain (body a k) (body-AllPlain a k)) (
      rw (match_decimal-body a k) (rw (match_whole-body false a k) (scale_match-matched false a k)))

parse-minus_body : (a k : ℕ) → parse_scaled_decimal (b'-' ∷ body a k) k ≡ parsed (neg_ℤ (pos a))
unfolding parse_scaled_decimal
parse-minus_body a k =
    rw (trim-AllPlain (b'-' ∷ body a k) (minus_plain, body-AllPlain a k))
      (rw (match_signed (body a k)) (rw (match_whole-body true a k) (scale_match-matched true a k)))

format-pos : (n k : ℕ) → format_scaled_decimal (pos n) k ≡ body n k
unfolding format_scaled_decimal
format-pos n zero = ground arith
format-pos n (suc k) = ground arith

format-negsuc : (n k : ℕ) → format_scaled_decimal (negsuc n) k ≡ b'-' ∷ body (suc n) k
unfolding format_scaled_decimal
format-negsuc n zero = ground arith
format-negsuc n (suc k) = ground arith

-- At every scale, parsing what formatScaledDecimal prints of an integer of either sign gives
-- that integer back.
pub parse-format : (x : ℤ) (k : ℕ) → parse_scaled_decimal (format_scaled_decimal x k) k ≡ parsed x
parse-format (pos n) k = rw (format-pos n k) (parse-body n k)
parse-format (negsuc n) k = rw (format-negsuc n k) (parse-minus_body (suc n) k)
