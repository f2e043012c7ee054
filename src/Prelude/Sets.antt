-- ===== src/Prelude/Sets.antt =====
-- Sets of strings as lists, and the parts of a list: `slice`, and what stands once only.
use Prim.Native.Nat.{ℕ, zero, suc, ◌-◌, ◌≤◌, min}
use mathlib.Core.Path.{◌≡◌, refl, sym, ap, ◌∙◌}
use mathlib.Core.Logic.{◌⊎◌, inl, inr}
use mathlib.Core.Bool.{Bool, true, false}
use mathlib.Core.List.{List, [], ◌∷◌, ◌++◌, append-nil}
use native.Mathlib.Omega.{arith}
use program_capacity_invoice.Prelude.Tests.{Bool-cases}
use program_capacity_invoice.Prelude.Strings.{
  Text, text_eq, text_eq_sound, text_eq_complete, length,
}
use program_capacity_invoice.Prelude.Maps.{any}

-- `set.has(value)`
abbrev pub has : Text → List Text → Bool
has value set = any (λ t. text_eq t value) set

-- A text is among a list of texts.
abbrev pub Among : Text → List Text → Type 0
Among t [] = ⊥
Among t (s ∷ rest) = (s ≡ t) ⊎ Among t rest

pub has-Among : (t : Text) (ts : List Text) → has t ts ≡ true → Among t ts
has-Among t [] h = cc
has-Among t (s ∷ ts) h = elim (Bool-cases (text_eq s t)) [
  | inl e ↦ inl (text_eq_sound s t e)
  | inr e ↦ inr (has-Among t ts (rw e at h))
]

pub Among-has : (t : Text) (ts : List Text) → Among t ts → has t ts ≡ true
Among-has t [] h = elim h [ ]
Among-has t (s ∷ ts) (inl e) = rw (text_eq_complete s t e) refl
Among-has t (s ∷ ts) (inr m) = elim (Bool-cases (text_eq s t)) [
  | inl e ↦ rw e refl
  | inr e ↦ rw e (Among-has t ts m)
]

pub not_Among-has : (t : Text) (ts : List Text) → ¬ Among t ts → has t ts ≡ false
not_Among-has t ts out = elim (Bool-cases (has t ts)) [
  | inl e ↦ absurd (out (has-Among t ts e))
  | inr e ↦ e
]

-- No text stands twice.
abbrev pub Distinct : List Text → Type 0
Distinct [] = Unit {0}
Distinct (t ∷ ts) = (¬ Among t ts) × Distinct ts

pub Among-append-left : (t : Text) (xs ys : List Text) → Among t xs → Among t (xs ++ ys)
Among-append-left t [] ys h = elim h [ ]
Among-append-left t (x ∷ xs) ys (inl e) = inl e
Among-append-left t (x ∷ xs) ys (inr m) = inr (Among-append-left t xs ys m)

pub Among-append-right : (t : Text) (xs ys : List Text) → Among t ys → Among t (xs ++ ys)
Among-append-right t [] ys h = h
Among-append-right t (x ∷ xs) ys h = inr (Among-append-right t xs ys h)

pub Among-append : (t : Text) (xs ys : List Text) → Among t (xs ++ ys) → Among t xs ⊎ Among t ys
Among-append t [] ys h = inr h
Among-append t (x ∷ xs) ys (inl e) = inl (inl e)
Among-append t (x ∷ xs) ys (inr m) = elim (Among-append t xs ys m) [
  | inl l ↦ inl (inr l)
  | inr r ↦ inr r
]

pub Distinct-left : (xs ys : List Text) → Distinct (xs ++ ys) → Distinct xs
Distinct-left [] ys d = tt
Distinct-left (x ∷ xs) ys d = (λ m. d.0 (Among-append-left x xs ys m), Distinct-left xs ys d.1)

pub Distinct-apart :
    (xs ys : List Text) → Distinct (xs ++ ys) → (t : Text) → Among t ys → ¬ Among t xs
Distinct-apart [] ys d t in_ys m = elim m [ ]
Distinct-apart (x ∷ xs) ys d t in_ys (inl e) = d.0 (Among-append-right x xs ys (rw e in_ys))
Distinct-apart (x ∷ xs) ys d t in_ys (inr m) = Distinct-apart xs ys d.1 t in_ys m

-- `list.slice(0, n)` and `list.slice(n)`
abbrev pub take {ℓ} : {A : Type ℓ} → ℕ → List A → List A
take zero xs = []
take (suc n) [] = []
take (suc n) (x ∷ xs) = x ∷ take n xs

abbrev pub drop {ℓ} : {A : Type ℓ} → ℕ → List A → List A
drop zero xs = xs
drop (suc n) [] = []
drop (suc n) (x ∷ xs) = drop n xs

zero_minus : (m : ℕ) → 0 ≡ 0 - m
zero_minus m = omega arith

zero_min : (m : ℕ) → 0 ≡ min 0 m
zero_min m = omega arith

min_zero : (m : ℕ) → 0 ≡ min m 0
min_zero m = omega arith

suc-min : (m n : ℕ) → suc (min m n) ≡ min (suc m) (suc n)
suc-min m n = omega arith

suc-minus : (m n : ℕ) → m - n ≡ suc m - suc n
suc-minus m n = omega arith

minus_none : (m : ℕ) → m ≡ m - 0
minus_none m = omega arith

module _ {ℓ} {A : Type ℓ} where
  pub take-drop : (n : ℕ) (xs : List A) → take n xs ++ drop n xs ≡ xs
  take-drop zero xs = refl
  take-drop (suc n) [] = refl
  take-drop (suc n) (x ∷ xs) = ap (λ ys. x ∷ ys) (take-drop n xs)

  pub length-take : (n : ℕ) (xs : List A) → length (take n xs) ≡ min n (length xs)
  length-take zero xs = omega arith
  length-take (suc n) [] = omega arith
  length-take (suc n) (x ∷ xs) = omega (arith, length-take n xs)

  pub length-drop : (n : ℕ) (xs : List A) → length (drop n xs) ≡ length xs - n
  length-drop zero xs = omega arith
  length-drop (suc n) [] = omega arith
  length-drop (suc n) (x ∷ xs) = omega (arith, length-drop n xs)

  pub take-all : (n : ℕ) (xs : List A) → length xs ≤ n → take n xs ≡ xs
  take-all zero [] h = refl
  take-all zero (x ∷ xs) h = absurd (omega arith)
  take-all (suc n) [] h = refl
  take-all (suc n) (x ∷ xs) h = ap (λ ys. x ∷ ys) (take-all n xs (omega arith))

  pub drop-all : (n : ℕ) (xs : List A) → length xs ≤ n → drop n xs ≡ []
  drop-all zero [] h = refl
  drop-all zero (x ∷ xs) h = absurd (omega arith)
  drop-all (suc n) [] h = refl
  drop-all (suc n) (x ∷ xs) h = drop-all n xs (omega arith)

  -- the first n of two lists: those of the first list, and of the second as many as are left
  pub take-append :
      (n : ℕ) (xs ys : List A) → take n (xs ++ ys) ≡ take n xs ++ take (n - length xs) ys
  take-append n [] ys = shift n
    where
      shift : (n : ℕ) → take n ys ≡ take n [] ++ take (n - 0) ys
      shift zero = refl
      shift (suc n) = ap (λ k. take k ys) (minus_none (suc n))
  take-append zero (x ∷ xs) ys = ap (λ k. take k ys) (zero_minus (length (x ∷ xs)))
  take-append (suc n) (x ∷ xs) ys =
      ap (λ zs. x ∷ zs) (take-append n xs ys)
      ∙ ap (λ k. x ∷ (take n xs ++ take k ys)) (suc-minus n (length xs))

  pub drop-append :
      (n : ℕ) (xs ys : List A) → drop n (xs ++ ys) ≡ drop n xs ++ drop (n - length xs) ys
  drop-append n [] ys = shift n
    where
      shift : (n : ℕ) → drop n ys ≡ drop n [] ++ drop (n - 0) ys
      shift zero = refl
      shift (suc n) = ap (λ k. drop k ys) (minus_none (suc n))
  drop-append zero (x ∷ xs) ys = ap (λ k. x ∷ (xs ++ drop k ys)) (zero_minus (length (x ∷ xs)))
  drop-append (suc n) (x ∷ xs) ys =
      drop-append n xs ys ∙ ap (λ k. drop n xs ++ drop k ys) (suc-minus n (length xs))

  -- What the first n of two lists leave of the first list comes before what they take of the second:
  -- one of the two is empty.
  pub take-append-drop :
      (n : ℕ) (xs ys : List A) → take n (xs ++ ys) ++ drop n xs ≡ xs ++ take (n - length xs) ys
  take-append-drop n [] ys = shift n
    where
      shift : (n : ℕ) → take n ys ++ drop n [] ≡ take (n - 0) ys
      shift zero = refl
      shift (suc n) = append-nil (take (suc n) ys) ∙ ap (λ k. take k ys) (minus_none (suc n))
  take-append-drop zero (x ∷ xs) ys =
      ap (λ zs. x ∷ zs) (sym (append-nil xs))
      ∙ ap (λ k. x ∷ (xs ++ take k ys)) (zero_minus (length (x ∷ xs)))
  take-append-drop (suc n) (x ∷ xs) ys =
      ap (λ zs. x ∷ zs) (take-append-drop n xs ys)
      ∙ ap (λ k. x ∷ (xs ++ take k ys)) (suc-minus n (length xs))

  pub take-take : (m n : ℕ) (xs : List A) → take m (take n xs) ≡ take (min m n) xs
  take-take zero n xs = ap (λ k. take k xs) (zero_min n)
  take-take (suc m) zero xs = ap (λ k. take k xs) (min_zero (suc m))
  take-take (suc m) (suc n) [] = shift (min (suc m) (suc n))
    where
      shift : (k : ℕ) → ◌≡◌ {A = List A} [] (take k [])
      shift zero = refl
      shift (suc k) = refl
  take-take (suc m) (suc n) (x ∷ xs) =
      ap (λ zs. x ∷ zs) (take-take m n xs) ∙ ap (λ k. take k (x ∷ xs)) (suc-min m n)
