-- ===== src/Capacity/Handlers/Same.antt =====
-- Requests that say the same: amounts by their numbers and currency codes, identifiers by their values.
use program_capacity_invoice.Prelude.{
  ℤ, ◌≡◌, ◌⊎◌, sym, ◌∙◌, refl, true, false, not, ◌||◌, inl, inr, Bool, Bool-cases, Option, none,
  some, ◌==ℤ◌, text_eq_sound, text_eq_complete, arith, eq_of_parts,
}
use program_capacity_invoice.Money.Types.{Money, Identifier, id_equals, currency_equals}
use program_capacity_invoice.Money.Amount.{money_equals}
use program_capacity_invoice.Capacity.Ids.External.{and_true}
use program_capacity_invoice.Capacity.Handlers.Repayment.{same_amount}

abbrev pub IsSameMoney : Money → Money → Type 0
IsSameMoney a b = (a.minor_units ≡ b.minor_units) × (a.currency.code ≡ b.currency.code)

==ℤ_sound : (a b : ℤ) → (a ==ℤ b) ≡ true → a ≡ b
==ℤ_sound a b h = eq_of_parts a b (ground arith)

==ℤ_complete : (a b : ℤ) → a ≡ b → (a ==ℤ b) ≡ true
==ℤ_complete a b e = rw e (ground arith)

pub money_equals-IsSameMoney : (a b : Money) → money_equals a b ≡ true → IsSameMoney a b
money_equals-IsSameMoney a b h =
    let (units, codes_same) =
      and_true (b.minor_units ==ℤ a.minor_units) (currency_equals b.currency a.currency) h in
    (
      sym (==ℤ_sound b.minor_units a.minor_units units),
      text_eq_sound a.currency.code b.currency.code codes_same,
    )

pub IsSameMoney-money_equals : (a b : Money) → IsSameMoney a b → money_equals a b ≡ true
IsSameMoney-money_equals a b (units, codes_same) =
    rw
      (
        ==ℤ_complete b.minor_units a.minor_units (sym units),
        text_eq_complete a.currency.code b.currency.code codes_same,
      )
      refl

-- A repayment of no amount says the same as any.
abbrev pub IsSameAmount : Option Money → Money → Type 0
IsSameAmount none repaid = Unit {0}
IsSameAmount (some amount) repaid = IsSameMoney amount repaid

abbrev pub IsSameId : Identifier → Identifier → Type 0
IsSameId a b = a.value ≡ b.value

true-≢-false : (b : Bool) → b ≡ true → b ≡ false → ⊥
true-≢-false b t f = true_false (sym t ∙ f)
  where
    true_false : true ≡ false → ⊥
    true_false e = cc

pub money_equals-false : (a b : Money) → money_equals a b ≡ false → ¬ IsSameMoney a b
money_equals-false a b h same =
    true-≢-false (money_equals a b) (IsSameMoney-money_equals a b same) h

same_amount-IsSameAmount :
    (amount : Option Money) (repaid : Money)
    → same_amount amount repaid ≡ true
    → IsSameAmount amount repaid
same_amount-IsSameAmount none repaid h = tt
same_amount-IsSameAmount (some amount) repaid h = money_equals-IsSameMoney amount repaid h

same_amount-false :
    (amount : Option Money) (repaid : Money)
    → same_amount amount repaid ≡ false
    → ¬ IsSameAmount amount repaid
same_amount-false none repaid h same = true-≢-false true refl h
same_amount-false (some amount) repaid h same = money_equals-false amount repaid h same

-- What `replayOf` of a repayment tests: another invoice or another amount.
abbrev pub differs : Identifier → Identifier → Option Money → Money → Bool
differs held invoice amount repaid = not (id_equals held invoice) || not (same_amount amount repaid)

pub differs-cases :
    (held invoice : Identifier) (amount : Option Money) (repaid : Money)
    → ((differs held invoice amount repaid ≡ false)
        × (IsSameId held invoice × IsSameAmount amount repaid))
      ⊎ ((differs held invoice amount repaid ≡ true)
          × ¬ (IsSameId held invoice × IsSameAmount amount repaid))
differs-cases held invoice amount repaid = elim (Bool-cases (id_equals held invoice)) [
  | inl h ↦ elim (Bool-cases (same_amount amount repaid)) [
    | inl k ↦ inl (
      rw (h, k) refl,
      (sym (text_eq_sound invoice.value held.value h), same_amount-IsSameAmount amount repaid k),
    )
    | inr k ↦ inr (rw (h, k) refl, λ same. same_amount-false amount repaid k same.1)
  ]
  | inr h ↦ inr (
    rw h refl,
    λ same.
        true-≢-false (id_equals held invoice)
          (text_eq_complete invoice.value held.value (sym same.0)) h,
  )
]
