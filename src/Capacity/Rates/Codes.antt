-- ===== src/Capacity/Rates/Codes.antt =====
-- infrastructure/fx/static-exchange-rate-provider.ts: the keys of the pairs tell their codes.
use program_capacity_invoice.Prelude.{
  ℕ, ◌≡◌, ◌≢◌, refl, sym, ◌∙◌, subst, arith, ◌==◌, inl, inr, Bool, true, false, not, ◌&&◌,
  Bool-cases, Option, none, some, List, [], ◌∷◌, ◌++◌, Text, text_eq, text_eq_sound,
}
use program_capacity_invoice.Money.Types.{Currency}
use program_capacity_invoice.Money.Currency
use program_capacity_invoice.Money.Currency.{of_digits, get, minor_unit_table, normalise}
use program_capacity_invoice.Errors.{ok, ok_injective}

-- No slash, which separates the codes of a key.
abbrev pub no_slash : Text → Bool
no_slash [] = true
no_slash (c ∷ s) = not (c == b'/') && no_slash s

and_true : (a b : Bool) → (a && b) ≡ true → (a ≡ true) × (b ≡ true)
and_true a b h = ground arith

head_tail : {x y : ℕ} {s t : Text} → x ∷ s ≡ y ∷ t → (x ≡ y) × (s ≡ t)
head_tail e = (cc, cc)

not_slash : (c : ℕ) (s : Text) → no_slash (c ∷ s) ≡ true → c ≢ b'/'
not_slash c s h e =
    absurd (true_false (sym (and_true (not (c == b'/')) (no_slash s) h).0 ∙ is_slash c e))
  where
    true_false : true ≢ false
    true_false e = cc

    is_slash : (c : ℕ) → c ≡ b'/' → not (c == b'/') ≡ false
    is_slash c e = ground (arith, e)

-- Codes without a slash can be read off a key.
pub same_codes :
    (a b c d : Text)
    → no_slash a ≡ true
    → no_slash c ≡ true
    → a ++ b'/' ∷ b ≡ c ++ b'/' ∷ d
    → (a ≡ c) × (b ≡ d)
same_codes [] b [] d h k e = (refl, (head_tail e).1)
same_codes [] b (y ∷ c) d h k e = absurd (not_slash y c k (sym (head_tail e).0))
same_codes (x ∷ a) b [] d h k e = absurd (not_slash x a h (head_tail e).0)
same_codes (x ∷ a) b (y ∷ c) d h k e =
    let (first, rest) = head_tail e in
    let (same, later) =
      same_codes a b c d (and_true (not (x == b'/')) (no_slash a) h).1
        (and_true (not (y == b'/')) (no_slash c) k).1 rest in
    (cc, later)

-- No code of the table of currencies has a slash.
abbrev keys_plain : List (Text × ℕ) → Bool
keys_plain [] = true
keys_plain ((k, digits) ∷ table) = no_slash k && keys_plain table

get-no_slash :
    (key : Text) (table : List (Text × ℕ)) (digits : ℕ)
    → keys_plain table ≡ true
    → get key table ≡ some digits
    → no_slash key ≡ true
unfolding get
get-no_slash key [] digits p h = cc
get-no_slash key ((k, n) ∷ table) digits p h =
    let (first, rest) = and_true (no_slash k) (keys_plain table) p in
    elim (Bool-cases (text_eq k key)) [
      | inl e ↦ subst (λ s. no_slash s ≡ true) (text_eq_sound k key e) first
      | inr e ↦ get-no_slash key table digits rest (rw e at h)
    ]

table_plain : keys_plain minor_unit_table ≡ true
unfolding minor_unit_table
table_plain = refl

digits-no_slash :
    (code key : Text) (found : Option ℕ) (c : Currency)
    → get key minor_unit_table ≡ found
    → of_digits code key found ≡ ok c
    → no_slash c.code ≡ true
unfolding of_digits
digits-no_slash code key none c e h = cc
digits-no_slash code key (some digits) c e h =
    subst (λ (d : Currency). no_slash d.code ≡ true) (ok_injective h)
      (get-no_slash key minor_unit_table digits table_plain e)

pub of-no_slash : (code : Text) (c : Currency) → Currency.of code ≡ ok c → no_slash c.code ≡ true
unfolding Currency.of
of-no_slash code c h = digits-no_slash code (normalise code) _ c refl h
