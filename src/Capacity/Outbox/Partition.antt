-- ===== src/Capacity/Outbox/Partition.antt =====
-- messaging/outbox-relay.ts: the rows of one partition among the rows that wait.
use program_capacity_invoice.Prelude.{
  ℕ, ◌≡◌, refl, sym, ap, ◌∙◌, inl, inr, Bool, Bool-cases, List, [], ◌∷◌, ◌++◌, length, filter, Text,
  Among, Distinct, take, drop, take-drop,
}
use program_capacity_invoice.Capacity.Outbox.{OutboxRow, row_ids}

module _ {ℓ} {A : Type ℓ} where
  take-length-append : (xs ys : List A) → take (length xs) (xs ++ ys) ≡ xs
  take-length-append [] ys = refl
  take-length-append (x ∷ xs) ys = ap (λ zs. x ∷ zs) (take-length-append xs ys)

  drop-length-append : (xs ys : List A) → drop (length xs) (xs ++ ys) ≡ ys
  drop-length-append [] ys = refl
  drop-length-append (x ∷ xs) ys = drop-length-append xs ys

  pub filter-append :
      (test : A → Bool) (xs ys : List A) → filter test (xs ++ ys) ≡ filter test xs ++ filter test ys
  filter-append test [] ys = refl
  filter-append test (x ∷ xs) ys = elim (Bool-cases (test x)) [
    | inl e ↦ rw e (ap (λ zs. x ∷ zs) (filter-append test xs ys))
    | inr e ↦ rw e (filter-append test xs ys)
  ]

  filter_split :
      (test : A → Bool) (n : ℕ) (xs : List A)
      → filter test (take n xs) ++ filter test (drop n xs) ≡ filter test xs
  filter_split test n xs =
      sym (filter-append test (take n xs) (drop n xs)) ∙ ap (filter test) (take-drop n xs)

  -- What passes a test among the first n is the first of what passes it, and the rest is the rest.
  pub filter-take :
      (test : A → Bool) (n : ℕ) (xs : List A)
      → filter test (take n xs) ≡ take (length (filter test (take n xs))) (filter test xs)
  filter-take test n xs =
      sym (take-length-append (filter test (take n xs)) (filter test (drop n xs)))
      ∙ ap (take (length (filter test (take n xs)))) (filter_split test n xs)

  pub filter-drop :
      (test : A → Bool) (n : ℕ) (xs : List A)
      → filter test (drop n xs) ≡ drop (length (filter test (take n xs))) (filter test xs)
  filter-drop test n xs =
      sym (drop-length-append (filter test (take n xs)) (filter test (drop n xs)))
      ∙ ap (drop (length (filter test (take n xs)))) (filter_split test n xs)

kept-Among :
    (row : OutboxRow) (kept rows : List OutboxRow) (t : Text)
    → (Among t (row_ids kept) → Among t (row_ids rows))
    → Among t (row_ids (row ∷ kept))
    → Among t (row_ids (row ∷ rows))
kept-Among row kept rows t rest (inl same) = inl same
kept-Among row kept rows t rest (inr later) = inr (rest later)

filter-Among :
    (test : OutboxRow → Bool) (rows : List OutboxRow) (t : Text)
    → Among t (row_ids (filter test rows))
    → Among t (row_ids rows)
filter-Among test [] t m = m
filter-Among test (row ∷ rows) t m = elim (Bool-cases (test row)) [
  | inl e ↦ kept-Among row (filter test rows) rows t (filter-Among test rows t) (rw e at m)
  | inr e ↦ inr (filter-Among test rows t (rw e at m))
]

-- Rows with ids of their own keep them.
pub filter-Distinct :
    (test : OutboxRow → Bool) (rows : List OutboxRow)
    → Distinct (row_ids rows)
    → Distinct (row_ids (filter test rows))
filter-Distinct test [] d = tt
filter-Distinct test (row ∷ rows) d = elim (Bool-cases (test row)) [
  | inl e ↦ rw e (λ m. d.0 (filter-Among test rows row.id m), filter-Distinct test rows d.1)
  | inr e ↦ rw e (filter-Distinct test rows d.1)
]
