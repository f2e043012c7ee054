-- ===== src/Capacity/Listing/Rows.antt =====
-- persistence/prisma/prisma-capacity-read-model.ts: what stands behind a cursor in the list of the
-- reservations, newest first.
use program_capacity_invoice.Prelude.{
  ◌≡◌, ◌≢◌, inl, inr, refl, sym, ap, ◌∙◌, arith, Bool, true, false, ◌&&◌, ◌||◌, Bool-cases, ltb_ℤ,
  ◌==ℤ◌, ℤ, List, [], ◌∷◌, ◌++◌, Text, filter,
}
use program_capacity_invoice.Capacity.Reservation.{Reservation}
use program_capacity_invoice.Capacity.Listing.{
  ReservationCursor, is_after, key_of, AllAfter, IsNewestFirst,
}

pub filter-and :
    (f g : Reservation → Bool) (rs : List Reservation)
    → filter (λ r. f r && g r) rs ≡ filter g (filter f rs)
filter-and f g [] = refl
filter-and f g (r ∷ rs) = elim (Bool-cases (f r)) [
  | inr e ↦ rw e (filter-and f g rs)
  | inl e ↦ elim (Bool-cases (g r)) [
    | inl e' ↦ rw e (rw e' (ap (λ zs. r ∷ zs) (filter-and f g rs)))
    | inr e' ↦ rw e (rw e' (filter-and f g rs))
  ]
]

pub filter-true : (rs : List Reservation) → filter (λ r. true) rs ≡ rs
filter-true [] = refl
filter-true (r ∷ rs) = ap (λ zs. r ∷ zs) (filter-true rs)

module _ (before : Text → Text → Bool) where
  AllAfter-filter :
      (f : Reservation → Bool) (c : ReservationCursor) (rs : List Reservation)
      → AllAfter before c rs
      → AllAfter before c (filter f rs)
  AllAfter-filter f c [] h = tt
  AllAfter-filter f c (r ∷ rs) h = elim (Bool-cases (f r)) [
    | inl e ↦ rw e (h.0, AllAfter-filter f c rs h.1)
    | inr e ↦ rw e (AllAfter-filter f c rs h.1)
  ]

  -- Part of a list that is newest first is newest first.
  pub filter-IsNewestFirst :
      (f : Reservation → Bool) (rs : List Reservation)
      → IsNewestFirst before rs
      → IsNewestFirst before (filter f rs)
  filter-IsNewestFirst f [] h = tt
  filter-IsNewestFirst f (r ∷ rs) h = elim (Bool-cases (f r)) [
    | inl e ↦ rw e (AllAfter-filter f (key_of r) rs h.0, filter-IsNewestFirst f rs h.1)
    | inr e ↦ rw e (filter-IsNewestFirst f rs h.1)
  ]

  filter-AllAfter :
      (c : ReservationCursor) (rs : List Reservation)
      → AllAfter before c rs
      → filter (is_after before c) rs ≡ rs
  filter-AllAfter c [] h = refl
  filter-AllAfter c (r ∷ rs) h = rw h.0 (ap (λ zs. r ∷ zs) (filter-AllAfter c rs h.1))

  AllAfter-middle :
      (c : ReservationCursor) (xs ys : List Reservation) (x : Reservation)
      → AllAfter before c (xs ++ x ∷ ys)
      → is_after before c x ≡ true
  AllAfter-middle c [] ys x h = h.0
  AllAfter-middle c (r ∷ xs) ys x h = AllAfter-middle c xs ys x h.1

  module _ (once : (a b : Text) → before a b ≡ true → before b a ≡ false) where
    distinct_tests : true ≢ false
    distinct_tests e = cc

    not_self : (id : Text) → before id id ≡ false
    not_self id = elim (Bool-cases (before id id)) [
      | inl e ↦ absurd (distinct_tests (sym e ∙ once id id e))
      | inr e ↦ e
    ]

    same_time : (a : ℤ) → (ltb_ℤ a a ≡ false) × ((a ==ℤ a) ≡ true)
    same_time a = (ground arith, ground arith)

    not_after_itself : (r : Reservation) → is_after before (key_of r) r ≡ false
    not_after_itself r =
        rw (same_time r.reserved_at).0 (rw (same_time r.reserved_at).1 (not_self r.id.value))

    older_once :
        (a b : ℤ) (x y : Bool)
        → (x ≡ true → y ≡ false)
        → (ltb_ℤ a b || ((a ==ℤ b) && x)) ≡ true
        → (ltb_ℤ b a || ((b ==ℤ a) && y)) ≡ false
    older_once a b x y h e = ground (arith, h)

    not_after_older :
        (x y : Reservation)
        → is_after before (key_of x) y ≡ true
        → is_after before (key_of y) x ≡ false
    not_after_older x y h =
        older_once y.reserved_at x.reserved_at (before y.id.value x.id.value)
          (before x.id.value y.id.value) (once y.id.value x.id.value) h

    -- Behind the cursor of a row are the rows that come after it in the list.
    pub filter-behind :
        (xs ys : List Reservation) (x : Reservation)
        → IsNewestFirst before (xs ++ x ∷ ys)
        → filter (is_after before (key_of x)) (xs ++ x ∷ ys) ≡ ys
    filter-behind [] ys x h = rw (not_after_itself x) (filter-AllAfter (key_of x) ys h.0)
    filter-behind (r ∷ xs) ys x h =
        rw (not_after_older r x (AllAfter-middle (key_of r) xs ys x h.0))
          (filter-behind xs ys x h.1)
