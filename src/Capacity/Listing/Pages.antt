-- ===== src/Capacity/Listing/Pages.antt =====
-- list-reservations/list-reservations.handler.ts: the views of a page, and its cursor.
use program_capacity_invoice.Prelude.{
  ℕ, zero, suc, ◌+◌, ◌≤◌, ◌<◌, ◌≡◌, refl, ap, ◌∙◌, arith, min, true, false, ltb, take-take,
  length-take, length-drop, none, some, List, [], ◌∷◌, ◌++◌, pos, Text, length, take, drop,
  take-all,
}
use program_capacity_invoice.Errors.{Result, ok, ◌>>=◌}
use program_capacity_invoice.Capacity.Reservation.{Reservation}
use program_capacity_invoice.Capacity.Views.{ReservationView, to_reservation_view, view-key}
use program_capacity_invoice.Capacity.Listing.{
  CursorCodec, ReservationPage, whole, to_views, last_of, page_size, max_page_size, next_cursor_of,
  cursor_after, encode_reservation_cursor,
}
use program_capacity_invoice.Capacity.Listing.Cursor.{IsPortable, cursor_for}

-- The views of some rows, one for one.
abbrev pub AreViews : List Reservation → List ReservationView → Type 0
AreViews [] [] = Unit {0}
AreViews [] (v ∷ vs) = ⊥
AreViews (r ∷ rs) [] = ⊥
AreViews (r ∷ rs) (v ∷ vs) = (to_reservation_view r ≡ ok v) × AreViews rs vs

pub to_views-AreViews :
    (rs : List Reservation) (vs : List ReservationView) → AreViews rs vs → to_views rs ≡ ok vs
to_views-AreViews [] [] h = refl
to_views-AreViews [] (v ∷ vs) h = absurd h
to_views-AreViews (r ∷ rs) [] h = absurd h
to_views-AreViews (r ∷ rs) (v ∷ vs) h = rw h.0 (rw (to_views-AreViews rs vs h.1) refl)

pub take-AreViews :
    (n : ℕ) (rs : List Reservation) (vs : List ReservationView)
    → AreViews rs vs
    → AreViews (take n rs) (take n vs)
take-AreViews zero rs vs h = tt
take-AreViews (suc n) [] [] h = tt
take-AreViews (suc n) [] (v ∷ vs) h = h
take-AreViews (suc n) (r ∷ rs) [] h = h
take-AreViews (suc n) (r ∷ rs) (v ∷ vs) h = (h.0, take-AreViews n rs vs h.1)

pub drop-AreViews :
    (n : ℕ) (rs : List Reservation) (vs : List ReservationView)
    → AreViews rs vs
    → AreViews (drop n rs) (drop n vs)
drop-AreViews zero rs vs h = h
drop-AreViews (suc n) [] [] h = tt
drop-AreViews (suc n) [] (v ∷ vs) h = absurd h
drop-AreViews (suc n) (r ∷ rs) [] h = absurd h
drop-AreViews (suc n) (r ∷ rs) (v ∷ vs) h = drop-AreViews n rs vs h.1

pub length-AreViews :
    (rs : List Reservation) (vs : List ReservationView) → AreViews rs vs → length rs ≡ length vs
length-AreViews [] [] h = refl
length-AreViews [] (v ∷ vs) h = absurd h
length-AreViews (r ∷ rs) [] h = absurd h
length-AreViews (r ∷ rs) (v ∷ vs) h = ap suc (length-AreViews rs vs h.1)

abbrev pub ArePortable : CursorCodec → List Reservation → Type 0
ArePortable codec [] = Unit {0}
ArePortable codec (r ∷ rs) = IsPortable codec r.reserved_at r.id.value × ArePortable codec rs

pub drop-ArePortable :
    (codec : CursorCodec) (n : ℕ) (rs : List Reservation)
    → ArePortable codec rs
    → ArePortable codec (drop n rs)
drop-ArePortable codec zero rs h = h
drop-ArePortable codec (suc n) [] h = tt
drop-ArePortable codec (suc n) (r ∷ rs) h = drop-ArePortable codec n rs h.1

-- The last row of a full page, and its view.
pub record LastOf (codec : CursorCodec) (n : ℕ) (rs : List Reservation) (vs : List ReservationView)
    : Type 0 where
  pub row : Reservation
  pub view : ReservationView
  pub split : rs ≡ take n rs ++ row ∷ drop (suc n) rs
  pub viewed : to_reservation_view row ≡ ok view
  pub last : last_of (take (suc n) vs) ≡ some view
  pub portable : IsPortable codec row.reserved_at row.id.value

pub last_row :
    (codec : CursorCodec) (n : ℕ) (rs : List Reservation) (vs : List ReservationView)
    → AreViews rs vs
    → ArePortable codec rs
    → n < length rs
    → LastOf codec n rs vs
last_row codec n [] vs h p few = absurd (omega arith)
last_row codec n (r ∷ rs) [] h p few = absurd h
last_row codec zero (r ∷ rs) (v ∷ vs) h p few = record {
  row = r;
  view = v;
  split = refl;
  viewed = h.0;
  last = refl;
  portable = p.0;
}
last_row codec (suc n) (r ∷ rs) (v ∷ vs) h p few =
    let rest = last_row codec n rs vs h.1 p.1 (omega arith) in
    record {
      row = rest.row;
      view = rest.view;
      split = ap (λ zs. r ∷ zs) rest.split;
      viewed = rest.viewed;
      last = step vs rest.last;
      portable = rest.portable;
    }
  where
    step :
        (ws : List ReservationView) {w : ReservationView}
        → last_of (take (suc n) ws) ≡ some w
        → last_of (v ∷ take (suc n) ws) ≡ some w
    step [] e = cc
    step (w ∷ ws) e = e

pub page_size-fits : (n : ℕ) → 1 ≤ n → n ≤ max_page_size → page_size (some (whole (pos n))) ≡ ok n
page_size-fits n low high = ground arith

pub few_test : (n m : ℕ) → m ≤ n → ltb n m ≡ false
few_test n m h = ground arith

pub many_test : (n m : ℕ) → n < m → ltb n m ≡ true
many_test n m h = ground arith

pub few_left : (n : ℕ) (vs : List ReservationView) → ltb n (length vs) ≡ false → length vs ≤ n
few_left n vs e = ground arith

pub many_left : (n : ℕ) (vs : List ReservationView) → ltb n (length vs) ≡ true → n < length vs
many_left n vs e = ground arith

pub left_enough :
    (m pages : ℕ) (vs : List ReservationView)
    → length vs ≤ suc pages
    → length (drop (suc m) vs) ≤ pages
left_enough m pages vs enough = omega (arith, length-drop (suc m) vs, enough)

module _ (codec : CursorCodec) where
  -- A page from a cursor that the service reads.
  abbrev pub page_of : ℕ → List ReservationView → Result ReservationPage
  page_of n rows = next_cursor_of codec n rows >>= λ next.
      ok (record { items = take n rows; next_cursor = next })

  -- The last page has all that is left.
  pub page_of-rest :
      (n : ℕ) (vs : List ReservationView)
      → length vs ≤ n
      → page_of n (take (n + 1) vs) ≡ ok (record { items = vs; next_cursor = none })
  page_of-rest n vs few =
      rw (take-all (n + 1) vs (omega arith))
        (rw (few_test n (length vs) few) (rw (take-all n vs few) refl))

  pub first_of_more : (n : ℕ) (vs : List ReservationView) → take n (take (n + 1) vs) ≡ take n vs
  first_of_more n vs = take-take n (n + 1) vs ∙ ap (λ k. take k vs) (least n)
    where
      least : (n : ℕ) → min n (n + 1) ≡ n
      least n = omega arith

  pub more_rows :
      (n : ℕ) (vs : List ReservationView) → n < length vs → ltb n (length (take (n + 1) vs)) ≡ true
  more_rows n vs many =
      many_test n (length (take (n + 1) vs)) (omega (arith, length-take (n + 1) vs, many))

  pub cursor_after-row :
      (r : Reservation) (v : ReservationView) (encoded : Text)
      → to_reservation_view r ≡ ok v
      → encode_reservation_cursor codec (cursor_for r.reserved_at r.id.value) ≡ ok encoded
      → cursor_after codec (some v) ≡ ok (some encoded)
  cursor_after-row r v encoded viewed e =
      let (time, id) = view-key r v viewed in rw time (rw id (rw e refl))

  -- A full page has a cursor, and behind it is what comes after the page.
  pub page_of-full :
      (n : ℕ) (vs : List ReservationView) (v : ReservationView) (encoded : Text)
      → n < length vs
      → last_of (take n vs) ≡ some v
      → cursor_after codec (some v) ≡ ok (some encoded)
      → page_of n (take (n + 1) vs) ≡ ok (record { items = take n vs; next_cursor = some encoded })
  page_of-full n vs v encoded many last e =
      rw (more_rows n vs many) (rw (first_of_more n vs) (rw last (rw e refl)))
