-- ===== src/Capacity/Listing/Follow.antt =====
-- list-reservations/list-reservations.handler.ts: what a client gets who follows the cursors of the
-- pages, from the first page to the last.
use mathlib.Core.List.{append_assoc}
use program_capacity_invoice.Prelude.{
  ℕ, zero, suc, ◌+◌, ◌≤◌, ◌<◌, ◌≡◌, inl, inr, refl, sym, ap, ◌∙◌, subst, arith, ◌&&◌, ltb,
  Bool-cases, Option, none, some, List, [], ◌∷◌, ◌++◌, pos, Text, length, take, drop, filter,
  take-drop,
}
use program_capacity_invoice.Money.Types.{Identifier}
use program_capacity_invoice.Errors.{Result, ok, err, ReservationStatus}
use program_capacity_invoice.Capacity.Reservation.{Reservation}
use program_capacity_invoice.Capacity.Views.{ReservationView, ProgramCapacityView}
use program_capacity_invoice.Capacity.Listing.{
  CursorCodec, ReservationCursor, ReservationTable, ReservationPage, ListReservationsQuery,
  CapacityReadModel, whole, start_after, max_page_size, list_page, prisma_read_model, view_or_none,
  is_listed, comes_after, is_after, key_of, IsNewestFirst,
}
use program_capacity_invoice.Capacity.Listing.Rows.{
  filter-and, filter-true, filter-IsNewestFirst, filter-behind,
}
use program_capacity_invoice.Capacity.Listing.Cursor.{decode-encode}
use program_capacity_invoice.Capacity.Listing.Pages.{
  AreViews, to_views-AreViews, take-AreViews, drop-AreViews, length-AreViews, ArePortable,
  drop-ArePortable, last_row, page_of, page_of-rest, page_of-full, cursor_after-row, page_size-fits,
  few_left, many_left, left_enough,
}

abbrev pub append_to :
    List ReservationView → Option (List ReservationView) → Option (List ReservationView)
append_to items none = none
append_to items (some rest) = some (items ++ rest)

abbrev pub then_next :
    (Text → Option (List ReservationView))
    → List ReservationView
    → Option Text
    → Option (List ReservationView)
then_next again items none = some items
then_next again items (some cursor) = append_to items (again cursor)

abbrev pub of_page :
    (Text → Option (List ReservationView)) → Result ReservationPage → Option (List ReservationView)
of_page again (err error) = none
of_page again (ok page) = then_next again page.items page.next_cursor

-- A client that asks for pages until there is no next cursor: at most so many pages.
unfoldable pub follow :
    CapacityReadModel → CursorCodec → ℕ → ListReservationsQuery → Option (List ReservationView)
follow model codec zero query = none
follow model codec (suc pages) query =
    of_page (λ cursor. follow model codec pages (record query { cursor = some cursor }))
      (list_page model codec query)

module _ (table : ReservationTable) (codec : CursorCodec) (program_id : Identifier)
    (status : Option ReservationStatus) (view : ProgramCapacityView)
    (found : view_or_none (table.find_unique program_id.value) ≡ ok (some view)) where
  abbrev pub query_at : ℕ → Option Text → ListReservationsQuery
  query_at n cursor = record {
    program_id = program_id;
    status = status;
    limit = some (whole (pos n));
    cursor = cursor;
  }

  abbrev pub listed : List Reservation
  listed = filter (is_listed program_id status) table.rows

  abbrev pub behind : Option ReservationCursor → List Reservation
  behind after = filter (comes_after table.id_before after) listed

  find_many-behind :
      (after : Option ReservationCursor) (n : ℕ)
      → table.find_many
          (λ r. is_listed program_id status r && comes_after table.id_before after r)
          n
        ≡ take n (behind after)
  find_many-behind after n =
      table.find_many-first
        (λ r. is_listed program_id status r && comes_after table.id_before after r) n
      ∙ ap (take n)
          (filter-and (is_listed program_id status) (comes_after table.id_before after) table.rows)

  list_page-run :
      (n : ℕ) (cursor : Option Text) (after : Option ReservationCursor) (vs : List ReservationView)
      → 1 ≤ n
      → n ≤ max_page_size
      → start_after codec cursor ≡ ok after
      → AreViews (behind after) vs
      → list_page (prisma_read_model table) codec (query_at n cursor)
        ≡ page_of codec n (take (n + 1) vs)
  unfolding list_page prisma_read_model
  list_page-run n cursor after vs low high read viewed = rw (page_size-fits n low high) (
      rw read (
        rw found (
          rw (find_many-behind after (n + 1)) (
            rw
              (to_views-AreViews (take (n + 1) (behind after)) (take (n + 1) vs)
                (take-AreViews (n + 1) (behind after) vs viewed))
              refl))))

  listed-IsNewestFirst : IsNewestFirst table.id_before listed
  listed-IsNewestFirst =
      filter-IsNewestFirst table.id_before (is_listed program_id status) table.rows
        table.newest_first

  behind-row :
      (seen rest : List Reservation) (row : Reservation)
      → listed ≡ seen ++ row ∷ rest
      → behind (some (key_of row)) ≡ rest
  behind-row seen rest row e =
      ap (filter (is_after table.id_before (key_of row))) e
      ∙ filter-behind table.id_before table.before_once seen rest row
          (subst (IsNewestFirst table.id_before) e listed-IsNewestFirst)

  -- A full page, and what its cursor stands for.
  record FullPage (m : ℕ) (cursor : Option Text) (after : Option ReservationCursor)
      (vs : List ReservationView) : Type 0 where
    encoded : Text
    key : ReservationCursor
    page :
        list_page (prisma_read_model table) codec (query_at (suc m) cursor)
        ≡ ok (record { items = take (suc m) vs; next_cursor = some encoded })
    read : start_after codec (some encoded) ≡ ok (some key)
    rest : behind (some key) ≡ drop (suc m) (behind after)

  full_page :
      (m : ℕ) (cursor : Option Text) (after : Option ReservationCursor) (seen : List Reservation)
      (vs : List ReservationView)
      → suc m ≤ max_page_size
      → start_after codec cursor ≡ ok after
      → listed ≡ seen ++ behind after
      → AreViews (behind after) vs
      → ArePortable codec (behind after)
      → suc m < length vs
      → FullPage m cursor after vs
  full_page m cursor after seen vs high read all viewed portable many =
      let same = length-AreViews (behind after) vs viewed in
      let last = last_row codec m (behind after) vs viewed portable (omega (arith, same, many)) in
      let (encoded, made, decoded) =
        decode-encode codec last.row.reserved_at last.row.id.value last.portable in
      record {
        encoded = encoded;
        key = key_of last.row;
        page =
            list_page-run (suc m) cursor after vs (omega arith) high read viewed
            ∙ page_of-full codec (suc m) vs last.view encoded many last.last
                (cursor_after-row codec last.row last.view encoded last.viewed made);
        read = rw decoded refl;
        rest = behind-row (seen ++ take m (behind after)) (drop (suc m) (behind after)) last.row (
            all
            ∙ ap (λ rs. seen ++ rs) last.split
            ∙ sym (
                append_assoc seen (take m (behind after))
                  (last.row ∷ drop (suc m) (behind after))));
      }

  full_page_seen :
      (m : ℕ) (after : Option ReservationCursor) (key : ReservationCursor) (seen : List Reservation)
      → listed ≡ seen ++ behind after
      → behind (some key) ≡ drop (suc m) (behind after)
      → listed ≡ (seen ++ take (suc m) (behind after)) ++ behind (some key)
  full_page_seen m after key seen all rest =
      all
      ∙ ap (λ rs. seen ++ rs) (sym (take-drop (suc m) (behind after)))
      ∙ sym (append_assoc seen (take (suc m) (behind after)) (drop (suc m) (behind after)))
      ∙ ap (λ rs. (seen ++ take (suc m) (behind after)) ++ rs) (sym rest)

  full_then_rest :
      (m : ℕ) (cursor : Option Text) (after : Option ReservationCursor) (vs : List ReservationView)
      (again : Text → Option (List ReservationView)) (full : FullPage m cursor after vs)
      → again full.encoded ≡ some (drop (suc m) vs)
      → of_page again (list_page (prisma_read_model table) codec (query_at (suc m) cursor))
        ≡ some vs
  full_then_rest m cursor after vs again full e =
      ap (of_page again) full.page
      ∙ ap (append_to (take (suc m) vs)) e
      ∙ ap some (take-drop (suc m) vs)

  last_then_none :
      (m : ℕ) (cursor : Option Text) (after : Option ReservationCursor) (vs : List ReservationView)
      (again : Text → Option (List ReservationView))
      → suc m ≤ max_page_size
      → start_after codec cursor ≡ ok after
      → AreViews (behind after) vs
      → length vs ≤ suc m
      → of_page again (list_page (prisma_read_model table) codec (query_at (suc m) cursor))
        ≡ some vs
  last_then_none m cursor after vs again high read viewed few = ap (of_page again) (
      list_page-run (suc m) cursor after vs (omega arith) high read viewed
      ∙ page_of-rest codec (suc m) vs few)

  follow-behind :
      (pages m : ℕ) (cursor : Option Text) (after : Option ReservationCursor)
      (seen : List Reservation) (vs : List ReservationView)
      → suc m ≤ max_page_size
      → start_after codec cursor ≡ ok after
      → listed ≡ seen ++ behind after
      → AreViews (behind after) vs
      → ArePortable codec (behind after)
      → length vs ≤ pages
      → follow (prisma_read_model table) codec (suc pages) (query_at (suc m) cursor) ≡ some vs
  unfolding follow
  follow-behind zero m cursor after seen vs high read all viewed portable enough =
      last_then_none m cursor after vs (λ c. none) high read viewed (omega (arith, enough))
  follow-behind (suc pages) m cursor after seen vs high read all viewed portable enough =
      let again : Text → Option (List ReservationView) =
        λ c. follow (prisma_read_model table) codec (suc pages) (query_at (suc m) (some c)) in
      elim (Bool-cases (ltb (suc m) (length vs))) [
        | inr few ↦
            last_then_none m cursor after vs again high read viewed (few_left (suc m) vs few)
        | inl many ↦
            let full =
              full_page m cursor after seen vs high read all viewed portable
                (many_left (suc m) vs many) in
            full_then_rest m cursor after vs again full (
              follow-behind pages m (some full.encoded) (some full.key)
                (seen ++ take (suc m) (behind after)) (drop (suc m) vs) high full.read
                (full_page_seen m after full.key seen all full.rest)
                (subst (λ rs. AreViews rs (drop (suc m) vs)) (sym full.rest)
                  (drop-AreViews (suc m) (behind after) vs viewed))
                (subst (ArePortable codec) (sym full.rest)
                  (drop-ArePortable codec (suc m) (behind after) portable))
                (left_enough m pages vs enough))
      ]

  -- Let a database return the first rows that a condition holds for, newest first by time and
  -- then by its order of ids, in which no two ids come before each other, and let a program be
  -- found. Let every reservation of it with the asked status have a view, and let its time and
  -- id be kept by a cursor's texts. Then a client who asks for pages of a size from 1 to 100
  -- and follows the next cursors until there is none, for up to one page more than there are
  -- such reservations, gets the views of all of them, once each and newest first.
  pub pages_are_the_list :
      (pages m : ℕ) (vs : List ReservationView)
      → suc m ≤ max_page_size
      → AreViews listed vs
      → ArePortable codec listed
      → length listed ≤ pages
      → follow (prisma_read_model table) codec (suc pages) (query_at (suc m) none) ≡ some vs
  pages_are_the_list pages m vs high viewed portable enough =
      let all = filter-true listed in
      follow-behind pages m none none [] vs high refl (sym all)
        (subst (λ rs. AreViews rs vs) (sym all) viewed)
        (subst (ArePortable codec) (sym all) portable)
        (omega (arith, length-AreViews listed vs viewed, enough))
