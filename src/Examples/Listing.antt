-- ===== src/Examples/Listing.antt =====
-- Two reservations of a program, listed one on a page.
use program_capacity_invoice.Prelude.{
  ◌≡◌, refl, arith, Bool, true, false, ◌&&◌, ◌||◌, ltb, ◌==◌, none, some, List, [], ◌∷◌, ◌++◌, pos,
  ◌-ℤ◌, ◌+ℤ◌, ◌*ℤ◌, Text, text_eq, codes, Json, take, drop, filter, if◌then◌else◌, string, array,
  nil, cons,
}
use program_capacity_invoice.Errors.{ok, ReservationStatus}
use program_capacity_invoice.Dates.{to_iso_string, civil_date, floor_div, floor_mod}
use program_capacity_invoice.Money.Decimal.{to_string}
use program_capacity_invoice.Capacity.Reservation.{Reservation}
use program_capacity_invoice.Capacity.Views.{
  ReservationView, ProgramCapacityView, to_reservation_view, to_program_capacity_view,
}
use program_capacity_invoice.Capacity.Listing.{
  CursorCodec, ReservationTable, pair_json, encode_reservation_cursor, decode_reservation_cursor,
  prisma_read_model, view_or_none,
}
use program_capacity_invoice.Capacity.Listing.Cursor.{IsPortable, cursor_for, decode-encode}
use program_capacity_invoice.Capacity.Listing.Follow.{follow, query_at, pages_are_the_list}
use program_capacity_invoice.Examples.{program, reservation, named, euros, dollars}

-- Texts in the order of their units.
abbrev text_before : Text → Text → Bool
text_before [] [] = false
text_before [] (d ∷ t) = true
text_before (c ∷ s) [] = false
text_before (c ∷ s) (d ∷ t) = ltb c d || (c == d && text_before s t)

text_before_once : (s t : Text) → text_before s t ≡ true → text_before t s ≡ false
text_before_once [] [] h = refl
text_before_once [] (d ∷ t) h = refl
text_before_once (c ∷ s) [] h = cc
text_before_once (c ∷ s) (d ∷ t) h = ground (arith, text_before_once s t)

abbrev later_reservation : Reservation
later_reservation = record reservation { id = named "reservation-2"; reserved_at = pos 2000 }

abbrev stored : List Reservation
stored = later_reservation ∷ reservation ∷ []

abbrev table : ReservationTable
table = record {
  find_unique = λ id. if text_eq id (codes "program-1") then some program else none;
  find_many = λ where_ n. take n (filter where_ stored);
  rows = stored;
  id_before = text_before;
  find_many-first = λ where_ n. refl;
  newest_first = ((refl, tt), (tt, tt));
  before_once = text_before_once;
}

abbrev iso : Text
iso = codes "1970-01-01T00:00:01.000Z"

abbrev later_iso : Text
later_iso = codes "1970-01-01T00:00:02.000Z"

abbrev pack : Json → Text
pack (array (cons (string s) (cons (string t) nil))) = s ++ t
pack _ = []

abbrev codec : CursorCodec
codec = record {
  pack = pack;
  unpack = λ text. some (pair_json (take 24 text) (drop 24 text));
  parse_date = λ text. if text_eq text iso then some (pos 1000) else some (pos 2000);
}

earlier-IsPortable : IsPortable codec (pos 1000) (codes "reservation-1")
unfolding to_iso_string civil_date floor_div floor_mod to_string ◌+ℤ◌ ◌*ℤ◌ text_eq
earlier-IsPortable = record {
  iso = iso;
  printed = refl;
  read = refl;
  unpacked = refl;
  named = omega arith;
}

later-IsPortable : IsPortable codec (pos 2000) (codes "reservation-2")
unfolding to_iso_string civil_date floor_div floor_mod to_string ◌+ℤ◌ ◌*ℤ◌ text_eq
later-IsPortable = record {
  iso = later_iso;
  printed = refl;
  read = refl;
  unpacked = refl;
  named = omega arith;
}

decode-encode_example :
    (encoded : Text) × (encode_reservation_cursor codec
        (cursor_for (pos 1000) (codes "reservation-1"))
      ≡ ok encoded)
    × (decode_reservation_cursor codec encoded
        ≡ some (cursor_for (pos 1000) (codes "reservation-1")))
decode-encode_example = decode-encode codec (pos 1000) (codes "reservation-1") earlier-IsPortable

abbrev view : ReservationView
view = record {
  reservation_id = codes "reservation-1";
  program_id = codes "program-1";
  invoice_id = codes "invoice-1";
  reservation_key = none;
  status = ReservationStatus.active;
  invoice_amount = euros 999;
  reserved_amount = dollars 1079;
  exchange_rate = reservation.exchange_rate;
  repaid_amount = euros 0;
  released_amount = dollars 0;
  outstanding_amount = euros 999;
  held_amount = dollars 1079;
  reserved_at = some (pos 1000);
  released_at = none;
}

abbrev later_view : ReservationView
later_view = record view { reservation_id = codes "reservation-2"; reserved_at = some (pos 2000) }

abbrev capacity : ProgramCapacityView
capacity = record {
  program_id = codes "program-1";
  currency = program.credit_limit.currency;
  credit_limit = program.credit_limit;
  reserved_amount = program.reserved_amount;
  available_capacity = dollars 8000;
  status = program.status;
}

capacity_found : view_or_none (table.find_unique (codes "program-1")) ≡ ok (some capacity)
unfolding to_program_capacity_view ◌-ℤ◌ text_eq
capacity_found = refl

viewed : to_reservation_view reservation ≡ ok view
unfolding to_reservation_view ◌-ℤ◌ text_eq
viewed = refl

later_viewed : to_reservation_view later_reservation ≡ ok later_view
unfolding to_reservation_view ◌-ℤ◌ text_eq
later_viewed = refl

pages_are_the_list_example :
    follow
      (prisma_read_model table)
      codec
      3
      (query_at table codec (named "program-1") none capacity capacity_found 1 none)
    ≡ some (later_view ∷ view ∷ [])
unfolding text_eq
pages_are_the_list_example =
    pages_are_the_list table codec (named "program-1") none capacity capacity_found 2 0
      (later_view ∷ view ∷ []) (omega arith) (later_viewed, (viewed, tt))
      (later-IsPortable, (earlier-IsPortable, tt)) (omega arith)
