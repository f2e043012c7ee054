-- ===== src/Capacity/Listing.antt =====
-- src/contexts/capacity/application: list-reservations (the handler, its query and its cursors) and
-- get-program-capacity, over the port of the read model; and the read model of infrastructure/
-- persistence/prisma/prisma-capacity-read-model.ts. The database's `findMany`, the packing of JSON as
-- base64url and the reading of dates are outside, and are arguments.
pub mod Rows
pub mod Cursor
pub mod Pages
pub mod Follow
use program_capacity_invoice.Prelude.{
  ℕ, zero, suc, ◌+◌, ◌-◌, ◌≡◌, Bool, true, false, not, ◌&&◌, ◌||◌, ◌==◌, ltb, is_none,
  if◌then◌else◌, Option, none, some, List, [], ◌∷◌, ◌++◌, ℤ, pos, negsuc, pos_part, ltb_ℤ, leb_ℤ,
  ◌==ℤ◌, Text, text_eq, length, take, filter, Json, Items, string, array, nil, cons,
}
use program_capacity_invoice.Money.Types.{Date, Identifier, id_equals}
use program_capacity_invoice.Errors.{
  Result, ok, err, ◌>>=◌, ◌>>◌, throw_if, ReservationStatus, invalid_query, program_not_found,
}
use program_capacity_invoice.Dates.{to_iso_string}
use program_capacity_invoice.Capacity.Reservation.{Reservation, is_released_status}
use program_capacity_invoice.Capacity.Program.State.{Program}
use program_capacity_invoice.Capacity.Views.{
  ProgramCapacityView, ReservationView, to_program_capacity_view, to_reservation_view,
}

-- ports/capacity-read-model.ts
pub record ReservationCursor : Type 0 where
  pub reserved_at : Date
  pub reservation_id : Text

pub record ReservationListRequest : Type 0 where
  pub program_id : Identifier
  pub status : Option ReservationStatus
  pub limit : ℕ
  pub after : Option ReservationCursor

pub record CapacityReadModel : Type 0 where
  pub program_capacity : Identifier → Result (Option ProgramCapacityView)
  pub list_reservations : ReservationListRequest → Result (List ReservationView)

-- views.ts
pub record ReservationPage : Type 0 where
  pub items : List ReservationView
  pub next_cursor : Option Text

-- What reservation-cursor.ts uses of the platform: the base64url text of a JSON value and its
-- reading, which may fail, and `new Date(text)`.
pub record CursorCodec : Type 0 where
  pub pack : Json → Text
  pub unpack : Text → Option Json
  pub parse_date : Text → Date

abbrev pub pair_json : Text → Text → Json
pair_json s t = array (cons (string s) (cons (string t) nil))

-- `encodeReservationCursor`
unfoldable pub encode_reservation_cursor : CursorCodec → ReservationCursor → Result Text
encode_reservation_cursor codec cursor = do
  at ← to_iso_string cursor.reserved_at
  ok (codec.pack (pair_json at cursor.reservation_id))

-- the date must print as the text that it was read from
abbrev pub prints_as : Text → Result Text → Bool
prints_as text (ok printed) = text_eq printed text
prints_as text (err error) = false

abbrev pub cursor_at : Text → Text → Date → Option ReservationCursor
cursor_at text id none = none
cursor_at text id (some at) =
    if prints_as text (to_iso_string (some at))
    then some (record { reserved_at = some at; reservation_id = id })
    else none

unfoldable pub cursor_of : CursorCodec → Json → Option ReservationCursor
cursor_of codec (array (cons (string at) (cons (string id) nil))) =
    if length id == 0 then none else cursor_at at id (codec.parse_date at)
cursor_of codec _ = none

-- `decodeReservationCursor`
abbrev pub cursor_in : CursorCodec → Option Json → Option ReservationCursor
cursor_in codec none = none
cursor_in codec (some json) = cursor_of codec json

unfoldable pub decode_reservation_cursor : CursorCodec → Text → Option ReservationCursor
decode_reservation_cursor codec encoded = cursor_in codec (codec.unpack encoded)

-- list-reservations.query.ts; a limit is a whole number or another one
pub data PageSize : Type 0 where
  whole : ℤ → PageSize
  not_whole : PageSize

pub record ListReservationsQuery : Type 0 where
  pub program_id : Identifier
  pub status : Option ReservationStatus
  pub limit : Option PageSize
  pub cursor : Option Text

abbrev pub default_page_size : ℕ
default_page_size = 50

abbrev pub max_page_size : ℕ
max_page_size = 100

-- `ListReservationsHandler.execute`: its limit, its cursor and its next cursor
abbrev pub page_size : Option PageSize → Result ℕ
page_size none = ok default_page_size
page_size (some not_whole) = err invalid_query
page_size (some (whole n)) =
    if ltb_ℤ n (pos 1) || ltb_ℤ (pos max_page_size) n then err invalid_query else ok (pos_part n)

abbrev pub issued : Option ReservationCursor → Result (Option ReservationCursor)
issued none = err invalid_query
issued (some cursor) = ok (some cursor)

abbrev pub start_after : CursorCodec → Option Text → Result (Option ReservationCursor)
start_after codec none = ok none
start_after codec (some encoded) = issued (decode_reservation_cursor codec encoded)

abbrev pub last_of : List ReservationView → Option ReservationView
last_of [] = none
last_of (view ∷ []) = some view
last_of (view ∷ next ∷ views) = last_of (next ∷ views)

abbrev pub cursor_after : CursorCodec → Option ReservationView → Result (Option Text)
cursor_after codec none = ok none
cursor_after codec (some last) = do
  encoded ←
      encode_reservation_cursor codec
        (record { reserved_at = last.reserved_at; reservation_id = last.reservation_id })
  ok (some encoded)

abbrev pub next_cursor_of : CursorCodec → ℕ → List ReservationView → Result (Option Text)
next_cursor_of codec limit rows =
    if ltb limit (length rows) then cursor_after codec (last_of (take limit rows)) else ok none

unfoldable pub list_page :
    CapacityReadModel → CursorCodec → ListReservationsQuery → Result ReservationPage
list_page model codec query = do
  limit ← page_size query.limit
  after ← start_after codec query.cursor
  found ← model.program_capacity query.program_id
  throw_if (is_none found) (program_not_found query.program_id)
  rows ← model.list_reservations (record {
    program_id = query.program_id;
    status = query.status;
    limit = limit + 1;
    after = after;
  })
  next ← next_cursor_of codec limit rows
  ok (record { items = take limit rows; next_cursor = next })

-- `GetProgramCapacityHandler.execute`
abbrev pub or_not_found : Identifier → Option ProgramCapacityView → Result ProgramCapacityView
or_not_found id none = err (program_not_found id)
or_not_found id (some view) = ok view

unfoldable pub program_capacity_of : CapacityReadModel → Identifier → Result ProgramCapacityView
program_capacity_of model id = do found ← model.program_capacity id; or_not_found id found

-- prisma-capacity-read-model.ts: the rows as the mappers return them. `rows` is what `orderBy` makes
-- of the table, and `id_before` the database's order of ids.
abbrev pub is_older : (Text → Text → Bool) → Date → Text → Reservation → Bool
is_older id_before none id r = false
is_older id_before (some at) id r =
    ltb_ℤ r.reserved_at at || (r.reserved_at ==ℤ at && id_before r.id.value id)

abbrev pub is_after : (Text → Text → Bool) → ReservationCursor → Reservation → Bool
is_after id_before cursor r = is_older id_before cursor.reserved_at cursor.reservation_id r

abbrev pub key_of : Reservation → ReservationCursor
key_of r = record { reserved_at = some r.reserved_at; reservation_id = r.id.value }

-- Newest first: each row comes after every row before it.
abbrev pub AllAfter : (Text → Text → Bool) → ReservationCursor → List Reservation → Type 0
AllAfter id_before cursor [] = Unit {0}
AllAfter id_before cursor (r ∷ rs) =
    (is_after id_before cursor r ≡ true) × AllAfter id_before cursor rs

abbrev pub IsNewestFirst : (Text → Text → Bool) → List Reservation → Type 0
IsNewestFirst id_before [] = Unit {0}
IsNewestFirst id_before (r ∷ rs) = AllAfter id_before (key_of r) rs × IsNewestFirst id_before rs

pub record ReservationTable : Type 0 where
  pub find_unique : Text → Option Program
  pub find_many : (Reservation → Bool) → ℕ → List Reservation
  pub rows : List Reservation
  pub id_before : Text → Text → Bool
  pub find_many-first :
      (where_ : Reservation → Bool) (n : ℕ) → find_many where_ n ≡ take n (filter where_ rows)
  pub newest_first : IsNewestFirst id_before rows
  pub before_once : (a b : Text) → id_before a b ≡ true → id_before b a ≡ false

abbrev pub has_status : Option ReservationStatus → Reservation → Bool
has_status none r = true
has_status (some ReservationStatus.released) r = is_released_status r.status
has_status (some ReservationStatus.active) r = not (is_released_status r.status)

abbrev pub comes_after : (Text → Text → Bool) → Option ReservationCursor → Reservation → Bool
comes_after id_before none r = true
comes_after id_before (some cursor) r = is_after id_before cursor r

abbrev pub is_listed : Identifier → Option ReservationStatus → Reservation → Bool
is_listed program_id status r = text_eq r.program_id.value program_id.value && has_status status r

abbrev pub to_views : List Reservation → Result (List ReservationView)
to_views [] = ok []
to_views (r ∷ rs) = do view ← to_reservation_view r; views ← to_views rs; ok (view ∷ views)

abbrev pub view_or_none : Option Program → Result (Option ProgramCapacityView)
view_or_none none = ok none
view_or_none (some program) = do view ← to_program_capacity_view program; ok (some view)

-- `PrismaCapacityReadModel`
unfoldable pub prisma_read_model : ReservationTable → CapacityReadModel
prisma_read_model table = record {
  program_capacity = λ id. view_or_none (table.find_unique id.value);
  list_reservations = λ request. to_views (
      table.find_many
        (λ r.
          is_listed request.program_id request.status r
          && comes_after table.id_before request.after r)
        request.limit);
}
