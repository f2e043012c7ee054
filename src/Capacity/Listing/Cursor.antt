-- ===== src/Capacity/Listing/Cursor.antt =====
-- list-reservations/reservation-cursor.ts: a cursor that the service issued is read back.
use program_capacity_invoice.Prelude.{
  ◌<◌, ◌≡◌, refl, arith, false, ◌==◌, some, ℤ, Text, text_eq_refl, length,
}
use program_capacity_invoice.Errors.{ok}
use program_capacity_invoice.Dates.{to_iso_string}
use program_capacity_invoice.Capacity.Listing.{
  CursorCodec, ReservationCursor, pair_json, encode_reservation_cursor, decode_reservation_cursor,
  cursor_of,
}

-- A time and an id that the platform's texts keep: the date reads back what it prints, JSON in
-- base64url reads back what it packs, and the id is not empty.
pub record IsPortable (codec : CursorCodec) (at : ℤ) (id : Text) : Type 0 where
  pub iso : Text
  pub printed : to_iso_string (some at) ≡ ok iso
  pub read : codec.parse_date iso ≡ some at
  pub unpacked : codec.unpack (codec.pack (pair_json iso id)) ≡ some (pair_json iso id)
  pub named : 0 < length id

abbrev pub cursor_for : ℤ → Text → ReservationCursor
cursor_for at id = record { reserved_at = some at; reservation_id = id }

pub encode-IsPortable :
    (codec : CursorCodec) (at : ℤ) (id : Text) (p : IsPortable codec at id)
    → encode_reservation_cursor codec (cursor_for at id) ≡ ok (codec.pack (pair_json p.iso id))
unfolding encode_reservation_cursor
encode-IsPortable codec at id p = rw p.printed refl

named_test : (id : Text) → 0 < length id → (length id == 0) ≡ false
named_test id h = ground arith

-- For a valid time and a nonempty id, where the time's text reads back as that time and the
-- packed JSON of both texts reads back as that JSON: encodeReservationCursor returns a text,
-- and decodeReservationCursor of it gives the time and the id back.
pub decode-encode :
    (codec : CursorCodec) (at : ℤ) (id : Text) (p : IsPortable codec at id)
    → (encoded : Text) × (encode_reservation_cursor codec (cursor_for at id) ≡ ok encoded)
      × (decode_reservation_cursor codec encoded ≡ some (cursor_for at id))
unfolding decode_reservation_cursor cursor_of
decode-encode codec at id p = (
  codec.pack (pair_json p.iso id),
  encode-IsPortable codec at id p,
  rw p.unpacked
      (rw (named_test id p.named) (rw p.read (rw p.printed (rw (text_eq_refl p.iso) refl)))),
)
