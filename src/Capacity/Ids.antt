-- ===== src/Capacity/Ids.antt =====
-- src/shared/domain/identifier.ts and src/contexts/capacity/domain/ids.ts
pub mod External
use program_capacity_invoice.Prelude.{
  ℕ, ◌∷◌, [], Bool, true, false, ◌==◌, leb, ◌&&◌, ◌||◌, if◌then◌else◌, Text, trim, length,
}
use program_capacity_invoice.Money.Types.{Identifier}
use program_capacity_invoice.Errors.{Result, ok, err, invalid_identifier}

-- The constructor of `Identifier`, which each `of` of ids.ts calls
unfoldable pub of : Text → Result Identifier
of value =
    if length (trim value) == 0 then err invalid_identifier else ok (record { value = trim value })

unfoldable pub is_alphanumeric : ℕ → Bool
is_alphanumeric c =
    (leb b'A' c && leb c b'Z') || (leb b'a' c && leb c b'z') || (leb b'0' c && leb c b'9')

unfoldable pub is_id_unit : ℕ → Bool
is_id_unit c = is_alphanumeric c || c == b'.' || c == b'_' || c == b':' || c == b'-'

unfoldable pub all_id_units : Text → Bool
all_id_units [] = true
all_id_units (c ∷ s) = is_id_unit c && all_id_units s

-- EXTERNAL_ID_PATTERN.test(s)
unfoldable pub is_external_id : Text → Bool
is_external_id [] = false
is_external_id (c ∷ s) = is_alphanumeric c && all_id_units s && leb (length s) 127
