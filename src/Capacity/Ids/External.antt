-- ===== src/Capacity/Ids/External.antt =====
-- src/contexts/capacity/domain/ids.ts: ids that match EXTERNAL_ID_PATTERN.
use program_capacity_invoice.Prelude.{
  ℕ, ◌≡◌, refl, arith, Bool, true, false, ◌&&◌, leb, ◌==◌, [], ◌∷◌, Text, length, is_space,
}
use program_capacity_invoice.Prelude.Plain.{AllPlain, trim-AllPlain}
use program_capacity_invoice.Errors.{ok}
use program_capacity_invoice.Capacity.Ids
use program_capacity_invoice.Capacity.Ids.{
  is_external_id, is_id_unit, is_alphanumeric, all_id_units,
}

-- An id of the pattern has no white space, so that `ProgramId.of` keeps it.
unit_plain : (c : ℕ) → is_id_unit c ≡ true → is_space c ≡ false
unfolding is_id_unit is_alphanumeric is_space
unit_plain c h = ground arith

first_plain : (c : ℕ) → is_alphanumeric c ≡ true → is_space c ≡ false
unfolding is_alphanumeric is_space
first_plain c h = ground arith

pub and_true : (a b : Bool) → (a && b) ≡ true → (a ≡ true) × (b ≡ true)
and_true a b h = ground arith

units_plain : (s : Text) → all_id_units s ≡ true → AllPlain s
unfolding all_id_units
units_plain [] h = tt
units_plain (c ∷ s) h =
    let (first, rest) = and_true (is_id_unit c) (all_id_units s) h in
    (unit_plain c first, units_plain s rest)

pub external_plain : (s : Text) → is_external_id s ≡ true → AllPlain s
unfolding is_external_id
external_plain [] h = tt
external_plain (c ∷ s) h =
    let (first, rest) = and_true (is_alphanumeric c && all_id_units s) (leb (length s) 127) h in
    let (letter, units) = and_true (is_alphanumeric c) (all_id_units s) first in
    (first_plain c letter, units_plain s units)

external_nonempty : (s : Text) → is_external_id s ≡ true → (length s == 0) ≡ false
unfolding is_external_id
external_nonempty [] h = cc
external_nonempty (c ∷ s) h = ground arith

pub of-external : (s : Text) → is_external_id s ≡ true → Ids.of s ≡ ok (record { value = s })
unfolding Ids.of
of-external s h = rw (trim-AllPlain s (external_plain s h)) (rw (external_nonempty s h) refl)
