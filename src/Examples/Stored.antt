-- ===== src/Examples/Stored.antt =====
-- The program and the reservation of the examples, as rows.
use program_capacity_invoice.Prelude.{
  ◌≡◌, refl, some, List, [], ◌∷◌, pos, ℕ, Text, text_eq, codes, trim, trim_start, is_space, false,
  find,
}
use program_capacity_invoice.Errors.{ok}
use program_capacity_invoice.Money.Currency
use program_capacity_invoice.Capacity.Ids
use program_capacity_invoice.Capacity.Events.{DomainEvent, capacity_released}
use program_capacity_invoice.Capacity.Mappers.{
  to_program, from_program, to_reservation, from_reservation,
}
use program_capacity_invoice.Capacity.Mappers.Known.{IsKnown, IsTidy}
use program_capacity_invoice.Capacity.Mappers.Programs.{to_program-from_program}
use program_capacity_invoice.Capacity.Mappers.Reservations.{
  IsStorable, to_reservation-from_reservation,
}
use program_capacity_invoice.Capacity.Store.{map_release, released_movement}
use program_capacity_invoice.Capacity.Ledger.{movement_rows, has_movement_key, repayment_in}
use program_capacity_invoice.Capacity.Ledger.Recorded.{repayment_in-released_movement}
use program_capacity_invoice.Examples.{
  usd, eur, dollars, euros, named, program, program-IsSound, reservation, reservation-IsSound,
}

usd-IsKnown : IsKnown usd
unfolding Currency.of Currency.normalise Currency.to_upper_case Currency.upper_unit
    Currency.of_digits Currency.get Currency.minor_unit_table text_eq trim trim_start is_space
usd-IsKnown = refl

eur-IsKnown : IsKnown eur
unfolding Currency.of Currency.normalise Currency.to_upper_case Currency.upper_unit
    Currency.of_digits Currency.get Currency.minor_unit_table text_eq trim trim_start is_space
eur-IsKnown = refl

program-IsTidy : IsTidy (named "program-1")
unfolding Ids.of trim trim_start is_space
program-IsTidy = refl

reservation-IsTidy : IsTidy (named "reservation-1")
unfolding Ids.of trim trim_start is_space
reservation-IsTidy = refl

invoice-IsTidy : IsTidy (named "invoice-1")
unfolding Ids.of trim trim_start is_space
invoice-IsTidy = refl

to_program-from_program_example : to_program (from_program program) ≡ ok program
to_program-from_program_example =
    to_program-from_program program program-IsSound refl refl program-IsTidy usd-IsKnown usd-IsKnown

-- A decimal column that keeps its text.
abbrev stored : Text → Text
stored text = text

abbrev to_fixed : Text → ℕ → Text
to_fixed text places = text

reservation-IsStorable : IsStorable stored to_fixed reservation
reservation-IsStorable = record {
  id = reservation-IsTidy;
  program_id = program-IsTidy;
  invoice_id = invoice-IsTidy;
  key = tt;
  invoice_known = eur-IsKnown;
  reserved_known = usd-IsKnown;
  repaid_known = eur-IsKnown;
  released_known = usd-IsKnown;
  rate_known = (eur-IsKnown, usd-IsKnown, refl);
}

to_reservation-from_reservation_example :
    to_reservation stored to_fixed (from_reservation stored to_fixed reservation) ≡ ok reservation
to_reservation-from_reservation_example =
    to_reservation-from_reservation stored to_fixed reservation reservation-IsSound
      reservation-IsStorable

abbrev released : List DomainEvent
released =
    capacity_released (record {
      aggregate_id = codes "program-1";
      occurred_at = some (pos 2000);
      reservation_id = named "reservation-1";
      invoice_id = named "invoice-1";
      repayment_id = named "repayment-1";
      repaid_amount = euros 500;
      released_amount = dollars 540;
      reservation_fully_released = false;
      available_after = dollars 8540;
    })
    ∷ []

repayment_in-released_movement_example :
    repayment_in
      (find (has_movement_key (codes "program-1") (codes "repayment-1")) (movement_rows released))
    ≡ ok (map_release (released_movement (codes "program-1") (named "repayment-1") released))
repayment_in-released_movement_example =
    repayment_in-released_movement (codes "program-1") (named "repayment-1") released
      ((reservation-IsTidy, eur-IsKnown, usd-IsKnown), tt)
