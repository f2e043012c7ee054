-- ===== src/Capacity/Views.antt =====
-- src/contexts/capacity/application/views.ts. A view reads the getters, which may throw.
use program_capacity_invoice.Prelude.{◌≡◌, sym, ap, Option, none, some, Text}
use program_capacity_invoice.Money.Types.{Currency, Money, ExchangeRate, Date, Identifier}
use program_capacity_invoice.Errors.{
  ProgramStatus, ReservationStatus, Result, ok, ◌>>=◌, >>=-ok, ok_injective,
}
use program_capacity_invoice.Capacity.Reservation.{
  Reservation, outstanding_amount, held_amount, as_date,
}
use program_capacity_invoice.Capacity.Program.State.{Program}
use program_capacity_invoice.Capacity.Program.Guards.{program_currency, available_capacity}

pub record ProgramCapacityView : Type 0 where
  pub program_id : Text
  pub currency : Currency
  pub credit_limit : Money
  pub reserved_amount : Money
  pub available_capacity : Money
  pub status : ProgramStatus

pub record ReservationView : Type 0 where
  pub reservation_id : Text
  pub program_id : Text
  pub invoice_id : Text
  pub reservation_key : Option Text
  pub status : ReservationStatus
  pub invoice_amount : Money
  pub reserved_amount : Money
  pub exchange_rate : Option ExchangeRate
  pub repaid_amount : Money
  pub released_amount : Money
  pub outstanding_amount : Money
  pub held_amount : Money
  pub reserved_at : Date
  pub released_at : Option Date

abbrev pub value_of : Option Identifier → Option Text
value_of none = none
value_of (some id) = some id.value

-- `toProgramCapacityView`
unfoldable pub to_program_capacity_view : Program → Result ProgramCapacityView
to_program_capacity_view p = do
  available ← available_capacity p
  ok (record {
    program_id = p.id.value;
    currency = program_currency p;
    credit_limit = p.credit_limit;
    reserved_amount = p.reserved_amount;
    available_capacity = available;
    status = p.status;
  })

-- `toReservationView`
unfoldable pub to_reservation_view : Reservation → Result ReservationView
to_reservation_view r = do
  outstanding ← outstanding_amount r
  held ← held_amount r
  ok (record {
    reservation_id = r.id.value;
    program_id = r.program_id.value;
    invoice_id = r.invoice_id.value;
    reservation_key = value_of r.reservation_key;
    status = r.status;
    invoice_amount = r.invoice_amount;
    reserved_amount = r.reserved_amount;
    exchange_rate = r.exchange_rate;
    repaid_amount = r.repaid_amount;
    released_amount = r.released_amount;
    outstanding_amount = outstanding;
    held_amount = held;
    reserved_at = some r.reserved_at;
    released_at = as_date r.released_at;
  })

-- A view has the time and the id of its reservation.
pub view-key :
    (r : Reservation) (v : ReservationView)
    → to_reservation_view r ≡ ok v
    → (v.reserved_at ≡ some r.reserved_at) × (v.reservation_id ≡ r.id.value)
unfolding to_reservation_view
view-key r v e =
    let (_, _, rest) = >>=-ok (outstanding_amount r) _ e in
    let (_, _, last) = >>=-ok (held_amount r) _ rest in
    (
      sym (ap (λ (w : ReservationView). w.reserved_at) (ok_injective last)),
      sym (ap (λ (w : ReservationView). w.reservation_id) (ok_injective last)),
    )
