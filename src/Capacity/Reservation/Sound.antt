-- ===== src/Capacity/Reservation/Sound.antt =====
-- The invariant of the reservations that `Program` creates and repays, which is stronger than what
-- `assertConsistent` tests: the amounts held and freed are those that the rate gives.
use program_capacity_invoice.Prelude.{
  ℕ, ◌≡◌, ◌==◌, Option, none, some, if◌then◌else◌, ℤ, pos, nat_abs, ◌≤ℤ◌, ◌<ℤ◌,
}
use program_capacity_invoice.Money.Types.{Currency, ExchangeRate}
use program_capacity_invoice.Money.Rate.Convert.{hold, converted, IsUsable}
use program_capacity_invoice.Errors.{ReservationStatus}
use program_capacity_invoice.Capacity.Reservation.{Reservation}

-- The capacity freed once p of n minor units are repaid.
abbrev pub freed : Option ExchangeRate → ℕ → ℕ → ℕ
freed rate n p = if p == n then hold rate n else converted rate p

abbrev pub status_at : ℕ → ℕ → ReservationStatus
status_at n p = if p == n then ReservationStatus.released else ReservationStatus.active

-- The rate leads from the invoice's currency to the program's; without one they are the same.
abbrev pub Leads : Option ExchangeRate → Currency → Currency → Type 0
Leads none from to = to.code ≡ from.code
Leads (some r) from to = (r.from.code ≡ from.code) × (r.to.code ≡ to.code)

-- A release time is there once the reservation is released, and not before it was made.
abbrev pub TimesFit : ReservationStatus → Option ℤ → ℤ → Type 0
TimesFit ReservationStatus.active released_at reserved_at = released_at ≡ none
TimesFit ReservationStatus.released none reserved_at = ⊥
TimesFit ReservationStatus.released (some released_at) reserved_at = reserved_at ≤ℤ released_at

abbrev pub invoiced : Reservation → ℕ
invoiced r = nat_abs r.invoice_amount.minor_units

abbrev pub repaid : Reservation → ℕ
repaid r = nat_abs r.repaid_amount.minor_units

pub record IsSound (r : Reservation) : Type 0 where
  pub invoice_positive : pos 0 <ℤ r.invoice_amount.minor_units
  pub repaid_nonneg : pos 0 ≤ℤ r.repaid_amount.minor_units
  pub repaid_within : r.repaid_amount.minor_units ≤ℤ r.invoice_amount.minor_units
  pub usable : IsUsable r.exchange_rate
  pub leads : Leads r.exchange_rate r.invoice_amount.currency r.reserved_amount.currency
  pub holds : r.reserved_amount.minor_units ≡ pos (hold r.exchange_rate (invoiced r))
  pub frees : r.released_amount.minor_units ≡ pos (freed r.exchange_rate (invoiced r) (repaid r))
  pub repaid_currency : r.repaid_amount.currency.code ≡ r.invoice_amount.currency.code
  pub released_currency : r.released_amount.currency.code ≡ r.reserved_amount.currency.code
  pub status_fits : r.status ≡ status_at (invoiced r) (repaid r)
  pub times_fit : TimesFit r.status r.released_at r.reserved_at
