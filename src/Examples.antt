-- ===== src/Examples.antt =====
-- A program, a reservation and treasury updates, for the runs of the child modules.
mod Domain
mod Handlers
mod Portfolio
mod Messaging
mod Iam
mod Outbox
mod TreasuryMessage
mod Listing
mod Stored
mod Config
mod Problems
use Prim.Native.String.{String}
use program_capacity_invoice.Prelude.{
  ◌≡◌, ℕ, List, [], ◌∷◌, ◌++◌, Option, none, some, ℤ, pos, neg_ℤ, ◌-ℤ◌, ◌+ℤ◌, ◌*ℤ◌, ◌≤ℤ◌, ◌<ℤ◌,
  tdiv, tmod, codes, text_eq, arith, refl,
}
use program_capacity_invoice.Money.Types.{
  Currency, Money, ExchangeRate, ceiling, floor, Date, Identifier,
}
use program_capacity_invoice.Money.Rounding.{divide_with_rounding, adjust}
use program_capacity_invoice.Money.Rounding.Bounds.{
  divide_with_rounding-floor, divide_with_rounding-ceiling,
}
use program_capacity_invoice.Money.Decimal.{parse_scaled_decimal, format_scaled_decimal, parsed}
use program_capacity_invoice.Money.Decimal.RoundTrip.{parse-format}
use program_capacity_invoice.Money.Rate.{convert}
use program_capacity_invoice.Money.Rate.Convert.{hold, converted, multiplier, divider, IsUsable}
use program_capacity_invoice.Errors.{
  ProgramStatus, ReservationStatus, ok, err, insufficient_capacity, stale_treasury_update,
}
use program_capacity_invoice.Capacity.Reservation.{
  Reservation, record_repayment, capacity_released_once_repaid, check_repayment, rehydrate,
  to_snapshot,
}
use program_capacity_invoice.Capacity.Reservation.Sound
use program_capacity_invoice.Capacity.Reservation.Repay.{
  IsRepaid, IsAcceptable, record_repayment-IsRepaid,
}
use program_capacity_invoice.Capacity.Reservation.Instalments.{
  repay_all, recorded-IsAcceptable, repaid_in_full_frees_held, instalments_do_not_matter,
  accepted-IsRepaid,
}
use program_capacity_invoice.Capacity.Reservation.Restore.{rehydrate-to_snapshot}
use program_capacity_invoice.Capacity.Program.{reserve_for, release, apply_treasury_state, Holding}
use program_capacity_invoice.Capacity.Program.State.{
  Program, TreasuryState, ReserveCapacity, ApplyRepayment,
}
use program_capacity_invoice.Capacity.Program.Guards.{to_program_currency}
use program_capacity_invoice.Capacity.Program.Sound.{IsSound}
use program_capacity_invoice.Capacity.Program.Reserve.{
  Reserves, reserve_for_lem, reserve_for_grants, reserve_for_over_limit,
}
use program_capacity_invoice.Capacity.Program.Release.{Releases, release_lem}
use program_capacity_invoice.Capacity.Program.Moves.{LimitFits}
use program_capacity_invoice.Capacity.Program.Treasury.{
  IsApplied, Applies, apply_treasury_state_lem, newer-IsApplied,
}
use program_capacity_invoice.Capacity.Program.Order.{apply_all, newest_wins, IsReconciled}

-- A program in dollars, and an invoice of 9.99 euros at a rate of 1.08 dollars.
abbrev pub usd : Currency
usd = record { code = codes "USD"; minor_unit_digits = 2 }

abbrev pub eur : Currency
eur = record { code = codes "EUR"; minor_unit_digits = 2 }

abbrev pub dollars : ℕ → Money
dollars n = record { minor_units = pos n; currency = usd }

abbrev pub euros : ℕ → Money
euros n = record { minor_units = pos n; currency = eur }

abbrev pub eur_to_usd : ExchangeRate
eur_to_usd = record { from = eur; to = usd; scaled_rate = pos 108000000; as_of = pos 0 }

abbrev pub named : String → Identifier
named s = record { value = codes s }

abbrev pub program : Program
program = record {
  id = named "program-1";
  version = pos 0;
  credit_limit = dollars 10000;
  reserved_amount = dollars 2000;
  status = ProgramStatus.active;
  treasury_sequence = pos 1;
  events = [];
}

pub program-IsSound : IsSound program
program-IsSound = record {
  limit_positive = omega arith;
  reserved_nonneg = omega arith;
  one_currency = refl;
}

abbrev pub request_of : ℕ → ReserveCapacity
request_of n = record {
  reservation_id = named "reservation-1";
  invoice_id = named "invoice-1";
  reservation_key = none;
  invoice_amount = euros n;
  exchange_rate = some eur_to_usd;
  at = some (pos 1000);
}

abbrev pub request : ReserveCapacity
request = request_of 999

abbrev pub large_request : ReserveCapacity
large_request = request_of 9999

pub usable : IsUsable (some eur_to_usd)
usable = omega arith

-- The reservation of that invoice, before and after 5 of the 9.99 euros are repaid.
abbrev pub reservation : Reservation
reservation = record {
  id = named "reservation-1";
  program_id = named "program-1";
  invoice_id = named "invoice-1";
  reservation_key = none;
  invoice_amount = euros 999;
  reserved_amount = dollars 1079;
  exchange_rate = some eur_to_usd;
  repaid_amount = euros 0;
  released_amount = dollars 0;
  status = ReservationStatus.active;
  reserved_at = pos 1000;
  released_at = none;
}

pub reservation-IsSound : Sound.IsSound reservation
unfolding hold converted multiplier divider
reservation-IsSound = record {
  invoice_positive = omega arith;
  repaid_nonneg = omega arith;
  repaid_within = omega arith;
  usable = usable;
  leads = (refl, refl);
  holds = refl;
  frees = refl;
  repaid_currency = refl;
  released_currency = refl;
  status_fits = refl;
  times_fit = refl;
}

abbrev pub holding : Holding
holding = record { program = program; reservation = reservation }

abbrev pub repayment : ApplyRepayment
repayment = record {
  repayment_id = named "repayment-1";
  amount = some (euros 500);
  at = some (pos 2000);
}

abbrev pub repaid_by : ℕ → ℕ → ReservationStatus → Option ℤ → Reservation
repaid_by n m s t = record reservation {
  repaid_amount = euros n;
  released_amount = dollars m;
  status = s;
  released_at = t;
}

abbrev pub two_halves : List (Money × Date)
two_halves = (euros 500, some (pos 2000)) ∷ (euros 499, some (pos 3000)) ∷ []

abbrev pub at_once : List (Money × Date)
at_once = (euros 999, some (pos 4000)) ∷ []

-- Treasury updates: a cut below what is reserved, and two that come late.
abbrev pub reconciliation : TreasuryState
reconciliation = record {
  credit_limit = some (dollars 500);
  sequence = pos 7;
  status = some ProgramStatus.suspended;
  at = some (pos 5000);
}

abbrev pub older : TreasuryState
older = record {
  credit_limit = some (dollars 800);
  sequence = pos 3;
  status = none;
  at = some (pos 4000);
}
