-- ===== src/Capacity/Handlers/Reserving.antt =====
-- src/contexts/capacity/application/reserve-capacity. The rate provider, the new reservation's id and
-- the clock's reading come from outside the code, and are arguments.
use program_capacity_invoice.Prelude.{
  Bool, true, false, not, Option, none, some, is_none, Text, if◌then◌else◌,
}
use program_capacity_invoice.Money.Types.{
  Currency, Money, ExchangeRate, Date, Identifier, currency_equals,
}
use program_capacity_invoice.Money.Amount.{money_equals}
use program_capacity_invoice.Errors.{
  Result, ok, err, throw_if, program_not_found, invoice_still_active, invoice_already_repaid,
  invoice_already_reserved_for_amount,
}
use program_capacity_invoice.Exec.{Exec, pure, throw, lift, ◌>>=◌, ◌>>◌}
use program_capacity_invoice.Capacity.Ids
use program_capacity_invoice.Capacity.Views.{
  ReservationView, ProgramCapacityView, to_reservation_view, to_program_capacity_view,
}
use program_capacity_invoice.Capacity.Reservation.{Reservation}
use program_capacity_invoice.Capacity.Program.{reserve_for}
use program_capacity_invoice.Capacity.Program.State.{Program}
use program_capacity_invoice.Capacity.Store.{
  Store, run, present, lock_by_id, save_program, find_active_by_invoice, find_by_key,
  has_released_for_invoice, insert_reservation, record_movements, add_outbox,
}
use program_capacity_invoice.Capacity.Handlers.Repayment.{called, or_throw}

pub record ReserveCapacityCommand : Type 0 where
  pub program_id : Identifier
  pub invoice_id : Identifier
  pub invoice_amount : Money
  pub reservation_key : Option Identifier

pub record ReserveCapacityResult : Type 0 where
  pub reservation : ReservationView
  pub created : Bool

pub record ReserveOutcome : Type 0 where
  pub reservation : Reservation
  pub created : Bool

-- What the handler is handed: `exchangeRates.rateFor`, `randomUUID()` and `clock.now()`.
pub record Ports : Type 0 where
  pub rate_for : Currency → Currency → Result ExchangeRate
  pub random_id : Text
  pub now : Date

abbrev pub view_found : Option Program → Result (Option ProgramCapacityView)
view_found none = ok none
view_found (some program) = present (to_program_capacity_view program)

-- `readModel.getProgramCapacity`
unfoldable pub get_program_capacity : Identifier → Exec Store (Option ProgramCapacityView)
get_program_capacity id = do found ← lock_by_id id; lift (view_found found)

abbrev pub some_rate : Result ExchangeRate → Result (Option ExchangeRate)
some_rate (ok rate) = ok (some rate)
some_rate (err error) = err error

-- `rateIntoProgramCurrency`: a `RateLookup` is the inner result
unfoldable pub rate_into_program_currency :
    Ports → ReserveCapacityCommand → Exec Store (Result (Option ExchangeRate))
rate_into_program_currency ports command = do
  found ← get_program_capacity command.program_id
  program ← or_throw (throw (program_not_found command.program_id)) found
  let invoice_currency = command.invoice_amount.currency
  pure (
      if currency_equals invoice_currency program.currency
      then ok none
      else some_rate (ports.rate_for invoice_currency program.currency))

-- `findRepeated`
unfoldable pub find_unkeyed :
    ReserveCapacityCommand → Option Reservation → Exec Store (Option Reservation)
find_unkeyed command (some active) = pure (some active)
find_unkeyed command none = do
  repaid ← has_released_for_invoice command.program_id command.invoice_id
  lift (throw_if repaid (invoice_already_repaid command.invoice_id))
  pure none

unfoldable pub find_keyed :
    ReserveCapacityCommand → Option Reservation → Exec Store (Option Reservation)
find_keyed command (some keyed) = pure (some keyed)
find_keyed command none = do
  active ← find_active_by_invoice command.program_id command.invoice_id
  lift (throw_if (not (is_none active)) (invoice_still_active command.invoice_id))
  pure none

unfoldable pub find_repeated :
    ReserveCapacityCommand → Option Identifier → Exec Store (Option Reservation)
find_repeated command none = do
  active ← find_active_by_invoice command.program_id command.invoice_id
  find_unkeyed command active
find_repeated command (some key) = do
  keyed ← find_by_key command.program_id command.invoice_id key
  find_keyed command keyed

-- `replayOf`
unfoldable pub reserved_before : Reservation → ReserveCapacityCommand → Result ReserveOutcome
reserved_before existing command =
    if money_equals existing.invoice_amount command.invoice_amount
    then ok (record { reservation = existing; created = false })
    else err (
        invoice_already_reserved_for_amount command.invoice_id existing.invoice_amount
          command.invoice_amount)

-- a request that repeats none
unfoldable pub reserve_now :
    Ports
    → ReserveCapacityCommand
    → Result (Option ExchangeRate)
    → Program
    → Exec Store ReserveOutcome
reserve_now ports command lookup program = do
  rate ← lift lookup
  reservation_id ← lift (Ids.of ports.random_id)
  after ← called (
      reserve_for
        (record {
          reservation_id = reservation_id;
          invoice_id = command.invoice_id;
          reservation_key = command.reservation_key;
          invoice_amount = command.invoice_amount;
          exchange_rate = rate;
          at = ports.now;
        })
        program)
  save_program after.1
  insert_reservation after.0
  record_movements after.1.events
  add_outbox after.1.events
  pure (record { reservation = after.0; created = true })

unfoldable pub replay_or_reserve :
    Ports
    → ReserveCapacityCommand
    → Result (Option ExchangeRate)
    → Program
    → Option Reservation
    → Exec Store ReserveOutcome
replay_or_reserve ports command lookup program (some existing) =
    lift (reserved_before existing command)
replay_or_reserve ports command lookup program none = reserve_now ports command lookup program

-- the work of the transaction
unfoldable pub reserve_work :
    Ports → ReserveCapacityCommand → Result (Option ExchangeRate) → Exec Store ReserveOutcome
reserve_work ports command lookup = do
  found ← lock_by_id command.program_id
  program ← or_throw (throw (program_not_found command.program_id)) found
  existing ← find_repeated command command.reservation_key
  replay_or_reserve ports command lookup program existing

-- `execute`
unfoldable pub reserve_capacity : Ports → ReserveCapacityCommand → Exec Store ReserveCapacityResult
reserve_capacity ports command = do
  lookup ← rate_into_program_currency ports command
  outcome ← run (reserve_work ports command lookup)
  view ← lift (to_reservation_view outcome.reservation)
  pure (record { reservation = view; created = outcome.created })
