-- ===== src/Capacity/Handlers/Repeat.antt =====
-- Requests for a reservation that is already there.
use program_capacity_invoice.Prelude.{
  ◌≡◌, ◌⊎◌, false, Option, none, some, refl, inl, inr, ap, ◌∙◌, Bool-cases, find, if◌then◌else◌,
}
use program_capacity_invoice.Money.Types.{ExchangeRate, Identifier, currency_equals}
use program_capacity_invoice.Money.Amount.{money_equals}
use program_capacity_invoice.Errors.{Result, ok, err, invoice_already_reserved_for_amount}
use program_capacity_invoice.Capacity.Views.{
  ProgramCapacityView, ReservationView, to_program_capacity_view, to_reservation_view,
}
use program_capacity_invoice.Capacity.Reservation.{Reservation, ReservationSnapshot, rehydrate}
use program_capacity_invoice.Capacity.Program.State.{Program}
use program_capacity_invoice.Capacity.Store.{
  Store, run, rolled_back, lock_by_id, find_active_by_invoice, find_by_key, active_for, for_invoice,
  has_key,
}
use program_capacity_invoice.Capacity.Handlers.Reserving.{
  some_rate, Ports, ReserveCapacityCommand, ReserveCapacityResult, get_program_capacity,
  rate_into_program_currency, find_repeated, find_keyed, find_unkeyed, reserved_before,
  replay_or_reserve, reserve_work, reserve_capacity,
}
use program_capacity_invoice.Capacity.Handlers.Same.{
  IsSameMoney, money_equals-IsSameMoney, money_equals-false,
}

-- The row that a request repeats: that of its key, or the active one of its invoice without a key.
abbrev pub repeated_row :
    ReserveCapacityCommand → Option Identifier → Store → Option ReservationSnapshot
repeated_row command none s = active_for command.program_id command.invoice_id s
repeated_row command (some key) s =
    find (has_key key) (for_invoice command.program_id command.invoice_id s)

find_repeated-some :
    (command : ReserveCapacityCommand) (key : Option Identifier) (row : ReservationSnapshot)
    (r : Reservation) (s : Store)
    → repeated_row command key s ≡ some row
    → rehydrate row ≡ ok r
    → find_repeated command key s ≡ (ok (some r), s)
unfolding find_repeated find_active_by_invoice find_by_key find_unkeyed find_keyed
find_repeated-some command none row r s there held = rw there (rw held refl)
find_repeated-some command (some key) row r s there held = rw there (rw held refl)

rate_into-found :
    (ports : Ports) (command : ReserveCapacityCommand) (s : Store) (p : Program)
    (shown : ProgramCapacityView)
    → (lock_by_id command.program_id s).0 ≡ ok (some p)
    → to_program_capacity_view p ≡ ok shown
    → (lookup : Result (Option ExchangeRate)) × (rate_into_program_currency ports command s
        ≡ (ok lookup, s))
unfolding rate_into_program_currency get_program_capacity lock_by_id
rate_into-found ports command s p shown stored visible =
    let currency = command.invoice_amount.currency in
    (
      if currency_equals currency shown.currency
          then ok none
          else some_rate (ports.rate_for currency shown.currency),
      rw stored (rw visible refl),
    )

reserve_work-repeated :
    (ports : Ports) (command : ReserveCapacityCommand) (lookup : Result (Option ExchangeRate))
    (s : Store) (p : Program) (row : ReservationSnapshot) (r : Reservation)
    → (lock_by_id command.program_id s).0 ≡ ok (some p)
    → repeated_row command command.reservation_key s ≡ some row
    → rehydrate row ≡ ok r
    → run (reserve_work ports command lookup) s ≡ rolled_back s (reserved_before r command, s)
unfolding run reserve_work lock_by_id replay_or_reserve
reserve_work-repeated ports command lookup s p row r stored there held =
    rw stored (rw (find_repeated-some command command.reservation_key row r s there held) refl)

reserved_before-cases :
    (r : Reservation) (command : ReserveCapacityCommand)
    → (IsSameMoney r.invoice_amount command.invoice_amount
        × (reserved_before r command ≡ ok (record { reservation = r; created = false })))
      ⊎ (¬ IsSameMoney r.invoice_amount command.invoice_amount
          × (reserved_before r command
              ≡ err (
                  invoice_already_reserved_for_amount command.invoice_id r.invoice_amount
                    command.invoice_amount)))
unfolding reserved_before
reserved_before-cases r command =
    elim (Bool-cases (money_equals r.invoice_amount command.invoice_amount)) [
      | inl e ↦ inl (money_equals-IsSameMoney r.invoice_amount command.invoice_amount e, rw e refl)
      | inr e ↦ inr (money_equals-false r.invoice_amount command.invoice_amount e, rw e refl)
    ]

-- What the handler does with a request that repeats the reservation r.
abbrev pub IsRepeat :
    Reservation → ReserveCapacityCommand → ReservationView → Result ReserveCapacityResult → Type 0
IsRepeat r command view result =
    (IsSameMoney r.invoice_amount command.invoice_amount
      × (result ≡ ok (record { reservation = view; created = false })))
    ⊎ (¬ IsSameMoney r.invoice_amount command.invoice_amount
        × (result
            ≡ err (
                invoice_already_reserved_for_amount command.invoice_id r.invoice_amount
                  command.invoice_amount)))

-- Let a request repeat a stored row, the one of its reservation key for its program and
-- invoice, or without a key the active one of its invoice, and let the program, the row and
-- their views be read without an error. Whatever the rate provider does, an error included,
-- and whatever else the store holds, the new id and the time, the handler leaves the whole
-- store as it was. If the row's invoice amount is the request's, in number and currency code,
-- it returns the row's view, marked as not created; otherwise it throws InvoiceAlreadyReserved
-- with both amounts.
pub repeated_request_reserves_nothing :
    (ports : Ports) (command : ReserveCapacityCommand) (s : Store) (p : Program)
    (shown : ProgramCapacityView) (row : ReservationSnapshot) (r : Reservation)
    (view : ReservationView)
    → (lock_by_id command.program_id s).0 ≡ ok (some p)
    → to_program_capacity_view p ≡ ok shown
    → repeated_row command command.reservation_key s ≡ some row
    → rehydrate row ≡ ok r
    → to_reservation_view r ≡ ok view
    → ((reserve_capacity ports command s).1 ≡ s)
      × IsRepeat r command view (reserve_capacity ports command s).0
unfolding reserve_capacity
repeated_request_reserves_nothing ports command s p shown row r view stored visible there held
      viewed =
    let (lookup, looked_up) = rate_into-found ports command s p shown stored visible in
    let worked = reserve_work-repeated ports command lookup s p row r stored there held in
    rw looked_up (elim (reserved_before-cases r command) [
      | inl (same, replayed) ↦
          rw (worked ∙ ap (λ x. rolled_back s (x, s)) replayed) (rw viewed (refl, inl (same, refl)))
      | inr (other, refused) ↦
          rw (worked ∙ ap (λ x. rolled_back s (x, s)) refused) (refl, inr (other, refl))
    ])
