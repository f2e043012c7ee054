-- ===== src/Capacity/Store.antt =====
-- test/support/in-memory-capacity.ts: the ports of the domain over a store of snapshots, as the
-- handlers use them. An action that throws inside `run` leaves the store as it was before.
use program_capacity_invoice.Prelude.{
  Json, Bool, true, false, not, ◌&&◌, Option, none, some, List, [], ◌∷◌, ◌++◌, ℤ, pos, ◌+ℤ◌, ◌==ℤ◌,
  is_none, codes, Text, text_eq, if◌then◌else◌, Dict, lookup, insert, values, find, filter, any,
}
use program_capacity_invoice.Money.Types.{Money, Date, Identifier, id_equals}
use program_capacity_invoice.Errors.{
  Error, Result, ok, err, throw_if, foreign, invariant_violation, program_already_exists,
  treasury_event_already_recorded,
}
use program_capacity_invoice.Exec.{Exec, pure, lift, get, modify, ◌>>=◌, ◌>>◌}
use program_capacity_invoice.Capacity.Events.{
  DomainEvent, CapacityReleased, program_opened, capacity_reserved, capacity_released,
  credit_limit_changed, program_status_changed,
}
use program_capacity_invoice.Capacity.Reservation.{
  Reservation, ReservationSnapshot, is_released_status,
}
use program_capacity_invoice.Capacity.Reservation
use program_capacity_invoice.Capacity.Program.State.{Program, ProgramSnapshot, to_snapshot}
use program_capacity_invoice.Capacity.Program.Guards.{rehydrate}

-- `TreasuryEventKind` and `TreasuryEventRecord`; the reason is the error whose message it is
pub data TreasuryEventKind : Type 0 where
  capacity_changed status_changed state_reconciled : TreasuryEventKind

pub record TreasuryEventRecord : Type 0 where
  pub program_id : Identifier
  pub event_id : Text
  pub kind : TreasuryEventKind
  pub sequence : ℤ
  pub applied : Bool
  pub reason : Option Error
  pub payload : Json
  pub occurred_at : Date

-- `InMemoryCapacity`: the movements are the events that reserve or release
pub record Store : Type 0 where
  pub programs : Dict ProgramSnapshot
  pub reservations : Dict ReservationSnapshot
  pub movements : List DomainEvent
  pub treasury_events : List TreasuryEventRecord
  pub outbox : List DomainEvent

-- `InMemoryTransactionRunner.runNow`
abbrev pub rolled_back {ℓ} : {A : Type ℓ} → Store → Result A × Store → Result A × Store
rolled_back before (ok a, after) = (ok a, after)
rolled_back before (err error, after) = (err error, before)

unfoldable pub run : {A : Type 0} → Exec Store A → Exec Store A
run work store = rolled_back store (work store)

abbrev pub present : {A : Type 0} → Result A → Result (Option A)
present (ok a) = ok (some a)
present (err error) = err error

-- InMemoryProgramRepository
abbrev pub restored : {A B : Type 0} → (A → Result B) → Option A → Result (Option B)
restored rehydrated none = ok none
restored rehydrated (some snapshot) = present (rehydrated snapshot)

unfoldable pub lock_by_id : Identifier → Exec Store (Option Program)
lock_by_id id store = (restored rehydrate (lookup id.value store.programs), store)

unfoldable pub insert_program : Program → Exec Store (Unit {0})
insert_program p = do
  store ← get
  lift (throw_if (not (is_none (lookup p.id.value store.programs))) (program_already_exists p.id))
  modify (λ s. record s { programs = insert p.id.value (to_snapshot p) s.programs })

abbrev pub changed_while_locked : Program → Option ProgramSnapshot → Bool
changed_while_locked p none = true
changed_while_locked p (some stored) = not (stored.version ==ℤ p.version)

unfoldable pub save_program : Program → Exec Store (Unit {0})
save_program p = do
  store ← get
  lift (throw_if (changed_while_locked p (lookup p.id.value store.programs)) invariant_violation)
  modify (λ s. record s {
    programs =
        insert p.id.value (record (to_snapshot p) { version = p.version +ℤ pos 1 }) s.programs;
  })

-- InMemoryReservationRepository
abbrev pub for_invoice : Identifier → Identifier → Store → List ReservationSnapshot
for_invoice program_id invoice_id store =
    filter (λ r. id_equals r.program_id program_id && id_equals r.invoice_id invoice_id)
      (values store.reservations)

abbrev pub active_for : Identifier → Identifier → Store → Option ReservationSnapshot
active_for program_id invoice_id store =
    find (λ r. not (is_released_status r.status)) (for_invoice program_id invoice_id store)

abbrev pub has_key : Identifier → ReservationSnapshot → Bool
has_key key r = elim r.reservation_key [ none ↦ false | some k ↦ id_equals k key ]

unfoldable pub find_by_id : Identifier → Exec Store (Option Reservation)
find_by_id id store = (restored Reservation.rehydrate (lookup id.value store.reservations), store)

unfoldable pub find_active_by_invoice : Identifier → Identifier → Exec Store (Option Reservation)
find_active_by_invoice program_id invoice_id store =
    (restored Reservation.rehydrate (active_for program_id invoice_id store), store)

unfoldable pub find_by_key : Identifier → Identifier → Identifier → Exec Store (Option Reservation)
find_by_key program_id invoice_id key store = (
  restored Reservation.rehydrate (find (has_key key) (for_invoice program_id invoice_id store)),
  store,
)

unfoldable pub has_released_for_invoice : Identifier → Identifier → Exec Store Bool
has_released_for_invoice program_id invoice_id store =
    (ok (any (λ r. is_released_status r.status) (for_invoice program_id invoice_id store)), store)

abbrev pub key_taken : Option Identifier → List ReservationSnapshot → Bool
key_taken none rows = false
key_taken (some key) rows = any (has_key key) rows

unfoldable pub save_reservation : Reservation → Exec Store (Unit {0})
save_reservation r =
    modify (λ s. record s {
      reservations = insert r.id.value (Reservation.to_snapshot r) s.reservations;
    })

unfoldable pub insert_reservation : Reservation → Exec Store (Unit {0})
insert_reservation r = do
  store ← get
  lift (
      throw_if (not (is_none (active_for r.program_id r.invoice_id store)))
        (foreign (codes "reservations_one_active_per_invoice")))
  lift (
      throw_if (key_taken r.reservation_key (for_invoice r.program_id r.invoice_id store))
        (foreign (codes "reservations_program_id_invoice_id_reservation_key_key")))
  save_reservation r

-- InMemoryLedger
abbrev pub as_release : Text → Identifier → DomainEvent → Option CapacityReleased
as_release program_id repayment_id (capacity_released e) =
    if text_eq e.aggregate_id program_id && id_equals e.repayment_id repayment_id
    then some e
    else none
as_release program_id repayment_id _ = none

abbrev pub or_first : {A : Type 0} → Option A → Option A → Option A
or_first none rest = rest
or_first (some a) rest = some a

unfoldable pub released_movement : Text → Identifier → List DomainEvent → Option CapacityReleased
released_movement program_id repayment_id [] = none
released_movement program_id repayment_id (m ∷ movements) =
    or_first (as_release program_id repayment_id m)
      (released_movement program_id repayment_id movements)

abbrev pub push_movement : DomainEvent → Exec Store (Unit {0})
push_movement event = modify (λ s. record s { movements = s.movements ++ event ∷ [] })

unfoldable pub record_event : DomainEvent → Exec Store (Unit {0})
record_event (program_opened e) = pure tt
record_event (credit_limit_changed e) = pure tt
record_event (program_status_changed e) = pure tt
record_event (capacity_reserved e) = push_movement (capacity_reserved e)
record_event (capacity_released e) = do
  store ← get
  lift (
      throw_if (not (is_none (released_movement e.aggregate_id e.repayment_id store.movements)))
        (foreign (codes "capacity_movements_program_id_repayment_id_key")))
  push_movement (capacity_released e)

unfoldable pub record_movements : List DomainEvent → Exec Store (Unit {0})
record_movements [] = pure tt
record_movements (event ∷ events) = do record_event event; record_movements events

-- `RecordedRepayment`
pub record RecordedRepayment : Type 0 where
  pub reservation_id : Identifier
  pub repaid_amount : Money
  pub released_amount : Money
  pub occurred_at : Date

abbrev pub recorded_repayment : CapacityReleased → RecordedRepayment
recorded_repayment e = record {
  reservation_id = e.reservation_id;
  repaid_amount = e.repaid_amount;
  released_amount = e.released_amount;
  occurred_at = e.occurred_at;
}

abbrev pub map_release : Option CapacityReleased → Option RecordedRepayment
map_release none = none
map_release (some e) = some (recorded_repayment e)

unfoldable pub find_repayment : Identifier → Identifier → Exec Store (Option RecordedRepayment)
find_repayment program_id repayment_id store =
    (ok (map_release (released_movement program_id.value repayment_id store.movements)), store)

-- InMemoryTreasuryEventLog and the outbox
abbrev pub is_recorded : Text → Store → Bool
is_recorded event_id store = any (λ seen. text_eq seen.event_id event_id) store.treasury_events

unfoldable pub record_treasury_event : TreasuryEventRecord → Exec Store (Unit {0})
record_treasury_event entry = do
  store ← get
  lift
      (throw_if (is_recorded entry.event_id store) (treasury_event_already_recorded entry.event_id))
  modify (λ s. record s { treasury_events = s.treasury_events ++ entry ∷ [] })

unfoldable pub add_outbox : List DomainEvent → Exec Store (Unit {0})
add_outbox events = modify (λ s. record s { outbox = s.outbox ++ events })
