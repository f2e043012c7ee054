-- ===== src/Capacity/Handlers/Twice.antt =====
-- A treasury message that is delivered again, after a first delivery that was applied or found stale.
use program_capacity_invoice.Prelude.{
  ◌≡◌, ◌≢◌, true, not, is_none, List, [], ◌∷◌, ◌++◌, Text, text_eq, text_eq_refl, any, refl, inl,
  inr, sym, ap, subst, Bool-cases,
}
use program_capacity_invoice.Errors.{Error, Result, ok, err, ok_injective}
use program_capacity_invoice.Exec.{Exec, continue}
use program_capacity_invoice.Capacity.Events.{
  DomainEvent, program_opened, capacity_reserved, capacity_released, credit_limit_changed,
  program_status_changed,
}
use program_capacity_invoice.Capacity.Store.{
  Store, TreasuryEventRecord, run, rolled_back, lock_by_id, is_recorded, record_treasury_event,
  record_event, record_movements, released_movement, add_outbox,
}
use program_capacity_invoice.Capacity.Handlers.Treasury.{
  ApplyTreasuryUpdateCommand, ApplyTreasuryUpdateResult, Outcome, duplicate, is_already_exists,
  is_already_recorded, open_or_update, apply_work, apply_once, or_retry, reported,
  apply_treasury_update,
}
use program_capacity_invoice.Capacity.Handlers.Redelivery.{
  IsNotApplied, recorded_event_changes_nothing,
}

-- If the action returns, the event is in the log of the store that it leaves.
abbrev Logs : {A : Type 0} → Text → Result A × Store → Type 0
Logs id (ok _, s) = is_recorded id s ≡ true
Logs id (err _, s) = Unit {0}

continue-Logs :
    {A B : Type 0} (id : Text) (x : Result A × Store) (f : A → Exec Store B)
    → ((a : A) → Logs id (f a x.1))
    → Logs id (continue x.0 f x.1)
continue-Logs id (ok a, s) f h = h a
continue-Logs id (err error, s) f h = tt

any_last :
    (id : Text) (log : List TreasuryEventRecord) (entry : TreasuryEventRecord)
    → entry.event_id ≡ id
    → any (λ (r : TreasuryEventRecord). text_eq r.event_id id) (log ++ entry ∷ []) ≡ true
any_last id [] entry e = rw e (rw (text_eq_refl id))
any_last id (r ∷ log) entry e = elim (Bool-cases (text_eq r.event_id id)) [
  | inl same ↦ rw same refl
  | inr other ↦ rw other (any_last id log entry e)
]

-- Recording a movement leaves the log as it was.
record_event-log :
    (event : DomainEvent) (s : Store) → (record_event event s).1.treasury_events ≡ s.treasury_events
unfolding record_event
record_event-log (program_opened e) s = refl
record_event-log (credit_limit_changed e) s = refl
record_event-log (program_status_changed e) s = refl
record_event-log (capacity_reserved e) s = refl
record_event-log (capacity_released e) s =
    elim (Bool-cases
      (not (is_none (released_movement e.aggregate_id e.repayment_id s.movements)))) [
        | inl taken ↦ rw taken refl
        | inr free ↦ rw free refl
      ]

abbrev IsLogged : Text → Store → Type 0
IsLogged id s = is_recorded id s ≡ true

same_log :
    (id : Text) (s t : Store)
    → t.treasury_events ≡ s.treasury_events
    → IsLogged id s
    → IsLogged id t
same_log id s t e h =
    subst (λ log. any (λ (r : TreasuryEventRecord). text_eq r.event_id id) log ≡ true) (sym e) h

record_movements-Logs :
    (id : Text) (events : List DomainEvent) (s : Store)
    → IsLogged id s
    → Logs id (record_movements events s)
unfolding record_movements
record_movements-Logs id [] s h = h
record_movements-Logs id (event ∷ events) s h = continue-Logs id (record_event event s) _ (λ done.
    record_movements-Logs id events (record_event event s).1
      (same_log id s (record_event event s).1 (record_event-log event s) h))

Logs-then :
    {A B : Type 0} (id : Text) (x : Result A × Store) (f : A → Exec Store B)
    → Logs id x
    → ((a : A) (t : Store) → IsLogged id t → Logs id (f a t))
    → Logs id (continue x.0 f x.1)
Logs-then id (ok a, s) f h next = next a s h
Logs-then id (err error, s) f h next = tt

record_treasury_event-Logs :
    (entry : TreasuryEventRecord) (s : Store) → Logs entry.event_id (record_treasury_event entry s)
unfolding record_treasury_event
record_treasury_event-Logs entry s = elim (Bool-cases (is_recorded entry.event_id s)) [
  | inl e ↦ rw e tt
  | inr e ↦ rw e (any_last entry.event_id s.treasury_events entry refl)
]

apply_work-Logs :
    (command : ApplyTreasuryUpdateCommand) (s : Store)
    → Logs command.event_id (apply_work command s)
unfolding apply_work lock_by_id add_outbox
apply_work-Logs command s =
    continue-Logs command.event_id (lock_by_id command.program_id s) _ (λ found.
      continue-Logs command.event_id (open_or_update command found s) _ (λ outcome.
        Logs-then command.event_id (record_treasury_event _ _) _ (record_treasury_event-Logs _ _)
          (λ done t logged.
            Logs-then command.event_id (record_movements outcome.events t) _
              (record_movements-Logs command.event_id outcome.events t logged)
              (λ done' t' logged'. logged'))))

rolled_back-Logs :
    {A : Type 0} (id : Text) (before : Store) (x : Result A × Store)
    → Logs id x
    → Logs id (rolled_back before x)
rolled_back-Logs id before (ok a, s) h = h
rolled_back-Logs id before (err error, s) h = tt

apply_once-Logs :
    (command : ApplyTreasuryUpdateCommand) (s : Store)
    → Logs command.event_id (apply_once command s)
unfolding apply_once run
apply_once-Logs command s =
    rolled_back-Logs command.event_id s (apply_work command s) (apply_work-Logs command s)

or_retry-Logs :
    (id : Text) (again : Exec Store Outcome) (x : Result Outcome × Store)
    → Logs id x
    → ((t : Store) → Logs id (again t))
    → Logs id (or_retry again x)
unfolding or_retry
or_retry-Logs id again (ok o, s) h next = h
or_retry-Logs id again (err error, s) h next = elim (Bool-cases (is_already_exists error)) [
  | inl e ↦ rw e (next s)
  | inr e ↦ rw e tt
]

err-ok : (error : Error) (r : ApplyTreasuryUpdateResult) → err error ≢ ok r
err-ok error r e = cc

-- What is reported as done, and not as a duplicate, is in the log.
reported-IsLogged :
    (id : Text) (x : Result Outcome × Store) (r : ApplyTreasuryUpdateResult)
    → Logs id x
    → reported x.0 ≡ ok r
    → r.outcome ≢ duplicate
    → IsLogged id x.1
unfolding reported
reported-IsLogged id (ok o, s) r h e fresh = h
reported-IsLogged id (err error, s) r h e fresh = elim (Bool-cases (is_already_recorded error)) [
  | inl seen ↦ absurd (
      fresh (sym (ap (λ (q : ApplyTreasuryUpdateResult). q.outcome) (ok_injective (rw seen at e)))))
  | inr other ↦ absurd (err-ok error r (rw other at e))
]

-- Whatever the store, if the handler of treasury updates returns for a command with an outcome
-- other than a duplicate, then the same command on the store that it left leaves that whole
-- store as it is, and the handler either reports a duplicate without a program or throws.
pub redelivered_update_changes_nothing :
    (command : ApplyTreasuryUpdateCommand) (s s' : Store) (r : ApplyTreasuryUpdateResult)
    → apply_treasury_update command s ≡ (ok r, s')
    → r.outcome ≢ duplicate
    → ((apply_treasury_update command s').1 ≡ s')
      × IsNotApplied (apply_treasury_update command s').0
unfolding apply_treasury_update
redelivered_update_changes_nothing command s s' r e fresh =
    let y = or_retry (apply_once command) (apply_once command s) in
    let logged =
      reported-IsLogged command.event_id y r
        (or_retry-Logs command.event_id (apply_once command) (apply_once command s)
          (apply_once-Logs command s) (apply_once-Logs command))
        (ap (λ (x : Result ApplyTreasuryUpdateResult × Store). x.0) e) fresh in
    recorded_event_changes_nothing command s' (
      subst (IsLogged command.event_id)
        (ap (λ (x : Result ApplyTreasuryUpdateResult × Store). x.1) e) logged)
