-- ===== src/Capacity/Handlers/Redelivery.antt =====
-- A treasury message whose event id is in the log already.
use program_capacity_invoice.Prelude.{
  any, text_eq, ◌≡◌, true, not, is_none, Option, none, some, refl, inl, inr, sym, ◌∙◌, ap, subst,
  Bool-cases, lookup,
}
use program_capacity_invoice.Money.Types.{Money}
use program_capacity_invoice.Errors.{Error, Result, ok, err, Result-cases}
use program_capacity_invoice.Exec.{◌>>◌, Exec, pure, continue}
use program_capacity_invoice.Capacity.Program.{apply_treasury_state}
use program_capacity_invoice.Capacity.Program.State.{Program}
use program_capacity_invoice.Capacity.Program.Guards.{open_from_treasury}
use program_capacity_invoice.Capacity.Store.{
  Store, TreasuryEventRecord, run, rolled_back, lock_by_id, insert_program, save_program,
  changed_while_locked, is_recorded, record_treasury_event,
}
use program_capacity_invoice.Capacity.Handlers.Treasury.{
  ApplyTreasuryUpdateCommand, ApplyTreasuryUpdateResult, Outcome, duplicate, state_of,
  is_stale_error, is_already_exists, is_already_recorded, open_with, updated, open_or_update,
  apply_work, apply_once, or_retry, reported, apply_treasury_update,
}

-- An action leaves the log of treasury events as it was.
abbrev KeepsLog : {A : Type 0} → Exec Store A → Store → Type 0
KeepsLog m s = (m s).1.treasury_events ≡ s.treasury_events

save_program-KeepsLog : (p : Program) (s : Store) → KeepsLog (save_program p) s
unfolding save_program
save_program-KeepsLog p s =
    elim (Bool-cases (changed_while_locked p (lookup p.id.value s.programs))) [
      | inl e ↦ rw e refl
      | inr e ↦ rw e refl
    ]

insert_program-KeepsLog : (p : Program) (s : Store) → KeepsLog (insert_program p) s
unfolding insert_program
insert_program-KeepsLog p s = elim (Bool-cases (not (is_none (lookup p.id.value s.programs)))) [
  | inl e ↦ rw e refl
  | inr e ↦ rw e refl
]

-- Returning a value afterwards changes nothing, and what a failed part leaves out has failed too.
continue-pure :
    {A B : Type 0} (x : Result A × Store) (b : B) → (continue x.0 (λ done. pure b) x.1).1 ≡ x.1
continue-pure (ok _, s) b = refl
continue-pure (err _, s) b = refl

abbrev Fails : {A : Type 0} → Result A → Type 0
Fails r = (error : Error) × (r ≡ err error)

continue-Fails :
    {A B : Type 0} (x : Result A × Store) (f : A → Exec Store B)
    → ((a : A) → Fails (f a x.1).0)
    → Fails (continue x.0 f x.1).0
continue-Fails (ok a, s) f h = h a
continue-Fails (err error, s) f h = (error, refl)

updated-KeepsLog : (x : Result (Unit {0}) × Program) (s : Store) → KeepsLog (updated x) s
unfolding updated
updated-KeepsLog (ok _, p) s =
    ap (λ (t : Store). t.treasury_events) (continue-pure (save_program p s) _)
    ∙ save_program-KeepsLog p s
updated-KeepsLog (err error, p) s = elim (Bool-cases (is_stale_error error)) [
  | inl e ↦ rw e refl
  | inr e ↦ rw e refl
]

open_with-KeepsLog :
    (command : ApplyTreasuryUpdateCommand) (limit : Option Money) (s : Store)
    → KeepsLog (open_with command limit) s
unfolding open_with
open_with-KeepsLog command none s = refl
open_with-KeepsLog command (some limit) s =
    elim (Result-cases (open_from_treasury command.program_id limit (state_of command))) [
      | inl (p, e) ↦ rw e (
          ap (λ (t : Store). t.treasury_events) (continue-pure (insert_program p s) _)
          ∙ insert_program-KeepsLog p s)
      | inr (x, e) ↦ rw e refl
    ]

open_or_update-KeepsLog :
    (command : ApplyTreasuryUpdateCommand) (found : Option Program) (s : Store)
    → KeepsLog (open_or_update command found) s
unfolding open_or_update
open_or_update-KeepsLog command none s = open_with-KeepsLog command command.credit_limit s
open_or_update-KeepsLog command (some p) s =
    updated-KeepsLog (apply_treasury_state (state_of command) p) s

record_treasury_event-Fails :
    {B : Type 0} (entry : TreasuryEventRecord) (next : Exec Store B) (s : Store)
    → is_recorded entry.event_id s ≡ true
    → Fails ((record_treasury_event entry >> next) s).0
unfolding record_treasury_event
record_treasury_event-Fails entry next s e = rw e (_, refl)

-- Nothing is applied once the event is in the log.
apply_work-Fails :
    (command : ApplyTreasuryUpdateCommand) (s : Store)
    → is_recorded command.event_id s ≡ true
    → Fails (apply_work command s).0
unfolding apply_work lock_by_id
apply_work-Fails command s seen = continue-Fails (lock_by_id command.program_id s) _ (λ found.
    continue-Fails (open_or_update command found s) _ (λ outcome.
      record_treasury_event-Fails _ _ (open_or_update command found s).1 (
        subst
          (λ log. any (λ (r : TreasuryEventRecord). text_eq r.event_id command.event_id) log ≡ true)
          (sym (open_or_update-KeepsLog command found s)) seen)))

apply_once-rolled :
    (command : ApplyTreasuryUpdateCommand) (s : Store)
    → is_recorded command.event_id s ≡ true
    → (error : Error) × (apply_once command s ≡ (err error, s))
unfolding apply_once run
apply_once-rolled command s seen =
    let (error, e) = apply_work-Fails command s seen in
    (error, ap (λ (r : Result Outcome). rolled_back s (r, (apply_work command s).1)) e)

-- A duplicate is reported as one, unless something else went wrong first.
abbrev pub IsNotApplied : Result ApplyTreasuryUpdateResult → Type 0
IsNotApplied (ok r) = (r.outcome ≡ duplicate) × (r.program ≡ none)
IsNotApplied (err _) = Unit {0}

reported-IsNotApplied : (error : Error) → IsNotApplied (reported (err error))
unfolding reported
reported-IsNotApplied error = elim (Bool-cases (is_already_recorded error)) [
  | inl e ↦ rw e (refl, refl)
  | inr e ↦ rw e tt
]

-- Whatever the command and the store, if the command's event id is in the log of treasury
-- events, then the handler leaves the whole store as it was, and either reports a duplicate
-- without a program or throws.
pub recorded_event_changes_nothing :
    (command : ApplyTreasuryUpdateCommand) (s : Store)
    → is_recorded command.event_id s ≡ true
    → ((apply_treasury_update command s).1 ≡ s) × IsNotApplied (apply_treasury_update command s).0
unfolding apply_treasury_update or_retry
recorded_event_changes_nothing command s seen =
    let (error, e) = apply_once-rolled command s seen in
    elim (Bool-cases (is_already_exists error)) [
      | inl retried ↦ rw (e, retried, e) (refl, reported-IsNotApplied error)
      | inr other ↦ rw (e, other) (refl, reported-IsNotApplied error)
    ]
