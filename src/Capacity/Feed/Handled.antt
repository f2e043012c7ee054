-- ===== src/Capacity/Feed/Handled.antt =====
-- infrastructure/messaging/treasury-message-processor.ts: what becomes of a message of treasury.
use program_capacity_invoice.Prelude.{
  ℕ, ◌+◌, ◌≤◌, ◌≡◌, ◌⊎◌, refl, arith, Bool, true, false, Option, none, some, Text, Dict, lookup,
  Json, inl, inr, Bool-cases,
}
use program_capacity_invoice.Money.Types.{Date}
use program_capacity_invoice.Errors.{Error, Result, ok, err}
use program_capacity_invoice.Capacity.Store.{Store}
use program_capacity_invoice.Capacity.Handlers.Treasury.{
  ApplyTreasuryUpdateResult, apply_treasury_update,
}
use program_capacity_invoice.Capacity.Messaging.{
  RetryPolicy, Processed, committed, redelivered, process, is_permanent, or_zero, delay_ms,
  retry_later, dead_letter, lookup-insert, lookup-delete,
}
use program_capacity_invoice.Capacity.TreasuryMessage.{
  Parsed, command, treasury_message_error, to_command,
}
use program_capacity_invoice.Capacity.TreasuryMessage.Accepted.{IsParsed, to_command-IsParsed}
use program_capacity_invoice.Capacity.Feed.{executed, attempt_of, process_message}

-- The message was read, and the handler of its command ended this way.
abbrev pub Ended : Parsed → Store → Result ApplyTreasuryUpdateResult → Store → Type 0
Ended (command c) store result after = apply_treasury_update c store ≡ (result, after)
Ended _ store result after = ⊥

-- The message can never be applied, and the store is what the handler left, if it ran.
abbrev pub IsHopeless : Parsed → Store → Store → Type 0
IsHopeless parsed store after =
    ((parsed ≡ treasury_message_error) × (after ≡ store))
    ⊎ ((error : Error) × Ended parsed store (err error) after × (is_permanent error ≡ true))

-- The message cannot be settled yet: the handler failed for the moment, or no dead letter was taken.
abbrev pub IsDelayed : Parsed → Store → Store → Result (Unit {0}) → Type 0
IsDelayed parsed store after published =
    ((error : Error) × Ended parsed store (err error) after × (is_permanent error ≡ false))
    ⊎ (((error : Error) × (published ≡ err error)) × IsHopeless parsed store after)

-- What is left of a message that was processed.
abbrev pub IsHandled :
    RetryPolicy
    → Text
    → Parsed
    → Result (Unit {0})
    → Dict ℕ × Store
    → Processed × Dict ℕ × Store
    → Type 0
IsHandled policy key parsed published (failures, store) (committed false, failures', after) =
    ((result : ApplyTreasuryUpdateResult) × Ended parsed store (ok result) after)
    × (lookup key failures' ≡ none)
IsHandled policy key parsed published (failures, store) (committed true, failures', after) =
    (published ≡ ok tt) × IsHopeless parsed store after × (lookup key failures' ≡ none)
IsHandled policy key parsed published (failures, store) (redelivered wait, failures', after) =
    IsDelayed parsed store after published
    × (wait ≤ policy.max_delay_ms)
    × (lookup key failures' ≡ some (or_zero (lookup key failures) + 1))

waits_at_most : (policy : RetryPolicy) (attempt : ℕ) → delay_ms policy attempt ≤ policy.max_delay_ms
unfolding delay_ms
waits_at_most policy attempt = omega arith

module _ (policy : RetryPolicy) (key : Text) (failures : Dict ℕ) (parsed : Parsed)
    (store after : Store) where
  delayed-IsHandled :
      (published : Result (Unit {0}))
      → IsDelayed parsed store after published
      → IsHandled policy key parsed published
          (failures, store)
          ((retry_later policy key failures).0, (retry_later policy key failures).1, after)
  unfolding retry_later
  delayed-IsHandled published why =
      let attempt = or_zero (lookup key failures) + 1 in
      (why, waits_at_most policy attempt, lookup-insert key attempt failures)

  dead_letter-IsHandled :
      (published : Result (Unit {0}))
      → IsHopeless parsed store after
      → IsHandled policy key parsed published
          (failures, store)
          (
            (dead_letter policy key published failures).0,
            (dead_letter policy key published failures).1,
            after,
          )
  unfolding dead_letter
  dead_letter-IsHandled (ok _) hopeless = (refl, hopeless, lookup-delete key failures)
  dead_letter-IsHandled (err error) hopeless =
      delayed-IsHandled (err error) (inr ((error, refl), hopeless))

  process-IsHandled :
      (published : Result (Unit {0})) (result : Result ApplyTreasuryUpdateResult)
      → Ended parsed store result after
      → IsHandled policy key parsed published
          (failures, store)
          (
            (process policy key (attempt_of result) published failures).0,
            (process policy key (attempt_of result) published failures).1,
            after,
          )
  unfolding process attempt_of
  process-IsHandled published (ok result) e = ((result, e), lookup-delete key failures)
  process-IsHandled published (err error) e = elim (Bool-cases (is_permanent error)) [
    | inl permanent ↦ rw permanent (dead_letter-IsHandled published (inr (error, e, permanent)))
    | inr temporary ↦ rw temporary (delayed-IsHandled published (inl (error, e, temporary)))
  ]

executed-IsHandled :
    (policy : RetryPolicy) (key : Text) (failures : Dict ℕ) (store : Store)
    (published : Result (Unit {0})) (parsed : Parsed)
    → IsParsed parsed
    → IsHandled policy key parsed published
        (failures, store)
        (
          (process policy key (executed parsed store).0 published failures).0,
          (process policy key (executed parsed store).0 published failures).1,
          (executed parsed store).1,
        )
unfolding executed process
executed-IsHandled policy key failures store published (command c) valid =
    process-IsHandled policy key failures (command c) store (apply_treasury_update c store).1
      published (apply_treasury_update c store).0 refl
executed-IsHandled policy key failures store published treasury_message_error valid =
    dead_letter-IsHandled policy key failures treasury_message_error store store published
      (inl (refl, refl))
executed-IsHandled policy key failures store published (Parsed.rethrown error) valid = absurd valid

-- Whatever the policy, the partition, the body of a message and how it parses, the failures,
-- the store, and what the dead-letter topic answers: if a message is committed without a dead
-- letter, then it was read as a command, and the handler returned on it and left the store as
-- it now is; if it is committed after a dead letter, then the topic took that letter, and the
-- message could not be read, with the store as it was, or the handler threw a permanent error
-- on it; and either way the partition has no failures afterwards. Otherwise it is delivered
-- again, after a wait of at most the policy's greatest delay, with one more failure of the
-- partition: the handler threw an error that is not permanent, or the dead letter was due and
-- the topic failed.
pub process_message-IsHandled :
    (parse_json : Text → Option Json) (is_datetime : Text → Bool) (date_of : Text → Date)
    (policy : RetryPolicy) (key : Text) (raw : Option Text) (published : Result (Unit {0}))
    (failures : Dict ℕ) (store : Store)
    → IsHandled policy key
        (to_command parse_json is_datetime date_of raw)
        published
        (failures, store)
        (process_message parse_json is_datetime date_of policy key raw published (failures, store))
unfolding process_message
process_message-IsHandled parse_json is_datetime date_of policy key raw published failures store =
    executed-IsHandled policy key failures store published
      (to_command parse_json is_datetime date_of raw)
      (to_command-IsParsed parse_json is_datetime date_of raw)
