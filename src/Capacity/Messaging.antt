-- ===== src/Capacity/Messaging.antt =====
-- src/contexts/capacity/infrastructure/messaging/treasury-message-processor.ts: which failures of a
-- message are retried, and how long the retry waits. Parsing, the command bus and the dead-letter
-- topic are outside: what they answer is an argument. What is logged is left out.
use program_capacity_invoice.Prelude.{
  ℕ, zero, suc, ◌+◌, ◌*◌, ◌^◌, ◌-◌, min, ◌≡◌, Bool, true, false, Option, none, some, [], ◌∷◌, Text,
  text_eq, text_eq_refl, if◌then◌else◌, Dict, lookup, insert, arith, refl, inl, inr, Bool-cases, ap,
}
use program_capacity_invoice.Errors.{
  Error, Result, ok, err, capacity_busy, invariant_violation, foreign,
}

-- `RetryPolicy`, less the function that sleeps
pub record RetryPolicy : Type 0 where
  pub initial_delay_ms : ℕ
  pub max_delay_ms : ℕ
  pub alert_after_attempts : ℕ

-- `DEFAULT_RETRY_POLICY`
abbrev pub default_retry_policy : RetryPolicy
default_retry_policy = record {
  initial_delay_ms = 200;
  max_delay_ms = 10000;
  alert_after_attempts = 10;
}

-- `isPermanent`: every error but those of other classes is a `DomainError`
unfoldable pub is_permanent : Error → Bool
is_permanent capacity_busy = false
is_permanent invariant_violation = false
is_permanent (foreign name) = false
is_permanent _ = true

-- What `toCommand` and the command bus answered: a message that is no command, an error, or nothing.
pub data Attempt : Type 0 where
  malformed : Attempt
  failed : Error → Attempt
  succeeded : Attempt

-- What became of the message: its offset is committed, after a dead letter or not, or it is delivered
-- again after a wait.
pub data Processed : Type 0 where
  committed : Bool → Processed
  redelivered : ℕ → Processed

-- `this.failures.delete(key)` and `this.failures.get(key) ?? 0`
abbrev pub delete {ℓ} : {A : Type ℓ} → Text → Dict A → Dict A
delete key [] = []
delete key ((k, a) ∷ entries) =
    if text_eq k key then delete key entries else (k, a) ∷ delete key entries

abbrev pub or_zero : Option ℕ → ℕ
or_zero none = 0
or_zero (some n) = n

unfoldable pub delay_ms : RetryPolicy → ℕ → ℕ
delay_ms policy attempt = min (policy.initial_delay_ms * 2 ^ (attempt - 1)) policy.max_delay_ms

-- `retryLater`
unfoldable pub retry_later : RetryPolicy → Text → Dict ℕ → Processed × Dict ℕ
retry_later policy key failures =
    let attempt = or_zero (lookup key failures) + 1 in
    (redelivered (delay_ms policy attempt), insert key attempt failures)

-- the dead letter, whose publishing may fail
unfoldable pub dead_letter : RetryPolicy → Text → Result (Unit {0}) → Dict ℕ → Processed × Dict ℕ
dead_letter policy key (ok _) failures = (committed true, delete key failures)
dead_letter policy key (err error) failures = retry_later policy key failures

-- `process`
unfoldable pub process :
    RetryPolicy → Text → Attempt → Result (Unit {0}) → Dict ℕ → Processed × Dict ℕ
process policy key succeeded published failures = (committed false, delete key failures)
process policy key malformed published failures = dead_letter policy key published failures
process policy key (failed error) published failures =
    if is_permanent error
    then dead_letter policy key published failures
    else retry_later policy key failures

pub lookup-insert :
    (key : Text) (n : ℕ) (entries : Dict ℕ) → lookup key (insert key n entries) ≡ some n
lookup-insert key n [] = rw (text_eq_refl key)
lookup-insert key n ((k, m) ∷ entries) = elim (Bool-cases (text_eq k key)) [
  | inl e ↦ rw e (rw e)
  | inr e ↦ rw e (rw e (lookup-insert key n entries))
]

pub lookup-delete : (key : Text) (entries : Dict ℕ) → lookup key (delete key entries) ≡ none
lookup-delete key [] = refl
lookup-delete key ((k, m) ∷ entries) = elim (Bool-cases (text_eq k key)) [
  | inl e ↦ rw e (lookup-delete key entries)
  | inr e ↦ rw e (rw e (lookup-delete key entries))
]

-- The failures of a partition after a message fails n times in a row with a temporary error.
unfoldable pub after_failures : RetryPolicy → Text → Error → Result (Unit {0}) → ℕ → Dict ℕ → Dict ℕ
after_failures policy key error published zero failures = failures
after_failures policy key error published (suc n) failures =
    (process policy key (failed error) published
      (after_failures policy key error published n failures)).1

after_one_more :
    (policy : RetryPolicy) (key : Text) (error : Error) (published : Result (Unit {0})) (n : ℕ)
    (failures : Dict ℕ)
    → is_permanent error ≡ false
    → after_failures policy key error published (suc n) failures
      ≡ insert key
          (or_zero (lookup key (after_failures policy key error published n failures)) + 1)
          (after_failures policy key error published n failures)
unfolding after_failures process retry_later
after_one_more policy key error published n failures e = rw (e, after_failures) refl

failures_none :
    (policy : RetryPolicy) (key : Text) (error : Error) (published : Result (Unit {0}))
    (failures : Dict ℕ)
    → after_failures policy key error published zero failures ≡ failures
unfolding after_failures
failures_none policy key error published failures = refl

failures_counted :
    (policy : RetryPolicy) (key : Text) (error : Error) (published : Result (Unit {0})) (n : ℕ)
    (failures : Dict ℕ)
    → is_permanent error ≡ false
    → lookup key failures ≡ none
    → or_zero (lookup key (after_failures policy key error published n failures)) ≡ n
failures_counted policy key error published zero failures e clean =
    rw (failures_none policy key error published failures) (rw clean refl)
failures_counted policy key error published (suc n) failures e clean =
    let before = after_failures policy key error published n failures in
    rw (after_one_more policy key error published n failures e) (
      rw (lookup-insert key (or_zero (lookup key before) + 1) before)
        (omega (arith, failures_counted policy key error published n failures e clean)))

minus_one : (n : ℕ) → n + 1 - 1 ≡ n
minus_one n = omega arith

-- Whatever the policy, the failures counted so far and what the dead-letter topic answers:
-- after a message of a partition that succeeds and n failures in a row with one error that is
-- not permanent, one more failure with it is delivered again, after a wait of the initial
-- delay doubled n times, or of the greatest delay where that is less.
pub backoff_doubles :
    (policy : RetryPolicy) (key : Text) (error : Error) (published : Result (Unit {0})) (n : ℕ)
    (before : Dict ℕ)
    → is_permanent error ≡ false
    → (process policy key (failed error) published (
        after_failures policy key error published n
          (process policy key succeeded published before).1)).0
      ≡ redelivered (min (policy.initial_delay_ms * 2 ^ n) policy.max_delay_ms)
unfolding process retry_later delay_ms
backoff_doubles policy key error published n before e = rw e (
    rw
      (failures_counted policy key error published n (delete key before) e
        (lookup-delete key before))
      (ap (λ (k : ℕ). redelivered (min (policy.initial_delay_ms * 2 ^ k) policy.max_delay_ms))
        (minus_one n)))
