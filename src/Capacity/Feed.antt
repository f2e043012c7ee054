-- ===== src/Capacity/Feed.antt =====
-- infrastructure/messaging/treasury-message-processor.ts of src/contexts/capacity, with the reading of
-- a message and the handler of its command: `process` on the bytes of a message, over the store.
pub mod Handled
use program_capacity_invoice.Prelude.{ℕ, Bool, Option, Text, Dict, Json}
use program_capacity_invoice.Money.Types.{Date}
use program_capacity_invoice.Errors.{Result, ok, err}
use program_capacity_invoice.Capacity.Store.{Store}
use program_capacity_invoice.Capacity.Handlers.Treasury.{
  ApplyTreasuryUpdateResult, apply_treasury_update,
}
use program_capacity_invoice.Capacity.Messaging.{
  RetryPolicy, Attempt, malformed, failed, succeeded, Processed, process,
}
use program_capacity_invoice.Capacity.TreasuryMessage.{
  Parsed, command, treasury_message_error, to_command,
}

-- what the command bus answered, as the processor sees it
unfoldable pub attempt_of : Result ApplyTreasuryUpdateResult → Attempt
attempt_of (ok result) = succeeded
attempt_of (err error) = failed error

-- the command bus, whose handler is that of treasury updates
unfoldable pub executed : Parsed → Store → Attempt × Store
executed (command c) store =
    let (result, store') = apply_treasury_update c store in (attempt_of result, store')
executed treasury_message_error store = (malformed, store)
executed (Parsed.rethrown error) store = (failed error, store)

-- `process`, where the failures, by partition, and the store change
module _ (parse_json : Text → Option Json) (is_datetime : Text → Bool) (date_of : Text → Date) where
  unfoldable pub process_message :
      RetryPolicy
      → Text
      → Option Text
      → Result (Unit {0})
      → Dict ℕ × Store
      → Processed × Dict ℕ × Store
  process_message policy key raw published (failures, store) =
      let (attempt, store') = executed (to_command parse_json is_datetime date_of raw) store in
      let (processed, failures') = process policy key attempt published failures in
      (processed, failures', store')
