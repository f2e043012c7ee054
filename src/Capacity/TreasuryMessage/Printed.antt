-- ===== src/Capacity/TreasuryMessage/Printed.antt =====
-- messaging/treasury-message.ts: the messages that treasury sends are read as they were meant.
use program_capacity_invoice.Prelude.{
  ◌≡◌, refl, Bool, true, Option, none, some, ℤ, Text, text_eq, codes, Json, Fields, integer, string,
  object, field, end,
}
use program_capacity_invoice.Prelude.Plain.{trim-AllPlain}
use program_capacity_invoice.Money.Types.{Money, Date}
use program_capacity_invoice.Money.Currency
use program_capacity_invoice.Money.Amount.{to_decimal_string, from_decimal, of_parsed}
use program_capacity_invoice.Money.Decimal.RoundTrip.{parse-format}
use program_capacity_invoice.Errors.{ok, ProgramStatus}
use program_capacity_invoice.Capacity.Ids.{is_external_id}
use program_capacity_invoice.Capacity.Ids.External.{external_plain, of-external}
use program_capacity_invoice.Capacity.Store.{
  TreasuryEventKind, capacity_changed, status_changed, state_reconciled,
}
use program_capacity_invoice.Capacity.Outbox.{money_json, status_json}
use program_capacity_invoice.Capacity.TreasuryMessage.{
  TreasuryMessage, ProgramPart, command, is_storable, is_event_id, is_sequence, money_value,
  status_value, event_id_value, sequence_value, program_id_value, program_value, kind_name,
  message_value, new_command, to_command,
}

-- What a program's part of a message says, by kind.
pub data ProgramState : Type 0 where
  limit : Money → ProgramState
  status : ProgramStatus → ProgramState
  both : Money → ProgramStatus → ProgramState

abbrev pub kind_of : ProgramState → TreasuryEventKind
kind_of (limit m) = capacity_changed
kind_of (status s) = status_changed
kind_of (both m s) = state_reconciled

abbrev pub part_of : Text → ProgramState → ProgramPart
part_of id (limit m) = record { id = id; credit_limit = some m; status = none }
part_of id (status s) = record { id = id; credit_limit = none; status = some s }
part_of id (both m s) = record { id = id; credit_limit = some m; status = some s }

abbrev pub state_fields : ProgramState → Fields
state_fields (limit m) = field (codes "creditLimit") (money_json m) end
state_fields (status s) = field (codes "status") (status_json s) end
state_fields (both m s) =
    field (codes "creditLimit") (money_json m) (field (codes "status") (status_json s) end)

-- The message as treasury writes it.
abbrev pub treasury_json : Text → Text → ℤ → Text → ProgramState → Json
treasury_json event_id occurred_at sequence program_id state = object (
    field (codes "eventType") (string (kind_name (kind_of state))) (
      field (codes "eventId") (string event_id) (
        field (codes "occurredAt") (string occurred_at) (
          field (codes "sequence") (integer sequence) (
            field (codes "program")
              (object (field (codes "id") (string program_id) (state_fields state))) end)))))

-- A limit in a currency of the table that the database can store.
abbrev pub IsSendable : ProgramState → Type 0
IsSendable (limit m) = (Currency.of m.currency.code ≡ ok m.currency) × (is_storable m ≡ true)
IsSendable (status s) = Unit {0}
IsSendable (both m s) = (Currency.of m.currency.code ≡ ok m.currency) × (is_storable m ≡ true)

decimal-read : (m : Money) → from_decimal (to_decimal_string m) m.currency ≡ ok m
unfolding from_decimal to_decimal_string of_parsed
decimal-read m = rw (parse-format m.minor_units m.currency.minor_unit_digits) refl

money-read :
    (m : Money)
    → Currency.of m.currency.code ≡ ok m.currency
    → is_storable m ≡ true
    → money_value (money_json m) ≡ some m
unfolding money_value text_eq
money-read m known fits = rw known (rw (decimal-read m) (rw fits refl))

status-read : (s : ProgramStatus) → status_value (status_json s) ≡ some s
unfolding status_value text_eq
status-read ProgramStatus.active = refl
status-read ProgramStatus.suspended = refl

id-read : (id : Text) → is_external_id id ≡ true → program_id_value (string id) ≡ some id
unfolding program_id_value
id-read id h = rw (trim-AllPlain id (external_plain id h)) (rw h refl)

program-read :
    (id : Text) (state : ProgramState)
    → is_external_id id ≡ true
    → IsSendable state
    → program_value (kind_of state) (object (field (codes "id") (string id) (state_fields state)))
      ≡ some (part_of id state)
unfolding program_value text_eq
program-read id (limit m) h fits = rw (id-read id h) (rw (money-read m fits.0 fits.1) refl)
program-read id (status s) h fits = rw (id-read id h) (rw (status-read s) refl)
program-read id (both m s) h fits =
    rw (id-read id h) (rw (money-read m fits.0 fits.1) (rw (status-read s) refl))

event_id-read : (id : Text) → is_event_id id ≡ true → event_id_value (string id) ≡ some id
unfolding event_id_value
event_id-read id h = rw h refl

sequence-read : (n : ℤ) → is_sequence n ≡ true → sequence_value (integer n) ≡ some n
unfolding sequence_value
sequence-read n h = rw h refl

abbrev pub message_of : Text → Text → ℤ → Text → ProgramState → TreasuryMessage
message_of event_id occurred_at sequence program_id state = record {
  event_id = event_id;
  occurred_at = occurred_at;
  sequence = sequence;
  kind = kind_of state;
  program = part_of program_id state;
}

message-read :
    (is_datetime : Text → Bool) (event_id occurred_at : Text) (sequence : ℤ) (program_id : Text)
    (state : ProgramState)
    → is_event_id event_id ≡ true
    → is_datetime occurred_at ≡ true
    → is_sequence sequence ≡ true
    → is_external_id program_id ≡ true
    → IsSendable state
    → message_value is_datetime (treasury_json event_id occurred_at sequence program_id state)
      ≡ some (message_of event_id occurred_at sequence program_id state)
unfolding message_value text_eq
message-read is_datetime event_id occurred_at sequence program_id (limit m) e d n p s =
    rw (event_id-read event_id e)
      (rw d (rw (sequence-read sequence n) (rw (program-read program_id (limit m) p s) refl)))
message-read is_datetime event_id occurred_at sequence program_id (status t) e d n p s =
    rw (event_id-read event_id e)
      (rw d (rw (sequence-read sequence n) (rw (program-read program_id (status t) p s) refl)))
message-read is_datetime event_id occurred_at sequence program_id (both m t) e d n p s =
    rw (event_id-read event_id e)
      (rw d (rw (sequence-read sequence n) (rw (program-read program_id (both m t) p s) refl)))

part_id : (id : Text) (state : ProgramState) → (part_of id state).id ≡ id
part_id id (limit m) = refl
part_id id (status s) = refl
part_id id (both m s) = refl

-- Let a body parse as the JSON of a treasury message: its type, a new limit, a new status or
-- both, an event id of 1 to 200 units without NUL, a date and time, a sequence from 0 to the
-- largest safe integer, a program id of the pattern, and a limit, where it has one, in a
-- currency of the table that the database can store. Then toCommand returns the command with
-- the id, event id, kind, sequence, limit, status and time that were written, and with the
-- JSON as payload.
pub to_command-treasury_json :
    (parse_json : Text → Option Json) (is_datetime : Text → Bool) (date_of : Text → Date)
    (raw event_id occurred_at : Text) (sequence : ℤ) (program_id : Text) (state : ProgramState)
    → parse_json raw ≡ some (treasury_json event_id occurred_at sequence program_id state)
    → is_event_id event_id ≡ true
    → is_datetime occurred_at ≡ true
    → is_sequence sequence ≡ true
    → is_external_id program_id ≡ true
    → IsSendable state
    → to_command parse_json is_datetime date_of (some raw)
      ≡ command (record {
        program_id = record { value = program_id };
        event_id = event_id;
        kind = kind_of state;
        sequence = sequence;
        credit_limit = (part_of program_id state).credit_limit;
        occurred_at = date_of occurred_at;
        payload = treasury_json event_id occurred_at sequence program_id state;
        status = (part_of program_id state).status;
      })
unfolding to_command new_command
to_command-treasury_json parse_json is_datetime date_of raw event_id occurred_at sequence program_id
      state r e d n p s =
    rw r (
      rw (message-read is_datetime event_id occurred_at sequence program_id state e d n p s)
        (rw (part_id program_id state) (rw (of-external program_id p) refl)))
