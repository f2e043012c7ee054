-- ===== src/Capacity/TreasuryMessage.antt =====
-- src/contexts/capacity/infrastructure/messaging/treasury-message.ts: the schema of treasury's
-- messages and the command that a message becomes. `JSON.parse`, the schema library's test of a date
-- and time, and `new Date` of such a text are outside, and are arguments.

pub mod Accepted
pub mod Printed
use program_capacity_invoice.Prelude.{
  ℕ, zero, suc, ◌-◌, ◌^◌, Bool, true, false, not, ◌&&◌, leb, ◌==◌, any, if◌then◌else◌, Option, none,
  some, List, [], ◌∷◌, ℤ, pos, neg_ℤ, leb_ℤ, Text, text_eq, trim, codes, length, has, Json, Fields,
  integer, string, object, get_field, field_names,
}
use program_capacity_invoice.Prelude.Optional.{◌>>=◌, ◌>>◌, require}
use program_capacity_invoice.Money.Types.{Money, Currency, Date, Identifier}
use program_capacity_invoice.Money.Currency
use program_capacity_invoice.Money.Amount.{from_decimal, max_minor_units}
use program_capacity_invoice.Errors.{Error, Result, ok, err, ProgramStatus, foreign}
use program_capacity_invoice.Capacity.Ids
use program_capacity_invoice.Capacity.Ids.{is_external_id}
use program_capacity_invoice.Capacity.Store.{
  TreasuryEventKind, capacity_changed, status_changed, state_reconciled,
}
use program_capacity_invoice.Capacity.Handlers.Treasury.{ApplyTreasuryUpdateCommand}

-- A field that must be a string, and an object that must have no other fields.
abbrev pub as_string : Json → Option Text
as_string (string s) = some s
as_string _ = none

abbrev pub as_fields : Json → Option Fields
as_fields (object fields) = some fields
as_fields _ = none

abbrev pub as_integer : Json → Option ℤ
as_integer (integer n) = some n
as_integer _ = none

abbrev pub all_known : List Text → List Text → Bool
all_known known [] = true
all_known known (name ∷ names) = has name known && all_known known names

abbrev pub returned {ℓ} : {A : Type ℓ} → Result A → Option A
returned (ok a) = some a
returned (err error) = none

-- `amount.minorUnits <= MAX_MINOR_UNITS && -amount.minorUnits <= MAX_MINOR_UNITS`
abbrev pub is_storable : Money → Bool
is_storable amount =
    leb_ℤ amount.minor_units max_minor_units && leb_ℤ (neg_ℤ amount.minor_units) max_minor_units

-- `money`
unfoldable pub money_value : Json → Option Money
money_value json = do
  fields ← as_fields json
  require (all_known (codes "amount" ∷ codes "currency" ∷ []) (field_names fields))
  amount_json ← get_field (codes "amount") fields
  amount ← as_string amount_json
  code_json ← get_field (codes "currency") fields
  code ← as_string code_json
  currency ← returned (Currency.of code)
  money ← returned (from_decimal amount currency)
  require (is_storable money)
  some money

-- `noNul`
abbrev pub no_nul : Text → Bool
no_nul value = not (any (λ c. c == 0) value)

-- `eventId`
abbrev pub is_event_id : Text → Bool
is_event_id id = leb 1 (length id) && leb (length id) 200 && no_nul id

unfoldable pub event_id_value : Json → Option Text
event_id_value json = do id ← as_string json; require (is_event_id id); some id

-- `Number.MAX_SAFE_INTEGER`
abbrev pub max_safe_integer : ℤ
max_safe_integer = pos (2 ^ 53 - 1)

abbrev pub is_sequence : ℤ → Bool
is_sequence n = leb_ℤ (pos 0) n && leb_ℤ n max_safe_integer

-- `sequence`
unfoldable pub sequence_value : Json → Option ℤ
sequence_value json = do n ← as_integer json; require (is_sequence n); some n

-- `programId`
unfoldable pub program_id_value : Json → Option Text
program_id_value json = do
  raw ← as_string json
  require (is_external_id (trim raw))
  some (trim raw)

-- `status`
abbrev pub status_of_text : Text → Option ProgramStatus
status_of_text s =
    if text_eq s (codes "ACTIVE")
    then some ProgramStatus.active
    else if text_eq s (codes "SUSPENDED")
    then some ProgramStatus.suspended
    else none

unfoldable pub status_value : Json → Option ProgramStatus
status_value json = do s ← as_string json; status_of_text s

-- EVENT_KINDS, and the discriminator
abbrev pub kind_name : TreasuryEventKind → Text
kind_name capacity_changed = codes "program.capacity.changed"
kind_name status_changed = codes "program.status.changed"
kind_name state_reconciled = codes "program.state.reconciled"

abbrev pub kind_of_text : Text → Option TreasuryEventKind
kind_of_text s =
    if text_eq s (kind_name capacity_changed)
    then some capacity_changed
    else if text_eq s (kind_name status_changed)
    then some status_changed
    else if text_eq s (kind_name state_reconciled)
    then some state_reconciled
    else none

-- `program`, by the kind of the message
pub record ProgramPart : Type 0 where
  pub id : Text
  pub credit_limit : Option Money
  pub status : Option ProgramStatus

abbrev pub part_fields : TreasuryEventKind → List Text
part_fields capacity_changed = codes "id" ∷ codes "creditLimit" ∷ []
part_fields status_changed = codes "id" ∷ codes "status" ∷ []
part_fields state_reconciled = codes "id" ∷ codes "creditLimit" ∷ codes "status" ∷ []

abbrev pub limit_part : TreasuryEventKind → Fields → Option (Option Money)
limit_part status_changed fields = some none
limit_part _ fields = do
  json ← get_field (codes "creditLimit") fields
  limit ← money_value json
  some (some limit)

abbrev pub status_part : TreasuryEventKind → Fields → Option (Option ProgramStatus)
status_part capacity_changed fields = some none
status_part _ fields = do
  json ← get_field (codes "status") fields
  status ← status_value json
  some (some status)

unfoldable pub program_value : TreasuryEventKind → Json → Option ProgramPart
program_value kind json = do
  fields ← as_fields json
  require (all_known (part_fields kind) (field_names fields))
  id_json ← get_field (codes "id") fields
  id ← program_id_value id_json
  limit ← limit_part kind fields
  status ← status_part kind fields
  some (record { id = id; credit_limit = limit; status = status })

pub record TreasuryMessage : Type 0 where
  pub event_id : Text
  pub occurred_at : Text
  pub sequence : ℤ
  pub kind : TreasuryEventKind
  pub program : ProgramPart

-- `treasuryMessageSchema`: fields of the message itself that it does not name are dropped.
unfoldable pub message_value : (Text → Bool) → Json → Option TreasuryMessage
message_value is_datetime json = do
  fields ← as_fields json
  type_json ← get_field (codes "eventType") fields
  event_type ← as_string type_json
  kind ← kind_of_text event_type
  id_json ← get_field (codes "eventId") fields
  id ← event_id_value id_json
  time_json ← get_field (codes "occurredAt") fields
  time ← as_string time_json
  require (is_datetime time)
  sequence_json ← get_field (codes "sequence") fields
  sequence ← sequence_value sequence_json
  program_json ← get_field (codes "program") fields
  program ← program_value kind program_json
  some (record {
    event_id = id;
    occurred_at = time;
    sequence = sequence;
    kind = kind;
    program = program;
  })

-- What `toCommand` returns, or throws: a `TreasuryMessageError` or another error.
pub data Parsed : Type 0 where
  command : ApplyTreasuryUpdateCommand → Parsed
  treasury_message_error : Parsed
  rethrown : Error → Parsed

-- `error instanceof DomainError`
abbrev pub is_domain_error : Error → Bool
is_domain_error (foreign name) = false
is_domain_error _ = true

unfoldable pub new_command : (Text → Date) → Json → TreasuryMessage → Result Identifier → Parsed
new_command date_of json message (err error) =
    if is_domain_error error then treasury_message_error else rethrown error
new_command date_of json message (ok id) = command (record {
  program_id = id;
  event_id = message.event_id;
  kind = message.kind;
  sequence = message.sequence;
  credit_limit = message.program.credit_limit;
  occurred_at = date_of message.occurred_at;
  payload = json;
  status = message.program.status;
})

-- `toCommand`: `raw` is the text of the bytes, `none` where there is no body.
module _ (parse_json : Text → Option Json) (is_datetime : Text → Bool) (date_of : Text → Date) where
  abbrev pub of_message : Json → Option TreasuryMessage → Parsed
  of_message json none = treasury_message_error
  of_message json (some message) = new_command date_of json message (Ids.of message.program.id)

  abbrev pub of_json : Option Json → Parsed
  of_json none = treasury_message_error
  of_json (some json) = of_message json (message_value is_datetime json)

  unfoldable pub to_command : Option Text → Parsed
  to_command none = treasury_message_error
  to_command (some raw) = of_json (parse_json raw)
