-- ===== src/Capacity/TreasuryMessage/Accepted.antt =====
-- messaging/treasury-message.ts: what a message is that becomes a command.
use program_capacity_invoice.Prelude.{
  ◌≤◌, ◌≡◌, refl, sym, ap, subst, arith, Bool, true, false, ◌&&◌, leb, Option, none, some, is_none,
  ℤ, pos, neg_ℤ, ◌≤ℤ◌, Text, trim, length, Json, Fields, get_field, codes,
}
use program_capacity_invoice.Prelude.Optional.{>>=-some, require-true}
use program_capacity_invoice.Money.Types.{Money, Date}
use program_capacity_invoice.Money.Amount.{max_minor_units, from_decimal}
use program_capacity_invoice.Money.Currency
use program_capacity_invoice.Errors.{ProgramStatus}
use program_capacity_invoice.Capacity.Ids
use program_capacity_invoice.Capacity.Ids.{is_external_id}
use program_capacity_invoice.Capacity.Ids.External.{and_true, of-external}
use program_capacity_invoice.Capacity.Store.{
  TreasuryEventKind, capacity_changed, status_changed, state_reconciled,
}
use program_capacity_invoice.Capacity.Handlers.Treasury.{ApplyTreasuryUpdateCommand}
use program_capacity_invoice.Capacity.TreasuryMessage.{
  TreasuryMessage, ProgramPart, Parsed, command, treasury_message_error, as_fields, as_string,
  as_integer, returned, money_value, is_storable, is_event_id, no_nul, event_id_value, is_sequence,
  max_safe_integer, sequence_value, program_id_value, status_value, limit_part, status_part,
  program_value, kind_of_text, message_value, new_command, of_message, of_json, to_command,
}

-- A limit that the database can store, where there is one.
abbrev pub IsStorable : Option Money → Type 0
IsStorable none = Unit {0}
IsStorable (some m) = (m.minor_units ≤ℤ max_minor_units) × (neg_ℤ m.minor_units ≤ℤ max_minor_units)

-- What each kind of message carries.
abbrev pub Carries : TreasuryEventKind → Bool → Bool → Type 0
Carries capacity_changed no_limit no_status = (no_limit ≡ false) × (no_status ≡ true)
Carries status_changed no_limit no_status = (no_limit ≡ true) × (no_status ≡ false)
Carries state_reconciled no_limit no_status = (no_limit ≡ false) × (no_status ≡ false)

pub record IsAccepted (c : ApplyTreasuryUpdateCommand) : Type 0 where
  pub id_length : (1 ≤ length c.event_id) × (length c.event_id ≤ 200)
  pub id_no_nul : no_nul c.event_id ≡ true
  pub sequence_fits : (pos 0 ≤ℤ c.sequence) × (c.sequence ≤ℤ max_safe_integer)
  pub program_external : is_external_id c.program_id.value ≡ true
  pub limit_storable : IsStorable c.credit_limit
  pub carries : Carries c.kind (is_none c.credit_limit) (is_none c.status)

record IsPart (kind : TreasuryEventKind) (p : ProgramPart) : Type 0 where
  external : is_external_id p.id ≡ true
  storable : IsStorable p.credit_limit
  carries : Carries kind (is_none p.credit_limit) (is_none p.status)

limit_fits : (m : Money) → is_storable m ≡ true → IsStorable (some m)
limit_fits m h = (ground arith, ground arith)

some_injective {ℓ} : {A : Type ℓ} {a b : A} → some a ≡ some b → a ≡ b
some_injective e = cc

money-IsStorable : (json : Json) (m : Money) → money_value json ≡ some m → IsStorable (some m)
unfolding money_value
money-IsStorable json m h =
    let (fields, e1, h1) = >>=-some (as_fields json) _ h in
    let (known, h2) = require-true _ _ h1 in
    let (a, e3, h3) = >>=-some (get_field (codes "amount") fields) _ h2 in
    let (amount, e4, h4) = >>=-some (as_string a) _ h3 in
    let (c, e5, h5) = >>=-some (get_field (codes "currency") fields) _ h4 in
    let (code, e6, h6) = >>=-some (as_string c) _ h5 in
    let (currency, e7, h7) = >>=-some (returned (Currency.of code)) _ h6 in
    let (money, e8, h8) = >>=-some (returned (from_decimal amount currency)) _ h7 in
    let (fits, last) = require-true (is_storable money) (some money) h8 in
    subst (λ n. IsStorable (some n)) (some_injective last) (limit_fits money fits)

-- The fields that a kind names are there.
named_limit :
    (fields : Fields) (limit : Option Money)
    → limit_part capacity_changed fields ≡ some limit
    → IsStorable limit × (is_none limit ≡ false)
named_limit fields limit h =
    let (json, e1, h1) = >>=-some (get_field (codes "creditLimit") fields) _ h in
    let (money, e2, h2) = >>=-some (money_value json) _ h1 in
    subst (λ l. IsStorable l × (is_none l ≡ false)) (some_injective h2)
      (money-IsStorable json money e2, refl)

named_status :
    (fields : Fields) (status : Option ProgramStatus)
    → status_part status_changed fields ≡ some status
    → is_none status ≡ false
named_status fields status h =
    let (json, e1, h1) = >>=-some (get_field (codes "status") fields) _ h in
    let (value, e2, h2) = >>=-some (status_value json) _ h1 in ap is_none (sym (some_injective h2))

parts_fit :
    (kind : TreasuryEventKind) (fields : Fields) (limit : Option Money)
    (status : Option ProgramStatus)
    → limit_part kind fields ≡ some limit
    → status_part kind fields ≡ some status
    → IsStorable limit × Carries kind (is_none limit) (is_none status)
parts_fit capacity_changed fields limit status l s =
    let (storable, there) = named_limit fields limit l in
    (storable, (there, ap is_none (sym (some_injective s))))
parts_fit status_changed fields limit status l s = (
  subst IsStorable (some_injective l) tt,
  (ap is_none (sym (some_injective l)), named_status fields status s),
)
parts_fit state_reconciled fields limit status l s =
    let (storable, there) = named_limit fields limit l in
    (storable, (there, named_status fields status s))

program_id-external :
    (json : Json) (id : Text) → program_id_value json ≡ some id → is_external_id id ≡ true
unfolding program_id_value
program_id-external json id h =
    let (raw, e1, h1) = >>=-some (as_string json) _ h in
    let (fits, last) = require-true (is_external_id (trim raw)) (some (trim raw)) h1 in
    subst (λ s. is_external_id s ≡ true) (some_injective last) fits

program-IsPart :
    (kind : TreasuryEventKind) (json : Json) (p : ProgramPart)
    → program_value kind json ≡ some p
    → IsPart kind p
unfolding program_value
program-IsPart kind json p h =
    let (fields, e1, h1) = >>=-some (as_fields json) _ h in
    let (known, h2) = require-true _ _ h1 in
    let (id_json, e3, h3) = >>=-some (get_field (codes "id") fields) _ h2 in
    let (id, e4, h4) = >>=-some (program_id_value id_json) _ h3 in
    let (limit, e5, h5) = >>=-some (limit_part kind fields) _ h4 in
    let (status, e6, h6) = >>=-some (status_part kind fields) _ h5 in
    let (storable, carries) = parts_fit kind fields limit status e5 e6 in
    subst (IsPart kind) (some_injective h6) (record {
      external = program_id-external id_json id e4;
      storable = storable;
      carries = carries;
    })

record IsWellFormed (m : TreasuryMessage) : Type 0 where
  id_fits : is_event_id m.event_id ≡ true
  sequence_fits : is_sequence m.sequence ≡ true
  part : IsPart m.kind m.program

event_id-fits : (json : Json) (id : Text) → event_id_value json ≡ some id → is_event_id id ≡ true
unfolding event_id_value
event_id-fits json id h =
    let (raw, e1, h1) = >>=-some (as_string json) _ h in
    let (fits, last) = require-true (is_event_id raw) (some raw) h1 in
    subst (λ s. is_event_id s ≡ true) (some_injective last) fits

sequence-fits : (json : Json) (n : ℤ) → sequence_value json ≡ some n → is_sequence n ≡ true
unfolding sequence_value
sequence-fits json n h =
    let (raw, e1, h1) = >>=-some (as_integer json) _ h in
    let (fits, last) = require-true (is_sequence raw) (some raw) h1 in
    subst (λ s. is_sequence s ≡ true) (some_injective last) fits

message_value-IsWellFormed :
    (is_datetime : Text → Bool) (json : Json) (m : TreasuryMessage)
    → message_value is_datetime json ≡ some m
    → IsWellFormed m
unfolding message_value
message_value-IsWellFormed is_datetime json m h =
    let (fields, e1, h1) = >>=-some (as_fields json) _ h in
    let (type_json, e2, h2) = >>=-some (get_field (codes "eventType") fields) _ h1 in
    let (event_type, e3, h3) = >>=-some (as_string type_json) _ h2 in
    let (kind, e4, h4) = >>=-some (kind_of_text event_type) _ h3 in
    let (id_json, e5, h5) = >>=-some (get_field (codes "eventId") fields) _ h4 in
    let (id, e6, h6) = >>=-some (event_id_value id_json) _ h5 in
    let (time_json, e7, h7) = >>=-some (get_field (codes "occurredAt") fields) _ h6 in
    let (time, e8, h8) = >>=-some (as_string time_json) _ h7 in
    let (dated, h9) = require-true (is_datetime time) _ h8 in
    let (sequence_json, e10, h10) = >>=-some (get_field (codes "sequence") fields) _ h9 in
    let (sequence, e11, h11) = >>=-some (sequence_value sequence_json) _ h10 in
    let (program_json, e12, h12) = >>=-some (get_field (codes "program") fields) _ h11 in
    let (program, e13, h13) = >>=-some (program_value kind program_json) _ h12 in
    subst IsWellFormed (some_injective h13) (record {
      id_fits = event_id-fits id_json id e6;
      sequence_fits = sequence-fits sequence_json sequence e11;
      part = program-IsPart kind program_json program e13;
    })

-- The outcome of `toCommand` on any body.
abbrev pub IsParsed : Parsed → Type 0
IsParsed (command c) = IsAccepted c
IsParsed treasury_message_error = Unit {0}
IsParsed (Parsed.rethrown error) = ⊥

event_id_fits :
    (id : Text) → is_event_id id ≡ true → (1 ≤ length id) × (length id ≤ 200) × (no_nul id ≡ true)
event_id_fits id h =
    let (lengths, clean) = and_true (leb 1 (length id) && leb (length id) 200) (no_nul id) h in
    let (long, short) = and_true (leb 1 (length id)) (leb (length id) 200) lengths in
    (ground arith, ground arith, clean)

sequence_fits : (n : ℤ) → is_sequence n ≡ true → (pos 0 ≤ℤ n) × (n ≤ℤ max_safe_integer)
sequence_fits n h = (ground arith, ground arith)

new_command-IsParsed :
    (date_of : Text → Date) (json : Json) (m : TreasuryMessage)
    → IsWellFormed m
    → IsParsed (new_command date_of json m (Ids.of m.program.id))
unfolding new_command
new_command-IsParsed date_of json m valid =
    let (long, short, clean) = event_id_fits m.event_id valid.id_fits in
    rw (of-external m.program.id valid.part.external) (record {
      id_length = (long, short);
      id_no_nul = clean;
      sequence_fits = sequence_fits m.sequence valid.sequence_fits;
      program_external = valid.part.external;
      limit_storable = valid.part.storable;
      carries = valid.part.carries;
    })

module _ (parse_json : Text → Option Json) (is_datetime : Text → Bool) (date_of : Text → Date) where
  of_message-IsParsed :
      (json : Json) (found : Option TreasuryMessage)
      → message_value is_datetime json ≡ found
      → IsParsed (of_message parse_json is_datetime date_of json found)
  of_message-IsParsed json none e = tt
  of_message-IsParsed json (some m) e =
      new_command-IsParsed date_of json m (message_value-IsWellFormed is_datetime json m e)

  of_json-IsParsed : (found : Option Json) → IsParsed (of_json parse_json is_datetime date_of found)
  of_json-IsParsed none = tt
  of_json-IsParsed (some json) = of_message-IsParsed json (message_value is_datetime json) refl

  -- Whatever the body and however it parses, toCommand throws a TreasuryMessageError and no
  -- other error, or returns a command: with an event id of 1 to 200 units without NUL, a
  -- sequence from 0 to the largest safe integer, a program id of the pattern, a limit, where
  -- it has one, that the database can store, and a limit and a status as the kind of the
  -- message says, and nothing else.
  pub to_command-IsParsed :
      (raw : Option Text) → IsParsed (to_command parse_json is_datetime date_of raw)
  unfolding to_command
  to_command-IsParsed none = tt
  to_command-IsParsed (some raw) = of_json-IsParsed (parse_json raw)
