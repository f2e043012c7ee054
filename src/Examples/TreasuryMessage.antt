-- ===== src/Examples/TreasuryMessage.antt =====
-- A reconciliation of a program in dollars.
use program_capacity_invoice.Prelude.{
  [], ◌≡◌, refl, true, Bool, Option, some, pos, Text, text_eq, codes, trim, trim_start, is_space,
  Json,
}
use program_capacity_invoice.Money.Types.{Date}
use program_capacity_invoice.Money.Currency
use program_capacity_invoice.Errors.{ok, ProgramStatus}
use program_capacity_invoice.Capacity.Ids.{
  is_external_id, is_alphanumeric, is_id_unit, all_id_units,
}
use program_capacity_invoice.Capacity.Store.{Store, state_reconciled}
use program_capacity_invoice.Capacity.TreasuryMessage.{command, to_command}
use program_capacity_invoice.Capacity.TreasuryMessage.Accepted.{IsParsed, to_command-IsParsed}
use program_capacity_invoice.Capacity.TreasuryMessage.Printed.{
  both, treasury_json, to_command-treasury_json,
}
use program_capacity_invoice.Capacity.Messaging.{default_retry_policy}
use program_capacity_invoice.Capacity.Feed.{process_message}
use program_capacity_invoice.Capacity.Feed.Handled.{IsHandled, process_message-IsHandled}
use program_capacity_invoice.Examples.{usd, dollars, named}

abbrev sent : Json
sent =
    treasury_json (codes "event-1") (codes "2026-01-01T00:00:00Z") (pos 7) (codes "program-1")
      (both (dollars 10000) ProgramStatus.suspended)

abbrev parse_json : Text → Option Json
parse_json raw = some sent

abbrev is_datetime : Text → Bool
is_datetime s = true

abbrev date_of : Text → Date
date_of s = some (pos 1767225600000)

usd_known : Currency.of (codes "USD") ≡ ok usd
unfolding Currency.of Currency.normalise Currency.to_upper_case Currency.upper_unit
    Currency.of_digits Currency.get Currency.minor_unit_table text_eq trim trim_start is_space
usd_known = refl

program_known : is_external_id (codes "program-1") ≡ true
unfolding is_external_id is_alphanumeric is_id_unit all_id_units
program_known = refl

to_command-IsParsed_example :
    IsParsed (to_command parse_json is_datetime date_of (some (codes "{}")))
to_command-IsParsed_example = to_command-IsParsed parse_json is_datetime date_of (some (codes "{}"))

to_command-treasury_json_example :
    to_command parse_json is_datetime date_of (some (codes "{}"))
    ≡ command (record {
      program_id = named "program-1";
      event_id = codes "event-1";
      kind = state_reconciled;
      sequence = pos 7;
      credit_limit = some (dollars 10000);
      occurred_at = some (pos 1767225600000);
      payload = sent;
      status = some ProgramStatus.suspended;
    })
to_command-treasury_json_example =
    to_command-treasury_json parse_json is_datetime date_of (codes "{}") (codes "event-1")
      (codes "2026-01-01T00:00:00Z") (pos 7) (codes "program-1")
      (both (dollars 10000) ProgramStatus.suspended) refl refl refl refl program_known
      (usd_known, refl)

-- No program is there yet, and the message opens one.
abbrev no_programs : Store
no_programs = record {
  programs = [];
  reservations = [];
  movements = [];
  treasury_events = [];
  outbox = [];
}

process_message-IsHandled_example :
    IsHandled default_retry_policy
      (codes "treasury[0]")
      (to_command parse_json is_datetime date_of (some (codes "{}")))
      (ok tt)
      ([], no_programs)
      (process_message parse_json is_datetime date_of default_retry_policy
        (codes "treasury[0]")
        (some (codes "{}"))
        (ok tt)
        ([], no_programs))
process_message-IsHandled_example =
    process_message-IsHandled parse_json is_datetime date_of default_retry_policy
      (codes "treasury[0]") (some (codes "{}")) (ok tt) [] no_programs
