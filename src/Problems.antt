-- ===== src/Problems.antt =====
-- src/platform/http/problem-details.filter.ts and the table of src/contexts/capacity/presentation/http/
-- error-statuses.ts: what an error that a request ends with is answered. The test of a database outage
-- is an argument; the title, which is the framework's name of the status, and logging are left out.
pub mod Expected
pub mod Answers
use program_capacity_invoice.Prelude.{
  ℕ, ◌+◌, leb, ◌&&◌, ◌==◌, if◌then◌else◌, Bool, true, false, Option, none, some, List, [], ◌∷◌,
  ◌++◌, Text, codes, split_on, map, Dict, lookup, Json, Fields, field, end,
}
use program_capacity_invoice.Money.Types.{Money}
use program_capacity_invoice.Money.Decimal.{to_string}
use program_capacity_invoice.Errors.{Error}
use program_capacity_invoice.Capacity.Outbox.{money_json}

-- `code` of each class of errors; `none` for an error of another class
abbrev pub code_of : Error → Option Text
code_of (Error.unsupported_currency code) = some (codes "UNSUPPORTED_CURRENCY")
code_of Error.invalid_amount = some (codes "INVALID_AMOUNT")
code_of (Error.currency_mismatch a b) = some (codes "CURRENCY_MISMATCH")
code_of Error.invalid_divisor = some (codes "INVALID_DIVISOR")
code_of Error.invalid_exchange_rate = some (codes "INVALID_EXCHANGE_RATE")
code_of (Error.rate_not_applicable from to amount) = some (codes "CURRENCY_NOT_CONVERTIBLE")
code_of Error.invalid_identifier = some (codes "INVALID_IDENTIFIER")
code_of Error.invariant_violation = some (codes "INVARIANT_VIOLATION")
code_of (Error.insufficient_capacity id requested available) = some (codes "INSUFFICIENT_CAPACITY")
code_of (Error.program_already_exists id) = some (codes "PROGRAM_ALREADY_EXISTS")
code_of (Error.stale_treasury_update id applied received) = some (codes "TREASURY_UPDATE_STALE")
code_of (Error.treasury_currency_mismatch id a b) = some (codes "TREASURY_CURRENCY_MISMATCH")
code_of (Error.program_not_active id status) = some (codes "PROGRAM_NOT_ACTIVE")
code_of (Error.reservation_already_released id) = some (codes "RESERVATION_ALREADY_RELEASED")
code_of (Error.repayment_exceeds_outstanding id repayment outstanding) =
    some (codes "REPAYMENT_EXCEEDS_OUTSTANDING")
code_of (Error.repayment_currency_mismatch id a b) = some (codes "REPAYMENT_CURRENCY_MISMATCH")
code_of (Error.reservation_program_mismatch id a b) = some (codes "RESERVATION_PROGRAM_MISMATCH")
code_of (Error.exchange_rate_missing a b) = some (codes "CURRENCY_NOT_CONVERTIBLE")
code_of (Error.exchange_rate_wrong_target rate c) = some (codes "CURRENCY_NOT_CONVERTIBLE")
code_of Error.capacity_busy = some (codes "CAPACITY_BUSY")
code_of (Error.exchange_rate_unavailable a b) = some (codes "CURRENCY_NOT_CONVERTIBLE")
code_of (Error.treasury_event_already_recorded id) = some (codes "TREASURY_EVENT_ALREADY_RECORDED")
code_of (Error.program_not_found id) = some (codes "PROGRAM_NOT_FOUND")
code_of (Error.reservation_not_found a b) = some (codes "RESERVATION_NOT_FOUND")
code_of (Error.invoice_already_reserved_for_amount id a b) = some (codes "INVOICE_ALREADY_RESERVED")
code_of (Error.invoice_still_active id) = some (codes "INVOICE_ALREADY_RESERVED")
code_of (Error.invoice_already_repaid id) = some (codes "INVOICE_ALREADY_REPAID")
code_of (Error.repayment_id_reused id) = some (codes "REPAYMENT_ID_REUSED")
code_of Error.invalid_query = some (codes "INVALID_QUERY")
code_of (Error.foreign name) = none

-- SHARED_ERROR_STATUSES
abbrev pub shared_error_statuses : Dict ℕ
shared_error_statuses =
    (codes "INVALID_AMOUNT", 422)
    ∷ (codes "CURRENCY_MISMATCH", 422)
    ∷ (codes "UNSUPPORTED_CURRENCY", 422)
    ∷ (codes "CURRENCY_NOT_CONVERTIBLE", 422)
    ∷ (codes "INVALID_IDENTIFIER", 400)
    ∷ []

-- CAPACITY_ERROR_STATUSES
abbrev pub capacity_error_statuses : Dict ℕ
capacity_error_statuses =
    (codes "PROGRAM_NOT_FOUND", 404)
    ∷ (codes "RESERVATION_NOT_FOUND", 404)
    ∷ (codes "INSUFFICIENT_CAPACITY", 409)
    ∷ (codes "PROGRAM_NOT_ACTIVE", 409)
    ∷ (codes "INVOICE_ALREADY_RESERVED", 409)
    ∷ (codes "INVOICE_ALREADY_REPAID", 409)
    ∷ (codes "RESERVATION_ALREADY_RELEASED", 409)
    ∷ (codes "REPAYMENT_ID_REUSED", 409)
    ∷ (codes "REPAYMENT_EXCEEDS_OUTSTANDING", 422)
    ∷ (codes "REPAYMENT_CURRENCY_MISMATCH", 422)
    ∷ (codes "INVALID_QUERY", 400)
    ∷ (codes "CAPACITY_BUSY", 503)
    ∷ []

-- The table of app.module.ts; no code stands in both.
abbrev pub error_statuses : Dict ℕ
error_statuses = shared_error_statuses ++ capacity_error_statuses

-- HTTP_CODES
abbrev pub http_code : ℕ → Text
http_code status =
    if status == 400
    then codes "BAD_REQUEST"
    else if status == 401
    then codes "UNAUTHENTICATED"
    else if status == 403
    then codes "FORBIDDEN"
    else if status == 404
    then codes "NOT_FOUND"
    else if status == 405
    then codes "METHOD_NOT_ALLOWED"
    else if status == 413
    then codes "PAYLOAD_TOO_LARGE"
    else if status == 415
    then codes "UNSUPPORTED_MEDIA_TYPE"
    else codes "HTTP_" ++ to_string status

-- RETRY_AFTER_SECONDS
abbrev pub retry_after_seconds : Dict ℕ
retry_after_seconds = (codes "CAPACITY_BUSY", 1) ∷ (codes "DATABASE_UNAVAILABLE", 5) ∷ []

-- A detail is the message of an error, which is not modelled, or a fixed text.
pub data Detail : Type 0 where
  own_message : Detail
  fixed : Text → Detail

-- `Problem`; no extensions are no fields
pub record Problem : Type 0 where
  pub status : ℕ
  pub code : Text
  pub detail : Detail
  pub extensions : Fields

-- What a request ends with: a request that is not valid, with its issues; an exception of the
-- framework; or another error.
pub data Thrown : Type 0 where
  request_validation : Json → Thrown
  http_exception : ℕ → Thrown
  raised : Error → Thrown

-- `extensionsOf`
abbrev pub extensions_of : Error → Fields
extensions_of (Error.insufficient_capacity id requested available) =
    field (codes "requested") (money_json requested)
      (field (codes "available") (money_json available) end)
extensions_of (Error.repayment_exceeds_outstanding id repayment outstanding) =
    field (codes "repayment") (money_json repayment)
      (field (codes "outstanding") (money_json outstanding) end)
extensions_of _ = end

-- `unexpected`
abbrev pub unexpected : Problem
unexpected = record {
  status = 500;
  code = codes "INTERNAL_ERROR";
  detail = fixed (codes "An unexpected error occurred.");
  extensions = end;
}

abbrev pub database_unavailable : Problem
database_unavailable = record {
  status = 503;
  code = codes "DATABASE_UNAVAILABLE";
  detail =
      fixed (codes "The database is temporarily unavailable; nothing was changed. Retry shortly.");
  extensions = end;
}

abbrev pub mapped : Error → Text → Option ℕ → Problem
mapped error code none = unexpected
mapped error code (some status) = record {
  status = status;
  code = code;
  detail = own_message;
  extensions = extensions_of error;
}

abbrev pub of_error : (Error → Bool) → Error → Option Text → Problem
of_error is_outage error none = if is_outage error then database_unavailable else unexpected
of_error is_outage error (some code) = mapped error code (lookup code error_statuses)

-- `toProblem`
unfoldable pub to_problem : (Error → Bool) → Thrown → Problem
to_problem is_outage (request_validation issues) = record {
  status = 400;
  code = codes "VALIDATION_FAILED";
  detail = own_message;
  extensions = field (codes "issues") issues end;
}
to_problem is_outage (http_exception status) = record {
  status = status;
  code = http_code status;
  detail = own_message;
  extensions = end;
}
to_problem is_outage (raised error) = of_error is_outage error (code_of error)

-- What `sendProblem` writes, less the title; what it copies of the problem is left in it.
pub record Answer : Type 0 where
  pub status : ℕ
  pub www_authenticate : Option Text
  pub retry_after : Option ℕ
  pub content_type : Text
  pub problem_type : Text
  pub problem : Problem

-- `code.toLowerCase().replaceAll('_', '-')` of a code
abbrev pub type_unit : ℕ → ℕ
type_unit c = if c == b'_' then b'-' else if leb b'A' c && leb c b'Z' then c + 32 else c

unfoldable pub send_problem : Problem → Answer
send_problem problem = record {
  status = problem.status;
  www_authenticate =
      if problem.status == 401 then some (codes "Bearer realm=\"invoice-reservation\"") else none;
  retry_after = lookup problem.code retry_after_seconds;
  content_type = codes "application/problem+json";
  problem_type = codes "urn:invoice-reservation:problem:" ++ map type_unit problem.code;
  problem = problem;
}

-- `ProblemDetailsFilter.catch`
unfoldable pub answer_to : (Error → Bool) → Thrown → Answer
answer_to is_outage thrown = send_problem (to_problem is_outage thrown)
