-- ===== src/Problems/Expected.antt =====
-- src/platform/http/problem-details.filter.ts: what a client is to be answered.
use program_capacity_invoice.Prelude.{
  ℕ, ◌≡◌, ◌≢◌, ◌⊎◌, ◌==◌, ◌||◌, if◌then◌else◌, Bool, false, none, some, ◌++◌, Text, codes, field,
  end,
}
use program_capacity_invoice.Money.Decimal.{to_string}
use program_capacity_invoice.Errors.{Error}
use program_capacity_invoice.Problems.{
  Thrown, request_validation, http_exception, raised, Answer, fixed, code_of,
}

-- What an error says of its request: it cannot be read, it names what is not there, it conflicts with
-- the state, it carries a value that the rules reject, or it may come again, after some seconds; or the
-- error is the service's own, a bug or what only treasury's messages meet.
pub data Verdict : Type 0 where
  unreadable missing conflicting rejected service : Verdict
  again : ℕ → Verdict

abbrev pub verdict : (Error → Bool) → Error → Verdict
verdict is_outage Error.invalid_identifier = unreadable
verdict is_outage Error.invalid_query = unreadable
verdict is_outage (Error.program_not_found id) = missing
verdict is_outage (Error.reservation_not_found program invoice) = missing
verdict is_outage (Error.insufficient_capacity id requested available) = conflicting
verdict is_outage (Error.program_not_active id status) = conflicting
verdict is_outage (Error.reservation_already_released id) = conflicting
verdict is_outage (Error.invoice_already_reserved_for_amount id held requested) = conflicting
verdict is_outage (Error.invoice_still_active id) = conflicting
verdict is_outage (Error.invoice_already_repaid id) = conflicting
verdict is_outage (Error.repayment_id_reused id) = conflicting
verdict is_outage (Error.unsupported_currency code) = rejected
verdict is_outage Error.invalid_amount = rejected
verdict is_outage (Error.currency_mismatch a b) = rejected
verdict is_outage (Error.rate_not_applicable from to amount) = rejected
verdict is_outage (Error.exchange_rate_missing from to) = rejected
verdict is_outage (Error.exchange_rate_wrong_target rate currency) = rejected
verdict is_outage (Error.exchange_rate_unavailable from to) = rejected
verdict is_outage (Error.repayment_exceeds_outstanding id repayment outstanding) = rejected
verdict is_outage (Error.repayment_currency_mismatch id a b) = rejected
verdict is_outage Error.capacity_busy = again 1
verdict is_outage (Error.foreign name) = if is_outage (Error.foreign name) then again 5 else service
verdict is_outage Error.invariant_violation = service
verdict is_outage Error.invalid_divisor = service
verdict is_outage Error.invalid_exchange_rate = service
verdict is_outage (Error.program_already_exists id) = service
verdict is_outage (Error.stale_treasury_update id applied received) = service
verdict is_outage (Error.treasury_currency_mismatch id a b) = service
verdict is_outage (Error.reservation_program_mismatch id a b) = service
verdict is_outage (Error.treasury_event_already_recorded id) = service

-- The client is told the code of the error, and not to come again.
abbrev pub IsTold : ℕ → Error → Answer → Type 0
IsTold status error a =
    (a.status ≡ status) × (some a.problem.code ≡ code_of error) × (a.retry_after ≡ none)

abbrev pub IsAnswered : Verdict → Error → Answer → Type 0
IsAnswered unreadable error a = IsTold 400 error a
IsAnswered missing error a = IsTold 404 error a
IsAnswered conflicting error a = IsTold 409 error a
IsAnswered rejected error a = IsTold 422 error a
IsAnswered (again seconds) error a =
    (a.status ≡ 503) × (a.retry_after ≡ some seconds) × (a.problem.extensions ≡ end)
IsAnswered service error a =
    (a.status ≡ 500)
    × (a.problem.code ≡ codes "INTERNAL_ERROR")
    × (a.problem.detail ≡ fixed (codes "An unexpected error occurred."))
    × (a.problem.extensions ≡ end)
    × (a.retry_after ≡ none)

-- The statuses with a code of their own.
abbrev pub named_status : ℕ → Bool
named_status status =
    status == 400
    || (status == 401
        || (status == 403
            || (status == 404 || (status == 405 || (status == 413 || status == 415)))))

-- The code of a status that the framework answers with.
pub data IsHttpCode : ℕ → Text → Type 0 where
  bad_request : IsHttpCode 400 (codes "BAD_REQUEST")
  unauthenticated : IsHttpCode 401 (codes "UNAUTHENTICATED")
  forbidden : IsHttpCode 403 (codes "FORBIDDEN")
  not_found : IsHttpCode 404 (codes "NOT_FOUND")
  method_not_allowed : IsHttpCode 405 (codes "METHOD_NOT_ALLOWED")
  payload_too_large : IsHttpCode 413 (codes "PAYLOAD_TOO_LARGE")
  unsupported_media_type : IsHttpCode 415 (codes "UNSUPPORTED_MEDIA_TYPE")
  unnamed :
      (status : ℕ)
      → (named_status status ≡ false)
      → IsHttpCode status (codes "HTTP_" ++ to_string status)

-- A challenge goes with 401, and with nothing else.
abbrev pub IsChallenge : ℕ → Answer → Type 0
IsChallenge status a =
    ((status ≡ 401) × (a.www_authenticate ≡ some (codes "Bearer realm=\"invoice-reservation\"")))
    ⊎ ((status ≢ 401) × (a.www_authenticate ≡ none))

-- The answer to what a request ends with.
abbrev pub IsAnswerTo : (Error → Bool) → Thrown → Answer → Type 0
IsAnswerTo is_outage (request_validation issues) a =
    (a.status ≡ 400)
    × (a.problem.code ≡ codes "VALIDATION_FAILED")
    × (a.problem.extensions ≡ field (codes "issues") issues end)
    × (a.retry_after ≡ none)
    × (a.www_authenticate ≡ none)
IsAnswerTo is_outage (http_exception status) a =
    (a.status ≡ status)
    × IsHttpCode status a.problem.code
    × (a.problem.extensions ≡ end)
    × (a.retry_after ≡ none)
    × IsChallenge status a
IsAnswerTo is_outage (raised error) a =
    IsAnswered (verdict is_outage error) error a × (a.www_authenticate ≡ none)
