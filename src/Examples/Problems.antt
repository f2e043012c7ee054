-- ===== src/Examples/Problems.antt =====
-- A request without a token.
use program_capacity_invoice.Prelude.{Bool, false}
use program_capacity_invoice.Errors.{Error}
use program_capacity_invoice.Problems.{Thrown, http_exception}

abbrev without_token : Thrown
without_token = http_exception 401

abbrev is_outage : Error → Bool
is_outage error = false
