-- ===== src/Lib.antt =====
-- Program capacity and invoice reservation: a verification library for the service's domain.
--
-- A funding program has a credit limit and a reserved amount. Reserving capacity for an invoice
-- converts the invoice into the program's currency, rounding up, and holds the result against the
-- limit; repayments of the invoice, in one or several instalments, free what was held at the same
-- rate, rounding down until the last one, which frees the rest. Treasury sends updates of limits and
-- statuses, numbered by a sequence, that may come late, twice or out of order.
--
-- The files and the code that they model:
--   Money/Types, Money/Currency, Money/Amount: src/shared/money/currency.ts and money.ts
--   Money/Rounding, Money/Decimal, Money/Rate: src/shared/money/rounding.ts, decimal.ts and
--     exchange-rate.ts
--   Errors: the errors that are thrown (src/contexts/capacity/domain/errors.ts, application/errors.ts,
--     and those of src/shared and of the ports), and `Result` for code that returns or throws
--   Exec: methods that assign fields and may throw; what was assigned before a throw stays
--   Capacity/Ids, Capacity/Events: src/shared/domain/identifier.ts and aggregate-root.ts,
--     src/contexts/capacity/domain/ids.ts and events.ts
--   Capacity/Reservation: src/contexts/capacity/domain/reservation.ts, and below it the proofs
--   Capacity/Program, Program/State, Program/Guards: src/contexts/capacity/domain/program.ts, and
--     below it the proofs; `reserveFor`, `release` and `applyTreasuryState` are `reserve_for`,
--     `release` and `apply_treasury_state`, each the guards of the code in its order and then its
--     assignments
--   Capacity/Store: the ports over an in-memory store, test/support/in-memory-capacity.ts; an action
--     that throws inside `run` is rolled back
--   Capacity/Views: src/contexts/capacity/application/views.ts
--   Capacity/Handlers: the command handlers of src/contexts/capacity/application; Handlers/Treasury,
--     Handlers/Repayment and Handlers/Reserving model apply-treasury-update, record-repayment and
--     reserve-capacity, and Redelivery, Twice, Same, Retry and Repeat are
--     their proofs
--   Capacity/Messaging: infrastructure/messaging/treasury-message-processor.ts of
--     src/contexts/capacity; delays are whole milliseconds
--   Capacity/TreasuryMessage: messaging/treasury-message.ts, the schema of treasury's messages and the
--     command that a message becomes
--   Capacity/Feed: reading, handler and processor together, `process` from the bytes of a
--     message to the store: the command goes to Handlers/Treasury, and its failures to Messaging
--   Capacity/Outbox: messaging/capacity-events.ts and outbox-relay.ts and persistence/prisma/
--     prisma-event-outbox.ts; below it the proofs. `OutboxTable` is what the relay asks of the table,
--     `Attempt` what the world does to one batch, and the partition of a key is the broker's
--   Capacity/Listing: the queries of src/contexts/capacity/application and persistence/prisma/
--     prisma-capacity-read-model.ts; `CapacityReadModel` is the port between them, and
--     `ReservationTable` what the read model asks of the database; Rows, Cursor, Pages and Follow are
--     the proofs
--   Capacity/Mappers, Capacity/Ledger: persistence/prisma/mappers.ts and prisma-capacity-ledger.ts
--   Capacity/Rates: infrastructure/fx/static-exchange-rate-provider.ts
--   Iam: src/iam, the claims of a token and the two guards
--   Config: src/platform/config/app-config.ts
--   Problems: src/platform/http/problem-details.filter.ts and the statuses of
--     src/contexts/capacity/presentation/http/error-statuses.ts
--   Dates: `Date.prototype.toISOString`
--   Examples: runs on concrete values
--
-- Numbers. A bigint is an ℤ with no bound. A sequence or version is an ℤ, where the code has a number
-- that it checks to be a safe integer. A string is its list of UTF-16 units. A `Date` is its time in
-- milliseconds, or `none` for an invalid date. Fuel is used to print digits, where the number itself is
-- enough fuel for its digits, for the relay's loop, where it counts batches and its hundredfold must
-- be above the rows that wait and come in meanwhile, and for a client's pages, where one page more than
-- there are reservations is enough.
--
-- Soundness. `Capacity.Reservation.Sound.IsSound` is stronger than what the code's own check tests: it
-- says that the amounts held and freed are those that the rate gives.
-- `Capacity.Program.Sound.IsSound` says that the limit is positive, the reserved amount is not
-- negative and both are in one currency; the reserved amount may be above the limit after a cut.
--
-- `Capacity.Program.Portfolio` follows a program and all of its reservations through any sequence of
-- operations, as a step relation.
--
-- Transactions run one at a time, as the store's runner does; what the database locks is not modelled.
-- So rows come to the outbox in the order of their positions. Each batch of the relay is a
-- transaction of its own, and what others do to the outbox between two batches is an argument. The
-- exchange-rate provider, the clock and the random id are arguments of the handlers.
--
-- Outside code. Prisma's queries, the broker, the token library, `JSON.parse` and `JSON.stringify`,
-- base64url and the reading of dates are arguments, with what is asked of them where it is needed. The
-- schemas of treasury's messages are read as their library documents them.
-- The relay's producer is idempotent: what a failed send leaves in a partition are the first messages of
-- the batch for it, perhaps none, and the partitions fare apart.
--
-- Not modelled: the text of error messages; the Kafka subscription and the dead-letter topic, the
-- repositories' statements and locks in Postgres, HTTP routes, request schemas and the API document, the
-- schemas of single environment variables, and the libraries (NestJS, Prisma, Kafka).
pub mod Prelude
pub mod Money
pub mod Errors
pub mod Exec
pub mod Capacity
pub mod Dates
pub mod Iam
pub mod Config
pub mod Problems
pub mod Examples
