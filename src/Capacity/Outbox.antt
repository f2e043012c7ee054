-- ===== src/Capacity/Outbox.antt =====
-- src/contexts/capacity/infrastructure: messaging/capacity-events.ts, persistence/prisma/
-- prisma-event-outbox.ts and messaging/outbox-relay.ts. The table of the outbox, what the broker
-- answers, `randomUUID` and `JSON.stringify` are outside, and are arguments.

pub mod Partition
pub mod Queue
pub mod Drained
pub mod Drain
pub mod Order
pub mod Arrived
pub mod Relayed
use program_capacity_invoice.Prelude.{
  ℕ, suc, zero, Bool, true, false, not, ◌≡◌, Option, none, some, List, [], ◌∷◌, ◌++◌, map, length,
  ◌==◌, if◌then◌else◌, Text, codes, Json, Fields, string, boolean, object, field, end, filter, has,
  Distinct, take, ◌+◌,
}
use program_capacity_invoice.Money.Types.{Money, Date, Identifier}
use program_capacity_invoice.Money.Amount.{to_decimal_string}
use program_capacity_invoice.Errors.{Error, Result, ok, err, ◌>>=◌, foreign, ProgramStatus}
use program_capacity_invoice.Dates.{to_iso_string}
use program_capacity_invoice.Capacity.Events.{
  DomainEvent, program_opened, capacity_reserved, capacity_released, credit_limit_changed,
  program_status_changed,
}

-- capacity-events.ts
pub record CapacityEventMessage : Type 0 where
  pub event_id : Text
  pub event_type : Text
  pub occurred_at : Text
  pub program_id : Text
  pub details : Fields

-- The classes are all there are: an event of another class has no type and no data, and throws.
abbrev pub event_type_of : DomainEvent → Text
event_type_of (program_opened event) = codes "capacity.program-opened"
event_type_of (capacity_reserved event) = codes "capacity.reserved"
event_type_of (capacity_released event) = codes "capacity.released"
event_type_of (credit_limit_changed event) = codes "capacity.credit-limit-changed"
event_type_of (program_status_changed event) = codes "capacity.program-status-changed"

-- `Money.toJSON`
abbrev pub money_json : Money → Json
money_json m = object (
    field (codes "amount") (string (to_decimal_string m))
      (field (codes "currency") (string m.currency.code) end))

abbrev pub status_json : ProgramStatus → Json
status_json ProgramStatus.active = string (codes "ACTIVE")
status_json ProgramStatus.suspended = string (codes "SUSPENDED")

abbrev pub data_of : DomainEvent → Fields
data_of (program_opened event) =
    field (codes "creditLimit") (money_json event.credit_limit)
      (field (codes "status") (status_json event.status) end)
data_of (capacity_reserved event) =
    field (codes "reservationId") (string event.reservation_id.value) (
      field (codes "invoiceId") (string event.invoice_id.value) (
        field (codes "invoiceAmount") (money_json event.invoice_amount) (
          field (codes "reservedAmount") (money_json event.reserved_amount)
            (field (codes "availableAfter") (money_json event.available_after) end))))
data_of (capacity_released event) =
    field (codes "reservationId") (string event.reservation_id.value) (
      field (codes "invoiceId") (string event.invoice_id.value) (
        field (codes "repaymentId") (string event.repayment_id.value) (
          field (codes "repaidAmount") (money_json event.repaid_amount) (
            field (codes "releasedAmount") (money_json event.released_amount) (
              field (codes "reservationFullyReleased") (boolean event.reservation_fully_released)
                (field (codes "availableAfter") (money_json event.available_after) end))))))
data_of (credit_limit_changed event) =
    field (codes "previousLimit") (money_json event.previous_limit) (
      field (codes "creditLimit") (money_json event.credit_limit) (
        field (codes "reservedAmount") (money_json event.reserved_amount)
          (field (codes "overLimit") (boolean event.over_limit) end)))
data_of (program_status_changed event) =
    field (codes "previousStatus") (status_json event.previous_status)
      (field (codes "status") (status_json event.status) end)

-- `event.occurredAt` and `event.aggregateId`
abbrev pub event_time : DomainEvent → Date
event_time (program_opened event) = event.occurred_at
event_time (capacity_reserved event) = event.occurred_at
event_time (capacity_released event) = event.occurred_at
event_time (credit_limit_changed event) = event.occurred_at
event_time (program_status_changed event) = event.occurred_at

abbrev pub event_program : DomainEvent → Text
event_program (program_opened event) = event.aggregate_id
event_program (capacity_reserved event) = event.aggregate_id
event_program (capacity_released event) = event.aggregate_id
event_program (credit_limit_changed event) = event.aggregate_id
event_program (program_status_changed event) = event.aggregate_id

abbrev pub to_capacity_event_message : Text → DomainEvent → Result CapacityEventMessage
to_capacity_event_message event_id event = do
  occurred_at ← to_iso_string (event_time event)
  ok (record {
    event_id = event_id;
    event_type = event_type_of event;
    occurred_at = occurred_at;
    program_id = event_program event;
    details = data_of event;
  })

abbrev pub message_json : CapacityEventMessage → Json
message_json message = object (
    field (codes "eventId") (string message.event_id) (
      field (codes "eventType") (string message.event_type) (
        field (codes "occurredAt") (string message.occurred_at) (
          field (codes "programId") (string message.program_id)
            (field (codes "data") (object message.details) end)))))

-- A row of the outbox, less its position, which the order of a list stands for, and its times of
-- creation and publication.
pub record OutboxRow : Type 0 where
  pub id : Text
  pub program_id : Text
  pub event_type : Text
  pub payload : Json
  pub occurred_at : Date

abbrev pub outbox_row : Text → DomainEvent → Result OutboxRow
outbox_row uuid event = do
  message ← to_capacity_event_message uuid event
  ok (record {
    id = message.event_id;
    program_id = message.program_id;
    event_type = message.event_type;
    payload = message_json message;
    occurred_at = event_time event;
  })

-- `PrismaEventOutbox.add`: the rows that it writes, in one statement, for n ids already drawn. An
-- event that has no message throws, and then nothing is written.
unfoldable pub outbox_rows : (ℕ → Text) → ℕ → List DomainEvent → Result (List OutboxRow)
outbox_rows random_uuid n [] = ok []
outbox_rows random_uuid n (event ∷ events) = do
  row ← outbox_row (random_uuid n) event
  rows ← outbox_rows random_uuid (suc n) events
  ok (row ∷ rows)

-- outbox-relay.ts: BATCH_SIZE
abbrev pub batch_size : ℕ
batch_size = 100

pub record KafkaMessage : Type 0 where
  pub key : Text
  pub value : Text
  pub event_type : Text
  pub event_id : Text

abbrev pub row_ids : List OutboxRow → List Text
row_ids rows = map OutboxRow.id rows

-- The table, by what the relay reads of it and writes to it: the unpublished rows in the order of
-- their positions, and the rows with some ids marked as published. The id is the table's key.
pub record OutboxTable (S : Type 0) : Type 0 where
  pub unpublished : S → List OutboxRow
  pub mark : List Text → S → S
  pub unpublished-mark :
      (ids : List Text) (s : S)
      → unpublished (mark ids s) ≡ filter (λ row. not (has row.id ids)) (unpublished s)
  pub distinct : (s : S) → Distinct (row_ids (unpublished s))

-- What the world does to one call of `publishBatch`: another instance has the lock; the send fails,
-- when the first messages of the batch in each partition may have arrived, as many as the function
-- says, since the producer is idempotent; the messages are acknowledged and the transaction does not
-- commit; or it commits.
pub data Attempt : Type 0 where
  locked_elsewhere not_committed goes_through : Attempt
  send_failed : (ℕ → ℕ) → Attempt

-- The relay's producer, the table, and what the broker has of each partition of the topic.
pub record Relay (S : Type 0) : Type 0 where
  pub connected : Bool
  pub table : S
  pub topic : ℕ → List KafkaMessage

-- The partition of a key is the broker's.
module _ {S : Type 0} (T : OutboxTable S) (stringify : Json → Text) (partition_of : Text → ℕ) where
  abbrev pub kafka_message : OutboxRow → KafkaMessage
  kafka_message row = record {
    key = row.program_id;
    value = stringify row.payload;
    event_type = row.event_type;
    event_id = row.id;
  }

  abbrev pub in_partition : ℕ → OutboxRow → Bool
  in_partition partition row = partition_of row.program_id == partition

  -- The rows whose messages go to a partition: a message goes by its key.
  abbrev pub of_partition : ℕ → List OutboxRow → List OutboxRow
  of_partition partition rows = filter (in_partition partition) rows

  -- The topic after messages of some rows arrived, all of them or the first ones of each partition.
  abbrev pub received : List OutboxRow → Relay S → Relay S
  received rows r = record r {
    topic = λ partition. r.topic partition ++ map kafka_message (of_partition partition rows);
  }

  abbrev pub received_first : (ℕ → ℕ) → List OutboxRow → Relay S → Relay S
  received_first count rows r = record r {
    topic = λ partition.
        r.topic partition
        ++ map kafka_message (take (count partition) (of_partition partition rows));
  }

  -- `updateMany` of the batch
  abbrev pub marked : List OutboxRow → Relay S → Relay S
  marked rows r = record r { table = T.mark (row_ids rows) r.table }

  -- `producer.send`, then the marking and the commit
  abbrev pub send_batch : Attempt → List OutboxRow → Relay S → Result ℕ × Relay S
  send_batch locked_elsewhere batch r = (ok 0, r)
  send_batch (send_failed count) batch r =
      (err (foreign (codes "KafkaError")), received_first count batch r)
  send_batch not_committed batch r = (err (foreign (codes "PrismaError")), received batch r)
  send_batch goes_through batch r = (ok (length batch), marked batch (received batch r))

  abbrev pub unless_empty : Attempt → List OutboxRow → Relay S → Result ℕ × Relay S
  unless_empty attempt [] r = (ok 0, r)
  unless_empty attempt (row ∷ rows) r = send_batch attempt (row ∷ rows) r

  -- `publishBatch`
  unfoldable pub publish_batch : Attempt → Relay S → Result ℕ × Relay S
  publish_batch attempt r =
      if r.connected
      then unless_empty attempt (take batch_size (T.unpublished r.table)) r
      else (ok 0, r)

  -- What other transactions made of the table before a batch: each batch is a transaction of its own.
  abbrev pub meanwhile : (S → S) → Relay S → Relay S
  meanwhile others r = record r { table = others r.table }

  -- `relay`: batches until one is not full; an error ends it. `none` is a loop that has run out of fuel.
  abbrev pub while_full : Result ℕ → Relay S → Option (Relay S) → Option (Relay S)
  while_full (err error) r rest = some r
  while_full (ok n) r rest = if n == batch_size then rest else some r

  unfoldable pub relay : ℕ → (ℕ → Attempt) → (ℕ → S → S) → Relay S → Option (Relay S)
  relay zero attempts others r = none
  relay (suc fuel) attempts others r =
      let (result, after) = publish_batch (attempts 0) (meanwhile (others 0) r) in
      let rest = relay fuel (λ n. attempts (suc n)) (λ n. others (suc n)) after in
      while_full result after rest
