-- ===== src/Examples/Outbox.antt =====
-- A table of the outbox as a list of the rows that wait, with two events of a program.
use program_capacity_invoice.Prelude.{
  length, ◌==◌, if◌then◌else◌, ℕ, ◌≡◌, ◌≢◌, inl, inr, refl, arith, true, false, not, some, List, [],
  ◌∷◌, ◌++◌, Text, text_eq, text_eq_complete, codes, Json, string, has, Distinct, filter, pos,
}
use program_capacity_invoice.Capacity.Outbox.{
  OutboxRow, OutboxTable, Relay, goes_through, send_failed, publish_batch, relay, row_ids,
}
use program_capacity_invoice.Capacity.Outbox.Drain.{relay_ends}
use program_capacity_invoice.Capacity.Outbox.Partition.{filter-Distinct}
use program_capacity_invoice.Capacity.Outbox.Order.{IsOrdered}
use program_capacity_invoice.Capacity.Outbox.Relayed.{Reaches, relayed_in_order}

abbrev Waiting : Type 0
Waiting = (rows : List OutboxRow) × Distinct (row_ids rows)

abbrev unmarked : List Text → List OutboxRow → List OutboxRow
unmarked ids rows = filter (λ row. not (has row.id ids)) rows

abbrev table : OutboxTable Waiting
table = record {
  unpublished = λ s. s.0;
  mark = λ ids s. (unmarked ids s.0, filter-Distinct (λ row. not (has row.id ids)) s.0 s.1);
  unpublished-mark = λ ids s. refl;
  distinct = λ s. s.1;
}

abbrev row_of : Text → Text → Text → OutboxRow
row_of id program_id event_type = record {
  id = id;
  program_id = program_id;
  event_type = event_type;
  payload = string id;
  occurred_at = some (pos 1000);
}

abbrev rows : List OutboxRow
rows =
    row_of (codes "a") (codes "program-1") (codes "capacity.program-opened")
    ∷ row_of (codes "b") (codes "program-22") (codes "capacity.reserved")
    ∷ []

apart : codes "b" ≢ codes "a"
unfolding text_eq
apart e = false_true (text_eq_complete (codes "b") (codes "a") e)
  where
    false_true : false ≢ true
    false_true h = cc

rows-Distinct : Distinct (row_ids rows)
rows-Distinct = (λ m. elim m [ inl e ↦ apart e | inr n ↦ n ], (λ m. m, tt))

abbrev stringify : Json → Text
stringify (string s) = s
stringify _ = []

-- The programs' keys have 9 and 10 units.
abbrev partition_of : Text → ℕ
partition_of key = length key

abbrev running : Relay Waiting
running = record { connected = true; table = (rows, rows-Distinct); topic = λ p. [] }

relay_ends_example :
    (after : Relay Waiting) × (relay table stringify partition_of 2
        (λ n. goes_through)
        (λ n s. s)
        running
      ≡ some after)
relay_ends_example =
    relay_ends table stringify partition_of 2 (λ n. goes_through) (λ n s. s) (λ n. 50) running
      (λ n s. omega arith) (omega arith)

-- The send fails when only the second message has arrived, in its partition, and the next batch goes
-- through.
abbrev only_the_second : ℕ → ℕ
only_the_second p = if p == 10 then 1 else 0

abbrev resumed : Relay Waiting
resumed =
    (publish_batch table stringify partition_of goes_through
      (publish_batch table stringify partition_of (send_failed only_the_second) running).1).1

abbrev retried : Reaches table stringify partition_of running resumed []
retried = Reaches.batch goes_through (Reaches.batch (send_failed only_the_second) Reaches.start)

relayed_in_order_example : IsOrdered table stringify partition_of 10 (rows ++ []) resumed
relayed_in_order_example =
    relayed_in_order table stringify partition_of 10 running resumed [] refl retried rows-Distinct
