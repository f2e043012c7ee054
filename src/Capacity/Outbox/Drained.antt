-- ===== src/Capacity/Outbox/Drained.antt =====
-- messaging/outbox-relay.ts: what a run of the relay's batches has published.
use mathlib.Core.List.{append_assoc, map-append}
use program_capacity_invoice.Prelude.{
  ℕ, zero, suc, ◌+◌, ◌*◌, ◌≤◌, ◌<◌, ◌≡◌, ◌≢◌, sym, ap, ◌∙◌, arith, List, [], ◌++◌, map, length,
  Text, Json, take, drop, take-drop, length-take, length-append, take-all, drop-all,
}
use program_capacity_invoice.Errors.{Result, ok}
use program_capacity_invoice.Capacity.Outbox.{
  OutboxRow, OutboxTable, Relay, batch_size, kafka_message, of_partition, in_partition,
  KafkaMessage,
}
use program_capacity_invoice.Capacity.Outbox.Partition.{filter-append}
use program_capacity_invoice.Capacity.Outbox.Queue.{Sent}

module _ {S : Type 0} (T : OutboxTable S) (stringify : Json → Text) (partition_of : Text → ℕ) where
  abbrev pub waiting_in : Relay S → List OutboxRow
  waiting_in r = T.unpublished r.table

  -- The messages of some rows in a partition.
  abbrev pub messages_in : ℕ → List OutboxRow → List KafkaMessage
  messages_in p rows =
      map (kafka_message T stringify partition_of) (of_partition T stringify partition_of p rows)

  -- A run from r that published some rows: they arrived in their partitions, in their order, and no
  -- row waits.
  pub record Drained (r after : Relay S) (rows : List OutboxRow) : Type 0 where
    pub emptied : T.unpublished after.table ≡ []
    pub published : (p : ℕ) → after.topic p ≡ r.topic p ++ messages_in p rows

  messages_in-append :
      (p : ℕ) (xs ys : List OutboxRow)
      → messages_in p (xs ++ ys) ≡ messages_in p xs ++ messages_in p ys
  messages_in-append p xs ys =
      ap (map (kafka_message T stringify partition_of))
        (filter-append (in_partition T stringify partition_of p) xs ys)
      ∙ map-append (kafka_message T stringify partition_of)
          (of_partition T stringify partition_of p xs) (of_partition T stringify partition_of p ys)

  -- What is left to do after a batch is done by the rest of the run.
  pub batch_then_rest :
      (r sent after : Relay S) (result : Result ℕ) (later : List OutboxRow)
      → Sent T stringify partition_of r result sent
      → Drained sent after (waiting_in sent ++ later)
      → Drained r after (waiting_in r ++ later)
  batch_then_rest r sent after result later step rest = record {
    emptied = rest.emptied;
    published = λ p.
        let first = take batch_size (waiting_in r) in
        let others = drop batch_size (waiting_in r) in
        rest.published p
        ∙ ap (λ rows. sent.topic p ++ messages_in p (rows ++ later)) step.waiting
        ∙ ap (λ topic. topic ++ messages_in p (others ++ later)) (step.arrived p)
        ∙ append_assoc (r.topic p) (messages_in p first) (messages_in p (others ++ later))
        ∙ ap (λ ms. r.topic p ++ ms) (sym (messages_in-append p first (others ++ later)))
        ∙ ap (λ rows. r.topic p ++ messages_in p rows)
            (sym (append_assoc first others later)
              ∙ ap (λ rows. rows ++ later) (take-drop batch_size (waiting_in r)));
  }

  short :
      (rows : List OutboxRow)
      → length (take batch_size rows) ≢ batch_size
      → length rows ≤ batch_size
  short rows h = omega (arith, length-take batch_size rows, h)

  pub last_batch :
      (r sent : Relay S) (result : Result ℕ)
      → Sent T stringify partition_of r result sent
      → result ≢ ok batch_size
      → Drained r sent (waiting_in r)
  last_batch r sent result step last =
      let fits = short (waiting_in r) (λ full. last (step.counted ∙ ap ok full)) in
      record {
        emptied = step.waiting ∙ drop-all batch_size (waiting_in r) fits;
        published = λ p.
            step.arrived p
            ∙ ap (λ rows. r.topic p ++ messages_in p rows)
                (take-all batch_size (waiting_in r) fits);
      }

  -- The rows that others add before the first n batches.
  abbrev pub added_before : ℕ → (ℕ → List OutboxRow) → List OutboxRow
  added_before zero adds = []
  added_before (suc n) adds = adds 0 ++ added_before n (λ k. adds (suc k))

  pub started_with :
      (r after : Relay S) (table : S) (rows later : List OutboxRow)
      → T.unpublished table ≡ waiting_in r ++ rows
      → Drained (record r { table = table }) after (T.unpublished table ++ later)
      → Drained r after (waiting_in r ++ (rows ++ later))
  started_with r after table rows later e d = record {
    emptied = d.emptied;
    published = λ p.
        d.published p
        ∙ ap (λ zs. r.topic p ++ messages_in p zs)
            (ap (λ zs. zs ++ later) e ∙ append_assoc (waiting_in r) rows later);
  }

  pub fuel_left :
      (fuel : ℕ) (adds : ℕ → List OutboxRow) (before first later : List OutboxRow)
      → first ≡ before ++ adds 0
      → batch_size + length later ≡ length first
      → length before + length (added_before (suc fuel) adds) < batch_size * suc fuel
      → length later + length (added_before fuel (λ k. adds (suc k))) < batch_size * fuel
  fuel_left fuel adds before first later e shrinks enough = omega (
    arith,
    ap length e ∙ length-append before (adds 0),
    length-append (adds 0) (added_before fuel (λ k. adds (suc k))),
    shrinks,
    enough,
  )
