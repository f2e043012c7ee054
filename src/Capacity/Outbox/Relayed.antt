-- ===== src/Capacity/Outbox/Relayed.antt =====
-- messaging/outbox-relay.ts: what the relays of a running service leave in the topic, from an empty
-- topic, through any attempts and with events added in between.
use mathlib.Core.List.{append-nil, append_assoc, map-append}
use program_capacity_invoice.Prelude.{
  ℕ, ◌≡◌, inl, inr, refl, sym, ap, ◌∙◌, subst, min, Bool, Bool-cases, List, [], ◌∷◌, ◌++◌, Text,
  Json, Distinct, Distinct-left, take, take-take, if◌then◌else◌,
}
use program_capacity_invoice.Errors.{ok}
use program_capacity_invoice.Capacity.Outbox.{
  OutboxRow, OutboxTable, Relay, Attempt, goes_through, send_failed, locked_elsewhere,
  not_committed, batch_size, row_ids, publish_batch, unless_empty, received, received_first, marked,
  in_partition,
}
use program_capacity_invoice.Capacity.Outbox.Partition.{filter-append}
use program_capacity_invoice.Capacity.Outbox.Queue.{publish_batch-connected}
use program_capacity_invoice.Capacity.Outbox.Order.{consume, messages, IsOrdered}
use program_capacity_invoice.Capacity.Outbox.Arrived.{
  received-IsOrdered, marked-IsOrdered, at_partition-batch, at_partition-rest, share, at_partition,
}

module _ {S : Type 0} (T : OutboxTable S) (stringify : Json → Text) (partition_of : Text → ℕ) where
  -- The service: batches, and transactions that add rows behind those that wait.
  pub data Reaches (r : Relay S) : Relay S → List OutboxRow → Type 0 where
    start : Reaches r r []
    batch :
        {s : Relay S} {added : List OutboxRow} (attempt : Attempt)
        → Reaches r s added
        → Reaches r (publish_batch T stringify partition_of attempt s).1 added
    add :
        {s : Relay S} {added : List OutboxRow} (rows : List OutboxRow) (table : S)
        → Reaches r s added
        → T.unpublished table ≡ T.unpublished s.table ++ rows
        → Reaches r (record s { table = table }) (added ++ rows)

  unless_empty-IsOrdered :
      (p : ℕ) (all : List OutboxRow) (s : Relay S) (attempt : Attempt) (rows : List OutboxRow)
      → IsOrdered T stringify partition_of p all s
      → Distinct (row_ids all)
      → take batch_size (T.unpublished s.table) ≡ rows
      → IsOrdered T stringify partition_of p all
          (unless_empty T stringify partition_of attempt rows s).1
  unless_empty-IsOrdered p all s attempt [] o d e = o
  unless_empty-IsOrdered p all s locked_elsewhere (row ∷ rows) o d e = o
  unless_empty-IsOrdered p all s (send_failed count) (row ∷ rows) o d e =
      received-IsOrdered T stringify partition_of p all s
        (received_first T stringify partition_of count (row ∷ rows) s)
        (min (count p) (share T stringify partition_of p s)) o d
        (ap (λ zs. s.topic p ++ messages T stringify partition_of zs)
          (ap (take (count p)) (at_partition-batch T stringify partition_of p s (row ∷ rows) e)
            ∙ take-take (count p) (share T stringify partition_of p s)
                (at_partition T stringify partition_of p (T.unpublished s.table))))
        refl
  unless_empty-IsOrdered p all s not_committed (row ∷ rows) o d e =
      received-IsOrdered T stringify partition_of p all s
        (received T stringify partition_of (row ∷ rows) s) (share T stringify partition_of p s) o d
        (ap (λ zs. s.topic p ++ messages T stringify partition_of zs)
          (at_partition-batch T stringify partition_of p s (row ∷ rows) e))
        refl
  unless_empty-IsOrdered p all s goes_through (row ∷ rows) o d e =
      marked-IsOrdered T stringify partition_of p all s
        (marked T stringify partition_of (row ∷ rows)
          (received T stringify partition_of (row ∷ rows) s))
        (share T stringify partition_of p s) o d
        (ap (λ zs. s.topic p ++ messages T stringify partition_of zs)
          (at_partition-batch T stringify partition_of p s (row ∷ rows) e))
        (at_partition-rest T stringify partition_of p s (row ∷ rows) e)

  publish_batch-IsOrdered :
      (p : ℕ) (all : List OutboxRow) (s : Relay S) (attempt : Attempt)
      → IsOrdered T stringify partition_of p all s
      → Distinct (row_ids all)
      → IsOrdered T stringify partition_of p all
          (publish_batch T stringify partition_of attempt s).1
  unfolding publish_batch
  publish_batch-IsOrdered p all s attempt o d = elim (Bool-cases s.connected) [
    | inl up ↦
        subst (λ x. IsOrdered T stringify partition_of p all x.1)
          (sym (publish_batch-connected T stringify partition_of attempt s up))
          (unless_empty-IsOrdered p all s attempt (take batch_size (T.unpublished s.table)) o d
            refl)
    | inr down ↦
        subst
          (λ (b : Bool).
            IsOrdered T stringify partition_of p all
              (if b
                then unless_empty T stringify partition_of attempt
                    (take batch_size (T.unpublished s.table)) s
                else (ok 0, s)).1)
          (sym down) o
  ]

  add-IsOrdered :
      (p : ℕ) (all rows : List OutboxRow) (s : Relay S) (table : S)
      → IsOrdered T stringify partition_of p all s
      → T.unpublished table ≡ T.unpublished s.table ++ rows
      → IsOrdered T stringify partition_of p (all ++ rows) (record s { table = table })
  add-IsOrdered p all rows s table o e =
      let test = in_partition T stringify partition_of p in
      record {
        published = o.published;
        resent = o.resent;
        unsent = o.unsent ++ at_partition T stringify partition_of p rows;
        whole =
            sym (
              append_assoc (o.published ++ o.resent) o.unsent
                (at_partition T stringify partition_of p rows))
            ∙ ap (λ zs. zs ++ at_partition T stringify partition_of p rows) o.whole
            ∙ sym (filter-append test all rows);
        waiting =
            ap (at_partition T stringify partition_of p) e
            ∙ filter-append test (T.unpublished s.table) rows
            ∙ ap (λ zs. zs ++ at_partition T stringify partition_of p rows) o.waiting
            ∙ append_assoc o.resent o.unsent (at_partition T stringify partition_of p rows);
        seen = o.seen;
      }

  -- Let the outbox table keep the ids of its rows apart, let marking some ids take those rows
  -- from the ones that wait, and let the partition of a row's message be that of its program.
  -- For any partition, empty at first, let any sequence of batches run, each of which may find
  -- the lock taken, fail in the send after the first messages of the batch in each partition
  -- arrived, any number of them in each, fail to commit after all of it arrived, or go
  -- through, and let any rows with new ids be added behind those that wait, at any time. Then
  -- the rows of the partition, those waiting at first and those added, are in their order some
  -- published ones, some that were sent and wait still, and some that were not sent; the
  -- partition's waiting rows are the second and the third part; and a consumer of the
  -- partition that drops the ids it has seen has exactly the messages of the first and the
  -- second part, once each and in order.
  pub relayed_in_order :
      (p : ℕ) (r s : Relay S) (added : List OutboxRow)
      → r.topic p ≡ []
      → Reaches r s added
      → Distinct (row_ids (T.unpublished r.table ++ added))
      → IsOrdered T stringify partition_of p (T.unpublished r.table ++ added) s
  relayed_in_order p r s added empty start d = record {
    published = [];
    resent = [];
    unsent = at_partition T stringify partition_of p (T.unpublished r.table);
    whole = ap (at_partition T stringify partition_of p) (sym (append-nil (T.unpublished r.table)));
    waiting = refl;
    seen = ap (consume []) empty;
  }
  relayed_in_order p r s added empty (batch {s = before} attempt reached) d =
      publish_batch-IsOrdered p (T.unpublished r.table ++ added) before attempt
        (relayed_in_order p r before added empty reached d) d
  relayed_in_order p r s added empty (add {s = before} {added = earlier} rows table reached e) d =
      let longer = append_assoc (T.unpublished r.table) earlier rows in
      subst (λ all. IsOrdered T stringify partition_of p all (record before { table = table }))
        longer
        (add-IsOrdered p (T.unpublished r.table ++ earlier) rows before table
          (relayed_in_order p r before earlier empty reached (
            Distinct-left (row_ids (T.unpublished r.table ++ earlier)) (row_ids rows) (
              rw (map-append OutboxRow.id (T.unpublished r.table ++ earlier) rows) at
                (subst (λ zs. Distinct (row_ids zs)) (sym longer) d))))
          e)
