-- ===== src/Capacity/Outbox/Arrived.antt =====
-- messaging/outbox-relay.ts: what becomes of a partition's rows when the first of them arrive.
use mathlib.Core.List.{append_assoc}
use program_capacity_invoice.Prelude.{
  ℕ, ◌-◌, ◌≡◌, sym, ap, ◌∙◌, subst, List, [], ◌++◌, length, Text, Json, Distinct, take, drop,
  take-drop, drop-append, take-append-drop,
}
use program_capacity_invoice.Capacity.Outbox.{
  OutboxRow, OutboxTable, Relay, batch_size, row_ids, of_partition, in_partition,
}
use program_capacity_invoice.Capacity.Outbox.Partition.{filter-take, filter-drop, filter-Distinct}
use program_capacity_invoice.Capacity.Outbox.Queue.{unpublished-first}
use program_capacity_invoice.Capacity.Outbox.Order.{
  consume, consume-append, messages, IsOrdered, consume-first,
}

module _ {S : Type 0} (T : OutboxTable S) (stringify : Json → Text) (partition_of : Text → ℕ) where
  -- The rows of the partition p.
  abbrev pub at_partition : ℕ → List OutboxRow → List OutboxRow
  at_partition p rows = of_partition T stringify partition_of p rows

  -- What the first n waiting rows of a partition do to its consumer when they arrive.
  consume-received :
      (p : ℕ) (all : List OutboxRow) (s : Relay S) (n : ℕ)
      (o : IsOrdered T stringify partition_of p all s)
      → Distinct (row_ids all)
      → consume [] (
          s.topic p
          ++ messages T stringify partition_of (take n (at_partition p (T.unpublished s.table))))
        ≡ messages T stringify partition_of
            (o.published ++ o.resent ++ take (n - length o.resent) o.unsent)
  consume-received p all s n o d =
      let sent = λ (rows : List OutboxRow). messages T stringify partition_of rows in
      let rows = take n (o.resent ++ o.unsent) in
      ap (λ zs. consume [] (s.topic p ++ sent (take n zs))) o.waiting
      ∙ consume-append [] (s.topic p) (sent rows)
      ∙ ap (λ seen. consume seen (sent rows)) o.seen
      ∙ consume-first T stringify partition_of o.published o.resent o.unsent n (
          subst (λ zs. Distinct (row_ids zs)) (sym o.whole)
            (filter-Distinct (in_partition T stringify partition_of p) all d))

  -- Messages that arrive and are not marked: they may come again.
  pub received-IsOrdered :
      (p : ℕ) (all : List OutboxRow) (s after : Relay S) (n : ℕ)
      → IsOrdered T stringify partition_of p all s
      → Distinct (row_ids all)
      → after.topic p
        ≡ s.topic p
          ++ messages T stringify partition_of (take n (at_partition p (T.unpublished s.table)))
      → T.unpublished after.table ≡ T.unpublished s.table
      → IsOrdered T stringify partition_of p all after
  received-IsOrdered p all s after n o d arrived same =
      let fresh = take (n - length o.resent) o.unsent in
      let later = drop (n - length o.resent) o.unsent in
      let split : fresh ++ later ≡ o.unsent = take-drop (n - length o.resent) o.unsent in
      record {
        published = o.published;
        resent = o.resent ++ fresh;
        unsent = later;
        whole =
            ap (λ zs. zs ++ later) (sym (append_assoc o.published o.resent fresh))
            ∙ append_assoc (o.published ++ o.resent) fresh later
            ∙ ap (λ zs. o.published ++ o.resent ++ zs) split
            ∙ o.whole;
        waiting =
            ap (at_partition p) same
            ∙ o.waiting
            ∙ ap (λ zs. o.resent ++ zs) (sym split)
            ∙ sym (append_assoc o.resent fresh later);
        seen =
            ap (consume []) arrived
            ∙ consume-received p all s n o d
            ∙ ap (messages T stringify partition_of) (append_assoc o.published o.resent fresh);
      }

  -- Messages that arrive and are marked.
  pub marked-IsOrdered :
      (p : ℕ) (all : List OutboxRow) (s after : Relay S) (n : ℕ)
      → IsOrdered T stringify partition_of p all s
      → Distinct (row_ids all)
      → after.topic p
        ≡ s.topic p
          ++ messages T stringify partition_of (take n (at_partition p (T.unpublished s.table)))
      → at_partition p (T.unpublished after.table) ≡ drop n (at_partition p (T.unpublished s.table))
      → IsOrdered T stringify partition_of p all after
  marked-IsOrdered p all s after n o d arrived taken =
      let fresh = take (n - length o.resent) o.unsent in
      let later = drop (n - length o.resent) o.unsent in
      let rows = take n (o.resent ++ o.unsent) in
      let sent : o.published ++ rows ++ drop n o.resent ≡ o.published ++ o.resent ++ fresh =
        append_assoc o.published rows (drop n o.resent)
        ∙ ap (λ zs. o.published ++ zs) (take-append-drop n o.resent o.unsent)
        ∙ sym (append_assoc o.published o.resent fresh) in
      record {
        published = o.published ++ rows;
        resent = drop n o.resent;
        unsent = later;
        whole =
            ap (λ zs. zs ++ later) sent
            ∙ append_assoc (o.published ++ o.resent) fresh later
            ∙ ap (λ zs. o.published ++ o.resent ++ zs) (take-drop (n - length o.resent) o.unsent)
            ∙ o.whole;
        waiting = taken ∙ ap (drop n) o.waiting ∙ drop-append n o.resent o.unsent;
        seen =
            ap (consume []) arrived
            ∙ consume-received p all s n o d
            ∙ ap (messages T stringify partition_of) (sym sent);
      }

  -- How many rows of a batch go to a partition.
  abbrev pub share : ℕ → Relay S → ℕ
  share p s = length (at_partition p (take batch_size (T.unpublished s.table)))

  pub at_partition-batch :
      (p : ℕ) (s : Relay S) (rows : List OutboxRow)
      → take batch_size (T.unpublished s.table) ≡ rows
      → at_partition p rows ≡ take (share p s) (at_partition p (T.unpublished s.table))
  at_partition-batch p s rows e =
      ap (at_partition p) (sym e)
      ∙ filter-take (in_partition T stringify partition_of p) batch_size (T.unpublished s.table)

  pub at_partition-rest :
      (p : ℕ) (s : Relay S) (rows : List OutboxRow)
      → take batch_size (T.unpublished s.table) ≡ rows
      → at_partition p (T.unpublished (T.mark (row_ids rows) s.table))
        ≡ drop (share p s) (at_partition p (T.unpublished s.table))
  at_partition-rest p s rows e =
      ap (λ zs. at_partition p (T.unpublished (T.mark (row_ids zs) s.table))) (sym e)
      ∙ ap (at_partition p) (unpublished-first T stringify partition_of batch_size s.table)
      ∙ filter-drop (in_partition T stringify partition_of p) batch_size (T.unpublished s.table)
