-- ===== src/Capacity/Outbox/Queue.antt =====
-- messaging/outbox-relay.ts: what one batch does to the rows that wait and to the topic.
use mathlib.Core.List.{append-nil, map-append}
use program_capacity_invoice.Prelude.{
  ℕ, ◌≡◌, inl, inr, refl, sym, ap, ◌∙◌, subst, if◌then◌else◌, Bool, true, not, List, [], ◌∷◌, ◌++◌,
  map, length, Text, Json, filter, has, Among, Among-has, not_Among-has, Distinct, Distinct-apart,
  take, drop, take-drop,
}
use program_capacity_invoice.Errors.{Result, ok}
use program_capacity_invoice.Capacity.Outbox.Partition.{filter-append}
use program_capacity_invoice.Capacity.Outbox.{
  OutboxRow, OutboxTable, Relay, Attempt, goes_through, batch_size, row_ids, kafka_message,
  publish_batch, unless_empty, of_partition,
}

abbrev pub outside : List Text → OutboxRow → Bool
outside ids row = not (has row.id ids)

filter-known :
    (ids : List Text) (xs : List OutboxRow)
    → ((t : Text) → Among t (row_ids xs) → Among t ids)
    → filter (outside ids) xs ≡ []
filter-known ids [] known = refl
filter-known ids (x ∷ xs) known =
    rw (Among-has x.id ids (known x.id (inl refl))) (filter-known ids xs (λ t m. known t (inr m)))

filter-unknown :
    (ids : List Text) (xs : List OutboxRow)
    → ((t : Text) → Among t (row_ids xs) → ¬ Among t ids)
    → filter (outside ids) xs ≡ xs
filter-unknown ids [] unknown = refl
filter-unknown ids (x ∷ xs) unknown =
    rw (not_Among-has x.id ids (unknown x.id (inl refl)))
      (ap (λ zs. x ∷ zs) (filter-unknown ids xs (λ t m. unknown t (inr m))))

filter-prefix :
    (xs ys : List OutboxRow)
    → Distinct (row_ids (xs ++ ys))
    → filter (outside (row_ids xs)) (xs ++ ys) ≡ ys
filter-prefix xs ys d =
    filter-append (outside (row_ids xs)) xs ys
    ∙ rw (filter-known (row_ids xs) xs (λ t m. m)) (
        filter-unknown (row_ids xs) ys
          (Distinct-apart (row_ids xs) (row_ids ys) (rw (map-append OutboxRow.id xs ys) at d)))

module _ {S : Type 0} (T : OutboxTable S) (stringify : Json → Text) (partition_of : Text → ℕ) where
  -- Marking the first n rows that wait leaves the others waiting, in their order.
  pub unpublished-first :
      (n : ℕ) (s : S)
      → T.unpublished (T.mark (row_ids (take n (T.unpublished s))) s) ≡ drop n (T.unpublished s)
  unpublished-first n s =
      let rows = T.unpublished s in
      let whole = take-drop n rows in
      T.unpublished-mark (row_ids (take n rows)) s
      ∙ ap (filter (outside (row_ids (take n rows)))) (sym whole)
      ∙ filter-prefix (take n rows) (drop n rows)
          (subst (λ zs. Distinct (row_ids zs)) (sym whole) (T.distinct s))

  pub record Sent (r : Relay S) (result : Result ℕ) (after : Relay S) : Type 0 where
    pub counted : result ≡ ok (length (take batch_size (T.unpublished r.table)))
    pub waiting : T.unpublished after.table ≡ drop batch_size (T.unpublished r.table)
    pub arrived :
        (p : ℕ)
        → after.topic p
          ≡ r.topic p
            ++ map
                (kafka_message T stringify partition_of)
                (of_partition T stringify partition_of p (take batch_size (T.unpublished r.table)))
    pub connected : after.connected ≡ true

  empty-Sent : (r : Relay S) → r.connected ≡ true → T.unpublished r.table ≡ [] → Sent r (ok 0) r
  empty-Sent r up e = record {
    counted = rw e refl;
    waiting = e ∙ ap (drop batch_size) (sym e);
    arrived = λ p. rw e (sym (append-nil (r.topic p)));
    connected = up;
  }

  take-empty : (rows : List OutboxRow) → take batch_size rows ≡ [] → rows ≡ []
  take-empty [] h = refl
  take-empty (row ∷ rows) h = cc

  batch-Sent :
      (r : Relay S) (batch : List OutboxRow)
      → r.connected ≡ true
      → take batch_size (T.unpublished r.table) ≡ batch
      → Sent r
          (unless_empty T stringify partition_of goes_through batch r).0
          (unless_empty T stringify partition_of goes_through batch r).1
  batch-Sent r [] up e = empty-Sent r up (take-empty (T.unpublished r.table) e)
  batch-Sent r (row ∷ rows) up e = record {
    counted = ap (λ b. ok (length b)) (sym e);
    waiting =
        ap (λ b. T.unpublished (T.mark (row_ids b) r.table)) (sym e)
        ∙ unpublished-first batch_size r.table;
    arrived = λ p.
        ap
          (λ b.
            r.topic p
            ++ map (kafka_message T stringify partition_of)
                (of_partition T stringify partition_of p b))
          (sym e);
    connected = up;
  }

  -- A relay with a producer publishes.
  pub publish_batch-connected :
      (attempt : Attempt) (r : Relay S)
      → r.connected ≡ true
      → publish_batch T stringify partition_of attempt r
        ≡ unless_empty T stringify partition_of attempt (take batch_size (T.unpublished r.table)) r
  unfolding publish_batch
  publish_batch-connected attempt r up =
      ap
        (λ up.
          if up
          then unless_empty T stringify partition_of attempt
              (take batch_size (T.unpublished r.table)) r
          else (ok 0, r))
        up

  pub publish_batch-Sent :
      (r : Relay S)
      → r.connected ≡ true
      → Sent r
          (publish_batch T stringify partition_of goes_through r).0
          (publish_batch T stringify partition_of goes_through r).1
  publish_batch-Sent r up =
      subst (λ p. Sent r p.0 p.1) (sym (publish_batch-connected goes_through r up))
        (batch-Sent r (take batch_size (T.unpublished r.table)) up refl)
