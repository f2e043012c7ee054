-- ===== src/Capacity/Outbox/Drain.antt =====
-- messaging/outbox-relay.ts, `relay`: its loop ends, and empties the queue when nothing fails.
use program_capacity_invoice.Prelude.{
  ℕ, zero, suc, ◌+◌, ◌*◌, ◌≤◌, ◌<◌, ◌≡◌, ◌≢◌, ◌⊎◌, inl, inr, refl, sym, ap, ◌∙◌, subst, arith, Bool,
  true, false, Bool-cases, ◌==◌, ==_iff, List, [], ◌∷◌, ◌++◌, length, Text, Json, take, drop,
  length-take, length-drop, Option, some, if◌then◌else◌,
}
use program_capacity_invoice.Errors.{Result, ok, err, ok_injective}
use program_capacity_invoice.Capacity.Outbox.{
  OutboxRow, OutboxTable, Relay, Attempt, goes_through, send_failed, locked_elsewhere,
  not_committed, batch_size, publish_batch, unless_empty, relay, while_full, meanwhile,
}
use program_capacity_invoice.Capacity.Outbox.Queue.{
  Sent, publish_batch-Sent, publish_batch-connected,
}
use program_capacity_invoice.Capacity.Outbox.Drained.{waiting_in, Drained, added_before}

-- The sum of the first n numbers.
abbrev pub total : (ℕ → ℕ) → ℕ → ℕ
total numbers zero = 0
total numbers (suc n) = numbers 0 + total (λ k. numbers (suc k)) n

module _ {S : Type 0} (T : OutboxTable S) (stringify : Json → Text) (partition_of : Text → ℕ) where
  -- Only a batch that was sent and marked is counted as full.
  full-Sent :
      (attempt : Attempt) (r : Relay S) (batch : List OutboxRow)
      → (unless_empty T stringify partition_of attempt batch r).0 ≡ ok batch_size
      → attempt ≡ goes_through
  full-Sent attempt r [] h = absurd (omega (arith, ok_injective h))
  full-Sent locked_elsewhere r (row ∷ rows) h = absurd (omega (arith, ok_injective h))
  full-Sent not_committed r (row ∷ rows) h = cc
  full-Sent (send_failed n) r (row ∷ rows) h = cc
  full-Sent goes_through r (row ∷ rows) h = refl

  full_connected :
      (attempt : Attempt) (r : Relay S)
      → (publish_batch T stringify partition_of attempt r).0 ≡ ok batch_size
      → (r.connected ≡ true) × (attempt ≡ goes_through)
  unfolding publish_batch
  full_connected attempt r h = elim (Bool-cases r.connected) [
    | inl up ↦ (
      up,
      full-Sent attempt r (take batch_size (waiting_in T stringify partition_of r))
          (ap (λ p. p.0) (sym (publish_batch-connected T stringify partition_of attempt r up)) ∙ h),
    )
    | inr down ↦ absurd (
        omega (
          arith,
          ok_injective (
              ap
                (λ (b : Bool).
                  (if b
                    then unless_empty T stringify partition_of attempt
                        (take batch_size (waiting_in T stringify partition_of r)) r
                    else (ok 0, r)).0)
                (sym down)
              ∙ h),
        ))
  ]

  length-full :
      (rows : List OutboxRow)
      → length (take batch_size rows) ≡ batch_size
      → batch_size + length (drop batch_size rows) ≡ length rows
  length-full rows h = omega (arith, length-take batch_size rows, length-drop batch_size rows, h)

  Sent-shrinks :
      (r after : Relay S) (result : Result ℕ)
      → Sent T stringify partition_of r result after
      → result ≡ ok batch_size
      → batch_size + length (waiting_in T stringify partition_of after)
        ≡ length (waiting_in T stringify partition_of r)
  Sent-shrinks r after result sent full =
      ap (λ rows. batch_size + length rows) sent.waiting
      ∙ length-full (waiting_in T stringify partition_of r) (ok_injective (sym sent.counted ∙ full))

  -- A full batch leaves a whole batch fewer rows waiting.
  full_shrinks :
      (attempt : Attempt) (r : Relay S)
      → (publish_batch T stringify partition_of attempt r).0 ≡ ok batch_size
      → batch_size
          + length (
              waiting_in T stringify partition_of
                (publish_batch T stringify partition_of attempt r).1)
        ≡ length (waiting_in T stringify partition_of r)
  full_shrinks attempt r full =
      let (up, through) = full_connected attempt r full in
      Sent-shrinks r (publish_batch T stringify partition_of attempt r).1
        (publish_batch T stringify partition_of attempt r).0
        (subst
          (λ a.
            Sent T stringify partition_of r (publish_batch T stringify partition_of a r).0
              (publish_batch T stringify partition_of a r).1)
          (sym through) (publish_batch-Sent T stringify partition_of r up))
        full

  relay_again :
      (fuel : ℕ) (attempts : ℕ → Attempt) (others : ℕ → S → S) (r : Relay S)
      → relay T stringify partition_of (suc fuel) attempts others r ≡ (
          let sent =
            publish_batch T stringify partition_of
              (attempts 0)
              (meanwhile T stringify partition_of (others 0) r) in
          while_full T stringify partition_of sent.0 sent.1 (
            relay T stringify partition_of fuel
              (λ n. attempts (suc n))
              (λ n. others (suc n))
              sent.1))
  unfolding relay
  relay_again fuel attempts others r = refl

  -- The loop goes on after a full batch, and ends after anything else.
  while_full-cases :
      (result : Result ℕ) (after : Relay S) (rest : Option (Relay S))
      → ((result ≡ ok batch_size) × (while_full T stringify partition_of result after rest ≡ rest))
        ⊎ ((result ≢ ok batch_size)
            × (while_full T stringify partition_of result after rest ≡ some after))
  while_full-cases (err error) after rest = inr (λ e. cc, refl)
  while_full-cases (ok n) after rest = elim (Bool-cases (n == batch_size)) [
    | inl e ↦ inl (ap ok ((==_iff n batch_size).0 e), rw e refl)
    | inr e ↦ inr (
      λ full. absurd (true_false (sym ((==_iff n batch_size).1 (ok_injective full)) ∙ e)),
      rw e refl,
    )
  ]
    where
      true_false : true ≢ false
      true_false e = cc

  -- Whatever happens to its batches, and however other transactions change the table before
  -- each of them, as long as they leave at most a given number of waiting rows more: if the
  -- rows that wait at first and those numbers for some count of first batches add up to less
  -- than a hundred times the count, then the relay's loop ends within that many batches.
  pub relay_ends :
      (fuel : ℕ) (attempts : ℕ → Attempt) (others : ℕ → S → S) (arrivals : ℕ → ℕ) (r : Relay S)
      → ((n : ℕ) (s : S)
          → length (T.unpublished (others n s)) ≤ length (T.unpublished s) + arrivals n)
      → length (T.unpublished r.table) + total arrivals fuel < batch_size * fuel
      → (after : Relay S) × (relay T stringify partition_of fuel attempts others r ≡ some after)
  relay_ends zero attempts others arrivals r at_most enough = absurd (omega arith)
  relay_ends (suc fuel) attempts others arrivals r at_most enough =
      let start = meanwhile T stringify partition_of (others 0) r in
      let sent = publish_batch T stringify partition_of (attempts 0) start in
      let rest =
        relay T stringify partition_of fuel (λ n. attempts (suc n)) (λ n. others (suc n)) sent.1 in
      elim (while_full-cases sent.0 sent.1 rest) [
        | inl (full, goes_on) ↦
            let (after, ended) =
              relay_ends fuel (λ n. attempts (suc n)) (λ n. others (suc n)) (λ n. arrivals (suc n))
                sent.1 (λ n. at_most (suc n))
                (omega (arith, full_shrinks (attempts 0) start full, at_most 0 r.table, enough)) in
            (after, relay_again fuel attempts others r ∙ goes_on ∙ ended)
        | inr (last, ended) ↦ (sent.1, relay_again fuel attempts others r ∙ ended)
      ]

  -- The run of a relay that ended: after some batches, with all rows that waited by then published.
  abbrev pub Empties : ℕ → (ℕ → Attempt) → (ℕ → S → S) → (ℕ → List OutboxRow) → Relay S → Type 0
  Empties fuel attempts others adds r =
      (batches : ℕ) × (after : Relay S) × (relay T stringify partition_of fuel attempts others r
        ≡ some after)
      × Drained T stringify partition_of r after (
          waiting_in T stringify partition_of r
          ++ added_before T stringify partition_of batches adds)
