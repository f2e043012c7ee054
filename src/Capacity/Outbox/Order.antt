-- ===== src/Capacity/Outbox/Order.antt =====
-- messaging/outbox-relay.ts: what a consumer of the topic sees, who drops the messages whose id it has
-- seen, whatever fails in the meantime and whatever is added to the outbox.
use mathlib.Core.List.{append-nil, append_assoc, map-append}
use program_capacity_invoice.Prelude.{
  ℕ, ◌-◌, ◌≡◌, inl, inr, refl, sym, ap, ◌∙◌, subst, Bool-cases, List, [], ◌∷◌, ◌++◌, map, length,
  Text, Json, has, Among, Among-has, not_Among-has, Among-append-left, Among-append-right, Distinct,
  Distinct-left, Distinct-apart, take, drop, take-drop, take-append, if◌then◌else◌,
}
use program_capacity_invoice.Capacity.Outbox.{
  OutboxRow, OutboxTable, Relay, KafkaMessage, row_ids, kafka_message, of_partition,
}

-- A consumer's messages, after some more arrive.
abbrev pub seen_ids : List KafkaMessage → List Text
seen_ids seen = map KafkaMessage.event_id seen

abbrev pub consume : List KafkaMessage → List KafkaMessage → List KafkaMessage
consume seen [] = seen
consume seen (m ∷ ms) =
    if has m.event_id (seen_ids seen) then consume seen ms else consume (seen ++ m ∷ []) ms

pub consume-append :
    (seen ms ns : List KafkaMessage) → consume seen (ms ++ ns) ≡ consume (consume seen ms) ns
consume-append seen [] ns = refl
consume-append seen (m ∷ ms) ns = elim (Bool-cases (has m.event_id (seen_ids seen))) [
  | inl e ↦ rw e (consume-append seen ms ns)
  | inr e ↦ rw e (consume-append (seen ++ m ∷ []) ms ns)
]

take-Among :
    (n : ℕ) (rows : List OutboxRow) (t : Text)
    → Among t (row_ids (take n rows))
    → Among t (row_ids rows)
take-Among n rows t m =
    subst (λ zs. Among t (row_ids zs)) (take-drop n rows)
      (rw (map-append OutboxRow.id (take n rows) (drop n rows))
        (Among-append-left t (row_ids (take n rows)) (row_ids (drop n rows)) m))

module _ {S : Type 0} (T : OutboxTable S) (stringify : Json → Text) (partition_of : Text → ℕ) where
  abbrev pub messages : List OutboxRow → List KafkaMessage
  messages rows = map (kafka_message T stringify partition_of) rows

  ids-messages : (rows : List OutboxRow) → seen_ids (messages rows) ≡ row_ids rows
  ids-messages [] = refl
  ids-messages (row ∷ rows) = ap (λ ids. row.id ∷ ids) (ids-messages rows)

  -- Messages that were all seen change nothing, and messages that are all new are added.
  consume-known :
      (past rows : List OutboxRow)
      → ((t : Text) → Among t (row_ids rows) → Among t (row_ids past))
      → consume (messages past) (messages rows) ≡ messages past
  consume-known past [] known = refl
  consume-known past (row ∷ rows) known = rw (ids-messages past) (
      rw (Among-has row.id (row_ids past) (known row.id (inl refl)))
        (consume-known past rows (λ t m. known t (inr m))))

  consume-unknown :
      (past rows : List OutboxRow)
      → Distinct (row_ids (past ++ rows))
      → consume (messages past) (messages rows) ≡ messages (past ++ rows)
  consume-unknown past [] d = ap messages (sym (append-nil past))
  consume-unknown past (row ∷ rows) d =
      let apart =
        Distinct-apart (row_ids past) (row_ids (row ∷ rows))
          (rw (map-append OutboxRow.id past (row ∷ rows)) at d) row.id (inl refl) in
      let longer : (past ++ row ∷ []) ++ rows ≡ past ++ row ∷ rows =
        append_assoc past (row ∷ []) rows in
      rw (ids-messages past) (
        rw (not_Among-has row.id (row_ids past) apart) (
          ap (λ seen. consume seen (messages rows))
            (sym (map-append (kafka_message T stringify partition_of) past (row ∷ [])))
          ∙ consume-unknown (past ++ row ∷ []) rows
              (subst (λ zs. Distinct (row_ids zs)) (sym longer) d)
          ∙ ap messages longer))

  -- The rows of a partition by what became of them: published, sent at least once and waiting still,
  -- and not sent yet.
  pub record IsOrdered (p : ℕ) (all : List OutboxRow) (r : Relay S) : Type 0 where
    pub published : List OutboxRow
    pub resent : List OutboxRow
    pub unsent : List OutboxRow
    pub whole : published ++ resent ++ unsent ≡ of_partition T stringify partition_of p all
    pub waiting : of_partition T stringify partition_of p (T.unpublished r.table) ≡ resent ++ unsent
    pub seen : consume [] (r.topic p) ≡ messages (published ++ resent)

  all-Distinct :
      (past rows : List OutboxRow) (n : ℕ)
      → Distinct (row_ids (past ++ rows))
      → Distinct (row_ids (past ++ take n rows))
  all-Distinct past rows n d =
      let longer : (past ++ take n rows) ++ drop n rows ≡ past ++ rows =
        append_assoc past (take n rows) (drop n rows) ∙ ap (λ zs. past ++ zs) (take-drop n rows) in
      Distinct-left (row_ids (past ++ take n rows)) (row_ids (drop n rows)) (
        rw (map-append OutboxRow.id (past ++ take n rows) (drop n rows)) at
          (subst (λ zs. Distinct (row_ids zs)) (sym longer) d))

  -- Sending the first n rows that wait: of those that were sent before none is seen again.
  pub consume-first :
      (published resent unsent : List OutboxRow) (n : ℕ)
      → Distinct (row_ids (published ++ resent ++ unsent))
      → consume (messages (published ++ resent)) (messages (take n (resent ++ unsent)))
        ≡ messages (published ++ resent ++ take (n - length resent) unsent)
  consume-first published resent unsent n d =
      let again = take n resent in
      let fresh = take (n - length resent) unsent in
      ap (λ rows. consume (messages (published ++ resent)) (messages rows))
        (take-append n resent unsent)
      ∙ ap (consume (messages (published ++ resent)))
          (map-append (kafka_message T stringify partition_of) again fresh)
      ∙ consume-append (messages (published ++ resent)) (messages again) (messages fresh)
      ∙ ap (λ seen. consume seen (messages fresh))
          (consume-known (published ++ resent) again (λ t m.
            rw (map-append OutboxRow.id published resent) (
              Among-append-right t (row_ids published) (row_ids resent) (take-Among n resent t m))))
      ∙ consume-unknown (published ++ resent) fresh
          (all-Distinct (published ++ resent) unsent (n - length resent) d)
