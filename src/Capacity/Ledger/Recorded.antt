-- ===== src/Capacity/Ledger/Recorded.antt =====
-- persistence/prisma/prisma-capacity-ledger.ts: the rows of the ledger find the repayments that the
-- events recorded, as the ledger in memory does.
use program_capacity_invoice.Prelude.{
  Bool, true, false, ◌&&◌, ◌≡◌, refl, inl, inr, Bool-cases, List, [], ◌∷◌, Text, text_eq, find,
}
use program_capacity_invoice.Money.Types.{Identifier}
use program_capacity_invoice.Errors.{ok}
use program_capacity_invoice.Capacity.Events.{
  DomainEvent, program_opened, capacity_reserved, capacity_released, credit_limit_changed,
  program_status_changed,
}
use program_capacity_invoice.Capacity.Store.{released_movement, map_release}
use program_capacity_invoice.Capacity.Mappers.Known.{IsKnown, IsTidy}
use program_capacity_invoice.Capacity.Ledger.{movement_rows, has_movement_key, repayment_in}

-- An event whose ids and currencies the row brings back.
abbrev pub IsWritable : DomainEvent → Type 0
IsWritable (capacity_released e) =
    IsTidy e.reservation_id × IsKnown e.repaid_amount.currency × IsKnown e.released_amount.currency
IsWritable _ = Unit {0}

abbrev pub AreWritable : List DomainEvent → Type 0
AreWritable [] = Unit {0}
AreWritable (e ∷ es) = IsWritable e × AreWritable es

module _ (program_id : Text) (repayment_id : Identifier) where
  no_repayment : (b : Bool) → (b && false) ≡ false
  no_repayment true = refl
  no_repayment false = refl

  -- For any list of events, the released reservations of which have tidy ids and the amounts
  -- of which are in currencies that the table has for their codes: the first ledger row of the
  -- events with the key of a program and a repayment gives the recorded repayment that the
  -- ledger in memory finds among the events, and no row gives none where it finds none.
  pub repayment_in-released_movement :
      (events : List DomainEvent)
      → AreWritable events
      → repayment_in (find (has_movement_key program_id repayment_id.value) (movement_rows events))
        ≡ ok (map_release (released_movement program_id repayment_id events))
  unfolding repayment_in movement_rows released_movement
  repayment_in-released_movement [] h = refl
  repayment_in-released_movement (program_opened e ∷ es) h = repayment_in-released_movement es h.1
  repayment_in-released_movement (credit_limit_changed e ∷ es) h =
      repayment_in-released_movement es h.1
  repayment_in-released_movement (program_status_changed e ∷ es) h =
      repayment_in-released_movement es h.1
  repayment_in-released_movement (capacity_reserved e ∷ es) h =
      rw (no_repayment (text_eq e.aggregate_id program_id)) (repayment_in-released_movement es h.1)
  repayment_in-released_movement (capacity_released e ∷ es) h =
      elim (Bool-cases
        (text_eq e.aggregate_id program_id && text_eq repayment_id.value e.repayment_id.value)) [
          | inl same ↦ rw same (rw h.0.0 (rw h.0.1 (rw h.0.2 refl)))
          | inr other ↦ rw other (repayment_in-released_movement es h.1)
        ]
