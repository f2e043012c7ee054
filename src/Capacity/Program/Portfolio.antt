-- ===== src/Capacity/Program/Portfolio.antt =====
-- A program together with all of its reservations, under any sequence of operations.
use program_capacity_invoice.Prelude.{
  ◌≡◌, List, [], ◌∷◌, ◌++◌, Bool-cases, inl, inr, ◌≢◌, ◌<ℤ◌, ℤ, pos, ◌+ℤ◌, ◌-ℤ◌, eq_of_parts,
  +ℤ_parts, -ℤ_parts, arith, refl, sym, ◌∙◌, ap, subst,
}
use program_capacity_invoice.Money.Types.{Money, Identifier}
use program_capacity_invoice.Money.Rate.Convert.{IsUsable}
use program_capacity_invoice.Errors.{Error, ok, err, ok_injective}
use program_capacity_invoice.Capacity.Reservation.{Reservation}
use program_capacity_invoice.Capacity.Reservation.Sound
use program_capacity_invoice.Capacity.Program.{Holding, reserve_for, release, apply_treasury_state}
use program_capacity_invoice.Capacity.Program.State.{
  status_or_active, Program, ReserveCapacity, ApplyRepayment, TreasuryState,
}
use program_capacity_invoice.Capacity.Events.{program_opened, raise}
use program_capacity_invoice.Money.Amount.{zero_of, is_positive}
use program_capacity_invoice.Capacity.Program.Guards.{open_program, open_from_treasury}
use program_capacity_invoice.Capacity.Program.Sound.{IsSound}
use program_capacity_invoice.Capacity.Program.Reserve.{IsReserved, Reserves, reserve_for_lem}
use program_capacity_invoice.Capacity.Program.Release.{IsReleased, Releases, release_lem}
use program_capacity_invoice.Capacity.Program.Treasury.{
  IsApplied, Applies, apply_treasury_state_lem,
}

pub record Portfolio : Type 0 where
  pub program : Program
  pub reservations : List Reservation

-- What a reservation still holds, and what all of them do.
abbrev pub held_units : Reservation → ℤ
held_units r = r.reserved_amount.minor_units -ℤ r.released_amount.minor_units

abbrev pub total_held : List Reservation → ℤ
total_held [] = pos 0
total_held (r ∷ rs) = held_units r +ℤ total_held rs

abbrev pub AllSound : List Reservation → Type 0
AllSound [] = Unit {0}
AllSound (r ∷ rs) = Sound.IsSound r × AllSound rs

-- The operations that return: a reservation is added, one is repaid in its place, or treasury updates
-- the program.
pub data Step : Portfolio → Portfolio → Type 0 where
  reserved :
      (p p' : Program) (rs : List Reservation) (request : ReserveCapacity) (r : Reservation)
      → IsUsable request.exchange_rate
      → reserve_for request p ≡ (ok r, p')
      → Step
          (record { program = p; reservations = rs })
          (record { program = p'; reservations = r ∷ rs })
  repaid :
      (h h' : Holding) (before after : List Reservation) (repayment : ApplyRepayment)
      (released : Money)
      → release repayment h ≡ (ok released, h')
      → Step
          (record { program = h.program; reservations = before ++ h.reservation ∷ after })
          (record { program = h'.program; reservations = before ++ h'.reservation ∷ after })
  updated :
      (p p' : Program) (rs : List Reservation) (state : TreasuryState)
      → apply_treasury_state state p ≡ (ok tt, p')
      → Step
          (record { program = p; reservations = rs })
          (record { program = p'; reservations = rs })

pub data Reaches : Portfolio → Portfolio → Type 0 where
  stay : (a : Portfolio) → Reaches a a
  step : (a b c : Portfolio) → Step a b → Reaches b c → Reaches a c

-- Program and reservations are sound, and the counter is what the reservations hold.
pub record IsBalanced (a : Portfolio) : Type 0 where
  pub sound : IsSound a.program
  pub all_sound : AllSound a.reservations
  pub balance : a.program.reserved_amount.minor_units ≡ total_held a.reservations

add_sub : (h t m : ℤ) → h +ℤ (t -ℤ m) ≡ (h +ℤ t) -ℤ m
add_sub h t m =
    eq_of_parts _ _
      (omega (arith, +ℤ_parts h (t -ℤ m), -ℤ_parts t m, -ℤ_parts (h +ℤ t) m, +ℤ_parts h t))

sub_add : (h t m : ℤ) → (h -ℤ m) +ℤ t ≡ (h +ℤ t) -ℤ m
sub_add h t m =
    eq_of_parts _ _
      (omega (arith, +ℤ_parts (h -ℤ m) t, -ℤ_parts h m, -ℤ_parts (h +ℤ t) m, +ℤ_parts h t))

held_after :
    (reserved freed freed' : ℤ) → reserved -ℤ freed' ≡ (reserved -ℤ freed) -ℤ (freed' -ℤ freed)
held_after x f g =
    eq_of_parts _ _
      (omega (arith, -ℤ_parts x g, -ℤ_parts x f, -ℤ_parts g f, -ℤ_parts (x -ℤ f) (g -ℤ f)))

add_fresh : (c m f : ℤ) → f ≡ pos 0 → c +ℤ m ≡ (m -ℤ f) +ℤ c
add_fresh c m f e =
    eq_of_parts _ _
      (rw e (omega (arith, +ℤ_parts c m, -ℤ_parts m (pos 0), +ℤ_parts (m -ℤ pos 0) c)))

total_held-replaced :
    (before after : List Reservation) (r r' : Reservation) (m : ℤ)
    → held_units r' ≡ held_units r -ℤ m
    → total_held (before ++ r' ∷ after) ≡ total_held (before ++ r ∷ after) -ℤ m
total_held-replaced [] after r r' m e =
    ap (λ (h : ℤ). h +ℤ total_held after) e ∙ sub_add (held_units r) (total_held after) m
total_held-replaced (x ∷ before) after r r' m e =
    ap (λ (t : ℤ). held_units x +ℤ t) (total_held-replaced before after r r' m e)
    ∙ add_sub (held_units x) (total_held (before ++ r ∷ after)) m

AllSound-middle :
    (before after : List Reservation) (r : Reservation)
    → AllSound (before ++ r ∷ after)
    → Sound.IsSound r
AllSound-middle [] after r h = h.0
AllSound-middle (x ∷ before) after r h = AllSound-middle before after r h.1

AllSound-replaced :
    (before after : List Reservation) (r r' : Reservation)
    → AllSound (before ++ r ∷ after)
    → Sound.IsSound r'
    → AllSound (before ++ r' ∷ after)
AllSound-replaced [] after r r' h s = (s, h.1)
AllSound-replaced (x ∷ before) after r r' h s = (h.0, AllSound-replaced before after r r' h.1 s)

Step-IsBalanced : (a b : Portfolio) → Step a b → IsBalanced a → IsBalanced b
Step-IsBalanced _ _ (reserved p p' rs request r usable e) h =
    let done : IsReserved p request r p' =
      subst (Reserves p request) e (reserve_for_lem p request h.sound usable) in
    let (_, _, _, _, _, _, fresh) = done.same_request in
    record {
      sound = done.sound_program;
      all_sound = (done.sound_reservation, h.all_sound);
      balance =
          done.counter
          ∙ add_fresh p.reserved_amount.minor_units r.reserved_amount.minor_units
              r.released_amount.minor_units fresh
          ∙ ap (λ (t : ℤ). held_units r +ℤ t) h.balance;
    }
Step-IsBalanced _ _ (repaid x x' before after repayment m e) h =
    let done : IsReleased x repayment m x' =
      subst (Releases x repayment) e (
        release_lem x repayment h.sound (AllSound-middle before after x.reservation h.all_sound)) in
    let same_hold : x'.reservation.reserved_amount.minor_units
        ≡ x.reservation.reserved_amount.minor_units =
      ap (λ (a : Money). a.minor_units) done.repaid'.same_hold in
    let freed : held_units x'.reservation ≡ held_units x.reservation -ℤ m.minor_units =
      ap (λ (u : ℤ). u -ℤ x'.reservation.released_amount.minor_units) same_hold
      ∙ held_after _ _ _
      ∙ ap (λ (u : ℤ). held_units x.reservation -ℤ u) (sym done.repaid'.freed_now) in
    record {
      sound = done.sound_program;
      all_sound =
          AllSound-replaced before after x.reservation x'.reservation h.all_sound
            done.repaid'.sound';
      balance =
          done.counter
          ∙ ap (λ (u : ℤ). u -ℤ m.minor_units) h.balance
          ∙ sym (total_held-replaced before after x.reservation x'.reservation m.minor_units freed);
    }
Step-IsBalanced _ _ (updated p p' rs state e) h =
    let done : IsApplied p state p' =
      subst (Applies p state) e (apply_treasury_state_lem p state h.sound) in
    record {
      sound = done.sound';
      all_sound = h.all_sound;
      balance = ap (λ (a : Money). a.minor_units) done.same_reserved ∙ h.balance;
    }

Reaches-IsBalanced : (a b : Portfolio) → Reaches a b → IsBalanced a → IsBalanced b
Reaches-IsBalanced _ _ (stay a) h = h
Reaches-IsBalanced _ _ (step a b c first rest) h =
    Reaches-IsBalanced b c rest (Step-IsBalanced a b first h)

err-ok : {error : Error} (p : Program) → err error ≢ ok p
err-ok p e = cc

-- What `openFromTreasury` makes.
abbrev opened_program : Identifier → Money → TreasuryState → Program
opened_program id limit state = record {
  id = id;
  version = pos 0;
  credit_limit = limit;
  reserved_amount = zero_of limit.currency;
  status = status_or_active state.status;
  treasury_sequence = state.sequence;
  events =
      raise
        (program_opened (record {
          aggregate_id = id.value;
          occurred_at = state.at;
          credit_limit = limit;
          status = status_or_active state.status;
        }))
        [];
}

opens_to :
    (id : Identifier) (limit : Money) (state : TreasuryState) (p : Program)
    → open_from_treasury id limit state ≡ ok p
    → (pos 0 <ℤ limit.minor_units) × (opened_program id limit state ≡ p)
unfolding open_from_treasury open_program
opens_to id limit state p e = elim (Bool-cases (is_positive limit)) [
  | inl positive ↦ (ground arith, ok_injective (rw positive at e))
  | inr not_positive ↦ absurd (err-ok p (rw not_positive at e))
]

opened-IsBalanced :
    (id : Identifier) (limit : Money) (state : TreasuryState) (p : Program)
    → open_from_treasury id limit state ≡ ok p
    → IsBalanced (record { program = p; reservations = [] })
opened-IsBalanced id limit state p e =
    let (positive, same) = opens_to id limit state p e in
    subst (λ q. IsBalanced (record { program = q; reservations = [] })) same
      (record {
        sound = record {
          limit_positive = positive;
          reserved_nonneg = omega arith;
          one_currency = refl;
        };
        all_sound = tt;
        balance = refl;
      })

-- Let openFromTreasury return a program, and let any sequence of operations that return follow
-- from that program without reservations, in any order: reservations at a positive rate or
-- none, repayments of any of the reservations made, treasury updates. Then the program's
-- reserved amount in minor units is the sum of what its reservations hold, reserved less
-- released, and the program and every reservation are sound.
pub counter_is_what_is_held :
    (id : Identifier) (limit : Money) (state : TreasuryState) (p : Program) (b : Portfolio)
    → open_from_treasury id limit state ≡ ok p
    → Reaches (record { program = p; reservations = [] }) b
    → IsBalanced b
counter_is_what_is_held id limit state p b opened path =
    Reaches-IsBalanced _ b path (opened-IsBalanced id limit state p opened)
