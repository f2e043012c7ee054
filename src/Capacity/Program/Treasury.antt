-- ===== src/Capacity/Program/Treasury.antt =====
-- `applyTreasuryState`: its guards and both halves together.
use program_capacity_invoice.Prelude.{
  arith, ◌≡◌, List, Option, none, some, pos, ◌≤ℤ◌, ◌<ℤ◌, refl, inl, inr, sym, ◌∙◌, ap, subst,
}
use program_capacity_invoice.Money.Types.{Money}
use program_capacity_invoice.Errors.{Error, Result, ok, err, stale_treasury_update, Result-cases}
use program_capacity_invoice.Capacity.Events.{DomainEvent}
use program_capacity_invoice.Capacity.Program.{apply_treasury_state}
use program_capacity_invoice.Capacity.Program.State.{Program, TreasuryState}
use program_capacity_invoice.Capacity.Program.Guards.{check_treasury_state}
use program_capacity_invoice.Capacity.Program.Sound.{IsSound}
use program_capacity_invoice.Capacity.Program.Moves.{
  LimitFits, units_after, status_after, check_treasury-newer, check_newer, check_stale, IsLimited,
  change_limit-ok, change_status-ok,
}

-- What an update that is applied does: the sequence moves forward, the limit and the status are the
-- update's where it has them, and the counter and the currency stay.
pub record IsApplied (p : Program) (state : TreasuryState) (p' : Program) : Type 0 where
  pub newer : p.treasury_sequence <ℤ state.sequence
  pub sequence : p'.treasury_sequence ≡ state.sequence
  pub units : p'.credit_limit.minor_units ≡ units_after state.credit_limit p.credit_limit
  pub status : p'.status ≡ status_after state.status p.status
  pub code : p'.credit_limit.currency.code ≡ p.credit_limit.currency.code
  pub same_reserved : p'.reserved_amount ≡ p.reserved_amount
  pub same_id : p'.id ≡ p.id
  pub same_version : p'.version ≡ p.version
  pub sound' : IsSound p'

abbrev pub Applies : Program → TreasuryState → Result (Unit {0}) × Program → Type 0
Applies p state (ok _, p') = IsApplied p state p'
Applies p state (err _, p') = p' ≡ p

positive_after :
    (p : Program) (limit : Option Money)
    → LimitFits p limit
    → IsSound p
    → pos 0 <ℤ units_after limit p.credit_limit
positive_after p none fits sound = sound.limit_positive
positive_after p (some limit) fits sound = fits.1

-- The program that the two halves of the update leave.
applied :
    (p : Program) (state : TreasuryState) (p₂ : Program) (events : List DomainEvent)
    → IsSound p
    → p.treasury_sequence <ℤ state.sequence
    → LimitFits p state.credit_limit
    → IsLimited (record p { treasury_sequence = state.sequence }) state.credit_limit p₂
    → IsApplied p state
        (record p₂ { status = status_after state.status p₂.status; events = events })
applied p state p₂ events sound newer fits limited =
    let same_reserved : p₂.reserved_amount ≡ p.reserved_amount =
      ap (λ (q : Program). q.reserved_amount) limited.others in
    record {
      newer = newer;
      sequence = ap (λ (q : Program). q.treasury_sequence) limited.others;
      units = limited.units;
      status = ap (λ (q : Program). status_after state.status q.status) limited.others;
      code = limited.code;
      same_reserved = same_reserved;
      same_id = ap (λ (q : Program). q.id) limited.others;
      same_version = ap (λ (q : Program). q.version) limited.others;
      sound' = record {
        limit_positive =
            subst (λ u. pos 0 <ℤ u) (sym limited.units)
              (positive_after p state.credit_limit fits sound);
        reserved_nonneg =
            subst (λ (m : Money). pos 0 ≤ℤ m.minor_units) (sym same_reserved) sound.reserved_nonneg;
        one_currency =
            ap (λ (m : Money). m.currency.code) same_reserved
            ∙ sound.one_currency
            ∙ sym limited.code;
      };
    }

Applies-checked :
    (p : Program) (state : TreasuryState)
    → IsSound p
    → check_treasury_state p state ≡ ok tt
    → ((apply_treasury_state state p).0 ≡ ok tt)
      × IsApplied p state (apply_treasury_state state p).1
unfolding apply_treasury_state
Applies-checked p state sound e =
    let (newer, fits) = check_treasury-newer p state e in
    let p₁ : Program = record p { treasury_sequence = state.sequence } in
    let (p₂, limited, is_limited) =
      change_limit-ok p₁ state state.credit_limit fits sound.one_currency in
    let (events, run) = change_status-ok p₂ state state.status in
    rw (e, limited, run) (refl, applied p state p₂ events sound newer fits is_limited)

unchecked :
    (p : Program) (state : TreasuryState) (why : Error)
    → check_treasury_state p state ≡ err why
    → apply_treasury_state state p ≡ (err why, p)
unfolding apply_treasury_state
unchecked p state why e = rw e refl

Applies-ok :
    (p : Program) (state : TreasuryState) (x : Result (Unit {0}) × Program)
    → x.0 ≡ ok tt
    → IsApplied p state x.1
    → Applies p state x
Applies-ok p state (ok _, p') e h = h
Applies-ok p state (err _, p') e h = ground arith

-- For a sound program: applyTreasuryState either throws and leaves the program as it was, or
-- the update was newer, the sequence is the update's, the limit in minor units and the status
-- are the update's where it names them and stay otherwise, the limit's currency code, the
-- reserved amount, the id and the version stay, and the program is sound.
pub apply_treasury_state_lem :
    (p : Program) (state : TreasuryState)
    → IsSound p
    → Applies p state (apply_treasury_state state p)
apply_treasury_state_lem p state sound = elim (Result-cases (check_treasury_state p state)) [
  | inl (_, e) ↦
      let (done, is_applied) = Applies-checked p state sound e in
      Applies-ok p state (apply_treasury_state state p) done is_applied
  | inr (why, e) ↦ rw (unchecked p state why e) refl
]

-- An update that is newer than a sound program's sequence, and whose limit, where it has one,
-- is positive and in the program's currency, is applied: applyTreasuryState returns, and
-- leaves the sequence, the limit, the status and the counter as IsApplied says, and the
-- program sound.
pub newer-IsApplied :
    (p : Program) (state : TreasuryState)
    → IsSound p
    → p.treasury_sequence <ℤ state.sequence
    → LimitFits p state.credit_limit
    → ((apply_treasury_state state p).0 ≡ ok tt)
      × IsApplied p state (apply_treasury_state state p).1
newer-IsApplied p state sound newer fits =
    Applies-checked p state sound (check_newer p state newer fits)

-- An update that is not newer than the program's sequence throws the stale-update error with
-- both sequences, whatever else it says, and leaves the program as it was.
pub stale-rejected :
    (p : Program) (state : TreasuryState)
    → state.sequence ≤ℤ p.treasury_sequence
    → apply_treasury_state state p
      ≡ (err (stale_treasury_update p.id p.treasury_sequence state.sequence), p)
stale-rejected p state old = unchecked p state _ (check_stale p state old)
