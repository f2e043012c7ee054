-- ===== src/Capacity/Program/Order.antt =====
-- Sequences of treasury updates, in whatever order they arrive.
use program_capacity_invoice.Prelude.{
  ◌≡◌, List, [], ◌∷◌, ◌++◌, some, ℤ, ◌≤ℤ◌, ◌<ℤ◌, refl, sym, ◌∙◌, ap, subst,
}
use program_capacity_invoice.Money.Types.{Money}
use program_capacity_invoice.Errors.{ProgramStatus, Result, ok, err}
use program_capacity_invoice.Capacity.Program.{apply_treasury_state}
use program_capacity_invoice.Capacity.Program.State.{Program, TreasuryState}
use program_capacity_invoice.Capacity.Program.Sound.{IsSound}
use program_capacity_invoice.Capacity.Program.Moves.{LimitFits, units_after, status_after}
use program_capacity_invoice.Capacity.Program.Treasury.{
  Applies, apply_treasury_state_lem, newer-IsApplied, stale-rejected,
}

-- The program after one update, and after a sequence of them, where an update that throws is dropped.
abbrev pub after_update : TreasuryState → Program → Program
after_update state p = (apply_treasury_state state p).1

abbrev pub apply_all : List TreasuryState → Program → Program
apply_all [] p = p
apply_all (state ∷ states) p = apply_all states (after_update state p)

-- Every update is older than a sequence, or no newer than it.
abbrev pub AllOlder : List TreasuryState → ℤ → Type 0
AllOlder [] n = Unit {0}
AllOlder (state ∷ states) n = (state.sequence <ℤ n) × AllOlder states n

abbrev pub NoneNewer : List TreasuryState → ℤ → Type 0
NoneNewer [] n = Unit {0}
NoneNewer (state ∷ states) n = (state.sequence ≤ℤ n) × NoneNewer states n

-- What no update changes, and the bound on the sequence that older ones keep.
record StaysBelow (p : Program) (n : ℤ) (p' : Program) : Type 0 where
  below : p'.treasury_sequence <ℤ n
  code : p'.credit_limit.currency.code ≡ p.credit_limit.currency.code
  same_reserved : p'.reserved_amount ≡ p.reserved_amount
  is_sound : IsSound p'

Applies-StaysBelow :
    (p : Program) (state : TreasuryState) (n : ℤ) (x : Result (Unit {0}) × Program)
    → Applies p state x
    → IsSound p
    → p.treasury_sequence <ℤ n
    → state.sequence <ℤ n
    → StaysBelow p n x.1
Applies-StaysBelow p state n (ok _, p') h sound below older = record {
  below = subst (λ k. k <ℤ n) (sym h.sequence) older;
  code = h.code;
  same_reserved = h.same_reserved;
  is_sound = h.sound';
}
Applies-StaysBelow p state n (err _, p') h sound below older =
    subst (StaysBelow p n) (sym h)
      (record { below = below; code = refl; same_reserved = refl; is_sound = sound })

apply_all-StaysBelow :
    (p : Program) (states : List TreasuryState) (n : ℤ)
    → IsSound p
    → p.treasury_sequence <ℤ n
    → AllOlder states n
    → StaysBelow p n (apply_all states p)
apply_all-StaysBelow p [] n sound below older = record {
  below = below;
  code = refl;
  same_reserved = refl;
  is_sound = sound;
}
apply_all-StaysBelow p (state ∷ states) n sound below older =
    let first =
      Applies-StaysBelow p state n (apply_treasury_state state p)
        (apply_treasury_state_lem p state sound) sound below older.0 in
    let rest =
      apply_all-StaysBelow (after_update state p) states n first.is_sound first.below older.1 in
    record {
      below = rest.below;
      code = rest.code ∙ first.code;
      same_reserved = rest.same_reserved ∙ first.same_reserved;
      is_sound = rest.is_sound;
    }

apply_all-stale :
    (p : Program) (states : List TreasuryState)
    → NoneNewer states p.treasury_sequence
    → apply_all states p ≡ p
apply_all-stale p [] h = refl
apply_all-stale p (state ∷ states) h =
    rw (ap (λ (x : Result (Unit {0}) × Program). x.1) (stale-rejected p state h.0))
      (apply_all-stale p states h.1)

apply_all-++ :
    (p : Program) (before after : List TreasuryState)
    → apply_all (before ++ after) p ≡ apply_all after (apply_all before p)
apply_all-++ p [] after = refl
apply_all-++ p (state ∷ before) after = apply_all-++ (after_update state p) before after

-- What a reconciliation, an update with a limit and a status, leaves of a program.
pub record IsReconciled (p : Program) (limit : Money) (status : ProgramStatus) (n : ℤ)
    (p' : Program) : Type 0 where
  pub units : p'.credit_limit.minor_units ≡ limit.minor_units
  pub code : p'.credit_limit.currency.code ≡ p.credit_limit.currency.code
  pub status' : p'.status ≡ status
  pub sequence : p'.treasury_sequence ≡ n
  pub same_reserved : p'.reserved_amount ≡ p.reserved_amount
  pub is_sound : IsSound p'

-- Of a sequence of treasury updates of a sound program, let one name both a limit, positive
-- and in the program's currency, and a status, and be newer than the program and than every
-- update before it, and let no update after it be newer. Then, whatever the other updates say
-- and whether or not they throw, the program ends with that update's limit in minor units,
-- status and sequence, with its limit's currency code and its reserved amount unchanged, and
-- sound.
pub newest_wins :
    (p : Program) (before after : List TreasuryState) (state : TreasuryState) (limit : Money)
    (status : ProgramStatus)
    → IsSound p
    → state.credit_limit ≡ some limit
    → state.status ≡ some status
    → LimitFits p (some limit)
    → p.treasury_sequence <ℤ state.sequence
    → AllOlder before state.sequence
    → NoneNewer after state.sequence
    → IsReconciled p limit status state.sequence (apply_all (before ++ state ∷ after) p)
newest_wins p before after state limit status sound has_limit has_status fits newer older late =
    let q = apply_all before p in
    let kept = apply_all-StaysBelow p before state.sequence sound newer older in
    let fits' : LimitFits q state.credit_limit =
      subst (LimitFits q) (sym has_limit) (fits.0 ∙ sym kept.code, fits.1) in
    let (_, applied) = newer-IsApplied q state kept.is_sound kept.below fits' in
    let last =
      apply_all-stale (after_update state q) after
        (subst (NoneNewer after) (sym applied.sequence) late) in
    subst (IsReconciled p limit status state.sequence)
      (sym (apply_all-++ p before (state ∷ after) ∙ last))
      (record {
        units = applied.units ∙ ap (λ l. units_after l q.credit_limit) has_limit;
        code = applied.code ∙ kept.code;
        status' = applied.status ∙ ap (λ s. status_after s q.status) has_status;
        sequence = applied.sequence;
        same_reserved = applied.same_reserved ∙ kept.same_reserved;
        is_sound = applied.sound';
      })
