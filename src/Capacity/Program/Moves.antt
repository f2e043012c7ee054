-- ===== src/Capacity/Program/Moves.antt =====
-- The two halves of `applyTreasuryState`, the limit and the status, and its guards.
use program_capacity_invoice.Prelude.{
  ◌≡◌, true, List, Option, none, some, ℤ, pos, ◌≤ℤ◌, ◌<ℤ◌, ltb_ℤ, eq_of_parts, arith, refl, inl,
  inr, sym, ◌∙◌, text_eq_sound, text_eq_complete, Bool-cases, ap,
}
use program_capacity_invoice.Money.Types.{Money}
use program_capacity_invoice.Money.Amount.{money_equals}
use program_capacity_invoice.Money.Amount.SameCurrency.{is_greater_than-ok, money_equals-eq}
use program_capacity_invoice.Errors.{ProgramStatus, ok, err, stale_treasury_update}
use program_capacity_invoice.Capacity.Events.{
  DomainEvent, CreditLimitChanged, ProgramStatusChanged, credit_limit_changed,
  program_status_changed, raise,
}
use program_capacity_invoice.Capacity.Program.{change_limit, change_status}
use program_capacity_invoice.Capacity.Program.State.{Program, TreasuryState, same_status}
use program_capacity_invoice.Capacity.Program.Guards.{check_limit, check_treasury_state}

-- A limit that an update may set: positive, in the program's currency.
abbrev pub LimitFits : Program → Option Money → Type 0
LimitFits p none = Unit {0}
LimitFits p (some limit) =
    (limit.currency.code ≡ p.credit_limit.currency.code) × (pos 0 <ℤ limit.minor_units)

-- What an update leaves of the limit and of the status.
abbrev pub units_after : Option Money → Money → ℤ
units_after none current = current.minor_units
units_after (some limit) current = limit.minor_units

abbrev pub status_after : Option ProgramStatus → ProgramStatus → ProgramStatus
status_after none current = current
status_after (some status) current = status

pub check_limit-LimitFits :
    (p : Program) (limit : Option Money) → check_limit p limit ≡ ok tt → LimitFits p limit
unfolding check_limit
check_limit-LimitFits p none e = tt
check_limit-LimitFits p (some limit) e = (
  sym (ground (arith, text_eq_sound p.credit_limit.currency.code limit.currency.code)),
  ground arith,
)

pub check_limit-ok :
    (p : Program) (limit : Option Money) → LimitFits p limit → check_limit p limit ≡ ok tt
unfolding check_limit
check_limit-ok p none h = refl
check_limit-ok p (some limit) h =
    ground (arith, text_eq_complete p.credit_limit.currency.code limit.currency.code (sym h.0))

pub check_treasury-newer :
    (p : Program) (state : TreasuryState)
    → check_treasury_state p state ≡ ok tt
    → (p.treasury_sequence <ℤ state.sequence) × LimitFits p state.credit_limit
unfolding check_treasury_state
check_treasury-newer p state e =
    (ground arith, check_limit-LimitFits p state.credit_limit (ground arith))

pub check_newer :
    (p : Program) (state : TreasuryState)
    → p.treasury_sequence <ℤ state.sequence
    → LimitFits p state.credit_limit
    → check_treasury_state p state ≡ ok tt
unfolding check_treasury_state
check_newer p state newer fits = ground (arith, check_limit-ok p state.credit_limit fits)

pub check_stale :
    (p : Program) (state : TreasuryState)
    → state.sequence ≤ℤ p.treasury_sequence
    → check_treasury_state p state
      ≡ err (stale_treasury_update p.id p.treasury_sequence state.sequence)
unfolding check_treasury_state
check_stale p state old = ground arith

-- What `change_limit` leaves: the limit's amount, in a currency of the same code.
pub record IsLimited (p : Program) (limit : Option Money) (p' : Program) : Type 0 where
  pub units : p'.credit_limit.minor_units ≡ units_after limit p.credit_limit
  pub code : p'.credit_limit.currency.code ≡ p.credit_limit.currency.code
  pub others : p' ≡ record p { credit_limit = p'.credit_limit; events = p'.events }

abbrev limit_event : Program → TreasuryState → Money → CreditLimitChanged
limit_event p state limit = record {
  aggregate_id = p.id.value;
  occurred_at = state.at;
  previous_limit = p.credit_limit;
  credit_limit = limit;
  reserved_amount = p.reserved_amount;
  over_limit = ltb_ℤ limit.minor_units p.reserved_amount.minor_units;
  treasury_sequence = state.sequence;
}

abbrev status_event : Program → TreasuryState → ProgramStatus → ProgramStatusChanged
status_event p state status = record {
  aggregate_id = p.id.value;
  occurred_at = state.at;
  previous_status = p.status;
  status = status;
  treasury_sequence = state.sequence;
}

same_units :
    (limit current : Money)
    → limit.currency.code ≡ current.currency.code
    → money_equals limit current ≡ true
    → current.minor_units ≡ limit.minor_units
same_units limit current same e =
    eq_of_parts current.minor_units limit.minor_units
      (ground (arith, sym (money_equals-eq limit current same) ∙ e))

pub change_limit-ok :
    (p : Program) (state : TreasuryState) (limit : Option Money)
    → LimitFits p limit
    → p.reserved_amount.currency.code ≡ p.credit_limit.currency.code
    → (p' : Program) × (change_limit state limit p ≡ (ok tt, p')) × IsLimited p limit p'
unfolding change_limit
change_limit-ok p state none h same = (p, refl, record { units = refl; code = refl; others = refl })
change_limit-ok p state (some limit) h same =
    elim (Bool-cases (money_equals limit p.credit_limit)) [
      | inl equal ↦ (
        p,
        rw equal,
        record { units = same_units limit p.credit_limit h.0 equal; code = refl; others = refl },
      )
      | inr moved ↦ (
        record p {
          credit_limit = limit;
          events = raise (credit_limit_changed (limit_event p state limit)) p.events;
        },
        rw moved (rw (is_greater_than-ok p.reserved_amount limit (same ∙ sym h.0))),
        record { units = refl; code = h.0; others = refl },
      )
    ]

same_status-eq : (a b : ProgramStatus) → same_status a b ≡ true → b ≡ a
same_status-eq a b e = ground arith

pub change_status-ok :
    (p : Program) (state : TreasuryState) (status : Option ProgramStatus)
    → (events : List DomainEvent) × (change_status state status p
        ≡ (ok tt, record p { status = status_after status p.status; events = events }))
unfolding change_status
change_status-ok p state none = (p.events, refl)
change_status-ok p state (some status) = elim (Bool-cases (same_status status p.status)) [
  | inl equal ↦ (
    p.events,
    rw equal (
        ap (λ (s : ProgramStatus). (ok tt, record p { status = s }))
          (same_status-eq status p.status equal)),
  )
  | inr moved ↦ (raise (program_status_changed (status_event p state status)) p.events, rw moved)
]
