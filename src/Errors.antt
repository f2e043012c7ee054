-- ===== src/Errors.antt =====
-- The errors that the modelled code throws, each with the values that its constructor is given; the
-- text of the messages is not modelled. `Result` is a computation that returns or throws.
use program_capacity_invoice.Prelude.{◌≡◌, refl, Bool, true, false, Text, ℤ, ◌⊎◌, inl, inr}
use program_capacity_invoice.Money.Types.{Currency, Money, ExchangeRate, Identifier}

-- `PROGRAM_STATUSES` and `RESERVATION_STATUSES`
pub data ProgramStatus : Type 0 where
  active suspended : ProgramStatus

pub data ReservationStatus : Type 0 where
  active released : ReservationStatus

pub data Error : Type 0 where
  -- src/shared
  unsupported_currency : Text → Error
  invalid_amount : Error
  currency_mismatch : Currency → Currency → Error
  invalid_divisor : Error
  invalid_exchange_rate : Error
  rate_not_applicable : Currency → Currency → Currency → Error
  invalid_identifier : Error
  invariant_violation : Error
  -- src/contexts/capacity/domain/errors.ts
  insufficient_capacity : Identifier → Money → Money → Error
  program_already_exists : Identifier → Error
  stale_treasury_update : Identifier → ℤ → ℤ → Error
  treasury_currency_mismatch : Identifier → Currency → Currency → Error
  program_not_active : Identifier → ProgramStatus → Error
  reservation_already_released : Identifier → Error
  repayment_exceeds_outstanding : Identifier → Money → Money → Error
  repayment_currency_mismatch : Identifier → Currency → Currency → Error
  reservation_program_mismatch : Identifier → Identifier → Identifier → Error
  exchange_rate_missing : Currency → Currency → Error
  exchange_rate_wrong_target : ExchangeRate → Currency → Error
  -- the ports of the domain
  capacity_busy : Error
  exchange_rate_unavailable : Currency → Currency → Error
  treasury_event_already_recorded : Text → Error
  -- src/contexts/capacity/application/errors.ts
  program_not_found : Identifier → Error
  reservation_not_found : Identifier → Identifier → Error
  invoice_already_reserved_for_amount : Identifier → Money → Money → Error
  invoice_still_active : Identifier → Error
  invoice_already_repaid : Identifier → Error
  repayment_id_reused : Identifier → Error
  invalid_query : Error
  -- an error of another class: the database's, the broker's, a bug
  foreign : Text → Error

pub data Result {ℓ} (A : Type ℓ) : Type ℓ where
  err : Error → Result A
  ok : A → Result A

-- `if (bad) throw error;`
abbrev pub throw_if : Bool → Error → Result (Unit {0})
throw_if true error = err error
throw_if false error = ok tt

infixl 5 ◌>>=◌
abbrev pub ◌>>=◌ {a b} : {A : Type a} → Result A → {B : Type b} → (A → Result B) → Result B
err error >>= next = err error
ok value >>= next = next value

infixl 5 ◌>>◌
abbrev pub ◌>>◌ {ℓ} : Result (Unit {0}) → {A : Type ℓ} → Result A → Result A
checked >> next = checked >>= (λ done. next)

pub Result-cases {ℓ} :
    {A : Type ℓ} (r : Result A) → ((a : A) × (r ≡ ok a)) ⊎ ((error : Error) × (r ≡ err error))
Result-cases (err error) = inr (error, refl)
Result-cases (ok a) = inl (a, refl)

pub ok_injective {ℓ} : {A : Type ℓ} {a b : A} → ok a ≡ ok b → a ≡ b
ok_injective e = cc

-- What returned did so in both parts.
pub >>=-ok {a b} :
    {A : Type a} {B : Type b} (first : Result A) (next : A → Result B) {result : B}
    → (first >>= next) ≡ ok result
    → (value : A) × (first ≡ ok value) × (next value ≡ ok result)
>>=-ok (err error) next e = cc
>>=-ok (ok value) next e = (value, refl, e)
