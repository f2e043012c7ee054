-- ===== src/Capacity/Mappers/Known.antt =====
-- persistence/prisma/mappers.ts: values that the codes and texts of a row bring back.
use program_capacity_invoice.Prelude.{◌≡◌, sym, ap, ◌∙◌, refl, Option, none, some}
use program_capacity_invoice.Money.Types.{Currency, Money, Identifier}
use program_capacity_invoice.Money.Currency
use program_capacity_invoice.Money.Amount.{from_minor_units}
use program_capacity_invoice.Errors.{ok, ok_injective}
use program_capacity_invoice.Capacity.Ids
use program_capacity_invoice.Capacity.Mappers.{key_value, key_of_text}

-- A currency of the table, by its own code; an id that is trimmed and not empty.
abbrev pub IsKnown : Currency → Type 0
IsKnown c = Currency.of c.code ≡ ok c

abbrev pub IsTidy : Identifier → Type 0
IsTidy id = Ids.of id.value ≡ ok id

abbrev pub IsTidyKey : Option Identifier → Type 0
IsTidyKey none = Unit {0}
IsTidyKey (some key) = IsTidy key

pub key_restored : (key : Option Identifier) → IsTidyKey key → key_of_text (key_value key) ≡ ok key
key_restored none tidy = refl
key_restored (some key) tidy = rw tidy refl

-- The table has one currency of each code.
pub known_by_code : (a b : Currency) → IsKnown a → IsKnown b → a.code ≡ b.code → a ≡ b
known_by_code a b known known' same = ok_injective (sym known ∙ ap Currency.of same ∙ known')

pub money_in : (m : Money) (c : Currency) → c ≡ m.currency → from_minor_units m.minor_units c ≡ m
money_in m c same = ap (from_minor_units m.minor_units) same
