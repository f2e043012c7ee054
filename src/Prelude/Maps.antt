-- ===== src/Prelude/Maps.antt =====
-- Maps from strings as association lists in insertion order, and searches in lists.
use mathlib.Core.Bool.{Bool, true, false}
use mathlib.Core.Option.{Option, none, some}
use mathlib.Core.List.{List, [], ◌∷◌}
use program_capacity_invoice.Prelude.Tests.{if◌then◌else◌}
use program_capacity_invoice.Prelude.Strings.{Text, text_eq}

abbrev pub Dict {ℓ} : Type ℓ → Type ℓ
Dict A = List (Text × A)

-- `map.get(key)`
abbrev pub lookup {ℓ} : {A : Type ℓ} → Text → Dict A → Option A
lookup key [] = none
lookup key ((k, a) ∷ entries) = if text_eq k key then some a else lookup key entries

-- `map.set(key, value)`, which keeps the place of a key that is there
abbrev pub insert {ℓ} : {A : Type ℓ} → Text → A → Dict A → Dict A
insert key a [] = (key, a) ∷ []
insert key a ((k, b) ∷ entries) =
    if text_eq k key then (k, a) ∷ entries else (k, b) ∷ insert key a entries

abbrev pub values {ℓ} : {A : Type ℓ} → Dict A → List A
values [] = []
values ((k, a) ∷ entries) = a ∷ values entries

-- `list.find(test)` and `list.filter(test)`
abbrev pub find {ℓ} : {A : Type ℓ} → (A → Bool) → List A → Option A
find test [] = none
find test (a ∷ rest) = if test a then some a else find test rest

abbrev pub filter {ℓ} : {A : Type ℓ} → (A → Bool) → List A → List A
filter test [] = []
filter test (a ∷ rest) = if test a then a ∷ filter test rest else filter test rest

-- `list.some(test)`
abbrev pub any {ℓ} : {A : Type ℓ} → (A → Bool) → List A → Bool
any test [] = false
any test (a ∷ rest) = if test a then true else any test rest
