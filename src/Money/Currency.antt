-- ===== src/Money/Currency.antt =====
-- src/shared/money/currency.ts. `Currency.of` interns its values; two values with one code are equal
-- either way, since a value has no state. Arguments that are no strings are met by the types.
use program_capacity_invoice.Prelude.{
  ℕ, ◌∷◌, [], List, ◌++◌, ◌-◌, Bool, Option, none, some, ◌==◌, leb, ◌&&◌, ◌||◌, if◌then◌else◌, Text,
  codes, text_eq, trim, is_none, not,
}
use program_capacity_invoice.Money.Types.{Currency}
use program_capacity_invoice.Errors.{Result, ok, err, unsupported_currency}

-- MINOR_UNIT_DIGITS
unfoldable pub minor_unit_table : List (Text × ℕ)
minor_unit_table =
    (codes "USD", 2)
    ∷ (codes "EUR", 2)
    ∷ (codes "GBP", 2)
    ∷ (codes "CHF", 2)
    ∷ (codes "CAD", 2)
    ∷ (codes "AUD", 2)
    ∷ (codes "NZD", 2)
    ∷ (codes "SEK", 2)
    ∷ (codes "NOK", 2)
    ∷ (codes "DKK", 2)
    ∷ (codes "PLN", 2)
    ∷ (codes "CZK", 2)
    ∷ (codes "SGD", 2)
    ∷ (codes "HKD", 2)
    ∷ (codes "CNY", 2)
    ∷ (codes "INR", 2)
    ∷ (codes "MXN", 2)
    ∷ (codes "BRL", 2)
    ∷ (codes "ZAR", 2)
    ∷ (codes "TRY", 2)
    ∷ (codes "AED", 2)
    ∷ (codes "JPY", 0)
    ∷ (codes "KRW", 0)
    ∷ (codes "ISK", 0)
    ∷ (codes "VND", 0)
    ∷ (codes "BHD", 3)
    ∷ (codes "KWD", 3)
    ∷ (codes "JOD", 3)
    ∷ (codes "OMR", 3)
    ∷ (codes "TND", 3)
    ∷ []

-- `Map.get`
unfoldable pub get : Text → List (Text × ℕ) → Option ℕ
get k [] = none
get k ((j, v) ∷ table) = if text_eq j k then some v else get k table

-- `toUpperCase` of one code unit, as far as a lookup among ASCII codes can tell: the letters of
-- ASCII, and the characters outside whose upper case is ASCII (dotless i, long s, sharp s and the
-- ligatures). The upper case of any other character has a code unit outside ASCII, as the character
-- has, and is left as it is.
unfoldable pub upper_unit : ℕ → Text
upper_unit c =
    if leb b'a' c && leb c b'z'
    then (c - 32) ∷ []
    else if c == 0x131
    then codes "I"
    else if c == 0x17f
    then codes "S"
    else if c == 0xdf
    then codes "SS"
    else if c == 0xfb00
    then codes "FF"
    else if c == 0xfb01
    then codes "FI"
    else if c == 0xfb02
    then codes "FL"
    else if c == 0xfb03
    then codes "FFI"
    else if c == 0xfb04
    then codes "FFL"
    else if c == 0xfb05 || c == 0xfb06
    then codes "ST"
    else c ∷ []

unfoldable pub to_upper_case : Text → Text
to_upper_case [] = []
to_upper_case (c ∷ s) = upper_unit c ++ to_upper_case s

unfoldable pub normalise : Text → Text
normalise code = to_upper_case (trim code)

unfoldable pub of_digits : Text → Text → Option ℕ → Result Currency
of_digits code normalised none = err (unsupported_currency code)
of_digits code normalised (some digits) =
    ok (record { code = normalised; minor_unit_digits = digits })

-- `Currency.of`
unfoldable pub of : Text → Result Currency
of code = of_digits code (normalise code) (get (normalise code) minor_unit_table)

-- `Currency.isSupported`
unfoldable pub is_supported : Text → Bool
is_supported code = not (is_none (get (normalise code) minor_unit_table))
