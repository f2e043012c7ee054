-- ===== src/Capacity/Rates/Quoted.antt =====
-- infrastructure/fx/static-exchange-rate-provider.ts: what a rate is that the provider returns.
use program_capacity_invoice.Prelude.{
  ◌≡◌, ◌≢◌, refl, sym, ap, ◌∙◌, subst, arith, inl, inr, true, false, Bool-cases, Option, none, some,
  List, [], ◌∷◌, ℤ, pos, ◌<ℤ◌, leb_ℤ, Text, text_eq, text_eq_sound, split_on, codes, Dict, lookup,
  insert,
}
use program_capacity_invoice.Money.Types.{Currency, ExchangeRate, Date, currency_equals}
use program_capacity_invoice.Money.Currency
use program_capacity_invoice.Money.Currency.{of_digits, get, minor_unit_table, normalise}
use program_capacity_invoice.Money.Decimal.{DecimalParseResult, parsed, refused}
use program_capacity_invoice.Money.Rate.{identity, of_scaled, of_date}
use program_capacity_invoice.Money.Rate
use program_capacity_invoice.Errors.{ok, err, >>=-ok, ok_injective, invalid_exchange_rate}
use program_capacity_invoice.Capacity.Rates.Codes.{no_slash, same_codes, of-no_slash}
use program_capacity_invoice.Capacity.Rates.{
  StaticRates, pair_key, two_codes, parse_entry, read_rates, static_rates, rate_for, or_unavailable,
}

positive_rate : (n : ℤ) → leb_ℤ n (pos 0) ≡ false → pos 0 <ℤ n
positive_rate n h = ground arith

abbrev Reads : Currency → Currency → Date → ExchangeRate → Type 0
Reads from to as_of r =
    (pos 0 <ℤ r.scaled_rate) × (some r.as_of ≡ as_of) × (r.from ≡ from) × (r.to ≡ to)

of_date-Reads :
    (from to : Currency) (n : ℤ) (as_of : Date) (r : ExchangeRate)
    → leb_ℤ n (pos 0) ≡ false
    → of_date from to n as_of ≡ ok r
    → Reads from to as_of r
unfolding of_date
of_date-Reads from to n none r p h = cc
of_date-Reads from to n (some at) r p h =
    subst (Reads from to (some at)) (ok_injective h) (positive_rate n p, refl, refl, refl)

of_scaled-Reads :
    (from to : Currency) (result : DecimalParseResult) (as_of : Date) (r : ExchangeRate)
    → of_scaled from to result as_of ≡ ok r
    → Reads from to as_of r
unfolding of_scaled
of_scaled-Reads from to (refused p) as_of r h = cc
of_scaled-Reads from to (parsed n) as_of r h = elim (Bool-cases (leb_ℤ n (pos 0))) [
  | inl e ↦ absurd (refused_ne (rw e at h))
  | inr e ↦ of_date-Reads from to n as_of r e (rw e at h)
]
  where
    refused_ne : err invalid_exchange_rate ≢ ok r
    refused_ne e = cc

of-Reads :
    (from to : Currency) (text : Text) (as_of : Date) (r : ExchangeRate)
    → Rate.of from to text as_of ≡ ok r
    → Reads from to as_of r
unfolding Rate.of
of-Reads from to text as_of r h = of_scaled-Reads from to _ as_of r h

-- An entry of the map: at the time of the table, positive, and under the key of its codes.
record IsEntry (as_of : Date) (key : Text) (r : ExchangeRate) : Type 0 where
  named : key ≡ pair_key r.from r.to
  positive : pos 0 <ℤ r.scaled_rate
  observed : some r.as_of ≡ as_of
  from_plain : no_slash r.from.code ≡ true
  to_plain : no_slash r.to.code ≡ true

abbrev AreEntries : Date → Dict ExchangeRate → Type 0
AreEntries as_of [] = Unit {0}
AreEntries as_of ((k, r) ∷ rates) = IsEntry as_of k r × AreEntries as_of rates

insert-AreEntries :
    (as_of : Date) (key : Text) (r : ExchangeRate) (rates : Dict ExchangeRate)
    → IsEntry as_of key r
    → AreEntries as_of rates
    → AreEntries as_of (insert key r rates)
insert-AreEntries as_of key r [] new old = (new, tt)
insert-AreEntries as_of key r ((k, q) ∷ rates) new old = elim (Bool-cases (text_eq k key)) [
  | inl e ↦ rw e (subst (λ s. IsEntry as_of s r) (sym (text_eq_sound k key e)) new, old.1)
  | inr e ↦ rw e (old.0, insert-AreEntries as_of key r rates new old.1)
]

lookup-IsEntry :
    (as_of : Date) (key : Text) (rates : Dict ExchangeRate) (r : ExchangeRate)
    → AreEntries as_of rates
    → lookup key rates ≡ some r
    → IsEntry as_of key r
lookup-IsEntry as_of key [] r entries h = cc
lookup-IsEntry as_of key ((k, q) ∷ rates) r entries h = elim (Bool-cases (text_eq k key)) [
  | inl e ↦
      let same : some q ≡ some r = rw e at h in
      subst (IsEntry as_of key) (some_injective same)
        (subst (λ s. IsEntry as_of s q) (text_eq_sound k key e) entries.0)
  | inr e ↦ lookup-IsEntry as_of key rates r entries.1 (rw e at h)
]
  where
    some_injective : {a b : ExchangeRate} → some a ≡ some b → a ≡ b
    some_injective e = cc

parse_entry-IsEntry :
    (as_of : Date) (pair : Option (Text × Text)) (text : Text) (r : ExchangeRate)
    → parse_entry as_of pair text ≡ ok r
    → IsEntry as_of (pair_key r.from r.to) r
parse_entry-IsEntry as_of none text r h = cc
parse_entry-IsEntry as_of (some (from, to)) text r h =
    let (a, ea, ha) = >>=-ok (Currency.of from) _ h in
    let (b, eb, hb) = >>=-ok (Currency.of to) _ ha in
    let (positive, observed, same, same') = of-Reads a b text as_of r hb in
    record {
      named = refl;
      positive = positive;
      observed = observed;
      from_plain =
          subst (λ (c : Currency). no_slash c.code ≡ true) (sym same) (of-no_slash from a ea);
      to_plain = subst (λ (c : Currency). no_slash c.code ≡ true) (sym same') (of-no_slash to b eb);
    }

read_rates-AreEntries :
    (as_of : Date) (table : List (Text × Text)) (rates result : Dict ExchangeRate)
    → AreEntries as_of rates
    → read_rates as_of table rates ≡ ok result
    → AreEntries as_of result
unfolding read_rates
read_rates-AreEntries as_of [] rates result entries h =
    subst (AreEntries as_of) (ok_injective h) entries
read_rates-AreEntries as_of ((pair, text) ∷ table) rates result entries h =
    let (r, e, rest) = >>=-ok (parse_entry as_of (two_codes (split_on b'/' pair)) text) _ h in
    read_rates-AreEntries as_of table (insert (pair_key r.from r.to) r rates) result
      (insert-AreEntries as_of (pair_key r.from r.to) r rates
        (parse_entry-IsEntry as_of (two_codes (split_on b'/' pair)) text r e) entries)
      rest

-- A rate from one currency to another, positive and observed at a time.
pub record IsQuoted (from to : Currency) (as_of : Date) (r : ExchangeRate) : Type 0 where
  pub from_code : r.from.code ≡ from.code
  pub to_code : r.to.code ≡ to.code
  pub positive : pos 0 <ℤ r.scaled_rate
  pub observed : some r.as_of ≡ as_of

found-IsQuoted :
    (from to : Currency) (as_of : Date) (rates : Dict ExchangeRate) (found : Option ExchangeRate)
    (r : ExchangeRate)
    → no_slash from.code ≡ true
    → AreEntries as_of rates
    → lookup (pair_key from to) rates ≡ found
    → or_unavailable from to found ≡ ok r
    → IsQuoted from to as_of r
found-IsQuoted from to as_of rates none r plain entries e h = cc
found-IsQuoted from to as_of rates (some q) r plain entries e h =
    let entry =
      lookup-IsEntry as_of (pair_key from to) rates r entries (e ∙ ap some (ok_injective h)) in
    let (same, same') =
      same_codes from.code to.code r.from.code r.to.code plain entry.from_plain entry.named in
    record {
      from_code = sym same;
      to_code = sym same';
      positive = entry.positive;
      observed = entry.observed;
    }

identity-IsQuoted :
    (from to : Currency) (as_of : Date) (r : ExchangeRate)
    → from.code ≡ to.code
    → identity from as_of ≡ ok r
    → IsQuoted from to as_of r
unfolding identity
identity-IsQuoted from to as_of r same h =
    let (positive, observed, e, e') = of-Reads from from (codes "1") as_of r h in
    record {
      from_code = ap (λ (c : Currency). c.code) e;
      to_code = ap (λ (c : Currency). c.code) e' ∙ same;
      positive = positive;
      observed = observed;
    }

-- For a provider that is made of a table of rates, and a source currency that is the one the
-- table of currencies has for its code: a rate that rateFor returns leads from the source's
-- code to the target's code, is positive, and was observed at the table's time.
pub rate_for-IsQuoted :
    (as_of : Date) (table : List (Text × Text)) (provider : StaticRates) (from to : Currency)
    (r : ExchangeRate)
    → static_rates as_of table ≡ ok provider
    → Currency.of from.code ≡ ok from
    → rate_for provider from to ≡ ok r
    → IsQuoted from to as_of r
unfolding static_rates rate_for
rate_for-IsQuoted as_of table provider from to r made known h =
    let (rates, read, same) = >>=-ok (read_rates as_of table []) _ made in
    let plain = of-no_slash from.code from known in
    let entries = read_rates-AreEntries as_of table [] rates tt read in
    let h' : rate_for (record { as_of = as_of; rates = rates }) from to ≡ ok r =
      ap (λ (p : StaticRates). rate_for p from to) (ok_injective same) ∙ h in
    elim (Bool-cases (currency_equals from to)) [
      | inl e ↦
          identity-IsQuoted from to as_of r (sym (text_eq_sound to.code from.code e)) (rw e at h')
      | inr e ↦ found-IsQuoted from to as_of rates _ r plain entries refl (rw e at h')
    ]
