-- ===== src/Capacity/Mappers/Reservations.antt =====
-- persistence/prisma/mappers.ts: a reservation that is stored comes back as it was.
use program_capacity_invoice.Prelude.{
  ◌≡◌, refl, sym, ap, ◌∙◌, arith, false, Option, none, some, ℤ, pos, ◌<ℤ◌, leb_ℤ, Text, ℕ,
}
use program_capacity_invoice.Money.Types.{Currency, Money, ExchangeRate}
use program_capacity_invoice.Money.Amount.{from_minor_units}
use program_capacity_invoice.Money.Decimal.RoundTrip.{parse-format}
use program_capacity_invoice.Money.Rate
use program_capacity_invoice.Money.Rate.{rate, rate_decimal_places, of_scaled, of_date}
use program_capacity_invoice.Money.Rate.Convert.{IsUsable}
use program_capacity_invoice.Errors.{ok}
use program_capacity_invoice.Capacity.Reservation
use program_capacity_invoice.Capacity.Reservation.{Reservation}
use program_capacity_invoice.Capacity.Reservation.Sound.{IsSound, Leads}
use program_capacity_invoice.Capacity.Reservation.Restore.{rehydrate-to_snapshot}
use program_capacity_invoice.Capacity.Mappers.{
  to_reservation, from_reservation, rate_value, rate_time, to_exchange_rate,
}
use program_capacity_invoice.Capacity.Mappers.Known.{
  IsKnown, IsTidy, IsTidyKey, key_restored, known_by_code, money_in,
}

positive_test : (n : ℤ) → pos 0 <ℤ n → leb_ℤ n (pos 0) ≡ false
positive_test n h = ground arith

-- Parsing the printed rate gives it back.
rate_read :
    (r : ExchangeRate) → pos 0 <ℤ r.scaled_rate → Rate.of r.from r.to (rate r) (some r.as_of) ≡ ok r
unfolding Rate.of rate of_scaled of_date
rate_read r h =
    rw (parse-format r.scaled_rate rate_decimal_places) (rw (positive_test r.scaled_rate h) refl)

module _ {Decimal : Type 0} (stored : Text → Decimal) (to_fixed : Decimal → ℕ → Text) where
  -- The currencies of a rate are known, and its text comes back from the database.
  abbrev pub IsKnownRate : Option ExchangeRate → Type 0
  IsKnownRate none = Unit {0}
  IsKnownRate (some r) =
      IsKnown r.from × IsKnown r.to × (to_fixed (stored (rate r)) rate_decimal_places ≡ rate r)

  -- What a reservation must have to be written to a row.
  pub record IsStorable (r : Reservation) : Type 0 where
    pub id : IsTidy r.id
    pub program_id : IsTidy r.program_id
    pub invoice_id : IsTidy r.invoice_id
    pub key : IsTidyKey r.reservation_key
    pub invoice_known : IsKnown r.invoice_amount.currency
    pub reserved_known : IsKnown r.reserved_amount.currency
    pub repaid_known : IsKnown r.repaid_amount.currency
    pub released_known : IsKnown r.released_amount.currency
    pub rate_known : IsKnownRate r.exchange_rate

  exchange_rate_restored :
      (q : Option ExchangeRate) (from to : Currency)
      → IsUsable q
      → Leads q from to
      → IsKnownRate q
      → IsKnown from
      → IsKnown to
      → to_exchange_rate stored to_fixed
          (rate_value stored to_fixed q)
          (rate_time stored to_fixed q)
          from
          to
        ≡ ok q
  exchange_rate_restored none from to usable leads known k k' = refl
  exchange_rate_restored (some r) from to usable leads known k k' =
      let same = known_by_code from r.from k known.0 (sym leads.0) in
      let same' = known_by_code to r.to k' known.1 (sym leads.1) in
      ap
        (λ (c : Currency).
          to_exchange_rate stored to_fixed (some (stored (rate r))) (some (some r.as_of)) c to)
        same
      ∙ ap
          (λ (c : Currency).
            to_exchange_rate stored to_fixed (some (stored (rate r))) (some (some r.as_of)) r.from
              c)
          same'
      ∙ rw known.2 (rw (rate_read r usable) refl)

  amounts_restored :
      (r : Reservation) (repaid released : Money)
      → repaid ≡ r.repaid_amount
      → released ≡ r.released_amount
      → Reservation.rehydrate (record (Reservation.to_snapshot r) {
        repaid_amount = repaid;
        released_amount = released;
      })
        ≡ Reservation.rehydrate (Reservation.to_snapshot r)
  amounts_restored r repaid released e e' =
      ap
        (λ (m : Money).
          Reservation.rehydrate
            (record (Reservation.to_snapshot r) { repaid_amount = m; released_amount = released }))
        e
      ∙ ap
          (λ (m : Money).
            Reservation.rehydrate (record (Reservation.to_snapshot r) { released_amount = m }))
          e'

  -- For a sound reservation whose ids are trimmed and not empty, whose currencies, those of
  -- its rate included, are the ones that the table has for their codes, and whose rate's text
  -- comes back from the database as it was stored: toReservation of the row that
  -- fromReservation makes passes every consistency check and gives the reservation back.
  pub to_reservation-from_reservation :
      (r : Reservation)
      → IsSound r
      → IsStorable r
      → to_reservation stored to_fixed (from_reservation stored to_fixed r) ≡ ok r
  unfolding to_reservation from_reservation
  to_reservation-from_reservation r sound s =
      let repaid =
        known_by_code r.invoice_amount.currency r.repaid_amount.currency s.invoice_known
          s.repaid_known (sym sound.repaid_currency) in
      let released =
        known_by_code r.reserved_amount.currency r.released_amount.currency s.reserved_known
          s.released_known (sym sound.released_currency) in
      rw s.invoice_known (
        rw s.reserved_known (
          rw s.id (
            rw s.program_id (
              rw s.invoice_id (
                rw (key_restored r.reservation_key s.key) (
                  rw
                    (exchange_rate_restored r.exchange_rate r.invoice_amount.currency
                      r.reserved_amount.currency sound.usable sound.leads s.rate_known
                      s.invoice_known s.reserved_known)
                    (amounts_restored r
                        (from_minor_units r.repaid_amount.minor_units r.invoice_amount.currency)
                        (from_minor_units r.released_amount.minor_units r.reserved_amount.currency)
                        (money_in r.repaid_amount r.invoice_amount.currency repaid)
                        (money_in r.released_amount r.reserved_amount.currency released)
                      ∙ rehydrate-to_snapshot r sound)))))))
