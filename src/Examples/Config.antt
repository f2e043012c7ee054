-- ===== src/Examples/Config.antt =====
-- A production environment, and a table of one rate.
use program_capacity_invoice.Prelude.{
  ℕ, ◌≡◌, refl, true, Bool, Option, none, some, List, [], ◌∷◌, pos, Text, text_eq, codes, split_on,
  trim, trim_start, is_space, is_digit, Json, object, string, field, end,
}
use program_capacity_invoice.Money.Types.{Date}
use program_capacity_invoice.Money.Currency
use program_capacity_invoice.Money.Decimal.{
  parse_scaled_decimal, match_decimal, match_whole, match_fraction, match_end, span_digits,
  scale_match, read_digits,
}
use program_capacity_invoice.Money.Rate.{of_scaled, of_date, identity}
use program_capacity_invoice.Money.Rate
use program_capacity_invoice.Errors.{ok}
use program_capacity_invoice.Config.{
  Env, AppConfig, production, scram_sha_256, loaded, load_config, issues_of, broker_list, config_of,
  rate_entries,
}
use program_capacity_invoice.Config.Safe.{IsSafe, load_config-IsSafe}
use program_capacity_invoice.Capacity.Rates.{StaticRates, static_rates, read_rates, rate_for}
use program_capacity_invoice.Capacity.Rates.Quoted.{IsQuoted, rate_for-IsQuoted}
use program_capacity_invoice.Examples.{usd, eur, eur_to_usd}

abbrev env : Env
env = record {
  node_env = production;
  port = 3000;
  database = record {
    url = codes "postgresql://db/capacity";
    pool_size = 10;
    connect_timeout_ms = 3000;
    lock_timeout_ms = 3000;
    statement_timeout_ms = 5000;
    transaction_timeout_ms = 10000;
    max_wait_ms = 5000;
  };
  jwt_secret = codes "0123456789abcdef0123456789abcdef";
  jwt_issuer = codes "issuer";
  jwt_audience = codes "audience";
  jwt_clock_tolerance_seconds = 30;
  fx_rates = some (codes "{}");
  kafka_enabled = true;
  kafka_brokers = codes "a:9092, b:9092";
  kafka_ssl = true;
  kafka_ssl_ca_location = none;
  kafka_sasl_mechanism = some scram_sha_256;
  kafka_sasl_username = some (codes "service");
  kafka_sasl_password = some (codes "password");
  kafka_client_id = codes "invoice-reservation";
  kafka_group_id = codes "invoice-reservation-capacity";
  kafka_treasury_topic = codes "treasury.program-capacity";
  kafka_dead_letter_topic = codes "treasury.program-capacity.dead-letter";
  kafka_capacity_events_topic = codes "capacity.events";
  outbox_poll_interval_ms = 500;
}

abbrev parse_json : Text → Option Json
parse_json raw = some (
    object (
      field (codes "asOf") (string (codes "2026-09-19T00:00:00Z"))
        (field (codes "rates") (object (field (codes "EUR/USD") (string (codes "1.09")) end)) end)))

abbrev is_datetime : Text → Bool
is_datetime s = true

abbrev date_of : Text → Date
date_of s = some (pos 0)

abbrev encode : Text → List ℕ
encode s = s

abbrev config : AppConfig
config =
    config_of parse_json is_datetime date_of encode env
      (record { as_of = some (pos 0); rates = (codes "EUR/USD", codes "1.09") ∷ [] })

env_loads : load_config parse_json is_datetime date_of encode env ≡ loaded config
unfolding load_config rate_entries issues_of broker_list split_on trim trim_start is_space text_eq
env_loads = refl

load_config-IsSafe_example : IsSafe env config
load_config-IsSafe_example =
    load_config-IsSafe parse_json is_datetime date_of encode env config env_loads

abbrev quoted : List (Text × Text)
quoted = (codes "eur/usd", codes "1.08") ∷ []

abbrev provider : StaticRates
provider = record { as_of = some (pos 0); rates = (codes "EUR/USD", eur_to_usd) ∷ [] }

provider_made : static_rates (some (pos 0)) quoted ≡ ok provider
unfolding static_rates read_rates split_on Rate.of of_scaled of_date parse_scaled_decimal
    match_decimal match_whole match_fraction match_end span_digits scale_match read_digits is_digit
    Currency.of Currency.normalise Currency.to_upper_case Currency.upper_unit Currency.of_digits
    Currency.get Currency.minor_unit_table text_eq trim trim_start is_space
provider_made = refl

eur_of_table : Currency.of (codes "EUR") ≡ ok eur
unfolding Currency.of Currency.normalise Currency.to_upper_case Currency.upper_unit
    Currency.of_digits Currency.get Currency.minor_unit_table text_eq trim trim_start is_space
eur_of_table = refl

rate_found : rate_for provider eur usd ≡ ok eur_to_usd
unfolding rate_for text_eq
rate_found = refl

rate_for-IsQuoted_example : IsQuoted eur usd (some (pos 0)) eur_to_usd
rate_for-IsQuoted_example =
    rate_for-IsQuoted (some (pos 0)) quoted provider eur usd eur_to_usd provider_made eur_of_table
      rate_found
