-- ===== src/Config.antt =====
-- src/platform/config/app-config.ts: what is demanded of the environment beyond the schemas of its
-- variables, and the configuration that is made of it. The variables come as the schema library reads
-- them, each by itself; `JSON.parse`, the test and the reading of a date and time, and the UTF-8
-- encoding are arguments.

pub mod Safe
use program_capacity_invoice.Prelude.{
  ℕ, ltb, leb, Bool, true, false, not, ◌&&◌, is_none, if◌then◌else◌, Option, none, some, List, [],
  ◌∷◌, ◌++◌, map, filter, length, ◌==◌, Text, text_eq, codes, split_on, trim, Json, Fields, string,
  object, field, end, get_field,
}
use program_capacity_invoice.Prelude.Optional.{◌>>=◌, ◌>>◌, require}
use program_capacity_invoice.Money.Types.{Date}

pub data Environment : Type 0 where
  development test production : Environment

pub data SaslMechanism : Type 0 where
  plain scram_sha_256 scram_sha_512 : SaslMechanism

pub record KafkaSasl : Type 0 where
  pub mechanism : SaslMechanism
  pub username : Text
  pub password : Text

pub record DatabaseConfig : Type 0 where
  pub url : Text
  pub pool_size : ℕ
  pub connect_timeout_ms : ℕ
  pub lock_timeout_ms : ℕ
  pub statement_timeout_ms : ℕ
  pub transaction_timeout_ms : ℕ
  pub max_wait_ms : ℕ

-- `secret` is the bytes of the encoded secret
pub record AuthConfig : Type 0 where
  pub secret : List ℕ
  pub issuer : Text
  pub audience : Text
  pub clock_tolerance_seconds : ℕ

pub record FxConfig : Type 0 where
  pub as_of : Date
  pub rates : List (Text × Text)

pub record KafkaConfig : Type 0 where
  pub enabled : Bool
  pub brokers : List Text
  pub ssl_enabled : Bool
  pub ssl_ca_location : Option Text
  pub sasl : Option KafkaSasl
  pub client_id : Text
  pub group_id : Text
  pub treasury_topic : Text
  pub dead_letter_topic : Text
  pub capacity_events_topic : Text
  pub outbox_poll_interval_ms : ℕ

pub record AppConfig : Type 0 where
  pub environment : Environment
  pub port : ℕ
  pub database : DatabaseConfig
  pub auth : AuthConfig
  pub fx : FxConfig
  pub kafka : KafkaConfig

-- The variables of `envSchema`. What the code reads as 'true' or 'false' is a Boolean.
pub record Env : Type 0 where
  pub node_env : Environment
  pub port : ℕ
  pub database : DatabaseConfig
  pub jwt_secret : Text
  pub jwt_issuer : Text
  pub jwt_audience : Text
  pub jwt_clock_tolerance_seconds : ℕ
  pub fx_rates : Option Text
  pub kafka_enabled : Bool
  pub kafka_brokers : Text
  pub kafka_ssl : Bool
  pub kafka_ssl_ca_location : Option Text
  pub kafka_sasl_mechanism : Option SaslMechanism
  pub kafka_sasl_username : Option Text
  pub kafka_sasl_password : Option Text
  pub kafka_client_id : Text
  pub kafka_group_id : Text
  pub kafka_treasury_topic : Text
  pub kafka_dead_letter_topic : Text
  pub kafka_capacity_events_topic : Text
  pub outbox_poll_interval_ms : ℕ

-- EXAMPLE_JWT_SECRET
abbrev pub example_jwt_secret : Text
example_jwt_secret = codes "local-development-secret-change-me-0123456789"

-- `brokerList`
unfoldable pub broker_list : Text → List Text
broker_list raw = filter (λ broker. not (length broker == 0)) (map trim (split_on b',' raw))

-- The variable that an issue is about.
pub data Issue : Type 0 where
  kafka_brokers kafka_sasl_username kafka_sasl_password kafka_ssl kafka_sasl_mechanism : Issue
  jwt_secret fx_rates db_lock_timeout_ms fx_rates_json fx_rates_shape : Issue

abbrev pub issue_if : Bool → Issue → List Issue
issue_if true issue = issue ∷ []
issue_if false issue = []

abbrev pub sasl_issues : Option SaslMechanism → Env → List Issue
sasl_issues none env = []
sasl_issues (some mechanism) env =
    issue_if (is_none env.kafka_sasl_username) kafka_sasl_username
    ++ issue_if (is_none env.kafka_sasl_password) kafka_sasl_password

abbrev pub production_issues : Environment → Env → List Issue
production_issues production env =
    issue_if (env.kafka_enabled && not env.kafka_ssl) kafka_ssl
    ++ (issue_if (env.kafka_enabled && is_none env.kafka_sasl_mechanism) kafka_sasl_mechanism
        ++ (issue_if (text_eq env.jwt_secret example_jwt_secret) jwt_secret
            ++ issue_if (is_none env.fx_rates) fx_rates))
production_issues _ env = []

abbrev pub has_no_brokers : List Text → Bool
has_no_brokers [] = true
has_no_brokers (broker ∷ brokers) = false

-- `superRefine` and `check`
unfoldable pub issues_of : Env → List Issue
issues_of env =
    issue_if (env.kafka_enabled && has_no_brokers (broker_list env.kafka_brokers)) kafka_brokers
    ++ (sasl_issues env.kafka_sasl_mechanism env
        ++ (production_issues env.node_env env
            ++ issue_if (leb env.database.transaction_timeout_ms env.database.lock_timeout_ms)
                db_lock_timeout_ms))

-- What `loadConfig` returns, or the issues of the `ConfigError` that it throws.
pub data Loaded : Type 0 where
  loaded : AppConfig → Loaded
  config_error : List Issue → Loaded

-- DEVELOPMENT_FX_RATES
abbrev pub development_rates : List (Text × Text)
development_rates =
    (codes "EUR/USD", codes "1.09")
    ∷ (codes "GBP/USD", codes "1.27")
    ∷ (codes "USD/EUR", codes "0.92")
    ∷ (codes "GBP/EUR", codes "1.17")
    ∷ (codes "USD/GBP", codes "0.79")
    ∷ (codes "EUR/GBP", codes "0.85")
    ∷ []

abbrev pub rate_entry : Text → Json → Option (List (Text × Text)) → Option (List (Text × Text))
rate_entry pair (string rate) (some entries) = some ((pair, rate) ∷ entries)
rate_entry pair _ _ = none

unfoldable pub rate_entries : Fields → Option (List (Text × Text))
rate_entries end = some []
rate_entries (field pair json rest) = rate_entry pair json (rate_entries rest)

abbrev pub as_text : Json → Option Text
as_text (string s) = some s
as_text _ = none

abbrev pub as_object : Json → Option Fields
as_object (object fields) = some fields
as_object _ = none

abbrev pub sasl_of : Option SaslMechanism → Env → Option KafkaSasl
sasl_of none env = none
sasl_of (some mechanism) env = some (record {
  mechanism = mechanism;
  username = or_empty env.kafka_sasl_username;
  password = or_empty env.kafka_sasl_password;
})
  where
    or_empty : Option Text → Text
    or_empty none = []
    or_empty (some text) = text

module _ (parse_json : Text → Option Json) (is_datetime : Text → Bool) (date_of : Text → Date)
    (encode : Text → List ℕ) where
  -- `fxTableSchema`
  abbrev pub fx_table : Json → Option FxConfig
  fx_table json = do
    fields ← as_object json
    as_of_json ← get_field (codes "asOf") fields
    as_of ← as_text as_of_json
    require (is_datetime as_of)
    rates_json ← get_field (codes "rates") fields
    rate_fields ← as_object rates_json
    rates ← rate_entries rate_fields
    some (record { as_of = date_of as_of; rates = rates })

  abbrev pub with_fx : (FxConfig → AppConfig) → Option FxConfig → Loaded
  with_fx config none = config_error (fx_rates_shape ∷ [])
  with_fx config (some fx) = loaded (config fx)

  abbrev pub with_json : (FxConfig → AppConfig) → Option Json → Loaded
  with_json config none = config_error (fx_rates_json ∷ [])
  with_json config (some json) = with_fx config (fx_table json)

  -- `parseFxTable`, and the rest of the configuration with what it returns
  abbrev pub with_rates : (FxConfig → AppConfig) → Option Text → Loaded
  with_rates config none = loaded (
      config
        (record { as_of = date_of (codes "2026-09-19T00:00:00.000Z"); rates = development_rates }))
  with_rates config (some raw) = with_json config (parse_json raw)

  abbrev pub config_of : Env → FxConfig → AppConfig
  config_of env fx = record {
    environment = env.node_env;
    port = env.port;
    database = env.database;
    auth = record {
      secret = encode env.jwt_secret;
      issuer = env.jwt_issuer;
      audience = env.jwt_audience;
      clock_tolerance_seconds = env.jwt_clock_tolerance_seconds;
    };
    fx = fx;
    kafka = record {
      enabled = env.kafka_enabled;
      brokers = broker_list env.kafka_brokers;
      ssl_enabled = env.kafka_ssl;
      ssl_ca_location = env.kafka_ssl_ca_location;
      sasl = sasl_of env.kafka_sasl_mechanism env;
      client_id = env.kafka_client_id;
      group_id = env.kafka_group_id;
      treasury_topic = env.kafka_treasury_topic;
      dead_letter_topic = env.kafka_dead_letter_topic;
      capacity_events_topic = env.kafka_capacity_events_topic;
      outbox_poll_interval_ms = env.outbox_poll_interval_ms;
    };
  }

  abbrev pub unless_issues : Env → List Issue → Loaded
  unless_issues env [] = with_rates (config_of env) env.fx_rates
  unless_issues env (issue ∷ issues) = config_error (issue ∷ issues)

  -- `loadConfig`
  unfoldable pub load_config : Env → Loaded
  load_config env = unless_issues env (issues_of env)
