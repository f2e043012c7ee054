-- ===== src/Config/Safe.antt =====
-- src/platform/config/app-config.ts: what holds of a configuration that is loaded.
use program_capacity_invoice.Prelude.{
  ℕ, ◌<◌, leb, ◌≡◌, ◌≢◌, refl, sym, ◌∙◌, subst, arith, Bool, true, false, not, ◌&&◌, is_none,
  Option, none, some, List, [], ◌∷◌, ◌++◌, Text, text_eq, text_eq_complete, Json,
}
use program_capacity_invoice.Money.Types.{Date}
use program_capacity_invoice.Config.{
  Environment, development, test, production, SaslMechanism, KafkaSasl, AppConfig, FxConfig, Env,
  Issue, example_jwt_secret, broker_list, issue_if, sasl_issues, production_issues, has_no_brokers,
  issues_of, loaded, sasl_of, with_rates, with_json, with_fx, fx_table, config_of, unless_issues,
  load_config,
}

-- Brokers are named where Kafka is on.
abbrev pub IsReachable : Bool → List Text → Type 0
IsReachable true brokers = brokers ≢ []
IsReachable false brokers = Unit {0}

-- A mechanism has a name and a password, those of the environment.
abbrev pub HasCredentials : Option SaslMechanism → Env → Option KafkaSasl → Type 0
HasCredentials none env sasl = sasl ≡ none
HasCredentials (some m) env sasl =
    (username : Text) × (password : Text) × (env.kafka_sasl_username ≡ some username)
    × (env.kafka_sasl_password ≡ some password)
    × (sasl ≡ some (record { mechanism = m; username = username; password = password }))

-- Kafka, where it is on, is reached through TLS and with credentials.
abbrev pub IsGuarded : Bool → Bool → Option KafkaSasl → Type 0
IsGuarded true ssl sasl = (ssl ≡ true) × (is_none sasl ≡ false)
IsGuarded false ssl sasl = Unit {0}

-- What production demands: guarded brokers, a secret that is not the example, and rates of its own.
abbrev pub IsHardened : Environment → Env → AppConfig → Type 0
IsHardened production env config =
    IsGuarded config.kafka.enabled config.kafka.ssl_enabled config.kafka.sasl
    × (env.jwt_secret ≢ example_jwt_secret)
    × (is_none env.fx_rates ≡ false)
IsHardened _ env config = Unit {0}

pub record IsSafe (env : Env) (config : AppConfig) : Type 0 where
  pub environment : config.environment ≡ env.node_env
  pub reachable : IsReachable config.kafka.enabled config.kafka.brokers
  pub credentials : HasCredentials env.kafka_sasl_mechanism env config.kafka.sasl
  pub hardened : IsHardened config.environment env config
  pub lock_shorter : config.database.lock_timeout_ms < config.database.transaction_timeout_ms

both_empty : (xs ys : List Issue) → xs ++ ys ≡ [] → (xs ≡ []) × (ys ≡ [])
both_empty [] ys e = (refl, e)
both_empty (x ∷ xs) ys e = cc

issue_if-none : (test : Bool) (issue : Issue) → issue_if test issue ≡ [] → test ≡ false
issue_if-none true issue e = cc
issue_if-none false issue e = refl

no_issue-IsReachable :
    (enabled : Bool) (brokers : List Text)
    → (enabled && has_no_brokers brokers) ≡ false
    → IsReachable enabled brokers
no_issue-IsReachable false brokers e = tt
no_issue-IsReachable true [] e = cc
no_issue-IsReachable true (b ∷ brokers) e = λ none. cc

there : (o : Option Text) → is_none o ≡ false → (t : Text) × (o ≡ some t)
there none e = cc
there (some t) e = (t, refl)

no_issue-HasCredentials :
    (m : Option SaslMechanism) (env : Env)
    → sasl_issues m env ≡ []
    → HasCredentials m env (sasl_of m env)
no_issue-HasCredentials none env e = refl
no_issue-HasCredentials (some m) env e =
    let (no_name, no_password) = both_empty _ _ e in
    let (username, named) = there env.kafka_sasl_username (issue_if-none _ _ no_name) in
    let (password, passed) = there env.kafka_sasl_password (issue_if-none _ _ no_password) in
    (username, password, named, passed, rw named (rw passed refl))

sasl_of-is_none : (m : Option SaslMechanism) (env : Env) → is_none (sasl_of m env) ≡ is_none m
sasl_of-is_none none env = refl
sasl_of-is_none (some m) env = refl

no_issue-IsGuarded :
    (enabled ssl : Bool) (m : Option SaslMechanism) (env : Env)
    → (enabled && not ssl) ≡ false
    → (enabled && is_none m) ≡ false
    → IsGuarded enabled ssl (sasl_of m env)
no_issue-IsGuarded false ssl m env e e' = tt
no_issue-IsGuarded true true m env e e' = (refl, sasl_of-is_none m env ∙ e')
no_issue-IsGuarded true false m env e e' = cc

secret-none :
    (secret : Text) → text_eq secret example_jwt_secret ≡ false → secret ≢ example_jwt_secret
secret-none secret e same = true_false (sym (text_eq_complete secret example_jwt_secret same) ∙ e)
  where
    true_false : true ≢ false
    true_false e = cc

longer-none : (transaction lock : ℕ) → leb transaction lock ≡ false → lock < transaction
longer-none transaction lock e = ground arith

module _ (parse_json : Text → Option Json) (is_datetime : Text → Bool) (date_of : Text → Date)
    (encode : Text → List ℕ) where
  no_issue-IsHardened :
      (environment : Environment) (env : Env) (fx : FxConfig)
      → production_issues environment env ≡ []
      → IsHardened environment env (config_of parse_json is_datetime date_of encode env fx)
  no_issue-IsHardened development env fx e = tt
  no_issue-IsHardened test env fx e = tt
  no_issue-IsHardened production env fx e =
      let (plaintext, e1) = both_empty _ _ e in
      let (anonymous, e2) = both_empty _ _ e1 in
      let (example, unset) = both_empty _ _ e2 in
      (
        no_issue-IsGuarded env.kafka_enabled env.kafka_ssl env.kafka_sasl_mechanism env
            (issue_if-none _ _ plaintext) (issue_if-none _ _ anonymous),
        secret-none env.jwt_secret (issue_if-none _ _ example),
        issue_if-none _ _ unset,
      )

  config-IsSafe :
      (env : Env) (fx : FxConfig)
      → issues_of env ≡ []
      → IsSafe env (config_of parse_json is_datetime date_of encode env fx)
  unfolding issues_of
  config-IsSafe env fx e =
      let (brokers, e1) = both_empty _ _ e in
      let (sasl, e2) = both_empty _ _ e1 in
      let (hard, lock) = both_empty _ _ e2 in
      record {
        environment = refl;
        reachable =
            no_issue-IsReachable env.kafka_enabled (broker_list env.kafka_brokers)
              (issue_if-none _ _ brokers);
        credentials = no_issue-HasCredentials env.kafka_sasl_mechanism env sasl;
        hardened = no_issue-IsHardened env.node_env env fx hard;
        lock_shorter =
            longer-none env.database.transaction_timeout_ms env.database.lock_timeout_ms
              (issue_if-none _ _ lock);
      }

  -- A configuration that is loaded has some rates, and the rest from the environment.
  with_fx-config :
      (make : FxConfig → AppConfig) (found : Option FxConfig) (config : AppConfig)
      → with_fx parse_json is_datetime date_of encode make found ≡ loaded config
      → (fx : FxConfig) × (make fx ≡ config)
  with_fx-config make none config h = cc
  with_fx-config make (some fx) config h = (fx, cc)

  with_rates-config :
      (make : FxConfig → AppConfig) (raw : Option Text) (config : AppConfig)
      → with_rates parse_json is_datetime date_of encode make raw ≡ loaded config
      → (fx : FxConfig) × (make fx ≡ config)
  with_rates-config make none config h = (_, loaded_injective h)
    where
      loaded_injective : {a b : AppConfig} → loaded a ≡ loaded b → a ≡ b
      loaded_injective e = cc
  with_rates-config make (some raw) config h = parsed (parse_json raw) h
    where
      parsed :
          (json : Option Json)
          → with_json parse_json is_datetime date_of encode make json ≡ loaded config
          → (fx : FxConfig) × (make fx ≡ config)
      parsed none e = cc
      parsed (some json) e =
          with_fx-config make (fx_table parse_json is_datetime date_of encode json) config e

  unless_issues-IsSafe :
      (env : Env) (issues : List Issue) (config : AppConfig)
      → issues_of env ≡ issues
      → unless_issues parse_json is_datetime date_of encode env issues ≡ loaded config
      → IsSafe env config
  unless_issues-IsSafe env [] config e h =
      let (fx, same) =
        with_rates-config (config_of parse_json is_datetime date_of encode env) env.fx_rates config
          h in
      subst (IsSafe env) same (config-IsSafe env fx e)
  unless_issues-IsSafe env (issue ∷ issues) config e h = cc

  -- A configuration that loadConfig returns has the environment's name, at least one broker
  -- where Kafka is on, the user name and the password of the environment where a mechanism is
  -- set, and a lock timeout below the transaction timeout. In production, Kafka, where it is
  -- on, has TLS and credentials, the token secret is not the example, and the exchange rates
  -- are given.
  pub load_config-IsSafe :
      (env : Env) (config : AppConfig)
      → load_config parse_json is_datetime date_of encode env ≡ loaded config
      → IsSafe env config
  unfolding load_config
  load_config-IsSafe env config h = unless_issues-IsSafe env (issues_of env) config refl h
