-- ===== src/Config.antt =====
-- internal/config/config.go: `LoadFromEnv`.
use Prim.Native.String.{◌++◌ as join}
use senior_project.Common.{
  String, Bool, true, false, ltb, ◌&&◌, ◌≡◌, Option, none, some, ℤ, pos, negsuc, atoi, str_eq,
  if◌then◌else◌, arith,
}

pub record ServerConfig : Type 0 where
  pub address : String
  pub read_timeout : ℤ
  pub write_timeout : ℤ
  pub idle_timeout : ℤ

pub record PostgresConfig : Type 0 where
  pub host : String
  pub port : ℤ
  pub user : String
  pub password : String
  pub database : String
  pub ssl_mode : String

pub record RedisConfig : Type 0 where
  pub host : String
  pub port : ℤ
  pub password : String
  pub db : ℤ

pub record JwtConfig : Type 0 where
  pub access_secret : String
  pub refresh_secret : String
  pub access_ttl : ℤ
  pub refresh_ttl : ℤ
  pub issuer : String
  pub audience : String

pub record SmtpConfig : Type 0 where
  pub host : String
  pub port : ℤ
  pub user : String
  pub from : String
  pub password : String

pub record Config : Type 0 where
  pub app_env : String
  pub server : ServerConfig
  pub postgres : PostgresConfig
  pub redis : RedisConfig
  pub jwt : JwtConfig
  pub requests_per_window : ℤ
  pub window_seconds : ℤ
  pub nu_email_domain : String
  pub bcrypt_cost : ℤ
  pub webhook_secret : String
  pub smtp : SmtpConfig

-- What `LoadFromEnv` returns: the configuration, or the text of its error.
pub data Loaded : Type 0 where
  loaded : Config → Loaded
  rejected : String → Loaded

abbrev pub or_default : String → String → String
or_default text default = if str_eq text "" then default else text

-- A value that is missing or does not parse is the default.
abbrev pub parsed_or : (String → Option ℤ) → String → ℤ → ℤ
parsed_or parse text default =
    if str_eq text "" then default else elim (parse text) [ none ↦ default | some v ↦ v ]

-- The secret that the development environment falls back to.
abbrev pub or_dev : String → String → String → String
or_dev app_env text dev = if str_eq text "" && str_eq app_env "development" then dev else text

abbrev pub is_low_cost : ℤ → Bool
is_low_cost (pos n) = ltb n 4
is_low_cost (negsuc n) = true

-- The tests at the end, in their order. `print_int` is the verb %d.
unfoldable pub checked_config : (ℤ → String) → Config → Loaded
checked_config print_int cfg =
    if str_eq cfg.jwt.access_secret ""
    then rejected "JWT_ACCESS_SECRET is required"
    else if str_eq cfg.jwt.refresh_secret ""
    then rejected "JWT_REFRESH_SECRET is required"
    else if is_low_cost cfg.bcrypt_cost
    then rejected (join "AUTH_BCRYPT_COST too low: " (print_int cfg.bcrypt_cost))
    else if str_eq cfg.webhook_secret ""
    then rejected "PAYMENTS_WEBHOOK_SECRET is required"
    else loaded cfg

-- `env` is `os.Getenv`, and `parse_duration` is `time.ParseDuration` in nanoseconds.
module _ (env : String → String) (parse_duration : String → Option ℤ) where
  abbrev pub getenv_default : String → String → String
  getenv_default key default = or_default (env key) default

  abbrev pub getenv_int_default : String → ℤ → ℤ
  getenv_int_default key default = parsed_or atoi (env key) default

  abbrev pub getenv_duration_default : String → ℤ → ℤ
  getenv_duration_default key default = parsed_or parse_duration (env key) default

  -- The configuration before the tests, with the development's secrets.
  unfoldable pub config_of : Config
  config_of =
      let app_env = getenv_default "APP_ENV" "development" in
      record {
        app_env = app_env;
        server = record {
          address = join ":" (getenv_default "PORT" "8080");
          read_timeout = getenv_duration_default "SERVER_READ_TIMEOUT" (pos 10000000000);
          write_timeout = getenv_duration_default "SERVER_WRITE_TIMEOUT" (pos 10000000000);
          idle_timeout = getenv_duration_default "SERVER_IDLE_TIMEOUT" (pos 60000000000);
        };
        postgres = record {
          host = getenv_default "POSTGRES_HOST" "postgres";
          port = getenv_int_default "POSTGRES_PORT" (pos 5432);
          user = getenv_default "POSTGRES_USER" "postgres";
          password = getenv_default "POSTGRES_PASSWORD" "postgres";
          database = getenv_default "POSTGRES_DB" "app";
          ssl_mode = getenv_default "POSTGRES_SSLMODE" "disable";
        };
        redis = record {
          host = getenv_default "REDIS_HOST" "redis";
          port = getenv_int_default "REDIS_PORT" (pos 6379);
          password = env "REDIS_PASSWORD";
          db = getenv_int_default "REDIS_DB" (pos 0);
        };
        jwt = record {
          access_secret =
              or_dev app_env (getenv_default "JWT_ACCESS_SECRET" "") "dev_access_secret_change_me";
          refresh_secret =
              or_dev app_env (getenv_default "JWT_REFRESH_SECRET" "")
                "dev_refresh_secret_change_me";
          access_ttl = getenv_duration_default "JWT_ACCESS_TTL" (pos 900000000000);
          refresh_ttl = getenv_duration_default "JWT_REFRESH_TTL" (pos 2592000000000000);
          issuer = getenv_default "JWT_ISSUER" "nu-ticketing";
          audience = getenv_default "JWT_AUDIENCE" "nu-ticketing-client";
        };
        requests_per_window = getenv_int_default "RATE_LIMIT_REQUESTS" (pos 120);
        window_seconds = getenv_int_default "RATE_LIMIT_WINDOW_SECONDS" (pos 60);
        nu_email_domain = getenv_default "AUTH_NU_EMAIL_DOMAIN" "nu.edu.kz";
        bcrypt_cost = getenv_int_default "AUTH_BCRYPT_COST" (pos 12);
        webhook_secret =
            or_dev app_env (getenv_default "PAYMENTS_WEBHOOK_SECRET" "")
              "dev_payments_webhook_secret_change_me";
        smtp = record {
          host = getenv_default "SMTP_HOST" "";
          port = getenv_int_default "SMTP_PORT" (pos 587);
          user = getenv_default "SMTP_USER" "";
          from = getenv_default "SMTP_FROM" "";
          password = getenv_default "SMTP_PASSWORD" "";
        };
      }

  unfoldable pub load_from_env : (ℤ → String) → Loaded
  unfolding config_of checked_config
  load_from_env print_int = checked_config print_int config_of

-- A server that starts has its three secrets, and a bcrypt cost of at least 4.
checked_config-secrets :
    (print_int : ℤ → String) (cfg c : Config)
    → checked_config print_int c ≡ loaded cfg
    → (str_eq c.jwt.access_secret "" ≡ false)
      × (str_eq c.jwt.refresh_secret "" ≡ false)
      × (is_low_cost c.bcrypt_cost ≡ false)
      × (str_eq c.webhook_secret "" ≡ false)
unfolding checked_config
checked_config-secrets print_int cfg c h =
    (ground (arith, h), ground (arith, h), ground (arith, h), ground (arith, h))
