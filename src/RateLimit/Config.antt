-- ===== src/RateLimit/Config.antt =====
-- backend/app/services/config_resolution.py and rate_limit_config_service.py
use eaistack.Base.{ℕ, Bool, Option, none, some}

-- A value that was set is kept, also where Python counts it as false.
unfoldable pub resolve_field {ℓ} : {A : Type ℓ} → Option A → A → A
resolve_field none env_default = env_default
resolve_field (some db_value) env_default = db_value

pub record RateLimitConfig : Type 0 where
  pub enabled : Bool
  pub chat_capacity : ℕ
  pub chat_refill_per_minute : ℕ
  pub auth_capacity : ℕ
  pub auth_refill_per_minute : ℕ

-- The columns of the settings row that concern rate limiting; `none` where nothing is set.
pub record RateLimitSettings : Type 0 where
  pub rate_limit_enabled : Option Bool
  pub rate_limit_chat_capacity : Option ℕ
  pub rate_limit_chat_refill_per_minute : Option ℕ
  pub rate_limit_auth_capacity : Option ℕ
  pub rate_limit_auth_refill_per_minute : Option ℕ

-- `x.field if x else None`
abbrev pub column {ℓ κ} : {R : Type ℓ} {A : Type κ} → (R → Option A) → Option R → Option A
column f none = none
column f (some row) = f row

-- The settings row may not exist yet; `env` holds the defaults of the process.
unfoldable pub resolve_rate_limit_config :
    RateLimitConfig → Option RateLimitSettings → RateLimitConfig
unfolding resolve_field
resolve_rate_limit_config env db_settings = record {
  enabled = resolve_field (column (λ r. r.rate_limit_enabled) db_settings) env.enabled;
  chat_capacity =
      resolve_field (column (λ r. r.rate_limit_chat_capacity) db_settings) env.chat_capacity;
  chat_refill_per_minute =
      resolve_field (column (λ r. r.rate_limit_chat_refill_per_minute) db_settings)
        env.chat_refill_per_minute;
  auth_capacity =
      resolve_field (column (λ r. r.rate_limit_auth_capacity) db_settings) env.auth_capacity;
  auth_refill_per_minute =
      resolve_field (column (λ r. r.rate_limit_auth_refill_per_minute) db_settings)
        env.auth_refill_per_minute;
}
