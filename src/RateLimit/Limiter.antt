-- ===== src/RateLimit/Limiter.antt =====
-- backend/app/services/rate_limiter_service.py: the store of buckets. The lock around a check is not
-- modelled: a check is one step.
pub mod Eviction
pub mod Isolation
use eaistack.Base.{
  ℕ, ◌+◌, ◌-◌, ◌*◌, String, Bool, true, false, not, Option, none, some, leb, if◌then◌else◌,
  string_eq, pair_eq,
}
use eaistack.Base.Dict
use eaistack.Base.Dict.{Dict}
use eaistack.Base.Result.{Result, ok, err}
use eaistack.RateLimit.Bucket.{
  TokenBucketState, TokenBucketResult, BucketError, check_and_consume, microseconds_per_second,
}
use eaistack.RateLimit.Config.{RateLimitConfig, RateLimitSettings, resolve_rate_limit_config}

-- An identity and a route class.
abbrev pub BucketKey : Type 0
BucketKey = String × String

abbrev pub Buckets : Type 0
Buckets = Dict BucketKey TokenBucketState

abbrev pub stale_after : ℕ
stale_after = 3600 * microseconds_per_second

pub record RateLimitCheckResult : Type 0 where
  pub allowed : Bool
  pub retry_after_seconds : Option ℕ

unfoldable pub is_fresh : ℕ → TokenBucketState → Bool
is_fresh now state = not (leb stale_after (now - state.last_refill_at))

unfoldable pub evict_stale_buckets : ℕ → Buckets → Buckets
unfolding is_fresh Dict.retain
evict_stale_buckets now buckets = Dict.retain (is_fresh now) buckets

-- The bucket as it is stored after a check; a check that raises has evicted and stored nothing.
unfoldable pub store :
    BucketKey
    → Buckets
    → Result BucketError TokenBucketResult
    → Result BucketError RateLimitCheckResult × Buckets
unfolding Dict.insert
store key buckets (ok result) = (
  ok (record { allowed = result.allowed; retry_after_seconds = result.retry_after_seconds }),
  Dict.insert key result.state buckets,
)
store key buckets (err e) = (err e, buckets)

unfoldable pub check_and_consume_bucket :
    BucketKey → ℕ → ℕ → ℕ → Buckets → Result BucketError RateLimitCheckResult × Buckets
check_and_consume_bucket key capacity refill_per_minute now buckets =
    let kept = evict_stale_buckets now buckets in
    store key kept (check_and_consume (Dict.lookup key kept) capacity refill_per_minute now)

abbrev pub pass : RateLimitCheckResult
pass = record { allowed = true; retry_after_seconds = none }

-- The configuration that the caller resolved, or one that is resolved now.
unfoldable pub given_or_resolved :
    RateLimitConfig → Option RateLimitSettings → Option RateLimitConfig → RateLimitConfig
unfolding resolve_rate_limit_config
given_or_resolved env db_settings none = resolve_rate_limit_config env db_settings
given_or_resolved env db_settings (some config) = config

module _ (env : RateLimitConfig) (db_settings : Option RateLimitSettings) where
  unfoldable pub check_chat_rate_limit :
      String
      → ℕ
      → Option RateLimitConfig
      → Buckets
      → Result BucketError RateLimitCheckResult × Buckets
  check_chat_rate_limit user_id now given buckets =
      let config = given_or_resolved env db_settings given in
      if config.enabled
      then check_and_consume_bucket (user_id, "chat") config.chat_capacity
          config.chat_refill_per_minute now buckets
      else (ok pass, buckets)

  unfoldable pub check_auth_rate_limit :
      String
      → ℕ
      → Option RateLimitConfig
      → Buckets
      → Result BucketError RateLimitCheckResult × Buckets
  check_auth_rate_limit client_ip now given buckets =
      let config = given_or_resolved env db_settings given in
      if config.enabled
      then check_and_consume_bucket (client_ip, "auth") config.auth_capacity
          config.auth_refill_per_minute now buckets
      else (ok pass, buckets)
