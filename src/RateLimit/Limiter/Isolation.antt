-- ===== src/RateLimit/Limiter/Isolation.antt =====
-- A check of one identity leaves the buckets of all others alone, and what the store holds obeys
-- the invariant.
use eaistack.Base.{ℕ, ◌≡◌, refl, ◌≢◌, String, Option, inl, inr, string_eq, pair_eq, Bool-cases}
use eaistack.Base.Dict
use eaistack.Base.Dict.{IsKeyed, lookup-insert_ne, keep, keep-keep, insert-IsKeyed, retain-IsKeyed}
use eaistack.Base.Result.{Result, ok, err}
use eaistack.RateLimit.Bucket.{TokenBucketState, TokenBucketResult, BucketError}
use eaistack.RateLimit.Config.{RateLimitConfig, RateLimitSettings}
use eaistack.RateLimit.Limiter.{
  BucketKey, Buckets, is_fresh, evict_stale_buckets, check_and_consume_bucket, store,
  check_chat_rate_limit, check_auth_rate_limit, given_or_resolved,
}
use eaistack.RateLimit.Limiter.Eviction.{lookup-evict}

lookup-store :
    (key other : BucketKey) (buckets : Buckets) (r : Result BucketError TokenBucketResult)
    → key ≢ other
    → Dict.lookup other (store key buckets r).1 ≡ Dict.lookup other buckets
unfolding store
lookup-store key other buckets (err e) h = refl
lookup-store key other buckets (ok r) h = lookup-insert_ne key other r.state buckets h

-- After a check of one key, the bucket of any other key is what it was, unless it was stale.
pub lookup-check_ne :
    (key other : BucketKey) (capacity rate now : ℕ) (buckets : Buckets)
    → IsKeyed buckets
    → key ≢ other
    → Dict.lookup other (check_and_consume_bucket key capacity rate now buckets).1
      ≡ keep (is_fresh now) (Dict.lookup other buckets)
unfolding check_and_consume_bucket
lookup-check_ne key other capacity rate now buckets keyed h =
    rw (lookup-store key other (evict_stale_buckets now buckets) _ h)
      (lookup-evict other now buckets keyed)

store-IsKeyed :
    (key : BucketKey) (buckets : Buckets) (r : Result BucketError TokenBucketResult)
    → IsKeyed buckets
    → IsKeyed (store key buckets r).1
unfolding store
store-IsKeyed key buckets (ok r) h = insert-IsKeyed key r.state buckets h
store-IsKeyed key buckets (err e) h = h

pub check-IsKeyed :
    (key : BucketKey) (capacity rate now : ℕ) (buckets : Buckets)
    → IsKeyed buckets
    → IsKeyed (check_and_consume_bucket key capacity rate now buckets).1
unfolding check_and_consume_bucket evict_stale_buckets
check-IsKeyed key capacity rate now buckets h =
    store-IsKeyed key (evict_stale_buckets now buckets) _ (retain-IsKeyed (is_fresh now) buckets h)

-- The bucket of a key that a check at `now` would find.
abbrev pub live : ℕ → Buckets → BucketKey → Option TokenBucketState
live now buckets key = keep (is_fresh now) (Dict.lookup key buckets)

live-check_ne :
    (key other : BucketKey) (capacity rate now : ℕ) (buckets : Buckets)
    → IsKeyed buckets
    → key ≢ other
    → live now (check_and_consume_bucket key capacity rate now buckets).1 other
      ≡ live now buckets other
live-check_ne key other capacity rate now buckets keyed h =
    rw (lookup-check_ne key other capacity rate now buckets keyed h)
      (keep-keep (is_fresh now) (Dict.lookup other buckets))

-- From a store with distinct keys, whatever the configuration, a chat request changes no live
-- bucket but its user's chat bucket, a request at the token endpoint changes none but the bucket of
-- its address there, and the keys stay distinct.
pub limits_are_separate :
    (env : RateLimitConfig) (row : Option RateLimitSettings) (given : Option RateLimitConfig)
    (who : String) (chat_other auth_other : BucketKey) (now : ℕ) (buckets : Buckets)
    → IsKeyed buckets
    → (who, "chat") ≢ chat_other
    → (who, "auth") ≢ auth_other
    → (live now (check_chat_rate_limit env row who now given buckets).1 chat_other
        ≡ live now buckets chat_other)
      × (live now (check_auth_rate_limit env row who now given buckets).1 auth_other
          ≡ live now buckets auth_other)
      × IsKeyed (check_chat_rate_limit env row who now given buckets).1
      × IsKeyed (check_auth_rate_limit env row who now given buckets).1
unfolding check_chat_rate_limit check_auth_rate_limit
limits_are_separate env row given who chat_other auth_other now buckets h not_chat not_auth =
    let config = given_or_resolved env row given in
    let chat =
      check_and_consume_bucket (who, "chat") config.chat_capacity config.chat_refill_per_minute now
        buckets in
    let auth =
      check_and_consume_bucket (who, "auth") config.auth_capacity config.auth_refill_per_minute now
        buckets in
    let chat_keyed =
      check-IsKeyed (who, "chat") config.chat_capacity config.chat_refill_per_minute now buckets
        h in
    let auth_keyed =
      check-IsKeyed (who, "auth") config.auth_capacity config.auth_refill_per_minute now buckets
        h in
    elim (Bool-cases config.enabled) [
      | inl on ↦ rw on (
        live-check_ne (who, "chat") chat_other config.chat_capacity config.chat_refill_per_minute
            now buckets h not_chat,
        live-check_ne (who, "auth") auth_other config.auth_capacity config.auth_refill_per_minute
            now buckets h not_auth,
        chat_keyed,
        auth_keyed,
      )
      | inr off ↦ rw off (refl, refl, h, h)
    ]
