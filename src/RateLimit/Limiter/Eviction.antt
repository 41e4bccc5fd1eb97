-- ===== src/RateLimit/Limiter/Eviction.antt =====
-- When dropping an idle bucket changes what its identity may do.
use eaistack.Base.{ℕ, ◌-◌, ◌*◌, ◌≤◌, ◌≡◌, refl, Option, none, some, arith, string_eq, pair_eq}
use eaistack.Base.Dict
use eaistack.Base.Dict.{IsKeyed, lookup-retain, keep}
use eaistack.Base.Result.{Result, ok, err}
use eaistack.RateLimit.Bucket.{
  token, TokenBucketState, TokenBucketResult, BucketError, refilled, check_and_consume,
}
use eaistack.RateLimit.Limiter.{
  BucketKey, Buckets, stale_after, is_fresh, evict_stale_buckets, check_and_consume_bucket, store,
}

refills_whole :
    (capacity rate span : ℕ)
    → capacity ≤ 60 * rate
    → stale_after ≤ span
    → capacity * token ≤ span * rate
refills_whole capacity rate span h k = grind arith

-- An idle bucket refills to the same amount as a new one, whatever was left in it, exactly if the
-- capacity is at most what the rate refills in the hour after which it is dropped.
pub stale_refilled_iff :
    (capacity rate : ℕ)
    → (capacity ≤ 60 * rate
        → (state : TokenBucketState) (now : ℕ) → stale_after ≤ now - state.last_refill_at
        → refilled (some state) capacity rate now ≡ refilled none capacity rate now)
      × (((state : TokenBucketState) (now : ℕ)
            → stale_after ≤ now - state.last_refill_at
            → refilled (some state) capacity rate now ≡ refilled none capacity rate now)
          → capacity ≤ 60 * rate)
unfolding refilled
stale_refilled_iff capacity rate = (
  λ h state now stale.
      omega (arith, refills_whole capacity rate (now - state.last_refill_at) h stale),
  λ all. ground (arith, all (record { tokens = 0; last_refill_at = 0 }) stale_after (omega arith)),
)

-- The answer to a check depends on the store only through the bucket of its key.
store_answer :
    (key : BucketKey) (a b : Buckets) (r : Result BucketError TokenBucketResult)
    → (store key a r).0 ≡ (store key b r).0
unfolding store
store_answer key a b (ok r) = refl
store_answer key a b (err e) = refl

check_same :
    (capacity rate now : ℕ) (state : Option TokenBucketState)
    → capacity ≤ 60 * rate
    → check_and_consume (keep (is_fresh now) state) capacity rate now
      ≡ check_and_consume state capacity rate now
check_same capacity rate now none h = refl
check_same capacity rate now (some s) h =
    let same = (stale_refilled_iff capacity rate).0 h s now in
    unfold check_and_consume is_fresh in ground (arith, same)

pub lookup-evict :
    (key : BucketKey) (now : ℕ) (buckets : Buckets)
    → IsKeyed buckets
    → Dict.lookup key (evict_stale_buckets now buckets)
      ≡ keep (is_fresh now) (Dict.lookup key buckets)
unfolding evict_stale_buckets
lookup-evict key now buckets keyed = lookup-retain (is_fresh now) key buckets keyed

-- From a store with distinct keys, a check with a capacity of at most 60 times the refill per minute
-- answers as it would if it dropped no idle bucket.
pub evict_unobservable :
    (key : BucketKey) (capacity rate now : ℕ) (buckets : Buckets)
    → IsKeyed buckets
    → capacity ≤ 60 * rate
    → (check_and_consume_bucket key capacity rate now buckets).0
      ≡ (store key buckets (check_and_consume (Dict.lookup key buckets) capacity rate now)).0
unfolding check_and_consume_bucket
evict_unobservable key capacity rate now buckets keyed h =
    rw
      (lookup-evict key now buckets keyed, check_same capacity rate now (Dict.lookup key buckets) h)
      (store_answer key (evict_stale_buckets now buckets) buckets _)
