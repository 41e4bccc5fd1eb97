-- ===== src/RateLimit/Tests.antt =====
-- The theorems on rate limiting at concrete inputs.
use eaistack.Base.{
  ℕ, ◌+◌, ◌*◌, ◌-◌, ◌≤◌, ◌≡◌, ◌≢◌, refl, true, false, none, some, List, [], ◌∷◌, ◌++◌, arith,
  string_eq, pair_eq, length, ◌==◌, beq_self, ap, sym,
}
use eaistack.Base.Dict
use eaistack.Base.Dict.{IsKeyed}
use eaistack.Base.Result.{ok}
use eaistack.Base.Text.{codes, split_on, push, strip}
use eaistack.RateLimit.Config.{RateLimitConfig}
use eaistack.RateLimit.Bucket.{
  TokenBucketState, TokenBucketResult, check_and_consume, refilled, token, consume,
}
use eaistack.RateLimit.Bucket.Budget.{granted, check_and_consume_account, grants, grants-le}
use eaistack.RateLimit.Limiter.{
  BucketKey, Buckets, stale_after, store, check_and_consume_bucket, check_chat_rate_limit,
  check_auth_rate_limit,
}
use eaistack.RateLimit.Limiter.Eviction.{stale_refilled_iff, evict_unobservable}
use eaistack.RateLimit.Limiter.Isolation.{live, limits_are_separate}
use eaistack.RateLimit.ClientIp.{resolve_client_ip, resolve_client_ip-ignores_prefix}

-- Three tokens and a half at time 0.
abbrev some_tokens : TokenBucketState
some_tokens = record { tokens = 210000000; last_refill_at = 0 }

abbrev after_one : TokenBucketResult
after_one = record {
  allowed = true;
  state = record { tokens = 180000000; last_refill_at = 1000000 };
  retry_after_seconds = none;
}

computed : check_and_consume (some some_tokens) 10 30 1000000 ≡ ok after_one
unfolding check_and_consume refilled consume
computed = refl

-- Thirty tokens in a minute are half a token in a second.
check_and_consume_account_example :
    (180000000 + granted true ≡ refilled (some some_tokens) 10 30 1000000)
    × (180000000 + granted true ≤ 10 * token)
    × (after_one.state.last_refill_at ≡ 1000000)
check_and_consume_account_example =
    check_and_consume_account (some some_tokens) 10 30 1000000 after_one computed

-- Four requests in two seconds, with a capacity of 2 and a token each second.
abbrev times : List ℕ
times = 0 ∷ 0 ∷ 1000000 ∷ 2000000 ∷ []

grants-le_example : grants 2 60 none times * token ≤ 2 * token + (2000000 - 0) * 60
grants-le_example =
    grants-le 2 60 0 2000000 times
      (omega arith, (omega arith, (omega arith, (omega arith, omega arith))))

abbrev no_tokens : TokenBucketState
no_tokens = record { tokens = 0; last_refill_at = 0 }

abbrev two_buckets : Buckets
two_buckets = (("ann", "chat"), some_tokens) ∷ (("bob", "chat"), no_tokens) ∷ []

two_buckets-IsKeyed : IsKeyed two_buckets
unfolding Dict.lookup
two_buckets-IsKeyed = (refl, (refl, tt))

abbrev config : RateLimitConfig
config = record {
  enabled = true;
  chat_capacity = 10;
  chat_refill_per_minute = 30;
  auth_capacity = 5;
  auth_refill_per_minute = 5;
}

differ : (j k : BucketKey) → (j == k) ≡ false → j ≢ k
differ j k apart h = cc (apart, sym (beq_self k), ap (λ i. i == k) h)

limits_are_separate_example :
    (live 1000000
        (check_chat_rate_limit config none "ann" 1000000 none two_buckets).1
        ("bob", "chat")
      ≡ live 1000000 two_buckets ("bob", "chat"))
    × (live 1000000
          (check_auth_rate_limit config none "ann" 1000000 none two_buckets).1
          ("ann", "chat")
        ≡ live 1000000 two_buckets ("ann", "chat"))
    × IsKeyed (check_chat_rate_limit config none "ann" 1000000 none two_buckets).1
    × IsKeyed (check_auth_rate_limit config none "ann" 1000000 none two_buckets).1
limits_are_separate_example =
    limits_are_separate config none none "ann" ("bob", "chat") ("ann", "chat") 1000000 two_buckets
      two_buckets-IsKeyed (differ ("ann", "chat") ("bob", "chat") refl)
      (differ ("ann", "auth") ("ann", "chat") refl)

stale_refilled_iff_example :
    (10 ≤ 60 * 30
      → (state : TokenBucketState) (now : ℕ) → stale_after ≤ now - state.last_refill_at
      → refilled (some state) 10 30 now ≡ refilled none 10 30 now)
    × (((state : TokenBucketState) (now : ℕ)
          → stale_after ≤ now - state.last_refill_at
          → refilled (some state) 10 30 now ≡ refilled none 10 30 now)
        → 10 ≤ 60 * 30)
stale_refilled_iff_example = stale_refilled_iff 10 30

evict_unobservable_example :
    (check_and_consume_bucket ("ann", "chat") 10 30 4000000000 two_buckets).0
    ≡ (store
        ("ann", "chat")
        two_buckets
        (check_and_consume (Dict.lookup ("ann", "chat") two_buckets) 10 30 4000000000)).0
evict_unobservable_example =
    evict_unobservable ("ann", "chat") 10 30 4000000000 two_buckets two_buckets-IsKeyed
      (omega arith)

one_piece : split_on b',' (codes " 1.2.3.4") ≡ codes " 1.2.3.4" ∷ []
unfolding split_on push
one_piece = refl

resolve_client_ip-ignores_prefix_example :
    resolve_client_ip
      (some (codes "10.0.0.1"))
      (some (codes "6.6.6.6" ++ b',' ∷ codes " 1.2.3.4"))
      (length (codes " 1.2.3.4" ∷ []))
    ≡ strip (codes " 1.2.3.4")
resolve_client_ip-ignores_prefix_example =
    resolve_client_ip-ignores_prefix (some (codes "10.0.0.1")) (codes "6.6.6.6") (codes " 1.2.3.4")
      (codes " 1.2.3.4") [] one_piece
