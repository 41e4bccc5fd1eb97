-- ===== src/RateLimit/Bucket.antt =====
-- backend/app/ratelimit/token_bucket.py. Times are microseconds. The refill rate is the number of
-- tokens in a minute, from which the only caller makes the rate in seconds (`/ 60.0`), and an amount
-- of tokens is counted in units of 1 / 60,000,000 token, in which `elapsed * rate` is whole. The
-- rounding of floats is not modelled.
pub mod Budget
use eaistack.Base.{
  ℕ, ◌+◌, ◌-◌, ◌*◌, ◌/◌, Bool, true, false, Option, none, some, min, ltb, if◌then◌else◌,
}
use eaistack.Base.Result.{Result, ok, err, raise_if, ◌>>◌}

-- The units in one token.
abbrev pub token : ℕ
token = 60000000

abbrev pub microseconds_per_second : ℕ
microseconds_per_second = 1000000

pub record TokenBucketState : Type 0 where
  pub tokens : ℕ
  pub last_refill_at : ℕ

pub record TokenBucketResult : Type 0 where
  pub allowed : Bool
  pub state : TokenBucketState
  pub retry_after_seconds : Option ℕ

pub data BucketError : Type 0 where
  bad_capacity bad_refill_rate : BucketError

-- `math.ceil(n / d)`
unfoldable pub ceil_div : ℕ → ℕ → ℕ
ceil_div n d = (n + (d - 1)) / d

-- The tokens before the consume check: `-` stops at 0 as `max(0.0, ...)` does.
unfoldable pub refilled : Option TokenBucketState → ℕ → ℕ → ℕ → ℕ
refilled none capacity rate now = capacity * token
refilled (some state) capacity rate now =
    min (capacity * token) (state.tokens + (now - state.last_refill_at) * rate)

-- The rate in a second is `rate * microseconds_per_second` units. The source rounds up a quotient of
-- floats, which may make its Retry-After one second longer than the exact one here.
unfoldable pub consume : ℕ → ℕ → ℕ → TokenBucketResult
unfolding ceil_div
consume available rate now =
    if ltb available token
    then record {
      allowed = false;
      state = record { tokens = available; last_refill_at = now };
      retry_after_seconds = some (ceil_div (token - available) (rate * microseconds_per_second));
    }
    else record {
      allowed = true;
      state = record { tokens = available - token; last_refill_at = now };
      retry_after_seconds = none;
    }

unfoldable pub check_and_consume :
    Option TokenBucketState → ℕ → ℕ → ℕ → Result BucketError TokenBucketResult
unfolding refilled consume
check_and_consume state capacity rate now = do
  raise_if (ltb capacity 1) bad_capacity
  raise_if (ltb rate 1) bad_refill_rate
  ok (consume (refilled state capacity rate now) rate now)
