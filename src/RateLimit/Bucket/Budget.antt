-- ===== src/RateLimit/Bucket/Budget.antt =====
-- How many requests a bucket lets through.
use eaistack.Base.{
  ℕ, inl, inr, ◌+◌, ◌-◌, ◌*◌, ◌≤◌, ◌≡◌, Bool, Option, none, some, List, [], ◌∷◌, arith,
  if◌then◌else◌,
}
use eaistack.Base.Result.{ok, err, Result-cases}
use eaistack.RateLimit.Bucket.{
  token, TokenBucketState, TokenBucketResult, check_and_consume, refilled,
}

-- The tokens that a result grants.
abbrev pub granted : Bool → ℕ
granted b = if b then token else 0

-- What a successful check stores is the refilled amount less what it granted, at the time of the
-- check, and it is within the capacity.
pub check_and_consume_account :
    (state : Option TokenBucketState) (capacity rate now : ℕ) (r : TokenBucketResult)
    → check_and_consume state capacity rate now ≡ ok r
    → (r.state.tokens + granted r.allowed ≡ refilled state capacity rate now)
      × (r.state.tokens + granted r.allowed ≤ capacity * token)
      × (r.state.last_refill_at ≡ now)
unfolding check_and_consume
check_and_consume_account none capacity rate now r h = ground arith
check_and_consume_account (some s) capacity rate now r h = ground arith

-- The number of requests allowed when one identity sends requests at the given times.
module _ (capacity rate : ℕ) where
  pub grants : Option TokenBucketState → List ℕ → ℕ
  grants state [] = 0
  grants state (now ∷ later) = elim (check_and_consume state capacity rate now) [
    | ok r ↦ (if r.allowed then 1 else 0) + grants (some r.state) later
    | err e ↦ 0
  ]

-- The times are in order, none before `from` and none after `to`.
abbrev pub Chronological : ℕ → ℕ → List ℕ → Type 0
Chronological from to [] = from ≤ to
Chronological from to (t ∷ ts) = (from ≤ t) × Chronological t to ts

Chronological-le : (from to : ℕ) (ts : List ℕ) → Chronological from to ts → from ≤ to
Chronological-le from to [] h = h
Chronological-le from to (t ∷ ts) h = omega (arith, Chronological-le t to ts h.1)

elapsed_split : (a b c rate : ℕ) → a ≤ b → b ≤ c → (c - a) * rate ≡ (b - a) * rate + (c - b) * rate
elapsed_split a b c rate h k = grind arith

module _ (capacity rate : ℕ) where
  grants_from_state :
      (s : TokenBucketState) (to : ℕ) (ts : List ℕ)
      → Chronological s.last_refill_at to ts
      → grants capacity rate (some s) ts * token ≤ s.tokens + (to - s.last_refill_at) * rate
  unfolding grants refilled
  grants_from_state s to [] h = ground arith
  grants_from_state s to (t ∷ ts) h =
      elim (Result-cases (check_and_consume (some s) capacity rate t)) [
        | inl (r, e) ↦
            let (paid, _, at) = check_and_consume_account (some s) capacity rate t r e in
            let later = grants_from_state r.state to ts (rw at h.1) in
            rw (e, grants)
              (ground
                (arith, elapsed_split s.last_refill_at t to rate, Chronological-le t to ts, h.1))
        | inr (x, e) ↦ rw (e, grants) (omega arith)
      ]

  -- A fresh identity whose requests come within one stretch of time gets at most its capacity and
  -- what the rate refills in that time: no burst at the edge of a window exceeds it.
  pub grants-le :
      (from to : ℕ) (ts : List ℕ)
      → Chronological from to ts
      → grants capacity rate none ts * token ≤ capacity * token + (to - from) * rate
  unfolding grants
  grants-le from to [] h = ground arith
  grants-le from to (t ∷ ts) h = elim (Result-cases (check_and_consume none capacity rate t)) [
    | inl (r, e) ↦
        let (_, within, at) = check_and_consume_account none capacity rate t r e in
        let later = grants_from_state r.state to ts (rw at h.1) in
        rw (e, grants) (ground (arith, elapsed_split from t to rate, Chronological-le t to ts, h.1))
    | inr (x, e) ↦ rw (e, grants) (omega arith)
  ]
