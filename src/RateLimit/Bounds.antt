-- ===== src/RateLimit/Bounds.antt =====
-- How many requests a token bucket admits (internal/auth/ratelimit.go).
use multi_protocol_proxy.Prelude.{
  ℕ, zero, suc, ◌+◌, ◌-◌, ◌*◌, ◌/◌, ◌^◌, ◌≤◌, ◌≡◌, refl, true, List, [], ◌∷◌, arith, ltb,
  if◌then◌else◌,
}
use multi_protocol_proxy.RateLimit.{TokenBucket, token, burst, full_bucket, take_token, allow_all}

-- The clock does not go back: each time is at or after the one before it.
abbrev pub Ordered : ℕ → List ℕ → Type 0
Ordered t [] = Unit {0}
Ordered t (u ∷ us) = (t ≤ u) × Ordered u us

abbrev pub last_time : ℕ → List ℕ → ℕ
last_time t [] = t
last_time t (u ∷ us) = last_time u us

pub take_token-last : (b : TokenBucket) (t : ℕ) → (take_token b t).0.last_refill ≡ t
unfolding take_token
take_token-last b t = ground arith

pub take_token-rate : (b : TokenBucket) (t : ℕ) → (take_token b t).0.refill_rate ≡ b.refill_rate
unfolding take_token
take_token-rate b t = ground arith

pub take_token-max : (b : TokenBucket) (t : ℕ) → (take_token b t).0.max_tokens ≡ b.max_tokens
unfolding take_token
take_token-max b t = ground arith

-- A bucket never holds more than its burst.
pub take_token-le-max :
    (b : TokenBucket) (t : ℕ) → (take_token b t).0.tokens ≤ (take_token b t).0.max_tokens
unfolding take_token
take_token-le-max b t = ground arith

-- One call spends a token if it admits, and gains at most what the time since the last call brings.
take_token-spends :
    (b : TokenBucket) (t : ℕ)
    → (if (take_token b t).1 then 1 else 0) * token + (take_token b t).0.tokens
      ≤ b.tokens + (t - b.last_refill) * b.refill_rate
unfolding take_token
take_token-spends b t = ground arith

last_time-le : (t : ℕ) (ts : List ℕ) → Ordered t ts → t ≤ last_time t ts
last_time-le t [] o = omega arith
last_time-le t (u ∷ us) o = omega (arith, last_time-le u us o.1)

span : (r a b c : ℕ) → a ≤ b → b ≤ c → (b - a) * r + (c - b) * r ≡ (c - a) * r
span r a b c h k = grind arith

allow_all-spends :
    (ts : List ℕ) (b : TokenBucket)
    → Ordered b.last_refill ts
    → (allow_all b ts).1 * token + (allow_all b ts).0.tokens
      ≤ b.tokens + (last_time b.last_refill ts - b.last_refill) * b.refill_rate
unfolding allow_all
allow_all-spends [] b o = omega arith
allow_all-spends (t ∷ ts) b o =
    let b' = (take_token b t).0 in
    let later : t ≤ last_time t ts = last_time-le t ts o.1 in
    let rest : (allow_all b' ts).1 * token + (allow_all b' ts).0.tokens
        ≤ b'.tokens + (last_time t ts - t) * b.refill_rate =
      rw (take_token-last b t, take_token-rate b t) at
        (allow_all-spends ts b' (rw (take_token-last b t) o.1)) in
    omega (
      arith,
      rest,
      take_token-spends b t,
      span b.refill_rate b.last_refill t (last_time t ts) o.0 later,
    )

-- Of any calls at ordered times, starting with a full bucket, a limiter of `rpm` admits no more
-- than the burst and `rpm` sixtieths of a token for each second between the first moment and the
-- last call: in units, `n * token ≤ burst rpm + elapsed * rpm`.
pub allow_all-le-burst :
    (rpm start : ℕ) (ts : List ℕ)
    → Ordered start ts
    → (allow_all (full_bucket rpm start) ts).1 * token
      ≤ burst rpm + (last_time start ts - start) * rpm
unfolding full_bucket
allow_all-le-burst rpm start ts o =
    omega (arith, allow_all-spends ts (unfold full_bucket in full_bucket rpm start) o)

mul_mono : (a c r : ℕ) → a ≤ c → a * r ≤ c * r
mul_mono a c r h = grind arith

-- Of calls at ordered times within a minute of a full bucket, at most `rpm` and the burst are
-- admitted, the burst being a sixth of `rpm`, and ten below 60.
pub allow_all-minute :
    (rpm start : ℕ) (ts : List ℕ)
    → Ordered start ts
    → last_time start ts ≤ start + 60 * 10 ^ 9
    → (allow_all (full_bucket rpm start) ts).1 ≤ rpm + (if ltb rpm 60 then 10 else rpm / 6)
unfolding burst
allow_all-minute rpm start ts o h = ground (
  arith,
  allow_all-le-burst rpm start ts o,
  mul_mono (last_time start ts - start) (60 * 10 ^ 9) rpm (omega arith),
)

abbrev pub repeated : ℕ → ℕ → List ℕ
repeated zero t = []
repeated (suc n) t = t ∷ repeated n t

take_token_rich :
    (n : ℕ) (b : TokenBucket) (t : ℕ)
    → suc n * token ≤ b.tokens
    → b.tokens ≤ b.max_tokens
    → ((take_token b t).1 ≡ true) × (n * token ≤ (take_token b t).0.tokens)
unfolding take_token
take_token_rich n b t h m = ground arith

-- A bucket that holds `n` tokens admits `n` calls at once, without waiting.
pub allow_all-repeated :
    (n : ℕ) (b : TokenBucket) (t : ℕ)
    → n * token ≤ b.tokens
    → b.tokens ≤ b.max_tokens
    → (allow_all b (repeated n t)).1 ≡ n
unfolding allow_all
allow_all-repeated zero b t h m = refl
allow_all-repeated (suc n) b t h m =
    let (admitted, left) = take_token_rich n b t h m in
    rw (admitted, allow_all-repeated n (take_token b t).0 t left (take_token-le-max b t))
      (omega arith)

-- A bucket that can hold a token admits a request once the time since its last refill has brought
-- a token.
pub take_token-recovers :
    (b : TokenBucket) (t : ℕ)
    → token ≤ b.max_tokens
    → token ≤ (t - b.last_refill) * b.refill_rate
    → (take_token b t).1 ≡ true
unfolding take_token
take_token-recovers b t m h = ground arith
