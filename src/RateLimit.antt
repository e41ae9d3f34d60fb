-- ===== src/RateLimit.antt =====
-- internal/auth/ratelimit.go: the token bucket of each user.
-- The source keeps tokens as float64. Here a bucket holds a whole number of units, 60 * 10^9 to
-- a token, so that `rpm / 6` tokens and `rpm / 60` tokens a second are whole; what the model
-- leaves out is the rounding of float64. Time is a reading of the monotonic clock, in
-- nanoseconds, so a later reading is never the smaller one.
pub mod Bounds
use multi_protocol_proxy.Prelude.{
  ℕ, ◌+◌, ◌-◌, ◌*◌, ◌^◌, List, Bool, true, false, Option, none, some, [], ◌∷◌, Bytes, codes, Map,
  lookup, insert, ltb, leb, if◌then◌else◌,
}
use mathlib.Core.Option

-- One token, in units.
abbrev pub token : ℕ
token = 60 * 10 ^ 9

pub record TokenBucket : Type 0 where
  pub tokens : ℕ
  pub max_tokens : ℕ
  pub refill_rate : ℕ
  pub last_refill : ℕ

pub record RateLimiter : Type 0 where
  pub buckets : Map TokenBucket
  pub limits : Map ℕ

abbrev pub new_rate_limiter : RateLimiter
new_rate_limiter = record { buckets = []; limits = [] }

-- `float64(rpm) / 6`, but at least ten tokens.
unfoldable pub burst : ℕ → ℕ
burst rpm = let m = rpm * 10 ^ 10 in if ltb m (10 * token) then 10 * token else m

unfoldable pub full_bucket : ℕ → ℕ → TokenBucket
unfolding burst
full_bucket rpm now = record {
  tokens = burst rpm;
  max_tokens = burst rpm;
  refill_rate = rpm;
  last_refill = now;
}

-- The caller passes a positive `rpm` only.
unfoldable pub set_limit : RateLimiter → Bytes → ℕ → ℕ → RateLimiter
set_limit r username rpm now = record {
  buckets = insert username (full_bucket rpm now) r.buckets;
  limits = insert username rpm r.limits;
}

unfoldable pub refill : TokenBucket → ℕ → TokenBucket
refill b now =
    let filled = b.tokens + (now - b.last_refill) * b.refill_rate in
    record b {
      tokens = if ltb b.max_tokens filled then b.max_tokens else filled;
      last_refill = now;
    }

-- The part of `Allow` behind the lookup.
unfoldable pub take_token : TokenBucket → ℕ → TokenBucket × Bool
unfolding refill
take_token b now =
    let f = refill b now in
    if leb token f.tokens then (record f { tokens = f.tokens - token }, true) else (f, false)

unfoldable pub allow : RateLimiter → Bytes → ℕ → RateLimiter × Bool
allow r username now = elim (lookup username r.buckets) [
  | none ↦ (r, true)
  | some b ↦
      let (b', admitted) = take_token b now in
      (record r { buckets = insert username b' r.buckets }, admitted)
]

-- `none` stands for the source's -1.
unfoldable pub get_remaining_tokens : RateLimiter → Bytes → Option ℕ
get_remaining_tokens r username = Option.map (λ b. b.tokens) (lookup username r.buckets)

-- Successive calls of `Allow` for one user, at the given times: the last bucket, and how many
-- of them were admitted.
unfoldable pub allow_all : TokenBucket → List ℕ → TokenBucket × ℕ
allow_all b [] = (b, 0)
allow_all b (t ∷ ts) =
    let (b', admitted) = take_token b t in
    let (last, n) = allow_all b' ts in (last, (if admitted then 1 else 0) + n)
