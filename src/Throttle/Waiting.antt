-- ===== src/Throttle/Waiting.antt =====
-- internal/bandwidth/throttle.go: the loop that waits for tokens ends.
use multi_protocol_proxy.Prelude.{
  ℕ, zero, suc, ◌+◌, ◌-◌, ◌*◌, ◌≤◌, ◌<◌, true, false, some, ◌≡◌, refl, ◌∙◌, arith, positive, pos,
  reaches, exceeds, below, below-plus, below-at_most_le, reaches-below, exceeds-at_most,
  exceeds-minus, Bool-cases, inl, inr, subst, some_inj, positive-bounds, word_mod,
}
use native.Mathlib.Nat.{mul-le-mul_right}
use multi_protocol_proxy.Throttle.{
  ThrottledConn, token, millisecond, new_throttled_conn, refill, consume_tokens, wait_duration,
  wait_for_tokens,
}

-- A rate above 0, room for one token, and no more tokens than the room.
pub record IsRunning (tc : ThrottledConn) : Type 0 where
  pub flows : 0 < tc.refill_rate
  pub holds : token ≤ tc.max_tokens
  pub bounded : exceeds tc.tokens tc.max_tokens ≡ false

pub refill-IsRunning : (tc : ThrottledConn) (now : ℕ) → IsRunning tc → IsRunning (refill tc now)
unfolding refill
refill-IsRunning tc now r = record {
  flows = r.flows;
  holds = r.holds;
  bounded = exceeds-at_most _ tc.max_tokens;
}

pub consume_tokens-IsRunning :
    (tc : ThrottledConn) (n : ℕ) → IsRunning tc → IsRunning (consume_tokens tc n)
unfolding consume_tokens
consume_tokens-IsRunning tc n r = record {
  flows = r.flows;
  holds = r.holds;
  bounded = exceeds-minus tc.tokens tc.max_tokens _ r.bounded;
}

pub wait_duration-ge : (tc : ThrottledConn) (needed : ℕ) → millisecond ≤ wait_duration tc needed
unfolding wait_duration
wait_duration-ge tc needed = ground arith

-- What is missing for a token after a refill.
refill-missing :
    (tc : ThrottledConn) (now : ℕ)
    → IsRunning tc
    → below token (refill tc now).tokens
      ≡ below token tc.tokens - (now - tc.last_refill) * tc.refill_rate
unfolding refill
refill-missing tc now r =
    below-at_most_le _ token tc.max_tokens r.holds ∙ below-plus tc.tokens token _

-- How many rounds of the shortest sleep the loop needs at most.
abbrev pub Suffices : ThrottledConn → ℕ → ℕ → Type 0
Suffices tc now rounds =
    below token tc.tokens
    ≤ rounds * (tc.refill_rate * millisecond) + (now - tc.last_refill) * tc.refill_rate

missing_step :
    (b e k r g m : ℕ)
    → m ≡ b - e
    → b ≤ suc k * (r * millisecond) + e
    → millisecond * r ≤ g * r
    → m ≤ k * (r * millisecond) + g * r
missing_step b e k r g m same enough more = ground arith

refill-Suffices :
    (tc : ThrottledConn) (needed now late k : ℕ)
    → IsRunning tc
    → Suffices tc now (suc k)
    → let tc' = refill tc now in Suffices tc' (now + wait_duration tc' needed + late) k
unfolding refill
refill-Suffices tc needed now late k r enough =
    let w = wait_duration-ge (refill tc now) needed in
    let gap : millisecond ≤ now + wait_duration (refill tc now) needed + late - now = omega arith in
    missing_step (below token tc.tokens) ((now - tc.last_refill) * tc.refill_rate) k tc.refill_rate
      (now + wait_duration (refill tc now) needed + late - now) _ (refill-missing tc now r) enough
      (mul-le-mul_right tc.refill_rate gap)

pub reached :
    (fuel : ℕ) (late : ℕ → ℕ) (tc : ThrottledConn) (needed now : ℕ)
    → reaches (refill tc now).tokens token ≡ true
    → wait_for_tokens (suc fuel) late tc needed now ≡ some (refill tc now, now)
unfolding wait_for_tokens
reached fuel late tc needed now e = rw e refl

pub not_reached :
    (fuel : ℕ) (late : ℕ → ℕ) (tc : ThrottledConn) (needed now : ℕ)
    → reaches (refill tc now).tokens token ≡ false
    → let tc' = refill tc now in
      wait_for_tokens (suc fuel) late tc needed now
      ≡ wait_for_tokens fuel late tc' needed (now + wait_duration tc' needed + late fuel)
unfolding wait_for_tokens
not_reached fuel late tc needed now e = rw e refl

-- The loop returns, with a whole token at least: one round more than the rounds of one millisecond
-- in which the rate makes up for what is missing is enough, however late the sleeps return.
pub wait_for_tokens-returns :
    (k : ℕ) (late : ℕ → ℕ) (tc : ThrottledConn) (needed now : ℕ)
    → IsRunning tc
    → Suffices tc now k
    → (r : ThrottledConn × ℕ) × (wait_for_tokens (suc k) late tc needed now ≡ some r)
      × (reaches r.0.tokens token ≡ true)
wait_for_tokens-returns zero late tc needed now r enough =
    let yes =
      reaches-below (refill tc now).tokens token (omega arith)
        (refill-missing tc now r ∙ omega arith) in
    ((refill tc now, now), reached zero late tc needed now yes, yes)
wait_for_tokens-returns (suc k) late tc needed now r enough =
    elim (Bool-cases (reaches (refill tc now).tokens token)) [
      | inl whole ↦ ((refill tc now, now), reached (suc k) late tc needed now whole, whole)
      | inr short ↦
          let (x, e, whole) =
            wait_for_tokens-returns k late (refill tc now) needed _ (refill-IsRunning tc now r)
              (refill-Suffices tc needed now (late (suc k)) k r enough) in
          (x, not_reached (suc k) late tc needed now short ∙ e, whole)
    ]

-- What `NewThrottledConn` gives for a speed above 0, and it gives nothing else.
pub record IsNew (speed start : ℕ) (tc : ThrottledConn) : Type 0 where
  pub running : IsRunning tc
  pub rate : tc.refill_rate ≡ speed * 131072
  pub room : tc.max_tokens ≡ tc.refill_rate * token
  pub full : tc.tokens ≡ pos tc.max_tokens
  pub since : tc.last_refill ≡ start

pub new_throttled_conn-IsNew :
    (speed start : ℕ) (tc : ThrottledConn)
    → speed < word_mod
    → new_throttled_conn speed start ≡ some tc
    → IsNew speed start tc
unfolding new_throttled_conn
new_throttled_conn-IsNew speed start tc w e = elim (Bool-cases (positive speed)) [
  | inl fast ↦
      let speeds = positive-bounds speed w fast in
      subst (IsNew speed start) (some_inj (rw (fast, new_throttled_conn) at e)) (record {
        running = record { flows = omega arith; holds = omega arith; bounded = ground arith };
        rate = omega arith;
        room = refl;
        full = refl;
        since = refl;
      })
  | inr none_set ↦ cc (rw (none_set, new_throttled_conn) at e)
]
