-- ===== src/Throttle/Throughput.antt =====
-- internal/bandwidth/throttle.go: how many bytes pass through a throttled connection that two
-- goroutines use at once.
use multi_protocol_proxy.Prelude.{
  ℕ, ◌+◌, ◌-◌, ◌*◌, ◌≤◌, ◌<◌, true, List, [], ◌∷◌, some, ◌≡◌, refl, ap, ◌∙◌, subst, arith, positive,
  below, leb, Bool-cases, inl, inr, All, word_mod,
}
use native.Mathlib.Nat.{mul-le-mul_right}
use multi_protocol_proxy.Throttle.{
  ThrottledConn, token, second, new_throttled_conn, Side, CallStage, idle, in_io, waits, to_consume,
  Transfers, begin_transfers, stage_of, call_at, try_at, move_at, consume_at, TransferEvent, calls,
  moves, tries, consumes, passes, step_transfers, run_transfers,
}
use multi_protocol_proxy.Throttle.Waiting.{new_throttled_conn-IsNew}
use multi_protocol_proxy.Throttle.Moves.{spent, Moves-none}
use multi_protocol_proxy.Throttle.Kept.{
  debt-le, IsKept, step-IsKept, call-IsStep, try-IsStep, move-IsStep, fail-IsStep, consume-IsStep,
}

overall :
    (n s o b l k now r : ℕ)
    → l ≤ k
    → k ≤ now
    → n + s + l * r ≤ o + k * r
    → o ≤ b
    → n ≤ b + (now - l) * r
overall n s o b l k now r h h' cost owed =
    grind (arith, mul-le-mul_right r h', ap (λ x. x * r) (the_gap (omega arith)))
  where
    the_gap : l ≤ now → now ≡ (now - l) + l
    the_gap h = omega arith

-- No call on the wrapped connection moves more than `m` bytes.
abbrev pub IsSmall : ℕ → TransferEvent → Type 0
IsSmall m (moves side n) = positive n ≡ true → n ≤ m
IsSmall m _ = Unit {0}

call-IsKept :
    (m len : ℕ) (tc : ThrottledConn) (side : Side) (st : CallStage) (s : Transfers)
    → stage_of side s ≡ st
    → IsKept m tc s
    → IsKept m tc (call_at side st len s)
unfolding call_at
call-IsKept m len tc side idle s e k =
    step-IsKept m tc side idle (waits len s.now) s s e k (call-IsStep m s len k.cost.running k.read)
call-IsKept m len tc side in_io s e k = k
call-IsKept m len tc side (waits needed until) s e k = k
call-IsKept m len tc side (to_consume n) s e k = k

try-IsKept :
    (m : ℕ) (tc : ThrottledConn) (side : Side) (st : CallStage) (s : Transfers)
    → stage_of side s ≡ st
    → IsKept m tc s
    → IsKept m tc (try_at side st s)
unfolding try_at
try-IsKept m tc side idle s e k = k
try-IsKept m tc side in_io s e k = k
try-IsKept m tc side (waits needed until) s e k = elim (Bool-cases (leb until s.now)) [
  | inl awake ↦ rw awake (
      step-IsKept m tc side (waits needed until) _ s _ e k
        (try-IsStep m needed until _ s k.cost.running k.read))
  | inr asleep ↦ rw asleep k
]
try-IsKept m tc side (to_consume n) s e k = k

move-IsKept :
    (m n : ℕ) (tc : ThrottledConn) (side : Side) (st : CallStage) (s : Transfers)
    → (positive n ≡ true → n ≤ m)
    → stage_of side s ≡ st
    → IsKept m tc s
    → IsKept m tc (move_at side st n s)
unfolding move_at
move-IsKept m n tc side idle s small e k = k
move-IsKept m n tc side in_io s small e k = elim (Bool-cases (positive n)) [
  | inl some_bytes ↦ rw some_bytes (
      step-IsKept m tc side in_io (to_consume n) s _ e k
        (move-IsStep m n s (small some_bytes) k.cost.running k.read))
  | inr no_bytes ↦
      rw no_bytes (step-IsKept m tc side in_io idle s s e k (fail-IsStep m s k.cost.running k.read))
]
move-IsKept m n tc side (waits needed until) s small e k = k
move-IsKept m n tc side (to_consume j) s small e k = k

consume-IsKept :
    (m : ℕ) (tc : ThrottledConn) (side : Side) (st : CallStage) (s : Transfers)
    → stage_of side s ≡ st
    → IsKept m tc s
    → IsKept m tc (consume_at side st s)
unfolding consume_at
consume-IsKept m tc side idle s e k = k
consume-IsKept m tc side in_io s e k = k
consume-IsKept m tc side (waits needed until) s e k = k
consume-IsKept m tc side (to_consume n) s e k =
    step-IsKept m tc side (to_consume n) idle s _ e k (consume-IsStep m n s k.cost.running k.read)

step_transfers-IsKept :
    (m : ℕ) (tc : ThrottledConn) (s : Transfers) (ev : TransferEvent)
    → IsSmall m ev
    → IsKept m tc s
    → IsKept m tc (step_transfers s ev)
unfolding step_transfers
step_transfers-IsKept m tc s (calls side len) small k =
    call-IsKept m len tc side (stage_of side s) s refl k
step_transfers-IsKept m tc s (moves side n) small k =
    move-IsKept m n tc side (stage_of side s) s small refl k
step_transfers-IsKept m tc s (tries side) small k = try-IsKept m tc side (stage_of side s) s refl k
step_transfers-IsKept m tc s (consumes side) small k =
    consume-IsKept m tc side (stage_of side s) s refl k
step_transfers-IsKept m tc s (passes n) small k = record {
  consumed = k.consumed;
  cost = k.cost;
  counted = k.counted;
  owed = k.owed;
  small_read = k.small_read;
  small_write = k.small_write;
  read = omega (arith, k.read);
}

run_transfers-IsKept :
    (m : ℕ) (tc : ThrottledConn) (es : List TransferEvent) (s : Transfers)
    → All (IsSmall m) es
    → IsKept m tc s
    → IsKept m tc (run_transfers s es)
unfolding run_transfers
run_transfers-IsKept m tc [] s small k = k
run_transfers-IsKept m tc (e ∷ es) s small k =
    run_transfers-IsKept m tc es (step_transfers s e) small.1
      (step_transfers-IsKept m tc s e small.0 k)

-- What has been moved, where that holds.
moved-le :
    (m : ℕ) (tc : ThrottledConn) (s : Transfers)
    → IsKept m tc s
    → s.moved * token ≤ tc.max_tokens + (m + m) * token + (s.now - tc.last_refill) * tc.refill_rate
moved-le m tc s k =
    let passed =
      overall (k.consumed * token) (spent tc) (spent s.conn) (spent s.conn) tc.last_refill
        s.conn.last_refill s.now tc.refill_rate k.cost.later k.read k.cost.cost (omega arith) in
    let r = debt-le m s.reading in
    let w = debt-le m s.writing in omega (arith, passed, k.counted, k.owed, k.cost.same_max, r, w)

-- From a new connection for a plan of `speed` Mbps (131072 bytes a second for each), however the calls
-- of the two goroutines that use it, of which each moves at most `m` bytes, and their waits, transfers
-- and consumptions follow each other, at any time no more has moved than one second's burst, the
-- plan's rate times the time that has passed, and an overdraft of one buffer for each goroutine.
pub run_transfers-moved :
    (m speed start : ℕ) (tc : ThrottledConn) (es : List TransferEvent)
    → speed < word_mod
    → new_throttled_conn speed start ≡ some tc
    → All (IsSmall m) es
    → let s = run_transfers (begin_transfers tc start) es in
      s.moved * second
      ≤ speed * 131072 * second + (s.now - start) * (speed * 131072) + 2 * m * second
run_transfers-moved m speed start tc es w new small =
    let n = new_throttled_conn-IsNew speed start tc w new in
    let fresh : spent tc ≡ 0 = ap (below tc.max_tokens) n.full ∙ omega arith in
    let s = run_transfers (begin_transfers tc start) es in
    let kept = run_transfers-IsKept m tc es (begin_transfers tc start) small (record {
      consumed = 0;
      cost = Moves-none tc n.running;
      counted = refl;
      owed = omega (arith, fresh);
      small_read = omega arith;
      small_write = omega arith;
      read = omega (arith, n.since);
    }) in
    finish s.moved (s.now - start)
      (subst (λ l. s.moved * token ≤ tc.max_tokens + (m + m) * token + (s.now - l) * tc.refill_rate)
        n.since (moved-le m tc s kept))
      n.room n.rate
  where
    finish :
        (t g : ℕ)
        → t * token ≤ tc.max_tokens + (m + m) * token + g * tc.refill_rate
        → tc.max_tokens ≡ tc.refill_rate * token
        → tc.refill_rate ≡ speed * 131072
        → t * second ≤ speed * 131072 * second + g * (speed * 131072) + 2 * m * second
    finish t g b room rate = grind (arith, ap (λ r. g * r) rate)
