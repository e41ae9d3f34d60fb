-- ===== src/Throttle.antt =====
-- internal/bandwidth/throttle.go: a connection that transfers no faster than its user's plan.
-- Tokens are bytes there, as floating-point numbers; here a token is 10^9 units, and all is exact.
-- Times are in nanoseconds, so that `refillRate` is a number of units for each nanosecond.
pub mod Waiting
pub mod Moves
pub mod Kept
pub mod Throughput
use multi_protocol_proxy.Prelude.{
  ℕ, zero, suc, ◌+◌, ◌-◌, ◌*◌, ◌/◌, ◌^◌, Bool, true, false, List, [], ◌∷◌, Option, none, some, ltb,
  leb, positive, if◌then◌else◌, ℤ, pos, negsuc, plus, minus, reaches, below, at_most,
}

-- The wrapped `net.Conn` is a parameter of the operations: the number of bytes that it transfers.
pub record ThrottledConn : Type 0 where
  pub tokens : ℤ
  pub max_tokens : ℕ
  pub refill_rate : ℕ
  pub last_refill : ℕ

-- One byte.
abbrev pub token : ℕ
token = 10 ^ 9

abbrev pub second : ℕ
second = 10 ^ 9

abbrev pub millisecond : ℕ
millisecond = 10 ^ 6

-- `none` is the connection itself, without a limit. One second's bytes are the burst.
unfoldable pub new_throttled_conn : ℕ → ℕ → Option ThrottledConn
new_throttled_conn speed_mbps now =
    if positive speed_mbps
    then (let bytes_per_sec = speed_mbps * 1024 * 1024 / 8 in
        some (record {
          tokens = pos (bytes_per_sec * token);
          max_tokens = bytes_per_sec * token;
          refill_rate = bytes_per_sec;
          last_refill = now;
        }))
    else none

unfoldable pub refill : ThrottledConn → ℕ → ThrottledConn
refill tc now =
    let elapsed = now - tc.last_refill in
    record tc {
      tokens = at_most (plus tc.tokens (elapsed * tc.refill_rate)) tc.max_tokens;
      last_refill = now;
    }

unfoldable pub consume_tokens : ThrottledConn → ℕ → ThrottledConn
consume_tokens tc n = record tc { tokens = minus tc.tokens (n * token) }

-- How long the loop sleeps when `needed` bytes are wanted.
unfoldable pub wait_duration : ThrottledConn → ℕ → ℕ
wait_duration tc needed =
    let lacking = below (needed * token) tc.tokens in
    let deficit = if ltb lacking token then token else lacking in
    let wait = deficit / tc.refill_rate in
    let wait = if ltb wait millisecond then millisecond else wait in
    if ltb (100 * millisecond) wait then 100 * millisecond else wait

-- The loop, with the connection and the time at which it returns. A sleep lasts as long as it is
-- told to and some more, which `late` gives for each round.
unfoldable pub wait_for_tokens : ℕ → (ℕ → ℕ) → ThrottledConn → ℕ → ℕ → Option (ThrottledConn × ℕ)
unfolding refill wait_duration
wait_for_tokens zero late tc needed now = none
wait_for_tokens (suc fuel) late tc needed now =
    let tc' = refill tc now in
    let rest = wait_for_tokens fuel late tc' needed (now + wait_duration tc' needed + late fuel) in
    if reaches tc'.tokens token then some (tc', now) else rest

-- The two goroutines of a relay use the connection at once: one reads, the other writes.
pub data Side : Type 0 where
  reader writer : Side

-- Where the call of a goroutine is, between its critical sections: in `waitForTokens`, for a buffer of
-- some length, and asleep until a time; in the call on the wrapped connection; and before
-- `consumeTokens` of the bytes that this has moved. `Read` and `Write` differ only in what they call on
-- the wrapped connection.
pub data CallStage : Type 0 where
  idle in_io : CallStage
  waits : ℕ → ℕ → CallStage
  to_consume : ℕ → CallStage

-- `moved` are the bytes that the wrapped connection has moved so far.
pub record Transfers : Type 0 where
  pub conn : ThrottledConn
  pub reading : CallStage
  pub writing : CallStage
  pub now : ℕ
  pub moved : ℕ

abbrev pub begin_transfers : ThrottledConn → ℕ → Transfers
begin_transfers tc now = record { conn = tc; reading = idle; writing = idle; now = now; moved = 0 }

abbrev pub stage_of : Side → Transfers → CallStage
stage_of reader s = s.reading
stage_of writer s = s.writing

abbrev pub put_stage : Side → CallStage → Transfers → Transfers
put_stage reader st s = record s { reading = st }
put_stage writer st s = record s { writing = st }

-- A call with a buffer of some length.
unfoldable pub call_at : Side → CallStage → ℕ → Transfers → Transfers
call_at side idle len s = put_stage side (waits len s.now) s
call_at side in_io len s = s
call_at side (waits needed until) len s = s
call_at side (to_consume n) len s = s

-- A round of `waitForTokens`, of which the part under the mutex is one step: the sleep behind it
-- lasts as long as it is told to, or longer.
unfoldable pub try_at : Side → CallStage → Transfers → Transfers
unfolding refill wait_duration
try_at side idle s = s
try_at side in_io s = s
try_at side (waits needed until) s =
    let tc = refill s.conn s.now in
    if leb until s.now
    then put_stage side
        (if reaches tc.tokens token then in_io else waits needed (s.now + wait_duration tc needed))
        (record s { conn = tc })
    else s
try_at side (to_consume n) s = s

-- The wrapped connection has moved `n` bytes, or none and an error.
unfoldable pub move_at : Side → CallStage → ℕ → Transfers → Transfers
move_at side idle n s = s
move_at side in_io n s =
    if positive n
    then put_stage side (to_consume n) (record s { moved = s.moved + n })
    else put_stage side idle s
move_at side (waits needed until) n s = s
move_at side (to_consume k) n s = s

unfoldable pub consume_at : Side → CallStage → Transfers → Transfers
unfolding consume_tokens
consume_at side idle s = s
consume_at side in_io s = s
consume_at side (waits needed until) s = s
consume_at side (to_consume n) s = put_stage side idle (record s { conn = consume_tokens s.conn n })

-- A goroutine calls, takes its turn in `waitForTokens`, has its call on the wrapped connection return,
-- or consumes; or time passes.
pub data TransferEvent : Type 0 where
  calls moves : Side → ℕ → TransferEvent
  tries consumes : Side → TransferEvent
  passes : ℕ → TransferEvent

unfoldable pub step_transfers : Transfers → TransferEvent → Transfers
unfolding call_at try_at move_at consume_at
step_transfers s (calls side len) = call_at side (stage_of side s) len s
step_transfers s (moves side n) = move_at side (stage_of side s) n s
step_transfers s (tries side) = try_at side (stage_of side s) s
step_transfers s (consumes side) = consume_at side (stage_of side s) s
step_transfers s (passes n) = record s { now = s.now + n }

unfoldable pub run_transfers : Transfers → List TransferEvent → Transfers
unfolding step_transfers
run_transfers s [] = s
run_transfers s (e ∷ es) = run_transfers (step_transfers s e) es
