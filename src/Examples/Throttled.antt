-- ===== src/Examples/Throttled.antt =====
-- The theorems on throttled connections at concrete inputs.
use multi_protocol_proxy.Prelude.{
  ℕ, ◌+◌, ◌-◌, ◌*◌, ◌^◌, ◌≤◌, true, List, [], ◌∷◌, some, ◌≡◌, refl, arith, pos, reaches,
}
use multi_protocol_proxy.Throttle.{
  ThrottledConn, token, second, new_throttled_conn, wait_for_tokens, reader, writer, TransferEvent,
  calls, moves, tries, consumes, passes, begin_transfers, run_transfers, try_at, refill,
  wait_duration,
}
use multi_protocol_proxy.Throttle.Waiting.{IsRunning, wait_for_tokens-returns}
use multi_protocol_proxy.Throttle.Throughput.{run_transfers-moved}

-- One Mbps, with nothing left at time 0.
abbrev drained : ThrottledConn
drained = record {
  tokens = pos 0;
  max_tokens = 131072 * 10 ^ 9;
  refill_rate = 131072;
  last_refill = 0;
}

drained-IsRunning : IsRunning drained
drained-IsRunning = record { flows = omega arith; holds = omega arith; bounded = refl }

wait_for_tokens-returns_example :
    (r : ThrottledConn × ℕ) × (wait_for_tokens 2 (λ round. 5) drained 4096 0 ≡ some r)
    × (reaches r.0.tokens token ≡ true)
wait_for_tokens-returns_example =
    wait_for_tokens-returns 1 (λ round. 5) drained 4096 0 drained-IsRunning (omega arith)

-- Both goroutines pass `waitForTokens`, both move a buffer, and only then do they consume.
abbrev both_at_once : List TransferEvent
both_at_once =
    calls reader 8192
    ∷ calls writer 4096
    ∷ tries reader
    ∷ tries writer
    ∷ moves reader 8192
    ∷ passes 10
    ∷ moves writer 4096
    ∷ consumes writer
    ∷ consumes reader
    ∷ []

abbrev full : ThrottledConn
full = record drained { tokens = pos (131072 * 10 ^ 9) }

both_moved : (run_transfers (begin_transfers full 0) both_at_once).moved ≡ 12288
unfolding run_transfers try_at refill wait_duration
both_moved = refl

run_transfers-moved_example :
    let s = run_transfers (begin_transfers full 0) both_at_once in
    s.moved * second ≤ 1 * 131072 * second + (s.now - 0) * (1 * 131072) + 2 * 8192 * second
unfolding new_throttled_conn
run_transfers-moved_example =
    run_transfers-moved 8192 1 0 full both_at_once (omega arith) refl
      (tt, (tt, (tt, (tt, ((λ _. omega arith), (tt, ((λ _. omega arith), (tt, (tt, tt)))))))))
