-- ===== src/Tracker/Balance.antt =====
-- The counters of internal/bandwidth/tracker.go under any history of calls.
use multi_protocol_proxy.Prelude.{ℕ, List, [], ◌∷◌, none, Bytes, ◌≡◌, arith, add64}
use multi_protocol_proxy.Tracker.{
  Tracker, Moment, record_bytes, check_allowance, get_usage, increment_conns, decrement_conns,
  check_conn_limit, save_to_disk, new_tracker,
}
use multi_protocol_proxy.Tracker.View.{
  view, record_bytes-view, check_allowance-view, get_usage-view, increment_conns-view,
  decrement_conns-view, check_conn_limit-view, save_to_disk-view, new_tracker-view,
}

-- The total of every name is the sum of its two directions, modulo 2^64.
abbrev pub IsBalanced : Tracker → Type 0
IsBalanced t = (k : Bytes) → (view t k).total ≡ add64 (view t k).up (view t k).down

-- The calls of the methods that write a tracker.
pub data Call : Type 0 where
  records : Bytes → ℕ → ℕ → Call
  allowances : Bytes → ℕ → Call
  usages : Bytes → Call
  increments decrements : Bytes → Call
  limits : Bytes → ℕ → Call
  saves : Call

unfoldable pub step : Tracker → Moment × Call → Tracker
step t (m, records u up down) = record_bytes t u up down m
step t (m, allowances u gb) = (check_allowance t u gb m).0
step t (m, usages u) = (get_usage t u m).0
step t (m, increments u) = increment_conns t u m
step t (m, decrements u) = decrement_conns t u m
step t (m, limits u n) = (check_conn_limit t u n m).0
step t (m, saves) = save_to_disk t m

unfoldable pub run : Tracker → List (Moment × Call) → Tracker
run t [] = t
run t (c ∷ cs) = run (step t c) cs

-- Every call keeps each name balanced.
pub step-IsBalanced : (t : Tracker) (c : Moment × Call) → IsBalanced t → IsBalanced (step t c)
unfolding step
step-IsBalanced t (m, records u up down) b k =
    rw (record_bytes-view t u k up down m) (ground (arith, b k))
step-IsBalanced t (m, allowances u gb) b k =
    rw (check_allowance-view t u k gb m) (ground (arith, b k))
step-IsBalanced t (m, usages u) b k = rw (get_usage-view t u k m) (b k)
step-IsBalanced t (m, increments u) b k = rw (increment_conns-view t u k m) (ground (arith, b k))
step-IsBalanced t (m, decrements u) b k = rw (decrement_conns-view t u k m) (ground (arith, b k))
step-IsBalanced t (m, limits u n) b k = rw (check_conn_limit-view t u k n m) (b k)
step-IsBalanced t (m, saves) b k = rw (save_to_disk-view t k m) (b k)

run-IsBalanced : (t : Tracker) (cs : List (Moment × Call)) → IsBalanced t → IsBalanced (run t cs)
unfolding run
run-IsBalanced t [] b = b
run-IsBalanced t (c ∷ cs) b = run-IsBalanced (step t c) cs (step-IsBalanced t c b)

-- Under every history of calls, a tracker that starts with no usage file has, for each name, a
-- total that is the sum of its bytes up and down, modulo 2^64.
pub run-new_tracker-IsBalanced :
    (m : Moment) (cs : List (Moment × Call)) → IsBalanced (run (new_tracker none m) cs)
run-new_tracker-IsBalanced m cs =
    run-IsBalanced (new_tracker none m) cs λ k. rw (new_tracker-view m k) (omega arith)
