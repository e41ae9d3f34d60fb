-- ===== src/Examples/Counters.antt =====
-- The theorems on counters, limits and windows at concrete inputs.
use multi_protocol_proxy.Prelude.{
  suc, ◌+◌, ◌*◌, ◌^◌, ◌≤◌, ◌<◌, true, [], ◌∷◌, ◌++◌, none, codes, str_eq, lookup, ◌≡◌, ◌↔◌, refl,
  arith, if◌then◌else◌,
}
use multi_protocol_proxy.Tracker.{check_allowance, new_tracker, stop}
use multi_protocol_proxy.Tracker.View.{view, after_reset, check_allowance_iff, counters_or_zero}
use multi_protocol_proxy.Tracker.Balance.{
  records, increments, IsBalanced, run, run-new_tracker-IsBalanced,
}
use multi_protocol_proxy.Tracker.Conns.{
  conns, opens, play, play-le-max, interleaved, interleaved_exceeds,
}
use multi_protocol_proxy.Tracker.Disk.{new_tracker-stop}
use multi_protocol_proxy.Pac.{Handler, new_handler}
use multi_protocol_proxy.Pac.Limit.{passes, requests, min, window-passes}
use multi_protocol_proxy.Proxy.Stats.{new_stats}
use multi_protocol_proxy.Proxy.Window.{last, seconds, seconds-last}
use multi_protocol_proxy.Proxy.Accept.{}
use multi_protocol_proxy.Examples.Data.{may, june, one_usage}

run-new_tracker-IsBalanced_example : IsBalanced (
    run
      (new_tracker none may)
      ((may, increments (codes "a")) ∷ (june, records (codes "a") 3 4) ∷ []))
run-new_tracker-IsBalanced_example =
    run-new_tracker-IsBalanced may
      ((may, increments (codes "a")) ∷ (june, records (codes "a") 3 4) ∷ [])

check_allowance_iff_example :
    ((check_allowance one_usage (codes "alice") 1 may).1 ≡ true)
    ↔ ((after_reset one_usage may (codes "alice")).total < 1 * 2 ^ 30)
unfolding view str_eq lookup
check_allowance_iff_example =
    check_allowance_iff one_usage (codes "alice") 1 may (omega arith) (omega arith) (omega arith)

play-le-max_example :
    conns (play one_usage (codes "alice") 2 ((may, opens) ∷ (may, opens) ∷ [])) (codes "alice") ≤ 2
unfolding view str_eq lookup
play-le-max_example =
    play-le-max (codes "alice") 2 ((may, opens) ∷ (may, opens) ∷ []) one_usage (omega arith)
      (omega arith) (omega arith)

interleaved_exceeds_example :
    ((interleaved one_usage (codes "alice") 2 may).1 ≡ true)
    × ((interleaved one_usage (codes "alice") 2 may).2 ≡ true)
    × (conns (interleaved one_usage (codes "alice") 2 may).0 (codes "alice") ≡ 2 + 1)
unfolding view str_eq lookup
interleaved_exceeds_example = interleaved_exceeds one_usage (codes "alice") 2 may (omega arith) refl

new_tracker-stop_example : view (new_tracker (stop one_usage may).disk may) (codes "alice") ≡ (
    if str_eq one_usage.month may.month
    then record (view one_usage (codes "alice")) { conns = 0 }
    else counters_or_zero none)
new_tracker-stop_example = new_tracker-stop one_usage may may (codes "alice") refl

abbrev pac_handler : Handler
pac_handler = new_handler (record {
  enabled = true;
  proxy_host = codes "proxy";
  http_port = codes "8080";
  socks5_port = codes "1080";
  token = [];
  default_user = [];
  rate_limit_rpm = 2;
})

window-passes_example :
    passes pac_handler
      (codes "a")
      ((codes "a", 5) ∷ (codes "a", 6) ∷ (codes "b", 7) ∷ (codes "a", 8) ∷ [])
    ≡ min (suc (requests (codes "a") ((codes "a", 6) ∷ (codes "b", 7) ∷ (codes "a", 8) ∷ []))) 2
unfolding lookup
window-passes_example =
    window-passes pac_handler (codes "a") 5 ((codes "a", 6) ∷ (codes "b", 7) ∷ (codes "a", 8) ∷ [])
      (omega arith) (omega arith) refl (omega arith, (omega arith, (omega arith, tt)))

seconds-last_example : (seconds new_stats (3 ∷ 4 ∷ [])).bytes_window ≡ last 60 ([] ++ (3 ∷ 4 ∷ []))
seconds-last_example =
    seconds-last new_stats (3 ∷ 4 ∷ []) (omega arith) refl (omega arith)
      (omega arith, (omega arith, tt))
