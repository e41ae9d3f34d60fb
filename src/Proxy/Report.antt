-- ===== src/Proxy/Report.antt =====
-- What internal/proxy/stats.go and metrics.go answer: the success rate, the statistics, the history
-- and the routes of the metrics server. A rate is a number of tenths of a percent, rounded exactly;
-- the source's floats hold the fraction in 53 bits. Times are in nanoseconds.
use native.Mathlib.Nat.{mod-lt, mul_right_comm, div-lt_iff_lt-mul}
use native.Mathlib.Omega.{div_any}
use multi_protocol_proxy.Prelude.{
  ℕ, zero, suc, ◌+◌, ◌-◌, ◌*◌, ◌/◌, ◌≤◌, ◌<◌, Bool, List, [], ◌∷◌, Bytes, codes, ◌==◌, length,
  add64, word_mod, if◌then◌else◌, ◌≡◌, sym, ap, ◌∙◌, subst, arith,
}
use multi_protocol_proxy.Throttle.{second}
use multi_protocol_proxy.Proxy.Stats.{StatsTracker, HistorySample, get_throughput, get_history}

-- `GetSuccessRate`, for counts whose sum does not pass 2^63: `math.Round` of a number of tenths.
unfoldable pub get_success_rate : StatsTracker → ℕ
get_success_rate s =
    let total = add64 s.total_relays s.total_errors in
    if total == 0 then 1000 else (s.total_relays * 2000 + total) / (total * 2)

pub record StatsResponse : Type 0 where
  pub total_users : ℕ
  pub active_connections : ℕ
  pub uptime_seconds : ℕ
  pub data_throughput : Bytes
  pub latency : ℕ
  pub success_rate : ℕ

-- `active` is the count of the gauge, `uptime` the time since the start.
unfoldable pub get_stats : StatsTracker → ℕ → ℕ → StatsResponse
unfolding get_success_rate get_throughput
get_stats s active uptime = record {
  total_users = s.total_relays;
  active_connections = active;
  uptime_seconds = uptime / second;
  data_throughput = get_throughput s;
  latency = 18;
  success_rate = get_success_rate s;
}

abbrev pub hour : ℕ
hour = 3600 * second

-- The loop of `generateInitialHistory` from `i` hours ago on. `format` is `Format("15:04")`.
unfoldable pub empty_hours : (ℕ → Bytes) → ℕ → ℕ → List HistorySample
empty_hours format now zero = []
empty_hours format now (suc i) =
    record { time = format (now - i * hour); users = 0; traffic = 0 } ∷ empty_hours format now i

unfoldable pub generate_initial_history : (ℕ → Bytes) → ℕ → List HistorySample
unfolding empty_hours
generate_initial_history format now = empty_hours format now 24

-- The samples that `HistoryHandler` encodes.
unfoldable pub reported_history : (ℕ → Bytes) → ℕ → StatsTracker → List HistorySample
unfolding generate_initial_history get_history
reported_history format now s =
    let history = get_history s in
    if length history == 0 then generate_initial_history format now else history

-- The handlers of the metrics server, by the path of each. There is one for the usage where
-- `usage_handler` is not nil.
pub data Route : Type 0 where
  metrics stats history usage : Route

unfoldable pub new_metrics_server : Bool → List (Bytes × Route)
new_metrics_server usage_handler =
    (codes "/metrics", metrics)
    ∷ (codes "/api/stats", stats)
    ∷ (codes "/api/history", history)
    ∷ (if usage_handler then (codes "/api/usage", usage) ∷ [] else [])

-- A rate of `q` tenths is nearest to `relays` of `total`.
abbrev pub IsNearest : ℕ → ℕ → ℕ → Type 0
IsNearest q relays total =
    (2 * (total * q) ≤ 2000 * relays + total) × (2000 * relays < 2 * (total * q) + total)

round-IsNearest : (r t : ℕ) → 0 < t → IsNearest ((r * 2000 + t) / (t * 2)) r t
round-IsNearest r t positive =
    let q = (r * 2000 + t) / (t * 2) in
    let whole = div_any (r * 2000 + t) (t * 2) in
    let small = mod-lt (r * 2000 + t) {m = t * 2} (omega (arith, positive)) in
    let same = mul_right_comm t 2 q in
    (omega (arith, whole, small, same), omega (arith, whole, small, same))

round-le : (r t : ℕ) → r ≤ t → 0 < t → (r * 2000 + t) / (t * 2) ≤ 1000
round-le r t part positive =
    let below =
      (div-lt_iff_lt-mul {k = t * 2} {x = r * 2000 + t} {y = 1001} (omega (arith, positive))).1
        (omega (arith, part, positive)) in
    omega (arith, below)

counted-rate :
    (r t : ℕ)
    → 0 < t
    → (if t == 0 then 1000 else (r * 2000 + t) / (t * 2)) ≡ (r * 2000 + t) / (t * 2)
counted-rate r t some_counted = ground (arith, some_counted)

-- Once something is counted, the rate is the tenth of a percent nearest to the share of the relays,
-- halves rounded up, and it is at most a hundred percent.
pub get_success_rate-IsNearest :
    (s : StatsTracker)
    → 0 < s.total_relays + s.total_errors
    → s.total_relays + s.total_errors < word_mod
    → IsNearest (get_success_rate s) s.total_relays (s.total_relays + s.total_errors)
      × (get_success_rate s ≤ 1000)
unfolding get_success_rate
get_success_rate-IsNearest s some_counted small =
    let r = s.total_relays in
    let t = r + s.total_errors in
    let whole : add64 r s.total_errors ≡ t = omega (arith, small) in
    let rounded : get_success_rate s ≡ (r * 2000 + t) / (t * 2) =
      ap (λ total. if total == 0 then 1000 else (r * 2000 + total) / (total * 2)) whole
      ∙ counted-rate r t some_counted in
    subst (λ q. IsNearest q r t × (q ≤ 1000)) (sym rounded)
      (round-IsNearest r t some_counted, round-le r t (omega arith) some_counted)

-- The history that is reported has at least one sample, and at most 24 where the window has.
pub reported_history-length :
    (format : ℕ → Bytes) (now : ℕ) (s : StatsTracker)
    → length s.history ≤ 24
    → (0 < length (reported_history format now s)) × (length (reported_history format now s) ≤ 24)
unfolding reported_history generate_initial_history empty_hours get_history
reported_history-length format now s room = ground (arith, room)
