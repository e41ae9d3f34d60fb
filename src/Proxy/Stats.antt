-- ===== src/Proxy/Stats.antt =====
-- internal/proxy/stats.go and the gauge of internal/proxy/metrics.go. Counters are 64-bit words. The
-- success rate is in Report, and the JSON text is left out. `format_float` takes a fraction of whole
-- numbers: for fewer than 2^53 bytes the source's floats hold each step exactly.
use multi_protocol_proxy.Prelude.{
  ℕ, ◌-◌, ◌*◌, ◌/◌, ◌%◌, List, [], ◌∷◌, ◌++◌, Bytes, codes, length, drop, ltb, leb, slt, word_mod,
  half_mod, add64, sub64, if◌then◌else◌,
}
use multi_protocol_proxy.Decimal.{itoa}

pub record HistorySample : Type 0 where
  pub time : Bytes
  pub users : ℕ
  pub traffic : ℕ

-- `last_bytes` is the local variable of `backgroundUpdater`.
pub record StatsTracker : Type 0 where
  pub total_relays : ℕ
  pub total_bytes : ℕ
  pub total_errors : ℕ
  pub bytes_window : List ℕ
  pub history : List HistorySample
  pub last_bytes : ℕ

abbrev pub new_stats : StatsTracker
new_stats = record {
  total_relays = 0;
  total_bytes = 0;
  total_errors = 0;
  bytes_window = [];
  history = [];
  last_bytes = 0;
}

-- `append` to a window, which drops its first sample beyond `limit`.
unfoldable pub push {ℓ} : {A : Type ℓ} → ℕ → List A → A → List A
push limit window sample =
    let longer = window ++ (sample ∷ []) in
    if ltb limit (length longer) then drop 1 longer else longer

-- The case of the second's ticker in `backgroundUpdater`.
unfoldable pub tick_second : StatsTracker → StatsTracker
tick_second s = record s {
  last_bytes = s.total_bytes;
  bytes_window = push 60 s.bytes_window (sub64 s.total_bytes s.last_bytes);
}

-- The case of the hour's ticker.
unfoldable pub tick_hour : StatsTracker → Bytes → StatsTracker
tick_hour s time = record s {
  history =
      push 24 s.history (record { time = time; users = s.total_relays; traffic = s.total_bytes });
}

unfoldable pub record_relay : StatsTracker → StatsTracker
record_relay s = record s { total_relays = add64 s.total_relays 1 }

unfoldable pub record_bytes : StatsTracker → ℕ → StatsTracker
record_bytes s n = record s { total_bytes = add64 s.total_bytes n }

unfoldable pub record_error : StatsTracker → StatsTracker
record_error s = record s { total_errors = add64 s.total_errors 1 }

unfoldable pub get_history : StatsTracker → List HistorySample
get_history s = s.history

abbrev pub kb : ℕ
kb = 1024

abbrev pub mb : ℕ
mb = 1024 * 1024

abbrev pub gb : ℕ
gb = 1024 * 1024 * 1024

-- `formatFloat(float64(bytes) / float64(unit))`.
unfoldable pub format_float : ℕ → ℕ → Bytes
format_float bytes unit = itoa (bytes / unit) ++ (codes "." ++ itoa (bytes % unit * 10 / unit))

unfoldable pub format_bytes : ℕ → Bytes
format_bytes bytes =
    if slt bytes kb
    then itoa bytes ++ codes " B"
    else if slt bytes mb
    then format_float bytes kb ++ codes " KB"
    else if slt bytes gb
    then format_float bytes mb ++ codes " MB"
    else format_float bytes gb ++ codes " GB"

unfoldable pub sum64 : List ℕ → ℕ
sum64 [] = 0
sum64 (b ∷ bs) = add64 b (sum64 bs)

-- Division of signed words, by a positive number.
abbrev pub div64 : ℕ → ℕ → ℕ
div64 a n = if ltb a half_mod then a / n else sub64 0 ((word_mod - a) / n)

unfoldable pub get_throughput : StatsTracker → Bytes
get_throughput s =
    let n = length s.bytes_window in
    if leb n 0 then codes "0 B/s" else format_bytes (div64 (sum64 s.bytes_window) n) ++ codes "/s"

-- `gaugeWrapper`: the count behind the gauge.
unfoldable pub gauge_inc : ℕ → ℕ
gauge_inc count = add64 count 1

unfoldable pub gauge_dec : ℕ → ℕ
gauge_dec count = sub64 count 1
