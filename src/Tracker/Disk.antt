-- ===== src/Tracker/Disk.antt =====
-- What a restart restores from the usage file of internal/bandwidth/tracker.go.
use multi_protocol_proxy.Prelude.{
  true, [], none, Bytes, ◌≡◌, refl, arith, str_eq, lookup, lookup-map_values, if◌then◌else◌,
  Option-cases, inl, inr,
}
use multi_protocol_proxy.Tracker.{Tracker, UserUsage, Moment, new_tracker, stop}
use multi_protocol_proxy.Tracker.View.{counters_or_zero, view}

lookup-nil : (k : Bytes) → lookup {V = UserUsage} k [] ≡ none
unfolding lookup
lookup-nil k = refl

-- A tracker that stops with the file writable, and starts again in the same month, has the bytes
-- of every name, and no connections; in any other month it starts from zero.
pub new_tracker-stop :
    (t : Tracker) (m m' : Moment) (k : Bytes)
    → m.writable ≡ true
    → view (new_tracker (stop t m).disk m') k
      ≡ (if str_eq t.month m'.month then record (view t k) { conns = 0 } else counters_or_zero none)
unfolding new_tracker stop view
new_tracker-stop t m m' k w = elim (Option-cases (lookup k t.users)) [
  | inl e ↦ ground (
    arith,
    lookup-map_values (λ (u : UserUsage). record u { active_conns = 0 }) k t.users,
    lookup-nil k,
  )
  | inr (x, e) ↦ ground (
    arith,
    lookup-map_values (λ (u : UserUsage). record u { active_conns = 0 }) k t.users,
    lookup-nil k,
  )
]
