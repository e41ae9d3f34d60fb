-- ===== src/Tracker/Admission.antt =====
-- The two checks of internal/bandwidth/tracker.go that both servers make before they count a
-- connection.
use multi_protocol_proxy.Prelude.{Option, none, some, true, Bytes, ◌≡◌}
use multi_protocol_proxy.Auth.{User}
use multi_protocol_proxy.Tracker.{Tracker, Moment, check_allowance, check_conn_limit}

-- Where there is a tracker, the name is within its bandwidth and then within its connections.
abbrev pub IsAllowed : Option Tracker → Bytes → User → Moment → Type 0
IsAllowed none username user m = Unit {0}
IsAllowed (some t) username user m =
    let (t', within) = check_allowance t username user.bandwidth_limit_gb m in
    (within ≡ true) × ((check_conn_limit t' username user.max_connections m).1 ≡ true)
