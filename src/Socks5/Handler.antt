-- ===== src/Socks5/Handler.antt =====
-- `handleConnection` of internal/socks5/server.go, from the accepted connection to its end.
-- Each `defer` is a step behind the call that it guards.
use mathlib.Core.Option
use multi_protocol_proxy.Prelude.{
  ℕ, Bool, true, false, not, ◌&&◌, [], ◌∷◌, ◌++◌, Option, none, some, Bytes, codes, str_eq,
  positive, is_some, if◌then◌else◌,
}
use multi_protocol_proxy.Host.{Host}
use multi_protocol_proxy.Auth.{
  User, check_ip_allowed, get_user, is_super_admin_ip, check_rate_limit, check_expiry,
}
use multi_protocol_proxy.Tracker.{
  Moment, check_allowance, check_conn_limit, increment_conns, decrement_conns, record_bytes,
}
use multi_protocol_proxy.Socks5.Wire.{
  Event, dialed, auth_failure, rate_limited, error_count, connection_count, active_up, active_down,
  relaying, bytes_counted, Session, done, failed, TcpAddr, reply_succeeded, reply_host_unreachable,
  reply_bytes, wrote, handle_method_negotiation, handle_request,
}

-- How the two copies of the relay stand when the first of them ends: the bytes that each has
-- copied, and whether it has ended. Only a copy that has ended has stored its count.
pub record Relay : Type 0 where
  pub up : ℕ
  pub down : ℕ
  pub up_ended : Bool
  pub down_ended : Bool

-- What the handler finds in the world. `dial` gives the local address of the connection to the
-- target, `none` for an error.
pub record World : Type 0 where
  pub host : Host
  pub client_ip : Bytes
  pub now : ℕ
  pub moment : Moment
  pub later : Moment
  pub dial : Bytes → Option TcpAddr
  pub relay : Relay

abbrev pub put : Event → Session → Session
put e s = record s { trace = s.trace ++ (e ∷ []) }

unfoldable pub is_super_admin : World → Session → Option User → Bool
is_super_admin w s none = false
is_super_admin w s (some user) =
    str_eq user.role (codes "super_admin") && is_some (is_super_admin_ip w.host s.store w.client_ip)

-- The checks that a super admin skips, in the source's order. A check that fails ends the
-- connection; `false` says so.
unfoldable pub within_conns : World → Bytes → User → Session → Session × Bool
within_conns w username user s = elim s.tracker [
  | none ↦ (s, true)
  | some t ↦
      let (t', passed) = check_conn_limit t username user.max_connections w.moment in
      (record s { tracker = some t' }, passed)
]

unfoldable pub within_allowance : World → Bytes → User → Session → Session × Bool
within_allowance w username user s = elim s.tracker [
  | none ↦ (s, true)
  | some t ↦
      let (t', passed) = check_allowance t username user.bandwidth_limit_gb w.moment in
      (record s { tracker = some t' }, passed)
]

-- The checks of a listed user behind the rate limit.
unfoldable pub account_checks : World → Bytes → Option User → Session → Session × Bool
account_checks w username none s = (s, true)
account_checks w username (some user) s =
    if not (check_expiry w.host s.store username w.now)
    then (s, false)
    else let (s', passed) = within_allowance w username user s in
      if not passed then (s', false) else within_conns w username user s'

unfoldable pub checks : World → Bytes → Option User → Session → Session × Bool
checks w username user s =
    let (store, passed) = check_rate_limit s.store username w.now in
    let s' : Session = record s { store = store } in
    if not passed
    then (put (rate_limited username) s', false)
    else account_checks w username user s'

unfoldable pub admission : World → Bytes → Option User → Session → Session × Bool
admission w username user s =
    if is_super_admin w s user then (s, true) else checks w username user s

unfoldable pub speed_limit : Option User → Option ℕ
speed_limit none = none
speed_limit (some user) =
    if positive user.bandwidth_speed_mbps then some user.bandwidth_speed_mbps else none

-- The count that `upBytes` or `downBytes` holds after `<-done`.
abbrev pub stored : Bool → ℕ → ℕ
stored ended n = if ended then n else 0

-- From the answered request on.
unfoldable pub relay : World → Bytes → Option User → Session → Session
relay w username user s =
    let up = stored w.relay.up_ended w.relay.up in
    let down = stored w.relay.down_ended w.relay.down in
    let s' =
      put (bytes_counted username up down)
        (put (relaying (speed_limit user)) (put (connection_count username) s)) in
    record s' { tracker = Option.map (λ t. record_bytes t username up down w.later) s'.tracker }

unfoldable pub connect : World → Bytes → Option User → Bytes → Session → Session
connect w username user target s = elim (w.dial target) [
  | none ↦
      put (error_count (codes "dial_failed"))
        (put (wrote (reply_bytes reply_host_unreachable none)) (put (dialed target) s))
  | some local ↦
      relay w username user
        (put (wrote (reply_bytes reply_succeeded (some local))) (put (dialed target) s))
]

unfoldable pub serve_request : World → Bytes → Option User → Session → Session
serve_request w username user s = elim (handle_request w.host s) [
  | failed e s' ↦ s'
  | done target s' ↦ connect w username user target s'
]

-- `IncrementConns` and its deferred `DecrementConns` around the request.
unfoldable pub counted : World → Bytes → Option User → Session → Session
counted w username user s =
    let s1 : Session = record s {
      tracker = Option.map (λ t. increment_conns t username w.moment) s.tracker;
    } in
    let s2 = serve_request w username user s1 in
    record s2 { tracker = Option.map (λ t. decrement_conns t username w.later) s2.tracker }

-- From the negotiated user name on.
unfoldable pub authorized : World → Bytes → Session → Session
authorized w username s =
    let user = get_user s.store username in
    let (s', passed) = admission w username user s in
    if passed then counted w username user s' else s'

-- From the accepted address on.
unfoldable pub negotiated : World → Session → Session
negotiated w s = elim (handle_method_negotiation w.host w.now s) [
  | failed e s' ↦ s'
  | done username s' ↦ authorized w username s'
]

unfoldable pub handle_connection : World → Session → Session
handle_connection w s =
    if not (check_ip_allowed w.host s.store w.client_ip)
    then put (auth_failure (codes "ip_blocked")) s
    else put active_down (negotiated w (put active_up s))
