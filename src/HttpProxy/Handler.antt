-- ===== src/HttpProxy/Handler.antt =====
-- `handleRequest`, `handleConnect` and `handleHTTP` of internal/httpproxy/server.go. The state
-- holds the user store and the tracker that the servers share, and the trace of what the handler
-- does. Each `defer` is a step behind the call that it guards. Log lines are left out.
use mathlib.Core.Option
use multi_protocol_proxy.Prelude.{
  ℕ, Bool, true, false, not, ◌&&◌, ◌||◌, List, [], ◌∷◌, ◌++◌, Option, none, some, Bytes, codes,
  str_eq, contains_byte, positive, is_some, if◌then◌else◌,
}
use multi_protocol_proxy.Host.{Host}
use multi_protocol_proxy.Auth.{
  User, UserStore, check_ip_allowed, validate_credentials, is_super_admin_ip, check_rate_limit,
  check_expiry,
}
use multi_protocol_proxy.Tracker.{
  Tracker, Moment, check_allowance, check_conn_limit, increment_conns, decrement_conns,
  record_bytes,
}
use multi_protocol_proxy.HttpProxy.Headers.{
  Header, header_del, parse_proxy_auth, remove_hop_by_hop_headers,
}

-- What the handler does, in order. `refused` is `http.Error`.
pub data Event : Type 0 where
  refused : ℕ → Bytes → Event
  challenged : Event
  auth_failure rate_limited error_count : Bytes → Event
  request_count : Bytes → Bytes → Event
  active_up active_down : Event
  pac_answered : ℕ → Bytes → Event
  dialed : Bytes → Event
  established : Event
  -- both directions run, throttled to so many Mbps where there is a limit
  relaying : Option ℕ → Event
  forwarded : Header → Event
  answered : ℕ → Header → Event
  bytes_counted : Bytes → ℕ → ℕ → Event

pub record State : Type 0 where
  pub store : UserStore
  pub tracker : Option Tracker
  pub trace : List Event

pub record Request : Type 0 where
  pub path : Bytes
  pub request_uri : Bytes
  pub remote_addr : Bytes
  pub method : Bytes
  pub host : Bytes
  -- `r.URL.IsAbs()`
  pub absolute : Bool
  pub header : Header

-- What `w.(http.Hijacker)` and `Hijack()` come to.
pub data Hijack : Type 0 where
  unsupported failing hijacked : Hijack

-- The answer of the target: the status, the header and the bytes that `io.Copy` writes.
pub record Answer : Type 0 where
  pub status : ℕ
  pub header : Header
  pub written : ℕ

-- What the handler finds in the world. `pac_handler` is none where `s.pacHandler` is nil; `dial`
-- says whether the target answers; `round_trip` is none for an error; `up` and `down` are the
-- bytes that the two copies have carried when both have ended.
pub record World : Type 0 where
  pub host : Host
  pub now : ℕ
  pub moment : Moment
  pub later : Moment
  pub pac_handler : Option (UserStore → UserStore × (ℕ × Bytes))
  pub dial : Bytes → Bool
  pub hijack : Hijack
  pub round_trip : Header → Option Answer
  pub up : ℕ
  pub down : ℕ

abbrev pub put : Event → State → State
put e s = record s { trace = s.trace ++ (e ∷ []) }

abbrev status_bad_request : ℕ
status_bad_request = 400

abbrev status_forbidden : ℕ
status_forbidden = 403

abbrev status_proxy_auth_required : ℕ
status_proxy_auth_required = 407

abbrev status_too_many_requests : ℕ
status_too_many_requests = 429

abbrev status_internal_server_error : ℕ
status_internal_server_error = 500

abbrev status_bad_gateway : ℕ
status_bad_gateway = 502

abbrev pub speed_limit : User → Option ℕ
speed_limit user =
    if positive user.bandwidth_speed_mbps then some user.bandwidth_speed_mbps else none

-- `MetricBytes`, and `RecordBytes` where there is a tracker. `handleHTTP` counts downstream only:
-- its `up` is 0.
abbrev pub count_bytes : World → Bytes → ℕ → ℕ → State → State
count_bytes w name up down s = record s {
  tracker = Option.map (λ t. record_bytes t name up down w.later) s.tracker;
  trace = s.trace ++ (bytes_counted name up down ∷ []);
}

abbrev pub target_host : Bytes → Bytes
target_host host = if not (contains_byte host b':') then host ++ codes ":443" else host

-- From the dialed target on.
unfoldable pub tunnel : World → User → State → State
tunnel w user s = elim w.hijack [
  | unsupported ↦
      put (refused status_internal_server_error (codes "Hijacking not supported"))
        (put (error_count (codes "hijack_failed")) s)
  | failing ↦
      put (refused status_internal_server_error (codes "Failed to hijack connection"))
        (put (error_count (codes "hijack_failed")) s)
  | hijacked ↦
      count_bytes w user.username w.up w.down
        (put (relaying (speed_limit user)) (put established s))
]

unfoldable pub handle_connect : World → Request → User → State → State
handle_connect w r user s =
    let target = target_host r.host in
    let s' = put (dialed target) (put (request_count user.username (codes "CONNECT")) s) in
    if w.dial target
    then tunnel w user s'
    else put (refused status_bad_gateway (codes "Failed to connect to target"))
        (put (error_count (codes "dial_failed")) s')

-- The header of the request that is passed on.
unfoldable pub outgoing : Header → Header
outgoing header = header_del (remove_hop_by_hop_headers header) (codes "Proxy-Authorization")

unfoldable pub handle_http : World → Request → User → State → State
handle_http w r user s =
    let s1 = put (request_count user.username r.method) s in
    if not r.absolute
    then put (refused status_bad_request (codes "Bad Request: absolute URL required")) s1
    else let s2 = put (forwarded (outgoing r.header)) s1 in
      elim (w.round_trip (outgoing r.header)) [
        | none ↦
            put (refused status_bad_gateway (codes "Failed to reach target"))
              (put (error_count (codes "request_failed")) s2)
        | some answer ↦
            count_bytes w user.username 0 answer.written
              (put (answered answer.status answer.header) s2)
      ]

unfoldable pub is_super_admin : World → Request → User → State → Bool
is_super_admin w r user s =
    str_eq user.role (codes "super_admin")
    && is_some (is_super_admin_ip w.host s.store r.remote_addr)

-- The checks that a super admin skips, in the source's order. A check that fails answers and ends
-- the request; `false` says so.
unfoldable pub within_conns : World → Bytes → User → State → State × Bool
within_conns w username user s = elim s.tracker [
  | none ↦ (s, true)
  | some t ↦
      let (t', passed) = check_conn_limit t username user.max_connections w.moment in
      let s' : State = record s { tracker = some t' } in
      if passed
      then (s', true)
      else (put (refused status_too_many_requests (codes "Connection Limit Reached")) s', false)
]

unfoldable pub within_allowance : World → Bytes → User → State → State × Bool
within_allowance w username user s = elim s.tracker [
  | none ↦ (s, true)
  | some t ↦
      let (t', passed) = check_allowance t username user.bandwidth_limit_gb w.moment in
      let s' : State = record s { tracker = some t' } in
      if passed
      then (s', true)
      else (put (refused status_forbidden (codes "Bandwidth Limit Exceeded")) s', false)
]

unfoldable pub account_checks : World → Bytes → User → State → State × Bool
account_checks w username user s =
    if not (check_expiry w.host s.store username w.now)
    then (put (refused status_forbidden (codes "Account Expired")) s, false)
    else let (s', passed) = within_allowance w username user s in
      if not passed then (s', false) else within_conns w username user s'

unfoldable pub checks : World → Bytes → User → State → State × Bool
checks w username user s =
    let (store, passed) = check_rate_limit s.store username w.now in
    let s' : State = record s { store = store } in
    if not passed
    then (
      put (refused status_too_many_requests (codes "Too Many Requests"))
          (put (rate_limited username) s'),
      false,
    )
    else account_checks w username user s'

unfoldable pub admission : World → Request → Bytes → User → State → State × Bool
admission w r username user s =
    if is_super_admin w r user s then (s, true) else checks w username user s

-- The branch on the method.
unfoldable pub dispatch : World → Request → User → State → State
dispatch w r user s =
    if str_eq r.method (codes "CONNECT") then handle_connect w r user s else handle_http w r user s

-- `IncrementConns` and its deferred `DecrementConns` around the request.
unfoldable pub counted : World → Request → User → State → State
counted w r user s =
    let s1 : State = record s {
      tracker = Option.map (λ t. increment_conns t user.username w.moment) s.tracker;
    } in
    let s2 = dispatch w r user s1 in
    record s2 { tracker = Option.map (λ t. decrement_conns t user.username w.later) s2.tracker }

unfoldable pub serve : World → Request → User → State → State
serve w r user s = put active_down (counted w r user (put active_up s))

-- The answer that asks for credentials.
unfoldable pub challenge : Bytes → State → State
challenge reason s =
    put (refused status_proxy_auth_required (codes "Proxy Authentication Required"))
      (put challenged (put (auth_failure reason) s))

-- From the parsed credentials on.
unfoldable pub authenticate : World → Request → Bytes → Bytes → State → State
authenticate w r username password s =
    let (store, user) = validate_credentials w.host s.store w.now username password in
    let s' : State = record s { store = store } in
    elim user [
      | none ↦ challenge (codes "invalid_credentials") s'
      | some user ↦
          let (s2, passed) = admission w r username user s' in
          if passed then serve w r user s2 else s2
    ]

-- From the address check on.
unfoldable pub proxy_request : World → Request → State → State
proxy_request w r s =
    if not (check_ip_allowed w.host s.store r.remote_addr)
    then put (refused status_forbidden (codes "Forbidden"))
        (put (auth_failure (codes "ip_blocked")) s)
    else elim (parse_proxy_auth w.host r.header) [
      | none ↦ challenge (codes "no_credentials") s
      | some (username, password) ↦ authenticate w r username password s
    ]

abbrev pub pac_path : Bytes
pac_path = codes "/proxy.pac"

unfoldable pub handle_request : World → Request → State → State
handle_request w r s = elim w.pac_handler [
  | none ↦ proxy_request w r s
  | some serve_http ↦
      if str_eq r.path pac_path || str_eq r.request_uri pac_path
      then (let (store, answer) = serve_http s.store in
          put (pac_answered answer.0 answer.1) (record s { store = store }))
      else proxy_request w r s
]
