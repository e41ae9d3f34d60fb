-- ===== src/HttpProxy/Sessions.antt =====
-- What whole requests of internal/httpproxy/server.go do to the connection counts.
use mathlib.Core.Option
use multi_protocol_proxy.Prelude.{
  ℕ, ◌||◌, Option, none, some, Bytes, ◌≡◌, refl, ◌∙◌, arith, codes, str_eq, Bool-cases,
  Option-cases, inl, inr,
}
use multi_protocol_proxy.Auth.{User, validate_credentials, check_rate_limit, check_ip_allowed}
use multi_protocol_proxy.Tracker.{Tracker, record_bytes}
use multi_protocol_proxy.Tracker.Conns.{
  conns_at, check_allowance-conns, check_conn_limit-conns, record_bytes-conns, decrement-around,
  increment_at, increment_at-some,
}
use multi_protocol_proxy.Tracker.Same.{SameConns, HasRoom}
use multi_protocol_proxy.HttpProxy.Headers.{parse_proxy_auth}
use multi_protocol_proxy.HttpProxy.Handler.{
  State, Request, World, put, dialed, request_count, active_up, tunnel, handle_connect, handle_http,
  dispatch, counted, serve, Hijack, unsupported, failing, hijacked, target_host, outgoing,
  within_conns, within_allowance, account_checks, checks, admission, challenge, authenticate,
  proxy_request, handle_request, pac_path,
}

module _ (w : World) where
  recorded-SameConns :
      (u : Bytes) (up down : ℕ) (o : Option Tracker)
      → SameConns o (Option.map (λ t. record_bytes t u up down w.later) o)
  recorded-SameConns u up down none = (λ k. refl, refl)
  recorded-SameConns u up down (some t) = (λ k. record_bytes-conns t u k up down w.later, refl)

  tunnel-SameConns : (user : User) (s : State) → SameConns s.tracker (tunnel w user s).tracker
  unfolding tunnel
  tunnel-SameConns user s = go w.hijack refl
    where
      go : (h : Hijack) → w.hijack ≡ h → SameConns s.tracker (tunnel w user s).tracker
      go unsupported e = rw (e, tunnel) (λ k. refl, refl)
      go failing e = rw (e, tunnel) (λ k. refl, refl)
      go hijacked e = rw (e, tunnel) (recorded-SameConns user.username w.up w.down s.tracker)

  handle_connect-SameConns :
      (r : Request) (user : User) (s : State)
      → SameConns s.tracker (handle_connect w r user s).tracker
  unfolding handle_connect
  handle_connect-SameConns r user s = elim (Bool-cases (w.dial (target_host r.host))) [
    | inl e ↦
        rw (e, handle_connect)
          (tunnel-SameConns user (
            put (dialed (target_host r.host))
              (put (request_count user.username (codes "CONNECT")) s)))
    | inr e ↦ rw (e, handle_connect) (λ k. refl, refl)
  ]

  handle_http-SameConns :
      (r : Request) (user : User) (s : State) → SameConns s.tracker (handle_http w r user s).tracker
  unfolding handle_http
  handle_http-SameConns r user s = elim (Bool-cases r.absolute) [
    | inr e ↦ rw (e, handle_http) (λ k. refl, refl)
    | inl e ↦ elim (Option-cases (w.round_trip (outgoing r.header))) [
      | inl f ↦ rw (e, f, handle_http) (λ k. refl, refl)
      | inr (answer, f) ↦
          rw (e, f, handle_http) (recorded-SameConns user.username 0 answer.written s.tracker)
    ]
  ]

  dispatch-SameConns :
      (r : Request) (user : User) (s : State) → SameConns s.tracker (dispatch w r user s).tracker
  unfolding dispatch
  dispatch-SameConns r user s = elim (Bool-cases (str_eq r.method (codes "CONNECT"))) [
    | inl e ↦ rw (e, dispatch) (handle_connect-SameConns r user s)
    | inr e ↦ rw (e, dispatch) (handle_http-SameConns r user s)
  ]

  serve-conns :
      (r : Request) (user : User) (s : State) (k : Bytes)
      → HasRoom s.tracker
      → conns_at (serve w r user s).tracker k ≡ conns_at s.tracker k
  unfolding serve counted
  serve-conns r user s k room =
      let up = put active_up s in
      let s1 : State = record up { tracker = increment_at user.username w.moment s.tracker } in
      let done = dispatch-SameConns r user s1 in
      decrement-around s.tracker (dispatch w r user s1).tracker user.username w.moment w.later room
        done.0 (done.1 ∙ increment_at-some s.tracker user.username w.moment) k

module _ (w : World) (u : Bytes) (user : User) where
  within_conns-SameConns : (s : State) → SameConns s.tracker (within_conns w u user s).0.tracker
  unfolding within_conns
  within_conns-SameConns s = elim (Option-cases s.tracker) [
    | inl e ↦ (λ k. ground arith, ground arith)
    | inr (t, e) ↦ (
      λ k. ground (arith, check_conn_limit-conns t u k user.max_connections w.moment),
      ground arith,
    )
  ]

  within_allowance-SameConns :
      (s : State) → SameConns s.tracker (within_allowance w u user s).0.tracker
  unfolding within_allowance
  within_allowance-SameConns s = elim (Option-cases s.tracker) [
    | inl e ↦ (λ k. ground arith, ground arith)
    | inr (t, e) ↦ (
      λ k. ground (arith, check_allowance-conns t u k user.bandwidth_limit_gb w.moment),
      ground arith,
    )
  ]

  account_checks-SameConns : (s : State) → SameConns s.tracker (account_checks w u user s).0.tracker
  unfolding account_checks
  account_checks-SameConns s =
      let p = within_allowance-SameConns s in
      let q = within_conns-SameConns (within_allowance w u user s).0 in
      (λ k. ground (arith, p.0 k, q.0 k), ground (arith, p.1, q.1))

  admission-SameConns :
      (r : Request) (s : State) → SameConns s.tracker (admission w r u user s).0.tracker
  unfolding admission checks
  admission-SameConns r s =
      let limited : State = record s { store = (check_rate_limit s.store u w.now).0 } in
      let p = account_checks-SameConns limited in (λ k. ground (arith, p.0 k), ground (arith, p.1))

authenticate-conns :
    (w : World) (r : Request) (u p : Bytes) (s : State) (k : Bytes)
    → HasRoom s.tracker
    → conns_at (authenticate w r u p s).tracker k ≡ conns_at s.tracker k
unfolding authenticate challenge
authenticate-conns w r u p s k room =
    let v = validate_credentials w.host s.store w.now u p in
    let checked : State = record s { store = v.0 } in
    elim (Option-cases v.1) [
      | inl bad ↦ rw (bad, authenticate) refl
      | inr (user, good) ↦
          let admitted = admission-SameConns w u user r checked in
          let s2 = (admission w r u user checked).0 in
          let room2 : HasRoom s2.tracker = λ j. rw (admitted.0 j) (room j) in
          elim (Bool-cases (admission w r u user checked).1) [
            | inl passed ↦
                rw (good, authenticate, passed) (serve-conns w r user s2 k room2 ∙ admitted.0 k)
            | inr stopped ↦ rw (good, authenticate, stopped) (admitted.0 k)
          ]
    ]

proxy_request-conns :
    (w : World) (r : Request) (s : State) (k : Bytes)
    → HasRoom s.tracker
    → conns_at (proxy_request w r s).tracker k ≡ conns_at s.tracker k
unfolding proxy_request challenge
proxy_request-conns w r s k room =
    elim (Bool-cases (check_ip_allowed w.host s.store r.remote_addr)) [
      | inr blocked ↦ rw (blocked, proxy_request) refl
      | inl allowed ↦ elim (Option-cases (parse_proxy_auth w.host r.header)) [
        | inl none_sent ↦ rw (allowed, none_sent, proxy_request) refl
        | inr ((u, p), parsed) ↦
            rw (allowed, parsed, proxy_request) (authenticate-conns w r u p s k room)
      ]
    ]

-- Where every name counts fewer than 2^63 - 1 connections: when a request has been answered,
-- whatever it asked and wherever it failed, every name counts as many connections as before it.
pub handle_request-conns :
    (w : World) (r : Request) (s : State) (k : Bytes)
    → HasRoom s.tracker
    → conns_at (handle_request w r s).tracker k ≡ conns_at s.tracker k
unfolding handle_request
handle_request-conns w r s k room = elim (Option-cases w.pac_handler) [
  | inl e ↦ rw (e, handle_request) (proxy_request-conns w r s k room)
  | inr (serve_http, e) ↦
      elim (Bool-cases (str_eq r.path pac_path || str_eq r.request_uri pac_path)) [
        | inl is_pac ↦ rw (e, handle_request, is_pac) refl
        | inr other ↦ rw (e, handle_request, other) (proxy_request-conns w r s k room)
      ]
]
