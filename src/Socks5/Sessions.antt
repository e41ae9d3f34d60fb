-- ===== src/Socks5/Sessions.antt =====
-- What holds of whole connections of internal/socks5/server.go.
use multi_protocol_proxy.Prelude.{
  Option, none, some, Bytes, ◌≡◌, refl, sym, ap, ◌∙◌, arith, subst, Bool-cases, Option-cases, inl,
  inr,
}
use multi_protocol_proxy.Auth.{User, check_ip_allowed, get_user, check_rate_limit}
use multi_protocol_proxy.Tracker.Conns.{
  conns_at, check_allowance-conns, check_conn_limit-conns, record_bytes-conns, decrement-around,
  increment_at, increment_at-some,
}
use multi_protocol_proxy.Tracker.Same.{SameConns, SameConns-trans, SameConns-eq, HasRoom}
use multi_protocol_proxy.Socks5.Wire.{
  active_up, Session, Outcome, done, failed, handle_method_negotiation, handle_request,
}
use multi_protocol_proxy.Socks5.Quiet.{session_of, negotiation-IsQuiet, handle_request-IsQuiet}
use multi_protocol_proxy.Socks5.Handler.{
  World, put, negotiated, handle_connection, authorized, admission, checks, account_checks,
  within_allowance, within_conns, counted, serve_request, connect, relay, stored,
}

module _ (w : World) (u : Bytes) where
  within_conns-SameConns :
      (user : User) (s : Session) → SameConns s.tracker (within_conns w u user s).0.tracker
  unfolding within_conns
  within_conns-SameConns user s = elim (Option-cases s.tracker) [
    | inl e ↦ (λ k. ground arith, ground arith)
    | inr (t, e) ↦ (
      λ k. ground (arith, check_conn_limit-conns t u k user.max_connections w.moment),
      ground arith,
    )
  ]

  within_allowance-SameConns :
      (user : User) (s : Session) → SameConns s.tracker (within_allowance w u user s).0.tracker
  unfolding within_allowance
  within_allowance-SameConns user s = elim (Option-cases s.tracker) [
    | inl e ↦ (λ k. ground arith, ground arith)
    | inr (t, e) ↦ (
      λ k. ground (arith, check_allowance-conns t u k user.bandwidth_limit_gb w.moment),
      ground arith,
    )
  ]

  account_checks-SameConns :
      (user : Option User) (s : Session) → SameConns s.tracker (account_checks w u user s).0.tracker
  unfolding account_checks
  account_checks-SameConns none s = (λ k. refl, refl)
  account_checks-SameConns (some user) s =
      let p = within_allowance-SameConns user s in
      let q = within_conns-SameConns user (within_allowance w u user s).0 in
      (λ k. ground (arith, p.0 k, q.0 k), ground (arith, p.1, q.1))

  admission-SameConns :
      (user : Option User) (s : Session) → SameConns s.tracker (admission w u user s).0.tracker
  unfolding admission checks
  admission-SameConns user s =
      let limited : Session = record s { store = (check_rate_limit s.store u w.now).0 } in
      let p = account_checks-SameConns user limited in
      (λ k. ground (arith, p.0 k), ground (arith, p.1))

  relay-SameConns :
      (user : Option User) (s : Session) → SameConns s.tracker (relay w u user s).tracker
  unfolding relay
  relay-SameConns user s = elim (Option-cases s.tracker) [
    | inl e ↦ (λ k. ground arith, ground arith)
    | inr (t, e) ↦ (
      λ k. ground (
        arith,
        record_bytes-conns t u k (stored w.relay.up_ended w.relay.up)
            (stored w.relay.down_ended w.relay.down) w.later,
      ),
      ground arith,
    )
  ]

  connect-SameConns :
      (user : Option User) (target : Bytes) (s : Session)
      → SameConns s.tracker (connect w u user target s).tracker
  unfolding connect
  connect-SameConns user target s = elim (Option-cases (w.dial target)) [
    | inl e ↦ rw (e, connect) (λ k. refl, refl)
    | inr (local, e) ↦ rw (e, connect) (relay-SameConns user _)
  ]

  serve_request-SameConns :
      (user : Option User) (s : Session) → SameConns s.tracker (serve_request w u user s).tracker
  unfolding serve_request
  serve_request-SameConns user s = go (handle_request w.host s) refl
    where
      go :
          (o : Outcome Bytes)
          → handle_request w.host s ≡ o
          → SameConns s.tracker (serve_request w u user s).tracker
      go (failed x s1) e =
          rw (e, serve_request)
            (SameConns-eq s.tracker s1.tracker
              (ap (λ o. (session_of o).tracker) (sym e) ∙ (handle_request-IsQuiet w.host s).0))
      go (done target s1) e =
          let same : s1.tracker ≡ s.tracker =
            ap (λ o. (session_of o).tracker) (sym e) ∙ (handle_request-IsQuiet w.host s).0 in
          rw (e, serve_request)
            (SameConns-trans s.tracker s1.tracker _ (SameConns-eq s.tracker s1.tracker same)
              (connect-SameConns user target s1))

counted-conns :
    (w : World) (u : Bytes) (user : Option User) (s : Session) (k : Bytes)
    → HasRoom s.tracker
    → conns_at (counted w u user s).tracker k ≡ conns_at s.tracker k
unfolding counted
counted-conns w u user s k room =
    let s1 : Session = record s { tracker = increment_at u w.moment s.tracker } in
    let served = serve_request-SameConns w u user s1 in
    decrement-around s.tracker (serve_request w u user s1).tracker u w.moment w.later room served.0
      (served.1 ∙ increment_at-some s.tracker u w.moment) k

authorized-conns :
    (w : World) (u : Bytes) (s : Session) (k : Bytes)
    → HasRoom s.tracker
    → conns_at (authorized w u s).tracker k ≡ conns_at s.tracker k
unfolding authorized
authorized-conns w u s k room =
    let user = get_user s.store u in
    let s1 = (admission w u user s).0 in
    let admitted = admission-SameConns w u user s in
    let room1 : HasRoom s1.tracker = λ j. rw (admitted.0 j) (room j) in
    elim (Bool-cases (admission w u user s).1) [
      | inl e ↦ rw e (counted-conns w u user s1 k room1 ∙ admitted.0 k)
      | inr e ↦ rw e (admitted.0 k)
    ]

negotiated-conns :
    (w : World) (s : Session) (k : Bytes)
    → HasRoom s.tracker
    → conns_at (negotiated w s).tracker k ≡ conns_at s.tracker k
unfolding negotiated
negotiated-conns w s k room = go (handle_method_negotiation w.host w.now s) refl
  where
    go :
        (o : Outcome Bytes)
        → handle_method_negotiation w.host w.now s ≡ o
        → conns_at (negotiated w s).tracker k ≡ conns_at s.tracker k
    go (failed x s1) e =
        rw (e, negotiated)
          (ap (λ t. conns_at t k)
            (ap (λ o. (session_of o).tracker) (sym e) ∙ (negotiation-IsQuiet w.host w.now s).0))
    go (done u s1) e =
        let same : s1.tracker ≡ s.tracker =
          ap (λ o. (session_of o).tracker) (sym e) ∙ (negotiation-IsQuiet w.host w.now s).0 in
        rw (e, negotiated)
          (authorized-conns w u s1 k (subst HasRoom (sym same) room) ∙ ap (λ t. conns_at t k) same)

-- Where every name counts fewer than 2^63 - 1 connections: when a connection has ended, whatever
-- the client sent, wherever it failed and whatever it relayed, every name counts as many
-- connections as before it.
pub handle_connection-conns :
    (w : World) (s : Session) (k : Bytes)
    → HasRoom s.tracker
    → conns_at (handle_connection w s).tracker k ≡ conns_at s.tracker k
unfolding handle_connection
handle_connection-conns w s k room =
    elim (Bool-cases (check_ip_allowed w.host s.store w.client_ip)) [
      | inl e ↦ rw e (negotiated-conns w (put active_up s) k room)
      | inr e ↦ rw e
    ]
