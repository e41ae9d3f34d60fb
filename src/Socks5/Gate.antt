-- ===== src/Socks5/Gate.antt =====
-- Which clients of internal/socks5/server.go reach the dialer.
use multi_protocol_proxy.Prelude.{
  true, [], ◌∷◌, ◌++◌, Option, none, some, Bytes, ◌≡◌, ◌≢◌, refl, sym, ap, subst, ◌⊎◌, ◌∙◌, arith,
  append-nil, codes, Bool-cases, inl, inr,
}
use multi_protocol_proxy.Auth.{
  User, check_ip_allowed, get_user, check_rate_limit, validate_credentials,
}
use multi_protocol_proxy.Socks5.Wire.{
  Event, auth_failure, rate_limited, active_up, active_down, Session, Outcome, done, failed,
  handle_method_negotiation, offers_user_pass,
}
use multi_protocol_proxy.Socks5.Quiet.{session_of, dials, dials-append, negotiation-IsQuiet}
use multi_protocol_proxy.Socks5.Grants.{negotiation-Granted}
use multi_protocol_proxy.Socks5.Dialogue.{greeting, user_pass}
use multi_protocol_proxy.Socks5.Admission.{PassesChecks, admission-passed}
use multi_protocol_proxy.Socks5.Handler.{
  is_super_admin, World, put, negotiated, handle_connection, authorized, admission, checks,
  account_checks, within_allowance, within_conns,
}

-- The checks pass, or the user is a super admin, who skips them.
abbrev pub IsAdmitted : World → Bytes → Option User → Session → Type 0
IsAdmitted w username user s = (is_super_admin w s user ≡ true) ⊎ PassesChecks w username user s

-- The client's address is allowed; the first that it has sent is a greeting that offers the method of
-- a user name and a password, then a name and a password that the store accepts; and the checks of
-- rate, expiry, bandwidth and connections, of the last two on the tracker as the connection found it,
-- have passed or were skipped for a super admin.
pub record MayDial (w : World) (s : Session) : Type 0 where
  pub allowed : check_ip_allowed w.host s.store w.client_ip ≡ true
  pub methods : Bytes
  pub username : Bytes
  pub password : Bytes
  pub rest : Bytes
  pub offered : offers_user_pass methods ≡ true
  pub sent : s.input ≡ greeting methods ++ (user_pass username password ++ rest)
  pub user : User
  pub valid : (validate_credentials w.host s.store w.now username password).1 ≡ some user
  pub admitted :
      let checked : Session = record s {
        store = (validate_credentials w.host s.store w.now username password).0;
      } in
      IsAdmitted w username (get_user checked.store username) checked

-- The checks look at the store and at the tracker only.
moved-IsAdmitted :
    (w : World) (u : Bytes) (user : Option User) (s later : Session)
    → IsAdmitted w u user later
    → IsAdmitted w u user (record s { store = later.store; tracker = later.tracker })
unfolding is_super_admin
moved-IsAdmitted w u none s later a = a
moved-IsAdmitted w u (some user) s later a = a

dials-put : (e : Event) (s : Session) → dials (e ∷ []) ≡ [] → dials (put e s).trace ≡ dials s.trace
dials-put e s quiet =
    dials-append s.trace (e ∷ []) ∙ ap (◌++◌ (dials s.trace)) quiet ∙ append-nil (dials s.trace)

within_conns-trace :
    (w : World) (u : Bytes) (user : User) (s : Session)
    → (within_conns w u user s).0.trace ≡ s.trace
unfolding within_conns
within_conns-trace w u user s = ground arith

within_allowance-trace :
    (w : World) (u : Bytes) (user : User) (s : Session)
    → (within_allowance w u user s).0.trace ≡ s.trace
unfolding within_allowance
within_allowance-trace w u user s = ground arith

account_checks-trace :
    (w : World) (u : Bytes) (user : Option User) (s : Session)
    → (account_checks w u user s).0.trace ≡ s.trace
unfolding account_checks
account_checks-trace w u none s = refl
account_checks-trace w u (some user) s = ground (
  arith,
  within_allowance-trace w u user s,
  within_conns-trace w u user (within_allowance w u user s).0,
)

admission-dials :
    (w : World) (u : Bytes) (user : Option User) (s : Session)
    → dials (admission w u user s).0.trace ≡ dials s.trace
unfolding admission checks
admission-dials w u user s =
    let limited : Session = record s { store = (check_rate_limit s.store u w.now).0 } in
    ground (arith, account_checks-trace w u user limited, dials-put (rate_limited u) limited refl)

negotiated-MayDial :
    (w : World) (s : Session)
    → check_ip_allowed w.host s.store w.client_ip ≡ true
    → dials (negotiated w s).trace ≢ dials s.trace
    → MayDial w s
unfolding negotiated authorized
negotiated-MayDial w s allowed dialed_some = go (handle_method_negotiation w.host w.now s) refl
  where
    go : (o : Outcome Bytes) → handle_method_negotiation w.host w.now s ≡ o → MayDial w s
    go (failed x s1) e = absurd (
        dialed_some (
          rw (e, negotiated)
            (ap (λ o. dials (session_of o).trace) (sym e)
              ∙ (negotiation-IsQuiet w.host w.now s).1)))
    go (done u s1) e =
        let user = get_user s1.store u in
        let same : dials s1.trace ≡ dials s.trace =
          ap (λ o. dials (session_of o).trace) (sym e) ∙ (negotiation-IsQuiet w.host w.now s).1 in
        let same_tracker : s1.tracker ≡ s.tracker =
          ap (λ o. (session_of o).tracker) (sym e) ∙ (negotiation-IsQuiet w.host w.now s).0 in
        let granted = negotiation-Granted w.host w.now s u s1 e in
        elim (Bool-cases (admission w u user s1).1) [
          | inl passed ↦ record {
            allowed = allowed;
            username = u;
            methods = granted.methods;
            password = granted.password;
            rest = granted.rest;
            offered = granted.offered;
            sent = granted.sent;
            user = granted.user;
            valid = granted.valid;
            admitted =
                subst (λ store. IsAdmitted w u (get_user store u) (record s { store = store }))
                  granted.stored
                  (subst (λ t. IsAdmitted w u user (record s { store = s1.store; tracker = t }))
                    same_tracker
                    (moved-IsAdmitted w u user s s1 (admission-passed w u user s1 passed)));
          }
          | inr stopped ↦ absurd (
              dialed_some
                (rw (e, negotiated, stopped, authorized) (admission-dials w u user s1 ∙ same)))
        ]

-- A connection in which the handler dials comes from an allowed address; what it has sent begins with
-- a greeting that offers the method of a user name and a password, and a name and a password that
-- `ValidateCredentials` accepts against the store that the connection found; and it has passed the
-- checks of rate, expiry, bandwidth and connections, of the last two on the tracker that it found, or
-- skipped them as a super admin.
pub handle_connection-MayDial :
    (w : World) (s : Session) → dials (handle_connection w s).trace ≢ dials s.trace → MayDial w s
unfolding handle_connection
handle_connection-MayDial w s dialed_some =
    elim (Bool-cases (check_ip_allowed w.host s.store w.client_ip)) [
      | inr blocked ↦ absurd (
          dialed_some (
            rw (blocked, handle_connection) (dials-put (auth_failure (codes "ip_blocked")) s refl)))
      | inl allowed ↦
          let up : Session = put active_up s in
          let m = negotiated-MayDial w up allowed (λ same. dialed_some (
            rw (allowed, handle_connection)
              (dials-put active_down (negotiated w up) refl
                ∙ same
                ∙ dials-put active_up s refl))) in
          let checked : MayDial w up → Session = λ m. record up {
            store = (validate_credentials w.host s.store w.now m.username m.password).0;
          } in
          record {
            allowed = allowed;
            methods = m.methods;
            username = m.username;
            password = m.password;
            rest = m.rest;
            offered = m.offered;
            sent = m.sent;
            user = m.user;
            valid = m.valid;
            admitted =
                moved-IsAdmitted w m.username (get_user (checked m).store m.username) s (checked m)
                  m.admitted;
          }
    ]
