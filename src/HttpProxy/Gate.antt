-- ===== src/HttpProxy/Gate.antt =====
-- Which requests of internal/httpproxy/server.go reach a target.
use multi_protocol_proxy.Prelude.{
  ℕ, true, ◌||◌, List, [], ◌∷◌, ◌++◌, some, Bytes, ◌≡◌, ◌≢◌, refl, ap, ◌⊎◌, ◌∙◌, arith, append-nil,
  codes, str_eq, Bool-cases, Option-cases, inl, inr,
}
use multi_protocol_proxy.Auth.{User, check_ip_allowed, validate_credentials, check_rate_limit}
use multi_protocol_proxy.HttpProxy.Headers.{parse_proxy_auth}
use multi_protocol_proxy.HttpProxy.Admission.{PassesChecks, admission-passed}
use multi_protocol_proxy.HttpProxy.Handler.{
  is_super_admin, Event, dialed, forwarded, refused, challenged, auth_failure, rate_limited,
  pac_answered, State, Request, World, put, within_conns, within_allowance, account_checks, checks,
  admission, challenge, authenticate, proxy_request, handle_request, pac_path,
}

-- The times the handler has turned to a target: a dial, or a request passed on.
abbrev pub reaches : List Event → List Event
reaches [] = []
reaches (dialed t ∷ es) = dialed t ∷ reaches es
reaches (forwarded h ∷ es) = forwarded h ∷ reaches es
reaches (_ ∷ es) = reaches es

reaches-append : (xs ys : List Event) → reaches (xs ++ ys) ≡ reaches xs ++ reaches ys
reaches-append [] ys = refl
reaches-append (dialed t ∷ es) ys = ap (◌∷◌ (dialed t)) (reaches-append es ys)
reaches-append (forwarded t ∷ es) ys = ap (◌∷◌ (forwarded t)) (reaches-append es ys)
reaches-append (_ ∷ es) ys = reaches-append es ys

reaches-put :
    (e : Event) (s : State) → reaches (e ∷ []) ≡ [] → reaches (put e s).trace ≡ reaches s.trace
reaches-put e s quiet =
    reaches-append s.trace (e ∷ [])
    ∙ ap (◌++◌ (reaches s.trace)) quiet
    ∙ append-nil (reaches s.trace)

-- The client's address is allowed, the request carries a name and a password that the store
-- accepts, and the checks of rate, expiry, bandwidth and connections have passed or were skipped
-- for a super admin.
pub record MayReach (w : World) (r : Request) (s : State) : Type 0 where
  pub allowed : check_ip_allowed w.host s.store r.remote_addr ≡ true
  pub username : Bytes
  pub password : Bytes
  pub parsed : parse_proxy_auth w.host r.header ≡ some (username, password)
  pub user : User
  pub valid : (validate_credentials w.host s.store w.now username password).1 ≡ some user
  pub admitted :
      let checked : State = record s {
        store = (validate_credentials w.host s.store w.now username password).0;
      } in
      (is_super_admin w r user checked ≡ true) ⊎ PassesChecks w username user checked

refused-reaches :
    (code : ℕ) (text : Bytes) (es : List Event)
    → reaches (es ++ (refused code text ∷ [])) ≡ reaches es
refused-reaches code text es = reaches-append es (refused code text ∷ []) ∙ append-nil (reaches es)

module _ (w : World) (u : Bytes) (user : User) where
  within_conns-reaches : (s : State) → reaches (within_conns w u user s).0.trace ≡ reaches s.trace
  unfolding within_conns
  within_conns-reaches s =
      ground (arith, refused-reaches 429 (codes "Connection Limit Reached") s.trace)

  within_allowance-reaches :
      (s : State) → reaches (within_allowance w u user s).0.trace ≡ reaches s.trace
  unfolding within_allowance
  within_allowance-reaches s =
      ground (arith, refused-reaches 403 (codes "Bandwidth Limit Exceeded") s.trace)

  account_checks-reaches :
      (s : State) → reaches (account_checks w u user s).0.trace ≡ reaches s.trace
  unfolding account_checks
  account_checks-reaches s = ground (
    arith,
    within_allowance-reaches s,
    within_conns-reaches (within_allowance w u user s).0,
    refused-reaches 403 (codes "Account Expired") s.trace,
  )

  admission-reaches :
      (r : Request) (s : State) → reaches (admission w r u user s).0.trace ≡ reaches s.trace
  unfolding admission checks
  admission-reaches r s =
      let limited : State = record s { store = (check_rate_limit s.store u w.now).0 } in
      let told : State = put (rate_limited u) limited in
      ground (
        arith,
        account_checks-reaches limited,
        refused-reaches 429 (codes "Too Many Requests") told.trace,
        reaches-put (rate_limited u) limited refl,
      )

challenge-reaches :
    (reason : Bytes) (s : State) → reaches (challenge reason s).trace ≡ reaches s.trace
unfolding challenge
challenge-reaches reason s =
    refused-reaches 407 (codes "Proxy Authentication Required")
      (put challenged (put (auth_failure reason) s)).trace
    ∙ reaches-put challenged (put (auth_failure reason) s) refl
    ∙ reaches-put (auth_failure reason) s refl

authenticate-MayReach :
    (w : World) (r : Request) (s : State) (u p : Bytes)
    → check_ip_allowed w.host s.store r.remote_addr ≡ true
    → parse_proxy_auth w.host r.header ≡ some (u, p)
    → reaches (authenticate w r u p s).trace ≢ reaches s.trace
    → MayReach w r s
unfolding authenticate
authenticate-MayReach w r s u p allowed parsed reached =
    let v = validate_credentials w.host s.store w.now u p in
    let checked : State = record s { store = v.0 } in
    elim (Option-cases v.1) [
      | inl bad ↦ absurd (
          reached
            (rw (bad, authenticate) (challenge-reaches (codes "invalid_credentials") checked)))
      | inr (user, good) ↦ elim (Bool-cases (admission w r u user checked).1) [
        | inl passed ↦ record {
          allowed = allowed;
          username = u;
          password = p;
          parsed = parsed;
          user = user;
          valid = good;
          admitted = admission-passed w r u user checked passed;
        }
        | inr stopped ↦
            absurd
              (reached (rw (good, authenticate, stopped) (admission-reaches w u user r checked)))
      ]
    ]

proxy_request-MayReach :
    (w : World) (r : Request) (s : State)
    → reaches (proxy_request w r s).trace ≢ reaches s.trace
    → MayReach w r s
unfolding proxy_request
proxy_request-MayReach w r s reached =
    elim (Bool-cases (check_ip_allowed w.host s.store r.remote_addr)) [
      | inr blocked ↦ absurd (
          reached (
            rw (blocked, proxy_request)
              (refused-reaches 403 (codes "Forbidden")
                  (put (auth_failure (codes "ip_blocked")) s).trace
                ∙ reaches-put (auth_failure (codes "ip_blocked")) s refl)))
      | inl allowed ↦ elim (Option-cases (parse_proxy_auth w.host r.header)) [
        | inl none_sent ↦ absurd (
            reached (
              rw (allowed, none_sent, proxy_request)
                (challenge-reaches (codes "no_credentials") s)))
        | inr ((u, p), parsed) ↦
            authenticate-MayReach w r s u p allowed parsed
              (λ same. reached (rw (allowed, parsed, proxy_request) same))
      ]
    ]

-- A request for which the handler dials or passes anything on comes from an allowed address,
-- carries a name and a password that `ValidateCredentials` accepts, and has passed the checks of
-- rate, expiry, bandwidth and connections, or skipped them as a super admin.
pub handle_request-MayReach :
    (w : World) (r : Request) (s : State)
    → reaches (handle_request w r s).trace ≢ reaches s.trace
    → MayReach w r s
unfolding handle_request
handle_request-MayReach w r s reached = elim (Option-cases w.pac_handler) [
  | inl e ↦ proxy_request-MayReach w r s (rw (e, handle_request) at reached)
  | inr (serve_http, e) ↦
      elim (Bool-cases (str_eq r.path pac_path || str_eq r.request_uri pac_path)) [
        | inl is_pac ↦
            let a = serve_http s.store in
            let fetched : State = record s { store = a.0 } in
            absurd (
              reached (
                rw (e, handle_request, is_pac)
                  (reaches-put (pac_answered a.1.0 a.1.1) fetched refl)))
        | inr other ↦ proxy_request-MayReach w r s (rw (e, handle_request, other) at reached)
      ]
]
