-- ===== src/Socks5/Dialogue.antt =====
-- A client's messages and what internal/socks5/server.go makes of them.
use multi_protocol_proxy.Prelude.{
  ℕ, ◌+◌, ◌*◌, ◌/◌, ◌%◌, ◌^◌, ◌<◌, true, [], ◌∷◌, ◌++◌, Option, none, some, Bytes, ◌≡◌, refl, ap,
  ◌∙◌, arith, codes, length, length-append, take, drop, take-append, drop-append, append_assoc, leb,
  if◌then◌else◌, Bool-cases, Option-cases, inl, inr,
}
use multi_protocol_proxy.Host.{Host}
use multi_protocol_proxy.Auth.{User, UserStore, validate_credentials}
use multi_protocol_proxy.Decimal.{itoa}
use multi_protocol_proxy.Socks5.Wire.{
  wrote, auth_failure, Session, authentication_failed, Outcome, done, failed, ◌>>=◌, version5,
  method_user_pass, method_no_acceptable, no_acceptable_method, user_pass_version, cmd_connect,
  addr_type_domain, read_full, check_password, authenticate_user, offers_user_pass,
  handle_method_negotiation, read_host, handle_request,
}

-- A buffer that the client fills is read whole, and the rest stays.
read_full-append :
    (n : ℕ) (xs rest : Bytes) (s : Session)
    → s.input ≡ xs ++ rest
    → n ≡ length xs
    → read_full n s ≡ done xs (record s { input = rest })
unfolding read_full
read_full-append n xs rest s e len =
    let fits : leb n (length s.input) ≡ true = ground (arith, ap length e, length-append xs rest) in
    let front : take n s.input ≡ xs = rw (e, len) (take-append xs rest) in
    let back : drop n s.input ≡ rest = rw (e, len) (drop-append xs rest) in rw (fits, front, back)

abbrev pub greeting : Bytes → Bytes
greeting methods = version5 ∷ length methods ∷ methods

abbrev pub user_pass : Bytes → Bytes → Bytes
user_pass username password =
    user_pass_version ∷ length username ∷ (username ++ (length password ∷ password))

authenticate_user-user_pass :
    (h : Host) (now : ℕ) (u p rest : Bytes) (s : Session)
    → s.input ≡ user_pass_version ∷ length u ∷ (u ++ (length p ∷ (p ++ rest)))
    → authenticate_user h now s ≡ check_password h now u p (record s { input = rest })
unfolding authenticate_user
authenticate_user-user_pass h now u p rest s e =
    rw
      (
        read_full-append 2 (user_pass_version ∷ length u ∷ []) (u ++ (length p ∷ (p ++ rest))) s e
            refl,
        ◌>>=◌,
      )
      (rw
        (
          read_full-append (length u) u (length p ∷ (p ++ rest))
              (record s { input = u ++ (length p ∷ (p ++ rest)) }) refl refl,
          ◌>>=◌,
        )
        (rw
          (
            read_full-append 1 (length p ∷ []) (p ++ rest)
                (record s { input = length p ∷ (p ++ rest) }) refl refl,
            ◌>>=◌,
          )
          (rw (
            read_full-append (length p) p rest (record s { input = p ++ rest }) refl refl,
            ◌>>=◌,
          ))))

negotiation-greeting :
    (h : Host) (now : ℕ) (methods rest : Bytes) (s : Session)
    → s.input ≡ greeting methods ++ rest
    → handle_method_negotiation h now s ≡ (
        if offers_user_pass methods
        then authenticate_user h now (record s {
          input = rest;
          trace = s.trace ++ (wrote (version5 ∷ method_user_pass ∷ []) ∷ []);
        })
        else failed no_acceptable_method (record s {
          input = rest;
          trace =
              (s.trace ++ (wrote (version5 ∷ method_no_acceptable ∷ []) ∷ []))
              ++ (auth_failure (codes "no_auth_method") ∷ []);
        }))
unfolding handle_method_negotiation
negotiation-greeting h now methods rest s e =
    rw (read_full-append 2 (version5 ∷ length methods ∷ []) (methods ++ rest) s e refl, ◌>>=◌)
      (rw
        (
          read_full-append (length methods) methods rest (record s { input = methods ++ rest }) refl
              refl,
          ◌>>=◌,
        )
        (elim (Bool-cases (offers_user_pass methods)) [ inl y ↦ rw y | inr m ↦ rw m ]))

-- What the handler answers to a user name and a password, after the method reply.
abbrev pub Answer : Session → Bytes → Bytes → UserStore → Option User → Outcome Bytes
Answer s username rest store (some user) = done username (record s {
  input = rest;
  store = store;
  trace =
      (s.trace ++ (wrote (version5 ∷ method_user_pass ∷ []) ∷ []))
      ++ (wrote (user_pass_version ∷ 0x00 ∷ []) ∷ []);
})
Answer s username rest store none = failed authentication_failed (record s {
  input = rest;
  store = store;
  trace =
      ((s.trace ++ (wrote (version5 ∷ method_user_pass ∷ []) ∷ []))
        ++ (wrote (user_pass_version ∷ 0x01 ∷ []) ∷ []))
      ++ (auth_failure (codes "invalid_credentials") ∷ []);
})

check_password-Answer :
    (h : Host) (now : ℕ) (s : Session) (u p rest : Bytes)
    → let v = validate_credentials h s.store now u p in
      check_password h now u p (record s {
        input = rest;
        trace = s.trace ++ (wrote (version5 ∷ method_user_pass ∷ []) ∷ []);
      })
      ≡ Answer s u rest v.0 v.1
unfolding check_password
check_password-Answer h now s u p rest =
    elim (Option-cases (validate_credentials h s.store now u p).1) [
      | inl e ↦ rw (e, check_password)
      | inr (user, e) ↦ rw (e, check_password)
    ]

-- A client that offers the method of user name and password, and sends a name and a password, is
-- answered as `ValidateCredentials` decides: success and the name, or failure and the end of the
-- dialogue. Exactly its messages are consumed: what follows them is left for the request.
pub negotiation-user_pass :
    (h : Host) (now : ℕ) (methods u p rest : Bytes) (s : Session)
    → offers_user_pass methods ≡ true
    → s.input ≡ greeting methods ++ (user_pass u p ++ rest)
    → let v = validate_credentials h s.store now u p in
      handle_method_negotiation h now s ≡ Answer s u rest v.0 v.1
negotiation-user_pass h now methods u p rest s offered e =
    negotiation-greeting h now methods (user_pass u p ++ rest) s e
    ∙ rw offered (
        authenticate_user-user_pass h now u p rest
          (record s {
            input = user_pass u p ++ rest;
            trace = s.trace ++ (wrote (version5 ∷ method_user_pass ∷ []) ∷ []);
          })
          (ap (λ (t : Bytes). user_pass_version ∷ length u ∷ t)
            (append_assoc u (length p ∷ p) rest)))
    ∙ check_password-Answer h now s u p rest

abbrev pub connect_domain : Bytes → ℕ → Bytes
connect_domain domain port =
    version5
    ∷ cmd_connect
    ∷ 0
    ∷ addr_type_domain
    ∷ length domain
    ∷ (domain ++ ((port / 256) ∷ (port % 256) ∷ []))

-- A CONNECT request for a domain and a port below 2^16 is read as `domain:port`, in decimal, without
-- a reply, and what the client sends after it is left for the relay.
pub handle_request-connect_domain :
    (h : Host) (domain rest : Bytes) (port : ℕ) (s : Session)
    → port < 2 ^ 16
    → s.input ≡ connect_domain domain port ++ rest
    → handle_request h s ≡ done (domain ++ (codes ":" ++ itoa port)) (record s { input = rest })
unfolding handle_request read_host
handle_request-connect_domain h domain rest port s small e =
    let ends : Bytes = (port / 256) ∷ (port % 256) ∷ [] in
    let number : port / 256 * 256 + port % 256 ≡ port = omega arith in
    rw
      (
        read_full-append 4 (version5 ∷ cmd_connect ∷ 0 ∷ addr_type_domain ∷ [])
            (length domain ∷ ((domain ++ ends) ++ rest)) s e refl,
        ◌>>=◌,
      )
      (rw
        (
          read_full-append 1 (length domain ∷ []) ((domain ++ ends) ++ rest)
              (record s { input = length domain ∷ ((domain ++ ends) ++ rest) }) refl refl,
          ◌>>=◌,
        )
        (rw
          (
            read_full-append (length domain) domain (ends ++ rest)
                (record s { input = (domain ++ ends) ++ rest }) (append_assoc domain ends rest)
                refl,
            ◌>>=◌,
          )
          (rw (
            read_full-append 2 ends rest (record s { input = ends ++ rest }) refl refl,
            ◌>>=◌,
            number,
          ))))
