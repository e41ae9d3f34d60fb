-- ===== src/Pac/Entitled.antt =====
-- Whom internal/pac/pac.go serves.
use multi_protocol_proxy.Prelude.{
  ℕ, Bool, true, false, [], ◌≡◌, ◌⊎◌, inl, inr, ap, codes, str_eq, str_eq_iff, Bool-cases,
  Option-cases, is_some, ◌==◌,
}
use multi_protocol_proxy.Host.{Host}
use multi_protocol_proxy.Auth.{UserStore, validate_credentials}
use multi_protocol_proxy.Pac.{
  Config, Handler, Request, Response, get_client_ip, requested_user, answer, check_token, limit,
  serve_http,
}

-- The store accepts the user and the password of the request.
abbrev pub IsAccepted : Host → Config → UserStore → Request → ℕ → Type 0
IsAccepted host c store r now =
    is_some (validate_credentials host store now (requested_user c r) (r.query (codes "pass"))).1
    ≡ true

-- The rate limit passed the request, it carries the token where one is configured, and where it
-- names a user and a password, the store accepts them.
pub record IsEntitled (host : Host) (h : Handler) (store : UserStore) (r : Request) (now : ℕ)
    : Type 0 where
  pub passed : (limit h (get_client_ip r) now).1 ≡ true
  pub token : (h.config.token ≡ []) ⊎ (r.query (codes "token") ≡ h.config.token)
  pub credentials :
      (requested_user h.config r ≡ [])
      ⊎ ((r.query (codes "pass") ≡ []) ⊎ IsAccepted host h.config store r now)

abbrev pub is_ok : Response → Bool
is_ok response = response.status == 200

not_ok : false ≡ true → ⊥
not_ok e = cc (e)

answer-credentials :
    (host : Host) (c : Config) (store : UserStore) (r : Request) (now : ℕ)
    → is_ok (answer host c store r now).1 ≡ true
    → (requested_user c r ≡ []) ⊎ ((r.query (codes "pass") ≡ []) ⊎ IsAccepted host c store r now)
unfolding answer
answer-credentials host c store r now ok = elim (Bool-cases (str_eq (requested_user c r) [])) [
  | inl nobody ↦ inl ((str_eq_iff (requested_user c r) []).0 nobody)
  | inr named ↦ elim (Bool-cases (str_eq (r.query (codes "pass")) [])) [
    | inl absent ↦ inr (inl ((str_eq_iff (r.query (codes "pass")) []).0 absent))
    | inr given ↦
        elim (Option-cases
          (validate_credentials host store now (requested_user c r) (r.query (codes "pass"))).1) [
            | inl bad ↦ absurd (not_ok (rw (named, given, bad, answer) at ok))
            | inr (user, good) ↦ inr (inr (ap is_some good))
          ]
  ]
]

token-or-none :
    (host : Host) (c : Config) (store : UserStore) (r : Request) (now : ℕ)
    → is_ok (check_token host c store r now).1 ≡ true
    → ((c.token ≡ []) ⊎ (r.query (codes "token") ≡ c.token))
      × (is_ok (answer host c store r now).1 ≡ true)
unfolding check_token
token-or-none host c store r now ok = elim (Bool-cases (str_eq c.token [])) [
  | inl open_to_all ↦
      (inl ((str_eq_iff c.token []).0 open_to_all), rw (open_to_all, check_token) at ok)
  | inr closed ↦ elim (Bool-cases (str_eq (r.query (codes "token")) c.token)) [
    | inl same ↦ (
      inr ((str_eq_iff (r.query (codes "token")) c.token).0 same),
      rw (closed, same, check_token) at ok,
    )
    | inr other ↦ absurd (not_ok (rw (closed, other, check_token) at ok))
  ]
]

-- A status of 200 goes only to a request that the rate limit passed, that carries the token where
-- one is configured, and whose user and password, where it has both, the store accepts.
pub serve_http-IsEntitled :
    (host : Host) (h : Handler) (store : UserStore) (r : Request) (now : ℕ)
    → is_ok (serve_http host h store r now).1.1 ≡ true
    → IsEntitled host h store r now
unfolding serve_http
serve_http-IsEntitled host h store r now ok = elim (Bool-cases (limit h (get_client_ip r) now).1) [
  | inr limited ↦ absurd (not_ok (rw (limited, serve_http) at ok))
  | inl passed ↦
      let checked = token-or-none host h.config store r now (rw (passed, serve_http) at ok) in
      record {
        passed = passed;
        token = checked.0;
        credentials = answer-credentials host h.config store r now checked.1;
      }
]
