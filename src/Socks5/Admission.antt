-- ===== src/Socks5/Admission.antt =====
-- What the checks of internal/socks5/server.go ask of a client.
use multi_protocol_proxy.Prelude.{
  true, Option, none, some, Bytes, ◌≡◌, ◌⊎◌, inl, inr, refl, arith, Bool-cases,
}
use multi_protocol_proxy.Auth.{User, check_rate_limit, check_expiry}
use multi_protocol_proxy.Tracker.{Tracker}
use multi_protocol_proxy.Tracker.Admission.{IsAllowed}
use multi_protocol_proxy.Socks5.Handler.{
  World, is_super_admin, admission, checks, account_checks, within_allowance, within_conns,
}
use multi_protocol_proxy.Socks5.Wire.{Session}

-- The rate limit passes the name, and a listed user has not expired and is within its limits.
abbrev pub PassesChecks : World → Bytes → Option User → Session → Type 0
PassesChecks w username none s = (check_rate_limit s.store username w.now).1 ≡ true
PassesChecks w username (some user) s =
    let (store, within_rate) = check_rate_limit s.store username w.now in
    (within_rate ≡ true)
    × ((check_expiry w.host store username w.now ≡ true)
        × IsAllowed s.tracker username user w.moment)

limits-IsAllowed :
    (w : World) (u : Bytes) (user : User) (s : Session)
    → (within_allowance w u user s).1 ≡ true
    → (within_conns w u user (within_allowance w u user s).0).1 ≡ true
    → IsAllowed s.tracker u user w.moment
unfolding within_allowance within_conns
limits-IsAllowed w u user s first second = go s.tracker refl
  where
    go : (o : Option Tracker) → s.tracker ≡ o → IsAllowed o u user w.moment
    go none e = tt
    go (some t) e =
        (rw (e, within_allowance) at first, rw (e, within_allowance, within_conns) at second)

checks-PassesChecks :
    (w : World) (u : Bytes) (user : Option User) (s : Session)
    → (checks w u user s).1 ≡ true
    → PassesChecks w u user s
unfolding checks account_checks
checks-PassesChecks w u none s passed = ground arith
checks-PassesChecks w u (some user) s passed =
    let r = check_rate_limit s.store u w.now in
    let limited : Session = record s { store = r.0 } in
    let a = within_allowance w u user limited in
    (ground arith, (ground arith, limits-IsAllowed w u user limited (ground arith) (ground arith)))

-- The checks passed, or they were skipped for a super admin.
pub admission-passed :
    (w : World) (u : Bytes) (user : Option User) (s : Session)
    → (admission w u user s).1 ≡ true
    → (is_super_admin w s user ≡ true) ⊎ PassesChecks w u user s
unfolding admission
admission-passed w u user s passed = elim (Bool-cases (is_super_admin w s user)) [
  | inl super ↦ inl super
  | inr plain ↦ inr (checks-PassesChecks w u user s (rw (plain, admission) at passed))
]
