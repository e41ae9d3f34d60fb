-- ===== src/HttpProxy/Admission.antt =====
-- What the checks of internal/httpproxy/server.go ask of a client.
use multi_protocol_proxy.Prelude.{
  true, Option, none, some, Bytes, ◌≡◌, ◌⊎◌, inl, inr, refl, arith, Bool-cases,
}
use multi_protocol_proxy.Auth.{User, check_rate_limit, check_expiry}
use multi_protocol_proxy.Tracker.{Tracker}
use multi_protocol_proxy.Tracker.Admission.{IsAllowed}
use multi_protocol_proxy.HttpProxy.Handler.{
  State, Request, World, is_super_admin, admission, checks, account_checks, within_allowance,
  within_conns,
}

-- The rate limit passes the name, and the user has not expired and is within the limits.
abbrev pub PassesChecks : World → Bytes → User → State → Type 0
PassesChecks w username user s =
    let (store, within_rate) = check_rate_limit s.store username w.now in
    (within_rate ≡ true)
    × ((check_expiry w.host store username w.now ≡ true)
        × IsAllowed s.tracker username user w.moment)

limits-IsAllowed :
    (w : World) (u : Bytes) (user : User) (s : State)
    → (within_allowance w u user s).1 ≡ true
    → (within_conns w u user (within_allowance w u user s).0).1 ≡ true
    → IsAllowed s.tracker u user w.moment
unfolding within_allowance within_conns
limits-IsAllowed w u user s first second = go s.tracker refl
  where
    go : (o : Option Tracker) → s.tracker ≡ o → IsAllowed o u user w.moment
    go none e = tt
    go (some t) e = (ground (arith, e, first), ground (arith, e, first, second))

checks-PassesChecks :
    (w : World) (u : Bytes) (user : User) (s : State)
    → (checks w u user s).1 ≡ true
    → PassesChecks w u user s
unfolding checks account_checks
checks-PassesChecks w u user s passed =
    let r = check_rate_limit s.store u w.now in
    let limited : State = record s { store = r.0 } in
    let a = within_allowance w u user limited in
    (ground arith, (ground arith, limits-IsAllowed w u user limited (ground arith) (ground arith)))

-- The checks passed, or they were skipped for a super admin.
pub admission-passed :
    (w : World) (r : Request) (u : Bytes) (user : User) (s : State)
    → (admission w r u user s).1 ≡ true
    → (is_super_admin w r user s ≡ true) ⊎ PassesChecks w u user s
unfolding admission
admission-passed w r u user s passed = elim (Bool-cases (is_super_admin w r user s)) [
  | inl super ↦ inl super
  | inr plain ↦ inr (checks-PassesChecks w u user s (rw (plain, admission) at passed))
]
