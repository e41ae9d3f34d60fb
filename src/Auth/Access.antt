-- ===== src/Auth/Access.antt =====
-- The address and expiry checks of internal/auth/auth.go.
use multi_protocol_proxy.Prelude.{
  ℕ, ◌≤◌, true, false, List, [], ◌∷◌, none, some, Bytes, ◌≡◌, ◌≢◌, ◌⊎◌, ◌↔◌, refl, arith, ◌==◌,
  length, lookup, to_lower, str_eq_iff, Option-cases, Bool-cases, inl, inr, some_inj,
}
use multi_protocol_proxy.Host.{Host, IpNet}
use multi_protocol_proxy.Auth.{
  User, UserStore, parse_ip, any_contains, in_networks, check_ip_allowed, is_super_admin_ip,
  get_user, not_expired, check_expiry,
}

-- Some network of the list holds the address.
abbrev pub InSome : Host → List IpNet → Bytes → Type 0
InSome h [] ip = ⊥
InSome h (n ∷ ns) ip = (h.net_contains n ip ≡ true) ⊎ InSome h ns ip

pub any_contains_iff :
    (h : Host) (ns : List IpNet) (ip : Bytes) → (any_contains h ns ip ≡ true) ↔ InSome h ns ip
unfolding any_contains
any_contains_iff h [] ip = (λ e. cc, λ b. absurd b)
any_contains_iff h (n ∷ ns) ip =
    let r = any_contains_iff h ns ip in
    (
      λ e. elim (Bool-cases (h.net_contains n ip)) [
        | inl y ↦ inl y
        | inr m ↦ inr (r.0 (rw m at e))
      ],
      λ b. ground (arith, r),
    )

-- The client's address, its port cut off, parses and lies in some network of the list.
abbrev pub Lies : Host → List IpNet → Bytes → Type 0
Lies h ns ip_str = (ip : Bytes) × (parse_ip h ip_str ≡ some ip) × InSome h ns ip

in_networks_iff :
    (h : Host) (ns : List IpNet) (ip_str : Bytes)
    → (in_networks h ns ip_str ≡ true) ↔ Lies h ns ip_str
unfolding in_networks
in_networks_iff h ns ip_str = elim (Option-cases (parse_ip h ip_str)) [
  | inl bad ↦ rw (bad, in_networks) (λ e. cc, λ l. cc (l.1))
  | inr (ip, good) ↦
      rw (good, in_networks)
        (
          λ e. (ip, refl, (any_contains_iff h ns ip).0 e),
          λ l. rw (some_inj l.1) ((any_contains_iff h ns l.0).1 l.2),
        )
]

length_zero : (ns : List IpNet) → ((length ns == 0) ≡ true) ↔ (ns ≡ [])
length_zero [] = (λ _. refl, λ _. refl)
length_zero (n ∷ ns) = (λ e. ground arith, λ e. cc)

-- A client may connect exactly when the whitelist is empty or its address parses and lies in one
-- of the whitelist's networks.
pub check_ip_allowed_iff :
    (h : Host) (s : UserStore) (ip_str : Bytes)
    → (check_ip_allowed h s ip_str ≡ true) ↔ ((s.ip_whitelist ≡ []) ⊎ Lies h s.ip_whitelist ip_str)
unfolding check_ip_allowed
check_ip_allowed_iff h s ip_str = elim (Bool-cases (length s.ip_whitelist == 0)) [
  | inl e ↦ rw e (λ _. inl ((length_zero s.ip_whitelist).0 e), λ _. refl)
  | inr e ↦ rw e (
    λ l. inr ((in_networks_iff h s.ip_whitelist ip_str).0 l),
    λ l. elim l [
      | inl z ↦ ground (arith, (length_zero s.ip_whitelist).1 z)
      | inr y ↦ (in_networks_iff h s.ip_whitelist ip_str).1 y
    ],
  )
]

in_networks-nil :
    (h : Host) (ns : List IpNet) (ip_str : Bytes)
    → in_networks h ns ip_str ≡ true
    → (length ns == 0) ≡ false
unfolding in_networks any_contains
in_networks-nil h [] ip_str e = ground arith
in_networks-nil h (n ∷ ns) ip_str e = ground arith

-- The super admin is recognised exactly when there is one and the address lies in one of the
-- networks of super admins; no list of such networks recognises nobody.
pub is_super_admin_ip_iff :
    (h : Host) (s : UserStore) (ip_str : Bytes) (u : User)
    → (is_super_admin_ip h s ip_str ≡ some u)
      ↔ ((s.super_admin_user ≡ some u) × Lies h s.super_admin_ips ip_str)
unfolding is_super_admin_ip
is_super_admin_ip_iff h s ip_str u =
    let found = in_networks_iff h s.super_admin_ips ip_str in
    let listed = in_networks-nil h s.super_admin_ips ip_str in
    (
      λ e. elim (Bool-cases (in_networks h s.super_admin_ips ip_str)) [
        | inl y ↦ (ground (arith, e), found.0 y)
        | inr m ↦ ground (arith, e)
      ],
      λ l. ground (arith, l.0, found.1 l.1, listed),
    )

-- The account has a date that parses, and it is not after `now`.
abbrev pub Expired : Host → User → ℕ → Type 0
Expired h u now =
    (t : ℕ) × (u.expires_at ≢ []) × (h.parse_rfc3339 u.expires_at ≡ some t) × (t ≤ now)

not_expired_iff : (h : Host) (u : User) (now : ℕ) → (not_expired h u now ≡ false) ↔ Expired h u now
unfolding not_expired
not_expired_iff h u now = elim (Option-cases (h.parse_rfc3339 u.expires_at)) [
  | inl bad ↦ (λ e. ground arith, λ x. ground (arith, x.2))
  | inr (t, good) ↦ (
    λ e. (t, ground (arith, str_eq_iff u.expires_at []), good, ground arith),
    λ x. ground (arith, x.2, x.3, str_eq_iff u.expires_at [], x.1),
  )
]

-- A name does not pass exactly when it is not listed or its account has a date that parses and is
-- not after `now`.
pub check_expiry_iff :
    (h : Host) (s : UserStore) (name : Bytes) (now : ℕ)
    → (check_expiry h s name now ≡ false)
      ↔ ((get_user s name ≡ none) ⊎ ((u : User) × (get_user s name ≡ some u) × Expired h u now))
unfolding check_expiry get_user
check_expiry_iff h s name now = elim (Option-cases (lookup (to_lower name) s.users)) [
  | inl gone ↦ (λ _. inl gone, λ _. rw (gone, check_expiry))
  | inr (u, e) ↦ (
    λ f. inr (u, e, (not_expired_iff h u now).0 (rw (e, check_expiry) at f)),
    λ r. elim r [
      | inl gone ↦ cc
      | inr (v, f, x) ↦ rw (f, check_expiry) ((not_expired_iff h v now).1 x)
    ],
  )
]
