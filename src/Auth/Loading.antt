-- ===== src/Auth/Loading.antt =====
-- What internal/auth/auth.go makes of the users file.
use multi_protocol_proxy.Prelude.{
  ℕ, true, ◌&&◌, List, [], ◌∷◌, Option, none, some, Bytes, ◌≡◌, ◌≢◌, refl, arith, Map, lookup,
  to_lower, str_eq, str_eq_iff, All, if◌then◌else◌, lookup-insert, is_some, Option-cases, inl, inr,
  ◌∙◌, ap,
}
use multi_protocol_proxy.Host.{Host}
use multi_protocol_proxy.RateLimit.{RateLimiter, set_limit, allow}
use multi_protocol_proxy.Auth.{
  User, UserStore, UsersConfig, UsersFile, parsed, load_users, load_config, load_maps,
  load_super_admins, parse_cidrs, unreadable, unparsable, load_from_file, empty_store, get_user,
  check_rate_limit,
}

-- The last enabled user of the list whose name is `k` in lower case.
abbrev pub last_enabled : Bytes → List User → Option User
last_enabled k [] = none
last_enabled k (u ∷ us) = elim (last_enabled k us) [
  | some v ↦ some v
  | none ↦ if u.enabled && str_eq (to_lower u.username) k then some u else none
]

abbrev or_else : Option User → Option User → Option User
or_else (some v) o = some v
or_else none o = o

or_else-none : (o : Option User) → or_else o none ≡ o
or_else-none none = refl
or_else-none (some v) = refl

load_users-lookup :
    (k : Bytes) (us : List User) (m : Map User) (r : RateLimiter) (now : ℕ)
    → lookup k (load_users us m r now).0 ≡ or_else (last_enabled k us) (lookup k m)
unfolding load_users
load_users-lookup k [] m r now = refl
load_users-lookup k (u ∷ us) m r now =
    load_users-lookup k us _ _ now ∙ ground (arith, lookup-insert (to_lower u.username) k u m)

set_limit-lookup :
    (r : RateLimiter) (u name : Bytes) (rpm now : ℕ)
    → u ≢ name
    → lookup name (set_limit r u rpm now).buckets ≡ lookup name r.buckets
unfolding set_limit
set_limit-lookup r u name rpm now h = rw lookup-insert (ground (arith, str_eq_iff u name))

-- No user of the list is spelled exactly so.
abbrev pub Unspelt : Bytes → List User → Type 0
Unspelt name = All (λ u. u.username ≢ name)

load_users-bucket :
    (name : Bytes) (us : List User) (m : Map User) (r : RateLimiter) (now : ℕ)
    → Unspelt name us
    → lookup name r.buckets ≡ none
    → lookup name (load_users us m r now).1.buckets ≡ none
unfolding load_users
load_users-bucket name [] m r now un e = e
load_users-bucket name (u ∷ us) m r now un e =
    load_users-bucket name us _ _ now un.1
      (ground (arith, set_limit-lookup r u.username name u.rate_limit_rpm now un.0))

load_super_admins-keeps :
    (h : Host) (s : UserStore) (ips : List Bytes)
    → ((load_super_admins h s ips).0.users ≡ s.users)
      × ((load_super_admins h s ips).0.rate_limiter ≡ s.rate_limiter)
      × ((load_super_admins h s ips).0.cred_cache
          ≡ (if is_some (load_super_admins h s ips).1 then s.cred_cache else []))
unfolding load_super_admins
load_super_admins-keeps h s ips = ground arith

load_config-keeps :
    (h : Host) (order : Map User → Map User) (s : UserStore) (cfg : UsersConfig) (now : ℕ)
    → let loaded = load_users cfg.users [] s.rate_limiter now in
      let (t, e) = load_config h order s cfg now in
      (t.users ≡ loaded.0)
      × (t.rate_limiter ≡ loaded.1)
      × (t.cred_cache ≡ (if is_some e then s.cred_cache else []))
unfolding load_config
load_config-keeps h order s cfg now = elim (Option-cases (parse_cidrs h cfg.ip_whitelist []).1) [
  | inl e ↦
      rw (e, load_config)
        (load_super_admins-keeps h (load_maps h order s cfg now) cfg.super_admin_ips)
  | inr (c, e) ↦ rw (e, load_config) (refl, refl, refl)
]

-- After loading, a name finds the last enabled user of that name up to case, and no disabled one;
-- a failed CIDR entry does not undo this.
pub load-last_enabled :
    (h : Host) (order : Map User → Map User) (s : UserStore) (cfg : UsersConfig) (now : ℕ)
    (name : Bytes)
    → get_user (load_from_file h order s (parsed cfg) now).0 name
      ≡ last_enabled (to_lower name) cfg.users
unfolding load_from_file get_user lookup
load-last_enabled h order s cfg now name =
    ap (lookup (to_lower name)) (load_config-keeps h order s cfg now).0
    ∙ load_users-lookup (to_lower name) cfg.users [] s.rate_limiter now
    ∙ or_else-none (last_enabled (to_lower name) cfg.users)

-- Loading empties the cache of credentials if it succeeds, and leaves it as it was if it fails.
pub load-cache :
    (h : Host) (order : Map User → Map User) (s : UserStore) (file : UsersFile) (now : ℕ)
    → let r = load_from_file h order s file now in
      r.0.cred_cache ≡ (if is_some r.1 then s.cred_cache else [])
unfolding load_from_file
load-cache h order s unreadable now = refl
load-cache h order s unparsable now = refl
load-cache h order s (parsed cfg) now = (load_config-keeps h order s cfg now).2

never_limited :
    (s : UserStore) (name : Bytes) (now : ℕ) (u : User)
    → lookup (to_lower name) s.users ≡ some u
    → lookup name s.rate_limiter.buckets ≡ none
    → check_rate_limit s name now ≡ (s, true)
unfolding check_rate_limit allow
never_limited s name now u listed no_bucket = ground arith

load-no_bucket :
    (h : Host) (order : Map User → Map User) (cfg : UsersConfig) (loaded : ℕ) (name : Bytes)
    → Unspelt name cfg.users
    → lookup name (load_from_file h order empty_store (parsed cfg) loaded).0.rate_limiter.buckets
      ≡ none
unfolding load_from_file lookup
load-no_bucket h order cfg loaded name un =
    ap (λ (r : RateLimiter). lookup name r.buckets)
      (load_config-keeps h order empty_store cfg loaded).1
    ∙ load_users-bucket name cfg.users [] _ loaded un refl

-- A name that belongs to a loaded user up to case, but that no user of the file is spelled by, is
-- never rate limited: a fresh store has no bucket under that spelling.
pub load-unlimited :
    (h : Host) (order : Map User → Map User) (cfg : UsersConfig) (loaded now : ℕ) (name : Bytes)
    → Unspelt name cfg.users
    → last_enabled (to_lower name) cfg.users ≢ none
    → let s = (load_from_file h order empty_store (parsed cfg) loaded).0 in
      check_rate_limit s name now ≡ (s, true)
unfolding get_user
load-unlimited h order cfg loaded now name un known =
    elim (Option-cases (last_enabled (to_lower name) cfg.users)) [
      | inl unknown ↦ absurd (known unknown)
      | inr (u, e) ↦
          never_limited (load_from_file h order empty_store (parsed cfg) loaded).0 name now u
            (load-last_enabled h order empty_store cfg loaded name ∙ e)
            (load-no_bucket h order cfg loaded name un)
    ]
