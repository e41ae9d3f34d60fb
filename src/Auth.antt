-- ===== src/Auth.antt =====
-- internal/auth/auth.go: the users, the allowed addresses and the cache of checked credentials.
-- Each exported method is one step here. `ValidateCredentials` lets its locks go between the cache,
-- the users and the cache again: Auth/Steps has it in steps. A `*User` is never written through after
-- loading, so it is a value. `now` is the reading of the clock.
pub mod Cache
pub mod Access
pub mod Networks
pub mod Loading
pub mod Refinement
pub mod Steps
use mathlib.Core.Option
use multi_protocol_proxy.Prelude.{
  ℕ, ◌+◌, ◌*◌, ◌^◌, Bool, true, false, not, ◌&&◌, List, [], ◌∷◌, ◌++◌, Option, none, some, Bytes,
  codes, Map, lookup, insert, delete_if, has_prefix, contains_byte, to_lower, str_eq, ltb, positive,
  length, ◌==◌, if◌then◌else◌,
}
use multi_protocol_proxy.Host.{Host, IpNet}
use multi_protocol_proxy.RateLimit.{RateLimiter, new_rate_limiter, set_limit, allow}

pub record User : Type 0 where
  pub username : Bytes
  pub role : Bytes
  pub password_hash : Bytes
  pub rate_limit_rpm : ℕ
  pub enabled : Bool
  pub plan : Bytes
  pub bandwidth_limit_gb : ℕ
  pub bandwidth_speed_mbps : ℕ
  pub max_connections : ℕ
  pub expires_at : Bytes

pub record UsersConfig : Type 0 where
  pub users : List User
  pub ip_whitelist : List Bytes
  pub super_admin_ips : List Bytes

pub record CredCacheEntry : Type 0 where
  pub user : User
  pub valid_until : ℕ

pub record UserStore : Type 0 where
  pub users : Map User
  pub ip_whitelist : List IpNet
  pub super_admin_ips : List IpNet
  pub super_admin_user : Option User
  pub rate_limiter : RateLimiter
  pub cred_cache : Map CredCacheEntry

-- Five minutes, in nanoseconds.
abbrev pub cred_cache_ttl : ℕ
cred_cache_ttl = 5 * 60 * 10 ^ 9

unfoldable pub invalidate_all_credentials : UserStore → UserStore
invalidate_all_credentials s = record s { cred_cache = [] }

unfoldable pub invalidate_user : UserStore → Bytes → UserStore
invalidate_user s username =
    let prefix = to_lower username ++ codes ":" in
    record s { cred_cache = delete_if (λ key. has_prefix key prefix) s.cred_cache }

unfoldable pub parse_cidr : Host → Bytes → Option IpNet
parse_cidr h cidr = h.parse_cidr (
    if not (contains_byte cidr b'/')
    then (if contains_byte cidr b':' then cidr ++ codes "/128" else cidr ++ codes "/32")
    else cidr)

unfoldable pub parse_ip : Host → Bytes → Option Bytes
parse_ip h ip_str =
    if contains_byte ip_str b':'
    then h.parse_ip (Option.get_or (h.split_host_port ip_str) ip_str)
    else h.parse_ip ip_str

-- `ipNet.Contains(ip)` for some network of the list.
unfoldable pub any_contains : Host → List IpNet → Bytes → Bool
any_contains h [] ip = false
any_contains h (n ∷ ns) ip = if h.net_contains n ip then true else any_contains h ns ip

-- The address of the client parses, and lies in a network of the list.
unfoldable pub in_networks : Host → List IpNet → Bytes → Bool
in_networks h nets ip_str = elim (parse_ip h ip_str) [
  | none ↦ false
  | some ip ↦ any_contains h nets ip
]

unfoldable pub check_ip_allowed : Host → UserStore → Bytes → Bool
check_ip_allowed h s ip_str =
    if length s.ip_whitelist == 0 then true else in_networks h s.ip_whitelist ip_str

unfoldable pub is_super_admin_ip : Host → UserStore → Bytes → Option User
is_super_admin_ip h s ip_str = elim s.super_admin_user [
  | none ↦ none
  | some admin ↦
      if length s.super_admin_ips == 0
      then none
      else if in_networks h s.super_admin_ips ip_str
      then some admin
      else none
]

unfoldable pub cache_key : Host → Bytes → Bytes → Bytes
cache_key h username password = to_lower username ++ (codes ":" ++ h.sha256_hex password)

-- The entry of the cache that `ValidateCredentials` accepts.
unfoldable pub fresh_entry : Option CredCacheEntry → ℕ → Option User
fresh_entry none now = none
fresh_entry (some e) now = if ltb now e.valid_until then some e.user else none

-- The part of `ValidateCredentials` behind the cache.
unfoldable pub verify : Host → UserStore → ℕ → Bytes → Bytes → Bytes → UserStore × Option User
verify h s now username password key = elim (lookup (to_lower username) s.users) [
  | none ↦ (s, none)
  | some user ↦
      if h.compare_hash user.password_hash password
      then (
        record s {
          cred_cache =
              insert key (record { user = user; valid_until = now + cred_cache_ttl }) s.cred_cache;
        },
        some user,
      )
      else (s, none)
]

unfoldable pub validate_credentials : Host → UserStore → ℕ → Bytes → Bytes → UserStore × Option User
unfolding fresh_entry verify
validate_credentials h s now username password =
    let key = cache_key h username password in
    elim (fresh_entry (lookup key s.cred_cache) now) [
      | some user ↦ (s, some user)
      | none ↦ verify h s now username password key
    ]

unfoldable pub check_rate_limit : UserStore → Bytes → ℕ → UserStore × Bool
check_rate_limit s username now = elim (lookup (to_lower username) s.users) [
  | none ↦ (s, false)
  | some user ↦
      if not (positive user.rate_limit_rpm)
      then (s, true)
      else let (r, admitted) = allow s.rate_limiter username now in
        (record s { rate_limiter = r }, admitted)
]

unfoldable pub get_user_count : UserStore → ℕ
get_user_count s = length s.users

unfoldable pub get_user : UserStore → Bytes → Option User
get_user s username = lookup (to_lower username) s.users

-- A date that does not parse counts as no expiry.
unfoldable pub not_expired : Host → User → ℕ → Bool
not_expired h user now =
    if str_eq user.expires_at []
    then true
    else elim (h.parse_rfc3339 user.expires_at) [ none ↦ true | some t ↦ ltb now t ]

unfoldable pub check_expiry : Host → UserStore → Bytes → ℕ → Bool
check_expiry h s username now = elim (lookup (to_lower username) s.users) [
  | none ↦ false
  | some user ↦ not_expired h user now
]

-- What reading the users file gives: the text of a file that cannot be read or is no JSON
-- object of this shape is not looked at further.
pub data UsersFile : Type 0 where
  unreadable unparsable : UsersFile
  parsed : UsersConfig → UsersFile

pub data LoadError : Type 0 where
  read_failed parse_failed : LoadError
  invalid_whitelist invalid_super_admin : Bytes → LoadError

-- The loop over `cfg.Users`.
unfoldable pub load_users : List User → Map User → RateLimiter → ℕ → Map User × RateLimiter
load_users [] users limiter now = (users, limiter)
load_users (u ∷ us) users limiter now =
    load_users us (if u.enabled then insert (to_lower u.username) u users else users)
      (if u.enabled && positive u.rate_limit_rpm
        then set_limit limiter u.username u.rate_limit_rpm now
        else limiter)
      now

-- The first super admin in the order in which `range` visits the map.
unfoldable pub find_super_admin : Map User → Option User
find_super_admin [] = none
find_super_admin ((k, u) ∷ m) =
    if str_eq (to_lower u.role) (codes "super_admin") then some u else find_super_admin m

-- The networks parsed so far, and the entry that did not parse.
unfoldable pub parse_cidrs : Host → List Bytes → List IpNet → List IpNet × Option Bytes
unfolding parse_cidr
parse_cidrs h [] nets = (nets, none)
parse_cidrs h (c ∷ cs) nets = elim (parse_cidr h c) [
  | none ↦ (nets, some c)
  | some n ↦ parse_cidrs h cs (nets ++ n ∷ [])
]

-- The last loop and the reset of the cache.
unfoldable pub load_super_admins : Host → UserStore → List Bytes → UserStore × Option LoadError
unfolding parse_cidrs invalidate_all_credentials
load_super_admins h s ips =
    let (nets, bad) = parse_cidrs h ips [] in
    let s' : UserStore = record s { super_admin_ips = nets } in
    elim bad [
      | some c ↦ (s', some (invalid_super_admin c))
      | none ↦ (invalidate_all_credentials s', none)
    ]

-- The maps and the whitelist, up to its first bad entry. `order` is the order in which `range`
-- visits a map. The clock is read once for all buckets.
unfoldable pub load_maps : Host → (Map User → Map User) → UserStore → UsersConfig → ℕ → UserStore
unfolding load_users find_super_admin parse_cidrs
load_maps h order s cfg now =
    let (users, limiter) = load_users cfg.users [] s.rate_limiter now in
    record s {
      users = users;
      rate_limiter = limiter;
      super_admin_user = find_super_admin (order users);
      ip_whitelist = (parse_cidrs h cfg.ip_whitelist []).0;
    }

unfoldable pub load_config :
    Host → (Map User → Map User) → UserStore → UsersConfig → ℕ → UserStore × Option LoadError
unfolding load_maps load_super_admins
load_config h order s cfg now = elim (parse_cidrs h cfg.ip_whitelist []).1 [
  | some c ↦ (load_maps h order s cfg now, some (invalid_whitelist c))
  | none ↦ load_super_admins h (load_maps h order s cfg now) cfg.super_admin_ips
]

unfoldable pub load_from_file :
    Host → (Map User → Map User) → UserStore → UsersFile → ℕ → UserStore × Option LoadError
unfolding load_config
load_from_file h order s unreadable now = (s, some read_failed)
load_from_file h order s unparsable now = (s, some parse_failed)
load_from_file h order s (parsed cfg) now = load_config h order s cfg now

abbrev pub empty_store : UserStore
empty_store = record {
  users = [];
  ip_whitelist = [];
  super_admin_ips = [];
  super_admin_user = none;
  rate_limiter = new_rate_limiter;
  cred_cache = [];
}

-- `NewUserStore`: no store on an error.
unfoldable pub new_user_store : Host → (Map User → Map User) → UsersFile → ℕ → Option UserStore
new_user_store h order file now =
    let (s, e) = load_from_file h order empty_store file now in
    elim e [ none ↦ some s | some _ ↦ none ]
