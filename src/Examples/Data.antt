-- ===== src/Examples/Data.antt =====
-- A host, users and a tracker to try the theorems on.
use multi_protocol_proxy.Prelude.{
  ◌+◌, true, [], ◌∷◌, none, some, Bytes, codes, str_eq, contains_byte, ◌≡◌, refl, arith,
}
use multi_protocol_proxy.Host.{Host, IpNet, CollisionFree, DigestsAreHex}
use multi_protocol_proxy.RateLimit.{new_rate_limiter}
use multi_protocol_proxy.Auth.{User, UserStore, UsersConfig}
use multi_protocol_proxy.Tracker.{Tracker, Moment, UserUsage}

-- A digest that moves every byte behind the colon.
abbrev pub moved : Bytes → Bytes
moved [] = []
moved (c ∷ s) = (c + 59) ∷ moved s

-- A hash is the password itself, an address is any text, and a network is its one address.
abbrev pub toy_host : Host
toy_host = record {
  compare_hash = str_eq;
  sha256_hex = moved;
  parse_ip = some;
  format_ip = λ ip. ip;
  parse_cidr = λ s. some (record { ip = s; mask = [] });
  split_host_port = λ s. none;
  net_contains = λ (n : IpNet) ip. str_eq n.ip ip;
  parse_rfc3339 = λ s. some 100;
  decode_base64 = some;
}

pub toy_host-CollisionFree : CollisionFree toy_host
toy_host-CollisionFree [] [] e = refl
toy_host-CollisionFree [] (d ∷ q) e = absurd (cc (e))
toy_host-CollisionFree (c ∷ p) [] e = absurd (cc (e))
toy_host-CollisionFree (c ∷ p) (d ∷ q) e =
    let tail : moved p ≡ moved q = cc (e) in
    let first : c + 59 ≡ d + 59 = cc (e) in
    let byte : c ≡ d = omega (arith, first) in
    let rest = toy_host-CollisionFree p q tail in cc (byte, rest)

pub toy_host-DigestsAreHex : DigestsAreHex toy_host
unfolding contains_byte
toy_host-DigestsAreHex [] = refl
toy_host-DigestsAreHex (c ∷ p) = ground (arith, toy_host-DigestsAreHex p)

abbrev pub alice : User
alice = record {
  username = codes "Alice";
  role = codes "user";
  password_hash = codes "pw";
  rate_limit_rpm = 6;
  enabled = true;
  plan = [];
  bandwidth_limit_gb = 1;
  bandwidth_speed_mbps = 0;
  max_connections = 2;
  expires_at = [];
}

abbrev pub one_user : UsersConfig
one_user = record { users = alice ∷ []; ip_whitelist = []; super_admin_ips = [] }

abbrev pub one_user_store : UserStore
one_user_store = record {
  users = (codes "alice", alice) ∷ [];
  ip_whitelist = [];
  super_admin_ips = [];
  super_admin_user = none;
  rate_limiter = new_rate_limiter;
  cred_cache = [];
}

abbrev pub may : Moment
may = record { month = codes "2025-05"; stamp = []; writable = true }

abbrev pub june : Moment
june = record { month = codes "2025-06"; stamp = []; writable = true }

abbrev pub some_usage : UserUsage
some_usage = record {
  bytes_up = 3;
  bytes_down = 4;
  total_bytes = 7;
  last_reset_at = [];
  active_conns = 1;
}

abbrev pub one_usage : Tracker
one_usage = record {
  users = (codes "alice", some_usage) ∷ [];
  month = codes "2025-05";
  disk = none;
}
