-- ===== src/Host.antt =====
-- What the program takes from packages outside the repository and from the machine: bcrypt,
-- SHA-256, address parsing, time parsing, base64. The models take a value of this record, and a
-- theorem that needs a documented law of one of the functions has the law as a hypothesis.
use multi_protocol_proxy.Prelude.{ℕ, Bool, false, Option, Bytes, contains_byte, ◌≡◌}

-- `net.IPNet`.
pub record IpNet : Type 0 where
  pub ip : Bytes
  pub mask : Bytes

pub record Host : Type 0 where
  -- `bcrypt.CompareHashAndPassword(hash, password) == nil`
  pub compare_hash : Bytes → Bytes → Bool
  -- `hex.EncodeToString(sha256.Sum256(password))`
  pub sha256_hex : Bytes → Bytes
  -- `net.ParseIP`, `none` for nil
  pub parse_ip : Bytes → Option Bytes
  -- `net.IP(addr).String()`
  pub format_ip : Bytes → Bytes
  -- the network that `net.ParseCIDR` returns, `none` on an error
  pub parse_cidr : Bytes → Option IpNet
  -- the host that `net.SplitHostPort` returns, `none` on an error
  pub split_host_port : Bytes → Option Bytes
  -- `ipNet.Contains(ip)`
  pub net_contains : IpNet → Bytes → Bool
  -- `time.Parse(time.RFC3339, s)`, in nanoseconds
  pub parse_rfc3339 : Bytes → Option ℕ
  -- `base64.StdEncoding.DecodeString`
  pub decode_base64 : Bytes → Option Bytes

-- No two passwords that the program meets have one SHA-256 digest.
abbrev pub CollisionFree : Host → Type 0
CollisionFree h = (p q : Bytes) → h.sha256_hex p ≡ h.sha256_hex q → p ≡ q

-- A digest is written in hexadecimal digits, so without a colon.
abbrev pub DigestsAreHex : Host → Type 0
DigestsAreHex h = (p : Bytes) → contains_byte (h.sha256_hex p) b':' ≡ false
