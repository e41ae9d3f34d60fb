-- ===== src/Socks5/Wire.antt =====
-- The messages of internal/socks5/server.go: method negotiation, user name and password, the
-- request and the replies (RFC 1928, RFC 1929).
-- The state holds what the client still sends, the user store and the tracker that the servers
-- share, and the trace of what the handler does. Deadlines, log lines and the results of writes,
-- which the source ignores, are left out.
use multi_protocol_proxy.Prelude.{
  ℕ, zero, suc, ◌^◌, ◌+◌, ◌*◌, ◌/◌, ◌%◌, Bool, true, false, not, List, [], ◌∷◌, ◌++◌, Option, none,
  some, Bytes, codes, length, take, drop, leb, ◌==◌, if◌then◌else◌,
}
use multi_protocol_proxy.Host.{Host}
use multi_protocol_proxy.Auth.{UserStore, validate_credentials}
use multi_protocol_proxy.Tracker.{Tracker}
use multi_protocol_proxy.Decimal.{itoa}

-- What the handler does, in order. A metric is named by its counter and its label.
pub data Event : Type 0 where
  wrote : Bytes → Event
  dialed : Bytes → Event
  auth_failure rate_limited error_count connection_count : Bytes → Event
  active_up active_down : Event
  -- both directions run, throttled to so many Mbps where there is a limit
  relaying : Option ℕ → Event
  bytes_counted : Bytes → ℕ → ℕ → Event

pub record Session : Type 0 where
  pub input : Bytes
  pub store : UserStore
  pub tracker : Option Tracker
  pub trace : List Event

pub data Error : Type 0 where
  read_failed unsupported_version no_acceptable_method unsupported_auth_version : Error
  authentication_failed unsupported_command unsupported_address_type : Error

pub data Outcome (A : Type 0) : Type 0 where
  done : A → Session → Outcome A
  failed : Error → Session → Outcome A

abbrev pub M : Type 0 → Type 0
M A = Session → Outcome A

infixl 5 ◌>>=◌ ◌>>◌
abbrev pub ◌>>=◌ : {A B : Type 0} → M A → (A → M B) → M B
◌>>=◌ m f s = elim (m s) [ done a s' ↦ f a s' | failed e s' ↦ failed e s' ]

abbrev pub ◌>>◌ : {B : Type 0} → M (Unit {0}) → M B → M B
m >> k = m >>= λ _. k

abbrev pub return : {A : Type 0} → A → M A
return a s = done a s

abbrev pub fail : {A : Type 0} → Error → M A
fail e s = failed e s

abbrev pub emit : Event → M (Unit {0})
emit e s = done tt (record s { trace = s.trace ++ (e ∷ []) })

-- `io.ReadFull` into a buffer of `n` bytes. A client that sends fewer has its bytes consumed.
unfoldable pub read_full : ℕ → M Bytes
read_full n s =
    if leb n (length s.input)
    then done (take n s.input) (record s { input = drop n s.input })
    else failed read_failed (record s { input = [] })

-- `buf[i]`, for an index below the length of the buffer.
abbrev pub byte_at : Bytes → ℕ → ℕ
byte_at [] i = 0
byte_at (b ∷ bs) zero = b
byte_at (b ∷ bs) (suc i) = byte_at bs i

abbrev pub version5 : ℕ
version5 = 0x05

abbrev pub method_user_pass : ℕ
method_user_pass = 0x02

abbrev pub method_no_acceptable : ℕ
method_no_acceptable = 0xFF

abbrev pub user_pass_version : ℕ
user_pass_version = 0x01

abbrev pub method_no_auth : ℕ
method_no_auth = 0x00

abbrev pub cmd_connect : ℕ
cmd_connect = 0x01

abbrev pub addr_type_ipv4 : ℕ
addr_type_ipv4 = 0x01

abbrev pub addr_type_domain : ℕ
addr_type_domain = 0x03

abbrev pub addr_type_ipv6 : ℕ
addr_type_ipv6 = 0x04

abbrev pub reply_succeeded : ℕ
reply_succeeded = 0x00

abbrev pub reply_host_unreachable : ℕ
reply_host_unreachable = 0x04

abbrev pub reply_cmd_not_supported : ℕ
reply_cmd_not_supported = 0x07

abbrev pub reply_addr_type_not_supported : ℕ
reply_addr_type_not_supported = 0x08

-- The part of `authenticateUser` behind the reading.
unfoldable pub check_password : Host → ℕ → Bytes → Bytes → M Bytes
check_password h now username password s =
    let (store, user) = validate_credentials h s.store now username password in
    let s' : Session = record s { store = store } in
    elim user [
      | none ↦
          (do
            emit (wrote (user_pass_version ∷ 0x01 ∷ []))
            emit (auth_failure (codes "invalid_credentials"))
            fail authentication_failed)
            s'
      | some _ ↦ (do emit (wrote (user_pass_version ∷ 0x00 ∷ [])); return username) s'
    ]

-- `string(username)` and `string(password)` are the bytes read.
unfoldable pub authenticate_user : Host → ℕ → M Bytes
authenticate_user h now = do
  buf ← read_full 2
  if not (byte_at buf 0 == user_pass_version) then fail unsupported_auth_version else do
    username ← read_full (byte_at buf 1)
    len ← read_full 1
    password ← read_full (byte_at len 0)
    check_password h now username password

unfoldable pub offers_user_pass : Bytes → Bool
offers_user_pass [] = false
offers_user_pass (m ∷ ms) = if m == method_user_pass then true else offers_user_pass ms

unfoldable pub handle_method_negotiation : Host → ℕ → M Bytes
handle_method_negotiation h now = do
  buf ← read_full 2
  if not (byte_at buf 0 == version5) then fail unsupported_version else do
    methods ← read_full (byte_at buf 1)
    if not (offers_user_pass methods)
        then (do
          emit (wrote (version5 ∷ method_no_acceptable ∷ []))
          emit (auth_failure (codes "no_auth_method"))
          fail no_acceptable_method)
        else do emit (wrote (version5 ∷ method_user_pass ∷ [])); authenticate_user h now

-- Nothing calls this variant.
unfoldable pub handle_method_negotiation_no_auth : M Bytes
handle_method_negotiation_no_auth = do
  buf ← read_full 2
  if not (byte_at buf 0 == version5) then fail unsupported_version else do
    methods ← read_full (byte_at buf 1)
    emit (wrote (version5 ∷ method_no_auth ∷ []))
    return []

-- A `net.TCPAddr`: the four bytes of `IP.To4()`, `none` for another address, and the port.
pub record TcpAddr : Type 0 where
  pub ip4 : Option Bytes
  pub port : ℕ

-- `copy(resp[4:8], ip)` into four zeros.
abbrev pub four_bytes : Option Bytes → Bytes
four_bytes none = 0 ∷ 0 ∷ 0 ∷ 0 ∷ []
four_bytes (some ip) = byte_at ip 0 ∷ byte_at ip 1 ∷ byte_at ip 2 ∷ byte_at ip 3 ∷ []

unfoldable pub reply_bytes : ℕ → Option TcpAddr → Bytes
reply_bytes reply none =
    version5 ∷ reply ∷ 0x00 ∷ addr_type_ipv4 ∷ (four_bytes none ++ (0 ∷ 0 ∷ []))
reply_bytes reply (some addr) =
    version5
    ∷ reply
    ∷ 0x00
    ∷ addr_type_ipv4
    ∷ (four_bytes addr.ip4 ++ ((addr.port % 2 ^ 16 / 256) ∷ (addr.port % 256) ∷ []))

unfoldable pub send_reply : ℕ → Option TcpAddr → M (Unit {0})
send_reply reply addr = emit (wrote (reply_bytes reply addr))

-- The switch over the address type.
unfoldable pub read_host : Host → ℕ → M Bytes
read_host h addr_type =
    if addr_type == addr_type_ipv4
    then (do addr ← read_full 4; return (h.format_ip addr))
    else if addr_type == addr_type_domain
    then (do len ← read_full 1; read_full (byte_at len 0))
    else if addr_type == addr_type_ipv6
    then (do addr ← read_full 16; return (h.format_ip addr))
    else (do send_reply reply_addr_type_not_supported none; fail unsupported_address_type)

-- `host:port` for the dialer.
unfoldable pub handle_request : Host → M Bytes
handle_request h = do
  buf ← read_full 4
  if not (byte_at buf 0 == version5)
      then fail unsupported_version
      else if not (byte_at buf 1 == cmd_connect)
      then (do send_reply reply_cmd_not_supported none; fail unsupported_command)
      else do
        host ← read_host h (byte_at buf 3)
        port_buf ← read_full 2
        return (host ++ (codes ":" ++ itoa (byte_at port_buf 0 * 256 + byte_at port_buf 1)))
