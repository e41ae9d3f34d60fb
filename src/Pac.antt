-- ===== src/Pac.antt =====
-- internal/pac/pac.go: the server of PAC files and its rate limit. Times are in nanoseconds.
-- `checkRateLimit` holds the handler's mutex, so it is one step. Log lines are left out.
pub mod Limit
pub mod Entitled
use multi_protocol_proxy.Prelude.{
  ℕ, zero, suc, ◌+◌, ◌-◌, ◌*◌, Bool, true, false, not, ◌&&◌, ◌||◌, List, [], ◌∷◌, ◌++◌, Option,
  none, some, Bytes, codes, str_eq, ◌==◌, ltb, leb, if◌then◌else◌, Map, lookup, insert, positive,
  slt, add64,
}
use multi_protocol_proxy.Host.{Host}
use multi_protocol_proxy.Auth.{UserStore, validate_credentials}
use multi_protocol_proxy.HttpProxy.Headers.{Header, header_get}

pub record Config : Type 0 where
  pub enabled : Bool
  pub proxy_host : Bytes
  pub http_port : Bytes
  pub socks5_port : Bytes
  pub token : Bytes
  pub default_user : Bytes
  pub rate_limit_rpm : ℕ

-- The handler without its user store, which is passed beside it.
pub record Handler : Type 0 where
  pub config : Config
  pub rate_tokens : Map ℕ
  pub rate_window : Map ℕ

-- `query` is `r.URL.Query().Get`.
pub record Request : Type 0 where
  pub remote_addr : Bytes
  pub header : Header
  pub query : Bytes → Bytes

pub record Response : Type 0 where
  pub status : ℕ
  pub header : Header
  pub body : Bytes

abbrev pub new_handler : Config → Handler
new_handler config = record { config = config; rate_tokens = []; rate_window = [] }

-- `time.Minute`.
abbrev pub minute : ℕ
minute = 60 * 1000000000

-- `h.rateTokens[clientIP]`, 0 for a missing key.
abbrev pub count_or_zero : Option ℕ → ℕ
count_or_zero none = 0
count_or_zero (some n) = n

-- `!exists || now.Sub(windowStart) > time.Minute`.
abbrev pub opens : Option ℕ → ℕ → Bool
opens none now = true
opens (some start) now = ltb (start + minute) now

unfoldable pub check_rate_limit : Handler → Bytes → ℕ → Handler × Bool
check_rate_limit h client_ip now =
    let tokens = count_or_zero (lookup client_ip h.rate_tokens) in
    if opens (lookup client_ip h.rate_window) now
    then (
      record h {
        rate_window = insert client_ip now h.rate_window;
        rate_tokens = insert client_ip 1 h.rate_tokens;
      },
      true,
    )
    else if slt tokens h.config.rate_limit_rpm
    then (record h { rate_tokens = insert client_ip (add64 tokens 1) h.rate_tokens }, true)
    else (h, false)

-- `strings.Split(s, ",")[0]`.
unfoldable pub before_comma : Bytes → Bytes
before_comma [] = []
before_comma (c ∷ s) = let rest = before_comma s in if c == b',' then [] else c ∷ rest

-- White space of `strings.TrimSpace`, of the ASCII range.
abbrev pub is_space : ℕ → Bool
is_space c = c == 32 || (leb 9 c && leb c 13)

unfoldable pub trim_left : Bytes → Bytes
trim_left [] = []
trim_left (c ∷ s) = let rest = trim_left s in if is_space c then rest else c ∷ s

abbrev pub trim_cons : ℕ → Bytes → Bytes
trim_cons c [] = if is_space c then [] else c ∷ []
trim_cons c (d ∷ s) = c ∷ d ∷ s

unfoldable pub trim_right : Bytes → Bytes
trim_right [] = []
trim_right (c ∷ s) = trim_cons c (trim_right s)

unfoldable pub trim_space : Bytes → Bytes
trim_space s = trim_right (trim_left s)

-- `host[:idx]` for the last index of a colon, `none` where there is no colon.
unfoldable pub before_last_colon : Bytes → Option Bytes
before_last_colon [] = none
before_last_colon (c ∷ s) = elim (before_last_colon s) [
  | none ↦ if c == b':' then some [] else none
  | some host ↦ some (c ∷ host)
]

-- `Header.Get` puts the name X-Real-IP in canonical form.
unfoldable pub get_client_ip : Request → Bytes
get_client_ip r =
    let forwarded = header_get r.header (codes "X-Forwarded-For") in
    let real_ip = header_get r.header (codes "X-Real-Ip") in
    if not (str_eq forwarded [])
    then trim_space (before_comma forwarded)
    else if not (str_eq real_ip [])
    then real_ip
    else elim (before_last_colon r.remote_addr) [ none ↦ r.remote_addr | some host ↦ host ]

-- `http.Error`.
abbrev pub http_error : ℕ → Bytes → Response
http_error status text = record {
  status = status;
  header = (codes "Content-Type", codes "text/plain; charset=utf-8" ∷ []) ∷ [];
  body = text ++ codes "\n";
}

unfoldable pub send_pac : Bytes → Response
send_pac content = record {
  status = 200;
  header =
      (codes "Content-Type", codes "application/x-ns-proxy-autoconfig" ∷ [])
      ∷ (codes "Cache-Control", codes "public, max-age=300" ∷ [])
      ∷ (codes "Access-Control-Allow-Origin", codes "*" ∷ [])
      ∷ (codes "Access-Control-Allow-Methods", codes "GET, OPTIONS" ∷ [])
      ∷ (codes "Access-Control-Allow-Headers", codes "Content-Type" ∷ [])
      ∷ [];
  body = content;
}

-- The lines that both PAC files share, from the test of local addresses on.
unfoldable pub local_rules : Bytes
local_rules =
    codes "    // Don't proxy local addresses\n    if (isPlainHostName(host) ||\n"
    ++ (codes "        shExpMatch(host, \"*.local\") ||\n"
        ++ (codes "        isInNet(host, \"192.168.0.0\", \"255.255.0.0\") ||\n"
            ++ (codes "        isInNet(host, \"10.0.0.0\", \"255.0.0.0\") ||\n"
                ++ (codes "        isInNet(host, \"172.16.0.0\", \"255.240.0.0\") ||\n"
                    ++ (codes "        host == \"localhost\" ||\n        host == \"127.0.0.1\") {\n"
                        ++ codes "        return \"DIRECT\";\n    }\n    \n")))))

unfoldable pub function_line : Bytes
function_line = codes "function FindProxyForURL(url, host) {\n"

-- `user:password@host:port`.
abbrev pub proxy_url : Bytes → Bytes → Bytes → Bytes → Bytes
proxy_url username password host port =
    username ++ (codes ":" ++ (password ++ (codes "@" ++ (host ++ (codes ":" ++ port)))))

unfoldable pub generate_pac : Config → Bytes → Bytes → Bytes
generate_pac c username password =
    function_line
    ++ (local_rules
        ++ (codes
              "    // Route everything else through proxy\n    // Primary: HTTP/HTTPS proxy, Fallback: SOCKS5\n"
            ++ (codes "    return \"PROXY "
                ++ (proxy_url username password c.proxy_host c.http_port
                    ++ (codes "; SOCKS5 "
                        ++ (proxy_url username password c.proxy_host c.socks5_port
                            ++ codes "; DIRECT\";\n}\n"))))))

unfoldable pub pac_with_placeholder : Config → Bytes → Bytes
pac_with_placeholder c username =
    function_line
    ++ (codes "    // PAC file for user: "
        ++ (username
            ++ (codes
                  "\n    // Note: This PAC requires authentication. Your browser/system will prompt for password.\n    \n"
                ++ (local_rules
                    ++ (codes
                          "    // Route everything else through proxy (credentials required separately)\n    return \"PROXY "
                        ++ (c.proxy_host
                            ++ (codes ":"
                                ++ (c.http_port
                                    ++ (codes "; SOCKS5 "
                                        ++ (c.proxy_host
                                            ++ (codes ":"
                                                ++ (c.socks5_port
                                                    ++ codes "; DIRECT\";\n}\n"))))))))))))

unfoldable pub error_pac : Bytes → Bytes
error_pac message =
    codes "// Error: "
    ++ (message ++ (codes "\n" ++ (function_line ++ codes "    return \"DIRECT\";\n}\n")))

-- `username` of the query, or the default user.
unfoldable pub requested_user : Config → Request → Bytes
requested_user c r =
    let username = r.query (codes "user") in if str_eq username [] then c.default_user else username

-- From the token check on.
unfoldable pub answer : Host → Config → UserStore → Request → ℕ → UserStore × Response
answer host c store r now =
    let username = requested_user c r in
    let password = r.query (codes "pass") in
    if str_eq username []
    then (store, send_pac (error_pac (codes "No user specified. Use ?user=USERNAME")))
    else if str_eq password []
    then (store, send_pac (pac_with_placeholder c username))
    else (let (store', user) = validate_credentials host store now username password in
        elim user [
          | none ↦ (store', http_error 401 (codes "Invalid credentials"))
          | some _ ↦ (store', send_pac (generate_pac c username password))
        ])

-- From the rate limit on.
unfoldable pub check_token : Host → Config → UserStore → Request → ℕ → UserStore × Response
check_token host c store r now =
    if not (str_eq c.token []) && not (str_eq (r.query (codes "token")) c.token)
    then (store, http_error 401 (codes "Unauthorized"))
    else answer host c store r now

-- `h.config.RateLimitRPM > 0 && !h.checkRateLimit(clientIP)`, and the handler that it leaves.
unfoldable pub limit : Handler → Bytes → ℕ → Handler × Bool
limit h client_ip now =
    if positive h.config.rate_limit_rpm then check_rate_limit h client_ip now else (h, true)

unfoldable pub serve_http :
    Host → Handler → UserStore → Request → ℕ → Handler × (UserStore × Response)
serve_http host h store r now =
    let (h', passed) = limit h (get_client_ip r) now in
    if not passed
    then (h', (store, http_error 429 (codes "Too Many Requests")))
    else (h', check_token host h.config store r now)
