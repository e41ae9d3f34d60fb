-- ===== src/HttpProxy/Server.antt =====
-- internal/httpproxy/server.go: what a new server makes of the environment, and where it listens.
-- The calls of net/http and crypto/tls are in Lifecycle.
use multi_protocol_proxy.Prelude.{
  not, ◌&&◌, [], ◌∷◌, Option, none, some, Bytes, codes, str_eq, if◌then◌else◌, ◌==◌, ◌≡◌, arith,
}
use multi_protocol_proxy.Pac.{Handler, Config, new_handler}
use multi_protocol_proxy.Config.Env.{EnvConfig}
use multi_protocol_proxy.Config.Load

-- `strings.TrimPrefix(s, ":")`
unfoldable pub trim_colon : Bytes → Bytes
trim_colon [] = []
trim_colon (c ∷ s) = if c == b':' then s else c ∷ s

unfoldable pub pac_config : EnvConfig → Config
unfolding trim_colon
pac_config env = record {
  enabled = env.pac_enabled;
  proxy_host = env.domain;
  http_port = trim_colon env.http_proxy_port;
  socks5_port = trim_colon env.socks5_port;
  token = env.pac_token;
  default_user = env.pac_default_user;
  rate_limit_rpm = env.pac_rate_limit_rpm;
}

-- The field `pacHandler` of a new server.
unfoldable pub new_pac_handler : EnvConfig → Option Handler
unfolding pac_config
new_pac_handler env = if env.pac_enabled then some (new_handler (pac_config env)) else none

abbrev or_default : Bytes → Bytes → Bytes
or_default addr default_addr = if str_eq addr [] then default_addr else addr

unfoldable pub http_addr : EnvConfig → Bytes
http_addr env = or_default env.http_proxy_port (codes ":8080")

-- Where the server listens for TLS, if it does.
unfoldable pub https_addr : Load.Config → Option Bytes
https_addr cfg =
    if cfg.env.http_proxy_tls && not (str_eq cfg.cert_file []) && not (str_eq cfg.key_file [])
    then some (or_default cfg.env.http_proxy_tls_port (codes ":8443"))
    else none

same_port :
    (addr port : Bytes)
    → addr ≡ b':' ∷ port
    → or_default addr (codes ":8080") ≡ b':' ∷ trim_colon addr
unfolding trim_colon str_eq
same_port [] port e = cc (e)
same_port (c ∷ s) port e = ground (arith, e)

-- A PAC file names the port that the HTTP server listens on, where the environment gives a port
-- behind a colon.
pub pac_config-http_addr :
    (env : EnvConfig) (port : Bytes)
    → env.http_proxy_port ≡ b':' ∷ port
    → http_addr env ≡ b':' ∷ (pac_config env).http_port
unfolding http_addr pac_config
pac_config-http_addr env port e = same_port env.http_proxy_port port e
