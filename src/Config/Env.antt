-- ===== src/Config/Env.antt =====
-- internal/config/env.go. The environment is a function, which gives the empty string for a
-- variable that is not set, as `os.Getenv` does. Case mapping is that of ASCII.
use multi_protocol_proxy.Prelude.{
  ℕ, Bool, false, not, ◌&&◌, [], ◌++◌, Bytes, codes, str_eq, to_lower, if◌then◌else◌,
}
use multi_protocol_proxy.Decimal.{parse_int_or_default}

abbrev pub Getenv : Type 0
Getenv = Bytes → Bytes

abbrev pub development : Bytes
development = codes "development"

abbrev pub production : Bytes
production = codes "production"

pub record EnvConfig : Type 0 where
  pub env : Bytes
  pub domain : Bytes
  pub api_domain : Bytes
  pub base_url : Bytes
  pub allowed_origin : Bytes
  pub debug : Bool
  pub log_level : Bytes
  pub ngrok_enabled : Bool
  pub ngrok_domain : Bytes
  pub proxy_mode : Bytes
  pub http_proxy_port : Bytes
  pub http_proxy_tls : Bool
  pub http_proxy_tls_port : Bytes
  pub socks5_port : Bytes
  pub users_file : Bytes
  pub pac_enabled : Bool
  pub pac_token : Bytes
  pub pac_default_user : Bytes
  pub pac_rate_limit_rpm : ℕ

unfoldable pub get_env_or_default : Getenv → Bytes → Bytes → Bytes
get_env_or_default getenv key default_value =
    if not (str_eq (getenv key) []) then getenv key else default_value

-- `getEnvOrDefault(key, defaultValue) == "true"`.
abbrev pub flag : Getenv → Bytes → Bytes → Bool
flag getenv key default_value = str_eq (get_env_or_default getenv key default_value) (codes "true")

-- The fields behind the switch.
unfoldable pub with_ports : Getenv → EnvConfig → EnvConfig
with_ports getenv c = record c {
  proxy_mode = to_lower (get_env_or_default getenv (codes "PROXY_MODE") (codes "sni"));
  http_proxy_port = get_env_or_default getenv (codes "HTTP_PROXY_PORT") (codes ":8080");
  http_proxy_tls = flag getenv (codes "HTTP_PROXY_TLS") (codes "true");
  http_proxy_tls_port = get_env_or_default getenv (codes "HTTP_PROXY_TLS_PORT") (codes ":8443");
  socks5_port = get_env_or_default getenv (codes "SOCKS5_PORT") (codes ":1080");
  users_file = get_env_or_default getenv (codes "USERS_FILE") (codes "users.json");
  pac_enabled = flag getenv (codes "PAC_ENABLED") (codes "true");
  pac_token = get_env_or_default getenv (codes "PAC_TOKEN") [];
  pac_default_user = get_env_or_default getenv (codes "PAC_DEFAULT_USER") [];
  pac_rate_limit_rpm =
      parse_int_or_default (get_env_or_default getenv (codes "PAC_RATE_LIMIT_RPM") (codes "60")) 60;
}

-- `&EnvConfig{Env: ..., LogLevel: ...}`.
abbrev pub initial_env : Bytes → Bytes → EnvConfig
initial_env env log_level = record {
  env = env;
  domain = [];
  api_domain = [];
  base_url = [];
  allowed_origin = [];
  debug = false;
  log_level = log_level;
  ngrok_enabled = false;
  ngrok_domain = [];
  proxy_mode = [];
  http_proxy_port = [];
  http_proxy_tls = false;
  http_proxy_tls_port = [];
  socks5_port = [];
  users_file = [];
  pac_enabled = false;
  pac_token = [];
  pac_default_user = [];
  pac_rate_limit_rpm = 0;
}

unfoldable pub production_env : Getenv → EnvConfig → EnvConfig
production_env getenv c =
    let domain = get_env_or_default getenv (codes "DOMAIN") (codes "proxy.yourdomain.com") in
    record c {
      domain = domain;
      api_domain = get_env_or_default getenv (codes "API_DOMAIN") (codes "api." ++ domain);
      base_url = get_env_or_default getenv (codes "BASE_URL") (codes "https://" ++ domain);
      allowed_origin = get_env_or_default getenv (codes "ALLOWED_ORIGIN") (codes "*");
      debug = flag getenv (codes "DEBUG") (codes "false");
      ngrok_enabled = false;
    }

unfoldable pub development_env : Getenv → EnvConfig → EnvConfig
development_env getenv c =
    let ngrok_enabled = flag getenv (codes "NGROK_ENABLED") (codes "true") in
    let ngrok_domain = get_env_or_default getenv (codes "NGROK_DOMAIN") [] in
    let domain = get_env_or_default getenv (codes "DOMAIN") (
      if ngrok_enabled && not (str_eq ngrok_domain [])
      then ngrok_domain
      else codes "localhost:8443") in
    record c {
      env = development;
      ngrok_enabled = ngrok_enabled;
      ngrok_domain = ngrok_domain;
      domain = domain;
      base_url = get_env_or_default getenv (codes "BASE_URL") (codes "https://" ++ domain);
      api_domain = domain;
      allowed_origin = codes "*";
      debug = flag getenv (codes "DEBUG") (codes "true");
      log_level = if str_eq c.log_level (codes "info") then codes "debug" else c.log_level;
    }

unfoldable pub load_env : Getenv → EnvConfig
load_env getenv =
    let env = get_env_or_default getenv (codes "APP_ENV") (codes "development") in
    let c =
      initial_env (to_lower env) (get_env_or_default getenv (codes "LOG_LEVEL") (codes "info")) in
    with_ports getenv
      (if str_eq c.env production then production_env getenv c else development_env getenv c)

unfoldable pub is_development : EnvConfig → Bool
is_development e = str_eq e.env development

unfoldable pub is_production : EnvConfig → Bool
is_production e = str_eq e.env production
