-- ===== src/Config/Load.antt =====
-- internal/config/config.go. The JSON decoder is a parameter: it maps the configuration with the
-- defaults to the decoded one, and is none where config.json cannot be opened. `exists` is
-- `os.Stat` with an error that says that the file does not exist turned round.
use multi_protocol_proxy.Prelude.{
  ℕ, Bool, true, false, not, List, [], ◌∷◌, ◌++◌, Option, none, some, Bytes, codes, str_eq,
  to_lower, positive, if◌then◌else◌, Map, insert,
}
use multi_protocol_proxy.Pac.{trim_space}
use multi_protocol_proxy.Config.Env.{Getenv, EnvConfig, load_env}

pub record Config : Type 0 where
  pub listen : Bytes
  pub cert_file : Bytes
  pub key_file : Bytes
  pub timeout_sec : ℕ
  pub max_conns : ℕ
  pub metrics_listen : Bytes
  pub hosts : Map Bytes
  pub env : EnvConfig

abbrev pub default_config : Getenv → Config
default_config getenv = record {
  listen = codes ":8443";
  cert_file = codes "certs/dev/server.crt";
  key_file = codes "certs/dev/server.key";
  timeout_sec = 300;
  max_conns = 1000;
  metrics_listen = codes ":9090";
  hosts = [];
  env = load_env getenv;
}

-- `if v := os.Getenv(key); v != "" { field = v }`.
abbrev pub overridden : Getenv → Bytes → Bytes → Bytes
overridden getenv key value = if not (str_eq (getenv key) []) then getenv key else value

-- `strings.ToLower(strings.TrimSpace(k))`.
abbrev pub clean_name : Bytes → Bytes
clean_name k = to_lower (trim_space k)

-- The loop that cleans the names, in the order in which `range` meets them.
unfoldable pub clean_hosts : Map Bytes → Map Bytes → Map Bytes
clean_hosts [] cleaned = cleaned
clean_hosts ((k, v) ∷ hosts) cleaned = clean_hosts hosts (insert (clean_name k) v cleaned)

abbrev pub decoded : Option (Config → Config) → Config → Config
decoded none c = c
decoded (some decode) c = decode c

unfoldable pub load : Getenv → Option (Config → Config) → Config
load getenv decode =
    let c = decoded decode (default_config getenv) in
    record c {
      cert_file = overridden getenv (codes "CERT_FILE") c.cert_file;
      key_file = overridden getenv (codes "KEY_FILE") c.key_file;
      metrics_listen = overridden getenv (codes "METRICS_LISTEN") c.metrics_listen;
      hosts = clean_hosts c.hosts [];
    }

-- `if failed { errs = append(errs, text) }`.
abbrev pub check : Bool → Bytes → List Bytes → List Bytes
check is_failed text errs = if is_failed then errs ++ (text ∷ []) else errs

abbrev pub is_empty : Map Bytes → Bool
is_empty [] = true
is_empty (h ∷ hs) = false

unfoldable pub errors_of : (Bytes → Bool) → Config → List Bytes
errors_of exists c =
    let e1 = check (str_eq c.listen []) (codes "listen address is required") [] in
    let e2 =
      check (not (exists c.cert_file)) (codes "certificate file not found: " ++ c.cert_file) e1 in
    let e3 = check (not (exists c.key_file)) (codes "key file not found: " ++ c.key_file) e2 in
    let e4 = check (not (positive c.timeout_sec)) (codes "timeout_sec must be positive") e3 in
    let e5 = check (not (positive c.max_conns)) (codes "max_conns must be positive") e4 in
    check (is_empty c.hosts) (codes "at least one host mapping is required") e5

-- `strings.Join(errs, sep)`.
unfoldable pub join : Bytes → List Bytes → Bytes
join sep [] = []
join sep (e ∷ []) = e
join sep (e ∷ f ∷ es) = e ++ (sep ++ join sep (f ∷ es))

abbrev pub joined : List Bytes → Option Bytes
joined [] = none
joined (e ∷ es) = some (codes "config validation failed:\n  - " ++ join (codes "\n  - ") (e ∷ es))

-- `none` for no error.
unfoldable pub validate : (Bytes → Bool) → Config → Option Bytes
validate exists c = joined (errors_of exists c)
