-- ===== src/Main/Wiring.antt =====
-- cmd/proxy/main.go and internal/proxy/metrics.go: the metrics server of each mode, the file of the
-- usage counts, and the lines that are logged at the start.
use multi_protocol_proxy.Prelude.{
  true, false, List, [], ◌∷◌, ◌++◌, some, Bytes, Map, codes, str_eq, has_prefix, lookup,
  if◌then◌else◌, ◌≡◌, ◌↔◌, refl,
}
use multi_protocol_proxy.Config.Env.{is_development}
use multi_protocol_proxy.Config.Load.{Config}
use multi_protocol_proxy.Proxy.Report.{Route, usage, new_metrics_server}
use multi_protocol_proxy.Main.{Mode, https_mode, sni_mode}
use multi_protocol_proxy.Auth.{UserStore, get_user_count}
use multi_protocol_proxy.Decimal.{itoa}

-- `filepath.Dir` and `filepath.Join` are parameters.
unfoldable pub usage_file : (Bytes → Bytes) → (Bytes → Bytes → Bytes) → Config → Bytes
usage_file dir join cfg = join (dir cfg.env.users_file) (codes "bandwidth_usage.json")

-- The routes of the metrics server that a mode starts.
unfoldable pub metrics_routes : Mode → Map Route
unfolding new_metrics_server
metrics_routes sni_mode = new_metrics_server false
metrics_routes https_mode = new_metrics_server true

-- The address that `Start` of the SNI proxy logs for the metrics.
unfoldable pub metrics_addr : Config → Bytes
metrics_addr cfg =
    if has_prefix cfg.metrics_listen (codes ":")
    then codes "localhost" ++ cfg.metrics_listen
    else cfg.metrics_listen

-- The texts that `main` logs of the environment. `warn` and `success` are the styles.
unfoldable pub environment_lines : (Bytes → Bytes) → (Bytes → Bytes) → Config → List Bytes
unfolding is_development
environment_lines warn success cfg =
    (codes "Environment: "
      ++ (if is_development cfg.env
          then warn (codes "DEVELOPMENT")
          else success (codes "PRODUCTION")))
    ∷ (codes "Domain: " ++ cfg.env.domain)
    ∷ []

-- What `runHTTPSProxyMode` logs of the store.
unfoldable pub loaded_line : Config → UserStore → Bytes
unfolding get_user_count
loaded_line cfg s =
    codes "Loaded " ++ (itoa (get_user_count s) ++ (codes " users from " ++ cfg.env.users_file))

-- The counts of the users' traffic are served exactly in the mode that counts it.
pub metrics_routes-usage_iff :
    (mode : Mode)
    → (lookup (codes "/api/usage") (metrics_routes mode) ≡ some usage) ↔ (mode ≡ https_mode)
unfolding metrics_routes new_metrics_server lookup str_eq
metrics_routes-usage_iff https_mode = (λ _. refl, λ _. refl)
metrics_routes-usage_iff sni_mode = (λ e. cc (e), λ e. cc (e))
