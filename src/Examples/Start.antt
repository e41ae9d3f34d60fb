-- ===== src/Examples/Start.antt =====
-- The theorems on the start and the shutdown at concrete inputs.
use multi_protocol_proxy.Prelude.{
  true, false, [], ◌∷◌, none, codes, str_eq, to_lower, insert, contains_byte, Bytes, ◌≡◌, refl,
}
use multi_protocol_proxy.Auth.{UserStore, UsersConfig, parsed, load_from_file, parse_cidrs}
use multi_protocol_proxy.Host.{IpNet}
use multi_protocol_proxy.Auth.Networks.{HasNetworks}
use multi_protocol_proxy.Auth.Loading.{last_enabled}
use multi_protocol_proxy.Auth.Refinement.{Refines}
use multi_protocol_proxy.Config.Load.{Config, default_config}
use multi_protocol_proxy.HttpProxy.Server.{new_pac_handler}
use multi_protocol_proxy.RateLimit.{set_limit, new_rate_limiter}
use multi_protocol_proxy.Tracker.{new_tracker}
use multi_protocol_proxy.Main.{https_mode, mode_of, main}
use multi_protocol_proxy.Main.Start.{main-Refines}
use multi_protocol_proxy.Socks5.Accept.{started, run, happens, cancels, watches, shuts_down}
use multi_protocol_proxy.Socks5.Shutdown.{IsOrderly, run-Shutdown}
use multi_protocol_proxy.Examples.Data.{toy_host, alice, one_user, one_user_store, may}

-- A file with a whitelist and with a super admin's address.
abbrev walled : UsersConfig
walled = record one_user {
  ip_whitelist = codes "10.0.0.1" ∷ (codes "10.1.0.0/16" ∷ []);
  super_admin_ips = codes "::1" ∷ [];
}

abbrev network : Bytes → IpNet
network ip = record { ip = ip; mask = [] }

abbrev started_store : UserStore
started_store = record one_user_store {
  ip_whitelist = network (codes "10.0.0.1/32") ∷ (network (codes "10.1.0.0/16") ∷ []);
  super_admin_ips = network (codes "::1/128") ∷ [];
  rate_limiter = set_limit new_rate_limiter alice.username alice.rate_limit_rpm 0;
}

abbrev https_config : Config
https_config =
    let c = default_config (λ key. []) in
    record c { env = record c.env { proxy_mode = codes "https"; pac_enabled = false } }

main-Refines_example :
    (mode_of https_config ≡ https_mode)
    × (new_tracker none may ≡ new_tracker none may)
    × (none ≡ new_pac_handler https_config.env)
    × ((users : UsersConfig) × (parsed walled ≡ parsed users)
        × HasNetworks toy_host users started_store
        × Refines toy_host started_store (λ name. last_enabled name users.users))
unfolding main str_eq to_lower load_from_file insert contains_byte parse_cidrs
main-Refines_example =
    main-Refines toy_host (λ m. m) (λ path. true) https_config (parsed walled) 0 none may
      started_store (new_tracker none may) none refl

run-Shutdown_example :
    IsOrderly (run started (cancels ∷ watches ∷ []))
    × ((run started (cancels ∷ watches ∷ [])).watched ≡ true
        → (happens (run started (cancels ∷ watches ∷ [])) shuts_down).panicked ≡ true)
run-Shutdown_example = run-Shutdown (cancels ∷ watches ∷ []) (tt, (tt, tt))
