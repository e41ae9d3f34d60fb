-- ===== src/Main.antt =====
-- cmd/proxy/main.go: the mode in which the program runs.
pub mod Start
pub mod Wiring
pub mod Sessions
use multi_protocol_proxy.Prelude.{
  Bool, true, false, ◌||◌, List, [], ◌∷◌, ◌++◌, Option, none, some, ℕ, Bytes, codes, str_eq,
  if◌then◌else◌, ◌≡◌,
}
use multi_protocol_proxy.Host.{Host}
use multi_protocol_proxy.Prelude.{Map}
use multi_protocol_proxy.Auth.{User, UserStore, UsersFile, new_user_store}
use multi_protocol_proxy.Config.Load.{Config, validate}
use multi_protocol_proxy.Pac.{Handler}
use multi_protocol_proxy.HttpProxy.Server.{new_pac_handler}
use multi_protocol_proxy.Tracker.{Tracker, UsageFile, Moment, new_tracker}

pub data Mode : Type 0 where
  https_mode sni_mode : Mode

unfoldable pub mode_of : Config → Mode
mode_of cfg =
    if str_eq cfg.env.proxy_mode (codes "https")
      || str_eq cfg.env.proxy_mode (codes "http")
      || str_eq cfg.env.proxy_mode (codes "general")
    then https_mode
    else sni_mode

-- What the start comes to: the program exits, or a mode's servers run, with the state they share.
pub data Started : Type 0 where
  exits : Started
  runs_https : UserStore → Tracker → Option Handler → Started
  runs_sni : Started

-- `runSNIProxyMode` up to the server's start. `exists` tells which files there are.
unfoldable pub run_sni : (Bytes → Bool) → Config → Started
unfolding validate
run_sni exists cfg = elim (validate exists cfg) [ some err ↦ exits | none ↦ runs_sni ]

-- `runHTTPSProxyMode` up to the servers' start: the users file, and what the usage file holds.
unfoldable pub run_https :
    Host → (Map User → Map User) → Config → UsersFile → ℕ → Option UsageFile → Moment → Started
unfolding new_user_store new_tracker new_pac_handler
run_https h order cfg file now disk m = elim (new_user_store h order file now) [
  | none ↦ exits
  | some store ↦ runs_https store (new_tracker disk m) (new_pac_handler cfg.env)
]

unfoldable pub main :
    Host
    → (Map User → Map User)
    → (Bytes → Bool)
    → Config
    → UsersFile
    → ℕ
    → Option UsageFile
    → Moment
    → Started
unfolding mode_of run_https run_sni
main h order exists cfg file now disk m = elim (mode_of cfg) [
  | https_mode ↦ run_https h order cfg file now disk m
  | sni_mode ↦ run_sni exists cfg
]
