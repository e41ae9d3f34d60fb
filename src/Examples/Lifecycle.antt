-- ===== src/Examples/Lifecycle.antt =====
-- The theorems on the servers' lives at concrete inputs.
use multi_protocol_proxy.Prelude.{
  ℕ, true, List, [], ◌∷◌, ◌++◌, none, some, codes, str_eq, ◌≡◌, refl, arith,
}
use multi_protocol_proxy.Config.Env.{load_env, with_ports, get_env_or_default}
use multi_protocol_proxy.Config.Load.{Config, default_config}
use multi_protocol_proxy.HttpProxy.CutOff.{shutdown_later}
use multi_protocol_proxy.HttpProxy.Lifecycle
use multi_protocol_proxy.HttpProxy.Server.{https_addr}
use multi_protocol_proxy.Main.Sessions.{
  Session, IsKept, run_sessions, bytes_of, counted_all, run_sessions-counted,
}
use multi_protocol_proxy.Tracker.{new_tracker}
use multi_protocol_proxy.Tracker.Balance.{records, increments}
use multi_protocol_proxy.Tracker.View.{view}
use multi_protocol_proxy.Examples.Data.{may}
use multi_protocol_proxy.Proxy.Accept.{conn, broken, admit}
use multi_protocol_proxy.Proxy.Certificates.{last_loaded, get_certificate-last}
use multi_protocol_proxy.Proxy.Drained.{turns_of, elapsed}
use multi_protocol_proxy.Proxy.Endings.{IsGenuine, cancelled-returns, start-fails}
use multi_protocol_proxy.Proxy.Lifecycle.{
  returned, new_process, get_certificate, drain_timeout, Answers, turn_at, Event, turns, watches,
  cancels, hangs_up, passes, happens, run, load_first, reload, listen, unless_shutdown, accept,
  accept_or_block,
}
use multi_protocol_proxy.Proxy.Serving.{IsOrderly}
use multi_protocol_proxy.Proxy.Orderly.{start-IsOrderly}

-- A certificate is a number here.
abbrev fine : Answers ℕ
fine = record { loaded = some 7; opened = true; accepted = some conn }

abbrev failing : Answers ℕ
failing = record { loaded = some 7; opened = true; accepted = some broken }

-- No connection comes.
abbrev idle : Answers ℕ
idle = record { loaded = some 7; opened = true; accepted = none }

-- Up to the first `Accept`.
abbrev accepting : List (Event ℕ)
accepting = turns fine ∷ turns fine ∷ turns fine ∷ []

abbrev signalled : List (Event ℕ)
signalled = turns fine ∷ turns fine ∷ turns fine ∷ turns fine ∷ cancels ∷ []

abbrev two_turns : List (Event ℕ)
two_turns = turns idle ∷ turns idle ∷ []

abbrev half_minute : List (Event ℕ)
half_minute = passes drain_timeout ∷ []

abbrev reloads : List (Event ℕ)
reloads = hangs_up none ∷ hangs_up (some 8) ∷ hangs_up none ∷ []

start-IsOrderly_example : IsOrderly 1 (run (new_process 1) signalled)
start-IsOrderly_example = start-IsOrderly 1 signalled

cancelled-returns_example :
    (run
      (run (new_process 1) signalled)
      (watches ∷ [] ++ (watches ∷ two_turns ++ (half_minute ++ turns idle ∷ [])))).phase
    ≡ returned none
unfolding run happens turn_at load_first reload listen unless_shutdown accept accept_or_block admit
    turns_of elapsed
cancelled-returns_example =
    cancelled-returns 1 signalled [] two_turns half_minute idle refl refl (omega arith)
      (omega arith)

start-fails_example : IsGenuine (run (new_process 1) accepting) (turns failing)
unfolding run happens turn_at load_first reload listen unless_shutdown accept accept_or_block
start-fails_example = start-fails 1 accepting (turns failing) refl refl

get_certificate-last_example :
    get_certificate (run (happens (new_process 1) (turns fine)) reloads)
    ≡ some (last_loaded 7 reloads)
get_certificate-last_example = get_certificate-last 1 7 fine reloads refl (tt, (tt, (tt, tt)))

abbrev tls_config : Config
tls_config = default_config (λ key. [])

-- The first session of a month, which ends by a signal.
abbrev first_session : Session
first_session = record {
  begins = may;
  listened = true;
  loaded = true;
  opened = true;
  events = Lifecycle.begins_https ∷ shutdown_later;
  calls = (may, records (codes "alice") 3 4) ∷ (may, increments (codes "alice")) ∷ [];
  ends = may;
}

first_session-IsKept : IsKept tls_config may.month first_session
unfolding https_addr str_eq load_env with_ports get_env_or_default Lifecycle.run Lifecycle.start
    Lifecycle.start_tls
first_session-IsKept = record {
  began = refl;
  of_month = (refl, (refl, tt));
  writable = refl;
  ended = refl;
}

run_sessions-counted_example :
    bytes_of
      (view (new_tracker (run_sessions tls_config none (first_session ∷ [])) may) (codes "alice"))
    ≡ counted_all
        (codes "alice")
        (first_session ∷ [])
        (bytes_of (view (new_tracker none may) (codes "alice")))
run_sessions-counted_example =
    run_sessions-counted tls_config may.month (first_session ∷ []) none may (codes "alice")
      (first_session-IsKept, tt) refl
