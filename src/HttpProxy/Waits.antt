-- ===== src/HttpProxy/Waits.antt =====
-- What `Start` of internal/httpproxy/server.go has waited for where it returns without an error.
use multi_protocol_proxy.Prelude.{ℕ, ◌+◌, ◌≤◌, Bool, true, false, none, ◌≡◌, ◌⊎◌}
use multi_protocol_proxy.Config.Load.{Config}
use multi_protocol_proxy.HttpProxy.Lifecycle.{
  made, closed, HttpServer, Phase, returned, Watcher, unborn, waits, over, in_http, in_https,
  Server, is_closed, drained, shutdown_timeout,
}

-- What the watcher has done to the two servers: that for HTTPS is closed only behind the drain of that
-- for HTTP.
abbrev IsAhead : Watcher → HttpServer → Bool → ℕ → Type 0
IsAhead unborn http https_closed now = ⊥
IsAhead waits http https_closed now = (http.stage ≡ made) × (https_closed ≡ false)
IsAhead (in_http since) http https_closed now = (http.stage ≡ closed) × (https_closed ≡ false)
IsAhead (in_https since) http https_closed now =
    (http.stage ≡ closed) × (drained http since now ≡ true)
IsAhead (over since) http https_closed now = (http.stage ≡ closed) × (drained http since now ≡ true)

abbrev IsWaited : Phase → ℕ → Type 0
IsWaited (returned none) waiting = waiting ≡ 0
IsWaited _ waiting = Unit {0}

record IsSteady (s : Server) : Type 0 where
  ahead : IsAhead s.watcher s.http (is_closed s.https.stage) s.now
  serving : s.waiting ≡ 0 → is_closed s.https.stage ≡ true
  waited : IsWaited s.phase s.waiting

-- The watcher has called `Shutdown` of the server for HTTP, at a time that is not before the given
-- one, and this has returned: no request of HTTP is left, or thirty seconds are over since then.
abbrev pub HasDrained : ℕ → Server → Type 0
HasDrained t s =
    (since : ℕ) × ((t ≤ since)
      × (((s.watcher ≡ in_https since) ⊎ (s.watcher ≡ over since))
          × ((s.http.active ≡ 0) ⊎ (since + shutdown_timeout ≤ s.now))))
