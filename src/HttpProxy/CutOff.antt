-- ===== src/HttpProxy/CutOff.antt =====
-- The requests that are served when `Start` of internal/httpproxy/server.go returns.
use multi_protocol_proxy.Prelude.{
  ℕ, ◌+◌, ◌-◌, Bool, true, false, List, [], ◌∷◌, none, is_some, if◌then◌else◌, ◌≡◌, refl, sym, ap,
  ◌∙◌, arith, All,
}
use multi_protocol_proxy.Config.Load.{Config}
use multi_protocol_proxy.HttpProxy.Server.{https_addr}
use multi_protocol_proxy.HttpProxy.Lifecycle.{
  made, closed, returned, Server, new_server, serve, listens, start_tls, start, close_at, watch_at,
  turn_at, Event, turns, https_ends, watches, cancels, shuts_down, begins_http, ends_http,
  begins_https, ends_https, passes, begin_at, happens, run, drained, shutdown_timeout,
}

-- What clients do, and time that passes.
abbrev pub IsRequest : Event → Type 0
IsRequest begins_http = Unit {0}
IsRequest ends_http = Unit {0}
IsRequest begins_https = Unit {0}
IsRequest ends_https = Unit {0}
IsRequest (passes n) = Unit {0}
IsRequest _ = ⊥

-- A server without TLS that serves `n` requests.
abbrev plain : ℕ → ℕ → Server
plain n now = record (serve (listens new_server)) {
  http = record { stage = made; active = n };
  now = now;
}

-- It serves some number of requests behind any requests.
run-plain :
    (es : List Event) (n now : ℕ)
    → All IsRequest es
    → (k : ℕ) × ((later : ℕ) × (run (plain n now) es ≡ plain k later))
unfolding run happens begin_at serve
run-plain [] n now r = (n, (now, refl))
run-plain (begins_http ∷ es) n now r = run-plain es (n + 1) now r.1
run-plain (ends_http ∷ es) n now r = run-plain es (n - 1) now r.1
run-plain (begins_https ∷ es) n now r = run-plain es n now r.1
run-plain (ends_https ∷ es) n now r = run-plain es n now r.1
run-plain (passes m ∷ es) n now r = run-plain es n (now + m) r.1
run-plain (turns ∷ es) n now r = absurd r.0
run-plain (https_ends failed ∷ es) n now r = absurd r.0
run-plain (watches ∷ es) n now r = absurd r.0
run-plain (cancels ∷ es) n now r = absurd r.0
run-plain (shuts_down done ∷ es) n now r = absurd r.0

start-plain :
    (cfg : Config) (c o : Bool)
    → is_some (https_addr cfg) ≡ false
    → start cfg new_server true c o ≡ plain 0 0
unfolding start serve
start-plain cfg c o e =
    ap (λ b. if b then start_tls (listens new_server) c o else serve (listens new_server)) e

-- A signal, the watcher's turn, and two turns of `Start`.
abbrev pub shutdown_now : List Event
shutdown_now = cancels ∷ watches ∷ turns ∷ turns ∷ []

-- Without TLS `Start` returns as soon as the watcher has called `Shutdown`, whatever requests are
-- served: every one of them is still served when `Start` has returned without an error, and the
-- program ends.
pub start-plain_cut_off :
    (cfg : Config) (c o : Bool) (es : List Event)
    → is_some (https_addr cfg) ≡ false
    → All IsRequest es
    → let s = run (start cfg new_server true c o) es in
      ((run s shutdown_now).phase ≡ returned none)
      × ((run s shutdown_now).http.active ≡ s.http.active)
unfolding run happens watch_at turn_at close_at serve
start-plain_cut_off cfg c o es plain_only requests =
    let (k, (later, same)) = run-plain es 0 0 requests in
    let whole : run (start cfg new_server true c o) es ≡ plain k later =
      ap (λ s. run s es) (start-plain cfg c o plain_only) ∙ same in
    (
      ap (λ s. (run s shutdown_now).phase) whole,
      ap (λ s. (run s shutdown_now).http.active) whole ∙ sym (ap (λ s. s.http.active) whole),
    )

-- A server with TLS that serves `n` requests of HTTP and `k` of HTTPS.
abbrev secure : ℕ → ℕ → ℕ → Server
secure n k now = record (start_tls (listens new_server) true true) {
  http = record { stage = made; active = n };
  https = record { stage = made; active = k };
  now = now;
}

run-secure :
    (es : List Event) (n k now : ℕ)
    → All IsRequest es
    → (n' : ℕ) × ((k' : ℕ) × ((later : ℕ) × (run (secure n k now) es ≡ secure n' k' later)))
unfolding run happens begin_at serve start_tls
run-secure [] n k now r = (n, (k, (now, refl)))
run-secure (begins_http ∷ es) n k now r = run-secure es (n + 1) k now r.1
run-secure (ends_http ∷ es) n k now r = run-secure es (n - 1) k now r.1
run-secure (begins_https ∷ es) n k now r = run-secure es n (k + 1) now r.1
run-secure (ends_https ∷ es) n k now r = run-secure es n (k - 1) now r.1
run-secure (passes m ∷ es) n k now r = run-secure es n k (now + m) r.1
run-secure (turns ∷ es) n k now r = absurd r.0
run-secure (https_ends failed ∷ es) n k now r = absurd r.0
run-secure (watches ∷ es) n k now r = absurd r.0
run-secure (cancels ∷ es) n k now r = absurd r.0
run-secure (shuts_down done ∷ es) n k now r = absurd r.0

start-secure :
    (cfg : Config)
    → is_some (https_addr cfg) ≡ true
    → start cfg new_server true true true ≡ secure 0 0 0
unfolding start serve start_tls
start-secure cfg e =
    ap (λ b. if b then start_tls (listens new_server) true true else serve (listens new_server)) e

-- A signal, the watcher's call of `Shutdown` for HTTP, its time, the call for HTTPS, at which the
-- goroutine of HTTPS ends, and two turns of `Start`.
abbrev pub shutdown_later : List Event
shutdown_later =
    cancels ∷ watches ∷ passes shutdown_timeout ∷ watches ∷ https_ends false ∷ turns ∷ turns ∷ []

secure-cut_off :
    (n k now : ℕ)
    → ((run (secure n k now) shutdown_later).phase ≡ returned none)
      × ((run (secure n k now) shutdown_later).https.active ≡ k)
unfolding run happens watch_at turn_at close_at serve start_tls
secure-cut_off n k now =
    let late : drained (record { stage = closed; active = n }) now (now + shutdown_timeout) ≡ true =
      ground arith in
    rw late (refl, refl)

-- The requests of HTTPS that are served when the context is done are not waited for: there is a run in
-- which every one of them is still served when `Start` has returned without an error.
pub start-cut_off :
    (cfg : Config) (es : List Event)
    → is_some (https_addr cfg) ≡ true
    → All IsRequest es
    → let s = run (start cfg new_server true true true) es in
      ((run s shutdown_later).phase ≡ returned none)
      × ((run s shutdown_later).https.active ≡ s.https.active)
start-cut_off cfg es tls requests =
    let (n, (k, (later, same))) = run-secure es 0 0 0 requests in
    let whole : run (start cfg new_server true true true) es ≡ secure n k later =
      ap (λ s. run s es) (start-secure cfg tls) ∙ same in
    let (ended, left) = secure-cut_off n k later in
    (
      ap (λ s. (run s shutdown_later).phase) whole ∙ ended,
      ap (λ s. (run s shutdown_later).https.active) whole
          ∙ left
          ∙ sym (ap (λ s. s.https.active) whole),
    )
