-- ===== src/HttpProxy/Lifecycle.antt =====
-- `NewServer`, `Start`, `watchShutdown` and `Shutdown` of internal/httpproxy/server.go. What the
-- operating system, the certificate's files and the clients do comes with the events. Of
-- `http.Server` a run uses what its documentation says: `Serve` returns `ErrServerClosed` once
-- `Shutdown` is called, and `Shutdown` waits for the requests until its context is done.
use multi_protocol_proxy.Prelude.{
  ℕ, ◌+◌, ◌-◌, ◌*◌, Bool, true, false, ◌||◌, List, [], ◌∷◌, Option, none, some, is_some, leb, ◌==◌,
  if◌then◌else◌,
}
use multi_protocol_proxy.Throttle.{second}
use multi_protocol_proxy.Config.Load.{Config}
use multi_protocol_proxy.HttpProxy.Server.{https_addr}

-- An `http.Server` of the program: not made, made, or one whose `Shutdown` has been called; and
-- the requests that it serves.
pub data Stage : Type 0 where
  absent made closed : Stage

pub record HttpServer : Type 0 where
  pub stage : Stage
  pub active : ℕ

pub data Failure : Type 0 where
  cannot_listen cannot_load cannot_listen_tls serve_failed : Failure

-- `Start` is before its listener, in `Serve`, in `s.wg.Wait()`, or it has returned.
pub data Phase : Type 0 where
  new in_serve in_wait : Phase
  returned : Option Failure → Phase

-- The goroutine of `watchShutdown`: not started, before the end of the context, in `Shutdown` of
-- the server for HTTP and of that for HTTPS since a time, and at its end.
pub data Watcher : Type 0 where
  unborn waits : Watcher
  in_http in_https over : ℕ → Watcher

-- The goroutine that calls the method `Shutdown`, which nothing in the program does: before the call,
-- in `Shutdown` of the server for HTTP and of that for HTTPS, in `s.wg.Wait()`, and behind it.
pub data Caller : Type 0 where
  outside shuts_http shuts_https in_group back : Caller

-- `waiting` is the counter of the wait group, which counts the goroutine that serves HTTPS.
pub record Server : Type 0 where
  pub http : HttpServer
  pub https : HttpServer
  pub listening : Bool
  pub tls_listening : Bool
  pub waiting : ℕ
  pub phase : Phase
  pub watcher : Watcher
  pub shutdown_closed : Bool
  pub cancelled : Bool
  pub caller : Caller
  pub now : ℕ

abbrev pub no_http_server : HttpServer
no_http_server = record { stage = absent; active = 0 }

abbrev pub new_server : Server
new_server = record {
  http = no_http_server;
  https = no_http_server;
  listening = false;
  tls_listening = false;
  waiting = 0;
  phase = new;
  watcher = unborn;
  shutdown_closed = false;
  cancelled = false;
  caller = outside;
  now = 0;
}

abbrev pub new_http_server : HttpServer
new_http_server = record { stage = made; active = 0 }

-- `go s.watchShutdown(ctx)`, and the call of `Serve` behind it.
unfoldable pub serve : Server → Server
serve s = record s { watcher = waits; phase = in_serve }

-- The part of `Start` under the test for TLS. `loaded` and `opened` tell whether the certificate and
-- the listener are there.
unfoldable pub start_tls : Server → Bool → Bool → Server
unfolding serve
start_tls s false opened = record s { phase = returned (some cannot_load) }
start_tls s true false = record s { phase = returned (some cannot_listen_tls) }
start_tls s true true =
    serve (record s { tls_listening = true; https = new_http_server; waiting = s.waiting + 1 })

-- Behind the first `net.Listen`.
abbrev pub listens : Server → Server
listens s = record s { listening = true; http = new_http_server }

-- `Start` up to `Serve`. `listened` tells whether the first listener is there.
unfoldable pub start : Config → Server → Bool → Bool → Bool → Server
unfolding start_tls serve https_addr
start cfg s false loaded opened = record s { phase = returned (some cannot_listen) }
start cfg s true loaded opened =
    if is_some (https_addr cfg) then start_tls (listens s) loaded opened else serve (listens s)

-- `Shutdown` of an `http.Server`: behind the test for nil, the call, which stops it from serving.
unfoldable pub close_at : Stage → HttpServer → HttpServer
close_at absent h = h
close_at made h = record h { stage = closed }
close_at closed h = h

abbrev pub close_http : HttpServer → HttpServer
close_http h = close_at h.stage h

abbrev pub is_closed : Stage → Bool
is_closed closed = true
is_closed _ = false

abbrev pub shutdown_timeout : ℕ
shutdown_timeout = 30 * second

-- `Shutdown` of an `http.Server` returns.
abbrev pub drained : HttpServer → ℕ → ℕ → Bool
drained h since now = h.active == 0 || leb (since + shutdown_timeout) now

-- A step of the watcher. Its context is that of both calls.
unfoldable pub watch_at : Watcher → Server → Server
unfolding close_at
watch_at unborn s = s
watch_at waits s =
    if s.cancelled
    then record s {
      shutdown_closed = true;
      http = close_http s.http;
      listening = false;
      watcher = in_http s.now;
    }
    else s
watch_at (in_http since) s =
    if drained s.http since s.now
    then record s { https = close_http s.https; tls_listening = false; watcher = in_https since }
    else s
watch_at (in_https since) s =
    if drained s.https since s.now then record s { watcher = over since } else s
watch_at (over since) s = s

-- A step of the method `Shutdown`. `done` tells whether its context is done.
unfoldable pub shut_at : Caller → Bool → Server → Server
unfolding close_at
shut_at outside done s = record s {
  http = close_http s.http;
  listening = false;
  caller = shuts_http;
}
shut_at shuts_http done s =
    if s.http.active == 0 || done
    then record s { https = close_http s.https; tls_listening = false; caller = shuts_https }
    else s
shut_at shuts_https done s =
    if s.https.active == 0 || done then record s { caller = in_group } else s
shut_at in_group done s = if s.waiting == 0 then record s { caller = back } else s
shut_at back done s = s

-- A step of `Start` behind its listeners: `Serve` returns, and then the wait group is waited for.
unfoldable pub turn_at : Phase → Server → Server
turn_at new s = s
turn_at in_serve s = record s {
  phase = if is_closed s.http.stage then in_wait else returned (some serve_failed);
}
turn_at in_wait s = if s.waiting == 0 then record s { phase = returned none } else s
turn_at (returned r) s = s

-- A turn of `Start`, where `Serve` returns of itself only on a failure of the listener; the goroutine
-- of HTTPS ends, by such a failure or behind `Shutdown`; the watcher's turn; a request begins or ends; the context is done; a turn of the
-- method `Shutdown`; time passes.
pub data Event : Type 0 where
  turns watches cancels : Event
  https_ends : Bool → Event
  begins_http ends_http begins_https ends_https : Event
  shuts_down : Bool → Event
  passes : ℕ → Event

-- Only a server that is made, and not shut down, takes a request.
unfoldable pub begin_at : Stage → HttpServer → HttpServer
begin_at absent h = h
begin_at made h = record h { active = h.active + 1 }
begin_at closed h = h

abbrev pub begin : HttpServer → HttpServer
begin h = begin_at h.stage h

abbrev pub end_one : HttpServer → HttpServer
end_one h = record h { active = h.active - 1 }

unfoldable pub happens : Server → Event → Server
unfolding turn_at watch_at shut_at begin_at
happens s turns = turn_at s.phase s
happens s (https_ends failed) =
    if failed || is_closed s.https.stage then record s { waiting = s.waiting - 1 } else s
happens s watches = watch_at s.watcher s
happens s cancels = record s { cancelled = true }
happens s begins_http = record s { http = begin s.http }
happens s ends_http = record s { http = end_one s.http }
happens s begins_https = record s { https = begin s.https }
happens s ends_https = record s { https = end_one s.https }
happens s (shuts_down done) = shut_at s.caller done s
happens s (passes n) = record s { now = s.now + n }

unfoldable pub run : Server → List Event → Server
unfolding happens
run s [] = s
run s (e ∷ es) = run (happens s e) es
