-- ===== src/HttpProxy/Endings.antt =====
-- How `Start` of internal/httpproxy/server.go ends.
use multi_protocol_proxy.Prelude.{
  ◌-◌, Bool, true, false, not, ◌&&◌, ◌||◌, List, [], ◌∷◌, none, some, is_some, if◌then◌else◌, ◌==◌,
  ◌≡◌, refl, ap, ◌∙◌, subst, arith,
}
use multi_protocol_proxy.Config.Load.{Config}
use multi_protocol_proxy.HttpProxy.Server.{https_addr}
use multi_protocol_proxy.HttpProxy.Lifecycle.{
  Stage, absent, made, closed, HttpServer, serve_failed, Phase, new, in_serve, in_wait, returned,
  Watcher, unborn, waits, over, in_http, in_https, Server, new_server, serve, listens, start_tls,
  start, close_at, close_http, is_closed, watch_at, turn_at, Event, turns, https_ends, watches,
  cancels, begins_http, ends_http, begins_https, ends_https, passes, begin_at, begin, happens,
  Caller, outside, shuts_http, shuts_https, in_group, back, shut_at, shuts_down, run, drained,
}

-- Behind `Serve` its server is closed.
abbrev pub IsEnded : Phase → Bool → Type 0
IsEnded in_wait closed_http = closed_http ≡ true
IsEnded (returned none) closed_http = closed_http ≡ true
IsEnded _ closed_http = Unit {0}

abbrev pub is_called : Caller → Bool
is_called outside = false
is_called _ = true

-- The server for HTTP is closed only behind the end of the context, and then the channel is closed as
-- well, or by a call of `Shutdown`; its listener is closed with it.
pub record IsOrderly (s : Server) : Type 0 where
  pub closes :
      (not (is_closed s.http.stage)
        || not s.listening && (s.cancelled && s.shutdown_closed || is_called s.caller))
      ≡ true
  pub ended : IsEnded s.phase (is_closed s.http.stage)

begin-is_closed : (h : HttpServer) → is_closed (begin h).stage ≡ is_closed h.stage
unfolding begin_at
begin-is_closed h = go h.stage
  where
    go : (st : Stage) → is_closed (begin_at st h).stage ≡ is_closed h.stage
    go absent = refl
    go made = refl
    go closed = refl

close-is_closed :
    (h : HttpServer) → is_closed h.stage ≡ true → is_closed (close_http h).stage ≡ true
unfolding close_at
close-is_closed h c = go h.stage
  where
    go : (st : Stage) → is_closed (close_at st h).stage ≡ true
    go absent = c
    go made = refl
    go closed = c

IsEnded-later : (ph : Phase) (b c : Bool) → (b ≡ true → c ≡ true) → IsEnded ph b → IsEnded ph c
IsEnded-later new b c f i = tt
IsEnded-later in_serve b c f i = tt
IsEnded-later in_wait b c f i = f i
IsEnded-later (returned none) b c f i = f i
IsEnded-later (returned (some e)) b c f i = tt

serve-IsEnded : (b : Bool) → IsEnded (if b then in_wait else returned (some serve_failed)) b
serve-IsEnded true = refl
serve-IsEnded false = tt

turn-IsOrderly :
    (ph : Phase) (s : Server)
    → IsEnded ph (is_closed s.http.stage)
    → IsOrderly s
    → IsOrderly (turn_at ph s)
unfolding turn_at
turn-IsOrderly new s i o = o
turn-IsOrderly in_serve s i o = record {
  closes = o.closes;
  ended = serve-IsEnded (is_closed s.http.stage);
}
turn-IsOrderly in_wait s i o = go (s.waiting == 0)
  where
    go : (b : Bool) → IsOrderly (if b then record s { phase = returned none } else s)
    go true = record { closes = o.closes; ended = i }
    go false = o
turn-IsOrderly (returned r) s i o = o

watch-IsOrderly : (w : Watcher) (s : Server) → IsOrderly s → IsOrderly (watch_at w s)
unfolding watch_at
watch-IsOrderly unborn s o = o
watch-IsOrderly waits s o = go s.cancelled refl
  where
    go :
        (b : Bool)
        → s.cancelled ≡ b
        → IsOrderly (
            if b
            then record s {
              shutdown_closed = true;
              http = close_http s.http;
              listening = false;
              watcher = in_http s.now;
            }
            else s)
    go true e = record {
      closes = ground (arith, e);
      ended = IsEnded-later s.phase _ _ (close-is_closed s.http) o.ended;
    }
    go false e = o
watch-IsOrderly (in_http since) s o = go (drained s.http since s.now)
  where
    go :
        (b : Bool)
        → IsOrderly (
            if b
            then record s {
              https = close_http s.https;
              tls_listening = false;
              watcher = in_https since;
            }
            else s)
    go true = record { closes = o.closes; ended = o.ended }
    go false = o
watch-IsOrderly (in_https since) s o = go (drained s.https since s.now)
  where
    go : (b : Bool) → IsOrderly (if b then record s { watcher = over since } else s)
    go true = record { closes = o.closes; ended = o.ended }
    go false = o
watch-IsOrderly (over since) s o = o

-- A later step of `Shutdown` keeps what its call has done.
called-IsOrderly :
    (s : Server) (later : Caller)
    → is_called s.caller ≡ true
    → is_called later ≡ true
    → IsOrderly s
    → IsOrderly (record s { caller = later })
called-IsOrderly s later was is o = record {
  closes = ground (arith, was, is, o.closes);
  ended = o.ended;
}

shut-IsOrderly :
    (c : Caller) (done : Bool) (s : Server)
    → s.caller ≡ c
    → IsOrderly s
    → IsOrderly (shut_at c done s)
unfolding shut_at
shut-IsOrderly outside done s e o = record {
  closes = ground arith;
  ended = IsEnded-later s.phase _ _ (close-is_closed s.http) o.ended;
}
shut-IsOrderly shuts_http done s e o = go (s.http.active == 0 || done)
  where
    go :
        (b : Bool)
        → IsOrderly (
            if b
            then record s {
              https = close_http s.https;
              tls_listening = false;
              caller = shuts_https;
            }
            else s)
    go true =
        let later = called-IsOrderly s shuts_https (ap is_called e) refl o in
        record { closes = later.closes; ended = later.ended }
    go false = o
shut-IsOrderly shuts_https done s e o = go (s.https.active == 0 || done)
  where
    go : (b : Bool) → IsOrderly (if b then record s { caller = in_group } else s)
    go true = called-IsOrderly s in_group (ap is_called e) refl o
    go false = o
shut-IsOrderly in_group done s e o = go (s.waiting == 0)
  where
    go : (b : Bool) → IsOrderly (if b then record s { caller = back } else s)
    go true = called-IsOrderly s back (ap is_called e) refl o
    go false = o
shut-IsOrderly back done s e o = o

happens-IsOrderly : (s : Server) (e : Event) → IsOrderly s → IsOrderly (happens s e)
unfolding happens
happens-IsOrderly s turns o = turn-IsOrderly s.phase s o.ended o
happens-IsOrderly s (https_ends failed) o = go (failed || is_closed s.https.stage)
  where
    go : (b : Bool) → IsOrderly (if b then record s { waiting = s.waiting - 1 } else s)
    go true = record { closes = o.closes; ended = o.ended }
    go false = o
happens-IsOrderly s watches o = watch-IsOrderly s.watcher s o
happens-IsOrderly s cancels o = record { closes = ground (arith, o.closes); ended = o.ended }
happens-IsOrderly s begins_http o = record {
  closes =
      ap (λ b. not b || not s.listening && (s.cancelled && s.shutdown_closed || is_called s.caller))
        (begin-is_closed s.http)
      ∙ o.closes;
  ended = IsEnded-later s.phase _ _ (λ c. begin-is_closed s.http ∙ c) o.ended;
}
happens-IsOrderly s ends_http o = record { closes = o.closes; ended = o.ended }
happens-IsOrderly s begins_https o = record { closes = o.closes; ended = o.ended }
happens-IsOrderly s ends_https o = record { closes = o.closes; ended = o.ended }
happens-IsOrderly s (shuts_down done) o = shut-IsOrderly s.caller done s refl o
happens-IsOrderly s (passes n) o = record { closes = o.closes; ended = o.ended }

run-IsOrderly : (es : List Event) (s : Server) → IsOrderly s → IsOrderly (run s es)
unfolding run
run-IsOrderly [] s o = o
run-IsOrderly (e ∷ es) s o = run-IsOrderly es (happens s e) (happens-IsOrderly s e o)

start-IsOrderly : (cfg : Config) (l c o : Bool) → IsOrderly (start cfg new_server l c o)
unfolding start start_tls serve
start-IsOrderly cfg false c o = record { closes = refl; ended = tt }
start-IsOrderly cfg true c o = go (is_some (https_addr cfg))
  where
    tls : (c o : Bool) → IsOrderly (start_tls (listens new_server) c o)
    tls false o = record { closes = refl; ended = tt }
    tls true false = record { closes = refl; ended = tt }
    tls true true = record { closes = refl; ended = tt }

    go :
        (b : Bool)
        → IsOrderly (if b then start_tls (listens new_server) c o else serve (listens new_server))
    go true = tls c o
    go false = record { closes = refl; ended = tt }

returned-closed :
    (s : Server) → IsOrderly s → s.phase ≡ returned none → is_closed s.http.stage ≡ true
returned-closed s o e = subst (λ ph. IsEnded ph (is_closed s.http.stage)) e o.ended

-- In any run `Start` returns without an error only where its listener is closed, and where the
-- context is done and the channel closed, or else the method `Shutdown` has been called.
pub run-returns_nil :
    (cfg : Config) (l c o : Bool) (es : List Event)
    → (run (start cfg new_server l c o) es).phase ≡ returned none
    → let s = run (start cfg new_server l c o) es in
      (s.listening ≡ false) × ((s.cancelled && s.shutdown_closed || is_called s.caller) ≡ true)
run-returns_nil cfg l c o es e =
    let s = run (start cfg new_server l c o) es in
    let v = run-IsOrderly es (start cfg new_server l c o) (start-IsOrderly cfg l c o) in
    let closed_http = returned-closed s v e in
    let done = v.closes in (ground (arith, done, closed_http), ground (arith, done, closed_http))
