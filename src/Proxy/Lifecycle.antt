-- ===== src/Proxy/Lifecycle.antt =====
-- `Start` of internal/proxy/server.go with its certificate, listener, shutdown and drain, and the
-- goroutine of cmd/proxy/main.go that reloads the certificate on SIGHUP. A run is a list of events
-- in the order in which they take place; what the certificate's files, the operating system and the
-- listener answer comes with the event. `tls.LoadX509KeyPair` gives a certificate of the type `C`.
use multi_protocol_proxy.Prelude.{
  ℕ, ◌+◌, ◌-◌, ◌*◌, Bool, true, false, ◌||◌, List, [], ◌∷◌, Option, none, some, leb, ◌==◌,
  if◌then◌else◌, ltb,
}
use multi_protocol_proxy.Throttle.{second}
use multi_protocol_proxy.Proxy.Accept.{
  Server, new_server, Accepted, conn, timed_out, broken, admit, release, tell,
}

pub data Failure : Type 0 where
  cannot_load cannot_listen accept_failed : Failure

-- Where `Start` is: before `Reload`, before `tls.Listen`, at the head of its loop, in `Accept`, in
-- `drainConnections` since a time, or behind its return.
pub data Phase : Type 0 where
  starting opening at_select in_accept : Phase
  draining : ℕ → Phase
  returned : Option Failure → Phase

-- The goroutine of `watchShutdown`: not started, before `close(s.shutdown)`, before
-- `s.ln.Close()`, and behind it.
pub data Watcher : Type 0 where
  unborn waits closing over : Watcher

-- `ending` are the goroutines that have given their slot back and not yet told the wait group,
-- `reloading` tells that the goroutine of SIGHUP runs.
pub record Process {ℓ} (C : Type ℓ) : Type ℓ where
  pub server : Server
  pub ending : ℕ
  pub cert : Option C
  pub phase : Phase
  pub watcher : Watcher
  pub cancelled : Bool
  pub listening : Bool
  pub reloading : Bool
  pub now : ℕ

abbrev pub new_process {ℓ} : {C : Type ℓ} → ℕ → Process C
new_process max_conns = record {
  server = new_server max_conns;
  ending = 0;
  cert = none;
  phase = starting;
  watcher = unborn;
  cancelled = false;
  listening = false;
  reloading = true;
  now = 0;
}

-- `Reload`: the certificate stays as it is where the files do not give one.
unfoldable pub reload {ℓ} : {C : Type ℓ} → Process C → Option C → Process C
reload p none = p
reload p (some c) = record p { cert = some c }

-- `getCertificate`.
unfoldable pub get_certificate {ℓ} : {C : Type ℓ} → Process C → Option C
get_certificate p = p.cert

-- `Start` up to its listener.
unfoldable pub load_first {ℓ} : {C : Type ℓ} → Process C → Option C → Process C
unfolding reload
load_first p none = record p { phase = returned (some cannot_load) }
load_first p (some c) = record (reload p (some c)) { phase = opening }

-- `tls.Listen`, and `go s.watchShutdown(ctx)` behind it.
unfoldable pub listen {ℓ} : {C : Type ℓ} → Process C → Bool → Process C
listen p true = record p { listening = true; watcher = waits; phase = at_select }
listen p false = record p { phase = returned (some cannot_listen) }

-- The phase where a test of the channel `shutdown` decides between the drain and another phase.
unfoldable pub unless_shutdown {ℓ} : {C : Type ℓ} → Process C → Phase → Process C
unless_shutdown p other = record p { phase = if p.server.shutdown then draining p.now else other }

-- Behind `Accept`, which fails on a closed listener.
unfoldable pub accept {ℓ} : {C : Type ℓ} → Process C → Accepted → Process C
unfolding admit unless_shutdown
accept p conn = record p { server = admit p.server; phase = at_select }
accept p timed_out = unless_shutdown p at_select
accept p broken = unless_shutdown p (returned (some accept_failed))

-- What `Accept` answers on a listener that is open or closed: on an open one it blocks, as long as
-- there is nothing to answer.
abbrev pub answer : Bool → Option Accepted → Option Accepted
answer true accepted = accepted
answer false accepted = some broken

-- `Start` in `Accept`.
unfoldable pub accept_or_block {ℓ} : {C : Type ℓ} → Process C → Option Accepted → Process C
unfolding accept
accept_or_block p none = record p { phase = in_accept }
accept_or_block p (some a) = accept p a

abbrev pub drain_timeout : ℕ
drain_timeout = 30 * second

-- The select of `drainConnections`, which blocks while connections are left and time is.
unfoldable pub drain {ℓ} : {C : Type ℓ} → Process C → ℕ → Process C
drain p since = record p {
  phase =
      if p.server.waiting == 0 || leb (since + drain_timeout) p.now
      then returned none
      else draining since;
}

-- What is outside answers to the call that a turn of `Start` makes. `accepted` is none where no
-- connection comes, so that `Accept` on an open listener does not return.
pub record Answers {ℓ} (C : Type ℓ) : Type ℓ where
  pub loaded : Option C
  pub opened : Bool
  pub accepted : Option Accepted

-- The next step of `Start`, by its phase.
unfoldable pub turn_at {ℓ} : {C : Type ℓ} → Phase → Process C → Answers C → Process C
unfolding load_first listen unless_shutdown accept_or_block drain
turn_at starting p w = load_first p w.loaded
turn_at opening p w = listen p w.opened
turn_at at_select p w = unless_shutdown p in_accept
turn_at in_accept p w = accept_or_block p (answer p.listening w.accepted)
turn_at (draining since) p w = drain p since
turn_at (returned r) p w = p

-- `watchShutdown`, by its two calls.
unfoldable pub watch_at {ℓ} : {C : Type ℓ} → Watcher → Process C → Process C
watch_at unborn p = p
watch_at waits p =
    if p.cancelled
    then record p { server = record p.server { shutdown = true }; watcher = closing }
    else p
watch_at closing p = record p { listening = false; watcher = over }
watch_at over p = p

-- A turn of `Start` or of the watcher; a connection gives its slot back, or tells the wait group;
-- the context is done; a SIGHUP with what the files hold; the goroutine of SIGHUP ends; time passes.
pub data Event {ℓ} (C : Type ℓ) : Type ℓ where
  turns : Answers C → Event C
  watches releases tells cancels stops_reloading : Event C
  hangs_up : Option C → Event C
  passes : ℕ → Event C

-- An event that cannot take place leaves the process as it is.
unfoldable pub happens {ℓ} : {C : Type ℓ} → Process C → Event C → Process C
unfolding turn_at watch_at release tell reload
happens p (turns w) = turn_at p.phase p w
happens p watches = watch_at p.watcher p
happens p releases =
    if ltb 0 p.server.held then record p { server = release p.server; ending = p.ending + 1 } else p
happens p tells =
    if ltb 0 p.ending then record p { server = tell p.server; ending = p.ending - 1 } else p
happens p cancels = record p { cancelled = true }
happens p stops_reloading = if p.cancelled then record p { reloading = false } else p
happens p (hangs_up loaded) = if p.reloading then reload p loaded else p
happens p (passes n) = record p { now = p.now + n }

unfoldable pub run {ℓ} : {C : Type ℓ} → Process C → List (Event C) → Process C
unfolding happens
run p [] = p
run p (e ∷ es) = run (happens p e) es
