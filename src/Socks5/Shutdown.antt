-- ===== src/Socks5/Shutdown.antt =====
-- internal/socks5/server.go: what a closed channel `shutdown` comes to.
use multi_protocol_proxy.Prelude.{
  ◌≤◌, Bool, true, false, not, ◌||◌, List, [], ◌∷◌, if◌then◌else◌, ◌≡◌, refl, arith, All,
}
use multi_protocol_proxy.Socks5.Accept.{
  Server, started, close_shutdown, conn, timed_out, broken, select_shutdown, accept, Event, cancels,
  watches, selects, ends, shuts_down, accepts, happens, run,
}

-- No connection can come any more.
pub record IsClosed (s : Server) : Type 0 where
  pub closed : s.shutdown_closed ≡ true
  pub deaf : s.listening ≡ false

happens-closed :
    (s : Server) (e : Event) → s.shutdown_closed ≡ true → (happens s e).shutdown_closed ≡ true
unfolding happens close_shutdown select_shutdown accept
happens-closed s cancels c = ground arith
happens-closed s watches c = ground arith
happens-closed s selects c = ground arith
happens-closed s (accepts conn) c = ground arith
happens-closed s (accepts timed_out) c = ground arith
happens-closed s (accepts broken) c = ground arith
happens-closed s ends c = ground arith
happens-closed s shuts_down c = ground arith

happens-deaf :
    (s : Server) (e : Event)
    → s.listening ≡ false
    → ((happens s e).listening ≡ false) × ((happens s e).serving ≤ s.serving)
unfolding happens close_shutdown select_shutdown accept
happens-deaf s cancels d = ground arith
happens-deaf s watches d = ground arith
happens-deaf s selects d = ground arith
happens-deaf s (accepts conn) d = ground arith
happens-deaf s (accepts timed_out) d = ground arith
happens-deaf s (accepts broken) d = ground arith
happens-deaf s ends d = ground arith
happens-deaf s shuts_down d = ground arith

-- Unless a channel is closed twice.
happens-alive :
    (s : Server) (e : Event)
    → IsClosed s
    → IsClosed (if s.panicked then s else happens s e)
      × ((if s.panicked then s else happens s e).serving ≤ s.serving)
happens-alive s e c = go s.panicked
  where
    go :
        (b : Bool)
        → IsClosed (if b then s else happens s e)
          × ((if b then s else happens s e).serving ≤ s.serving)
    go true = (c, omega arith)
    go false =
        let (deaf, fewer) = happens-deaf s e c.deaf in
        (record { closed = happens-closed s e c.closed; deaf = deaf }, fewer)

-- Once the channel is closed the server takes no further connection, whatever happens: it serves at
-- most those that it was serving.
pub run-IsClosed :
    (es : List Event) (s : Server)
    → IsClosed s
    → IsClosed (run s es) × ((run s es).serving ≤ s.serving)
unfolding run
run-IsClosed [] s c = (c, omega arith)
run-IsClosed (e ∷ es) s c =
    let (next, fewer) = happens-alive s e c in
    let (closed, all_fewer) = run-IsClosed es (if s.panicked then s else happens s e) next in
    (closed, omega (arith, fewer, all_fewer))

-- Anything but a call of `Shutdown`.
abbrev pub IsCallFree : Event → Type 0
IsCallFree shuts_down = ⊥
IsCallFree _ = Unit {0}

-- Nothing is closed twice, the watcher alone has closed the channel, and only once the context was
-- done.
abbrev pub IsOrderly : Server → Type 0
IsOrderly s =
    (s.panicked ≡ false) × (s.shutdown_closed ≡ s.watched) × ((not s.watched || s.cancelled) ≡ true)

happens-IsOrderly : (s : Server) (e : Event) → IsCallFree e → IsOrderly s → IsOrderly (happens s e)
unfolding happens close_shutdown select_shutdown accept
happens-IsOrderly s cancels c o = ground (arith, o)
happens-IsOrderly s watches c o = ground (arith, o)
happens-IsOrderly s selects c o = ground (arith, o)
happens-IsOrderly s (accepts conn) c o = ground (arith, o)
happens-IsOrderly s (accepts timed_out) c o = ground (arith, o)
happens-IsOrderly s (accepts broken) c o = ground (arith, o)
happens-IsOrderly s ends c o = ground (arith, o)
happens-IsOrderly s shuts_down c o = absurd c

pub run-IsOrderly :
    (es : List Event) (s : Server) → All IsCallFree es → IsOrderly s → IsOrderly (run s es)
unfolding run
run-IsOrderly [] s c o = o
run-IsOrderly (e ∷ es) s c o =
    run-IsOrderly es (if s.panicked then s else happens s e) c.1 (go s.panicked)
  where
    go : (b : Bool) → IsOrderly (if b then s else happens s e)
    go true = o
    go false = happens-IsOrderly s e c.0 o

-- From the start, whatever happens without a call of `Shutdown`: no closed channel is closed, and the
-- channel is closed only by the watcher, behind the end of the context. But a call of `Shutdown` behind
-- the watcher closes it again, and the program dies.
pub run-Shutdown :
    (es : List Event)
    → All IsCallFree es
    → let s = run started es in
      IsOrderly s × (s.watched ≡ true → (happens s shuts_down).panicked ≡ true)
unfolding happens close_shutdown
run-Shutdown es c =
    let o = run-IsOrderly es started c (refl, refl, refl) in
    (o, λ watched. ground (arith, o.1, watched))
