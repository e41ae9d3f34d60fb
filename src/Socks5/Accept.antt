-- ===== src/Socks5/Accept.antt =====
-- The accept loop and the shutdown of internal/socks5/server.go as steps. Log lines are left out.
use multi_protocol_proxy.Prelude.{ℕ, ◌+◌, ◌-◌, Bool, true, false, List, [], ◌∷◌, if◌then◌else◌}

-- Where the goroutine of `Start` is, and what it has returned: no error, or one.
pub data Loop : Type 0 where
  at_select in_accept returned_nil returned_error : Loop

-- `panicked`: a closed channel has been closed, which ends the program.
pub record Server : Type 0 where
  pub shutdown_closed : Bool
  pub listening : Bool
  pub serving : ℕ
  pub loop : Loop
  pub cancelled : Bool
  pub watched : Bool
  pub panicked : Bool

-- `NewServer`, and `Start` up to its loop, where the listener is open and the watcher runs.
abbrev pub started : Server
started = record {
  shutdown_closed = false;
  listening = true;
  serving = 0;
  loop = at_select;
  cancelled = false;
  watched = false;
  panicked = false;
}

-- `close(s.shutdown)`, and then `s.ln.Close()`.
unfoldable pub close_shutdown : Server → Server
close_shutdown s =
    if s.shutdown_closed
    then record s { panicked = true }
    else record s { shutdown_closed = true; listening = false }

-- What `Accept` returns: a connection, a timeout, or another error.
pub data Accepted : Type 0 where
  conn timed_out broken : Accepted

-- The select at the head of the loop.
unfoldable pub select_shutdown : Server → Server
select_shutdown s = record s { loop = if s.shutdown_closed then returned_nil else in_accept }

-- Behind `Accept`. A closed listener gives no connection.
unfoldable pub accept : Server → Accepted → Server
accept s conn = if s.listening then record s { serving = s.serving + 1; loop = at_select } else s
accept s timed_out = record s { loop = if s.shutdown_closed then returned_nil else at_select }
accept s broken = record s { loop = if s.shutdown_closed then returned_nil else returned_error }

-- The context is done; the watcher runs; the loop takes a step; a handler ends; `Shutdown` is called.
pub data Event : Type 0 where
  cancels watches selects ends shuts_down : Event
  accepts : Accepted → Event

abbrev at_loop : Server → Loop → Bool
at_loop s l = elim s.loop [
  | at_select ↦ elim l [ at_select ↦ true | _ ↦ false ]
  | in_accept ↦ elim l [ in_accept ↦ true | _ ↦ false ]
  | returned_nil ↦ false
  | returned_error ↦ false
]

-- An event that cannot take place leaves the server as it is, and so does any after a panic.
unfoldable pub happens : Server → Event → Server
unfolding close_shutdown select_shutdown accept
happens s cancels = record s { cancelled = true }
happens s watches =
    if s.cancelled
    then (if s.watched then s else close_shutdown (record s { watched = true }))
    else s
happens s selects = if at_loop s at_select then select_shutdown s else s
happens s (accepts a) = if at_loop s in_accept then accept s a else s
happens s ends = record s { serving = s.serving - 1 }
happens s shuts_down = close_shutdown s

unfoldable pub run : Server → List Event → Server
unfolding happens
run s [] = s
run s (e ∷ es) = run (if s.panicked then s else happens s e) es
