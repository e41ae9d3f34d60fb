-- ===== src/Proxy/Accept.antt =====
-- The accept loop of `Start` in internal/proxy/server.go as steps. `held` are the slots of the
-- semaphore `connSem` that are taken, `waiting` is the counter of the wait group `wg`, `rejected` is
-- the metric of that name. The listener and the certificate are in
-- Lifecycle; log lines are left out.
use multi_protocol_proxy.Prelude.{ℕ, ◌+◌, ◌-◌, ◌<◌, Bool, true, false, ltb, if◌then◌else◌}

pub record Server : Type 0 where
  pub max_conns : ℕ
  pub held : ℕ
  pub waiting : ℕ
  pub rejected : ℕ
  pub shutdown : Bool

-- `NewServer`.
abbrev pub new_server : ℕ → Server
new_server max_conns = record {
  max_conns = max_conns;
  held = 0;
  waiting = 0;
  rejected = 0;
  shutdown = false;
}

-- What `Accept` returns: a connection, a timeout, or another error.
pub data Accepted : Type 0 where
  conn timed_out broken : Accepted

-- What a round of the loop comes to: the loop goes on, it drains, or it returns the error.
pub data Round : Type 0 where
  goes_on drains returns_error : Round

-- The select over the semaphore.
unfoldable pub admit : Server → Server
admit s =
    if ltb s.held s.max_conns
    then record s { held = s.held + 1; waiting = s.waiting + 1 }
    else record s { rejected = s.rejected + 1 }

-- A round of the loop: `shutdown` as it is at the head of the loop, and then as it is behind
-- `Accept`.
unfoldable pub round : Server → Bool → Accepted → Server × Round
round s shutdown_then accepted = if s.shutdown then (s, drains) else elim accepted [
  | conn ↦ (admit (record s { shutdown = shutdown_then }), goes_on)
  | timed_out ↦ (record s { shutdown = shutdown_then }, if shutdown_then then drains else goes_on)
  | broken ↦
      (record s { shutdown = shutdown_then }, if shutdown_then then drains else returns_error)
]

-- The deferred calls of a connection's goroutine: the slot is given back, and then the wait group
-- is told.
unfoldable pub release : Server → Server
release s = record s { held = s.held - 1 }

unfoldable pub tell : Server → Server
tell s = record s { waiting = s.waiting - 1 }

-- A step of the server beside `ending`, the goroutines that have given back their slot and not yet
-- told the wait group. `close(s.shutdown)` happens once.
pub data Step : Server × ℕ → Server × ℕ → Type 0 where
  accepts :
      (s : Server) (n : ℕ) (later : Bool) (a : Accepted) → Step (s, n) ((round s later a).0, n)
  releases : (s : Server) (n : ℕ) → 0 < s.held → Step (s, n) (release s, n + 1)
  tells : (s : Server) (n : ℕ) → 0 < n → Step (s, n) (tell s, n - 1)
  shuts_down : (s : Server) (n : ℕ) → Step (s, n) (record s { shutdown = true }, n)

-- The states that a new server comes to.
pub data Reachable : ℕ → Server × ℕ → Type 0 where
  starts : (max_conns : ℕ) → Reachable max_conns (new_server max_conns, 0)
  steps :
      (max_conns : ℕ) (x y : Server × ℕ) → Reachable max_conns x → Step x y → Reachable max_conns y
