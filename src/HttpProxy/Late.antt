-- ===== src/HttpProxy/Late.antt =====
-- When the watcher of internal/httpproxy/server.go calls `Shutdown`.
use multi_protocol_proxy.Prelude.{
  ℕ, ◌+◌, ◌≤◌, Bool, true, false, ◌||◌, List, [], ◌∷◌, ◌==◌, if◌then◌else◌, ◌≡◌, arith, All,
}
use multi_protocol_proxy.HttpProxy.Lifecycle.{
  Phase, new, in_serve, in_wait, returned, Watcher, unborn, waits, over, in_http, in_https, Server,
  is_closed, watch_at, turn_at, Event, turns, https_ends, watches, cancels, begins_http, ends_http,
  begins_https, ends_https, passes, shuts_down, happens, run, drained,
}

-- Nothing calls the method `Shutdown`, and `Serve` of HTTPS does not fail.
abbrev pub IsRegular : Event → Type 0
IsRegular (shuts_down done) = ⊥
IsRegular (https_ends failed) = failed ≡ false
IsRegular _ = Unit {0}

-- The watcher has not called `Shutdown` of the server for HTTP before a time.
abbrev pub IsLate : ℕ → Watcher → ℕ → Type 0
IsLate t unborn now = Unit {0}
IsLate t waits now = t ≤ now
IsLate t (in_http since) now = t ≤ since
IsLate t (in_https since) now = t ≤ since
IsLate t (over since) now = t ≤ since

if-IsLate :
    (t : ℕ) (b : Bool) (s s' : Server)
    → IsLate t s'.watcher s'.now
    → IsLate t s.watcher s.now
    → let r = if b then s' else s in IsLate t r.watcher r.now
if-IsLate t true s s' l m = l
if-IsLate t false s s' l m = m

watch-IsLate :
    (t : ℕ) (w : Watcher) (s : Server)
    → IsLate t s.watcher s.now
    → IsLate t w s.now
    → let r = watch_at w s in IsLate t r.watcher r.now
unfolding watch_at
watch-IsLate t unborn s m l = m
watch-IsLate t waits s m l = if-IsLate t s.cancelled s _ l m
watch-IsLate t (in_http since) s m l = if-IsLate t (drained s.http since s.now) s _ l m
watch-IsLate t (in_https since) s m l = if-IsLate t (drained s.https since s.now) s _ l m
watch-IsLate t (over since) s m l = m

turn-IsLate :
    (t : ℕ) (ph : Phase) (s : Server)
    → IsLate t s.watcher s.now
    → let r = turn_at ph s in IsLate t r.watcher r.now
unfolding turn_at
turn-IsLate t new s m = m
turn-IsLate t in_serve s m = m
turn-IsLate t in_wait s m = if-IsLate t (s.waiting == 0) s _ m m
turn-IsLate t (returned r) s m = m

later-IsLate : (t : ℕ) (w : Watcher) (now n : ℕ) → IsLate t w now → IsLate t w (now + n)
later-IsLate t unborn now n l = l
later-IsLate t waits now n l = omega (arith, l)
later-IsLate t (in_http since) now n l = l
later-IsLate t (in_https since) now n l = l
later-IsLate t (over since) now n l = l

happens-IsLate :
    (t : ℕ) (s : Server) (e : Event)
    → IsRegular e
    → IsLate t s.watcher s.now
    → let r = happens s e in IsLate t r.watcher r.now
unfolding happens
happens-IsLate t s turns r l = turn-IsLate t s.phase s l
happens-IsLate t s (https_ends failed) r l = if-IsLate t (failed || is_closed s.https.stage) s _ l l
happens-IsLate t s watches r l = watch-IsLate t s.watcher s l l
happens-IsLate t s cancels r l = l
happens-IsLate t s begins_http r l = l
happens-IsLate t s ends_http r l = l
happens-IsLate t s begins_https r l = l
happens-IsLate t s ends_https r l = l
happens-IsLate t s (shuts_down done) r l = absurd r
happens-IsLate t s (passes n) r l = later-IsLate t s.watcher s.now n l

pub run-IsLate :
    (t : ℕ) (es : List Event) (s : Server)
    → All IsRegular es
    → IsLate t s.watcher s.now
    → let r = run s es in IsLate t r.watcher r.now
unfolding run
run-IsLate t [] s r l = l
run-IsLate t (e ∷ es) s r l = run-IsLate t es (happens s e) r.1 (happens-IsLate t s e r.0 l)
