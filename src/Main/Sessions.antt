-- ===== src/Main/Sessions.antt =====
-- cmd/proxy/main.go: the sessions of `runHTTPSProxyMode`, one after the other, over one usage file.
use multi_protocol_proxy.Prelude.{
  Bool, true, false, List, [], ◌∷◌, Option, none, some, Bytes, ◌≡◌, refl, sym, ap, ◌∙◌, subst,
  arith, All, str_eq, str_eq_iff, if◌then◌else◌, Map, map_values,
}
use multi_protocol_proxy.Config.Load.{Config}
use multi_protocol_proxy.HttpProxy.Lifecycle.{Event, Phase, returned, new_server, start}
use multi_protocol_proxy.HttpProxy.Lifecycle
use multi_protocol_proxy.Tracker.{
  Tracker, UserUsage, UsageFile, Moment, new_tracker, load_from_disk, stop, check_monthly_reset,
  record_bytes, check_allowance, get_usage, get_or_create, with_user, increment_conns,
  decrement_conns, check_conn_limit, save_to_disk, restored,
}
use multi_protocol_proxy.Tracker.Balance.{
  Call, records, allowances, usages, increments, decrements, limits, saves, step,
}
use multi_protocol_proxy.Tracker.Balance
use multi_protocol_proxy.Tracker.Disk.{new_tracker-stop}
use multi_protocol_proxy.Tracker.View.{
  Counters, view, plus_bytes, record_bytes-view, check_allowance-view, get_usage-view,
  increment_conns-view, decrement_conns-view, check_conn_limit-view, save_to_disk-view,
}

-- A run of the program: the tracker's calls with the moments of each, by its handlers and by its
-- ticker, the events of the HTTP server, and the moments of the start and the end.
pub record Session : Type 0 where
  pub begins : Moment
  pub listened : Bool
  pub loaded : Bool
  pub opened : Bool
  pub events : List Event
  pub calls : List (Moment × Call)
  pub ends : Moment

abbrev pub phase_of : Config → Session → Phase
phase_of cfg s = (Lifecycle.run (start cfg new_server s.listened s.loaded s.opened) s.events).phase

-- `runHTTPSProxyMode` returns, and its deferred `Stop` runs, or it ends in `log.Fatal`, which exits
-- without it, or it is killed.
unfoldable pub close_tracker : Phase → Tracker → Moment → Tracker
unfolding stop
close_tracker (returned none) t m = stop t m
close_tracker _ t m = t

-- What the usage file holds behind a session.
unfoldable pub run_session : Config → Option UsageFile → Session → Option UsageFile
unfolding new_tracker close_tracker
run_session cfg disk s =
    (close_tracker (phase_of cfg s) (Balance.run (new_tracker disk s.begins) s.calls) s.ends).disk

unfoldable pub run_sessions : Config → Option UsageFile → List Session → Option UsageFile
unfolding run_session
run_sessions cfg disk [] = disk
run_sessions cfg disk (s ∷ ss) = run_sessions cfg (run_session cfg disk s) ss

-- The bytes of a name, and no connections.
abbrev pub bytes_of : Counters → Counters
bytes_of c = record c { conns = 0 }

-- What the calls record for a name.
abbrev pub counted_once : Bytes → Moment × Call → Counters → Counters
counted_once k (m, records u up down) c = if str_eq u k then plus_bytes up down c else c
counted_once k (m, _) c = c

abbrev pub counted : Bytes → List (Moment × Call) → Counters → Counters
counted k [] c = c
counted k (call ∷ calls) c = counted k calls (counted_once k call c)

abbrev pub counted_all : Bytes → List Session → Counters → Counters
counted_all k [] c = c
counted_all k (s ∷ ss) c = counted_all k ss (counted k s.calls c)

reset-month :
    (t : Tracker) (m : Moment) → m.month ≡ t.month → (check_monthly_reset t m).month ≡ t.month
unfolding check_monthly_reset save_to_disk
reset-month t m e = ground (arith, e)

step-month :
    (t : Tracker) (call : Moment × Call) → call.0.month ≡ t.month → (step t call).month ≡ t.month
unfolding step record_bytes check_allowance get_usage get_or_create with_user increment_conns
    decrement_conns check_conn_limit save_to_disk
step-month t (m, records u up down) e = reset-month t m e
step-month t (m, allowances u gb) e = ground (arith, reset-month t m e)
step-month t (m, usages u) e = refl
step-month t (m, increments u) e = refl
step-month t (m, decrements u) e = refl
step-month t (m, limits u n) e = ground arith
step-month t (m, saves) e = refl

step-counted :
    (k : Bytes) (t : Tracker) (call : Moment × Call)
    → call.0.month ≡ t.month
    → bytes_of (view (step t call) k) ≡ counted_once k call (bytes_of (view t k))
unfolding step
step-counted k t (m, records u up down) e =
    let same : str_eq m.month t.month ≡ true = (str_eq_iff m.month t.month).1 e in
    ap bytes_of (record_bytes-view t u k up down m) ∙ ground (arith, same)
step-counted k t (m, allowances u gb) e =
    let same : str_eq m.month t.month ≡ true = (str_eq_iff m.month t.month).1 e in
    ap bytes_of (check_allowance-view t u k gb m) ∙ ground (arith, same)
step-counted k t (m, usages u) e = ap bytes_of (get_usage-view t u k m)
step-counted k t (m, increments u) e = ap bytes_of (increment_conns-view t u k m) ∙ ground arith
step-counted k t (m, decrements u) e = ap bytes_of (decrement_conns-view t u k m) ∙ ground arith
step-counted k t (m, limits u n) e = ap bytes_of (check_conn_limit-view t u k n m)
step-counted k t (m, saves) e = ap bytes_of (save_to_disk-view t k m)

-- The calls of one month.
abbrev pub IsOfMonth : Bytes → List (Moment × Call) → Type 0
IsOfMonth month calls = All (λ call. call.0.month ≡ month) calls

run-counted :
    (k : Bytes) (calls : List (Moment × Call)) (t : Tracker)
    → IsOfMonth t.month calls
    → ((Balance.run t calls).month ≡ t.month)
      × (bytes_of (view (Balance.run t calls) k) ≡ counted k calls (bytes_of (view t k)))
unfolding Balance.run
run-counted k [] t one_month = (refl, refl)
run-counted k (call ∷ calls) t one_month =
    let month = step-month t call one_month.0 in
    let later = subst (λ mo. IsOfMonth mo calls) (sym month) one_month.1 in
    let (same, count) = run-counted k calls (step t call) later in
    (same ∙ month, count ∙ ap (counted k calls) (step-counted k t call one_month.0))

new_tracker-month : (disk : Option UsageFile) (m : Moment) → (new_tracker disk m).month ≡ m.month
unfolding new_tracker load_from_disk restored
new_tracker-month none m = refl
new_tracker-month (some file) m = go (str_eq file.month m.month) refl file.users
  where
    go :
        (b : Bool)
        → str_eq file.month m.month ≡ b
        → (o : Option (Map UserUsage))
        → let t : Tracker = elim (if b then o else none) [
          | none ↦ record { users = []; month = m.month; disk = some file }
          | some users ↦ record {
            users = map_values (λ (u : UserUsage). record u { active_conns = 0 }) users;
            month = file.month;
            disk = some file;
          }
        ] in
          t.month ≡ m.month
    go true e none = refl
    go true e (some users) = (str_eq_iff file.month m.month).0 e
    go false e o = refl

-- A start reads the month alone of its moment.
new_tracker-moment :
    (disk : Option UsageFile) (m m' : Moment)
    → m.month ≡ m'.month
    → new_tracker disk m ≡ new_tracker disk m'
unfolding new_tracker load_from_disk
new_tracker-moment disk m m' e = ap (λ mo. new_tracker disk (record m { month = mo })) e

-- A session of a month that ends without an error and can write its file.
pub record IsKept (cfg : Config) (month : Bytes) (s : Session) : Type 0 where
  pub began : s.begins.month ≡ month
  pub of_month : IsOfMonth month s.calls
  pub writable : s.ends.writable ≡ true
  pub ended : phase_of cfg s ≡ returned none

run_session-counted :
    (cfg : Config) (month : Bytes) (disk : Option UsageFile) (s : Session) (m : Moment) (k : Bytes)
    → IsKept cfg month s
    → m.month ≡ month
    → bytes_of (view (new_tracker (run_session cfg disk s) m) k)
      ≡ counted k s.calls (bytes_of (view (new_tracker disk m) k))
unfolding run_session close_tracker
run_session-counted cfg month disk s m k kept e =
    let t = new_tracker disk s.begins in
    let fresh : t.month ≡ month = new_tracker-month disk s.begins ∙ kept.began in
    let (same, count) =
      run-counted k s.calls t (subst (λ mo. IsOfMonth mo s.calls) (sym fresh) kept.of_month) in
    let whole : (Balance.run t s.calls).month ≡ m.month = same ∙ fresh ∙ sym e in
    let equal : str_eq (Balance.run t s.calls).month m.month ≡ true =
      (str_eq_iff (Balance.run t s.calls).month m.month).1 whole in
    ap
      (λ ph.
        bytes_of (view (new_tracker (close_tracker ph (Balance.run t s.calls) s.ends).disk m) k))
      kept.ended
    ∙ ap bytes_of (new_tracker-stop (Balance.run t s.calls) s.ends m k kept.writable)
    ∙ ground (arith, equal)
    ∙ count
    ∙ ap (λ u. counted k s.calls (bytes_of (view u k)))
        (new_tracker-moment disk s.begins m (kept.began ∙ sym e))

-- Over any number of sessions of one month that each end without an error, with a usage file that can
-- be written: what the next start of that month finds for a name is what the first start found, with
-- every byte added that a session recorded for the name, modulo 2^64, as though the program had
-- never been restarted.
pub run_sessions-counted :
    (cfg : Config) (month : Bytes) (ss : List Session) (disk : Option UsageFile) (m : Moment)
    (k : Bytes)
    → All (IsKept cfg month) ss
    → m.month ≡ month
    → bytes_of (view (new_tracker (run_sessions cfg disk ss) m) k)
      ≡ counted_all k ss (bytes_of (view (new_tracker disk m) k))
unfolding run_sessions
run_sessions-counted cfg month [] disk m k kept e = refl
run_sessions-counted cfg month (s ∷ ss) disk m k kept e =
    run_sessions-counted cfg month ss (run_session cfg disk s) m k kept.1 e
    ∙ ap (counted_all k ss) (run_session-counted cfg month disk s m k kept.0 e)

-- A session that ends in an error of the HTTP server leaves the file as its last save has left it.
pub run_session-failed :
    (cfg : Config) (disk : Option UsageFile) (s : Session) (f : Lifecycle.Failure)
    → phase_of cfg s ≡ returned (some f)
    → run_session cfg disk s ≡ (Balance.run (new_tracker disk s.begins) s.calls).disk
unfolding run_session close_tracker
run_session-failed cfg disk s f e =
    ap (λ ph. (close_tracker ph (Balance.run (new_tracker disk s.begins) s.calls) s.ends).disk) e
