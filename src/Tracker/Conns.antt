-- ===== src/Tracker/Conns.antt =====
-- The connection counts of internal/bandwidth/tracker.go, and how the two servers use them: a
-- request first calls `CheckConnLimit` and then, in a second step, `IncrementConns`.
use mathlib.Core.Option
use multi_protocol_proxy.Prelude.{
  ℕ, suc, ◌+◌, ◌-◌, ◌≤◌, ◌<◌, Bool, true, false, List, [], ◌∷◌, Bytes, ◌≡◌, refl, arith,
  str_eq_refl, str_eq_iff, half_mod, if◌then◌else◌, Option, none, some, is_some,
}
use multi_protocol_proxy.Tracker.{
  Tracker, Moment, increment_conns, decrement_conns, check_conn_limit, check_allowance,
  record_bytes,
}
use multi_protocol_proxy.Tracker.View.{
  view, increment_conns-view, decrement_conns-view, check_conn_limit-view, check_conn_limit-result,
  check_allowance-view, record_bytes-view,
}

abbrev pub conns : Tracker → Bytes → ℕ
conns t u = (view t u).conns

-- An `IncrementConns` that a `DecrementConns` of the same name follows leaves every counter of
-- every name as it was.
pub decrement-increment :
    (t : Tracker) (u k : Bytes) (m m' : Moment)
    → conns t u < half_mod - 1
    → view (decrement_conns (increment_conns t u m) u m') k ≡ view t k
decrement-increment t u k m m' fits = ground (
  arith,
  decrement_conns-view (increment_conns t u m) u k m',
  increment_conns-view t u k m,
  str_eq_iff u k,
)

-- The check and the increment with nothing between them.
pub admit : Tracker → Bytes → ℕ → Moment → Tracker × Bool
admit t u max_conns m =
    let (t', passed) = check_conn_limit t u max_conns m in
    if passed then (increment_conns t' u m, true) else (t', false)

-- Requests and ends of connections of one name, each request as one step.
pub data Event : Type 0 where
  opens closes : Event

pub play : Tracker → Bytes → ℕ → List (Moment × Event) → Tracker
play t u n [] = t
play t u n ((m, opens) ∷ es) = play (admit t u n m).0 u n es
play t u n ((m, closes) ∷ es) = play (decrement_conns t u m) u n es

admit-le-max :
    (t : Tracker) (u : Bytes) (n : ℕ) (m : Moment)
    → 0 < n
    → n < half_mod
    → conns t u ≤ n
    → conns (admit t u n m).0 u ≤ n
unfolding admit
admit-le-max t u n m pos fits h = ground (
  arith,
  check_conn_limit-view t u u n m,
  check_conn_limit-result t u n m,
  increment_conns-view (check_conn_limit t u n m).0 u u m,
  str_eq_refl u,
)

decrement-le :
    (t : Tracker) (u : Bytes) (m : Moment)
    → conns t u < half_mod
    → conns (decrement_conns t u m) u ≤ conns t u
decrement-le t u m fits = ground (arith, decrement_conns-view t u u m, str_eq_refl u)

-- If each check is followed by its increment at once, a positive limit below 2^63 that a name
-- keeps at first is kept through every history of its requests and ends of connections.
pub play-le-max :
    (u : Bytes) (n : ℕ) (es : List (Moment × Event)) (t : Tracker)
    → 0 < n
    → n < half_mod
    → conns t u ≤ n
    → conns (play t u n es) u ≤ n
unfolding play
play-le-max u n [] t pos fits h = h
play-le-max u n ((m, opens) ∷ es) t pos fits h =
    play-le-max u n es (admit t u n m).0 pos fits (admit-le-max t u n m pos fits h)
play-le-max u n ((m, closes) ∷ es) t pos fits h =
    play-le-max u n es (decrement_conns t u m) pos fits (omega (arith, decrement-le t u m))

-- Two requests, the check of the second falling between the check and the increment of the first.
pub interleaved : Tracker → Bytes → ℕ → Moment → Tracker × Bool × Bool
interleaved t u n m =
    let (t1, first) = check_conn_limit t u n m in
    let (t2, other) = check_conn_limit t1 u n m in
    let t3 = if first then increment_conns t2 u m else t2 in
    let t4 = if other then increment_conns t3 u m else t3 in (t4, first, other)

-- Where a limit below 2^63 - 1 leaves one place, two requests that both check before either is
-- counted both pass, and the name then counts one connection more than the limit.
pub interleaved_exceeds :
    (t : Tracker) (u : Bytes) (n : ℕ) (m : Moment)
    → n < half_mod - 1
    → suc (conns t u) ≡ n
    → ((interleaved t u n m).1 ≡ true)
      × ((interleaved t u n m).2 ≡ true)
      × (conns (interleaved t u n m).0 u ≡ n + 1)
unfolding interleaved
interleaved_exceeds t u n m fits last =
    let t1 = (check_conn_limit t u n m).0 in
    let t2 = (check_conn_limit t1 u n m).0 in
    let t3 = increment_conns t2 u m in
    let first : (check_conn_limit t u n m).1 ≡ true =
      ground (arith, check_conn_limit-result t u n m) in
    let second : (check_conn_limit t1 u n m).1 ≡ true =
      ground (arith, check_conn_limit-result t1 u n m, check_conn_limit-view t u u n m) in
    let one_more : conns t3 u ≡ n = ground (
      arith,
      increment_conns-view t2 u u m,
      check_conn_limit-view t1 u u n m,
      check_conn_limit-view t u u n m,
      str_eq_refl u,
    ) in
    let two_more : conns (increment_conns t3 u m) u ≡ n + 1 =
      ground (arith, increment_conns-view t3 u u m, str_eq_refl u) in
    rw (first, second) (refl, refl, two_more)

-- The connections that an optional tracker counts.
abbrev pub conns_at : Option Tracker → Bytes → ℕ
conns_at none k = 0
conns_at (some t) k = conns t k

pub check_allowance-conns :
    (t : Tracker) (u k : Bytes) (gb : ℕ) (m : Moment)
    → conns (check_allowance t u gb m).0 k ≡ conns t k
check_allowance-conns t u k gb m = ground (arith, check_allowance-view t u k gb m)

pub check_conn_limit-conns :
    (t : Tracker) (u k : Bytes) (n : ℕ) (m : Moment)
    → conns (check_conn_limit t u n m).0 k ≡ conns t k
check_conn_limit-conns t u k n m = ground (arith, check_conn_limit-view t u k n m)

pub record_bytes-conns :
    (t : Tracker) (u k : Bytes) (up down : ℕ) (m : Moment)
    → conns (record_bytes t u up down m) k ≡ conns t k
record_bytes-conns t u k up down m = ground (arith, record_bytes-view t u k up down m)

abbrev pub increment_at : Bytes → Moment → Option Tracker → Option Tracker
increment_at u m = Option.map (λ t. increment_conns t u m)

abbrev pub decrement_at : Bytes → Moment → Option Tracker → Option Tracker
decrement_at u m = Option.map (λ t. decrement_conns t u m)

pub increment_at-some :
    (t : Option Tracker) (u : Bytes) (m : Moment) → is_some (increment_at u m t) ≡ is_some t
increment_at-some none u m = refl
increment_at-some (some t) u m = refl

-- What a request leaves of the counts, if it ends with the tracker that `IncrementConns` gave it
-- up to calls that count no connection, and `DecrementConns` comes last.
pub decrement-around :
    (before during : Option Tracker) (u : Bytes) (m m' : Moment)
    → ((k : Bytes) → conns_at before k < half_mod - 1)
    → ((k : Bytes) → conns_at during k ≡ conns_at (increment_at u m before) k)
    → (is_some during ≡ is_some before)
    → (k : Bytes) → conns_at (decrement_at u m' during) k ≡ conns_at before k
decrement-around none none u m m' fits same e k = refl
decrement-around none (some t) u m m' fits same e k = cc
decrement-around (some t) none u m m' fits same e k = cc
decrement-around (some t) (some d) u m m' fits same e k =
    ground (arith, same k, fits k, decrement_conns-view d u k m', increment_conns-view t u k m)
