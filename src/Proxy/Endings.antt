-- ===== src/Proxy/Endings.antt =====
-- How `Start` of internal/proxy/server.go ends: the drain behind a signal, and the errors.
use multi_protocol_proxy.Prelude.{
  ℕ, ◌≤◌, Bool, true, false, List, [], ◌∷◌, ◌++◌, Option, none, some, is_some, if◌then◌else◌, ◌≡◌,
  refl, sym, ap, subst, ◌∙◌, arith,
}
use multi_protocol_proxy.Proxy.Accept.{Accepted, conn, timed_out, broken}
use multi_protocol_proxy.Proxy.Lifecycle.{
  accept_failed, Phase, starting, opening, at_select, in_accept, draining, returned, Watcher,
  unborn, waits, closing, over, Process, new_process, reload, load_first, listen, unless_shutdown,
  accept, answer, accept_or_block, drain, drain_timeout, Answers, turn_at, watch_at, Event, turns,
  watches, releases, tells, cancels, stops_reloading, hangs_up, passes, happens, run,
}
use multi_protocol_proxy.Proxy.Serving.{IsWatched, IsStaged, is_born, IsOrderly}
use multi_protocol_proxy.Proxy.Orderly.{start-IsOrderly, run-IsOrderly}
use multi_protocol_proxy.Proxy.Drained.{turns_of, elapsed, is_turn, happens-phase, happens-keeps}
use multi_protocol_proxy.Proxy.Draining.{
  IsEnding, rank, ending-rank, idle-IsEnding, run-IsEnding, IsDraining, near-IsDraining,
  run-IsDraining, last_turn,
}

run-append {ℓ} :
    {C : Type ℓ} (es fs : List (Event C)) (p : Process C) → run p (es ++ fs) ≡ run (run p es) fs
unfolding run
run-append [] fs p = refl
run-append (e ∷ es) fs p = run-append es fs (happens p e)

-- `Start` is in its loop.
abbrev pub is_looping : Phase → Bool
is_looping at_select = true
is_looping in_accept = true
is_looping _ = false

looping-IsEnding : (t : ℕ) (ph : Phase) → is_looping ph ≡ true → IsEnding t ph
looping-IsEnding t at_select l = tt
looping-IsEnding t in_accept l = tt
looping-IsEnding t starting l = cc (l)
looping-IsEnding t opening l = cc (l)
looping-IsEnding t (draining since) l = cc (l)
looping-IsEnding t (returned r) l = cc (l)

closed-returns {ℓ} :
    {C : Type ℓ} (p : Process C) (es fs : List (Event C)) (w : Answers C)
    → p.server.shutdown ≡ true
    → p.listening ≡ false
    → IsEnding p.now p.phase
    → 2 ≤ turns_of es
    → drain_timeout ≤ elapsed fs
    → (run p (es ++ (fs ++ turns w ∷ []))).phase ≡ returned none
unfolding run happens
closed-returns p es fs w closed deaf ending two late =
    let near = ending-rank p.now p.phase ending in
    let (c1, now1, i1, near1) = run-IsEnding es p closed ending in
    let q = run p es in
    let none_left : rank q.phase ≤ 0 = omega (arith, near, near1 deaf, two) in
    let d1 : IsDraining q.now q.phase = near-IsDraining q.now q.phase i1 none_left in
    let (c2, now2, i2, near2) = run-IsEnding fs q c1 i1 in
    let d2 = run-IsDraining q.now fs q d1 in
    ap (λ p. p.phase) (run-append es (fs ++ turns w ∷ []) p ∙ run-append fs (turns w ∷ []) q)
    ∙ last_turn q.now (run q fs).phase (run q fs) w refl d2 (omega (arith, now2, late))

-- The watcher's turn behind the end of the context.
watch-closes {ℓ} :
    {C : Type ℓ} (m : ℕ) (p : Process C)
    → IsOrderly m p
    → p.cancelled ≡ true
    → is_looping p.phase ≡ true
    → (happens p watches).server.shutdown ≡ true
unfolding happens watch_at
watch-closes m p o cancelled looping = go p.watcher refl
  where
    seen : {w : Watcher} → p.watcher ≡ w → IsWatched w p.listening p.server.shutdown
    seen e = subst (λ w. IsWatched w p.listening p.server.shutdown) e o.watched

    loops :
        (ph : Phase)
        → IsStaged ph p.watcher (is_some p.cert) p.server.shutdown
        → is_looping ph ≡ true
        → is_born p.watcher ≡ true
    loops at_select s l = s.0
    loops in_accept s l = s.0
    loops starting s l = cc (l)
    loops opening s l = cc (l)
    loops (draining since) s l = s.0
    loops (returned none) s l = s.0
    loops (returned (some f)) s l = cc (l)

    go : (w : Watcher) → p.watcher ≡ w → (watch_at w p).server.shutdown ≡ true
    go unborn e = cc (sym (loops p.phase o.staged looping) ∙ ap is_born e)
    go waits e = ground (arith, cancelled)
    go closing e = (seen e).1
    go over e = (seen e).1

-- The watcher's turn behind the close of the channel.
watch-deafens {ℓ} :
    {C : Type ℓ} (m : ℕ) (p : Process C)
    → IsOrderly m p
    → p.server.shutdown ≡ true
    → ((happens p watches).server.shutdown ≡ true) × ((happens p watches).listening ≡ false)
unfolding happens watch_at
watch-deafens m p o shut = ((happens-keeps p watches).0 shut, go p.watcher o.watched)
  where
    go :
        (w : Watcher) → IsWatched w p.listening p.server.shutdown → (watch_at w p).listening ≡ false
    go unborn v = v.0
    go waits v = cc (shut, v.1)
    go closing v = refl
    go over v = v.0

-- Once the context is done, `Start` returns, and returns no error: whatever happens beside, behind
-- two turns of the watcher, at any times, two turns of its own bring it to the drain, also where no
-- connection comes any more, and behind thirty seconds, or more, one turn more is enough, however
-- many connections have not ended.
pub cancelled-returns {ℓ} :
    {C : Type ℓ} (m : ℕ) (before between es fs : List (Event C)) (w : Answers C)
    → (run (new_process m) before).cancelled ≡ true
    → is_looping (run (new_process m) before).phase ≡ true
    → 2 ≤ turns_of es
    → drain_timeout ≤ elapsed fs
    → (run
        (run (new_process m) before)
        (watches ∷ between ++ (watches ∷ es ++ (fs ++ turns w ∷ [])))).phase
      ≡ returned none
unfolding run
cancelled-returns m before between es fs w cancelled looping two late =
    let p = run (new_process m) before in
    let orderly = start-IsOrderly m before in
    let still : is_looping (happens p watches).phase ≡ true =
      ap is_looping (happens-phase p watches refl) ∙ looping in
    let (shut, at, ending, near) =
      run-IsEnding between (happens p watches) (watch-closes m p orderly cancelled looping)
        (looping-IsEnding (happens p watches).now (happens p watches).phase still) in
    let q = run (happens p watches) between in
    let (shut_too, deaf) = watch-deafens m q (run-IsOrderly m (watches ∷ between) p orderly) shut in
    ap (λ p. p.phase)
      (run-append between (watches ∷ es ++ (fs ++ turns w ∷ [])) (happens p watches))
    ∙ closed-returns (happens q watches) es fs w shut_too deaf
        (idle-IsEnding q watches refl ending).0 two late

abbrev pub has_returned : Phase → Bool
has_returned (returned r) = true
has_returned _ = false

-- What a phase that an event came to says of the event: `Accept` has failed on an open listener,
-- and the channel `shutdown` was open.
abbrev pub IsGenuine {ℓ} : {C : Type ℓ} → Process C → Event C → Type ℓ
IsGenuine {C = C} p e =
    (p.listening ≡ true)
    × (p.server.shutdown ≡ false)
    × ((w : Answers C) × (e ≡ turns w) × (w.accepted ≡ some broken))

-- A listener that is closed before the channel is not.
shut-listening :
    (w : Watcher) (listening shutdown : Bool)
    → IsWatched w listening shutdown
    → is_born w ≡ true
    → shutdown ≡ false
    → listening ≡ true
shut-listening unborn l s v b c = cc (b)
shut-listening waits l s v b c = v.0
shut-listening closing l s v b c = v.0
shut-listening over l s v b c = cc (v.1, c)

abbrev fails : Phase → Bool
fails (returned (some accept_failed)) = true
fails _ = false

unless-fails :
    (b : Bool) (t : ℕ) (other : Phase)
    → fails (if b then draining t else other) ≡ true
    → (b ≡ false) × (fails other ≡ true)
unless-fails true t other e = cc (e)
unless-fails false t other e = (refl, e)

accept-fails {ℓ} :
    {C : Type ℓ} (p : Process C) (a : Accepted)
    → fails (accept p a).phase ≡ true
    → (p.server.shutdown ≡ false) × (a ≡ broken)
unfolding accept unless_shutdown
accept-fails p conn e = cc (e)
accept-fails p timed_out e = cc ((unless-fails p.server.shutdown p.now at_select e).1)
accept-fails p broken e =
    ((unless-fails p.server.shutdown p.now (returned (some accept_failed)) e).0, refl)

accept_or_block-fails {ℓ} :
    {C : Type ℓ} (p : Process C) (a : Option Accepted)
    → fails (accept_or_block p a).phase ≡ true
    → (p.server.shutdown ≡ false) × (a ≡ some broken)
unfolding accept_or_block
accept_or_block-fails p none e = cc (e)
accept_or_block-fails p (some a) e =
    let (closed, same) = accept-fails p a e in (closed, ap some same)

drain-fails : (b : Bool) (since : ℕ) → fails (if b then returned none else draining since) ≡ false
drain-fails true since = refl
drain-fails false since = refl

turn-fails {ℓ} :
    {C : Type ℓ} (ph : Phase) (p : Process C) (w : Answers C)
    → has_returned ph ≡ false
    → fails (turn_at ph p w).phase ≡ true
    → (ph ≡ in_accept) × (p.server.shutdown ≡ false) × (answer p.listening w.accepted ≡ some broken)
unfolding turn_at load_first reload listen unless_shutdown drain
turn-fails {C = C} starting p w out e = cc (sym (go w.loaded) ∙ e)
  where
    go : (o : Option C) → fails (load_first p o).phase ≡ false
    go none = refl
    go (some c) = refl
turn-fails opening p w out e = cc (sym (go w.opened) ∙ e)
  where
    go : (b : Bool) → fails (listen p b).phase ≡ false
    go true = refl
    go false = refl
turn-fails at_select p w out e = cc ((unless-fails p.server.shutdown p.now in_accept e).1)
turn-fails in_accept p w out e =
    let (closed, fate) = accept_or_block-fails p (answer p.listening w.accepted) e in
    (refl, closed, fate)
turn-fails (draining since) p w out e = cc (sym (drain-fails _ since) ∙ e)
turn-fails (returned r) p w out e = cc (out)

happens-fails {ℓ} :
    {C : Type ℓ} (m : ℕ) (p : Process C) (e : Event C)
    → IsOrderly m p
    → has_returned p.phase ≡ false
    → (happens p e).phase ≡ returned (some accept_failed)
    → IsGenuine p e
unfolding happens
happens-fails {C = C} m p e o out failed = go e failed
  where
    idle :
        (e : Event C)
        → is_turn e ≡ false
        → (happens p e).phase ≡ returned (some accept_failed)
        → IsGenuine p e
    idle e q failed = cc (sym out ∙ ap has_returned (sym (happens-phase p e q) ∙ failed))

    go : (e : Event C) → (happens p e).phase ≡ returned (some accept_failed) → IsGenuine p e
    go (turns w) failed =
        let (here, closed, fate) = turn-fails p.phase p w out (ap fails failed) in
        let staged =
          subst (λ ph. IsStaged ph p.watcher (is_some p.cert) p.server.shutdown) here o.staged in
        let opened : p.listening ≡ true =
          shut-listening p.watcher p.listening p.server.shutdown o.watched staged.0 closed in
        (opened, closed, (w, refl, sym (ap (λ b. answer b w.accepted) opened) ∙ fate))
    go watches failed = idle watches refl failed
    go releases failed = idle releases refl failed
    go tells failed = idle tells refl failed
    go cancels failed = idle cancels refl failed
    go stops_reloading failed = idle stops_reloading refl failed
    go (hangs_up c) failed = idle (hangs_up c) refl failed
    go (passes n) failed = idle (passes n) refl failed

-- In any run, an event by which `Start` returns the error of `Accept` is a failure of `Accept` on a
-- listener that is open, before the channel `shutdown` is closed: the close of the listener by
-- `watchShutdown` never makes `Start` return an error.
pub start-fails {ℓ} :
    {C : Type ℓ} (m : ℕ) (before : List (Event C)) (e : Event C)
    → has_returned (run (new_process m) before).phase ≡ false
    → (happens (run (new_process m) before) e).phase ≡ returned (some accept_failed)
    → IsGenuine (run (new_process m) before) e
start-fails m before e out failed =
    happens-fails m (run (new_process m) before) e (start-IsOrderly m before) out failed
