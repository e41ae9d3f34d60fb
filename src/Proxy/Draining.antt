-- ===== src/Proxy/Draining.antt =====
-- The drain of internal/proxy/server.go, behind the close of the channel `shutdown`.
use multi_protocol_proxy.Prelude.{
  ℕ, ◌+◌, ◌-◌, ◌≤◌, Bool, true, false, List, [], ◌∷◌, none, some, Option, if◌then◌else◌, ◌≡◌, refl,
  sym, ap, ◌∙◌, subst, arith,
}
use multi_protocol_proxy.Proxy.Accept.{Accepted, conn, timed_out, broken}
use multi_protocol_proxy.Proxy.Lifecycle.{
  Watcher, unborn, waits, closing, over, watch_at, reload, accept_failed, Phase, starting, opening,
  at_select, in_accept, draining, returned, Process, unless_shutdown, accept, answer,
  accept_or_block, drain, drain_timeout, Answers, turn_at, Event, turns, watches, releases, tells,
  cancels, stops_reloading, hangs_up, passes, happens, run,
}
use multi_protocol_proxy.Proxy.Drained.{
  turns_of, elapsed, is_turn, happens-phase, turn-keeps, happens-keeps,
}

-- The phases behind the close of the channel, at a time.
abbrev pub IsEnding : ℕ → Phase → Type 0
IsEnding t at_select = Unit {0}
IsEnding t in_accept = Unit {0}
IsEnding t (draining since) = since ≤ t
IsEnding t (returned none) = Unit {0}
IsEnding t _ = ⊥

-- The turns that `Start` is away from its drain.
abbrev pub rank : Phase → ℕ
rank in_accept = 2
rank at_select = 1
rank _ = 0

drained-IsEnding :
    (b : Bool) (t since : ℕ)
    → since ≤ t
    → let ph = if b then returned none else draining since in IsEnding t ph × (rank ph ≤ 0)
drained-IsEnding true t since le = (tt, omega arith)
drained-IsEnding false t since le = (le, omega arith)

closed-IsEnding :
    (b : Bool) (t : ℕ) (other : Phase)
    → b ≡ true
    → let ph = if b then draining t else other in IsEnding t ph × (rank ph ≤ 0)
closed-IsEnding true t other c = (omega arith, omega arith)
closed-IsEnding false t other c = cc (c)

accept-IsEnding {ℓ} :
    {C : Type ℓ} (p : Process C) (a : Accepted)
    → p.server.shutdown ≡ true
    → IsEnding p.now (accept p a).phase × (rank (accept p a).phase ≤ 1)
unfolding accept unless_shutdown
accept-IsEnding p conn c = (tt, omega arith)
accept-IsEnding p timed_out c =
    let (ending, near) = closed-IsEnding p.server.shutdown p.now at_select c in
    (ending, omega (arith, near))
accept-IsEnding p broken c =
    let (ending, near) =
      closed-IsEnding p.server.shutdown p.now (returned (some accept_failed)) c in
    (ending, omega (arith, near))

-- Where the listener is closed, `Accept` does not block.
accept_or_block-IsEnding {ℓ} :
    {C : Type ℓ} (p : Process C) (b : Bool) (a : Option Accepted)
    → p.server.shutdown ≡ true
    → let next = (accept_or_block p (answer b a)).phase in
      IsEnding p.now next × (b ≡ false → rank next ≤ 1)
unfolding accept_or_block
accept_or_block-IsEnding p true none c = (tt, λ e. cc (e))
accept_or_block-IsEnding p true (some a) c = ((accept-IsEnding p a c).0, λ e. cc (e))
accept_or_block-IsEnding p false a c =
    let (ending, near) = accept-IsEnding p broken c in (ending, λ e. near)

turn-IsEnding {ℓ} :
    {C : Type ℓ} (ph : Phase) (p : Process C) (w : Answers C)
    → p.phase ≡ ph
    → p.server.shutdown ≡ true
    → IsEnding p.now ph
    → let next = (turn_at ph p w).phase in
      IsEnding p.now next × (p.listening ≡ false → rank next ≤ rank ph - 1)
unfolding turn_at unless_shutdown drain
turn-IsEnding starting p w same c i = absurd i
turn-IsEnding opening p w same c i = absurd i
turn-IsEnding at_select p w same c i =
    let (ending, near) = closed-IsEnding p.server.shutdown p.now in_accept c in
    (ending, λ deaf. near)
turn-IsEnding in_accept p w same c i = accept_or_block-IsEnding p p.listening w.accepted c
turn-IsEnding (draining since) p w same c i =
    let (ending, near) = drained-IsEnding _ p.now since i in (ending, λ deaf. near)
turn-IsEnding (returned none) p w same c i =
    subst (λ ph. IsEnding p.now ph × (p.listening ≡ false → rank ph ≤ 0)) (sym same)
      (tt, λ deaf. omega arith)
turn-IsEnding (returned (some f)) p w same c i = absurd i

IsEnding-later : (ph : Phase) (t n : ℕ) → IsEnding t ph → IsEnding (t + n) ph
IsEnding-later starting t n i = absurd i
IsEnding-later opening t n i = absurd i
IsEnding-later at_select t n i = i
IsEnding-later in_accept t n i = i
IsEnding-later (draining since) t n i = omega (arith, i)
IsEnding-later (returned none) t n i = i
IsEnding-later (returned (some f)) t n i = absurd i

turns_of-one {ℓ} : {C : Type ℓ} (e : Event C) → is_turn e ≡ false → turns_of (e ∷ []) ≡ 0
unfolding turns_of
turns_of-one (turns w) q = cc (q)
turns_of-one watches q = refl
turns_of-one releases q = refl
turns_of-one tells q = refl
turns_of-one cancels q = refl
turns_of-one stops_reloading q = refl
turns_of-one (hangs_up o) q = refl
turns_of-one (passes n) q = refl

add_event {ℓ} :
    {C : Type ℓ} (e : Event C) (es : List (Event C))
    → (turns_of (e ∷ es) ≡ turns_of (e ∷ []) + turns_of es)
      × (elapsed (e ∷ es) ≡ elapsed (e ∷ []) + elapsed es)
unfolding turns_of elapsed
add_event (turns w) es = (omega arith, omega arith)
add_event watches es = (omega arith, omega arith)
add_event releases es = (omega arith, omega arith)
add_event tells es = (omega arith, omega arith)
add_event cancels es = (omega arith, omega arith)
add_event stops_reloading es = (omega arith, omega arith)
add_event (hangs_up o) es = (omega arith, omega arith)
add_event (passes n) es = (omega arith, omega arith)

-- What an event that is no turn comes to.
pub idle-IsEnding {ℓ} :
    {C : Type ℓ} (p : Process C) (e : Event C)
    → is_turn e ≡ false
    → IsEnding p.now p.phase
    → let q = happens p e in
      IsEnding q.now q.phase × (rank q.phase ≤ rank p.phase - turns_of (e ∷ []))
idle-IsEnding p e idle i =
    let same = happens-phase p e idle in
    let later = IsEnding-later p.phase p.now (elapsed (e ∷ [])) i in
    (
      subst (λ ph. IsEnding (happens p e).now ph) (sym same)
          (subst (λ t. IsEnding t p.phase) (sym (happens-keeps p e).1) later),
      omega (arith, ap rank same, turns_of-one e idle),
    )

happens-IsEnding {ℓ} :
    {C : Type ℓ} (p : Process C) (e : Event C)
    → p.server.shutdown ≡ true
    → IsEnding p.now p.phase
    → let q = happens p e in
      IsEnding q.now q.phase
      × (p.listening ≡ false → rank q.phase ≤ rank p.phase - turns_of (e ∷ []))
unfolding happens turns_of
happens-IsEnding p (turns w) c i =
    let (ending, nearer) = turn-IsEnding p.phase p w refl c i in
    (
      subst (λ t. IsEnding t (turn_at p.phase p w).phase) (sym (turn-keeps p.phase p w).1) ending,
      nearer,
    )
happens-IsEnding p watches c i =
    let (ending, near) = idle-IsEnding p watches refl i in (ending, λ deaf. near)
happens-IsEnding p releases c i =
    let (ending, near) = idle-IsEnding p releases refl i in (ending, λ deaf. near)
happens-IsEnding p tells c i =
    let (ending, near) = idle-IsEnding p tells refl i in (ending, λ deaf. near)
happens-IsEnding p cancels c i =
    let (ending, near) = idle-IsEnding p cancels refl i in (ending, λ deaf. near)
happens-IsEnding p stops_reloading c i =
    let (ending, near) = idle-IsEnding p stops_reloading refl i in (ending, λ deaf. near)
happens-IsEnding p (hangs_up o) c i =
    let (ending, near) = idle-IsEnding p (hangs_up o) refl i in (ending, λ deaf. near)
happens-IsEnding p (passes n) c i =
    let (ending, near) = idle-IsEnding p (passes n) refl i in (ending, λ deaf. near)

accept_or_block-listening {ℓ} :
    {C : Type ℓ} (p : Process C) (a : Option Accepted)
    → (accept_or_block p a).listening ≡ p.listening
unfolding accept_or_block accept unless_shutdown
accept_or_block-listening p none = refl
accept_or_block-listening p (some conn) = refl
accept_or_block-listening p (some timed_out) = refl
accept_or_block-listening p (some broken) = refl

-- A closed listener stays closed.
turn-listening {ℓ} :
    {C : Type ℓ} (t : ℕ) (ph : Phase) (p : Process C) (w : Answers C)
    → IsEnding t ph
    → (turn_at ph p w).listening ≡ p.listening
unfolding turn_at unless_shutdown drain
turn-listening t starting p w i = absurd i
turn-listening t opening p w i = absurd i
turn-listening t at_select p w i = refl
turn-listening t in_accept p w i = accept_or_block-listening p (answer p.listening w.accepted)
turn-listening t (draining since) p w i = refl
turn-listening t (returned r) p w i = refl

watch-deaf {ℓ} :
    {C : Type ℓ} (w : Watcher) (p : Process C)
    → p.listening ≡ false
    → (watch_at w p).listening ≡ false
unfolding watch_at
watch-deaf unborn p deaf = deaf
watch-deaf waits p deaf = ground (arith, deaf)
watch-deaf closing p deaf = refl
watch-deaf over p deaf = deaf

happens-deaf {ℓ} :
    {C : Type ℓ} (p : Process C) (e : Event C)
    → IsEnding p.now p.phase
    → p.listening ≡ false
    → (happens p e).listening ≡ false
unfolding happens reload
happens-deaf p (turns w) i deaf = turn-listening p.now p.phase p w i ∙ deaf
happens-deaf p watches i deaf = watch-deaf p.watcher p deaf
happens-deaf p releases i deaf = ground (arith, deaf)
happens-deaf p tells i deaf = ground (arith, deaf)
happens-deaf p cancels i deaf = deaf
happens-deaf p stops_reloading i deaf = ground (arith, deaf)
happens-deaf p (hangs_up none) i deaf = ground (arith, deaf)
happens-deaf p (hangs_up (some c)) i deaf = ground (arith, deaf)
happens-deaf p (passes n) i deaf = deaf

pub run-IsEnding {ℓ} :
    {C : Type ℓ} (es : List (Event C)) (p : Process C)
    → p.server.shutdown ≡ true
    → IsEnding p.now p.phase
    → let q = run p es in
      (q.server.shutdown ≡ true)
      × (q.now ≡ p.now + elapsed es)
      × IsEnding q.now q.phase
      × (p.listening ≡ false → rank q.phase ≤ rank p.phase - turns_of es)
unfolding run turns_of elapsed
run-IsEnding [] p c i = (c, omega arith, i, λ deaf. omega arith)
run-IsEnding (e ∷ es) p c i =
    let (closed, at) = happens-keeps p e in
    let (ending, nearer) = happens-IsEnding p e c i in
    let (c1, now1, i1, near1) = run-IsEnding es (happens p e) (closed c) ending in
    let (counted, timed) = add_event e es in
    (
      c1,
      omega (arith, at, now1, timed),
      i1,
      λ deaf. omega (arith, nearer deaf, near1 (happens-deaf p e i deaf), counted),
    )

pub ending-rank : (t : ℕ) (ph : Phase) → IsEnding t ph → rank ph ≤ 2
ending-rank t starting i = absurd i
ending-rank t opening i = absurd i
ending-rank t at_select i = omega arith
ending-rank t in_accept i = omega arith
ending-rank t (draining since) i = omega arith
ending-rank t (returned none) i = omega arith
ending-rank t (returned (some f)) i = absurd i

-- Draining since a time, or returned without an error.
abbrev pub IsDraining : ℕ → Phase → Type 0
IsDraining t (draining since) = since ≤ t
IsDraining t (returned none) = Unit {0}
IsDraining t _ = ⊥

pub near-IsDraining : (t : ℕ) (ph : Phase) → IsEnding t ph → rank ph ≤ 0 → IsDraining t ph
near-IsDraining t starting i r = absurd i
near-IsDraining t opening i r = absurd i
near-IsDraining t at_select i r = omega (arith, r)
near-IsDraining t in_accept i r = omega (arith, r)
near-IsDraining t (draining since) i r = i
near-IsDraining t (returned none) i r = i
near-IsDraining t (returned (some f)) i r = absurd i

turn-IsDraining {ℓ} :
    {C : Type ℓ} (t : ℕ) (ph : Phase) (p : Process C) (w : Answers C)
    → p.phase ≡ ph
    → IsDraining t ph
    → IsDraining t (turn_at ph p w).phase
unfolding turn_at drain
turn-IsDraining t (draining since) p w same i = go _
  where
    go : (b : Bool) → IsDraining t (if b then returned none else draining since)
    go true = tt
    go false = i
turn-IsDraining t (returned none) p w same i = subst (IsDraining t) (sym same) i
turn-IsDraining t starting p w same i = absurd i
turn-IsDraining t opening p w same i = absurd i
turn-IsDraining t at_select p w same i = absurd i
turn-IsDraining t in_accept p w same i = absurd i
turn-IsDraining t (returned (some f)) p w same i = absurd i

pub run-IsDraining {ℓ} :
    {C : Type ℓ} (t : ℕ) (es : List (Event C)) (p : Process C)
    → IsDraining t p.phase
    → IsDraining t (run p es).phase
unfolding run happens
run-IsDraining t [] p i = i
run-IsDraining {C = C} t (e ∷ es) p i = run-IsDraining t es (happens p e) (go e)
  where
    idle : (e : Event C) → is_turn e ≡ false → IsDraining t (happens p e).phase
    idle e q = subst (IsDraining t) (sym (happens-phase p e q)) i

    go : (e : Event C) → IsDraining t (happens p e).phase
    go (turns w) = turn-IsDraining t p.phase p w refl i
    go watches = idle watches refl
    go releases = idle releases refl
    go tells = idle tells refl
    go cancels = idle cancels refl
    go stops_reloading = idle stops_reloading refl
    go (hangs_up o) = idle (hangs_up o) refl
    go (passes n) = idle (passes n) refl

pub last_turn {ℓ} :
    {C : Type ℓ} (t : ℕ) (ph : Phase) (p : Process C) (w : Answers C)
    → p.phase ≡ ph
    → IsDraining t ph
    → t + drain_timeout ≤ p.now
    → (turn_at ph p w).phase ≡ returned none
unfolding turn_at drain
last_turn t (draining since) p w same i late = ground (arith, i, late)
last_turn t (returned none) p w same i late = same
last_turn t starting p w same i late = absurd i
last_turn t opening p w same i late = absurd i
last_turn t at_select p w same i late = absurd i
last_turn t in_accept p w same i late = absurd i
last_turn t (returned (some f)) p w same i late = absurd i
