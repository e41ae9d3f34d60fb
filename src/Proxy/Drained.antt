-- ===== src/Proxy/Drained.antt =====
-- The turns of `Start` of internal/proxy/server.go and the time in a run, and what no event changes.
use multi_protocol_proxy.Prelude.{
  ℕ, ◌+◌, Bool, true, false, List, [], ◌∷◌, Option, none, some, ◌≡◌, refl, ◌∙◌, arith,
}
use multi_protocol_proxy.Proxy.Accept.{Accepted, conn, timed_out, broken, release, tell}
use multi_protocol_proxy.Proxy.Lifecycle.{
  Phase, starting, opening, at_select, in_accept, draining, returned, Watcher, unborn, waits,
  closing, over, Process, reload, load_first, listen, unless_shutdown, accept, answer,
  accept_or_block, drain, Answers, turn_at, watch_at, Event, turns, watches, releases, tells,
  cancels, stops_reloading, hangs_up, passes, happens,
}
use multi_protocol_proxy.Proxy.Serving.{admit-shutdown}

-- The turns of `Start` in a run, and the time that passes in it.
unfoldable pub turns_of {ℓ} : {C : Type ℓ} → List (Event C) → ℕ
turns_of [] = 0
turns_of (turns w ∷ es) = turns_of es + 1
turns_of (_ ∷ es) = turns_of es

unfoldable pub elapsed {ℓ} : {C : Type ℓ} → List (Event C) → ℕ
elapsed [] = 0
elapsed (passes n ∷ es) = n + elapsed es
elapsed (_ ∷ es) = elapsed es

abbrev pub is_turn {ℓ} : {C : Type ℓ} → Event C → Bool
is_turn (turns w) = true
is_turn _ = false

-- Only a turn of `Start` moves its phase.
pub happens-phase {ℓ} :
    {C : Type ℓ} (p : Process C) (e : Event C) → is_turn e ≡ false → (happens p e).phase ≡ p.phase
unfolding happens watch_at reload
happens-phase p (turns w) q = cc (q)
happens-phase p watches q = go p.watcher
  where
    go : (w : Watcher) → (watch_at w p).phase ≡ p.phase
    go unborn = refl
    go waits = ground arith
    go closing = refl
    go over = refl
happens-phase p releases q = ground arith
happens-phase p tells q = ground arith
happens-phase p cancels q = refl
happens-phase p stops_reloading q = ground arith
happens-phase p (hangs_up none) q = ground arith
happens-phase p (hangs_up (some c)) q = ground arith
happens-phase p (passes n) q = refl

accept-keeps {ℓ} :
    {C : Type ℓ} (p : Process C) (a : Accepted)
    → ((accept p a).server.shutdown ≡ p.server.shutdown) × ((accept p a).now ≡ p.now)
unfolding accept unless_shutdown
accept-keeps p conn = (admit-shutdown p.server, refl)
accept-keeps p timed_out = (refl, refl)
accept-keeps p broken = (refl, refl)

accept_or_block-keeps {ℓ} :
    {C : Type ℓ} (p : Process C) (a : Option Accepted)
    → ((accept_or_block p a).server.shutdown ≡ p.server.shutdown)
      × ((accept_or_block p a).now ≡ p.now)
unfolding accept_or_block
accept_or_block-keeps p none = (refl, refl)
accept_or_block-keeps p (some a) = accept-keeps p a

pub turn-keeps {ℓ} :
    {C : Type ℓ} (ph : Phase) (p : Process C) (w : Answers C)
    → ((turn_at ph p w).server.shutdown ≡ p.server.shutdown) × ((turn_at ph p w).now ≡ p.now)
unfolding turn_at load_first reload listen unless_shutdown drain
turn-keeps starting p w = go w.loaded
  where
    go :
        (o : Option _)
        → ((load_first p o).server.shutdown ≡ p.server.shutdown) × ((load_first p o).now ≡ p.now)
    go none = (refl, refl)
    go (some c) = (refl, refl)
turn-keeps opening p w = go w.opened
  where
    go :
        (b : Bool) → ((listen p b).server.shutdown ≡ p.server.shutdown) × ((listen p b).now ≡ p.now)
    go true = (refl, refl)
    go false = (refl, refl)
turn-keeps at_select p w = (refl, refl)
turn-keeps in_accept p w = accept_or_block-keeps p (answer p.listening w.accepted)
turn-keeps (draining since) p w = (refl, refl)
turn-keeps (returned r) p w = (refl, refl)

-- A closed channel stays closed, and the clock goes on by the time that passes.
pub happens-keeps {ℓ} :
    {C : Type ℓ} (p : Process C) (e : Event C)
    → (p.server.shutdown ≡ true → (happens p e).server.shutdown ≡ true)
      × ((happens p e).now ≡ p.now + elapsed (e ∷ []))
unfolding happens watch_at reload release tell elapsed
happens-keeps p (turns w) =
    let (same, at) = turn-keeps p.phase p w in (λ closed. same ∙ closed, omega (arith, at))
happens-keeps p watches = go p.watcher
  where
    go :
        (w : Watcher)
        → (p.server.shutdown ≡ true → (watch_at w p).server.shutdown ≡ true)
          × ((watch_at w p).now ≡ p.now + 0)
    go unborn = (λ c. c, omega arith)
    go waits = (λ c. ground (arith, c), ground arith)
    go closing = (λ c. c, omega arith)
    go over = (λ c. c, omega arith)
happens-keeps p releases = (λ c. ground (arith, c), ground arith)
happens-keeps p tells = (λ c. ground (arith, c), ground arith)
happens-keeps p cancels = (λ c. c, omega arith)
happens-keeps p stops_reloading = (λ c. ground (arith, c), ground arith)
happens-keeps p (hangs_up none) = (λ c. ground (arith, c), ground arith)
happens-keeps p (hangs_up (some x)) = (λ c. ground (arith, c), ground arith)
happens-keeps p (passes n) = (λ c. c, omega arith)
