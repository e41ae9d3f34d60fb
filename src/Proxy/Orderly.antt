-- ===== src/Proxy/Orderly.antt =====
-- The invariant of the process of Proxy/Lifecycle in every run.
use multi_protocol_proxy.Prelude.{
  ℕ, Bool, true, false, List, [], ◌∷◌, Option, none, some, is_some, if◌then◌else◌, ◌≡◌, refl, sym,
  ap, subst, arith,
}
use multi_protocol_proxy.Proxy.Accept.{release, tell}
use multi_protocol_proxy.Proxy.Lifecycle.{
  cannot_load, cannot_listen, accept_failed, Phase, starting, opening, at_select, in_accept,
  draining, returned, Watcher, unborn, waits, closing, over, Process, new_process, reload, watch_at,
  Event, turns, watches, releases, tells, cancels, stops_reloading, hangs_up, passes, happens, run,
}
use multi_protocol_proxy.Proxy.Serving.{IsWatched, is_born, IsStaged, IsOrderly, turn-IsOrderly}

-- The watcher's steps keep what a phase has behind it.
born-IsStaged :
    (ph : Phase) (w later : Watcher) (c s : Bool)
    → is_born w ≡ true
    → is_born later ≡ true
    → IsStaged ph w c s
    → IsStaged ph later c true
born-IsStaged starting w later c s b l v = cc (b, v)
born-IsStaged opening w later c s b l v = cc (b, v.0)
born-IsStaged at_select w later c s b l v = (l, v.1)
born-IsStaged in_accept w later c s b l v = (l, v.1)
born-IsStaged (draining since) w later c s b l v = (l, v.1, refl)
born-IsStaged (returned none) w later c s b l v = (l, v.1, refl)
born-IsStaged (returned (some cannot_load)) w later c s b l v = cc (b, v)
born-IsStaged (returned (some cannot_listen)) w later c s b l v = cc (b, v.0)
born-IsStaged (returned (some accept_failed)) w later c s b l v = (l, v.1)

watch-IsOrderly {ℓ} :
    {C : Type ℓ} (m : ℕ) (p : Process C) → IsOrderly m p → IsOrderly m (watch_at p.watcher p)
unfolding watch_at
watch-IsOrderly m p o = go p.watcher refl
  where
    seen : {w : Watcher} → p.watcher ≡ w → IsWatched w p.listening p.server.shutdown
    seen e = subst (λ w. IsWatched w p.listening p.server.shutdown) e o.watched

    closes :
        (b : Bool)
        → p.watcher ≡ waits
        → IsOrderly m (
            if b
            then record p { server = record p.server { shutdown = true }; watcher = closing }
            else p)
    closes false e = o
    closes true e = record {
      within = record {
        capacity = o.within.capacity;
        bounded = o.within.bounded;
        counted = o.within.counted;
      };
      watched = ((seen e).0, refl);
      staged = born-IsStaged p.phase p.watcher closing _ _ (ap is_born e) refl o.staged;
    }

    go : (w : Watcher) → p.watcher ≡ w → IsOrderly m (watch_at w p)
    go unborn e = o
    go waits e = closes p.cancelled e
    go closing e = record {
      within = o.within;
      watched = (refl, (seen e).1);
      staged =
          subst (IsStaged p.phase over (is_some p.cert)) (sym (seen e).1)
            (born-IsStaged p.phase p.watcher over _ _ (ap is_born e) refl o.staged);
    }
    go over e = o

-- A certificate that is there stays.
certified-IsStaged :
    (ph : Phase) (w : Watcher) (c s : Bool) → IsStaged ph w c s → IsStaged ph w true s
certified-IsStaged starting w c s v = v
certified-IsStaged opening w c s v = (v.0, refl)
certified-IsStaged at_select w c s v = (v.0, refl)
certified-IsStaged in_accept w c s v = (v.0, refl)
certified-IsStaged (draining since) w c s v = (v.0, refl, v.2)
certified-IsStaged (returned none) w c s v = (v.0, refl, v.2)
certified-IsStaged (returned (some cannot_load)) w c s v = v
certified-IsStaged (returned (some cannot_listen)) w c s v = (v.0, refl)
certified-IsStaged (returned (some accept_failed)) w c s v = (v.0, refl)

reload-IsOrderly {ℓ} :
    {C : Type ℓ} (m : ℕ) (p : Process C) (loaded : Option C)
    → IsOrderly m p
    → IsOrderly m (reload p loaded)
unfolding reload
reload-IsOrderly m p none o = o
reload-IsOrderly m p (some c) o = record {
  within = o.within;
  watched = o.watched;
  staged = certified-IsStaged p.phase p.watcher _ _ o.staged;
}

-- What a step that is taken under a test keeps.
if-IsOrderly {ℓ} :
    {C : Type ℓ} (m : ℕ) (b : Bool) (p q : Process C)
    → (b ≡ true → IsOrderly m q)
    → IsOrderly m p
    → IsOrderly m (if b then q else p)
if-IsOrderly m true p q o other = o refl
if-IsOrderly m false p q o other = other

happens-IsOrderly {ℓ} :
    {C : Type ℓ} (m : ℕ) (p : Process C) (e : Event C) → IsOrderly m p → IsOrderly m (happens p e)
unfolding happens release tell
happens-IsOrderly m p (turns w) o = turn-IsOrderly m p w o
happens-IsOrderly m p watches o = watch-IsOrderly m p o
happens-IsOrderly m p releases o =
    if-IsOrderly m _ p _
      (λ some_held. record {
        within = record {
          capacity = o.within.capacity;
          bounded = omega (arith, o.within.bounded);
          counted = ground (arith, o.within.counted, some_held);
        };
        watched = o.watched;
        staged = o.staged;
      })
      o
happens-IsOrderly m p tells o =
    if-IsOrderly m _ p _
      (λ some_ending. record {
        within = record {
          capacity = o.within.capacity;
          bounded = o.within.bounded;
          counted = ground (arith, o.within.counted, some_ending);
        };
        watched = o.watched;
        staged = o.staged;
      })
      o
happens-IsOrderly m p cancels o = record {
  within = o.within;
  watched = o.watched;
  staged = o.staged;
}
happens-IsOrderly m p stops_reloading o =
    if-IsOrderly m _ p _
      (λ done. record { within = o.within; watched = o.watched; staged = o.staged }) o
happens-IsOrderly m p (hangs_up loaded) o =
    if-IsOrderly m _ p _ (λ running. reload-IsOrderly m p loaded o) o
happens-IsOrderly m p (passes n) o = record {
  within = o.within;
  watched = o.watched;
  staged = o.staged;
}

pub run-IsOrderly {ℓ} :
    {C : Type ℓ} (m : ℕ) (es : List (Event C)) (p : Process C)
    → IsOrderly m p
    → IsOrderly m (run p es)
unfolding run
run-IsOrderly m [] p o = o
run-IsOrderly m (e ∷ es) p o = run-IsOrderly m es (happens p e) (happens-IsOrderly m p e o)

-- Whatever happens from the start on, in any order: `Start` loops, drains or returns without an
-- error only with a certificate to serve; it is at most `MaxConns` connections that are served, and
-- the wait group counts them; the listener is closed only behind the channel `shutdown`, and nothing
-- drains or returns without an error before that channel is closed.
pub start-IsOrderly {ℓ} :
    {C : Type ℓ} (m : ℕ) (es : List (Event C)) → IsOrderly m (run (new_process m) es)
start-IsOrderly m es = run-IsOrderly m es (new_process m) (record {
  within = record { capacity = refl; bounded = omega arith; counted = omega arith };
  watched = (refl, refl);
  staged = refl;
})
