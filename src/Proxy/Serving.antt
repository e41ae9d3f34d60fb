-- ===== src/Proxy/Serving.antt =====
-- The invariant of the process of Proxy/Lifecycle: internal/proxy/server.go serves with a
-- certificate, and its listener is closed only behind the channel `shutdown`.
use multi_protocol_proxy.Prelude.{
  ℕ, Bool, true, false, Option, none, some, is_some, if◌then◌else◌, ◌≡◌, refl, sym, subst, arith,
}
use multi_protocol_proxy.Proxy.Accept.{Server, Accepted, conn, timed_out, broken, admit}
use multi_protocol_proxy.Proxy.Capacity.{IsWithin}
use multi_protocol_proxy.Proxy.Lifecycle.{
  cannot_load, cannot_listen, accept_failed, Phase, starting, opening, at_select, in_accept,
  draining, returned, Watcher, unborn, waits, closing, over, Process, reload, load_first, listen,
  unless_shutdown, accept, answer, accept_or_block, drain, Answers, turn_at,
}

-- What the watcher has done to the listener and to the channel `shutdown`.
abbrev pub IsWatched : Watcher → Bool → Bool → Type 0
IsWatched unborn listening shutdown = (listening ≡ false) × (shutdown ≡ false)
IsWatched waits listening shutdown = (listening ≡ true) × (shutdown ≡ false)
IsWatched closing listening shutdown = (listening ≡ true) × (shutdown ≡ true)
IsWatched over listening shutdown = (listening ≡ false) × (shutdown ≡ true)

abbrev pub is_born : Watcher → Bool
is_born unborn = false
is_born _ = true

-- What a phase has behind it: the watcher's start, a certificate, and the shutdown.
abbrev pub IsStaged : Phase → Watcher → Bool → Bool → Type 0
IsStaged starting w certified shutdown = is_born w ≡ false
IsStaged opening w certified shutdown = (is_born w ≡ false) × (certified ≡ true)
IsStaged at_select w certified shutdown = (is_born w ≡ true) × (certified ≡ true)
IsStaged in_accept w certified shutdown = (is_born w ≡ true) × (certified ≡ true)
IsStaged (draining since) w certified shutdown =
    (is_born w ≡ true) × (certified ≡ true) × (shutdown ≡ true)
IsStaged (returned none) w certified shutdown =
    (is_born w ≡ true) × (certified ≡ true) × (shutdown ≡ true)
IsStaged (returned (some cannot_load)) w certified shutdown = is_born w ≡ false
IsStaged (returned (some cannot_listen)) w certified shutdown =
    (is_born w ≡ false) × (certified ≡ true)
IsStaged (returned (some accept_failed)) w certified shutdown =
    (is_born w ≡ true) × (certified ≡ true)

pub record IsOrderly {ℓ} {C : Type ℓ} (m : ℕ) (p : Process C) : Type ℓ where
  pub within : IsWithin m p.server p.ending
  pub watched : IsWatched p.watcher p.listening p.server.shutdown
  pub staged : IsStaged p.phase p.watcher (is_some p.cert) p.server.shutdown

admit-IsWithin : (m : ℕ) (s : Server) (n : ℕ) → IsWithin m s n → IsWithin m (admit s) n
unfolding admit
admit-IsWithin m s n v = record {
  capacity = ground (arith, v.capacity);
  bounded = ground (arith, v.capacity, v.bounded);
  counted = ground (arith, v.counted);
}

pub admit-shutdown : (s : Server) → (admit s).shutdown ≡ s.shutdown
unfolding admit
admit-shutdown s = ground arith

-- A phase that a test of the channel `shutdown` decides.
unless-IsStaged :
    (b : Bool) (t : ℕ) (other : Phase) (w : Watcher) (c : Bool)
    → IsStaged other w c b
    → (is_born w ≡ true) × (c ≡ true)
    → IsStaged (if b then draining t else other) w c b
unless-IsStaged true t other w c s born = (born.0, born.1, refl)
unless-IsStaged false t other w c s born = s

drain-IsStaged :
    (b : Bool) (since : ℕ) (w : Watcher) (c s : Bool)
    → IsStaged (draining since) w c s
    → IsStaged (if b then returned none else draining since) w c s
drain-IsStaged true since w c s staged = staged
drain-IsStaged false since w c s staged = staged

unborn-IsWatched :
    (w : Watcher) (listening shutdown : Bool)
    → is_born w ≡ false
    → IsWatched w listening shutdown
    → IsWatched waits true shutdown
unborn-IsWatched unborn l s b v = (refl, v.1)
unborn-IsWatched waits l s b v = cc (b)
unborn-IsWatched closing l s b v = cc (b)
unborn-IsWatched over l s b v = cc (b)

admit-IsWatched :
    (w : Watcher) (l : Bool) (s : Server)
    → IsWatched w l s.shutdown
    → IsWatched w l (admit s).shutdown
admit-IsWatched w l s v = subst (IsWatched w l) (sym (admit-shutdown s)) v

accept-IsOrderly {ℓ} :
    {C : Type ℓ} (m : ℕ) (p : Process C) (a : Accepted)
    → IsOrderly m p
    → (is_born p.watcher ≡ true) × (is_some p.cert ≡ true)
    → IsOrderly m (accept p a)
unfolding accept unless_shutdown
accept-IsOrderly m p conn o s = record {
  within = admit-IsWithin m p.server p.ending o.within;
  watched = admit-IsWatched p.watcher p.listening p.server o.watched;
  staged = s;
}
accept-IsOrderly m p timed_out o s = record {
  within = o.within;
  watched = o.watched;
  staged = unless-IsStaged p.server.shutdown p.now at_select p.watcher _ s s;
}
accept-IsOrderly m p broken o s = record {
  within = o.within;
  watched = o.watched;
  staged = unless-IsStaged p.server.shutdown p.now (returned (some accept_failed)) p.watcher _ s s;
}

accept_or_block-IsOrderly {ℓ} :
    {C : Type ℓ} (m : ℕ) (p : Process C) (a : Option Accepted)
    → IsOrderly m p
    → (is_born p.watcher ≡ true) × (is_some p.cert ≡ true)
    → IsOrderly m (accept_or_block p a)
unfolding accept_or_block
accept_or_block-IsOrderly m p none o s = record {
  within = o.within;
  watched = o.watched;
  staged = s;
}
accept_or_block-IsOrderly m p (some a) o s = accept-IsOrderly m p a o s

load_first-IsOrderly {ℓ} :
    {C : Type ℓ} (m : ℕ) (p : Process C) (loaded : Option C)
    → IsOrderly m p
    → is_born p.watcher ≡ false
    → IsOrderly m (load_first p loaded)
unfolding load_first reload
load_first-IsOrderly m p none o s = record { within = o.within; watched = o.watched; staged = s }
load_first-IsOrderly m p (some c) o s = record {
  within = o.within;
  watched = o.watched;
  staged = (s, refl);
}

listen-IsOrderly {ℓ} :
    {C : Type ℓ} (m : ℕ) (p : Process C) (opened : Bool)
    → IsOrderly m p
    → (is_born p.watcher ≡ false) × (is_some p.cert ≡ true)
    → IsOrderly m (listen p opened)
unfolding listen
listen-IsOrderly m p true o s = record {
  within = o.within;
  watched = unborn-IsWatched p.watcher p.listening p.server.shutdown s.0 o.watched;
  staged = (refl, s.1);
}
listen-IsOrderly m p false o s = record { within = o.within; watched = o.watched; staged = s }

pub turn-IsOrderly {ℓ} :
    {C : Type ℓ} (m : ℕ) (p : Process C) (w : Answers C)
    → IsOrderly m p
    → IsOrderly m (turn_at p.phase p w)
unfolding turn_at unless_shutdown drain
turn-IsOrderly {C = C} m p w o = go p.phase o.staged
  where
    go :
        (ph : Phase)
        → IsStaged ph p.watcher (is_some p.cert) p.server.shutdown
        → IsOrderly m (turn_at ph p w)
    go starting s = load_first-IsOrderly m p w.loaded o s
    go opening s = listen-IsOrderly m p w.opened o s
    go at_select s = record {
      within = o.within;
      watched = o.watched;
      staged = unless-IsStaged p.server.shutdown p.now in_accept p.watcher _ s s;
    }
    go in_accept s = accept_or_block-IsOrderly m p (answer p.listening w.accepted) o s
    go (draining since) s = record {
      within = o.within;
      watched = o.watched;
      staged = drain-IsStaged _ since p.watcher _ _ s;
    }
    go (returned r) s = o
