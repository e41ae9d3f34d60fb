-- ===== src/Proxy/Certificates.antt =====
-- The certificate that internal/proxy/server.go serves, under reloads.
use multi_protocol_proxy.Prelude.{
  ℕ, ◌+◌, ◌-◌, ltb, Bool, true, false, List, [], ◌∷◌, Option, none, some, if◌then◌else◌, ◌≡◌, refl,
  subst, All,
}
use multi_protocol_proxy.Proxy.Accept.{Accepted, conn, timed_out, broken, release, tell}
use multi_protocol_proxy.Proxy.Lifecycle.{
  Phase, starting, opening, at_select, in_accept, draining, returned, Watcher, unborn, waits,
  closing, over, Process, new_process, reload, get_certificate, load_first, listen, unless_shutdown,
  accept, answer, accept_or_block, drain, Answers, turn_at, watch_at, Event, turns, watches,
  releases, tells, cancels, stops_reloading, hangs_up, passes, happens, run,
}

-- The last certificate that a SIGHUP has found, and `c` where none has.
unfoldable pub last_loaded {ℓ} : {C : Type ℓ} → C → List (Event C) → C
last_loaded c [] = c
last_loaded c (hangs_up (some later) ∷ es) = last_loaded later es
last_loaded c (_ ∷ es) = last_loaded c es

-- Any event but the end of the goroutine of SIGHUP.
abbrev pub IsReloading {ℓ} : {C : Type ℓ} → Event C → Type 0
IsReloading stops_reloading = ⊥
IsReloading _ = Unit {0}

-- `Start` is behind its first `Reload`.
abbrev pub has_begun : Phase → Bool
has_begun starting = false
has_begun _ = true

-- The certificate is `c`, and SIGHUPs are served.
record IsServing {ℓ} {C : Type ℓ} (c : C) (p : Process C) : Type ℓ where
  certified : p.cert ≡ some c
  reloads : p.reloading ≡ true
  begun : has_begun p.phase ≡ true

if-has_begun :
    (b : Bool) (x y : Phase)
    → has_begun x ≡ true
    → has_begun y ≡ true
    → has_begun (if b then x else y) ≡ true
if-has_begun true x y e f = e
if-has_begun false x y e f = f

accept-IsServing {ℓ} :
    {C : Type ℓ} (c : C) (p : Process C) (a : Accepted) → IsServing c p → IsServing c (accept p a)
unfolding accept unless_shutdown
accept-IsServing c p conn v = record { certified = v.certified; reloads = v.reloads; begun = refl }
accept-IsServing c p timed_out v = record {
  certified = v.certified;
  reloads = v.reloads;
  begun = if-has_begun p.server.shutdown _ _ refl refl;
}
accept-IsServing c p broken v = record {
  certified = v.certified;
  reloads = v.reloads;
  begun = if-has_begun p.server.shutdown _ _ refl refl;
}

accept_or_block-IsServing {ℓ} :
    {C : Type ℓ} (c : C) (p : Process C) (a : Option Accepted)
    → IsServing c p
    → IsServing c (accept_or_block p a)
unfolding accept_or_block
accept_or_block-IsServing c p none v = record {
  certified = v.certified;
  reloads = v.reloads;
  begun = refl;
}
accept_or_block-IsServing c p (some a) v = accept-IsServing c p a v

turn-IsServing {ℓ} :
    {C : Type ℓ} (c : C) (ph : Phase) (p : Process C) (w : Answers C)
    → has_begun ph ≡ true
    → IsServing c p
    → IsServing c (turn_at ph p w)
unfolding turn_at listen unless_shutdown drain
turn-IsServing c starting p w b v = cc (b)
turn-IsServing c opening p w b v = go w.opened
  where
    go : (b : Bool) → IsServing c (listen p b)
    go true = record { certified = v.certified; reloads = v.reloads; begun = refl }
    go false = record { certified = v.certified; reloads = v.reloads; begun = refl }
turn-IsServing c at_select p w b v = record {
  certified = v.certified;
  reloads = v.reloads;
  begun = if-has_begun p.server.shutdown _ _ refl refl;
}
turn-IsServing c in_accept p w b v = accept_or_block-IsServing c p (answer p.listening w.accepted) v
turn-IsServing c (draining since) p w b v = record {
  certified = v.certified;
  reloads = v.reloads;
  begun = if-has_begun _ (returned none) (draining since) refl refl;
}
turn-IsServing c (returned r) p w b v = v

-- What a step that is taken under a test keeps.
if-IsServing {ℓ} :
    {C : Type ℓ} (c : C) (b : Bool) (p q : Process C)
    → IsServing c p
    → IsServing c q
    → IsServing c (if b then p else q)
if-IsServing c true p q v w = v
if-IsServing c false p q v w = w

happens-IsServing {ℓ} :
    {C : Type ℓ} (c : C) (p : Process C) (e : Event C)
    → IsReloading e
    → IsServing c p
    → IsServing (last_loaded c (e ∷ [])) (happens p e)
unfolding happens watch_at reload last_loaded
happens-IsServing c p (turns w) k v = turn-IsServing c p.phase p w v.begun v
happens-IsServing c p watches k v = go p.watcher
  where
    go : (w : Watcher) → IsServing c (watch_at w p)
    go unborn = v
    go waits =
        if-IsServing c p.cancelled _ p
          (record { certified = v.certified; reloads = v.reloads; begun = v.begun }) v
    go closing = record { certified = v.certified; reloads = v.reloads; begun = v.begun }
    go over = v
happens-IsServing c p releases k v =
    if-IsServing c (ltb 0 p.server.held)
      (record p { server = release p.server; ending = p.ending + 1 }) p
      (record { certified = v.certified; reloads = v.reloads; begun = v.begun }) v
happens-IsServing c p tells k v =
    if-IsServing c (ltb 0 p.ending) (record p { server = tell p.server; ending = p.ending - 1 }) p
      (record { certified = v.certified; reloads = v.reloads; begun = v.begun }) v
happens-IsServing c p cancels k v = record {
  certified = v.certified;
  reloads = v.reloads;
  begun = v.begun;
}
happens-IsServing c p stops_reloading k v = absurd k
happens-IsServing c p (hangs_up none) k v = if-IsServing c p.reloading p p v v
happens-IsServing c p (hangs_up (some later)) k v = go p.reloading v.reloads
  where
    go : (b : Bool) → b ≡ true → IsServing later (if b then record p { cert = some later } else p)
    go true e = record { certified = refl; reloads = v.reloads; begun = v.begun }
    go false e = cc (e)
happens-IsServing c p (passes n) k v = record {
  certified = v.certified;
  reloads = v.reloads;
  begun = v.begun;
}

last_loaded-next {ℓ} :
    {C : Type ℓ} (c : C) (e : Event C) (es : List (Event C))
    → last_loaded (last_loaded c (e ∷ [])) es ≡ last_loaded c (e ∷ es)
unfolding last_loaded
last_loaded-next c (turns w) es = refl
last_loaded-next c watches es = refl
last_loaded-next c releases es = refl
last_loaded-next c tells es = refl
last_loaded-next c cancels es = refl
last_loaded-next c stops_reloading es = refl
last_loaded-next c (hangs_up none) es = refl
last_loaded-next c (hangs_up (some later)) es = refl
last_loaded-next c (passes n) es = refl

run-IsServing {ℓ} :
    {C : Type ℓ} (es : List (Event C)) (c : C) (p : Process C)
    → All IsReloading es
    → IsServing c p
    → IsServing (last_loaded c es) (run p es)
unfolding run last_loaded
run-IsServing [] c p k v = v
run-IsServing (e ∷ es) c p k v =
    subst (λ c. IsServing c (run (happens p e) es)) (last_loaded-next c e es)
      (run-IsServing es (last_loaded c (e ∷ [])) (happens p e) k.1 (happens-IsServing c p e k.0 v))

-- Once `Start` has loaded a certificate, a TLS handshake is given the last one that a SIGHUP has
-- found on the disk, or the first where none has, whatever happens in between: a reload that fails
-- leaves it as it is. This holds while the goroutine of SIGHUP runs.
pub get_certificate-last {ℓ} :
    {C : Type ℓ} (m : ℕ) (c : C) (w : Answers C) (es : List (Event C))
    → w.loaded ≡ some c
    → All IsReloading es
    → get_certificate (run (happens (new_process m) (turns w)) es) ≡ some (last_loaded c es)
unfolding get_certificate happens turn_at load_first reload
get_certificate-last m c w es found kept =
    (run-IsServing es c (happens (new_process m) (turns w)) kept (go w.loaded found)).certified
  where
    go : (o : Option _) → o ≡ some c → IsServing c (load_first (new_process m) o)
    go none e = cc (e)
    go (some d) e = record { certified = e; reloads = refl; begun = refl }
