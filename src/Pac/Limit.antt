-- ===== src/Pac/Limit.antt =====
-- How many requests of one client `checkRateLimit` of internal/pac/pac.go lets through in a window.
use multi_protocol_proxy.Prelude.{
  ℕ, suc, ◌+◌, ◌-◌, ◌≤◌, ◌<◌, true, false, ◌&&◌, List, [], ◌∷◌, some, Bytes, ◌≡◌, refl, sym, ap,
  arith, subst, str_eq, str_eq_iff, str_eq_refl, ltb, add64, half_mod, if◌then◌else◌, lookup,
  lookup-insert, lookup-insert_self, Bool-cases, inl, inr, All,
}
use multi_protocol_proxy.Pac.{Handler, Config, check_rate_limit, minute, opens, count_or_zero}

-- The requests of `ip` that pass, and the requests of `ip`, in a sequence of requests of any
-- clients, each with its time.
unfoldable pub passes : Handler → Bytes → List (Bytes × ℕ) → ℕ
passes h ip [] = 0
passes h ip ((client, now) ∷ calls) =
    let rest = passes (check_rate_limit h client now).0 ip calls in
    if str_eq client ip && (check_rate_limit h client now).1 then suc rest else rest

unfoldable pub requests : Bytes → List (Bytes × ℕ) → ℕ
requests ip [] = 0
requests ip ((client, now) ∷ calls) =
    let rest = requests ip calls in if str_eq client ip then suc rest else rest

abbrev pub min : ℕ → ℕ → ℕ
min a b = if ltb a b then a else b

-- The window of `ip` began at `start` and has let `n` requests through.
abbrev InWindow : Handler → Bytes → ℕ → ℕ → Type 0
InWindow h ip start n =
    (lookup ip h.rate_window ≡ some start) × (count_or_zero (lookup ip h.rate_tokens) ≡ n)

abbrev pub Within : ℕ → List (Bytes × ℕ) → Type 0
Within start calls = All (λ (c : Bytes × ℕ). c.1 ≤ start + minute) calls

-- A request of another client leaves the window alone.
other-InWindow :
    (h : Handler) (ip client : Bytes) (now start n : ℕ)
    → str_eq client ip ≡ false
    → InWindow h ip start n
    → InWindow (check_rate_limit h client now).0 ip start n
unfolding check_rate_limit
other-InWindow h ip client now start n other window =
    let tokens = count_or_zero (lookup client h.rate_tokens) in
    let w = lookup-insert client ip now h.rate_window in
    let one = lookup-insert client ip 1 h.rate_tokens in
    let more = lookup-insert client ip (add64 tokens 1) h.rate_tokens in
    (ground (arith, w, other, window.0), ground (arith, one, more, other, window.1))

-- A request of the client itself passes while there is room.
same-step :
    (h : Handler) (ip : Bytes) (now start n : ℕ)
    → now ≤ start + minute
    → n ≤ h.config.rate_limit_rpm
    → h.config.rate_limit_rpm < half_mod
    → InWindow h ip start n
    → ((check_rate_limit h ip now).1 ≡ ltb n h.config.rate_limit_rpm)
      × InWindow
          (check_rate_limit h ip now).0
          ip
          start
          (if ltb n h.config.rate_limit_rpm then suc n else n)
unfolding check_rate_limit
same-step h ip now start n early room small window =
    let tokens = count_or_zero (lookup ip h.rate_tokens) in
    let more = lookup-insert_self ip (add64 tokens 1) h.rate_tokens in
    (
      ground (arith, window.0, window.1),
      (ground (arith, window.0, window.1), ground (arith, more, window.0, window.1)),
    )

check_rate_limit-config :
    (h : Handler) (ip : Bytes) (now : ℕ) → (check_rate_limit h ip now).0.config ≡ h.config
unfolding check_rate_limit
check_rate_limit-config h ip now = ground arith

-- Inside a window that has let `n` requests through, the client's next requests pass up to the
-- limit, and no more.
passes-InWindow :
    (h : Handler) (ip : Bytes) (start n : ℕ) (calls : List (Bytes × ℕ))
    → n ≤ h.config.rate_limit_rpm
    → h.config.rate_limit_rpm < half_mod
    → InWindow h ip start n
    → Within start calls
    → passes h ip calls ≡ min (requests ip calls) (h.config.rate_limit_rpm - n)
unfolding passes requests
passes-InWindow h ip start n [] room small window early = ground arith
passes-InWindow h ip start n ((client, now) ∷ calls) room small window early =
    let h' = (check_rate_limit h client now).0 in
    let rpm = h.config.rate_limit_rpm in
    let same_rpm : h'.config.rate_limit_rpm ≡ rpm =
      ap (λ (c : Config). c.rate_limit_rpm) (check_rate_limit-config h client now) in
    elim (Bool-cases (str_eq client ip)) [
      | inr other ↦
          let rest =
            passes-InWindow h' ip start n calls (rw same_rpm room) (rw same_rpm small)
              (other-InWindow h ip client now start n other window) early.1 in
          ground (arith, rest, same_rpm, other)
      | inl same ↦
          let e : client ≡ ip = (str_eq_iff client ip).0 same in
          let step =
            same-step h client now start n early.0 room small
              (subst (λ c. InWindow h c start n) (sym e) window) in
          let m = if ltb n rpm then suc n else n in
          let below : m ≤ rpm = ground (arith, room) in
          let rest =
            passes-InWindow h' ip start m calls (rw same_rpm below) (rw same_rpm small)
              (subst (λ c. InWindow h' c start m) e step.1) early.1 in
          ground (arith, rest, same_rpm, same, step.0, room)
    ]

-- With a positive limit below 2^63: behind the request that opens a client's window, and for
-- requests at most a minute later, that request and the client's further ones pass up to the
-- limit and no more, whatever other clients send between them.
pub window-passes :
    (h : Handler) (ip : Bytes) (start : ℕ) (calls : List (Bytes × ℕ))
    → 0 < h.config.rate_limit_rpm
    → h.config.rate_limit_rpm < half_mod
    → opens (lookup ip h.rate_window) start ≡ true
    → Within start calls
    → passes h ip ((ip, start) ∷ calls) ≡ min (suc (requests ip calls)) h.config.rate_limit_rpm
unfolding passes check_rate_limit
window-passes h ip start calls some_rpm small fresh early =
    let h' = (check_rate_limit h ip start).0 in
    let same_rpm : h'.config.rate_limit_rpm ≡ h.config.rate_limit_rpm =
      ap (λ (c : Config). c.rate_limit_rpm) (check_rate_limit-config h ip start) in
    let opened : InWindow h' ip start 1 = (
      rw (fresh, check_rate_limit) (lookup-insert_self ip start h.rate_window),
      rw (fresh, check_rate_limit) (ap count_or_zero (lookup-insert_self ip 1 h.rate_tokens)),
    ) in
    let rest =
      passes-InWindow h' ip start 1 calls (rw same_rpm some_rpm) (rw same_rpm small) opened early in
    let passed : (check_rate_limit h ip start).1 ≡ true = rw (fresh, check_rate_limit) refl in
    ground (arith, rest, same_rpm, passed, str_eq_refl ip, some_rpm)
