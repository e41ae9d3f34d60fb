-- ===== src/Proxy/Window.antt =====
-- The windows of internal/proxy/stats.go.
use multi_protocol_proxy.Prelude.{
  ℕ, suc, ◌-◌, ◌≤◌, ◌<◌, List, [], ◌∷◌, ◌++◌, ◌≡◌, refl, sym, ap, ◌∙◌, arith, append_assoc,
  append-nil, All, length, length-append, length-drop, drop, ltb, add64, sub64, word_mod,
  Bool-cases, inl, inr,
}
use multi_protocol_proxy.Proxy.Stats.{StatsTracker, push, tick_second, record_bytes}

-- The last `n` of a list.
abbrev pub last {ℓ} : {A : Type ℓ} → ℕ → List A → List A
last n xs = drop (length xs - n) xs

abbrev pub pushes {ℓ} : {A : Type ℓ} → ℕ → List A → List A → List A
pushes limit window [] = window
pushes limit window (x ∷ xs) = pushes limit (push limit window x) xs

module _ {ℓ} {A : Type ℓ} where
  push-bounded :
      (limit : ℕ) (window : List A) (x : A)
      → length window ≤ limit
      → length (push limit window x) ≤ limit
  unfolding push
  push-bounded limit window x room =
      let longer = window ++ (x ∷ []) in
      ground (arith, length-append window (x ∷ []), length-drop 1 longer, room)

  last-suc : (n : ℕ) (x : A) (xs : List A) → n ≤ length xs → last n (x ∷ xs) ≡ last n xs
  last-suc n x xs long =
      let e : suc (length xs) - n ≡ suc (length xs - n) = omega arith in ap (λ k. drop k (x ∷ xs)) e

  last-short : (n : ℕ) (xs : List A) → length xs ≤ n → last n xs ≡ xs
  last-short n xs short = let e : length xs - n ≡ 0 = omega arith in ap (λ k. drop k xs) e

  full-push :
      (limit : ℕ) (window : List A) (x : A)
      → limit ≡ length window
      → push limit window x ≡ drop 1 (window ++ (x ∷ []))
  unfolding push
  full-push limit window x full = ground (arith, length-append window (x ∷ []), full)

  part-push :
      (limit : ℕ) (window : List A) (x : A)
      → length window < limit
      → push limit window x ≡ window ++ (x ∷ [])
  unfolding push
  part-push limit window x room = ground (arith, length-append window (x ∷ []), room)

  -- A sample that a full window drops is beyond the last ones.
  drop-last :
      (limit : ℕ) (window : List A) (x : A) (xs : List A)
      → limit ≡ length window
      → last limit (drop 1 (window ++ (x ∷ [])) ++ xs) ≡ last limit (window ++ (x ∷ xs))
  drop-last limit [] x xs full = sym (last-suc limit x xs (omega arith))
  drop-last limit (w ∷ ws) x xs full =
      let same : (ws ++ (x ∷ [])) ++ xs ≡ ws ++ (x ∷ xs) = append_assoc ws (x ∷ []) xs in
      ap (last limit) same
      ∙ sym (last-suc limit w (ws ++ (x ∷ xs)) (omega (arith, length-append ws (x ∷ xs), full)))

  -- Whatever samples come, the window holds exactly the last `limit` of them, in their order.
  pushes-last :
      (limit : ℕ) (window xs : List A)
      → length window ≤ limit
      → pushes limit window xs ≡ last limit (window ++ xs)
  pushes-last limit window [] room =
      sym (
        last-short limit (window ++ []) (omega (arith, length-append window []))
        ∙ append-nil window)
  pushes-last limit window (x ∷ xs) room =
      pushes-last limit (push limit window x) xs (push-bounded limit window x room)
      ∙ elim (Bool-cases (ltb (length window) limit)) [
        | inl some_room ↦
            ap (λ ys. last limit (ys ++ xs)) (part-push limit window x (ground (arith, some_room)))
            ∙ ap (last limit) (append_assoc window (x ∷ []) xs)
        | inr full ↦
            let e : limit ≡ length window = ground (arith, full, room) in
            ap (λ ys. last limit (ys ++ xs)) (full-push limit window x e)
            ∙ drop-last limit window x xs e
      ]

-- Seconds in which so many bytes are recorded, each with its tick behind it.
abbrev pub seconds : StatsTracker → List ℕ → StatsTracker
seconds s [] = s
seconds s (n ∷ ns) = seconds (tick_second (record_bytes s n)) ns

-- Back from a sum that may have wrapped.
sample-exact : (total n : ℕ) → total < word_mod → n < word_mod → sub64 (add64 total n) total ≡ n
sample-exact total n small few = omega arith

seconds-pushes :
    (s : StatsTracker) (ns : List ℕ)
    → s.total_bytes < word_mod
    → s.last_bytes ≡ s.total_bytes
    → All (λ n. n < word_mod) ns
    → (seconds s ns).bytes_window ≡ pushes 60 s.bytes_window ns
unfolding tick_second record_bytes
seconds-pushes s [] small synced few = refl
seconds-pushes s (n ∷ ns) small synced few =
    let s' = tick_second (record_bytes s n) in
    let sample : sub64 (add64 s.total_bytes n) s.last_bytes ≡ n =
      ap (sub64 (add64 s.total_bytes n)) synced ∙ sample-exact s.total_bytes n small few.0 in
    let bounded : s'.total_bytes < word_mod = omega arith in
    seconds-pushes s' ns bounded refl few.1
    ∙ ap (λ x. pushes 60 (push 60 s.bytes_window x) ns) sample

-- From a window of at most 60 samples that is up to date with the total: after seconds in each of
-- which some number of bytes is recorded, the window holds, in their order, the numbers of the
-- last 60 seconds, exactly even where the 64-bit total wraps.
pub seconds-last :
    (s : StatsTracker) (ns : List ℕ)
    → s.total_bytes < word_mod
    → s.last_bytes ≡ s.total_bytes
    → length s.bytes_window ≤ 60
    → All (λ n. n < word_mod) ns
    → (seconds s ns).bytes_window ≡ last 60 (s.bytes_window ++ ns)
seconds-last s ns small synced room few =
    seconds-pushes s ns small synced few ∙ pushes-last 60 s.bytes_window ns room
