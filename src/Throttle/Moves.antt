-- ===== src/Throttle/Moves.antt =====
-- How tokens and time move together in internal/bandwidth/throttle.go.
use multi_protocol_proxy.Prelude.{
  ℕ, ◌+◌, ◌-◌, ◌*◌, ◌≤◌, ◌≡◌, refl, ap, ◌∙◌, subst, arith, plus, below, below-plus, below-at_most,
  below-minus,
}
use multi_protocol_proxy.Throttle.{ThrottledConn, token, refill, consume_tokens}
use multi_protocol_proxy.Throttle.Waiting.{IsRunning, refill-IsRunning, consume_tokens-IsRunning}

-- How far the connection is from its burst.
abbrev pub spent : ThrottledConn → ℕ
spent tc = below tc.max_tokens tc.tokens

-- What an operation that moves `n` bytes does to a connection.
pub record Moves (n : ℕ) (tc tc' : ThrottledConn) : Type 0 where
  pub running : IsRunning tc'
  pub same_max : tc'.max_tokens ≡ tc.max_tokens
  pub same_rate : tc'.refill_rate ≡ tc.refill_rate
  pub later : tc.last_refill ≤ tc'.last_refill
  pub cost :
      n * token + spent tc + tc.last_refill * tc.refill_rate
      ≤ spent tc' + tc'.last_refill * tc.refill_rate

pub Moves-next : (m n : ℕ) (a b c : ThrottledConn) → Moves m a b → Moves n b c → Moves (m + n) a c
Moves-next m n a b c p q = record {
  running = q.running;
  same_max = q.same_max ∙ p.same_max;
  same_rate = q.same_rate ∙ p.same_rate;
  later = omega (arith, p.later, q.later);
  cost = omega (
    arith,
    p.cost,
    subst (λ r. n * token + spent b + b.last_refill * r ≤ spent c + c.last_refill * r) p.same_rate
        q.cost,
  );
}

refilled : (s n l r : ℕ) → l ≤ n → s + l * r ≤ s - (n - l) * r + n * r
refilled s n l r h = grind (arith, ap (λ x. x * r) (the_gap h))
  where
    the_gap : l ≤ n → n ≡ (n - l) + l
    the_gap h = omega arith

pub Moves-none : (tc : ThrottledConn) → IsRunning tc → Moves 0 tc tc
Moves-none tc r = record {
  running = r;
  same_max = refl;
  same_rate = refl;
  later = omega arith;
  cost = omega arith;
}

pub refill-spent :
    (tc : ThrottledConn) (now : ℕ)
    → (spent (refill tc now) ≤ spent tc) × ((refill tc now).last_refill ≡ now)
unfolding refill
refill-spent tc now =
    let gained = (now - tc.last_refill) * tc.refill_rate in
    (
      rw
          (
            below-at_most (plus tc.tokens gained) tc.max_tokens,
            below-plus tc.tokens tc.max_tokens gained,
          )
          (omega arith),
      refl,
    )

pub refill-Moves :
    (tc : ThrottledConn) (now : ℕ)
    → IsRunning tc
    → tc.last_refill ≤ now
    → Moves 0 tc (refill tc now)
unfolding refill
refill-Moves tc now r h = record {
  running = refill-IsRunning tc now r;
  same_max = refl;
  same_rate = refl;
  later = h;
  cost =
      rw
        (
          below-at_most (plus tc.tokens ((now - tc.last_refill) * tc.refill_rate)) tc.max_tokens,
          below-plus tc.tokens tc.max_tokens ((now - tc.last_refill) * tc.refill_rate),
        )
        (omega (arith, refilled (spent tc) now tc.last_refill tc.refill_rate h));
}

pub consume_tokens-Moves :
    (tc : ThrottledConn) (n : ℕ) → IsRunning tc → Moves n tc (consume_tokens tc n)
unfolding consume_tokens
consume_tokens-Moves tc n r = record {
  running = consume_tokens-IsRunning tc n r;
  same_max = refl;
  same_rate = refl;
  later = omega arith;
  cost = omega (arith, below-minus tc.tokens tc.max_tokens (n * token) r.bounded);
}
