-- ===== src/Ui/Progress/Bounded.antt =====
-- internal/ui/progress.go: what holds of a progress line at all times.
use native.Mathlib.Nat.{div-le_of_le-mul}
use multi_protocol_proxy.Prelude.{
  ℕ, ◌*◌, ◌/◌, ◌≤◌, ◌<◌, Bool, true, some, ◌==◌, ◌≡◌, ◌⊎◌, refl, sym, ◌∙◌, subst, arith, Bool-cases,
  inl, inr, some_inj,
}
use multi_protocol_proxy.Ui.{Text}
use multi_protocol_proxy.Ui.Progress.{
  ProgressReporter, set_label, set_percent, tick, finish, animate, Step, labels, sets, ticks,
  finishes, animates, Reachable, created, steps,
}

pub record IsBounded (p : ProgressReporter) : Type 0 where
  pub percent : p.percent ≤ 100
  pub current : p.current ≤ p.total
  pub frame : p.frame < 4
  pub closed_once : p.stopped ≡ p.done

quotient-le : (a b : ℕ) → a ≤ b → a * 100 / b ≤ 100
quotient-le a b h = div-le_of_le-mul b (omega arith)

tick-IsBounded : (p : ProgressReporter) (delta : ℕ) → IsBounded p → IsBounded (tick p delta)
unfolding tick
tick-IsBounded p delta b = elim (Bool-cases (p.total == 0)) [
  | inl endless ↦ rw endless b
  | inr counted ↦ rw counted (record {
    percent = quotient-le _ p.total (ground arith);
    current = ground arith;
    frame = b.frame;
    closed_once = b.closed_once;
  })
]

finish-cases :
    (p : ProgressReporter)
    → IsBounded p
    → (finish p ≡ some p) × (p.done ≡ true)
      ⊎ (finish p ≡ some (record p { done = true; stopped = true }))
unfolding finish
finish-cases p b = elim (Bool-cases p.done) [
  | inl over ↦ inl (ground arith, over)
  | inr going ↦ inr (ground (arith, b.closed_once))
]

finish-IsBounded : (p p' : ProgressReporter) → finish p ≡ some p' → IsBounded p → IsBounded p'
finish-IsBounded p p' e b = elim (finish-cases p b) [
  | inl (same, over) ↦ subst IsBounded (some_inj (sym same ∙ e)) b
  | inr closed ↦
      subst IsBounded (some_inj (sym closed ∙ e))
        (record { percent = b.percent; current = b.current; frame = b.frame; closed_once = refl })
]

animate-IsBounded :
    (takes_tick : Bool) (p : ProgressReporter) → IsBounded p → IsBounded (animate takes_tick p)
unfolding animate
animate-IsBounded takes_tick p b = record {
  percent = ground (arith, b.percent);
  current = ground (arith, b.current);
  frame = ground (arith, b.frame);
  closed_once = ground (arith, b.closed_once);
}

Step-IsBounded : {p p' : ProgressReporter} → Step p p' → IsBounded p → IsBounded p'
unfolding set_label set_percent
Step-IsBounded (labels label) b = record {
  percent = b.percent;
  current = b.current;
  frame = b.frame;
  closed_once = b.closed_once;
}
Step-IsBounded (sets percent) b = record {
  percent = ground arith;
  current = b.current;
  frame = b.frame;
  closed_once = b.closed_once;
}
Step-IsBounded {p = p} (ticks delta) b = tick-IsBounded p delta b
Step-IsBounded {p = p} {p' = q} (finishes e) b = finish-IsBounded p q e b
Step-IsBounded {p = p} (animates takes_tick) b = animate-IsBounded takes_tick p b

-- Whatever is called, in whatever order, and however the animation runs in between, the percentage
-- is at most 100, what is counted at most the total, the frame of the spinner is one of its four, and
-- the channel is closed exactly if the line is done, so that `Done` does not close it again.
pub Reachable-IsBounded :
    {label : Text} {total : ℕ} {p : ProgressReporter} → Reachable label total p → IsBounded p
Reachable-IsBounded created = record {
  percent = omega arith;
  current = omega arith;
  frame = omega arith;
  closed_once = refl;
}
Reachable-IsBounded (steps r s) = Step-IsBounded s (Reachable-IsBounded r)

-- `Done` returns at all times, and leaves the line done.
pub Reachable-finish :
    {label : Text} {total : ℕ} {p : ProgressReporter}
    → Reachable label total p
    → (p' : ProgressReporter) × (finish p ≡ some p') × (p'.done ≡ true)
Reachable-finish {p = p} r = elim (finish-cases p (Reachable-IsBounded r)) [
  | inl (same, over) ↦ (p, same, over)
  | inr closed ↦ (record p { done = true; stopped = true }, closed, refl)
]
