-- ===== src/Ui/Progress.antt =====
-- internal/ui/progress.go: a progress line. Its numbers are taken without a bound, and not below 0,
-- which a total of 0 stands for too. What it prints is in Lines, but for its bar.
pub mod Bounded
use multi_protocol_proxy.Prelude.{
  ℕ, zero, suc, ◌+◌, ◌-◌, ◌*◌, ◌/◌, ◌%◌, Bool, true, false, List, [], ◌∷◌, ◌++◌, Option, none, some,
  ltb, ◌==◌, not, ◌≡◌, if◌then◌else◌,
}
use multi_protocol_proxy.Ui.Ansi.{Text}

-- `stopped`: the channel `stopChan` is closed. `animating`: the goroutine of `animate` runs.
pub record ProgressReporter : Type 0 where
  pub label : Text
  pub percent : ℕ
  pub total : ℕ
  pub current : ℕ
  pub done : Bool
  pub stopped : Bool
  pub frame : ℕ
  pub animating : Bool

abbrev pub spinner_frames : Text
spinner_frames = 9680 ∷ 9683 ∷ 9681 ∷ 9682 ∷ []

-- `CreateProgress` on a terminal.
abbrev pub create_progress : Text → ℕ → ProgressReporter
create_progress label total = record {
  label = label;
  percent = 0;
  total = total;
  current = 0;
  done = false;
  stopped = false;
  frame = 0;
  animating = true;
}

unfoldable pub set_label : ProgressReporter → Text → ProgressReporter
set_label p label = record p { label = label }

unfoldable pub set_percent : ProgressReporter → ℕ → ProgressReporter
set_percent p percent = record p { percent = if ltb 100 percent then 100 else percent }

unfoldable pub tick : ProgressReporter → ℕ → ProgressReporter
tick p delta =
    if p.total == 0
    then p
    else let current = if ltb p.total (p.current + delta) then p.total else p.current + delta in
      record p { current = current; percent = current * 100 / p.total }

-- `none` is the panic of closing a closed channel.
unfoldable pub finish : ProgressReporter → Option ProgressReporter
finish p =
    if p.done
    then some p
    else if p.stopped
    then none
    else some (record p { done = true; stopped = true })

-- One turn of the loop of `animate`, which takes the closed channel or a tick of its clock.
unfoldable pub animate : Bool → ProgressReporter → ProgressReporter
animate takes_tick p =
    if not p.animating
    then p
    else if takes_tick
    then (if p.done then record p { animating = false } else record p { frame = (p.frame + 1) % 4 })
    else if p.stopped
    then record p { animating = false }
    else p

-- The bar: whether each of its places is filled.
unfoldable pub bar : ℕ → ℕ → ℕ → List Bool
bar i zero filled = []
bar i (suc n) filled = ltb i filled ∷ bar (i + 1) n filled

unfoldable pub render_progress_bar : ℕ → ℕ → List Bool
unfolding bar
render_progress_bar percent width =
    let filled = percent * width / 100 in bar 0 width (if ltb width filled then width else filled)

-- What is done with a reporter, by its user and by its goroutine.
pub data Step : ProgressReporter → ProgressReporter → Type 0 where
  labels : {p : ProgressReporter} (label : Text) → Step p (set_label p label)
  sets : {p : ProgressReporter} (percent : ℕ) → Step p (set_percent p percent)
  ticks : {p : ProgressReporter} (delta : ℕ) → Step p (tick p delta)
  finishes : {p p' : ProgressReporter} → finish p ≡ some p' → Step p p'
  animates : {p : ProgressReporter} (takes_tick : Bool) → Step p (animate takes_tick p)

pub data Reachable (label : Text) (total : ℕ) : ProgressReporter → Type 0 where
  created : Reachable label total (create_progress label total)
  steps : {p p' : ProgressReporter} → Reachable label total p → Step p p' → Reachable label total p'
