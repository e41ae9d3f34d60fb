-- ===== src/Ui/Lines.antt =====
-- internal/ui: what progress.go prints, the notes of note.go by their titles, `FormatURLWithStyle` of
-- links.go and `RenderSimpleTable` of table.go.
use multi_protocol_proxy.Prelude.{
  ℕ, ◌+◌, ◌<◌, Bool, true, List, [], ◌∷◌, ◌++◌, Option, none, some, is_some, codes, ltb, map,
  length, get_elem?, get_elem?_total, if◌then◌else◌, ◌≡◌, refl,
}
use multi_protocol_proxy.Decimal.{itoa}
use multi_protocol_proxy.Ui.{Text, Terminal, format_terminal_link, pad_right}
use multi_protocol_proxy.Ui.Log.{byte_len}
use multi_protocol_proxy.Ui.Note.{note}
use multi_protocol_proxy.Ui.Progress.{
  ProgressReporter, spinner_frames, create_progress, render_progress_bar, finish, Reachable,
}
use multi_protocol_proxy.Ui.Progress.Bounded.{Reachable-IsBounded, Reachable-finish}
use multi_protocol_proxy.Ui.Table.{join}
use multi_protocol_proxy.Ui.Theme.{
  Colors, is_rich, accent, muted, primary, secondary, subtle, styles,
}

unfoldable pub info_note : Colors → (Text → Option ℕ) → Option Text → Text → Option (List Text)
unfolding note
info_note c sscanf columns message = note (styles c) sscanf columns message (codes "ℹ Info")

unfoldable pub error_note : Colors → (Text → Option ℕ) → Option Text → Text → Option (List Text)
unfolding note
error_note c sscanf columns message = note (styles c) sscanf columns message (codes "✗ Error")

unfoldable pub success_note : Colors → (Text → Option ℕ) → Option Text → Text → Option (List Text)
unfolding note
success_note c sscanf columns message = note (styles c) sscanf columns message (codes "✓ Success")

unfoldable pub format_url_with_style : Colors → Terminal → Text → Text → Text
unfolding format_terminal_link is_rich
format_url_with_style c t label url =
    let link = format_terminal_link t label url in if is_rich c then secondary c link else link

-- The widest key, in bytes.
unfoldable pub max_key : ℕ → List (Text × Text) → ℕ
unfolding byte_len
max_key widest [] = widest
max_key widest ((k, v) ∷ data') =
    max_key (if ltb widest (byte_len k) then byte_len k else widest) data'

-- `RenderSimpleTable`, with the entries of the map in the order of its loop.
unfoldable pub render_simple_table : Colors → List (Text × Text) → Text
unfolding max_key pad_right
render_simple_table c data' = join (10 ∷ []) (
    map
      (λ (k, v).
        codes "  "
        ++ (muted c (pad_right (k ++ codes ":") (max_key 0 data' + 1))
            ++ (codes "  " ++ subtle c v)))
      data')

-- The text of a bar, "█" for a place that is filled and "░" for another.
unfoldable pub bar_text : Colors → List Bool → Text
unfolding is_rich
bar_text c places =
    let text = map (λ filled. if filled then 9608 else 9617) places in
    if is_rich c then accent c text else text

-- `render`: it clears the line and prints the spinner, the label and the bar. `none` where the index
-- of the frame is out of range.
unfoldable pub render : Colors → ProgressReporter → Option Text
unfolding is_rich bar_text render_progress_bar
render c p = elim (get_elem? spinner_frames p.frame) [
  | none ↦ none
  | some frame ↦
      let spinner = if is_rich c then primary c (frame ∷ []) else frame ∷ [] in
      let label = codes "  " ++ (spinner ++ (codes " " ++ subtle c p.label)) in
      some (
        13 ∷ 27 ∷ codes "[K"
        ++ (label
            ++ (if ltb 0 p.total
                then codes " "
                  ++ (bar_text c (render_progress_bar p.percent 20)
                      ++ (codes " " ++ (itoa p.percent ++ codes "%")))
                else [])))
]

-- `WithProgress` on a terminal: the reporter behind the deferred `Done`, `none` if that panics, and
-- the error of `fn`. `fn` gives the reporter as it and the animation leave it.
unfoldable pub with_progress {ℓ} :
    {E : Type ℓ}
    → Text
    → ℕ
    → (ProgressReporter → ProgressReporter × Option E)
    → Option ProgressReporter × Option E
unfolding finish
with_progress label total fn = let (p, err) = fn (create_progress label total) in (finish p, err)

-- `Spinner`
abbrev pub spinner : Text → ProgressReporter
spinner label = create_progress label 0

-- Whatever has been called, the animation finds its frame.
pub Reachable-render :
    (c : Colors) {label : Text} {total : ℕ} {p : ProgressReporter}
    → Reachable label total p
    → is_some (render c p) ≡ true
unfolding render
Reachable-render c {p = p} r =
    let inside : p.frame < length spinner_frames = (Reachable-IsBounded r).frame in
    let (frame, there) = get_elem?_total spinner_frames p.frame inside in rw there refl

-- Whatever a function does with the reporter that it is given, `WithProgress` returns its error, and
-- leaves the line done.
pub with_progress-done {ℓ} :
    {E : Type ℓ} (label : Text) (total : ℕ) (fn : ProgressReporter → ProgressReporter × Option E)
    → Reachable label total (fn (create_progress label total)).0
    → ((p : ProgressReporter) × ((with_progress label total fn).0 ≡ some p) × (p.done ≡ true))
      × ((with_progress label total fn).1 ≡ (fn (create_progress label total)).1)
unfolding with_progress
with_progress-done label total fn r = (Reachable-finish r, refl)
