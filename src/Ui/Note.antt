-- ===== src/Ui/Note.antt =====
-- internal/ui/note.go: messages in a box. Styles are parameters: the functions of theme.go only call
-- the colour package, and so is `fmt.Sscanf`.
pub mod Wrap
use mathlib.Core.Option
use multi_protocol_proxy.Prelude.{
  ℕ, zero, suc, ◌+◌, ◌-◌, Bool, true, false, not, List, [], ◌∷◌, ◌++◌, Option, none, some, codes,
  leb, ltb, ◌==◌, positive, str_eq, if◌then◌else◌, map,
}
use multi_protocol_proxy.Pac.{is_space, trim_space}
use multi_protocol_proxy.Ui.Ansi.{Text, visible_width, spaces}
use multi_protocol_proxy.Ui.Table.{repeat, join}

pub record Styles : Type 0 where
  -- `IsRich`
  pub rich : Bool
  pub muted : Text → Text
  pub heading : Text → Text
  pub primary : Text → Text

-- `strings.Split(s, "\n")`
abbrev pub put : ℕ → List Text → List Text
put c [] = (c ∷ []) ∷ []
put c (l ∷ ls) = (c ∷ l) ∷ ls

unfoldable pub split_lines : Text → List Text
split_lines [] = [] ∷ []
split_lines (c ∷ s) = let rest = split_lines s in if c == 10 then [] ∷ rest else put c rest

-- `strings.Fields` on ASCII: `word` is what has been read of a word.
unfoldable pub fields_from : Text → Text → List Text
fields_from word [] = if str_eq word [] then [] else word ∷ []
fields_from word (c ∷ s) =
    let apart = fields_from [] s in
    let on = fields_from (word ++ c ∷ []) s in
    if is_space c then (if str_eq word [] then apart else word ∷ apart) else on

abbrev pub fields : Text → List Text
fields s = fields_from [] s

abbrev pub joined_by_space : Text → Text → Text
joined_by_space current word = (if str_eq current [] then current else current ++ codes " ") ++ word

-- The loop of `wrapLine` over the words.
unfoldable pub wrap_words : ℕ → List Text → List Text → Text → List Text
unfolding visible_width
wrap_words max_width [] lines current = if str_eq current [] then lines else lines ++ current ∷ []
wrap_words max_width (word ∷ words) lines current =
    let candidate = joined_by_space current word in
    let same_line = wrap_words max_width words lines candidate in
    let next_line =
      wrap_words max_width words (if str_eq current [] then lines else lines ++ current ∷ [])
        word in
    if leb (visible_width candidate) max_width then same_line else next_line

unfoldable pub wrap_line : Text → ℕ → List Text
unfolding wrap_words fields_from
wrap_line line max_width = if str_eq (trim_space line) [] then line ∷ [] else elim (fields line) [
  | [] ↦ [] ∷ []
  | word ∷ words ↦ wrap_words max_width (word ∷ words) [] []
]

-- The width to wrap at: `columns` is the variable COLUMNS.
unfoldable pub note_width : (Text → Option ℕ) → Option Text → ℕ → ℕ
note_width sscanf columns max_width =
    let n : ℕ = elim columns [ none ↦ 80 | some term ↦ Option.get_or (sscanf term) 80 ] in
    let width = (if positive n then n else 80) - 10 in
    let width = if ltb max_width width then max_width else width in
    if ltb width 40 then 40 else width

unfoldable pub wrap_all : List Text → ℕ → List Text
unfolding wrap_line
wrap_all [] width = []
wrap_all (line ∷ lines) width = wrap_line line width ++ wrap_all lines width

unfoldable pub wrap_note_message : (Text → Option ℕ) → Option Text → Text → ℕ → Text
unfolding note_width split_lines wrap_all join
wrap_note_message sscanf columns message max_width =
    join (10 ∷ []) (wrap_all (split_lines message) (note_width sscanf columns max_width))

unfoldable pub max_line_width : List Text → ℕ → ℕ
unfolding visible_width
max_line_width [] widest = widest
max_line_width (line ∷ lines) widest =
    let w = visible_width line in max_line_width lines (if ltb widest w then w else widest)

abbrev horizontal : ℕ
horizontal = 9472

-- The line above the text: `none` is the panic of `strings.Repeat` with a negative count.
unfoldable pub note_top : Styles → Text → ℕ → Option Text
unfolding visible_width repeat
note_top st title box_width =
    if str_eq title []
    then some (st.muted (9581 ∷ (repeat horizontal box_width ++ 9582 ∷ [])))
    else if ltb (box_width - 4) (visible_width title)
    then none
    else some (
        st.muted (9581 ∷ [])
        ++ (st.muted (repeat horizontal 2)
            ++ (codes " "
                ++ ((if st.rich then st.heading title else title)
                    ++ (codes " "
                        ++ (st.muted (repeat horizontal (box_width - 4 - visible_width title))
                            ++ st.muted (9582 ∷ [])))))))

unfoldable pub note_line : Styles → ℕ → Text → Text
unfolding visible_width spaces
note_line st box_width line =
    st.muted (9474 ∷ [])
    ++ (codes " "
        ++ (line
            ++ (spaces (box_width - visible_width line - 2)
                ++ (codes " " ++ st.muted (9474 ∷ [])))))

-- What `Note` prints between two empty lines; `none` is the panic, behind the first of these lines.
unfoldable pub note : Styles → (Text → Option ℕ) → Option Text → Text → Text → Option (List Text)
unfolding wrap_note_message split_lines max_line_width note_top note_line
note st sscanf columns message title =
    let lines = split_lines (wrap_note_message sscanf columns message 80) in
    let box_width = max_line_width lines 0 + 4 in
    elim (note_top st title box_width) [
      | none ↦ none
      | some top ↦ some (
          top
          ∷ (map (note_line st box_width) lines
              ++ st.muted (9584 ∷ (repeat horizontal box_width ++ 9583 ∷ [])) ∷ []))
    ]

unfoldable pub warning_note : Styles → (Text → Option ℕ) → Option Text → Text → Option (List Text)
unfolding note
warning_note st sscanf columns message = note st sscanf columns message (9888 ∷ codes " Warning")
