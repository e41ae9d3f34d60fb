-- ===== src/Ui/Note/Wrap.antt =====
-- internal/ui/note.go: wrapping loses no word, and a box that is too narrow for its title.
use multi_protocol_proxy.Prelude.{
  ℕ, zero, suc, ◌+◌, ◌≤◌, ◌<◌, Bool, true, false, List, [], ◌∷◌, ◌++◌, Option, none, some, leb, ltb,
  leb→le, str_eq, str_eq_iff, if◌then◌else◌, get_elem?, All, ◌≡◌, ◌≢◌, ◌⊎◌, ◌↔◌, refl, sym, ap, ◌∙◌,
  subst, arith, Bool-cases, Option-cases, inl, inr, append_assoc, append-nil,
}
use multi_protocol_proxy.Pac.{is_space, trim_space, trim_left, trim_right}
use multi_protocol_proxy.Ui.{Text, visible_width}
use multi_protocol_proxy.Ui.Note.{
  Styles, split_lines, fields_from, fields, joined_by_space, wrap_words, wrap_line,
  wrap_note_message, max_line_width, note_top, note,
}

-- Each text behind a space, one after the other.
abbrev pub spaced : List Text → Text
spaced [] = []
spaced (t ∷ ts) = 32 ∷ (t ++ spaced ts)

abbrev open_line : Text → List Text
open_line current = if str_eq current [] then [] else current ∷ []

spaced-append : (xs ys : List Text) → spaced (xs ++ ys) ≡ spaced xs ++ spaced ys
spaced-append [] ys = refl
spaced-append (x ∷ xs) ys =
    ap (λ t. 32 ∷ (x ++ t)) (spaced-append xs ys)
    ∙ ap (32 ∷◌) (sym (append_assoc x (spaced xs) (spaced ys)))

open_line-spaced : (w : Text) → str_eq w [] ≡ false → spaced (open_line w) ≡ 32 ∷ w
open_line-spaced w e = rw e (ap (32 ∷◌) (append-nil w))

closed_line :
    (lines : List Text) (current : Text)
    → spaced (if str_eq current [] then lines else lines ++ current ∷ [])
      ≡ spaced lines ++ spaced (open_line current)
closed_line lines current = elim (Bool-cases (str_eq current [])) [
  | inl e ↦ rw e (sym (append-nil (spaced lines)))
  | inr e ↦ rw e (spaced-append lines (current ∷ []))
]

candidate-spaced :
    (current word : Text)
    → str_eq word [] ≡ false
    → spaced (open_line (joined_by_space current word)) ≡ spaced (open_line current) ++ 32 ∷ word
unfolding str_eq
candidate-spaced [] word e = open_line-spaced word e
candidate-spaced (c ∷ cs) word e = simp (append_assoc, append-nil)

either :
    (b : Bool) (x y : List Text) (t : Text)
    → spaced x ≡ t
    → spaced y ≡ t
    → spaced (if b then x else y) ≡ t
either true x y t p q = p
either false x y t p q = q

wrap_words-spaced :
    (max_width : ℕ) (words lines : List Text) (current : Text)
    → All (λ w. str_eq w [] ≡ false) words
    → spaced (wrap_words max_width words lines current)
      ≡ spaced lines ++ (spaced (open_line current) ++ spaced words)
unfolding wrap_words
wrap_words-spaced max_width [] lines current h =
    closed_line lines current
    ∙ ap (spaced lines ++◌) (sym (append-nil (spaced (open_line current))))
wrap_words-spaced max_width (word ∷ words) lines current h =
    either (leb (visible_width (joined_by_space current word)) max_width) _ _ _
      (wrap_words-spaced max_width words lines (joined_by_space current word) h.1
        ∙ ap (λ t. spaced lines ++ (t ++ spaced words)) (candidate-spaced current word h.0)
        ∙ simp append_assoc)
      (wrap_words-spaced max_width words _ word h.1
        ∙ ap (λ t. t ++ (spaced (open_line word) ++ spaced words)) (closed_line lines current)
        ∙ ap (λ t. (spaced lines ++ spaced (open_line current)) ++ (t ++ spaced words))
            (open_line-spaced word h.0)
        ∙ append_assoc (spaced lines) (spaced (open_line current)) ((32 ∷ word) ++ spaced words))

fields_from-words : (word s : Text) → All (λ w. str_eq w [] ≡ false) (fields_from word s)
unfolding fields_from
fields_from-words word [] = elim (Bool-cases (str_eq word [])) [
  | inl e ↦ rw e tt
  | inr e ↦ rw e (e, tt)
]
fields_from-words word (c ∷ s) = elim (Bool-cases (is_space c)) [
  | inr on ↦ rw on (fields_from-words (word ++ c ∷ []) s)
  | inl apart ↦ elim (Bool-cases (str_eq word [])) [
    | inl e ↦ rw (apart, e) (fields_from-words [] s)
    | inr e ↦ rw (apart, e) (e, fields_from-words [] s)
  ]
]

append-nonempty : (word : Text) (c : ℕ) → str_eq (word ++ c ∷ []) [] ≡ false
unfolding str_eq
append-nonempty [] c = refl
append-nonempty (d ∷ word) c = refl

fields_from-some : (word s : Text) → str_eq word [] ≡ false → ¬ (fields_from word s ≡ [])
unfolding fields_from
fields_from-some word [] e h = cc (rw e at h)
fields_from-some word (c ∷ s) e h = elim (Bool-cases (is_space c)) [
  | inl apart ↦ cc (rw (apart, e) at h)
  | inr on ↦ fields_from-some (word ++ c ∷ []) s (append-nonempty word c) (rw on at h)
]

trim_left-blank : (s : Text) → fields s ≡ [] → trim_left s ≡ []
unfolding fields_from str_eq trim_left
trim_left-blank [] h = refl
trim_left-blank (c ∷ s) h = elim (Bool-cases (is_space c)) [
  | inl blank ↦ rw blank (trim_left-blank s (rw blank at h))
  | inr other ↦ absurd (fields_from-some (c ∷ []) s refl (rw other at h))
]

fields-some : (s : Text) → str_eq (trim_space s) [] ≡ false → ¬ (fields s ≡ [])
unfolding trim_space trim_right str_eq
fields-some s e h = cc (sym e ∙ ap (λ t. str_eq (trim_right t) []) (trim_left-blank s h))

wrap_line-words :
    (line : Text) (max_width : ℕ)
    → str_eq (trim_space line) [] ≡ false
    → wrap_line line max_width ≡ wrap_words max_width (fields line) [] []
unfolding wrap_line
wrap_line-words line max_width e = rw e (go (fields line) (fields-some line e))
  where
    go :
        (words : List Text)
        → ¬ (words ≡ [])
        → (elim words as (λ _. List Text) [
          | [] ↦ [] ∷ []
          | word ∷ words ↦ wrap_words max_width (word ∷ words) [] []
        ])
          ≡ wrap_words max_width words [] []
    go [] h = absurd (h refl)
    go (word ∷ words) h = refl

-- Wrapping a line that is not blank loses no word and changes none, and keeps their order: the
-- output lines, each behind a space, spell what the words of the line, each behind a space, spell.
pub wrap_line-spaced :
    (line : Text) (max_width : ℕ)
    → str_eq (trim_space line) [] ≡ false
    → spaced (wrap_line line max_width) ≡ spaced (fields line)
unfolding str_eq
wrap_line-spaced line max_width e =
    ap spaced (wrap_line-words line max_width e)
    ∙ wrap_words-spaced max_width (fields line) [] [] (fields_from-words [] line)

module _ (P : Text → Type 0) where
  snoc : (lines : List Text) (l : Text) → All P lines → P l → All P (lines ++ l ∷ [])
  snoc [] l h p = (p, tt)
  snoc (k ∷ lines) l h p = (h.0, snoc lines l h.1 p)

  closed-All :
      (lines : List Text) (current : Text)
      → All P lines
      → P current
      → All P (if str_eq current [] then lines else lines ++ current ∷ [])
  closed-All lines current h p = elim (Bool-cases (str_eq current [])) [
    | inl e ↦ rw e h
    | inr e ↦ rw e (snoc lines current h p)
  ]

  wrap_words-All :
      (max_width : ℕ) (words lines : List Text) (current : Text)
      → ((t : Text) → visible_width t ≤ max_width → P t)
      → All P words
      → All P lines
      → P current
      → All P (wrap_words max_width words lines current)
  unfolding wrap_words
  wrap_words-All max_width [] lines current fits ws ls p = closed-All lines current ls p
  wrap_words-All max_width (word ∷ words) lines current fits ws ls p =
      elim (Bool-cases (leb (visible_width (joined_by_space current word)) max_width)) [
        | inl short ↦ rw short (
            wrap_words-All max_width words lines (joined_by_space current word) fits ws.1 ls
              (fits (joined_by_space current word) (leb→le _ _ short)))
        | inr long ↦
            rw long
              (wrap_words-All max_width words _ word fits ws.1 (closed-All lines current ls p) ws.0)
      ]

abbrev pub IsWord : Text → List Text → Type 0
IsWord t words = (i : ℕ) × (get_elem? words i ≡ some t)

later : (w : Text) (ws vs : List Text) → All (λ t. IsWord t ws) vs → All (λ t. IsWord t (w ∷ ws)) vs
later w ws [] h = tt
later w ws (v ∷ vs) h = ((suc h.0.0, h.0.1), later w ws vs h.1)

all_words : (words : List Text) → All (λ t. IsWord t words) words
all_words [] = tt
all_words (w ∷ ws) = ((zero, refl), later w ws ws (all_words ws))

abbrev pub Fits : ℕ → List Text → Text → Type 0
Fits max_width words t = (visible_width t ≤ max_width) ⊎ IsWord t words

words-Fits :
    (max_width : ℕ) (words vs : List Text)
    → All (λ t. IsWord t words) vs
    → All (Fits max_width words) vs
words-Fits max_width words [] h = tt
words-Fits max_width words (v ∷ vs) h = (inr h.0, words-Fits max_width words vs h.1)

-- Each line that wrapping puts out is as narrow as is asked for, or is a single word of the line.
pub wrap_line-Fits :
    (line : Text) (max_width : ℕ)
    → str_eq (trim_space line) [] ≡ false
    → All (λ t. (visible_width t ≤ max_width) ⊎ IsWord t (fields line)) (wrap_line line max_width)
unfolding visible_width
wrap_line-Fits line max_width e =
    subst (All (Fits max_width (fields line))) (sym (wrap_line-words line max_width e)) (
      wrap_words-All (Fits max_width (fields line)) max_width (fields line) [] []
        (λ t fits. inl fits)
        (words-Fits max_width (fields line) (fields line) (all_words (fields line))) tt
        (inl (omega arith)))

wide-some : (title : Text) → 0 < visible_width title → title ≢ []
unfolding visible_width
wide-some title wide e =
    let still : 0 < visible_width [] = subst (λ t. 0 < visible_width t) e wide in
    omega (arith, still)

note_top-none :
    (st : Styles) (title : Text) (widest : ℕ)
    → (note_top st title (widest + 4) ≡ none) ↔ ((title ≢ []) × (widest < visible_width title))
unfolding note_top
note_top-none st title widest = ground (arith, str_eq_iff title [])

max_line_width-lt :
    (lines : List Text) (widest w : ℕ)
    → (max_line_width lines widest < w)
      ↔ ((widest < w) × All (λ line. visible_width line < w) lines)
unfolding max_line_width
max_line_width-lt [] widest w = (λ h. (h, tt), λ h. h.0)
max_line_width-lt (line ∷ lines) widest w =
    let later = max_line_width-lt lines (if ltb widest v then v else widest) w in
    (
      λ h.
          let (some_widest, all) = later.0 h in
          (ground (arith, some_widest), (ground (arith, some_widest), all)),
      λ h. later.1 (ground (arith, h.0, h.1.0), h.1.1),
    )
  where
    v : ℕ
    v = visible_width line

-- `Note` panics, in place of printing its box, exactly if its title takes up some width and each line
-- of the wrapped message is narrower than the title.
pub note-none_iff :
    (st : Styles) (sscanf : Text → Option ℕ) (columns : Option Text) (message title : Text)
    → (note st sscanf columns message title ≡ none) ↔ (
        (0 < visible_width title)
        × All
            (λ line. visible_width line < visible_width title)
            (split_lines (wrap_note_message sscanf columns message 80)))
unfolding note
note-none_iff st sscanf columns message title =
    let lines = split_lines (wrap_note_message sscanf columns message 80) in
    let widest = max_line_width lines 0 in
    let top = note_top-none st title widest in
    let all = max_line_width-lt lines 0 (visible_width title) in
    elim (Option-cases (note_top st title (widest + 4))) [
      | inl dead ↦ (λ _. all.0 (top.0 dead).1, λ _. rw (dead, note) refl)
      | inr (line, alive) ↦
          (λ e. cc (rw (alive, note) at e), λ h. cc (top.1 (wide-some title h.0, all.1 h), alive))
    ]
