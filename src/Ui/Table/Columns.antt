-- ===== src/Ui/Table/Columns.antt =====
-- internal/ui/table.go: the width of a table's cells and columns.
use multi_protocol_proxy.Prelude.{
  ℕ, zero, suc, ◌+◌, ◌-◌, ◌/◌, ◌≤◌, Bool, true, false, List, [], ◌∷◌, ◌++◌, leb, ltb, ◌==◌,
  if◌then◌else◌, map, length, All, ◌≡◌, ◌≢◌, refl, ap, ◌∙◌, arith, Bool-cases, inl, inr,
}
use multi_protocol_proxy.Ui.{Text, esc, visible_width, spaces}
use multi_protocol_proxy.Ui.Width.{
  IsPlain, IsWhole, IsPlain-IsWhole, append-IsWhole, visible_width-append, visible_width-IsPlain,
  visible_width-spaces, spaces-IsWhole,
}
use multi_protocol_proxy.Ui.Table.{
  Align, align_left, align_right, align_center, TableColumn, TableBorder, border_unicode,
  border_ascii, border_none, Row, RenderTableOptions, BoxChars, box_of, cell, repeat, join,
  max_cell_width, column_width, content_width, aligned, pad_cell, render_cell,
}

-- A text that leaves no sequence open and is `n` wide.
pub record Takes (n : ℕ) (s : Text) : Type 0 where
  pub whole : IsWhole s
  pub wide : visible_width s ≡ n

pub Takes-append : (m n : ℕ) (s t : Text) → Takes m s → Takes n t → Takes (m + n) (s ++ t)
Takes-append m n s t p q = record {
  whole = append-IsWhole s t p.whole q.whole;
  wide = visible_width-append s t p.whole ∙ omega (arith, p.wide, q.wide);
}

Takes-spaces : (n : ℕ) → Takes n (spaces n)
Takes-spaces n = record { whole = spaces-IsWhole n; wide = visible_width-spaces n }

pub Takes-plain : (s : Text) → IsPlain s → Takes (length s) s
Takes-plain s p = record { whole = IsPlain-IsWhole s p; wide = visible_width-IsPlain s p }

pub Takes-same : (m n : ℕ) (s : Text) → m ≡ n → Takes m s → Takes n s
Takes-same m n s e p = record { whole = p.whole; wide = p.wide ∙ e }

aligned-Takes : (a : Align) (s : Text) (m pad : ℕ) → Takes m s → Takes (m + pad) (aligned a s pad)
unfolding aligned
aligned-Takes align_left s m pad p = Takes-append m pad s (spaces pad) p (Takes-spaces pad)
aligned-Takes align_right s m pad p =
    Takes-same _ _ _ (omega arith) (Takes-append pad m (spaces pad) s (Takes-spaces pad) p)
aligned-Takes align_center s m pad p = Takes-same _ _ _ (omega arith) (
    Takes-append (pad / 2) _ (spaces (pad / 2)) _ (Takes-spaces (pad / 2))
      (Takes-append m (pad - pad / 2) s (spaces (pad - pad / 2)) p (Takes-spaces _)))

-- A cell that is not wider than its column fills it.
pad_cell-Takes :
    (s : Text) (m width : ℕ) (a : Align) → Takes m s → m ≤ width → Takes width (pad_cell s width a)
unfolding pad_cell
pad_cell-Takes s m width a p h = elim (Bool-cases (leb width (visible_width s))) [
  | inl full ↦ rw full (Takes-same m width s (ground (arith, p.wide)) p)
  | inr room ↦
      rw room (
        Takes-same _ _ _ (ground (arith, p.wide)) (aligned-Takes a s m (width - visible_width s) p))
]

-- The width of parts that are joined by one character each.
unfoldable pub joined : List ℕ → ℕ
joined [] = 0
joined (w ∷ []) = w
joined (w ∷ v ∷ ws) = w + (1 + joined (v ∷ ws))

pub join-Takes :
    (sep : ℕ) (f : TableColumn → Text) (w : TableColumn → ℕ) (cols : List TableColumn)
    → sep ≢ esc
    → All (λ c. Takes (w c) (f c)) cols
    → Takes (joined (map w cols)) (join (sep ∷ []) (map f cols))
unfolding joined join
join-Takes sep f w [] h p = Takes-plain [] tt
join-Takes sep f w (c ∷ []) h p = p.0
join-Takes sep f w (c ∷ d ∷ cols) h p = Takes-append (w c) _ (f c) _ p.0 (
    Takes-append 1 _ (sep ∷ []) _ (Takes-plain (sep ∷ []) (h, tt))
      (join-Takes sep f w (d ∷ cols) h p.1))

pub repeat-IsPlain : (c n : ℕ) → c ≢ esc → IsPlain (repeat c n)
unfolding repeat
repeat-IsPlain c zero h = tt
repeat-IsPlain c (suc n) h = (h, repeat-IsPlain c n h)

pub length-repeat : (c n : ℕ) → length (repeat c n) ≡ n
unfolding repeat
length-repeat c zero = refl
length-repeat c (suc n) = ap suc (length-repeat c n)

max_cell_width-ge : (key : Text) (rows : List Row) (w : ℕ) → w ≤ max_cell_width key rows w
unfolding max_cell_width
max_cell_width-ge key [] w = omega arith
max_cell_width-ge key (row ∷ rows) w = ground (
  arith,
  max_cell_width-ge key rows
      (if ltb w (visible_width (cell key row)) then visible_width (cell key row) else w),
)

pub max_cell_width-All :
    (key : Text) (rows : List Row) (w : ℕ)
    → All (λ row. visible_width (cell key row) ≤ max_cell_width key rows w) rows
unfolding max_cell_width
max_cell_width-All key [] w = tt
max_cell_width-All key (row ∷ rows) w =
    let next = if ltb w (visible_width (cell key row)) then visible_width (cell key row) else w in
    (ground (arith, max_cell_width-ge key rows next), max_cell_width-All key rows next)

-- Without a greatest width a column has room for its header, for its widest cell and for three
-- characters.
pub column_width-fits :
    (opts : RenderTableOptions) (col : TableColumn)
    → col.max_width ≡ 0
    → opts.padding ≤ 1
    → (opts.padding + (content_width opts col + opts.padding) ≡ column_width opts col)
      × (visible_width col.header ≤ content_width opts col)
      × (max_cell_width col.key opts.rows 0 ≤ content_width opts col)
unfolding content_width column_width
column_width-fits opts col free slim = ground arith

pub render_cell-Takes :
    (opts : RenderTableOptions) (values : TableColumn → Text) (col : TableColumn)
    → col.max_width ≡ 0
    → opts.padding ≤ 1
    → IsWhole (values col)
    → visible_width (values col) ≤ content_width opts col
    → Takes (column_width opts col) (render_cell opts values col)
unfolding render_cell
render_cell-Takes opts values col free slim whole fits =
    let p = opts.padding in
    Takes-same _ _ _ (column_width-fits opts col free slim).0 (
      Takes-append p _ (spaces p) _ (Takes-spaces p) (
        Takes-append (content_width opts col) p _ (spaces p)
          (pad_cell-Takes (values col) _ (content_width opts col) col.align
            (record { whole = whole; wide = refl }) fits)
          (Takes-spaces p)))

-- No character of a box is the escape character.
unfoldable pub has_esc : Text → Bool
has_esc [] = false
has_esc (c ∷ s) = if c == esc then true else has_esc s

pub has_esc-IsPlain : (s : Text) → has_esc s ≡ false → IsPlain s
unfolding has_esc
has_esc-IsPlain [] e = tt
has_esc-IsPlain (c ∷ s) e = (λ same. ground arith, has_esc-IsPlain s (ground arith))

abbrev pub chars : BoxChars → Text
chars x = x.h ∷ x.v ∷ x.t ∷ x.m ∷ x.b ∷ x.tl ∷ x.tr ∷ x.ml ∷ x.mr ∷ x.bl ∷ x.br ∷ []

pub box_of-IsPlain : (b : TableBorder) → IsPlain (chars (box_of b))
unfolding has_esc
box_of-IsPlain border_unicode = has_esc-IsPlain (chars (box_of border_unicode)) refl
box_of-IsPlain border_ascii = has_esc-IsPlain (chars (box_of border_ascii)) refl
box_of-IsPlain border_none = has_esc-IsPlain (chars (box_of border_none)) refl
