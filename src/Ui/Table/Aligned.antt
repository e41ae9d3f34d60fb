-- ===== src/Ui/Table/Aligned.antt =====
-- internal/ui/table.go: the lines of a table are equally wide.
use multi_protocol_proxy.Prelude.{ℕ, ◌+◌, ◌≤◌, List, [], ◌∷◌, ◌++◌, map, All, ◌≡◌, ◌≢◌, arith}
use multi_protocol_proxy.Ui.{Text, esc, visible_width}
use multi_protocol_proxy.Ui.Width.{IsWhole}
use multi_protocol_proxy.Ui.Table.{
  TableColumn, TableBorder, border_unicode, border_ascii, border_none, Row, RenderTableOptions,
  box_of, cell, max_cell_width, column_width, content_width, h_line, render_cell, render_row, ruled,
  table_lines,
}
use multi_protocol_proxy.Ui.Table.Columns.{
  Takes, Takes-append, Takes-same, Takes-plain, joined, join-Takes, repeat-IsPlain, length-repeat,
  max_cell_width-All, column_width-fits, render_cell-Takes, box_of-IsPlain,
}

abbrev pub line_width : RenderTableOptions → ℕ
line_width opts = 1 + (joined (map (column_width opts) opts.columns) + 1)

enclosed-Takes :
    (l r n : ℕ) (s : Text) → l ≢ esc → r ≢ esc → Takes n s → Takes (1 + (n + 1)) (l ∷ (s ++ r ∷ []))
enclosed-Takes l r n s h k p =
    Takes-append 1 _ (l ∷ []) _ (Takes-plain (l ∷ []) (h, tt))
      (Takes-append n 1 s (r ∷ []) p (Takes-plain (r ∷ []) (k, tt)))

module _ {ℓ κ} {A : Type ℓ} where
  All-map :
      {B : Type κ} (P : B → Type 0) (f : A → B) (xs : List A)
      → All (λ a. P (f a)) xs
      → All P (map f xs)
  All-map P f [] h = tt
  All-map P f (x ∷ xs) h = (h.0, All-map P f xs h.1)

  All-every : (P : A → Type κ) (xs : List A) → ((a : A) → P a) → All P xs
  All-every P [] h = tt
  All-every P (x ∷ xs) h = (h x, All-every P xs h)

All-swap :
    (P : Text → Row → Type 0) (rows : List Row)
    → ((key : Text) → All (P key) rows)
    → All (λ row. (key : Text) → P key row) rows
All-swap P [] h = tt
All-swap P (row ∷ rows) h = (λ key. (h key).0, All-swap P rows (λ key. (h key).1))

h_line-Takes :
    (opts : RenderTableOptions) (left mid right : ℕ)
    → left ≢ esc
    → mid ≢ esc
    → right ≢ esc
    → Takes (line_width opts) (h_line opts left mid right)
unfolding h_line
h_line-Takes opts left mid right l m r = enclosed-Takes left right _ _ l r (
    join-Takes mid _ (column_width opts) opts.columns m (
      All-every _ opts.columns (λ col. Takes-same _ _ _ (length-repeat _ (column_width opts col)) (
        Takes-plain _ (
          repeat-IsPlain (box_of opts.border).h (column_width opts col)
            (box_of-IsPlain opts.border).0)))))

render_row-Takes :
    (opts : RenderTableOptions) (values : TableColumn → Text)
    → opts.padding ≤ 1
    → All
        (λ col.
          (col.max_width ≡ 0)
          × IsWhole (values col)
          × (visible_width (values col) ≤ content_width opts col))
        opts.columns
    → Takes (line_width opts) (render_row opts values)
unfolding render_row
render_row-Takes opts values slim fit =
    let v = (box_of-IsPlain opts.border).1.0 in
    enclosed-Takes _ _ _ _ v v (
      join-Takes _ (render_cell opts values) (column_width opts) opts.columns v
        (cells opts.columns fit))
  where
    cells :
        (cols : List TableColumn)
        → All
            (λ col.
              (col.max_width ≡ 0)
              × IsWhole (values col)
              × (visible_width (values col) ≤ content_width opts col))
            cols
        → All (λ col. Takes (column_width opts col) (render_cell opts values col)) cols
    cells [] f = tt
    cells (col ∷ cols) f =
        (render_cell-Takes opts values col f.0.0 slim f.0.1 f.0.2, cells cols f.1)

-- The columns have no greatest width, and no header or cell leaves an escape sequence open.
pub record IsRenderable (opts : RenderTableOptions) : Type 0 where
  pub slim : opts.padding ≤ 1
  pub columns : All (λ col. (col.max_width ≡ 0) × IsWhole col.header) opts.columns
  pub cells : All (λ row. (key : Text) → IsWhole (cell key row)) opts.rows

IsLine : RenderTableOptions → Text → Type 0
IsLine opts l = visible_width l ≡ line_width opts

header_row :
    (opts : RenderTableOptions)
    → IsRenderable opts
    → IsLine opts (render_row opts (λ col. col.header))
unfolding IsLine
header_row opts r =
    (render_row-Takes opts (λ col. col.header) r.slim (fit opts.columns r.columns)).wide
  where
    fit :
        (cols : List TableColumn)
        → All (λ col. (col.max_width ≡ 0) × IsWhole col.header) cols
        → All
            (λ col.
              (col.max_width ≡ 0)
              × IsWhole col.header
              × (visible_width col.header ≤ content_width opts col))
            cols
    fit [] h = tt
    fit (col ∷ cols) h = ((h.0.0, h.0.1, (column_width-fits opts col h.0.0 r.slim).1), fit cols h.1)

body_rows :
    (opts : RenderTableOptions)
    → IsRenderable opts
    → All (λ row. IsLine opts (render_row opts (λ col. cell col.key row))) opts.rows
unfolding IsLine
body_rows opts r = every opts.rows r.cells (
    All-swap (λ key row. visible_width (cell key row) ≤ max_cell_width key opts.rows 0) opts.rows
      (λ key. max_cell_width-All key opts.rows 0))
  where
    fit :
        (row : Row)
        → ((key : Text) → IsWhole (cell key row))
        → ((key : Text) → visible_width (cell key row) ≤ max_cell_width key opts.rows 0)
        → (cols : List TableColumn) → All (λ col. (col.max_width ≡ 0) × IsWhole col.header) cols
        → All
            (λ col.
              (col.max_width ≡ 0)
              × IsWhole (cell col.key row)
              × (visible_width (cell col.key row) ≤ content_width opts col))
            cols
    fit row whole small [] h = tt
    fit row whole small (col ∷ cols) h =
        let fits = (column_width-fits opts col h.0.0 r.slim).2 in
        ((h.0.0, whole col.key, omega (arith, fits, small col.key)), fit row whole small cols h.1)

    every :
        (rows : List Row)
        → All (λ row. (key : Text) → IsWhole (cell key row)) rows
        → All
            (λ row. (key : Text) → visible_width (cell key row) ≤ max_cell_width key opts.rows 0)
            rows
        → All
            (λ row. visible_width (render_row opts (λ col. cell col.key row)) ≡ line_width opts)
            rows
    every [] w small = tt
    every (row ∷ rows) w small = (
      (render_row-Takes opts (λ col. cell col.key row) r.slim
          (fit row w.0 small.0 opts.columns r.columns)).wide,
      every rows w.1 small.1,
    )

append-All : (P : Text → Type 0) (xs ys : List Text) → All P xs → All P ys → All P (xs ++ ys)
append-All P [] ys p q = q
append-All P (x ∷ xs) ys p q = (p.0, append-All P xs ys p.1 q)

ruled-IsLine :
    (opts : RenderTableOptions) (l : Text) → IsLine opts l → All (IsLine opts) (ruled opts.border l)
ruled-IsLine opts l p = go opts.border
  where
    go : (b : TableBorder) → All (IsLine opts) (ruled b l)
    go border_none = tt
    go border_unicode = (p, tt)
    go border_ascii = (p, tt)

-- All lines of a table, borders included, are equally wide on the terminal, if no column has a
-- greatest width, the padding is at most 1, and no header or cell leaves an escape sequence open.
pub table_lines-line_width :
    (opts : RenderTableOptions)
    → IsRenderable opts
    → All (λ l. visible_width l ≡ line_width opts) (table_lines opts)
unfolding table_lines IsLine
table_lines-line_width opts r =
    let box = box_of-IsPlain opts.border in
    append-All (IsLine opts) _ _
      (ruled-IsLine opts _
        (h_line-Takes opts _ _ _ box.1.1.1.1.1.0 box.1.1.0 box.1.1.1.1.1.1.0).wide)
      (
        header_row opts r,
        append-All (IsLine opts) _ _
            (ruled-IsLine opts _
              (h_line-Takes opts _ _ _ box.1.1.1.1.1.1.1.0 box.1.1.1.0 box.1.1.1.1.1.1.1.1.0).wide)
            (append-All (IsLine opts) _ _
              (All-map (IsLine opts) (λ row. render_row opts (λ col. cell col.key row)) opts.rows
                (body_rows opts r))
              (ruled-IsLine opts _
                (h_line-Takes opts _ _ _ box.1.1.1.1.1.1.1.1.1.0 box.1.1.1.1.0
                  box.1.1.1.1.1.1.1.1.1.1.0).wide)),
      )
