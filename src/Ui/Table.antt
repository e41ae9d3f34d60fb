-- ===== src/Ui/Table.antt =====
-- internal/ui/table.go: tables on the terminal. Widths and paddings below 0 are left out.
pub mod Columns
pub mod Aligned
use mathlib.Core.Option
use multi_protocol_proxy.Prelude.{
  ℕ, zero, suc, ◌+◌, ◌-◌, ◌*◌, ◌/◌, Bool, true, false, ◌&&◌, List, [], ◌∷◌, ◌++◌, Option, none,
  some, codes, leb, ltb, ◌==◌, if◌then◌else◌, Map, lookup, map,
}
use multi_protocol_proxy.Ui.Ansi.{Text, visible_width, spaces}

pub data Align : Type 0 where
  align_left align_right align_center : Align

pub record TableColumn : Type 0 where
  pub key : Text
  pub header : Text
  pub align : Align
  pub min_width : ℕ
  pub max_width : ℕ

pub data TableBorder : Type 0 where
  border_unicode border_ascii border_none : TableBorder

abbrev pub Row : Type 0
Row = Map Text

pub record RenderTableOptions : Type 0 where
  pub columns : List TableColumn
  pub rows : List Row
  pub border : TableBorder
  pub padding : ℕ

-- Each is one character: corners, lines, and where lines meet.
pub record BoxChars : Type 0 where
  pub tl : ℕ
  pub tr : ℕ
  pub bl : ℕ
  pub br : ℕ
  pub h : ℕ
  pub v : ℕ
  pub t : ℕ
  pub ml : ℕ
  pub m : ℕ
  pub mr : ℕ
  pub b : ℕ

abbrev unicode_box : BoxChars
unicode_box = record {
  tl = 9484;
  tr = 9488;
  bl = 9492;
  br = 9496;
  h = 9472;
  v = 9474;
  t = 9516;
  ml = 9500;
  m = 9532;
  mr = 9508;
  b = 9524;
}

abbrev ascii_box : BoxChars
ascii_box = record {
  tl = b'+';
  tr = b'+';
  bl = b'+';
  br = b'+';
  h = b'-';
  v = b'|';
  t = b'+';
  ml = b'+';
  m = b'+';
  mr = b'+';
  b = b'+';
}

abbrev pub box_of : TableBorder → BoxChars
box_of border_ascii = ascii_box
box_of _ = unicode_box

-- `row[key]`
unfoldable pub cell : Text → Row → Text
cell key row = Option.get_or (lookup key row) []

-- `strings.Repeat` of one character, and `strings.Join`
unfoldable pub repeat : ℕ → ℕ → Text
repeat c zero = []
repeat c (suc n) = c ∷ repeat c n

unfoldable pub join : Text → List Text → Text
join sep [] = []
join sep (part ∷ []) = part
join sep (part ∷ next ∷ parts) = part ++ (sep ++ join sep (next ∷ parts))

-- The loop over the rows that finds the widest cell.
unfoldable pub max_cell_width : Text → List Row → ℕ → ℕ
unfolding cell visible_width
max_cell_width key [] widest = widest
max_cell_width key (row ∷ rows) widest =
    let w = visible_width (cell key row) in
    max_cell_width key rows (if ltb widest w then w else widest)

-- An entry of `widths`.
unfoldable pub column_width : RenderTableOptions → TableColumn → ℕ
unfolding max_cell_width
column_width opts col =
    let header_w = visible_width col.header in
    let max_cell_w = max_cell_width col.key opts.rows 0 in
    let base = (if ltb header_w max_cell_w then max_cell_w else header_w) + opts.padding * 2 in
    let base = if ltb 0 col.max_width && ltb col.max_width base then col.max_width else base in
    let min_w = if ltb col.min_width 3 then 3 else col.min_width in
    if ltb base min_w then min_w else base

unfoldable pub content_width : RenderTableOptions → TableColumn → ℕ
unfolding column_width
content_width opts col =
    let w = column_width opts col - opts.padding * 2 in if ltb w 1 then 1 else w

unfoldable pub aligned : Align → Text → ℕ → Text
unfolding spaces
aligned align_right text pad = spaces pad ++ text
aligned align_center text pad = spaces (pad / 2) ++ (text ++ spaces (pad - pad / 2))
aligned align_left text pad = text ++ spaces pad

unfoldable pub pad_cell : Text → ℕ → Align → Text
unfolding aligned visible_width
pad_cell text width align =
    let w = visible_width text in if leb width w then text else aligned align text (width - w)

unfoldable pub h_line : RenderTableOptions → ℕ → ℕ → ℕ → Text
unfolding join repeat column_width
h_line opts left mid right =
    left
    ∷ (join (mid ∷ [])
          (map (λ col. repeat (box_of opts.border).h (column_width opts col)) opts.columns)
        ++ right ∷ [])

unfoldable pub render_cell : RenderTableOptions → (TableColumn → Text) → TableColumn → Text
unfolding pad_cell content_width
render_cell opts values col =
    spaces opts.padding
    ++ (pad_cell (values col) (content_width opts col) col.align ++ spaces opts.padding)

-- `values` gives what stands in each column.
unfoldable pub render_row : RenderTableOptions → (TableColumn → Text) → Text
unfolding join render_cell
render_row opts values =
    let v = (box_of opts.border).v in
    v ∷ (join (v ∷ []) (map (render_cell opts values) opts.columns) ++ v ∷ [])

-- A line that only a table with a border has.
abbrev pub ruled : TableBorder → Text → List Text
ruled border_none line = []
ruled _ line = line ∷ []

-- A padding of 0 stands for 1.
unfoldable pub defaulted : RenderTableOptions → RenderTableOptions
defaulted opts = if opts.padding == 0 then record opts { padding = 1 } else opts

unfoldable pub table_lines : RenderTableOptions → List Text
unfolding h_line render_row cell
table_lines opts =
    let box = box_of opts.border in
    ruled opts.border (h_line opts box.tl box.t box.tr)
    ++ (render_row opts (λ col. col.header)
        ∷ (ruled opts.border (h_line opts box.ml box.m box.mr)
            ++ (map (λ row. render_row opts (λ col. cell col.key row)) opts.rows
                ++ ruled opts.border (h_line opts box.bl box.b box.br))))

unfoldable pub render_table : RenderTableOptions → Text
unfolding defaulted table_lines join
render_table opts = join (10 ∷ []) (table_lines (defaulted opts)) ++ 10 ∷ []
