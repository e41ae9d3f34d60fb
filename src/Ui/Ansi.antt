-- ===== src/Ui/Ansi.antt =====
-- internal/ui/ansi.go and theme.go: escape sequences, the width of a text, and padding.
use multi_protocol_proxy.Prelude.{
  ℕ, zero, suc, ◌+◌, ◌-◌, ◌/◌, ◌&&◌, ◌||◌, List, [], ◌∷◌, ◌++◌, Option, none, some, codes, leb, ltb,
  ◌==◌, length, take, if◌then◌else◌, has_prefix,
}

abbrev pub Text : Type 0
Text = List ℕ

abbrev pub esc : ℕ
esc = 27

-- `ReplaceAllString` of the pattern whose match at the head of a text has the given length, 0 for no
-- match, by nothing. `skip` code points of the last match are still to be dropped.
unfoldable pub remove_all : (Text → ℕ) → ℕ → Text → Text
remove_all pattern skip [] = []
remove_all pattern (suc skip) (c ∷ s) = remove_all pattern skip s
remove_all pattern zero (c ∷ s) = elim (pattern (c ∷ s)) [
  | zero ↦ c ∷ remove_all pattern zero s
  | suc n ↦ remove_all pattern n s
]

-- `[0-9;]*m`: the length of the match
unfoldable pub sgr_end : Text → Option ℕ
sgr_end [] = none
sgr_end (c ∷ s) =
    let rest = sgr_end s in
    if c == b'm'
    then some 1
    else if (leb b'0' c && leb c b'9') || c == b';'
    then elim rest [ none ↦ none | some n ↦ some (suc n) ]
    else none

-- `ansiSGRPattern`
unfoldable pub sgr_length : Text → ℕ
unfolding sgr_end
sgr_length [] = 0
sgr_length (c ∷ []) = 0
sgr_length (c ∷ d ∷ s) =
    if c == esc && d == b'[' then elim (sgr_end s) [ none ↦ 0 | some n ↦ 2 + n ] else 0

-- `[^\x1b]*\x1b\\`
unfoldable pub osc8_end : Text → Option ℕ
osc8_end [] = none
osc8_end (c ∷ []) = none
osc8_end (c ∷ d ∷ s) =
    let rest = osc8_end (d ∷ s) in
    if c == esc
    then (if d == b'\\' then some 2 else none)
    else elim rest [ none ↦ none | some n ↦ some (suc n) ]

abbrev pub osc8_start : Text
osc8_start = esc ∷ codes "]8;;"

abbrev drop5 : Text → Text
drop5 (a ∷ b ∷ c ∷ d ∷ e ∷ s) = s
drop5 s = []

-- `osc8Pattern`, whose second alternative is a case of its first
unfoldable pub osc8_length : Text → ℕ
unfolding osc8_end
osc8_length s =
    if has_prefix s osc8_start then elim (osc8_end (drop5 s)) [ none ↦ 0 | some n ↦ 5 + n ] else 0

unfoldable pub strip_ansi : Text → Text
unfolding remove_all osc8_length sgr_length
strip_ansi input = remove_all sgr_length zero (remove_all osc8_length zero input)

unfoldable pub visible_width : Text → ℕ
unfolding strip_ansi
visible_width input = length (strip_ansi input)

-- `none` is the panic of a slice with a negative bound. A negative width panics as one below 3 does.
unfoldable pub truncate_visible : Text → ℕ → Option Text
unfolding strip_ansi
truncate_visible input max_width =
    let stripped = strip_ansi input in
    if leb (length stripped) max_width
    then some input
    else if ltb max_width 3
    then none
    else some (take (max_width - 3) stripped ++ codes "...")

unfoldable pub spaces : ℕ → Text
spaces zero = []
spaces (suc n) = 32 ∷ spaces n

unfoldable pub pad_right : Text → ℕ → Text
unfolding visible_width spaces
pad_right input width =
    let visible = visible_width input in
    if leb width visible then input else input ++ spaces (width - visible)

unfoldable pub pad_left : Text → ℕ → Text
unfolding visible_width spaces
pad_left input width =
    let visible = visible_width input in
    if leb width visible then input else spaces (width - visible) ++ input

unfoldable pub pad_center : Text → ℕ → Text
unfolding visible_width spaces
pad_center input width =
    let visible = visible_width input in
    if leb width visible
    then input
    else let padding = width - visible in
      let left = padding / 2 in spaces left ++ (input ++ spaces (padding - left))
