-- ===== src/Ui/Status.antt =====
-- internal/ui/logger.go: the lines of the log. `ts` is the time of day, `now.Format("15:04:05")`.
-- A number of bytes is a 64-bit pattern.
use multi_protocol_proxy.Prelude.{
  ℕ, ◌+◌, ◌-◌, ◌*◌, ◌/◌, ◌%◌, ◌≤◌, List, [], ◌∷◌, ◌++◌, codes, str_eq, ltb, slt, word_mod, half_mod,
  length, if◌then◌else◌, ◌||◌, arith,
}
use multi_protocol_proxy.Decimal.{itoa}
use multi_protocol_proxy.Proxy.Stats.{kb, mb, gb}
use multi_protocol_proxy.Ui.{Text}
use multi_protocol_proxy.Ui.Table.{repeat, join}
use multi_protocol_proxy.Ui.Theme.{
  Colors, accent_bright, info, success, warn, error, muted, subtle, primary, secondary,
}

-- Two spaces between the parts of a line.
abbrev gapped : List Text → Text
gapped = join (codes "  ")

abbrev spaced : List Text → Text
spaced = join (codes " ")

unfoldable pub log_thinking : Colors → Text → Text → Text
log_thinking c ts message = gapped (muted c ts ∷ primary c (9680 ∷ []) ∷ subtle c message ∷ [])

-- The icon and the message, by the category.
unfoldable pub status_parts : Colors → Text → Text → List Text
status_parts c category message =
    if str_eq category (codes "success")
    then success c (10003 ∷ []) ∷ success c message ∷ []
    else if str_eq category (codes "error")
    then error c (10007 ∷ []) ∷ error c message ∷ []
    else if str_eq category (codes "warning") || str_eq category (codes "warn")
    then warn c (9888 ∷ []) ∷ warn c message ∷ []
    else if str_eq category (codes "info")
    then info c (8505 ∷ []) ∷ subtle c message ∷ []
    else muted c (9679 ∷ []) ∷ subtle c message ∷ []

unfoldable pub log_status : Colors → Text → Text → Text → Text
unfolding status_parts
log_status c ts category message = gapped (muted c ts ∷ status_parts c category message)

unfoldable pub log_group_item : Colors → Text → Text → Text
log_group_item c label value =
    muted c (9474 ∷ [])
    ++ (codes "  " ++ (muted c (label ++ codes ":") ++ (codes " " ++ secondary c value)))

-- The verb `%-*s` of package fmt.
unfoldable pub left_justified : ℕ → Text → Text
unfolding repeat
left_justified n s = s ++ repeat 32 (n - length s)

-- The verb `%d`.
abbrev signed_decimal : ℕ → Text
signed_decimal b = if ltb b half_mod then itoa b else codes "-" ++ itoa (word_mod - b)

-- Tenths of a unit, rounded to the nearest and halves to even, as the verb `%.1f` rounds the
-- quotient by a power of two, which a float holds exactly for fewer than 2^53 bytes.
unfoldable pub tenths : ℕ → ℕ → ℕ
tenths b unit =
    let q = b * 10 / unit in
    let twice = b * 10 % unit * 2 in
    if ltb twice unit then q else if ltb unit twice then q + 1 else q + q % 2

abbrev one_decimal : ℕ → Text
one_decimal n = itoa (n / 10) ++ (codes "." ++ itoa (n % 10))

unfoldable pub format_bytes : ℕ → Text
unfolding tenths
format_bytes b =
    if slt b kb
    then signed_decimal b ++ codes "B"
    else if slt b mb
    then one_decimal (tenths b kb) ++ codes "KB"
    else if slt b gb
    then one_decimal (tenths b mb) ++ codes "MB"
    else one_decimal (tenths b gb) ++ codes "GB"

unfoldable pub log_relay : Colors → Text → Text → Text → ℕ → ℕ → Text
unfolding left_justified format_bytes
log_relay c ts sni client_ip up down = gapped (
    muted c ts
    ∷ success c (8594 ∷ [])
    ∷ secondary c (left_justified 28 sni)
    ∷ muted c (left_justified 16 client_ip)
    ∷ spaced (muted c (8593 ∷ []) ∷ subtle c (left_justified 8 (format_bytes up)) ∷ [])
    ∷ spaced (muted c (8595 ∷ []) ∷ subtle c (left_justified 8 (format_bytes down)) ∷ [])
    ∷ [])

unfoldable pub log_connection : Colors → Text → Text → Text → Text
log_connection c ts event target =
    let icon =
      if str_eq event (codes "connect")
      then primary c (9670 ∷ [])
      else if str_eq event (codes "disconnect")
      then muted c (9671 ∷ [])
      else muted c (9679 ∷ []) in
    gapped (muted c ts ∷ icon ∷ secondary c target ∷ [])

-- `value` is the text of the value under the verb `%v`.
unfoldable pub log_metric : Colors → Text → Text → Text → Text → Text
log_metric c ts name value unit =
    gapped (muted c ts ∷ muted c (9672 ∷ []) ∷ subtle c name ∷ [])
    ++ (codes ": " ++ (accent_bright c value ++ (codes " " ++ muted c unit)))

unfoldable pub print_separator : Colors → Text
unfolding repeat
print_separator c = muted c (codes "  " ++ repeat 9472 56)

unfoldable pub print_footer : Colors → Text → Text
print_footer c message = codes "  " ++ (muted c (9656 ∷ []) ++ (codes " " ++ muted c message))

unfoldable pub log_graceful_shutdown : Colors → Text
log_graceful_shutdown c =
    codes "  " ++ (muted c (9995 ∷ []) ++ (codes " " ++ muted c (codes "Cancelled")))

-- What is printed of a number of kilobytes, megabytes or gigabytes is off by at most half a tenth.
pub tenths-near :
    (b : ℕ)
    → ((2 * (b * 10) ≤ 2 * (kb * tenths b kb) + kb) × (2 * (kb * tenths b kb) ≤ 2 * (b * 10) + kb))
      × ((2 * (b * 10) ≤ 2 * (mb * tenths b mb) + mb)
          × (2 * (mb * tenths b mb) ≤ 2 * (b * 10) + mb))
      × ((2 * (b * 10) ≤ 2 * (gb * tenths b gb) + gb)
          × (2 * (gb * tenths b gb) ≤ 2 * (b * 10) + gb))
unfolding tenths
tenths-near b = (ground arith, ground arith, ground arith)
