-- ===== src/Ui/Banner.antt =====
-- internal/ui/banner.go and tagline.go: the banners, and the variable `bannerEmitted` that they share.
use multi_protocol_proxy.Prelude.{
  ℕ, ◌+◌, ◌≤◌, Bool, true, false, not, ◌||◌, List, [], ◌∷◌, ◌++◌, Option, none, some, codes, str_eq,
  has_prefix, ◌==◌, length, length-append, map, Bool-cases, inl, inr, if◌then◌else◌, ◌≡◌, refl,
  arith,
}
use multi_protocol_proxy.Ui.{Text}
use multi_protocol_proxy.Ui.Table.{join}
use multi_protocol_proxy.Ui.Log.{emit_simple_banner}
use multi_protocol_proxy.Ui.Theme.{
  Colors, fg_red, fg_hi_red, bold, fg_white, bg_magenta, is_rich, info, muted, heading, subtle,
  accent_dim, styles,
}

abbrev pub simple_banner : List Text
simple_banner =
    codes "██████╗ ██████╗  ██████╗ ██╗  ██╗██╗   ██╗"
    ∷ codes "██╔══██╗██╔══██╗██╔═══██╗╚██╗██╔╝╚██╗ ██╔╝"
    ∷ codes "██████╔╝██████╔╝██║   ██║ ╚███╔╝  ╚████╔╝ "
    ∷ codes "██╔═══╝ ██╔══██╗██║   ██║ ██╔██╗   ╚██╔╝  "
    ∷ codes "██║     ██║  ██║╚██████╔╝██╔╝╚██╗   ██║   "
    ∷ codes "╚═╝     ╚═╝  ╚═╝ ╚═════╝ ╚═╝  ╚═╝   ╚═╝   "
    ∷ []

abbrev pub elem : ℕ → Text → Bool
elem ch [] = false
elem ch (d ∷ s) = (ch == d) || elem ch s

-- The switch on a character of the banner.
unfoldable pub colored : Colors → ℕ → Text
colored c ch =
    if elem ch (codes "█╗╔╚╝║")
    then c.sprint (fg_hi_red ∷ bold ∷ []) (ch ∷ [])
    else if elem ch (codes "░═╣╠")
    then c.sprint (fg_red ∷ []) (ch ∷ [])
    else muted c (ch ∷ [])

unfoldable pub colored_line : Colors → Text → Text
unfolding colored
colored_line c [] = []
colored_line c (ch ∷ line) = colored c ch ++ colored_line c line

unfoldable pub format_banner_art : Colors → Text
unfolding is_rich colored_line
format_banner_art c =
    if not (is_rich c)
    then join (10 ∷ []) simple_banner
    else join (10 ∷ []) (map (colored_line c) simple_banner)

abbrev title : Text
title = codes "◆ MULTI-PROTOCOL PROXY"

unfoldable pub format_banner_line : Colors → Text → Text → Text
unfolding is_rich
format_banner_line c version tagline =
    if is_rich c
    then join (codes " ")
        (heading c title ∷ info c version ∷ muted c (codes "—") ∷ accent_dim c tagline ∷ [])
    else join (codes " ") (title ∷ version ∷ codes "—" ∷ tagline ∷ [])

-- `FormatTagline`.
unfoldable pub format_tagline : Colors → Text → Text
unfolding is_rich
format_tagline c tagline =
    if not (is_rich c)
    then tagline
    else if has_prefix tagline (codes "🎄")
        || has_prefix tagline (codes "🎃")
        || has_prefix tagline (codes "💘")
        || has_prefix tagline (codes "🎉")
    then tagline
    else accent_dim c tagline

-- The loop over `os.Args`.
unfoldable pub is_quiet : List Text → Bool
is_quiet [] = false
is_quiet (arg ∷ args) =
    if str_eq arg (codes "--json") || str_eq arg (codes "--version") || str_eq arg (codes "-v")
    then true
    else is_quiet args

-- `emitted` is the variable `bannerEmitted`, and `printed` what has been printed, a text for each
-- banner.
pub record Screen : Type 0 where
  pub emitted : Bool
  pub printed : List Text

-- A banner is printed.
unfoldable pub show : Screen → Text → Screen
show s text = record { emitted = true; printed = s.printed ++ text ∷ [] }

-- `tty` is what `isTTY` says.
unfoldable pub emit_banner : Colors → Bool → List Text → Text → Text → Screen → Screen
unfolding is_quiet show format_banner_art format_banner_line
emit_banner c tty args version tagline s =
    if s.emitted
    then s
    else if not tty
    then s
    else if is_quiet args
    then s
    else show s (
        join (10 ∷ [])
          ([] ∷ format_banner_art c ∷ [] ∷ format_banner_line c version tagline ∷ [] ∷ []))

-- `EmitSimpleBanner`, `none` where it panics.
unfoldable pub emit_simple : Colors → Bool → Text → Text → Screen → Option Screen
unfolding emit_simple_banner show
emit_simple c tty version tagline s =
    if s.emitted
    then some s
    else if not tty
    then some s
    else elim (emit_simple_banner (styles c) (c.sprint (bg_magenta ∷ fg_white ∷ bold ∷ []))
        (subtle c) version tagline) [
          | none ↦ none
          | some lines ↦ some (show s (join (10 ∷ []) ([] ∷ (lines ++ [] ∷ []))))
        ]

unfoldable pub reset_banner : Screen → Screen
reset_banner s = record s { emitted = false }

-- The calls on a screen; a call that panics leaves it to the end as it is.
pub data Call : Type 0 where
  emits : List Text → Text → Text → Call
  emits_simple : Text → Text → Call
  resets : Call

unfoldable pub call : Colors → Bool → Call → Screen → Screen
unfolding emit_banner emit_simple reset_banner
call c tty (emits args version tagline) s = emit_banner c tty args version tagline s
call c tty (emits_simple version tagline) s = elim (emit_simple c tty version tagline s) [
  | none ↦ s
  | some s' ↦ s'
]
call c tty resets s = reset_banner s

unfoldable pub calls : Colors → Bool → List Call → Screen → Screen
unfolding call
calls c tty [] s = s
calls c tty (k ∷ ks) s = calls c tty ks (call c tty k s)

-- The resets among calls.
abbrev pub resets_of : List Call → ℕ
resets_of [] = 0
resets_of (resets ∷ ks) = resets_of ks + 1
resets_of (_ ∷ ks) = resets_of ks

-- The banners that are printed or can be printed without a reset.
abbrev room : Screen → ℕ
room s = length s.printed + (if s.emitted then 0 else 1)

show-room : (s : Screen) (text : Text) → s.emitted ≡ false → room (show s text) ≤ room s
unfolding show
show-room s text fresh = ground (arith, fresh, length-append s.printed (text ∷ []))

if-room : (b : Bool) (s t : Screen) → room t ≤ room s → room (if b then s else t) ≤ room s
if-room true s t le = omega arith
if-room false s t le = le

emit_banner-room :
    (c : Colors) (tty : Bool) (args : List Text) (version tagline : Text) (s : Screen)
    → room (emit_banner c tty args version tagline s) ≤ room s
unfolding emit_banner
emit_banner-room c tty args version tagline s = elim (Bool-cases s.emitted) [
  | inl shown ↦ ground (arith, shown)
  | inr fresh ↦
      if-room s.emitted s _
        (if-room (not tty) s _ (if-room (is_quiet args) s _ (show-room s _ fresh)))
]

emit_simple-room :
    (c : Colors) (tty : Bool) (version tagline : Text) (s : Screen)
    → room (call c tty (emits_simple version tagline) s) ≤ room s
unfolding call emit_simple
emit_simple-room c tty version tagline s = go s.emitted refl (not tty) (
    emit_simple_banner (styles c) (c.sprint (bg_magenta ∷ fg_white ∷ bold ∷ [])) (subtle c) version
      tagline)
  where
    go :
        (b : Bool)
        → s.emitted ≡ b
        → (off : Bool) (o : Option (List Text))
        → room
            (elim (if b then some s else if off then some s else elim o [
              | none ↦ none
              | some lines ↦ some (show s (join (10 ∷ []) ([] ∷ (lines ++ [] ∷ []))))
            ]) [ none ↦ s | some s' ↦ s' ])
          ≤ room s
    go true e off o = omega arith
    go false e true o = omega arith
    go false e false none = omega arith
    go false e false (some lines) = show-room s _ e

call-room :
    (c : Colors) (tty : Bool) (k : Call) (s : Screen)
    → room (call c tty k s) ≤ room s + resets_of (k ∷ [])
unfolding call reset_banner
call-room c tty (emits args version tagline) s =
    omega (arith, emit_banner-room c tty args version tagline s)
call-room c tty (emits_simple version tagline) s =
    omega (arith, emit_simple-room c tty version tagline s)
call-room c tty resets s = ground arith

resets_of-next :
    (k : Call) (ks : List Call) → resets_of (k ∷ ks) ≡ resets_of (k ∷ []) + resets_of ks
resets_of-next (emits args version tagline) ks = omega arith
resets_of-next (emits_simple version tagline) ks = omega arith
resets_of-next resets ks = omega arith

calls-room :
    (c : Colors) (tty : Bool) (ks : List Call) (s : Screen)
    → room (calls c tty ks s) ≤ room s + resets_of ks
unfolding calls
calls-room c tty [] s = omega arith
calls-room c tty (k ∷ ks) s =
    omega (arith, calls-room c tty ks (call c tty k s), call-room c tty k s, resets_of-next k ks)

-- Whatever banners are asked for, of either kind, at most one is printed, and one more for each
-- reset.
pub calls-one :
    (c : Colors) (tty : Bool) (ks : List Call)
    → length (calls c tty ks (record { emitted = false; printed = [] })).printed ≤ 1 + resets_of ks
calls-one c tty ks = omega (arith, calls-room c tty ks (record { emitted = false; printed = [] }))
