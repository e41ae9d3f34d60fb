-- ===== src/Ui/Theme.antt =====
-- internal/ui/theme.go: the styles. The colour package is a parameter: what `color.New(...).Sprint`
-- makes of a text by its attributes, and `color.NoColor`.
use multi_protocol_proxy.Prelude.{
  Bool, false, not, ◌&&◌, List, [], ◌∷◌, codes, str_eq, if◌then◌else◌,
}
use multi_protocol_proxy.Pac.{trim_space}
use multi_protocol_proxy.Ui.{Text}
use multi_protocol_proxy.Ui.Note.{Styles}

pub data Attribute : Type 0 where
  fg_red fg_green fg_yellow fg_magenta fg_cyan fg_white fg_hi_black fg_hi_red fg_hi_yellow :
      Attribute
  bg_magenta bold : Attribute

-- The colour package, and the environment variables `NO_COLOR` and `FORCE_COLOR`.
pub record Colors : Type 0 where
  pub sprint : List Attribute → Text → Text
  pub disabled : Bool
  pub no_color : Text
  pub force_color : Text

unfoldable pub is_force_color : Colors → Bool
is_force_color c =
    let fc = trim_space c.force_color in not (str_eq fc []) && not (str_eq fc (codes "0"))

unfoldable pub is_rich : Colors → Bool
unfolding is_force_color
is_rich c = if not (str_eq c.no_color []) && not (is_force_color c) then false else not c.disabled

abbrev pub accent : Colors → Text → Text
accent c = c.sprint (fg_hi_red ∷ [])

abbrev pub accent_bright : Colors → Text → Text
accent_bright c = c.sprint (fg_hi_red ∷ bold ∷ [])

abbrev pub accent_dim : Colors → Text → Text
accent_dim c = c.sprint (fg_red ∷ [])

abbrev pub info : Colors → Text → Text
info c = c.sprint (fg_hi_yellow ∷ [])

abbrev pub success : Colors → Text → Text
success c = c.sprint (fg_green ∷ [])

abbrev pub warn : Colors → Text → Text
warn c = c.sprint (fg_yellow ∷ [])

abbrev pub error : Colors → Text → Text
error c = c.sprint (fg_red ∷ [])

abbrev pub muted : Colors → Text → Text
muted c = c.sprint (fg_hi_black ∷ [])

abbrev pub heading : Colors → Text → Text
heading c = c.sprint (fg_hi_red ∷ bold ∷ [])

abbrev pub command : Colors → Text → Text
command c = c.sprint (fg_cyan ∷ bold ∷ [])

abbrev pub option : Colors → Text → Text
option c = c.sprint (fg_yellow ∷ [])

abbrev pub strong : Colors → Text → Text
strong c = c.sprint (fg_white ∷ bold ∷ [])

abbrev pub subtle : Colors → Text → Text
subtle c = c.sprint (fg_white ∷ [])

abbrev pub primary : Colors → Text → Text
primary c = c.sprint (fg_magenta ∷ bold ∷ [])

abbrev pub secondary : Colors → Text → Text
secondary c = c.sprint (fg_cyan ∷ [])

-- The styles that notes and headings take.
abbrev pub styles : Colors → Styles
styles c = record { rich = is_rich c; muted = muted c; heading = heading c; primary = primary c }

unfoldable pub colorize : Bool → (Text → Text) → Text → Text
colorize rich color msg = if rich then color msg else msg
