-- ===== src/Ui/Links.antt =====
-- internal/ui/links.go: links in a text.
use multi_protocol_proxy.Prelude.{
  Bool, true, ◌||◌, not, [], ◌∷◌, ◌++◌, codes, str_eq, has_prefix, if◌then◌else◌,
}
use multi_protocol_proxy.Ui.Ansi.{Text, esc}

-- The environment variables that tell which terminal this is.
pub record Terminal : Type 0 where
  pub term_program : Text
  pub term : Text
  pub wt_session : Text

-- `strings.Contains`
unfoldable pub contains : Text → Text → Bool
contains [] part = has_prefix [] part
contains (c ∷ s) part = has_prefix (c ∷ s) part || contains s part

unfoldable pub supports_hyperlinks : Terminal → Bool
unfolding contains
supports_hyperlinks t =
    if contains t.term_program (codes "iTerm")
      || contains t.term_program (codes "WezTerm")
      || contains t.term_program (codes "vscode")
      || contains t.term_program (codes "Hyper")
      || not (str_eq t.wt_session [])
    then true
    else contains t.term (codes "xterm-256color")

abbrev pub link_to : Text → Text
link_to url = esc ∷ (codes "]8;;" ++ (url ++ esc ∷ codes "\\"))

unfoldable pub format_terminal_link : Terminal → Text → Text → Text
unfolding supports_hyperlinks
format_terminal_link t label url =
    if not (supports_hyperlinks t)
    then label ++ (codes " (" ++ (url ++ codes ")"))
    else link_to url ++ (label ++ link_to [])

abbrev pub docs_root : Text
docs_root = codes "https://signal.org/docs"

unfoldable pub format_docs_link : Terminal → Text → Text → Text
unfolding format_terminal_link
format_docs_link t path label =
    let url =
      if has_prefix path (codes "http")
      then path
      else docs_root ++ (if has_prefix path (codes "/") then path else codes "/" ++ path) in
    format_terminal_link t (if str_eq label [] then url else label) url

unfoldable pub format_email : Terminal → Text → Text
unfolding format_terminal_link
format_email t email = format_terminal_link t email (codes "mailto:" ++ email)
