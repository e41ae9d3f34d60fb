-- ===== src/Ui/Sequences.antt =====
-- internal/ui/ansi.go and links.go: escape sequences take no room.
use multi_protocol_proxy.Prelude.{
  ℕ, zero, suc, ◌+◌, true, [], ◌∷◌, ◌++◌, some, codes, length, has_prefix, ◌≡◌, refl, sym, ap, ◌∙◌,
  arith, length-append, append_assoc, append-nil,
}
use multi_protocol_proxy.Ui.{
  Text, esc, remove_all, sgr_length, osc8_end, osc8_length, strip_ansi, visible_width, Terminal,
  supports_hyperlinks, link_to, format_terminal_link,
}
use multi_protocol_proxy.Ui.Width.{
  IsPlain, IsWhole, IsPlain-IsWhole, append-IsWhole, visible_width-append, visible_width-IsPlain,
}

remove_all-skip :
    (pattern : Text → ℕ) (s t : Text)
    → remove_all pattern (length s) (s ++ t) ≡ remove_all pattern zero t
unfolding remove_all
remove_all-skip pattern [] t = refl
remove_all-skip pattern (c ∷ s) t = remove_all-skip pattern s t

remove_all-match :
    (pattern : Text → ℕ) (c : ℕ) (s t : Text)
    → pattern (c ∷ (s ++ t)) ≡ suc (length s)
    → remove_all pattern zero (c ∷ (s ++ t)) ≡ remove_all pattern zero t
unfolding remove_all
remove_all-match pattern c s t e = rw (e, remove_all) (remove_all-skip pattern s t)

osc8_end-plain :
    (url t : Text) → IsPlain url → osc8_end (url ++ esc ∷ b'\\' ∷ t) ≡ some (length url + 2)
unfolding osc8_end
osc8_end-plain [] t p = refl
osc8_end-plain (c ∷ []) t p = ground arith
osc8_end-plain (c ∷ d ∷ url) t p = ground (arith, osc8_end-plain (d ∷ url) t p.1)

osc8_length-link :
    (url t : Text) → IsPlain url → osc8_length (link_to url ++ t) ≡ length (link_to url)
unfolding osc8_length has_prefix
osc8_length-link url t p =
    rw (append_assoc url (esc ∷ codes "\\") t, osc8_end-plain url t p)
      (omega (arith, length-append url (esc ∷ codes "\\")))

link_to-strip : (url t : Text) → IsPlain url → strip_ansi (link_to url ++ t) ≡ strip_ansi t
unfolding strip_ansi
link_to-strip url t p = ap (remove_all sgr_length zero) (
    remove_all-match osc8_length esc (codes "]8;;" ++ (url ++ esc ∷ codes "\\")) t
      (osc8_length-link url t p))

-- The opening or closing part of a link.
pub link_to-IsWhole : (url : Text) → IsPlain url → IsWhole (link_to url)
unfolding strip_ansi remove_all
link_to-IsWhole url p t =
    link_to-strip url t p
    ∙ ap (λ x. x ++ strip_ansi t)
        (sym (ap strip_ansi (sym (append-nil (link_to url))) ∙ link_to-strip url [] p))

link_to-width : (url : Text) → IsPlain url → visible_width (link_to url) ≡ 0
unfolding visible_width strip_ansi remove_all
link_to-width url p =
    ap length (ap strip_ansi (sym (append-nil (link_to url))) ∙ link_to-strip url [] p)

-- Where the terminal supports it, a link with a plain label and a plain address is as wide as its
-- label, and its sequences end with it.
pub format_terminal_link-width :
    (t : Terminal) (label url : Text)
    → supports_hyperlinks t ≡ true
    → IsPlain label
    → IsPlain url
    → (visible_width (format_terminal_link t label url) ≡ length label)
      × IsWhole (format_terminal_link t label url)
unfolding format_terminal_link
format_terminal_link-width t label url e p q =
    let opening = link_to-IsWhole url q in
    let closing = link_to-IsWhole [] tt in
    let inner = IsPlain-IsWhole label p in
    rw e (
      visible_width-append (link_to url) (label ++ link_to []) opening
          ∙ ap (visible_width (link_to url) +◌) (visible_width-append label (link_to []) inner)
          ∙ omega (arith, link_to-width url q, link_to-width [] tt, visible_width-IsPlain label p),
      append-IsWhole (link_to url) (label ++ link_to []) opening
          (append-IsWhole label (link_to []) inner closing),
    )
