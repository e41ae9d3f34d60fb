-- ===== src/Ui/Log.antt =====
-- internal/ui/logger.go, banner.go and tagline.go: headings and the banner. `strings.Repeat` dies of a
-- negative count; counts are taken of bytes there, and a text here is a list of code points.
pub mod Headings
use multi_protocol_proxy.Prelude.{
  ℕ, zero, suc, ◌+◌, ◌-◌, Bool, true, false, not, ◌&&◌, ◌||◌, List, [], ◌∷◌, ◌++◌, Option, none,
  some, codes, ltb, ◌==◌, length, map, get_elem?, str_eq, if◌then◌else◌,
}
use multi_protocol_proxy.Ui.Ansi.{Text}
use multi_protocol_proxy.Ui.Links.{Terminal, format_docs_link}
use multi_protocol_proxy.Ui.Table.{repeat, join}
use multi_protocol_proxy.Ui.Note.{Styles}

-- `len` of a text in UTF-8.
abbrev pub rune_len : ℕ → ℕ
rune_len c = if ltb c 128 then 1 else if ltb c 2048 then 2 else if ltb c 65536 then 3 else 4

unfoldable pub byte_len : Text → ℕ
byte_len [] = 0
byte_len (c ∷ s) = rune_len c + byte_len s

-- `strings.Repeat(c, n - k)`, `none` where the count is negative.
unfoldable pub repeat_less : ℕ → ℕ → ℕ → Option Text
unfolding repeat
repeat_less c n k = if ltb n k then none else some (repeat c (n - k))

-- The heading that `LogSection` prints, `none` where it panics.
unfoldable pub log_section : Styles → Text → Option Text
unfolding byte_len repeat_less
log_section st title = elim (repeat_less 9472 50 (byte_len title)) [
  | none ↦ none
  | some line ↦ some (
      st.muted (repeat 9472 2) ++ (codes " " ++ (st.heading title ++ (codes " " ++ st.muted line))))
]

unfoldable pub log_group : Styles → Text → Option Text
unfolding byte_len repeat_less
log_group st title = elim (repeat_less 9472 50 (byte_len title)) [
  | none ↦ none
  | some line ↦ some (
      st.muted (9581 ∷ [])
      ++ (st.muted (repeat 9472 2)
          ++ (codes " "
              ++ (st.primary title ++ (codes " " ++ (st.muted line ++ st.muted (9582 ∷ [])))))))
]

unfoldable pub log_group_end : Styles → Text
unfolding repeat
log_group_end st = st.muted (9584 ∷ (repeat 9472 56 ++ 9583 ∷ []))

-- `error` is the style of errors.
unfoldable pub format_error : Styles → (Text → Text) → Terminal → Text → List Text → Text
unfolding join format_docs_link
format_error st error t err solutions = join (10 ∷ []) (
    error (10007 ∷ (codes " Error: " ++ err))
    ∷ []
    ∷ ((if length solutions == 0
          then []
          else st.muted (codes "Possible solutions:")
            ∷ (map (λ s. st.muted (codes "  " ++ 8226 ∷ (codes " " ++ s))) solutions ++ [] ∷ []))
        ++ st.muted (
            codes "Docs: "
            ++ format_docs_link t (codes "/troubleshooting") (codes "signal.org/docs"))
          ∷ []))

pub record TaglineRule : Type 0 where
  pub month : ℕ
  pub day : ℕ
  pub tagline : Text

abbrev pub taglines : List Text
taglines =
    codes "Trusted Proxy Service"
    ∷ codes "Your Packets, Relayed Securely"
    ∷ codes "Privacy-first proxy routing"
    ∷ codes "Connecting you securely, anywhere"
    ∷ codes "Secure relay for the modern era"
    ∷ codes "Routing trust, one packet at a time"
    ∷ codes "Making censorship obsolete since 2024"
    ∷ codes "Where privacy meets performance"
    ∷ codes "Silent guardian of your privacy"
    ∷ codes "Tunneling through barriers"
    ∷ []

abbrev pub rule : ℕ → ℕ → Text → TaglineRule
rule month day tagline = record { month = month; day = day; tagline = tagline }

-- The rules of all holidays. No two are for one day, so that the order of the map does not matter.
abbrev pub holiday_taglines : List TaglineRule
holiday_taglines =
    rule 12 25 (codes "🎄 Ho ho ho—relaying holiday cheer!")
    ∷ rule 12 24 (codes "🎄 Santa's favorite proxy service")
    ∷ rule 10 31 (codes "🎃 Boo! Your packets are haunted")
    ∷ rule 10 30 (codes "🎃 Spooky secure connections")
    ∷ rule 2 14 (codes "💘 Sending love through encrypted channels")
    ∷ rule 1 1 (codes "🎉 Happy New Year! Fresh connections await")
    ∷ []

abbrev pub default_tagline : Text
default_tagline = codes "Trusted Proxy Service"

unfoldable pub find_rule : ℕ → ℕ → List TaglineRule → Option Text
find_rule month day [] = none
find_rule month day (r ∷ rules) =
    if r.month == month && r.day == day then some r.tagline else find_rule month day rules

-- `drawn` is what `r.Intn(len(taglines))` gives; an index out of range would panic.
unfoldable pub pick_tagline : ℕ → ℕ → ℕ → Option Text
unfolding find_rule
pick_tagline month day drawn = elim (find_rule month day holiday_taglines) [
  | some tagline ↦ some tagline
  | none ↦ if length taglines == 0 then some default_tagline else get_elem? taglines drawn
]

-- The lines of `EmitSimpleBanner` on a terminal that has not shown it yet, `none` where it panics.
unfoldable pub emit_simple_banner :
    Styles → (Text → Text) → (Text → Text) → Text → Text → Option (List Text)
unfolding repeat byte_len repeat_less
emit_simple_banner st badge subtle version tagline =
    elim (repeat_less 32 (60 - 2) (byte_len tagline)) [
      | none ↦ none
      | some room ↦ some (
          st.muted (9581 ∷ (repeat 9472 60 ++ 9582 ∷ []))
          ∷ (st.muted (9474 ∷ [])
              ++ (codes "  "
                  ++ (badge (codes " ◆ PROXY ")
                      ++ (codes " "
                          ++ (st.muted version
                              ++ (codes "  " ++ st.muted (repeat 32 38 ++ 9474 ∷ [])))))))
          ∷ (st.muted (9474 ∷ [])
              ++ (codes "  " ++ (subtle tagline ++ st.muted (room ++ 9474 ∷ []))))
          ∷ st.muted (9584 ∷ (repeat 9472 60 ++ 9583 ∷ []))
          ∷ [])
    ]

-- `PrintBanner`
unfoldable pub print_banner :
    Styles → (Text → Text) → (Text → Text) → ℕ → ℕ → ℕ → Option (List Text)
unfolding pick_tagline emit_simple_banner
print_banner st badge subtle month day drawn = elim (pick_tagline month day drawn) [
  | none ↦ none
  | some tagline ↦ emit_simple_banner st badge subtle (codes "v1.0.0") tagline
]
