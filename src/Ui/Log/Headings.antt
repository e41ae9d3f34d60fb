-- ===== src/Ui/Log/Headings.antt =====
-- internal/ui/logger.go and banner.go: which headings are printed.
use multi_protocol_proxy.Prelude.{
  ℕ, zero, suc, ◌≤◌, ◌<◌, Bool, true, ◌&&◌, List, [], ◌∷◌, none, some, codes, ◌==◌, length,
  get_elem?, get_elem?_total, ◌≡◌, ◌↔◌, refl, subst, arith, Bool-cases, Option-cases, inl, inr,
  some_inj, leb,
}
use multi_protocol_proxy.Ui.{Text}
use multi_protocol_proxy.Ui.Note.{Styles}
use multi_protocol_proxy.Ui.Log.{
  byte_len, repeat_less, log_section, log_group, taglines, TaglineRule, holiday_taglines, find_rule,
  pick_tagline, emit_simple_banner, print_banner,
}

repeat_less-none : (c n k : ℕ) → (repeat_less c n k ≡ none) ↔ (n < k)
unfolding repeat_less
repeat_less-none c n k = ground arith

-- `LogSection` and `LogGroup` both die of exactly the titles of more than 50 bytes.
pub headings-none_iff :
    (st : Styles) (title : Text)
    → ((log_section st title ≡ none) ↔ (50 < byte_len title))
      × ((log_group st title ≡ none) ↔ (50 < byte_len title))
unfolding log_section log_group
headings-none_iff st title =
    let short = repeat_less-none 9472 50 (byte_len title) in
    elim (Option-cases (repeat_less 9472 50 (byte_len title))) [
      | inl dead ↦ (
        (λ _. short.0 dead, λ _. rw (dead, log_section) refl),
        (λ _. short.0 dead, λ _. rw (dead, log_group) refl),
      )
      | inr (line, alive) ↦ (
        (λ e. cc (rw (alive, log_section) at e), λ h. cc (short.1 h, alive)),
        (λ e. cc (rw (alive, log_group) at e), λ h. cc (short.1 h, alive)),
      )
    ]

abbrev all_short : List Text → Bool
all_short [] = true
all_short (t ∷ ts) = leb (byte_len t) 58 && all_short ts

all_short-at :
    (ts : List Text) (i : ℕ) (t : Text)
    → all_short ts ≡ true
    → get_elem? ts i ≡ some t
    → byte_len t ≤ 58
all_short-at [] i t s e = cc (e)
all_short-at (u ∷ ts) zero t s e = subst (λ x. byte_len x ≤ 58) (some_inj e) (ground arith)
all_short-at (u ∷ ts) (suc i) t s e = all_short-at ts i t (ground arith) e

abbrev texts : List TaglineRule → List Text
texts [] = []
texts (r ∷ rules) = r.tagline ∷ texts rules

find_rule-short :
    (month day : ℕ) (rules : List TaglineRule) (t : Text)
    → all_short (texts rules) ≡ true
    → find_rule month day rules ≡ some t
    → byte_len t ≤ 58
unfolding find_rule
find_rule-short month day [] t s e = cc (e)
find_rule-short month day (r ∷ rules) t s e = elim (Bool-cases (r.month == month && r.day == day)) [
  | inl today ↦ subst (λ x. byte_len x ≤ 58) (some_inj (rw today at e)) (ground arith)
  | inr other ↦ find_rule-short month day rules t (ground arith) (rw other at e)
]

pick_tagline-short :
    (month day drawn : ℕ)
    → drawn < length taglines
    → (t : Text) × (pick_tagline month day drawn ≡ some t) × (byte_len t ≤ 58)
unfolding pick_tagline byte_len
pick_tagline-short month day drawn h = elim (Option-cases (find_rule month day holiday_taglines)) [
  | inr (t, found) ↦
      (t, rw (found, pick_tagline) refl, find_rule-short month day holiday_taglines t refl found)
  | inl no_rule ↦
      let (t, at) = get_elem?_total taglines drawn h in
      (t, rw (no_rule, pick_tagline) at, all_short-at taglines drawn t refl at)
]

emit_simple_banner-some :
    (st : Styles) (badge subtle : Text → Text) (version tagline : Text)
    → byte_len tagline ≤ 58
    → (lines : List Text) × (emit_simple_banner st badge subtle version tagline ≡ some lines)
unfolding emit_simple_banner
emit_simple_banner-some st badge subtle version tagline h =
    elim (Option-cases (emit_simple_banner st badge subtle version tagline)) [
      | inr printed ↦ printed
      | inl none_printed ↦ elim (Option-cases (repeat_less 32 58 (byte_len tagline))) [
        | inl dead ↦ absurd (omega (arith, (repeat_less-none 32 58 (byte_len tagline)).0 dead))
        | inr (room, alive) ↦ cc (rw (alive, emit_simple_banner) at none_printed)
      ]
    ]

-- The banner is printed on every day, whichever of the taglines is drawn: each leaves room in its
-- line, so that no count is negative.
pub print_banner-some :
    (st : Styles) (badge subtle : Text → Text) (month day drawn : ℕ)
    → drawn < length taglines
    → (lines : List Text) × (print_banner st badge subtle month day drawn ≡ some lines)
unfolding print_banner
print_banner-some st badge subtle month day drawn h =
    let (t, picked, short) = pick_tagline-short month day drawn h in
    let (lines, e) = emit_simple_banner-some st badge subtle (codes "v1.0.0") t short in
    (lines, rw (picked, print_banner) e)
