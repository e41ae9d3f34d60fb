-- ===== src/Ui/Width.antt =====
-- internal/ui/ansi.go: the width of texts that are put together, padded or cut.
use multi_protocol_proxy.Prelude.{
  ℕ, zero, suc, ◌+◌, ◌-◌, ◌/◌, ◌≤◌, [], ◌∷◌, ◌++◌, some, codes, leb, length, take, if◌then◌else◌,
  has_prefix, ◌≡◌, ◌≢◌, refl, sym, ap, ◌∙◌, arith, All, length-append, length-take, append_assoc,
  Bool-cases, inl, inr,
}
use multi_protocol_proxy.Ui.{
  Text, esc, remove_all, sgr_length, osc8_length, strip_ansi, visible_width, truncate_visible,
  spaces, pad_right, pad_left, pad_center,
}

-- A text without an escape character.
abbrev pub IsPlain : Text → Type 0
IsPlain = All (λ c. c ≢ esc)

-- A text that ends no escape sequence of what stands before it and that begins none that ends behind
-- it: what follows it is stripped on its own.
abbrev pub IsWhole : Text → Type 0
IsWhole s = (t : Text) → strip_ansi (s ++ t) ≡ strip_ansi s ++ strip_ansi t

sgr_length-plain : (c : ℕ) (s : Text) → c ≢ esc → sgr_length (c ∷ s) ≡ 0
unfolding sgr_length
sgr_length-plain c [] h = refl
sgr_length-plain c (d ∷ s) h = ground arith

pub osc8_length-plain : (c : ℕ) (s : Text) → c ≢ esc → osc8_length (c ∷ s) ≡ 0
unfolding osc8_length has_prefix
osc8_length-plain c s h = ground arith

pub remove_all-kept :
    (pattern : Text → ℕ) (c : ℕ) (s : Text)
    → pattern (c ∷ s) ≡ 0
    → remove_all pattern zero (c ∷ s) ≡ c ∷ remove_all pattern zero s
unfolding remove_all
remove_all-kept pattern c s e = rw (e, remove_all) refl

strip_ansi-plain : (c : ℕ) (s : Text) → c ≢ esc → strip_ansi (c ∷ s) ≡ c ∷ strip_ansi s
unfolding strip_ansi
strip_ansi-plain c s h =
    ap (remove_all sgr_length zero) (remove_all-kept osc8_length c s (osc8_length-plain c s h))
    ∙ remove_all-kept sgr_length c (remove_all osc8_length zero s) (sgr_length-plain c _ h)

pub strip_ansi-IsPlain : (s : Text) → IsPlain s → strip_ansi s ≡ s
unfolding strip_ansi remove_all
strip_ansi-IsPlain [] p = refl
strip_ansi-IsPlain (c ∷ s) p = strip_ansi-plain c s p.0 ∙ ap (◌∷◌ c) (strip_ansi-IsPlain s p.1)

strip-plain_append : (s t : Text) → IsPlain s → strip_ansi (s ++ t) ≡ s ++ strip_ansi t
strip-plain_append [] t p = refl
strip-plain_append (c ∷ s) t p =
    strip_ansi-plain c (s ++ t) p.0 ∙ ap (◌∷◌ c) (strip-plain_append s t p.1)

-- A plain text is whole.
pub IsPlain-IsWhole : (s : Text) → IsPlain s → IsWhole s
IsPlain-IsWhole s p t =
    strip-plain_append s t p ∙ ap (λ x. x ++ strip_ansi t) (sym (strip_ansi-IsPlain s p))

-- Whole texts one behind the other are a whole text.
pub append-IsWhole : (s t : Text) → IsWhole s → IsWhole t → IsWhole (s ++ t)
append-IsWhole s t p q r =
    ap strip_ansi (append_assoc s t r)
    ∙ p (t ++ r)
    ∙ ap (strip_ansi s ++◌) (q r)
    ∙ sym (append_assoc (strip_ansi s) (strip_ansi t) (strip_ansi r))
    ∙ ap (λ x. x ++ strip_ansi r) (sym (p t))

pub visible_width-append :
    (s t : Text) → IsWhole s → visible_width (s ++ t) ≡ visible_width s + visible_width t
unfolding visible_width
visible_width-append s t p = ap length (p t) ∙ length-append (strip_ansi s) (strip_ansi t)

pub visible_width-IsPlain : (s : Text) → IsPlain s → visible_width s ≡ length s
unfolding visible_width
visible_width-IsPlain s p = ap length (strip_ansi-IsPlain s p)

pub spaces-IsPlain : (n : ℕ) → IsPlain (spaces n)
unfolding spaces
spaces-IsPlain zero = tt
spaces-IsPlain (suc n) = (λ e. omega (arith, e), spaces-IsPlain n)

pub length-spaces : (n : ℕ) → length (spaces n) ≡ n
unfolding spaces
length-spaces zero = refl
length-spaces (suc n) = ap suc (length-spaces n)

pub spaces-IsWhole : (n : ℕ) → IsWhole (spaces n)
spaces-IsWhole n = IsPlain-IsWhole (spaces n) (spaces-IsPlain n)

pub visible_width-spaces : (n : ℕ) → visible_width (spaces n) ≡ n
visible_width-spaces n = visible_width-IsPlain (spaces n) (spaces-IsPlain n) ∙ length-spaces n

visible_width-right :
    (s : Text) (n : ℕ) → IsWhole s → visible_width (s ++ spaces n) ≡ visible_width s + n
visible_width-right s n p =
    visible_width-append s (spaces n) p ∙ ap (visible_width s +◌) (visible_width-spaces n)

visible_width-left : (s : Text) (n : ℕ) → visible_width (spaces n ++ s) ≡ n + visible_width s
visible_width-left s n =
    visible_width-append (spaces n) s (spaces-IsWhole n)
    ∙ ap (λ k. k + visible_width s) (visible_width-spaces n)

abbrev pub max : ℕ → ℕ → ℕ
max a b = if leb a b then b else a

-- Padding on any side makes a text as wide as is asked for, and leaves a wider one as it is: a text
-- that leaves no escape sequence open.
pub pad-max :
    (s : Text) (width : ℕ)
    → IsWhole s
    → (visible_width (pad_right s width) ≡ max (visible_width s) width)
      × (visible_width (pad_left s width) ≡ max (visible_width s) width)
      × (visible_width (pad_center s width) ≡ max (visible_width s) width)
unfolding pad_right pad_left pad_center
pad-max s width p = go (visible_width s) refl
  where
    go :
        (v : ℕ)
        → visible_width s ≡ v
        → (visible_width (if leb width v then s else s ++ spaces (width - v)) ≡ max v width)
          × (visible_width (if leb width v then s else spaces (width - v) ++ s) ≡ max v width)
          × (visible_width (
                if leb width v
                then s
                else let padding = width - v in
                  let left = padding / 2 in spaces left ++ (s ++ spaces (padding - left)))
              ≡ max v width)
    go v e = elim (Bool-cases (leb width v)) [
      | inl wide ↦ rw wide (e ∙ ground arith, e ∙ ground arith, e ∙ ground arith)
      | inr narrow ↦ rw narrow (
        visible_width-right s (width - v) p ∙ ground (arith, e),
        visible_width-left s (width - v) ∙ ground (arith, e),
        visible_width-left _ ((width - v) / 2)
            ∙ ap ((width - v) / 2 +◌) (visible_width-right s (width - v - (width - v) / 2) p)
            ∙ ground (arith, e),
      )
    ]

take-IsPlain : (n : ℕ) (s : Text) → IsPlain s → IsPlain (take n s)
take-IsPlain zero s p = tt
take-IsPlain (suc n) [] p = tt
take-IsPlain (suc n) (c ∷ s) p = (p.0, take-IsPlain n s p.1)

dots-IsPlain : IsPlain (codes "...")
dots-IsPlain = ((λ e. omega (arith, e)), ((λ e. omega (arith, e)), ((λ e. omega (arith, e)), tt)))

-- A text without a stray escape character is cut to the width asked for, of 3 at least; it is not
-- cut, with its escape sequences kept, if it is not too wide.
pub truncate_visible-le :
    (s : Text) (width : ℕ)
    → IsPlain (strip_ansi s)
    → 3 ≤ width
    → (r : Text) × (truncate_visible s width ≡ some r) × (visible_width r ≤ width)
unfolding truncate_visible visible_width
truncate_visible-le s width p h = elim (Bool-cases (leb (length (strip_ansi s)) width)) [
  | inl fits ↦ (s, rw fits refl, ground arith)
  | inr wide ↦
      let cut = take (width - 3) (strip_ansi s) in
      let plain = take-IsPlain (width - 3) (strip_ansi s) p in
      (
        cut ++ codes "...",
        rw wide (ground arith),
        omega (
          arith,
          visible_width-append cut (codes "...") (IsPlain-IsWhole cut plain),
          visible_width-IsPlain cut plain,
          visible_width-IsPlain (codes "...") dots-IsPlain,
          length-take (width - 3) (strip_ansi s) (ground arith),
        ),
      )
]
