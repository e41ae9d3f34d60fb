-- ===== src/Decimal/Digits.antt =====
-- The characters that `itoa` prints.
use mathlib.Core.Logic.{ite}
use mathlib.Core.WellFounded
use native.Mathlib.Decide.{dec_lt}
use multi_protocol_proxy.Prelude.{
  ℕ, ◌+◌, ◌/◌, ◌%◌, ◌<◌, Bool, true, false, [], ◌∷◌, Bytes, codes, str_eq, str_eq_iff, half_mod,
  positive, ◌==◌, if◌then◌else◌, ◌≡◌, refl, sym, ap, ◌∙◌, arith, All, Bool-cases, inl, inr, subst,
}
use multi_protocol_proxy.Decimal.{itoa, digits, lt_wf, parse_int_or_default, parse_loop}
use multi_protocol_proxy.Decimal.RoundTrip.{digits_round, parse_int-itoa}
use multi_protocol_proxy.Pac.{is_space, trim_left, trim_right, trim_space, trim_cons}

abbrev pub IsInk : Bytes → Type 0
IsInk s = All (λ c. is_space c ≡ false) s

ite-IsInk : {P : Type 0} (d : Dec P) (s t : Bytes) → (P → IsInk s) → IsInk t → IsInk (ite d s t)
ite-IsInk (yes p) s t some_left all = some_left p
ite-IsInk (no n) s t some_left all = all

digits-IsInk : (i : ℕ) (out : Bytes) → IsInk out → IsInk (digits i out)
digits-IsInk i =
    WellFounded.induction lt_wf {C = λ m. (out : Bytes) → IsInk out → IsInk (digits m out)} i
      λ m ih out ink. subst IsInk (sym (digits_round m out)) (
        ite-IsInk (dec_lt 0 m) _ out
          (λ left. ih (m / 10) (omega (arith, left)) ((b'0' + m % 10) ∷ out) (ground arith, ink))
          ink)

itoa-IsInk : (i : ℕ) → IsInk (itoa i)
unfolding itoa
itoa-IsInk i = go (i == 0) (positive i)
  where
    go : (b c : Bool) → IsInk (if b then b'0' ∷ [] else if c then digits i [] else [])
    go true c = (refl, tt)
    go false true = digits-IsInk i [] tt
    go false false = tt

trim_left-IsInk : (s : Bytes) → IsInk s → trim_left s ≡ s
unfolding trim_left
trim_left-IsInk [] ink = refl
trim_left-IsInk (c ∷ s) ink = rw (ink.0) refl

trim_right-IsInk : (s : Bytes) → IsInk s → trim_right s ≡ s
unfolding trim_right
trim_right-IsInk [] ink = refl
trim_right-IsInk (c ∷ s) ink = ap (trim_cons c) (trim_right-IsInk s ink.1) ∙ go s
  where
    go : (s : Bytes) → trim_cons c s ≡ c ∷ s
    go [] = rw (ink.0) refl
    go (d ∷ s) = refl

pub trim_space-itoa : (i : ℕ) → trim_space (itoa i) ≡ itoa i
unfolding trim_space
trim_space-itoa i =
    ap trim_right (trim_left-IsInk (itoa i) (itoa-IsInk i))
    ∙ trim_right-IsInk (itoa i) (itoa-IsInk i)

-- No number reads "cancel".
pub itoa-ne-cancel : (i : ℕ) → i < half_mod → str_eq (itoa i) (codes "cancel") ≡ false
unfolding parse_int_or_default parse_loop str_eq
itoa-ne-cancel i small = elim (Bool-cases (str_eq (itoa i) (codes "cancel"))) [
  | inr e ↦ e
  | inl e ↦
      let same = (str_eq_iff (itoa i) (codes "cancel")).0 e in
      let read = parse_int-itoa i (i + 1) small in
      let other = ap (λ s. parse_int_or_default s (i + 1)) same in
      absurd (omega (arith, sym read ∙ other))
]
