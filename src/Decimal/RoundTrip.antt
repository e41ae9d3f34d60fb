-- ===== src/Decimal/RoundTrip.antt =====
-- `parseIntOrDefault` of internal/config/env.go on what `itoa` of internal/proxy/server.go prints.
use mathlib.Core.List.{cons-ne-nil}
use mathlib.Core.Logic.{ite, dite}
use mathlib.Core.WellFounded
use mathlib.Core.WellFounded.{Acc, Acc-prop}
use native.Mathlib.Decide.{dec_lt}
use multi_protocol_proxy.Prelude.{
  ℕ, ◌+◌, ◌/◌, ◌%◌, ◌<◌, ◌≡◌, ◌≢◌, false, [], ◌∷◌, Bytes, arith, half_mod, str_eq, str_eq_iff,
}
use multi_protocol_proxy.Decimal.{lt_wf, itoa_loop, digits, itoa, parse_loop, parse_int_or_default}

-- Any two proofs that a number is accessible are equal, so the loop does not depend on its proof.
loop_round :
    (i : ℕ) (w : Acc ◌<◌ i) (w' : Acc ◌<◌ (i / 10)) (out : Bytes)
    → itoa_loop i w out ≡ ite (dec_lt 0 i) (itoa_loop (i / 10) w' ((b'0' + i % 10) ∷ out)) out
unfolding itoa_loop
loop_round i (Acc.intro _ smaller) w' out = λ j.
    dite (dec_lt 0 i)
      (λ h.
        itoa_loop (i / 10) (Acc-prop (smaller (i / 10) (omega arith)) w' j) ((b'0' + i % 10) ∷ out))
      (λ _. out)

pub digits_round :
    (i : ℕ) (out : Bytes)
    → digits i out ≡ ite (dec_lt 0 i) (digits (i / 10) ((b'0' + i % 10) ∷ out)) out
unfolding digits
digits_round i = loop_round i (lt_wf.apply i) (lt_wf.apply (i / 10))

-- The last digit of `i` completes what was read of the digits before it.
parse_last :
    (i d : ℕ) (out : Bytes)
    → i < half_mod
    → parse_loop ((b'0' + i % 10) ∷ out) (i / 10) d ≡ parse_loop out i d
unfolding parse_loop
parse_last i d out h = ground arith

parse-digits :
    (d i : ℕ) (out : Bytes) → i < half_mod → parse_loop (digits i out) 0 d ≡ parse_loop out i d
parse-digits d i =
    WellFounded.induction lt_wf
      {C = λ m. (out : Bytes) → m < half_mod → parse_loop (digits m out) 0 d ≡ parse_loop out m d} i
      λ m ih out fits. grind (arith, digits_round m out, parse_last m d out fits, ih (m / 10))

digits-ne-nil : (i : ℕ) (out : Bytes) → out ≢ [] → digits i out ≢ []
digits-ne-nil i =
    WellFounded.induction lt_wf {C = λ m. (out : Bytes) → out ≢ [] → digits m out ≢ []} i
      λ m ih out h. grind (arith, digits_round m out, ih (m / 10))

itoa-ne-nil : (i : ℕ) → i < half_mod → itoa i ≢ []
unfolding itoa
itoa-ne-nil i h =
    ground (arith, digits_round i [], digits-ne-nil (i / 10) _ (cons-ne-nil (b'0' + i % 10) []))

parse-itoa : (i d : ℕ) → i < half_mod → parse_loop (itoa i) 0 d ≡ i
unfolding itoa parse_loop
parse-itoa i d h = ground (arith, parse-digits d i [] h)

-- Every int that is not negative is read back from its decimal print, whatever the default.
pub parse_int-itoa : (i d : ℕ) → i < half_mod → parse_int_or_default (itoa i) d ≡ i
unfolding parse_int_or_default
parse_int-itoa i d h =
    let filled : str_eq (itoa i) [] ≡ false =
      ground (arith, str_eq_iff (itoa i) [], itoa-ne-nil i h) in
    rw filled (parse-itoa i d h)
