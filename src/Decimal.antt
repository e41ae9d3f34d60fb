-- ===== src/Decimal.antt =====
-- Decimal print and read: `itoa` of internal/proxy/server.go and cmd/proxy/main.go, and
-- `parseIntOrDefault` of internal/config/env.go.
pub mod RoundTrip
pub mod Digits
use mathlib.Core.Logic.{dite}
use mathlib.Core.WellFounded.{Acc, WellFounded}
use native.Mathlib.Decide.{dec_lt}
use multi_protocol_proxy.Prelude.{
  ℕ, zero, suc, ◌+◌, ◌-◌, ◌*◌, ◌/◌, ◌%◌, ◌<◌, Bool, true, false, ◌&&◌, List, [], ◌∷◌, Option, none,
  some, Bytes, arith, positive, add64, mul64, str_eq, leb, ◌==◌, if◌then◌else◌,
}

below-Acc : (k n : ℕ) → n < k → Acc ◌<◌ n
below-Acc zero n h = absurd (omega arith)
below-Acc (suc k) n h = Acc.intro n λ m lt. below-Acc k m (omega arith)

unfoldable pub lt_wf : WellFounded ◌<◌
unfolding below-Acc
lt_wf = record { apply = λ n. below-Acc (suc n) n (omega arith) }

-- `for i > 0 { result = string('0'+i%10) + result; i /= 10 }`
itoa_loop : (i : ℕ) → Acc ◌<◌ i → Bytes → Bytes
itoa_loop i (Acc.intro _ smaller) result =
    dite (dec_lt 0 i)
      (λ h. itoa_loop (i / 10) (smaller (i / 10) (omega arith)) ((b'0' + i % 10) ∷ result))
      (λ _. result)

unfoldable pub digits : ℕ → Bytes → Bytes
unfolding itoa_loop lt_wf dec_lt
digits i = itoa_loop i (lt_wf.apply i)

-- A negative word, 2^63 or more, makes no round.
unfoldable pub itoa : ℕ → Bytes
unfolding digits
itoa i = if i == 0 then b'0' ∷ [] else if positive i then digits i [] else []

-- The loop over the characters of `s`.
unfoldable pub parse_loop : Bytes → ℕ → ℕ → ℕ
parse_loop [] result default = result
parse_loop (c ∷ s) result default =
    let rest = parse_loop s (add64 (mul64 result 10) (c - b'0')) default in
    if leb b'0' c && leb c b'9' then rest else default

unfoldable pub parse_int_or_default : Bytes → ℕ → ℕ
unfolding parse_loop
parse_int_or_default s default = if str_eq s [] then default else parse_loop s 0 default
