-- ===== src/Prelude/Words.antt =====
-- Go's `int` and `int64`, as 64-bit patterns: a pattern below 2^63 stands for itself, any other
-- for the pattern less 2^64. Sums, differences and products wrap.
use Prim.Native.Nat.{ℕ, ◌+◌, ◌-◌, ◌*◌, ◌%◌, ◌^◌, ◌<◌}
use mathlib.Core.Path.{◌≡◌}
use mathlib.Core.Bool.{Bool, true}
use mathlib.Core.Logic.{◌↔◌}
use native.Mathlib.Omega.{arith}
use multi_protocol_proxy.Prelude.Tests.{ltb}

abbrev pub word_mod : ℕ
word_mod = 2 ^ 64

abbrev pub half_mod : ℕ
half_mod = 2 ^ 63

abbrev pub add64 : ℕ → ℕ → ℕ
add64 a b = (a + b) % word_mod

abbrev pub sub64 : ℕ → ℕ → ℕ
sub64 a b = (a + word_mod - b) % word_mod

abbrev pub mul64 : ℕ → ℕ → ℕ
mul64 a b = a * b % word_mod

-- `a < b` on signed words: the patterns are moved up by 2^63 and compared.
abbrev pub slt : ℕ → ℕ → Bool
slt a b = ltb ((a + half_mod) % word_mod) ((b + half_mod) % word_mod)

-- `0 < a` on signed words.
abbrev pub positive : ℕ → Bool
positive a = slt 0 a

pub positive-bounds : (a : ℕ) → a < word_mod → positive a ≡ true → (0 < a) × (a < half_mod)
positive-bounds a w h = ground arith

pub positive-of_bounds : (a : ℕ) → 0 < a → a < half_mod → positive a ≡ true
positive-of_bounds a w h = ground arith

pub slt-lt : (a b : ℕ) → a < half_mod → b < half_mod → slt a b ≡ true → a < b
slt-lt a b p q h = ground arith

pub slt_iff : (a b : ℕ) → a < half_mod → b < half_mod → (slt a b ≡ true) ↔ (a < b)
slt_iff a b p q = ground arith
