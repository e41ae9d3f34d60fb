-- ===== src/Prelude/Signed.antt =====
-- Whole numbers over the native ℕ, as far as a balance needs them.
use Prim.Native.Nat.{ℕ, ◌+◌, ◌-◌, ◌≤◌, ◌<◌}
use mathlib.Core.Path.{◌≡◌, refl}
use mathlib.Core.Bool.{Bool, true, false}
use native.Mathlib.Omega.{arith}
use multi_protocol_proxy.Prelude.Tests.{ltb, leb, if◌then◌else◌}

-- `negsuc n` is -(n + 1).
pub data ℤ : Type 0 where
  pos negsuc : ℕ → ℤ

abbrev pub plus : ℤ → ℕ → ℤ
plus (pos a) k = pos (a + k)
plus (negsuc a) k = if ltb a k then pos (k - (a + 1)) else negsuc (a - k)

abbrev pub minus : ℤ → ℕ → ℤ
minus (pos a) k = if leb k a then pos (a - k) else negsuc (k - a - 1)
minus (negsuc a) k = negsuc (a + k)

-- `x > k`
abbrev pub exceeds : ℤ → ℕ → Bool
exceeds (pos a) k = ltb k a
exceeds (negsuc a) k = false

-- `x >= k`, for a `k` above 0
abbrev pub reaches : ℤ → ℕ → Bool
reaches (pos a) k = leb k a
reaches (negsuc a) k = false

-- How far the number is below `k`, and 0 if it is not.
abbrev pub below : ℕ → ℤ → ℕ
below k (pos a) = k - a
below k (negsuc a) = k + (a + 1)

abbrev pub at_most : ℤ → ℕ → ℤ
at_most x k = if exceeds x k then pos k else x

pub exceeds-at_most : (x : ℤ) (k : ℕ) → exceeds (at_most x k) k ≡ false
exceeds-at_most (pos a) k = ground arith
exceeds-at_most (negsuc a) k = refl

pub below-at_most : (x : ℤ) (k : ℕ) → below k (at_most x k) ≡ below k x
below-at_most (pos a) k = ground arith
below-at_most (negsuc a) k = refl

pub below-plus : (x : ℤ) (k n : ℕ) → below k (plus x n) ≡ below k x - n
below-plus (pos a) k n = ground arith
below-plus (negsuc a) k n = ground arith

-- Taking `n` away puts a number that is not above `k` further below it by `n`.
pub below-minus : (x : ℤ) (k n : ℕ) → exceeds x k ≡ false → below k (minus x n) ≡ below k x + n
below-minus (pos a) k n h = ground arith
below-minus (negsuc a) k n h = ground arith

pub exceeds-minus : (x : ℤ) (k n : ℕ) → exceeds x k ≡ false → exceeds (minus x n) k ≡ false
exceeds-minus (pos a) k n h = ground arith
exceeds-minus (negsuc a) k n h = refl

pub reaches-below : (x : ℤ) (k : ℕ) → 0 < k → below k x ≡ 0 → reaches x k ≡ true
reaches-below (pos a) k h e = ground arith
reaches-below (negsuc a) k h e = absurd (omega arith)

pub below-reaches : (x : ℤ) (k m : ℕ) → reaches x k ≡ true → k ≤ m → below m x ≤ m - k
below-reaches (pos a) k m e h = ground arith
below-reaches (negsuc a) k m e h = cc (e)

pub below_le : (x : ℤ) (k m : ℕ) → k ≤ m → below k x ≤ below m x
below_le (pos a) k m h = ground arith
below_le (negsuc a) k m h = ground arith

pub below-at_most_le : (x : ℤ) (k m : ℕ) → k ≤ m → below k (at_most x m) ≡ below k x
below-at_most_le (pos a) k m h = ground arith
below-at_most_le (negsuc a) k m h = refl
