-- ===== src/Prelude/Int.antt =====
-- Go's signed integers: ℤ over the native numbers, and the wrap-around of int64.
use Prim.Native.Nat.{ℕ, suc, ◌-◌, ◌*◌, ◌^◌, ◌%◌, ◌≤◌, ◌<◌, pred}
use mathlib.Core.Path.{◌≡◌}
use mathlib.Core.Logic.{◌↔◌}
use mathlib.Core.Bool.{Bool, true, false}
use native.Mathlib.Omega.{arith}
use fw_id_agent.Prelude.Tests.{ltb, ◌==◌, if◌then◌else◌}

-- `negsuc n` is -(n + 1).
pub data ℤ : Type 0 where
  pos : ℕ → ℤ
  negsuc : ℕ → ℤ

infix 50 ◌==ℤ◌
abbrev pub ◌==ℤ◌ : ℤ → ℤ → Bool
pos m ==ℤ pos n = m == n
negsuc m ==ℤ negsuc n = m == n
pos m ==ℤ negsuc n = false
negsuc m ==ℤ pos n = false

pub ==ℤ_iff : (a b : ℤ) → ((a ==ℤ b) ≡ true) ↔ (a ≡ b)
==ℤ_iff (pos m) (pos n) = ground arith
==ℤ_iff (negsuc m) (negsuc n) = ground arith
==ℤ_iff (pos m) (negsuc n) = ground arith
==ℤ_iff (negsuc m) (pos n) = ground arith

-- The test `z < 0`.
abbrev pub is_neg : ℤ → Bool
is_neg (pos n) = false
is_neg (negsuc n) = true

-- The test `0 < z`.
abbrev pub is_pos : ℤ → Bool
is_pos (pos n) = ltb 0 n
is_pos (negsuc n) = false

-- -n, as an integer.
abbrev pub neg_ℕ : ℕ → ℤ
neg_ℕ n = if n == 0 then pos 0 else negsuc (pred n)

abbrev pub scale : ℤ → ℕ → ℤ
scale (pos n) k = pos (n * k)
scale (negsuc n) k = neg_ℕ (suc n * k)

abbrev pub int64_half : ℕ
int64_half = 2 ^ 63

abbrev pub int64_mod : ℕ
int64_mod = 2 ^ 64

-- The bit pattern of an integer modulo 2 ^ 64.
abbrev pub bits64 : ℤ → ℕ
bits64 (pos n) = n % int64_mod
bits64 (negsuc n) = int64_mod - 1 - n % int64_mod

-- The int64 that a bit pattern stands for.
abbrev pub signed64 : ℕ → ℤ
signed64 m = if ltb m int64_half then pos m else negsuc (int64_mod - 1 - m)

-- The int64 that an exact result wraps to.
abbrev pub wrap64 : ℤ → ℤ
wrap64 z = signed64 (bits64 z)

-- Inside the range of int64 nothing wraps.
pub wrap64_pos : (n : ℕ) → n < int64_half → wrap64 (pos n) ≡ pos n
wrap64_pos n h = ground arith

-- In the upper half of the bit patterns a product comes out negative.
pub wrap64_overflow : (n : ℕ) → int64_half ≤ n → n < int64_mod → is_neg (wrap64 (pos n)) ≡ true
wrap64_overflow n h k = ground arith
