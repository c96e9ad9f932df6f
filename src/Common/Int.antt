-- ===== src/Common/Int.antt =====
-- Signed numbers over the native naturals, and the casts between `u32` and `i32`.
use Prim.Native.Nat.{ℕ, zero, suc, ◌+◌, ◌-◌, ◌^◌}
use mathlib.Core.Bool.{Bool, true, false}
use bitcoin_chain_graph.Common.Tests.{ltb, if◌then◌else◌}

pub data ℤ : Type 0 where
  pos : ℕ → ℤ
  negsuc : ℕ → ℤ

-- `h as i32` of a `u32`.
unfoldable pub as_i32 : ℕ → ℤ
as_i32 h = if ltb h (2 ^ 31) then pos h else negsuc (2 ^ 32 - h - 1)

-- `i as u32` of an `i32`.
unfoldable pub as_u32 : ℤ → ℕ
as_u32 (pos n) = n
as_u32 (negsuc n) = 2 ^ 32 - (n + 1)

-- `<` of two signed numbers.
unfoldable pub ltz : ℤ → ℤ → Bool
ltz (pos a) (pos b) = ltb a b
ltz (pos a) (negsuc b) = false
ltz (negsuc a) (pos b) = true
ltz (negsuc a) (negsuc b) = ltb b a

-- `+ 1`, for a number below the largest.
unfoldable pub sucz : ℤ → ℤ
sucz (pos n) = pos (suc n)
sucz (negsuc zero) = pos 0
sucz (negsuc (suc n)) = negsuc n
