-- ===== src/Common/Bits.antt =====
-- A mask bounds what it lets through, as a shard index is bounded.
use Prim.Native.Nat.{ℕ, zero, suc, ◌/◌, ◌≤◌, min, bit_and, digits, bit_and-bitwise}
use native.Mathlib.Omega.{arith}

-- In the definition by digits, each digit of the mask bounds the result's.
masked-le : (steps value mask : ℕ) → digits (λ rest. zero) min steps value mask ≤ mask
masked-le zero value mask = omega arith
masked-le (suc steps) zero mask = omega arith
masked-le (suc steps) (suc value) mask = omega (arith, masked-le steps (suc value / 2) (mask / 2))

pub bit_and-le : (value mask : ℕ) → bit_and value mask ≤ mask
bit_and-le value mask = omega (arith, bit_and-bitwise value mask, masked-le value value mask)
