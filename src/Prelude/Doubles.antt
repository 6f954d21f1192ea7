-- ===== src/Prelude/Doubles.antt =====
-- Doubles that hold a natural number, below 2^1024: addition rounds to the nearest double, which has
-- 53 significant bits, and a tie to the even one.
use Prim.Native.Nat.{ℕ, zero, suc, ◌+◌, ◌-◌, ◌*◌, ◌/◌, ◌%◌, ◌^◌, ◌<◌}
use mathlib.Core.Path.{◌≡◌}
use mathlib.Core.Bool.{true, false, ◌&&◌, ◌||◌}
use native.Mathlib.Omega.{arith}
use discodb.Prelude.Integers.{ℤ, pos, negsuc}
use discodb.Prelude.Tests.{ltb, ◌==◌, if◌then◌else◌}

-- How many bits `n` has beyond 53, counted up to the fuel; a double has 971 at most.
unfoldable excess_bits : ℕ → ℕ → ℕ
excess_bits zero n = 0
excess_bits (suc fuel) n = elim (ltb n (2 ^ 53)) [ true ↦ 0 | false ↦ excess_bits fuel (n / 2) + 1 ]

-- `n` without its `e` lowest bits, rounded.
unfoldable rounded : ℕ → ℕ → ℕ
rounded e n =
    let q = n / 2 ^ e in
    let r = n % 2 ^ e in
    let is_up = ltb (2 ^ e) (2 * r) || (2 * r == 2 ^ e && q % 2 == 1) in
    (if is_up then q + 1 else q) * 2 ^ e

-- The double that is nearest to `n`.
unfoldable pub nearest : ℕ → ℕ
unfolding rounded excess_bits
nearest n = if ltb n (2 ^ 53) then n else rounded (excess_bits 971 n) n

-- A number of 53 bits is a double.
pub nearest-exact : (n : ℕ) → n < 2 ^ 53 → nearest n ≡ n
unfolding nearest
nearest-exact n h = let e : ltb n (2 ^ 53) ≡ true = ground arith in rw e

-- `Number` of a BigInt.
unfoldable pub number_of : ℤ → ℤ
number_of (pos n) = pos (nearest n)
number_of (negsuc n) = negsuc (nearest (n + 1) - 1)
