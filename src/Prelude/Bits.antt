-- ===== src/Prelude/Bits.antt =====
-- The masks and single bits of the source as arithmetic, at every width.
use Prim.Native.Nat.{
  ℕ, zero, suc, ◌+◌, ◌-◌, ◌*◌, ◌/◌, ◌%◌, ◌^◌, ◌≤◌, ◌<◌, min, max, bit_and, bit_or, digits, bitwise,
  bit_and-bitwise, bit_or-bitwise,
}
use mathlib.Core.Path.{◌≡◌, refl, ap, subst}
use native.Mathlib.Omega.{arith}
use native.Mathlib.Nat.{pow-suc, one-le-pow}

-- The native operations recur on binary digits with fuel; enough fuel is as good as more.
module _ (z : ℕ → ℕ) (f : ℕ → ℕ → ℕ) where
  digits-fuel : (n m a b : ℕ) → a ≤ n → a ≤ m → digits z f n a b ≡ digits z f m a b
  digits-fuel zero zero a b p q = refl
  digits-fuel zero (suc m) zero b p q = refl
  digits-fuel zero (suc m) (suc a) b p q = absurd (omega arith)
  digits-fuel (suc n) zero zero b p q = refl
  digits-fuel (suc n) zero (suc a) b p q = absurd (omega arith)
  digits-fuel (suc n) (suc m) zero b p q = refl
  digits-fuel (suc n) (suc m) (suc a) b p q =
      rw (digits-fuel n m (suc a / 2) (b / 2) (omega arith) (omega arith))

  bitwise-lowest :
      (a b : ℕ)
      → bitwise z f (suc a) b ≡ bitwise z f (suc a / 2) (b / 2) * 2 + f (suc a % 2) (b % 2)
  bitwise-lowest a b =
      omega (arith, digits-fuel a (suc a / 2) (suc a / 2) (b / 2) (omega arith) (omega arith))

bit_and-lowest : (a b : ℕ) → bit_and a b ≡ bit_and (a / 2) (b / 2) * 2 + min (a % 2) (b % 2)
bit_and-lowest zero b = simp bit_and-bitwise (omega arith)
bit_and-lowest (suc a) b = simp bit_and-bitwise (bitwise-lowest (λ y. 0) min a b)

bit_or-lowest : (a b : ℕ) → bit_or a b ≡ bit_or (a / 2) (b / 2) * 2 + max (a % 2) (b % 2)
bit_or-lowest zero b = simp bit_or-bitwise (omega arith)
bit_or-lowest (suc a) b = simp bit_or-bitwise (bitwise-lowest (λ y. y) max a b)

bit_and-zero_below : (n a : ℕ) → a ≤ n → bit_and a 0 ≡ 0
bit_and-zero_below n zero h = refl
bit_and-zero_below zero (suc a) h = absurd (omega arith)
bit_and-zero_below (suc n) (suc a) h =
    omega (arith, bit_and-lowest (suc a) 0, bit_and-zero_below n (suc a / 2) (omega arith))

bit_or-zero_below : (n a : ℕ) → a ≤ n → bit_or a 0 ≡ a
bit_or-zero_below n zero h = refl
bit_or-zero_below zero (suc a) h = absurd (omega arith)
bit_or-zero_below (suc n) (suc a) h =
    omega (arith, bit_or-lowest (suc a) 0, bit_or-zero_below n (suc a / 2) (omega arith))

pub bit_and-zero : (a : ℕ) → bit_and a 0 ≡ 0
bit_and-zero a = bit_and-zero_below a a (omega arith)

pub bit_or-zero : (a : ℕ) → bit_or a 0 ≡ a
bit_or-zero a = bit_or-zero_below a a (omega arith)

double-shift : (q k : ℕ) → q * 2 ^ suc k ≡ 2 * (q * 2 ^ k)
double-shift q k = omega (arith, ap (λ (t : ℕ). q * t) (pow-suc 2 k))

mask_fields : (k q r : ℕ) → r < 2 ^ k → bit_and (q * 2 ^ k + r) (2 ^ k - 1) ≡ r
mask_fields zero q r h = rw bit_and-zero (omega arith)
mask_fields (suc k) q r h = ground (
  arith,
  bit_and-lowest (q * 2 ^ suc k + r) (2 ^ suc k - 1),
  double-shift q k,
  pow-suc 2 k,
  one-le-pow k 2,
  mask_fields k q (r / 2) (omega arith),
)

-- `a & (2^k - 1)`: the `k` lowest bits are a remainder.
pub bit_and_mask : (k a : ℕ) → bit_and a (2 ^ k - 1) ≡ a % 2 ^ k
bit_and_mask k a = ground (arith, one-le-pow k 2, mask_fields k (a / 2 ^ k) (a % 2 ^ k))

bit_fields :
    (k q b r : ℕ) → r < 2 ^ k → b < 2 → bit_and ((2 * q + b) * 2 ^ k + r) (2 ^ k) ≡ b * 2 ^ k
bit_fields zero q b r h hb = omega (
  arith,
  bit_and-lowest ((2 * q + b) * 2 ^ 0 + r) 1,
  bit_and-zero (((2 * q + b) * 2 ^ 0 + r) / 2),
)
bit_fields (suc k) q b r h hb = ground (
  arith,
  bit_and-lowest ((2 * q + b) * 2 ^ suc k + r) (2 ^ suc k),
  double-shift (2 * q + b) k,
  double-shift b k,
  pow-suc 2 k,
  bit_fields k q b (r / 2) (omega arith) hb,
)

around_bit : (p a : ℕ) → (2 * (a / p / 2) + a / p % 2) * p + a % p ≡ a
around_bit p a = let e : 2 * (a / p / 2) + a / p % 2 ≡ a / p = omega arith in rw e (omega arith)

-- `a & (1 << k)`: one bit, in its place.
pub bit_and_bit : (k a : ℕ) → bit_and a (2 ^ k) ≡ a / 2 ^ k % 2 * 2 ^ k
bit_and_bit k a =
    subst (λ t. bit_and t (2 ^ k) ≡ a / 2 ^ k % 2 * 2 ^ k) (around_bit (2 ^ k) a)
      (bit_fields k (a / 2 ^ k / 2) (a / 2 ^ k % 2) (a % 2 ^ k) (omega (arith, one-le-pow k 2))
        (omega arith))

-- `(q << k) | r` is a sum where `r` fits `k` bits.
pub bit_or_fields : (k q r : ℕ) → r < 2 ^ k → bit_or (q * 2 ^ k) r ≡ q * 2 ^ k + r
bit_or_fields zero q r h = ground (arith, bit_or-zero q)
bit_or_fields (suc k) q r h = ground (
  arith,
  bit_or-lowest (q * 2 ^ suc k) r,
  double-shift q k,
  bit_or_fields k q (r / 2) (omega arith),
)

set_fields :
    (k q r : ℕ) → r < 2 ^ k → bit_or (2 * q * 2 ^ k + r) (2 ^ k) ≡ 2 * q * 2 ^ k + 2 ^ k + r
set_fields zero q r h =
    omega (arith, bit_or-lowest (2 * q * 2 ^ 0 + r) 1, bit_or-zero ((2 * q * 2 ^ 0 + r) / 2))
set_fields (suc k) q r h = ground (
  arith,
  bit_or-lowest (2 * q * 2 ^ suc k + r) (2 ^ suc k),
  double-shift (2 * q) k,
  pow-suc 2 k,
  set_fields k q (r / 2) (omega arith),
)

-- `a | (1 << k)` where the bit is clear.
pub bit_or_bit : (k a : ℕ) → a / 2 ^ k % 2 ≡ 0 → bit_or a (2 ^ k) ≡ a + 2 ^ k
bit_or_bit k a h =
    subst (λ t. bit_or t (2 ^ k) ≡ t + 2 ^ k) whole
      (omega (arith, set_fields k (a / 2 ^ k / 2) (a % 2 ^ k) (omega (arith, one-le-pow k 2))))
  where
    whole : 2 * (a / 2 ^ k / 2) * 2 ^ k + a % 2 ^ k ≡ a
    whole = let e : 2 * (a / 2 ^ k / 2) ≡ a / 2 ^ k = omega arith in rw e (omega arith)

-- `a & (q << k)` is zero where `a` fits `k` bits.
pub bit_and_above : (k q a : ℕ) → a < 2 ^ k → bit_and a (q * 2 ^ k) ≡ 0
bit_and_above zero q a h =
    let e : a ≡ 0 = omega arith in rw e (omega (arith, bit_and-bitwise 0 (q * 2 ^ 0)))
bit_and_above (suc k) q a h = ground (
  arith,
  bit_and-lowest a (q * 2 ^ suc k),
  double-shift q k,
  bit_and_above k q (a / 2) (omega (arith, pow-suc 2 k)),
)

shifted_fields :
    (k c q r : ℕ) → r < 2 ^ k → bit_and (c * 2 ^ k + r) (q * 2 ^ k) ≡ bit_and c q * 2 ^ k
shifted_fields zero c q r h =
    let e : c * 2 ^ 0 + r ≡ c = omega arith in
    let f : q * 2 ^ 0 ≡ q = omega arith in rw (e, f) (omega arith)
shifted_fields (suc k) c q r h = ground (
  arith,
  bit_and-lowest (c * 2 ^ suc k + r) (q * 2 ^ suc k),
  double-shift c k,
  double-shift q k,
  double-shift (bit_and c q) k,
  pow-suc 2 k,
  shifted_fields k c q (r / 2) (omega arith),
)

-- `a & (q << k)` drops the `k` lowest bits.
pub bit_and_shifted : (k q a : ℕ) → bit_and a (q * 2 ^ k) ≡ bit_and (a / 2 ^ k) q * 2 ^ k
bit_and_shifted k q a =
    let e : a / 2 ^ k * 2 ^ k + a % 2 ^ k ≡ a = omega arith in
    subst (λ t. bit_and t (q * 2 ^ k) ≡ bit_and (a / 2 ^ k) q * 2 ^ k) e
      (shifted_fields k (a / 2 ^ k) q (a % 2 ^ k) (omega (arith, one-le-pow k 2)))
