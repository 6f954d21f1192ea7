-- ===== src/Signal/Exact.antt =====
-- The number that the bits of a payload spell, in exact arithmetic, and extractRaw of
-- frontend/copilot/src/protocol/decode.ts, which adds it up in doubles.
use discodb.Prelude.{
  true, false, ℕ, zero, suc, ◌+◌, ◌-◌, ◌*◌, ◌/◌, ◌^◌, ◌<◌, ◌≤◌, ◌≡◌, refl, ap, ◌∙◌, bit_and, Bool,
  List, length, get_or, ltb, ◌==◌, if◌then◌else◌, arith, nearest, nearest-exact,
}
use native.Mathlib.Nat.{pow-suc, pow-le-pow_right}
use discodb.Prelude.Bits.{bit_and_mask}
use discodb.Signal.Defs.{
  ByteOrder, little, big, byte_of, bit_in_byte, sum_little, walk_big, extract_unsigned,
}

-- Intel, from bit `i` on.
unfoldable pub little_value : List ℕ → ℕ → ℕ → ℕ → ℕ → ℕ
little_value bs start i zero value = value
little_value bs start i (suc n) value =
    let at = start + i in
    let next =
      if ltb (byte_of at) (length bs)
      then value + bit_and (get_or bs (byte_of at) 0 / 2 ^ bit_in_byte at) 1 * 2 ^ i
      else value in
    little_value bs start (i + 1) n next

-- Motorola, from the highest bit on.
unfoldable pub big_value : List ℕ → ℕ → ℕ → ℕ → ℕ → ℕ
big_value bs byte bit zero value = value
big_value bs byte bit (suc n) value =
    let next =
      if ltb byte (length bs)
      then value * 2 + bit_and (get_or bs byte 0 / 2 ^ bit) 1
      else value * 2 in
    let crossed = big_value bs (byte + 1) 7 n next in
    let inside = big_value bs byte (bit - 1) n next in if bit == 0 then crossed else inside

-- Whole.
unfoldable pub unsigned_value : List ℕ → ℕ → ℕ → ByteOrder → ℕ
unsigned_value bs start n little = little_value bs start 0 n 0
unsigned_value bs start n big = big_value bs (byte_of start) (bit_in_byte start) n 0

pub bit_and_one : (a : ℕ) → bit_and a 1 < 2
bit_and_one a = omega (arith, bit_and_mask 1 a)

-- A number of `k` bits, at most 53, is a double.
nearest_below : (k n : ℕ) → n < 2 ^ k → k ≤ 53 → nearest n ≡ n
nearest_below k n h l =
    let m : 2 ^ k ≤ 2 ^ 53 = pow-le-pow_right (omega arith) l in nearest-exact n (omega arith)

pub doubled : (k : ℕ) → 2 ^ (k + 1) ≡ 2 * 2 ^ k
doubled k = ap (λ j. 2 ^ j) {x = k + 1} {y = suc k} (omega arith) ∙ pow-suc 2 k ∙ omega arith

-- One more bit on top, or below.
on_top : (v g p : ℕ) → v < p → g < 2 → v + g * p < 2 * p
on_top v zero p h l = omega arith
on_top v (suc zero) p h l = omega arith
on_top v (suc (suc g)) p h l = absurd (omega arith)

if_below : (b : Bool) (x y p : ℕ) → x < p → y < p → (if b then x else y) < p
if_below true x y p h l = h
if_below false x y p h l = l

sum_little-exact :
    (bs : List ℕ) (start i n value : ℕ)
    → value < 2 ^ i
    → i + n ≤ 53
    → sum_little bs start i n value ≡ little_value bs start i n value
unfolding sum_little little_value
sum_little-exact bs start i zero value h l = refl
sum_little-exact bs start i (suc n) value h l =
    let at = start + i in
    let g = bit_and (get_or bs (byte_of at) 0 / 2 ^ bit_in_byte at) 1 in
    let grown : value + g * 2 ^ i < 2 ^ (i + 1) =
      omega (arith, doubled i, on_top value g (2 ^ i) h (bit_and_one _)) in
    rw (nearest_below (i + 1) (value + g * 2 ^ i) grown (omega arith)) (
      sum_little-exact bs start (i + 1) n
        (if ltb (byte_of at) (length bs) then value + g * 2 ^ i else value)
        (if_below (ltb (byte_of at) (length bs)) _ _ _ grown (omega (arith, doubled i)))
        (omega arith))

walk_big-exact :
    (bs : List ℕ) (byte bit k n value : ℕ)
    → value < 2 ^ k
    → k + n ≤ 53
    → walk_big bs byte bit n value ≡ big_value bs byte bit n value
unfolding walk_big big_value
walk_big-exact bs byte bit k zero value h l = refl
walk_big-exact bs byte bit k (suc n) value h l =
    let g = bit_and (get_or bs byte 0 / 2 ^ bit) 1 in
    let grown : value * 2 + g < 2 ^ (k + 1) =
      omega (arith, doubled k, bit_and_one (get_or bs byte 0 / 2 ^ bit)) in
    let next = if ltb byte (length bs) then value * 2 + g else value * 2 in
    let small : next < 2 ^ (k + 1) =
      if_below (ltb byte (length bs)) _ _ _ grown (omega (arith, doubled k)) in
    rw
      (
        nearest_below (k + 1) (value * 2 + g) grown (omega arith),
        walk_big-exact bs (byte + 1) 7 (k + 1) n next small (omega arith),
        walk_big-exact bs byte (bit - 1) (k + 1) n next small (omega arith),
      )
      refl

-- The copilot's sum is exact for at most 53 bits.
pub extract_unsigned-exact :
    (bs : List ℕ) (start n : ℕ) (order : ByteOrder)
    → n ≤ 53
    → extract_unsigned bs start n order ≡ unsigned_value bs start n order
unfolding extract_unsigned unsigned_value
extract_unsigned-exact bs start n little l =
    sum_little-exact bs start 0 n 0 (omega arith) (omega (arith, l))
extract_unsigned-exact bs start n big l =
    walk_big-exact bs (byte_of start) (bit_in_byte start) 0 n 0 (omega arith) (omega (arith, l))
