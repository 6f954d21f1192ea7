-- ===== src/Signal/Agree.antt =====
-- The raw value of a signal is the number that its bits spell, and the two clients
-- (frontend/cockpit/src/protocol/decode.ts, frontend/copilot/src/protocol/decode.ts) agree on it up
-- to 53 bits.
use native.Mathlib.Nat.{pow-suc, div-eq_of_lt}
use discodb.Prelude.{
  pos, ℕ, zero, suc, ◌+◌, ◌-◌, ◌*◌, ◌/◌, ◌%◌, ◌^◌, ◌≤◌, ◌<◌, bit_and, bit_or, ◌≡◌, ◌⊎◌, inl, inr,
  refl, sym, subst, ap, ◌∙◌, Bool, true, false, List, [], ◌∷◌, length, get_or, some, ltb, leb, ◌==◌,
  nonzero, Bool-cases, if◌then◌else◌, arith,
}
use discodb.Prelude.Bits.{bit_and_mask, bit_or_bit}
use discodb.Signal.Defs.{
  extract_unsigned, ByteOrder, little, big, BitRange, byte_of, bit_in_byte, get_bit, ascending,
  sawtooth, signal_bit_order, or_bits, extract_raw,
}
use discodb.Signal.Exact.{
  bit_and_one, doubled, extract_unsigned-exact, little_value, big_value, unsigned_value,
}

-- The number that the bits of `order` spell, the first the least significant.
unfoldable pub spelled : List ℕ → List ℕ → ℕ
spelled bs [] = 0
spelled bs (b ∷ order) = get_bit bs b + 2 * spelled bs order

pub get_bit-lt : (bs : List ℕ) (b : ℕ) → get_bit bs b < 2
unfolding get_bit
get_bit-lt bs b = ground (arith, bit_and_one (get_or bs (byte_of b) 0 / 2 ^ bit_in_byte b))

pub spelled-lt : (bs order : List ℕ) → spelled bs order < 2 ^ length order
unfolding spelled
spelled-lt bs [] = omega arith
spelled-lt bs (b ∷ order) =
    omega (arith, get_bit-lt bs b, spelled-lt bs order, pow-suc 2 (length order))

or_step :
    (i raw g : ℕ)
    → raw < 2 ^ i
    → g < 2
    → (if nonzero g then bit_or raw (2 ^ i) else raw) ≡ raw + 2 ^ i * g
or_step i raw zero h l = omega arith
or_step i raw (suc zero) h l = ap (λ t. t) (bit_or_bit i raw clear) ∙ omega arith
  where
    clear : raw / 2 ^ i % 2 ≡ 0
    clear = ap (λ t. t % 2) (div-eq_of_lt h)
or_step i raw (suc (suc g)) h l = absurd (omega arith)

product_below : (p g q : ℕ) → g < 2 → q ≡ 2 * p → p * g ≤ p
product_below p zero q l e = omega arith
product_below p (suc zero) q l e = omega arith
product_below p (suc (suc g)) q l e = absurd (omega arith)

shift_in : (v p g s q : ℕ) → q ≡ 2 * p → v + p * g + q * s ≡ v + p * (g + 2 * s)
shift_in v p g s q e = rw e (grind arith)

or_bits-spelled :
    (bs order : List ℕ) (i raw : ℕ)
    → raw < 2 ^ i
    → or_bits bs order i raw ≡ raw + 2 ^ i * spelled bs order
unfolding or_bits spelled
or_bits-spelled bs [] i raw h = omega arith
or_bits-spelled bs (b ∷ order) i raw h = rw (or_step i raw (get_bit bs b) h (get_bit-lt bs b)) (
    or_bits-spelled bs order (i + 1) (raw + 2 ^ i * get_bit bs b) (
      omega (
        arith,
        h,
        doubled i,
        product_below (2 ^ i) (get_bit bs b) (2 ^ (i + 1)) (get_bit-lt bs b) (doubled i),
      ))
    ∙ shift_in raw (2 ^ i) (get_bit bs b) (spelled bs order) (2 ^ (i + 1)) (doubled i))

if_agree :
    (b : Bool) (f : List ℕ → ℕ) {x y : List ℕ} {u v : ℕ}
    → f x ≡ u
    → f y ≡ v
    → f (if b then x else y) ≡ (if b then u else v)
if_agree true f p q = p
if_agree false f p q = q

if_same :
    (b : Bool) (f : List ℕ → ℕ) {x y : List ℕ} {u : ℕ}
    → f x ≡ u
    → f y ≡ u
    → f (if b then x else y) ≡ u
if_same true f p q = p
if_same false f p q = q

pub length-ascending : (start n : ℕ) → length (ascending start n) ≡ n
unfolding ascending
length-ascending start zero = refl
length-ascending start (suc n) = ap suc (length-ascending (start + 1) n)

pub length-sawtooth :
    (byte bit n : ℕ) (bits : List ℕ) → length (sawtooth byte bit n bits) ≡ n + length bits
unfolding sawtooth
length-sawtooth byte bit zero bits = omega arith
length-sawtooth byte bit (suc n) bits =
    if_same (bit == 0) length
      (length-sawtooth (byte + 1) 7 n ((byte * 8 + bit) ∷ bits) ∙ omega arith)
      (length-sawtooth byte (bit - 1) n ((byte * 8 + bit) ∷ bits) ∙ omega arith)

masked : (k n x q v : ℕ) → (if ltb k n then v + x * q else v) ≡ v + q * (if leb n k then 0 else x)
masked k n x q v = by_test (Bool-cases (leb n k))
  where
    outside : leb n k ≡ true → ltb k n ≡ false
    outside e = ground arith

    inside : leb n k ≡ false → ltb k n ≡ true
    inside e = ground arith

    by_test :
        (leb n k ≡ true) ⊎ (leb n k ≡ false)
        → (if ltb k n then v + x * q else v) ≡ v + q * (if leb n k then 0 else x)
    by_test (inl e) = rw (e, outside e) (omega arith)
    by_test (inr e) = rw (e, inside e) (grind arith)

little_step :
    (bs : List ℕ) (at i value : ℕ)
    → (if ltb (byte_of at) (length bs)
        then value + bit_and (get_or bs (byte_of at) 0 / 2 ^ bit_in_byte at) 1 * 2 ^ i
        else value)
      ≡ value + 2 ^ i * get_bit bs at
unfolding get_bit
little_step bs at i value =
    masked (byte_of at) (length bs) (bit_and (get_or bs (byte_of at) 0 / 2 ^ bit_in_byte at) 1)
      (2 ^ i) value

-- The Intel loop of the copilot adds up the ascending bits.
little_value-spelled :
    (bs : List ℕ) (start i n value : ℕ)
    → little_value bs start i n value ≡ value + 2 ^ i * spelled bs (ascending (start + i) n)
unfolding little_value spelled ascending
little_value-spelled bs start i zero value = omega arith
little_value-spelled bs start i (suc n) value = rw (little_step bs (start + i) i value) (
    little_value-spelled bs start (i + 1) n (value + 2 ^ i * get_bit bs (start + i))
    ∙ shift_in value (2 ^ i) (get_bit bs (start + i)) (spelled bs (ascending (start + (i + 1)) n))
        (2 ^ (i + 1)) (doubled i)
    ∙ ap (λ k. value + 2 ^ i * (get_bit bs (start + i) + 2 * spelled bs (ascending k n)))
        {x = start + (i + 1)} {y = start + i + 1} (omega arith))

big_step :
    (bs bits : List ℕ) (byte bit : ℕ)
    → bit < 8
    → (if ltb byte (length bs)
        then spelled bs bits * 2 + bit_and (get_or bs byte 0 / 2 ^ bit) 1
        else spelled bs bits * 2)
      ≡ spelled bs ((byte * 8 + bit) ∷ bits)
unfolding spelled get_bit
big_step bs bits byte bit h = rw (whole, local) (ground arith)
  where
    whole : (byte * 8 + bit) / 2 ^ 3 ≡ byte
    whole = omega arith

    local : bit_and (byte * 8 + bit) 7 ≡ bit
    local = omega (arith, bit_and_mask 3 (byte * 8 + bit))

-- The Motorola loop of the copilot builds the value of the bits that the walk puts in front.
big_value-spelled :
    (bs : List ℕ) (byte bit n : ℕ) (bits : List ℕ)
    → bit < 8
    → big_value bs byte bit n (spelled bs bits) ≡ spelled bs (sawtooth byte bit n bits)
unfolding big_value sawtooth
big_value-spelled bs byte bit zero bits h = refl
big_value-spelled bs byte bit (suc n) bits h = rw (big_step bs bits byte bit h) (
    sym (
      if_agree (bit == 0) (spelled bs)
        (sym (big_value-spelled bs (byte + 1) 7 n ((byte * 8 + bit) ∷ bits) (omega arith)))
        (sym (big_value-spelled bs byte (bit - 1) n ((byte * 8 + bit) ∷ bits) (omega arith)))))

from_zero : (f : ℕ → ℕ) (start : ℕ) → 0 + 2 ^ 0 * f (start + 0) ≡ f start
from_zero f start = omega (arith, ap f {x = start + 0} {y = start} (omega arith))

pub unsigned_value-spelled :
    (bs : List ℕ) (sig : BitRange)
    → unsigned_value bs sig.bit_start sig.bit_length sig.byte_order
      ≡ spelled bs (signal_bit_order sig)
unfolding unsigned_value signal_bit_order spelled
unsigned_value-spelled bs sig = by_order sig.byte_order
  where
    by_order :
        (o : ByteOrder)
        → unsigned_value bs sig.bit_start sig.bit_length o
          ≡ spelled bs (signal_bit_order (record sig { byte_order = o }))
    by_order little =
        little_value-spelled bs sig.bit_start 0 sig.bit_length 0
        ∙ from_zero (λ k. spelled bs (ascending k sig.bit_length)) sig.bit_start
    by_order big =
        big_value-spelled bs (byte_of sig.bit_start) (bit_in_byte sig.bit_start) sig.bit_length []
          (omega (arith, bit_and_mask 3 sig.bit_start))

pub raw-spelled :
    (bs : List ℕ) (sig : BitRange)
    → or_bits bs (signal_bit_order sig) 0 0
      ≡ unsigned_value bs sig.bit_start sig.bit_length sig.byte_order
raw-spelled bs sig =
    or_bits-spelled bs (signal_bit_order sig) 0 0 (omega arith)
    ∙ from_zero (λ k. spelled bs (signal_bit_order sig)) 0
    ∙ sym (unsigned_value-spelled bs sig)

-- An unsigned signal's bits spell its raw value in the cockpit, of whatever width it is.
pub extract_raw_lem :
    (bs : List ℕ) (sig : BitRange)
    → sig.signed ≡ false
    → extract_raw bs sig
      ≡ some (pos (unsigned_value bs sig.bit_start sig.bit_length sig.byte_order))
unfolding extract_raw
extract_raw_lem bs sig e = rw (raw-spelled bs sig, e)

-- The two clients extract the same number for an unsigned signal of at most 53 bits, in both byte
-- orders, whatever the payload's length: the copilot, which adds in doubles, loses no bit of it.
pub extract_raw-unsigned :
    (bs : List ℕ) (sig : BitRange)
    → sig.signed ≡ false
    → sig.bit_length ≤ 53
    → extract_raw bs sig
      ≡ some (pos (extract_unsigned bs sig.bit_start sig.bit_length sig.byte_order))
extract_raw-unsigned bs sig e l =
    rw (extract_unsigned-exact bs sig.bit_start sig.bit_length sig.byte_order l)
      (extract_raw_lem bs sig e)

pub length-signal_bit_order : (sig : BitRange) → length (signal_bit_order sig) ≡ sig.bit_length
unfolding signal_bit_order
length-signal_bit_order sig = by_order sig.byte_order
  where
    by_order :
        (o : ByteOrder) → length (signal_bit_order (record sig { byte_order = o })) ≡ sig.bit_length
    by_order little = length-ascending sig.bit_start sig.bit_length
    by_order big =
        length-sawtooth (byte_of sig.bit_start) (bit_in_byte sig.bit_start) sig.bit_length []
        ∙ omega arith

-- The raw value that is extracted fits the bits of the signal.
pub unsigned_value-lt :
    (bs : List ℕ) (sig : BitRange)
    → unsigned_value bs sig.bit_start sig.bit_length sig.byte_order < 2 ^ sig.bit_length
unsigned_value-lt bs sig = rw (unsigned_value-spelled bs sig) (
    subst (λ n. spelled bs (signal_bit_order sig) < 2 ^ n) (length-signal_bit_order sig)
      (spelled-lt bs (signal_bit_order sig)))
