-- ===== src/Signal/Defs.antt =====
-- The bit order of a signal and its raw value, as the cockpit and the copilot compute them
-- (frontend/cockpit/src/protocol/decode.ts, frontend/copilot/src/protocol/decode.ts).
use discodb.Prelude.{
  nearest, ℤ, pos, negsuc, ℕ, zero, suc, ◌+◌, ◌-◌, ◌*◌, ◌/◌, ◌^◌, bit_and, bit_or, Bool, List, [],
  ◌∷◌, length, get_or, Option, none, some, ltb, leb, ◌==◌, nonzero, if◌then◌else◌,
}

-- `a - b`
unfoldable pub sub : ℕ → ℕ → ℤ
sub a b = if leb b a then pos (a - b) else negsuc (b - a - 1)

pub data ByteOrder : Type 0 where
  little : ByteOrder
  big : ByteOrder

-- What the extraction reads of an `EditableSignal`.
pub record BitRange : Type 0 where
  pub bit_start : ℕ
  pub bit_length : ℕ
  pub byte_order : ByteOrder
  pub signed : Bool

-- `>> 3` and `& 7`
abbrev pub byte_of : ℕ → ℕ
byte_of i = i / 2 ^ 3

abbrev pub bit_in_byte : ℕ → ℕ
bit_in_byte i = bit_and i 7

unfoldable pub get_bit : List ℕ → ℕ → ℕ
get_bit bs i =
    if leb (length bs) (byte_of i)
    then 0
    else bit_and (get_or bs (byte_of i) 0 / 2 ^ bit_in_byte i) 1

-- The Intel loop.
unfoldable pub ascending : ℕ → ℕ → List ℕ
ascending start zero = []
ascending start (suc n) = start ∷ ascending (start + 1) n

-- The Motorola loop: `byte` and `bit` walk towards the LSB, and each bit goes to the front.
unfoldable pub sawtooth : ℕ → ℕ → ℕ → List ℕ → List ℕ
sawtooth byte bit zero bits = bits
sawtooth byte bit (suc n) bits =
    let bits' = (byte * 8 + bit) ∷ bits in
    let crossed = sawtooth (byte + 1) 7 n bits' in
    let inside = sawtooth byte (bit - 1) n bits' in if bit == 0 then crossed else inside

unfoldable pub signal_bit_order : BitRange → List ℕ
signal_bit_order sig = elim sig.byte_order [
  | little ↦ ascending sig.bit_start sig.bit_length
  | big ↦ sawtooth (byte_of sig.bit_start) (bit_in_byte sig.bit_start) sig.bit_length []
]

-- The loop over the bit order: `raw |= 1n << BigInt(i)` for each bit that is set.
unfoldable pub or_bits : List ℕ → List ℕ → ℕ → ℕ → ℕ
or_bits bs [] i raw = raw
or_bits bs (b ∷ order) i raw =
    or_bits bs order (i + 1) (if nonzero (get_bit bs b) then bit_or raw (2 ^ i) else raw)

-- The sign step; `none` is the RangeError of a shift by -1.
unfoldable pub sign_extend : ℕ → ℕ → Option ℤ
sign_extend zero raw = none
sign_extend (suc k) raw =
    if nonzero (bit_and raw (2 ^ k)) then some (sub raw (2 ^ suc k)) else some (pos raw)

unfoldable pub extract_raw : List ℕ → BitRange → Option ℤ
extract_raw bs sig =
    let raw = or_bits bs (signal_bit_order sig) 0 0 in
    if sig.signed then sign_extend sig.bit_length raw else some (pos raw)

-- `highestBitIndex`: the loop over the order, with the greatest index so far.
unfoldable pub highest_of : List ℕ → ℕ → ℕ
highest_of [] m = m
highest_of (b ∷ order) m = highest_of order (if ltb m b then b else m)

unfoldable pub highest_bit_index : BitRange → ℕ
highest_bit_index sig = highest_of (signal_bit_order sig) 0

-- `truncated` of `decodeSignal`
unfoldable pub is_truncated : List ℕ → BitRange → Bool
is_truncated bs sig = leb (length bs) (byte_of (highest_bit_index sig))

-- The result of `decodeSignal`; `scale` is `Number(raw) * factor + offset`.
pub record DecodeResult {ℓ} (V : Type ℓ) : Type ℓ where
  pub raw : ℤ
  pub value : V
  pub truncated : Bool

unfoldable pub scaled {ℓ} : {V : Type ℓ} → (ℤ → V) → Bool → Option ℤ → Option (DecodeResult V)
scaled scale truncated none = none
scaled scale truncated (some raw) =
    some (record { raw = raw; value = scale raw; truncated = truncated })

unfoldable pub decode_signal {ℓ} :
    {V : Type ℓ} → (ℤ → V) → List ℕ → BitRange → Option (DecodeResult V)
decode_signal scale bs sig = scaled scale (is_truncated bs sig) (extract_raw bs sig)

-- The copilot's Intel loop from bit `i` on. Its numbers are doubles: a sum is rounded, and a product
-- with a power of two is exact.
unfoldable pub sum_little : List ℕ → ℕ → ℕ → ℕ → ℕ → ℕ
sum_little bs start i zero value = value
sum_little bs start i (suc n) value =
    let at = start + i in
    let next =
      if ltb (byte_of at) (length bs)
      then nearest (value + bit_and (get_or bs (byte_of at) 0 / 2 ^ bit_in_byte at) 1 * 2 ^ i)
      else value in
    sum_little bs start (i + 1) n next

-- The copilot's Motorola loop.
unfoldable pub walk_big : List ℕ → ℕ → ℕ → ℕ → ℕ → ℕ
walk_big bs byte bit zero value = value
walk_big bs byte bit (suc n) value =
    let next =
      if ltb byte (length bs)
      then nearest (value * 2 + bit_and (get_or bs byte 0 / 2 ^ bit) 1)
      else value * 2 in
    let crossed = walk_big bs (byte + 1) 7 n next in
    let inside = walk_big bs byte (bit - 1) n next in if bit == 0 then crossed else inside

-- The copilot's `extractRaw`
unfoldable pub extract_unsigned : List ℕ → ℕ → ℕ → ByteOrder → ℕ
extract_unsigned bs start n little = sum_little bs start 0 n 0
extract_unsigned bs start n big = walk_big bs (byte_of start) (bit_in_byte start) n 0
