-- ===== src/Signal/Tests.antt =====
-- Signals of a three-byte payload (frontend/cockpit/src/protocol/decode.ts and
-- frontend/copilot/src/protocol/decode.ts).
use discodb.Prelude.{
  arith, nearest, ◌^◌, pos, negsuc, ℕ, suc, ◌-◌, ◌≡◌, ◌⊎◌, refl, Bool, true, false, List, [], ◌∷◌,
  none, some,
}
use discodb.Signal.Defs.{
  ascending, little, extract_unsigned, sum_little, walk_big, sub, big, BitRange, get_bit, sawtooth,
  signal_bit_order, or_bits, sign_extend, extract_raw,
}
use discodb.Signal.Exact.{unsigned_value}
use discodb.Signal.Agree.{extract_raw-unsigned}
use discodb.Signal.Signed.{twos_complement, Representable, extract_raw-signed}

abbrev payload : List ℕ
payload = 0x12 ∷ 0xf4 ∷ 0x56 ∷ []

-- Twelve bits from the top of the second byte on, into the third.
abbrev twelve : Bool → BitRange
twelve s = record { bit_start = 15; bit_length = 12; byte_order = big; signed = s }

big_read : extract_unsigned payload 15 12 big ≡ 0xf45
unfolding extract_unsigned walk_big nearest
big_read = refl

-- 64 bits that are all set: the cockpit keeps them, and the copilot rounds to 2^64.
abbrev ones : List ℕ
ones = 255 ∷ 255 ∷ 255 ∷ 255 ∷ 255 ∷ 255 ∷ 255 ∷ 255 ∷ []

wide_rounded : extract_unsigned ones 0 64 little ≡ 2 ^ 64
unfolding extract_unsigned sum_little nearest
wide_rounded = refl

wide_kept :
    extract_raw ones
      (record { bit_start = 0; bit_length = 64; byte_order = little; signed = false })
    ≡ some (pos (2 ^ 64 - 1))
unfolding extract_raw signal_bit_order ascending or_bits get_bit
wide_kept = refl

signed_read : extract_raw payload (twelve true) ≡ some (negsuc (0x1000 - 1 - 0xf45))
unfolding extract_raw signal_bit_order sawtooth or_bits get_bit sign_extend sub
signed_read = refl

extract_raw-unsigned_example :
    extract_raw payload (twelve false) ≡ some (pos (extract_unsigned payload 15 12 big))
extract_raw-unsigned_example = extract_raw-unsigned payload (twelve false) refl (omega arith)

extract_raw-signed_example :
    ((◌≡◌ {A = ℕ} 12 0) × (extract_raw payload (twelve true) ≡ none))
    ⊎ ((k : ℕ) × (◌≡◌ {A = ℕ} 12 (suc k))
        × (extract_raw payload (twelve true)
            ≡ some (twos_complement k (unsigned_value payload 15 12 big)))
        × Representable k (twos_complement k (unsigned_value payload 15 12 big)))
extract_raw-signed_example = extract_raw-signed payload (twelve true) refl
