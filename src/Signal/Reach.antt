-- ===== src/Signal/Reach.antt =====
-- When the cockpit calls a payload too short for a signal (decodeSignal and highestBitIndex of
-- frontend/cockpit/src/protocol/decode.ts).
use discodb.Prelude.{
  ℕ, ◌*◌, ◌/◌, ◌^◌, ◌<◌, ◌≡◌, ◌↔◌, false, List, [], ◌∷◌, length, All, ltb, leb, if◌then◌else◌,
  arith,
}
use discodb.Signal.Defs.{BitRange, signal_bit_order, highest_of, highest_bit_index, is_truncated}

highest_of-below :
    (order : List ℕ) (m k : ℕ) → (highest_of order m < k) ↔ ((m < k) × All (λ (b : ℕ). b < k) order)
unfolding highest_of
highest_of-below [] m k = ground arith
highest_of-below (b ∷ order) m k =
    let (to, from) = highest_of-below order (if ltb m b then b else m) k in
    (λ h. split (to h).0 (to h).1, λ h. from (join h.0 h.1.0, h.1.1))
  where
    split :
        (if ltb m b then b else m) < k
        → All (λ (c : ℕ). c < k) order
        → (m < k) × ((b < k) × All (λ (c : ℕ). c < k) order)
    split h a = (ground arith, (ground arith, a))

    join : m < k → b < k → (if ltb m b then b else m) < k
    join h l = ground arith

-- A signal is called truncated exactly when the payload is empty or does not have the byte of one
-- of the signal's bits.
pub is_truncated_iff :
    (bs : List ℕ) (sig : BitRange)
    → (is_truncated bs sig ≡ false)
      ↔ ((0 < length bs) × All (λ (b : ℕ). b < length bs * 8) (signal_bit_order sig))
unfolding is_truncated highest_bit_index
is_truncated_iff bs sig =
    let (to, from) = highest_of-below (signal_bit_order sig) 0 (length bs * 8) in
    (λ h. positive (to (reached h)), λ h. untruncated (from (omega (arith, h.0), h.1)))
  where
    top : ℕ
    top = highest_of (signal_bit_order sig) 0

    reached : leb (length bs) (top / 2 ^ 3) ≡ false → top < length bs * 8
    reached h = ground arith

    untruncated : top < length bs * 8 → leb (length bs) (top / 2 ^ 3) ≡ false
    untruncated h = ground arith

    positive :
        (0 < length bs * 8) × All (λ (b : ℕ). b < length bs * 8) (signal_bit_order sig)
        → (0 < length bs) × All (λ (b : ℕ). b < length bs * 8) (signal_bit_order sig)
    positive h = (omega (arith, h.0), h.1)
