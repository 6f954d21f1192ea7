-- ===== src/Wire/Words.antt =====
-- The identifier word of a record: what `encodeBatch` packs into it, and what the parsers read.
use discodb.Prelude.{
  ◌∙◌, sym, ap, ℤ, pos, negsuc, ltb, ◌-◌, ◌≤◌, ◌&&◌, inl, inr, Bool-cases, tests, ℕ, ◌+◌, ◌/◌, ◌%◌,
  ◌^◌, ◌<◌, ◌≡◌, refl, bit_and, bit_or, Bool, true, false, nonzero, leb, if◌then◌else◌, arith,
}
use discodb.Prelude.Bits.{
  bit_and_mask, bit_and_shifted, bit_or-zero, bit_and_bit, bit_or_bit, bit_and_above,
}
use discodb.Wire.Encode.{
  OutRecord, word_of, is_at_most, id_mask, error_bit, extended_bit, rtr_flag, can_id_word,
  has_stray_bits,
}

abbrev pub bit_value : Bool → ℕ → ℕ
bit_value b n = if b then n else 0

flagged_by_branches :
    (x e : Bool) (n : ℕ)
    → n < 2 ^ 29
    → (if e
        then bit_or (if x then bit_or n (2 ^ 31) else n) (2 ^ 30)
        else (if x then bit_or n (2 ^ 31) else n))
      ≡ n + bit_value x (2 ^ 31) + bit_value e (2 ^ 30)
flagged_by_branches true true n h =
    rw (bit_or_bit 31 n (omega arith), bit_or_bit 30 (n + 2 ^ 31) (omega arith)) refl
flagged_by_branches true false n h = rw (bit_or_bit 31 n (omega arith)) (omega arith)
flagged_by_branches false true n h = rw (bit_or_bit 30 n (omega arith)) (omega arith)
flagged_by_branches false false n h = omega arith

-- The word holds the low 29 bits of the identifier, and the two flags above them.
pub can_id_word_sum :
    (r : OutRecord)
    → can_id_word r
      ≡ word_of r.can_id % 2 ^ 29 + bit_value r.is_extended (2 ^ 31) + bit_value r.is_error (2 ^ 30)
unfolding can_id_word
can_id_word_sum r =
    rw (bit_and_mask 29 (word_of r.can_id))
      (flagged_by_branches r.is_extended r.is_error (word_of r.can_id % 2 ^ 29) (omega arith))

nonzero_bit :
    (k w : ℕ) (b : Bool)
    → w / 2 ^ k % 2 ≡ bit_value b 1
    → 0 < 2 ^ k
    → nonzero (bit_and w (2 ^ k)) ≡ b
nonzero_bit k w true h p = rw (bit_and_bit k w, h) (ground arith)
nonzero_bit k w false h p = rw (bit_and_bit k w, h) (ground arith)

module _ (n : ℕ) (x e : Bool) (h : n < 2 ^ 29) where
  abbrev word : ℕ
  word = n + bit_value x (2 ^ 31) + bit_value e (2 ^ 30)

  pub id_of_word : bit_and word id_mask ≡ n
  id_of_word = rw (bit_and_mask 29 word) (ground arith)

  pub extended_of_word : nonzero (bit_and word extended_bit) ≡ x
  extended_of_word = nonzero_bit 31 word x (ground arith) (omega arith)

  pub error_of_word : nonzero (bit_and word error_bit) ≡ e
  error_of_word = nonzero_bit 30 word e (ground arith) (omega arith)

pub rtr_of_flags : (b : Bool) → nonzero (bit_and (bit_value b rtr_flag) rtr_flag) ≡ b
rtr_of_flags true = refl
rtr_of_flags false = refl

-- The number that `|` returns for a word: a signed integer of 32 bits.
unfoldable pub to_int32 : ℕ → ℤ
to_int32 w = if ltb w (2 ^ 31) then pos w else negsuc (2 ^ 32 - 1 - w)

word_of-to_int32 : (w : ℕ) → w < 2 ^ 32 → word_of (to_int32 w) ≡ w
unfolding word_of to_int32
word_of-to_int32 w h = elim (Bool-cases (ltb w (2 ^ 31))) [
  | inl low ↦ rw low (omega arith)
  | inr high ↦ rw high (omega tests)
]

high_bits : (w : ℕ) → 2 ^ 29 ≤ w → w < 2 ^ 32 → nonzero (bit_and w 0xe0000000) ≡ true
high_bits w h k = ground (arith, bit_and_shifted 29 7 w, bit_and_mask 3 (w / 2 ^ 29))

pub stray_bits_of_pos : (n : ℕ) → has_stray_bits (pos n) ≡ false
unfolding has_stray_bits word_of is_at_most
stray_bits_of_pos n = elim (Bool-cases (leb n id_mask)) [
  | inl small ↦
      let fits : n % 2 ^ 32 < 2 ^ 29 = omega tests in rw (bit_and_above 29 7 (n % 2 ^ 32) fits)
  | inr large ↦ rw large (and_false _)
]
  where
    and_false : (b : Bool) → (b && false) ≡ false
    and_false true = refl
    and_false false = refl

-- `n | flags`, as a word.
unfoldable pub with_flags : ℕ → Bool → Bool → ℕ
with_flags n x e = bit_or (bit_or n (bit_value x extended_bit)) (bit_value e error_bit)

with_flags_sum :
    (n : ℕ) (x e : Bool)
    → n < 2 ^ 29
    → with_flags n x e ≡ n + bit_value x (2 ^ 31) + bit_value e (2 ^ 30)
unfolding with_flags
with_flags_sum n true true h = flagged_by_branches true true n h
with_flags_sum n true false h =
    rw (bit_or-zero (bit_or n (2 ^ 31))) (flagged_by_branches true false n h)
with_flags_sum n false true h = rw (bit_or-zero n) (flagged_by_branches false true n h)
with_flags_sum n false false h = rw (bit_or-zero n, bit_or-zero n) (omega arith)

int32_low : (w : ℕ) → ltb w (2 ^ 31) ≡ true → to_int32 w ≡ pos w
unfolding to_int32
int32_low w e = rw e

int32_high : (w : ℕ) → ltb w (2 ^ 31) ≡ false → to_int32 w ≡ negsuc (2 ^ 32 - 1 - w)
unfolding to_int32
int32_high w e = rw e

negative :
    (n : ℕ)
    → has_stray_bits (negsuc n) ≡ (nonzero (bit_and (word_of (negsuc n)) 0xe0000000) && true)
unfolding has_stray_bits is_at_most
negative n = refl

stray_bits_of_int32 : (w : ℕ) → w < 2 ^ 32 → has_stray_bits (to_int32 w) ≡ leb (2 ^ 31) w
stray_bits_of_int32 w h = elim (Bool-cases (ltb w (2 ^ 31))) [
  | inl low ↦
      let above : leb (2 ^ 31) w ≡ false = ground (arith, low) in
      rw (int32_low w low, above) (stray_bits_of_pos w)
  | inr high ↦
      let above : leb (2 ^ 31) w ≡ true = ground (arith, high) in
      let word : word_of (negsuc (2 ^ 32 - 1 - w)) ≡ w =
        ap word_of (sym (int32_high w high)) ∙ word_of-to_int32 w h in
      rw (int32_high w high, above, negative (2 ^ 32 - 1 - w))
        (ap (λ k. nonzero (bit_and k 0xe0000000) && true) word
          ∙ ap (λ b. b && true) (high_bits w (omega tests) h))
]

-- Of an identifier of 29 bits with flags OR-ed into it, the check refuses the signed integer of 32
-- bits that `|` returns exactly if the extended flag is among them, and it passes the same word as a
-- natural number, which `>>> 0` returns: the error flag alone is never refused.
pub has_stray_bits_flagged :
    (n : ℕ) (x e : Bool)
    → n < 2 ^ 29
    → (has_stray_bits (to_int32 (with_flags n x e)) ≡ x)
      × (has_stray_bits (pos (with_flags n x e)) ≡ false)
has_stray_bits_flagged n x e h = (
  stray_bits_of_int32 (with_flags n x e) (ground (arith, with_flags_sum n x e h))
      ∙ ground (arith, with_flags_sum n x e h),
  stray_bits_of_pos (with_flags n x e),
)
