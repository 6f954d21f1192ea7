-- ===== src/Wire/Images.antt =====
-- Reading back the bytes that `encodeBatch` of frontend/shared/protocol.ts writes for its records.
use discodb.Prelude.{
  ℕ, zero, suc, ◌+◌, ◌-◌, ◌*◌, ◌%◌, ◌^◌, ◌≤◌, min, ◌≡◌, refl, sym, ap, ap₂, ◌∙◌, List, [], ◌∷◌,
  ◌++◌, append_assoc, map, length, length-append, All, replicate, arith,
}
use discodb.Wire.View.{set_uint8, set_uint16, set_uint32}
use discodb.Wire.Encode.{OutRecord, CanRecord, word_of, can_id_word}
use discodb.Wire.Reads.{u8_at, u16_at, u32_at, slice, u8_at-append, u32_at-append, slice-append}
use discodb.Wire.Writes.{masked, length-masked, fields, length-fields, image, length-image, images}
use discodb.Wire.Total.{record_at, records_at}
use discodb.Wire.Words.{
  bit_value, can_id_word_sum, id_of_word, extended_of_word, error_of_word, rtr_of_flags,
}

-- What the wire keeps of a record: an offset of 32 bits, an identifier of 29, and `dlc` payload
-- bytes of 8 bits, of which a missing one is zero.
abbrev pub wire_record : OutRecord → CanRecord
wire_record r = record {
  dt_us = r.dt_us % 2 ^ 32;
  can_id = word_of r.can_id % 2 ^ 29;
  dlc = r.dlc;
  is_extended = r.is_extended;
  is_error = r.is_error;
  is_rtr = r.is_rtr;
  bytes = masked r.bytes 0 r.dlc;
}

word_fits :
    (r : OutRecord)
    → can_id_word r % 2 ^ 32
      ≡ word_of r.can_id % 2 ^ 29 + bit_value r.is_extended (2 ^ 31) + bit_value r.is_error (2 ^ 30)
word_fits r = ground (arith, can_id_word_sum r)

module _ (r : OutRecord) (post : List ℕ) where
  fields_dt : u32_at (fields r ++ post) 0 ≡ r.dt_us % 2 ^ 32
  unfolding fields u32_at u16_at set_uint32 set_uint16 set_uint8
  fields_dt = omega arith

  fields_word : u32_at (fields r ++ post) 4 ≡ can_id_word r % 2 ^ 32
  unfolding fields u32_at u16_at set_uint32 set_uint16 set_uint8
  fields_word = omega arith

  fields_dlc : u8_at (fields r ++ post) 8 ≡ r.dlc % 2 ^ 8
  unfolding fields set_uint32 set_uint16 set_uint8
  fields_dlc = refl

  fields_flags : u8_at (fields r ++ post) 9 ≡ bit_value r.is_rtr 1
  unfolding fields set_uint32 set_uint16 set_uint8
  fields_flags = ground arith

slice_prefix : (xs post : List ℕ) (n : ℕ) → length xs ≡ n → slice (xs ++ post) 0 n ≡ xs
unfolding slice
slice_prefix [] post zero h = refl
slice_prefix [] post (suc n) h = absurd (omega arith)
slice_prefix (x ∷ xs) post zero h = absurd (omega arith)
slice_prefix (x ∷ xs) post (suc n) h =
    ap (λ t. x ∷ t) (slice-append (x ∷ []) (xs ++ post) 0 n ∙ slice_prefix xs post n (omega arith))

slice-fields :
    (r : OutRecord) (post : List ℕ)
    → slice (fields r ++ (masked r.bytes 0 r.dlc ++ post)) 12 r.dlc ≡ masked r.bytes 0 r.dlc
slice-fields r post =
    let e : 12 ≡ length (fields r) + 0 = omega (arith, length-fields r) in
    ap (λ k. slice (fields r ++ (masked r.bytes 0 r.dlc ++ post)) k r.dlc) e
    ∙ slice-append (fields r) (masked r.bytes 0 r.dlc ++ post) 0 r.dlc
    ∙ slice_prefix (masked r.bytes 0 r.dlc) post r.dlc (length-masked r.bytes 0 r.dlc)

-- The reads of a record at its place.
record_at-fields :
    (pre post : List ℕ) (r : OutRecord)
    → r.dlc ≤ 8
    → record_at (pre ++ (fields r ++ (masked r.bytes 0 r.dlc ++ post))) (length pre) ≡ wire_record r
unfolding record_at
record_at-fields pre post r d =
    let tail = masked r.bytes 0 r.dlc ++ post in
    let word : u32_at (fields r ++ tail) 4
        ≡ word_of r.can_id % 2 ^ 29
          + bit_value r.is_extended (2 ^ 31)
          + bit_value r.is_error (2 ^ 30) =
      fields_word r tail ∙ word_fits r in
    let dlc : min (u8_at (fields r ++ tail) 8) 8 ≡ r.dlc = omega (arith, fields_dlc r tail) in
    rw (
      u32_at-append pre (fields r ++ tail) 0,
      u32_at-append pre (fields r ++ tail) 4,
      u8_at-append pre (fields r ++ tail) 8,
      u8_at-append pre (fields r ++ tail) 9,
      dlc,
      slice-append pre (fields r ++ tail) 12 r.dlc,
      slice-fields r post,
      fields_dt r tail,
      fields_flags r tail,
      rtr_of_flags r.is_rtr,
      word,
      id_of_word (word_of r.can_id % 2 ^ 29) r.is_extended r.is_error (omega arith),
      extended_of_word (word_of r.can_id % 2 ^ 29) r.is_extended r.is_error (omega arith),
      error_of_word (word_of r.can_id % 2 ^ 29) r.is_extended r.is_error (omega arith),
    )

record_at-image :
    (pre post : List ℕ) (r : OutRecord)
    → r.dlc ≤ 8
    → record_at (pre ++ (image r ++ post)) (length pre) ≡ wire_record r
unfolding image
record_at-image pre post r d =
    ap (λ l. record_at (pre ++ l) (length pre))
      (append_assoc (fields r) (masked r.bytes 0 r.dlc ++ replicate (8 - r.dlc) 0) post
        ∙ ap (λ l. fields r ++ l)
            (append_assoc (masked r.bytes 0 r.dlc) (replicate (8 - r.dlc) 0) post))
    ∙ record_at-fields pre (replicate (8 - r.dlc) 0 ++ post) r d

pub records_at-images :
    (pre : List ℕ) (i : ℕ) (rs : List OutRecord)
    → length pre ≡ 12 + i * 20
    → All (λ r. r.dlc ≤ 8) rs
    → records_at (pre ++ images rs) i (length rs) ≡ map wire_record rs
unfolding records_at images
records_at-images pre i [] h a = refl
records_at-images pre i (r ∷ rs) h (d, a) =
    ap₂ (λ x xs. x ∷ xs)
      (ap (λ k. record_at (pre ++ (image r ++ images rs)) k) (sym h)
        ∙ record_at-image pre (images rs) r d)
      (ap (λ l. records_at l (i + 1) (length rs)) (sym (append_assoc pre (image r) (images rs)))
        ∙ records_at-images (pre ++ image r) (i + 1) rs
            (omega (arith, length-append pre (image r), length-image r d)) a)

pub length-images :
    (rs : List OutRecord) → All (λ r. r.dlc ≤ 8) rs → length (images rs) ≡ length rs * 20
unfolding images
length-images [] a = refl
length-images (r ∷ rs) (d, a) =
    omega (arith, length-append (image r) (images rs), length-image r d, length-images rs a)
