-- ===== src/Wire/Exact.antt =====
-- The round trip of frontend/shared/protocol.ts is exact on batches that fit the wire; and what
-- `encodeBatch` refuses.
use discodb.Prelude.{
  ◌⊎◌, true, pos, ℕ, suc, ◌+◌, ◌*◌, ◌%◌, ◌^◌, ◌≤◌, ◌<◌, ◌≡◌, refl, sym, ap, ap₂, ◌∙◌, bit_and, List,
  [], ◌∷◌, ◌++◌, append_assoc, map, length, length-append, get_or, get_or-append_right, All, ok,
  err, leb, replicate, replicate-add, arith, ◌>>=◌, if◌then◌else◌, Bool-cases, inl, inr, subst,
}
use discodb.Prelude.Bits.{bit_and_mask}
use discodb.Wire.View.{WireError, stray_id_bits, count_too_large, dlc_out_of_range}
use discodb.Wire.Encode.{
  has_stray_bits, word_of, CanRecord, OutRecord, OutBatch, encode_record, encode_records,
  encode_batch,
}
use discodb.Wire.Decode.{CanBatch, decode_batch}
use discodb.Wire.Writes.{
  Accepted, masked, image, length-image, encode_record_lem, encode_header_lem, length-header,
  header,
}
use discodb.Wire.Words.{stray_bits_of_pos}
use discodb.Wire.Images.{wire_record}
use discodb.Wire.RoundTrip.{decode_batch-encode_batch}

-- A record that fits the wire as it is.
pub record Fits (r : CanRecord) : Type 0 where
  pub small_dt : r.dt_us < 2 ^ 32
  pub small_id : r.can_id < 2 ^ 29
  pub classic : r.dlc ≤ 8
  pub sized : length r.bytes ≡ r.dlc
  pub octets : All (λ x. x < 256) r.bytes

masked_octets :
    (pre bytes : List ℕ) (b : ℕ)
    → length pre ≡ b
    → All (λ x. x < 256) bytes
    → masked (pre ++ bytes) b (length bytes) ≡ bytes
unfolding masked
masked_octets pre [] b h a = refl
masked_octets pre (x ∷ bytes) b h (p, a) =
    let at : get_or (pre ++ x ∷ bytes) b 0 ≡ x =
      ap (λ k. get_or (pre ++ x ∷ bytes) k 0) (omega arith)
      ∙ get_or-append_right pre (x ∷ bytes) 0 0 in
    ap₂ (λ y ys. y ∷ ys) (ap (λ y. bit_and y 0xff) at ∙ bit_and_mask 8 x ∙ omega arith)
      (ap (λ l. masked l (b + 1) (length bytes)) (sym (append_assoc pre (x ∷ []) bytes))
        ∙ masked_octets (pre ++ x ∷ []) bytes (b + 1) (omega (arith, length-append pre (x ∷ []))) a)

-- A decoded record, and a decoded batch, in the shape that the encoder takes.
abbrev pub outgoing_record : CanRecord → OutRecord
outgoing_record r = record {
  dt_us = r.dt_us;
  can_id = pos r.can_id;
  dlc = r.dlc;
  is_extended = r.is_extended;
  is_error = r.is_error;
  is_rtr = r.is_rtr;
  bytes = r.bytes;
}

abbrev pub outgoing : CanBatch → OutBatch
outgoing b = record {
  base_time_us = b.base_time_us;
  replay = b.replay;
  records = map outgoing_record b.records;
}

wire_record-Fits : (r : CanRecord) → Fits r → wire_record (outgoing_record r) ≡ r
unfolding word_of
wire_record-Fits r f =
    let dt : r.dt_us % 2 ^ 32 ≡ r.dt_us = omega (arith, f.small_dt) in
    let id : r.can_id % 2 ^ 32 % 2 ^ 29 ≡ r.can_id = omega (arith, f.small_id) in
    let payload : masked r.bytes 0 r.dlc ≡ r.bytes =
      ap (masked r.bytes 0) (sym f.sized) ∙ masked_octets [] r.bytes 0 refl f.octets in
    λ i. record r { dt_us = dt i; can_id = id i; bytes = payload i }

map-wire_record :
    (rs : List CanRecord) → All Fits rs → map wire_record (map outgoing_record rs) ≡ rs
map-wire_record [] a = refl
map-wire_record (r ∷ rs) (f, a) = ap₂ (λ x xs. x ∷ xs) (wire_record-Fits r f) (map-wire_record rs a)

length-outgoing : (rs : List CanRecord) → length (map outgoing_record rs) ≡ length rs
length-outgoing [] = refl
length-outgoing (r ∷ rs) = ap suc (length-outgoing rs)

outgoing-Accepted : (rs : List CanRecord) → All Fits rs → All Accepted (map outgoing_record rs)
outgoing-Accepted [] a = tt
outgoing-Accepted (r ∷ rs) (f, a) =
    ((f.classic, stray_bits_of_pos r.can_id), outgoing-Accepted rs a)

-- Encoding a batch as the decoder returns them, and decoding that, returns the batch itself with
-- the version of the encoder, if its base time fits 64 bits, it has at most 65535 records, and each
-- record fits the wire.
pub encode_decode_exact :
    (b : CanBatch)
    → b.base_time_us < 2 ^ 64
    → length b.records ≤ 0xffff
    → All Fits b.records
    → (encode_batch (outgoing b) >>= decode_batch) ≡ ok (record b { version = 1 })
encode_decode_exact b t n a =
    let few : length (map outgoing_record b.records) ≤ 0xffff =
      omega (arith, length-outgoing b.records) in
    let (bytes, encoded, size, decoded) =
      decode_batch-encode_batch (outgoing b) few (outgoing-Accepted b.records a) in
    let base : b.base_time_us % 2 ^ 64 ≡ b.base_time_us = omega (arith, t) in
    rw (encoded, decoded, base, map-wire_record b.records a)

-- What `encodeBatch` refuses of a record, and the error with which it does.
abbrev pub Refused : OutRecord → Type 0
Refused r = (8 < r.dlc) ⊎ (has_stray_bits r.can_id ≡ true)

abbrev pub refusal : OutRecord → ℕ → WireError
refusal r i = if leb r.dlc 8 then stray_id_bits i else dlc_out_of_range i

encode_record-Refused :
    (buf : List ℕ) (i : ℕ) (r : OutRecord) → Refused r → encode_record buf i r ≡ err (refusal r i)
unfolding encode_record
encode_record-Refused buf i r h = elim (Bool-cases (leb r.dlc 8)) [
  | inl e ↦ elim h [ inl d ↦ absurd (ground (arith, e, d)) | inr s ↦ rw (e, s) refl ]
  | inr e ↦ rw e refl
]

encode_records-Refused :
    (pre : List ℕ) (i : ℕ) (good : List OutRecord) (r : OutRecord) (rest : List OutRecord)
    → length pre ≡ 12 + i * 20
    → All Accepted good
    → Refused r
    → encode_records (pre ++ replicate (length (good ++ r ∷ rest) * 20) 0) i (good ++ r ∷ rest)
      ≡ err (refusal r (i + length good))
unfolding encode_records
encode_records-Refused pre i [] r rest h a d =
    let e : i + 0 ≡ i = omega arith in rw (encode_record-Refused _ i r d, e)
encode_records-Refused pre i (g ∷ good) r rest h ((c, s), a) d =
    let more = length (good ++ r ∷ rest) * 20 in
    let e : suc (length (good ++ r ∷ rest)) * 20 ≡ 20 + more = omega arith in
    rw
      (
        e,
        replicate-add {A = ℕ} 20 more,
        encode_record_lem pre (replicate more 0) i g h c s,
        ← append_assoc pre (image g) (replicate more 0),
      )
      (encode_records-Refused (pre ++ image g) (i + 1) good r rest
          (omega (arith, length-append pre (image g), length-image g c)) a d
        ∙ ap (λ k. err (refusal r k)) (omega arith))

-- A batch of more than 65535 records is refused; a smaller one by the number of the first record
-- that has more than 8 payload bytes or an identifier with stray bits.
pub encode_batch-Refused :
    (b : OutBatch) (good rest : List OutRecord) (r : OutRecord)
    → b.records ≡ good ++ r ∷ rest
    → All Accepted good
    → Refused r
    → encode_batch b ≡ (
        if leb (length b.records) 0xffff
        then err (refusal r (length good))
        else err (count_too_large (length b.records)))
unfolding encode_batch
encode_batch-Refused b good rest r e a d = elim (Bool-cases (leb (length b.records) 0xffff)) [
  | inl few ↦
      rw (few, encode_header_lem (length b.records * 20) b)
        (subst
          (λ l.
            encode_records (header b ++ replicate (length l * 20) 0) 0 l
            ≡ err (refusal r (length good)))
          (sym e)
          (encode_records-Refused (header b) 0 good r rest (omega (arith, length-header b)) a d
            ∙ ap (λ k. err (refusal r k)) (omega arith)))
  | inr many ↦ rw many
]
