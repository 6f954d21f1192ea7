-- ===== src/Wire/Total.antt =====
-- What `decodeBatch` of frontend/shared/protocol.ts returns on each buffer; no read leaves the view.
use discodb.Prelude.{
  ℕ, zero, suc, ◌+◌, ◌*◌, ◌≤◌, min, ◌≡◌, refl, bit_and, nonzero, List, [], ◌∷◌, length, ok, err,
  ltb, if◌then◌else◌, arith, inl, inr, Bool-cases, tests,
}
use discodb.Wire.View.{too_short, truncated, get_uint8, get_uint16, get_big_uint64}
use discodb.Wire.Encode.{CanRecord, id_mask, extended_bit, error_bit, rtr_flag, replay_flag}
use discodb.Wire.Decode.{CanBatch, decode_record, decode_records, decode_batch}
use discodb.Wire.Reads.{
  u8_at, u16_at, u32_at, u64_at, slice, get_uint8_lem, get_uint16_lem, get_uint32_lem,
  get_big_uint64_lem, get_bytes_lem,
}

-- The record that the 20 bytes from an offset on stand for.
unfoldable pub record_at : List ℕ → ℕ → CanRecord
record_at v off = record {
  dt_us = u32_at v (off + 0);
  can_id = bit_and (u32_at v (off + 4)) id_mask;
  dlc = min (u8_at v (off + 8)) 8;
  is_extended = nonzero (bit_and (u32_at v (off + 4)) extended_bit);
  is_error = nonzero (bit_and (u32_at v (off + 4)) error_bit);
  is_rtr = nonzero (bit_and (u8_at v (off + 9)) rtr_flag);
  bytes = slice v (off + 12) (min (u8_at v (off + 8)) 8);
}

-- `n` records from number `i` on.
unfoldable pub records_at : List ℕ → ℕ → ℕ → List CanRecord
records_at v i zero = []
records_at v i (suc n) = record_at v (12 + i * 20) ∷ records_at v (i + 1) n

unfoldable pub batch_at : List ℕ → CanBatch
batch_at v = record {
  version = u8_at v 0;
  replay = nonzero (bit_and (u8_at v 1) replay_flag);
  base_time_us = u64_at v 4;
  records = records_at v 0 (u16_at v 2);
}

pub decode_record_lem :
    (v : List ℕ) (off : ℕ) → off + 20 ≤ length v → decode_record v off ≡ ok (record_at v off)
unfolding decode_record record_at
decode_record_lem v off h = rw (
  get_uint32_lem v (off + 0) (omega arith),
  get_uint32_lem v (off + 4) (omega arith),
  get_uint8_lem v (off + 8) (omega arith),
  get_uint8_lem v (off + 9) (omega arith),
  get_bytes_lem v (off + 12) (min (u8_at v (off + 8)) 8) (omega arith),
)

pub decode_records_lem :
    (v : List ℕ) (i n : ℕ)
    → 12 + (i + n) * 20 ≤ length v
    → decode_records v i n ≡ ok (records_at v i n)
unfolding decode_records records_at
decode_records_lem v i zero h = refl
decode_records_lem v i (suc n) h =
    rw (
      decode_record_lem v (12 + i * 20) (omega arith),
      decode_records_lem v (i + 1) n (omega arith),
    )

-- The reads of the header, which fit the first 12 bytes.
pub header_reads :
    (v : List ℕ)
    → 12 ≤ length v
    → (get_uint8 v 0 ≡ ok (u8_at v 0))
      × (get_uint8 v 1 ≡ ok (u8_at v 1))
      × (get_uint16 v 2 ≡ ok (u16_at v 2))
      × (get_big_uint64 v 4 ≡ ok (u64_at v 4))
header_reads v h = (
  get_uint8_lem v 0 (omega arith),
  get_uint8_lem v 1 (omega arith),
  get_uint16_lem v 2 (omega arith),
  get_big_uint64_lem v 4 (omega arith),
)

-- `decodeBatch` refuses a buffer that is shorter than the header, and one that is shorter than its
-- count of records wants; any other it decodes, whatever the bytes are.
pub decode_batch_lem :
    (v : List ℕ)
    → decode_batch v ≡ (
        if ltb (length v) 12
        then err too_short
        else if ltb (length v) (12 + u16_at v 2 * 20)
        then err truncated
        else ok (batch_at v))
unfolding decode_batch batch_at
decode_batch_lem v = elim (Bool-cases (ltb (length v) 12)) [
  | inl short ↦ rw short
  | inr long ↦
      let reads = header_reads v (omega tests) in
      elim (Bool-cases (ltb (length v) (12 + u16_at v 2 * 20))) [
        | inl cut ↦ rw (long, reads.0, reads.1, reads.2, reads.3, cut)
        | inr whole ↦ rw (
          long,
          reads.0,
          reads.1,
          reads.2,
          reads.3,
          whole,
          decode_records_lem v 0 (u16_at v 2) (omega tests),
        )
      ]
]
