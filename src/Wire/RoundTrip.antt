-- ===== src/Wire/RoundTrip.antt =====
-- `decodeBatch` after `encodeBatch`, both of frontend/shared/protocol.ts.
use discodb.Prelude.{
  ℕ, ◌+◌, ◌*◌, ◌%◌, ◌^◌, ◌≤◌, ◌≡◌, refl, List, [], ◌∷◌, ◌++◌, map, length, length-append, All, ok,
  le→leb, le→not_ltb, arith,
}
use discodb.Wire.View.{set_uint8, set_uint16, set_uint32, set_big_uint64}
use discodb.Wire.Encode.{OutRecord, OutBatch, encode_header, encode_batch}
use discodb.Wire.Decode.{CanBatch, decode_batch}
use discodb.Wire.Reads.{u8_at, u16_at, u32_at, u64_at}
use discodb.Wire.Writes.{
  images, Accepted, encode_records_lem, header, length-header, encode_header_lem,
}
use discodb.Wire.Total.{batch_at, decode_batch_lem}
use discodb.Wire.Words.{bit_value, rtr_of_flags}
use discodb.Wire.Images.{wire_record, records_at-images, length-images}

classic-All : (rs : List OutRecord) → All Accepted rs → All (λ r. r.dlc ≤ 8) rs
classic-All [] a = tt
classic-All (r ∷ rs) ((d, s), a) = (d, classic-All rs a)

pub encode_batch_lem :
    (b : OutBatch)
    → length b.records ≤ 0xffff
    → All Accepted b.records
    → encode_batch b ≡ ok (header b ++ images b.records)
unfolding encode_batch
encode_batch_lem b h a =
    rw (le→leb (length b.records) 0xffff h, encode_header_lem (length b.records * 20) b)
      (encode_records_lem (header b) 0 b.records (omega (arith, length-header b)) a)

module _ (b : OutBatch) (post : List ℕ) where
  header_version : u8_at (header b ++ post) 0 ≡ 1
  unfolding header encode_header set_big_uint64 set_uint32 set_uint16 set_uint8
  header_version = refl

  header_flags : u8_at (header b ++ post) 1 ≡ bit_value b.replay 1
  unfolding header encode_header set_big_uint64 set_uint32 set_uint16 set_uint8
  header_flags = ground arith

  header_count : u16_at (header b ++ post) 2 ≡ length b.records % 2 ^ 16
  unfolding header encode_header set_big_uint64 set_uint32 set_uint16 set_uint8 u16_at
  header_count = omega arith

  header_base : u64_at (header b ++ post) 4 ≡ b.base_time_us % 2 ^ 64
  unfolding header encode_header set_big_uint64 set_uint32 set_uint16 set_uint8 u64_at u32_at u16_at
  header_base = omega arith

-- What the wire keeps of a batch.
abbrev pub wire_batch : OutBatch → CanBatch
wire_batch b = record {
  version = 1;
  replay = b.replay;
  base_time_us = b.base_time_us % 2 ^ 64;
  records = map wire_record b.records;
}

batch_at-images :
    (b : OutBatch)
    → length b.records ≤ 0xffff
    → All Accepted b.records
    → batch_at (header b ++ images b.records) ≡ wire_batch b
unfolding batch_at
batch_at-images b h a =
    let n : u16_at (header b ++ images b.records) 2 ≡ length b.records =
      omega (arith, header_count b (images b.records)) in
    rw (
      header_version b (images b.records),
      header_flags b (images b.records),
      header_base b (images b.records),
      n,
      rtr_of_flags b.replay,
      records_at-images (header b) 0 b.records (omega (arith, length-header b))
          (classic-All b.records a),
    )

-- A batch of at most 65535 records, none with more than 8 payload bytes or an identifier that the
-- check for stray bits refuses, is encoded to 12 bytes and 20 for each record, and decodes to the
-- same flags and to records cut to what the wire keeps: times modulo 2^32 and 2^64, identifiers
-- modulo 2^29, `dlc` payload bytes modulo 256 (0 where missing).
pub decode_batch-encode_batch :
    (b : OutBatch)
    → length b.records ≤ 0xffff
    → All Accepted b.records
    → (bytes : List ℕ) × (encode_batch b ≡ ok bytes)
      × (length bytes ≡ 12 + length b.records * 20)
      × (decode_batch bytes ≡ ok (wire_batch b))
decode_batch-encode_batch b h a =
    let bytes = header b ++ images b.records in
    let size : length bytes ≡ 12 + length b.records * 20 = omega (
      arith,
      length-append (header b) (images b.records),
      length-header b,
      length-images b.records (classic-All b.records a),
    ) in
    let n : u16_at bytes 2 ≡ length b.records = omega (arith, header_count b (images b.records)) in
    (
      bytes,
      encode_batch_lem b h a,
      size,
      rw (
        decode_batch_lem bytes,
        n,
        size,
        le→not_ltb (12 + length b.records * 20) 12 (omega arith),
        le→not_ltb (12 + length b.records * 20) (12 + length b.records * 20) (omega arith),
        batch_at-images b h a,
      ),
    )
