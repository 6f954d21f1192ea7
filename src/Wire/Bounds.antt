-- ===== src/Wire/Bounds.antt =====
-- Whatever bytes arrive, `decodeBatch` of frontend/shared/protocol.ts returns records that fit the
-- wire.
use discodb.Prelude.{
  ℕ, zero, suc, ◌+◌, ◌*◌, ◌≤◌, ◌<◌, ◌^◌, ◌≡◌, refl, ap, List, [], ◌∷◌, length, All, ok, arith,
  subst, ◌>>=◌,
}
use discodb.Prelude.Bits.{bit_and_mask}
use discodb.Wire.Encode.{encode_batch}
use discodb.Wire.Decode.{CanBatch, decode_batch}
use discodb.Wire.Reads.{u8_at, u16_at, u32_at, u64_at, slice, length-slice}
use discodb.Wire.Total.{record_at, records_at, batch_at, decode_batch_lem}
use discodb.Wire.Exact.{Fits, outgoing, encode_decode_exact}

abbrev pub Octets : List ℕ → Type 0
Octets v = All (λ x. x < 256) v

u8_at-lt : (v : List ℕ) (i : ℕ) → Octets v → u8_at v i < 256
u8_at-lt [] i a = omega arith
u8_at-lt (x ∷ v) zero (p, a) = p
u8_at-lt (x ∷ v) (suc i) (p, a) = u8_at-lt v i a

module _ (v : List ℕ) (a : Octets v) where
  u16_at-lt : (i : ℕ) → u16_at v i < 2 ^ 16
  unfolding u16_at
  u16_at-lt i = omega (arith, u8_at-lt v i a, u8_at-lt v (i + 1) a)

  u32_at-lt : (i : ℕ) → u32_at v i < 2 ^ 32
  unfolding u32_at
  u32_at-lt i = omega (arith, u16_at-lt i, u16_at-lt (i + 2))

  u64_at-lt : (i : ℕ) → u64_at v i < 2 ^ 64
  unfolding u64_at
  u64_at-lt i = omega (arith, u32_at-lt i, u32_at-lt (i + 4))

  slice-Octets : (off n : ℕ) → Octets (slice v off n)
  unfolding slice
  slice-Octets off zero = tt
  slice-Octets off (suc n) = (u8_at-lt v off a, slice-Octets (off + 1) n)

  record_at-Fits : (off : ℕ) → Fits (record_at v off)
  unfolding record_at
  record_at-Fits off = record {
    small_dt = u32_at-lt (off + 0);
    small_id = rw (bit_and_mask 29 (u32_at v (off + 4))) (omega arith);
    classic = omega arith;
    sized = length-slice v (off + 12) _;
    octets = slice-Octets (off + 12) _;
  }

  records_at-Fits : (i n : ℕ) → All Fits (records_at v i n)
  unfolding records_at
  records_at-Fits i zero = tt
  records_at-Fits i (suc n) = (record_at-Fits (12 + i * 20), records_at-Fits (i + 1) n)

length-records_at : (v : List ℕ) (i n : ℕ) → length (records_at v i n) ≡ n
unfolding records_at
length-records_at v i zero = refl
length-records_at v i (suc n) = ap suc (length-records_at v (i + 1) n)

-- What is known of a decoded batch.
pub record Decoded (v : List ℕ) (b : CanBatch) : Type 0 where
  pub base_small : b.base_time_us < 2 ^ 64
  pub counted : length b.records ≡ u16_at v 2
  pub count_small : length b.records ≤ 0xffff
  pub bytes_enough : 12 + length b.records * 20 ≤ length v
  pub fit : All Fits b.records

decode_batch_inv :
    (v : List ℕ) (b : CanBatch)
    → decode_batch v ≡ ok b
    → (12 + u16_at v 2 * 20 ≤ length v) × (batch_at v ≡ b)
decode_batch_inv v b e = ground (arith, decode_batch_lem v)

batch_at-Decoded :
    (v : List ℕ) → Octets v → 12 + u16_at v 2 * 20 ≤ length v → Decoded v (batch_at v)
unfolding batch_at
batch_at-Decoded v a h = record {
  base_small = u64_at-lt v a 4;
  counted = length-records_at v 0 (u16_at v 2);
  count_small = omega (arith, length-records_at v 0 (u16_at v 2), u16_at-lt v a 2);
  bytes_enough = omega (arith, length-records_at v 0 (u16_at v 2));
  fit = records_at-Fits v a 0 (u16_at v 2);
}

-- Whatever bytes a buffer holds, a batch that `decodeBatch` returns has a base time of 64 bits, exactly
-- as many records as its header counts, for which the buffer has room, and each record fits the
-- wire: a 32-bit offset, a 29-bit identifier, at most 8 payload bytes and as many as its DLC.
pub decode_batch-Decoded :
    (v : List ℕ) (b : CanBatch) → Octets v → decode_batch v ≡ ok b → Decoded v b
decode_batch-Decoded v b a e =
    let (room, same) = decode_batch_inv v b e in subst (Decoded v) same (batch_at-Decoded v a room)

-- Encoding a decoded batch again and decoding that returns the same batch, with the version of the
-- encoder.
pub decode_batch-reencode :
    (v : List ℕ) (b : CanBatch)
    → Octets v
    → decode_batch v ≡ ok b
    → (encode_batch (outgoing b) >>= decode_batch) ≡ ok (record b { version = 1 })
decode_batch-reencode v b a e =
    let d = decode_batch-Decoded v b a e in encode_decode_exact b d.base_small d.count_small d.fit
