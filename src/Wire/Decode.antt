-- ===== src/Wire/Decode.antt =====
-- The three parsers of a batch: `decodeBatch` of frontend/shared/protocol.ts, `parseBatch` of
-- frontend/cockpit/src/protocol/parseBatch.ts, and `parseBatch` of
-- frontend/copilot/src/protocol/parse.ts.
use discodb.Prelude.{
  ℕ, zero, suc, ◌+◌, ◌*◌, min, bit_and, Bool, List, [], ◌∷◌, length, ltb, ◌==◌, nonzero,
  if◌then◌else◌, Result, ok, guard, ◌>>=◌, ◌>>◌, not,
}
use discodb.Wire.View.{
  WireError, too_short, bad_version, truncated, get_uint8, get_uint16, get_uint32, get_big_uint64,
  get_bytes,
}
use discodb.Wire.Encode.{
  CanRecord, protocol_version, batch_header_bytes, record_bytes, max_dlc, replay_flag, rtr_flag,
  id_mask, error_bit, extended_bit,
}

-- `CanBatch`
pub record CanBatch : Type 0 where
  pub version : ℕ
  pub replay : Bool
  pub base_time_us : ℕ
  pub records : List CanRecord

-- The body of the loop of `decodeBatch`.
unfoldable pub decode_record : List ℕ → ℕ → Result WireError CanRecord
decode_record v off = do
  dt_us ← get_uint32 v (off + 0)
  word ← get_uint32 v (off + 4)
  dlc_raw ← get_uint8 v (off + 8)
  rec_flags ← get_uint8 v (off + 9)
  let dlc = min dlc_raw max_dlc
  bytes ← get_bytes v (off + 12) dlc
  ok (record {
    dt_us = dt_us;
    can_id = bit_and word id_mask;
    dlc = dlc;
    is_extended = nonzero (bit_and word extended_bit);
    is_error = nonzero (bit_and word error_bit);
    is_rtr = nonzero (bit_and rec_flags rtr_flag);
    bytes = bytes;
  })

-- The loop: `n` records, the next of them number `i`.
unfoldable pub decode_records : List ℕ → ℕ → ℕ → Result WireError (List CanRecord)
decode_records v i zero = ok []
decode_records v i (suc n) = do
  r ← decode_record v (batch_header_bytes + i * record_bytes)
  rs ← decode_records v (i + 1) n
  ok (r ∷ rs)

unfoldable pub decode_batch : List ℕ → Result WireError CanBatch
decode_batch v = do
  guard (not (ltb (length v) batch_header_bytes)) too_short
  version ← get_uint8 v 0
  flags ← get_uint8 v 1
  count ← get_uint16 v 2
  base_time_us ← get_big_uint64 v 4
  guard (not (ltb (length v) (batch_header_bytes + count * record_bytes))) truncated
  records ← decode_records v 0 count
  ok (record {
    version = version;
    replay = nonzero (bit_and flags replay_flag);
    base_time_us = base_time_us;
    records = records;
  })

-- `recordTimeUs`
abbrev pub record_time_us : CanBatch → CanRecord → ℕ
record_time_us b r = b.base_time_us + r.dt_us

-- `CanFrame` of the cockpit; also `CanRecord` of the copilot, whose payload has always 8 bytes.
pub record CanFrame : Type 0 where
  pub t_us : ℕ
  pub id : ℕ
  pub is_extended : Bool
  pub is_error : Bool
  pub is_rtr : Bool
  pub dlc : ℕ
  pub bytes : List ℕ

pub record BatchMeta : Type 0 where
  pub version : ℕ
  pub is_replay : Bool
  pub count : ℕ
  pub base_t_us : ℕ

-- `dlcRaw > 8 ? 8 : dlcRaw`
abbrev pub clamp_dlc : ℕ → ℕ
clamp_dlc n = if ltb 8 n then 8 else n

-- The body of the loop of the cockpit's `parseBatch`.
unfoldable pub parse_frame : List ℕ → ℕ → ℕ → Result WireError CanFrame
parse_frame v base_t_us off = do
  dt_us ← get_uint32 v (off + 0)
  raw_id ← get_uint32 v (off + 4)
  dlc_raw ← get_uint8 v (off + 8)
  rec_flags ← get_uint8 v (off + 9)
  let dlc = clamp_dlc dlc_raw
  bytes ← get_bytes v (off + 12) dlc
  ok (record {
    t_us = base_t_us + dt_us;
    id = bit_and raw_id id_mask;
    is_extended = nonzero (bit_and raw_id extended_bit);
    is_error = nonzero (bit_and raw_id error_bit);
    is_rtr = nonzero (bit_and rec_flags rtr_flag);
    dlc = dlc;
    bytes = bytes;
  })

unfoldable pub parse_frames : List ℕ → ℕ → ℕ → ℕ → Result WireError (List CanFrame)
parse_frames v base_t_us off zero = ok []
parse_frames v base_t_us off (suc n) = do
  f ← parse_frame v base_t_us off
  fs ← parse_frames v base_t_us (off + record_bytes) n
  ok (f ∷ fs)

-- The header that both clients read; `truncated` and `bad_version` in the order of the source.
unfoldable pub parse_meta : List ℕ → Result WireError BatchMeta
parse_meta v = do
  guard (not (ltb (length v) batch_header_bytes)) too_short
  version ← get_uint8 v 0
  guard (version == protocol_version) (bad_version version)
  flags ← get_uint8 v 1
  count ← get_uint16 v 2
  base_t_us ← get_big_uint64 v 4
  guard (not (ltb (length v) (batch_header_bytes + count * record_bytes))) truncated
  ok (record {
    version = version;
    is_replay = nonzero (bit_and flags replay_flag);
    count = count;
    base_t_us = base_t_us;
  })

-- The cockpit's `parseBatch`
unfoldable pub parse_batch : List ℕ → Result WireError (BatchMeta × List CanFrame)
parse_batch v = do
  meta ← parse_meta v
  frames ← parse_frames v meta.base_t_us batch_header_bytes meta.count
  ok (meta, frames)

-- `b < n ? view.getUint8(dataOff + b) : 0` for `b` from 0 to 7
unfoldable pub get_padded : List ℕ → ℕ → ℕ → ℕ → Result WireError (List ℕ)
get_padded v off n zero = ok []
get_padded v off zero (suc k) = do bs ← get_padded v (off + 1) zero k; ok (0 ∷ bs)
get_padded v off (suc n) (suc k) = do
  b ← get_uint8 v off
  bs ← get_padded v (off + 1) n k
  ok (b ∷ bs)

-- The scratch record of the copilot, filled from one wire record.
unfoldable pub fill_scratch : List ℕ → ℕ → ℕ → Result WireError CanFrame
fill_scratch v base_t_us off = do
  dt_us ← get_uint32 v (off + 0)
  raw_id ← get_uint32 v (off + 4)
  dlc ← get_uint8 v (off + 8)
  rec_flags ← get_uint8 v (off + 9)
  let n = clamp_dlc dlc
  bytes ← get_padded v (off + 12) n 8
  ok (record {
    t_us = base_t_us + dt_us;
    id = bit_and raw_id id_mask;
    is_extended = nonzero (bit_and raw_id extended_bit);
    is_error = nonzero (bit_and raw_id error_bit);
    is_rtr = nonzero (bit_and rec_flags rtr_flag);
    dlc = n;
    bytes = bytes;
  })

-- The copilot's `parseBatch` hands each record to a sink, which uses it before the next one is read.
module _ {S : Type 0} (sink : S → CanFrame → BatchMeta → S) where
  unfoldable pub deliver : S → List ℕ → BatchMeta → ℕ → ℕ → Result WireError S
  deliver s v meta off zero = ok s
  deliver s v meta off (suc n) = do
    r ← fill_scratch v meta.base_t_us off
    deliver (sink s r meta) v meta (off + record_bytes) n

  unfoldable pub parse_batch_into : S → List ℕ → Result WireError (S × BatchMeta)
  parse_batch_into s v = do
    meta ← parse_meta v
    s' ← deliver s v meta batch_header_bytes meta.count
    ok (s', meta)
