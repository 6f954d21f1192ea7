-- ===== src/Wire/Encode.antt =====
-- `encodeBatch` of frontend/shared/protocol.ts, as writes to a zero-filled buffer.
use discodb.Prelude.{
  ℤ, pos, negsuc, true, ℕ, zero, suc, ◌+◌, ◌-◌, ◌*◌, ◌%◌, ◌^◌, bit_and, bit_or, Bool, not, ◌&&◌,
  List, [], ◌∷◌, length, get_or, set, replicate, leb, nonzero, if◌then◌else◌, Result, ok, guard,
  ◌>>=◌, ◌>>◌,
}
use discodb.Wire.View.{
  WireError, count_too_large, dlc_out_of_range, stray_id_bits, set_uint8, set_uint16, set_uint32,
  set_big_uint64,
}

abbrev pub protocol_version : ℕ
protocol_version = 1

abbrev pub batch_header_bytes : ℕ
batch_header_bytes = 12

abbrev pub record_bytes : ℕ
record_bytes = 20

abbrev pub max_dlc : ℕ
max_dlc = 8

-- `BatchFlag.REPLAY`
abbrev pub replay_flag : ℕ
replay_flag = 2 ^ 0

-- `RecFlag.RTR`
abbrev pub rtr_flag : ℕ
rtr_flag = 2 ^ 0

-- `CanIdBits`
abbrev pub id_mask : ℕ
id_mask = 2 ^ 29 - 1

abbrev pub error_bit : ℕ
error_bit = 2 ^ 30

abbrev pub extended_bit : ℕ
extended_bit = 2 ^ 31

-- A record as the decoder returns it.
pub record CanRecord : Type 0 where
  pub dt_us : ℕ
  pub can_id : ℕ
  pub dlc : ℕ
  pub is_extended : Bool
  pub is_error : Bool
  pub is_rtr : Bool
  pub bytes : List ℕ

-- A record as it is given to the encoder: an identifier into which a caller has OR-ed flags with `|`
-- may be negative. An optional flag that is left out is false. A DLC is not
-- negative, so that the first half of its range check is left out.
pub record OutRecord : Type 0 where
  pub dt_us : ℕ
  pub can_id : ℤ
  pub dlc : ℕ
  pub is_extended : Bool
  pub is_error : Bool
  pub is_rtr : Bool
  pub bytes : List ℕ

-- What `encodeBatch` takes.
pub record OutBatch : Type 0 where
  pub base_time_us : ℕ
  pub replay : Bool
  pub records : List OutRecord

-- An operand of `&`, modulo 2^32; -1 is `negsuc 0`.
unfoldable pub word_of : ℤ → ℕ
word_of (pos n) = n % 2 ^ 32
word_of (negsuc n) = 2 ^ 32 - 1 - n % 2 ^ 32

-- `c <= n`
unfoldable pub is_at_most : ℤ → ℕ → Bool
is_at_most (pos c) n = leb c n
is_at_most (negsuc c) n = true

-- `canIdWord`
unfoldable pub can_id_word : OutRecord → ℕ
can_id_word r =
    let id_field = bit_and (word_of r.can_id) id_mask in
    let word = if r.is_extended then bit_or id_field extended_bit else id_field in
    if r.is_error then bit_or word error_bit else word

-- The test that is meant to reject flag bits in `canId`: `~ID_MASK` is 0xe0000000 as a word.
unfoldable pub has_stray_bits : ℤ → Bool
has_stray_bits can_id = nonzero (bit_and (word_of can_id) 0xe0000000) && is_at_most can_id id_mask

-- The loop over `b`: `u8[off + 12 + b] = r.data[b] & 0xff`; a byte that is missing reads as 0.
unfoldable pub copy_payload : List ℕ → ℕ → List ℕ → ℕ → ℕ → List ℕ
copy_payload buf off bytes b zero = buf
copy_payload buf off bytes b (suc n) =
    copy_payload (set buf (off + 12 + b) (bit_and (get_or bytes b 0) 0xff)) off bytes (b + 1) n

-- One round of the loop over the records.
unfoldable pub encode_record : List ℕ → ℕ → OutRecord → Result WireError (List ℕ)
encode_record buf i r = do
  let off = batch_header_bytes + i * record_bytes
  guard (leb r.dlc max_dlc) (dlc_out_of_range i)
  guard (not (has_stray_bits r.can_id)) (stray_id_bits i)
  let buf1 = set_uint32 buf (off + 0) (r.dt_us % 2 ^ 32)
  let buf2 = set_uint32 buf1 (off + 4) (can_id_word r)
  let buf3 = set_uint8 buf2 (off + 8) r.dlc
  let buf4 = set_uint8 buf3 (off + 9) (if r.is_rtr then rtr_flag else 0)
  let buf5 = set_uint16 buf4 (off + 10) 0
  ok (copy_payload buf5 off r.bytes 0 r.dlc)

unfoldable pub encode_records : List ℕ → ℕ → List OutRecord → Result WireError (List ℕ)
encode_records buf i [] = ok buf
encode_records buf i (r ∷ rs) = do buf' ← encode_record buf i r; encode_records buf' (i + 1) rs

unfoldable pub encode_header : List ℕ → OutBatch → List ℕ
encode_header buf b =
    let buf1 = set_uint8 buf 0 protocol_version in
    let buf2 = set_uint8 buf1 1 (if b.replay then replay_flag else 0) in
    let buf3 = set_uint16 buf2 2 (length b.records) in set_big_uint64 buf3 4 b.base_time_us

unfoldable pub encode_batch : OutBatch → Result WireError (List ℕ)
encode_batch b = do
  let count = length b.records
  guard (leb count 0xffff) (count_too_large count)
  let buf = replicate (batch_header_bytes + count * record_bytes) 0
  encode_records (encode_header buf b) 0 b.records
