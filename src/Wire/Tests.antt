-- ===== src/Wire/Tests.antt =====
-- A batch at concrete bytes, and instances of the theorems on the frame stream.
use discodb.Prelude.{
  pos, negsuc, ℕ, ◌+◌, ◌*◌, ◌≡◌, refl, true, false, List, [], ◌∷◌, length, map, All, ok, err, ◌>>=◌,
  map_ok, if◌then◌else◌, ltb, arith,
}
use discodb.Wire.View.{
  stray_id_bits, too_short, truncated, get_uint8, get_uint16, get_uint32, get_big_uint64, get_bytes,
  set_uint8, set_uint16, set_uint32, set_big_uint64,
}
use discodb.Wire.Encode.{
  CanRecord, OutRecord, OutBatch, word_of, is_at_most, can_id_word, has_stray_bits, copy_payload,
  encode_record, encode_records, encode_header, encode_batch,
}
use discodb.Wire.Decode.{
  CanBatch, decode_record, decode_records, decode_batch, CanFrame, BatchMeta, parse_batch,
  parse_batch_into,
}
use discodb.Wire.Words.{with_flags, to_int32, has_stray_bits_flagged}
use discodb.Wire.Writes.{Accepted}
use discodb.Wire.Reads.{u16_at}
use discodb.Wire.Total.{batch_at, decode_batch_lem}
use discodb.Wire.RoundTrip.{wire_batch, decode_batch-encode_batch}
use discodb.Wire.Exact.{Fits, outgoing_record, outgoing, encode_decode_exact}
use discodb.Wire.Agree.{to_frame, to_meta, sink_all, parse_batch_agrees, parse_batch_into_agrees}
use discodb.Wire.Bounds.{Octets, Decoded, decode_batch-Decoded}

encoding : Unit {0}
unfolding word_of is_at_most encode_batch encode_records encode_record encode_header copy_payload
    can_id_word has_stray_bits set_uint8 set_uint16 set_uint32 set_big_uint64
encoding = tt

decoding : Unit {0}
unfolding decode_batch decode_records decode_record get_uint8 get_uint16 get_uint32 get_big_uint64
    get_bytes
decoding = tt

abbrev rpm : CanRecord
rpm = record {
  dt_us = 1500;
  can_id = 0x280;
  dlc = 3;
  is_extended = false;
  is_error = false;
  is_rtr = false;
  bytes = 1 ∷ 0x2a ∷ 0xff ∷ [];
}

abbrev remote : CanRecord
remote = record {
  dt_us = 70000;
  can_id = 0x18daf110;
  dlc = 0;
  is_extended = true;
  is_error = true;
  is_rtr = true;
  bytes = [];
}

abbrev too_long : OutRecord
too_long = record (outgoing_record rpm) { dlc = 9 }

abbrev sample : OutBatch
sample = record {
  base_time_us = 5000000000;
  replay = true;
  records = outgoing_record rpm ∷ outgoing_record remote ∷ [];
}

-- `CanIdBits.EXTENDED | 0x5` is -2147483643, which protocol.test.ts has refused; `CanIdBits.ERROR |
-- 0x5` passes.
abbrev extended_5 : OutRecord
extended_5 = record (outgoing_record rpm) { can_id = negsuc 2147483642 }

abbrev error_5 : OutRecord
error_5 = record (outgoing_record rpm) { can_id = pos 0x40000005 }

extended_5_refused :
    encode_batch (record sample { records = outgoing_record rpm ∷ extended_5 ∷ [] })
    ≡ err (stray_id_bits 1)
unfolding encoding
extended_5_refused = refl

error_5_masked :
    encode_batch (record sample { records = error_5 ∷ [] })
    ≡ encode_batch
        (record sample { records = record (outgoing_record rpm) { can_id = pos 5 } ∷ [] })
unfolding encoding
error_5_masked = refl

abbrev sample_bytes : List ℕ
sample_bytes =
    1 ∷ 1 ∷ 2 ∷ 0 ∷ 0 ∷ 0xf2 ∷ 5 ∷ 0x2a ∷ 1 ∷ 0 ∷ 0 ∷ 0 ∷ 0xdc ∷ 5 ∷ 0 ∷ 0 ∷ 0x80 ∷ 2 ∷ 0 ∷ 0 ∷ 3
    ∷ 0 ∷ 0 ∷ 0 ∷ 1 ∷ 0x2a ∷ 0xff ∷ 0 ∷ 0 ∷ 0 ∷ 0 ∷ 0 ∷ 0x70 ∷ 0x11 ∷ 1 ∷ 0 ∷ 0x10 ∷ 0xf1 ∷ 0xda
    ∷ 0xd8 ∷ 0 ∷ 1 ∷ 0 ∷ 0 ∷ 0 ∷ 0 ∷ 0 ∷ 0 ∷ 0 ∷ 0 ∷ 0 ∷ 0 ∷ []

encode_sample : encode_batch sample ≡ ok sample_bytes
unfolding encoding
encode_sample = refl

abbrev sample_batch : CanBatch
sample_batch = record {
  version = 1;
  replay = true;
  base_time_us = 5000000000;
  records = rpm ∷ remote ∷ [];
}

decode_sample : decode_batch sample_bytes ≡ ok sample_batch
unfolding decoding
decode_sample = refl

sample-Fits : All Fits (rpm ∷ remote ∷ [])
sample-Fits = omega arith

sample-Accepted : All Accepted sample.records
unfolding encoding
sample-Accepted = ((omega arith, refl), ((omega arith, refl), tt))

decode_batch-encode_batch_example :
    (bytes : List ℕ) × (encode_batch sample ≡ ok bytes)
    × (length bytes ≡ 52)
    × (decode_batch bytes ≡ ok (wire_batch sample))
decode_batch-encode_batch_example = decode_batch-encode_batch sample (omega arith) sample-Accepted

encode_decode_exact_example :
    (encode_batch (outgoing sample_batch) >>= decode_batch) ≡ ok sample_batch
encode_decode_exact_example =
    encode_decode_exact sample_batch (omega arith) (omega arith) sample-Fits

decode_batch_example : decode_batch (1 ∷ 0 ∷ []) ≡ (
    if ltb 2 12
    then err too_short
    else if ltb 2 (12 + u16_at (1 ∷ 0 ∷ []) 2 * 20)
    then err truncated
    else ok (batch_at (1 ∷ 0 ∷ [])))
decode_batch_example = decode_batch_lem (1 ∷ 0 ∷ [])

parse_batch_agrees_example :
    parse_batch sample_bytes
    ≡ map_ok (λ b. (to_meta b, map (to_frame b.base_time_us) b.records)) (decode_batch sample_bytes)
parse_batch_agrees_example = parse_batch_agrees sample_bytes

abbrev count_sink : ℕ → CanFrame → BatchMeta → ℕ
count_sink n f meta = n + f.dlc

parse_batch_into_agrees_example :
    parse_batch_into count_sink 0 sample_bytes
    ≡ map_ok (λ p. (sink_all count_sink 0 p.0 p.1, p.0)) (parse_batch sample_bytes)
parse_batch_into_agrees_example = parse_batch_into_agrees count_sink 0 sample_bytes

sample-Octets : Octets sample_bytes
sample-Octets = omega arith

decode_batch-Decoded_example : Decoded sample_bytes sample_batch
decode_batch-Decoded_example =
    decode_batch-Decoded sample_bytes sample_batch sample-Octets decode_sample

has_stray_bits_flagged_example :
    (has_stray_bits (to_int32 (with_flags 5 true false)) ≡ true)
    × (has_stray_bits (pos (with_flags 5 true false)) ≡ false)
has_stray_bits_flagged_example = has_stray_bits_flagged 5 true false (omega arith)
