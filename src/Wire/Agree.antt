-- ===== src/Wire/Agree.antt =====
-- The three parsers read the same frames: frontend/shared/protocol.ts,
-- frontend/cockpit/src/protocol/parseBatch.ts, frontend/copilot/src/protocol/parse.ts.
use discodb.Prelude.{
  ℕ, zero, suc, ◌+◌, ◌-◌, ◌*◌, ◌≤◌, min, ◌≡◌, refl, ap, ◌∙◌, bit_and, nonzero, List, [], ◌∷◌, ◌++◌,
  map, length, replicate, ok, err, map_ok, ltb, ◌==◌, if◌then◌else◌, inl, inr, Bool-cases, tests,
  arith,
}
use discodb.Wire.View.{too_short, bad_version, truncated}
use discodb.Wire.Encode.{CanRecord, replay_flag}
use discodb.Wire.Decode.{
  CanBatch, decode_batch, CanFrame, BatchMeta, clamp_dlc, parse_frame, parse_frames, parse_meta,
  parse_batch, get_padded, fill_scratch, deliver, parse_batch_into,
}
use discodb.Wire.Reads.{u8_at, u16_at, u64_at, slice, get_uint8_lem, get_uint32_lem, get_bytes_lem}
use discodb.Wire.Total.{record_at, records_at, batch_at, header_reads, decode_batch_lem}

-- A decoded record as the cockpit's frame, at its absolute time.
abbrev pub to_frame : ℕ → CanRecord → CanFrame
to_frame base r = record {
  t_us = base + r.dt_us;
  id = r.can_id;
  is_extended = r.is_extended;
  is_error = r.is_error;
  is_rtr = r.is_rtr;
  dlc = r.dlc;
  bytes = r.bytes;
}

abbrev pub to_meta : CanBatch → BatchMeta
to_meta b = record {
  version = b.version;
  is_replay = b.replay;
  count = length b.records;
  base_t_us = b.base_time_us;
}

clamp_dlc-min : (n : ℕ) → clamp_dlc n ≡ min n 8
clamp_dlc-min n = ground arith

parse_frame_lem :
    (v : List ℕ) (base off : ℕ)
    → off + 20 ≤ length v
    → parse_frame v base off ≡ ok (to_frame base (record_at v off))
unfolding parse_frame record_at
parse_frame_lem v base off h = rw (
  get_uint32_lem v (off + 0) (omega arith),
  get_uint32_lem v (off + 4) (omega arith),
  get_uint8_lem v (off + 8) (omega arith),
  get_uint8_lem v (off + 9) (omega arith),
  clamp_dlc-min (u8_at v (off + 8)),
  get_bytes_lem v (off + 12) (min (u8_at v (off + 8)) 8) (omega arith),
)

parse_frames_lem :
    (v : List ℕ) (base i n off : ℕ)
    → off ≡ 12 + i * 20
    → 12 + (i + n) * 20 ≤ length v
    → parse_frames v base off n ≡ ok (map (to_frame base) (records_at v i n))
unfolding parse_frames records_at
parse_frames_lem v base i zero off e h = refl
parse_frames_lem v base i (suc n) off e h = rw (
  parse_frame_lem v base off (omega arith),
  parse_frames_lem v base (i + 1) n (off + 20) (omega arith) (omega arith),
  e,
)

length-records_at : (v : List ℕ) (i n : ℕ) → length (records_at v i n) ≡ n
unfolding records_at
length-records_at v i zero = refl
length-records_at v i (suc n) = ap suc (length-records_at v (i + 1) n)

abbrev meta_at : List ℕ → BatchMeta
meta_at v = record {
  version = u8_at v 0;
  is_replay = nonzero (bit_and (u8_at v 1) replay_flag);
  count = u16_at v 2;
  base_t_us = u64_at v 4;
}

-- The clients' header check.
parse_meta_lem :
    (v : List ℕ)
    → parse_meta v ≡ (
        if ltb (length v) 12
        then err too_short
        else if u8_at v 0 == 1
        then (if ltb (length v) (12 + u16_at v 2 * 20) then err truncated else ok (meta_at v))
        else err (bad_version (u8_at v 0)))
unfolding parse_meta
parse_meta_lem v = elim (Bool-cases (ltb (length v) 12)) [
  | inl short ↦ rw short
  | inr long ↦
      let reads = header_reads v (omega tests) in
      elim (Bool-cases (u8_at v 0 == 1)) [
        | inr other ↦ rw (long, reads.0, other)
        | inl one ↦ elim (Bool-cases (ltb (length v) (12 + u16_at v 2 * 20))) [
          | inl cut ↦ rw (long, reads.0, one, reads.1, reads.2, reads.3, cut)
          | inr whole ↦ rw (long, reads.0, one, reads.1, reads.2, reads.3, whole)
        ]
      ]
]

-- The cockpit parses a batch of the supported version to the frames that `decodeBatch` returns, at
-- absolute times; it refuses any other version, and a short buffer as `decodeBatch` does.
pub parse_batch_agrees :
    (v : List ℕ)
    → parse_batch v ≡ (
        if ltb (length v) 12
        then err too_short
        else if u8_at v 0 == 1
        then map_ok (λ b. (to_meta b, map (to_frame b.base_time_us) b.records)) (decode_batch v)
        else err (bad_version (u8_at v 0)))
unfolding parse_batch batch_at
parse_batch_agrees v = elim (Bool-cases (ltb (length v) 12)) [
  | inl short ↦ rw (parse_meta_lem v, short)
  | inr long ↦ elim (Bool-cases (u8_at v 0 == 1)) [
    | inr other ↦ rw (parse_meta_lem v, long, other)
    | inl one ↦ elim (Bool-cases (ltb (length v) (12 + u16_at v 2 * 20))) [
      | inl cut ↦ rw (parse_meta_lem v, decode_batch_lem v, long, one, cut)
      | inr whole ↦ rw (
        parse_meta_lem v,
        decode_batch_lem v,
        long,
        one,
        whole,
        parse_frames_lem v (u64_at v 4) 0 (u16_at v 2) 12 refl (omega tests),
        length-records_at v 0 (u16_at v 2),
      )
    ]
  ]
]

-- The copilot's payload always has 8 bytes.
abbrev pub pad : CanFrame → CanFrame
pad f = record f { bytes = f.bytes ++ replicate (8 - f.dlc) 0 }

get_padded_zeros : (v : List ℕ) (off k : ℕ) → get_padded v off 0 k ≡ ok (replicate k 0)
unfolding get_padded
get_padded_zeros v off zero = refl
get_padded_zeros v off (suc k) = rw (get_padded_zeros v (off + 1) k)

get_padded_lem :
    (v : List ℕ) (off n k : ℕ)
    → n ≤ k
    → off + n ≤ length v
    → get_padded v off n k ≡ ok (slice v off n ++ replicate (k - n) 0)
unfolding get_padded slice
get_padded_lem v off zero k h l =
    get_padded_zeros v off k ∙ ap (λ j. ok (replicate j 0)) (omega arith)
get_padded_lem v off (suc n) zero h l = absurd (omega arith)
get_padded_lem v off (suc n) (suc k) h l =
    let e : suc k - suc n ≡ k - n = omega arith in
    rw (
      e,
      get_uint8_lem v off (omega arith),
      get_padded_lem v (off + 1) n k (omega arith) (omega arith),
    )

fill_scratch_lem :
    (v : List ℕ) (base off : ℕ)
    → off + 20 ≤ length v
    → fill_scratch v base off ≡ ok (pad (to_frame base (record_at v off)))
unfolding fill_scratch record_at
fill_scratch_lem v base off h = rw (
  get_uint32_lem v (off + 0) (omega arith),
  get_uint32_lem v (off + 4) (omega arith),
  get_uint8_lem v (off + 8) (omega arith),
  get_uint8_lem v (off + 9) (omega arith),
  clamp_dlc-min (u8_at v (off + 8)),
  get_padded_lem v (off + 12) (min (u8_at v (off + 8)) 8) 8 (omega arith) (omega arith),
)

module _ {S : Type 0} (sink : S → CanFrame → BatchMeta → S) where
  -- The frames, padded, through the sink in their order.
  abbrev pub sink_all : S → BatchMeta → List CanFrame → S
  sink_all s meta [] = s
  sink_all s meta (f ∷ fs) = sink_all (sink s (pad f) meta) meta fs

  deliver_lem :
      (v : List ℕ) (meta : BatchMeta) (s : S) (i n off : ℕ)
      → off ≡ 12 + i * 20
      → 12 + (i + n) * 20 ≤ length v
      → deliver sink s v meta off n
        ≡ ok (sink_all s meta (map (to_frame meta.base_t_us) (records_at v i n)))
  unfolding deliver records_at
  deliver_lem v meta s i zero off e h = refl
  deliver_lem v meta s i (suc n) off e h =
      let frame = pad (to_frame meta.base_t_us (record_at v off)) in
      rw (fill_scratch_lem v meta.base_t_us off (omega arith)) (
        deliver_lem v meta (sink s frame meta) (i + 1) n (off + 20) (omega arith) (omega arith)
        ∙ ap
            (λ k. ok (
              sink_all (sink s (pad (to_frame meta.base_t_us (record_at v k))) meta) meta
                (map (to_frame meta.base_t_us) (records_at v (i + 1) n))))
            e)

  -- The copilot refuses what the cockpit refuses, with the same error, and else hands its sink the
  -- cockpit's frames in their order, each with its payload padded to 8 bytes by zeros.
  pub parse_batch_into_agrees :
      (s : S) (v : List ℕ)
      → parse_batch_into sink s v ≡ map_ok (λ p. (sink_all s p.0 p.1, p.0)) (parse_batch v)
  unfolding parse_batch_into parse_batch
  parse_batch_into_agrees s v = elim (Bool-cases (ltb (length v) 12)) [
    | inl short ↦ rw (parse_meta_lem v, short)
    | inr long ↦ elim (Bool-cases (u8_at v 0 == 1)) [
      | inr other ↦ rw (parse_meta_lem v, long, other)
      | inl one ↦ elim (Bool-cases (ltb (length v) (12 + u16_at v 2 * 20))) [
        | inl cut ↦ rw (parse_meta_lem v, long, one, cut)
        | inr whole ↦ rw (
          parse_meta_lem v,
          long,
          one,
          whole,
          parse_frames_lem v (u64_at v 4) 0 (u16_at v 2) 12 refl (omega tests),
          deliver_lem v (meta_at v) s 0 (u16_at v 2) 12 refl (omega tests),
        )
      ]
    ]
  ]
