-- ===== src/Analysis/Packing.antt =====
-- framesToPacked, byteAt, payloadLen and groupByIdPacked of frontend/shared/analysis/packed.ts. A
-- flag that a frame leaves out is false, and a time that it leaves out is `none`.
use discodb.Prelude.{
  ℕ, zero, suc, ◌+◌, ◌*◌, ◌%◌, ◌^◌, min, bit_and, bit_or, nonzero, Bool, true, false, ◌||◌, List,
  [], ◌∷◌, ◌++◌, length, get_or, set, Option, none, some, ◌==◌, if◌then◌else◌,
}
use discodb.FrameRing.Defs.{Columns, blank_columns, payload_stride, flag}
use discodb.FrameRing.Packed.{PackedFrames}

pub record PackableFrame : Type 0 where
  pub id : ℕ
  pub t_us : Option ℕ
  pub is_extended : Bool
  pub is_error : Bool
  pub is_rtr : Bool
  pub bytes : List ℕ

abbrev pub byte_at : PackedFrames → ℕ → ℕ → ℕ
byte_at p i b = get_or p.columns.bytes (i * payload_stride + b) 0

abbrev pub payload_len : PackedFrames → ℕ → ℕ
payload_len p i = get_or p.columns.dlc i 0

abbrev pub is_extended_at : PackedFrames → ℕ → Bool
is_extended_at p i = nonzero (bit_and (get_or p.columns.flags i 0) 1)

abbrev pub is_error_at : PackedFrames → ℕ → Bool
is_error_at p i = nonzero (bit_and (get_or p.columns.flags i 0) 2)

abbrev pub is_rtr_at : PackedFrames → ℕ → Bool
is_rtr_at p i = nonzero (bit_and (get_or p.columns.flags i 0) 4)

abbrev pub or_zero_time : Option ℕ → ℕ
or_zero_time none = 0
or_zero_time (some t) = t

-- The loop over the first `n` bytes, from byte `b` on.
unfoldable pub pack_bytes : List ℕ → ℕ → List ℕ → ℕ → ℕ → List ℕ
pack_bytes out base src b zero = out
pack_bytes out base src b (suc n) =
    pack_bytes (set out (base + b) (bit_and (get_or src b 0) 0xff)) base src (b + 1) n

unfoldable pub pack_frame : Columns → ℕ → PackableFrame → Columns
pack_frame c i f =
    let n = min (length f.bytes) payload_stride in
    record {
      t_us = set c.t_us i (or_zero_time f.t_us);
      id = set c.id i (f.id % 2 ^ 32);
      flags =
          set c.flags i
            (bit_or (bit_or (flag f.is_extended 1) (flag f.is_error 2)) (flag f.is_rtr 4));
      dlc = set c.dlc i n;
      bytes = pack_bytes c.bytes (i * payload_stride) f.bytes 0 n;
    }

-- The loop over the frames, the next of them number `i`.
unfoldable pub pack_from : Columns → ℕ → List PackableFrame → Columns
pack_from c i [] = c
pack_from c i (f ∷ fs) = pack_from (pack_frame c i f) (i + 1) fs

unfoldable pub frames_to_packed : List PackableFrame → PackedFrames
frames_to_packed fs = record {
  count = length fs;
  columns = pack_from (blank_columns (length fs)) 0 fs;
}

-- A `Map` from identifiers to lists, in insertion order: `push_group` appends to the list of `k`,
-- and sets an empty one first where there is none.
unfoldable pub push_group {ℓ} : {A : Type ℓ} → ℕ → A → List (ℕ × List A) → List (ℕ × List A)
push_group k a [] = (k, a ∷ []) ∷ []
push_group k a ((j, vs) ∷ groups) =
    if j == k then (j, vs ++ (a ∷ [])) ∷ groups else (j, vs) ∷ push_group k a groups

abbrev pub has : List ℕ → ℕ → Bool
has [] i = false
has (j ∷ ids) i = j == i || has ids i

-- The allow-list: an empty or absent one lets every identifier pass.
abbrev pub allows : List ℕ → ℕ → Bool
allows [] i = true
allows (j ∷ ids) i = has (j ∷ ids) i

-- The loop over the frames from `i` on.
unfoldable pub group_from : PackedFrames → List ℕ → ℕ → ℕ → List (ℕ × List ℕ) → List (ℕ × List ℕ)
group_from p allow i zero groups = groups
group_from p allow i (suc n) groups =
    let fid = get_or p.columns.id i 0 in
    group_from p allow (i + 1) n (if allows allow fid then push_group fid i groups else groups)

unfoldable pub group_by_id_packed : PackedFrames → List ℕ → List (ℕ × List ℕ)
group_by_id_packed p allow = group_from p allow 0 p.count []
