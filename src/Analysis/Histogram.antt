-- ===== src/Analysis/Histogram.antt =====
-- The byte histograms of frontend/shared/analysis/byte-histogram.ts, over frames and over their
-- packed form. A `min` or `max` of -1 is `none`. A tallied value is a byte: the payload of a
-- `Uint8Array` holds bytes, and any other is cut to bytes.
use Prim.Native.Nat.{compare, Ordering}
use discodb.Prelude.{
  ℕ, zero, suc, ◌+◌, min, bit_and, Bool, List, [], ◌∷◌, map, length, get_or, set, replicate, Option,
  none, some, ltb, leb, ◌==◌, if◌then◌else◌,
}
use discodb.FrameRing.Packed.{PackedFrames}
use discodb.Analysis.Packing.{byte_at, payload_len, push_group, allows, group_by_id_packed}

-- `is_bytes` tells a `Uint8Array` from a `number[]`.
pub record HistogramFrame : Type 0 where
  pub id : ℕ
  pub t_us : ℕ
  pub is_bytes : Bool
  pub bytes : List ℕ

pub record ByteHistogramConfig : Type 0 where
  pub max_bytes : ℕ
  pub min_frames : ℕ

abbrev pub byte_histogram_defaults : ByteHistogramConfig
byte_histogram_defaults = record { max_bytes = 8; min_frames = 2 }

abbrev pub byte_value_bins : ℕ
byte_value_bins = 256

-- The variables of the tally of one byte.
pub record Tally : Type 0 where
  pub counts : List ℕ
  pub samples : ℕ
  pub distinct : ℕ
  pub least : Option ℕ
  pub greatest : Option ℕ

pub record ByteValueHistogram : Type 0 where
  pub byte_index : ℕ
  pub tally : Tally

pub record IdByteHistogram : Type 0 where
  pub id : ℕ
  pub frames : ℕ
  pub max_byte : ℕ
  pub bytes : List ByteValueHistogram

pub record ByteHistogramResult : Type 0 where
  pub ids : List IdByteHistogram
  pub frames_analyzed : ℕ
  pub id_count : ℕ
  pub max_bytes : ℕ

abbrev pub new_tally : Tally
new_tally = record {
  counts = replicate byte_value_bins 0;
  samples = 0;
  distinct = 0;
  least = none;
  greatest = none;
}

abbrev pub lower : Option ℕ → ℕ → Option ℕ
lower none v = some v
lower (some m) v = some (if ltb v m then v else m)

abbrev pub higher : Option ℕ → ℕ → Option ℕ
higher none v = some v
higher (some m) v = some (if ltb m v then v else m)

-- The body of the tally loops for a value `v`.
unfoldable pub tally_value : Tally → ℕ → Tally
tally_value t v = record {
  counts = set t.counts v (get_or t.counts v 0 + 1);
  samples = t.samples + 1;
  distinct = if get_or t.counts v 0 == 0 then t.distinct + 1 else t.distinct;
  least = lower t.least v;
  greatest = higher t.greatest v;
}

-- The tally of byte `i` over the payloads that have it.
unfoldable pub tally_payloads : ℕ → List (List ℕ) → Tally → Tally
tally_payloads i [] t = t
tally_payloads i (p ∷ ps) t =
    tally_payloads i ps (if leb (length p) i then t else tally_value t (get_or p i 0))

unfoldable pub widest : List (List ℕ) → ℕ → ℕ
widest [] m = m
widest (p ∷ ps) m = widest ps (if ltb m (length p) then length p else m)

-- The loop over the byte indices from `i` on.
unfoldable pub profile_bytes : List (List ℕ) → ℕ → ℕ → List ByteValueHistogram
profile_bytes ps i zero = []
profile_bytes ps i (suc n) =
    record { byte_index = i; tally = tally_payloads i ps new_tally } ∷ profile_bytes ps (i + 1) n

unfoldable pub profile_one_id : ℕ → List (List ℕ) → ℕ → IdByteHistogram
profile_one_id id ps max_bytes =
    let max_byte = widest ps 0 in
    record {
      id = id;
      frames = length ps;
      max_byte = max_byte;
      bytes = profile_bytes ps 0 (min max_byte max_bytes);
    }

-- The packed twins.
unfoldable pub tally_packed : PackedFrames → ℕ → List ℕ → Tally → Tally
tally_packed p bi [] t = t
tally_packed p bi (i ∷ is) t =
    tally_packed p bi is (if leb (payload_len p i) bi then t else tally_value t (byte_at p i bi))

unfoldable pub widest_packed : PackedFrames → List ℕ → ℕ → ℕ
widest_packed p [] m = m
widest_packed p (i ∷ is) m =
    widest_packed p is (if ltb m (payload_len p i) then payload_len p i else m)

unfoldable pub profile_bytes_packed : PackedFrames → List ℕ → ℕ → ℕ → List ByteValueHistogram
profile_bytes_packed p is bi zero = []
profile_bytes_packed p is bi (suc n) =
    record { byte_index = bi; tally = tally_packed p bi is new_tally }
    ∷ profile_bytes_packed p is (bi + 1) n

unfoldable pub profile_one_id_packed : ℕ → PackedFrames → List ℕ → ℕ → IdByteHistogram
profile_one_id_packed id p is max_bytes =
    let max_byte = widest_packed p is 0 in
    record {
      id = id;
      frames = length is;
      max_byte = max_byte;
      bytes = profile_bytes_packed p is 0 (min max_byte max_bytes);
    }

unfoldable pub peak_of : List ByteValueHistogram → ℕ → ℕ
peak_of [] m = m
peak_of (b ∷ bs) m = peak_of bs (if ltb m b.tally.distinct then b.tally.distinct else m)

unfoldable pub peak_distinct : IdByteHistogram → ℕ
peak_distinct p = peak_of p.bytes 0

-- The sign of what the comparison of the source returns.
unfoldable pub compare_richest : IdByteHistogram → IdByteHistogram → Ordering
compare_richest a b = elim (compare (peak_distinct b) (peak_distinct a)) [
  | Ordering.eq ↦ elim (compare b.frames a.frames) [
    | Ordering.eq ↦ compare a.id b.id
    | Ordering.lt ↦ Ordering.lt
    | Ordering.gt ↦ Ordering.gt
  ]
  | Ordering.lt ↦ Ordering.lt
  | Ordering.gt ↦ Ordering.gt
]

-- `Array.prototype.sort` by that comparison: stable, here by insertion.
unfoldable pub insert_richest : IdByteHistogram → List IdByteHistogram → List IdByteHistogram
insert_richest x [] = x ∷ []
insert_richest x (y ∷ ys) = elim (compare_richest x y) [
  | Ordering.gt ↦ y ∷ insert_richest x ys
  | _ ↦ x ∷ (y ∷ ys)
]

unfoldable pub sort_richest : List IdByteHistogram → List IdByteHistogram
sort_richest [] = []
sort_richest (x ∷ xs) = insert_richest x (sort_richest xs)

abbrev pub payload_of : HistogramFrame → List ℕ
payload_of f = if f.is_bytes then f.bytes else map (λ b. bit_and b 0xff) f.bytes

unfoldable pub group_frames :
    List ℕ → List HistogramFrame → List (ℕ × List (List ℕ)) → List (ℕ × List (List ℕ))
group_frames allow [] groups = groups
group_frames allow (f ∷ fs) groups =
    group_frames allow fs
      (if allows allow f.id then push_group f.id (payload_of f) groups else groups)

unfoldable pub profile_groups :
    ByteHistogramConfig → List (ℕ × List (List ℕ)) → List IdByteHistogram
profile_groups cfg [] = []
profile_groups cfg ((id, ps) ∷ groups) =
    let rest = profile_groups cfg groups in
    if ltb (length ps) cfg.min_frames then rest else profile_one_id id ps cfg.max_bytes ∷ rest

unfoldable pub profile_groups_packed :
    PackedFrames → ByteHistogramConfig → List (ℕ × List ℕ) → List IdByteHistogram
profile_groups_packed p cfg [] = []
profile_groups_packed p cfg ((id, is) ∷ groups) =
    let rest = profile_groups_packed p cfg groups in
    if ltb (length is) cfg.min_frames
    then rest
    else profile_one_id_packed id p is cfg.max_bytes ∷ rest

unfoldable pub total_frames : List IdByteHistogram → ℕ
total_frames [] = 0
total_frames (p ∷ ps) = p.frames + total_frames ps

unfoldable pub result_of : List IdByteHistogram → ByteHistogramConfig → ByteHistogramResult
result_of ids cfg = record {
  ids = sort_richest ids;
  frames_analyzed = total_frames ids;
  id_count = length ids;
  max_bytes = cfg.max_bytes;
}

unfoldable pub byte_histogram :
    List HistogramFrame → List ℕ → ByteHistogramConfig → ByteHistogramResult
byte_histogram fs allow cfg = result_of (profile_groups cfg (group_frames allow fs [])) cfg

unfoldable pub byte_histogram_packed :
    PackedFrames → List ℕ → ByteHistogramConfig → ByteHistogramResult
byte_histogram_packed p allow cfg =
    result_of (profile_groups_packed p cfg (group_by_id_packed p allow)) cfg
