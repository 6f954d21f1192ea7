-- ===== src/Analysis/Activity.antt =====
-- How often each bit of an identifier changes: frontend/shared/analysis/bit-activity.ts, over frames
-- and over their packed form. A division and a comparison of doubles are parameters; a ratio is never
-- a NaN, as it is taken of two counts with a positive divisor.
use Prim.Native.Nat.{compare, Ordering}
use discodb.Prelude.{
  ℕ, zero, suc, ◌+◌, ◌*◌, ◌/◌, ◌^◌, min, bit_and, Bool, ◌&&◌, List, [], ◌∷◌, length, get_or, set,
  replicate, ltb, ◌==◌, if◌then◌else◌,
}
use discodb.FrameRing.Packed.{PackedFrames}
use discodb.Analysis.Packing.{byte_at, payload_len, group_by_id_packed}
use discodb.Analysis.Histogram.{HistogramFrame, group_frames, widest, widest_packed}

-- The interface declares the fields of `HistogramFrame`, and bitActivity groups its frames by the
-- loop of byteHistogram.
abbrev pub ScanFrame : Type 0
ScanFrame = HistogramFrame

pub record BitActivityConfig : Type 0 where
  pub max_bits : ℕ
  pub min_frames : ℕ

abbrev pub bit_activity_defaults : BitActivityConfig
bit_activity_defaults = record { max_bits = 64; min_frames = 2 }

-- The two arrays that the loops over the pairs count in.
pub record Moves : Type 0 where
  pub transitions : List ℕ
  pub pairs : List ℕ

abbrev pub no_moves : ℕ → Moves
no_moves max_bits = record { transitions = replicate max_bits 0; pairs = replicate max_bits 0 }

-- `xs[i]++`
abbrev pub increment : List ℕ → ℕ → List ℕ
increment xs i = set xs i (get_or xs i 0 + 1)

-- `(byte >> bitInByte) & 1`, of the byte that holds the bit.
abbrev pub bit_value : (ℕ → ℕ) → ℕ → ℕ
bit_value bytes bit = bit_and (bytes (bit / 2 ^ 3) / 2 ^ bit_and bit 7) 1

-- The body of the loop over the bits, given how the bytes of the two frames are read.
unfoldable pub count_bit : (ℕ → ℕ) → (ℕ → ℕ) → ℕ → Moves → Moves
count_bit prev cur bit m = record {
  transitions =
      if bit_value prev bit == bit_value cur bit
      then m.transitions
      else increment m.transitions bit;
  pairs = increment m.pairs bit;
}

-- The loop over `n` bits, from `bit` on.
unfoldable pub count_bits : (ℕ → ℕ) → (ℕ → ℕ) → ℕ → ℕ → Moves → Moves
count_bits prev cur bit zero m = m
count_bits prev cur bit (suc n) m = count_bits prev cur (bit + 1) n (count_bit prev cur bit m)

-- `bitCeil`, given the lengths of the two payloads.
abbrev pub bit_ceil : ℕ → ℕ → ℕ → ℕ
bit_ceil max_bits prev cur = min max_bits (min (min prev cur) (max_bits / 2 ^ 3) * 8)

-- The loop over the pairs, after the payload `prev`.
unfoldable pub count_pairs : ℕ → List ℕ → List (List ℕ) → Moves → Moves
count_pairs max_bits prev [] m = m
count_pairs max_bits prev (cur ∷ ps) m = count_pairs max_bits cur ps (
    count_bits (λ b. get_or prev b 0) (λ b. get_or cur b 0) 0
      (bit_ceil max_bits (length prev) (length cur)) m)

unfoldable pub moves_of : ℕ → List (List ℕ) → Moves
moves_of max_bits [] = no_moves max_bits
moves_of max_bits (p ∷ ps) = count_pairs max_bits p ps (no_moves max_bits)

unfoldable pub count_pairs_packed : PackedFrames → ℕ → ℕ → List ℕ → Moves → Moves
count_pairs_packed p max_bits prev [] m = m
count_pairs_packed p max_bits prev (cur ∷ is) m = count_pairs_packed p max_bits cur is (
    count_bits (byte_at p prev) (byte_at p cur) 0
      (bit_ceil max_bits (payload_len p prev) (payload_len p cur)) m)

unfoldable pub moves_of_packed : PackedFrames → ℕ → List ℕ → Moves
moves_of_packed p max_bits [] = no_moves max_bits
moves_of_packed p max_bits (i ∷ is) = count_pairs_packed p max_bits i is (no_moves max_bits)

-- `constant`, from bit `bit` on.
unfoldable pub constant_from : Moves → ℕ → ℕ → List Bool
constant_from m bit zero = []
constant_from m bit (suc n) =
    (ltb 0 (get_or m.pairs bit 0) && (get_or m.transitions bit 0 == 0))
    ∷ constant_from m (bit + 1) n

-- The doubles that the ratios are: the quotient of two counts, the test for being greater, and 0.
pub record Doubles {ℓ} (F : Type ℓ) : Type ℓ where
  pub ratio : ℕ → ℕ → F
  pub above : F → F → Bool
  pub nought : F

pub record IdBitActivity {ℓ} (F : Type ℓ) : Type ℓ where
  pub id : ℕ
  pub frames : ℕ
  pub max_byte : ℕ
  pub moves : Moves
  pub activity : List F
  pub constant : List Bool

pub record BitActivityResult {ℓ} (F : Type ℓ) : Type ℓ where
  pub ids : List (IdBitActivity F)
  pub frames_analyzed : ℕ
  pub id_count : ℕ
  pub max_bits : ℕ

module _ {ℓ} {F : Type ℓ} (d : Doubles F) where
  unfoldable pub activity_from : Moves → ℕ → ℕ → List F
  activity_from m bit zero = []
  activity_from m bit (suc n) =
      (if ltb 0 (get_or m.pairs bit 0)
        then d.ratio (get_or m.transitions bit 0) (get_or m.pairs bit 0)
        else d.nought)
      ∷ activity_from m (bit + 1) n

  -- What both profiles return.
  unfoldable pub activity_of : ℕ → ℕ → ℕ → ℕ → Moves → IdBitActivity F
  activity_of id frames max_byte max_bits m = record {
    id = id;
    frames = frames;
    max_byte = max_byte;
    moves = m;
    activity = activity_from m 0 max_bits;
    constant = constant_from m 0 max_bits;
  }

  unfoldable pub bit_profile : ℕ → List (List ℕ) → ℕ → IdBitActivity F
  bit_profile id ps max_bits =
      activity_of id (length ps) (widest ps 0) max_bits (moves_of max_bits ps)

  unfoldable pub bit_profile_packed : ℕ → PackedFrames → List ℕ → ℕ → IdBitActivity F
  bit_profile_packed id p is max_bits =
      activity_of id (length is) (widest_packed p is 0) max_bits (moves_of_packed p max_bits is)

  unfoldable pub peak : List F → F → F
  peak [] m = m
  peak (x ∷ xs) m = peak xs (if d.above x m then x else m)

  -- The sign of what the comparison of the source returns.
  unfoldable pub compare_busiest : IdBitActivity F → IdBitActivity F → Ordering
  compare_busiest a b =
      let pa = peak a.activity d.nought in
      let pb = peak b.activity d.nought in
      if d.above pb pa
      then Ordering.gt
      else if d.above pa pb
      then Ordering.lt
      else elim (compare b.frames a.frames) [
        | Ordering.eq ↦ compare a.id b.id
        | Ordering.lt ↦ Ordering.lt
        | Ordering.gt ↦ Ordering.gt
      ]

  -- `Array.prototype.sort` by that comparison: stable, here by insertion.
  unfoldable pub insert_busiest : IdBitActivity F → List (IdBitActivity F) → List (IdBitActivity F)
  insert_busiest x [] = x ∷ []
  insert_busiest x (y ∷ ys) = elim (compare_busiest x y) [
    | Ordering.gt ↦ y ∷ insert_busiest x ys
    | _ ↦ x ∷ (y ∷ ys)
  ]

  unfoldable pub sort_busiest : List (IdBitActivity F) → List (IdBitActivity F)
  sort_busiest [] = []
  sort_busiest (x ∷ xs) = insert_busiest x (sort_busiest xs)

  unfoldable pub bit_profiles :
      BitActivityConfig → List (ℕ × List (List ℕ)) → List (IdBitActivity F)
  bit_profiles cfg [] = []
  bit_profiles cfg ((id, ps) ∷ groups) =
      let rest = bit_profiles cfg groups in
      if ltb (length ps) cfg.min_frames then rest else bit_profile id ps cfg.max_bits ∷ rest

  unfoldable pub bit_profiles_packed :
      PackedFrames → BitActivityConfig → List (ℕ × List ℕ) → List (IdBitActivity F)
  bit_profiles_packed p cfg [] = []
  bit_profiles_packed p cfg ((id, is) ∷ groups) =
      let rest = bit_profiles_packed p cfg groups in
      if ltb (length is) cfg.min_frames
      then rest
      else bit_profile_packed id p is cfg.max_bits ∷ rest

  unfoldable pub frames_of : List (IdBitActivity F) → ℕ
  frames_of [] = 0
  frames_of (p ∷ ps) = p.frames + frames_of ps

  unfoldable pub activity_result : List (IdBitActivity F) → BitActivityConfig → BitActivityResult F
  activity_result ids cfg = record {
    ids = sort_busiest ids;
    frames_analyzed = frames_of ids;
    id_count = length ids;
    max_bits = cfg.max_bits;
  }

  unfoldable pub bit_activity : List ScanFrame → List ℕ → BitActivityConfig → BitActivityResult F
  bit_activity fs allow cfg = activity_result (bit_profiles cfg (group_frames allow fs [])) cfg

  unfoldable pub bit_activity_packed :
      PackedFrames → List ℕ → BitActivityConfig → BitActivityResult F
  bit_activity_packed p allow cfg =
      activity_result (bit_profiles_packed p cfg (group_by_id_packed p allow)) cfg
