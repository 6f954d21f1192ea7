-- ===== src/Analysis/ActivityAgree.antt =====
-- The packed bit activity is that of the frames (bitActivityPacked and bitActivity of
-- frontend/shared/analysis/bit-activity.ts).
use discodb.Prelude.{
  ℕ, zero, suc, ◌+◌, ◌*◌, ◌/◌, ◌^◌, ◌≤◌, ◌<◌, min, ◌≡◌, refl, ap, ◌∙◌, List, [], ◌∷◌, map, length,
  length-map, get_or, bit_and, ◌==◌, if◌then◌else◌, All, arith,
}
use discodb.FrameRing.Packed.{PackedFrames}
use discodb.Analysis.Packing.{byte_at, payload_len, frames_to_packed, group_by_id_packed}
use discodb.Analysis.Groups.{map_groups}
use discodb.Analysis.Held.{
  Holds, to_packable, IsClassic, payload_at, packed-Holds, groups-frames_to_packed,
}
use discodb.Analysis.Agree.{widest_packed-map}
use discodb.Analysis.Activity.{
  ScanFrame, BitActivityConfig, Moves, no_moves, increment, bit_value, bit_ceil, count_bit,
  count_bits, count_pairs, moves_of, count_pairs_packed, moves_of_packed, Doubles, bit_profile,
  bit_profile_packed, bit_profiles, bit_profiles_packed, activity_result, bit_activity,
  bit_activity_packed,
}

-- The loop over the bits reads no byte past its bound.
count_bits_reads :
    (f f' g g' : ℕ → ℕ) (k bit n : ℕ) (m : Moves)
    → ((b : ℕ) → b < k → f b ≡ f' b)
    → ((b : ℕ) → b < k → g b ≡ g' b)
    → bit + n ≤ k * 8
    → count_bits f g bit n m ≡ count_bits f' g' bit n m
unfolding count_bits count_bit
count_bits_reads f f' g g' k bit zero m hf hg l = refl
count_bits_reads f f' g g' k bit (suc n) m hf hg l =
    ap
      (λ v. count_bits f g (bit + 1) n (record m {
        transitions =
            if bit_and (v / 2 ^ bit_and bit 7) 1 == bit_value g bit
            then m.transitions
            else increment m.transitions bit;
        pairs = increment m.pairs bit;
      }))
      (hf (bit / 2 ^ 3) (omega arith))
    ∙ ap
        (λ v. count_bits f g (bit + 1) n (record m {
          transitions =
              if bit_value f' bit == bit_and (v / 2 ^ bit_and bit 7) 1
              then m.transitions
              else increment m.transitions bit;
          pairs = increment m.pairs bit;
        }))
        (hg (bit / 2 ^ 3) (omega arith))
    ∙ count_bits_reads f f' g g' k (bit + 1) n (count_bit f' g' bit m) hf hg (omega arith)

module _ (p : PackedFrames) (pay : ℕ → List ℕ) (h : Holds p pay) where
  count_pairs_packed-map :
      (max_bits prev : ℕ) (is : List ℕ) (m : Moves)
      → count_pairs_packed p max_bits prev is m ≡ count_pairs max_bits (pay prev) (map pay is) m
  unfolding count_pairs_packed count_pairs
  count_pairs_packed-map max_bits prev [] m = refl
  count_pairs_packed-map max_bits prev (cur ∷ is) m =
      ap (λ x. count_pairs_packed p max_bits cur is x) same
      ∙ count_pairs_packed-map max_bits cur is (
          count_bits (λ b. get_or (pay prev) b 0) (λ b. get_or (pay cur) b 0) 0
            (bit_ceil max_bits (length (pay prev)) (length (pay cur))) m)
    where
      same :
          count_bits
            (byte_at p prev)
            (byte_at p cur)
            0
            (bit_ceil max_bits (payload_len p prev) (payload_len p cur))
            m
          ≡ count_bits
              (λ b. get_or (pay prev) b 0)
              (λ b. get_or (pay cur) b 0)
              0
              (bit_ceil max_bits (length (pay prev)) (length (pay cur)))
              m
      same =
          ap
            (λ n.
              count_bits (byte_at p prev) (byte_at p cur) 0
                (bit_ceil max_bits n (payload_len p cur)) m)
            (h prev).0
          ∙ ap
              (λ n.
                count_bits (byte_at p prev) (byte_at p cur) 0
                  (bit_ceil max_bits (length (pay prev)) n) m)
              (h cur).0
          ∙ count_bits_reads (byte_at p prev) (λ b. get_or (pay prev) b 0) (byte_at p cur)
              (λ b. get_or (pay cur) b 0) (min (length (pay prev)) (length (pay cur))) 0
              (bit_ceil max_bits (length (pay prev)) (length (pay cur))) m
              (λ b l. (h prev).1 b (omega arith)) (λ b l. (h cur).1 b (omega arith)) (omega arith)

  moves_of_packed-map :
      (max_bits : ℕ) (is : List ℕ) → moves_of_packed p max_bits is ≡ moves_of max_bits (map pay is)
  unfolding moves_of_packed moves_of
  moves_of_packed-map max_bits [] = refl
  moves_of_packed-map max_bits (i ∷ is) = count_pairs_packed-map max_bits i is (no_moves max_bits)

  bit_profiles_packed-map {ℓ} :
      {F : Type ℓ} (d : Doubles F) (cfg : BitActivityConfig) (groups : List (ℕ × List ℕ))
      → bit_profiles_packed d p cfg groups ≡ bit_profiles d cfg (map_groups pay groups)
  unfolding bit_profiles_packed bit_profiles bit_profile_packed bit_profile
  bit_profiles_packed-map d cfg [] = refl
  bit_profiles_packed-map d cfg ((id, is) ∷ groups) = rw (
    bit_profiles_packed-map d cfg groups,
    widest_packed-map p pay h is 0,
    moves_of_packed-map cfg.max_bits is,
    length-map pay is,
  )

-- Packing a window of classic frames and measuring it gives the very result of measuring the frames,
-- with the same transitions, pairs and ratios of every bit, and in the same order, whatever the
-- allow-list, the thresholds and the arithmetic of the ratios.
pub bit_activity_packed-frames_to_packed {ℓ} :
    {F : Type ℓ} (d : Doubles F) (fs : List ScanFrame) (allow : List ℕ) (cfg : BitActivityConfig)
    → All IsClassic fs
    → bit_activity_packed d (frames_to_packed (map to_packable fs)) allow cfg
      ≡ bit_activity d fs allow cfg
unfolding bit_activity_packed bit_activity
bit_activity_packed-frames_to_packed d fs allow cfg a =
    let p = frames_to_packed (map to_packable fs) in
    ap (λ ids. activity_result d ids cfg)
      (bit_profiles_packed-map p (payload_at fs) (packed-Holds fs a) d cfg
          (group_by_id_packed p allow)
        ∙ ap (bit_profiles d cfg) (groups-frames_to_packed fs allow a))
