-- ===== src/Analysis/Agree.antt =====
-- The packed histogram is the histogram of the frames (byteHistogramPacked and byteHistogram of
-- frontend/shared/analysis/byte-histogram.ts).
use discodb.Prelude.{
  ℕ, zero, suc, ◌+◌, min, ◌≡◌, refl, ap, ◌∙◌, List, [], ◌∷◌, map, length, length-map, get_or, All,
  ltb, leb, not_leb→lt, else_same, if◌then◌else◌,
}
use discodb.FrameRing.Packed.{PackedFrames}
use discodb.Analysis.Packing.{byte_at, payload_len, frames_to_packed, group_by_id_packed}
use discodb.Analysis.Groups.{map_groups}
use discodb.Analysis.Held.{
  Holds, to_packable, IsClassic, payload_at, packed-Holds, groups-frames_to_packed,
}
use discodb.Analysis.Histogram.{
  HistogramFrame, ByteHistogramConfig, Tally, tally_value, tally_payloads, widest, profile_bytes,
  profile_one_id, tally_packed, widest_packed, profile_bytes_packed, profile_one_id_packed,
  new_tally, profile_groups, profile_groups_packed, result_of, byte_histogram,
  byte_histogram_packed,
}

module _ (p : PackedFrames) (pay : ℕ → List ℕ) (h : Holds p pay) where
  tally_packed-map :
      (b : ℕ) (is : List ℕ) (t : Tally) → tally_packed p b is t ≡ tally_payloads b (map pay is) t
  unfolding tally_packed tally_payloads
  tally_packed-map b [] t = refl
  tally_packed-map b (i ∷ is) t =
      ap (tally_packed p b is) same
      ∙ tally_packed-map b is
          (if leb (length (pay i)) b then t else tally_value t (get_or (pay i) b 0))
    where
      same :
          (if leb (payload_len p i) b then t else tally_value t (byte_at p i b))
          ≡ (if leb (length (pay i)) b then t else tally_value t (get_or (pay i) b 0))
      same =
          ap (λ n. if leb n b then t else tally_value t (byte_at p i b)) (h i).0
          ∙ else_same (leb (length (pay i)) b) t
              (λ e. ap (tally_value t) ((h i).1 b (not_leb→lt (length (pay i)) b e)))

  pub widest_packed-map : (is : List ℕ) (m : ℕ) → widest_packed p is m ≡ widest (map pay is) m
  unfolding widest_packed widest
  widest_packed-map [] m = refl
  widest_packed-map (i ∷ is) m =
      ap (λ n. widest_packed p is (if ltb m n then n else m)) (h i).0
      ∙ widest_packed-map is (if ltb m (length (pay i)) then length (pay i) else m)

  profile_bytes_packed-map :
      (is : List ℕ) (b n : ℕ) → profile_bytes_packed p is b n ≡ profile_bytes (map pay is) b n
  unfolding profile_bytes_packed profile_bytes
  profile_bytes_packed-map is b zero = refl
  profile_bytes_packed-map is b (suc n) =
      rw (tally_packed-map b is new_tally, profile_bytes_packed-map is (b + 1) n)

  profile_one_id_packed-map :
      (id : ℕ) (is : List ℕ) (m : ℕ)
      → profile_one_id_packed id p is m ≡ profile_one_id id (map pay is) m
  unfolding profile_one_id_packed profile_one_id
  profile_one_id_packed-map id is m = rw (
    widest_packed-map is 0,
    profile_bytes_packed-map is 0 (min (widest (map pay is) 0) m),
    length-map pay is,
  )

  profile_groups_packed-map :
      (cfg : ByteHistogramConfig) (groups : List (ℕ × List ℕ))
      → profile_groups_packed p cfg groups ≡ profile_groups cfg (map_groups pay groups)
  unfolding profile_groups_packed profile_groups
  profile_groups_packed-map cfg [] = refl
  profile_groups_packed-map cfg ((id, is) ∷ groups) = rw (
    profile_groups_packed-map cfg groups,
    profile_one_id_packed-map id is cfg.max_bytes,
    length-map pay is,
  )

-- Packing a window of classic frames and scanning it gives the very result of scanning the frames:
-- the same identifiers in the same order, with the same counts, whatever the allow-list and the
-- thresholds.
pub byte_histogram_packed-frames_to_packed :
    (fs : List HistogramFrame) (allow : List ℕ) (cfg : ByteHistogramConfig)
    → All IsClassic fs
    → byte_histogram_packed (frames_to_packed (map to_packable fs)) allow cfg
      ≡ byte_histogram fs allow cfg
unfolding byte_histogram_packed byte_histogram
byte_histogram_packed-frames_to_packed fs allow cfg a =
    let p = frames_to_packed (map to_packable fs) in
    ap (λ ids. result_of ids cfg)
      (profile_groups_packed-map p (payload_at fs) (packed-Holds fs a) cfg
          (group_by_id_packed p allow)
        ∙ ap (profile_groups cfg) (groups-frames_to_packed fs allow a))
