-- ===== src/Analysis/Groups.antt =====
-- Grouping by identifier, by indices (groupByIdPacked of frontend/shared/analysis/packed.ts) and by
-- payloads (byteHistogram of frontend/shared/analysis/byte-histogram.ts).
use discodb.Prelude.{
  ℕ, suc, ◌+◌, ◌≡◌, refl, sym, ap, ◌∙◌, Bool, true, false, List, [], ◌∷◌, ◌++◌, map, map-append,
  length, get_or, get_elem?, some, ◌==◌, if◌then◌else◌, arith,
}
use discodb.FrameRing.Packed.{PackedFrames}
use discodb.Analysis.Packing.{push_group, allows, group_from}
use discodb.Analysis.Histogram.{HistogramFrame, payload_of, group_frames}

module _ (pay : ℕ → List ℕ) where
  -- Groups of indices as groups of what the indices stand for.
  abbrev pub map_groups : List (ℕ × List ℕ) → List (ℕ × List (List ℕ))
  map_groups [] = []
  map_groups ((k, is) ∷ groups) = (k, map pay is) ∷ map_groups groups

  push_group-map_groups :
      (k i : ℕ) (groups : List (ℕ × List ℕ))
      → push_group k (pay i) (map_groups groups) ≡ map_groups (push_group k i groups)
  unfolding push_group
  push_group-map_groups k i [] = refl
  push_group-map_groups k i ((j, is) ∷ groups) = by_key (j == k) (push_group-map_groups k i groups)
    where
      by_key :
          (b : Bool)
          → push_group k (pay i) (map_groups groups) ≡ map_groups (push_group k i groups)
          → (if b
              then (j, map pay is ++ (pay i ∷ [])) ∷ map_groups groups
              else (j, map pay is) ∷ push_group k (pay i) (map_groups groups))
            ≡ map_groups
                (if b then (j, is ++ (i ∷ [])) ∷ groups else (j, is) ∷ push_group k i groups)
      by_key true e = ap (λ l. (j, l) ∷ map_groups groups) (sym (map-append pay is (i ∷ [])))
      by_key false e = ap (λ l. (j, map pay is) ∷ l) e

  -- The two loops keep the groups in step, if the packed columns and the frames agree.
  pub group_frames-group_from :
      (p : PackedFrames) (allow : List ℕ) (fs : List HistogramFrame) (i : ℕ)
      (groups : List (ℕ × List ℕ))
      → ((j : ℕ) (f : HistogramFrame)
          → get_elem? fs j ≡ some f
          → get_or p.columns.id (i + j) 0 ≡ f.id)
      → ((j : ℕ) (f : HistogramFrame) → get_elem? fs j ≡ some f → pay (i + j) ≡ payload_of f)
      → group_frames allow fs (map_groups groups)
        ≡ map_groups (group_from p allow i (length fs) groups)
  unfolding group_frames group_from
  group_frames-group_from p allow [] i groups hid hpay = refl
  group_frames-group_from p allow (f ∷ fs) i groups hid hpay =
      ap (group_frames allow fs) (pushed (allows allow f.id))
      ∙ group_frames-group_from p allow fs (i + 1)
          (if allows allow f.id then push_group f.id i groups else groups)
          (λ j g e. ap (λ k. get_or p.columns.id k 0) (omega arith) ∙ hid (suc j) g e)
          (λ j g e. ap pay (omega arith) ∙ hpay (suc j) g e)
      ∙ ap
          (λ k. map_groups (
            group_from p allow (i + 1) (length fs)
              (if allows allow k then push_group k i groups else groups)))
          (sym key)
    where
      key : get_or p.columns.id i 0 ≡ f.id
      key = ap (λ k. get_or p.columns.id k 0) {x = i} {y = i + 0} (omega arith) ∙ hid 0 f refl

      here : payload_of f ≡ pay i
      here = sym (hpay 0 f refl) ∙ ap pay {x = i + 0} {y = i} (omega arith)

      pushed :
          (b : Bool)
          → (if b then push_group f.id (payload_of f) (map_groups groups) else map_groups groups)
            ≡ map_groups (if b then push_group f.id i groups else groups)
      pushed true =
          ap (λ q. push_group f.id q (map_groups groups)) here ∙ push_group-map_groups f.id i groups
      pushed false = refl
