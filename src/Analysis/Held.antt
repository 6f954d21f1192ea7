-- ===== src/Analysis/Held.antt =====
-- The packed form of a window of classic frames, as framesToPacked of
-- frontend/shared/analysis/packed.ts makes it, holds the payloads of the frames and groups them alike.
use native.Mathlib.Nat.{mod-eq_of_lt}
use discodb.Prelude.{
  ℕ, zero, suc, ◌^◌, ◌≤◌, ◌<◌, bit_and, ◌≡◌, ◌⊎◌, inl, inr, refl, sym, subst, ap, ◌∙◌, Bool, true,
  false, List, [], ◌∷◌, map, length, length-map, get_or, get_elem?, none, some, Option-cases, All,
  if◌then◌else◌, arith,
}
use mathlib.Core.Option.{some-injective, none-ne-some, some-ne-none}
use discodb.Prelude.Bits.{bit_and_mask}
use discodb.FrameRing.Packed.{PackedFrames}
use discodb.Analysis.Packing.{
  PackableFrame, byte_at, payload_len, frames_to_packed, group_from, group_by_id_packed,
}
use discodb.Analysis.Packs.{frames_to_packed-Packs, frames_to_packed-Sizes}
use discodb.Analysis.Groups.{map_groups, group_frames-group_from}
use discodb.Analysis.Histogram.{HistogramFrame, payload_of, group_frames}

-- The packed columns hold the payload `pay i` of every frame `i`.
abbrev pub Holds : PackedFrames → (ℕ → List ℕ) → Type 0
Holds p pay =
    (i : ℕ)
    → (payload_len p i ≡ length (pay i))
      × ((b : ℕ) → b < length (pay i) → byte_at p i b ≡ get_or (pay i) b 0)

-- What a histogram frame is to framesToPacked.
abbrev pub to_packable : HistogramFrame → PackableFrame
to_packable f = record {
  id = f.id;
  t_us = some f.t_us;
  is_extended = false;
  is_error = false;
  is_rtr = false;
  bytes = f.bytes;
}

-- A classic frame: an identifier of at most 32 bits, at most 8 bytes, and bytes in a `Uint8Array`.
abbrev pub IsClassic : HistogramFrame → Type 0
IsClassic f =
    (f.id < 2 ^ 32)
    × (length f.bytes ≤ 8)
    × (f.is_bytes ≡ true → All (λ (b : ℕ). b < 2 ^ 8) f.bytes)

abbrev pub payload_at : List HistogramFrame → ℕ → List ℕ
payload_at [] i = []
payload_at (f ∷ fs) zero = payload_of f
payload_at (f ∷ fs) (suc i) = payload_at fs i

length-payload_of : (f : HistogramFrame) → length (payload_of f) ≡ length f.bytes
length-payload_of f = by_kind f.is_bytes
  where
    by_kind :
        (b : Bool)
        → length (if b then f.bytes else map (λ x. bit_and x 0xff) f.bytes) ≡ length f.bytes
    by_kind true = refl
    by_kind false = length-map (λ x. bit_and x 0xff) f.bytes

get_or-mask :
    (bs : List ℕ) (b : ℕ)
    → b < length bs
    → get_or (map (λ x. bit_and x 0xff) bs) b 0 ≡ bit_and (get_or bs b 0) 0xff
get_or-mask [] b l = absurd (omega arith)
get_or-mask (x ∷ bs) zero l = refl
get_or-mask (x ∷ bs) (suc b) l = get_or-mask bs b (omega arith)

get_or-bytes : (bs : List ℕ) (b : ℕ) → All (λ (x : ℕ). x < 2 ^ 8) bs → get_or bs b 0 < 2 ^ 8
get_or-bytes [] b a = omega arith
get_or-bytes (x ∷ bs) zero a = a.0
get_or-bytes (x ∷ bs) (suc b) a = get_or-bytes bs b a.1

get_or-payload_of :
    (f : HistogramFrame) (b : ℕ)
    → IsClassic f
    → b < length f.bytes
    → get_or (payload_of f) b 0 ≡ bit_and (get_or f.bytes b 0) 0xff
get_or-payload_of f b c l = by_kind f.is_bytes c.2
  where
    by_kind :
        (k : Bool)
        → (k ≡ true → All (λ (x : ℕ). x < 2 ^ 8) f.bytes)
        → get_or (if k then f.bytes else map (λ x. bit_and x 0xff) f.bytes) b 0
          ≡ bit_and (get_or f.bytes b 0) 0xff
    by_kind true a =
        omega (arith, bit_and_mask 8 (get_or f.bytes b 0), get_or-bytes f.bytes b (a refl))
    by_kind false a = get_or-mask f.bytes b l

payload_at-some :
    (fs : List HistogramFrame) (i : ℕ) (f : HistogramFrame)
    → get_elem? fs i ≡ some f
    → payload_at fs i ≡ payload_of f
payload_at-some [] i f e = absurd (none-ne-some f e)
payload_at-some (g ∷ fs) zero f e = ap payload_of (some-injective g f e)
payload_at-some (g ∷ fs) (suc i) f e = payload_at-some fs i f e

payload_at-none : (fs : List HistogramFrame) (i : ℕ) → get_elem? fs i ≡ none → payload_at fs i ≡ []
payload_at-none [] i e = refl
payload_at-none (g ∷ fs) zero e = absurd (some-ne-none g e)
payload_at-none (g ∷ fs) (suc i) e = payload_at-none fs i e

get_elem?-packable :
    (fs : List HistogramFrame) (i : ℕ) (f : HistogramFrame)
    → get_elem? fs i ≡ some f
    → get_elem? (map to_packable fs) i ≡ some (to_packable f)
get_elem?-packable [] i f e = absurd (none-ne-some f e)
get_elem?-packable (g ∷ fs) zero f e = ap (λ h. some (to_packable h)) (some-injective g f e)
get_elem?-packable (g ∷ fs) (suc i) f e = get_elem?-packable fs i f e

All-get_elem? :
    (fs : List HistogramFrame) (i : ℕ) (f : HistogramFrame)
    → All IsClassic fs
    → get_elem? fs i ≡ some f
    → IsClassic f
All-get_elem? [] i f a e = absurd (none-ne-some f e)
All-get_elem? (g ∷ fs) zero f a e = subst IsClassic (some-injective g f e) a.0
All-get_elem? (g ∷ fs) (suc i) f a e = All-get_elem? fs i f a.1 e

none-past : (fs : List HistogramFrame) (i : ℕ) → get_elem? fs i ≡ none → length fs ≤ i
none-past [] i e = omega arith
none-past (g ∷ fs) zero e = absurd (some-ne-none g e)
none-past (g ∷ fs) (suc i) e = omega (arith, none-past fs i e)

get_or_past : (xs : List ℕ) (i : ℕ) → length xs ≤ i → get_or xs i 0 ≡ 0
get_or_past [] i l = refl
get_or_past (x ∷ xs) zero l = absurd (omega arith)
get_or_past (x ∷ xs) (suc i) l = get_or_past xs i (omega arith)

pub packed-Holds :
    (fs : List HistogramFrame)
    → All IsClassic fs
    → Holds (frames_to_packed (map to_packable fs)) (payload_at fs)
packed-Holds fs a i = by_place (Option-cases (get_elem? fs i))
  where
    p : PackedFrames
    p = frames_to_packed (map to_packable fs)

    by_place :
        (get_elem? fs i ≡ none) ⊎ ((f : HistogramFrame) × (get_elem? fs i ≡ some f))
        → (payload_len p i ≡ length (payload_at fs i))
          × ((b : ℕ) → b < length (payload_at fs i) → byte_at p i b ≡ get_or (payload_at fs i) b 0)
    by_place (inl e) = (
      get_or_past p.columns.dlc i (
            omega (
              arith,
              (frames_to_packed-Sizes (map to_packable fs)).dlc_size,
              length-map to_packable fs,
              none-past fs i e,
            ))
          ∙ sym (ap length (payload_at-none fs i e)),
      λ b l. absurd (omega (arith, ap length (payload_at-none fs i e))),
    )
    by_place (inr (f, e)) =
        let held =
          frames_to_packed-Packs (map to_packable fs) i (to_packable f)
            (get_elem?-packable fs i f e) in
        let classic = All-get_elem? fs i f a e in
        (
          omega (
            arith,
            held.dlc,
            classic.1,
            length-payload_of f,
            ap length (payload_at-some fs i f e),
          ),
          λ b l.
              let short : b < length f.bytes =
                omega (arith, length-payload_of f, ap length (payload_at-some fs i f e)) in
              held.bytes b short (omega (arith, classic.1))
              ∙ sym (get_or-payload_of f b classic short)
              ∙ ap (λ bs. get_or bs b 0) (sym (payload_at-some fs i f e)),
        )

count_lem : (fs : List PackableFrame) → (frames_to_packed fs).count ≡ length fs
unfolding frames_to_packed
count_lem fs = refl

-- The groups of indices of the packed window stand for the groups of payloads of the frames.
pub groups-frames_to_packed :
    (fs : List HistogramFrame) (allow : List ℕ)
    → All IsClassic fs
    → map_groups (payload_at fs) (group_by_id_packed (frames_to_packed (map to_packable fs)) allow)
      ≡ group_frames allow fs []
unfolding group_by_id_packed
groups-frames_to_packed fs allow a =
    ap (λ n. map_groups (payload_at fs) (group_from p allow 0 n [])) counted
    ∙ sym (
        group_frames-group_from (payload_at fs) p allow fs 0 []
          (λ j f e.
            ap (λ k. get_or p.columns.id k 0) (omega arith)
            ∙ (frames_to_packed-Packs (map to_packable fs) j (to_packable f)
                (get_elem?-packable fs j f e)).id
            ∙ mod-eq_of_lt (All-get_elem? fs j f a e).0)
          (λ j f e. ap (payload_at fs) (omega arith) ∙ payload_at-some fs j f e))
  where
    p : PackedFrames
    p = frames_to_packed (map to_packable fs)

    counted : p.count ≡ length fs
    counted = count_lem (map to_packable fs) ∙ length-map to_packable fs
