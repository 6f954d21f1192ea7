-- ===== src/Logbook/Rates.antt =====
-- The change rate of a bit in frontend/shared/analysis/logbook.ts counts what the bit activity of
-- frontend/shared/analysis/bit-activity.ts counts.
use discodb.Prelude.{
  ℕ, ◌+◌, ◌*◌, ◌/◌, ◌^◌, ◌<◌, bit_and, ◌≡◌, refl, sym, ap, ap₂, ◌∙◌, Bool, true, false, not, ◌&&◌,
  ◌||◌, List, [], ◌∷◌, map, length, get_or, some, ltb, leb, ◌==◌, if◌then◌else◌, arith,
}
use discodb.Prelude.Bits.{bit_and_mask}
use discodb.Analysis.Activity.{moves_of}
use discodb.Analysis.Moves.{
  count_consecutive, comparable, flips, bit_in, moves_of-count_consecutive,
}
use discodb.Logbook.Defs.{TimedFrame, Changes, value_of, count_changes, changes_of}

abbrev pub payloads_of : List TimedFrame → List (List ℕ)
payloads_of fs = map (λ f. f.bytes) fs

-- What a pair adds to the counts.
abbrev after_pair : Bool → Bool → Changes → Changes
after_pair skip same n =
    if skip
    then n
    else record { pairs = n.pairs + 1; changes = if same then n.changes else n.changes + 1 }

pairs-after_pair :
    (skip same : Bool) (n : Changes) (rest : ℕ)
    → (after_pair skip same n).pairs + rest ≡ n.pairs + (if not skip then rest + 1 else rest)
pairs-after_pair true same n rest = refl
pairs-after_pair false same n rest = omega arith

changes-after_pair :
    (skip same : Bool) (n : Changes) (rest : ℕ)
    → (after_pair skip same n).changes + rest
      ≡ n.changes + (if not skip && not same then rest + 1 else rest)
changes-after_pair true same n rest = refl
changes-after_pair false true n rest = refl
changes-after_pair false false n rest = omega arith

module _ (i b j : ℕ) (hj : j / 2 ^ 3 ≡ i) (hb : bit_and j 7 ≡ b) where
  comparable_lem : (p q : List ℕ) → not (leb (length p) i || leb (length q) i) ≡ comparable j p q
  comparable_lem p q = by_tests ∙ ap (λ k. ltb k (length p) && ltb k (length q)) (sym hj)
    where
      by_tests : not (leb (length p) i || leb (length q) i) ≡ ltb i (length p) && ltb i (length q)
      by_tests = ground arith

  value_of-bit_in : (p : List ℕ) → value_of (some b) (get_or p i 0) ≡ bit_in j p
  value_of-bit_in p = ap₂ (λ k c. bit_and (get_or p k 0 / 2 ^ c) 1) (sym hj) (sym hb)

  count_changes-pairs :
      (p : TimedFrame) (fs : List TimedFrame) (n : Changes)
      → (count_changes i (some b) p fs n).pairs
        ≡ n.pairs + count_consecutive (comparable j) (p.bytes ∷ payloads_of fs)
  unfolding count_changes count_consecutive
  count_changes-pairs p [] n = omega arith
  count_changes-pairs p (c ∷ fs) n =
      let skip = leb (length p.bytes) i || leb (length c.bytes) i in
      let same = value_of (some b) (get_or p.bytes i 0) == value_of (some b) (get_or c.bytes i 0) in
      let rest = count_consecutive (comparable j) (c.bytes ∷ payloads_of fs) in
      count_changes-pairs c fs (after_pair skip same n)
      ∙ pairs-after_pair skip same n rest
      ∙ ap (λ x. n.pairs + (if x then rest + 1 else rest)) (comparable_lem p.bytes c.bytes)

  count_changes-changes :
      (p : TimedFrame) (fs : List TimedFrame) (n : Changes)
      → (count_changes i (some b) p fs n).changes
        ≡ n.changes + count_consecutive (flips j) (p.bytes ∷ payloads_of fs)
  unfolding count_changes count_consecutive
  count_changes-changes p [] n = omega arith
  count_changes-changes p (c ∷ fs) n =
      let skip = leb (length p.bytes) i || leb (length c.bytes) i in
      let v = value_of (some b) (get_or p.bytes i 0) in
      let w = value_of (some b) (get_or c.bytes i 0) in
      let rest = count_consecutive (flips j) (c.bytes ∷ payloads_of fs) in
      count_changes-changes c fs (after_pair skip (v == w) n)
      ∙ changes-after_pair skip (v == w) n rest
      ∙ ap (λ x. n.changes + (if x && not (v == w) then rest + 1 else rest))
          (comparable_lem p.bytes c.bytes)
      ∙ ap₂
          (λ x y.
            n.changes + (if comparable j p.bytes c.bytes && not (x == y) then rest + 1 else rest))
          (value_of-bit_in p.bytes) (value_of-bit_in c.bytes)

-- For a bit of one of the first eight bytes, the pairs and the changes of its rate over some frames
-- are the pairs and the transitions that a scan of 64 bits counts for it over their payloads.
pub changes_of-moves_of :
    (fs : List TimedFrame) (i b : ℕ)
    → i < 8
    → b < 8
    → ((changes_of i (some b) fs).pairs ≡ get_or (moves_of 64 (payloads_of fs)).pairs (i * 8 + b) 0)
      × ((changes_of i (some b) fs).changes
          ≡ get_or (moves_of 64 (payloads_of fs)).transitions (i * 8 + b) 0)
unfolding changes_of count_consecutive
changes_of-moves_of [] i b l m =
    let counted = moves_of-count_consecutive 64 [] (i * 8 + b) (omega arith) in
    (sym counted.0, sym counted.1)
changes_of-moves_of (f ∷ fs) i b l m =
    let counted = moves_of-count_consecutive 64 (payloads_of (f ∷ fs)) (i * 8 + b) (omega arith) in
    let byte : (i * 8 + b) / 2 ^ 3 ≡ i = omega arith in
    let bit : bit_and (i * 8 + b) 7 ≡ b = omega (arith, bit_and_mask 3 (i * 8 + b)) in
    let start : Changes = record { pairs = 0; changes = 0 } in
    (
      omega (arith, count_changes-pairs i b (i * 8 + b) byte bit f fs start, counted.0),
      omega (arith, count_changes-changes i b (i * 8 + b) byte bit f fs start, counted.1),
    )
