-- ===== src/Analysis/Tests.antt =====
-- Five frames of two identifiers, scanned with the thresholds of
-- frontend/shared/analysis/byte-histogram.ts.
use discodb.Prelude.{
  ℕ, ◌≡◌, refl, true, List, [], ◌∷◌, map, length, take, get_or, ltb, ◌*◌, All, arith,
}
use discodb.Analysis.Packing.{frames_to_packed}
use discodb.Analysis.Histogram.{
  HistogramFrame, byte_histogram_defaults, byte_histogram, byte_histogram_packed, new_tally,
  tally_payloads,
}
use discodb.Analysis.Held.{to_packable, IsClassic}
use discodb.Analysis.Agree.{byte_histogram_packed-frames_to_packed}
use discodb.Analysis.Histogram.{group_frames}
use discodb.Analysis.Packing.{push_group}
use discodb.Analysis.Activity.{
  bit_activity_defaults, Doubles, bit_activity, bit_activity_packed, bit_profiles, bit_profile,
  activity_of, activity_result, sort_busiest, insert_busiest, moves_of, count_pairs, count_bits,
  count_bit,
}
use discodb.Analysis.ActivityAgree.{bit_activity_packed-frames_to_packed}
use discodb.Analysis.Moves.{count_consecutive, comparable, flips, moves_of-count_consecutive}
use discodb.Analysis.Counts.{values, count, Tallies, tally_payloads-Tallies}

abbrev frame : ℕ → List ℕ → HistogramFrame
frame i bs = record { id = i; t_us = 0; is_bytes = true; bytes = bs }

abbrev five : List HistogramFrame
five =
    frame 16 (1 ∷ 2 ∷ [])
    ∷ frame 32 (9 ∷ [])
    ∷ frame 16 (1 ∷ 3 ∷ 4 ∷ [])
    ∷ frame 16 (5 ∷ [])
    ∷ frame 48 []
    ∷ []

five-Classic : All IsClassic five
five-Classic = ground arith

byte_histogram_packed-frames_to_packed_example :
    byte_histogram_packed (frames_to_packed (map to_packable five)) [] byte_histogram_defaults
    ≡ byte_histogram five [] byte_histogram_defaults
byte_histogram_packed-frames_to_packed_example =
    byte_histogram_packed-frames_to_packed five [] byte_histogram_defaults five-Classic

abbrev payloads : List (List ℕ)
payloads = (1 ∷ 2 ∷ []) ∷ (1 ∷ 3 ∷ 4 ∷ []) ∷ (5 ∷ []) ∷ []

tally_payloads-Tallies_example :
    Tallies (tally_payloads 1 payloads new_tally) (λ v. count v (values 1 payloads))
    × ((tally_payloads 1 payloads new_tally).samples ≡ length (values 1 payloads))
tally_payloads-Tallies_example = tally_payloads-Tallies 1 payloads (omega arith)

-- Ratios as exact fractions.
abbrev fractions : Doubles (ℕ × ℕ)
fractions = record {
  ratio = λ a b. (a, b);
  above = λ x y. ltb (y.0 * x.1) (x.0 * y.1);
  nought = (0, 1);
}

test_busiest : map (λ i. i.id) (bit_activity fractions five [] bit_activity_defaults).ids ≡ 16 ∷ []
unfolding bit_activity group_frames push_group bit_profiles bit_profile activity_of activity_result
    sort_busiest insert_busiest
test_busiest = refl

test_transitions : take 4 (moves_of 64 payloads).transitions ≡ 0 ∷ 0 ∷ 1 ∷ 0 ∷ []
unfolding moves_of count_pairs count_bits count_bit
test_transitions = refl

bit_activity_packed-frames_to_packed_example :
    bit_activity_packed fractions (frames_to_packed (map to_packable five)) [] bit_activity_defaults
    ≡ bit_activity fractions five [] bit_activity_defaults
bit_activity_packed-frames_to_packed_example =
    bit_activity_packed-frames_to_packed fractions five [] bit_activity_defaults five-Classic

moves_of-count_consecutive_example :
    (get_or (moves_of 64 payloads).pairs 8 0 ≡ count_consecutive (comparable 8) payloads)
    × (get_or (moves_of 64 payloads).transitions 8 0 ≡ count_consecutive (flips 8) payloads)
moves_of-count_consecutive_example = moves_of-count_consecutive 64 payloads 8 (omega arith)
