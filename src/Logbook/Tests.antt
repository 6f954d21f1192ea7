-- ===== src/Logbook/Tests.antt =====
-- One stimulus that a bit answers, as frontend/shared/analysis/logbook.ts reads it.
use discodb.Prelude.{ℕ, ◌≡◌, refl, false, arith, get_or, List, [], ◌∷◌, some}
use discodb.RunEngine.Defs.{RunWindow, stimulus, observe}
use discodb.Analysis.Activity.{moves_of}
use discodb.Logbook.Rates.{payloads_of, changes_of-moves_of}
use discodb.Logbook.Defs.{
  TimedFrame, mode_of, lead_all, lead_with, UnifiedCandidate, classify_type, vote_all, vote, winner,
  values_in, pulse_type, level_type, slice_id, insert_timed, changes_of, count_changes,
}

abbrev frame : ℕ → ℕ → TimedFrame
frame t v = record { id = 7; t_us = t; bytes = v ∷ [] }

abbrev flag : UnifiedCandidate
flag = record { id = 7; byte_index = 0; is_trend = false; bit = some 1 }

abbrev shown : RunWindow
shown = record { role = stimulus; start_t_us = 10; end_t_us = 20; rep = 1 }

abbrev seen : RunWindow
seen = record { role = observe; start_t_us = 21; end_t_us = 30; rep = 1 }

test_mode : mode_of (3 ∷ 5 ∷ 5 ∷ 3 ∷ 3 ∷ []) ≡ some 3
unfolding mode_of lead_all lead_with
test_mode = refl

test_pulse :
    classify_type (frame 1 0 ∷ frame 12 2 ∷ frame 25 1 ∷ []) flag (shown ∷ []) (seen ∷ [])
    ≡ pulse_type
unfolding classify_type vote_all vote winner values_in mode_of lead_all lead_with
test_pulse = refl

test_level :
    classify_type (frame 1 0 ∷ frame 12 2 ∷ frame 25 3 ∷ []) flag (shown ∷ []) (seen ∷ [])
    ≡ level_type
unfolding classify_type vote_all vote winner values_in mode_of lead_all lead_with
test_level = refl

test_changes :
    (changes_of 0
      (some 1)
      (slice_id (frame 25 1 ∷ frame 1 0 ∷ frame 12 2 ∷ []) 7 (shown ∷ seen ∷ []))).changes
    ≡ 1
unfolding changes_of count_changes slice_id insert_timed
test_changes = refl

abbrev sampled : List TimedFrame
sampled = frame 1 0 ∷ frame 12 2 ∷ frame 25 1 ∷ []

changes_of-moves_of_example :
    ((changes_of 0 (some 1) sampled).pairs ≡ get_or (moves_of 64 (payloads_of sampled)).pairs 1 0)
    × ((changes_of 0 (some 1) sampled).changes
        ≡ get_or (moves_of 64 (payloads_of sampled)).transitions 1 0)
changes_of-moves_of_example = changes_of-moves_of sampled 0 1 (omega arith) (omega arith)
