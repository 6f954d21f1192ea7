-- ===== src/Cue/Tests.antt =====
-- The preset `during` of frontend/shared/cue-config.ts, with its frequencies in tenths of a hertz.
use discodb.Prelude.{ℕ, ◌≡◌, [], ◌∷◌, map, refl}
use discodb.Cue.{CuePreset, Beep, beeps_from, build_cue_schedule}

abbrev during : CuePreset ℕ
during = record {
  high_hz = 11747;
  high_duration_ms = 90;
  high_count = 3;
  low_hz = 1468;
  low_duration_ms = 1000;
  gap_ms = 233;
}

onsets : map (λ (b : Beep ℕ). b.at_ms) (build_cue_schedule during) ≡ 0 ∷ 323 ∷ 646 ∷ 969 ∷ []
unfolding build_cue_schedule beeps_from
onsets = refl
