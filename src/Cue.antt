-- ===== src/Cue.antt =====
-- The Wizard's cue: the beep schedule of frontend/shared/cue-player.ts and the presets' shape of
-- frontend/shared/cue-config.ts. Frequencies are passed through, so their type `Hz` is a parameter;
-- durations are whole ms.
use discodb.Prelude.{ℕ, zero, suc, ◌+◌, ◌*◌, List, [], ◌∷◌, ◌++◌}
pub mod Schedule
mod Tests

pub data BeepKind : Type 0 where
  hi : BeepKind
  lo : BeepKind

pub record CuePreset {ℓ} (Hz : Type ℓ) : Type ℓ where
  pub high_hz : Hz
  pub high_duration_ms : ℕ
  pub high_count : ℕ
  pub low_hz : Hz
  pub low_duration_ms : ℕ
  pub gap_ms : ℕ

pub record Beep {ℓ} (Hz : Type ℓ) : Type ℓ where
  pub at_ms : ℕ
  pub freq : Hz
  pub dur_ms : ℕ
  pub kind : BeepKind

module _ {ℓ} {Hz : Type ℓ} where
  -- `cueTotalMs`
  abbrev pub cue_total_ms : CuePreset Hz → ℕ
  cue_total_ms p = p.high_count * (p.high_duration_ms + p.gap_ms) + p.low_duration_ms

  -- The loop over the high beeps from `t` on, and the low beep behind it.
  unfoldable pub beeps_from : CuePreset Hz → ℕ → ℕ → List (Beep Hz)
  beeps_from p t zero =
      record { at_ms = t; freq = p.low_hz; dur_ms = p.low_duration_ms; kind = lo } ∷ []
  beeps_from p t (suc n) =
      record { at_ms = t; freq = p.high_hz; dur_ms = p.high_duration_ms; kind = hi }
      ∷ beeps_from p (t + (p.high_duration_ms + p.gap_ms)) n

  unfoldable pub build_cue_schedule : CuePreset Hz → List (Beep Hz)
  build_cue_schedule p = beeps_from p 0 p.high_count

pub data CueMode : Type 0 where
  during after : CueMode

-- `CUE_PRESETS`, with the frequencies in tenths of a hertz.
unfoldable pub cue_presets : CueMode → CuePreset ℕ
cue_presets during = record {
  high_hz = 11747;
  high_duration_ms = 90;
  high_count = 3;
  low_hz = 1468;
  low_duration_ms = 1000;
  gap_ms = 233;
}
cue_presets after = record {
  high_hz = 14800;
  high_duration_ms = 90;
  high_count = 3;
  low_hz = 1850;
  low_duration_ms = 333;
  gap_ms = 233;
}
