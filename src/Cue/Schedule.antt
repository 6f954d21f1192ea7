-- ===== src/Cue/Schedule.antt =====
-- The length and the order of a cue (frontend/shared/cue-player.ts, frontend/shared/cue-config.ts).
use discodb.Prelude.{ℕ, zero, suc, ◌+◌, ◌*◌, ◌≤◌, ◌≡◌, refl, List, [], ◌∷◌, length, arith}
use discodb.Cue.{CuePreset, Beep, hi, lo, cue_total_ms, beeps_from, build_cue_schedule}

-- Every beep starts after the one before it has ended, and the last one is the low one and ends at
-- `stop`.
pub data InTurn {ℓ} {Hz : Type ℓ} : ℕ → ℕ → List (Beep Hz) → Type ℓ where
  last :
      {b : Beep Hz} {from stop : ℕ}
      → from ≤ b.at_ms
      → b.kind ≡ lo
      → b.at_ms + b.dur_ms ≡ stop
      → InTurn from stop (b ∷ [])
  next :
      {b : Beep Hz} {bs : List (Beep Hz)} {from stop : ℕ}
      → from ≤ b.at_ms
      → b.kind ≡ hi
      → InTurn (b.at_ms + b.dur_ms) stop bs
      → InTurn from stop (b ∷ bs)

module _ {ℓ} {Hz : Type ℓ} (p : CuePreset Hz) where
  beeps_from-InTurn :
      (t n from stop : ℕ)
      → from ≤ t
      → t + (n * (p.high_duration_ms + p.gap_ms) + p.low_duration_ms) ≡ stop
      → InTurn from stop (beeps_from p t n)
  unfolding beeps_from
  beeps_from-InTurn t zero from stop h e = last h refl (omega arith)
  beeps_from-InTurn t (suc n) from stop h e = next h refl (
      beeps_from-InTurn (t + (p.high_duration_ms + p.gap_ms)) n (t + p.high_duration_ms) stop
        (omega arith) (grind arith))

  length-beeps_from : (t n : ℕ) → length (beeps_from p t n) ≡ n + 1
  unfolding beeps_from
  length-beeps_from t zero = omega arith
  length-beeps_from t (suc n) =
      omega (arith, length-beeps_from (t + (p.high_duration_ms + p.gap_ms)) n)

  -- The schedule has one beep more than the preset has high ones, no two of which overlap, and its
  -- low beep is the last and ends when the cue's total length is over.
  pub build_cue_schedule-InTurn :
      (length (build_cue_schedule p) ≡ p.high_count + 1)
      × InTurn 0 (cue_total_ms p) (build_cue_schedule p)
  unfolding build_cue_schedule
  build_cue_schedule-InTurn = (
    length-beeps_from 0 p.high_count,
    beeps_from-InTurn 0 p.high_count 0 (cue_total_ms p) (omega arith) (omega arith),
  )
