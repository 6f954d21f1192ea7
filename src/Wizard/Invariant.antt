-- ===== src/Wizard/Invariant.antt =====
-- What holds of a series between two events.
use discodb.Prelude.{◌+◌, ◌≤◌, ◌<◌, max, ◌≡◌, ◌↔◌, List, [], ◌∷◌, arith}
use discodb.Wizard.{
  WizardConfig, WizardPhase, idle, cueing, feedback, retry_prompt, done, abandoned, WizardState,
  WizardEvent, initial_state, step, run,
}

-- A phase in which the series is under way.
abbrev pub IsActive : WizardPhase → Type 0
IsActive cueing = Unit
IsActive feedback = Unit
IsActive retry_prompt = Unit
IsActive _ = ⊥

abbrev pub IsTerminal : WizardPhase → Type 0
IsTerminal done = Unit
IsTerminal abandoned = Unit
IsTerminal _ = ⊥

pub record Inv (c : WizardConfig) (s : WizardState) : Type 0 where
  pub good_capped : s.good ≤ c.repetitions
  pub good_indexed : s.good ≤ s.rep_index + 1
  pub silence_capped : s.silence ≤ max c.silence_guard 1
  pub fresh : s.phase ≡ idle → (s.rep_index ≡ 0) × (s.good ≡ 0) × (s.silence ≡ 0)
  pub wanting :
      IsActive s.phase
      → (s.good < c.repetitions) × (s.good ≤ s.rep_index) × (s.silence < max c.silence_guard 1)
  pub complete : s.phase ≡ done → (s.good ≡ c.repetitions) × (s.silence ≡ 0)

pub initial-Inv : (c : WizardConfig) → Inv c initial_state
initial-Inv c = ground arith

-- Every event, in every phase, keeps the invariant.
pub step-Inv :
    (c : WizardConfig) (s : WizardState) (e : WizardEvent) → Inv c s → Inv c (step s e c).state
unfolding step
step-Inv c s e h = ground arith

pub run-Inv :
    (c : WizardConfig) (s : WizardState) (es : List WizardEvent)
    → Inv c s
    → Inv c (run s es c).state
unfolding run
run-Inv c s [] h = h
run-Inv c s (e ∷ es) h = run-Inv c (step s e c).state es (step-Inv c s e h)

-- An event is ignored (no effect) exactly when it leaves the state as it was.
pub step-effects-nil_iff :
    (c : WizardConfig) (s : WizardState) (e : WizardEvent)
    → ((step s e c).effects ≡ []) ↔ ((step s e c).state ≡ s)
unfolding step
step-effects-nil_iff c s e = ground arith
