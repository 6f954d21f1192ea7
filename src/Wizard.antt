-- ===== src/Wizard.antt =====
-- frontend/shared/wizard-fsm.ts: the reducer of the Wizard's per-trial feedback loop, with the
-- configuration of frontend/shared/wizard-config.ts. Counts and milliseconds are natural numbers,
-- so `repetitions <= 0` is `repetitions == 0`; the two fractional thresholds of the configuration,
-- which the reducer never reads, are left out.
pub mod Invariant
pub mod Log
pub mod Series
mod Tests
use discodb.Prelude.{ℕ, ◌+◌, Bool, true, false, List, [], ◌∷◌, ◌++◌, ◌==◌, leb, if◌then◌else◌}

-- `WizardConfig`
pub record WizardConfig : Type 0 where
  pub repetitions : ℕ
  pub feedback_timeout_ms : ℕ
  pub retry_prompt_timeout_ms : ℕ
  pub silence_guard : ℕ
  pub cue_guard_ms : ℕ

-- `WIZARD_DEFAULTS`
abbrev pub wizard_defaults : WizardConfig
wizard_defaults = record {
  repetitions = 3;
  feedback_timeout_ms = 7000;
  retry_prompt_timeout_ms = 3000;
  silence_guard = 5;
  cue_guard_ms = 300;
}

pub data WizardPhase : Type 0 where
  idle cueing feedback retry_prompt done abandoned : WizardPhase

pub record WizardState : Type 0 where
  pub phase : WizardPhase
  pub rep_index : ℕ
  pub good : ℕ
  pub silence : ℕ

pub data WizardEvent : Type 0 where
  start cue_done success fail feedback_timeout retry_timeout abandon skip : WizardEvent

-- `playCue`, `startTimer:feedback`, `startTimer:retry`, `recordTrial:good`, `recordTrial:failed`,
-- `recordTrial:skipped`, `advance`, `replayCurrent`, `abandon`, `done`
pub data WizardEffect : Type 0 where
  play_cue start_timer_feedback start_timer_retry : WizardEffect
  record_trial_good record_trial_failed record_trial_skipped : WizardEffect
  advance replay_current end_abandon end_done : WizardEffect

pub record StepResult : Type 0 where
  pub state : WizardState
  pub effects : List WizardEffect

-- `initialState`
abbrev pub initial_state : WizardState
initial_state = record { phase = idle; rep_index = 0; good = 0; silence = 0 }

noop : WizardState → StepResult
noop s = record { state = s; effects = [] }

-- `abandon`
abandon_series : WizardState → StepResult
abandon_series s = record {
  state = record s { phase = abandoned; silence = 0 };
  effects = end_abandon ∷ [];
}

advance_after_good : WizardState → WizardConfig → StepResult
advance_after_good s c =
    let good = s.good + 1 in
    if leb c.repetitions good
    then record {
      state = record s { phase = done; good = good; silence = 0 };
      effects = record_trial_good ∷ end_done ∷ [];
    }
    else record {
      state = record s { phase = cueing; good = good; rep_index = s.rep_index + 1; silence = 0 };
      effects = record_trial_good ∷ advance ∷ play_cue ∷ [];
    }

advance_after_skip : WizardState → StepResult
advance_after_skip s = record {
  state = record s { phase = cueing; rep_index = s.rep_index + 1; silence = 0 };
  effects = record_trial_skipped ∷ advance ∷ play_cue ∷ [];
}

replay_same_test : WizardState → List WizardEffect → StepResult
replay_same_test s prefix = record {
  state = record s { phase = cueing; silence = 0 };
  effects = prefix ++ replay_current ∷ play_cue ∷ [];
}

-- the `START` branch of `idle`
begin_series : WizardState → WizardConfig → StepResult
begin_series s c =
    if c.repetitions == 0
    then record { state = record s { phase = done }; effects = end_done ∷ [] }
    else record { state = record s { phase = cueing }; effects = play_cue ∷ [] }

-- the `RETRY_TIMEOUT` branch of `retryPrompt`
replay_silent : WizardState → WizardConfig → StepResult
replay_silent s c =
    let silence = s.silence + 1 in
    if leb c.silence_guard silence
    then record {
      state = record s { phase = abandoned; silence = silence };
      effects = end_abandon ∷ [];
    }
    else record {
      state = record s { phase = cueing; silence = silence };
      effects = replay_current ∷ play_cue ∷ [];
    }

-- the nested `switch` of `step`
dispatch : WizardPhase → WizardEvent → WizardState → WizardConfig → StepResult
unfolding noop abandon_series advance_after_good advance_after_skip replay_same_test begin_series
    replay_silent
dispatch idle start s c = begin_series s c
dispatch cueing cue_done s c = record {
  state = record s { phase = feedback };
  effects = start_timer_feedback ∷ [];
}
dispatch cueing abandon s c = abandon_series s
dispatch feedback success s c = advance_after_good s c
dispatch feedback fail s c = replay_same_test s (record_trial_failed ∷ [])
dispatch feedback feedback_timeout s c = record {
  state = record s { phase = retry_prompt };
  effects = start_timer_retry ∷ [];
}
dispatch feedback abandon s c = abandon_series s
dispatch retry_prompt abandon s c = abandon_series s
dispatch retry_prompt skip s c = advance_after_skip s
dispatch retry_prompt retry_timeout s c = replay_silent s c
dispatch _ _ s c = noop s

unfoldable pub step : WizardState → WizardEvent → WizardConfig → StepResult
unfolding dispatch
step s e c = dispatch s.phase e s c

-- What a host does with the reducer: it feeds the events in order, and carries out the effects in
-- the order in which they come.
unfoldable pub run : WizardState → List WizardEvent → WizardConfig → StepResult
run s [] c = record { state = s; effects = [] }
run s (e ∷ es) c =
    let r = step s e c in
    let rest = run r.state es c in
    record { state = rest.state; effects = r.effects ++ rest.effects }
