-- ===== src/WizardHost/Defs.antt =====
-- The state and the methods of `WizardHost` (frontend/cockpit/src/hunt/wizardHost.ts). Subscribers
-- and viewers get `snapshot` and `relay_payload` of the state that a method leaves.
use Prim.Native.String.{String}
use discodb.Prelude.{
  ℕ, ◌+◌, max, Bool, true, false, List, [], ◌∷◌, ◌++◌, Option, none, some, leb, if◌then◌else◌,
}
use discodb.Cue.{CueMode, cue_presets, cue_total_ms}
use discodb.Wizard.{
  WizardConfig, WizardPhase, done, abandoned, WizardState, WizardEvent, start, cue_done, success,
  fail, feedback_timeout, retry_timeout, abandon, skip, WizardEffect, play_cue,
  start_timer_feedback, start_timer_retry, record_trial_good, record_trial_failed,
  record_trial_skipped, initial_state, step,
}

pub data TrialOutcome : Type 0 where
  good failed skipped : TrialOutcome

pub record TrialRecord : Type 0 where
  pub rep_index : ℕ
  pub outcome : TrialOutcome

-- `'guard'`, `'explicit'`; the type's null is `none`.
pub data AbandonReason : Type 0 where
  guard_rail explicit : AbandonReason

-- A pending timer, and the event that it feeds to the reducer.
pub record Timer : Type 0 where
  pub fire_at : ℕ
  pub event : WizardEvent

pub record Host : Type 0 where
  pub state : WizardState
  pub config : WizardConfig
  pub cue_mode : CueMode
  pub target : String
  pub ledger : List TrialRecord
  pub abandon_reason : Option AbandonReason
  pub active : Bool
  pub timer : Option Timer
  pub cue_watchdog : Option ℕ

pub record WizardHostState : Type 0 where
  pub active : Bool
  pub fsm : WizardState
  pub config : WizardConfig
  pub cue_mode : CueMode
  pub target : String
  pub ledger : List TrialRecord
  pub good : ℕ
  pub failed : ℕ
  pub skipped : ℕ
  pub target_reps : ℕ
  pub abandon_reason : Option AbandonReason

-- The loop of `snapshot` over the ledger.
unfoldable pub count_misses : List TrialRecord → ℕ → ℕ → ℕ × ℕ
count_misses [] f s = (f, s)
count_misses (t ∷ ts) f s = elim t.outcome [
  | good ↦ count_misses ts f s
  | failed ↦ count_misses ts (f + 1) s
  | skipped ↦ count_misses ts f (s + 1)
]

unfoldable pub snapshot : Host → WizardHostState
snapshot h =
    let counts = count_misses h.ledger 0 0 in
    record {
      active = h.active;
      fsm = h.state;
      config = h.config;
      cue_mode = h.cue_mode;
      target = h.target;
      ledger = h.ledger;
      good = h.state.good;
      failed = counts.0;
      skipped = counts.1;
      target_reps = h.config.repetitions;
      abandon_reason = h.abandon_reason;
    }

pub record WizardRelayPayload : Type 0 where
  pub phase : WizardPhase
  pub rep_index : ℕ
  pub good : ℕ
  pub target : ℕ
  pub silence : ℕ
  pub silence_guard : ℕ
  pub cue_mode : CueMode
  pub label : String
  pub abandon_reason : Option AbandonReason

unfoldable pub relay_payload : Host → WizardRelayPayload
relay_payload h = record {
  phase = h.state.phase;
  rep_index = h.state.rep_index;
  good = h.state.good;
  target = h.config.repetitions;
  silence = h.state.silence;
  silence_guard = h.config.silence_guard;
  cue_mode = h.cue_mode;
  label = h.target;
  abandon_reason = h.abandon_reason;
}

abbrev pub cue_watchdog_margin_ms : ℕ
cue_watchdog_margin_ms = 500

abbrev pub clear_timer : Host → Host
clear_timer h = record h { timer = none }

abbrev pub clear_timers : Host → Host
clear_timers h = record h { timer = none; cue_watchdog = none }

abbrev pub arm_timer : ℕ → Host → ℕ → WizardEvent → Host
arm_timer now h ms e = record h { timer = some (record { fire_at = now + ms; event = e }) }

-- What `playCue` returned, or the nominal length where it threw.
abbrev pub played_or : Option ℕ → ℕ → ℕ
played_or none nominal = nominal
played_or (some total) nominal = total

unfoldable pub arm_cue : ℕ → Option ℕ → Host → Host
arm_cue now played h =
    let nominal = cue_total_ms (cue_presets h.cue_mode) in
    record h {
      cue_watchdog = some (now + (max (played_or played nominal) nominal + cue_watchdog_margin_ms));
    }

abbrev pub record_trial : Host → TrialOutcome → Host
record_trial h o = record h {
  ledger = h.ledger ++ record { rep_index = h.state.rep_index; outcome = o } ∷ [];
}

unfoldable pub apply_effect : ℕ → Option ℕ → Host → WizardEffect → Host
unfolding arm_cue
apply_effect now played h play_cue = arm_cue now played h
apply_effect now played h start_timer_feedback =
    arm_timer now h h.config.feedback_timeout_ms feedback_timeout
apply_effect now played h start_timer_retry =
    arm_timer now h h.config.retry_prompt_timeout_ms retry_timeout
apply_effect now played h record_trial_good = record_trial h good
apply_effect now played h record_trial_failed = record_trial h failed
apply_effect now played h record_trial_skipped = record_trial h skipped
apply_effect now played h _ = h

unfoldable pub apply_effects : ℕ → Option ℕ → Host → List WizardEffect → Host
apply_effects now played h [] = h
apply_effects now played h (e ∷ es) = apply_effects now played (apply_effect now played h e) es

-- The three events that do not clear the timer.
abbrev pub is_timed : WizardEvent → Bool
is_timed feedback_timeout = true
is_timed retry_timeout = true
is_timed cue_done = true
is_timed _ = false

-- The checks on the new phase, after the effects.
unfoldable pub settle : WizardPhase → Host → Host
settle done h = clear_timers h
settle abandoned h = clear_timers (record h {
  abandon_reason =
      some (if leb h.config.silence_guard h.state.silence then guard_rail else explicit);
})
settle _ h = h

unfoldable pub dispatch : ℕ → Option ℕ → WizardEvent → Host → Host
unfolding apply_effects settle
dispatch now played e h =
    let r = step h.state e h.config in
    let h1 = record h { state = r.state } in
    let h2 = if is_timed e then h1 else clear_timer h1 in
    settle r.state.phase (apply_effects now played h2 r.effects)

abbrev pub or_else : Option WizardConfig → WizardConfig → WizardConfig
or_else none c = c
or_else (some c) _ = c

-- `start`; a configuration that is not given leaves the one in force.
unfoldable pub start_series : ℕ → Option ℕ → String → CueMode → Option WizardConfig → Host → Host
unfolding dispatch
start_series now played target cue_mode config h =
    dispatch now played start (record (clear_timers h) {
      state = initial_state;
      config = or_else config h.config;
      cue_mode = cue_mode;
      target = target;
      ledger = [];
      abandon_reason = none;
      active = true;
    })

unfoldable pub reset : Host → Host
reset h = record (clear_timers h) {
  state = initial_state;
  ledger = [];
  abandon_reason = none;
  active = false;
}

-- The listeners are outside.
unfoldable pub destroy : Host → Host
destroy h = clear_timers h

-- The four controls of the operator.
pub data Press : Type 0 where
  press_success press_fail press_abandon press_skip : Press

abbrev pub event_of : Press → WizardEvent
event_of press_success = success
event_of press_fail = fail
event_of press_abandon = abandon
event_of press_skip = skip

-- `success`, `fail`, `abandon` and `skip`
unfoldable pub press : ℕ → Option ℕ → Press → Host → Host
unfolding dispatch
press now played b h = dispatch now played (event_of b) h

-- The callback of the pending timer.
unfoldable pub fire_timer : ℕ → Option ℕ → Timer → Host → Host
unfolding dispatch
fire_timer now played t h = dispatch now played t.event (clear_timer h)

-- The callback of the cue watchdog.
unfoldable pub fire_cue : ℕ → Option ℕ → Host → Host
unfolding dispatch
fire_cue now played h = dispatch now played cue_done (record h { cue_watchdog = none })
