-- ===== src/Wizard/Log.antt =====
-- The effects that the reducer of frontend/shared/wizard-fsm.ts asks of its host, against the state.
use discodb.Prelude.{
  ℕ, ◌+◌, ◌<◌, ◌≡◌, Bool, true, false, not, ◌&&◌, List, [], ◌∷◌, ◌++◌, if◌then◌else◌, arith,
}
use discodb.Wizard.{
  WizardConfig, WizardPhase, cueing, feedback, retry_prompt, done, abandoned, WizardState,
  WizardEvent, WizardEffect, play_cue, start_timer_feedback, start_timer_retry, record_trial_good,
  record_trial_skipped, advance, end_abandon, end_done, initial_state, step, run,
}
use discodb.Wizard.Invariant.{initial-Inv, run-Inv}

abbrev pub is_cue : WizardEffect → Bool
is_cue play_cue = true
is_cue _ = false

abbrev pub is_feedback_timer : WizardEffect → Bool
is_feedback_timer start_timer_feedback = true
is_feedback_timer _ = false

abbrev pub is_retry_timer : WizardEffect → Bool
is_retry_timer start_timer_retry = true
is_retry_timer _ = false

abbrev pub is_good : WizardEffect → Bool
is_good record_trial_good = true
is_good _ = false

abbrev pub is_skipped : WizardEffect → Bool
is_skipped record_trial_skipped = true
is_skipped _ = false

abbrev pub is_advance : WizardEffect → Bool
is_advance advance = true
is_advance _ = false

abbrev pub is_done : WizardEffect → Bool
is_done end_done = true
is_done _ = false

abbrev pub is_abandon : WizardEffect → Bool
is_abandon end_abandon = true
is_abandon _ = false

-- How many effects pass a test.
abbrev pub tally : (WizardEffect → Bool) → List WizardEffect → ℕ
tally p [] = 0
tally p (e ∷ es) = if p e then tally p es + 1 else tally p es

tally-append :
    (p : WizardEffect → Bool) (xs ys : List WizardEffect)
    → tally p (xs ++ ys) ≡ tally p xs + tally p ys
tally-append p [] ys = omega arith
tally-append p (x ∷ xs) ys = ground (arith, tally-append p xs ys)

abbrev pub in_cueing : WizardPhase → Bool
in_cueing cueing = true
in_cueing _ = false

abbrev pub in_feedback : WizardPhase → Bool
in_feedback feedback = true
in_feedback _ = false

abbrev pub in_retry_prompt : WizardPhase → Bool
in_retry_prompt retry_prompt = true
in_retry_prompt _ = false

abbrev pub in_done : WizardPhase → ℕ
in_done done = 1
in_done _ = 0

abbrev pub in_abandoned : WizardPhase → ℕ
in_abandoned abandoned = 1
in_abandoned _ = 0

-- 1 where a step enters the phases of a test.
abbrev pub entered : (WizardPhase → Bool) → WizardPhase → WizardPhase → ℕ
entered p from to = if p to && not (p from) then 1 else 0

-- A step plays the cue exactly when it enters `cueing`, arms the feedback window exactly when it
-- enters `feedback`, and arms the retry window exactly when it enters `retryPrompt`; each once.
pub step-tally-entered :
    (c : WizardConfig) (s : WizardState) (e : WizardEvent)
    → let r = step s e c in
      (tally is_cue r.effects ≡ entered in_cueing s.phase r.state.phase)
      × (tally is_feedback_timer r.effects ≡ entered in_feedback s.phase r.state.phase)
      × (tally is_retry_timer r.effects ≡ entered in_retry_prompt s.phase r.state.phase)
unfolding step
step-tally-entered c s e = ground arith

-- What the log of a run says of the states at its two ends.
pub record Logged (c : WizardConfig) (s t : WizardState) (log : List WizardEffect) : Type 0 where
  pub goods : t.good ≡ s.good + tally is_good log
  pub advances : t.rep_index ≡ s.rep_index + tally is_advance log
  pub ended : in_done t.phase ≡ in_done s.phase + tally is_done log
  pub stopped : in_abandoned t.phase ≡ in_abandoned s.phase + tally is_abandon log
  pub tests : tally is_good log + tally is_skipped log ≡ tally is_advance log + tally is_done log

step-Logged :
    (c : WizardConfig) (s : WizardState) (e : WizardEvent)
    → 0 < c.repetitions
    → let r = step s e c in Logged c s r.state r.effects
unfolding step
step-Logged c s e h = ground arith

Logged-append :
    (c : WizardConfig) (s t u : WizardState) (xs ys : List WizardEffect)
    → Logged c s t xs
    → Logged c t u ys
    → Logged c s u (xs ++ ys)
Logged-append c s t u xs ys h k = record {
  goods = omega (arith, h.goods, k.goods, tally-append is_good xs ys);
  advances = omega (arith, h.advances, k.advances, tally-append is_advance xs ys);
  ended = omega (arith, h.ended, k.ended, tally-append is_done xs ys);
  stopped = omega (arith, h.stopped, k.stopped, tally-append is_abandon xs ys);
  tests = omega (
    arith,
    h.tests,
    k.tests,
    tally-append is_good xs ys,
    tally-append is_skipped xs ys,
    tally-append is_advance xs ys,
    tally-append is_done xs ys,
  );
}

-- Over any events, with at least one repetition asked for: the good trials recorded are those that
-- the state counts, the test index counts the `advance` effects, `done` and `abandon` are each asked
-- for once and only on reaching that phase, and every recorded good or skipped trial advances the
-- series but the one that ends it.
pub run-Logged :
    (c : WizardConfig) (s : WizardState) (es : List WizardEvent)
    → 0 < c.repetitions
    → let r = run s es c in Logged c s r.state r.effects
unfolding run
run-Logged c s [] h = ground arith
run-Logged c s (e ∷ es) h =
    let r = step s e c in
    Logged-append c s r.state _ r.effects _ (step-Logged c s e h) (run-Logged c r.state es h)

in_done-pos :
    (p : WizardPhase) → 0 < in_done p → (p ≡ done) × (in_done p ≡ 1) × (in_abandoned p ≡ 0)
in_done-pos p h = ground arith

-- A run from the initial state that asks for `done` has recorded exactly `repetitions` good trials,
-- asks for `done` once and never for `abandon`.
pub run-good_trials :
    (c : WizardConfig) (es : List WizardEvent)
    → 0 < c.repetitions
    → 0 < tally is_done (run initial_state es c).effects
    → let log = (run initial_state es c).effects in
      (tally is_good log ≡ c.repetitions) × (tally is_done log ≡ 1) × (tally is_abandon log ≡ 0)
run-good_trials c es h d =
    let l = run-Logged c initial_state es h in
    let i = run-Inv c initial_state es (initial-Inv c) in
    let p = in_done-pos (run initial_state es c).state.phase (omega (arith, l.ended)) in
    let w = i.complete p.0 in
    (omega (arith, l.goods, w.0), omega (arith, l.ended, p.1), omega (arith, l.stopped, p.2))
