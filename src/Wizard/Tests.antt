-- ===== src/Wizard/Tests.antt =====
-- Runs of the reducer at concrete events, and instances of its theorems.
use discodb.Prelude.{◌≡◌, refl, List, [], ◌∷◌, ◌++◌, ◌<◌, arith}
use discodb.Wizard.{
  wizard_defaults, retry_prompt, done, abandoned, WizardState, WizardEvent, start, cue_done,
  success, fail, feedback_timeout, retry_timeout, skip, initial_state, step, run,
}
use discodb.Wizard.Invariant.{Inv, step-Inv, run-Inv}
use discodb.Wizard.Log.{is_done, tally}
use discodb.Wizard.Series.{silent_rounds, run_silent_abandons}

-- The prompt is up after two good trials and two silences.
abbrev prompted : WizardState
prompted = record { phase = retry_prompt; rep_index = 3; good = 2; silence = 2 }

prompted-Inv : Inv wizard_defaults prompted
prompted-Inv = ground arith

-- A miss, a success, a skip, a silence, then two successes.
abbrev session : List WizardEvent
session =
    start ∷ cue_done ∷ fail ∷ cue_done ∷ success ∷ cue_done ∷ feedback_timeout ∷ skip ∷ cue_done
    ∷ feedback_timeout ∷ retry_timeout ∷ cue_done ∷ success ∷ cue_done ∷ success ∷ start ∷ []

session_runs :
    (run initial_state session wizard_defaults).state
    ≡ record { phase = done; rep_index = 3; good = 3; silence = 0 }
unfolding run step
session_runs = refl

step-Inv_example : Inv wizard_defaults (step prompted retry_timeout wizard_defaults).state
step-Inv_example = step-Inv wizard_defaults prompted retry_timeout prompted-Inv

run-Inv_example : Inv wizard_defaults (run prompted (skip ∷ cue_done ∷ []) wizard_defaults).state
run-Inv_example = run-Inv wizard_defaults prompted (skip ∷ cue_done ∷ []) prompted-Inv

session_done : 0 < tally is_done (run initial_state session wizard_defaults).effects
unfolding run step
session_done = omega arith

run_silent_abandons_example :
    (run initial_state (start ∷ silent_rounds 5 ++ (cue_done ∷ success ∷ [])) wizard_defaults).state
    ≡ record initial_state { phase = abandoned; silence = 5 }
run_silent_abandons_example =
    run_silent_abandons wizard_defaults (cue_done ∷ success ∷ []) (omega arith) (omega arith)
