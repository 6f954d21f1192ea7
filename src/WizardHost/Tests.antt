-- ===== src/WizardHost/Tests.antt =====
-- A host of frontend/cockpit/src/hunt/wizardHost.ts with two repetitions, in its phases.
use discodb.Prelude.{◌++◌, ℕ, ◌≡◌, refl, List, [], ◌∷◌, Option, none, some, arith}
use discodb.Cue.{during, cue_presets}
use discodb.Wizard.{step, WizardConfig, wizard_defaults, abandoned, feedback_timeout}
use discodb.WizardHost.Defs.{
  apply_effect, Host, good, failed, guard_rail, start_series, press, press_success, press_fail,
  press_skip, skipped, fire_timer, fire_cue,
}
use discodb.WizardHost.Invariant.{
  HostInv, Reachable, made, after, started, cue_ended, timed_out, new_host, Reachable-HostInv,
}
use discodb.WizardHost.Stale.{press-stalls, press-ledger}
use discodb.WizardHost.Unattended.{fire_all, start_series-unattended}

abbrev config : WizardConfig
config = record wizard_defaults { repetitions = 2; silence_guard = 2 }

abbrev playing : Host
playing = start_series 100 none "brake" during none (new_host config during "")

abbrev asking : Host
asking = fire_cue 2569 none playing

abbrev prompting : Host
prompting = fire_timer 9569 none (record { fire_at = 9569; event = feedback_timeout }) asking

playing-Reachable : Reachable config playing
playing-Reachable = after (made during "") (started _ 100 none "brake" during none)

asking-Reachable : Reachable config asking
unfolding start_series fire_cue fire_timer press apply_effect step cue_presets
asking-Reachable = after playing-Reachable (cue_ended _ 2569 none 2569 refl (omega arith))

prompting-Reachable : Reachable config prompting
unfolding start_series fire_cue fire_timer press apply_effect step cue_presets
prompting-Reachable = after asking-Reachable (timed_out _ 9569 none _ refl (omega arith))

Reachable-HostInv_example : HostInv prompting
Reachable-HostInv_example = Reachable-HostInv prompting-Reachable

press-stalls_example :
    ((press 9600 none press_success prompting).state ≡ prompting.state)
    × ((press 9600 none press_success prompting).timer ≡ none)
    × ((press 9600 none press_success prompting).cue_watchdog ≡ none)
unfolding start_series fire_cue fire_timer press apply_effect step cue_presets
press-stalls_example =
    press-stalls 9600 none press_success prompting (Reachable-HostInv prompting-Reachable) tt refl

press-ledger_example :
    ((press 9600 none press_fail asking).ledger ≡ record { rep_index = 0; outcome = failed } ∷ [])
    × ((press 9600 none press_success asking).ledger
        ≡ record { rep_index = 1; outcome = good } ∷ [])
    × ((press 9600 none press_skip prompting).ledger
        ≡ prompting.ledger ++ record { rep_index = 1; outcome = skipped } ∷ [])
unfolding start_series fire_cue fire_timer press apply_effect step cue_presets
press-ledger_example = press-ledger 9600 none asking prompting refl (omega arith) refl

abbrev six : List (ℕ × Option ℕ)
six = (1, none) ∷ (2, none) ∷ (3, none) ∷ (4, none) ∷ (5, none) ∷ (6, none) ∷ []

start_series-unattended_example :
    let k = fire_all six (start_series 0 none "brake" during (some config) playing) in
    (k.state.phase ≡ abandoned)
    × (k.abandon_reason ≡ some guard_rail)
    × (k.timer ≡ none)
    × (k.cue_watchdog ≡ none)
    × (k.ledger ≡ [])
    × (k.state.good ≡ 0)
start_series-unattended_example =
    start_series-unattended 0 none "brake" during config playing six (omega arith) (omega arith)
