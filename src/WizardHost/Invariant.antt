-- ===== src/WizardHost/Invariant.antt =====
-- What holds of the host of frontend/cockpit/src/hunt/wizardHost.ts between two callbacks, whatever
-- the operator presses and whichever timers fire.
use discodb.Prelude.{
  ℕ, ◌+◌, ◌≤◌, min, ◌≡◌, refl, sym, subst, Bool, true, false, not, ◌&&◌, List, [], ◌∷◌, ◌++◌,
  Option, none, some, if◌then◌else◌, arith,
}
use discodb.Wizard.{
  WizardConfig, WizardPhase, feedback, retry_prompt, abandoned, WizardEvent, start, success, fail,
  abandon, skip, cue_done, feedback_timeout, retry_timeout, initial_state, step,
}
use discodb.Wizard.Invariant.{Inv, initial-Inv, step-Inv}
use discodb.Wizard.Log.{in_cueing, in_done}
use Prim.Native.String.{String}
use discodb.Cue.{CueMode}
use discodb.WizardHost.Defs.{
  Host, Timer, TrialOutcome, good, failed, skipped, TrialRecord, Press, press_success, press_fail,
  press_abandon, press_skip, is_timed, clear_timer, apply_effect, dispatch, start_series, reset,
  press, fire_timer, fire_cue, or_else,
}

abbrev pub is_some {ℓ} : {A : Type ℓ} → Option A → Bool
is_some none = false
is_some (some a) = true

abbrev pub is_abandoned : WizardPhase → Bool
is_abandoned abandoned = true
is_abandoned _ = false

abbrev pub is_cue_done : WizardEvent → Bool
is_cue_done cue_done = true
is_cue_done _ = false

abbrev pub is_outcome : TrialOutcome → TrialOutcome → Bool
is_outcome good good = true
is_outcome failed failed = true
is_outcome skipped skipped = true
is_outcome _ _ = false

-- How many trials of the ledger ended so.
unfoldable pub count_of : TrialOutcome → List TrialRecord → ℕ
count_of o [] = 0
count_of o (t ∷ ts) = if is_outcome o t.outcome then count_of o ts + 1 else count_of o ts

-- The event that a timer may feed in a phase.
abbrev pub TimerFits : WizardPhase → Option Timer → Type 0
TimerFits p none = Unit
TimerFits feedback (some t) = t.event ≡ feedback_timeout
TimerFits retry_prompt (some t) = t.event ≡ retry_timeout
TimerFits _ (some t) = ⊥

-- The host between two callbacks, or, if `firing`, as its cue watchdog has just gone off.
pub record Holds (firing : Bool) (h : Host) : Type 0 where
  pub series : Inv h.config h.state
  pub cue : is_some h.cue_watchdog ≡ (in_cueing h.state.phase && not firing)
  pub timer : TimerFits h.state.phase h.timer
  pub reason : is_some h.abandon_reason ≡ is_abandoned h.state.phase
  pub good_counted : count_of good h.ledger ≡ h.state.good
  pub tests_counted :
      count_of good h.ledger + count_of skipped h.ledger
      ≡ h.state.rep_index + min h.state.good (in_done h.state.phase)

abbrev pub HostInv : Host → Type 0
HostInv h = Holds false h

count_of-append :
    (o : TrialOutcome) (ts : List TrialRecord) (t : TrialRecord)
    → count_of o (ts ++ t ∷ []) ≡ count_of o ts + (if is_outcome o t.outcome then 1 else 0)
unfolding count_of
count_of-append o [] t = ground arith
count_of-append o (u ∷ ts) t = ground (arith, count_of-append o ts t)

module _ (now : ℕ) (played : Option ℕ) (e : WizardEvent) (h : Host) where
  state-dispatch : (dispatch now played e h).state ≡ (step h.state e h.config).state
  unfolding dispatch apply_effect step
  state-dispatch = ground arith

  config-dispatch : (dispatch now played e h).config ≡ h.config
  unfolding dispatch apply_effect step
  config-dispatch = ground arith

  series-dispatch :
      Inv h.config h.state → Inv (dispatch now played e h).config (dispatch now played e h).state
  series-dispatch v =
      subst (λ c. Inv c (dispatch now played e h).state) (sym config-dispatch)
        (subst (Inv h.config) (sym state-dispatch) (step-Inv h.config h.state e v))

  cue-dispatch :
      is_some h.cue_watchdog ≡ (in_cueing h.state.phase && not (is_cue_done e))
      → is_some (dispatch now played e h).cue_watchdog
        ≡ (in_cueing (dispatch now played e h).state.phase && true)
  unfolding dispatch apply_effect step
  cue-dispatch c = ground arith

  timer-dispatch :
      TimerFits h.state.phase h.timer
      → (is_timed e ≡ true → is_cue_done e ≡ false → h.timer ≡ none)
      → TimerFits (dispatch now played e h).state.phase (dispatch now played e h).timer
  unfolding dispatch apply_effect step
  timer-dispatch c n = ground arith

  reason-dispatch :
      is_some h.abandon_reason ≡ is_abandoned h.state.phase
      → is_some (dispatch now played e h).abandon_reason
        ≡ is_abandoned (dispatch now played e h).state.phase
  unfolding dispatch apply_effect step
  reason-dispatch c = ground arith

  good-dispatch :
      count_of good h.ledger ≡ h.state.good
      → count_of good (dispatch now played e h).ledger ≡ (dispatch now played e h).state.good
  unfolding dispatch apply_effect step
  good-dispatch c = grind (arith, count_of-append)

  tests-dispatch :
      Inv h.config h.state
      → count_of good h.ledger + count_of skipped h.ledger
        ≡ h.state.rep_index + min h.state.good (in_done h.state.phase)
      → count_of good (dispatch now played e h).ledger
          + count_of skipped (dispatch now played e h).ledger
        ≡ (dispatch now played e h).state.rep_index
          + min (dispatch now played e h).state.good (in_done (dispatch now played e h).state.phase)
  unfolding dispatch apply_effect step
  tests-dispatch v c = grind (arith, count_of-append)

  dispatch-Holds :
      Holds (is_cue_done e) h
      → (is_timed e ≡ true → is_cue_done e ≡ false → h.timer ≡ none)
      → HostInv (dispatch now played e h)
  dispatch-Holds v n = record {
    series = series-dispatch v.series;
    cue = cue-dispatch v.cue;
    timer = timer-dispatch v.timer n;
    reason = reason-dispatch v.reason;
    good_counted = good-dispatch v.good_counted;
    tests_counted = tests-dispatch v.series v.tests_counted;
  }

-- A host as it is made: no series yet.
abbrev pub new_host : WizardConfig → CueMode → String → Host
new_host c m s = record {
  state = initial_state;
  config = c;
  cue_mode = m;
  target = s;
  ledger = [];
  abandon_reason = none;
  active = false;
  timer = none;
  cue_watchdog = none;
}

-- What can happen to a host: the panel starts or resets a series, the operator presses a control in
-- whatever phase, or a pending callback is due.
pub data HostStep : Host → Host → Type 0 where
  started :
      (h : Host) (now : ℕ) (played : Option ℕ) (target : String) (m : CueMode)
      (c : Option WizardConfig)
      → HostStep h (start_series now played target m c h)
  cleared : (h : Host) → HostStep h (reset h)
  pressed : (h : Host) (now : ℕ) (played : Option ℕ) (b : Press) → HostStep h (press now played b h)
  timed_out :
      (h : Host) (now : ℕ) (played : Option ℕ) (t : Timer)
      → h.timer ≡ some t
      → t.fire_at ≤ now
      → HostStep h (fire_timer now played t h)
  cue_ended :
      (h : Host) (now : ℕ) (played : Option ℕ) (at : ℕ)
      → h.cue_watchdog ≡ some at
      → at ≤ now
      → HostStep h (fire_cue now played h)

pub data Reachable (c : WizardConfig) : Host → Type 0 where
  made : (m : CueMode) (s : String) → Reachable c (new_host c m s)
  after : {h k : Host} → Reachable c h → HostStep h k → Reachable c k

not_timed : false ≡ true → ⊥
not_timed e = cc

idle-Holds :
    (c : WizardConfig) (m : CueMode) (s : String) (a : Bool)
    → HostInv (record (new_host c m s) { active = a })
unfolding count_of
idle-Holds c m s a = record {
  series = initial-Inv c;
  cue = refl;
  timer = tt;
  reason = refl;
  good_counted = refl;
  tests_counted = refl;
}

-- A timer that fits its phase is not the end of a cue.
fits-is_cue_done :
    (p : WizardPhase) (t : Timer) → TimerFits p (some t) → is_cue_done t.event ≡ false
fits-is_cue_done p t f = ground arith

timer_gone :
    (h : Host) (t : Timer)
    → h.timer ≡ some t
    → HostInv h
    → Holds (is_cue_done t.event) (clear_timer h)
timer_gone h t e v =
    subst (λ b. Holds b (clear_timer h))
      (sym (fits-is_cue_done h.state.phase t (subst (TimerFits h.state.phase) e v.timer)))
      (record {
        series = v.series;
        cue = v.cue;
        timer = no_timer h.state.phase;
        reason = v.reason;
        good_counted = v.good_counted;
        tests_counted = v.tests_counted;
      })
  where
    no_timer : (p : WizardPhase) → TimerFits p none
    no_timer p = tt

cue_gone : (h : Host) → HostInv h → Holds true (record h { cue_watchdog = none })
cue_gone h v = record {
  series = v.series;
  cue = ground arith;
  timer = v.timer;
  reason = v.reason;
  good_counted = v.good_counted;
  tests_counted = v.tests_counted;
}

-- Whatever happens to a host keeps its invariant.
pub HostStep-HostInv : {h k : Host} → HostStep h k → HostInv h → HostInv k
unfolding start_series reset press fire_timer fire_cue
HostStep-HostInv (started h now played s m c) v =
    dispatch-Holds now played start (record (new_host (or_else c h.config) m s) { active = true })
      (idle-Holds (or_else c h.config) m s true) (λ d n. refl)
HostStep-HostInv (cleared h) v = idle-Holds h.config h.cue_mode h.target false
HostStep-HostInv (pressed h now played press_success) v =
    dispatch-Holds now played success h v (λ d n. absurd (not_timed d))
HostStep-HostInv (pressed h now played press_fail) v =
    dispatch-Holds now played fail h v (λ d n. absurd (not_timed d))
HostStep-HostInv (pressed h now played press_abandon) v =
    dispatch-Holds now played abandon h v (λ d n. absurd (not_timed d))
HostStep-HostInv (pressed h now played press_skip) v =
    dispatch-Holds now played skip h v (λ d n. absurd (not_timed d))
HostStep-HostInv (timed_out h now played t e d) v =
    dispatch-Holds now played t.event (clear_timer h) (timer_gone h t e v) (λ i n. refl)
HostStep-HostInv (cue_ended h now played at e d) v =
    dispatch-Holds now played cue_done (record h { cue_watchdog = none }) (cue_gone h v)
      (λ i n. absurd (not_timed (sym n)))

-- In every host that can be reached, the cue watchdog is armed exactly while the cue plays, a
-- pending timer is that of the phase, an abandon reason is given exactly when the series was
-- abandoned, the ledger has as many good trials as the series has counted and, with the skipped ones,
-- accounts for the test index; and the series' own invariant holds.
pub Reachable-HostInv : {c : WizardConfig} {h : Host} → Reachable c h → HostInv h
Reachable-HostInv {c} (made m s) = idle-Holds c m s false
Reachable-HostInv (after r st) = HostStep-HostInv st (Reachable-HostInv r)
