-- ===== src/WizardHost/Unattended.antt =====
-- A series that nobody attends: only the callbacks of frontend/cockpit/src/hunt/wizardHost.ts run.
use discodb.Prelude.{
  ℕ, zero, suc, ◌+◌, ◌-◌, ◌*◌, ◌<◌, ◌≤◌, max, ◌≡◌, refl, sym, subst, ap, ◌∙◌, true, List, [], ◌∷◌,
  length, Option, none, some, arith,
}
use discodb.Wizard.{
  WizardConfig, cueing, feedback, retry_prompt, abandoned, initial_state, feedback_timeout,
  retry_timeout, step,
}
use discodb.Cue.{CueMode, cue_presets, cue_total_ms}
use Prim.Native.String.{String}
use discodb.WizardHost.Defs.{
  played_or, start_series, Host, guard_rail, apply_effect, arm_cue, dispatch, fire_timer, fire_cue,
}

-- The pending callback runs, at time `now`.
unfoldable pub fire_next : ℕ → Option ℕ → Host → Host
fire_next now played h = elim h.cue_watchdog [
  | some at ↦ fire_cue now played h
  | none ↦ elim h.timer [ some t ↦ fire_timer now played t h | none ↦ h ]
]

-- One callback after the other.
unfoldable pub fire_all : List (ℕ × Option ℕ) → Host → Host
fire_all [] h = h
fire_all ((now, played) ∷ rest) h = fire_all rest (fire_next now played h)

abbrev feedback_of : ℕ → Host → Host
feedback_of now h = record h {
  state = record h.state { phase = feedback };
  cue_watchdog = none;
  timer = some (record { fire_at = now + h.config.feedback_timeout_ms; event = feedback_timeout });
}

abbrev retry_of : ℕ → Host → Host
retry_of now h = record h {
  state = record h.state { phase = retry_prompt };
  cue_watchdog = none;
  timer = some (record { fire_at = now + h.config.retry_prompt_timeout_ms; event = retry_timeout });
}

module _ (now : ℕ) (played : Option ℕ) (h : Host) where
  fire_next-cueing :
      (at : ℕ)
      → h.state.phase ≡ cueing
      → h.cue_watchdog ≡ some at
      → fire_next now played h ≡ feedback_of now h
  unfolding fire_next fire_cue dispatch apply_effect step
  fire_next-cueing at e w = ground arith

  fire_next-feedback : (t : ℕ) → fire_next now played (feedback_of t h) ≡ retry_of now h
  unfolding fire_next fire_timer dispatch apply_effect step
  fire_next-feedback t = refl

  fire_next-retry_on :
      (t : ℕ)
      → h.state.silence + 1 < h.config.silence_guard
      → fire_next now played (retry_of t h)
        ≡ arm_cue now played (record h {
          state = record h.state { phase = cueing; silence = h.state.silence + 1 };
          timer = none;
        })
  unfolding fire_next fire_timer dispatch apply_effect step
  fire_next-retry_on t l = ground arith

  fire_next-retry_over :
      (t : ℕ)
      → h.config.silence_guard ≤ h.state.silence + 1
      → fire_next now played (retry_of t h) ≡ record h {
        state = record h.state { phase = abandoned; silence = h.state.silence + 1 };
        timer = none;
        cue_watchdog = none;
        abandon_reason = some guard_rail;
      }
  unfolding fire_next fire_timer dispatch apply_effect step
  fire_next-retry_over t l = ground arith

-- A host whose series the guard-rail has ended, with the trials and the good count of `h`.
pub record GaveUp (h k : Host) : Type 0 where
  pub phase : k.state.phase ≡ abandoned
  pub reason : k.abandon_reason ≡ some guard_rail
  pub no_timer : k.timer ≡ none
  pub no_cue : k.cue_watchdog ≡ none
  pub ledger : k.ledger ≡ h.ledger
  pub good : k.state.good ≡ h.state.good

round :
    (a b c : ℕ) (p q r : Option ℕ) (h : Host) (at : ℕ)
    → h.state.phase ≡ cueing
    → h.cue_watchdog ≡ some at
    → fire_next c r (fire_next b q (fire_next a p h)) ≡ fire_next c r (retry_of b h)
round a b c p q r h at e w =
    ap (λ k. fire_next c r (fire_next b q k)) (fire_next-cueing a p h at e w)
    ∙ ap (fire_next c r) (fire_next-feedback b q h a)

rounds :
    (k : ℕ) (ts : List (ℕ × Option ℕ)) (h : Host) (at : ℕ)
    → h.state.phase ≡ cueing
    → h.cue_watchdog ≡ some at
    → length ts ≡ 3 * suc k
    → h.state.silence + suc k ≡ max h.config.silence_guard (h.state.silence + 1)
    → GaveUp h (fire_all ts h)
unfolding fire_all arm_cue
rounds k [] h at e w l m = absurd (omega arith)
rounds k ((a, p) ∷ []) h at e w l m = absurd (omega arith)
rounds k ((a, p) ∷ (b, q) ∷ []) h at e w l m = absurd (omega arith)
rounds zero ((a, p) ∷ (b, q) ∷ (c, r) ∷ []) h at e w l m =
    subst (GaveUp h) (sym (round a b c p q r h at e w ∙ fire_next-retry_over c r h b (omega arith)))
      (record {
        phase = refl;
        reason = refl;
        no_timer = refl;
        no_cue = refl;
        ledger = refl;
        good = refl;
      })
rounds (suc k) ((a, p) ∷ (b, q) ∷ (c, r) ∷ ts) h at e w l m =
    subst (λ x. GaveUp h (fire_all ts x))
      (sym (round a b c p q r h at e w ∙ fire_next-retry_on c r h b (omega arith)))
      (same (
        rounds k ts
          (arm_cue c r (record h {
            state = record h.state { phase = cueing; silence = h.state.silence + 1 };
            timer = none;
          }))
          (c
            + (max (played_or r (cue_total_ms (cue_presets h.cue_mode)))
                  (cue_total_ms (cue_presets h.cue_mode))
                + 500))
          refl refl (omega arith) (omega arith)))
  where
    same :
        {x : Host}
        → GaveUp
            (arm_cue c r (record h {
              state = record h.state { phase = cueing; silence = h.state.silence + 1 };
              timer = none;
            }))
            x
        → GaveUp h x
    same g = record {
      phase = g.phase;
      reason = g.reason;
      no_timer = g.no_timer;
      no_cue = g.no_cue;
      ledger = g.ledger;
      good = g.good;
    }
rounds zero ((a, p) ∷ (b, q) ∷ (c, r) ∷ d ∷ ts) h at e w l m = absurd (omega arith)

-- The host as its series plays the first cue.
abbrev begun : String → CueMode → WizardConfig → Host → Host
begun target m c h = record h {
  state = record initial_state { phase = cueing };
  config = c;
  cue_mode = m;
  target = target;
  ledger = [];
  abandon_reason = none;
  active = true;
  timer = none;
  cue_watchdog = none;
}

start_series-begun :
    (now : ℕ) (played : Option ℕ) (target : String) (m : CueMode) (c : WizardConfig) (h : Host)
    → 0 < c.repetitions
    → start_series now played target m (some c) h ≡ arm_cue now played (begun target m c h)
unfolding start_series dispatch apply_effect step
start_series-begun now played target m c h l = ground arith

-- A series of at least one repetition that is started and then left alone is ended by the guard-rail
-- after three callbacks for each silent round: the cue's, the feedback window's and the prompt's. It
-- then has the reason `guard`, no trial, and nothing pending.
pub start_series-unattended :
    (now : ℕ) (played : Option ℕ) (target : String) (m : CueMode) (c : WizardConfig) (h : Host)
    (ts : List (ℕ × Option ℕ))
    → 0 < c.repetitions
    → length ts ≡ 3 * max c.silence_guard 1
    → let k = fire_all ts (start_series now played target m (some c) h) in
      (k.state.phase ≡ abandoned)
      × (k.abandon_reason ≡ some guard_rail)
      × (k.timer ≡ none)
      × (k.cue_watchdog ≡ none)
      × (k.ledger ≡ [])
      × (k.state.good ≡ 0)
unfolding arm_cue
start_series-unattended now played target m c h ts l n =
    subst
      (λ x.
        (fire_all ts x).state.phase ≡ abandoned
        × (fire_all ts x).abandon_reason ≡ some guard_rail
        × (fire_all ts x).timer ≡ none
        × (fire_all ts x).cue_watchdog ≡ none
        × (fire_all ts x).ledger ≡ []
        × (fire_all ts x).state.good ≡ 0)
      (sym (start_series-begun now played target m c h l))
      (v.phase, v.reason, v.no_timer, v.no_cue, v.ledger, v.good)
  where
    v :
        GaveUp
          (arm_cue now played (begun target m c h))
          (fire_all ts (arm_cue now played (begun target m c h)))
    v =
        rounds (max c.silence_guard 1 - 1) ts (arm_cue now played (begun target m c h))
          (now
            + (max (played_or played (cue_total_ms (cue_presets m))) (cue_total_ms (cue_presets m))
                + 500))
          refl refl (omega arith) (omega arith)
