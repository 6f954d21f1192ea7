-- ===== src/Wizard/Series.antt =====
-- Whole series of frontend/shared/wizard-fsm.ts: the silence guard, the successful series, and what
-- a terminal phase does.
use discodb.Prelude.{
  ℕ, zero, suc, ◌+◌, ◌-◌, ◌≤◌, ◌<◌, ◌≡◌, refl, ap, ap₂, ◌∙◌, List, [], ◌∷◌, ◌++◌, arith,
}
use discodb.Wizard.{
  WizardConfig, cueing, done, abandoned, WizardState, WizardEvent, start, cue_done, success,
  feedback_timeout, retry_timeout, initial_state, StepResult, step, run,
}
use discodb.Wizard.Invariant.{IsTerminal}

-- A terminal phase ignores whatever comes.
pub run_terminal :
    (c : WizardConfig) (s : WizardState) (es : List WizardEvent)
    → IsTerminal s.phase
    → run s es c ≡ record { state = s; effects = [] }
unfolding run step
run_terminal c s [] h = refl
run_terminal c s (e ∷ es) h = ground (arith, run_terminal c s es h)

-- `k` rounds in which the operator never reacts.
abbrev pub silent_rounds : ℕ → List WizardEvent
silent_rounds zero = []
silent_rounds (suc k) = cue_done ∷ feedback_timeout ∷ retry_timeout ∷ silent_rounds k

-- `k` rounds that the operator confirms.
abbrev pub good_rounds : ℕ → List WizardEvent
good_rounds zero = []
good_rounds (suc k) = cue_done ∷ success ∷ good_rounds k

silent_round :
    (c : WizardConfig) (s : WizardState) (es : List WizardEvent)
    → s.phase ≡ cueing
    → s.silence + 1 < c.silence_guard
    → (run s (cue_done ∷ feedback_timeout ∷ retry_timeout ∷ es) c).state
      ≡ (run (record s { silence = s.silence + 1 }) es c).state
unfolding run step
silent_round c s es p h = ground arith

silent_last :
    (c : WizardConfig) (s : WizardState) (es : List WizardEvent)
    → s.phase ≡ cueing
    → c.silence_guard ≤ s.silence + 1
    → (run s (cue_done ∷ feedback_timeout ∷ retry_timeout ∷ es) c).state
      ≡ (run (record s { phase = abandoned; silence = s.silence + 1 }) es c).state
unfolding run step
silent_last c s es p h = ground arith

silent_rounds-run :
    (c : WizardConfig) (k : ℕ) (s : WizardState) (es : List WizardEvent)
    → s.phase ≡ cueing
    → s.silence + k < c.silence_guard
    → (run s (silent_rounds k ++ es) c).state
      ≡ (run (record s { silence = s.silence + k }) es c).state
silent_rounds-run c zero s es p h = let e : s.silence + 0 ≡ s.silence = omega arith in rw e
silent_rounds-run c (suc k) s es p h =
    silent_round c s (silent_rounds k ++ es) p (omega arith)
    ∙ silent_rounds-run c k (record s { silence = s.silence + 1 }) es p (omega arith)
    ∙ ap (λ n. (run (record s { silence = n }) es c).state) (omega arith)

run-start :
    (c : WizardConfig) (es : List WizardEvent)
    → 0 < c.repetitions
    → (run initial_state (start ∷ es) c).state
      ≡ (run (record initial_state { phase = cueing }) es c).state
unfolding run step
run-start c es h = ground arith

-- With at least one repetition asked for, fewer silent rounds than the guard replay the first test,
-- and the count of silences is the number of rounds.
pub run_few_silent :
    (c : WizardConfig) (k : ℕ)
    → 0 < c.repetitions
    → k < c.silence_guard
    → (run initial_state (start ∷ silent_rounds k ++ []) c).state
      ≡ record initial_state { phase = cueing; silence = k }
unfolding run
run_few_silent c k r h =
    run-start c (silent_rounds k ++ []) r
    ∙ silent_rounds-run c k (record initial_state { phase = cueing }) [] refl (omega arith)
    ∙ ap (λ n. record initial_state { phase = cueing; silence = n }) (omega arith)

silent_rounds-suc :
    (k : ℕ) (es : List WizardEvent)
    → silent_rounds (suc k) ++ es ≡ silent_rounds k ++ (silent_rounds 1 ++ es)
silent_rounds-suc zero es = refl
silent_rounds-suc (suc k) es =
    ap (λ l. cue_done ∷ feedback_timeout ∷ retry_timeout ∷ l) (silent_rounds-suc k es)

silent_suc_abandons :
    (c : WizardConfig) (k : ℕ) (es : List WizardEvent)
    → 0 < c.repetitions
    → c.silence_guard ≡ suc k
    → (run initial_state (start ∷ silent_rounds (suc k) ++ es) c).state
      ≡ record initial_state { phase = abandoned; silence = c.silence_guard }
silent_suc_abandons c k es r g =
    run-start c (silent_rounds (suc k) ++ es) r
    ∙ ap (λ l. (run (record initial_state { phase = cueing }) l c).state) (silent_rounds-suc k es)
    ∙ silent_rounds-run c k (record initial_state { phase = cueing }) (silent_rounds 1 ++ es) refl
        (omega arith)
    ∙ silent_last c (record initial_state { phase = cueing; silence = 0 + k }) es refl (omega arith)
    ∙ ap (λ (x : StepResult). x.state)
        (run_terminal c (record initial_state { phase = abandoned; silence = 0 + k + 1 }) es tt)
    ∙ ap (λ n. record initial_state { phase = abandoned; silence = n }) (omega arith)

-- With at least one repetition asked for and a positive guard, as many silent rounds as the guard
-- abandon the series, whatever the host sends afterwards.
pub run_silent_abandons :
    (c : WizardConfig) (es : List WizardEvent)
    → 0 < c.repetitions
    → 0 < c.silence_guard
    → (run initial_state (start ∷ silent_rounds c.silence_guard ++ es) c).state
      ≡ record initial_state { phase = abandoned; silence = c.silence_guard }
run_silent_abandons c es r g =
    let e : c.silence_guard ≡ suc (c.silence_guard - 1) = omega arith in
    ap (λ n. (run initial_state (start ∷ silent_rounds n ++ es) c).state) e
    ∙ silent_suc_abandons c (c.silence_guard - 1) es r e

good_round :
    (c : WizardConfig) (s : WizardState) (es : List WizardEvent)
    → s.phase ≡ cueing
    → s.silence ≡ 0
    → s.good + 1 < c.repetitions
    → (run s (cue_done ∷ success ∷ es) c).state
      ≡ (run (record s { good = s.good + 1; rep_index = s.rep_index + 1 }) es c).state
unfolding run step
good_round c s es p q h = ground arith

good_last :
    (c : WizardConfig) (s : WizardState) (es : List WizardEvent)
    → s.phase ≡ cueing
    → s.silence ≡ 0
    → c.repetitions ≤ s.good + 1
    → (run s (cue_done ∷ success ∷ es) c).state
      ≡ (run (record s { phase = done; good = s.good + 1 }) es c).state
unfolding run step
good_last c s es p q h = ground arith

good_rounds-run :
    (c : WizardConfig) (k : ℕ) (s : WizardState) (es : List WizardEvent)
    → s.phase ≡ cueing
    → s.silence ≡ 0
    → s.good + k < c.repetitions
    → (run s (good_rounds k ++ es) c).state
      ≡ (run (record s { good = s.good + k; rep_index = s.rep_index + k }) es c).state
good_rounds-run c zero s es p q h =
    let e : s.good + 0 ≡ s.good = omega arith in
    let f : s.rep_index + 0 ≡ s.rep_index = omega arith in rw (e, f)
good_rounds-run c (suc k) s es p q h =
    good_round c s (good_rounds k ++ es) p q (omega arith)
    ∙ good_rounds-run c k (record s { good = s.good + 1; rep_index = s.rep_index + 1 }) es p q
        (omega arith)
    ∙ ap₂ (λ m n. (run (record s { good = m; rep_index = n }) es c).state) (omega arith)
        (omega arith)

good_rounds-suc :
    (k : ℕ) (es : List WizardEvent)
    → good_rounds (suc k) ++ es ≡ good_rounds k ++ (good_rounds 1 ++ es)
good_rounds-suc zero es = refl
good_rounds-suc (suc k) es = ap (λ l. cue_done ∷ success ∷ l) (good_rounds-suc k es)

good_suc_completes :
    (c : WizardConfig) (k : ℕ) (es : List WizardEvent)
    → c.repetitions ≡ suc k
    → (run initial_state (start ∷ good_rounds (suc k) ++ es) c).state
      ≡ record { phase = done; rep_index = k; good = c.repetitions; silence = 0 }
good_suc_completes c k es r =
    run-start c (good_rounds (suc k) ++ es) (omega arith)
    ∙ ap (λ l. (run (record initial_state { phase = cueing }) l c).state) (good_rounds-suc k es)
    ∙ good_rounds-run c k (record initial_state { phase = cueing }) (good_rounds 1 ++ es) refl refl
        (omega arith)
    ∙ good_last c (record initial_state { phase = cueing; good = 0 + k; rep_index = 0 + k }) es refl
        refl (omega arith)
    ∙ ap (λ (x : StepResult). x.state)
        (run_terminal c (record initial_state { phase = done; good = 0 + k + 1; rep_index = 0 + k })
          es tt)
    ∙ ap₂ (λ m n. record { phase = done; rep_index = m; good = n; silence = 0 }) (omega arith)
        (omega arith)

-- As many confirmed rounds as repetitions (at least one) complete the series, whatever the host
-- sends afterwards; the test index stays on the last test.
pub run_good_completes :
    (c : WizardConfig) (es : List WizardEvent)
    → 0 < c.repetitions
    → (run initial_state (start ∷ good_rounds c.repetitions ++ es) c).state
      ≡ record { phase = done; rep_index = c.repetitions - 1; good = c.repetitions; silence = 0 }
run_good_completes c es r =
    let e : c.repetitions ≡ suc (c.repetitions - 1) = omega arith in
    ap (λ n. (run initial_state (start ∷ good_rounds n ++ es) c).state) e
    ∙ good_suc_completes c (c.repetitions - 1) es e
