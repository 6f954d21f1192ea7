-- ===== src/RunController/Invariant.antt =====
-- The invariant of the controller (frontend/cockpit/src/logbook/runController.ts).
use discodb.Prelude.{
  ℕ, ◌≤◌, ◌≡◌, ◌⊎◌, inl, inr, refl, sym, subst, ap, ◌∙◌, Bool, true, false, List, [], ◌∷◌, Option,
  none, some, Bool-cases, if◌then◌else◌, arith,
}
use mathlib.Core.Option.{none-ne-some}
use discodb.RunEngine.Defs.{
  LogbookScenario, RunWindow, StimulusKind, RunStatus, idle, running, done, stopped, RunEngine,
  scenario_phases, is_running, tick, confirm, result, state,
}
use discodb.RunEngine.Windows.{Complete, Stage, at, complete}
use discodb.RunEngine.Calls.{later_still}
use discodb.RunController.View.{RunUiState}
use discodb.RunController.Cues.{CueState, cues}
use discodb.RunController.Defs.{
  Controller, new_controller, now_t_us, publish, follow, finish_run, close_run, is_done, loop, next,
}
use discodb.RunController.Moves.{
  Moved, rests, runs_on, ends, tick-Moved, confirm-Moved, phases-tick, phases-confirm,
}

abbrev pub is_over : RunStatus → Bool
is_over done = true
is_over stopped = true
is_over _ = false

-- The last run handed to the analysis is that of `e`.
abbrev pub LastAnalyzed : RunEngine → List (List RunWindow × StimulusKind) → Type 0
LastAnalyzed e [] = ⊥
LastAnalyzed e (r ∷ rs) = r ≡ (e.windows, e.stimulus_kind)

-- The controller `c` drives `e`, at the time `wall`.
pub record Drives (wall : ℕ) (c : Controller) (e : RunEngine) : Type 0 where
  pub plan : LogbookScenario
  pub loaded : c.scenario ≡ some plan
  pub phases : e.phases ≡ scenario_phases plan
  pub stage : Stage e
  pub main : c.main_timer ≡ is_running e.status
  pub lead : (n : ℕ) → c.lead_timer ≡ some n → e.status ≡ idle
  pub unfinished : is_running e.status ≡ true → c.finished ≡ false
  pub on_time : is_running e.status ≡ true → e.now_t_us_last ≤ now_t_us c wall
  pub reported : is_over e.status ≡ true → (c.finished ≡ true) × LastAnalyzed e c.analyses

abbrev pub EngineInv : ℕ → Controller → Option RunEngine → Type 0
EngineInv wall c none = (c.main_timer ≡ false) × (c.lead_timer ≡ none) × (c.scenario ≡ none)
EngineInv wall c (some e) = Drives wall c e

abbrev pub ControllerInv : ℕ → Controller → Type 0
ControllerInv wall c = (c.base_wall ≤ wall) × EngineInv wall c c.engine

pub new_controller-Inv : (wall : ℕ) → ControllerInv wall new_controller
new_controller-Inv wall = (omega arith, (refl, refl, refl))

-- A controller that shows `e` as its engine.
abbrev holding : RunEngine → CueState → RunUiState → Controller → Controller
holding e k u c = record c { engine = some e; cue = k; ui = u }

-- Setting the clock of an engine at rest.
rests-Drives :
    (wall wall' now : ℕ) (c : Controller) (e : RunEngine) (k : CueState) (u : RunUiState)
    → is_running e.status ≡ false
    → Drives wall c e
    → Drives wall'
        (holding (record e { now_t_us_last = now }) k u c)
        (record e { now_t_us_last = now })
rests-Drives wall wall' now c e k u n d = record {
  plan = d.plan;
  loaded = d.loaded;
  phases = d.phases;
  stage = later_still e now n d.stage;
  main = d.main;
  lead = d.lead;
  unfinished = d.unfinished;
  on_time = λ r. absurd (ground (arith, sym n ∙ r));
  reported = d.reported;
}

done-not_running : (s : RunStatus) → is_done s ≡ true → is_running s ≡ false
done-not_running done h = refl
done-not_running idle h = absurd (ground (arith, h))
done-not_running running h = absurd (ground (arith, h))
done-not_running stopped h = absurd (ground (arith, h))

done-is_over : (s : RunStatus) → is_done s ≡ true → is_over s ≡ true
done-is_over done h = refl
done-is_over idle h = absurd (ground (arith, h))
done-is_over running h = absurd (ground (arith, h))
done-is_over stopped h = absurd (ground (arith, h))

-- After the last phase.
finish_done-Inv :
    (wall wall' t : ℕ) (c : Controller) (e k : RunEngine) (q : CueState) (u : RunUiState)
    → Drives wall c e
    → k.phases ≡ e.phases
    → Complete k t
    → c.finished ≡ false
    → c.base_wall ≤ wall'
    → ControllerInv wall' (finish_run false (holding k q u c))
unfolding finish_run close_run result
finish_done-Inv wall wall' t c e k q u d p a f b =
    let rests_now : is_running k.status ≡ false = ap is_running a.status in
    subst
      (λ x. ControllerInv wall' (if x then holding k q u c else close_run false (holding k q u c)))
      (sym f)
      (
        b,
        record {
          plan = d.plan;
          loaded = d.loaded;
          phases = p ∙ d.phases;
          stage = complete t a;
          main = sym rests_now;
          lead = λ n x. absurd (none-ne-some n x);
          unfinished = λ r. absurd (ground (arith, sym rests_now ∙ r));
          on_time = λ r. absurd (ground (arith, sym rests_now ∙ r));
          reported = λ o. (refl, refl);
        },
      )

-- What `loop` and `next` do once the engine has moved.
follow-Inv :
    (wall wall' gap now : ℕ) (c : Controller) (e k : RunEngine)
    → wall ≤ wall'
    → c.base_wall ≤ wall
    → now ≡ now_t_us c wall'
    → Drives wall c e
    → k.phases ≡ e.phases
    → Moved now e k
    → ControllerInv wall' (follow wall' gap k c)
unfolding follow publish
follow-Inv wall wall' gap now c e k l b m d p (rests n) = by_end (Bool-cases (is_done e.status))
  where
    q : CueState
    q = cues wall' gap (state (record e { now_t_us_last = now })) c.cue

    held : Controller
    held = publish (λ u. u) (record c { engine = some (record e { now_t_us_last = now }); cue = q })

    keeps : ControllerInv wall' held
    keeps = (omega arith, rests-Drives wall wall' now c e q held.ui n d)

    by_end :
        (is_done e.status ≡ true) ⊎ (is_done e.status ≡ false)
        → ControllerInv wall' (if is_done e.status then finish_run false held else held)
    by_end (inl x) =
        subst (λ t. ControllerInv wall' (if t then finish_run false held else held)) (sym x)
          (subst (λ f. ControllerInv wall' (if f then held else close_run false held))
            (sym (d.reported (done-is_over e.status x)).0) keeps)
    by_end (inr x) =
        subst (λ t. ControllerInv wall' (if t then finish_run false held else held)) (sym x) keeps
follow-Inv wall wall' gap now c e k l b m d p (runs_on i t r w a) =
    subst (λ s. ControllerInv wall' (if is_done s then finish_run false held else held))
      (sym a.status)
      (
        omega arith,
        record {
          plan = d.plan;
          loaded = d.loaded;
          phases = p ∙ d.phases;
          stage = at i t a;
          main = d.main ∙ r ∙ sym (ap is_running a.status);
          lead = λ n x. absurd (ground (arith, sym r ∙ ap is_running (d.lead n x)));
          unfinished = λ _. d.unfinished r;
          on_time = λ _. omega (arith, w, m);
          reported = λ o. absurd (ground (arith, sym o ∙ ap is_over a.status));
        },
      )
  where
    held : Controller
    held = publish (λ u. u) (record c { engine = some k; cue = cues wall' gap (state k) c.cue })
follow-Inv wall wall' gap now c e k l b m d p (ends t r a) =
    subst (λ s. ControllerInv wall' (if is_done s then finish_run false held else held))
      (sym a.status)
      (finish_done-Inv wall wall' t c e k (cues wall' gap (state k) c.cue) held.ui d p a
        (d.unfinished r) (omega arith))
  where
    held : Controller
    held = publish (λ u. u) (record c { engine = some k; cue = cues wall' gap (state k) c.cue })

pub later_on :
    (wall wall' : ℕ) (c : Controller) (e : RunEngine)
    → wall ≤ wall'
    → c.base_wall ≤ wall
    → Drives wall c e
    → is_running e.status ≡ true
    → e.now_t_us_last ≤ now_t_us c wall'
later_on wall wall' c e l b d r = omega (arith, d.on_time r)

pub loop-Inv :
    (wall wall' gap : ℕ) (c : Controller) (o : Option RunEngine)
    → wall ≤ wall'
    → ControllerInv wall c
    → c.engine ≡ o
    → ControllerInv wall' (loop wall' gap o c)
unfolding loop
loop-Inv wall wall' gap c none l h q =
    (omega (arith, h.0), subst (EngineInv wall' c) (sym q) (subst (EngineInv wall c) q h.1))
loop-Inv wall wall' gap c (some e) l h q =
    let d = subst (EngineInv wall c) q h.1 in
    let now = now_t_us c wall' in
    follow-Inv wall wall' gap now c e (tick now e) l h.0 refl d (phases-tick now e)
      (tick-Moved now e d.stage (later_on wall wall' c e l h.0 d))

pub next-Inv :
    (wall wall' gap : ℕ) (c : Controller) (o : Option RunEngine)
    → wall ≤ wall'
    → ControllerInv wall c
    → c.engine ≡ o
    → ControllerInv wall' (next wall' gap o c)
unfolding next
next-Inv wall wall' gap c none l h q =
    (omega (arith, h.0), subst (EngineInv wall' c) (sym q) (subst (EngineInv wall c) q h.1))
next-Inv wall wall' gap c (some e) l h q =
    let d = subst (EngineInv wall c) q h.1 in
    let now = now_t_us c wall' in
    follow-Inv wall wall' gap now c e (confirm now e) l h.0 refl d (phases-confirm now e)
      (confirm-Moved now e d.stage (later_on wall wall' c e l h.0 d))
