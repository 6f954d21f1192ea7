-- ===== src/RunController/Operations.antt =====
-- Each operation and each timer keeps the invariant of the controller
-- (frontend/cockpit/src/logbook/runController.ts).
use discodb.Prelude.{
  ℕ, ◌-◌, ◌≤◌, ◌<◌, ◌≡◌, ◌⊎◌, inl, inr, refl, sym, subst, ap, ◌∙◌, Bool, true, false, length,
  Option, none, some, Option-cases, Bool-cases, if◌then◌else◌, leb, arith,
}
use mathlib.Core.Option.{none-ne-some}
use discodb.RunEngine.Defs.{
  LogbookScenario, RunEngine, create_run_engine, is_running, start, stop, result,
}
use discodb.RunEngine.Windows.{Cut, Stage, fresh, cut}
use discodb.RunEngine.Calls.{later_still, start-Stage, scenario_phases-pos}
use discodb.RunController.View.{RunUiState, waiting_ui, ui_stopped, ui_leadin}
use discodb.RunController.Cues.{CueState, play, lead_in_beep, voice}
use discodb.RunController.Defs.{
  Controller, now_t_us, clear_timers, publish, finish_run, close_run, begin_run, arm, start_run,
  lead, stop_run,
}
use discodb.RunController.Moves.{stop-Cut_or_still, phases-stop}
use discodb.RunController.Invariant.{
  is_over, LastAnalyzed, Drives, EngineInv, ControllerInv, later_on,
}

-- An engine that has just been made.
created-Drives :
    (wall : ℕ) (c : Controller) (s : LogbookScenario)
    → c.scenario ≡ some s
    → c.main_timer ≡ false
    → Drives wall c (create_run_engine s)
unfolding create_run_engine
created-Drives wall c s q m = record {
  plan = s;
  loaded = q;
  phases = refl;
  stage = fresh (record { status = refl; windows = refl });
  main = m;
  lead = λ n x. refl;
  unfinished = λ r. absurd (ground (arith, r));
  on_time = λ r. absurd (ground (arith, r));
  reported = λ o. absurd (ground (arith, o));
}

pub arm-Inv :
    (wall wall' : ℕ) (c : Controller) (s : LogbookScenario)
    → wall ≤ wall'
    → ControllerInv wall c
    → ControllerInv wall' (arm s c)
unfolding arm publish
arm-Inv wall wall' c s l h = (omega (arith, h.0), created-Drives wall' (arm s c) s refl refl)

later-Inv :
    (wall wall' : ℕ) (c : Controller)
    → wall ≤ wall'
    → c.engine ≡ none
    → ControllerInv wall c
    → ControllerInv wall' c
later-Inv wall wall' c l q h =
    (omega (arith, h.0), subst (EngineInv wall' c) (sym q) (subst (EngineInv wall c) q h.1))

begin_run-Inv :
    (wall wall' max_t_us : ℕ) (c : Controller) (e : RunEngine)
    → c.lead_timer ≡ none
    → Drives wall (record c { lead_timer = none }) e
    → ControllerInv wall' (begin_run wall' max_t_us (some e) c)
unfolding begin_run publish start
begin_run-Inv wall wall' max_t_us c e q d = (
  omega arith,
  record {
    plan = d.plan;
    loaded = d.loaded;
    phases = d.phases;
    stage =
        start-Stage e max_t_us
          (subst (λ ps. 0 < length ps) (sym d.phases) (scenario_phases-pos d.plan));
    main = refl;
    lead = λ n x. absurd (none-ne-some n (sym q ∙ x));
    unfinished = λ r. refl;
    on_time = λ r. omega arith;
    reported = λ o. absurd (ground (arith, o));
  },
)

-- The controller when `stop` has stopped its engine.
abbrev halting : ℕ → RunEngine → Controller → Controller
halting wall e c =
    publish (λ u. record u { status = ui_stopped })
      (record (clear_timers c) {
        engine = some (stop (now_t_us c wall) e);
        cue = play (voice none) c.cue;
      })

finish_stopped-Inv :
    (wall wall' : ℕ) (c : Controller) (e : RunEngine)
    → wall ≤ wall'
    → c.base_wall ≤ wall
    → Drives wall c e
    → Stage (stop (now_t_us c wall') e)
    → is_running (stop (now_t_us c wall') e).status ≡ false
    → (c.finished ≡ true
        → is_over (stop (now_t_us c wall') e).status ≡ true
        → LastAnalyzed (stop (now_t_us c wall') e) c.analyses)
    → ControllerInv wall' (finish_run true (halting wall' e c))
unfolding finish_run close_run publish result
finish_stopped-Inv wall wall' c e l b d g n r = by_flag (Bool-cases c.finished)
  where
    k : RunEngine
    k = stop (now_t_us c wall') e

    by_flag :
        (c.finished ≡ true) ⊎ (c.finished ≡ false)
        → ControllerInv wall'
            (if c.finished then halting wall' e c else close_run true (halting wall' e c))
    by_flag (inl f) =
        subst
          (λ x.
            ControllerInv wall'
              (if x then halting wall' e c else close_run true (halting wall' e c)))
          (sym f)
          (
            omega arith,
            record {
              plan = d.plan;
              loaded = d.loaded;
              phases = phases-stop (now_t_us c wall') e ∙ d.phases;
              stage = g;
              main = sym n;
              lead = λ m x. absurd (none-ne-some m x);
              unfinished = λ s. absurd (ground (arith, sym n ∙ s));
              on_time = λ s. absurd (ground (arith, sym n ∙ s));
              reported = λ o. (f, r f o);
            },
          )
    by_flag (inr f) =
        subst
          (λ x.
            ControllerInv wall'
              (if x then halting wall' e c else close_run true (halting wall' e c)))
          (sym f)
          (
            omega arith,
            record {
              plan = d.plan;
              loaded = d.loaded;
              phases = phases-stop (now_t_us c wall') e ∙ d.phases;
              stage = g;
              main = sym n;
              lead = λ m x. absurd (none-ne-some m x);
              unfinished = λ s. absurd (ground (arith, sym n ∙ s));
              on_time = λ s. absurd (ground (arith, sym n ∙ s));
              reported = λ o. (refl, refl);
            },
          )

pub stop_run-Inv :
    (wall wall' : ℕ) (c : Controller) (o : Option RunEngine)
    → wall ≤ wall'
    → ControllerInv wall c
    → c.engine ≡ o
    → ControllerInv wall' (stop_run wall' o c)
unfolding stop_run
stop_run-Inv wall wall' c none l h q = later-Inv wall wall' c l q h
stop_run-Inv wall wall' c (some e) l h q =
    let d : Drives wall c e = subst (EngineInv wall c) q h.1 in
    by_run d (stop-Cut_or_still (now_t_us c wall') e d.stage (later_on wall wall' c e l h.0 d))
  where
    k : RunEngine
    k = stop (now_t_us c wall') e

    by_run :
        Drives wall c e
        → ((is_running e.status ≡ false) × (k ≡ record e { now_t_us_last = now_t_us c wall' }))
          ⊎ ((i : ℕ) × (t : ℕ) × (is_running e.status ≡ true) × Cut k i t)
        → ControllerInv wall' (finish_run true (halting wall' e c))
    by_run d (inl (n, x)) =
        finish_stopped-Inv wall wall' c e l h.0 d
          (subst Stage (sym x) (later_still e (now_t_us c wall') n d.stage))
          (ap (λ y. is_running y.status) x ∙ n)
          (λ f o.
            subst (λ y. LastAnalyzed y c.analyses) (sym x)
              (d.reported (ap (λ y. is_over y.status) (sym x) ∙ o)).1)
    by_run d (inr (i, t, r, x)) =
        finish_stopped-Inv wall wall' c e l h.0 d (cut i t x) (ap is_running x.status)
          (λ f o. absurd (ground (arith, sym f ∙ d.unfinished r)))

pub start_run-Inv :
    (wall wall' : ℕ) (c : Controller) (o : Option LogbookScenario)
    → wall ≤ wall'
    → ControllerInv wall c
    → c.scenario ≡ o
    → ControllerInv wall' (start_run o c)
unfolding start_run publish
start_run-Inv wall wall' c (some s) l h q =
    (omega (arith, h.0), created-Drives wall' (start_run (some s) c) s q refl)
start_run-Inv wall wall' c none l h q = by_engine (Option-cases c.engine)
  where
    by_engine : (c.engine ≡ none) ⊎ ((e : RunEngine) × (c.engine ≡ some e)) → ControllerInv wall' c
    by_engine (inl x) = later-Inv wall wall' c l x h
    by_engine (inr (e, x)) =
        let d : Drives wall c e = subst (EngineInv wall c) x h.1 in
        absurd (none-ne-some d.plan (sym q ∙ d.loaded))

counting_down-Drives :
    (wall wall' n : ℕ) (c : Controller) (e : RunEngine) (k : CueState) (u : RunUiState)
    (m : Option ℕ)
    → c.lead_timer ≡ some n
    → Drives wall c e
    → Drives wall' (record c { lead_timer = m; cue = k; ui = u }) e
counting_down-Drives wall wall' n c e k u m q d =
    let rests_now : is_running e.status ≡ false = ap is_running (d.lead n q) in
    record {
      plan = d.plan;
      loaded = d.loaded;
      phases = d.phases;
      stage = d.stage;
      main = d.main;
      lead = λ j x. d.lead n q;
      unfinished = d.unfinished;
      on_time = λ r. absurd (ground (arith, sym rests_now ∙ r));
      reported = d.reported;
    }

pub lead-Inv :
    (wall wall' max_t_us n : ℕ) (c : Controller)
    → wall ≤ wall'
    → ControllerInv wall c
    → c.lead_timer ≡ some n
    → ControllerInv wall' (lead wall' max_t_us n c)
unfolding lead publish
lead-Inv wall wall' max_t_us n c l h q = by_engine (Option-cases c.engine)
  where
    waits : Controller
    waits =
        publish (waiting_ui ui_leadin (n - 1))
          (record c { lead_timer = some (n - 1); cue = play lead_in_beep c.cue })

    by_count :
        (e : RunEngine)
        → c.engine ≡ some e
        → Drives wall c e
        → (b : Bool)
        → ControllerInv wall' (
            if b then waits else begin_run wall' max_t_us c.engine (record c { lead_timer = none }))
    by_count e x d true = (
      omega (arith, h.0),
      subst (EngineInv wall' waits) (sym x)
          (counting_down-Drives wall wall' n c e waits.cue waits.ui (some (n - 1)) q d),
    )
    by_count e x d false =
        subst
          (λ o. ControllerInv wall' (begin_run wall' max_t_us o (record c { lead_timer = none })))
          (sym x)
          (begin_run-Inv wall wall' max_t_us (record c { lead_timer = none }) e refl
            (counting_down-Drives wall wall n c e c.cue c.ui none q d))

    by_engine :
        (c.engine ≡ none) ⊎ ((e : RunEngine) × (c.engine ≡ some e))
        → ControllerInv wall' (lead wall' max_t_us n c)
    by_engine (inl x) =
        let i = subst (EngineInv wall c) x h.1 in absurd (none-ne-some n (sym i.1 ∙ q))
    by_engine (inr (e, x)) = by_count e x (subst (EngineInv wall c) x h.1) (leb 1 (n - 1))
