-- ===== src/RunController/Defs.antt =====
-- The state of the controller and its operations (frontend/cockpit/src/logbook/runController.ts).
use discodb.Prelude.{
  ℕ, ◌+◌, ◌-◌, Bool, true, false, List, [], ◌∷◌, Option, none, some, leb, if◌then◌else◌,
}
use discodb.RunEngine.Defs.{
  LogbookScenario, LogbookRunPhase, RunWindow, StimulusKind, RunStatus, done, RunEngine,
  scenario_phases, create_run_engine, state, start, tick, confirm, stop, result,
}
use discodb.RunController.Cues.{CueState, cues, play, connect, disconnect, lead_in_beep, voice}
use discodb.RunController.View.{
  RunUiState, idle_ui, shown, waiting_ui, ui_armed, ui_leadin, ui_running, ui_stopped,
}

-- The variables of the closure. `lead_timer` is the count of a pending lead-in, and `analyses` are
-- the runs handed to the analysis, the last one first.
pub record Controller : Type 0 where
  pub engine : Option RunEngine
  pub scenario : Option LogbookScenario
  pub phases : List LogbookRunPhase
  pub main_timer : Bool
  pub lead_timer : Option ℕ
  pub base_t_us : ℕ
  pub base_wall : ℕ
  pub finished : Bool
  pub cue : CueState
  pub ui : RunUiState
  pub analyses : List (List RunWindow × StimulusKind)

abbrev pub new_controller : Controller
new_controller = record {
  engine = none;
  scenario = none;
  phases = [];
  main_timer = false;
  lead_timer = none;
  base_t_us = 0;
  base_wall = 0;
  finished = false;
  cue = record {
    last_index = none;
    last_countdown_sec = 99;
    next_await_at = 0;
    was_awaiting = false;
    sounds = [];
  };
  ui = idle_ui;
  analyses = [];
}

abbrev pub now_t_us : Controller → ℕ → ℕ
now_t_us c wall = c.base_t_us + (wall - c.base_wall)

abbrev pub clear_timers : Controller → Controller
clear_timers c = record c { main_timer = false; lead_timer = none }

-- `publish`; the fields that it is given replace those of the engine's state.
unfoldable pub publish : (RunUiState → RunUiState) → Controller → Controller
publish extra c = record c { ui = extra (shown c.engine c.phases) }

abbrev pub no_extra : RunUiState → RunUiState
no_extra u = u

abbrev pub analyzed :
    Option RunEngine → List (List RunWindow × StimulusKind) → List (List RunWindow × StimulusKind)
analyzed none as_ = as_
analyzed (some e) as_ = result e ∷ as_

-- What `finish` does the first time.
unfoldable pub close_run : Bool → Controller → Controller
unfolding publish
close_run aborted c =
    let quiet = play (voice none) c.cue in
    let c' = record (clear_timers c) {
      finished = true;
      cue = if aborted then quiet else play disconnect quiet;
      analyses = analyzed c.engine c.analyses;
    } in
    if aborted then publish (λ u. record u { status = ui_stopped }) c' else c'

-- `finish('done')`, and `finish('stopped')` where `aborted`.
unfoldable pub finish_run : Bool → Controller → Controller
unfolding close_run
finish_run aborted c = if c.finished then c else close_run aborted c

abbrev pub is_done : RunStatus → Bool
is_done done = true
is_done _ = false

-- What `loop` and `next` do once the engine has moved on.
unfoldable pub follow : ℕ → ℕ → RunEngine → Controller → Controller
unfolding publish finish_run
follow wall gap e c =
    let c' = publish no_extra (record c { engine = some e; cue = cues wall gap (state e) c.cue }) in
    if is_done e.status then finish_run false c' else c'

unfoldable pub loop : ℕ → ℕ → Option RunEngine → Controller → Controller
unfolding follow
loop wall gap none c = c
loop wall gap (some e) c = follow wall gap (tick (now_t_us c wall) e) c

unfoldable pub next : ℕ → ℕ → Option RunEngine → Controller → Controller
unfolding follow
next wall gap none c = c
next wall gap (some e) c = follow wall gap (confirm (now_t_us c wall) e) c

-- `beginRun`; `max_t_us` is the latest frame time of the store.
unfoldable pub begin_run : ℕ → ℕ → Option RunEngine → Controller → Controller
unfolding publish
begin_run wall max_t_us none c = c
begin_run wall max_t_us (some e) c =
    publish (λ u. record u { status = ui_running })
      (record c {
        engine = some (start max_t_us e);
        main_timer = true;
        base_t_us = max_t_us;
        base_wall = wall;
        finished = false;
        cue =
            play connect
              (record c.cue { last_index = some 0; last_countdown_sec = 99; was_awaiting = false });
      })

unfoldable pub arm : LogbookScenario → Controller → Controller
unfolding publish
arm s c = publish (waiting_ui ui_armed 0) (record (clear_timers c) {
  engine = some (create_run_engine s);
  scenario = some s;
  phases = scenario_phases s;
  finished = false;
  cue = record (play (voice none) c.cue) {
    last_index = none;
    last_countdown_sec = 99;
    was_awaiting = false;
  };
})

unfoldable pub start_run : Option LogbookScenario → Controller → Controller
unfolding publish
start_run none c = c
start_run (some s) c = publish (waiting_ui ui_leadin 3) (record (clear_timers c) {
  engine = some (create_run_engine s);
  phases = scenario_phases s;
  lead_timer = some 3;
  finished = false;
  cue = play lead_in_beep (play (voice none) c.cue);
})

-- The callback of the lead-in, `n` being its count before it.
unfoldable pub lead : ℕ → ℕ → ℕ → Controller → Controller
unfolding publish begin_run
lead wall max_t_us n c =
    if leb 1 (n - 1)
    then publish (waiting_ui ui_leadin (n - 1))
        (record c { lead_timer = some (n - 1); cue = play lead_in_beep c.cue })
    else begin_run wall max_t_us c.engine (record c { lead_timer = none })

unfoldable pub stop_run : ℕ → Option RunEngine → Controller → Controller
unfolding publish finish_run
stop_run wall none c = c
stop_run wall (some e) c = finish_run true (
    publish (λ u. record u { status = ui_stopped })
      (record (clear_timers c) {
        engine = some (stop (now_t_us c wall) e);
        cue = play (voice none) c.cue;
      }))

-- The end of a controller, after which nothing calls it; the audio is outside.
unfoldable pub dispose : Controller → Controller
dispose c = clear_timers c
