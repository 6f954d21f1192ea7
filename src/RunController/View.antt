-- ===== src/RunController/View.antt =====
-- What the controller shows of its engine (frontend/cockpit/src/logbook/runController.ts).
use Prim.Native.String.{String}
use discodb.Prelude.{
  ℕ, ◌+◌, ◌-◌, Bool, true, false, List, [], length, get_elem?, Option, none, some,
}
use discodb.RunEngine.Defs.{
  LogbookRunPhase, RunWindow, RunStatus, idle, running, done, stopped, RunEngine, RunState, state,
}

pub data RunUiStatus : Type 0 where
  ui_idle ui_armed ui_leadin ui_running ui_done ui_stopped : RunUiStatus

pub record RunUiState : Type 0 where
  pub status : RunUiStatus
  pub lead_in : ℕ
  pub phase : Option LogbookRunPhase
  pub phase_index : Option ℕ
  pub total_phases : ℕ
  pub elapsed_us : ℕ
  pub remaining_us : ℕ
  pub awaiting_input : Bool
  pub rep : ℕ
  pub next_label : String
  pub windows : List RunWindow

-- `IDLE`
abbrev pub idle_ui : RunUiState
idle_ui = record {
  status = ui_idle;
  lead_in = 0;
  phase = none;
  phase_index = none;
  total_phases = 0;
  elapsed_us = 0;
  remaining_us = 0;
  awaiting_input = false;
  rep = 0;
  next_label = "";
  windows = [];
}

abbrev pub ui_of : RunStatus → RunUiStatus
ui_of idle = ui_idle
ui_of running = ui_running
ui_of done = ui_done
ui_of stopped = ui_stopped

abbrev pub remaining : Option LogbookRunPhase → Bool → ℕ → ℕ
remaining none awaiting elapsed = 0
remaining (some p) true elapsed = 0
remaining (some p) false elapsed = p.duration_us - elapsed

abbrev pub name_of : Option LogbookRunPhase → String
name_of none = "finish"
name_of (some p) = p.name

abbrev pub next_of : List LogbookRunPhase → Option ℕ → String
next_of phases none = "finish"
next_of phases (some i) = name_of (get_elem? phases (i + 1))

abbrev pub rep_of : Option LogbookRunPhase → ℕ
rep_of none = 0
rep_of (some p) = p.rep

-- What `publish` shows of an engine's state.
unfoldable pub ui_state : List LogbookRunPhase → RunState → RunUiState
ui_state phases st = record {
  status = ui_of st.status;
  lead_in = 0;
  phase = st.phase;
  phase_index = st.phase_index;
  total_phases = length phases;
  elapsed_us = st.elapsed_us;
  remaining_us = remaining st.phase st.awaiting_input st.elapsed_us;
  awaiting_input = st.awaiting_input;
  rep = rep_of st.phase;
  next_label = next_of phases st.phase_index;
  windows = st.windows;
}

abbrev pub shown : Option RunEngine → List LogbookRunPhase → RunUiState
shown none phases = idle_ui
shown (some e) phases = ui_state phases (state e)

-- The extra of `arm` and of the lead-in.
abbrev pub waiting_ui : RunUiStatus → ℕ → RunUiState → RunUiState
waiting_ui s n u = record u { status = s; lead_in = n; phase = none; phase_index = none }
