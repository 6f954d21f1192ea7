-- ===== src/RunEngine/Defs.antt =====
-- The scenario (frontend/cockpit/src/protocol/datamodel.ts) and the engine that runs it
-- (frontend/cockpit/src/logbook/runEngine.ts).
use Prim.Native.String.{String}
use discodb.Prelude.{
  ℕ, zero, suc, ◌+◌, ◌-◌, Bool, true, false, ◌&&◌, List, [], ◌∷◌, ◌++◌, length, get_elem?, Option,
  none, some, leb, if◌then◌else◌,
}

pub data LogbookPhase : Type 0 where
  baseline noise wait stimulus observe recover : LogbookPhase

pub data Advance : Type 0 where
  by_timer by_input : Advance

pub record LogbookStep : Type 0 where
  pub phase : LogbookPhase
  pub name : String
  pub duration_us : ℕ
  pub advance : Advance

pub record LogbookLoop : Type 0 where
  pub count : ℕ
  pub steps : List LogbookStep

pub data ExpectedType : Type 0 where
  pulse level trend auto : ExpectedType

-- Without what the engine does not read: the labels of the scenario, and whether its objective is
-- fulfilled.
pub record LogbookScenario : Type 0 where
  pub expected_type : Option ExpectedType
  pub baseline_step : LogbookStep
  pub noise_step : LogbookStep
  pub wait_step : LogbookStep
  pub loop : LogbookLoop
  pub recover_step : LogbookStep

pub record LogbookRunPhase : Type 0 where
  pub phase : LogbookPhase
  pub name : String
  pub duration_us : ℕ
  pub advance : Advance
  pub rep : ℕ

-- `push` of `scenarioPhases`
abbrev pub phase_of : ℕ → LogbookStep → LogbookRunPhase
phase_of rep st = record {
  phase = st.phase;
  name = st.name;
  duration_us = st.duration_us;
  advance = st.advance;
  rep = rep;
}

abbrev pub phases_of : ℕ → List LogbookStep → List LogbookRunPhase
phases_of rep [] = []
phases_of rep (st ∷ steps) = phase_of rep st ∷ phases_of rep steps

-- The loop over `r`, for `n` repetitions.
unfoldable pub unroll : List LogbookStep → ℕ → ℕ → List LogbookRunPhase
unroll steps r zero = []
unroll steps r (suc n) = phases_of r steps ++ unroll steps (r + 1) n

unfoldable pub scenario_phases : LogbookScenario → List LogbookRunPhase
scenario_phases s =
    phase_of 0 s.baseline_step
    ∷ (phase_of 0 s.noise_step
        ∷ (phase_of 0 s.wait_step
            ∷ (unroll s.loop.steps 1 s.loop.count ++ (phase_of 0 s.recover_step ∷ []))))

pub record RunWindow : Type 0 where
  pub role : LogbookPhase
  pub start_t_us : ℕ
  pub end_t_us : ℕ
  pub rep : ℕ

pub data RunStatus : Type 0 where
  idle running done stopped : RunStatus

pub data StimulusKind : Type 0 where
  event_kind trend_kind : StimulusKind

pub record RunEngine : Type 0 where
  pub phases : List LogbookRunPhase
  pub stimulus_kind : StimulusKind
  pub status : RunStatus
  pub phase_index : Option ℕ
  pub phase_start_t_us : ℕ
  pub now_t_us_last : ℕ
  pub windows : List RunWindow

abbrev pub kind_of : Option ExpectedType → StimulusKind
kind_of (some trend) = trend_kind
kind_of _ = event_kind

unfoldable pub create_run_engine : LogbookScenario → RunEngine
create_run_engine s = record {
  phases = scenario_phases s;
  stimulus_kind = kind_of s.expected_type;
  status = idle;
  phase_index = none;
  phase_start_t_us = 0;
  now_t_us_last = 0;
  windows = [];
}

abbrev pub is_running : RunStatus → Bool
is_running running = true
is_running _ = false

-- `phases[phaseIndex]`, which is undefined out of range.
abbrev pub phase_at : List LogbookRunPhase → Option ℕ → Option LogbookRunPhase
phase_at phases none = none
phase_at phases (some i) = get_elem? phases i

-- `cur`
unfoldable pub current : RunEngine → Option LogbookRunPhase
current e = if is_running e.status then phase_at e.phases e.phase_index else none

abbrev pub is_input : Advance → Bool
is_input by_input = true
is_input by_timer = false

abbrev pub awaits : Option LogbookRunPhase → Bool
awaits none = false
awaits (some p) = is_input p.advance

unfoldable pub awaiting : RunEngine → Bool
unfolding current
awaiting e = awaits (current e)

abbrev pub window_of : LogbookRunPhase → ℕ → ℕ → RunWindow
window_of p start end_ = record { role = p.phase; start_t_us = start; end_t_us = end_; rep = p.rep }

abbrev pub stamped : Option LogbookRunPhase → ℕ → ℕ → List RunWindow → List RunWindow
stamped none start end_ ws = ws
stamped (some p) start end_ ws = ws ++ (window_of p start end_ ∷ [])

unfoldable pub stamp : ℕ → RunEngine → RunEngine
stamp end_ e = record e {
  windows = stamped (phase_at e.phases e.phase_index) e.phase_start_t_us end_ e.windows;
}

-- `phaseIndex + 1`
abbrev pub next_index : Option ℕ → ℕ
next_index none = 0
next_index (some i) = i + 1

unfoldable pub advance_phase : ℕ → RunEngine → RunEngine
unfolding stamp
advance_phase end_ e =
    let e' = stamp end_ e in
    let i = next_index e.phase_index in
    if leb (length e.phases) i
    then record e' { status = done; phase_index = none; phase_start_t_us = end_ }
    else record e' { phase_index = some i; phase_start_t_us = end_ }

pub record RunState : Type 0 where
  pub status : RunStatus
  pub phase_index : Option ℕ
  pub phase : Option LogbookRunPhase
  pub elapsed_us : ℕ
  pub awaiting_input : Bool
  pub windows : List RunWindow

abbrev pub elapsed : Option LogbookRunPhase → ℕ → ℕ → ℕ
elapsed none now start = 0
elapsed (some p) now start = now - start

-- `state`; the elapsed time is in µs, and 0 where the clock is behind the phase's start.
unfoldable pub state : RunEngine → RunState
state e = record {
  status = e.status;
  phase_index = if is_running e.status then e.phase_index else none;
  phase = current e;
  elapsed_us = elapsed (current e) e.now_t_us_last e.phase_start_t_us;
  awaiting_input = awaiting e;
  windows = e.windows;
}

unfoldable pub start : ℕ → RunEngine → RunEngine
start now e = record e {
  windows = [];
  status = running;
  phase_index = some 0;
  phase_start_t_us = now;
  now_t_us_last = now;
}

-- What the loop of `tick` does next, given its current phase.
abbrev pub is_due : Option LogbookRunPhase → ℕ → ℕ → Bool
is_due none start now = false
is_due (some p) start now = if is_input p.advance then false else leb (start + p.duration_us) now

abbrev pub end_of : Option LogbookRunPhase → ℕ → ℕ
end_of none start = start
end_of (some p) start = start + p.duration_us

-- The loop of `tick`, for `guard` rounds at most.
unfoldable pub tick_loop : ℕ → ℕ → RunEngine → RunEngine
tick_loop zero now e = e
tick_loop (suc guard) now e =
    let p = current e in
    let rest = tick_loop guard now (advance_phase (end_of p e.phase_start_t_us) e) in
    if is_due p e.phase_start_t_us now then rest else e

unfoldable pub tick : ℕ → RunEngine → RunEngine
tick now e = tick_loop (length e.phases + 1) now (record e { now_t_us_last = now })

unfoldable pub confirm : ℕ → RunEngine → RunEngine
unfolding awaiting
confirm now e =
    let e' = record e { now_t_us_last = now } in
    if is_running e.status && awaiting e then advance_phase now e' else e'

unfoldable pub stop : ℕ → RunEngine → RunEngine
unfolding stamp
stop now e =
    let e' = record e { now_t_us_last = now } in
    if is_running e.status
    then record (stamp now e') { status = stopped; phase_index = none }
    else e'

unfoldable pub result : RunEngine → List RunWindow × StimulusKind
result e = (e.windows, e.stimulus_kind)
