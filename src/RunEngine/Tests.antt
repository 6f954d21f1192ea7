-- ===== src/RunEngine/Tests.antt =====
-- A storyboard of five phases, the third and the fourth in a loop of one and the third confirmed by
-- the operator, run with late ticks (frontend/cockpit/src/logbook/runEngine.ts).
use discodb.Prelude.{some, ℕ, ◌∷◌, [], length, some, refl, ◌≡◌, false, arith}
use discodb.RunEngine.Defs.{
  LogbookPhase, baseline, noise, wait, stimulus, recover, LogbookStep, LogbookScenario, by_timer,
  by_input, RunEngine, scenario_phases, create_run_engine, current, awaiting, start, tick, confirm,
  stop, stamp, advance_phase, tick_loop, state, result, is_due, unroll, trend, trend_kind,
}
use discodb.RunEngine.Windows.{Stage}
use discodb.RunEngine.Runs.{started, ticked, halted, EndsAt, RunOf, created, called, RunOf-Stage}
use discodb.RunEngine.CatchUp.{tick-settles, tick-tick}

abbrev timer : LogbookPhase → ℕ → LogbookStep
timer p us = record { phase = p; name = "step"; duration_us = us; advance = by_timer }

abbrev storyboard : LogbookScenario
storyboard = record {
  expected_type = some trend;
  baseline_step = timer baseline 10;
  noise_step = timer noise 5;
  wait_step = record { phase = wait; name = "ready?"; duration_us = 0; advance = by_input };
  loop = record { count = 1; steps = timer stimulus 7 ∷ [] };
  recover_step = timer recover 4;
}

abbrev begun : RunEngine
begun = start 100 (create_run_engine storyboard)

abbrev at_input : RunEngine
at_input = tick 130 begun

abbrev ended : RunEngine
ended = tick 200 (confirm 140 at_input)

test_phases : length (scenario_phases storyboard) ≡ 5
unfolding scenario_phases unroll
test_phases = refl

test_at_input : at_input.phase_index ≡ some 2
unfolding create_run_engine scenario_phases unroll start tick current advance_phase stamp tick_loop
test_at_input = refl

test_waiting : (state at_input).elapsed_us ≡ 15
unfolding create_run_engine scenario_phases unroll start tick current advance_phase stamp tick_loop
    state
test_waiting = refl

test_ended :
    ended.windows
    ≡ record { role = baseline; start_t_us = 100; end_t_us = 110; rep = 0 }
      ∷ (record { role = noise; start_t_us = 110; end_t_us = 115; rep = 0 }
          ∷ (record { role = wait; start_t_us = 115; end_t_us = 140; rep = 0 }
              ∷ (record { role = stimulus; start_t_us = 140; end_t_us = 147; rep = 1 }
                  ∷ (record { role = recover; start_t_us = 147; end_t_us = 151; rep = 0 } ∷ []))))
unfolding create_run_engine scenario_phases unroll start tick current advance_phase stamp tick_loop
    confirm awaiting
test_ended = refl

test_result : (result ended).1 ≡ trend_kind
unfolding create_run_engine scenario_phases unroll start tick current advance_phase stamp tick_loop
    confirm awaiting result
test_result = refl

begun-RunOf : RunOf storyboard begun
unfolding create_run_engine
begun-RunOf = called created (started (create_run_engine storyboard) 100 (omega arith))

at_input-RunOf : RunOf storyboard at_input
unfolding start
at_input-RunOf = called begun-RunOf (ticked begun 130 (omega arith))

-- Stopped at 135, and ticked again after that.
stopped_early-RunOf : RunOf storyboard (tick 150 (stop 135 at_input))
unfolding create_run_engine scenario_phases unroll start tick current advance_phase stamp tick_loop
    stop
stopped_early-RunOf =
    called (called at_input-RunOf (halted at_input 135 (omega arith)))
      (ticked (stop 135 at_input) 150 (omega arith))

RunOf-Stage_example :
    ((tick 150 (stop 135 at_input)).phases ≡ scenario_phases storyboard)
    × Stage (tick 150 (stop 135 at_input))
    × EndsAt (tick 150 (stop 135 at_input)) (some 135)
unfolding create_run_engine scenario_phases unroll start tick current advance_phase stamp tick_loop
    stop stopped_early-RunOf
RunOf-Stage_example = RunOf-Stage stopped_early-RunOf

tick-settles_example :
    is_due (current (tick 130 begun)) (tick 130 begun).phase_start_t_us 130 ≡ false
unfolding start
tick-settles_example = tick-settles 130 begun-RunOf (omega arith)

tick-tick_example : tick 130 (tick 112 begun) ≡ tick 130 begun
unfolding start
tick-tick_example = tick-tick 112 130 begun-RunOf (omega arith) (omega arith)
