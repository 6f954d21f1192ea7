-- ===== src/RunController/Tests.antt =====
-- A short storyboard, begun after the lead-in and left to its timers
-- (frontend/cockpit/src/logbook/runController.ts).
use discodb.Prelude.{ℕ, ◌∷◌, [], true, false, length, none, refl, ◌≡◌, arith}
use discodb.RunEngine.Defs.{
  LogbookPhase, baseline, noise, wait, stimulus, recover, LogbookStep, LogbookScenario, by_timer,
  create_run_engine, scenario_phases, unroll, start, tick, tick_loop, current, advance_phase, stamp,
}
use discodb.RunController.Defs.{
  Controller, new_controller, arm, start_run, lead, begin_run, publish, loop, follow, finish_run,
  close_run,
}
use discodb.RunController.Invariant.{ControllerInv}
use discodb.RunController.Reach.{
  Reachable, created, armed, started, led, looped, Reachable-ControllerInv,
}

abbrev timer : LogbookPhase → ℕ → LogbookStep
timer p us = record { phase = p; name = "step"; duration_us = us; advance = by_timer }

abbrev storyboard : LogbookScenario
storyboard = record {
  expected_type = none;
  baseline_step = timer baseline 10;
  noise_step = timer noise 5;
  wait_step = timer wait 5;
  loop = record { count = 1; steps = timer stimulus 7 ∷ [] };
  recover_step = timer recover 4;
}

abbrev loaded : Controller
loaded = arm storyboard new_controller

abbrev counting : Controller
counting = start_run loaded.scenario loaded

abbrev two_left : Controller
two_left = lead 1000 500 3 counting

abbrev one_left : Controller
one_left = lead 2000 500 2 two_left

abbrev begun : Controller
begun = lead 3000 500 1 one_left

abbrev over : Controller
over = loop 3100 0 begun.engine begun

test_begun : begun.main_timer ≡ true
unfolding arm start_run lead begin_run publish
test_begun = refl

test_over : over.main_timer ≡ false
unfolding arm start_run lead begin_run publish loop follow finish_run close_run tick tick_loop start
    current advance_phase stamp create_run_engine scenario_phases unroll
test_over = refl

test_analyzed : length over.analyses ≡ 1
unfolding arm start_run lead begin_run publish loop follow finish_run close_run tick tick_loop start
    current advance_phase stamp create_run_engine scenario_phases unroll
test_analyzed = refl

begun-Reachable : Reachable 3000 begun
unfolding arm start_run lead publish
begun-Reachable =
    led 3000 500 1
      (led 2000 500 2
        (led 1000 500 3 (started 0 (armed 0 storyboard (created 0) (omega arith)) (omega arith))
          (omega arith) refl)
        (omega arith) refl)
      (omega arith) refl

Reachable-ControllerInv_example : ControllerInv 3100 over
unfolding arm start_run lead begin_run publish
Reachable-ControllerInv_example =
    Reachable-ControllerInv (looped 3100 0 begun-Reachable (omega arith) refl)
