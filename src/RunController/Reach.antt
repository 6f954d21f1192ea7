-- ===== src/RunController/Reach.antt =====
-- The controllers that operators and timers lead to
-- (frontend/cockpit/src/logbook/runController.ts).
use discodb.Prelude.{ℕ, ◌≤◌, ◌≡◌, refl, true, some}
use discodb.RunEngine.Defs.{LogbookScenario}
use discodb.RunController.Defs.{
  Controller, new_controller, loop, next, arm, start_run, lead, stop_run,
}
use discodb.RunController.Invariant.{ControllerInv, new_controller-Inv, loop-Inv, next-Inv}
use discodb.RunController.Operations.{arm-Inv, stop_run-Inv, start_run-Inv, lead-Inv}

-- The controllers that operators and timers lead to, by the time of the last event. Only a pending
-- timer fires.
pub data Reachable : ℕ → Controller → Type 0 where
  created : (wall : ℕ) → Reachable wall new_controller
  armed :
      {wall : ℕ} {c : Controller} (wall' : ℕ) (s : LogbookScenario)
      → Reachable wall c
      → wall ≤ wall'
      → Reachable wall' (arm s c)
  started :
      {wall : ℕ} {c : Controller} (wall' : ℕ)
      → Reachable wall c
      → wall ≤ wall'
      → Reachable wall' (start_run c.scenario c)
  led :
      {wall : ℕ} {c : Controller} (wall' max_t_us n : ℕ)
      → Reachable wall c
      → wall ≤ wall'
      → c.lead_timer ≡ some n
      → Reachable wall' (lead wall' max_t_us n c)
  looped :
      {wall : ℕ} {c : Controller} (wall' gap : ℕ)
      → Reachable wall c
      → wall ≤ wall'
      → c.main_timer ≡ true
      → Reachable wall' (loop wall' gap c.engine c)
  confirmed :
      {wall : ℕ} {c : Controller} (wall' gap : ℕ)
      → Reachable wall c
      → wall ≤ wall'
      → Reachable wall' (next wall' gap c.engine c)
  halted :
      {wall : ℕ} {c : Controller} (wall' : ℕ)
      → Reachable wall c
      → wall ≤ wall'
      → Reachable wall' (stop_run wall' c.engine c)

-- However operators and timers drive a controller that is not disposed of, the main interval is armed exactly while its
-- engine runs, the lead-in is pending only before the engine starts, the engine plays the phases of
-- the scenario loaded and its windows are in step with them, and a run that is over has been handed
-- to the analysis, with its windows as they are. Without an engine nothing is armed or loaded.
pub Reachable-ControllerInv : {wall : ℕ} {c : Controller} → Reachable wall c → ControllerInv wall c
Reachable-ControllerInv (created wall) = new_controller-Inv wall
Reachable-ControllerInv (armed {wall} {c} wall' s r l) =
    arm-Inv wall wall' c s l (Reachable-ControllerInv r)
Reachable-ControllerInv (started {wall} {c} wall' r l) =
    start_run-Inv wall wall' c c.scenario l (Reachable-ControllerInv r) refl
Reachable-ControllerInv (led {wall} {c} wall' max_t_us n r l q) =
    lead-Inv wall wall' max_t_us n c l (Reachable-ControllerInv r) q
Reachable-ControllerInv (looped {wall} {c} wall' gap r l m) =
    loop-Inv wall wall' gap c c.engine l (Reachable-ControllerInv r) refl
Reachable-ControllerInv (confirmed {wall} {c} wall' gap r l) =
    next-Inv wall wall' gap c c.engine l (Reachable-ControllerInv r) refl
Reachable-ControllerInv (halted {wall} {c} wall' r l) =
    stop_run-Inv wall wall' c c.engine l (Reachable-ControllerInv r) refl
