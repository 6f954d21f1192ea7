-- ===== src/RunEngine/Runs.antt =====
-- The windows of a run, however it is driven (frontend/cockpit/src/logbook/runEngine.ts).
use discodb.Prelude.{
  Bool, true, false, Option, none, some, ◌⊎◌, inl, inr, ap, if◌then◌else◌, ℕ, ◌+◌, ◌≤◌, ◌<◌, ◌≡◌,
  refl, sym, subst, ◌∙◌, length, arith,
}
use discodb.RunEngine.Defs.{
  RunStatus, stopped, is_running, LogbookScenario, RunEngine, scenario_phases, create_run_engine,
  stamp, advance_phase, start, tick, confirm, stop,
}
use discodb.RunEngine.Windows.{At, Complete, Cut, Stage, fresh}
use discodb.RunEngine.Calls.{
  runs, later-Cut, tick-At, tick-still, confirm-At, confirm-still, stop-Cut, stop-still,
  start-Stage, tick-Stage, confirm-Stage, stop-Stage, phases-tick_loop, scenario_phases-pos,
}

-- A call of the engine, at a time that is not before the last one.
pub data EngineStep : RunEngine → RunEngine → Type 0 where
  started : (e : RunEngine) (now : ℕ) → e.now_t_us_last ≤ now → EngineStep e (start now e)
  ticked : (e : RunEngine) (now : ℕ) → e.now_t_us_last ≤ now → EngineStep e (tick now e)
  confirmed : (e : RunEngine) (now : ℕ) → e.now_t_us_last ≤ now → EngineStep e (confirm now e)
  halted : (e : RunEngine) (now : ℕ) → e.now_t_us_last ≤ now → EngineStep e (stop now e)

pub data RunOf (s : LogbookScenario) : RunEngine → Type 0 where
  created : RunOf s (create_run_engine s)
  called : {e k : RunEngine} → RunOf s e → EngineStep e k → RunOf s k

EngineStep-phases : {e k : RunEngine} → EngineStep e k → k.phases ≡ e.phases
unfolding start tick confirm stop stamp advance_phase
EngineStep-phases (started e now l) = refl
EngineStep-phases (ticked e now l) =
    phases-tick_loop (length e.phases + 1) now (record e { now_t_us_last = now })
EngineStep-phases (confirmed e now l) = ground arith
EngineStep-phases (halted e now l) = ground arith

EngineStep-Stage : {e k : RunEngine} → EngineStep e k → 0 < length e.phases → Stage e → Stage k
EngineStep-Stage (started e now l) p h = start-Stage e now p
EngineStep-Stage (ticked e now l) p h = tick-Stage e now l h
EngineStep-Stage (confirmed e now l) p h = confirm-Stage e now l h
EngineStep-Stage (halted e now l) p h = stop-Stage e now l h

-- When the run under way was stopped, if it was: a call that stops a run sets the time, and a call
-- that starts one clears it.
abbrev pub stop_time : {e k : RunEngine} → EngineStep e k → Option ℕ → Option ℕ
stop_time (started e now l) o = none
stop_time (ticked e now l) o = o
stop_time (confirmed e now l) o = o
stop_time (halted e now l) o = if is_running e.status then some now else o

abbrev pub stopped_at : {s : LogbookScenario} {e : RunEngine} → RunOf s e → Option ℕ
stopped_at created = none
stopped_at (called r st) = stop_time st (stopped_at r)

abbrev pub is_stopped : RunStatus → Bool
is_stopped stopped = true
is_stopped _ = false

-- The run of the engine was stopped at this time, which is the end of its last window; or it was
-- not stopped.
abbrev pub EndsAt : RunEngine → Option ℕ → Type 0
EndsAt e none = is_stopped e.status ≡ false
EndsAt e (some now) = (i : ℕ) × (t : ℕ) × (c : Cut e i t) × (c.end_t_us ≡ now)

-- A call on an engine that is not running leaves the end of its run.
later-EndsAt :
    (e : RunEngine) (now : ℕ) (o : Option ℕ)
    → EndsAt e o
    → EndsAt (record e { now_t_us_last = now }) o
later-EndsAt e now none h = h
later-EndsAt e now (some n) (i, t, c, r) =
    let (d, same) = later-Cut e now i t c in (i, t, d, same ∙ r)

-- A run under way was not stopped, and a call that goes on with it or completes it does not stop it.
run-EndsAt :
    (e k : RunEngine) (i t : ℕ) (o : Option ℕ)
    → At e i t
    → ((j : ℕ) × At k j t) ⊎ Complete k t
    → EndsAt e o
    → EndsAt k o
run-EndsAt e k i t none a (inl (j, b)) h = ap is_stopped b.status
run-EndsAt e k i t none a (inr b) h = ap is_stopped b.status
run-EndsAt e k i t (some n) a b (j, u, c, r) =
    absurd (ground (arith, ap is_running (sym a.status ∙ c.status)))

EngineStep-EndsAt :
    {e k : RunEngine} (st : EngineStep e k) (o : Option ℕ)
    → Stage e
    → EndsAt e o
    → EndsAt k (stop_time st o)
unfolding start
EngineStep-EndsAt (started e now l) o h n = refl
EngineStep-EndsAt (ticked e now l) o h n = elim (runs e h) [
  | inl still ↦ subst (λ k. EndsAt k o) (sym (tick-still e now still)) (later-EndsAt e now o n)
  | inr (i, t, a) ↦ run-EndsAt e (tick now e) i t o a (tick-At e now i t l a) n
]
EngineStep-EndsAt (confirmed e now l) o h n = elim (runs e h) [
  | inl still ↦ subst (λ k. EndsAt k o) (sym (confirm-still e now still)) (later-EndsAt e now o n)
  | inr (i, t, a) ↦ run-EndsAt e (confirm now e) i t o a (confirm-At e now i t l a) n
]
EngineStep-EndsAt (halted e now l) o h n = elim (runs e h) [
  | inl still ↦
      subst (λ b. EndsAt (stop now e) (if b then some now else o)) (sym still)
        (subst (λ k. EndsAt k o) (sym (stop-still e now still)) (later-EndsAt e now o n))
  | inr (i, t, a) ↦
      subst (λ b. EndsAt (stop now e) (if b then some now else o)) (sym (ap is_running a.status))
        (let (c, ends) = stop-Cut e now i t l a in (i, t, c, ends))
]

-- However the engine of a scenario is driven, as long as its clock does not run backwards, the
-- windows it has stamped are those of the first phases of the scenario, in order and without gaps;
-- all of them when the run is done. The window of a timer phase lasts exactly its duration, however
-- late the ticks come. A run that was stopped has one more, which ends at the time of the call that
-- stopped it, whatever is called after that short of another start.
pub RunOf-Stage :
    {s : LogbookScenario} {e : RunEngine}
    → (r : RunOf s e) → (e.phases ≡ scenario_phases s) × Stage e × EndsAt e (stopped_at r)
unfolding create_run_engine
RunOf-Stage {s} created = (refl, fresh (record { status = refl; windows = refl }), refl)
RunOf-Stage {s} (called {e} r st) =
    let (same, stage, ends) = RunOf-Stage r in
    (
      EngineStep-phases st ∙ same,
      EngineStep-Stage st (subst (λ ps. 0 < length ps) (sym same) (scenario_phases-pos s)) stage,
      EngineStep-EndsAt st (stopped_at r) stage ends,
    )
