-- ===== src/RunEngine/Calls.antt =====
-- Every call of the engine keeps its windows in step (frontend/cockpit/src/logbook/runEngine.ts).
use discodb.Prelude.{
  ℕ, zero, suc, ◌+◌, ◌≤◌, ◌<◌, ◌≡◌, ◌⊎◌, inl, inr, refl, sym, subst, ap, ap₂, ◌∙◌, true, false,
  ◌&&◌, length, get_elem?, Option, none, some, Bool-cases, if◌then◌else◌, arith,
}
use discodb.RunEngine.Defs.{
  LogbookRunPhase, LogbookScenario, by_timer, stopped, RunEngine, scenario_phases, is_running,
  phase_at, current, is_input, awaits, awaiting, stamped, stamp, advance_phase, end_of, start,
  tick_loop, tick, confirm, stop,
}
use discodb.RunEngine.Windows.{
  At, Complete, Stage, fresh, at, complete, Cut, cut, get_elem?-within, advance_phase-Stage,
}
use discodb.RunEngine.Ticks.{current-At, tick_loop-still, tick_loop-At}

pub from_At : (e : RunEngine) (t : ℕ) → ((j : ℕ) × At e j t) ⊎ Complete e t → Stage e
from_At e t (inl (j, a)) = at j t a
from_At e t (inr c) = complete t c

pub later-At :
    (e : RunEngine) (i t now : ℕ)
    → e.now_t_us_last ≤ now
    → At e i t
    → At (record e { now_t_us_last = now }) i t
later-At e i t now l h = record {
  status = h.status;
  index = h.index;
  within = h.within;
  entered = omega (arith, h.entered);
  follows = h.follows;
}

pub later-Cut :
    (e : RunEngine) (now i t : ℕ) (c : Cut e i t)
    → (d : Cut (record e { now_t_us_last = now }) i t) × (d.end_t_us ≡ c.end_t_us)
later-Cut e now i t c = (
  record {
    status = c.status;
    index = c.index;
    phase = c.phase;
    before = c.before;
    end_t_us = c.end_t_us;
    at = c.at;
    windows = c.windows;
    entered = c.entered;
    follows = c.follows;
  },
  refl,
)

-- The clock of an engine that is not running may be set at will.
pub later_still :
    (e : RunEngine) (now : ℕ)
    → is_running e.status ≡ false
    → Stage e
    → Stage (record e { now_t_us_last = now })
later_still e now n (fresh f) = fresh (record { status = f.status; windows = f.windows })
later_still e now n (at i t h) = absurd (ground (arith, sym n ∙ ap is_running h.status))
later_still e now n (complete t c) =
    complete t (record { status = c.status; index = c.index; follows = c.follows })
later_still e now n (cut i t c) = cut i t (later-Cut e now i t c).0

later :
    (e : RunEngine) (now : ℕ)
    → e.now_t_us_last ≤ now
    → Stage e
    → Stage (record e { now_t_us_last = now })
later e now l (at i t h) = at i t (later-At e i t now l h)
later e now l (fresh f) = later_still e now (ap is_running f.status) (fresh f)
later e now l (complete t c) = later_still e now (ap is_running c.status) (complete t c)
later e now l (cut i t c) = later_still e now (ap is_running c.status) (cut i t c)

-- Whether the run of a stage is under way.
pub runs :
    (e : RunEngine) → Stage e → (is_running e.status ≡ false) ⊎ ((i : ℕ) × (t : ℕ) × At e i t)
runs e (fresh f) = inl (ap is_running f.status)
runs e (at i t h) = inr (i, t, h)
runs e (complete t c) = inl (ap is_running c.status)
runs e (cut i t c) = inl (ap is_running c.status)

pub start-Stage : (e : RunEngine) (now : ℕ) → 0 < length e.phases → Stage (start now e)
unfolding start
start-Stage e now l =
    at 0 now
      (record { status = refl; index = refl; within = l; entered = omega arith; follows = refl })

pub tick-At :
    (e : RunEngine) (now i t : ℕ)
    → e.now_t_us_last ≤ now
    → At e i t
    → ((j : ℕ) × At (tick now e) j t) ⊎ Complete (tick now e) t
unfolding tick
tick-At e now i t l a =
    tick_loop-At (length e.phases + 1) now i t (record e { now_t_us_last = now }) refl
      (later-At e i t now l a)

-- The current phase, left or held by the operator.
pub confirm-At :
    (e : RunEngine) (now i t : ℕ)
    → e.now_t_us_last ≤ now
    → At e i t
    → ((j : ℕ) × At (confirm now e) j t) ⊎ Complete (confirm now e) t
unfolding confirm awaiting
confirm-At e now i t l a = by_phase (get_elem?-within e.phases i a.within)
  where
    e' : RunEngine
    e' = record e { now_t_us_last = now }

    Goal : RunEngine → Type 0
    Goal x = ((j : ℕ) × At x j t) ⊎ Complete x t

    by_hand : (p : LogbookRunPhase) → p.advance ≡ by_timer → is_input p.advance ≡ true → ⊥
    by_hand p d b = ground arith

    left :
        At (advance_phase now e') (i + 1) t ⊎ Complete (advance_phase now e') t
        → Goal (advance_phase now e')
    left (inl x) = inl (i + 1, x)
    left (inr x) = inr x

    leaves :
        (p : LogbookRunPhase)
        → get_elem? e.phases i ≡ some p
        → (is_input p.advance ≡ true) ⊎ (is_input p.advance ≡ false)
        → Goal (if is_input p.advance then advance_phase now e' else e')
    leaves p q (inl b) =
        subst (λ c. Goal (if c then advance_phase now e' else e')) (sym b)
          (left (
            advance_phase-Stage e' i t now p (later-At e i t now l a) q (omega (arith, a.entered))
              (omega arith) (λ d. absurd (by_hand p d b))))
    leaves p q (inr b) =
        subst (λ c. Goal (if c then advance_phase now e' else e')) (sym b)
          (inl (i, later-At e i t now l a))

    by_phase : (p : LogbookRunPhase) × (get_elem? e.phases i ≡ some p) → Goal (confirm now e)
    by_phase (p, q) =
        subst (λ c. Goal (if c then advance_phase now e' else e'))
          (sym (ap₂ (λ b x. b && awaits x) (ap is_running a.status) (current-At e i t p a q)))
          (leaves p q (Bool-cases (is_input p.advance)))

-- A call on an engine that is not running sets its clock only.
pub tick-still :
    (e : RunEngine) (now : ℕ)
    → is_running e.status ≡ false
    → tick now e ≡ record e { now_t_us_last = now }
unfolding tick
tick-still e now n = tick_loop-still (length e.phases + 1) now (record e { now_t_us_last = now }) n

pub confirm-still :
    (e : RunEngine) (now : ℕ)
    → is_running e.status ≡ false
    → confirm now e ≡ record e { now_t_us_last = now }
unfolding confirm awaiting
confirm-still e now n =
    ap
      (λ b.
        if b && awaits (current e)
        then advance_phase now (record e { now_t_us_last = now })
        else record e { now_t_us_last = now })
      n

pub stop-still :
    (e : RunEngine) (now : ℕ)
    → is_running e.status ≡ false
    → stop now e ≡ record e { now_t_us_last = now }
unfolding stop
stop-still e now n =
    ap
      (λ b.
        if b
        then record (stamp now (record e { now_t_us_last = now })) {
          status = stopped;
          phase_index = none;
        }
        else record e { now_t_us_last = now })
      n

pub tick-Stage : (e : RunEngine) (now : ℕ) → e.now_t_us_last ≤ now → Stage e → Stage (tick now e)
tick-Stage e now l h = by_run (runs e h)
  where
    by_run : (is_running e.status ≡ false) ⊎ ((i : ℕ) × (t : ℕ) × At e i t) → Stage (tick now e)
    by_run (inl n) = subst Stage (sym (tick-still e now n)) (later e now l h)
    by_run (inr (i, t, a)) = from_At (tick now e) t (tick-At e now i t l a)

pub confirm-Stage :
    (e : RunEngine) (now : ℕ) → e.now_t_us_last ≤ now → Stage e → Stage (confirm now e)
confirm-Stage e now l h = by_run (runs e h)
  where
    by_run : (is_running e.status ≡ false) ⊎ ((i : ℕ) × (t : ℕ) × At e i t) → Stage (confirm now e)
    by_run (inl n) = subst Stage (sym (confirm-still e now n)) (later e now l h)
    by_run (inr (i, t, a)) = from_At (confirm now e) t (confirm-At e now i t l a)

pub stop-Cut :
    (e : RunEngine) (now i t : ℕ)
    → e.now_t_us_last ≤ now
    → At e i t
    → (c : Cut (stop now e) i t) × (c.end_t_us ≡ now)
unfolding stop stamp
stop-Cut e now i t l a = by_phase (get_elem?-within e.phases i a.within)
  where
    e' : RunEngine
    e' = record e { now_t_us_last = now }

    over : Option ℕ → RunEngine
    over x = record e' {
      windows = stamped (phase_at e.phases x) e.phase_start_t_us now e.windows;
      status = stopped;
      phase_index = none;
    }

    Ended : RunEngine → Type 0
    Ended k = (c : Cut k i t) × (c.end_t_us ≡ now)

    cut_at : (p : LogbookRunPhase) × (get_elem? e.phases i ≡ some p) → Ended (over (some i))
    cut_at (p, q) = (
      record {
        status = refl;
        index = refl;
        phase = p;
        before = e.windows;
        end_t_us = now;
        at = q;
        windows = ap (λ x. stamped x e.phase_start_t_us now e.windows) q;
        entered = omega (arith, a.entered);
        follows = a.follows;
      },
      refl,
    )

    by_phase : (p : LogbookRunPhase) × (get_elem? e.phases i ≡ some p) → Ended (stop now e)
    by_phase pq =
        subst (λ c. Ended (if c then over e.phase_index else e')) (sym (ap is_running a.status))
          (subst (λ x. Ended (over x)) (sym a.index) (cut_at pq))

pub stop-Stage : (e : RunEngine) (now : ℕ) → e.now_t_us_last ≤ now → Stage e → Stage (stop now e)
stop-Stage e now l h = by_run (runs e h)
  where
    by_run : (is_running e.status ≡ false) ⊎ ((i : ℕ) × (t : ℕ) × At e i t) → Stage (stop now e)
    by_run (inl n) = subst Stage (sym (stop-still e now n)) (later e now l h)
    by_run (inr (i, t, a)) = cut i t (stop-Cut e now i t l a).0

pub phases-tick_loop : (guard now : ℕ) (e : RunEngine) → (tick_loop guard now e).phases ≡ e.phases
unfolding tick_loop advance_phase
phases-tick_loop zero now e = refl
phases-tick_loop (suc guard) now e =
    ground
      (arith, phases-tick_loop guard now (advance_phase (end_of (current e) e.phase_start_t_us) e))

pub scenario_phases-pos : (s : LogbookScenario) → 0 < length (scenario_phases s)
unfolding scenario_phases
scenario_phases-pos s = omega arith
