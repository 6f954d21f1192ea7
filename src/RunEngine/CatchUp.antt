-- ===== src/RunEngine/CatchUp.antt =====
-- A late tick catches up (frontend/cockpit/src/logbook/runEngine.ts): how many rounds the loop of
-- `tick` needs, and that it does not matter how often it is called on the way.
use discodb.Prelude.{
  ℕ, zero, suc, ◌+◌, ◌≤◌, ◌≡◌, ◌⊎◌, inl, inr, refl, sym, subst, ap, ◌∙◌, Bool, true, false, length,
  get_elem?, Option, none, some, Bool-cases, if◌then◌else◌, arith,
}
use discodb.RunEngine.Defs.{
  LogbookRunPhase, LogbookScenario, RunEngine, is_running, current, stamp, advance_phase, is_due,
  end_of, tick_loop, tick,
}
use discodb.RunEngine.Windows.{At, Complete, Stage, get_elem?-within, advance_phase-Stage}
use discodb.RunEngine.Ticks.{
  current-At, current-still, now-advance_phase, due_timer, tick_loop-still,
}
use discodb.RunEngine.Calls.{runs, later-At, phases-tick_loop}
use discodb.RunEngine.Runs.{RunOf, RunOf-Stage}

abbrev due : ℕ → RunEngine → Bool
due now e = is_due (current e) e.phase_start_t_us now

abbrev next : RunEngine → RunEngine
next e = advance_phase (end_of (current e) e.phase_start_t_us) e

abbrev at_time : ℕ → RunEngine → RunEngine
at_time now e = record e { now_t_us_last = now }

-- One round, by whether the current phase is due.
round-due :
    (guard now : ℕ) (e : RunEngine)
    → due now e ≡ true
    → tick_loop (suc guard) now e ≡ tick_loop guard now (next e)
unfolding tick_loop
round-due guard now e d = ap (λ b. if b then tick_loop guard now (next e) else e) d

round-waits : (guard now : ℕ) (e : RunEngine) → due now e ≡ false → tick_loop (suc guard) now e ≡ e
unfolding tick_loop
round-waits guard now e d = ap (λ b. if b then tick_loop guard now (next e) else e) d

-- Rounds past the one that finds nothing due change nothing.
tick_loop-extra :
    (guard now : ℕ) (e : RunEngine)
    → due now (tick_loop guard now e) ≡ false
    → tick_loop (suc guard) now e ≡ tick_loop guard now e
unfolding tick_loop
tick_loop-extra zero now e d = round-waits zero now e d
tick_loop-extra (suc guard) now e d =
    by_due (Bool-cases (due now e)) (tick_loop-extra guard now (next e))
  where
    by_due :
        (due now e ≡ true) ⊎ (due now e ≡ false)
        → (due now (tick_loop guard now (next e)) ≡ false
            → tick_loop (suc guard) now (next e) ≡ tick_loop guard now (next e))
        → tick_loop (suc (suc guard)) now e ≡ tick_loop (suc guard) now e
    by_due (inl b) ih =
        round-due (suc guard) now e b
        ∙ ih (subst (λ x. due now x ≡ false) (round-due guard now e b) d)
        ∙ sym (round-due guard now e b)
    by_due (inr b) ih = round-waits (suc guard) now e b ∙ sym (round-waits guard now e b)

is_due-later :
    (p : Option LogbookRunPhase) (start now later : ℕ)
    → now ≤ later
    → is_due p start now ≡ true
    → is_due p start later ≡ true
is_due-later none start now later l d = d
is_due-later (some p) start now later l d = ground arith

-- A loop at a later time that has rounds enough does what an earlier loop would have done, too.
tick_loop-tick_loop :
    (guard k now later : ℕ) (e : RunEngine)
    → now ≤ later
    → due later (tick_loop k later e) ≡ false
    → tick_loop k later (tick_loop guard now e) ≡ tick_loop k later e
unfolding tick_loop
tick_loop-tick_loop zero k now later e l d = refl
tick_loop-tick_loop (suc guard) k now later e l d =
    by_due (Bool-cases (due now e)) (tick_loop-tick_loop guard k now later (next e) l)
  where
    goes_on :
        (k' : ℕ)
        → due later e ≡ true
        → due later (tick_loop k' later e) ≡ false
        → (due later (tick_loop k' later (next e)) ≡ false)
          × (tick_loop k' later (next e) ≡ tick_loop k' later e)
    goes_on zero b h = absurd (ground (arith, sym b ∙ h))
    goes_on (suc k') b h =
        let settled = subst (λ y. due later y ≡ false) (round-due k' later e b) h in
        let x = tick_loop-extra k' later (next e) settled in
        (subst (λ y. due later y ≡ false) (sym x) settled, x ∙ sym (round-due k' later e b))

    by_due :
        (due now e ≡ true) ⊎ (due now e ≡ false)
        → (due later (tick_loop k later (next e)) ≡ false
            → tick_loop k later (tick_loop guard now (next e)) ≡ tick_loop k later (next e))
        → tick_loop k later (tick_loop (suc guard) now e) ≡ tick_loop k later e
    by_due (inl b) ih =
        let g = goes_on k (is_due-later (current e) e.phase_start_t_us now later l b) d in
        ap (λ x. tick_loop k later x) (round-due guard now e b) ∙ ih g.0 ∙ g.1
    by_due (inr b) ih = ap (λ x. tick_loop k later x) (round-waits guard now e b)

at_time-tick_loop :
    (guard now later : ℕ) (e : RunEngine)
    → at_time later (tick_loop guard now e) ≡ tick_loop guard now (at_time later e)
unfolding tick_loop current advance_phase stamp
at_time-tick_loop zero now later e = refl
at_time-tick_loop (suc guard) now later e =
    ground (arith, at_time-tick_loop guard now later (next e))

phases-advance_phase : (to : ℕ) (e : RunEngine) → (advance_phase to e).phases ≡ e.phases
unfolding advance_phase stamp
phases-advance_phase to e = ground arith

still-due : (now : ℕ) (e : RunEngine) → is_running e.status ≡ false → due now e ≡ false
still-due now e h = ap (λ p. is_due p e.phase_start_t_us now) (current-still e h)

-- From phase `i`, as many rounds as there are phases left are enough.
tick_loop-settles :
    (guard now i t : ℕ) (e : RunEngine)
    → e.now_t_us_last ≡ now
    → At e i t
    → length e.phases ≤ guard + i
    → due now (tick_loop guard now e) ≡ false
unfolding tick_loop
tick_loop-settles zero now i t e n h l = absurd (omega (arith, h.within))
tick_loop-settles (suc guard) now i t e n h l =
    by_due (Bool-cases (due now e)) (get_elem?-within e.phases i h.within)
      (λ x. tick_loop-settles guard now (i + 1) t x)
  where
    Ih : Type 0
    Ih =
        (x : RunEngine)
        → x.now_t_us_last ≡ now
        → At x (i + 1) t
        → length x.phases ≤ guard + (i + 1)
        → due now (tick_loop guard now x) ≡ false

    after :
        (to : ℕ)
        → Ih
        → At (advance_phase to e) (i + 1) t ⊎ Complete (advance_phase to e) t
        → due now (tick_loop guard now (advance_phase to e)) ≡ false
    after to ih (inl a) =
        ih (advance_phase to e) (now-advance_phase to e ∙ n) a
          (omega (arith, ap (λ ps. length ps) (phases-advance_phase to e), l))
    after to ih (inr c) =
        let stays = ap is_running c.status in
        subst (λ x. due now x ≡ false) (sym (tick_loop-still guard now (advance_phase to e) stays))
          (still-due now (advance_phase to e) stays)

    goes_on :
        (p : LogbookRunPhase)
        → get_elem? e.phases i ≡ some p
        → is_due (some p) e.phase_start_t_us now ≡ true
        → At (next e) (i + 1) t ⊎ Complete (next e) t
    goes_on p q b =
        subst
          (λ x.
            At (advance_phase (end_of x e.phase_start_t_us) e) (i + 1) t
            ⊎ Complete (advance_phase (end_of x e.phase_start_t_us) e) t)
          (sym (current-At e i t p h q))
          (advance_phase-Stage e i t (e.phase_start_t_us + p.duration_us) p h q (omega arith)
            (omega (arith, (due_timer p e.phase_start_t_us now b).1, n)) (λ d. refl))

    by_due :
        (due now e ≡ true) ⊎ (due now e ≡ false)
        → (p : LogbookRunPhase) × (get_elem? e.phases i ≡ some p)
        → Ih
        → due now (tick_loop (suc guard) now e) ≡ false
    by_due (inl b) (p, q) ih =
        subst (λ x. due now x ≡ false) (sym (round-due guard now e b))
          (after (end_of (current e) e.phase_start_t_us) ih (
            goes_on p q
              (ap (λ x. is_due x e.phase_start_t_us now) (sym (current-At e i t p h q)) ∙ b)))
    by_due (inr b) pq ih = subst (λ x. due now x ≡ false) (sym (round-waits guard now e b)) b

Stage-settles :
    (now : ℕ) (e : RunEngine) → e.now_t_us_last ≤ now → Stage e → due now (tick now e) ≡ false
unfolding tick
Stage-settles now e l h = by_run (runs e h)
  where
    by_run :
        (is_running e.status ≡ false) ⊎ ((i : ℕ) × (t : ℕ) × At e i t)
        → due now (tick now e) ≡ false
    by_run (inl n) =
        subst (λ x. due now x ≡ false)
          (sym (tick_loop-still (length e.phases + 1) now (at_time now e) n))
          (still-due now (at_time now e) n)
    by_run (inr (i, t, a)) =
        tick_loop-settles (length e.phases + 1) now i t (at_time now e) refl
          (later-At e i t now l a) (omega arith)

-- The rounds that `tick` allows its loop are enough, however far the clock has jumped: the phase of
-- any run that is current after a tick, where there is one, waits for the operator or is not due yet.
pub tick-settles :
    {s : LogbookScenario} {e : RunEngine} (now : ℕ)
    → RunOf s e
    → e.now_t_us_last ≤ now
    → is_due (current (tick now e)) (tick now e).phase_start_t_us now ≡ false
tick-settles {s} {e} now r l = Stage-settles now e l (RunOf-Stage r).1

-- A tick does not depend on the ticks before it: for any run, a tick after an earlier one leaves the
-- engine as the later one alone does, with the same windows and the same current phase.
pub tick-tick :
    {s : LogbookScenario} {e : RunEngine} (now later : ℕ)
    → RunOf s e
    → e.now_t_us_last ≤ now
    → now ≤ later
    → tick later (tick now e) ≡ tick later e
unfolding tick
tick-tick {s} {e} now later r l m =
    let rounds = length e.phases + 1 in
    ap (λ n. tick_loop (n + 1) later (at_time later (tick now e)))
      (ap (λ ps. length ps) (phases-tick_loop rounds now (at_time now e)))
    ∙ ap (λ x. tick_loop rounds later x) (at_time-tick_loop rounds now later (at_time now e))
    ∙ tick_loop-tick_loop rounds rounds now later (at_time later e) m
        (Stage-settles later e (omega arith) (RunOf-Stage r).1)
