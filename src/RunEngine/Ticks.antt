-- ===== src/RunEngine/Ticks.antt =====
-- What the loop of `tick` does to a run (frontend/cockpit/src/logbook/runEngine.ts).
use discodb.Prelude.{
  ℕ, zero, suc, ◌+◌, ◌≤◌, ◌≡◌, ◌⊎◌, inl, inr, refl, sym, subst, ap, ap₂, ◌∙◌, true, false,
  get_elem?, Option, none, some, Bool-cases, if◌then◌else◌, arith,
}
use discodb.RunEngine.Defs.{
  LogbookRunPhase, by_timer, RunEngine, is_running, phase_at, current, advance_phase, is_due,
  end_of, start, tick_loop,
}
use discodb.RunEngine.Windows.{At, Complete, get_elem?-within, advance_phase-Stage}

pub current-At :
    (e : RunEngine) (i t : ℕ) (p : LogbookRunPhase)
    → At e i t
    → get_elem? e.phases i ≡ some p
    → current e ≡ some p
unfolding current
current-At e i t p h q =
    ap₂ (λ s x. if is_running s then phase_at e.phases x else none) h.status h.index ∙ q

pub current-still : (e : RunEngine) → is_running e.status ≡ false → current e ≡ none
unfolding current
current-still e h = ap (λ b. if b then phase_at e.phases e.phase_index else none) h

pub now-advance_phase :
    (to : ℕ) (e : RunEngine) → (advance_phase to e).now_t_us_last ≡ e.now_t_us_last
unfolding advance_phase
now-advance_phase to e = ground arith

-- One round of the loop of `tick`.
pub tick_loop-round :
    (guard now : ℕ) (e : RunEngine) (q : Option LogbookRunPhase)
    → current e ≡ q
    → tick_loop (suc guard) now e ≡ (
        if is_due q e.phase_start_t_us now
        then tick_loop guard now (advance_phase (end_of q e.phase_start_t_us) e)
        else e)
unfolding tick_loop
tick_loop-round guard now e q h =
    ap
      (λ p.
        if is_due p e.phase_start_t_us now
        then tick_loop guard now (advance_phase (end_of p e.phase_start_t_us) e)
        else e)
      h

pub due_timer :
    (p : LogbookRunPhase) (start now : ℕ)
    → is_due (some p) start now ≡ true
    → (p.advance ≡ by_timer) × (start + p.duration_us ≤ now)
due_timer p start now h = ground arith

pub tick_loop-still :
    (guard now : ℕ) (e : RunEngine) → is_running e.status ≡ false → tick_loop guard now e ≡ e
unfolding tick_loop
tick_loop-still zero now e h = refl
tick_loop-still (suc guard) now e h = tick_loop-round guard now e none (current-still e h)

Complete-still : (e : RunEngine) (t : ℕ) → Complete e t → is_running e.status ≡ false
Complete-still e t h = ap is_running h.status

pub tick_loop-At :
    (guard now i t : ℕ) (e : RunEngine)
    → e.now_t_us_last ≡ now
    → At e i t
    → ((j : ℕ) × At (tick_loop guard now e) j t) ⊎ Complete (tick_loop guard now e) t
unfolding tick_loop
tick_loop-At zero now i t e n h = inl (i, h)
tick_loop-At (suc guard) now i t e n h =
    by_phase (get_elem?-within e.phases i h.within)
      (λ x m a. tick_loop-At guard now (i + 1) t x m a)
  where
    Goal : RunEngine → Type 0
    Goal x = ((j : ℕ) × At x j t) ⊎ Complete x t

    after :
        (to : ℕ)
        → e.now_t_us_last ≡ now
        → At (advance_phase to e) (i + 1) t ⊎ Complete (advance_phase to e) t
        → ((x : RunEngine) → x.now_t_us_last ≡ now → At x (i + 1) t → Goal (tick_loop guard now x))
        → Goal (tick_loop guard now (advance_phase to e))
    after to m (inl a) ih = ih (advance_phase to e) (now-advance_phase to e ∙ m) a
    after to m (inr c) ih = inr (
        subst (λ x. Complete x t)
          (sym (
            tick_loop-still guard now (advance_phase to e)
              (Complete-still (advance_phase to e) t c)))
          c)

    by_due :
        (p : LogbookRunPhase)
        → get_elem? e.phases i ≡ some p
        → (is_due (some p) e.phase_start_t_us now ≡ true)
          ⊎ (is_due (some p) e.phase_start_t_us now ≡ false)
        → ((x : RunEngine) → x.now_t_us_last ≡ now → At x (i + 1) t → Goal (tick_loop guard now x))
        → Goal (
            if is_due (some p) e.phase_start_t_us now
            then tick_loop guard now (advance_phase (end_of (some p) e.phase_start_t_us) e)
            else e)
    by_due p q (inl b) ih =
        subst
          (λ c. Goal (
            if c
            then tick_loop guard now (advance_phase (e.phase_start_t_us + p.duration_us) e)
            else e))
          (sym b)
          (after (e.phase_start_t_us + p.duration_us) n
            (advance_phase-Stage e i t (e.phase_start_t_us + p.duration_us) p h q (omega arith)
              (omega (arith, (due_timer p e.phase_start_t_us now b).1)) (λ d. refl))
            ih)
    by_due p q (inr b) ih =
        subst
          (λ c. Goal (
            if c
            then tick_loop guard now (advance_phase (e.phase_start_t_us + p.duration_us) e)
            else e))
          (sym b) (inl (i, h))

    by_phase :
        (p : LogbookRunPhase) × (get_elem? e.phases i ≡ some p)
        → ((x : RunEngine) → x.now_t_us_last ≡ now → At x (i + 1) t → Goal (tick_loop guard now x))
        → Goal (tick_loop (suc guard) now e)
    by_phase (p, q) ih =
        subst Goal (sym (tick_loop-round guard now e (some p) (current-At e i t p h q)))
          (by_due p q (Bool-cases (is_due (some p) e.phase_start_t_us now)) ih)

pub now-tick_loop :
    (guard now : ℕ) (e : RunEngine) → (tick_loop guard now e).now_t_us_last ≡ e.now_t_us_last
unfolding tick_loop
now-tick_loop zero now e = refl
now-tick_loop (suc guard) now e = ground (
  arith,
  now-tick_loop guard now (advance_phase (end_of (current e) e.phase_start_t_us) e),
  now-advance_phase (end_of (current e) e.phase_start_t_us) e,
)
