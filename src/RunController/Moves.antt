-- ===== src/RunController/Moves.antt =====
-- What the controller (frontend/cockpit/src/logbook/runController.ts) may rely on after a call of the
-- engine.
use discodb.Prelude.{
  ℕ, ◌+◌, ◌≤◌, ◌≡◌, ◌⊎◌, inl, inr, refl, sym, subst, ap, true, false, length, arith,
}
use discodb.RunEngine.Defs.{RunEngine, is_running, tick, confirm, stop, stamp, advance_phase}
use discodb.RunEngine.Windows.{At, Complete, Cut, Stage}
use discodb.RunEngine.Calls.{
  runs, later-At, confirm-At, tick-still, confirm-still, stop-still, stop-Cut, phases-tick_loop,
}
use discodb.RunEngine.Ticks.{tick_loop-At, now-tick_loop}

-- The engine `k` after a call on `e` at `now`: nothing but the clock of an engine at rest has
-- changed; a run is still under way; or it has come to its end.
pub data Moved (now : ℕ) (e : RunEngine) : RunEngine → Type 0 where
  rests : is_running e.status ≡ false → Moved now e (record e { now_t_us_last = now })
  runs_on :
      {k : RunEngine} (i t : ℕ)
      → is_running e.status ≡ true
      → k.now_t_us_last ≡ now
      → At k i t
      → Moved now e k
  ends : {k : RunEngine} (t : ℕ) → is_running e.status ≡ true → Complete k t → Moved now e k

module _ (now : ℕ) (e : RunEngine) (h : Stage e)
    (l : is_running e.status ≡ true → e.now_t_us_last ≤ now) where
  from_rest :
      (k : RunEngine)
      → is_running e.status ≡ false
      → k ≡ record e { now_t_us_last = now }
      → Moved now e k
  from_rest k n q = subst (Moved now e) (sym q) (rests n)

  from_run :
      (k : RunEngine) (t : ℕ)
      → is_running e.status ≡ true
      → k.now_t_us_last ≡ now
      → ((j : ℕ) × At k j t) ⊎ Complete k t
      → Moved now e k
  from_run k t r m (inl (j, a)) = runs_on j t r m a
  from_run k t r m (inr c) = ends t r c

  pub tick-Moved : Moved now e (tick now e)
  unfolding tick
  tick-Moved = by_run (runs e h)
    where
      by_run :
          (is_running e.status ≡ false) ⊎ ((i : ℕ) × (t : ℕ) × At e i t) → Moved now e (tick now e)
      by_run (inl n) = from_rest (tick now e) n (tick-still e now n)
      by_run (inr (i, t, a)) =
          let r = ap is_running a.status in
          from_run (tick now e) t r
            (now-tick_loop (length e.phases + 1) now (record e { now_t_us_last = now }))
            (tick_loop-At (length e.phases + 1) now i t (record e { now_t_us_last = now }) refl
              (later-At e i t now (l r) a))

  now-confirm : (confirm now e).now_t_us_last ≡ now
  unfolding confirm advance_phase stamp
  now-confirm = ground arith

  pub confirm-Moved : Moved now e (confirm now e)
  confirm-Moved = by_run (runs e h)
    where
      by_run :
          (is_running e.status ≡ false) ⊎ ((i : ℕ) × (t : ℕ) × At e i t)
          → Moved now e (confirm now e)
      by_run (inl n) = from_rest (confirm now e) n (confirm-still e now n)
      by_run (inr (i, t, a)) =
          let r = ap is_running a.status in
          from_run (confirm now e) t r now-confirm (confirm-At e now i t (l r) a)

  -- A run is cut; an engine at rest only has its clock set.
  pub stop-Cut_or_still :
      ((is_running e.status ≡ false) × (stop now e ≡ record e { now_t_us_last = now }))
      ⊎ ((i : ℕ) × (t : ℕ) × (is_running e.status ≡ true) × Cut (stop now e) i t)
  stop-Cut_or_still = by_run (runs e h)
    where
      by_run :
          (is_running e.status ≡ false) ⊎ ((i : ℕ) × (t : ℕ) × At e i t)
          → ((is_running e.status ≡ false) × (stop now e ≡ record e { now_t_us_last = now }))
            ⊎ ((i : ℕ) × (t : ℕ) × (is_running e.status ≡ true) × Cut (stop now e) i t)
      by_run (inl n) = inl (n, stop-still e now n)
      by_run (inr (i, t, a)) =
          let r = ap is_running a.status in inr (i, t, r, (stop-Cut e now i t (l r) a).0)

pub phases-confirm : (now : ℕ) (e : RunEngine) → (confirm now e).phases ≡ e.phases
unfolding confirm advance_phase stamp
phases-confirm now e = ground arith

pub phases-stop : (now : ℕ) (e : RunEngine) → (stop now e).phases ≡ e.phases
unfolding stop stamp
phases-stop now e = ground arith

pub phases-tick : (now : ℕ) (e : RunEngine) → (tick now e).phases ≡ e.phases
unfolding tick
phases-tick now e = phases-tick_loop (length e.phases + 1) now (record e { now_t_us_last = now })
