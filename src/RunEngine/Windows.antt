-- ===== src/RunEngine/Windows.antt =====
-- The windows that the engine of frontend/cockpit/src/logbook/runEngine.ts stamps.
use discodb.Prelude.{
  ℕ, zero, suc, ◌+◌, ◌≤◌, ◌<◌, ◌≡◌, ◌⊎◌, inl, inr, refl, sym, subst, ap, ◌∙◌, true, false, List, [],
  ◌∷◌, ◌++◌, length, take, get_elem?, none, some, Bool-cases, leb, leb→le, not_leb→lt,
  if◌then◌else◌, arith,
}
use mathlib.Core.Option.{some-injective, none-ne-some}
use discodb.RunEngine.Defs.{
  LogbookRunPhase, by_timer, RunWindow, idle, running, done, stopped, RunEngine, phase_at,
  window_of, stamped, advance_phase, next_index,
}

-- The windows `ws` are those of the phases `ps`, in order and without gaps, from `t` to `end_`. None
-- ends before it starts, and that of a timer phase lasts exactly its duration.
abbrev pub Follows : ℕ → List LogbookRunPhase → List RunWindow → ℕ → Type 0
Follows t [] [] end_ = t ≡ end_
Follows t (p ∷ ps) (w ∷ ws) end_ =
    (w.role ≡ p.phase)
    × (w.rep ≡ p.rep)
    × (w.start_t_us ≡ t)
    × (t ≤ w.end_t_us)
    × (p.advance ≡ by_timer → w.end_t_us ≡ t + p.duration_us)
    × Follows w.end_t_us ps ws end_
Follows t _ _ end_ = ⊥

Follows-append :
    (t : ℕ) (ps : List LogbookRunPhase) (ws : List RunWindow) (from to : ℕ) (p : LogbookRunPhase)
    → Follows t ps ws from
    → from ≤ to
    → (p.advance ≡ by_timer → to ≡ from + p.duration_us)
    → Follows t (ps ++ (p ∷ [])) (ws ++ (window_of p from to ∷ [])) to
Follows-append t [] [] from to p h l d =
    (refl, refl, sym h, omega arith, λ e. omega (arith, d e), refl)
Follows-append t (q ∷ ps) (w ∷ ws) from to p h l d =
    (h.0, h.1, h.2, h.3, h.4, Follows-append w.end_t_us ps ws from to p h.5 l d)
Follows-append t [] (w ∷ ws) from to p h l d = absurd h
Follows-append t (q ∷ ps) [] from to p h l d = absurd h

pub take-step :
    (ps : List LogbookRunPhase) (i : ℕ) (p : LogbookRunPhase)
    → get_elem? ps i ≡ some p
    → take (i + 1) ps ≡ take i ps ++ (p ∷ [])
take-step [] i p e = absurd (none-ne-some p e)
take-step (q ∷ ps) zero p e = ap (λ r. r ∷ []) (some-injective q p e)
take-step (q ∷ ps) (suc i) p e =
    ap (λ k. take k (q ∷ ps)) {x = suc i + 1} {y = suc (i + 1)} (omega arith)
    ∙ ap (λ r. q ∷ r) (take-step ps i p e)

take_whole : (ps : List LogbookRunPhase) (i : ℕ) → length ps ≤ i → take i ps ≡ ps
take_whole [] zero l = refl
take_whole [] (suc i) l = refl
take_whole (p ∷ ps) zero l = absurd (omega arith)
take_whole (p ∷ ps) (suc i) l = ap (λ r. p ∷ r) (take_whole ps i (omega arith))

pub get_elem?-within :
    (ps : List LogbookRunPhase) (i : ℕ)
    → i < length ps
    → (p : LogbookRunPhase) × (get_elem? ps i ≡ some p)
get_elem?-within [] i l = absurd (omega arith)
get_elem?-within (p ∷ ps) zero l = (p, refl)
get_elem?-within (p ∷ ps) (suc i) l = get_elem?-within ps i (omega arith)

-- An engine whose run is at phase `i`, and has stamped those before it.
pub record At (e : RunEngine) (i t : ℕ) : Type 0 where
  pub status : e.status ≡ running
  pub index : e.phase_index ≡ some i
  pub within : i < length e.phases
  pub entered : e.phase_start_t_us ≤ e.now_t_us_last
  pub follows : Follows t (take i e.phases) e.windows e.phase_start_t_us

-- A run that has come to its end.
pub record Complete (e : RunEngine) (t : ℕ) : Type 0 where
  pub status : e.status ≡ done
  pub index : e.phase_index ≡ none
  pub follows : Follows t e.phases e.windows e.phase_start_t_us

-- A run that was stopped in phase `i`, the window of which is the last and ends then.
pub record Cut (e : RunEngine) (i t : ℕ) : Type 0 where
  pub status : e.status ≡ stopped
  pub index : e.phase_index ≡ none
  pub phase : LogbookRunPhase
  pub before : List RunWindow
  pub end_t_us : ℕ
  pub at : get_elem? e.phases i ≡ some phase
  pub windows : e.windows ≡ before ++ (window_of phase e.phase_start_t_us end_t_us ∷ [])
  pub entered : e.phase_start_t_us ≤ end_t_us
  pub follows : Follows t (take i e.phases) before e.phase_start_t_us

pub record Fresh (e : RunEngine) : Type 0 where
  pub status : e.status ≡ idle
  pub windows : e.windows ≡ []

-- The engine between two calls.
pub data Stage (e : RunEngine) : Type 0 where
  fresh : Fresh e → Stage e
  at : (i t : ℕ) → At e i t → Stage e
  complete : (t : ℕ) → Complete e t → Stage e
  cut : (i t : ℕ) → Cut e i t → Stage e

abbrev finished : RunEngine → LogbookRunPhase → ℕ → RunEngine
finished e p to = record e {
  windows = e.windows ++ (window_of p e.phase_start_t_us to ∷ []);
  status = done;
  phase_index = none;
  phase_start_t_us = to;
}

abbrev moved : RunEngine → LogbookRunPhase → ℕ → ℕ → RunEngine
moved e p i to = record e {
  windows = e.windows ++ (window_of p e.phase_start_t_us to ∷ []);
  phase_index = some (i + 1);
  phase_start_t_us = to;
}

pub advance_phase_lem :
    (e : RunEngine) (i to : ℕ) (p : LogbookRunPhase)
    → e.phase_index ≡ some i
    → get_elem? e.phases i ≡ some p
    → advance_phase to e
      ≡ (if leb (length e.phases) (i + 1) then finished e p to else moved e p i to)
unfolding advance_phase
advance_phase_lem e i to p h q =
    ap
      (λ x.
        let ws = stamped (phase_at e.phases x) e.phase_start_t_us to e.windows in
        if leb (length e.phases) (next_index x)
        then record e { windows = ws; status = done; phase_index = none; phase_start_t_us = to }
        else record e { windows = ws; phase_index = some (next_index x); phase_start_t_us = to })
      h
    ∙ ap
        (λ x.
          let ws = stamped x e.phase_start_t_us to e.windows in
          if leb (length e.phases) (i + 1)
          then record e { windows = ws; status = done; phase_index = none; phase_start_t_us = to }
          else record e { windows = ws; phase_index = some (i + 1); phase_start_t_us = to })
        q

-- Leaving the current phase at `to` keeps the windows in step.
pub advance_phase-Stage :
    (e : RunEngine) (i t to : ℕ) (p : LogbookRunPhase)
    → At e i t
    → get_elem? e.phases i ≡ some p
    → e.phase_start_t_us ≤ to
    → to ≤ e.now_t_us_last
    → (p.advance ≡ by_timer → to ≡ e.phase_start_t_us + p.duration_us)
    → At (advance_phase to e) (i + 1) t ⊎ Complete (advance_phase to e) t
advance_phase-Stage e i t to p h q l m d = by_end (Bool-cases (leb (length e.phases) (i + 1)))
  where
    grown :
        Follows t (take (i + 1) e.phases) (e.windows ++ (window_of p e.phase_start_t_us to ∷ [])) to
    grown =
        subst (λ ps. Follows t ps (e.windows ++ (window_of p e.phase_start_t_us to ∷ [])) to)
          (sym (take-step e.phases i p q))
          (Follows-append t (take i e.phases) e.windows e.phase_start_t_us to p h.follows l d)

    by_end :
        (leb (length e.phases) (i + 1) ≡ true) ⊎ (leb (length e.phases) (i + 1) ≡ false)
        → At (advance_phase to e) (i + 1) t ⊎ Complete (advance_phase to e) t
    by_end (inl b) = inr (
        subst (λ x. Complete x t)
          (sym (
            advance_phase_lem e i to p h.index q
            ∙ ap (λ c. if c then finished e p to else moved e p i to) b))
          (record {
            status = refl;
            index = refl;
            follows =
                subst
                  (λ ps. Follows t ps (e.windows ++ (window_of p e.phase_start_t_us to ∷ [])) to)
                  (take_whole e.phases (i + 1) (leb→le (length e.phases) (i + 1) b)) grown;
          }))
    by_end (inr b) = inl (
        subst (λ x. At x (i + 1) t)
          (sym (
            advance_phase_lem e i to p h.index q
            ∙ ap (λ c. if c then finished e p to else moved e p i to) b))
          (record {
            status = h.status;
            index = refl;
            within = not_leb→lt (length e.phases) (i + 1) b;
            entered = m;
            follows = grown;
          }))
