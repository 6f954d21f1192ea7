-- ===== src/Logbook/Mode.antt =====
-- modeOf of frontend/shared/analysis/logbook.ts returns a value that occurs most often.
use discodb.Prelude.{
  ℕ, ◌+◌, ◌≤◌, ◌<◌, ◌≡◌, refl, ◌∙◌, List, [], ◌∷◌, Option, none, some, ◌==◌, if◌then◌else◌, arith,
}
use discodb.Analysis.Counts.{count}
use discodb.Logbook.Defs.{Leader, count_at, set_count, lead_with, lead_all, mode_of}

count_at-set_count :
    (m : List (ℕ × ℕ)) (v x w : ℕ)
    → count_at (set_count m v x) w ≡ (if v == w then x else count_at m w)
count_at-set_count [] v x w = ground arith
count_at-set_count ((k, n) ∷ m) v x w = ground (arith, count_at-set_count m v x w)

-- The leader of values that occur as often as `c` says.
record Leads (s : Leader) (c : ℕ → ℕ) : Type 0 where
  counts : (w : ℕ) → count_at s.counts w ≡ c w
  best : s.best_count ≡ c s.best
  most : (w : ℕ) → c w ≤ s.best_count

lead_with-Leads :
    (s : Leader) (c : ℕ → ℕ) (v : ℕ)
    → Leads s c
    → Leads (lead_with s v) (λ w. if v == w then c w + 1 else c w)
unfolding lead_with
lead_with-Leads s c v h = record {
  counts = λ w.
      ground
        (arith, count_at-set_count s.counts v (count_at s.counts v + 1) w, h.counts w, h.counts v);
  best = ground (arith, h.best, h.counts v, h.most v, h.most s.best);
  most = λ w. ground (arith, h.most w, h.counts v);
}

Leads-same : (s : Leader) (c d : ℕ → ℕ) → ((w : ℕ) → c w ≡ d w) → Leads s c → Leads s d
Leads-same s c d e h = record {
  counts = λ w. h.counts w ∙ e w;
  best = h.best ∙ e s.best;
  most = λ w. omega (arith, h.most w, e w);
}

lead_all-Leads :
    (vs : List ℕ) (s : Leader) (c : ℕ → ℕ)
    → Leads s c
    → Leads (lead_all s vs) (λ w. c w + count w vs)
unfolding lead_all count
lead_all-Leads [] s c h = Leads-same s c (λ w. c w + 0) (λ w. omega arith) h
lead_all-Leads (v ∷ vs) s c h =
    Leads-same (lead_all (lead_with s v) vs) (λ w. (if v == w then c w + 1 else c w) + count w vs)
      (λ w. c w + (if v == w then count w vs + 1 else count w vs)) (λ w. ground arith)
      (lead_all-Leads vs (lead_with s v) (λ w. if v == w then c w + 1 else c w)
        (lead_with-Leads s c v h))

count_self : (v : ℕ) (vs : List ℕ) → 0 < count v (v ∷ vs)
unfolding count
count_self v vs = ground arith

abbrev pub IsModeOf : Option ℕ → List ℕ → Type 0
IsModeOf none vs = vs ≡ []
IsModeOf (some m) vs = (0 < count m vs) × ((w : ℕ) → count w vs ≤ count m vs)

-- The value returned for some values is one of them, and none of them occurs more often; null is
-- returned for no values only.
pub mode_of-IsModeOf : (vs : List ℕ) → IsModeOf (mode_of vs) vs
unfolding mode_of
mode_of-IsModeOf [] = refl
mode_of-IsModeOf (v ∷ vs) =
    let s : Leader = record { counts = []; best = v; best_count = 0 } in
    let h =
      lead_all-Leads (v ∷ vs) s (λ w. 0)
        (record { counts = λ w. refl; best = refl; most = λ w. omega arith }) in
    (omega (arith, h.best, h.most v, count_self v vs), λ w. omega (arith, h.best, h.most w))
