-- ===== src/Analysis/Counts.antt =====
-- What the tally of frontend/shared/analysis/byte-histogram.ts counts.
use discodb.Prelude.{
  ℕ, zero, suc, ◌+◌, ◌≤◌, ◌<◌, ◌≡◌, refl, sym, subst, ap, ◌∙◌, Bool, true, false, List, [], ◌∷◌,
  length, length-set, length-replicate, get_or, set, replicate, Option, none, some, All, leb, ◌==◌,
  if◌then◌else◌, arith,
}
use mathlib.Core.Path.{fun_ext}
use discodb.Analysis.Histogram.{Tally, new_tally, lower, higher, tally_value, tally_payloads}

-- The values of byte `i`, over the payloads that have one.
unfoldable pub values : ℕ → List (List ℕ) → List ℕ
values i [] = []
values i (p ∷ ps) = if leb (length p) i then values i ps else get_or p i 0 ∷ values i ps

-- How often `v` occurs.
unfoldable pub count : ℕ → List ℕ → ℕ
count v [] = 0
count v (x ∷ xs) = if x == v then count v xs + 1 else count v xs

-- How many entries are not zero.
unfoldable pub nonzeros : List ℕ → ℕ
nonzeros [] = 0
nonzeros (x ∷ xs) = if x == 0 then nonzeros xs else nonzeros xs + 1

tally_all : List ℕ → Tally → Tally
tally_all [] t = t
tally_all (v ∷ vs) t = tally_all vs (tally_value t v)

tally_payloads-values :
    (i : ℕ) (ps : List (List ℕ)) (t : Tally) → tally_payloads i ps t ≡ tally_all (values i ps) t
unfolding tally_payloads values tally_all
tally_payloads-values i [] t = refl
tally_payloads-values i (p ∷ ps) t = by_test (leb (length p) i) (tally_payloads-values i ps)
  where
    by_test :
        (b : Bool)
        → ((u : Tally) → tally_payloads i ps u ≡ tally_all (values i ps) u)
        → tally_payloads i ps (if b then t else tally_value t (get_or p i 0))
          ≡ tally_all (if b then values i ps else get_or p i 0 ∷ values i ps) t
    by_test true h = h t
    by_test false h = h (tally_value t (get_or p i 0))

get_or-bump :
    (cs : List ℕ) (x v : ℕ)
    → x < length cs
    → get_or (set cs x (get_or cs x 0 + 1)) v 0 ≡ get_or cs v 0 + (if x == v then 1 else 0)
get_or-bump (c ∷ cs) zero zero l = refl
get_or-bump (c ∷ cs) zero (suc v) l = ground arith
get_or-bump (c ∷ cs) (suc x) zero l = ground arith
get_or-bump (c ∷ cs) (suc x) (suc v) l = ground (arith, get_or-bump cs x v)
get_or-bump [] x v l = absurd (omega arith)

nonzeros-bump :
    (cs : List ℕ) (x : ℕ)
    → x < length cs
    → nonzeros (set cs x (get_or cs x 0 + 1))
      ≡ (if get_or cs x 0 == 0 then nonzeros cs + 1 else nonzeros cs)
unfolding nonzeros
nonzeros-bump [] x l = absurd (omega arith)
nonzeros-bump (c ∷ cs) zero l = ground arith
nonzeros-bump (c ∷ cs) (suc x) l = ground (arith, nonzeros-bump cs x)

-- `m` is the least of the values that `c` counts, and `none` says that there is none.
abbrev pub IsLeast : Option ℕ → (ℕ → ℕ) → Type 0
IsLeast none c = (v : ℕ) → c v ≡ 0
IsLeast (some m) c = (0 < c m) × ((v : ℕ) → 0 < c v → m ≤ v)

abbrev pub IsGreatest : Option ℕ → (ℕ → ℕ) → Type 0
IsGreatest none c = (v : ℕ) → c v ≡ 0
IsGreatest (some m) c = (0 < c m) × ((v : ℕ) → 0 < c v → v ≤ m)

abbrev plus : (ℕ → ℕ) → ℕ → ℕ → ℕ
plus c x v = c v + (if x == v then 1 else 0)

plus_self : (c : ℕ → ℕ) (x : ℕ) → plus c x x ≡ c x + 1
plus_self c x = ground arith

lower-IsLeast : (o : Option ℕ) (c : ℕ → ℕ) (x : ℕ) → IsLeast o c → IsLeast (lower o x) (plus c x)
lower-IsLeast none c x h = (omega (arith, plus_self c x), λ v l. ground (arith, h v))
lower-IsLeast (some m) c x h = (ground (arith, plus_self c x), λ v l. ground (arith, h.1 v))

higher-IsGreatest :
    (o : Option ℕ) (c : ℕ → ℕ) (x : ℕ) → IsGreatest o c → IsGreatest (higher o x) (plus c x)
higher-IsGreatest none c x h = (omega (arith, plus_self c x), λ v l. ground (arith, h v))
higher-IsGreatest (some m) c x h = (ground (arith, plus_self c x), λ v l. ground (arith, h.1 v))

-- The tally of the values that `c` counts.
pub record Tallies (t : Tally) (c : ℕ → ℕ) : Type 0 where
  pub bins : length t.counts ≡ 256
  pub counts : (v : ℕ) → get_or t.counts v 0 ≡ c v
  pub distinct : t.distinct ≡ nonzeros t.counts
  pub least : IsLeast t.least c
  pub greatest : IsGreatest t.greatest c

tally_value-Tallies :
    (t : Tally) (c : ℕ → ℕ) (x : ℕ) → x < 256 → Tallies t c → Tallies (tally_value t x) (plus c x)
unfolding tally_value
tally_value-Tallies t c x l h = record {
  bins = length-set t.counts x (get_or t.counts x 0 + 1) ∙ h.bins;
  counts = λ v.
      get_or-bump t.counts x v (omega (arith, h.bins))
      ∙ ap (λ n. n + (if x == v then 1 else 0)) (h.counts v);
  distinct =
      ap (λ n. if get_or t.counts x 0 == 0 then n + 1 else n) h.distinct
      ∙ sym (nonzeros-bump t.counts x (omega (arith, h.bins)));
  least = lower-IsLeast t.least c x h.least;
  greatest = higher-IsGreatest t.greatest c x h.greatest;
}

tally_all-Tallies :
    (vs : List ℕ) (t : Tally) (c : ℕ → ℕ)
    → All (λ (x : ℕ). x < 256) vs
    → Tallies t c
    → Tallies (tally_all vs t) (λ v. c v + count v vs)
unfolding tally_all count
tally_all-Tallies [] t c a h = subst (Tallies t) (fun_ext (λ v. omega arith)) h
tally_all-Tallies (x ∷ vs) t c a h =
    subst (Tallies (tally_all vs (tally_value t x))) (fun_ext (λ v. ground arith))
      (tally_all-Tallies vs (tally_value t x) (plus c x) a.1 (tally_value-Tallies t c x a.0 h))

samples-tally_all : (vs : List ℕ) (t : Tally) → (tally_all vs t).samples ≡ t.samples + length vs
unfolding tally_all tally_value
samples-tally_all [] t = omega arith
samples-tally_all (v ∷ vs) t = omega (arith, samples-tally_all vs (tally_value t v))

get_or-zeros : (n v : ℕ) → ◌≡◌ {A = ℕ} (get_or (replicate n 0) v 0) 0
get_or-zeros zero v = refl
get_or-zeros (suc n) zero = refl
get_or-zeros (suc n) (suc v) = get_or-zeros n v

nonzeros-zeros : (n : ℕ) → nonzeros (replicate n 0) ≡ 0
unfolding nonzeros
nonzeros-zeros zero = refl
nonzeros-zeros (suc n) = nonzeros-zeros n

new_tally-Tallies : Tallies new_tally (λ v. 0)
new_tally-Tallies = record {
  bins = length-replicate {A = ℕ} 256 0;
  counts = get_or-zeros 256;
  distinct = sym (nonzeros-zeros 256);
  least = λ v. refl;
  greatest = λ v. refl;
}

get_or-byte : (bs : List ℕ) (b : ℕ) → All (λ (x : ℕ). x < 256) bs → get_or bs b 0 < 256
get_or-byte [] b a = omega arith
get_or-byte (x ∷ bs) zero a = a.0
get_or-byte (x ∷ bs) (suc b) a = get_or-byte bs b a.1

values-bytes :
    (i : ℕ) (ps : List (List ℕ))
    → All (λ (p : List ℕ). All (λ (x : ℕ). x < 256) p) ps
    → All (λ (x : ℕ). x < 256) (values i ps)
unfolding values
values-bytes i [] a = tt
values-bytes i (p ∷ ps) a = by_test (leb (length p) i) (values-bytes i ps a.1)
  where
    by_test :
        (b : Bool)
        → All (λ (x : ℕ). x < 256) (values i ps)
        → All (λ (x : ℕ). x < 256) (if b then values i ps else get_or p i 0 ∷ values i ps)
    by_test true h = h
    by_test false h = (get_or-byte p i a.0, h)

-- The tally of a byte over payloads of bytes has, for each value, the number of payloads that have
-- it there; as many samples as payloads that are long enough; as many distinct values as there are
-- counts above zero; and the least and the greatest value that occurs, or neither if none does.
pub tally_payloads-Tallies :
    (i : ℕ) (ps : List (List ℕ))
    → All (λ (p : List ℕ). All (λ (x : ℕ). x < 256) p) ps
    → Tallies (tally_payloads i ps new_tally) (λ v. count v (values i ps))
      × ((tally_payloads i ps new_tally).samples ≡ length (values i ps))
tally_payloads-Tallies i ps a = rw (tally_payloads-values i ps new_tally) (
  subst (Tallies (tally_all (values i ps) new_tally)) (fun_ext (λ v. omega arith))
      (tally_all-Tallies (values i ps) new_tally (λ v. 0) (values-bytes i ps a) new_tally-Tallies),
  omega (arith, samples-tally_all (values i ps) new_tally),
)
