-- ===== src/Messages/Buckets.antt =====
-- The buckets of a group of frontend/cockpit/src/protocol/messageModel.ts: what their sum over a
-- window counts.
use discodb.Prelude.{
  ℕ, zero, suc, ◌+◌, ◌-◌, ◌/◌, ◌%◌, ◌≤◌, ◌<◌, ◌≡◌, ◌⊎◌, inl, inr, refl, sym, subst, ap, ap₂, ◌∙◌,
  true, false, ◌&&◌, List, [], ◌∷◌, Option, none, some, ltb, leb, ◌==◌, if◌then◌else◌, if-cases,
  Bool-cases, arith, ◌≢◌,
}
use discodb.FrameRing.Defs.{FrameView}
use discodb.Sockets.{put-same, put-other}
use discodb.Messages.Model.{
  Group, new_group, has_tag, bump, update_group, sum_buckets, windowed_count, rate_horizon_s,
}

abbrev pub second_of : FrameView → ℕ
second_of f = f.t_us / 1000000

-- What a bucket holds for a second, and what a group does.
abbrev entry : Option ℕ → ℕ → ℕ → ℕ
entry tag n s = if has_tag tag s then n else 0

abbrev held : Group → ℕ → ℕ
held g s = entry (g.b_sec (s % rate_horizon_s)) (g.b_cnt (s % rate_horizon_s)) s

-- `n s` frames came in the second `s`, none after `last`.
record Counted (g : Group) (n : ℕ → ℕ) (last : ℕ) : Type 0 where
  none_after : (s : ℕ) → last < s → n s ≡ 0
  holds : (s : ℕ) → last < s + rate_horizon_s → held g s ≡ n s

abbrev one_more : ℕ → (ℕ → ℕ) → ℕ → ℕ
one_more sec n s = if s == sec then n s + 1 else n s

tagged : (t : Option ℕ) (s : ℕ) → has_tag t s ≡ true → t ≡ some s
tagged none s e = absurd (ground (arith, e))
tagged (some t) s e = ap some (ground (arith, e))

bump-here :
    (g : Group) (sec : ℕ)
    → ((bump sec g).b_sec (sec % rate_horizon_s) ≡ some sec)
      × ((bump sec g).b_cnt (sec % rate_horizon_s) ≡ held g sec + 1)
unfolding bump
bump-here g sec =
    if-cases (λ (h : Group). (h.b_sec i ≡ some sec) × (h.b_cnt i ≡ held g sec + 1))
      (has_tag (g.b_sec i) sec)
      (λ t. (
        tagged (g.b_sec i) sec t,
        put-same i (g.b_cnt i + 1) g.b_cnt
            ∙ sym (
                if-cases (λ n. n + 1 ≡ g.b_cnt i + 1) (has_tag (g.b_sec i) sec) (λ _. refl)
                  (λ f. absurd (ground (arith, t, f)))),
      ))
      (λ f. (
        put-same i (some sec) g.b_sec,
        put-same i 1 g.b_cnt
            ∙ sym (
                if-cases (λ n. n + 1 ≡ 1) (has_tag (g.b_sec i) sec)
                  (λ t. absurd (ground (arith, t, f))) (λ _. refl)),
      ))
  where
    i : ℕ
    i = sec % rate_horizon_s

bump-there :
    (g : Group) (sec j : ℕ)
    → (j == sec % rate_horizon_s) ≡ false
    → ((bump sec g).b_sec j ≡ g.b_sec j) × ((bump sec g).b_cnt j ≡ g.b_cnt j)
unfolding bump
bump-there g sec j e =
    if-cases (λ (h : Group). (h.b_sec j ≡ g.b_sec j) × (h.b_cnt j ≡ g.b_cnt j))
      (has_tag (g.b_sec (sec % rate_horizon_s)) sec)
      (λ _. (refl, put-other (sec % rate_horizon_s) j _ g.b_cnt e))
      (λ _. (
        put-other (sec % rate_horizon_s) j _ g.b_sec e,
        put-other (sec % rate_horizon_s) j _ g.b_cnt e,
      ))

-- Two seconds in one bucket are some rounds apart.
next_round :
    (s sec : ℕ)
    → sec < s + rate_horizon_s
    → s % rate_horizon_s ≡ sec % rate_horizon_s
    → s ≢ sec
    → sec < s
next_round s sec m e n = ground (arith, m, e, n)

bump-Counted :
    (g : Group) (n : ℕ → ℕ) (last sec : ℕ)
    → last ≤ sec
    → Counted g n last
    → Counted (bump sec g) (one_more sec n) sec
bump-Counted g n last sec l h = record {
  none_after = λ s m. ground (arith, h.none_after s (omega (arith, l, m)), m);
  holds = λ s m. by_place s m (Bool-cases (s % rate_horizon_s == sec % rate_horizon_s));
}
  where
    at_sec : entry (some sec) (held g sec + 1) sec ≡ one_more sec n sec
    at_sec =
        if-cases (λ a. a ≡ one_more sec n sec) (sec == sec)
          (λ _. sym (
            if-cases (λ b. b ≡ held g sec + 1) (sec == sec)
              (λ _. ap (λ k. k + 1) (sym (h.holds sec (omega (arith, l)))))
              (λ f. absurd (ground (arith, f)))))
          (λ f. absurd (ground (arith, f)))

    same :
        (s : ℕ)
        → sec < s + rate_horizon_s
        → s % rate_horizon_s ≡ sec % rate_horizon_s
        → entry (some sec) (held g sec + 1) s ≡ one_more sec n s
    same s m e = elim (Bool-cases (s == sec)) [
      | inl t ↦
          subst (λ x. entry (some sec) (held g sec + 1) x ≡ one_more sec n x) {x = sec} {y = s}
            (ground (arith, t)) at_sec
      | inr f ↦
          if-cases (λ a. a ≡ one_more sec n s) (sec == s) (λ t. absurd (ground (arith, t, f)))
            (λ _. sym (
              if-cases (λ b. b ≡ 0) (s == sec) (λ t. absurd (ground (arith, t, f)))
                (λ _. h.none_after s (omega (arith, l, next_round s sec m e (ground (arith, f)))))))
    ]

    by_place :
        (s : ℕ)
        → sec < s + rate_horizon_s
        → ((s % rate_horizon_s == sec % rate_horizon_s) ≡ true)
          ⊎ ((s % rate_horizon_s == sec % rate_horizon_s) ≡ false)
        → held (bump sec g) s ≡ one_more sec n s
    by_place s m (inl e) =
        let same_place : s % rate_horizon_s ≡ sec % rate_horizon_s = ground (arith, e) in
        ap (λ j. entry ((bump sec g).b_sec j) ((bump sec g).b_cnt j) s) same_place
        ∙ ap₂ (λ t c. entry t c s) (bump-here g sec).0 (bump-here g sec).1
        ∙ same s m same_place
    by_place s m (inr e) =
        let there = bump-there g sec (s % rate_horizon_s) e in
        ap₂ (λ t c. entry t c s) there.0 there.1
        ∙ h.holds s (omega (arith, l, m))
        ∙ sym (if-cases (λ k. k ≡ n s) (s == sec) (λ t. absurd (ground (arith, e, t))) (λ _. refl))

-- The group of the frames that came, the first of them first.
abbrev pub grouped : Group → List FrameView → Group
grouped g [] = g
grouped g (f ∷ fs) = grouped (update_group f g) fs

-- No frame is from a second before the last.
abbrev pub InOrder : ℕ → List FrameView → Type 0
InOrder last [] = Unit
InOrder last (f ∷ fs) = (last ≤ second_of f) × InOrder (second_of f) fs

abbrev pub last_second : ℕ → List FrameView → ℕ
last_second last [] = last
last_second last (f ∷ fs) = last_second (second_of f) fs

-- How many frames came in the seconds from `s` on, `k` of them.
abbrev pub count_in : ℕ → ℕ → List FrameView → ℕ
count_in s k [] = 0
count_in s k (f ∷ fs) =
    let n = count_in s k fs in if leb s (second_of f) && ltb (second_of f) (s + k) then n + 1 else n

abbrev all_more : (ℕ → ℕ) → List FrameView → ℕ → ℕ
all_more n [] = n
all_more n (f ∷ fs) = all_more (one_more (second_of f) n) fs

update_group-Counted :
    (f : FrameView) (g : Group) (n : ℕ → ℕ) (last : ℕ)
    → last ≤ second_of f
    → Counted g n last
    → Counted (update_group f g) (one_more (second_of f) n) (second_of f)
unfolding update_group
update_group-Counted f g n last l h =
    bump-Counted shown n last (second_of f) l
      (record { none_after = h.none_after; holds = h.holds })
  where
    shown : Group
    shown = record g { count = g.count + 1; bytes = f.bytes; dlc = f.dlc; last_t_us = f.t_us }

grouped-Counted :
    (fs : List FrameView) (g : Group) (n : ℕ → ℕ) (last : ℕ)
    → InOrder last fs
    → Counted g n last
    → Counted (grouped g fs) (all_more n fs) (last_second last fs)
grouped-Counted [] g n last o h = h
grouped-Counted (f ∷ fs) g n last o h =
    grouped-Counted fs (update_group f g) (one_more (second_of f) n) (second_of f) o.1
      (update_group-Counted f g n last o.0 h)

abbrev sum_of : (ℕ → ℕ) → ℕ → ℕ → ℕ
sum_of n s zero = 0
sum_of n s (suc k) = n s + sum_of n (s + 1) k

sum_buckets-sum_of :
    (g : Group) (n : ℕ → ℕ) (s k : ℕ)
    → ((t : ℕ) → s ≤ t → held g t ≡ n t)
    → sum_buckets g s k ≡ sum_of n s k
unfolding sum_buckets
sum_buckets-sum_of g n s zero h = refl
sum_buckets-sum_of g n s (suc k) h =
    let rest = sum_buckets-sum_of g n (s + 1) k (λ t l. h t (omega (arith, l))) in
    if-cases (λ x. x ≡ n s + sum_of n (s + 1) k) (has_tag (g.b_sec (s % rate_horizon_s)) s)
      (λ t.
        ap₂ (λ a b. a + b)
          (subst (λ c. (if c then g.b_cnt (s % rate_horizon_s) else 0) ≡ n s) t (h s (omega arith)))
          rest)
      (λ f. omega (
        arith,
        rest,
        subst (λ c. (if c then g.b_cnt (s % rate_horizon_s) else 0) ≡ n s) f (h s (omega arith)),
      ))

sum_of-one_more :
    (sec : ℕ) (n : ℕ → ℕ) (s k : ℕ)
    → sum_of (one_more sec n) s k
      ≡ (if leb s sec && ltb sec (s + k) then sum_of n s k + 1 else sum_of n s k)
sum_of-one_more sec n s zero = ground arith
sum_of-one_more sec n s (suc k) = ground (arith, sum_of-one_more sec n (s + 1) k)

sum_of-all_more :
    (fs : List FrameView) (n : ℕ → ℕ) (s k : ℕ)
    → sum_of (all_more n fs) s k ≡ sum_of n s k + count_in s k fs
sum_of-all_more [] n s k = omega arith
sum_of-all_more (f ∷ fs) n s k =
    ground (
      arith,
      sum_of-all_more fs (one_more (second_of f) n) s k,
      sum_of-one_more (second_of f) n s k,
    )

sum_of-none : (s k : ℕ) → sum_of (λ t. 0) s k ≡ 0
sum_of-none s zero = refl
sum_of-none s (suc k) = omega (arith, sum_of-none (s + 1) k)

-- When the frames of a group came in order of their seconds and none is later than now, the count over
-- a window of at most 600 seconds that the group keeps is the number of its frames in these seconds.
pub windowed_count-count_in :
    (f : FrameView) (fs : List FrameView) (now_sec win_sec : ℕ)
    → InOrder (second_of f) fs
    → last_second (second_of f) fs ≤ now_sec
    → win_sec ≤ rate_horizon_s
    → let start = now_sec + 1 - win_sec in
      windowed_count (grouped (new_group f) (f ∷ fs)) now_sec win_sec
      ≡ count_in start (now_sec + 1 - start) (f ∷ fs)
unfolding windowed_count
windowed_count-count_in f fs now_sec win_sec o l w =
    sum_buckets-sum_of (grouped (new_group f) (f ∷ fs)) (all_more (λ t. 0) (f ∷ fs)) start size
      (λ t m. counted.holds t (omega (arith, l, w, m)))
    ∙ sum_of-all_more (f ∷ fs) (λ t. 0) start size
    ∙ ap (λ n. n + count_in start size (f ∷ fs)) (sum_of-none start size)
    ∙ omega arith
  where
    start : ℕ
    start = now_sec + 1 - win_sec

    size : ℕ
    size = now_sec + 1 - start

    counted :
        Counted
          (grouped (new_group f) (f ∷ fs))
          (all_more (λ t. 0) (f ∷ fs))
          (last_second (second_of f) fs)
    counted =
        grouped-Counted (f ∷ fs) (new_group f) (λ t. 0) 0 (omega arith, o)
          (record { none_after = λ s m. refl; holds = λ s m. refl })
