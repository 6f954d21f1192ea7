-- ===== src/Messages/Simulation.antt =====
-- The groups of messageModel.ts against those of messages.ts (frontend/cockpit/src/protocol), frame
-- by frame.
use discodb.Prelude.{
  ℤ, ℕ, ◌+◌, ◌/◌, ◌%◌, ◌≤◌, ◌<◌, ◌≡◌, ◌⊎◌, inl, inr, refl, sym, ap, ◌∙◌, Bool, List, [], ◌∷◌,
  length, Option, none, some, leb, if◌then◌else◌, if-cases, arith,
}
use discodb.FrameRing.Defs.{FrameView}
use discodb.Signal.Defs.{BitRange}
use discodb.Messages.Values.{
  ◌>>=◌, field_value_of, is_same, upsert, map_entries, map_entries-upsert, length-map_entries,
}
use discodb.Messages.Rows.{Gathered, new_gathered, gathered, gather_all}
use discodb.Messages.Model.{
  Group, new_group, has_tag, bump, update_group, incremental, passthrough, Model, add_frame,
  passed_through, fold_frames, max_messages, rate_horizon_s,
}

-- What a row shows of a group, apart from the rate.
pub record Shown : Type 0 where
  pub bytes : List ℕ
  pub dlc : ℕ
  pub last_t_us : ℕ
  pub count : ℕ

abbrev pub shown_group : Group → Shown
shown_group g = record { bytes = g.bytes; dlc = g.dlc; last_t_us = g.last_t_us; count = g.count }

abbrev pub shown_gathered : Gathered → Shown
shown_gathered g = record { bytes = g.bytes; dlc = g.dlc; last_t_us = g.last_t_us; count = g.count }

abbrev pub shown_next : FrameView → Shown → Shown
shown_next f s = record { bytes = f.bytes; dlc = f.dlc; last_t_us = f.t_us; count = s.count + 1 }

pub update_group-shown :
    (f : FrameView) (g : Group) → shown_group (update_group f g) ≡ shown_next f (shown_group g)
unfolding update_group bump
update_group-shown f g =
    if-cases (λ (h : Group). shown_group h ≡ shown_next f (shown_group g))
      (has_tag (g.b_sec (f.t_us / 1000000 % rate_horizon_s)) (f.t_us / 1000000)) (λ _. refl)
      (λ _. refl)

length-upsert :
    {A : Type 0} (v : ℤ) (new : A) (f : A → A) (es : List (ℤ × A))
    → length es ≤ length (upsert v new f es)
length-upsert v new f [] = omega arith
length-upsert v new f (e ∷ es) =
    if-cases (λ (l : List _). length (e ∷ es) ≤ length l) (is_same e.0 v) (λ _. omega arith)
      (λ _. omega (arith, length-upsert v new f es))

module _ (field : BitRange) (low : ℕ) where
  abbrev pub Many : Option (List (ℤ × Gathered)) → Type 0
  Many none = Unit
  Many (some gs) = max_messages < length gs

  abbrev pub SameGroups : List (ℤ × Group) → List (ℤ × Gathered) → Type 0
  SameGroups ms gs = map_entries shown_group ms ≡ map_entries shown_gathered gs

  -- What the two loops come to.
  abbrev pub Related : Option Model → Option (List (ℤ × Gathered)) → Type 0
  Related none o = o ≡ none
  Related (some m) o =
      ((m.mode ≡ passthrough) × Many o)
      ⊎ ((m.mode ≡ incremental)
          × ((gs : List (ℤ × Gathered)) × (o ≡ some gs) × SameGroups m.groups gs))

  pub gather_all-Many :
      (fs : List FrameView) (gs : List (ℤ × Gathered))
      → max_messages < length gs
      → Many (gather_all field low fs gs)
  unfolding gather_all
  gather_all-Many [] gs h = h
  gather_all-Many (f ∷ fs) gs h = by_value (field_value_of field f) (λ v.
      gather_all-Many fs (upsert v (new_gathered f) (gathered low f) gs)
        (omega (arith, h, length-upsert v (new_gathered f) (gathered low f) gs)))
    where
      by_value :
          (o : Option ℤ)
          → ((v : ℤ)
              → Many (gather_all field low fs (upsert v (new_gathered f) (gathered low f) gs)))
          → Many
              (o >>= λ v. gather_all field low fs (upsert v (new_gathered f) (gathered low f) gs))
      by_value none rest = tt
      by_value (some v) rest = rest v

  step-SameGroups :
      (v : ℤ) (f : FrameView) (ms : List (ℤ × Group)) (gs : List (ℤ × Gathered))
      → SameGroups ms gs
      → SameGroups
          (upsert v (new_group f) (update_group f) ms)
          (upsert v (new_gathered f) (gathered low f) gs)
  step-SameGroups v f ms gs e =
      map_entries-upsert shown_group v (new_group f) (update_group f) (shown_next f)
        (update_group-shown f) ms
      ∙ ap (λ l. upsert v (shown_group (new_group f)) (shown_next f) l) e
      ∙ sym (
          map_entries-upsert shown_gathered v (new_gathered f) (gathered low f) (shown_next f)
            (λ g. refl) gs)

  length-SameGroups :
      (ms : List (ℤ × Group)) (gs : List (ℤ × Gathered)) → SameGroups ms gs → length ms ≡ length gs
  length-SameGroups ms gs e =
      sym (length-map_entries shown_group ms)
      ∙ ap (λ l. length l) e
      ∙ length-map_entries shown_gathered gs

  pub fold_frames-Related :
      (appends : Bool) (fs : List FrameView) (m : Model) (gs : List (ℤ × Gathered))
      → m.mode ≡ incremental
      → SameGroups m.groups gs
      → Related (fold_frames appends (some field) fs m) (gather_all field low fs gs)
  unfolding fold_frames add_frame gather_all
  fold_frames-Related appends [] m gs i e = inr (i, (gs, refl, e))
  fold_frames-Related appends (f ∷ fs) m gs i e = by_value (field_value_of field f) (λ v.
      fold_frames-Related appends fs _ (upsert v (new_gathered f) (gathered low f) gs) i
        (step-SameGroups v f m.groups gs e))
    where
      groups : ℤ → List (ℤ × Group)
      groups v = upsert v (new_group f) (update_group f) m.groups

      tested : ℤ → Option (Bool × Model)
      tested v = some (
        leb (length (groups v)) max_messages,
        record m { id_count = m.id_count + 1; groups = groups v },
      )

      next : ℤ → Model
      next v = record m {
        id_count = m.id_count + 1;
        groups = groups v;
        id_last_t_us = if appends then f.t_us else m.id_last_t_us;
      }

      gathered_on : ℤ → Option (List (ℤ × Gathered))
      gathered_on v = gather_all field low fs (upsert v (new_gathered f) (gathered low f) gs)

      by_value :
          (o : Option ℤ)
          → ((v : ℤ) → Related (fold_frames appends (some field) fs (next v)) (gathered_on v))
          → Related
              ((o >>= tested) >>= λ r.
                if r.0
                then fold_frames appends
                    (some field)
                    fs
                    (record r.1 { id_last_t_us = if appends then f.t_us else r.1.id_last_t_us })
                else some (passed_through r.1))
              (o >>= gathered_on)
      by_value none rest = refl
      by_value (some v) rest =
          if-cases (λ r. Related r (gathered_on v)) (leb (length (groups v)) max_messages)
            (λ _. rest v)
            (λ t. inl (
              refl,
              gather_all-Many fs (upsert v (new_gathered f) (gathered low f) gs) (
                  ground
                    (arith, t, length-SameGroups (groups v) _ (step-SameGroups v f m.groups gs e))),
            ))
