-- ===== src/FrameRing/Reading.antt =====
-- What the reads of the ring of frontend/cockpit/src/state/ringBuffer.ts return, in terms of the
-- frames pushed.
use discodb.Prelude.{
  ℕ, zero, suc, ◌+◌, ◌-◌, ◌≤◌, ◌<◌, ◌≡◌, ◌⊎◌, inl, inr, refl, sym, ap, ◌∙◌, Bool, true, false, not,
  ◌||◌, List, [], ◌∷◌, length, drop, drop-step, drop-append, length-append, length-map, map, ◌++◌,
  ap₂, All, drop_past, filter, get_elem?, get_elem?-drop, get_elem?_past, get_or, Option, none,
  some, ltb, leb, Bool-cases, lt→ltb, le→not_ltb, leb→le, if◌then◌else◌, arith,
}
use discodb.FrameRing.Defs.{
  Ring, FrameView, build, physical, at_index, other_id, skipped, collect_from, window, push_view,
  since_from, caught_up, since, push, push_many,
}
use discodb.FrameRing.History.{Represents, physical_lem, push_many-Represents}
use discodb.FrameRing.Slots.{view_of}
use discodb.Wire.Decode.{CanFrame}

-- The frames a ring that has seen `h` still holds.
abbrev pub held : List FrameView → Ring → List FrameView
held h r = drop (length h - r.cap) h

abbrev pub in_window : ℕ → ℕ → Option ℕ → FrameView → Bool
in_window start end id v = not (ltb v.t_us start || ltb end v.t_us || other_id id v.id)

abbrev pub has_id : Option ℕ → FrameView → Bool
has_id id v = not (other_id id v.id)

keep_or_skip {ℓ} :
    {A : Type ℓ} (b : Bool) (v : A) (vs : List A)
    → (if b then vs else v ∷ vs) ≡ (if not b then v ∷ vs else vs)
keep_or_skip true v vs = refl
keep_or_skip false v vs = refl

push_or_skip :
    (b : Bool) (v : FrameView) (vs : List FrameView)
    → (if b then some vs else push_view (some v) (some vs)) ≡ some (if not b then v ∷ vs else vs)
unfolding push_view
push_or_skip true v vs = refl
push_or_skip false v vs = refl

module _ (h : List FrameView) (r : Ring) (p : Represents h r) where
  slot_read :
      (l : ℕ)
      → l < r.count
      → get_elem? h (r.total_pushed - r.count + l) ≡ some (build r.columns (physical r l))
  slot_read l m =
      p.retained (r.total_pushed - r.count + l) (omega arith) (omega (arith, p.counted))
      ∙ ap (λ k. some (build r.columns k)) (sym (physical_lem h r l p m))

  first_held : length h - r.cap ≡ r.total_pushed - r.count
  first_held = omega (arith, p.counted, p.pushed)

  -- Reading at a logical index gives the frame at that place among the held ones, and outside of
  -- them the error.
  pub at_index-held : (l : ℕ) → at_index r l ≡ get_elem? (held h r) l
  unfolding at_index
  at_index-held l = by_range (Bool-cases (leb r.count l))
    where
      inside : leb r.count l ≡ false → l < r.count
      inside e = ground arith

      by_range :
          (leb r.count l ≡ true) ⊎ (leb r.count l ≡ false) → at_index r l ≡ get_elem? (held h r) l
      by_range (inl e) = rw e (
          sym (
            get_elem?-drop h (length h - r.cap) l
            ∙ get_elem?_past h (length h - r.cap + l)
                (omega (arith, leb→le r.count l e, p.pushed, p.counted))))
      by_range (inr e) = rw e (
          sym (slot_read l (inside e))
          ∙ sym (get_elem?-drop h (length h - r.cap) l ∙ ap (λ k. get_elem? h (k + l)) first_held))

  at_in_ring : (l : ℕ) → l < r.count → at_index r l ≡ some (build r.columns (physical r l))
  unfolding at_index
  at_in_ring l m = rw not_leb
    where
      not_leb : leb r.count l ≡ false
      not_leb = ground arith

  drop-slot :
      (l : ℕ)
      → l < r.count
      → drop (r.total_pushed - r.count + l) h
        ≡ build r.columns (physical r l) ∷ drop (r.total_pushed - r.count + l + 1) h
  drop-slot l m =
      drop-step h (r.total_pushed - r.count + l) (build r.columns (physical r l)) (slot_read l m)

  collect_from-filter :
      (start end : ℕ) (id : Option ℕ) (l n : ℕ)
      → l + n ≡ r.count
      → collect_from r start end id l n
        ≡ filter (in_window start end id) (drop (r.total_pushed - r.count + l) h)
  unfolding collect_from skipped build
  collect_from-filter start end id l zero e =
      rw (drop_past h (r.total_pushed - r.count + l) (omega (arith, p.pushed, p.counted)))
  collect_from-filter start end id l (suc n) e =
      rw
        (
          drop-slot l (omega arith),
          collect_from-filter start end id (l + 1) n (omega arith)
              ∙ ap (λ k. filter (in_window start end id) (drop k h))
                  {x = r.total_pushed - r.count + (l + 1)} {y = r.total_pushed - r.count + l + 1}
                  (omega arith),
        )
        (keep_or_skip (skipped r.columns start end id (physical r l))
          (build r.columns (physical r l))
          (filter (in_window start end id) (drop (r.total_pushed - r.count + l + 1) h)))

  -- A window holds the held frames whose time is within its bounds and whose identifier is the one
  -- asked for, oldest first.
  pub window-filter :
      (start end : ℕ) (id : Option ℕ)
      → window r start end id ≡ filter (in_window start end id) (held h r)
  unfolding window
  window-filter start end id =
      collect_from-filter start end id 0 r.count (omega arith)
      ∙ ap (λ k. filter (in_window start end id) (drop k h)) {x = r.total_pushed - r.count + 0}
          {y = length h - r.cap} (omega (arith, p.pushed, p.counted))

  since_from-filter :
      (id : Option ℕ) (a n : ℕ)
      → a + n ≡ r.total_pushed
      → r.total_pushed ≤ a + r.count
      → since_from r id a n ≡ some (filter (has_id id) (drop a h))
  unfolding since_from build
  since_from-filter id a zero e m = rw (drop_past h a (omega (arith, p.pushed)))
  since_from-filter id a (suc n) e m =
      rw (since_from-filter id (a + 1) n (omega arith) (omega arith), here, at_slot)
        (push_or_skip
          (other_id id (get_or r.columns.id (physical r (a - (r.total_pushed - r.count))) 0))
          (build r.columns (physical r (a - (r.total_pushed - r.count))))
          (filter (has_id id) (drop (a + 1) h)))
    where
      at_slot :
          at_index r (a - (r.total_pushed - r.count))
          ≡ some (build r.columns (physical r (a - (r.total_pushed - r.count))))
      at_slot = at_in_ring (a - (r.total_pushed - r.count)) (omega arith)

      here :
          drop a h ≡ build r.columns (physical r (a - (r.total_pushed - r.count))) ∷ drop (a + 1) h
      here =
          ap (λ k. drop k h) {x = a}
            {y = r.total_pushed - r.count + (a - (r.total_pushed - r.count))} (omega arith)
          ∙ drop-slot (a - (r.total_pushed - r.count)) (omega arith)
          ∙ ap (λ k. build r.columns (physical r (a - (r.total_pushed - r.count))) ∷ drop k h)
              {x = r.total_pushed - r.count + (a - (r.total_pushed - r.count)) + 1} {y = a + 1}
              (omega arith)

  -- A cursor that is still in the ring returns every later frame of the identifier asked for, and
  -- the new cursor. No read is out of range.
  pub since-filter :
      (seq : ℕ) (id : Option ℕ)
      → seq ≤ length h
      → length h ≤ seq + r.cap
      → since r seq id
        ≡ some (record { frames = filter (has_id id) (drop seq h); seq = length h; lapped = false })
  unfolding since caught_up
  since-filter seq id l m = rw (
    le→not_ltb r.total_pushed seq (omega (arith, p.pushed)),
    le→not_ltb seq (r.total_pushed - r.count) (omega (arith, p.pushed, p.counted)),
    since_from-filter id seq (r.total_pushed - seq) (omega (arith, p.pushed))
        (omega (arith, p.pushed, p.counted)),
    p.pushed,
  )

  -- A cursor that is ahead of the frames pushed, or behind the oldest one held, is reported as
  -- lapped, with no frames.
  pub since-lapped :
      (seq : ℕ) (id : Option ℕ)
      → (length h < seq) ⊎ (seq + r.cap < length h)
      → since r seq id ≡ some (record { frames = []; seq = length h; lapped = true })
  unfolding since caught_up
  since-lapped seq id (inl l) = rw (lt→ltb r.total_pushed seq (omega (arith, p.pushed)), p.pushed)
  since-lapped seq id (inr l) = rw (
    le→not_ltb r.total_pushed seq (omega (arith, p.pushed)),
    lt→ltb seq (r.total_pushed - r.count) (omega (arith, p.pushed, p.counted)),
    p.pushed,
  )

filter-has_id : (vs : List FrameView) → filter (has_id none) vs ≡ vs
filter-has_id [] = refl
filter-has_id (v ∷ vs) = ap (λ l. v ∷ l) (filter-has_id vs)

cap-push_many : (r : Ring) (fs : List CanFrame) → (push_many r fs).cap ≡ r.cap
unfolding push push_many
cap-push_many r [] = refl
cap-push_many r (f ∷ fs) = cap-push_many (push r f) fs

-- A consumer that had read everything gets, after a batch no larger than the ring, exactly that
-- batch, whatever was overwritten meanwhile.
pub since-push_many :
    (h : List FrameView) (r : Ring) (fs : List CanFrame)
    → Represents h r
    → All (λ (f : CanFrame). f.dlc ≤ 8) fs
    → length fs ≤ r.cap
    → since (push_many r fs) r.total_pushed none
      ≡ some (record { frames = map view_of fs; seq = r.total_pushed + length fs; lapped = false })
since-push_many h r fs p d l =
    ap (λ n. since (push_many r fs) n none) p.pushed
    ∙ since-filter (h ++ map view_of fs) (push_many r fs) (push_many-Represents h r fs d p)
        (length h) none (omega (arith, size)) (omega (arith, size, cap-push_many r fs))
    ∙ ap₂ (λ vs n. some (record { frames = vs; seq = n; lapped = false }))
        (filter-has_id (drop (length h) (h ++ map view_of fs))
          ∙ drop-append (length h) h (map view_of fs) refl)
        (omega (arith, size, p.pushed))
  where
    size : length (h ++ map view_of fs) ≡ length h + length fs
    size = length-append h (map view_of fs) ∙ ap (λ n. length h + n) (length-map view_of fs)
