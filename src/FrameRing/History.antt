-- ===== src/FrameRing/History.antt =====
-- The ring of frontend/cockpit/src/state/ringBuffer.ts against the list of all frames pushed since
-- it was made or cleared, of which it keeps the last.
use native.Mathlib.Nat.{mod-add-mod, add-mod_right, mod-eq_of_lt, mod-eq-sub-mod, mod-lt}
use discodb.Prelude.{
  ℕ, ◌+◌, ◌-◌, ◌%◌, ◌≤◌, ◌<◌, min, ◌≡◌, ◌≢◌, ◌⊎◌, inl, inr, refl, sym, ap, subst, ◌∙◌, true, false,
  List, [], ◌∷◌, ◌++◌, map, length, length-append, get_elem?, get_elem?-append_left,
  get_elem?-append_last, some, ltb, Bool-cases, ltb→lt, not_ltb→le, append_assoc, append-nil, arith,
  max, All,
}
use discodb.Wire.Decode.{CanFrame}
use discodb.FrameRing.Defs.{
  Ring, FrameView, build, write_slot, new_ring, push, push_many, clear, physical,
}
use discodb.FrameRing.Slots.{
  AreColumns, blank_columns-AreColumns, view_of, build-write_slot_self, build-write_slot_other,
  write_slot-AreColumns,
}

-- The frame at absolute index `a` is in slot `a % cap`, as long as it is retained.
pub record Represents (h : List FrameView) (r : Ring) : Type 0 where
  pub cap_pos : 0 < r.cap
  pub pushed : r.total_pushed ≡ length h
  pub counted : r.count ≡ min r.total_pushed r.cap
  pub next : r.head ≡ r.total_pushed % r.cap
  pub columns_fit : AreColumns r.cap r.columns
  pub retained :
      (a : ℕ)
      → r.total_pushed ≤ a + r.count
      → a < r.total_pushed
      → get_elem? h a ≡ some (build r.columns (a % r.cap))

pub slots_apart : (a t c : ℕ) → a < t → t < a + c → t % c ≢ a % c
slots_apart a t c l m e = absurd (by_wrap (Bool-cases (ltb (a % c + (t - a)) c)))
  where
    r : ℕ
    r = a % c + (t - a)

    same : r % c ≡ a % c
    same = mod-add-mod a c (t - a) ∙ ap (λ k. k % c) (omega arith) ∙ e

    shorter : a % c + (t - a) - c < c
    shorter = omega (arith, mod-lt a {m = c} (omega arith))

    by_wrap : (ltb (a % c + (t - a)) c ≡ true) ⊎ (ltb (a % c + (t - a)) c ≡ false) → ⊥
    by_wrap (inl w) =
        omega
          (arith, ltb→lt (a % c + (t - a)) c w, mod-eq_of_lt (ltb→lt (a % c + (t - a)) c w), same)
    by_wrap (inr w) = omega (
      arith,
      not_ltb→le (a % c + (t - a)) c w,
      same,
      mod-eq-sub-mod (not_ltb→le (a % c + (t - a)) c w),
      mod-lt a {m = c} (omega arith),
      mod-eq_of_lt shorter,
    )

pub physical_lem :
    (h : List FrameView) (r : Ring) (l : ℕ)
    → Represents h r
    → l < r.count
    → physical r l ≡ (r.total_pushed - r.count + l) % r.cap
unfolding physical
physical_lem h r l p m = by_full (Bool-cases (ltb r.count r.cap))
  where
    by_full :
        (ltb r.count r.cap ≡ true) ⊎ (ltb r.count r.cap ≡ false)
        → physical r l ≡ (r.total_pushed - r.count + l) % r.cap
    by_full (inl e) = rw e (ap (λ k. k % r.cap) (omega (arith, p.counted, ltb→lt r.count r.cap e)))
    by_full (inr e) =
        rw (e, p.next)
          (mod-add-mod r.total_pushed r.cap l
            ∙ ap (λ k. k % r.cap) {x = r.total_pushed + l}
                {y = r.total_pushed - r.count + l + r.cap}
                (omega (arith, p.counted, not_ltb→le r.count r.cap e))
            ∙ add-mod_right (r.total_pushed - r.count + l) r.cap)

pub new_ring-Represents : (capacity : ℕ) → Represents [] (new_ring capacity)
unfolding new_ring
new_ring-Represents capacity = record {
  cap_pos = omega arith;
  pushed = refl;
  counted = omega arith;
  next = sym (mod-eq_of_lt (omega arith));
  columns_fit = blank_columns-AreColumns (max 1 capacity);
  retained = λ a h l. absurd (omega arith);
}

pub clear-Represents : (h : List FrameView) (r : Ring) → Represents h r → Represents [] (clear r)
unfolding clear
clear-Represents h r p = record {
  cap_pos = p.cap_pos;
  pushed = refl;
  counted = omega arith;
  next = sym (mod-eq_of_lt p.cap_pos);
  columns_fit = p.columns_fit;
  retained = λ a k l. absurd (omega arith);
}

-- Pushing a classic frame keeps the ring a faithful picture of the frames pushed: it has counted
-- them all, and each of the last ones, as many as there are slots, is in its slot.
pub push-Represents :
    (h : List FrameView) (r : Ring) (f : CanFrame)
    → f.dlc ≤ 8
    → Represents h r
    → Represents (h ++ (view_of f ∷ [])) (push r f)
unfolding push
push-Represents h r f d p = record {
  cap_pos = p.cap_pos;
  pushed = omega (arith, p.pushed, length-append h (view_of f ∷ []));
  counted = ground (arith, p.counted);
  next = ap (λ k. (k + 1) % r.cap) p.next ∙ mod-add-mod r.total_pushed r.cap 1;
  columns_fit = write_slot-AreColumns r.columns r.cap r.head f p.columns_fit fits d;
  retained = λ a k l. by_age a k l (age a);
}
  where
    fits : r.head < r.cap
    fits = subst (λ k. k < r.cap) (sym p.next) (mod-lt r.total_pushed p.cap_pos)

    age : (a : ℕ) → (a ≡ r.total_pushed) ⊎ (a ≢ r.total_pushed)
    age a = omega arith

    kept :
        (a : ℕ)
        → r.total_pushed + 1 ≤ a + (push r f).count
        → a ≢ r.total_pushed
        → r.total_pushed ≤ a + r.count
    kept a k n = ground arith

    recent : (a : ℕ) → r.total_pushed + 1 ≤ a + (push r f).count → r.total_pushed < a + r.cap
    recent a k = ground (arith, p.counted)

    by_age :
        (a : ℕ)
        → r.total_pushed + 1 ≤ a + (push r f).count
        → a < r.total_pushed + 1
        → (a ≡ r.total_pushed) ⊎ (a ≢ r.total_pushed)
        → get_elem? (h ++ (view_of f ∷ [])) a
          ≡ some (build (write_slot r.columns r.head f) (a % r.cap))
    by_age a k l (inl e) =
        ap (get_elem? (h ++ (view_of f ∷ []))) (e ∙ p.pushed)
        ∙ get_elem?-append_last h (view_of f)
        ∙ ap some (
            sym (build-write_slot_self r.columns r.cap r.head f p.columns_fit fits d)
            ∙ ap (build (write_slot r.columns r.head f)) (p.next ∙ ap (λ i. i % r.cap) (sym e)))
    by_age a k l (inr n) =
        get_elem?-append_left h (view_of f ∷ []) a (omega (arith, p.pushed))
        ∙ p.retained a (kept a k n) (omega arith)
        ∙ ap some (
            sym (
              build-write_slot_other r.columns r.cap r.head f p.columns_fit fits d (a % r.cap)
                (mod-lt a p.cap_pos)
                (λ e.
                  slots_apart a r.total_pushed r.cap (omega arith) (recent a k) (sym p.next ∙ e))))

-- Pushing a batch onto a ring appends it to what the ring has seen.
pub push_many-Represents :
    (h : List FrameView) (r : Ring) (fs : List CanFrame)
    → All (λ (f : CanFrame). f.dlc ≤ 8) fs
    → Represents h r
    → Represents (h ++ map view_of fs) (push_many r fs)
unfolding push_many
push_many-Represents h r [] d p = subst (λ l. Represents l r) (sym (append-nil h)) p
push_many-Represents h r (f ∷ fs) d p =
    subst (λ l. Represents l (push_many (push r f) fs))
      (append_assoc h (view_of f ∷ []) (map view_of fs))
      (push_many-Represents (h ++ (view_of f ∷ [])) (push r f) fs d.1 (push-Represents h r f d.0 p))
