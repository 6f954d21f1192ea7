-- ===== src/FrameRing/Slots.antt =====
-- A slot of the ring of frontend/cockpit/src/state/ringBuffer.ts after a frame was written: the
-- slot itself reads as that frame, and every other slot as before.
use discodb.Prelude.{
  ℕ, zero, suc, ◌+◌, ◌*◌, ◌%◌, ◌^◌, ◌≤◌, ◌<◌, min, ◌≡◌, ◌≢◌, ◌⊎◌, inl, inr, refl, sym, ap, subst,
  ap₂, ◌∙◌, Bool, true, false, bit_and, bit_or, nonzero, List, [], ◌∷◌, length, length-set,
  length-replicate, get_or, get_or-set_self, get_or-set_ne, set, take, drop, replicate, lt→ltb,
  arith,
}
use discodb.Wire.Decode.{CanFrame}
use discodb.Wire.Reads.{slice}
use discodb.FrameRing.Defs.{
  Columns, blank_columns, flag, flags_of, stored_byte, write_payload, write_slot, FrameView, build,
}

slice-ext :
    (xs ys : List ℕ) (b c n : ℕ)
    → ((j : ℕ) → j < n → get_or xs (b + j) 0 ≡ get_or ys (c + j) 0)
    → slice xs b n ≡ slice ys c n
unfolding slice
slice-ext xs ys b c zero h = refl
slice-ext xs ys b c (suc n) h =
    ap₂ (λ x l. x ∷ l)
      (ap (λ k. get_or xs k 0) (omega arith)
        ∙ h 0 (omega arith)
        ∙ ap (λ k. get_or ys k 0) (omega arith))
      (slice-ext xs ys (b + 1) (c + 1) n (λ j l.
        ap (λ k. get_or xs k 0) (omega arith)
        ∙ h (suc j) (omega arith)
        ∙ ap (λ k. get_or ys k 0) (omega arith)))

take-drop : (xs : List ℕ) (b n : ℕ) → b + n ≤ length xs → take n (drop b xs) ≡ slice xs b n
unfolding slice
take-drop xs b zero h = refl
take-drop [] zero (suc n) h = absurd (omega arith)
take-drop (x ∷ xs) zero (suc n) h =
    ap (λ l. x ∷ l)
      (take-drop xs zero n (omega arith) ∙ slice-ext xs (x ∷ xs) 0 1 n (λ j l. shifted j))
  where
    shifted : (j : ℕ) → get_or xs (0 + j) 0 ≡ get_or (x ∷ xs) (1 + j) 0
    shifted j =
        ap (λ k. get_or xs k 0) {x = 0 + j} {y = j} (omega arith)
        ∙ ap (λ k. get_or (x ∷ xs) k 0) {x = suc j} {y = 1 + j} (omega arith)
take-drop [] (suc b) (suc n) h = absurd (omega arith)
take-drop (x ∷ xs) (suc b) (suc n) h =
    take-drop xs b (suc n) (omega arith)
    ∙ slice-ext xs (x ∷ xs) b (suc b) (suc n) (λ j l. shifted j)
  where
    shifted : (j : ℕ) → get_or xs (b + j) 0 ≡ get_or (x ∷ xs) (suc b + j) 0
    shifted j = ap (λ k. get_or (x ∷ xs) k 0) {x = suc (b + j)} {y = suc b + j} (omega arith)

pub length-write_payload :
    (bs : List ℕ) (base : ℕ) (f : CanFrame) (b k : ℕ)
    → length (write_payload bs base f b k) ≡ length bs
unfolding write_payload
length-write_payload bs base f b zero = refl
length-write_payload bs base f b (suc k) =
    length-write_payload (set bs (base + b) (stored_byte f b)) base f (b + 1) k
    ∙ length-set bs (base + b) (stored_byte f b)

get_or-write_payload_out :
    (bs : List ℕ) (base : ℕ) (f : CanFrame) (b k q : ℕ)
    → (q < base + b) ⊎ (base + b + k ≤ q)
    → get_or (write_payload bs base f b k) q 0 ≡ get_or bs q 0
unfolding write_payload
get_or-write_payload_out bs base f b zero q h = refl
get_or-write_payload_out bs base f b (suc k) q h =
    get_or-write_payload_out (set bs (base + b) (stored_byte f b)) base f (b + 1) k q (omega arith)
    ∙ get_or-set_ne bs (stored_byte f b) 0 (omega arith)

get_or-write_payload_in :
    (bs : List ℕ) (base : ℕ) (f : CanFrame) (b k j : ℕ)
    → base + b + k ≤ length bs
    → j < k
    → get_or (write_payload bs base f b k) (base + b + j) 0 ≡ stored_byte f (b + j)
unfolding write_payload
get_or-write_payload_in bs base f b zero j h l = absurd (omega arith)
get_or-write_payload_in bs base f b (suc k) zero h l =
    get_or-write_payload_out (set bs (base + b) (stored_byte f b)) base f (b + 1) k (base + b + 0)
      (omega arith)
    ∙ ap (λ i. get_or (set bs (base + b) (stored_byte f b)) i 0) (omega arith)
    ∙ get_or-set_self bs (base + b) (stored_byte f b) 0 (omega arith)
    ∙ ap (stored_byte f) (omega arith)
get_or-write_payload_in bs base f b (suc k) (suc j) h l =
    let longer = set bs (base + b) (stored_byte f b) in
    ap (λ i. get_or (write_payload longer base f (b + 1) k) i 0) (omega arith)
    ∙ get_or-write_payload_in longer base f (b + 1) k j
        (omega (arith, length-set bs (base + b) (stored_byte f b))) (omega arith)
    ∙ ap (stored_byte f) (omega arith)

-- The columns of `n` slots, with a classic DLC in each.
pub record AreColumns (n : ℕ) (c : Columns) : Type 0 where
  pub t_us_size : length c.t_us ≡ n
  pub id_size : length c.id ≡ n
  pub flags_size : length c.flags ≡ n
  pub dlc_size : length c.dlc ≡ n
  pub bytes_size : length c.bytes ≡ n * 8
  pub classic : (p : ℕ) → get_or c.dlc p 0 ≤ 8

get_or-zeros : (n p : ℕ) → ◌≡◌ {A = ℕ} (get_or (replicate n 0) p 0) 0
get_or-zeros zero p = refl
get_or-zeros (suc n) zero = refl
get_or-zeros (suc n) (suc p) = get_or-zeros n p

pub blank_columns-AreColumns : (n : ℕ) → AreColumns n (blank_columns n)
blank_columns-AreColumns n = record {
  t_us_size = length-replicate {A = ℕ} n 0;
  id_size = length-replicate {A = ℕ} n 0;
  flags_size = length-replicate {A = ℕ} n 0;
  dlc_size = length-replicate {A = ℕ} n 0;
  bytes_size = length-replicate {A = ℕ} (n * 8) 0;
  classic = λ p. omega (arith, get_or-zeros n p);
}

-- The payload bytes of a frame as they are stored.
unfoldable pub stored_bytes : CanFrame → ℕ → ℕ → List ℕ
stored_bytes f b zero = []
stored_bytes f b (suc n) = get_or f.bytes b 0 % 2 ^ 8 ∷ stored_bytes f (b + 1) n

-- A pushed frame as it is read back.
abbrev pub view_of : CanFrame → FrameView
view_of f = record {
  t_us = f.t_us;
  id = f.id % 2 ^ 32;
  is_extended = f.is_extended;
  is_error = f.is_error;
  is_rtr = f.is_rtr;
  dlc = f.dlc;
  bytes = stored_bytes f 0 f.dlc;
}

slice-stored :
    (xs : List ℕ) (f : CanFrame) (base b n : ℕ)
    → f.dlc ≤ 8
    → b + n ≤ f.dlc
    → ((j : ℕ) → j < 8 → get_or xs (base + j) 0 ≡ stored_byte f j)
    → slice xs (base + b) n ≡ stored_bytes f b n
unfolding slice stored_bytes
slice-stored xs f base b zero d l h = refl
slice-stored xs f base b (suc n) d l h =
    ap₂ (λ x t. x ∷ t) (h b (omega arith) ∙ inside)
      (ap (λ k. slice xs k n) (omega arith) ∙ slice-stored xs f base (b + 1) n d (omega arith) h)
  where
    inside : stored_byte f b ≡ get_or f.bytes b 0 % 2 ^ 8
    inside = rw (lt→ltb b (min f.dlc 8) (omega arith))

flags_read :
    (f : CanFrame)
    → (nonzero (bit_and (flags_of f) 1) ≡ f.is_extended)
      × (nonzero (bit_and (flags_of f) 2) ≡ f.is_error)
      × (nonzero (bit_and (flags_of f) 4) ≡ f.is_rtr)
flags_read f = by_cases f.is_extended f.is_error f.is_rtr
  where
    by_cases :
        (x e r : Bool)
        → let fl = bit_or (bit_or (flag x 1) (flag e 2)) (flag r 4) in
          (nonzero (bit_and fl 1) ≡ x) × (nonzero (bit_and fl 2) ≡ e) × (nonzero (bit_and fl 4) ≡ r)
    by_cases true true true = (refl, refl, refl)
    by_cases true true false = (refl, refl, refl)
    by_cases true false true = (refl, refl, refl)
    by_cases true false false = (refl, refl, refl)
    by_cases false true true = (refl, refl, refl)
    by_cases false true false = (refl, refl, refl)
    by_cases false false true = (refl, refl, refl)
    by_cases false false false = (refl, refl, refl)

view_with : ℕ → ℕ → ℕ → ℕ → List ℕ → FrameView
view_with t i fl d bs = record {
  t_us = t;
  id = i;
  is_extended = nonzero (bit_and fl 1);
  is_error = nonzero (bit_and fl 2);
  is_rtr = nonzero (bit_and fl 4);
  dlc = d;
  bytes = bs;
}

view_with-ap :
    {t u i k fl gl d e : ℕ} {xs ys : List ℕ}
    → t ≡ u
    → i ≡ k
    → fl ≡ gl
    → d ≡ e
    → xs ≡ ys
    → view_with t i fl d xs ≡ view_with u k gl e ys
view_with-ap {t} {u} {i} {k} {fl} {gl} {d} {e} {xs} {ys} p q r s w =
    ap (λ a. view_with a i fl d xs) p
    ∙ ap (λ a. view_with u a fl d xs) q
    ∙ ap (λ a. view_with u k a d xs) r
    ∙ ap₂ (λ a b. view_with u k gl a b) s w

module _ (c : Columns) (n i : ℕ) (f : CanFrame) (a : AreColumns n c) (l : i < n)
    (d : f.dlc ≤ 8) where
  bytes_at_slot : (j : ℕ) → j < 8 → get_or (write_slot c i f).bytes (i * 8 + j) 0 ≡ stored_byte f j
  unfolding write_slot
  bytes_at_slot j h =
      ap (λ k. get_or (write_payload c.bytes (i * 8) f 0 8) k 0) (omega arith)
      ∙ get_or-write_payload_in c.bytes (i * 8) f 0 8 j (omega (arith, a.bytes_size)) h
      ∙ ap (stored_byte f) (omega arith)

  bytes_size_written : length (write_slot c i f).bytes ≡ n * 8
  unfolding write_slot
  bytes_size_written = length-write_payload c.bytes (i * 8) f 0 8 ∙ a.bytes_size

  payload_written : take f.dlc (drop (i * 8) (write_slot c i f).bytes) ≡ stored_bytes f 0 f.dlc
  payload_written =
      take-drop (write_slot c i f).bytes (i * 8) f.dlc (omega (arith, bytes_size_written))
      ∙ ap (λ b. slice (write_slot c i f).bytes b f.dlc) {x = i * 8} {y = i * 8 + 0} (omega arith)
      ∙ slice-stored (write_slot c i f).bytes f (i * 8) 0 f.dlc d (omega arith) bytes_at_slot

  dlc_written : get_or (write_slot c i f).dlc i 0 ≡ f.dlc
  unfolding write_slot
  dlc_written = get_or-set_self c.dlc i (f.dlc % 2 ^ 8) 0 (omega (arith, a.dlc_size)) ∙ omega arith

  flags_written : get_or (write_slot c i f).flags i 0 ≡ flags_of f
  unfolding write_slot
  flags_written = get_or-set_self c.flags i (flags_of f) 0 (omega (arith, a.flags_size))

  pub build-write_slot_self : build (write_slot c i f) i ≡ view_of f
  unfolding build view_with write_slot
  build-write_slot_self =
      view_with-ap (get_or-set_self c.t_us i f.t_us 0 (omega (arith, a.t_us_size)))
        (get_or-set_self c.id i (f.id % 2 ^ 32) 0 (omega (arith, a.id_size))) flags_written
        dlc_written
        (ap (λ k. take k (drop (i * 8) (write_slot c i f).bytes)) dlc_written ∙ payload_written)
      ∙ rw ((flags_read f).0, (flags_read f).1, (flags_read f).2)

  pub build-write_slot_other : (p : ℕ) → p < n → i ≢ p → build (write_slot c i f) p ≡ build c p
  unfolding build view_with write_slot
  build-write_slot_other p h ne =
      view_with-ap (get_or-set_ne c.t_us f.t_us 0 ne) (get_or-set_ne c.id (f.id % 2 ^ 32) 0 ne)
        (get_or-set_ne c.flags (flags_of f) 0 ne) same_dlc
        (ap (λ k. take k (drop (p * 8) (write_slot c i f).bytes)) same_dlc
          ∙ take-drop (write_slot c i f).bytes (p * 8) (get_or c.dlc p 0)
              (omega (arith, bytes_size_written, a.classic p))
          ∙ slice-ext (write_slot c i f).bytes c.bytes (p * 8) (p * 8) (get_or c.dlc p 0) (λ j m.
            get_or-write_payload_out c.bytes (i * 8) f 0 8 (p * 8 + j)
              (omega (arith, a.classic p, apart)))
          ∙ sym (
              take-drop c.bytes (p * 8) (get_or c.dlc p 0)
                (omega (arith, a.bytes_size, a.classic p))))
    where
      same_dlc : get_or (set c.dlc i (f.dlc % 2 ^ 8)) p 0 ≡ get_or c.dlc p 0
      same_dlc = get_or-set_ne c.dlc (f.dlc % 2 ^ 8) 0 ne

      apart : (p < i) ⊎ (i < p)
      apart = omega arith

  pub write_slot-AreColumns : AreColumns n (write_slot c i f)
  unfolding write_slot
  write_slot-AreColumns = record {
    t_us_size = length-set c.t_us i f.t_us ∙ a.t_us_size;
    id_size = length-set c.id i (f.id % 2 ^ 32) ∙ a.id_size;
    flags_size = length-set c.flags i (flags_of f) ∙ a.flags_size;
    dlc_size = length-set c.dlc i (f.dlc % 2 ^ 8) ∙ a.dlc_size;
    bytes_size = bytes_size_written;
    classic = λ p. by_slot p (dec p i);
  }
    where
      dec : (p q : ℕ) → (p ≡ q) ⊎ (q ≢ p)
      dec p q = omega arith

      at_slot : get_or (set c.dlc i (f.dlc % 2 ^ 8)) i 0 ≡ f.dlc
      at_slot = dlc_written

      by_slot : (p : ℕ) → (p ≡ i) ⊎ (i ≢ p) → get_or (set c.dlc i (f.dlc % 2 ^ 8)) p 0 ≤ 8
      by_slot p (inl e) =
          subst (λ k. get_or (set c.dlc i (f.dlc % 2 ^ 8)) k 0 ≤ 8) (sym e) (omega (arith, at_slot))
      by_slot p (inr ne) = omega (arith, get_or-set_ne c.dlc (f.dlc % 2 ^ 8) 0 ne, a.classic p)
