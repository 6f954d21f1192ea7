-- ===== src/Analysis/Packs.antt =====
-- What framesToPacked of frontend/shared/analysis/packed.ts writes, read back.
use discodb.Prelude.{
  ℕ, zero, suc, ◌+◌, ◌*◌, ◌%◌, ◌^◌, ◌≤◌, ◌<◌, min, bit_and, ◌≡◌, ◌≢◌, ◌⊎◌, refl, ap, ◌∙◌, List, [],
  ◌∷◌, length, length-set, length-replicate, subst, get_or, get_or-set_self, get_or-set_ne, set,
  get_elem?, some, arith,
}
use mathlib.Core.Option.{some-injective, none-ne-some}
use discodb.FrameRing.Defs.{Columns, blank_columns}
use discodb.Analysis.Packing.{PackableFrame, pack_bytes, pack_frame, pack_from, frames_to_packed}

length-pack_bytes :
    (out : List ℕ) (base : ℕ) (src : List ℕ) (b n : ℕ)
    → length (pack_bytes out base src b n) ≡ length out
unfolding pack_bytes
length-pack_bytes out base src b zero = refl
length-pack_bytes out base src b (suc n) =
    length-pack_bytes (set out (base + b) (bit_and (get_or src b 0) 0xff)) base src (b + 1) n
    ∙ length-set out (base + b) (bit_and (get_or src b 0) 0xff)

get_or-pack_bytes_out :
    (out : List ℕ) (base : ℕ) (src : List ℕ) (b n q : ℕ)
    → (q < base + b) ⊎ (base + b + n ≤ q)
    → get_or (pack_bytes out base src b n) q 0 ≡ get_or out q 0
unfolding pack_bytes
get_or-pack_bytes_out out base src b zero q h = refl
get_or-pack_bytes_out out base src b (suc n) q h =
    get_or-pack_bytes_out (set out (base + b) (bit_and (get_or src b 0) 0xff)) base src (b + 1) n q
      (omega arith)
    ∙ get_or-set_ne out (bit_and (get_or src b 0) 0xff) 0 (omega arith)

get_or-pack_bytes_in :
    (out : List ℕ) (base : ℕ) (src : List ℕ) (b n j : ℕ)
    → base + b + n ≤ length out
    → j < n
    → get_or (pack_bytes out base src b n) (base + (b + j)) 0 ≡ bit_and (get_or src (b + j) 0) 0xff
unfolding pack_bytes
get_or-pack_bytes_in out base src b zero j h l = absurd (omega arith)
get_or-pack_bytes_in out base src b (suc n) zero h l =
    get_or-pack_bytes_out (set out (base + b) (bit_and (get_or src b 0) 0xff)) base src (b + 1) n
      (base + (b + 0)) (omega arith)
    ∙ ap (λ i. get_or (set out (base + b) (bit_and (get_or src b 0) 0xff)) i 0) (omega arith)
    ∙ get_or-set_self out (base + b) (bit_and (get_or src b 0) 0xff) 0 (omega arith)
    ∙ ap (λ i. bit_and (get_or src i 0) 0xff) (omega arith)
get_or-pack_bytes_in out base src b (suc n) (suc j) h l =
    let longer = set out (base + b) (bit_and (get_or src b 0) 0xff) in
    ap (λ i. get_or (pack_bytes longer base src (b + 1) n) i 0) (omega arith)
    ∙ get_or-pack_bytes_in longer base src (b + 1) n j
        (omega (arith, length-set out (base + b) (bit_and (get_or src b 0) 0xff))) (omega arith)
    ∙ ap (λ i. bit_and (get_or src i 0) 0xff) (omega arith)

-- The columns of `n` slots.
pub record Sizes (n : ℕ) (c : Columns) : Type 0 where
  pub id_size : length c.id ≡ n
  pub dlc_size : length c.dlc ≡ n
  pub bytes_size : length c.bytes ≡ n * 8

-- Slot `i` holds the frame `f`.
pub record Packs (c : Columns) (i : ℕ) (f : PackableFrame) : Type 0 where
  pub id : get_or c.id i 0 ≡ f.id % 2 ^ 32
  pub dlc : get_or c.dlc i 0 ≡ min (length f.bytes) 8
  pub bytes :
      (b : ℕ)
      → b < length f.bytes
      → b < 8
      → get_or c.bytes (i * 8 + b) 0 ≡ bit_and (get_or f.bytes b 0) 0xff

pack_frame-Packs :
    (c : Columns) (n i : ℕ) (f : PackableFrame) → Sizes n c → i < n → Packs (pack_frame c i f) i f
unfolding pack_frame
pack_frame-Packs c n i f a l = record {
  id = get_or-set_self c.id i (f.id % 2 ^ 32) 0 (omega (arith, a.id_size));
  dlc = get_or-set_self c.dlc i (min (length f.bytes) 8) 0 (omega (arith, a.dlc_size));
  bytes = λ b h k.
      ap (λ q. get_or (pack_bytes c.bytes (i * 8) f.bytes 0 (min (length f.bytes) 8)) q 0)
        {x = i * 8 + b} {y = i * 8 + (0 + b)} (omega arith)
      ∙ get_or-pack_bytes_in c.bytes (i * 8) f.bytes 0 (min (length f.bytes) 8) b
          (omega (arith, a.bytes_size)) (omega arith)
      ∙ ap (λ q. bit_and (get_or f.bytes q 0) 0xff) {x = 0 + b} {y = b} (omega arith);
}

pack_frame-keeps :
    (c : Columns) (n i j : ℕ) (f g : PackableFrame)
    → Sizes n c
    → i ≢ j
    → Packs c j g
    → Packs (pack_frame c i f) j g
unfolding pack_frame
pack_frame-keeps c n i j f g a ne p = record {
  id = get_or-set_ne c.id (f.id % 2 ^ 32) 0 ne ∙ p.id;
  dlc = get_or-set_ne c.dlc (min (length f.bytes) 8) 0 ne ∙ p.dlc;
  bytes = λ b h k.
      get_or-pack_bytes_out c.bytes (i * 8) f.bytes 0 (min (length f.bytes) 8) (j * 8 + b)
        (omega (arith, apart))
      ∙ p.bytes b h k;
}
  where
    apart : (i < j) ⊎ (j < i)
    apart = omega arith

blank_columns-Sizes : (n : ℕ) → Sizes n (blank_columns n)
blank_columns-Sizes n = record {
  id_size = length-replicate {A = ℕ} n 0;
  dlc_size = length-replicate {A = ℕ} n 0;
  bytes_size = length-replicate {A = ℕ} (n * 8) 0;
}

pack_frame-Sizes :
    (c : Columns) (n i : ℕ) (f : PackableFrame) → Sizes n c → Sizes n (pack_frame c i f)
unfolding pack_frame
pack_frame-Sizes c n i f a = record {
  id_size = length-set c.id i (f.id % 2 ^ 32) ∙ a.id_size;
  dlc_size = length-set c.dlc i (min (length f.bytes) 8) ∙ a.dlc_size;
  bytes_size = length-pack_bytes c.bytes (i * 8) f.bytes 0 (min (length f.bytes) 8) ∙ a.bytes_size;
}

pack_from-keeps :
    (c : Columns) (n i j : ℕ) (fs : List PackableFrame) (g : PackableFrame)
    → Sizes n c
    → j < i
    → Packs c j g
    → Packs (pack_from c i fs) j g
unfolding pack_from
pack_from-keeps c n i j [] g a l p = p
pack_from-keeps c n i j (f ∷ fs) g a l p =
    pack_from-keeps (pack_frame c i f) n (i + 1) j fs g (pack_frame-Sizes c n i f a) (omega arith)
      (pack_frame-keeps c n i j f g a (omega arith) p)

pack_from-Packs :
    (c : Columns) (n i j : ℕ) (fs : List PackableFrame) (g : PackableFrame)
    → Sizes n c
    → i + length fs ≤ n
    → get_elem? fs j ≡ some g
    → Packs (pack_from c i fs) (i + j) g
unfolding pack_from
pack_from-Packs c n i j [] g a l e = absurd (none-ne-some g e)
pack_from-Packs c n i zero (f ∷ fs) g a l e =
    subst (λ k. Packs (pack_from (pack_frame c i f) (i + 1) fs) k g) {x = i} {y = i + 0}
      (omega arith)
      (subst (Packs (pack_from (pack_frame c i f) (i + 1) fs) i) (some-injective f g e) (
        pack_from-keeps (pack_frame c i f) n (i + 1) i fs f (pack_frame-Sizes c n i f a)
          (omega arith) (pack_frame-Packs c n i f a (omega arith))))
pack_from-Packs c n i (suc j) (f ∷ fs) g a l e =
    subst (λ k. Packs (pack_from (pack_frame c i f) (i + 1) fs) k g) {x = i + 1 + j} {y = i + suc j}
      (omega arith)
      (pack_from-Packs (pack_frame c i f) n (i + 1) j fs g (pack_frame-Sizes c n i f a)
        (omega arith) e)

-- Every frame can be read back from its place: its identifier as a 32-bit word, and its first eight
-- bytes, each cut to a byte.
pub frames_to_packed-Packs :
    (fs : List PackableFrame) (i : ℕ) (f : PackableFrame)
    → get_elem? fs i ≡ some f
    → Packs (frames_to_packed fs).columns i f
unfolding frames_to_packed
frames_to_packed-Packs fs i f e =
    subst (λ k. Packs (pack_from (blank_columns (length fs)) 0 fs) k f) {x = 0 + i} {y = i}
      (omega arith)
      (pack_from-Packs (blank_columns (length fs)) (length fs) 0 i fs f
        (blank_columns-Sizes (length fs)) (omega arith) e)

pack_from-Sizes :
    (c : Columns) (n i : ℕ) (fs : List PackableFrame) → Sizes n c → Sizes n (pack_from c i fs)
unfolding pack_from
pack_from-Sizes c n i [] a = a
pack_from-Sizes c n i (f ∷ fs) a =
    pack_from-Sizes (pack_frame c i f) n (i + 1) fs (pack_frame-Sizes c n i f a)

pub frames_to_packed-Sizes :
    (fs : List PackableFrame) → Sizes (length fs) (frames_to_packed fs).columns
unfolding frames_to_packed
frames_to_packed-Sizes fs =
    pack_from-Sizes (blank_columns (length fs)) (length fs) 0 fs (blank_columns-Sizes (length fs))
