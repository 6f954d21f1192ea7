-- ===== src/Wire/Reads.antt =====
-- Reads inside a view succeed, and what they read.
use discodb.Prelude.{
  ℕ, zero, suc, ◌+◌, ◌*◌, ◌^◌, ◌≤◌, ◌<◌, ◌≡◌, refl, ap, ◌∙◌, List, [], ◌∷◌, ◌++◌, length, get_or,
  get_elem?-eq-get_or, get_or-append_right, ok, arith,
}
use discodb.Wire.View.{get_uint8, get_uint16, get_uint32, get_big_uint64, get_bytes}

abbrev pub u8_at : List ℕ → ℕ → ℕ
u8_at v off = get_or v off 0

unfoldable pub u16_at : List ℕ → ℕ → ℕ
u16_at v off = u8_at v off + u8_at v (off + 1) * 2 ^ 8

unfoldable pub u32_at : List ℕ → ℕ → ℕ
u32_at v off = u16_at v off + u16_at v (off + 2) * 2 ^ 16

unfoldable pub u64_at : List ℕ → ℕ → ℕ
u64_at v off = u32_at v off + u32_at v (off + 4) * 2 ^ 32

-- The `n` bytes from an offset on; a byte past the end reads as 0.
unfoldable pub slice : List ℕ → ℕ → ℕ → List ℕ
slice v off zero = []
slice v off (suc n) = u8_at v off ∷ slice v (off + 1) n

module _ (v : List ℕ) (off : ℕ) where
  pub get_uint8_lem : off < length v → get_uint8 v off ≡ ok (u8_at v off)
  unfolding get_uint8
  get_uint8_lem h = rw (get_elem?-eq-get_or v off 0 h)

module _ (v : List ℕ) (off : ℕ) where
  pub get_uint16_lem : off + 2 ≤ length v → get_uint16 v off ≡ ok (u16_at v off)
  unfolding get_uint16 u16_at
  get_uint16_lem h = rw (get_uint8_lem v off (omega arith), get_uint8_lem v (off + 1) (omega arith))

module _ (v : List ℕ) (off : ℕ) where
  pub get_uint32_lem : off + 4 ≤ length v → get_uint32 v off ≡ ok (u32_at v off)
  unfolding get_uint32 u32_at
  get_uint32_lem h =
      rw (get_uint16_lem v off (omega arith), get_uint16_lem v (off + 2) (omega arith))

module _ (v : List ℕ) (off : ℕ) where
  pub get_big_uint64_lem : off + 8 ≤ length v → get_big_uint64 v off ≡ ok (u64_at v off)
  unfolding get_big_uint64 u64_at
  get_big_uint64_lem h =
      rw (get_uint32_lem v off (omega arith), get_uint32_lem v (off + 4) (omega arith))

pub get_bytes_lem :
    (v : List ℕ) (off n : ℕ) → off + n ≤ length v → get_bytes v off n ≡ ok (slice v off n)
unfolding get_bytes slice
get_bytes_lem v off zero h = refl
get_bytes_lem v off (suc n) h =
    rw (get_uint8_lem v off (omega arith), get_bytes_lem v (off + 1) n (omega arith))

pub length-slice : (v : List ℕ) (off n : ℕ) → length (slice v off n) ≡ n
unfolding slice
length-slice v off zero = refl
length-slice v off (suc n) = ap suc (length-slice v (off + 1) n)

-- Reads past a prefix.
module _ (pre v : List ℕ) where
  pub u8_at-append : (k : ℕ) → u8_at (pre ++ v) (length pre + k) ≡ u8_at v k
  u8_at-append k = get_or-append_right pre v k 0

  shift : (k j : ℕ) → u8_at (pre ++ v) (length pre + k + j) ≡ u8_at v (k + j)
  shift k j = ap (u8_at (pre ++ v)) (omega arith) ∙ u8_at-append (k + j)

  pub u16_at-append : (k : ℕ) → u16_at (pre ++ v) (length pre + k) ≡ u16_at v k
  unfolding u16_at
  u16_at-append k = omega (arith, u8_at-append k, shift k 1)

  shift16 : (k j : ℕ) → u16_at (pre ++ v) (length pre + k + j) ≡ u16_at v (k + j)
  shift16 k j = ap (u16_at (pre ++ v)) (omega arith) ∙ u16_at-append (k + j)

  pub u32_at-append : (k : ℕ) → u32_at (pre ++ v) (length pre + k) ≡ u32_at v k
  unfolding u32_at
  u32_at-append k = omega (arith, u16_at-append k, shift16 k 2)

  pub slice-append : (k n : ℕ) → slice (pre ++ v) (length pre + k) n ≡ slice v k n
  unfolding slice
  slice-append k zero = refl
  slice-append k (suc n) = rw (u8_at-append k) (
      ap (λ t. u8_at v k ∷ t)
        (ap (λ o. slice (pre ++ v) o n) (omega arith) ∙ slice-append (k + 1) n))
