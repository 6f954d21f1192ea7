-- ===== src/Analysis/Moves.antt =====
-- What the loops of frontend/shared/analysis/bit-activity.ts count.
use discodb.Prelude.{
  ℕ, zero, suc, ◌+◌, ◌/◌, ◌^◌, ◌≤◌, ◌<◌, ◌≡◌, refl, sym, ap, ◌∙◌, Bool, true, false, not, ◌&&◌,
  List, [], ◌∷◌, length, length-set, length-replicate, get_or, replicate, ltb, leb, ◌==◌,
  if◌then◌else◌, arith,
}
use discodb.Analysis.Activity.{
  Moves, no_moves, increment, bit_value, bit_ceil, count_bit, count_bits, count_pairs, moves_of,
}

-- Whether a payload has the byte that holds the bit.
abbrev pub carries : ℕ → List ℕ → Bool
carries bit bs = ltb (bit / 2 ^ 3) (length bs)

abbrev pub bit_in : ℕ → List ℕ → ℕ
bit_in bit bs = bit_value (λ b. get_or bs b 0) bit

-- How many consecutive payloads satisfy a test.
unfoldable pub count_consecutive : (List ℕ → List ℕ → Bool) → List (List ℕ) → ℕ
count_consecutive t [] = 0
count_consecutive t (p ∷ []) = 0
count_consecutive t (p ∷ (q ∷ ps)) =
    let rest = count_consecutive t (q ∷ ps) in if t p q then rest + 1 else rest

-- Both payloads carry the bit.
abbrev pub comparable : ℕ → List ℕ → List ℕ → Bool
comparable bit p q = carries bit p && carries bit q

-- They do, and it differs.
abbrev pub flips : ℕ → List ℕ → List ℕ → Bool
flips bit p q = comparable bit p q && not (bit_in bit p == bit_in bit q)

get_or-replicate : (n i : ℕ) → get_or (replicate {A = ℕ} n 0) i 0 ≡ 0
get_or-replicate zero i = refl
get_or-replicate (suc n) zero = refl
get_or-replicate (suc n) (suc i) = get_or-replicate n i

get_or-increment :
    (xs : List ℕ) (i j : ℕ)
    → i < length xs
    → get_or (increment xs i) j 0 ≡ (if i == j then get_or xs j 0 + 1 else get_or xs j 0)
get_or-increment [] i j l = absurd (omega arith)
get_or-increment (x ∷ xs) zero zero l = refl
get_or-increment (x ∷ xs) zero (suc j) l = ground arith
get_or-increment (x ∷ xs) (suc i) zero l = ground arith
get_or-increment (x ∷ xs) (suc i) (suc j) l = ground (arith, get_or-increment xs i j)

-- Arrays of the size that the scan asked for.
abbrev Sized : ℕ → Moves → Type 0
Sized n m = (length m.transitions ≡ n) × (length m.pairs ≡ n)

count_bits-Sized :
    (f g : ℕ → ℕ) (bit n size : ℕ) (m : Moves) → Sized size m → Sized size (count_bits f g bit n m)
unfolding count_bits count_bit
count_bits-Sized f g bit zero size m s = s
count_bits-Sized f g bit (suc n) size m s =
    count_bits-Sized f g (bit + 1) n size (count_bit f g bit m) (
      by_test (bit_value f bit == bit_value g bit),
      length-set m.pairs bit (get_or m.pairs bit 0 + 1) ∙ s.1,
    )
  where
    by_test : (b : Bool) → length (if b then m.transitions else increment m.transitions bit) ≡ size
    by_test true = s.0
    by_test false = length-set m.transitions bit (get_or m.transitions bit 0 + 1) ∙ s.0

-- `j` is one of the `n` bits from `bit` on.
abbrev among : ℕ → ℕ → ℕ → Bool
among bit n j = leb bit j && ltb j (bit + n)

pairs-count_bits :
    (f g : ℕ → ℕ) (bit n size : ℕ) (m : Moves) (j : ℕ)
    → Sized size m
    → bit + n ≤ size
    → get_or (count_bits f g bit n m).pairs j 0
      ≡ get_or m.pairs j 0 + (if among bit n j then 1 else 0)
unfolding count_bits count_bit
pairs-count_bits f g bit zero size m j s l = ground arith
pairs-count_bits f g bit (suc n) size m j s l = ground (
  arith,
  pairs-count_bits f g (bit + 1) n size (count_bit f g bit m) j
      (count_bits-Sized f g bit 1 size m s) (omega arith),
  get_or-increment m.pairs bit j (omega (arith, s.1)),
)

transitions_step :
    (ts : List ℕ) (bit n j : ℕ) (b e : Bool)
    → bit < length ts
    → (bit ≡ j → e ≡ b)
    → get_or (if b then ts else increment ts bit) j 0
        + (if among (bit + 1) n j && not e then 1 else 0)
      ≡ get_or ts j 0 + (if among bit (suc n) j && not e then 1 else 0)
transitions_step ts bit n j true true l h = ground arith
transitions_step ts bit n j true false l h = ground arith
transitions_step ts bit n j false true l h = ground (arith, get_or-increment ts bit j l)
transitions_step ts bit n j false false l h = ground (arith, get_or-increment ts bit j l)

transitions-count_bits :
    (f g : ℕ → ℕ) (bit n size : ℕ) (m : Moves) (j : ℕ)
    → Sized size m
    → bit + n ≤ size
    → get_or (count_bits f g bit n m).transitions j 0
      ≡ get_or m.transitions j 0
        + (if among bit n j && not (bit_value f j == bit_value g j) then 1 else 0)
unfolding count_bits count_bit
transitions-count_bits f g bit zero size m j s l = by_value (bit_value f j == bit_value g j)
  where
    by_value :
        (e : Bool)
        → get_or m.transitions j 0
          ≡ get_or m.transitions j 0 + (if among bit 0 j && not e then 1 else 0)
    by_value true = ground arith
    by_value false = ground arith
transitions-count_bits f g bit (suc n) size m j s l =
    transitions-count_bits f g (bit + 1) n size (count_bit f g bit m) j
      (count_bits-Sized f g bit 1 size m s) (omega arith)
    ∙ transitions_step m.transitions bit n j (bit_value f bit == bit_value g bit)
        (bit_value f j == bit_value g j) (omega (arith, s.0))
        (λ e. ap (λ k. bit_value f k == bit_value g k) (sym e))

-- The bits that a pair of payloads is compared at are those that both carry.
among-bit_ceil :
    (size : ℕ) (p q : List ℕ) (j : ℕ)
    → j / 2 ^ 3 < size / 2 ^ 3
    → among 0 (bit_ceil size (length p) (length q)) j ≡ comparable j p q
among-bit_ceil size p q j l = ground arith

plus_tests : (b : Bool) (x n : ℕ) → x + (if b then 1 else 0) + n ≡ x + (if b then n + 1 else n)
plus_tests true x n = omega arith
plus_tests false x n = omega arith

count_pairs-Sized :
    (size : ℕ) (p : List ℕ) (ps : List (List ℕ)) (m : Moves)
    → Sized size m
    → Sized size (count_pairs size p ps m)
unfolding count_pairs
count_pairs-Sized size p [] m s = s
count_pairs-Sized size p (q ∷ ps) m s =
    count_pairs-Sized size q ps
      (count_bits (λ b. get_or p b 0) (λ b. get_or q b 0) 0 (bit_ceil size (length p) (length q)) m)
      (count_bits-Sized (λ b. get_or p b 0) (λ b. get_or q b 0) 0
        (bit_ceil size (length p) (length q)) size m s)

count_pairs-pairs :
    (size : ℕ) (p : List ℕ) (ps : List (List ℕ)) (m : Moves) (j : ℕ)
    → Sized size m
    → j / 2 ^ 3 < size / 2 ^ 3
    → get_or (count_pairs size p ps m).pairs j 0
      ≡ get_or m.pairs j 0 + count_consecutive (comparable j) (p ∷ ps)
unfolding count_pairs count_consecutive
count_pairs-pairs size p [] m j s l = omega arith
count_pairs-pairs size p (q ∷ ps) m j s l =
    let f = λ (b : ℕ). get_or p b 0 in
    let g = λ (b : ℕ). get_or q b 0 in
    let n = bit_ceil size (length p) (length q) in
    let rest = count_consecutive (comparable j) (q ∷ ps) in
    count_pairs-pairs size q ps (count_bits f g 0 n m) j (count_bits-Sized f g 0 n size m s) l
    ∙ ap (λ x. x + rest) (pairs-count_bits f g 0 n size m j s (omega arith))
    ∙ ap (λ b. get_or m.pairs j 0 + (if b then 1 else 0) + rest) (among-bit_ceil size p q j l)
    ∙ plus_tests (comparable j p q) (get_or m.pairs j 0) rest

count_pairs-transitions :
    (size : ℕ) (p : List ℕ) (ps : List (List ℕ)) (m : Moves) (j : ℕ)
    → Sized size m
    → j / 2 ^ 3 < size / 2 ^ 3
    → get_or (count_pairs size p ps m).transitions j 0
      ≡ get_or m.transitions j 0 + count_consecutive (flips j) (p ∷ ps)
unfolding count_pairs count_consecutive
count_pairs-transitions size p [] m j s l = omega arith
count_pairs-transitions size p (q ∷ ps) m j s l =
    let f = λ (b : ℕ). get_or p b 0 in
    let g = λ (b : ℕ). get_or q b 0 in
    let n = bit_ceil size (length p) (length q) in
    let rest = count_consecutive (flips j) (q ∷ ps) in
    count_pairs-transitions size q ps (count_bits f g 0 n m) j (count_bits-Sized f g 0 n size m s) l
    ∙ ap (λ x. x + rest) (transitions-count_bits f g 0 n size m j s (omega arith))
    ∙ ap
        (λ b.
          get_or m.transitions j 0 + (if b && not (bit_in j p == bit_in j q) then 1 else 0) + rest)
        (among-bit_ceil size p q j l)
    ∙ plus_tests (flips j p q) (get_or m.transitions j 0) rest

-- For every bit within the bytes of the scan, the pairs are the consecutive payloads of the
-- identifier that both carry the bit, and the transitions are those of them in which it differs: a
-- payload that is too short for the bit is never taken for a change of it.
pub moves_of-count_consecutive :
    (size : ℕ) (ps : List (List ℕ)) (j : ℕ)
    → j / 2 ^ 3 < size / 2 ^ 3
    → (get_or (moves_of size ps).pairs j 0 ≡ count_consecutive (comparable j) ps)
      × (get_or (moves_of size ps).transitions j 0 ≡ count_consecutive (flips j) ps)
unfolding moves_of count_consecutive
moves_of-count_consecutive size [] j l = (get_or-replicate size j, get_or-replicate size j)
moves_of-count_consecutive size (p ∷ ps) j l =
    let none_yet = get_or-replicate size j in
    let sized = length-replicate {A = ℕ} size 0 in
    (
      omega (arith, count_pairs-pairs size p ps (no_moves size) j (sized, sized) l, none_yet),
      omega (arith, count_pairs-transitions size p ps (no_moves size) j (sized, sized) l, none_yet),
    )
