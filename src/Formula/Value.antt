-- ===== src/Formula/Value.antt =====
-- A formula that signalToFormula of frontend/cockpit/src/protocol/formula.ts makes has the value that
-- the decoder of frontend/cockpit/src/protocol/decode.ts extracts.
use native.Mathlib.Nat.{div-le_self, pow-le-pow_right, mod-eq_of_lt}
use discodb.Prelude.{
  ℤ, pos, negsuc, ℕ, zero, suc, ◌+◌, ◌-◌, ◌*◌, ◌/◌, ◌%◌, ◌^◌, ◌≤◌, ◌<◌, bit_and, ◌≡◌, ◌⊎◌, inl, inr,
  sym, subst, ap, ap₂, ◌∙◌, Bool, true, false, ◌&&◌, List, [], ◌∷◌, length, All, some, ltb, leb,
  ◌==◌, Bool-cases, if◌then◌else◌, arith,
}
use discodb.Prelude.Bits.{bit_and_mask}
use discodb.Signal.Defs.{sub, BitRange, signal_bit_order, extract_raw}
use discodb.Signal.Exact.{unsigned_value}
use discodb.Signal.Agree.{
  spelled, unsigned_value-spelled, extract_raw_lem, unsigned_value-lt, length-signal_bit_order,
}
use discodb.Signal.Signed.{twos_complement, extract_raw-signed}
use discodb.Formula.Defs.{
  band, shr, byte_var, Term, letter, band_of, shr_of, times, plus, Raw, bare, wrapped, signed_of,
  Run, runs_from, run_source, chunk, join, raw_sum, raw_of,
}
use discodb.Formula.Runs.{field, sum_runs, InByte, runs_from-spelled}

-- What a term stands for, the letters being the bytes of a frame.
unfoldable pub term_value : List ℕ → Term → ℕ
term_value bs (letter i) = byte_var bs i
term_value bs (band_of t m) = band (term_value bs t) m
term_value bs (shr_of t n) = shr (term_value bs t) n
term_value bs (times c t) = c * term_value bs t
term_value bs (plus t u) = term_value bs t + term_value bs u

unfoldable pub raw_value : List ℕ → Raw → ℤ
unfolding term_value
raw_value bs (bare t) = pos (term_value bs t)
raw_value bs (wrapped t) = pos (term_value bs t)
raw_value bs (signed_of t b m) =
    if leb b (term_value bs t) then sub (term_value bs t) m else pos (term_value bs t)

abbrev pub IsOctets : List ℕ → Type 0
IsOctets bs = All (λ (b : ℕ). b < 256) bs

byte_var-lt : (bs : List ℕ) (i : ℕ) → IsOctets bs → byte_var bs i < 256
byte_var-lt [] i h = ground arith
byte_var-lt (b ∷ bs) zero h = ground (arith, h.0)
byte_var-lt (b ∷ bs) (suc i) h = ground (arith, byte_var-lt bs i h.1)

mask-lt : (w : ℕ) → w ≤ 8 → 2 ^ w - 1 < 2 ^ 32
mask-lt w l = omega (arith, pow-le-pow_right {n = 2} (omega arith) {i = w} {j = 8} l)

band_mask : (v w : ℕ) → v < 256 → w ≤ 8 → band v (2 ^ w - 1) ≡ v % 2 ^ w
unfolding band
band_mask v w h l =
    ap₂ bit_and (mod-eq_of_lt {n = v} {m = 2 ^ 32} (omega arith))
      (mod-eq_of_lt {n = 2 ^ w - 1} {m = 2 ^ 32} (mask-lt w l))
    ∙ bit_and_mask w v

shr_byte : (v n : ℕ) → v < 256 → n < 8 → shr v n ≡ v / 2 ^ n
unfolding shr
shr_byte v n h l =
    ap₂ (λ x k. x / 2 ^ k) (mod-eq_of_lt {n = v} {m = 2 ^ 32} (omega arith))
      (mod-eq_of_lt {n = n} {m = 32} (omega arith))

quotient-lt : (v n : ℕ) → v < 256 → v / 2 ^ n < 256
quotient-lt v n h = omega (arith, div-le_self v (2 ^ n))

run_source-value :
    (bs : List ℕ) (r : Run)
    → IsOctets bs
    → InByte r
    → term_value bs (run_source r) ≡ field (byte_var bs r.byte_index) r.src_lo r.width
unfolding run_source term_value
run_source-value bs r o h =
    by_whole (Bool-cases ((r.src_lo == 0) && (r.width == 8))) (Bool-cases (r.src_lo == 0))
  where
    v : ℕ
    v = byte_var bs r.byte_index

    small : v < 256
    small = byte_var-lt bs r.byte_index o

    aligned : r.src_lo ≡ 0 → v ≡ v / 2 ^ r.src_lo
    aligned e = omega arith ∙ ap (λ k. v / 2 ^ k) (sym e)

    rest : Bool → Term
    rest c =
        if c
        then band_of (letter r.byte_index) (2 ^ r.width - 1)
        else band_of (shr_of (letter r.byte_index) r.src_lo) (2 ^ r.width - 1)

    by_start :
        ((r.src_lo == 0) ≡ true) ⊎ ((r.src_lo == 0) ≡ false)
        → term_value bs (rest (r.src_lo == 0)) ≡ field v r.src_lo r.width
    by_start (inl e) =
        ap (λ c. term_value bs (rest c)) e
        ∙ band_mask v r.width small (omega (arith, h.0))
        ∙ ap (λ x. x % 2 ^ r.width) (aligned (ground arith))
    by_start (inr e) =
        ap (λ c. term_value bs (rest c)) e
        ∙ ap (λ x. band x (2 ^ r.width - 1)) (shr_byte v r.src_lo small (omega (arith, h.0, h.1)))
        ∙ band_mask (v / 2 ^ r.src_lo) r.width (quotient-lt v r.src_lo small) (omega (arith, h.0))

    whole : r.src_lo ≡ 0 → r.width ≡ 8 → v ≡ field v r.src_lo r.width
    whole e f =
        sym (mod-eq_of_lt {n = v} {m = 256} small) ∙ ap₂ (λ x w. x % 2 ^ w) (aligned e) (sym f)

    by_whole :
        ((r.src_lo == 0) && (r.width == 8) ≡ true) ⊎ ((r.src_lo == 0) && (r.width == 8) ≡ false)
        → ((r.src_lo == 0) ≡ true) ⊎ ((r.src_lo == 0) ≡ false)
        → term_value bs (
            if (r.src_lo == 0) && (r.width == 8) then letter r.byte_index else rest (r.src_lo == 0))
          ≡ field v r.src_lo r.width
    by_whole (inl e) c =
        ap (λ x. term_value bs (if x then letter r.byte_index else rest (r.src_lo == 0))) e
        ∙ whole (ground (arith, e)) (ground (arith, e))
    by_whole (inr e) c =
        ap (λ x. term_value bs (if x then letter r.byte_index else rest (r.src_lo == 0))) e
        ∙ by_start c

chunk-value :
    (bs : List ℕ) (r : Run)
    → IsOctets bs
    → InByte r
    → term_value bs (chunk r) ≡ 2 ^ r.dest_lo * field (byte_var bs r.byte_index) r.src_lo r.width
unfolding chunk term_value
chunk-value bs r o h = by_place (Bool-cases (r.dest_lo == 0))
  where
    f : ℕ
    f = field (byte_var bs r.byte_index) r.src_lo r.width

    by_place :
        ((r.dest_lo == 0) ≡ true) ⊎ ((r.dest_lo == 0) ≡ false)
        → term_value bs
            (if r.dest_lo == 0 then run_source r else times (2 ^ r.dest_lo) (run_source r))
          ≡ 2 ^ r.dest_lo * f
    by_place (inl e) =
        let zero : r.dest_lo ≡ 0 = ground (arith, e) in
        ap (λ c. term_value bs (if c then run_source r else times (2 ^ r.dest_lo) (run_source r))) e
        ∙ run_source-value bs r o h
        ∙ omega arith
        ∙ ap (λ k. 2 ^ k * f) (sym zero)
    by_place (inr e) =
        ap (λ c. term_value bs (if c then run_source r else times (2 ^ r.dest_lo) (run_source r))) e
        ∙ ap (λ x. 2 ^ r.dest_lo * x) (run_source-value bs r o h)

join-value :
    (bs : List ℕ) (runs : List Run) (t : Term)
    → IsOctets bs
    → All InByte runs
    → term_value bs (join t runs) ≡ term_value bs t + sum_runs bs runs
unfolding join term_value
join-value bs [] t o h = omega arith
join-value bs (r ∷ runs) t o h =
    omega (arith, join-value bs runs (plus t (chunk r)) o h.1, chunk-value bs r o h.0)

raw_sum-sum_runs :
    (bs : List ℕ) (runs : List Run)
    → IsOctets bs
    → All InByte runs
    → 1 ≤ length runs
    → term_value bs (raw_sum runs) ≡ sum_runs bs runs
unfolding raw_sum term_value
raw_sum-sum_runs bs [] o h l = absurd (omega arith)
raw_sum-sum_runs bs (r ∷ runs) o h l =
    join-value bs runs (chunk r) o h.1 ∙ ap (λ x. x + sum_runs bs runs) (chunk-value bs r o h.0)

length-runs_from :
    (order : List ℕ) → 1 ≤ length order → 1 ≤ length (runs_from (length order) 0 order)
unfolding runs_from
length-runs_from [] l = l
length-runs_from (b ∷ order) l = omega arith

raw_sum-value :
    (bs order : List ℕ)
    → IsOctets bs
    → 1 ≤ length order
    → term_value bs (raw_sum (runs_from (length order) 0 order)) ≡ spelled bs order
raw_sum-value bs order o l =
    let all = runs_from-spelled bs (length order) 0 order (omega arith) in
    raw_sum-sum_runs bs (runs_from (length order) 0 order) o all.1 (length-runs_from order l)
    ∙ all.0
    ∙ omega arith

-- The choice on a sum of `n` bits is its two's complement.
choice-twos_complement :
    (k u : ℕ)
    → u < 2 ^ suc k
    → (if leb (2 ^ k) u then sub u (2 ^ suc k) else pos u) ≡ twos_complement k u
unfolding sub
choice-twos_complement k u l = by_sign (Bool-cases (ltb u (2 ^ k)))
  where
    over : leb (2 ^ suc k) u ≡ false
    over = ground arith

    by_sign :
        (ltb u (2 ^ k) ≡ true) ⊎ (ltb u (2 ^ k) ≡ false)
        → (if leb (2 ^ k) u
            then (if leb (2 ^ suc k) u then pos (u - 2 ^ suc k) else negsuc (2 ^ suc k - u - 1))
            else pos u)
          ≡ twos_complement k u
    by_sign (inl e) = let low : leb (2 ^ k) u ≡ false = ground arith in rw (low, e)
    by_sign (inr e) =
        let high : leb (2 ^ k) u ≡ true = ground arith in
        rw (high, e, over) (ap negsuc (omega arith))

-- The raw value of the formula is the decoder's.
pub raw_of-extract_raw :
    (bs : List ℕ) (sig : BitRange)
    → IsOctets bs
    → 1 ≤ sig.bit_length
    → extract_raw bs sig ≡ some (raw_value bs (raw_of sig))
unfolding raw_of raw_value
raw_of-extract_raw bs sig o l = by_sign (Bool-cases sig.signed)
  where
    t : Term
    t = raw_sum (runs_from (length (signal_bit_order sig)) 0 (signal_bit_order sig))

    u : ℕ
    u = unsigned_value bs sig.bit_start sig.bit_length sig.byte_order

    sum : term_value bs t ≡ u
    sum =
        raw_sum-value bs (signal_bit_order sig) o (omega (arith, length-signal_bit_order sig))
        ∙ sym (unsigned_value-spelled bs sig)

    Goal : Bool → Type 0
    Goal c =
        extract_raw bs sig
        ≡ some (
            raw_value bs
              (if c then signed_of t (2 ^ (sig.bit_length - 1)) (2 ^ sig.bit_length) else bare t))

    Chosen : ℕ → ℕ → Type 0
    Chosen m n =
        extract_raw bs sig
        ≡ some (
            if leb (2 ^ m) (term_value bs t)
            then sub (term_value bs t) (2 ^ n)
            else pos (term_value bs t))

    by_width :
        (k : ℕ)
        → sig.bit_length ≡ suc k
        → extract_raw bs sig ≡ some (twos_complement k u)
        → Goal true
    by_width k e x =
        let chosen : Chosen k (suc k) =
          x
          ∙ ap some (
              sym (choice-twos_complement k u (subst (λ n. u < 2 ^ n) e (unsigned_value-lt bs sig)))
              ∙ ap (λ v. if leb (2 ^ k) v then sub v (2 ^ suc k) else pos v) (sym sum)) in
        subst (λ n. Chosen (sig.bit_length - 1) n) (sym e)
          (subst (λ m. Chosen m (suc k)) (omega (arith, e)) chosen)

    long : ltb 0 sig.bit_length ≡ true
    long = ground (arith, l)

    by_sign : (sig.signed ≡ true) ⊎ (sig.signed ≡ false) → Goal (sig.signed && ltb 0 sig.bit_length)
    by_sign (inr e) =
        subst (λ c. Goal (c && ltb 0 sig.bit_length)) (sym e)
          (extract_raw_lem bs sig e ∙ ap (λ x. some (pos x)) (sym sum))
    by_sign (inl e) =
        subst Goal (sym (ap₂ (λ x y. x && y) e long)) (elim (extract_raw-signed bs sig e) [
          | inl (z, y) ↦ absurd (omega (arith, z, l))
          | inr (k, z, x, y) ↦ by_width k z x
        ])
