-- ===== src/Formula/Runs.antt =====
-- The runs of a signal's bits spell its raw value (frontend/cockpit/src/protocol/formula.ts).
use native.Mathlib.Nat.{
  pow-suc, zero-div, one-le-pow, mod-eq_of_lt, mul-add-mod_self_left, div-add-mod, mod-lt, mod-one,
  div-div-eq-div-mul,
}
use discodb.Prelude.{
  ℕ, zero, suc, ◌+◌, ◌*◌, ◌/◌, ◌%◌, ◌^◌, ◌≤◌, ◌<◌, bit_and, ◌≡◌, ◌⊎◌, inl, inr, refl, sym, subst,
  ap, ap₂, ◌∙◌, true, false, ◌&&◌, List, [], ◌∷◌, length, get_or, All, ltb, leb, ◌==◌, Bool-cases,
  if◌then◌else◌, arith,
}
use discodb.Prelude.Bits.{bit_and_mask}
use discodb.Signal.Defs.{byte_of, bit_in_byte, get_bit}
use discodb.Signal.Agree.{spelled}
use discodb.Formula.Defs.{byte_var, extend, Run, runs_from}

-- The `w` bits of a number from bit `lo` on.
abbrev pub field : ℕ → ℕ → ℕ → ℕ
field v lo w = v / 2 ^ lo % 2 ^ w

mod-double : (x m : ℕ) → 0 < m → x % (2 * m) ≡ x % 2 + 2 * (x / 2 % m)
mod-double x m l =
    ap (λ y. y % (2 * m)) split
    ∙ mul-add-mod_self_left (2 * m) (x / 2 / m) (x % 2 + 2 * (x / 2 % m))
    ∙ mod-eq_of_lt (omega (arith, mod-lt (x / 2) l))
  where
    split : x ≡ 2 * m * (x / 2 / m) + (x % 2 + 2 * (x / 2 % m))
    split = grind (arith, div-add-mod (x / 2) m)

pub field-suc : (v lo w : ℕ) → field v lo (suc w) ≡ v / 2 ^ lo % 2 + 2 * field v (lo + 1) w
field-suc v lo w =
    ap (λ m. v / 2 ^ lo % m) (pow-suc 2 w ∙ omega arith)
    ∙ mod-double (v / 2 ^ lo) (2 ^ w) (one-le-pow w 2 (omega arith))
    ∙ ap (λ y. v / 2 ^ lo % 2 + 2 * (y % 2 ^ w))
        (div-div-eq-div-mul v (2 ^ lo) 2
          ∙ ap (λ m. v / m)
              (omega (arith, pow-suc 2 lo)
                ∙ ap (λ k. 2 ^ k) {x = suc lo} {y = lo + 1} (omega arith)))

get_bit-byte_var :
    (bs : List ℕ) (b : ℕ) → get_bit bs b ≡ byte_var bs (byte_of b) / 2 ^ bit_in_byte b % 2
unfolding get_bit
get_bit-byte_var bs b = by_end (Bool-cases (ltb (byte_of b) (length bs)))
  where
    zero_field : (k : ℕ) → 0 ≡ 0 / 2 ^ k % 2
    zero_field k = ap (λ q. q % 2) (sym (zero-div (2 ^ k)))

    by_end :
        (ltb (byte_of b) (length bs) ≡ true) ⊎ (ltb (byte_of b) (length bs) ≡ false)
        → (if leb (length bs) (byte_of b)
            then 0
            else bit_and (get_or bs (byte_of b) 0 / 2 ^ bit_in_byte b) 1)
          ≡ byte_var bs (byte_of b) / 2 ^ bit_in_byte b % 2
    by_end (inl e) =
        let long : leb (length bs) (byte_of b) ≡ false = ground arith in
        rw (long, e) (bit_and_mask 1 (get_or bs (byte_of b) 0 / 2 ^ bit_in_byte b))
    by_end (inr e) =
        let short : leb (length bs) (byte_of b) ≡ true = ground arith in
        rw (short, e) (zero_field (bit_in_byte b))

field-zero : (v lo : ℕ) → field v lo 0 ≡ 0
field-zero v lo = mod-one (v / 2 ^ lo)

regroup : (g f p q r : ℕ) → q ≡ 2 * p → g + 2 * (f + p * r) ≡ g + 2 * f + q * r
regroup g f p q r e = rw e (grind arith)

one_more :
    (g v lo w s r : ℕ)
    → g ≡ v / 2 ^ lo % 2
    → s ≡ field v (lo + 1) w + 2 ^ w * r
    → g + 2 * s ≡ field v lo (suc w) + 2 ^ suc w * r
one_more g v lo w s r e h =
    ap (λ t. g + 2 * t) h
    ∙ regroup g (field v (lo + 1) w) (2 ^ w) (2 ^ suc w) r (pow-suc 2 w ∙ omega arith)
    ∙ ap (λ t. t + 2 ^ suc w * r) (ap (λ t. t + 2 * field v (lo + 1) w) e ∙ sym (field-suc v lo w))

-- What the inner loop takes off the bits is a field of one byte.
pub extend-spelled :
    (bs : List ℕ) (k next : ℕ) (order : List ℕ)
    → spelled bs order
      ≡ field (byte_var bs k) next (extend k next order).0
        + 2 ^ (extend k next order).0 * spelled bs (extend k next order).1
unfolding spelled extend
extend-spelled bs k next [] = omega (arith, field-zero (byte_var bs k) next)
extend-spelled bs k next (b ∷ order) =
    by_test (Bool-cases ((byte_of b == k) && (bit_in_byte b == next)))
      (extend-spelled bs k (next + 1) order)
  where
    w : ℕ
    w = (extend k (next + 1) order).0

    rest : List ℕ
    rest = (extend k (next + 1) order).1

    Goal : ℕ × List ℕ → Type 0
    Goal x =
        get_bit bs b + 2 * spelled bs order
        ≡ field (byte_var bs k) next x.0 + 2 ^ x.0 * spelled bs x.1

    same :
        (byte_of b == k) && (bit_in_byte b == next) ≡ true
        → (byte_of b ≡ k) × (bit_in_byte b ≡ next)
    same e = ground (arith, e)

    first : (byte_of b ≡ k) × (bit_in_byte b ≡ next) → get_bit bs b ≡ byte_var bs k / 2 ^ next % 2
    first (p, q) = get_bit-byte_var bs b ∙ ap₂ (λ i j. byte_var bs i / 2 ^ j % 2) p q

    by_test :
        ((byte_of b == k) && (bit_in_byte b == next) ≡ true)
          ⊎ ((byte_of b == k) && (bit_in_byte b == next) ≡ false)
        → spelled bs order ≡ field (byte_var bs k) (next + 1) w + 2 ^ w * spelled bs rest
        → Goal
            (if (byte_of b == k) && (bit_in_byte b == next) then (w + 1, rest) else (0, b ∷ order))
    by_test (inl e) ih =
        subst (λ c. Goal (if c then (w + 1, rest) else (0, b ∷ order))) (sym e)
          (subst
            (λ n.
              get_bit bs b + 2 * spelled bs order
              ≡ field (byte_var bs k) next n + 2 ^ n * spelled bs rest)
            {x = suc w} {y = w + 1} (omega arith)
            (one_more (get_bit bs b) (byte_var bs k) next w (spelled bs order) (spelled bs rest)
              (first (same e)) ih))
    by_test (inr e) ih =
        subst (λ c. Goal (if c then (w + 1, rest) else (0, b ∷ order))) (sym e)
          (omega (arith, field-zero (byte_var bs k) next))

pub extend-length :
    (k next : ℕ) (order : List ℕ)
    → (extend k next order).0 + length (extend k next order).1 ≡ length order
unfolding extend
extend-length k next [] = refl
extend-length k next (b ∷ order) = ground (arith, extend-length k (next + 1) order)

-- The bits of a run stay within its byte.
pub extend-within : (k next : ℕ) (order : List ℕ) → next ≤ 8 → next + (extend k next order).0 ≤ 8
unfolding extend
extend-within k next [] l = omega arith
extend-within k next (b ∷ order) l =
    by_test (Bool-cases ((byte_of b == k) && (bit_in_byte b == next)))
      (extend-within k (next + 1) order)
  where
    w : ℕ × List ℕ
    w = extend k (next + 1) order

    below : (byte_of b == k) && (bit_in_byte b == next) ≡ true → next < 8
    below e =
        let here : bit_in_byte b ≡ next = ground (arith, e) in omega (arith, bit_and_mask 3 b, here)

    Goal : ℕ × List ℕ → Type 0
    Goal x = next + x.0 ≤ 8

    by_test :
        ((byte_of b == k) && (bit_in_byte b == next) ≡ true)
          ⊎ ((byte_of b == k) && (bit_in_byte b == next) ≡ false)
        → (next + 1 ≤ 8 → next + 1 + w.0 ≤ 8)
        → Goal
            (if (byte_of b == k) && (bit_in_byte b == next) then (w.0 + 1, w.1) else (0, b ∷ order))
    by_test (inl e) ih =
        subst (λ c. Goal (if c then (w.0 + 1, w.1) else (0, b ∷ order))) (sym e)
          (omega (arith, ih (omega (arith, below e))))
    by_test (inr e) ih =
        subst (λ c. Goal (if c then (w.0 + 1, w.1) else (0, b ∷ order))) (sym e) (omega arith)

-- The number that runs spell, each at its place.
abbrev pub sum_runs : List ℕ → List Run → ℕ
sum_runs bs [] = 0
sum_runs bs (r ∷ runs) =
    2 ^ r.dest_lo * field (byte_var bs r.byte_index) r.src_lo r.width + sum_runs bs runs

abbrev pub InByte : Run → Type 0
InByte r = (r.src_lo + r.width ≤ 8) × (1 ≤ r.width)

two_pow-add : (i j : ℕ) → 2 ^ (i + j) ≡ 2 ^ i * 2 ^ j
two_pow-add i zero = omega (arith, ap (λ k. 2 ^ k) {x = i + 0} {y = i} (omega arith))
two_pow-add i (suc j) =
    ap (λ k. 2 ^ k) {x = i + suc j} {y = suc (i + j)} (omega arith)
    ∙ pow-suc 2 (i + j)
    ∙ ap (λ t. t * 2) (two_pow-add i j)
    ∙ (grind arith)
    ∙ ap (λ t. 2 ^ i * t) (sym (pow-suc 2 j))

placed : (i w p f q r : ℕ) → q ≡ 2 ^ i * p → 2 ^ i * f + q * r ≡ 2 ^ i * (f + p * r)
placed i w p f q r e = rw e (grind arith)

pub runs_from-spelled :
    (bs : List ℕ) (fuel i : ℕ) (order : List ℕ)
    → length order ≤ fuel
    → (sum_runs bs (runs_from fuel i order) ≡ 2 ^ i * spelled bs order)
      × All InByte (runs_from fuel i order)
unfolding runs_from spelled
runs_from-spelled bs zero i [] l = (omega arith, tt)
runs_from-spelled bs zero i (b ∷ order) l = absurd (omega arith)
runs_from-spelled bs (suc fuel) i [] l = (omega arith, tt)
runs_from-spelled bs (suc fuel) i (b ∷ order) l =
    let k = byte_of b in
    let lo = bit_in_byte b in
    let w = (extend k (lo + 1) order).0 in
    let rest = (extend k (lo + 1) order).1 in
    let small : lo < 8 = omega (arith, bit_and_mask 3 b) in
    let ih =
      runs_from-spelled bs fuel (i + (w + 1)) rest
        (omega (arith, extend-length k (lo + 1) order)) in
    (
      ap (λ t. 2 ^ i * field (byte_var bs k) lo (w + 1) + t) ih.0
          ∙ placed i w (2 ^ (w + 1)) (field (byte_var bs k) lo (w + 1)) (2 ^ (i + (w + 1)))
              (spelled bs rest) (two_pow-add i (w + 1))
          ∙ ap (λ t. 2 ^ i * t)
              (ap (λ n. field (byte_var bs k) lo n + 2 ^ n * spelled bs rest) {x = w + 1}
                  {y = suc w} (omega arith)
                ∙ sym (
                    one_more (get_bit bs b) (byte_var bs k) lo w (spelled bs order)
                      (spelled bs rest) (get_bit-byte_var bs b)
                      (extend-spelled bs k (lo + 1) order))),
      ((omega (arith, extend-within k (lo + 1) order (omega arith)), omega arith), ih.1),
    )
