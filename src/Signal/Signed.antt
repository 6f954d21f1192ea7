-- ===== src/Signal/Signed.antt =====
-- Signed signals in the cockpit (frontend/cockpit/src/protocol/decode.ts): two's complement.
use native.Mathlib.Nat.{pow-suc, one-le-pow, div-eq_of_lt, div-eq_of_lt-le}
use discodb.Prelude.{
  ℤ, pos, negsuc, ℕ, zero, suc, ◌-◌, ◌*◌, ◌%◌, ◌^◌, ◌≤◌, ◌<◌, bit_and, ◌≡◌, ◌⊎◌, inl, inr, refl,
  subst, ap, ap₂, ◌∙◌, true, false, List, none, some, ltb, leb, nonzero, Bool-cases, ltb→lt,
  not_ltb→le, if◌then◌else◌, arith,
}
use discodb.Prelude.Bits.{bit_and_bit}
use discodb.Signal.Defs.{sub, BitRange, sign_extend, extract_raw}
use discodb.Signal.Exact.{unsigned_value}
use discodb.Signal.Agree.{raw-spelled, unsigned_value-lt}

-- The number that the `k + 1` bits of `u` stand for in two's complement.
abbrev pub twos_complement : ℕ → ℕ → ℤ
twos_complement k u = if ltb u (2 ^ k) then pos u else negsuc (2 ^ suc k - 1 - u)

-- From `-2 ^ k` to `2 ^ k - 1`.
abbrev pub Representable : ℕ → ℤ → Type 0
Representable k (pos n) = n < 2 ^ k
Representable k (negsuc n) = n < 2 ^ k

not_leb : (a b : ℕ) → b < a → leb a b ≡ false
not_leb a b h = ground arith

sign_extend-lem : (k u : ℕ) → u < 2 ^ suc k → sign_extend (suc k) u ≡ some (twos_complement k u)
unfolding sign_extend sub
sign_extend-lem k u h = by_sign (Bool-cases (ltb u (2 ^ k)))
  where
    clear : ltb u (2 ^ k) ≡ true → bit_and u (2 ^ k) ≡ 0
    clear e =
        bit_and_bit k u ∙ ap (λ t. t % 2 * 2 ^ k) (div-eq_of_lt (ltb→lt u (2 ^ k) e)) ∙ omega arith

    low : ltb u (2 ^ k) ≡ true → nonzero (bit_and u (2 ^ k)) ≡ false
    low e = ap nonzero (clear e)

    high : ltb u (2 ^ k) ≡ false → bit_and u (2 ^ k) ≡ 2 ^ k
    high e =
        bit_and_bit k u
        ∙ ap (λ t. t % 2 * 2 ^ k)
            (div-eq_of_lt-le {k = 1} (2 ^ k) (omega (arith, not_ltb→le u (2 ^ k) e))
              (omega (arith, h, pow-suc 2 k)))
        ∙ omega arith

    set : (q : ℕ) → 1 ≤ q → nonzero q ≡ true
    set q l = ground arith

    below : leb (2 ^ suc k) u ≡ false
    below = not_leb (2 ^ suc k) u h

    by_sign :
        (ltb u (2 ^ k) ≡ true) ⊎ (ltb u (2 ^ k) ≡ false)
        → sign_extend (suc k) u ≡ some (twos_complement k u)
    by_sign (inl e) = rw (low e, e)
    by_sign (inr e) =
        rw (high e, set (2 ^ k) (one-le-pow k 2 (omega arith)), below, e)
          (ap (λ n. some (negsuc n)) (omega arith))

twos_complement-Representable : (k u : ℕ) → u < 2 ^ suc k → Representable k (twos_complement k u)
twos_complement-Representable k u h = by_sign (Bool-cases (ltb u (2 ^ k)))
  where
    by_sign :
        (ltb u (2 ^ k) ≡ true) ⊎ (ltb u (2 ^ k) ≡ false) → Representable k (twos_complement k u)
    by_sign (inl e) = rw e (ltb→lt u (2 ^ k) e)
    by_sign (inr e) = rw e (omega (arith, not_ltb→le u (2 ^ k) e, pow-suc 2 k))

-- A signed signal of at least one bit decodes to the number that its bits stand for in two's
-- complement, which is in the range of its width; without bits it is refused.
pub extract_raw-signed :
    (bs : List ℕ) (sig : BitRange)
    → sig.signed ≡ true
    → ((sig.bit_length ≡ 0) × (extract_raw bs sig ≡ none))
      ⊎ ((k : ℕ) × (sig.bit_length ≡ suc k)
          × (extract_raw bs sig
              ≡ some (
                  twos_complement k
                    (unsigned_value bs sig.bit_start sig.bit_length sig.byte_order)))
          × Representable k
              (twos_complement k (unsigned_value bs sig.bit_start sig.bit_length sig.byte_order)))
unfolding extract_raw sign_extend
extract_raw-signed bs sig e = by_length sig.bit_length refl
  where
    u : ℕ
    u = unsigned_value bs sig.bit_start sig.bit_length sig.byte_order

    extended : extract_raw bs sig ≡ sign_extend sig.bit_length u
    extended =
        ap₂ (λ s r. if s then sign_extend sig.bit_length r else some (pos r)) e (raw-spelled bs sig)

    fits : (k : ℕ) → sig.bit_length ≡ suc k → u < 2 ^ suc k
    fits k l = subst (λ n. u < 2 ^ n) l (unsigned_value-lt bs sig)

    by_length :
        (n : ℕ)
        → sig.bit_length ≡ n
        → ((sig.bit_length ≡ 0) × (extract_raw bs sig ≡ none))
          ⊎ ((k : ℕ) × (sig.bit_length ≡ suc k)
              × (extract_raw bs sig ≡ some (twos_complement k u))
              × Representable k (twos_complement k u))
    by_length zero l = inl (l, extended ∙ ap (λ n. sign_extend n u) l)
    by_length (suc k) l = inr (
      k,
      l,
      extended ∙ ap (λ n. sign_extend n u) l ∙ sign_extend-lem k u (fits k l),
      twos_complement-Representable k u (fits k l),
    )
