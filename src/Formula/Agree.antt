-- ===== src/Formula/Agree.antt =====
-- signalToFormula of frontend/cockpit/src/protocol/formula.ts against decodeSignal of
-- frontend/cockpit/src/protocol/decode.ts.
use discodb.Prelude.{
  ℤ, ℕ, ◌≤◌, ◌<◌, ◌≡◌, ◌⊎◌, inl, inr, refl, sym, subst, ap, ◌∙◌, Bool, true, false, ◌&&◌, ◌||◌,
  List, [], ◌∷◌, length, Option, none, some, ltb, ◌==◌, Bool-cases, if◌then◌else◌, arith,
}
use discodb.Signal.Defs.{BitRange, signal_bit_order, is_truncated, decode_signal, scaled}
use discodb.Signal.Agree.{length-signal_bit_order}
use discodb.Formula.Defs.{
  Term, letter, band_of, shr_of, times, plus, Raw, bare, wrapped, signed_of, Offset, unshifted,
  add_offset, sub_offset, Formula, FormulaDef, FormulaSignal, Doubles, Run, runs_from, run_source,
  chunk, join, raw_sum, has_operator, factor_base, beyond, raw_of, offset_of, formula_of,
  signal_to_formula, unit_of,
}
use discodb.Formula.Value.{raw_value, IsOctets, raw_of-extract_raw}

-- How tightly the outermost operator of a term's text binds.
unfoldable pub level : Term → ℕ
level (letter i) = 3
level (band_of t m) = 3
level (shr_of t n) = 3
level (times c t) = 2
level (plus t u) = 1

-- The operands of an operator bind tightly enough to stand there without brackets, where sums
-- associate to the left.
unfoldable pub IsBracketed : Term → Type 0
unfolding level
IsBracketed (letter i) = Unit
IsBracketed (band_of t m) = IsBracketed t
IsBracketed (shr_of t n) = IsBracketed t
IsBracketed (times c t) = IsBracketed t × (3 ≤ level t)
IsBracketed (plus t u) = IsBracketed t × IsBracketed u × (2 ≤ level u)

unfoldable pub IsBracketedRaw : Raw → Type 0
unfolding IsBracketed
IsBracketedRaw (bare t) = IsBracketed t
IsBracketedRaw (wrapped t) = IsBracketed t
IsBracketedRaw (signed_of t b m) = IsBracketed t

-- What a factor may follow without brackets of its own.
unfoldable pub IsFactorBase : Raw → Type 0
unfolding level
IsFactorBase (bare t) = 2 ≤ level t
IsFactorBase (wrapped t) = Unit
IsFactorBase (signed_of t b m) = Unit

unfoldable pub IsBracketedFormula {ℓ} : {F : Type ℓ} → Formula F → Type 0
unfolding IsBracketedRaw IsFactorBase
IsBracketedFormula f =
    IsBracketedRaw f.raw × elim f.factor [ none ↦ Unit | some x ↦ IsFactorBase f.raw ]

run_source-IsBracketed : (r : Run) → IsBracketed (run_source r) × (3 ≤ level (run_source r))
unfolding run_source IsBracketed level
run_source-IsBracketed r = ground arith

chunk-IsBracketed : (r : Run) → IsBracketed (chunk r) × (2 ≤ level (chunk r))
unfolding chunk IsBracketed level
chunk-IsBracketed r = elim (Bool-cases (r.dest_lo == 0)) [
  | inl e ↦ rw e (ground (arith, run_source-IsBracketed r))
  | inr e ↦ rw e (run_source-IsBracketed r, omega arith)
]

join-IsBracketed : (runs : List Run) (t : Term) → IsBracketed t → IsBracketed (join t runs)
unfolding join IsBracketed
join-IsBracketed [] t h = h
join-IsBracketed (r ∷ runs) t h =
    join-IsBracketed runs (plus t (chunk r)) (h, (chunk-IsBracketed r).0, (chunk-IsBracketed r).1)

raw_sum-IsBracketed : (runs : List Run) → IsBracketed (raw_sum runs)
unfolding raw_sum IsBracketed
raw_sum-IsBracketed [] = tt
raw_sum-IsBracketed (r ∷ runs) = join-IsBracketed runs (chunk r) (chunk-IsBracketed r).0

has_operator-level : (t : Term) → has_operator t ≡ false → 2 ≤ level t
unfolding has_operator level
has_operator-level (letter i) e = omega arith
has_operator-level (band_of t m) e = omega arith
has_operator-level (shr_of t n) e = omega arith
has_operator-level (times c t) e = omega arith
has_operator-level (plus t u) e = ground (arith, e)

factor_base-IsBracketed :
    (r : Raw) → IsBracketedRaw r → IsBracketedRaw (factor_base r) × IsFactorBase (factor_base r)
unfolding factor_base IsBracketedRaw IsFactorBase
factor_base-IsBracketed (bare t) h = elim (Bool-cases (has_operator t)) [
  | inl e ↦ rw e (h, tt)
  | inr e ↦ rw e (h, has_operator-level t e)
]
factor_base-IsBracketed (wrapped t) h = (h, tt)
factor_base-IsBracketed (signed_of t b m) h = (h, tt)

raw_of-IsBracketed : (sig : BitRange) → IsBracketedRaw (raw_of sig)
unfolding raw_of IsBracketedRaw
raw_of-IsBracketed sig =
    let order = signal_bit_order sig in
    let h = raw_sum-IsBracketed (runs_from (length order) 0 order) in
    elim (Bool-cases (sig.signed && ltb 0 sig.bit_length)) [ inl e ↦ rw e h | inr e ↦ rw e h ]

formula_of-IsBracketed {ℓ} :
    {F : Type ℓ} (d : Doubles F) (sig : FormulaSignal F) → IsBracketedFormula (formula_of d sig)
unfolding formula_of IsBracketedFormula
formula_of-IsBracketed {F} d sig = elim (Bool-cases (d.is_one sig.factor)) [
  | inl e ↦ subst (λ c. IsBracketedFormula (if c then plain else scaled)) (sym e) (h, tt)
  | inr e ↦
      subst (λ c. IsBracketedFormula (if c then plain else scaled)) (sym e)
        (factor_base-IsBracketed (raw_of sig.range) h)
]
  where
    plain : Formula F
    plain = record { raw = raw_of sig.range; factor = none; offset = offset_of d sig.offset }

    scaled : Formula F
    scaled = record {
      raw = factor_base (raw_of sig.range);
      factor = some sig.factor;
      offset = offset_of d sig.offset;
    }

    h : IsBracketedRaw (raw_of sig.range)
    h = raw_of-IsBracketed sig.range

factor_base-raw_value : (bs : List ℕ) (r : Raw) → raw_value bs (factor_base r) ≡ raw_value bs r
unfolding factor_base raw_value
factor_base-raw_value bs (bare t) = elim (Bool-cases (has_operator t)) [
  | inl e ↦ rw e refl
  | inr e ↦ rw e refl
]
factor_base-raw_value bs (wrapped t) = refl
factor_base-raw_value bs (signed_of t b m) = refl

-- The arithmetic of doubles: `Number(raw)`, `*`, `+` and `-`.
pub record Arithmetic {ℓ} (F : Type ℓ) : Type ℓ where
  pub of_int : ℤ → F
  pub mul : F → F → F
  pub add : F → F → F
  pub subtract : F → F → F

-- What the bridge relies on: a double is the one, the zero or negative as the tests say. (Equal
-- doubles are those that `===` holds of, so that the two zeros are equal.)
pub record Lawful {ℓ} {F : Type ℓ} (d : Doubles F) (ar : Arithmetic F) : Type ℓ where
  pub times_one : (v x : F) → d.is_one x ≡ true → ar.mul v x ≡ v
  pub plus_zero : (v x : F) → d.is_zero x ≡ true → ar.add v x ≡ v
  pub minus_negated : (v x : F) → d.is_negative x ≡ true → ar.subtract v (d.negate x) ≡ ar.add v x

module _ {ℓ} {F : Type ℓ} (ar : Arithmetic F) where
  abbrev pub factor_value : F → Option F → F
  factor_value v none = v
  factor_value v (some x) = ar.mul v x

  abbrev pub offset_value : F → Offset F → F
  offset_value v unshifted = v
  offset_value v (add_offset x) = ar.add v x
  offset_value v (sub_offset x) = ar.subtract v x

  -- What the text of a formula means.
  unfoldable pub formula_value : List ℕ → Formula F → F
  formula_value bs f =
      offset_value (factor_value (ar.of_int (raw_value bs f.raw)) f.factor) f.offset

  -- `Number(raw) * sig.factor + sig.offset` of decodeSignal
  abbrev pub scale : F → F → ℤ → F
  scale factor offset raw = ar.add (ar.mul (ar.of_int raw) factor) offset

  module _ (d : Doubles F) (laws : Lawful d ar) where
    offset_of-value : (v x : F) → offset_value v (offset_of d x) ≡ ar.add v x
    unfolding offset_of
    offset_of-value v x = elim (Bool-cases (d.is_zero x)) [
      | inl e ↦ rw e (sym (laws.plus_zero v x e))
      | inr e ↦ rw e (elim (Bool-cases (d.is_negative x)) [
        | inl n ↦ rw n (laws.minus_negated v x n)
        | inr n ↦ rw n refl
      ])
    ]

    formula_of-value :
        (bs : List ℕ) (sig : FormulaSignal F)
        → formula_value bs (formula_of d sig)
          ≡ scale sig.factor sig.offset (raw_value bs (raw_of sig.range))
    unfolding formula_of formula_value
    formula_of-value bs sig =
        let r = ar.of_int (raw_value bs (raw_of sig.range)) in
        elim (Bool-cases (d.is_one sig.factor)) [
          | inl e ↦ rw e (
              offset_of-value r sig.offset
              ∙ ap (λ v. ar.add v sig.offset) (sym (laws.times_one r sig.factor e)))
          | inr e ↦
              rw (e, factor_base-raw_value bs (raw_of sig.range))
                (offset_of-value (ar.mul r sig.factor) sig.offset)
        ]

-- Why a signal has no formula.
unfoldable pub IsRefused : BitRange → Type 0
IsRefused sig =
    (sig.bit_length ≡ 0) ⊎ ((52 < sig.bit_length) ⊎ (beyond (signal_bit_order sig) ≡ true))

-- `def` is a formula with the brackets that the precedences ask for, and its value on any payload is
-- the value that the decoder finds there.
unfoldable pub IsDecoderOf {ℓ} :
    {F : Type ℓ} → Arithmetic F → FormulaSignal F → FormulaDef F → Type ℓ
unfolding IsBracketedFormula
IsDecoderOf ar sig def =
    IsBracketedFormula def.expr
    × ((bs : List ℕ)
        → IsOctets bs
        → (raw : ℤ) × (decode_signal (scale ar sig.factor sig.offset) bs sig.range
            ≡ some (record {
              raw = raw;
              value = formula_value ar bs def.expr;
              truncated = is_truncated bs sig.range;
            })))

-- A signal gets no formula just when it has no bit, has more than 52 or reaches past the eighth byte.
-- Any other signal gets one whose value on any payload is the physical value that the decoder finds
-- there, in any arithmetic where multiplying by a factor that tests as one and adding an offset that
-- tests as zero change nothing, and subtracting the negation of an offset that tests as negative adds
-- it. In the formula nothing but a letter or a call is multiplied by a constant, no sum is the right
-- operand of a sum, and a sum that a factor multiplies is in brackets. How the factor and the offset
-- are printed is not considered.
pub signal_to_formula-decode_signal {ℓ} :
    {F : Type ℓ} (d : Doubles F) (ar : Arithmetic F)
    → Lawful d ar
    → (sig : FormulaSignal F)
    → (IsRefused sig.range × (signal_to_formula d sig ≡ none))
      ⊎ (¬ IsRefused sig.range
          × ((def : FormulaDef F) × (signal_to_formula d sig ≡ some def) × IsDecoderOf ar sig def))
unfolding signal_to_formula IsDecoderOf IsRefused decode_signal scaled
signal_to_formula-decode_signal {F} d ar laws sig =
    by_length (Bool-cases ((length order == 0) || ltb 52 (length order)))
  where
    order : List ℕ
    order = signal_bit_order sig.range

    size : length order ≡ sig.range.bit_length
    size = length-signal_bit_order sig.range

    def : FormulaDef F
    def = record { expr = formula_of d sig; unit = unit_of d sig.unit }

    Goal : Bool → Bool → Type ℓ
    Goal c e =
        (IsRefused sig.range × ((if c then none else if e then none else some def) ≡ none))
        ⊎ (¬ IsRefused sig.range
            × ((f : FormulaDef F) × ((if c then none else if e then none else some def) ≡ some f)
                × IsDecoderOf ar sig f))

    at_least_one : ¬ IsRefused sig.range → 1 ≤ sig.range.bit_length
    at_least_one h = elim (Bool-cases (sig.range.bit_length == 0)) [
      | inl z ↦ absurd (h (inl (ground (arith, z))))
      | inr z ↦ ground (arith, z)
    ]

    made : ¬ IsRefused sig.range → IsDecoderOf ar sig def
    made h = (
      formula_of-IsBracketed d sig,
      λ bs o. (
        raw_value bs (raw_of sig.range),
        ap (scaled (scale ar sig.factor sig.offset) (is_truncated bs sig.range))
              (raw_of-extract_raw bs sig.range o (at_least_one h))
            ∙ ap
                (λ v. some (record {
                  raw = raw_value bs (raw_of sig.range);
                  value = v;
                  truncated = is_truncated bs sig.range;
                }))
                (sym (formula_of-value ar d laws bs sig)),
      ),
    )

    refused : (length order == 0) || ltb 52 (length order) ≡ true → IsRefused sig.range
    refused e = elim (Bool-cases (length order == 0)) [
      | inl z ↦ inl (ground (arith, z, size))
      | inr z ↦ inr (inl (ground (arith, e, z, size)))
    ]

    allowed :
        ((length order == 0) || ltb 52 (length order) ≡ false)
        → beyond order ≡ false
        → ¬ IsRefused sig.range
    allowed w e h = elim h [
      | inl z ↦ ground (arith, w, size, z)
      | inr (inl l) ↦ ground (arith, w, size, l)
      | inr (inr b) ↦ ground (arith, e, b)
    ]

    by_reach :
        ((length order == 0) || ltb 52 (length order) ≡ false)
        → (beyond order ≡ true) ⊎ (beyond order ≡ false)
        → Goal false (beyond order)
    by_reach w (inl e) = subst (Goal false) (sym e) (inl (inr (inr e), refl))
    by_reach w (inr e) =
        subst (Goal false) (sym e) (inr (allowed w e, (def, refl, made (allowed w e))))

    by_length :
        ((length order == 0) || ltb 52 (length order) ≡ true)
          ⊎ ((length order == 0) || ltb 52 (length order) ≡ false)
        → Goal ((length order == 0) || ltb 52 (length order)) (beyond order)
    by_length (inl e) = subst (λ c. Goal c (beyond order)) (sym e) (inl (refused e, refl))
    by_length (inr e) =
        subst (λ c. Goal c (beyond order)) (sym e) (by_reach e (Bool-cases (beyond order)))
