-- ===== src/Formula/Defs.antt =====
-- The helper functions and signalToFormula of frontend/cockpit/src/protocol/formula.ts.
use Prim.Native.String.{String, ◌++◌}
use text.Mathlib.Text
use discodb.Prelude.{
  ℤ, pos, ℕ, zero, suc, ◌+◌, ◌-◌, ◌*◌, ◌/◌, ◌%◌, ◌^◌, bit_and, bit_or, Bool, true, false, ◌&&◌,
  ◌||◌, List, [], ◌∷◌, length, get_or, Option, none, some, ltb, leb, ◌==◌, if◌then◌else◌,
}
use discodb.Signal.Defs.{sub, BitRange, byte_of, bit_in_byte, signal_bit_order}

-- The functions that are given to the parser. A bitwise operator of the source works on 32 bits, and
-- `>>> 0` reads its result as unsigned; a shift count is taken modulo 32.
abbrev pub u8 : ℕ → ℕ
u8 x = bit_and x 0xff

unfoldable pub u16 : ℕ → ℕ → ℕ
u16 hi lo = bit_or (u8 hi * 2 ^ 8) (u8 lo)

unfoldable pub u16le : ℕ → ℕ → ℕ
u16le lo hi = bit_or (u8 hi * 2 ^ 8) (u8 lo)

unfoldable pub s16 : ℕ → ℕ → ℤ
s16 hi lo =
    let v = bit_and (bit_or (u8 hi * 2 ^ 8) (u8 lo)) 0xffff in
    if leb 0x8000 v then sub v 0x10000 else pos v

unfoldable pub u32 : ℕ → ℕ → ℕ → ℕ → ℕ
u32 a b c d = (u8 a * 0x1000000 + u8 b * 2 ^ 16 + u8 c * 2 ^ 8 + u8 d) % 2 ^ 32

unfoldable pub band : ℕ → ℕ → ℕ
band x m = bit_and (x % 2 ^ 32) (m % 2 ^ 32)

unfoldable pub bor : ℕ → ℕ → ℕ
bor x m = bit_or (x % 2 ^ 32) (m % 2 ^ 32)

unfoldable pub shl : ℕ → ℕ → ℕ
shl x n = x % 2 ^ 32 * 2 ^ (n % 32) % 2 ^ 32

unfoldable pub shr : ℕ → ℕ → ℕ
shr x n = x % 2 ^ 32 / 2 ^ (n % 32)

unfoldable pub bit : ℕ → ℕ → ℕ
bit x n = bit_and (x % 2 ^ 32 / 2 ^ (n % 32)) 1

-- The variable of byte `i` in `byteVars`: 0 past the end of the payload.
abbrev pub byte_var : List ℕ → ℕ → ℕ
byte_var bs i = if ltb i (length bs) then get_or bs i 0 else 0

-- What the sum over the runs of a signal is made of.
pub data Term : Type 0 where
  letter : ℕ → Term
  band_of : Term → ℕ → Term
  shr_of : Term → ℕ → Term
  times : ℕ → Term → Term
  plus : Term → Term → Term

-- The raw value: a sum, in parentheses or not, or the choice between it and it less `modulus`.
pub data Raw : Type 0 where
  bare : Term → Raw
  wrapped : Term → Raw
  signed_of : (sum : Term) → (bound modulus : ℕ) → Raw

pub data Offset {ℓ} (F : Type ℓ) : Type ℓ where
  unshifted : Offset F
  add_offset sub_offset : F → Offset F

pub record Formula {ℓ} (F : Type ℓ) : Type ℓ where
  pub raw : Raw
  pub factor : Option F
  pub offset : Offset F

pub record FormulaDef {ℓ} (F : Type ℓ) : Type ℓ where
  pub expr : Formula F
  pub unit : Option String

-- What signalToFormula reads of an `EditableSignal`; a factor and an offset are doubles.
pub record FormulaSignal {ℓ} (F : Type ℓ) : Type ℓ where
  pub range : BitRange
  pub factor : F
  pub offset : F
  pub unit : String

-- The tests on a double that the bridge makes, its negation, and how numbers are written.
pub record Doubles {ℓ} (F : Type ℓ) : Type ℓ where
  pub is_one : F → Bool
  pub is_zero : F → Bool
  pub is_negative : F → Bool
  pub negate : F → F
  pub written : F → String
  pub digits : ℕ → String

-- The inner loop: how many of the bits go on from bit `next` of byte `k`, and the bits after them.
unfoldable pub extend : ℕ → ℕ → List ℕ → ℕ × List ℕ
extend k next [] = (0, [])
extend k next (b ∷ order) =
    let (w, rest) = extend k (next + 1) order in
    if (byte_of b == k) && (bit_in_byte b == next) then (w + 1, rest) else (0, b ∷ order)

pub record Run : Type 0 where
  pub dest_lo : ℕ
  pub byte_index : ℕ
  pub src_lo : ℕ
  pub width : ℕ

-- The outer loop from destination bit `i` on, for at most `fuel` runs; each takes a bit.
unfoldable pub runs_from : ℕ → ℕ → List ℕ → List Run
runs_from zero i order = []
runs_from (suc fuel) i [] = []
runs_from (suc fuel) i (b ∷ order) =
    let (w, rest) = extend (byte_of b) (bit_in_byte b + 1) order in
    record { dest_lo = i; byte_index = byte_of b; src_lo = bit_in_byte b; width = w + 1 }
    ∷ runs_from fuel (i + (w + 1)) rest

-- A run's source bits, aligned to bit 0.
unfoldable pub run_source : Run → Term
run_source r =
    if (r.src_lo == 0) && (r.width == 8)
    then letter r.byte_index
    else if r.src_lo == 0
    then band_of (letter r.byte_index) (2 ^ r.width - 1)
    else band_of (shr_of (letter r.byte_index) r.src_lo) (2 ^ r.width - 1)

unfoldable pub chunk : Run → Term
unfolding run_source
chunk r = if r.dest_lo == 0 then run_source r else times (2 ^ r.dest_lo) (run_source r)

-- `chunks.join(' + ')`, the chunks so far being `t`.
unfoldable pub join : Term → List Run → Term
unfolding chunk
join t [] = t
join t (r ∷ runs) = join (plus t (chunk r)) runs

-- The sum of no runs is never asked for.
unfoldable pub raw_sum : List Run → Term
unfolding join
raw_sum [] = letter 0
raw_sum (r ∷ runs) = join (chunk r) runs

-- Whether the text of the raw value has a `+`, a `-` or a `?`: a letter, a call, a product and the
-- digits of a number have none.
unfoldable pub has_operator : Term → Bool
has_operator (letter i) = false
has_operator (band_of t m) = has_operator t
has_operator (shr_of t n) = has_operator t
has_operator (times c t) = has_operator t
has_operator (plus t u) = true

-- The base of the product with the factor.
unfoldable pub factor_base : Raw → Raw
unfolding has_operator
factor_base (bare t) = if has_operator t then wrapped t else bare t
factor_base (wrapped t) = wrapped t
factor_base (signed_of t b m) = signed_of t b m

abbrev pub beyond : List ℕ → Bool
beyond [] = false
beyond (b ∷ order) = ltb 7 (byte_of b) || beyond order

unfoldable pub raw_of : BitRange → Raw
unfolding raw_sum
raw_of sig =
    let order = signal_bit_order sig in
    let sum = raw_sum (runs_from (length order) 0 order) in
    if sig.signed && ltb 0 sig.bit_length
    then signed_of sum (2 ^ (sig.bit_length - 1)) (2 ^ sig.bit_length)
    else bare sum

module _ {ℓ} {F : Type ℓ} (d : Doubles F) where
  unfoldable pub offset_of : F → Offset F
  offset_of x =
      if d.is_zero x
      then unshifted
      else if d.is_negative x
      then sub_offset (d.negate x)
      else add_offset x

  unfoldable pub formula_of : FormulaSignal F → Formula F
  unfolding raw_of offset_of factor_base
  formula_of sig =
      if d.is_one sig.factor
      then record { raw = raw_of sig.range; factor = none; offset = offset_of sig.offset }
      else record {
        raw = factor_base (raw_of sig.range);
        factor = some sig.factor;
        offset = offset_of sig.offset;
      }

  -- `sig.unit || undefined`
  abbrev pub unit_of : String → Option String
  unit_of u = if Text.◌==◌ u "" then none else some u

  unfoldable pub signal_to_formula : FormulaSignal F → Option (FormulaDef F)
  unfolding formula_of
  signal_to_formula sig =
      let order = signal_bit_order sig.range in
      if (length order == 0) || ltb 52 (length order)
      then none
      else if beyond order
      then none
      else some (record { expr = formula_of sig; unit = unit_of sig.unit })

  -- `BYTE_LETTERS`
  abbrev pub byte_letter : ℕ → String
  byte_letter i = get_or ("A" ∷ "B" ∷ "C" ∷ "D" ∷ "E" ∷ "F" ∷ "G" ∷ "H" ∷ []) i ""

  -- The text of a formula.
  unfoldable pub print_term : Term → String
  print_term (letter i) = byte_letter i
  print_term (band_of t m) = "band(" ++ print_term t ++ ", " ++ d.digits m ++ ")"
  print_term (shr_of t n) = "shr(" ++ print_term t ++ ", " ++ d.digits n ++ ")"
  print_term (times c t) = d.digits c ++ " * " ++ print_term t
  print_term (plus t u) = print_term t ++ " + " ++ print_term u

  unfoldable pub print_raw : Raw → String
  unfolding print_term
  print_raw (bare t) = print_term t
  print_raw (wrapped t) = "(" ++ print_term t ++ ")"
  print_raw (signed_of t b m) =
      let s = "(" ++ print_term t ++ ")" in
      "(" ++ s ++ " >= " ++ d.digits b ++ " ? " ++ s ++ " - " ++ d.digits m ++ " : " ++ s ++ ")"

  abbrev pub print_factor : Option F → String
  print_factor none = ""
  print_factor (some f) = " * " ++ d.written f

  abbrev pub print_offset : Offset F → String
  print_offset unshifted = ""
  print_offset (add_offset x) = " + " ++ d.written x
  print_offset (sub_offset x) = " - " ++ d.written x

  unfoldable pub print : Formula F → String
  unfolding print_raw
  print f = print_raw f.raw ++ print_factor f.factor ++ print_offset f.offset
