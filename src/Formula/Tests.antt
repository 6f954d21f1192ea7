-- ===== src/Formula/Tests.antt =====
-- Witnesses and tests for the formulas of frontend/cockpit/src/protocol/formula.ts.
use discodb.Prelude.{
  ℤ, pos, negsuc, ℕ, ◌+◌, ◌*◌, ◌≡◌, ◌⊎◌, refl, Bool, true, false, none, some, ◌==◌, arith,
}
use discodb.Signal.Defs.{sub, signal_bit_order, sawtooth, big}
use discodb.Formula.Defs.{
  Doubles, FormulaDef, wrapped, plus, band_of, shr_of, letter, times, add_offset, runs_from, extend,
  FormulaSignal, formula_of, signal_to_formula, print, u16, u16le, s16, u32, bor, shl, bit,
}
use discodb.Formula.Agree.{
  Arithmetic, Lawful, IsRefused, IsDecoderOf, signal_to_formula-decode_signal,
}

-- Numbers without a sign.
abbrev naturals : Doubles ℕ
naturals = record {
  is_one = λ n. n == 1;
  is_zero = λ n. n == 0;
  is_negative = λ n. false;
  negate = λ n. n;
  written = λ n. "10";
  digits = λ n. "10";
}

abbrev to_natural : ℤ → ℕ
to_natural (pos n) = n
to_natural (negsuc n) = 0

abbrev sums : Arithmetic ℕ
sums = record { of_int = to_natural; mul = ◌*◌; add = ◌+◌; subtract = ◌+◌ }

naturals-Lawful : Lawful naturals sums
naturals-Lawful = record {
  times_one = λ v x e. ground (arith, e);
  plus_zero = λ v x e. ground (arith, e);
  minus_negated = λ v x e. refl;
}

-- Twelve bits from the top of the second byte on, into the third.
abbrev twelve : Bool → FormulaSignal ℕ
twelve s = record {
  range = record { bit_start = 15; bit_length = 12; byte_order = big; signed = s };
  factor = 10;
  offset = 4;
  unit = "rpm";
}

twelve_formula : formula_of naturals (twelve false) ≡ record {
  raw = wrapped (plus (band_of (shr_of (letter 2) 4) 15) (times 16 (letter 1)));
  factor = some 10;
  offset = add_offset 4;
}
unfolding formula_of signal_bit_order sawtooth runs_from extend
twelve_formula = refl

factor_text :
    print naturals (record { raw = wrapped (letter 1); factor = some 10; offset = add_offset 4 })
    ≡ "(B) * 10 + 10"
unfolding print
factor_text = refl

words : (u16 0x112 0x34 ≡ 0x1234) × (u16le 0x34 0x12 ≡ 0x1234) × (s16 0xff 0xfe ≡ negsuc 1)
unfolding u16 u16le s16 sub
words = (refl, refl, refl)

bits :
    (u32 0xff 0 0 1 ≡ 0xff000001) × (bor 0xf0 0x0f ≡ 0xff) × (shl 0x80000001 1 ≡ 2) × (bit 4 2 ≡ 1)
unfolding u32 bor shl bit
bits = (refl, refl, refl, refl)

signal_to_formula-decode_signal_example :
    (IsRefused (twelve true).range × (signal_to_formula naturals (twelve true) ≡ none))
    ⊎ (¬ IsRefused (twelve true).range
        × ((def : FormulaDef ℕ) × (signal_to_formula naturals (twelve true) ≡ some def)
            × IsDecoderOf sums (twelve true) def))
signal_to_formula-decode_signal_example =
    signal_to_formula-decode_signal naturals sums naturals-Lawful (twelve true)
