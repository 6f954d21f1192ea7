-- ===== src/Messages/Tests.antt =====
-- Witnesses and tests for the messages of frontend/cockpit/src/protocol/messages.ts and
-- messageModel.ts.
use discodb.Prelude.{negsuc, arith, ℕ, ◌≡◌, refl, false, List, [], ◌∷◌, ◌++◌, none, some}
use discodb.FrameRing.Defs.{FrameView}
use discodb.Signal.Defs.{BitRange, little}
use discodb.Messages.Values.{field_bytes, field_hex_width, field_value_of}
use discodb.Messages.Rows.{compute_messages}
use discodb.Messages.Model.{Model, new_group, windowed_count, emit}
use discodb.Messages.Appending.{fed}
use discodb.Messages.Agree.{Agrees, emit-compute_messages}
use discodb.Messages.Buckets.{grouped, count_in, windowed_count-count_in}
use discodb.Messages.Late.{late-rate, rates}

abbrev frame : ℕ → List ℕ → FrameView
frame t bs = record {
  t_us = t;
  id = 0x100;
  is_extended = false;
  is_error = false;
  is_rtr = false;
  dlc = 2;
  bytes = bs;
}

-- The low four bits of the first byte.
abbrev low_nibble : BitRange
low_nibble = record { bit_start = 0; bit_length = 4; byte_order = little; signed = false }

abbrev early : List FrameView
early = frame 5000000 (0x13 ∷ 1 ∷ []) ∷ frame 6000000 (0x21 ∷ 2 ∷ []) ∷ []

abbrev later : List FrameView
later = frame 7000000 (0x33 ∷ 3 ∷ []) ∷ []

abbrev count_of : ℕ → ℕ → ℕ
count_of n us = n

geometry : (field_bytes low_nibble ≡ 0 ∷ []) × (field_hex_width low_nibble ≡ 1)
unfolding field_bytes field_hex_width
geometry = (refl, refl)

too_short : field_value_of low_nibble (frame 0 []) ≡ some (negsuc 0)
unfolding field_value_of
too_short = refl

emit-compute_messages_example :
    Agrees
      (emit count_of (some low_nibble) 60 7000000)
      (fed (some low_nibble) early later)
      (compute_messages (λ n. n) (some low_nibble) 60000000 7000000 (early ++ later))
emit-compute_messages_example =
    emit-compute_messages count_of (λ n. n) 60 60000000 7000000 (some low_nibble) early later

late-rate_example :
    (d : Model) × (e : Model) × (fed none [] early ≡ some d)
    × (fed none early [] ≡ some e)
    × (rates (emit (λ n us. us) none 0 6000000 d) ≡ 6000000 ∷ [])
    × (rates (emit (λ n us. us) none 0 6000000 e) ≡ 1000000 ∷ [])
late-rate_example =
    late-rate (λ n us. us) 6000000 (frame 5000000 (0x13 ∷ 1 ∷ []))
      (frame 6000000 (0x21 ∷ 2 ∷ []) ∷ [])

windowed_count-count_in_example :
    windowed_count (grouped (new_group (frame 5000000 [])) (frame 5000000 [] ∷ later)) 7 2
    ≡ count_in 6 2 (frame 5000000 [] ∷ later)
windowed_count-count_in_example =
    windowed_count-count_in (frame 5000000 []) later 7 2 (omega arith, tt) (omega arith)
      (omega arith)
