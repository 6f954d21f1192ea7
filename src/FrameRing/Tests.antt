-- ===== src/FrameRing/Tests.antt =====
-- A ring of three slots of frontend/cockpit/src/state/ringBuffer.ts, four frames and their reads.
use discodb.Prelude.{
  ℕ, ◌+◌, ◌≤◌, ◌≡◌, refl, false, List, [], ◌∷◌, ◌++◌, map, none, some, filter, All, arith,
}
use discodb.Wire.Decode.{CanFrame}
use discodb.FrameRing.Defs.{
  Ring, new_ring, push, push_many, at_index, window, since, physical, build, write_slot,
  write_payload,
}
use discodb.FrameRing.Slots.{view_of, stored_bytes}
use discodb.FrameRing.History.{
  Represents, new_ring-Represents, push-Represents, push_many-Represents,
}
use discodb.FrameRing.Reading.{held, in_window, window-filter, since-push_many}

abbrev frame : ℕ → ℕ → CanFrame
frame t i = record {
  t_us = t;
  id = i;
  is_extended = false;
  is_error = false;
  is_rtr = false;
  dlc = 2;
  bytes = 7 ∷ t ∷ [];
}

abbrev four : List CanFrame
four = frame 1 16 ∷ frame 2 17 ∷ frame 3 16 ∷ frame 4 17 ∷ []

four-Classic : All (λ (f : CanFrame). f.dlc ≤ 8) four
four-Classic = omega arith

abbrev ring_of_four : Ring
ring_of_four = push_many (new_ring 3) four

ring_of_four-Represents : Represents (map view_of four) ring_of_four
ring_of_four-Represents =
    push_many-Represents [] (new_ring 3) four four-Classic (new_ring-Represents 3)

push-Represents_example :
    Represents (map view_of four ++ (view_of (frame 5 18) ∷ [])) (push ring_of_four (frame 5 18))
push-Represents_example =
    push-Represents (map view_of four) ring_of_four (frame 5 18) (omega arith)
      ring_of_four-Represents

newest_read : at_index ring_of_four 2 ≡ some (view_of (frame 4 17))
unfolding at_index new_ring push push_many build write_slot stored_bytes physical write_payload
newest_read = refl

window-filter_example :
    window ring_of_four 2 4 (some 17)
    ≡ filter (in_window 2 4 (some 17)) (held (map view_of four) ring_of_four)
window-filter_example =
    window-filter (map view_of four) ring_of_four ring_of_four-Represents 2 4 (some 17)

since-push_many_example :
    since (push_many (new_ring 3) (frame 1 16 ∷ frame 2 17 ∷ [])) (new_ring 3).total_pushed none
    ≡ some (record {
      frames = view_of (frame 1 16) ∷ view_of (frame 2 17) ∷ [];
      seq = (new_ring 3).total_pushed + 2;
      lapped = false;
    })
unfolding new_ring
since-push_many_example =
    since-push_many [] (new_ring 3) (frame 1 16 ∷ frame 2 17 ∷ []) (new_ring-Represents 3)
      (omega arith) (omega arith)
