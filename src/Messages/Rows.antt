-- ===== src/Messages/Rows.antt =====
-- computeMessages of frontend/cockpit/src/protocol/messages.ts: the rows of a whole history.
use discodb.Prelude.{ℤ, ℕ, ◌+◌, ◌-◌, List, [], ◌∷◌, length, Option, none, some, leb, if◌then◌else◌}
use discodb.FrameRing.Defs.{FrameView}
use discodb.Signal.Defs.{BitRange}
use discodb.Messages.Values.{
  ◌>>=◌, field_bytes, field_hex_width, field_value_of, upsert, sort_values,
}

-- A row; its rate is a double.
pub record MessageRow (R : Type 0) : Type 0 where
  pub mux : Option ℤ
  pub bytes : List ℕ
  pub dlc : ℕ
  pub rate : R
  pub last_t_us : ℕ
  pub count : ℕ
  pub id_bytes : Option (List ℕ)
  pub id_hex_width : ℕ

-- A group while the frames are read: a row's entries, and the entry of `windowedCount`.
pub record Gathered : Type 0 where
  pub bytes : List ℕ
  pub dlc : ℕ
  pub last_t_us : ℕ
  pub count : ℕ
  pub windowed : ℕ

abbrev pub new_gathered : FrameView → Gathered
new_gathered f = record {
  bytes = f.bytes;
  dlc = f.dlc;
  last_t_us = f.t_us;
  count = 0;
  windowed = 0;
}

-- `tUs >= windowLowTUs`, `low` being 0 where the source is below it
abbrev pub gathered : ℕ → FrameView → Gathered → Gathered
gathered low f g = record {
  bytes = f.bytes;
  dlc = f.dlc;
  last_t_us = f.t_us;
  count = g.count + 1;
  windowed = if leb low f.t_us then g.windowed + 1 else g.windowed;
}

-- The loop over the frames.
unfoldable pub gather_all :
    BitRange → ℕ → List FrameView → List (ℤ × Gathered) → Option (List (ℤ × Gathered))
gather_all field low [] gs = some gs
gather_all field low (f ∷ fs) gs = do
  v ← field_value_of field f
  gather_all field low fs (upsert v (new_gathered f) (gathered low f) gs)

abbrev pub count_since : ℕ → List FrameView → ℕ
count_since low [] = 0
count_since low (f ∷ fs) = let n = count_since low fs in if leb low f.t_us then n + 1 else n

abbrev pub last_of : FrameView → List FrameView → FrameView
last_of f [] = f
last_of f (g ∷ fs) = last_of g fs

module _ {R : Type 0} (per : ℕ → R) where
  abbrev pub row_of : BitRange → ℤ × Gathered → MessageRow R
  row_of field e = record {
    mux = some e.0;
    bytes = e.1.bytes;
    dlc = e.1.dlc;
    rate = per e.1.windowed;
    last_t_us = e.1.last_t_us;
    count = e.1.count;
    id_bytes = some (field_bytes field);
    id_hex_width = field_hex_width field;
  }

  abbrev pub rows_of : BitRange → List (ℤ × Gathered) → List (MessageRow R)
  rows_of field [] = []
  rows_of field (e ∷ es) = row_of field e ∷ rows_of field es

  -- `field` is the field of the effective message id, and `per n` is n / windowSeconds.
  unfoldable pub compute_messages :
      Option BitRange → (window_us now : ℕ) → List FrameView → Option (List (MessageRow R))
  unfolding gather_all
  compute_messages field window_us now [] = some []
  compute_messages none window_us now (f ∷ fs) =
      let last = last_of f fs in
      some (
        record {
          mux = none;
          bytes = last.bytes;
          dlc = last.dlc;
          rate = per (count_since (now - window_us) (f ∷ fs));
          last_t_us = last.t_us;
          count = length (f ∷ fs);
          id_bytes = none;
          id_hex_width = 0;
        }
        ∷ [])
  compute_messages (some field) window_us now (f ∷ fs) = do
    gs ← gather_all field (now - window_us) (f ∷ fs) []
    some (rows_of field (sort_values gs))
