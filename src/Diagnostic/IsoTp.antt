-- ===== src/Diagnostic/IsoTp.antt =====
-- Addressing and the ISO-TP header of one frame, of frontend/shared/diagnostic.ts.
use discodb.Prelude.{
  ℕ, ◌-◌, ◌*◌, ◌/◌, ◌^◌, bit_and, bit_or, Bool, ◌&&◌, List, [], ◌∷◌, length, get_or, Option, none,
  some, leb, ◌==◌, if◌then◌else◌,
}

-- `DiagRole`
pub data DiagRole : Type 0 where
  request_functional request_physical response : DiagRole

pub record DiagAddressing : Type 0 where
  pub role : DiagRole
  pub ecu : Option ℕ

unfoldable pub classify_diag_id : ℕ → Bool → Option DiagAddressing
classify_diag_id id is_extended =
    if is_extended
    then none
    else if id == 0x7df
    then some (record { role = request_functional; ecu = none })
    else if leb 0x7e0 id && leb id 0x7e7
    then some (record { role = request_physical; ecu = some (id - 0x7e0) })
    else if leb 0x7e8 id && leb id 0x7ef
    then some (record { role = response; ecu = some (id - 0x7e8) })
    else none

-- `IsoTpKind`
pub data IsoTpKind : Type 0 where
  single first consecutive flow_control unknown : IsoTpKind

pub record IsoTpFrame : Type 0 where
  pub kind : IsoTpKind
  pub total : Option ℕ  -- `length`
  pub seq : Option ℕ
  pub flow_status : Option ℕ
  pub data_start : ℕ

abbrev pub unknown_frame : IsoTpFrame
unknown_frame = record {
  kind = unknown;
  total = none;
  seq = none;
  flow_status = none;
  data_start = 0;
}

-- The `switch` over the frame type, the high nibble of byte 0; `low` is the low nibble.
unfoldable pub decode_pci : List ℕ → ℕ → ℕ → IsoTpFrame
decode_pci bytes type low =
    if type == 0x0
    then record unknown_frame { kind = single; total = some low; data_start = 1 }
    else if type == 0x1
    then record unknown_frame {
      kind = first;
      total = some (bit_or (low * 2 ^ 8) (get_or bytes 1 0));
      data_start = 2;
    }
    else if type == 0x2
    then record unknown_frame { kind = consecutive; seq = some low; data_start = 1 }
    else if type == 0x3
    then record unknown_frame {
      kind = flow_control;
      flow_status = some low;
      data_start = length bytes;
    }
    else unknown_frame

unfoldable pub decode_iso_tp : List ℕ → IsoTpFrame
decode_iso_tp [] = unknown_frame
decode_iso_tp (b ∷ bs) =
    let b0 = bit_and b 0xff in decode_pci (b ∷ bs) (b0 / 2 ^ 4) (bit_and b0 0x0f)
