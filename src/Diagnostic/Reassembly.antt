-- ===== src/Diagnostic/Reassembly.antt =====
-- `reassembleIsoTp` and `decodeDiagnosticReassembled` of frontend/shared/diagnostic.ts.
use Prim.Native.String.{String}
use discodb.Prelude.{
  ℕ, zero, suc, ◌+◌, ◌-◌, bit_and, Bool, true, false, not, List, [], ◌∷◌, ◌++◌, map, length, get_or,
  take, drop, Option, none, some, ltb, leb, ◌==◌, if◌then◌else◌,
}
use discodb.Diagnostic.IsoTp.{
  DiagAddressing, classify_diag_id, IsoTpKind, single, consecutive, IsoTpFrame, unknown_frame,
  decode_iso_tp,
}
use discodb.Diagnostic.Services.{Payload, decode_service_payload, to_hex, is_start}

-- `kind` of a reassembly
pub data TransferKind : Type 0 where
  one_frame many_frames : TransferKind

-- The texts of `note`, with the values that they show.
pub data Note : Type 0 where
  no_start : Note
  interrupted : IsoTpKind → Note
  out_of_order : (expected : ℕ) (seen : Option ℕ) → Note
  more_expected : Note

pub record IsoTpReassembly : Type 0 where
  pub kind : TransferKind
  pub total_length : ℕ
  pub bytes : List ℕ  -- `data`
  pub complete : Bool
  pub expected : ℕ
  pub note : Option Note

-- `pci.length ?? 0`
abbrev pub or_zero : Option ℕ → ℕ
or_zero none = 0
or_zero (some n) = n

abbrev pub mask_bytes : List ℕ → List ℕ
mask_bytes bs = map (λ b. bit_and b 0xff) bs

-- The downward loop that looks for the most recent transfer start among the frames below `i`.
unfoldable pub find_start : List (List ℕ) → ℕ → Option ℕ
find_start frames zero = none
find_start frames (suc i) =
    let rest = find_start frames i in
    if is_start (decode_iso_tp (get_or frames i [])).kind then some i else rest

abbrev pub is_consecutive : IsoTpKind → Bool
is_consecutive consecutive = true
is_consecutive _ = false

-- `pci.seq !== expectedSeq`, negated
abbrev pub same_seq : Option ℕ → ℕ → Bool
same_seq none n = false
same_seq (some m) n = m == n

-- The loop over the frames after a first frame: the bytes gathered, and the note if it broke off.
unfoldable pub gather : ℕ → List (List ℕ) → List ℕ → ℕ → List ℕ × Option Note
gather total [] bytes seq = (bytes, none)
gather total (f ∷ fs) bytes seq =
    let pci = decode_iso_tp f in
    let rest =
      gather total fs (bytes ++ mask_bytes (drop pci.data_start f)) (bit_and (seq + 1) 0x0f) in
    if not (ltb (length bytes) total)
    then (bytes, none)
    else if not (is_consecutive pci.kind)
    then (bytes, some (interrupted pci.kind))
    else if not (same_seq pci.seq seq)
    then (bytes, some (out_of_order seq pci.seq))
    else rest

-- `data.length = total` where it is longer
abbrev pub trim : ℕ → List ℕ → List ℕ
trim total bytes = if ltb total (length bytes) then take total bytes else bytes

abbrev incomplete_note : Option Note → Option Note
incomplete_note none = some more_expected
incomplete_note (some n) = some n

unfoldable pub finish : ℕ → List ℕ × Option Note → IsoTpReassembly
finish total (gathered, note) =
    let bytes = trim total gathered in
    let complete = leb total (length bytes) in
    record {
      kind = many_frames;
      total_length = total;
      bytes = bytes;
      complete = complete;
      expected = total - length bytes;
      note = if complete then none else incomplete_note note;
    }

unfoldable pub reassemble_single : List ℕ → IsoTpFrame → IsoTpReassembly
reassemble_single start pci =
    let len = or_zero pci.total in
    let bytes = mask_bytes (take len (drop pci.data_start start)) in
    record {
      kind = one_frame;
      total_length = len;
      bytes = bytes;
      complete = leb len (length bytes);
      expected = len - length bytes;
      note = none;
    }

-- From the transfer start on.
unfoldable pub reassemble_from : List ℕ → List (List ℕ) → IsoTpReassembly
reassemble_from start later =
    let pci = decode_iso_tp start in
    elim pci.kind [
      | single ↦ reassemble_single start pci
      | _ ↦
          let total = or_zero pci.total in
          finish total (gather total later (mask_bytes (drop pci.data_start start)) 1)
    ]

abbrev pub nothing_found : IsoTpReassembly
nothing_found = record {
  kind = many_frames;
  total_length = 0;
  bytes = [];
  complete = false;
  expected = 0;
  note = some no_start;
}

unfoldable pub reassemble_iso_tp : List (List ℕ) → IsoTpReassembly
reassemble_iso_tp frames = elim (find_start frames (length frames)) [
  | none ↦ nothing_found
  | some i ↦ reassemble_from (get_or frames i []) (drop (i + 1) frames)
]

pub record DiagDecodeReassembled : Type 0 where
  pub addressing : DiagAddressing
  pub isotp : IsoTpFrame
  pub payload : Payload
  pub service_data_hex : String
  pub reassembly : IsoTpReassembly

-- The header of the most recent transfer start, by the second downward loop.
unfoldable pub start_pci : List (List ℕ) → IsoTpFrame
start_pci frames = elim (find_start frames (length frames)) [
  | none ↦ unknown_frame
  | some i ↦ decode_iso_tp (get_or frames i [])
]

unfoldable pub decode_diagnostic_reassembled :
    ℕ → Bool → List (List ℕ) → Option DiagDecodeReassembled
decode_diagnostic_reassembled id is_extended frames = elim (classify_diag_id id is_extended) [
  | none ↦ none
  | some addressing ↦
      let reassembly = reassemble_iso_tp frames in
      some (record {
        addressing = addressing;
        isotp = start_pci frames;
        payload = decode_service_payload reassembly.bytes 0;
        service_data_hex = to_hex reassembly.bytes;
        reassembly = reassembly;
      })
]
