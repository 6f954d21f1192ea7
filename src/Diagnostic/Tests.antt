-- ===== src/Diagnostic/Tests.antt =====
-- Frames at concrete bytes, and instances of the theorems on the diagnostic layer.
use discodb.Prelude.{ℕ, ◌≡◌, refl, false, List, [], ◌∷◌, ◌++◌, none, some, arith}
use discodb.Diagnostic.IsoTp.{response, DiagAddressing, classify_diag_id, decode_pci, decode_iso_tp}
use discodb.Diagnostic.Services.{services, obd_pids, name_of, pid, to_hex, decode_diagnostic}
use discodb.Diagnostic.Reassembly.{
  many_frames, out_of_order, find_start, gather, finish, reassemble_single, reassemble_from,
  reassemble_iso_tp, decode_diagnostic_reassembled,
}
use discodb.Diagnostic.Sending.{Sends, last, more}
use discodb.Diagnostic.Transfer.{received, reassemble_transfer}
use discodb.Diagnostic.Loss.{IsSound, reassemble_iso_tp-IsSound, none_yet, chunk, reassemble_lost}
use discodb.Diagnostic.Decoding.{of_frame, of_transfer, identifier_of, padding_read_as_pid}

reassembling : Unit {0}
unfolding reassemble_iso_tp find_start reassemble_from reassemble_single gather finish decode_iso_tp
    decode_pci
reassembling = tt

-- A vehicle identification answer of 16 bytes, in a first frame and two consecutive ones.
abbrev first_six : List ℕ
first_six = 0x49 ∷ 0x02 ∷ 0x01 ∷ 0x57 ∷ 0x56 ∷ 0x57 ∷ []

abbrev next_seven : List ℕ
next_seven = 0x5a ∷ 0x5a ∷ 0x5a ∷ 0x37 ∷ 0x4e ∷ 0x5a ∷ 0x42 ∷ []

abbrev last_three : List ℕ
last_three = 0x31 ∷ 0x32 ∷ 0x33 ∷ []

abbrev answer : List ℕ
answer = first_six ++ (next_seven ++ last_three)

abbrev stale : List (List ℕ)
stale = (0x02 ∷ 0x01 ∷ 0x0c ∷ []) ∷ (0x22 ∷ 7 ∷ []) ∷ []

abbrev padding : List ℕ
padding = 0xaa ∷ 0xaa ∷ 0xaa ∷ 0xaa ∷ []

answer_sent :
    Sends 1 (next_seven ++ last_three) ((0x21 ∷ next_seven) ∷ (0x22 ∷ (last_three ++ padding)) ∷ [])
answer_sent = more next_seven last_three refl refl (last last_three padding (omega arith))

transfer_runs :
    reassemble_iso_tp (
      stale
      ++ (0x10 ∷ 0x10 ∷ first_six) ∷ (0x21 ∷ next_seven) ∷ (0x22 ∷ (last_three ++ padding)) ∷ [])
    ≡ received answer
unfolding reassembling
transfer_runs = refl

lost_runs :
    reassemble_iso_tp (stale ++ (0x10 ∷ 0x10 ∷ first_six) ∷ (0x22 ∷ (last_three ++ padding)) ∷ [])
    ≡ record {
      kind = many_frames;
      total_length = 16;
      bytes = first_six;
      complete = false;
      expected = 10;
      note = some (out_of_order 1 (some 2));
    }
unfolding reassembling
lost_runs = refl

reassemble_transfer_example :
    reassemble_iso_tp (
      stale
      ++ (0x10 ∷ 0x10 ∷ first_six)
        ∷ (((0x21 ∷ next_seven) ∷ (0x22 ∷ (last_three ++ padding)) ∷ []) ++ []))
    ≡ received answer
reassemble_transfer_example =
    reassemble_transfer stale answer first_six (next_seven ++ last_three) [] refl refl (omega arith)
      (omega arith) answer_sent tt

reassemble_lost_example :
    reassemble_iso_tp (
      stale ++ (0x10 ∷ 0x10 ∷ first_six) ∷ (((0x21 ∷ next_seven) ∷ []) ++ (0x25 ∷ last_three) ∷ []))
    ≡ record {
      kind = many_frames;
      total_length = 16;
      bytes = first_six ++ next_seven;
      complete = false;
      expected = 3;
      note = some (out_of_order 2 (some 5));
    }
reassemble_lost_example =
    reassemble_lost stale 16 2 5 first_six next_seven last_three [] refl (omega arith) (omega arith)
      (omega arith) (omega arith) (chunk next_seven [] refl refl (none_yet refl)) (omega arith)
      (omega arith) tt

reassemble_iso_tp-IsSound_example : IsSound (reassemble_iso_tp stale)
reassemble_iso_tp-IsSound_example = reassemble_iso_tp-IsSound stale

abbrev ecu_0 : DiagAddressing
ecu_0 = record { role = response; ecu = some 0 }

response_0 : classify_diag_id 0x7e8 false ≡ some ecu_0
unfolding classify_diag_id
response_0 = refl

padding_read_as_pid_example :
    (identifier_of (of_frame (decode_diagnostic 0x7e8 false (1 ∷ 1 ∷ 0x0c ∷ [])))
      ≡ some (record { kind = pid; value = 0x0c; name = name_of obd_pids 0x0c }))
    × (identifier_of
          (of_transfer (decode_diagnostic_reassembled 0x7e8 false ((1 ∷ 1 ∷ 0x0c ∷ []) ∷ [])))
        ≡ none)
padding_read_as_pid_example = padding_read_as_pid 0x7e8 false ecu_0 0x0c [] response_0 (omega arith)

names :
    (name_of services 0x22 ≡ some "ReadDataByIdentifier") × (to_hex (0x0a ∷ 0xff ∷ []) ≡ "0A FF")
unfolding name_of to_hex
names = (refl, refl)
