-- ===== src/Diagnostic/Decoding.antt =====
-- The service payload, per frame and reassembled, of frontend/shared/diagnostic.ts.
use Prim.Native.String.{String}
use discodb.Prelude.{
  ℕ, suc, ◌+◌, ◌-◌, ◌<◌, ◌≡◌, refl, ap, ◌∙◌, bit_and, Bool, true, false, List, [], ◌∷◌, ◌++◌,
  length, All, Option, none, some, leb, ltb, ◌==◌, arith, Option-cases, inl, inr,
}
use discodb.Prelude.Bits.{bit_and_mask}
use discodb.Diagnostic.IsoTp.{DiagAddressing, classify_diag_id, IsoTpFrame, decode_iso_tp}
use discodb.Diagnostic.Services.{
  services, obd_pids, name_of, pid, DiagIdentifier, Payload, identifier_after, decode_negative,
  decode_service, decode_service_payload, is_start, DiagDecode, decode_diagnostic,
}
use discodb.Diagnostic.Reassembly.{start_pci, DiagDecodeReassembled, decode_diagnostic_reassembled}
use discodb.Diagnostic.Headers.{decode_single}
use discodb.Diagnostic.Sending.{Octets, IsLater, most_recent_start}
use discodb.Diagnostic.Transfer.{reassemble_single_frame}

sid_byte : (sid : ℕ) → sid < 256 → bit_and sid 0xff ≡ sid
sid_byte sid h = bit_and_mask 8 sid ∙ omega arith

-- A payload that is no negative response.
payload_service :
    (sb : ℕ) (rest : List ℕ)
    → sb < 256
    → (sb == 0x7f) ≡ false
    → decode_service_payload (sb ∷ rest) 0 ≡ decode_service (sb ∷ rest) 0 sb
unfolding decode_service_payload
payload_service sb rest h e =
    let some_byte : leb (suc (length rest)) 0 ≡ false = ground arith in
    rw (some_byte, sid_byte sb h, e)

-- The identifier does not depend on the service byte itself.
identifier_tail :
    (x y : ℕ) (rest : List ℕ) (sid : ℕ)
    → identifier_after (x ∷ rest) 0 sid ≡ identifier_after (y ∷ rest) 0 sid
unfolding identifier_after
identifier_tail x y rest sid = refl

-- A positive response carries the service and the identifier of its request: for a service below
-- 0x3f, the payload that begins with the service plus 0x40 decodes to that service as a response,
-- and to the identifier that the request with the same further bytes decodes to.
pub response_of_request :
    (sid : ℕ) (rest : List ℕ)
    → sid < 0x3f
    → let q = decode_service_payload (sid ∷ rest) 0 in
      let r = decode_service_payload ((sid + 0x40) ∷ rest) 0 in
      (q.service
        ≡ some
            (record { raw = sid; req_sid = sid; name = name_of services sid; is_response = false }))
      × (r.service
          ≡ some (record {
            raw = sid + 0x40;
            req_sid = sid;
            name = name_of services sid;
            is_response = true;
          }))
      × (r.identifier ≡ q.identifier)
      × (q.negative ≡ none)
      × (r.negative ≡ none)
unfolding decode_service
response_of_request sid rest h =
    let request : leb 0x40 sid ≡ false = ground arith in
    let low : leb 0x40 (sid + 0x40) ≡ true = ground arith in
    let high : ltb (sid + 0x40) 0x7f ≡ true = ground arith in
    let same : sid + 0x40 - 0x40 ≡ sid = omega arith in
    let q = payload_service sid rest (omega arith) (ground arith) in
    let r = payload_service (sid + 0x40) rest (omega arith) (ground arith) in
    (
      rw (q, request),
      rw (r, low, high, same),
      rw (q, r, request, low, high, same) (identifier_tail (sid + 0x40) sid rest sid),
      rw q,
      rw r,
    )

identifier_shift :
    (b : ℕ) (bs : List ℕ) (sid : ℕ) → identifier_after (b ∷ bs) 1 sid ≡ identifier_after bs 0 sid
unfolding identifier_after
identifier_shift b [] sid = ground arith
identifier_shift b (x ∷ []) sid = ground arith
identifier_shift b (x ∷ y ∷ []) sid = ground arith
identifier_shift b (x ∷ y ∷ z ∷ bs) sid = ground arith

service_shift :
    (b : ℕ) (bs : List ℕ) (sb : ℕ) → decode_service (b ∷ bs) 1 sb ≡ decode_service bs 0 sb
unfolding decode_service
service_shift b bs sb = rw (identifier_shift b bs)

-- Decoding from the byte after a header is decoding what follows it.
payload_shift :
    (b : ℕ) (bs : List ℕ) → decode_service_payload (b ∷ bs) 1 ≡ decode_service_payload bs 0
unfolding decode_service_payload decode_negative
payload_shift b [] = refl
payload_shift b (x ∷ bs) =
    let some_byte : leb (suc (length bs)) 0 ≡ false = ground arith in
    let some_bytes : leb (suc (suc (length bs))) 1 ≡ false = ground arith in
    rw (some_byte, some_bytes, service_shift b (x ∷ bs))

-- What both decoders report.
pub record Report : Type 0 where
  pub addressing : DiagAddressing
  pub isotp : IsoTpFrame
  pub payload : Payload
  pub service_data_hex : String

abbrev pub of_frame : Option DiagDecode → Option Report
of_frame none = none
of_frame (some d) = some (record {
  addressing = d.addressing;
  isotp = d.isotp;
  payload = d.payload;
  service_data_hex = d.service_data_hex;
})

abbrev pub of_transfer : Option DiagDecodeReassembled → Option Report
of_transfer none = none
of_transfer (some d) = some (record {
  addressing = d.addressing;
  isotp = d.isotp;
  payload = d.payload;
  service_data_hex = d.service_data_hex;
})

start_pci_found :
    (old : List (List ℕ)) (start : List ℕ) (later : List (List ℕ))
    → is_start (decode_iso_tp start).kind ≡ true
    → All IsLater later
    → start_pci (old ++ start ∷ later) ≡ decode_iso_tp start
unfolding start_pci
start_pci_found old start later s a =
    let (found, head, _) = most_recent_start old start later s a in rw (found, start_pci) (rw head)

abbrev pub identifier_of : Option Report → Option DiagIdentifier
identifier_of none = none
identifier_of (some r) = r.payload.identifier

module _ (old : List (List ℕ)) (m pad : List ℕ) (later : List (List ℕ)) where
  abbrev history : List (List ℕ)
  history = old ++ (length m ∷ (m ++ pad)) ∷ later

  -- The decode of a history whose last transfer is a single frame reports what the per-frame decode
  -- reports of that frame without the padding behind its declared bytes; so the two agree on a
  -- single frame that has none.
  pub reassembled_single :
      (id : ℕ) (ext : Bool)
      → length m < 16
      → Octets m
      → All IsLater later
      → of_transfer (decode_diagnostic_reassembled id ext history)
        ≡ of_frame (decode_diagnostic id ext (length m ∷ m))
  unfolding decode_diagnostic_reassembled decode_diagnostic
  reassembled_single id ext small a quiet = elim (Option-cases (classify_diag_id id ext)) [
    | inl other ↦ rw (other, decode_diagnostic_reassembled, decode_diagnostic)
    | inr (addressing, e) ↦
        let transfer = reassemble_single_frame old m pad later small a quiet in
        let head =
          start_pci_found old (length m ∷ (m ++ pad)) later
            (rw (decode_single (length m) (m ++ pad) small)) quiet in
        rw (e, decode_diagnostic_reassembled, decode_diagnostic)
          (rw (
            transfer,
            head,
            decode_single (length m) (m ++ pad) small,
            decode_single (length m) m small,
            payload_shift (length m) m,
          ))
  ]

pid_of_padding :
    (p : ℕ) (pad : List ℕ)
    → p < 256
    → (decode_service_payload (1 ∷ 1 ∷ p ∷ pad) 1).identifier
      ≡ some (record { kind = pid; value = p; name = name_of obd_pids p })
unfolding decode_service identifier_after
pid_of_padding p pad h =
    let inside : ltb 1 (suc (suc (length pad))) ≡ true = ground arith in
    rw (
      payload_shift 1 (1 ∷ p ∷ pad),
      payload_service 1 (p ∷ pad) (omega arith) refl,
      inside,
      sid_byte p h,
    )

no_pid : (decode_service_payload (1 ∷ 1 ∷ []) 1).identifier ≡ none
unfolding decode_service_payload decode_service identifier_after
no_pid = refl

-- On a padded single frame the per-frame decode reads past the declared length: of a one-byte
-- request for current data it reports the first padding byte as the PID, where the reassembled
-- decode reports no identifier.
pub padding_read_as_pid :
    (id : ℕ) (ext : Bool) (a : DiagAddressing) (p : ℕ) (pad : List ℕ)
    → classify_diag_id id ext ≡ some a
    → p < 256
    → let frame = 1 ∷ 1 ∷ p ∷ pad in
      (identifier_of (of_frame (decode_diagnostic id ext frame))
        ≡ some (record { kind = pid; value = p; name = name_of obd_pids p }))
      × (identifier_of (of_transfer (decode_diagnostic_reassembled id ext (frame ∷ []))) ≡ none)
unfolding decode_diagnostic
padding_read_as_pid id ext a p pad e h = (
  rw (e, decode_diagnostic)
      (rw (decode_single 1 (1 ∷ p ∷ pad) (omega arith)) (pid_of_padding p pad h)),
  ap identifier_of
        (reassembled_single [] (1 ∷ []) (p ∷ pad) [] id ext (omega arith) (omega arith) tt)
      ∙ rw (e, decode_diagnostic) (rw (decode_single 1 (1 ∷ []) (omega arith)) no_pid),
)
