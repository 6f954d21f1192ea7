-- ===== src/Diagnostic/Services.antt =====
-- The service payload and the per-frame decode of frontend/shared/diagnostic.ts.
use Prim.Native.String
use Prim.Native.String.{String}
use discodb.Prelude.{
  ℕ, ◌+◌, ◌-◌, ◌*◌, ◌/◌, ◌%◌, ◌^◌, bit_and, bit_or, Bool, true, false, ◌&&◌, ◌||◌, List, [], ◌∷◌,
  map, length, get_or, drop, Option, none, some, ltb, leb, ◌==◌, if◌then◌else◌,
}
use discodb.Diagnostic.IsoTp.{
  DiagAddressing, classify_diag_id, IsoTpKind, single, first, IsoTpFrame, decode_iso_tp,
}

-- A dictionary with numbers for keys: `D[k]`, undefined where the key is missing.
unfoldable pub name_of : List (ℕ × String) → ℕ → Option String
name_of [] k = none
name_of ((j, s) ∷ d) k = if j == k then some s else name_of d k

abbrev pub services : List (ℕ × String)
services =
    (0x01, "OBD current data")
    ∷ (0x02, "OBD freeze frame")
    ∷ (0x03, "OBD stored DTCs")
    ∷ (0x04, "OBD clear DTCs")
    ∷ (0x07, "OBD pending DTCs")
    ∷ (0x09, "OBD vehicle info")
    ∷ (0x10, "DiagnosticSessionControl")
    ∷ (0x11, "ECUReset")
    ∷ (0x14, "ClearDiagnosticInformation")
    ∷ (0x19, "ReadDTCInformation")
    ∷ (0x22, "ReadDataByIdentifier")
    ∷ (0x23, "ReadMemoryByAddress")
    ∷ (0x27, "SecurityAccess")
    ∷ (0x28, "CommunicationControl")
    ∷ (0x2e, "WriteDataByIdentifier")
    ∷ (0x2f, "InputOutputControl")
    ∷ (0x31, "RoutineControl")
    ∷ (0x34, "RequestDownload")
    ∷ (0x36, "TransferData")
    ∷ (0x3e, "TesterPresent")
    ∷ []

abbrev pub obd_pids : List (ℕ × String)
obd_pids =
    (0x04, "Engine load")
    ∷ (0x05, "Coolant temp")
    ∷ (0x0a, "Fuel pressure")
    ∷ (0x0b, "Intake MAP")
    ∷ (0x0c, "Engine RPM")
    ∷ (0x0d, "Vehicle speed")
    ∷ (0x0e, "Timing advance")
    ∷ (0x0f, "Intake air temp")
    ∷ (0x10, "MAF rate")
    ∷ (0x11, "Throttle position")
    ∷ (0x1f, "Run time since start")
    ∷ (0x21, "Distance with MIL on")
    ∷ (0x2f, "Fuel level")
    ∷ (0x31, "Distance since DTC clear")
    ∷ (0x42, "Control module voltage")
    ∷ (0x5e, "Fuel rate")
    ∷ []

-- `NRC`
abbrev pub negative_codes : List (ℕ × String)
negative_codes =
    (0x10, "generalReject")
    ∷ (0x11, "serviceNotSupported")
    ∷ (0x12, "subFunctionNotSupported")
    ∷ (0x13, "incorrectMessageLengthOrInvalidFormat")
    ∷ (0x22, "conditionsNotCorrect")
    ∷ (0x31, "requestOutOfRange")
    ∷ (0x33, "securityAccessDenied")
    ∷ (0x35, "invalidKey")
    ∷ (0x78, "responsePending")
    ∷ (0x7e, "subFunctionNotSupportedInActiveSession")
    ∷ (0x7f, "serviceNotSupportedInActiveSession")
    ∷ []

pub record DiagService : Type 0 where
  pub raw : ℕ
  pub req_sid : ℕ
  pub name : Option String
  pub is_response : Bool

pub record DiagNegative : Type 0 where
  pub rejected_sid : ℕ
  pub rejected_name : Option String
  pub nrc : ℕ
  pub nrc_name : Option String

pub data IdentifierKind : Type 0 where
  pid did info_type : IdentifierKind

pub record DiagIdentifier : Type 0 where
  pub kind : IdentifierKind
  pub value : ℕ
  pub name : Option String

-- The three fields that `decodeServicePayload` writes onto its `out`, which both callers pass with
-- none of them set.
pub record Payload : Type 0 where
  pub service : Option DiagService
  pub negative : Option DiagNegative
  pub identifier : Option DiagIdentifier

abbrev pub no_payload : Payload
no_payload = record { service = none; negative = none; identifier = none }

-- The identifier that follows the service byte at `si`, by service family.
unfoldable pub identifier_after : List ℕ → ℕ → ℕ → Option DiagIdentifier
identifier_after bytes si req_sid =
    if req_sid == 0x01 || req_sid == 0x02
    then (if ltb (si + 1) (length bytes)
        then (let value = bit_and (get_or bytes (si + 1) 0) 0xff in
            some (record { kind = pid; value = value; name = name_of obd_pids value }))
        else none)
    else if req_sid == 0x09
    then (if ltb (si + 1) (length bytes)
        then some (record {
          kind = info_type;
          value = bit_and (get_or bytes (si + 1) 0) 0xff;
          name = none;
        })
        else none)
    else if req_sid == 0x22 || req_sid == 0x2e
    then (if ltb (si + 2) (length bytes)
        then some (record {
          kind = did;
          value =
              bit_or (bit_and (get_or bytes (si + 1) 0) 0xff * 2 ^ 8)
                (bit_and (get_or bytes (si + 2) 0) 0xff);
          name = none;
        })
        else none)
    else none

-- The branch of a service byte that is no negative response.
unfoldable pub decode_service : List ℕ → ℕ → ℕ → Payload
decode_service bytes si sb =
    let is_response = leb 0x40 sb && ltb sb 0x7f in
    let req_sid = if is_response then sb - 0x40 else sb in
    record {
      service = some (record {
        raw = sb;
        req_sid = req_sid;
        name = name_of services req_sid;
        is_response = is_response;
      });
      negative = none;
      identifier = identifier_after bytes si req_sid;
    }

unfoldable pub decode_negative : List ℕ → ℕ → Payload
decode_negative bytes si =
    let rejected_sid = get_or bytes (si + 1) 0 in
    let nrc = get_or bytes (si + 2) 0 in
    record no_payload {
      negative = some (record {
        rejected_sid = rejected_sid;
        rejected_name = name_of services rejected_sid;
        nrc = nrc;
        nrc_name = name_of negative_codes nrc;
      });
    }

unfoldable pub decode_service_payload : List ℕ → ℕ → Payload
decode_service_payload bytes si =
    if leb (length bytes) si
    then no_payload
    else (let sb = bit_and (get_or bytes si 0) 0xff in
        if sb == 0x7f then decode_negative bytes si else decode_service bytes si sb)

-- `toHex`: two upper-case digits a byte, joined by spaces.
abbrev hex_digits : List String
hex_digits =
    "0" ∷ "1" ∷ "2" ∷ "3" ∷ "4" ∷ "5" ∷ "6" ∷ "7" ∷ "8" ∷ "9" ∷ "A" ∷ "B" ∷ "C" ∷ "D" ∷ "E" ∷ "F"
    ∷ []

abbrev hex_byte : ℕ → String
hex_byte b =
    let n = bit_and b 0xff in
    String.◌++◌ (get_or hex_digits (n / 16) "") (get_or hex_digits (n % 16) "")

abbrev join : List String → String
join [] = ""
join (s ∷ []) = s
join (s ∷ t ∷ ts) = String.◌++◌ s (String.◌++◌ " " (join (t ∷ ts)))

unfoldable pub to_hex : List ℕ → String
to_hex bytes = join (map hex_byte bytes)

pub record DiagDecode : Type 0 where
  pub addressing : DiagAddressing
  pub isotp : IsoTpFrame
  pub payload : Payload
  pub service_data_hex : String

-- Only single and first frames carry a service byte at a known offset.
abbrev pub is_start : IsoTpKind → Bool
is_start single = true
is_start first = true
is_start _ = false

unfoldable pub decode_diagnostic : ℕ → Bool → List ℕ → Option DiagDecode
decode_diagnostic id is_extended bytes = elim (classify_diag_id id is_extended) [
  | none ↦ none
  | some addressing ↦
      let isotp = decode_iso_tp bytes in
      some (record {
        addressing = addressing;
        isotp = isotp;
        payload =
            if is_start isotp.kind
            then decode_service_payload bytes isotp.data_start
            else no_payload;
        service_data_hex = to_hex (drop isotp.data_start bytes);
      })
]
