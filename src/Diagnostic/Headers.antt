-- ===== src/Diagnostic/Headers.antt =====
-- The ISO-TP headers that frontend/shared/diagnostic.ts reads off the first bytes of a frame.
use discodb.Prelude.{
  ◌≢◌, ℕ, ◌+◌, ◌*◌, ◌/◌, ◌%◌, ◌^◌, ◌≤◌, ◌<◌, ◌≡◌, refl, ap₂, ◌∙◌, true, false, List, [], ◌∷◌, All,
  none, some, ◌↔◌, arith,
}
use discodb.Prelude.Bits.{bit_and_mask, bit_or_fields}
use discodb.Diagnostic.IsoTp.{
  request_physical, response, classify_diag_id, single, first, consecutive, unknown_frame,
  decode_pci, decode_iso_tp,
}
use discodb.Diagnostic.Reassembly.{mask_bytes}

decode_nibbles :
    (b : ℕ) (bs : List ℕ) → b < 256 → decode_iso_tp (b ∷ bs) ≡ decode_pci (b ∷ bs) (b / 16) (b % 16)
unfolding decode_iso_tp
decode_nibbles b bs h =
    let e : b % 2 ^ 8 ≡ b = omega arith in rw (bit_and_mask 8 b, e, bit_and_mask 4 b)

-- A single frame of `n` bytes.
pub decode_single :
    (n : ℕ) (bs : List ℕ)
    → n < 16
    → decode_iso_tp (n ∷ bs)
      ≡ record unknown_frame { kind = single; total = some n; data_start = 1 }
unfolding decode_pci
decode_single n bs h =
    let q : n / 16 ≡ 0 = omega arith in
    let r : n % 16 ≡ n = omega arith in rw (decode_nibbles n bs (omega arith), q, r)

-- A first frame of a message of `n` bytes, 12 bits.
pub decode_first :
    (n : ℕ) (bs : List ℕ)
    → n < 4096
    → decode_iso_tp ((0x10 + n / 256) ∷ (n % 256) ∷ bs)
      ≡ record unknown_frame { kind = first; total = some n; data_start = 2 }
unfolding decode_pci
decode_first n bs h =
    let q : (0x10 + n / 256) / 16 ≡ 1 = omega arith in
    let r : (0x10 + n / 256) % 16 ≡ n / 256 = omega arith in
    let whole : n / 256 * 2 ^ 8 + n % 256 ≡ n = omega arith in
    rw (
      decode_nibbles (0x10 + n / 256) (n % 256 ∷ bs) (omega arith),
      q,
      r,
      bit_or_fields 8 (n / 256) (n % 256) (omega arith),
      whole,
    )

-- A consecutive frame with sequence number `s`.
pub decode_consecutive :
    (s : ℕ) (bs : List ℕ)
    → s < 16
    → decode_iso_tp ((0x20 + s) ∷ bs)
      ≡ record unknown_frame { kind = consecutive; seq = some s; data_start = 1 }
unfolding decode_pci
decode_consecutive s bs h =
    let q : (0x20 + s) / 16 ≡ 2 = omega arith in
    let r : (0x20 + s) % 16 ≡ s = omega arith in
    rw (decode_nibbles (0x20 + s) bs (omega arith), q, r)

pub mask_bytes_octets : (bs : List ℕ) → All (λ x. x < 256) bs → mask_bytes bs ≡ bs
mask_bytes_octets [] a = refl
mask_bytes_octets (b ∷ bs) (h, a) =
    ap₂ (λ x xs. x ∷ xs) (bit_and_mask 8 b ∙ omega arith) (mask_bytes_octets bs a)

-- An identifier is the physical request to an ECU exactly when the identifier 8 above it is the
-- response of that ECU; and only standard identifiers from 0x7df to 0x7ef are diagnostic.
pub classify_diag_id_pairs :
    (id ecu : ℕ)
    → ((classify_diag_id id false ≡ some (record { role = request_physical; ecu = some ecu }))
        ↔ (classify_diag_id (id + 8) false ≡ some (record { role = response; ecu = some ecu })))
      × ((classify_diag_id id false ≢ none) ↔ ((0x7df ≤ id) × (id ≤ 0x7ef)))
      × (classify_diag_id id true ≡ none)
unfolding classify_diag_id
classify_diag_id_pairs id ecu = ground arith
