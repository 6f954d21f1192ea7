-- ===== src/Diagnostic/Transfer.antt =====
-- Reassembly of whole transfers, as a sender of ISO 15765-2 transmits them, by
-- frontend/shared/diagnostic.ts.
use discodb.Prelude.{
  ℕ, ◌+◌, ◌-◌, ◌/◌, ◌%◌, ◌≤◌, ◌<◌, ◌≡◌, refl, sym, ap, ◌∙◌, bit_and, true, List, [], ◌∷◌, ◌++◌,
  append-nil, append_assoc, length, length-append, take-append, All, All-append, none, ltb, leb,
  le→leb, le→not_ltb, arith, lt→ltb, subst, Bool-cases, inl, inr, tests,
}
use discodb.Prelude.Bits.{bit_and_mask}
use discodb.Diagnostic.Reassembly.{
  IsoTpReassembly, one_frame, many_frames, mask_bytes, gather, trim, finish, reassemble_single,
  reassemble_from, reassemble_iso_tp,
}
use discodb.Diagnostic.Headers.{decode_single, decode_first, decode_consecutive, mask_bytes_octets}
use discodb.Diagnostic.Sending.{
  Octets, Sends, sent, last, more, IsLater, Sends-IsLater, reassemble_from_start,
}

pub gather_enough :
    (total : ℕ) (fs : List (List ℕ)) (bytes : List ℕ) (seq : ℕ)
    → total ≤ length bytes
    → gather total fs bytes seq ≡ (bytes, none)
unfolding gather
gather_enough total [] bytes seq h = refl
gather_enough total (f ∷ fs) bytes seq h = rw (le→not_ltb (length bytes) total h)

-- A frame with the expected sequence number adds its bytes, while some are missing.
pub gather_next :
    (total : ℕ) (c : List ℕ) (fs : List (List ℕ)) (bytes : List ℕ) (seq : ℕ)
    → length bytes < total
    → seq < 16
    → gather total (((0x20 + seq) ∷ c) ∷ fs) bytes seq
      ≡ gather total fs (bytes ++ mask_bytes c) ((seq + 1) % 16)
unfolding gather
gather_next total c fs bytes seq h s =
    rw (decode_consecutive seq c s, lt→ltb (length bytes) total h, bit_and_mask 4 (seq + 1))
      (ground arith)

mask_bytes-append : (xs ys : List ℕ) → mask_bytes (xs ++ ys) ≡ mask_bytes xs ++ mask_bytes ys
mask_bytes-append [] ys = refl
mask_bytes-append (x ∷ xs) ys = ap (λ t. bit_and x 0xff ∷ t) (mask_bytes-append xs ys)

pub All-append_inv : (P : ℕ → Type 0) (xs ys : List ℕ) → All P (xs ++ ys) → All P xs × All P ys
All-append_inv P [] ys a = (tt, a)
All-append_inv P (x ∷ xs) ys (p, a) = let (b, c) = All-append_inv P xs ys a in ((p, b), c)

length_zero : (xs : List ℕ) → length xs ≡ 0 → xs ≡ []
length_zero [] h = refl
length_zero (x ∷ xs) h = absurd (omega arith)

-- The gathered bytes are the message and some of the padding.
abbrev Gathered : ℕ → List (List ℕ) → List ℕ → ℕ → List ℕ → Type 0
Gathered total fs bytes seq m =
    (extra : List ℕ) × (gather total fs bytes seq ≡ (bytes ++ (m ++ extra), none))

gather-Sends :
    {seq : ℕ} {m : List ℕ} {fs : List (List ℕ)} (total : ℕ) (later : List (List ℕ)) (bytes : List ℕ)
    → Sends seq m fs
    → seq < 16
    → Octets m
    → length bytes + length m ≡ total
    → Gathered total (fs ++ later) bytes seq m
gather-Sends {seq} total later bytes sent s a h = (
  [],
  gather_enough total later bytes seq (omega arith) ∙ ap (λ l. (l, none)) (sym (append-nil bytes)),
)
gather-Sends {seq} total later bytes (last c pad l) s a h =
    elim (Bool-cases (ltb (length bytes) total)) [
      | inl wanting ↦
          let payload : mask_bytes (c ++ pad) ≡ c ++ mask_bytes pad =
            mask_bytes-append c pad ∙ ap (λ t. t ++ mask_bytes pad) (mask_bytes_octets c a) in
          (
            mask_bytes pad,
            gather_next total (c ++ pad) later bytes seq (omega tests) s
                ∙ ap (λ t. gather total later (bytes ++ t) ((seq + 1) % 16)) payload
                ∙ gather_enough total later (bytes ++ (c ++ mask_bytes pad)) ((seq + 1) % 16) (
                    omega (
                      arith,
                      length-append bytes (c ++ mask_bytes pad),
                      length-append c (mask_bytes pad),
                    )),
          )
      | inr full ↦
          let empty : c ≡ [] = length_zero c (omega tests) in
          (
            [],
            gather_enough total _ bytes seq (omega tests)
                ∙ ap (λ l. (l, none))
                    (sym (append-nil bytes) ∙ ap (λ t. bytes ++ (t ++ [])) (sym empty)),
          )
    ]
gather-Sends {seq} total later bytes (more {m = m} c rest {fs} l e st) s a h =
    let parts = All-append_inv (λ x. x < 256) c rest (subst Octets e a) in
    let payload : mask_bytes c ≡ c = mask_bytes_octets c parts.0 in
    let (extra, ih) =
      gather-Sends total later (bytes ++ c) st (omega arith) parts.1
        (omega (arith, ap length e, length-append c rest, length-append bytes c)) in
    (
      extra,
      gather_next total c (fs ++ later) bytes seq (omega (arith, ap length e, length-append c rest))
            s
          ∙ ap (λ t. gather total (fs ++ later) (bytes ++ t) ((seq + 1) % 16)) payload
          ∙ ih
          ∙ ap (λ l. (l, none))
              (append_assoc bytes c (rest ++ extra)
                ∙ ap (λ t. bytes ++ t)
                    (sym (append_assoc c rest extra) ∙ ap (λ t. t ++ extra) (sym e))),
    )

trim-append : (m extra : List ℕ) → trim (length m) (m ++ extra) ≡ m
trim-append m [] = rw (append-nil m, le→not_ltb (length m) (length m) (omega arith))
trim-append m (x ∷ extra) =
    rw (lt→ltb (length m) (length (m ++ x ∷ extra)) (omega (arith, length-append m (x ∷ extra))))
      (take-append (length m) m (x ∷ extra) refl)

abbrev pub received : List ℕ → IsoTpReassembly
received m = record {
  kind = many_frames;
  total_length = length m;
  bytes = m;
  complete = true;
  expected = 0;
  note = none;
}

finish_complete : (m extra : List ℕ) → finish (length m) (m ++ extra, none) ≡ received m
unfolding finish
finish_complete m extra =
    let whole : leb (length m) (length m) ≡ true = le→leb (length m) (length m) (omega arith) in
    let zero_left : length m - length m ≡ 0 = omega arith in
    rw (trim-append m extra, whole, zero_left)

-- A message of at most 4095 bytes whose first 6 go in a first frame and the rest in consecutive
-- frames as ISO 15765-2 sends them (7 bytes each, sequence numbers from 1 modulo 16, any padding in
-- the last) is reassembled to exactly that message, complete and with no note, whatever frames came
-- before, and whatever frames follow at which no transfer starts.
pub reassemble_transfer :
    (old : List (List ℕ)) (m head rest : List ℕ) {fs : List (List ℕ)} (later : List (List ℕ))
    → m ≡ head ++ rest
    → length head ≡ 6
    → length m < 4096
    → Octets m
    → Sends 1 rest fs
    → All IsLater later
    → reassemble_iso_tp (old ++ ((0x10 + length m / 256) ∷ (length m % 256) ∷ head) ∷ (fs ++ later))
      ≡ received m
unfolding reassemble_from
reassemble_transfer old m head rest {fs} later e six small a sends quiet =
    let start = (0x10 + length m / 256) ∷ (length m % 256) ∷ head in
    let pci = decode_first (length m) head small in
    let parts = All-append_inv (λ x. x < 256) head rest (subst Octets e a) in
    let (extra, gathered) =
      gather-Sends (length m) later head sends (omega arith) parts.1
        (omega (arith, ap length e, length-append head rest)) in
    let message : head ++ (rest ++ extra) ≡ m ++ extra =
      sym (append_assoc head rest extra) ∙ ap (λ t. t ++ extra) (sym e) in
    reassemble_from_start old start (fs ++ later) (rw pci)
      (All-append IsLater fs later (Sends-IsLater sends (omega arith)) quiet)
    ∙ rw (pci, reassemble_from)
        (rw (pci, mask_bytes_octets head parts.0, gathered, message) (finish_complete m extra))

-- A message in a single frame, with any padding behind it, is reassembled to exactly that message.
pub reassemble_single_frame :
    (old : List (List ℕ)) (m pad : List ℕ) (later : List (List ℕ))
    → length m < 16
    → Octets m
    → All IsLater later
    → reassemble_iso_tp (old ++ (length m ∷ (m ++ pad)) ∷ later)
      ≡ record (received m) { kind = one_frame }
unfolding reassemble_from reassemble_single
reassemble_single_frame old m pad later small a quiet =
    let pci = decode_single (length m) (m ++ pad) small in
    let whole : leb (length m) (length m) ≡ true = le→leb (length m) (length m) (omega arith) in
    let zero_left : length m - length m ≡ 0 = omega arith in
    reassemble_from_start old (length m ∷ (m ++ pad)) later (rw pci) quiet
    ∙ rw (pci, reassemble_from)
        (rw (pci, take-append (length m) m pad refl, mask_bytes_octets m a, whole, zero_left))
