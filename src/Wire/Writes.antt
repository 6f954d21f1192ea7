-- ===== src/Wire/Writes.antt =====
-- What the writes of `encodeBatch` leave in the buffer.
use discodb.Prelude.{
  ℕ, zero, suc, ◌+◌, ◌-◌, ◌*◌, ◌%◌, ◌^◌, ◌≤◌, ◌≡◌, refl, sym, ap, ◌∙◌, bit_and, false, List, [],
  ◌∷◌, ◌++◌, append_assoc, length, length-append, get_or, set, set-append_right, replicate,
  length-replicate, All, replicate-add, ok, le→leb, if◌then◌else◌, arith,
}
use discodb.Wire.View.{set_uint8, set_uint16, set_uint32, set_big_uint64}
use discodb.Wire.Encode.{
  OutRecord, OutBatch, batch_header_bytes, rtr_flag, can_id_word, has_stray_bits, copy_payload,
  encode_record, encode_records, encode_header,
}

-- Writes past a prefix leave it alone.
module _ (pre v : List ℕ) where
  set_uint8-append : (k x : ℕ) → set_uint8 (pre ++ v) (length pre + k) x ≡ pre ++ set_uint8 v k x
  unfolding set_uint8
  set_uint8-append k x = set-append_right pre v k (x % 2 ^ 8)

module _ (pre v : List ℕ) where
  set_uint16-append : (k x : ℕ) → set_uint16 (pre ++ v) (length pre + k) x ≡ pre ++ set_uint16 v k x
  unfolding set_uint16
  set_uint16-append k x =
      let e : length pre + k + 1 ≡ length pre + (k + 1) = omega arith in
      rw (set_uint8-append pre v k x, e) (set_uint8-append pre _ (k + 1) _)

module _ (pre v : List ℕ) where
  set_uint32-append : (k x : ℕ) → set_uint32 (pre ++ v) (length pre + k) x ≡ pre ++ set_uint32 v k x
  unfolding set_uint32
  set_uint32-append k x =
      let e : length pre + k + 2 ≡ length pre + (k + 2) = omega arith in
      rw (set_uint16-append pre v k x, e) (set_uint16-append pre _ (k + 2) _)

-- The payload bytes that are written.
unfoldable pub masked : List ℕ → ℕ → ℕ → List ℕ
masked bytes b zero = []
masked bytes b (suc n) = bit_and (get_or bytes b 0) 0xff ∷ masked bytes (b + 1) n

pub length-masked : (bytes : List ℕ) (b n : ℕ) → length (masked bytes b n) ≡ n
unfolding masked
length-masked bytes b zero = refl
length-masked bytes b (suc n) = ap suc (length-masked bytes (b + 1) n)

copy_payload_lem :
    (pre post bytes : List ℕ) (off b n m : ℕ)
    → length pre ≡ off + 12 + b
    → copy_payload (pre ++ (replicate (n + m) 0 ++ post)) off bytes b n
      ≡ pre ++ (masked bytes b n ++ (replicate m 0 ++ post))
unfolding copy_payload masked
copy_payload_lem pre post bytes off b zero m h =
    ap (λ k. pre ++ (replicate k 0 ++ post)) (omega arith)
copy_payload_lem pre post bytes off b (suc n) m h =
    let w = bit_and (get_or bytes b 0) 0xff in
    let rest = replicate (n + m) 0 ++ post in
    let e : suc n + m ≡ suc (n + m) = omega arith in
    let at : off + 12 + b ≡ length pre + 0 = omega arith in
    let written : set (pre ++ (0 ∷ rest)) (off + 12 + b) w ≡ (pre ++ w ∷ []) ++ rest =
      rw at (set-append_right pre (0 ∷ rest) 0 w ∙ sym (append_assoc pre (w ∷ []) rest)) in
    rw (e, written)
      (copy_payload_lem (pre ++ w ∷ []) post bytes off (b + 1) n m
          (omega (arith, length-append pre (w ∷ [])))
        ∙ append_assoc pre (w ∷ []) _)

-- The first 12 bytes of a record on the wire, and all 20.
unfoldable pub fields : OutRecord → List ℕ
fields r =
    let buf1 = set_uint32 (replicate 12 0) 0 (r.dt_us % 2 ^ 32) in
    let buf2 = set_uint32 buf1 4 (can_id_word r) in
    let buf3 = set_uint8 buf2 8 r.dlc in
    let buf4 = set_uint8 buf3 9 (if r.is_rtr then rtr_flag else 0) in set_uint16 buf4 10 0

unfoldable pub image : OutRecord → List ℕ
image r = fields r ++ (masked r.bytes 0 r.dlc ++ replicate (8 - r.dlc) 0)

pub length-image : (r : OutRecord) → r.dlc ≤ 8 → length (image r) ≡ 20
unfolding image fields set_uint32 set_uint16 set_uint8
length-image r h = omega (
  arith,
  length-append (masked r.bytes 0 r.dlc) (replicate (8 - r.dlc) 0),
  length-masked r.bytes 0 r.dlc,
  length-replicate {A = ℕ} (8 - r.dlc) 0,
)

fields_written :
    (post : List ℕ) (r : OutRecord)
    → let buf1 = set_uint32 (replicate 20 0 ++ post) 0 (r.dt_us % 2 ^ 32) in
      let buf2 = set_uint32 buf1 4 (can_id_word r) in
      let buf3 = set_uint8 buf2 8 r.dlc in
      let buf4 = set_uint8 buf3 9 (if r.is_rtr then rtr_flag else 0) in
      set_uint16 buf4 10 0 ≡ fields r ++ (replicate 8 0 ++ post)
unfolding fields set_uint32 set_uint16 set_uint8
fields_written post r = refl

pub length-fields : (r : OutRecord) → length (fields r) ≡ 12
unfolding fields set_uint32 set_uint16 set_uint8
length-fields r = refl

fields_written_at :
    (pre post : List ℕ) (off : ℕ) (r : OutRecord)
    → length pre ≡ off
    → let buf1 = set_uint32 (pre ++ (replicate 20 0 ++ post)) (off + 0) (r.dt_us % 2 ^ 32) in
      let buf2 = set_uint32 buf1 (off + 4) (can_id_word r) in
      let buf3 = set_uint8 buf2 (off + 8) r.dlc in
      let buf4 = set_uint8 buf3 (off + 9) (if r.is_rtr then rtr_flag else 0) in
      set_uint16 buf4 (off + 10) 0 ≡ pre ++ (fields r ++ (replicate 8 0 ++ post))
fields_written_at pre post off r h = rw (
  ← h,
  set_uint32-append pre _ 0,
  set_uint32-append pre _ 4,
  set_uint8-append pre _ 8,
  set_uint8-append pre _ 9,
  set_uint16-append pre _ 10,
  fields_written post r,
)

payload_written :
    (pre post : List ℕ) (off : ℕ) (r : OutRecord)
    → length pre ≡ off
    → r.dlc ≤ 8
    → copy_payload (pre ++ (fields r ++ (replicate 8 0 ++ post))) off r.bytes 0 r.dlc
      ≡ pre ++ (image r ++ post)
unfolding image
payload_written pre post off r h d =
    let e : 8 ≡ r.dlc + (8 - r.dlc) = omega arith in
    ap (λ k. copy_payload (pre ++ (fields r ++ (replicate k 0 ++ post))) off r.bytes 0 r.dlc) e
    ∙ ap (λ l. copy_payload l off r.bytes 0 r.dlc) (sym (append_assoc pre (fields r) _))
    ∙ copy_payload_lem (pre ++ fields r) post r.bytes off 0 r.dlc (8 - r.dlc)
        (omega (arith, length-append pre (fields r), length-fields r))
    ∙ simp append_assoc

-- A record with at most 8 bytes and no stray bits overwrites the 20 zero bytes at its place.
pub encode_record_lem :
    (pre post : List ℕ) (i : ℕ) (r : OutRecord)
    → length pre ≡ 12 + i * 20
    → r.dlc ≤ 8
    → has_stray_bits r.can_id ≡ false
    → encode_record (pre ++ (replicate 20 0 ++ post)) i r ≡ ok (pre ++ (image r ++ post))
unfolding encode_record
encode_record_lem pre post i r h d s =
    rw (le→leb r.dlc 8 d, s)
      (ap ok (
        ap (λ l. copy_payload l (12 + i * 20) r.bytes 0 r.dlc)
          (fields_written_at pre post (12 + i * 20) r h)
        ∙ payload_written pre post (12 + i * 20) r h d))

-- The records one after the other.
unfoldable pub images : List OutRecord → List ℕ
images [] = []
images (r ∷ rs) = image r ++ images rs

-- What `encodeBatch` accepts of a record.
abbrev pub Accepted : OutRecord → Type 0
Accepted r = (r.dlc ≤ 8) × (has_stray_bits r.can_id ≡ false)

pub encode_records_lem :
    (pre : List ℕ) (i : ℕ) (rs : List OutRecord)
    → length pre ≡ 12 + i * 20
    → All Accepted rs
    → encode_records (pre ++ replicate (length rs * 20) 0) i rs ≡ ok (pre ++ images rs)
unfolding encode_records images
encode_records_lem pre i [] h a = refl
encode_records_lem pre i (r ∷ rs) h ((d, s), a) =
    let e : suc (length rs) * 20 ≡ 20 + length rs * 20 = omega arith in
    rw
      (
        e,
        replicate-add {A = ℕ} 20 (length rs * 20) 0,
        encode_record_lem pre _ i r h d s,
        ← append_assoc pre (image r) (replicate (length rs * 20) 0),
      )
      (encode_records_lem (pre ++ image r) (i + 1) rs
          (omega (arith, length-append pre (image r), length-image r d)) a
        ∙ ap ok (append_assoc pre (image r) (images rs)))

-- The 12 bytes of the batch header.
unfoldable pub header : OutBatch → List ℕ
header b = encode_header (replicate 12 0) b

pub encode_header_lem :
    (n : ℕ) (b : OutBatch)
    → encode_header (replicate (batch_header_bytes + n) 0) b ≡ header b ++ replicate n 0
unfolding encode_header header set_big_uint64 set_uint32 set_uint16 set_uint8
encode_header_lem n b = rw (replicate-add {A = ℕ} 12 n)

pub length-header : (b : OutBatch) → length (header b) ≡ 12
unfolding header encode_header set_big_uint64 set_uint32 set_uint16 set_uint8
length-header b = refl
