-- ===== src/Identifier/Fields.antt =====
-- The fields of a 29-bit identifier and its parameter group (frontend/shared/j1939.ts).
use discodb.Prelude.{
  ℕ, ◌+◌, ◌*◌, ◌/◌, ◌%◌, ◌^◌, ◌≤◌, ◌<◌, bit_and, bit_or, ◌≡◌, ◌⊎◌, inl, inr, ap, ◌∙◌, true, false,
  none, some, ltb, Bool-cases, ltb→lt, not_ltb→le, arith,
}
use discodb.Prelude.Bits.{bit_and_mask, bit_or_fields}
use discodb.Identifier.{pdu1, pdu2, J1939Decomposition, decode_29bit_id}

-- The identifier that the fields make up.
abbrev pub identifier_of : J1939Decomposition → ℕ
identifier_of d =
    d.priority * 2 ^ 26
    + d.extended_data_page * 2 ^ 25
    + d.data_page * 2 ^ 24
    + d.pdu_format * 2 ^ 16
    + d.pdu_specific * 2 ^ 8
    + d.source_address

-- The six fields make up the low 29 bits of the identifier, so that two identifiers of 29 bits with
-- the same fields are the same.
pub decode_29bit_id-recomposes : (id : ℕ) → identifier_of (decode_29bit_id id) ≡ id % 2 ^ 29
unfolding decode_29bit_id
decode_29bit_id-recomposes id = omega (
  arith,
  bit_and_mask 3 (id % 2 ^ 32 / 2 ^ 26),
  bit_and_mask 1 (id % 2 ^ 32 / 2 ^ 25),
  bit_and_mask 1 (id % 2 ^ 32 / 2 ^ 24),
  bit_and_mask 8 (id % 2 ^ 32 / 2 ^ 16),
  bit_and_mask 8 (id % 2 ^ 32 / 2 ^ 8),
  bit_and_mask 8 (id % 2 ^ 32),
)

or_pages :
    (e d f : ℕ)
    → d < 2
    → f < 256
    → bit_or (bit_or (e * 2 ^ 17) (d * 2 ^ 16)) (f * 2 ^ 8) ≡ (e * 2 ^ 9 + d * 2 ^ 8 + f) * 2 ^ 8
or_pages e d f h l =
    ap (λ t. bit_or t (f * 2 ^ 8)) {y = (e * 2 + d) * 2 ^ 16}
      (bit_or_fields 17 e (d * 2 ^ 16) (omega arith) ∙ omega arith)
    ∙ bit_or_fields 16 (e * 2 + d) (f * 2 ^ 8) (omega arith)
    ∙ omega arith

-- A decomposition whose group is that of `id`: addressed or broadcast.
abbrev pub IsGroupOf : ℕ → J1939Decomposition → Type 0
IsGroupOf id d =
    ((d.pdu_format < 240)
      × (d.pdu_type ≡ pdu1)
      × (d.destination_address ≡ some d.pdu_specific)
      × (d.group_extension ≡ none)
      × (d.pgn ≡ id / 2 ^ 16 % 2 ^ 10 * 2 ^ 8))
    ⊎ ((240 ≤ d.pdu_format)
        × (d.pdu_type ≡ pdu2)
        × (d.destination_address ≡ none)
        × (d.group_extension ≡ some d.pdu_specific)
        × (d.pgn ≡ id / 2 ^ 8 % 2 ^ 18))

-- Below a PDU format of 240 the group is addressed: the PDU specific byte is the destination and the
-- group number leaves it out. From 240 on it is a broadcast, and the byte is a part of the number.
pub decode_29bit_id-IsGroupOf : (id : ℕ) → IsGroupOf id (decode_29bit_id id)
unfolding decode_29bit_id
decode_29bit_id-IsGroupOf id = by_format (Bool-cases (ltb pf 240))
  where
    v : ℕ
    v = id % 2 ^ 32

    e : ℕ
    e = bit_and (v / 2 ^ 25) 0x1

    p : ℕ
    p = bit_and (v / 2 ^ 24) 0x1

    pf : ℕ
    pf = bit_and (v / 2 ^ 16) 0xff

    ps : ℕ
    ps = bit_and (v / 2 ^ 8) 0xff

    pages :
        bit_or (bit_or (e * 2 ^ 17) (p * 2 ^ 16)) (pf * 2 ^ 8)
        ≡ (e * 2 ^ 9 + p * 2 ^ 8 + pf) * 2 ^ 8
    pages =
        or_pages e p pf (omega (arith, bit_and_mask 1 (v / 2 ^ 24)))
          (omega (arith, bit_and_mask 8 (v / 2 ^ 16)))

    addressed :
        bit_or (bit_or (e * 2 ^ 17) (p * 2 ^ 16)) (pf * 2 ^ 8) ≡ id / 2 ^ 16 % 2 ^ 10 * 2 ^ 8
    addressed =
        pages
        ∙ omega (
          arith,
          bit_and_mask 1 (v / 2 ^ 25),
          bit_and_mask 1 (v / 2 ^ 24),
          bit_and_mask 8 (v / 2 ^ 16),
        )

    broadcast :
        bit_or (bit_or (bit_or (e * 2 ^ 17) (p * 2 ^ 16)) (pf * 2 ^ 8)) ps ≡ id / 2 ^ 8 % 2 ^ 18
    broadcast =
        ap (λ t. bit_or t ps) pages
        ∙ bit_or_fields 8 (e * 2 ^ 9 + p * 2 ^ 8 + pf) ps
            (omega (arith, bit_and_mask 8 (v / 2 ^ 8)))
        ∙ omega (
          arith,
          bit_and_mask 1 (v / 2 ^ 25),
          bit_and_mask 1 (v / 2 ^ 24),
          bit_and_mask 8 (v / 2 ^ 16),
          bit_and_mask 8 (v / 2 ^ 8),
        )

    by_format : (ltb pf 240 ≡ true) ⊎ (ltb pf 240 ≡ false) → IsGroupOf id (decode_29bit_id id)
    by_format (inl t) = inl (ltb→lt pf 240 t, rw t, rw t, rw t, rw t addressed)
    by_format (inr t) = inr (not_ltb→le pf 240 t, rw t, rw t, rw t, rw t broadcast)
