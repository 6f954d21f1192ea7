-- ===== src/Identifier.antt =====
-- The J1939 reading of a 29-bit identifier (frontend/shared/j1939.ts, decode29BitId). A shift to the
-- right by n is a division by 2 ^ n, and `>>> 0` a remainder.
use discodb.Prelude.{
  ℕ, ◌+◌, ◌*◌, ◌/◌, ◌%◌, ◌^◌, bit_and, bit_or, Bool, true, false, Option, none, some, ltb,
  if◌then◌else◌,
}
pub mod Fields
mod Tests

pub data J1939Format : Type 0 where
  pdu1 : J1939Format
  pdu2 : J1939Format

pub record J1939Decomposition : Type 0 where
  pub priority : ℕ
  pub extended_data_page : ℕ
  pub data_page : ℕ
  pub pdu_format : ℕ
  pub pdu_specific : ℕ
  pub source_address : ℕ
  pub pdu_type : J1939Format
  pub destination_address : Option ℕ
  pub group_extension : Option ℕ
  pub pgn : ℕ

unfoldable pub decode_29bit_id : ℕ → J1939Decomposition
decode_29bit_id id =
    let v = id % 2 ^ 32 in
    let extended_data_page = bit_and (v / 2 ^ 25) 0x1 in
    let data_page = bit_and (v / 2 ^ 24) 0x1 in
    let pdu_format = bit_and (v / 2 ^ 16) 0xff in
    let pdu_specific = bit_and (v / 2 ^ 8) 0xff in
    let is_pdu1 = ltb pdu_format 240 in
    let pgn_base =
      bit_or (bit_or (extended_data_page * 2 ^ 17) (data_page * 2 ^ 16)) (pdu_format * 2 ^ 8) in
    record {
      priority = bit_and (v / 2 ^ 26) 0x7;
      extended_data_page = extended_data_page;
      data_page = data_page;
      pdu_format = pdu_format;
      pdu_specific = pdu_specific;
      source_address = bit_and v 0xff;
      pdu_type = if is_pdu1 then pdu1 else pdu2;
      destination_address = if is_pdu1 then some pdu_specific else none;
      group_extension = if is_pdu1 then none else some pdu_specific;
      pgn = if is_pdu1 then pgn_base else bit_or pgn_base pdu_specific;
    }
