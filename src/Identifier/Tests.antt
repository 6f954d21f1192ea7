-- ===== src/Identifier/Tests.antt =====
-- The engine speed broadcast of J1939, and an addressed request (frontend/shared/j1939.ts).
use discodb.Prelude.{◌≡◌, refl}
use discodb.Identifier.{decode_29bit_id}

engine_speed : (decode_29bit_id 0x0cf00400).pgn ≡ 0xf004
unfolding decode_29bit_id
engine_speed = refl

request : (decode_29bit_id 0x18ea0017).pgn ≡ 0xea00
unfolding decode_29bit_id
request = refl
