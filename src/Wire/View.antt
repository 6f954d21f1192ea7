-- ===== src/Wire/View.antt =====
-- `DataView` over a buffer, little-endian: what the encoder and the parsers use of it. A read
-- outside the view throws; every write of the encoder lies inside the buffer that it allocates.
use discodb.Prelude.{
  ℕ, zero, suc, ◌+◌, ◌*◌, ◌/◌, ◌%◌, ◌^◌, List, [], ◌∷◌, Option, none, some, get_elem?, set, Result,
  ok, err, ◌>>=◌,
}

-- `RangeError`, or `BatchParseError` of the clients. `out_of_view` is what `DataView` throws.
pub data WireError : Type 0 where
  count_too_large : ℕ → WireError
  dlc_out_of_range : ℕ → WireError
  stray_id_bits : ℕ → WireError
  too_short : WireError
  bad_version : ℕ → WireError
  truncated : WireError
  out_of_view : WireError

abbrev in_view : Option ℕ → Result WireError ℕ
in_view none = err out_of_view
in_view (some b) = ok b

unfoldable pub get_uint8 : List ℕ → ℕ → Result WireError ℕ
get_uint8 v off = in_view (get_elem? v off)

unfoldable pub get_uint16 : List ℕ → ℕ → Result WireError ℕ
get_uint16 v off = do a ← get_uint8 v off; b ← get_uint8 v (off + 1); ok (a + b * 2 ^ 8)

unfoldable pub get_uint32 : List ℕ → ℕ → Result WireError ℕ
get_uint32 v off = do a ← get_uint16 v off; b ← get_uint16 v (off + 2); ok (a + b * 2 ^ 16)

unfoldable pub get_big_uint64 : List ℕ → ℕ → Result WireError ℕ
get_big_uint64 v off = do a ← get_uint32 v off; b ← get_uint32 v (off + 4); ok (a + b * 2 ^ 32)

-- `data[b] = view.getUint8(off + b)` for the bytes `b` from 0 on.
unfoldable pub get_bytes : List ℕ → ℕ → ℕ → Result WireError (List ℕ)
get_bytes v off zero = ok []
get_bytes v off (suc n) = do b ← get_uint8 v off; bs ← get_bytes v (off + 1) n; ok (b ∷ bs)

-- The setters keep the low bits of the value.
unfoldable pub set_uint8 : List ℕ → ℕ → ℕ → List ℕ
set_uint8 v off x = set v off (x % 2 ^ 8)

unfoldable pub set_uint16 : List ℕ → ℕ → ℕ → List ℕ
set_uint16 v off x = set_uint8 (set_uint8 v off x) (off + 1) (x / 2 ^ 8)

unfoldable pub set_uint32 : List ℕ → ℕ → ℕ → List ℕ
set_uint32 v off x = set_uint16 (set_uint16 v off x) (off + 2) (x / 2 ^ 16)

unfoldable pub set_big_uint64 : List ℕ → ℕ → ℕ → List ℕ
set_big_uint64 v off x = set_uint32 (set_uint32 v off x) (off + 4) (x / 2 ^ 32)
