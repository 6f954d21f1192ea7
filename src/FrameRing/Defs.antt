-- ===== src/FrameRing/Defs.antt =====
-- The state of `RawFrameRing` and its operations (frontend/cockpit/src/state/ringBuffer.ts).
use discodb.Prelude.{
  ℕ, zero, suc, ◌+◌, ◌-◌, ◌*◌, ◌%◌, ◌^◌, min, max, bit_and, bit_or, Bool, true, false, not, ◌||◌,
  List, [], ◌∷◌, get_or, set, take, drop, replicate, Option, none, some, ltb, leb, ◌==◌, nonzero,
  if◌then◌else◌,
}
use discodb.Wire.Decode.{CanFrame}

-- A column with one entry for each slot, and `bytes` with 8.
pub record Columns : Type 0 where
  pub t_us : List ℕ
  pub id : List ℕ
  pub flags : List ℕ
  pub dlc : List ℕ
  pub bytes : List ℕ

pub record Ring : Type 0 where
  pub cap : ℕ
  pub head : ℕ
  pub count : ℕ
  pub total_pushed : ℕ
  pub gen : ℕ
  pub columns : Columns

abbrev pub payload_stride : ℕ
payload_stride = 8

-- Typed arrays are zero-filled.
abbrev pub blank_columns : ℕ → Columns
blank_columns n = record {
  t_us = replicate n 0;
  id = replicate n 0;
  flags = replicate n 0;
  dlc = replicate n 0;
  bytes = replicate (n * payload_stride) 0;
}

unfoldable pub new_ring : ℕ → Ring
new_ring capacity =
    let cap = max 1 capacity in
    record {
      cap = cap;
      head = 0;
      count = 0;
      total_pushed = 0;
      gen = 0;
      columns = blank_columns cap;
    }

abbrev pub flag : Bool → ℕ → ℕ
flag b n = if b then n else 0

abbrev pub flags_of : CanFrame → ℕ
flags_of f = bit_or (bit_or (flag f.is_extended 1) (flag f.is_error 2)) (flag f.is_rtr 4)

-- `b < n ? f.data[b] : 0` as it is stored in a byte.
abbrev pub stored_byte : CanFrame → ℕ → ℕ
stored_byte f b = if ltb b (min f.dlc payload_stride) then get_or f.bytes b 0 % 2 ^ 8 else 0

-- The loop over the payload, from byte `b` on for `k` bytes.
unfoldable pub write_payload : List ℕ → ℕ → CanFrame → ℕ → ℕ → List ℕ
write_payload bytes base f b zero = bytes
write_payload bytes base f b (suc k) =
    write_payload (set bytes (base + b) (stored_byte f b)) base f (b + 1) k

unfoldable pub write_slot : Columns → ℕ → CanFrame → Columns
write_slot c i f = record {
  t_us = set c.t_us i f.t_us;
  id = set c.id i (f.id % 2 ^ 32);
  flags = set c.flags i (flags_of f);
  dlc = set c.dlc i (f.dlc % 2 ^ 8);
  bytes = write_payload c.bytes (i * payload_stride) f 0 payload_stride;
}

unfoldable pub push : Ring → CanFrame → Ring
push r f = record r {
  head = (r.head + 1) % r.cap;
  count = if ltb r.count r.cap then r.count + 1 else r.count;
  total_pushed = r.total_pushed + 1;
  columns = write_slot r.columns r.head f;
}

unfoldable pub push_many : Ring → List CanFrame → Ring
push_many r [] = r
push_many r (f ∷ fs) = push_many (push r f) fs

unfoldable pub clear : Ring → Ring
clear r = record r { head = 0; count = 0; total_pushed = 0; gen = r.gen + 1 }

-- Logical index 0 is the oldest frame.
unfoldable pub physical : Ring → ℕ → ℕ
physical r logical =
    let start = if ltb r.count r.cap then 0 else r.head in (start + logical) % r.cap

pub record FrameView : Type 0 where
  pub t_us : ℕ
  pub id : ℕ
  pub is_extended : Bool
  pub is_error : Bool
  pub is_rtr : Bool
  pub dlc : ℕ
  pub bytes : List ℕ

unfoldable pub build : Columns → ℕ → FrameView
build c p =
    let dlc = get_or c.dlc p 0 in
    let fl = get_or c.flags p 0 in
    record {
      t_us = get_or c.t_us p 0;
      id = get_or c.id p 0;
      is_extended = nonzero (bit_and fl 1);
      is_error = nonzero (bit_and fl 2);
      is_rtr = nonzero (bit_and fl 4);
      dlc = dlc;
      bytes = take dlc (drop (p * payload_stride) c.bytes);
    }

-- `none` is the RangeError.
unfoldable pub at_index : Ring → ℕ → Option FrameView
at_index r logical =
    if leb r.count logical then none else some (build r.columns (physical r logical))

pub record RingStats : Type 0 where
  pub capacity : ℕ
  pub size : ℕ
  pub oldest_t_us : Option ℕ
  pub newest_t_us : Option ℕ

unfoldable pub stats : Ring → RingStats
stats r =
    if r.count == 0
    then record { capacity = r.cap; size = 0; oldest_t_us = none; newest_t_us = none }
    else record {
      capacity = r.cap;
      size = r.count;
      oldest_t_us = some (get_or r.columns.t_us (physical r 0) 0);
      newest_t_us = some (get_or r.columns.t_us (physical r (r.count - 1)) 0);
    }

abbrev pub other_id : Option ℕ → ℕ → Bool
other_id none i = false
other_id (some j) i = not (i == j)

-- The two `continue` tests of the scans.
unfoldable pub skipped : Columns → ℕ → ℕ → Option ℕ → ℕ → Bool
skipped c start end id p =
    ltb (get_or c.t_us p 0) start || ltb end (get_or c.t_us p 0) || other_id id (get_or c.id p 0)

-- `collect`: the loop over the logical indices from `l` on.
unfoldable pub collect_from : Ring → ℕ → ℕ → Option ℕ → ℕ → ℕ → List FrameView
collect_from r start end id l zero = []
collect_from r start end id l (suc n) =
    let p = physical r l in
    let rest = collect_from r start end id (l + 1) n in
    if skipped r.columns start end id p then rest else build r.columns p ∷ rest

-- `window` and `windowView`
unfoldable pub window : Ring → ℕ → ℕ → Option ℕ → List FrameView
window r start end id = collect_from r start end id 0 r.count

-- `lastSeconds` and `lastSecondsView`; the span is in µs.
unfoldable pub last_seconds : Ring → ℕ → Option ℕ → List FrameView
last_seconds r span id =
    if r.count == 0
    then []
    else (let newest = get_or r.columns.t_us (physical r (r.count - 1)) 0 in
        window r (newest - span) newest id)

pub record Since : Type 0 where
  pub frames : List FrameView
  pub seq : ℕ
  pub lapped : Bool

-- `frames.push(this.at(l))`; `none` is what `at` throws.
unfoldable pub push_view : Option FrameView → Option (List FrameView) → Option (List FrameView)
push_view none rest = none
push_view (some v) none = none
push_view (some v) (some vs) = some (v ∷ vs)

-- The loop of `since` over the absolute indices from `a` on.
unfoldable pub since_from : Ring → Option ℕ → ℕ → ℕ → Option (List FrameView)
since_from r id a zero = some []
since_from r id a (suc n) =
    let logical = a - (r.total_pushed - r.count) in
    let rest = since_from r id (a + 1) n in
    if other_id id (get_or r.columns.id (physical r logical) 0)
    then rest
    else push_view (at_index r logical) rest

unfoldable pub caught_up : ℕ → Option (List FrameView) → Option Since
caught_up seq none = none
caught_up seq (some vs) = some (record { frames = vs; seq = seq; lapped = false })

unfoldable pub since : Ring → ℕ → Option ℕ → Option Since
since r seq id =
    if ltb r.total_pushed seq || ltb seq (r.total_pushed - r.count)
    then some (record { frames = []; seq = r.total_pushed; lapped = true })
    else caught_up r.total_pushed (since_from r id seq (r.total_pushed - seq))
