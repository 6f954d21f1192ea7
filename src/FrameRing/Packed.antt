-- ===== src/FrameRing/Packed.antt =====
-- The columnar windows of `RawFrameRing` (frontend/cockpit/src/state/ringBuffer.ts), and the shape of
-- frontend/shared/analysis/packed.ts.
use discodb.Prelude.{
  ℕ, zero, suc, ◌+◌, ◌-◌, ◌*◌, min, Bool, true, false, ◌&&◌, List, ◌++◌, length, get_or, set, take,
  drop, Option, none, some, ltb, ◌==◌, if◌then◌else◌,
}
use discodb.FrameRing.Defs.{Columns, Ring, payload_stride, blank_columns, physical, skipped}

-- `PackedFrames`
pub record PackedFrames : Type 0 where
  pub count : ℕ
  pub columns : Columns

-- The first pass: how many frames match.
unfoldable pub count_from : Ring → ℕ → ℕ → Option ℕ → ℕ → ℕ → ℕ
count_from r start end id l zero = 0
count_from r start end id l (suc n) =
    let rest = count_from r start end id (l + 1) n in
    if skipped r.columns start end id (physical r l) then rest else rest + 1

-- `out.set(src, off)`
abbrev pub blit : List ℕ → ℕ → List ℕ → List ℕ
blit out off src = take off out ++ (src ++ drop (off + length src) out)

-- `xs.subarray(from, to)`
abbrev pub subarray : List ℕ → ℕ → ℕ → List ℕ
subarray xs from to = take (to - from) (drop from xs)

-- One span of slots copied to the slots from `off` on.
unfoldable pub copy_span : Columns → Columns → ℕ → ℕ → ℕ → Columns
copy_span out c off from to = record {
  t_us = blit out.t_us off (subarray c.t_us from to);
  id = blit out.id off (subarray c.id from to);
  flags = blit out.flags off (subarray c.flags from to);
  dlc = blit out.dlc off (subarray c.dlc from to);
  bytes =
      blit out.bytes (off * payload_stride)
        (subarray c.bytes (from * payload_stride) (to * payload_stride));
}

-- The whole ring in at most two spans.
unfoldable pub copy_spans : Ring → Columns → Columns
copy_spans r out =
    let start_phys = if ltb r.count r.cap then 0 else r.head in
    let first = min r.count (r.cap - start_phys) in
    let out1 = copy_span out r.columns 0 start_phys (start_phys + first) in
    let rest = r.count - first in if ltb 0 rest then copy_span out1 r.columns first 0 rest else out1

-- The loop over the 8 bytes of a slot.
unfoldable pub copy_bytes : List ℕ → ℕ → List ℕ → ℕ → ℕ → ℕ → List ℕ
copy_bytes out db src sb b zero = out
copy_bytes out db src sb b (suc k) =
    copy_bytes (set out (db + b) (get_or src (sb + b) 0)) db src sb (b + 1) k

unfoldable pub copy_slot : Columns → ℕ → Columns → ℕ → Columns
copy_slot out w c p = record {
  t_us = set out.t_us w (get_or c.t_us p 0);
  id = set out.id w (get_or c.id p 0);
  flags = set out.flags w (get_or c.flags p 0);
  dlc = set out.dlc w (get_or c.dlc p 0);
  bytes = copy_bytes out.bytes (w * payload_stride) c.bytes (p * payload_stride) 0 payload_stride;
}

-- The general path: the loop over the logical indices from `l` on, with `w` slots written.
unfoldable pub copy_from : Ring → ℕ → ℕ → Option ℕ → Columns → ℕ → ℕ → ℕ → Columns
copy_from r start end id out w l zero = out
copy_from r start end id out w l (suc n) =
    let p = physical r l in
    let skip = copy_from r start end id out w (l + 1) n in
    let keep = copy_from r start end id (copy_slot out w r.columns p) (w + 1) (l + 1) n in
    if skipped r.columns start end id p then skip else keep

abbrev is_none : Option ℕ → Bool
is_none none = true
is_none (some i) = false

unfoldable pub window_packed : Ring → ℕ → ℕ → Option ℕ → PackedFrames
window_packed r start end id =
    let n = count_from r start end id 0 r.count in
    let out = blank_columns n in
    let fast = copy_spans r out in
    let general = copy_from r start end id out 0 0 r.count in
    record { count = n; columns = if is_none id && n == r.count && ltb 0 n then fast else general }

-- `lastSecondsPacked`; the span is in µs.
unfoldable pub last_seconds_packed : Ring → ℕ → Option ℕ → PackedFrames
last_seconds_packed r span id =
    if r.count == 0
    then window_packed r 1 0 none
    else (let newest = get_or r.columns.t_us (physical r (r.count - 1)) 0 in
        window_packed r (newest - span) newest id)
