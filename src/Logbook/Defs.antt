-- ===== src/Logbook/Defs.antt =====
-- Change rates, values, their mode and the response type (frontend/shared/analysis/logbook.ts). A
-- window that would begin before time 0 begins at 0: no frame is earlier. The division of two counts
-- is a parameter.
use discodb.Prelude.{
  ℕ, ◌+◌, ◌-◌, ◌/◌, ◌^◌, bit_and, Bool, false, not, ◌&&◌, ◌||◌, List, [], ◌∷◌, length, get_or,
  Option, none, some, ltb, leb, ◌==◌, if◌then◌else◌,
}
use discodb.RunEngine.Defs.{RunWindow, wait}
use discodb.Analysis.Activity.{Doubles}

pub record TimedFrame : Type 0 where
  pub id : ℕ
  pub t_us : ℕ
  pub bytes : List ℕ

abbrev pub in_any : ℕ → List RunWindow → Bool
in_any t [] = false
in_any t (w ∷ ws) = (leb w.start_t_us t && leb t w.end_t_us) || in_any t ws

-- `Array.prototype.sort` by time: stable, here by insertion.
unfoldable pub insert_timed : TimedFrame → List TimedFrame → List TimedFrame
insert_timed f [] = f ∷ []
insert_timed f (g ∷ gs) = if leb f.t_us g.t_us then f ∷ (g ∷ gs) else g ∷ insert_timed f gs

unfoldable pub slice_id : List TimedFrame → ℕ → List RunWindow → List TimedFrame
slice_id [] id ws = []
slice_id (f ∷ fs) id ws =
    let rest = slice_id fs id ws in
    if (f.id == id) && in_any f.t_us ws then insert_timed f rest else rest

-- What a candidate reads of a byte: one bit of it, or the byte.
abbrev pub value_of : Option ℕ → ℕ → ℕ
value_of none v = v
value_of (some bit) v = bit_and (v / 2 ^ bit) 1

pub record Changes : Type 0 where
  pub pairs : ℕ
  pub changes : ℕ

-- The loop of the rates, after the frame `p`.
unfoldable pub count_changes : ℕ → Option ℕ → TimedFrame → List TimedFrame → Changes → Changes
count_changes i bit p [] n = n
count_changes i bit p (c ∷ fs) n =
    let same = value_of bit (get_or p.bytes i 0) == value_of bit (get_or c.bytes i 0) in
    count_changes i bit c fs (
      if leb (length p.bytes) i || leb (length c.bytes) i
      then n
      else record { pairs = n.pairs + 1; changes = if same then n.changes else n.changes + 1 })

unfoldable pub changes_of : ℕ → Option ℕ → List TimedFrame → Changes
changes_of i bit [] = record { pairs = 0; changes = 0 }
changes_of i bit (f ∷ fs) = count_changes i bit f fs (record { pairs = 0; changes = 0 })

-- byteChangeRate where `bit` is none, bitChangeRate where it is one.
unfoldable pub change_rate {ℓ} :
    {F : Type ℓ} → Doubles F → List TimedFrame → ℕ → ℕ → Option ℕ → List RunWindow → F
change_rate d fs id i bit ws =
    let n = changes_of i bit (slice_id fs id ws) in
    if ltb 0 n.pairs then d.ratio n.changes n.pairs else d.nought

unfoldable pub values_in : List TimedFrame → ℕ → ℕ → Option ℕ → List RunWindow → List ℕ
values_in [] id i bit ws = []
values_in (f ∷ fs) id i bit ws =
    let rest = values_in fs id i bit ws in
    if not (f.id == id) || not (in_any f.t_us ws)
    then rest
    else if leb (length f.bytes) i
    then rest
    else value_of bit (get_or f.bytes i 0) ∷ rest

-- A `Map` from values to counts; a value that is not in it counts 0.
abbrev pub count_at : List (ℕ × ℕ) → ℕ → ℕ
count_at [] v = 0
count_at ((k, n) ∷ m) v = if k == v then n else count_at m v

abbrev pub set_count : List (ℕ × ℕ) → ℕ → ℕ → List (ℕ × ℕ)
set_count [] v x = (v, x) ∷ []
set_count ((k, n) ∷ m) v x = if k == v then (k, x) ∷ m else (k, n) ∷ set_count m v x

-- The variables of the loop of modeOf.
pub record Leader : Type 0 where
  pub counts : List (ℕ × ℕ)
  pub best : ℕ
  pub best_count : ℕ

unfoldable pub lead_with : Leader → ℕ → Leader
lead_with s v =
    let n = count_at s.counts v + 1 in
    record {
      counts = set_count s.counts v n;
      best = if ltb s.best_count n then v else s.best;
      best_count = if ltb s.best_count n then n else s.best_count;
    }

unfoldable pub lead_all : Leader → List ℕ → Leader
lead_all s [] = s
lead_all s (v ∷ vs) = lead_all (lead_with s v) vs

unfoldable pub mode_of : List ℕ → Option ℕ
mode_of [] = none
mode_of (v ∷ vs) = some (lead_all (record { counts = []; best = v; best_count = 0 }) (v ∷ vs)).best

pub data ResponseType : Type 0 where
  pulse_type level_type delayed_type trend_type inconclusive : ResponseType

-- What classifyType reads of a candidate; `bit` is that of its event.
pub record UnifiedCandidate : Type 0 where
  pub id : ℕ
  pub byte_index : ℕ
  pub is_trend : Bool
  pub bit : Option ℕ

pub record Votes : Type 0 where
  pub pulse : ℕ
  pub level : ℕ
  pub delayed : ℕ

abbrev pub is_some_other : Option ℕ → ℕ → Bool
is_some_other none v = false
is_some_other (some x) v = not (x == v)

-- The vote of one repetition, given the modes before it, in it and after it.
unfoldable pub vote : Option ℕ → Option ℕ → Option ℕ → Votes → Votes
vote none _ _ n = n
vote (some rest) none _ n = n
vote (some rest) (some stim) obs n =
    if not (stim == rest)
    then if is_some_other obs rest
      then record n { level = n.level + 1 }
      else record n { pulse = n.pulse + 1 }
    else if is_some_other obs rest
    then record n { delayed = n.delayed + 1 }
    else n

abbrev pub find_rep : List RunWindow → ℕ → List RunWindow
find_rep [] rep = []
find_rep (w ∷ ws) rep = if w.rep == rep then w ∷ [] else find_rep ws rep

-- One second before the stimulus.
abbrev pub rest_window : RunWindow → RunWindow
rest_window w = record {
  role = wait;
  start_t_us = w.start_t_us - 1000000;
  end_t_us = w.start_t_us;
  rep = 0;
}

abbrev pub mode_in : List TimedFrame → UnifiedCandidate → List RunWindow → Option ℕ
mode_in fs c ws = mode_of (values_in fs c.id c.byte_index c.bit ws)

unfoldable pub vote_all :
    List TimedFrame → UnifiedCandidate → List RunWindow → List RunWindow → Votes → Votes
vote_all fs c [] obs n = n
vote_all fs c (w ∷ ws) obs n = vote_all fs c ws obs (
    vote (mode_in fs c (rest_window w ∷ [])) (mode_in fs c (w ∷ []))
      (mode_in fs c (find_rep obs w.rep)) n)

-- The first of the kinds with the most votes.
unfoldable pub winner : Votes → ResponseType
winner n =
    if ltb n.pulse n.level
    then if ltb n.level n.delayed then delayed_type else level_type
    else if ltb n.pulse n.delayed
    then delayed_type
    else if ltb 0 n.pulse
    then pulse_type
    else inconclusive

unfoldable pub classify_type :
    List TimedFrame → UnifiedCandidate → List RunWindow → List RunWindow → ResponseType
classify_type fs c stim obs =
    if c.is_trend
    then trend_type
    else winner (vote_all fs c stim obs (record { pulse = 0; level = 0; delayed = 0 }))
