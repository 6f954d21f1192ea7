-- ===== src/Messages/Model.antt =====
-- The groups that createMessageModel of frontend/cockpit/src/protocol/messageModel.ts keeps, apart
-- from the detection of the field and the cursor into the ring.
use discodb.Prelude.{
  ℤ, ℕ, zero, suc, ◌+◌, ◌-◌, ◌*◌, ◌/◌, ◌%◌, max, Bool, true, false, List, [], ◌∷◌, length, Option,
  none, some, leb, ◌==◌, if◌then◌else◌,
}
use discodb.FrameRing.Defs.{FrameView}
use discodb.Signal.Defs.{BitRange}
use discodb.Sockets.{put}
use discodb.Messages.Values.{
  ◌>>=◌, field_bytes, field_hex_width, field_value_of, upsert, sort_values,
}
use discodb.Messages.Rows.{MessageRow}

abbrev pub rate_horizon_s : ℕ
rate_horizon_s = 600

abbrev pub max_messages : ℕ
max_messages = 64

-- `bSec` and `bCnt` by the index of a bucket; the tag -1 of an empty one is none.
pub record Group : Type 0 where
  pub bytes : List ℕ
  pub dlc : ℕ
  pub count : ℕ
  pub last_t_us : ℕ
  pub b_sec : ℕ → Option ℕ
  pub b_cnt : ℕ → ℕ

abbrev pub new_group : FrameView → Group
new_group f = record {
  bytes = f.bytes;
  dlc = f.dlc;
  count = 0;
  last_t_us = f.t_us;
  b_sec = λ i. none;
  b_cnt = λ i. 0;
}

abbrev pub has_tag : Option ℕ → ℕ → Bool
has_tag none s = false
has_tag (some t) s = t == s

unfoldable pub bump : ℕ → Group → Group
bump sec g =
    let i = sec % rate_horizon_s in
    if has_tag (g.b_sec i) sec
    then record g { b_cnt = put i (g.b_cnt i + 1) g.b_cnt }
    else record g { b_sec = put i (some sec) g.b_sec; b_cnt = put i 1 g.b_cnt }

unfoldable pub update_group : FrameView → Group → Group
unfolding bump
update_group f g =
    bump (f.t_us / 1000000)
      (record g { count = g.count + 1; bytes = f.bytes; dlc = f.dlc; last_t_us = f.t_us })

pub data Mode : Type 0 where
  incremental : Mode
  passthrough : Mode

pub record Model : Type 0 where
  pub mode : Mode
  pub groups : List (ℤ × Group)
  pub null_group : Option Group
  pub id_count : ℕ
  pub id_first_t_us : ℕ
  pub id_last_t_us : ℕ

-- The groups that are kept when a value too many has come.
abbrev pub passed_through : Model → Model
passed_through m = record m { mode = passthrough; groups = []; null_group = none }

abbrev pub null_or_new : Option Group → FrameView → Group
null_or_new none f = new_group f
null_or_new (some g) f = g

-- Whether the groups fit, and the next state.
unfoldable pub add_frame : Option BitRange → FrameView → Model → Option (Bool × Model)
unfolding update_group
add_frame none f m = some (
  true,
  record m {
    id_count = m.id_count + 1;
    null_group = some (update_group f (null_or_new m.null_group f));
  },
)
add_frame (some field) f m = do
  v ← field_value_of field f
  let gs = upsert v (new_group f) (update_group f) m.groups
  some (leb (length gs) max_messages, record m { id_count = m.id_count + 1; groups = gs })

-- The loops over the frames of `rebuildState` and, where `appends`, of `sync`.
unfoldable pub fold_frames : Bool → Option BitRange → List FrameView → Model → Option Model
unfolding add_frame
fold_frames appends field [] m = some m
fold_frames appends field (f ∷ fs) m = do
  r ← add_frame field f m
  let rest =
      fold_frames appends field fs
        (record r.1 { id_last_t_us = if appends then f.t_us else r.1.id_last_t_us })
  if r.0 then rest else some (passed_through r.1)

abbrev pub first_t_us : List FrameView → ℕ
first_t_us [] = 0
first_t_us (f ∷ fs) = f.t_us

abbrev pub final_t_us : List FrameView → ℕ
final_t_us [] = 0
final_t_us (f ∷ []) = f.t_us
final_t_us (f ∷ g ∷ fs) = final_t_us (g ∷ fs)

unfoldable pub rebuild_state : Option BitRange → List FrameView → Option Model
unfolding fold_frames
rebuild_state field hist = fold_frames false field hist (record {
  mode = incremental;
  groups = [];
  null_group = none;
  id_count = 0;
  id_first_t_us = first_t_us hist;
  id_last_t_us = final_t_us hist;
})

-- What `sync` does with the frames that are new; those of the other kind of identifier are left out
-- before.
unfoldable pub append_delta : Option BitRange → List FrameView → Model → Option Model
unfolding fold_frames
append_delta field delta m = elim m.mode [
  | incremental ↦ fold_frames true field delta m
  | passthrough ↦ some m
]

-- The seconds from `s` on, `n` of them.
unfoldable pub sum_buckets : Group → ℕ → ℕ → ℕ
sum_buckets g s zero = 0
sum_buckets g s (suc n) =
    let rest = sum_buckets g (s + 1) n in
    let i = s % rate_horizon_s in if has_tag (g.b_sec i) s then g.b_cnt i + rest else rest

-- A second below 0, which the source starts at where `win_sec` is more than `now_sec`, has no frame.
unfoldable pub windowed_count : Group → ℕ → ℕ → ℕ
unfolding sum_buckets
windowed_count g now_sec win_sec =
    let start = now_sec + 1 - win_sec in sum_buckets g start (now_sec + 1 - start)

-- `per n us` is n divided by the seconds that `us` microseconds are; a window of 0 is all.
module _ {R : Type 0} (per : ℕ → ℕ → R) where
  abbrev pub denominator : Model → ℕ → ℕ
  denominator m window_seconds =
      if window_seconds == 0
      then max (m.id_last_t_us - m.id_first_t_us) 1
      else window_seconds * 1000000

  abbrev pub rate_of : Model → (window_seconds now : ℕ) → Group → R
  rate_of m window_seconds now g =
      per (if window_seconds == 0 then g.count else windowed_count g (now / 1000000) window_seconds)
        (denominator m window_seconds)

  abbrev pub group_row : (Group → R) → BitRange → ℤ × Group → MessageRow R
  group_row rate field e = record {
    mux = some e.0;
    bytes = e.1.bytes;
    dlc = e.1.dlc;
    rate = rate e.1;
    last_t_us = e.1.last_t_us;
    count = e.1.count;
    id_bytes = some (field_bytes field);
    id_hex_width = field_hex_width field;
  }

  abbrev pub group_rows : (Group → R) → BitRange → List (ℤ × Group) → List (MessageRow R)
  group_rows rate field [] = []
  group_rows rate field (e ∷ es) = group_row rate field e ∷ group_rows rate field es

  abbrev pub null_rows : (Group → R) → Option Group → List (MessageRow R)
  null_rows rate none = []
  null_rows rate (some g) =
      record {
        mux = none;
        bytes = g.bytes;
        dlc = g.dlc;
        rate = rate g;
        last_t_us = g.last_t_us;
        count = g.count;
        id_bytes = none;
        id_hex_width = 0;
      }
      ∷ []

  unfoldable pub emit : Option BitRange → (window_seconds now : ℕ) → Model → List (MessageRow R)
  unfolding windowed_count
  emit none window_seconds now m = null_rows (rate_of m window_seconds now) m.null_group
  emit (some field) window_seconds now m =
      group_rows (rate_of m window_seconds now) field (sort_values m.groups)
