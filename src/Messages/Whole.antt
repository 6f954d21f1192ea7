-- ===== src/Messages/Whole.antt =====
-- The one message of frames without a field (frontend/cockpit/src/protocol/messageModel.ts).
use discodb.Prelude.{
  ℕ, ◌+◌, ◌≡◌, refl, sym, ap, ◌∙◌, Bool, true, false, List, [], ◌∷◌, ◌++◌, length, Option, none,
  some, if◌then◌else◌, arith,
}
use discodb.FrameRing.Defs.{FrameView}
use discodb.Messages.Values.{◌>>=◌}
use discodb.Messages.Rows.{last_of}
use discodb.Messages.Model.{
  Group, update_group, incremental, Model, null_or_new, fold_frames, add_frame, rebuild_state,
  append_delta, first_t_us, final_t_us,
}
use discodb.Messages.Simulation.{Shown, shown_group, update_group-shown}
use discodb.Messages.Appending.{fed, append_delta-incremental}

abbrev pub last_from : ℕ → List FrameView → ℕ
last_from t [] = t
last_from t (f ∷ fs) = last_from f.t_us fs

-- Without a field the frames are one message.
abbrev pub null_after : Option Group → List FrameView → Option Group
null_after g [] = g
null_after g (f ∷ fs) = null_after (some (update_group f (null_or_new g f))) fs

null_after-append :
    (g : Option Group) (xs ys : List FrameView)
    → null_after g (xs ++ ys) ≡ null_after (null_after g xs) ys
null_after-append g [] ys = refl
null_after-append g (f ∷ xs) ys = null_after-append (some (update_group f (null_or_new g f))) xs ys

fold_frames-null :
    (appends : Bool) (fs : List FrameView) (m : Model)
    → m.mode ≡ incremental
    → (d : Model) × (fold_frames appends none fs m ≡ some d)
      × (d.mode ≡ incremental)
      × (d.null_group ≡ null_after m.null_group fs)
      × (d.id_first_t_us ≡ m.id_first_t_us)
      × (d.id_last_t_us ≡ (if appends then last_from m.id_last_t_us fs else m.id_last_t_us))
unfolding fold_frames add_frame
fold_frames-null true [] m i = (m, refl, i, refl, refl, refl)
fold_frames-null false [] m i = (m, refl, i, refl, refl, refl)
fold_frames-null true (f ∷ fs) m i =
    fold_frames-null true fs
      (record m {
        id_count = m.id_count + 1;
        null_group = some (update_group f (null_or_new m.null_group f));
        id_last_t_us = f.t_us;
      })
      i
fold_frames-null false (f ∷ fs) m i =
    fold_frames-null false fs
      (record m {
        id_count = m.id_count + 1;
        null_group = some (update_group f (null_or_new m.null_group f));
      })
      i

abbrev pub shown_last : FrameView → List FrameView → ℕ → Shown
shown_last f fs n =
    let l = last_of f fs in
    record { bytes = l.bytes; dlc = l.dlc; last_t_us = l.t_us; count = n + length fs }

pub null_after-last :
    (fs : List FrameView) (f : FrameView) (n : ℕ) (g : Group)
    → shown_group g ≡ shown_last f [] n
    → (h : Group) × (null_after (some g) fs ≡ some h) × (shown_group h ≡ shown_last f fs n)
null_after-last [] f n g e = (g, refl, e)
null_after-last (k ∷ fs) f n g e =
    let (h, p, q) = null_after-last fs k (n + 1) (update_group k g) (
      update_group-shown k g
      ∙ ap
          (λ (s : Shown). record s {
            bytes = k.bytes;
            dlc = k.dlc;
            last_t_us = k.t_us;
            count = s.count + 1;
          })
          e
      ∙ ap (λ c. record (shown_last k [] n) { count = c }) (omega arith)) in
    (h, p, q ∙ ap (λ c. record (shown_last k fs n) { count = c }) (omega arith))

pub fed-null :
    (hist delta : List FrameView)
    → (d : Model) × (fed none hist delta ≡ some d)
      × (d.mode ≡ incremental)
      × (d.null_group ≡ null_after none (hist ++ delta))
      × (d.id_first_t_us ≡ first_t_us hist)
      × (d.id_last_t_us ≡ last_from (final_t_us hist) delta)
unfolding fed rebuild_state
fed-null hist delta =
    let (m, e, i, g, h, l) =
      fold_frames-null false hist
        (record {
          mode = incremental;
          groups = [];
          null_group = none;
          id_count = 0;
          id_first_t_us = first_t_us hist;
          id_last_t_us = final_t_us hist;
        })
        refl in
    let (d, e', i', g', h', l') = fold_frames-null true delta m i in
    (
      d,
      ap (λ x. x >>= append_delta none delta) e ∙ append_delta-incremental none delta m i ∙ e',
      i',
      g' ∙ ap (λ x. null_after x delta) g ∙ sym (null_after-append none hist delta),
      h' ∙ h,
      l' ∙ ap (λ t. last_from t delta) l,
    )
