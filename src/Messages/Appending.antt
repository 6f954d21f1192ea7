-- ===== src/Messages/Appending.antt =====
-- A state that is rebuilt and then given frames, in the words of Simulation
-- (frontend/cockpit/src/protocol/messageModel.ts).
use discodb.Prelude.{
  ℤ, ℕ, ◌≡◌, inl, inr, refl, sym, subst, ap, true, false, List, [], ◌∷◌, ◌++◌, Option, none, some,
}
use discodb.FrameRing.Defs.{FrameView}
use discodb.Signal.Defs.{BitRange}
use discodb.Messages.Values.{◌>>=◌, field_value_of, upsert}
use discodb.Messages.Rows.{Gathered, new_gathered, gathered, gather_all}
use discodb.Messages.Model.{
  incremental, passthrough, Model, fold_frames, rebuild_state, append_delta, first_t_us, final_t_us,
}
use discodb.Messages.Simulation.{Many, Related, gather_all-Many, fold_frames-Related}

-- The state after a rebuild from `hist` and the frames of `delta` since.
unfoldable pub fed : Option BitRange → List FrameView → List FrameView → Option Model
fed field hist delta = rebuild_state field hist >>= append_delta field delta

append_delta-passthrough :
    (field : Option BitRange) (delta : List FrameView) (m : Model)
    → m.mode ≡ passthrough
    → append_delta field delta m ≡ some m
unfolding append_delta
append_delta-passthrough field delta m p =
    ap (λ x. elim x [ incremental ↦ fold_frames true field delta m | passthrough ↦ some m ]) p

pub append_delta-incremental :
    (field : Option BitRange) (delta : List FrameView) (m : Model)
    → m.mode ≡ incremental
    → append_delta field delta m ≡ fold_frames true field delta m
unfolding append_delta
append_delta-incremental field delta m p =
    ap (λ x. elim x [ incremental ↦ fold_frames true field delta m | passthrough ↦ some m ]) p

gather_all-append :
    (field : BitRange) (low : ℕ) (xs ys : List FrameView) (gs : List (ℤ × Gathered))
    → gather_all field low (xs ++ ys) gs
      ≡ (gather_all field low xs gs >>= λ hs. gather_all field low ys hs)
unfolding gather_all
gather_all-append field low [] ys gs = refl
gather_all-append field low (f ∷ xs) ys gs =
    by_value (field_value_of field f) (λ v. gather_all-append field low xs ys (put_in v))
  where
    put_in : ℤ → List (ℤ × Gathered)
    put_in v = upsert v (new_gathered f) (gathered low f) gs

    by_value :
        (o : Option ℤ)
        → ((v : ℤ)
            → gather_all field low (xs ++ ys) (put_in v)
              ≡ (gather_all field low xs (put_in v) >>= λ hs. gather_all field low ys hs))
        → (o >>= λ v. gather_all field low (xs ++ ys) (put_in v))
          ≡ ((o >>= λ v. gather_all field low xs (put_in v)) >>= λ hs. gather_all field low ys hs)
    by_value none rest = refl
    by_value (some v) rest = rest v

pub fed-Related :
    (field : BitRange) (low : ℕ) (hist delta : List FrameView)
    → Related field low (fed (some field) hist delta) (gather_all field low (hist ++ delta) [])
unfolding fed rebuild_state
fed-Related field low hist delta =
    subst
      (Related field low
        (fold_frames false (some field) hist start >>= append_delta (some field) delta))
      (sym (gather_all-append field low hist delta []))
      (onwards _ _ (fold_frames-Related field low false hist start [] refl refl))
  where
    start : Model
    start = record {
      mode = incremental;
      groups = [];
      null_group = none;
      id_count = 0;
      id_first_t_us = first_t_us hist;
      id_last_t_us = final_t_us hist;
    }

    onwards :
        (m : Option Model) (o : Option (List (ℤ × Gathered)))
        → Related field low m o
        → Related field low
            (m >>= append_delta (some field) delta)
            (o >>= λ hs. gather_all field low delta hs)
    onwards none o h = ap (λ x. x >>= λ hs. gather_all field low delta hs) h
    onwards (some m) o (inl (p, q)) =
        subst (λ r. Related field low r (o >>= λ hs. gather_all field low delta hs))
          (sym (append_delta-passthrough (some field) delta m p)) (inl (p, still o q))
      where
        still :
            (o : Option (List (ℤ × Gathered)))
            → Many field low o
            → Many field low (o >>= λ hs. gather_all field low delta hs)
        still none h = tt
        still (some gs) h = gather_all-Many field low delta gs h
    onwards (some m) o (inr (p, (gs, e, q))) =
        subst (λ r. Related field low r (o >>= λ hs. gather_all field low delta hs))
          (sym (append_delta-incremental (some field) delta m p))
          (subst
            (λ x.
              Related field low (fold_frames true (some field) delta m)
                (x >>= λ hs. gather_all field low delta hs))
            (sym e) (fold_frames-Related field low true delta m gs p q))
