-- ===== src/Messages/Late.antt =====
-- The rate over all frames that messageModel.ts (frontend/cockpit/src/protocol) shows for an identifier
-- whose first frames came after it was selected.
use discodb.Prelude.{
  ℕ, ◌-◌, ◌≡◌, refl, sym, ap, ap₂, ◌∙◌, max, List, [], ◌∷◌, length, append-nil, none, some, arith,
}
use discodb.FrameRing.Defs.{FrameView}
use discodb.Messages.Rows.{MessageRow}
use discodb.Messages.Model.{new_group, update_group, Model, final_t_us, null_rows, rate_of, emit}
use discodb.Messages.Simulation.{Shown, update_group-shown}
use discodb.Messages.Appending.{fed}
use discodb.Messages.Whole.{null_after, null_after-last, fed-null, last_from}

abbrev pub rates : {R : Type 0} → List (MessageRow R) → List R
rates [] = []
rates (r ∷ rs) = r.rate ∷ rates rs

final-last_from : (f : FrameView) (fs : List FrameView) → final_t_us (f ∷ fs) ≡ last_from f.t_us fs
final-last_from f [] = refl
final-last_from f (g ∷ fs) = final-last_from g fs

module _ {R : Type 0} (per : ℕ → ℕ → R) (now : ℕ) where
  all-rates :
      (f : FrameView) (fs : List FrameView) (m : Model)
      → m.null_group ≡ null_after none (f ∷ fs)
      → rates (emit per none 0 now m)
        ≡ per (length (f ∷ fs)) (max (m.id_last_t_us - m.id_first_t_us) 1) ∷ []
  unfolding emit
  all-rates f fs m g =
      let (h, p, q) =
        null_after-last fs f 1 (update_group f (new_group f))
          (update_group-shown f (new_group f)) in
      ap (λ x. rates (null_rows per (rate_of per m 0 now) x)) (g ∙ p)
      ∙ ap (λ c. per c (max (m.id_last_t_us - m.id_first_t_us) 1) ∷ [])
          (ap (λ (s : Shown). s.count) q ∙ omega arith)

  -- Without a field, a state that was rebuilt before the first frame came, and given all frames since,
  -- shows the rate of these over the time from 0 to the last of them, where a state that is rebuilt
  -- from the same frames shows their rate over the time from the first to the last.
  pub late-rate :
      (f : FrameView) (fs : List FrameView)
      → (d : Model) × (e : Model) × (fed none [] (f ∷ fs) ≡ some d)
        × (fed none (f ∷ fs) [] ≡ some e)
        × (rates (emit per none 0 now d) ≡ per (length (f ∷ fs)) (max (final_t_us (f ∷ fs)) 1) ∷ [])
        × (rates (emit per none 0 now e)
            ≡ per (length (f ∷ fs)) (max (final_t_us (f ∷ fs) - f.t_us) 1) ∷ [])
  late-rate f fs =
      let (d, p, _, g, h, l) = fed-null [] (f ∷ fs) in
      let (e, p', _, g', h', l') = fed-null (f ∷ fs) [] in
      (
        d,
        e,
        p,
        p',
        all-rates f fs d g
            ∙ ap₂ over (l ∙ sym (final-last_from f fs)) h
            ∙ ap (λ t. per (length (f ∷ fs)) (max t 1) ∷ []) (omega arith),
        all-rates f fs e (g' ∙ ap (λ l. null_after none l) (append-nil (f ∷ fs))) ∙ ap₂ over l' h',
      )
    where
      over : ℕ → ℕ → List R
      over last first = per (length (f ∷ fs)) (max (last - first) 1) ∷ []
