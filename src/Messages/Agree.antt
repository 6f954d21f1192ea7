-- ===== src/Messages/Agree.antt =====
-- The rows that messageModel.ts emits against those of computeMessages
-- (frontend/cockpit/src/protocol), apart from the rates.
use discodb.Prelude.{
  ℤ, ℕ, suc, ◌-◌, ◌<◌, ◌≡◌, ◌⊎◌, inl, inr, refl, sym, subst, ap, ◌∙◌, List, [], ◌∷◌, ◌++◌, length,
  Option, none, some, arith,
}
use discodb.FrameRing.Defs.{FrameView}
use discodb.Signal.Defs.{BitRange}
use discodb.Messages.Values.{
  ◌>>=◌, field_bytes, field_hex_width, sort_values, map_entries, map_entries-sort_values,
  length-sort_values,
}
use discodb.Messages.Rows.{MessageRow, Gathered, gather_all, rows_of, compute_messages}
use discodb.Messages.Model.{
  Group, new_group, update_group, incremental, passthrough, Model, group_rows, null_rows, emit,
  max_messages,
}
use discodb.Messages.Simulation.{
  Shown, shown_group, shown_gathered, update_group-shown, Many, Related,
}
use discodb.Messages.Appending.{fed, fed-Related}
use discodb.Messages.Whole.{null_after, shown_last, null_after-last, fed-null}

abbrev pub unrated : {R : Type 0} → MessageRow R → MessageRow Unit
unrated r = record {
  mux = r.mux;
  bytes = r.bytes;
  dlc = r.dlc;
  rate = tt;
  last_t_us = r.last_t_us;
  count = r.count;
  id_bytes = r.id_bytes;
  id_hex_width = r.id_hex_width;
}

abbrev pub all_unrated : {R : Type 0} → List (MessageRow R) → List (MessageRow Unit)
all_unrated [] = []
all_unrated (r ∷ rs) = unrated r ∷ all_unrated rs

abbrev shown_row : BitRange → ℤ × Shown → MessageRow Unit
shown_row field e = record {
  mux = some e.0;
  bytes = e.1.bytes;
  dlc = e.1.dlc;
  rate = tt;
  last_t_us = e.1.last_t_us;
  count = e.1.count;
  id_bytes = some (field_bytes field);
  id_hex_width = field_hex_width field;
}

abbrev shown_rows : BitRange → List (ℤ × Shown) → List (MessageRow Unit)
shown_rows field [] = []
shown_rows field (e ∷ es) = shown_row field e ∷ shown_rows field es

group_rows-shown :
    {R : Type 0} (per : ℕ → ℕ → R) (rate : Group → R) (field : BitRange) (es : List (ℤ × Group))
    → all_unrated (group_rows per rate field es) ≡ shown_rows field (map_entries shown_group es)
group_rows-shown per rate field [] = refl
group_rows-shown per rate field (e ∷ es) =
    ap (λ l. shown_row field (e.0, shown_group e.1) ∷ l) (group_rows-shown per rate field es)

rows_of-shown :
    {R : Type 0} (per : ℕ → R) (field : BitRange) (es : List (ℤ × Gathered))
    → all_unrated (rows_of per field es) ≡ shown_rows field (map_entries shown_gathered es)
rows_of-shown per field [] = refl
rows_of-shown per field (e ∷ es) =
    ap (λ l. shown_row field (e.0, shown_gathered e.1) ∷ l) (rows_of-shown per field es)

length-rows_of :
    {R : Type 0} (per : ℕ → R) (field : BitRange) (es : List (ℤ × Gathered))
    → length (rows_of per field es) ≡ length es
length-rows_of per field [] = refl
length-rows_of per field (e ∷ es) = ap (λ n. suc n) (length-rows_of per field es)

abbrev pub ManyRows : {S : Type 0} → Option (List (MessageRow S)) → Type 0
ManyRows none = Unit
ManyRows (some rows) = max_messages < length rows

abbrev null_row : Shown → MessageRow Unit
null_row s = record {
  mux = none;
  bytes = s.bytes;
  dlc = s.dlc;
  rate = tt;
  last_t_us = s.last_t_us;
  count = s.count;
  id_bytes = none;
  id_hex_width = 0;
}

-- What the state shows against the rows of the whole history, apart from the rates: the same rows,
-- unless the state has been given up, for which there must be too many; or no rows for either.
unfoldable pub Agrees :
    {R S : Type 0}
    → (Model → List (MessageRow R))
    → Option Model
    → Option (List (MessageRow S))
    → Type 0
Agrees rows none o = o ≡ none
Agrees rows (some m) o =
    ((m.mode ≡ passthrough) × ManyRows o)
    ⊎ ((m.mode ≡ incremental)
        × ((rs : List _) × (o ≡ some rs) × (all_unrated (rows m) ≡ all_unrated rs)))

module _ {R S : Type 0} (per : ℕ → ℕ → R) (each : ℕ → S) (window_seconds window_us now : ℕ) where
  Related-Agrees :
      (field : BitRange) (low : ℕ) (m : Option Model) (o : Option (List (ℤ × Gathered)))
      → Related field low m o
      → Agrees
          (emit per (some field) window_seconds now)
          m
          (o >>= λ gs. some (rows_of each field (sort_values gs)))
  unfolding Agrees emit
  Related-Agrees field low none o h =
      ap (λ x. x >>= λ gs. some (rows_of each field (sort_values gs))) h
  Related-Agrees field low (some m) o (inl (p, q)) = inl (p, many o q)
    where
      many :
          (o : Option (List (ℤ × Gathered)))
          → Many field low o
          → ManyRows (o >>= λ gs. some (rows_of each field (sort_values gs)))
      many none h = tt
      many (some gs) h =
          subst (λ n. max_messages < n)
            (sym (length-rows_of each field (sort_values gs) ∙ length-sort_values gs)) h
  Related-Agrees field low (some m) o (inr (p, (gs, e, q))) = inr (
    p,
    (
      rows_of each field (sort_values gs),
      ap (λ x. x >>= λ hs. some (rows_of each field (sort_values hs))) e,
      group_rows-shown per _ field (sort_values m.groups)
          ∙ ap (shown_rows field) (
              map_entries-sort_values shown_group m.groups
              ∙ ap sort_values q
              ∙ sym (map_entries-sort_values shown_gathered gs))
          ∙ sym (rows_of-shown each field (sort_values gs)),
    ),
  )

  compute_messages-field :
      (field : BitRange) (fs : List FrameView)
      → compute_messages each (some field) window_us now fs ≡ (
          gather_all field (now - window_us) fs [] >>= λ gs.
          some (rows_of each field (sort_values gs)))
  unfolding compute_messages gather_all
  compute_messages-field field [] = refl
  compute_messages-field field (f ∷ fs) = refl

  by_field :
      (field : BitRange) (hist delta : List FrameView)
      → Agrees
          (emit per (some field) window_seconds now)
          (fed (some field) hist delta)
          (compute_messages each (some field) window_us now (hist ++ delta))
  by_field field hist delta =
      subst (Agrees (emit per (some field) window_seconds now) (fed (some field) hist delta))
        (sym (compute_messages-field field (hist ++ delta)))
        (Related-Agrees field (now - window_us) (fed (some field) hist delta)
          (gather_all field (now - window_us) (hist ++ delta) [])
          (fed-Related field (now - window_us) hist delta))

  null_rows-last :
      (rate : Group → R) (fs : List FrameView) (g : Option Group)
      → g ≡ null_after none fs
      → (rs : List (MessageRow S)) × (compute_messages each none window_us now fs ≡ some rs)
        × (all_unrated (null_rows per rate g) ≡ all_unrated rs)
  unfolding compute_messages
  null_rows-last rate [] g e = ([], refl, ap (λ x. all_unrated (null_rows per rate x)) e)
  null_rows-last rate (f ∷ fs) g e =
      let (h, p, q) =
        null_after-last fs f 1 (update_group f (new_group f))
          (update_group-shown f (new_group f)) in
      (
        _,
        refl,
        ap (λ x. all_unrated (null_rows per rate x)) (e ∙ p)
            ∙ ap (λ (s : Shown). null_row s ∷ []) q
            ∙ ap (λ c. null_row (record (shown_last f fs 1) { count = c }) ∷ []) (omega arith),
      )

  -- A state that was rebuilt from a part of the history and then given the frames since shows the
  -- rows that are computed from the whole history, apart from their rates: the same messages in the
  -- same order, each with its latest payload and its count. Only a state that was given up shows
  -- others, and then there are more than 64, or a value cannot be read; and where the state cannot
  -- read a value, no rows are computed either.
  pub emit-compute_messages :
      (field : Option BitRange) (hist delta : List FrameView)
      → Agrees
          (emit per field window_seconds now)
          (fed field hist delta)
          (compute_messages each field window_us now (hist ++ delta))
  unfolding Agrees emit
  emit-compute_messages (some field) hist delta = by_field field hist delta
  emit-compute_messages none hist delta =
      let (d, e, i, g, _, _) = fed-null hist delta in
      subst
        (λ x.
          Agrees (emit per none window_seconds now) x
            (compute_messages each none window_us now (hist ++ delta)))
        (sym e) (inr (i, null_rows-last _ (hist ++ delta) d.null_group g))
