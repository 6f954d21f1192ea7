-- ===== src/Diagnostic/Sending.antt =====
-- The frames of a sender of ISO 15765-2, and where frontend/shared/diagnostic.ts finds the start of a
-- transfer.
use discodb.Prelude.{
  ℕ, zero, suc, ◌+◌, ◌%◌, ◌≤◌, ◌<◌, ◌≡◌, sym, ap, ◌∙◌, true, false, List, [], ◌∷◌, ◌++◌,
  append_assoc, length, length-append, get_or, get_or-append_right, drop, drop-append, All, some,
  arith,
}
use discodb.Diagnostic.IsoTp.{decode_iso_tp}
use discodb.Diagnostic.Services.{is_start}
use discodb.Diagnostic.Reassembly.{find_start, reassemble_from, reassemble_iso_tp}
use discodb.Diagnostic.Headers.{decode_consecutive}

abbrev pub Octets : List ℕ → Type 0
Octets bs = All (λ x. x < 256) bs

-- The consecutive frames that carry a rest `m` of a message, the next one with sequence number
-- `seq`: 7 bytes each, the last one filled up with any padding.
pub data Sends : ℕ → List ℕ → List (List ℕ) → Type 0 where
  sent : {seq : ℕ} → Sends seq [] []
  last : {seq : ℕ} (c pad : List ℕ) → length c ≤ 7 → Sends seq c (((0x20 + seq) ∷ (c ++ pad)) ∷ [])
  more :
      {seq : ℕ} {m : List ℕ} (c rest : List ℕ) {fs : List (List ℕ)}
      → length c ≡ 7
      → m ≡ c ++ rest
      → Sends ((seq + 1) % 16) rest fs
      → Sends seq m (((0x20 + seq) ∷ c) ∷ fs)

-- A frame at which no transfer starts.
abbrev pub IsLater : List ℕ → Type 0
IsLater f = is_start (decode_iso_tp f).kind ≡ false

pub Sends-IsLater :
    {seq : ℕ} {m : List ℕ} {fs : List (List ℕ)} → Sends seq m fs → seq < 16 → All IsLater fs
Sends-IsLater sent h = tt
Sends-IsLater {seq} (last c pad _) h = (rw (decode_consecutive seq (c ++ pad) h), tt)
Sends-IsLater {seq} (more c rest _ _ s) h =
    (rw (decode_consecutive seq c h), Sends-IsLater s (omega arith))

module _ (old : List (List ℕ)) (start : List ℕ) (later : List (List ℕ)) where
  abbrev frames : List (List ℕ)
  frames = old ++ start ∷ later

  frame_at : (j : ℕ) → get_or frames (length old + j) [] ≡ get_or (start ∷ later) j []
  frame_at j = get_or-append_right old (start ∷ later) j []

IsLater-get_or :
    (later : List (List ℕ)) (j : ℕ)
    → All IsLater later
    → j < length later
    → IsLater (get_or later j [])
IsLater-get_or [] j a h = absurd (omega arith)
IsLater-get_or (f ∷ fs) zero (p, a) h = p
IsLater-get_or (f ∷ fs) (suc j) (p, a) h = IsLater-get_or fs j a (omega arith)

find_start_from :
    (old : List (List ℕ)) (start : List ℕ) (later : List (List ℕ)) (j : ℕ)
    → is_start (decode_iso_tp start).kind ≡ true
    → All IsLater later
    → j ≤ length later
    → find_start (old ++ start ∷ later) (suc (length old + j)) ≡ some (length old)
unfolding find_start
find_start_from old start later zero s a h =
    let e : length old + 0 ≡ length old = omega arith in rw (frame_at old start later 0, s, e)
find_start_from old start later (suc j) s a h =
    let e : length old + suc j ≡ suc (length old + j) = omega arith in
    rw (frame_at old start later (suc j), IsLater-get_or later j a (omega arith))
      (ap (find_start (old ++ start ∷ later)) e
        ∙ find_start_from old start later j s a (omega arith))

-- The most recent transfer start, and the frames after it.
pub most_recent_start :
    (old : List (List ℕ)) (start : List ℕ) (later : List (List ℕ))
    → is_start (decode_iso_tp start).kind ≡ true
    → All IsLater later
    → let frames = old ++ start ∷ later in
      (find_start frames (length frames) ≡ some (length old))
      × (get_or frames (length old) [] ≡ start)
      × (drop (length old + 1) frames ≡ later)
most_recent_start old start later s a = (
  ap (find_start (old ++ start ∷ later)) (omega (arith, length-append old (start ∷ later)))
      ∙ find_start_from old start later (length later) s a (omega arith),
  ap (λ k. get_or (old ++ start ∷ later) k []) (omega arith) ∙ frame_at old start later 0,
  ap (drop (length old + 1)) (sym (append_assoc old (start ∷ []) later))
      ∙ drop-append (length old + 1) (old ++ start ∷ []) later
          (omega (arith, length-append old (start ∷ []))),
)

-- The most recent transfer start is where reassembly begins.
pub reassemble_from_start :
    (old : List (List ℕ)) (start : List ℕ) (later : List (List ℕ))
    → is_start (decode_iso_tp start).kind ≡ true
    → All IsLater later
    → reassemble_iso_tp (old ++ start ∷ later) ≡ reassemble_from start later
unfolding reassemble_iso_tp
reassemble_from_start old start later s a =
    let (found, head, tail) = most_recent_start old start later s a in
    rw (found, head, tail, reassemble_iso_tp)
