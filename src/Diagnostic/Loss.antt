-- ===== src/Diagnostic/Loss.antt =====
-- What frontend/shared/diagnostic.ts reports of any history, and of a transfer with a lost frame.
use discodb.Prelude.{
  All-append, get_or, ℕ, ◌+◌, ◌-◌, ◌/◌, ◌%◌, ◌<◌, ◌≡◌, ◌≢◌, ◌↔◌, ◌⊎◌, sym, ap, ap₂, ◌∙◌, true,
  false, List, [], ◌∷◌, ◌++◌, append-nil, append_assoc, length, length-append, take, length-take,
  drop, All, Option, none, some, ◌==◌, lt→ltb, arith, min, length-map, subst, bit_and,
}
use discodb.Diagnostic.IsoTp.{decode_iso_tp, single, IsoTpFrame, IsoTpKind}
use discodb.Diagnostic.Reassembly.{
  many_frames, no_start, out_of_order, Note, IsoTpReassembly, mask_bytes, or_zero, trim, find_start,
  gather, finish, nothing_found, reassemble_single, reassemble_from, reassemble_iso_tp,
}
use discodb.Diagnostic.Headers.{decode_first, decode_consecutive, mask_bytes_octets}
use discodb.Diagnostic.Sending.{Octets, IsLater, reassemble_from_start}
use discodb.Diagnostic.Transfer.{gather_next, All-append_inv}

-- What a reassembly says of itself.
pub record IsSound (r : IsoTpReassembly) : Type 0 where
  pub balance : length r.bytes + r.expected ≡ r.total_length
  pub completeness : (r.note ≡ some no_start) ⊎ ((r.complete ≡ true) ↔ (r.expected ≡ 0))
  pub explained : r.kind ≡ many_frames → (r.complete ≡ true) ↔ (r.note ≡ none)

length-trim : (total : ℕ) (bytes : List ℕ) → length (trim total bytes) ≡ min total (length bytes)
length-trim total bytes = ground (arith, length-take total bytes)

finish-IsSound : (total : ℕ) (p : List ℕ × Option Note) → IsSound (finish total p)
unfolding finish
finish-IsSound total (bytes, none) = ground (arith, length-trim total bytes)
finish-IsSound total (bytes, some n) = ground (arith, length-trim total bytes)

reassemble_single-IsSound : (f : List ℕ) (pci : IsoTpFrame) → IsSound (reassemble_single f pci)
unfolding reassemble_single
reassemble_single-IsSound f pci =
    let len = or_zero pci.total in
    ground (
      arith,
      length-map (λ b. bit_and b 0xff) (take len (drop pci.data_start f)),
      length-take len (drop pci.data_start f),
    )

IsSound-branch :
    (k : IsoTpKind) (a b : IsoTpReassembly)
    → IsSound a
    → IsSound b
    → IsSound (elim k [ single ↦ a | _ ↦ b ])
IsSound-branch single a b h j = h
IsSound-branch _ a b h j = j

reassemble_from-IsSound : (f : List ℕ) (later : List (List ℕ)) → IsSound (reassemble_from f later)
unfolding reassemble_from
reassemble_from-IsSound f later =
    let pci = decode_iso_tp f in
    IsSound-branch pci.kind _ _ (reassemble_single-IsSound f pci) (
      finish-IsSound (or_zero pci.total)
        (gather (or_zero pci.total) later (mask_bytes (drop pci.data_start f)) 1))

nothing_found-IsSound : IsSound nothing_found
nothing_found-IsSound = ground arith

IsSound-found :
    (o : Option ℕ) (r : ℕ → IsoTpReassembly)
    → ((i : ℕ) → IsSound (r i))
    → IsSound (elim o [ none ↦ nothing_found | some i ↦ r i ])
IsSound-found none r h = nothing_found-IsSound
IsSound-found (some i) r h = h i

-- For any history of frames: the bytes returned and those still expected add up to the length that
-- the transfer declares; unless no transfer start was found, the message is complete exactly when no
-- byte is expected; and a multi-frame result has a note exactly when it is incomplete.
pub reassemble_iso_tp-IsSound : (frames : List (List ℕ)) → IsSound (reassemble_iso_tp frames)
unfolding reassemble_iso_tp
reassemble_iso_tp-IsSound frames =
    IsSound-found (find_start frames (length frames))
      (λ i. reassemble_from (get_or frames i []) (drop (i + 1) frames))
      (λ i. reassemble_from-IsSound (get_or frames i []) (drop (i + 1) frames))

-- Full consecutive frames, 7 bytes each, from sequence number `seq` on; `next` is the number due
-- after them.
pub data Full : ℕ → List ℕ → List (List ℕ) → ℕ → Type 0 where
  none_yet : {seq next : ℕ} → seq ≡ next → Full seq [] [] next
  chunk :
      {seq next : ℕ} {m : List ℕ} (c rest : List ℕ) {fs : List (List ℕ)}
      → length c ≡ 7
      → m ≡ c ++ rest
      → Full ((seq + 1) % 16) rest fs next
      → Full seq m (((0x20 + seq) ∷ c) ∷ fs) next

Full-IsLater :
    {seq next : ℕ} {m : List ℕ} {fs : List (List ℕ)}
    → Full seq m fs next
    → seq < 16
    → All IsLater fs
Full-IsLater (none_yet e) h = tt
Full-IsLater {seq} (chunk c rest _ _ s) h =
    (rw (decode_consecutive seq c h), Full-IsLater s (omega arith))

gather-Full :
    {seq next : ℕ} {m : List ℕ} {fs : List (List ℕ)} (total : ℕ) (later : List (List ℕ))
    (bytes : List ℕ)
    → Full seq m fs next
    → seq < 16
    → Octets m
    → length bytes + length m < total
    → gather total (fs ++ later) bytes seq ≡ gather total later (bytes ++ m) next
gather-Full total later bytes (none_yet e) s a h =
    ap₂ (λ l n. gather total later l n) (sym (append-nil bytes)) e
gather-Full {seq} {next} total later bytes (chunk {m = m} c rest {fs} l e st) s a h =
    let parts = All-append_inv (λ x. x < 256) c rest (subst Octets e a) in
    gather_next total c (fs ++ later) bytes seq (omega arith) s
    ∙ ap (λ t. gather total (fs ++ later) (bytes ++ t) ((seq + 1) % 16))
        (mask_bytes_octets c parts.0)
    ∙ gather-Full total later (bytes ++ c) st (omega arith) parts.1
        (omega (arith, ap length e, length-append c rest, length-append bytes c))
    ∙ ap (λ t. gather total later t next) (append_assoc bytes c rest ∙ ap (λ t. bytes ++ t) (sym e))

-- A consecutive frame that is not the one due stops the reassembly.
gather_lost :
    (total : ℕ) (c : List ℕ) (fs : List (List ℕ)) (bytes : List ℕ) (due seen : ℕ)
    → length bytes < total
    → seen < 16
    → seen ≢ due
    → gather total (((0x20 + seen) ∷ c) ∷ fs) bytes due
      ≡ (bytes, some (out_of_order due (some seen)))
unfolding gather
gather_lost total c fs bytes due seen h s ne =
    let differs : (seen == due) ≡ false = ground arith in
    rw (decode_consecutive seen c s, lt→ltb (length bytes) total h, differs)

finish_lost :
    (total : ℕ) (bytes : List ℕ) (n : Note)
    → length bytes < total
    → finish total (bytes, some n) ≡ record {
      kind = many_frames;
      total_length = total;
      bytes = bytes;
      complete = false;
      expected = total - length bytes;
      note = some n;
    }
unfolding finish
finish_lost total bytes n h = ground arith

Full-next :
    {seq next : ℕ} {m : List ℕ} {fs : List (List ℕ)} → Full seq m fs next → seq < 16 → next < 16
Full-next (none_yet e) h = omega arith
Full-next (chunk c rest _ _ s) h = Full-next s (omega arith)

-- A transfer of a message of `n` bytes, of which the first frame brought 6 and full consecutive
-- frames brought `m`, breaks off at a consecutive frame with another sequence number than the one
-- due: the bytes received so far are returned as an incomplete message, with the number of bytes
-- missing and both sequence numbers, whatever frames came before or follow without starting a
-- transfer.
pub reassemble_lost :
    (old : List (List ℕ)) (n due seen : ℕ) (head m c : List ℕ) {fs : List (List ℕ)}
    (later : List (List ℕ))
    → length head ≡ 6
    → 6 + length m < n
    → n < 4096
    → Octets head
    → Octets m
    → Full 1 m fs due
    → seen < 16
    → seen ≢ due
    → All IsLater later
    → reassemble_iso_tp
        (old ++ ((0x10 + n / 256) ∷ (n % 256) ∷ head) ∷ (fs ++ ((0x20 + seen) ∷ c) ∷ later))
      ≡ record {
        kind = many_frames;
        total_length = n;
        bytes = head ++ m;
        complete = false;
        expected = n - (6 + length m);
        note = some (out_of_order due (some seen));
      }
unfolding reassemble_from
reassemble_lost old n due seen head m c {fs} later six wanting small a b full s ne quiet =
    let start = (0x10 + n / 256) ∷ (n % 256) ∷ head in
    let rest = ((0x20 + seen) ∷ c) ∷ later in
    let pci = decode_first n head small in
    let size = length-append head m in
    let gathered : gather n (fs ++ rest) head 1 ≡ (head ++ m, some (out_of_order due (some seen))) =
      gather-Full n rest head full (omega arith) b (omega arith)
      ∙ gather_lost n c later (head ++ m) due seen (omega (arith, size)) s ne in
    let missing : n - length (head ++ m) ≡ n - (6 + length m) = omega (arith, size) in
    reassemble_from_start old start (fs ++ rest) (rw pci) (
      All-append IsLater fs rest (Full-IsLater full (omega arith))
        (rw (decode_consecutive seen c s), quiet))
    ∙ rw (pci, reassemble_from)
        (rw (pci, mask_bytes_octets head a, gathered)
          (finish_lost n (head ++ m) (out_of_order due (some seen)) (omega (arith, size))
            ∙ ap
                (λ k. record {
                  kind = many_frames;
                  total_length = n;
                  bytes = head ++ m;
                  complete = false;
                  expected = k;
                  note = some (out_of_order due (some seen));
                })
                missing))
