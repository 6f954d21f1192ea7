-- ===== src/Messages/Values.antt =====
-- The value that a frame is grouped by (frontend/cockpit/src/protocol/messages.ts), and a map by it.
use discodb.Prelude.{
  number_of, ℤ, pos, negsuc, ℕ, zero, suc, ◌+◌, ◌-◌, ◌/◌, ◌≡◌, refl, ap, ◌∙◌, max, Bool, true,
  false, ◌||◌, List, [], ◌∷◌, length, Option, none, some, ltb, ◌==◌, if◌then◌else◌, if-cases,
  Bool-cases, inl, inr,
}
use discodb.FrameRing.Defs.{FrameView}
use discodb.Signal.Defs.{BitRange, extract_raw, byte_of}

infixl 5 ◌>>=◌
abbrev pub ◌>>=◌ : {A B : Type 0} → Option A → (A → Option B) → Option B
none >>= f = none
some a >>= f = f a

-- A `MessageIdField` is a bit range. Its last byte, and whether a payload reaches as far: a field of
-- no bit at 0 ends before the first byte.
abbrev pub reaches : BitRange → List ℕ → Bool
reaches field bs =
    (field.bit_start + field.bit_length == 0)
    || ltb (byte_of (field.bit_start + field.bit_length - 1)) (length bs)

abbrev pub bytes_from : ℕ → ℕ → List ℕ
bytes_from b zero = []
bytes_from b (suc n) = b ∷ bytes_from (b + 1) n

unfoldable pub field_bytes : BitRange → List ℕ
field_bytes field =
    let start = byte_of field.bit_start in
    let end = byte_of (field.bit_start + field.bit_length - 1) in
    bytes_from start (if field.bit_start + field.bit_length == 0 then 0 else end + 1 - start)

unfoldable pub field_hex_width : BitRange → ℕ
field_hex_width field = max 1 ((field.bit_length + 3) / 4)

-- `Number` of the raw value, and -1 for a frame that is too short; `none` is the RangeError of
-- `extractRaw`.
unfoldable pub field_value_of : BitRange → FrameView → Option ℤ
field_value_of field f =
    if reaches field f.bytes
    then extract_raw f.bytes field >>= (λ raw. some (number_of raw))
    else some (negsuc 0)

abbrev pub is_same : ℤ → ℤ → Bool
is_same (pos a) (pos b) = a == b
is_same (negsuc a) (negsuc b) = a == b
is_same (pos a) (negsuc b) = false
is_same (negsuc a) (pos b) = false

abbrev pub is_below : ℤ → ℤ → Bool
is_below (pos a) (pos b) = ltb a b
is_below (negsuc a) (negsuc b) = ltb b a
is_below (negsuc a) (pos b) = true
is_below (pos a) (negsuc b) = false

-- A `Map`, in the order in which its keys came. The entry of `v` is made if it is missing, then
-- changed.
abbrev pub upsert : {A : Type 0} → ℤ → A → (A → A) → List (ℤ × A) → List (ℤ × A)
upsert v new f [] = (v, f new) ∷ []
upsert v new f (e ∷ es) = if is_same e.0 v then (e.0, f e.1) ∷ es else e ∷ upsert v new f es

abbrev pub insert_value : {A : Type 0} → ℤ × A → List (ℤ × A) → List (ℤ × A)
insert_value e [] = e ∷ []
insert_value e (d ∷ es) = if is_below d.0 e.0 then d ∷ insert_value e es else e ∷ d ∷ es

-- The entries by value, the least first; no value occurs twice.
abbrev pub sort_values : {A : Type 0} → List (ℤ × A) → List (ℤ × A)
sort_values [] = []
sort_values (e ∷ es) = insert_value e (sort_values es)

module _ {A B : Type 0} (g : A → B) where
  abbrev pub map_entries : List (ℤ × A) → List (ℤ × B)
  map_entries [] = []
  map_entries (e ∷ es) = (e.0, g e.1) ∷ map_entries es

  pub map_entries-upsert :
      (v : ℤ) (new : A) (f : A → A) (h : B → B)
      → ((a : A) → g (f a) ≡ h (g a))
      → (es : List (ℤ × A)) → map_entries (upsert v new f es) ≡ upsert v (g new) h (map_entries es)
  map_entries-upsert v new f h c [] = ap (λ b. (v, b) ∷ []) (c new)
  map_entries-upsert v new f h c (e ∷ es) = elim (Bool-cases (is_same e.0 v)) [
    | inl t ↦ rw t (ap (λ b. (e.0, b) ∷ map_entries es) (c e.1))
    | inr t ↦ rw t (ap (λ l. (e.0, g e.1) ∷ l) (map_entries-upsert v new f h c es))
  ]

  map_entries-insert_value :
      (e : ℤ × A) (es : List (ℤ × A))
      → map_entries (insert_value e es) ≡ insert_value (e.0, g e.1) (map_entries es)
  map_entries-insert_value e [] = refl
  map_entries-insert_value e (d ∷ es) = elim (Bool-cases (is_below d.0 e.0)) [
    | inl t ↦ rw t (ap (λ l. (d.0, g d.1) ∷ l) (map_entries-insert_value e es))
    | inr t ↦ rw t refl
  ]

  pub map_entries-sort_values :
      (es : List (ℤ × A)) → map_entries (sort_values es) ≡ sort_values (map_entries es)
  map_entries-sort_values [] = refl
  map_entries-sort_values (e ∷ es) =
      map_entries-insert_value e (sort_values es)
      ∙ ap (λ l. insert_value (e.0, g e.1) l) (map_entries-sort_values es)

  pub length-map_entries : (es : List (ℤ × A)) → length (map_entries es) ≡ length es
  length-map_entries [] = refl
  length-map_entries (e ∷ es) = ap (λ n. suc n) (length-map_entries es)

length-insert_value :
    {A : Type 0} (e : ℤ × A) (es : List (ℤ × A)) → length (insert_value e es) ≡ suc (length es)
length-insert_value e [] = refl
length-insert_value e (d ∷ es) =
    if-cases (λ (l : List _). length l ≡ suc (length (d ∷ es))) (is_below d.0 e.0)
      (λ _. ap (λ n. suc n) (length-insert_value e es)) (λ _. refl)

pub length-sort_values : {A : Type 0} (es : List (ℤ × A)) → length (sort_values es) ≡ length es
length-sort_values [] = refl
length-sort_values (e ∷ es) =
    length-insert_value e (sort_values es) ∙ ap (λ n. suc n) (length-sort_values es)
