-- ===== src/Prelude/Selections.antt =====
-- Filtered lists, and lists read from an index on.
use Prim.Native.Nat.{ℕ, zero, suc, ◌+◌, ◌<◌, ◌≤◌}
use mathlib.Core.Path.{◌≡◌, refl, ap, ◌∙◌}
use mathlib.Core.Bool.{Bool}
use mathlib.Core.List.{List, [], ◌∷◌, ◌++◌}
use mathlib.Core.Option.{none, some, some-injective, none-ne-some}
use native.Mathlib.Omega.{arith}
use discodb.Prelude.Tests.{if◌then◌else◌}
use discodb.Prelude.Lists.{length, get_elem?, drop}

module _ {ℓ} {A : Type ℓ} where
  abbrev pub filter : (A → Bool) → List A → List A
  filter p [] = []
  filter p (x ∷ xs) = if p x then x ∷ filter p xs else filter p xs

  pub drop-step :
      (xs : List A) (k : ℕ) (x : A) → get_elem? xs k ≡ some x → drop k xs ≡ x ∷ drop (k + 1) xs
  drop-step [] k x h = absurd (none-ne-some x h)
  drop-step (y ∷ xs) zero x h = ap (λ z. z ∷ xs) (some-injective y x h)
  drop-step (y ∷ xs) (suc k) x h =
      drop-step xs k x h
      ∙ ap (λ m. x ∷ drop m (y ∷ xs)) {x = suc (k + 1)} {y = suc k + 1} (omega arith)

  pub drop_past : (xs : List A) (k : ℕ) → length xs ≤ k → drop k xs ≡ []
  drop_past [] zero h = refl
  drop_past [] (suc k) h = refl
  drop_past (x ∷ xs) zero h = absurd (omega arith)
  drop_past (x ∷ xs) (suc k) h = drop_past xs k (omega arith)

  pub get_elem?-append_left :
      (xs ys : List A) (k : ℕ) → k < length xs → get_elem? (xs ++ ys) k ≡ get_elem? xs k
  get_elem?-append_left [] ys k h = absurd (omega arith)
  get_elem?-append_left (x ∷ xs) ys zero h = refl
  get_elem?-append_left (x ∷ xs) ys (suc k) h = get_elem?-append_left xs ys k (omega arith)

  pub get_elem?-append_last :
      (xs : List A) (x : A) → get_elem? (xs ++ (x ∷ [])) (length xs) ≡ some x
  get_elem?-append_last [] x = refl
  get_elem?-append_last (y ∷ xs) x = get_elem?-append_last xs x

  pub get_elem?-drop : (xs : List A) (m k : ℕ) → get_elem? (drop m xs) k ≡ get_elem? xs (m + k)
  get_elem?-drop xs zero k = ap (get_elem? xs) (omega arith)
  get_elem?-drop [] (suc m) k = refl
  get_elem?-drop (x ∷ xs) (suc m) k =
      get_elem?-drop xs m k
      ∙ ap (get_elem? (x ∷ xs)) {x = suc (m + k)} {y = suc m + k} (omega arith)

  pub get_elem?_past : (xs : List A) (k : ℕ) → length xs ≤ k → get_elem? xs k ≡ none
  get_elem?_past [] k h = refl
  get_elem?_past (x ∷ xs) zero h = absurd (omega arith)
  get_elem?_past (x ∷ xs) (suc k) h = get_elem?_past xs k (omega arith)
