-- ===== src/Prelude/Lists.antt =====
-- Lists measured and cut by native numbers, under the library's names.
use Prim.Native.Nat.{ℕ, zero, suc, ◌+◌, ◌-◌, ◌<◌, ◌≤◌}
use mathlib.Core.Path.{◌≡◌, refl, sym, ap, ◌∙◌}
use mathlib.Core.List.{List, [], ◌∷◌, ◌++◌}
use mathlib.Core.Option.{Option, none, some}
use mathlib.Core.Bool.{Bool, true, false}
use mathlib.Core.Logic.{ite}
use native.Mathlib.Omega.{arith}

module _ {ℓ} {A : Type ℓ} where
  abbrev pub length : List A → ℕ
  length [] = 0
  length (x ∷ xs) = suc (length xs)

  abbrev pub take : ℕ → List A → List A
  take zero xs = []
  take (suc n) [] = []
  take (suc n) (x ∷ xs) = x ∷ take n xs

  abbrev pub drop : ℕ → List A → List A
  drop zero xs = xs
  drop (suc n) [] = []
  drop (suc n) (x ∷ xs) = drop n xs

  abbrev pub get_elem? : List A → ℕ → Option A
  get_elem? [] i = none
  get_elem? (x ∷ xs) zero = some x
  get_elem? (x ∷ xs) (suc i) = get_elem? xs i

  abbrev pub is_some : Option A → Bool
  is_some none = false
  is_some (some a) = true

  abbrev pub All {κ} : (A → Type κ) → List A → Type κ
  All P [] = Unit {κ}
  All P (x ∷ xs) = P x × All P xs

  pub All-Unit : (xs : List A) → All (λ x. Unit {0}) xs
  All-Unit [] = tt
  All-Unit (x ∷ xs) = (tt, All-Unit xs)

  pub length-append : (xs ys : List A) → length (xs ++ ys) ≡ length xs + length ys
  length-append [] ys = omega arith
  length-append (x ∷ xs) ys = omega (arith, length-append xs ys)

  pub take-append : (xs ys : List A) → take (length xs) (xs ++ ys) ≡ xs
  take-append [] ys = refl
  take-append (x ∷ xs) ys = ap (◌∷◌ x) (take-append xs ys)

  pub take-drop : (n : ℕ) (xs : List A) → take n xs ++ drop n xs ≡ xs
  take-drop zero xs = refl
  take-drop (suc n) [] = refl
  take-drop (suc n) (x ∷ xs) = ap (◌∷◌ x) (take-drop n xs)

  pub length-take : (n : ℕ) (xs : List A) → n ≤ length xs → length (take n xs) ≡ n
  length-take zero xs h = refl
  length-take (suc n) [] h = absurd (omega arith)
  length-take (suc n) (x ∷ xs) h = omega (arith, length-take n xs (omega arith))

  pub drop-append : (xs ys : List A) → drop (length xs) (xs ++ ys) ≡ ys
  drop-append [] ys = refl
  drop-append (x ∷ xs) ys = drop-append xs ys

  drop-nil : (n : ℕ) → drop n (let xs : List A = [] in xs) ≡ []
  drop-nil zero = refl
  drop-nil (suc n) = refl

  drop-suc_add : (m n : ℕ) (xs : List A) → drop (suc m + n) xs ≡ drop (suc (m + n)) xs
  drop-suc_add m n xs = let e : suc m + n ≡ suc (m + n) = omega arith in ap (λ k. drop k xs) e

  pub drop-drop : (m n : ℕ) (xs : List A) → drop n (drop m xs) ≡ drop (m + n) xs
  drop-drop zero n xs = ap (λ k. drop k xs) (omega arith)
  drop-drop (suc m) n [] = drop-nil n ∙ sym (drop-suc_add m n [])
  drop-drop (suc m) n (x ∷ xs) = drop-drop m n xs ∙ sym (drop-suc_add m n (x ∷ xs))

  pub get_elem?-drop :
      (n : ℕ) (xs : List A) {x : A} {ys : List A} → drop n xs ≡ x ∷ ys → get_elem? xs n ≡ some x
  get_elem?-drop zero [] e = cc
  get_elem?-drop zero (x ∷ xs) e = cc
  get_elem?-drop (suc n) [] e = cc
  get_elem?-drop (suc n) (x ∷ xs) e = get_elem?-drop n xs e

  -- What stands behind a position lies inside the list.
  pub length-drop_pos :
      (n : ℕ) (xs : List A) {x : A} {ys : List A} → drop n xs ≡ x ∷ ys → n < length xs
  length-drop_pos zero [] e = cc
  length-drop_pos zero (x ∷ xs) e = omega arith
  length-drop_pos (suc n) [] e = cc
  length-drop_pos (suc n) (x ∷ xs) e = omega (arith, length-drop_pos n xs e)

  pub length-drop : (n : ℕ) (xs : List A) → length (drop n xs) ≡ length xs - n
  length-drop zero xs = omega arith
  length-drop (suc n) [] = omega arith
  length-drop (suc n) (x ∷ xs) = omega (arith, length-drop n xs)

  pub get_elem?-past : (xs : List A) (i : ℕ) → length xs ≤ i → get_elem? xs i ≡ none
  get_elem?-past [] i h = refl
  get_elem?-past (x ∷ xs) zero h = absurd (omega arith)
  get_elem?-past (x ∷ xs) (suc i) h = get_elem?-past xs i (omega arith)

  -- `erase(remove_if(...))` of every element that equals `a`.
  unfoldable pub remove_all : Discrete A → A → List A → List A
  remove_all d a [] = []
  remove_all d a (x ∷ xs) = let rest = remove_all d a xs in ite (d x a) rest (x ∷ rest)

  -- `find`, and `erase` of what it found.
  unfoldable pub remove_first : Discrete A → A → List A → List A
  remove_first d a [] = []
  remove_first d a (x ∷ xs) = let rest = remove_first d a xs in ite (d x a) xs (x ∷ rest)

  abbrev pub flatten : List (List A) → List A
  flatten [] = []
  flatten (xs ∷ xss) = xs ++ flatten xss

  -- Taking and dropping inside the first part of a list.
  pub take-append_le : (n : ℕ) (xs ys : List A) → n ≤ length xs → take n xs ≡ take n (xs ++ ys)
  take-append_le zero xs ys h = refl
  take-append_le (suc n) [] ys h = absurd (omega arith)
  take-append_le (suc n) (x ∷ xs) ys h = ap (◌∷◌ x) (take-append_le n xs ys (omega arith))

  pub drop-append_le :
      (n : ℕ) (xs ys : List A) → n ≤ length xs → drop n xs ++ ys ≡ drop n (xs ++ ys)
  drop-append_le zero xs ys h = refl
  drop-append_le (suc n) [] ys h = absurd (omega arith)
  drop-append_le (suc n) (x ∷ xs) ys h = drop-append_le n xs ys (omega arith)
