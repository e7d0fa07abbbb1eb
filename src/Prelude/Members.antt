-- ===== src/Prelude/Members.antt =====
-- Membership as a test, and lists without repetition.
use mathlib.Core.Path.{◌≡◌, refl}
use mathlib.Core.Logic.{◌≢◌, ite, if_pos, if_neg}
use mathlib.Core.Bool.{Bool, true, false}
use mathlib.Core.List.{List, [], ◌∷◌, ◌++◌}
use native.Mathlib.Omega.{arith}
use wire_protocols.Prelude.Lists.{remove_all}

module _ {A : Type 0} (eq : Discrete A) where
  abbrev pub member : A → List A → Bool
  member a [] = false
  member a (x ∷ xs) = let rest = member a xs in ite (eq x a) true rest

  -- No element stands twice in the list.
  abbrev pub Distinct : List A → Type 0
  Distinct [] = Unit {0}
  Distinct (x ∷ xs) = (member x xs ≡ false) × Distinct xs

  pub member-cons_later : (a b : A) (xs : List A) → member a xs ≡ true → member a (b ∷ xs) ≡ true
  member-cons_later a b xs e = ground (arith, e)

  pub member-append_one :
      (a b : A) (xs : List A) → member a (xs ++ (b ∷ [])) ≡ ite (eq b a) true (member a xs)
  member-append_one a b [] = refl
  member-append_one a b (x ∷ xs) = ground (arith, member-append_one a b xs)

  pub member-remove_all_self : (a : A) (xs : List A) → member a (remove_all eq a xs) ≡ false
  unfolding remove_all
  member-remove_all_self a [] = refl
  member-remove_all_self a (x ∷ xs) = ground (arith, member-remove_all_self a xs)

  pub member-remove_all_ne :
      (a b : A) (xs : List A) → a ≢ b → member b (remove_all eq a xs) ≡ member b xs
  unfolding remove_all
  member-remove_all_ne a b [] ne = refl
  member-remove_all_ne a b (x ∷ xs) ne = ground (arith, member-remove_all_ne a b xs ne)

  pub member_of-remove_all :
      (a b : A) (xs : List A) → member b (remove_all eq a xs) ≡ true → member b xs ≡ true
  unfolding remove_all
  member_of-remove_all a b [] e = e
  member_of-remove_all a b (x ∷ xs) e = ground (arith, member_of-remove_all a b xs)

  unlisted-remove_all :
      (a b : A) (xs : List A) → member b xs ≡ false → member b (remove_all eq a xs) ≡ false
  unfolding remove_all
  unlisted-remove_all a b [] e = refl
  unlisted-remove_all a b (x ∷ xs) e = ground (arith, unlisted-remove_all a b xs)

  pub Distinct-remove_all : (a : A) (xs : List A) → Distinct xs → Distinct (remove_all eq a xs)
  unfolding remove_all
  Distinct-remove_all a [] d = tt
  Distinct-remove_all a (x ∷ xs) (fresh, d) = elim (eq x a) [
    | yes p ↦ rw (if_pos _ p) (Distinct-remove_all a xs d)
    | no p ↦ rw (if_neg _ p) (unlisted-remove_all a x xs fresh, Distinct-remove_all a xs d)
  ]
