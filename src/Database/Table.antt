-- ===== src/Database/Table.antt =====
-- `std::unordered_map`, in the order in which it iterates. A shared object is changed through its
-- pointer, which is `update` here: the table is the only place that the server keeps it in.
use wire_protocols.Prelude.{
  ◌≡◌, refl, sym, ◌∙◌, ◌≢◌, ◌⊎◌, ite, Option, none, some, List, [], ◌∷◌, arith, if_pos, if_neg, inl,
  inr, Option-cases, subst,
}
use mathlib.Core.Option
use mathlib.Core.Logic.{apply_ite}

module _ {ℓ} {K V : Type ℓ} (eq : Discrete K) where
  -- `find`, and `at` where it is there.
  unfoldable pub find : K → List (K × V) → Option V
  find k [] = none
  find k ((j, v) ∷ t) = let rest = find k t in ite (eq j k) (some v) rest

  -- `insert` leaves an entry that is there as it is.
  unfoldable pub insert : K → V → List (K × V) → List (K × V)
  insert k v t = elim (find k t) [ none ↦ (k, v) ∷ t | some w ↦ t ]

  -- `erase`
  unfoldable pub erase : K → List (K × V) → List (K × V)
  erase k [] = []
  erase k ((j, v) ∷ t) = let rest = erase k t in ite (eq j k) rest ((j, v) ∷ rest)

  -- A change of the object that `k` points to.
  unfoldable pub update : K → (V → V) → List (K × V) → List (K × V)
  update k f [] = []
  update k f ((j, v) ∷ t) =
      let rest = update k f t in ite (eq j k) ((j, f v) ∷ rest) ((j, v) ∷ rest)

  pub find-insert_fresh :
      (k j : K) (v : V) (t : List (K × V))
      → find k t ≡ none
      → find j (insert k v t) ≡ ite (eq k j) (some v) (find j t)
  unfolding find insert
  find-insert_fresh k j v t e = rw (e, insert)

  pub insert_present : (k : K) (v w : V) (t : List (K × V)) → find k t ≡ some w → insert k v t ≡ t
  unfolding insert
  insert_present k v w t e = rw (e, insert)

  pub find-erase_self : (k : K) (t : List (K × V)) → find k (erase k t) ≡ none
  unfolding find erase
  find-erase_self k [] = refl
  find-erase_self k ((j, v) ∷ t) = ground (arith, find-erase_self k t)

  pub find-erase_ne : (k j : K) (t : List (K × V)) → k ≢ j → find j (erase k t) ≡ find j t
  unfolding find erase
  find-erase_ne k j [] ne = refl
  find-erase_ne k j ((i, v) ∷ t) ne = ground (arith, find-erase_ne k j t ne)

  pub find-update_self :
      (k : K) (f : V → V) (t : List (K × V)) → find k (update k f t) ≡ Option.map f (find k t)
  unfolding find update
  find-update_self k f [] = refl
  find-update_self k f ((j, v) ∷ t) = ground (arith, find-update_self k f t)

  pub find-update_ne :
      (k j : K) (f : V → V) (t : List (K × V)) → k ≢ j → find j (update k f t) ≡ find j t
  unfolding find update
  find-update_ne k j f [] ne = refl
  find-update_ne k j f ((i, v) ∷ t) ne = ground (arith, find-update_ne k j f t ne)

  find-update :
      (k j : K) (f : V → V) (t : List (K × V))
      → find j (update k f t) ≡ ite (eq k j) (Option.map f (find j t)) (find j t)
  find-update k j f t = elim (eq k j) [
    | yes p ↦
        rw (if_pos _ p)
          (subst (λ i. find i (update k f t) ≡ Option.map f (find i t)) p (find-update_self k f t))
    | no p ↦ rw (if_neg _ p) (find-update_ne k j f t p)
  ]

  -- What is found after a change was there before it.
  pub found-update :
      (k j : K) (f : V → V) (t : List (K × V)) (w : V)
      → find j (update k f t) ≡ some w
      → (v : V) × (find j t ≡ some v) × (w ≡ ite (eq k j) (f v) v)
  found-update k j f t w e = elim (Option-cases (find j t)) [
    | inl gone ↦
        let mapped : ite (eq k j) none none ≡ some w =
          subst (λ o. ite (eq k j) (Option.map f o) o ≡ some w) gone
            (sym (find-update k j f t) ∙ e) in
        elim (eq k j) [
          | yes p ↦ cc (if_pos {C = Option V} (eq k j) p none none)
          | no p ↦ cc (if_neg {C = Option V} (eq k j) p none none)
        ]
    | inr (v, there) ↦
        let mapped : ite (eq k j) (some (f v)) (some v) ≡ some w =
          subst (λ o. ite (eq k j) (Option.map f o) o ≡ some w) there
            (sym (find-update k j f t) ∙ e) in
        let whole : some (ite (eq k j) (f v) v) ≡ some w =
          apply_ite some (eq k j) (f v) v ∙ mapped in
        (v, there, cc)
  ]

  -- What is found after an erasure was there before it, under another key.
  pub found-erase :
      (k j : K) (t : List (K × V)) (w : V)
      → find j (erase k t) ≡ some w
      → (k ≢ j) × (find j t ≡ some w)
  found-erase k j t w e = elim (eq k j) [
    | yes p ↦ let gone = subst (λ i. find i (erase k t) ≡ none) p (find-erase_self k t) in cc
    | no p ↦ (p, sym (find-erase_ne k j t p) ∙ e)
  ]

  pub missing-update :
      (k j : K) (f : V → V) (t : List (K × V)) → find j (update k f t) ≡ none → find j t ≡ none
  missing-update k j f t e = elim (Option-cases (find j t)) [
    | inl gone ↦ gone
    | inr (v, there) ↦
        let mapped : ite (eq k j) (some (f v)) (some v) ≡ none =
          subst (λ o. ite (eq k j) (Option.map f o) o ≡ none) there
            (sym (find-update k j f t) ∙ e) in
        cc (apply_ite some (eq k j) (f v) v)
  ]

  -- What is found after an insertion is the new entry or was there before it.
  pub found-insert :
      (k j : K) (v : V) (t : List (K × V)) (w : V)
      → find k t ≡ none
      → find j (insert k v t) ≡ some w
      → ((k ≡ j) × (v ≡ w)) ⊎ ((k ≢ j) × (find j t ≡ some w))
  found-insert k j v t w fresh e =
      let found = sym (find-insert_fresh k j v t fresh) ∙ e in
      elim (eq k j) [
        | yes p ↦ inl (p, cc (if_pos (eq k j) p (some v) (find j t)))
        | no p ↦ inr (p, sym (if_neg (eq k j) p (some v) (find j t)) ∙ found)
      ]

  pub missing-insert :
      (k j : K) (v : V) (t : List (K × V))
      → find k t ≡ none
      → find j (insert k v t) ≡ none
      → (k ≢ j) × (find j t ≡ none)
  missing-insert k j v t fresh e =
      let found = sym (find-insert_fresh k j v t fresh) ∙ e in
      elim (eq k j) [
        | yes p ↦ cc (if_pos (eq k j) p (some v) (find j t))
        | no p ↦ (p, sym (if_neg (eq k j) p (some v) (find j t)) ∙ found)
      ]

  erase_absent : (k : K) (t : List (K × V)) → find k t ≡ none → erase k t ≡ t
  unfolding find erase
  erase_absent k [] e = refl
  erase_absent k ((j, v) ∷ t) e = ground (arith, erase_absent k t)

  -- An entry that was not there is erased without a trace.
  pub erase-insert :
      (k : K) (v : V) (t : List (K × V)) → find k t ≡ none → erase k (insert k v t) ≡ t
  unfolding insert erase
  erase-insert k v t e =
      rw (e, insert)
        (elim (eq k k) [ yes p ↦ rw (if_pos _ p) (erase_absent k t e) | no p ↦ absurd (p refl) ])
