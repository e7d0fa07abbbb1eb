-- ===== src/Json/Responses/Variants.antt =====
-- A response's value or error through its JSON text, in the two forms of the classes.
use wire_protocols.Prelude.{
  ℕ, ◌<◌, ◌≡◌, ◌≢◌, refl, ap, true, false, Option, some, List, [], ◌∷◌, map, All, codes, arith,
  ℕ_discrete, if_pos, if_neg,
}
use wire_protocols.Prelude.Try.{◌>>=◌}
use wire_protocols.Wire.{Bytes, bytes_discrete}
use wire_protocols.Responses.{Variant, success, failure, map_variant}
use wire_protocols.Json.{Library, IsLawful, assign, text_at}
use wire_protocols.Json.Laws.{
  Carries, text_at-object, bool_at-object, at-object, contains-object, dump_object-Carries,
}
use wire_protocols.Json.Responses.{
  error_fields, error_at, nested, unnested, nested_all, unnested_all, named_to_json,
  named_from_json, flagged_to_json, flagged_from_json, registered_to_json, registered_from_json,
}

abbrev pub first : Bytes → ℕ
first [] = 0
first (c ∷ s) = c

-- A key beside those of the error and of the flag.
pub record IsKey (key : Bytes) : Type 0 where
  pub ascii : All (λ c. c < 128) key
  pub not_error : first (codes "error") ≢ first key
  pub not_success : first key ≢ first (codes "success")

apart : (k l : Bytes) → first k ≢ first l → k ≢ l
apart k l ne e = ne (ap first e)

module _ (L : Library) (lawful : IsLawful L) where
  open lawful use {
    Text, IsClean, of_text-IsClean, of_bool-IsClean, of_array-IsClean, get_text-of_text,
    items-of_array,
  }

  abbrev pub IsJsonVariant {ℓ} : {A : Type ℓ} → (A → Type 0) → Variant A → Type 0
  IsJsonVariant P (success a) = P a
  IsJsonVariant P (failure e) = Text e

  -- A value is placed in the object as `to`, and `from` takes it back as `a`.
  abbrev pub Places : {A : Type 0} → Option L.Value → (L.Value → Option A) → A → Type 0
  Places to from a = (v : L.Value) × (to ≡ some v) × IsClean v × (from v ≡ some a)

  pub nested-Places :
      {A : Type 0} (to : A → Option Bytes) (from : Bytes → Option A) (a b : A)
      → Carries L lawful (to a) from b
      → Places (nested L to a) (unnested L from) b
  unfolding nested unnested
  nested-Places to from a b (s, written, text, back) = (
    L.of_text s,
    rw (written, ◌>>=◌) refl,
    of_text-IsClean s text,
    rw (get_text-of_text s, ◌>>=◌) back,
  )

  pub nested_all-values :
      {A : Type 0} {P : A → Type 0} (to : A → Option Bytes) (from : Bytes → Option A) (f : A → A)
      → ((a : A) → P a → Carries L lawful (to a) from (f a))
      → (xs : List A) → All P xs
      → (vs : List L.Value) × (nested_all L to xs ≡ some vs)
        × All IsClean vs
        × (unnested_all L from vs ≡ some (map f xs))
  unfolding nested_all unnested_all
  nested_all-values to from f carries [] h = ([], refl, tt, refl)
  nested_all-values to from f carries (x ∷ xs) (hx, hxs) =
      let (v, placed, clean, back) = nested-Places to from x (f x) (carries x hx) in
      let (vs, placed_all, clean_all, back_all) = nested_all-values to from f carries xs hxs in
      (
        v ∷ vs,
        rw (placed, placed_all, ◌>>=◌) refl,
        (clean, clean_all),
        rw (back, back_all, ◌>>=◌) refl,
      )

  error_at-object :
      {A : Type 0} (fields : List (Bytes × L.Value)) (e : Bytes)
      → text_at L (codes "error") (assign L fields L.null) ≡ some e
      → error_at L {A = A} (assign L fields L.null) ≡ some (failure e)
  unfolding error_at
  error_at-object fields e h = rw (h, ◌>>=◌) refl

  module _ {A : Type 0} (key : Bytes) (valid : IsKey key) where
    pub named-Carries :
        {P : A → Type 0} (to : A → Option L.Value) (from : L.Value → Option A) (f : A → A)
        → ((a : A) → P a → Places (to a) from (f a))
        → (r : Variant A) → IsJsonVariant P r
        → Carries L lawful (named_to_json L key to r) (named_from_json L key from) (map_variant f r)
    unfolding named_to_json named_from_json error_fields
    named-Carries to from f places (success a) h =
        let (v, placed, clean, back) = places a h in
        let fields : List (Bytes × L.Value) = (key, v) ∷ [] in
        rw (placed, ◌>>=◌)
          (dump_object-Carries L lawful fields _ (success (f a)) (valid.ascii, tt) (clean, tt)
            (rw
              (
                contains-object L lawful key fields,
                if_pos (bytes_discrete key key) refl true false,
                at-object L lawful key fields v (if_pos (bytes_discrete key key) refl (some v) _),
                ◌>>=◌,
                back,
              )
              refl))
    named-Carries to from f places (failure e) h =
        let fields = error_fields L e in
        dump_object-Carries L lawful fields _ (failure e) (omega arith) (of_text-IsClean e h, tt)
          (rw
            (
              contains-object L lawful key fields,
              if_neg (bytes_discrete (codes "error") key) (apart _ _ valid.not_error) true false,
              error_at-object fields e (
                  text_at-object L lawful (codes "error") fields e (
                    if_pos (bytes_discrete (codes "error") (codes "error")) refl
                      (some (L.of_text e)) _)),
            )
            refl)

    pub flagged-Carries :
        {P : A → Type 0} (to : A → Option L.Value) (from : L.Value → Option A) (f : A → A)
        → ((a : A) → P a → Places (to a) from (f a))
        → (r : Variant A) → IsJsonVariant P r
        → Carries L lawful
            (flagged_to_json L key to r)
            (flagged_from_json L key from)
            (map_variant f r)
    unfolding flagged_to_json flagged_from_json error_fields bytes_discrete ℕ_discrete
    flagged-Carries to from f places (success a) h =
        let (v, placed, clean, back) = places a h in
        let fields : List (Bytes × L.Value) = (codes "success", L.of_bool true) ∷ (key, v) ∷ [] in
        let flag = bool_at-object L lawful (codes "success") fields true (
          if_neg (bytes_discrete key (codes "success")) (apart _ _ valid.not_success) (some v) _) in
        rw (placed, ◌>>=◌)
          (dump_object-Carries L lawful fields _ (success (f a)) (omega arith, (valid.ascii, tt))
            (of_bool-IsClean true, (clean, tt))
            (rw
              (
                flag,
                ◌>>=◌,
                at-object L lawful key fields v (if_pos (bytes_discrete key key) refl (some v) _),
                back,
              )
              refl))
    flagged-Carries to from f places (failure e) h =
        let fields : List (Bytes × L.Value) =
          (codes "success", L.of_bool false) ∷ error_fields L e in
        dump_object-Carries L lawful fields _ (failure e) (omega arith)
          (of_bool-IsClean false, (of_text-IsClean e h, tt))
          (rw
            (
              bool_at-object L lawful (codes "success") fields false refl,
              ◌>>=◌,
              error_at-object fields e (text_at-object L lawful (codes "error") fields e refl),
            )
            refl)

  pub registered-Carries :
      (r : Variant (Unit {0}))
      → IsJsonVariant (λ _. Unit {0}) r
      → Carries L lawful (registered_to_json L r) (registered_from_json L) r
  unfolding registered_to_json registered_from_json error_fields bytes_discrete ℕ_discrete
  registered-Carries (success tt) h =
      let fields : List (Bytes × L.Value) = (codes "success", L.of_bool true) ∷ [] in
      dump_object-Carries L lawful fields _ (success tt) (omega arith) (of_bool-IsClean true, tt)
        (rw (bool_at-object L lawful (codes "success") fields true refl, ◌>>=◌) refl)
  registered-Carries (failure e) h =
      let fields : List (Bytes × L.Value) = (codes "success", L.of_bool false) ∷ error_fields L e in
      dump_object-Carries L lawful fields _ (failure e) (omega arith)
        (of_bool-IsClean false, (of_text-IsClean e h, tt))
        (rw
          (
            bool_at-object L lawful (codes "success") fields false refl,
            ◌>>=◌,
            error_at-object fields e (text_at-object L lawful (codes "error") fields e refl),
          )
          refl)
