-- ===== src/Json/Laws.antt =====
-- What the assignments leave under a key, and the ways of one value into a text and back.
use wire_protocols.Prelude.{
  ℕ, ◌^◌, ◌<◌, ◌≡◌, refl, Bool, true, false, Option, some, List, [], ◌∷◌, map, ite, if_pos, if_neg,
  length, All, arith,
}
use wire_protocols.Prelude.Try.{◌>>=◌}
use wire_protocols.Wire.{Bytes, bytes_discrete}
use wire_protocols.Uuid.{Uuid, IsUuid}
use wire_protocols.Uuid.Text.{to_string, hex}
use wire_protocols.Uuid.Parse.{from_string-to_string}
use wire_protocols.Json.{
  Library, IsLawful, assign, dump_object, text_at, number_at, bool_at, of_uuids, uuid_of, uuid_at,
  each,
}

-- What stands under a key after the assignments, where `old` stood under it before.
abbrev pub under {ℓ κ} : {A : Type ℓ} {B : Type κ} → (A → B) → Bytes → List (Bytes × A) → B → B
under f k [] old = old
under f k ((l, v) ∷ fields) old = under f k fields (ite (bytes_discrete l k) (f v) old)

abbrev pub IsDrawn : (Bytes → Uuid) → Type 0
IsDrawn drawn = (s : Bytes) → length (drawn s).value ≡ 16

hex-ascii : (bs : Bytes) → All (λ b. b < 256) bs → All (λ c. c < 128) (hex bs)
unfolding hex
hex-ascii [] h = tt
hex-ascii (b ∷ bs) (hb, hbs) = (ground arith, (ground arith, hex-ascii bs hbs))

module _ (L : Library) (lawful : IsLawful L) where
  open lawful use {
    Text, ascii-Text, IsObject, null-IsObject, set-IsObject, at-set_self, at-set_other,
    contains-null, contains-set_self, contains-set_other, get_text-of_text, get_number-of_number,
    get_bool-of_bool, IsClean, null-IsClean, of_text-IsClean, of_array-IsClean, set-IsClean,
    dump_lem,
  }

  at-assign :
      (k : Bytes) (fields : List (Bytes × L.Value)) (j : L.Value)
      → IsObject j
      → L.at k (assign L fields j) ≡ under some k fields (L.at k j)
  unfolding assign
  at-assign k [] j h = refl
  at-assign k ((l, v) ∷ fields) j h = elim (bytes_discrete l k) [
    | yes p ↦
        rw (at-assign k fields (L.set l v j) (set-IsObject l v j h), if_pos _ p)
          (rw p (rw (at-set_self k v j h)))
    | no p ↦
        rw (at-assign k fields (L.set l v j) (set-IsObject l v j h), if_neg _ p)
          (rw (at-set_other k l v j h p))
  ]

  contains-assign :
      (k : Bytes) (fields : List (Bytes × L.Value)) (j : L.Value)
      → IsObject j
      → L.contains k (assign L fields j) ≡ under (λ v. true) k fields (L.contains k j)
  unfolding assign
  contains-assign k [] j h = refl
  contains-assign k ((l, v) ∷ fields) j h = elim (bytes_discrete l k) [
    | yes p ↦
        rw (contains-assign k fields (L.set l v j) (set-IsObject l v j h), if_pos _ p)
          (rw p (rw (contains-set_self k v j h)))
    | no p ↦
        rw (contains-assign k fields (L.set l v j) (set-IsObject l v j h), if_neg _ p)
          (rw (contains-set_other k l v j h p))
  ]

  module _ (k : Bytes) (fields : List (Bytes × L.Value)) where
    pub at-object :
        (v : L.Value)
        → under some k fields (L.at k L.null) ≡ some v
        → L.at k (assign L fields L.null) ≡ some v
    at-object v e = rw (at-assign k fields L.null null-IsObject) e

    pub contains-object : L.contains k (assign L fields L.null) ≡ under (λ v. true) k fields false
    contains-object = rw (contains-assign k fields L.null null-IsObject, contains-null k) refl

    pub text_at-object :
        (s : Bytes)
        → under some k fields (L.at k L.null) ≡ some (L.of_text s)
        → text_at L k (assign L fields L.null) ≡ some s
    unfolding text_at
    text_at-object s e = rw (at-object (L.of_text s) e, ◌>>=◌) (get_text-of_text s)

    pub number_at-object :
        (n : ℕ)
        → n < 2 ^ 64
        → under some k fields (L.at k L.null) ≡ some (L.of_number n)
        → number_at L k (assign L fields L.null) ≡ some n
    unfolding number_at
    number_at-object n h e = rw (at-object (L.of_number n) e, ◌>>=◌) (get_number-of_number n h)

    pub bool_at-object :
        (b : Bool)
        → under some k fields (L.at k L.null) ≡ some (L.of_bool b)
        → bool_at L k (assign L fields L.null) ≡ some b
    unfolding bool_at
    bool_at-object b e = rw (at-object (L.of_bool b) e, ◌>>=◌) (get_bool-of_bool b)

    pub array_at-object :
        (vs : List L.Value)
        → under some k fields (L.at k L.null) ≡ some (L.of_array vs)
        → L.at k (assign L fields L.null) ≡ some (L.of_array vs)
    array_at-object vs e = at-object (L.of_array vs) e

  pub to_string-Text : (u : Uuid) → IsUuid u → Text (to_string u)
  unfolding to_string
  to_string-Text u h = ascii-Text (hex u.value) (hex-ascii u.value h.bytes)

  pub uuid-IsClean : (u : Uuid) → IsUuid u → IsClean (L.of_text (to_string u))
  uuid-IsClean u h = of_text-IsClean (to_string u) (to_string-Text u h)

  uuids-clean :
      (us : List Uuid) → All IsUuid us → All IsClean (map (λ u. L.of_text (to_string u)) us)
  uuids-clean [] h = tt
  uuids-clean (u ∷ us) (hu, hus) = (uuid-IsClean u hu, uuids-clean us hus)

  pub of_uuids-IsClean : (us : List Uuid) → All IsUuid us → IsClean (of_uuids L us)
  unfolding of_uuids
  of_uuids-IsClean us h =
      of_array-IsClean (map (λ u. L.of_text (to_string u)) us) (uuids-clean us h)

  module _ (drawn : Bytes → Uuid) (sixteen : IsDrawn drawn) where
    pub uuid_of-to_string :
        (u : Uuid) → IsUuid u → uuid_of L drawn (L.of_text (to_string u)) ≡ some u
    unfolding uuid_of
    uuid_of-to_string u h =
        rw (get_text-of_text (to_string u), ◌>>=◌)
          (from_string-to_string u (drawn (to_string u)) h (sixteen (to_string u)))

    pub uuid_at-object :
        (k : Bytes) (fields : List (Bytes × L.Value)) (u : Uuid)
        → IsUuid u
        → under some k fields (L.at k L.null) ≡ some (L.of_text (to_string u))
        → uuid_at L drawn k (assign L fields L.null) ≡ some u
    unfolding uuid_at
    uuid_at-object k fields u h e =
        rw (at-object k fields (L.of_text (to_string u)) e, ◌>>=◌) (uuid_of-to_string u h)

    pub each-uuids :
        (us : List Uuid)
        → All IsUuid us
        → each L (uuid_of L drawn) (map (λ u. L.of_text (to_string u)) us) ≡ some us
    unfolding each
    each-uuids [] h = refl
    each-uuids (u ∷ us) (hu, hus) = rw (uuid_of-to_string u hu, each-uuids us hus, ◌>>=◌) refl

  -- A value goes through the text `to`: it is written as a valid text that `from` reads as `a`.
  abbrev pub Carries {ℓ} : {A : Type ℓ} → Option Bytes → (Bytes → Option A) → A → Type ℓ
  Carries to from a = (s : Bytes) × (to ≡ some s) × Text s × (from s ≡ some a)

  -- Keys and values of which a text can be made.
  abbrev pub Keys : List (Bytes × L.Value) → Type 0
  Keys fields = All (λ f. All (λ c. c < 128) f.0) fields

  abbrev pub Values : List (Bytes × L.Value) → Type 0
  Values fields = All (λ f. IsClean f.1) fields

  assign-IsClean :
      (fields : List (Bytes × L.Value)) (j : L.Value)
      → Keys fields
      → Values fields
      → IsClean j
      → IsClean (assign L fields j)
  unfolding assign
  assign-IsClean [] j keys values clean = clean
  assign-IsClean ((k, v) ∷ fields) j (ascii, keys) (value, values) clean =
      assign-IsClean fields (L.set k v j) keys values
        (set-IsClean k v j (ascii-Text k ascii) value clean)

  pub dump_object-Carries {ℓ} :
      {A : Type ℓ} (fields : List (Bytes × L.Value)) (read : L.Value → Option A) (a : A)
      → Keys fields
      → Values fields
      → read (assign L fields L.null) ≡ some a
      → Carries (dump_object L fields) (λ s. L.parse s >>= read) a
  unfolding dump_object
  dump_object-Carries fields read a keys values back =
      let (s, dumped, text, parsed) =
        dump_lem (assign L fields L.null) (assign-IsClean fields L.null keys values null-IsClean) in
      (s, dumped, text, rw (parsed, ◌>>=◌) back)
