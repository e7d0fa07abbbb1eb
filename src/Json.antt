-- ===== src/Json.antt =====
-- The JSON mode of include/constants.hpp (`PROTOCOL_JSON`), in which `serialize` and `deserialize`
-- of the models and of the messages go through `to_json` and `from_json`. Here stands what these
-- use of nlohmann/json, of which the repository has a copy (include/json.hpp): the type of values
-- and the calls are parameters, and the laws are what its documentation says of them.
pub mod Laws
pub mod Models
pub mod Requests
pub mod Responses
use wire_protocols.Prelude.{
  ℕ, ◌^◌, ◌<◌, ◌≡◌, ◌≢◌, Bool, false, true, Option, some, List, [], ◌∷◌, map, All,
}
use wire_protocols.Prelude.Try.{◌>>=◌}
use wire_protocols.Wire.{Bytes}
use wire_protocols.Uuid.{Uuid}
use wire_protocols.Uuid.Text.{to_string}
use wire_protocols.Uuid.Parse.{from_string}

-- `nlohmann::json`. `none` stands for an exception of the library.
pub record Library : Type 1 where
  pub Value : Type 0
  -- `json j;`
  pub null : Value
  -- The conversions to a value.
  pub of_text : Bytes → Value
  pub of_number : ℕ → Value
  pub of_bool : Bool → Value
  pub of_array : List Value → Value
  -- `j[key] = value`, on `null` or an object.
  pub set : Bytes → Value → Value → Value
  -- `j[key]`
  pub at : Bytes → Value → Option Value
  pub contains : Bytes → Value → Bool
  -- `get<std::string>()`, `get<uint64_t>()` and `get<bool>()`, also where they are implicit.
  pub get_text : Value → Option Bytes
  pub get_number : Value → Option ℕ
  pub get_bool : Value → Option Bool
  -- The elements of an array, as `get<std::vector<T>>()` takes them: any other value is an error.
  pub get_array : Value → Option (List Value)
  -- What a `for` over the value visits.
  pub items : Value → List Value
  pub dump : Value → Option Bytes
  pub parse : Bytes → Option Value

-- The library's contract, as far as the messages rely on it.
pub record IsLawful (L : Library) : Type 1 where
  -- Valid UTF-8; `dump` throws on any other string.
  pub Text : Bytes → Type 0
  pub ascii-Text : (s : Bytes) → All (λ c. c < 128) s → Text s
  -- `null` and objects, on which `j[key] = value` writes.
  pub IsObject : L.Value → Type 0
  pub null-IsObject : IsObject L.null
  pub set-IsObject : (k : Bytes) (v j : L.Value) → IsObject j → IsObject (L.set k v j)
  pub at-set_self : (k : Bytes) (v j : L.Value) → IsObject j → L.at k (L.set k v j) ≡ some v
  pub at-set_other :
      (k l : Bytes) (v j : L.Value) → IsObject j → l ≢ k → L.at k (L.set l v j) ≡ L.at k j
  pub contains-null : (k : Bytes) → L.contains k L.null ≡ false
  pub contains-set_self :
      (k : Bytes) (v j : L.Value) → IsObject j → L.contains k (L.set k v j) ≡ true
  pub contains-set_other :
      (k l : Bytes) (v j : L.Value)
      → IsObject j
      → l ≢ k
      → L.contains k (L.set l v j) ≡ L.contains k j
  pub get_text-of_text : (s : Bytes) → L.get_text (L.of_text s) ≡ some s
  pub get_number-of_number : (n : ℕ) → n < 2 ^ 64 → L.get_number (L.of_number n) ≡ some n
  pub get_bool-of_bool : (b : Bool) → L.get_bool (L.of_bool b) ≡ some b
  pub get_array-of_array : (vs : List L.Value) → L.get_array (L.of_array vs) ≡ some vs
  pub items-of_array : (vs : List L.Value) → L.items (L.of_array vs) ≡ vs
  -- Values that stand for a JSON text: all their strings, keys included, are valid UTF-8.
  pub IsClean : L.Value → Type 0
  pub null-IsClean : IsClean L.null
  pub of_text-IsClean : (s : Bytes) → Text s → IsClean (L.of_text s)
  pub of_number-IsClean : (n : ℕ) → n < 2 ^ 64 → IsClean (L.of_number n)
  pub of_bool-IsClean : (b : Bool) → IsClean (L.of_bool b)
  pub of_array-IsClean : (vs : List L.Value) → All IsClean vs → IsClean (L.of_array vs)
  pub set-IsClean :
      (k : Bytes) (v j : L.Value) → Text k → IsClean v → IsClean j → IsClean (L.set k v j)
  -- The text of a value is valid UTF-8 and is parsed to that value.
  pub dump_lem :
      (j : L.Value) → IsClean j → (s : Bytes) × (L.dump j ≡ some s) × Text s × (L.parse s ≡ some j)

module _ (L : Library) where
  -- The assignments `j[key] = value`, one after the other.
  unfoldable pub assign : List (Bytes × L.Value) → L.Value → L.Value
  assign [] j = j
  assign ((k, v) ∷ fields) j = assign fields (L.set k v j)

  -- `json j;`, the assignments, and `j.dump()`.
  unfoldable pub dump_object : List (Bytes × L.Value) → Option Bytes
  unfolding assign
  dump_object fields = L.dump (assign fields L.null)

  -- `j[key].get<std::string>()` and the like.
  unfoldable pub text_at : Bytes → L.Value → Option Bytes
  text_at k j = do v ← L.at k j; L.get_text v

  unfoldable pub number_at : Bytes → L.Value → Option ℕ
  number_at k j = do v ← L.at k j; L.get_number v

  unfoldable pub bool_at : Bytes → L.Value → Option Bool
  bool_at k j = do v ← L.at k j; L.get_bool v

  -- The loops that push `to_string` of every identifier, and the assignment of the vector.
  unfoldable pub of_uuids : List Uuid → L.Value
  unfolding to_string
  of_uuids us = L.of_array (map (λ u. L.of_text (to_string u)) us)

  -- Each call of `UUID::from_string` draws the identifier that it writes the text's bytes over: the
  -- one that is drawn at the text `s` is `drawn s`.
  module _ (drawn : Bytes → Uuid) where
    unfoldable pub uuid_of : L.Value → Option Uuid
    uuid_of v = do s ← L.get_text v; from_string (drawn s) s

    unfoldable pub uuid_at : Bytes → L.Value → Option Uuid
    unfolding uuid_of
    uuid_at k j = do v ← L.at k j; uuid_of v

  -- A loop over values that reads each of them.
  unfoldable pub each : {A : Type 0} → (L.Value → Option A) → List L.Value → Option (List A)
  each f [] = some []
  each f (v ∷ vs) = do a ← f v; rest ← each f vs; some (a ∷ rest)
