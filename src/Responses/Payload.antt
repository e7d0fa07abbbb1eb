-- ===== src/Responses/Payload.antt =====
-- `std::variant<A, std::string>`, the payload of every response: a value or an error message.
use wire_protocols.Prelude.{
  ℕ, ◌+◌, ◌≡◌, refl, sym, append-nil, Option, some, [], ◌∷◌, arith, length, drop, ◌==◌,
  if◌then◌else◌,
}
use wire_protocols.Prelude.Try.{◌>>=◌}
use wire_protocols.Wire.{Bytes, byte_at, slice, put_string, Fits}
use wire_protocols.Wire.Reads.{At, At-string, byte_at-At}

pub data Variant {ℓ} (A : Type ℓ) : Type ℓ where
  success : A → Variant A
  failure : Bytes → Variant A

module _ {ℓ} {A : Type ℓ} where
  -- `serialize` of a response: a zero byte and the value, or a one and the message.
  unfoldable pub put_variant : (A → Bytes) → Variant A → Bytes
  put_variant put (success a) = 0 ∷ put a
  put_variant put (failure e) = 1 ∷ put_string e

  -- `size` of a response.
  unfoldable pub variant_size : (A → ℕ) → Variant A → ℕ
  variant_size size (success a) = 1 + size a
  variant_size size (failure e) = 1 + (1 + length e)

  -- `deserialize` of a response: the value is read from a copy of what follows the first byte.
  unfoldable pub get_variant : (Bytes → Option A) → Bytes → Option (Variant A)
  get_variant decode buf = do
    has_error ← byte_at buf 0
    let value = do a ← decode (drop 1 buf); some (success a)
    let message = do
      error_length ← byte_at buf 1
      error ← slice buf 2 error_length
      some (failure error)
    if has_error == 0 then value else message

  -- What a response is on arrival, where a value may lose some of its fields on the way.
  abbrev pub map_variant : (A → A) → Variant A → Variant A
  map_variant f (success a) = success (f a)
  map_variant f (failure e) = failure e

  abbrev pub IsVariant : (A → Type 0) → Variant A → Type 0
  IsVariant P (success a) = P a
  IsVariant P (failure e) = Fits e

  pub variant_size-put_variant :
      (put : A → Bytes) (size : A → ℕ) {P : A → Type 0}
      → ((a : A) → P a → length (put a) ≡ size a)
      → (v : Variant A) → IsVariant P v
      → length (put_variant put v) ≡ variant_size size v
  unfolding put_variant variant_size put_string
  variant_size-put_variant put size sized (success a) h = omega (arith, sized a h)
  variant_size-put_variant put size sized (failure e) h = omega arith

  -- A response is read back if its value is.
  pub get_variant-put_variant :
      (put : A → Bytes) (decode : Bytes → Option A) (f : A → A) {P : A → Type 0}
      → ((a : A) → P a → decode (put a) ≡ some (f a))
      → (v : Variant A) → IsVariant P v
      → get_variant decode (put_variant put v) ≡ some (map_variant f v)
  unfolding get_variant put_variant
  get_variant-put_variant put decode f back (success a) h =
      let first =
        byte_at-At (0 ∷ put a) (put a) 0 0 (record { inside = omega arith; found = refl }) in
      rw (first, back a h)
  get_variant-put_variant put decode f back (failure e) h =
      let buf = 1 ∷ put_string e in
      let first =
        byte_at-At buf (put_string e) 0 1 (record { inside = omega arith; found = refl }) in
      let behind : At buf 1 (put_string e) [] = record {
        inside = omega arith;
        found = sym (append-nil (put_string e));
      } in
      let (l, t, _) = At-string buf e [] 1 h behind in rw (first, l, t)
