-- ===== src/Uuid.antt =====
-- src/models/uuid.cpp, include/models/uuid.hpp: the 16-byte identifiers. The default constructor
-- draws random bytes: a new identifier is an argument of whatever makes one.
pub mod Text
pub mod Parse
use wire_protocols.Prelude.{
  ℕ, zero, suc, ◌+◌, ◌*◌, ◌≡◌, refl, subst, Option, none, some, List, [], ◌∷◌, ◌++◌, arith, length,
  length-append, All, ℕ_discrete,
}
use wire_protocols.Wire.{
  Bytes, IsByte, Reader, get_byte, get_bytes, get_times, ◌>>=◌, pure, u8, Fits,
}
use wire_protocols.Wire.Reads.{
  Reads, >>=-Reads, >>=-pure-Reads, get_bytes-Reads, byte_then, concat_map, get_times-Reads,
}

pub record Uuid : Type 0 where
  pub value : Bytes

-- `std::array<uint8_t, 16>`
pub record IsUuid (u : Uuid) : Type 0 where
  pub sixteen : length u.value ≡ 16
  pub bytes : All IsByte u.value

-- `operator==`
unfoldable pub uuid_discrete : Discrete Uuid
uuid_discrete = hlevel ℕ_discrete

-- `UUID::serialize`: what it appends to the buffer.
unfoldable pub put_uuid : Uuid → Bytes
put_uuid u = u.value

-- `UUID::size`
unfoldable pub uuid_size : Uuid → ℕ
uuid_size u = length u.value

-- `UUID::deserialize` copies 16 bytes from the front of what it is given, and the callers move
-- their offset on by the size.
unfoldable pub get_uuid : Reader Uuid
get_uuid = do bytes ← get_bytes 16; pure (record { value = bytes })

-- An identifier is read back.
pub get_uuid-Reads : (u : Uuid) → IsUuid u → Reads get_uuid (put_uuid u) u
unfolding get_uuid put_uuid
get_uuid-Reads u h =
    >>=-pure-Reads (get_bytes 16) (λ bytes. record { value = bytes }) u.value u.value
      (subst (λ k. Reads (get_bytes k) u.value u.value) h.sixteen (get_bytes-Reads u.value))

-- A count in one byte, and that many identifiers: how lists of identifiers travel.
unfoldable pub put_uuids : List Uuid → Bytes
unfolding put_uuid
put_uuids us = u8 (length us) ∷ concat_map put_uuid us

unfoldable pub get_uuids : Reader (List Uuid)
unfolding get_uuid get_byte get_times
get_uuids = do n ← get_byte; get_times n get_uuid

-- The sum of the sizes that the `size` methods compute in a loop.
unfoldable pub uuids_size : List Uuid → ℕ
unfolding uuid_size
uuids_size [] = 0
uuids_size (u ∷ us) = uuid_size u + uuids_size us

pub length-put_uuids : (us : List Uuid) → length (put_uuids us) ≡ 1 + uuids_size us
unfolding put_uuids uuids_size
length-put_uuids us = omega (arith, sizes us)
  where
    sizes : (vs : List Uuid) → length (concat_map put_uuid vs) ≡ uuids_size vs
    sizes [] = refl
    sizes (v ∷ vs) = omega (arith, length-append v.value (concat_map put_uuid vs), sizes vs)

pub uuids_size-sixteen : (us : List Uuid) → All IsUuid us → uuids_size us ≡ 16 * length us
unfolding uuids_size
uuids_size-sixteen [] h = omega arith
uuids_size-sixteen (u ∷ us) h = omega (arith, h.0.sixteen, uuids_size-sixteen us h.1)

-- A list of at most 255 identifiers is read back.
pub get_uuids-Reads : (us : List Uuid) → Fits us → All IsUuid us → Reads get_uuids (put_uuids us) us
unfolding get_uuids put_uuids
get_uuids-Reads us fits h =
    let kept : u8 (length us) ≡ length us = omega arith in
    rw kept (
      byte_then (length us) _ (concat_map put_uuid us)
        (get_times-Reads get_uuid put_uuid get_uuid-Reads us h))

module _ {ℓ} {B : Type ℓ} {b : B} where
  pub uuid_then :
      (u : Uuid) (f : Uuid → Reader B) (ys : Bytes)
      → IsUuid u
      → Reads (f u) ys b
      → Reads (get_uuid >>= f) (put_uuid u ++ ys) b
  uuid_then u f ys valid h = >>=-Reads get_uuid f u b (put_uuid u) ys (get_uuid-Reads u valid) h
