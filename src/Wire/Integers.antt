-- ===== src/Wire/Integers.antt =====
-- Integers of several bytes: the memory image that `Message::serialize` copies, with the lowest
-- byte first as on the hosts that the program is built for, and the shifts of
-- `DeleteMessageMessage`, with the highest byte first.
use wire_protocols.Prelude.{
  ℕ, zero, suc, ◌+◌, ◌*◌, ◌/◌, ◌^◌, ◌<◌, ◌≤◌, ◌≡◌, refl, ap, sym, [], ◌∷◌, arith, bit_or, subst,
  length,
}
use wire_protocols.Prelude.Bits.{bit_or_shifted}
use wire_protocols.Wire.{Bytes, Reader, ◌>>=◌, pure, get_byte, get_bytes, u8, u64}
use wire_protocols.Wire.Reads.{
  Reads, >>=-Reads, pure-Reads, >>=-pure-Reads, get_byte-Reads, get_bytes-Reads,
}
use native.Mathlib.Nat.{pow-suc, div-div-eq-div-mul, div-le_self, div-one}

-- The bytes of an object of `k` bytes in memory.
unfoldable pub le_bytes : ℕ → ℕ → Bytes
le_bytes zero n = []
le_bytes (suc k) n = u8 n ∷ le_bytes k (n / 256)

-- The value of such an object.
unfoldable pub le_value : Bytes → ℕ
le_value [] = 0
le_value (b ∷ bs) = b + 256 * le_value bs

-- `*reinterpret_cast<const uint64_t*>(&buf[offset]); offset += 8`
unfoldable pub get_u64 : Reader ℕ
unfolding le_value
get_u64 = do image ← get_bytes 8; pure (le_value image)

le_value-le_bytes : (k n : ℕ) → n < 256 ^ k → le_value (le_bytes k n) ≡ n
unfolding le_value le_bytes
le_value-le_bytes zero n h = omega arith
le_value-le_bytes (suc k) n h =
    omega (arith, le_value-le_bytes k (n / 256) (omega (arith, pow-suc 256 k)))

pub length-le_bytes : (k n : ℕ) → length (le_bytes k n) ≡ k
unfolding le_bytes
length-le_bytes zero n = refl
length-le_bytes (suc k) n = ap suc (length-le_bytes k (n / 256))

get_image-Reads : (n : ℕ) → Reads (get_bytes 8) (le_bytes 8 n) (le_bytes 8 n)
get_image-Reads n =
    subst (λ k. Reads (get_bytes k) (le_bytes 8 n) (le_bytes 8 n)) (length-le_bytes 8 n)
      (get_bytes-Reads (le_bytes 8 n))

-- A 64-bit integer is read back from its memory image.
pub get_u64-Reads : (n : ℕ) → n < 2 ^ 64 → Reads get_u64 (le_bytes 8 n) n
unfolding get_u64
get_u64-Reads n h =
    subst (Reads get_u64 (le_bytes 8 n)) (le_value-le_bytes 8 n h)
      (>>=-pure-Reads (get_bytes 8) le_value (le_bytes 8 n) (le_bytes 8 n) (get_image-Reads n))

-- `for (int i = 8 * (k - 1); i >= 0; i -= 8) buf.push_back(n >> i)`
unfoldable pub be_bytes : ℕ → ℕ → Bytes
be_bytes zero n = []
be_bytes (suc k) n = u8 (n / 256 ^ k) ∷ be_bytes k n

-- `k` rounds of `acc = (acc << 8) | buf[offset++]`, in 64 bits.
unfoldable pub get_be : ℕ → ℕ → Reader ℕ
get_be zero acc = pure acc
get_be (suc k) acc = do b ← get_byte; get_be k (bit_or (u64 (acc * 2 ^ 8)) b)

pub length-be_bytes : (k n : ℕ) → length (be_bytes k n) ≡ k
unfolding be_bytes
length-be_bytes zero n = refl
length-be_bytes (suc k) n = ap suc (length-be_bytes k n)

-- One round joins the byte to what was read before it.
be_round :
    (k n : ℕ) → n < 2 ^ 64 → bit_or (u64 (n / 256 ^ suc k * 2 ^ 8)) (u8 (n / 256 ^ k)) ≡ n / 256 ^ k
be_round k n h =
    let q : n / 256 ^ suc k ≡ n / 256 ^ k / 256 =
      rw pow-suc (sym (div-div-eq-div-mul n (256 ^ k) 256)) in
    let small : n / 256 ^ k ≤ n = div-le_self n (256 ^ k) in
    let fits : u64 (n / 256 ^ k / 256 * 2 ^ 8) ≡ n / 256 ^ k / 256 * 2 ^ 8 = omega arith in
    rw (q, fits, bit_or_shifted 8 (n / 256 ^ k / 256) (u8 (n / 256 ^ k)) (omega arith))
      (omega arith)

get_be-be_bytes : (k n : ℕ) → n < 2 ^ 64 → Reads (get_be k (n / 256 ^ k)) (be_bytes k n) n
unfolding get_be be_bytes
get_be-be_bytes zero n h = subst (Reads (pure (n / 1)) []) (div-one n) (pure-Reads (n / 1))
get_be-be_bytes (suc k) n h =
    >>=-Reads get_byte _ (u8 (n / 256 ^ k)) n (u8 (n / 256 ^ k) ∷ []) (be_bytes k n)
      (get_byte-Reads (u8 (n / 256 ^ k)))
      (subst (λ acc. Reads (get_be k acc) (be_bytes k n) n) (sym (be_round k n h))
        (get_be-be_bytes k n h))

-- Eight rounds of the shift-and-or loop, from 0, read back the 64-bit integer that the shift loop
-- wrote.
pub get_be-Reads : (n : ℕ) → n < 2 ^ 64 → Reads (get_be 8 0) (be_bytes 8 n) n
get_be-Reads n h =
    subst (λ acc. Reads (get_be 8 acc) (be_bytes 8 n) n) (omega arith) (get_be-be_bytes 8 n h)
