-- ===== src/Wire.antt =====
-- Byte buffers: what the C++ code reads from and appends to a `std::vector<uint8_t>`.
-- A byte, a `char` and the elements of a `std::string` are numbers below 256. A read outside the
-- buffer is undefined behaviour in the source, and `none` here.
pub mod Reads
pub mod Integers
use wire_protocols.Prelude.{
  ℕ_discrete, ℕ, zero, suc, ◌+◌, ◌%◌, ◌^◌, ◌<◌, ◌≡◌, Bool, Option, none, some, List, [], ◌∷◌, ◌++◌,
  leb, if◌then◌else◌, length, take, drop, get_elem?, All, Bool-cases,
}

abbrev pub Bytes : Type 0
Bytes = List ℕ

abbrev pub IsByte : ℕ → Type 0
IsByte b = b < 256

-- `==` on strings.
unfoldable pub bytes_discrete : Discrete Bytes
bytes_discrete = hlevel ℕ_discrete

-- A conversion to `uint8_t`, `uint16_t` or `uint64_t`.
abbrev pub u8 : ℕ → ℕ
u8 n = n % 256

abbrev pub u16 : ℕ → ℕ
u16 n = n % 65536

abbrev pub u64 : ℕ → ℕ
u64 n = n % 2 ^ 64

-- A string or a vector whose length is kept by its length byte.
abbrev pub Fits {ℓ} : {A : Type ℓ} → List A → Type 0
Fits xs = length xs < 256

-- `buf[i]`
unfoldable pub byte_at : Bytes → ℕ → Option ℕ
byte_at = get_elem?

-- The elements from `buf.begin() + i` up to `buf.begin() + i + n`.
unfoldable pub slice : Bytes → ℕ → ℕ → Option Bytes
slice buf i n = if leb (i + n) (length buf) then some (take n (drop i buf)) else none

-- A read that moves the local variable `offset` on.
abbrev pub Reader {ℓ} : Type ℓ → Type ℓ
Reader A = Bytes → ℕ → Option (A × ℕ)

module _ {ℓ κ} {A : Type ℓ} {B : Type κ} where
  infixl 5 ◌>>=◌
  abbrev pub ◌>>=◌ : Reader A → (A → Reader B) → Reader B
  ◌>>=◌ p f buf i = elim (p buf i) [ none ↦ none | some (a, j) ↦ f a buf j ]

abbrev pub pure {ℓ} : {A : Type ℓ} → A → Reader A
pure a buf i = some (a, i)

-- `buf[offset++]`
unfoldable pub get_byte : Reader ℕ
unfolding byte_at
get_byte buf i = elim (byte_at buf i) [ none ↦ none | some b ↦ some (b, i + 1) ]

-- `std::string(buf.begin() + offset, buf.begin() + offset + n); offset += n`
unfoldable pub get_bytes : ℕ → Reader Bytes
unfolding slice
get_bytes n buf i = elim (slice buf i n) [ none ↦ none | some s ↦ some (s, i + n) ]

-- `for (i = 0; i < n; i++)` around one read and a `push_back`.
unfoldable pub get_times {ℓ} : {A : Type ℓ} → ℕ → Reader A → Reader (List A)
get_times zero p = pure []
get_times (suc n) p = do a ← p; rest ← get_times n p; pure (a ∷ rest)

-- A length byte, and that many characters.
unfoldable pub get_string : Reader Bytes
unfolding get_byte get_bytes
get_string = do n ← get_byte; get_bytes n

-- What a `deserialize` with a local `offset` leaves in the object: it starts at 0.
abbrev pub run_reader {ℓ} : {A : Type ℓ} → Bytes → Reader A → Option A
run_reader buf p = elim (p buf 0) [ none ↦ none | some (a, i) ↦ some a ]

-- `push_back` of the length as `uint8_t`, then `insert` of the characters.
unfoldable pub put_string : Bytes → Bytes
put_string s = u8 (length s) ∷ s
