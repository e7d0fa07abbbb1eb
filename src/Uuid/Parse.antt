-- ===== src/Uuid/Parse.antt =====
-- `UUID::from_string` of src/models/uuid.cpp.
use wire_protocols.Prelude.{
  ℕ, ◌+◌, ◌-◌, ◌*◌, ◌/◌, ◌%◌, ◌^◌, ◌<◌, ◌≡◌, refl, ap, ◌∙◌, Option, none, some, [], ◌∷◌, Bool, ◌&&◌,
  ◌||◌, leb, ◌==◌, if◌then◌else◌, arith, length, All,
}
use wire_protocols.Prelude.Try.{◌>>=◌}
use wire_protocols.Wire.{Bytes, IsByte, u8}
use wire_protocols.Uuid.{Uuid, IsUuid}
use wire_protocols.Uuid.Text.{hex, hex_digit, to_string}

-- The value of a hexadecimal digit.
unfoldable pub digit_of : ℕ → Option ℕ
digit_of c =
    if leb b'0' c && leb c b'9'
    then some (c - b'0')
    else if leb b'a' c && leb c b'f'
    then some (c - 87)
    else if leb b'A' c && leb c b'F'
    then some (c - 55)
    else none

-- The digits in front, behind the value of those that were read.
unfoldable pub digits_from : ℕ → Bytes → ℕ
unfolding digit_of
digits_from n [] = n
digits_from n (c ∷ cs) = elim (digit_of c) [ none ↦ n | some d ↦ digits_from (n * 16 + d) cs ]

-- One digit is needed: `std::invalid_argument` otherwise.
unfoldable pub digits : Bytes → Option ℕ
unfolding digits_from digit_of
digits [] = none
digits (c ∷ cs) = elim (digit_of c) [ none ↦ none | some d ↦ some (digits_from d cs) ]

-- `std::isspace`
abbrev is_space : ℕ → Bool
is_space c = (c == 32) || (leb 9 c && leb c 13)

-- A sign; the negative of a number is that of `unsigned long`.
unfoldable pub signed : Bytes → Option ℕ
unfolding digits
signed [] = none
signed (c ∷ cs) =
    let plain = digits (c ∷ cs) in
    let rest = digits cs in
    if c == b'-'
    then elim rest [ none ↦ none | some n ↦ some ((2 ^ 64 - n) % 2 ^ 64) ]
    else if c == b'+'
    then rest
    else plain

-- `std::stoul(text, nullptr, 16)` of the one or two characters that the loop cuts off, which are too
-- few for a prefix `0x` with a digit and for a value out of range. `none`: it throws.
unfoldable pub stoul : Bytes → Option ℕ
unfolding signed
stoul [] = none
stoul (c ∷ cs) = let rest = stoul cs in if is_space c then rest else signed (c ∷ cs)

-- The loop, two characters at a time, over the bytes that are not yet written. `none`: `stoul`
-- throws, or the write is outside the array.
unfoldable pub parse : Bytes → Bytes → Option Bytes
unfolding stoul
parse [] old = some old
parse (c ∷ cs) [] = none
parse (c ∷ []) (o ∷ old) = do n ← stoul (c ∷ []); some (u8 n ∷ old)
parse (c ∷ d ∷ cs) (o ∷ old) = do n ← stoul (c ∷ d ∷ []); rest ← parse cs old; some (u8 n ∷ rest)

-- Into an identifier that `UUID uuid` draws.
unfoldable pub from_string : Uuid → Bytes → Option Uuid
unfolding parse
from_string drawn str = do value ← parse str drawn.value; some (record { value = value })

digit_of-hex_digit : (d : ℕ) → d < 16 → digit_of (hex_digit d) ≡ some d
unfolding digit_of
digit_of-hex_digit d h = ground arith

stoul-digits : (d : ℕ) (cs : Bytes) → d < 16 → stoul (hex_digit d ∷ cs) ≡ digits (hex_digit d ∷ cs)
unfolding stoul signed
stoul-digits d cs h = ground arith

stoul-hex : (b : ℕ) → b < 256 → stoul (hex_digit (b / 16) ∷ hex_digit (b % 16) ∷ []) ≡ some b
unfolding digits digits_from
stoul-hex b h =
    let high = digit_of-hex_digit (b / 16) (omega arith) in
    let low = digit_of-hex_digit (b % 16) (omega arith) in
    stoul-digits (b / 16) (hex_digit (b % 16) ∷ []) (omega arith)
    ∙ rw (high, digits, low, digits_from) (ap some (omega arith))

parse-hex : (bs old : Bytes) → length old ≡ length bs → All IsByte bs → parse (hex bs) old ≡ some bs
unfolding parse hex
parse-hex [] [] e h = refl
parse-hex [] (o ∷ old) e h = absurd (omega (arith, e))
parse-hex (b ∷ bs) [] e h = absurd (omega (arith, e))
parse-hex (b ∷ bs) (o ∷ old) e (hb, hbs) =
    let first = stoul-hex b hb in
    let later = parse-hex bs old (omega (arith, e)) hbs in
    let small : b % 256 ≡ b = omega arith in
    rw (first, later, ◌>>=◌) (ap (λ x. some (x ∷ bs)) small)

-- The text of an identifier of 16 bytes is parsed back, whatever the 16 bytes that the new
-- identifier was drawn with.
pub from_string-to_string :
    (u drawn : Uuid) → IsUuid u → length drawn.value ≡ 16 → from_string drawn (to_string u) ≡ some u
unfolding from_string to_string
from_string-to_string u drawn h sixteen =
    rw (parse-hex u.value drawn.value (omega (arith, sixteen, h.sixteen)) h.bytes, ◌>>=◌) refl
