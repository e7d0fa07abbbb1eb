-- ===== src/Uuid/Text.antt =====
-- Hexadecimal text: `UUID::to_string`, and the last step of `PasswordTable::sha256`.
use wire_protocols.Prelude.{ℕ, ◌+◌, ◌/◌, ◌%◌, [], ◌∷◌, ltb, if◌then◌else◌}
use wire_protocols.Wire.{Bytes}
use wire_protocols.Uuid.{Uuid}

abbrev pub hex_digit : ℕ → ℕ
hex_digit d = if ltb d 10 then d + b'0' else d + 87

-- `std::hex`, `std::setw(2)` and `std::setfill('0')`: two digits for each byte.
unfoldable pub hex : Bytes → Bytes
hex [] = []
hex (b ∷ bs) = hex_digit (b / 16) ∷ hex_digit (b % 16) ∷ hex bs

unfoldable pub to_string : Uuid → Bytes
unfolding hex
to_string u = hex u.value
