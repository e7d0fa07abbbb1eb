-- ===== src/Header.antt =====
-- src/message/header.cpp, include/message/header.hpp, include/constants.hpp: the four bytes in
-- front of every payload. The protocol is the custom one, PROTOCOL_JSON undefined.
use wire_protocols.Prelude.{
  ℕ, ◌+◌, ◌*◌, ◌/◌, ◌%◌, ◌^◌, ◌<◌, ◌≡◌, refl, subst, none, some, List, [], ◌∷◌, arith, bit_or,
  get_elem?, get_elem?-past, ◌≤◌,
}
use wire_protocols.Prelude.Bits.{bit_or_shifted}
use wire_protocols.Wire.{Bytes, Reader, get_byte, ◌>>=◌, pure, u8, u16}
use wire_protocols.Wire.Reads.{Reads, byte_then, >>=-pure-Reads, get_byte-Reads}

-- An `enum Operation : uint8_t` holds any byte: `unnamed` is a value without an enumerator.
pub data Operation : Type 0 where
  register_account login list_accounts delete_account send_message read_message delete_message :
      Operation
  edit_message unread_message create_channel update_channel_name update_display_name : Operation
  update_profile_picture reset_password : Operation
  unnamed : ℕ → Operation

-- `static_cast<uint8_t>(operation)`
unfoldable pub operation_byte : Operation → ℕ
operation_byte register_account = 0
operation_byte login = 1
operation_byte list_accounts = 2
operation_byte delete_account = 3
operation_byte send_message = 4
operation_byte read_message = 5
operation_byte delete_message = 6
operation_byte edit_message = 7
operation_byte unread_message = 8
operation_byte create_channel = 9
operation_byte update_channel_name = 10
operation_byte update_display_name = 11
operation_byte update_profile_picture = 12
operation_byte reset_password = 13
operation_byte (unnamed b) = b

-- The enumerators in their order.
abbrev enumerators : List Operation
enumerators =
    register_account ∷ login ∷ list_accounts ∷ delete_account ∷ send_message ∷ read_message
    ∷ delete_message ∷ edit_message ∷ unread_message ∷ create_channel ∷ update_channel_name
    ∷ update_display_name ∷ update_profile_picture ∷ reset_password ∷ []

-- `static_cast<enum Operation>(b)`
unfoldable pub operation_of : ℕ → Operation
operation_of b = elim (get_elem? enumerators b) [ none ↦ unnamed b | some op ↦ op ]

-- PROTOCOL_VERSION without PROTOCOL_JSON
abbrev pub protocol_version : ℕ
protocol_version = 1

pub record Header : Type 0 where
  pub version : ℕ
  pub operation : Operation
  pub packet_length : ℕ

-- `Header::size`: the sizes of its three members.
abbrev pub header_size : ℕ
header_size = 1 + 1 + 2

-- `Header::serialize`: what it appends to the buffer.
unfoldable pub put_header : Header → Bytes
unfolding operation_byte
put_header h =
    u8 (bit_or (h.version * 2 ^ 4) header_size)
    ∷ u8 (operation_byte h.operation)
    ∷ u8 (h.packet_length / 256)
    ∷ u8 (h.packet_length % 256)
    ∷ []

-- `Header::deserialize`: `ntohs` of the two bytes that `memcpy` takes.
unfoldable pub get_header : Reader Header
unfolding operation_of
get_header = do
  first ← get_byte
  op ← get_byte
  high ← get_byte
  low ← get_byte
  pure (record {
    version = first / 16;
    operation = operation_of op;
    packet_length = high * 256 + low;
  })

-- `Header(PROTOCOL_VERSION, operation, size)`: the length is converted to `uint16_t`.
unfoldable pub packet_header : Operation → ℕ → Header
packet_header op size = record {
  version = protocol_version;
  operation = op;
  packet_length = u16 size;
}

-- A value of the enumeration: no enumerator's number is `unnamed`.
abbrev pub IsOperation : Operation → Type 0
IsOperation (unnamed b) = (14 ≤ b) × (b < 256)
IsOperation _ = Unit {0}

pub record IsHeader (h : Header) : Type 0 where
  pub version_fits : h.version < 16
  pub operation_known : IsOperation h.operation
  pub length_fits : h.packet_length < 2 ^ 16

past_enumerators : (b : ℕ) → 14 ≤ b → get_elem? enumerators b ≡ none
past_enumerators b h = get_elem?-past enumerators b h

operation_of-past : (b : ℕ) → 14 ≤ b → operation_of b ≡ unnamed b
unfolding operation_of
operation_of-past b h = rw (past_enumerators b h)

operation_of-byte : (op : Operation) → IsOperation op → operation_of (u8 (operation_byte op)) ≡ op
unfolding operation_of operation_byte
operation_of-byte (unnamed b) h =
    let kept : u8 b ≡ b = omega arith in rw kept (operation_of-past b h.0)
operation_of-byte register_account h = refl
operation_of-byte _ h = refl

version_nibble : (v : ℕ) → v < 16 → u8 (bit_or (v * 2 ^ 4) header_size) / 16 ≡ v
version_nibble v h = rw (bit_or_shifted 4 v header_size (omega arith)) (omega arith)

-- The header in four bytes.
header_of : ℕ → ℕ → ℕ → ℕ → Header
header_of first op high low = record {
  version = first / 16;
  operation = operation_of op;
  packet_length = high * 256 + low;
}

header_of-bytes :
    (h : Header)
    → IsHeader h
    → header_of
        (u8 (bit_or (h.version * 2 ^ 4) header_size))
        (u8 (operation_byte h.operation))
        (u8 (h.packet_length / 256))
        (u8 (h.packet_length % 256))
      ≡ h
unfolding header_of
header_of-bytes h v = ground (
  arith,
  version_nibble h.version v.version_fits,
  operation_of-byte h.operation v.operation_known,
)

-- A header with a version below 16, an operation that is an enumerator or another byte, and a
-- length below 65536 is read back from its four bytes.
pub get_header-Reads : (h : Header) → IsHeader h → Reads get_header (put_header h) h
unfolding get_header put_header header_of
get_header-Reads h v =
    let first = u8 (bit_or (h.version * 2 ^ 4) header_size) in
    let op = u8 (operation_byte h.operation) in
    let high = u8 (h.packet_length / 256) in
    let low = u8 (h.packet_length % 256) in
    subst (Reads get_header (put_header h)) (header_of-bytes h v) (
      byte_then first _ (op ∷ high ∷ low ∷ []) (
        byte_then op _ (high ∷ low ∷ []) (
          byte_then high _ (low ∷ []) (
            >>=-pure-Reads get_byte (header_of first op high) low (low ∷ [])
              (get_byte-Reads low)))))
