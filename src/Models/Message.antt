-- ===== src/Models/Message.antt =====
-- src/models/message.cpp, include/models/message.hpp. `snowflake`, `created_at` and `modified_at`
-- are `uint64_t` and travel as their images in memory.
use wire_protocols.Prelude.{
  ℕ, ◌+◌, ◌*◌, ◌^◌, ◌<◌, ◌≡◌, List, [], ◌∷◌, ◌++◌, arith, length, length-append, All,
}
use wire_protocols.Wire.{Bytes, Reader, ◌>>=◌, pure, get_string, put_string, Fits}
use wire_protocols.Wire.Reads.{Reads, >>=-Reads, >>=-pure-Reads, string_then}
use wire_protocols.Wire.Integers.{le_bytes, get_u64, get_u64-Reads, length-le_bytes}
use wire_protocols.Uuid.{
  Uuid, IsUuid, put_uuid, get_uuid, uuid_size, uuid_then, put_uuids, get_uuids, get_uuids-Reads,
  uuids_size-sixteen, length-put_uuids,
}

pub record Message : Type 0 where
  pub snowflake : ℕ
  pub sender_id : Uuid
  pub channel_id : Uuid
  pub created_at : ℕ
  pub modified_at : ℕ
  pub read_by : List Uuid
  pub text : Bytes

-- `Message(sender_id, channel_id, text)`, with the snowflake that the generator returns and the
-- time that the clock shows.
unfoldable pub new_message : Uuid → Uuid → Bytes → ℕ → ℕ → Message
new_message sender_id channel_id text snowflake now = record {
  snowflake = snowflake;
  sender_id = sender_id;
  channel_id = channel_id;
  created_at = now;
  modified_at = now;
  read_by = sender_id ∷ [];
  text = text;
}

-- `Message::serialize`: what it appends to the buffer.
unfoldable pub put_message : Message → Bytes
unfolding put_uuid put_string put_uuids
put_message m =
    put_uuid m.sender_id
    ++ (put_uuid m.channel_id
        ++ (le_bytes 8 m.snowflake
            ++ (le_bytes 8 m.created_at
                ++ (le_bytes 8 m.modified_at ++ (put_string m.text ++ put_uuids m.read_by)))))

-- `Message::deserialize` sets every field.
unfoldable pub get_message : Reader Message
unfolding get_uuid get_u64 get_string get_uuids
get_message = do
  sender_id ← get_uuid
  channel_id ← get_uuid
  snowflake ← get_u64
  created_at ← get_u64
  modified_at ← get_u64
  text ← get_string
  read_by ← get_uuids
  pure (record {
    snowflake = snowflake;
    sender_id = sender_id;
    channel_id = channel_id;
    created_at = created_at;
    modified_at = modified_at;
    read_by = read_by;
    text = text;
  })

-- `Message::size`
unfoldable pub message_size : Message → ℕ
unfolding uuid_size
message_size m =
    uuid_size m.sender_id
    + uuid_size m.channel_id
    + (8 + 8 + 8)
    + (1 + length m.text)
    + 1
    + 16 * length m.read_by

-- `Message::set_text`, at the time `now`.
unfoldable pub set_text : Bytes → ℕ → Message → Message
set_text text now m = record m { text = text; modified_at = now }

-- `Message::set_read_by`: `push_back`.
unfoldable pub set_read_by : Uuid → Message → Message
set_read_by user m = record m { read_by = m.read_by ++ (user ∷ []) }

-- A message of 64-bit numbers whose text and readers fit their length bytes.
pub record IsMessage (m : Message) : Type 0 where
  pub sender_valid : IsUuid m.sender_id
  pub channel_valid : IsUuid m.channel_id
  pub snowflake_fits : m.snowflake < 2 ^ 64
  pub created_fits : m.created_at < 2 ^ 64
  pub modified_fits : m.modified_at < 2 ^ 64
  pub text_fits : Fits m.text
  pub readers_fit : Fits m.read_by
  pub readers_valid : All IsUuid m.read_by

u64_then {ℓ} :
    {B : Type ℓ} {b : B} (n : ℕ) (f : ℕ → Reader B) (ys : Bytes)
    → n < 2 ^ 64
    → Reads (f n) ys b
    → Reads (get_u64 >>= f) (le_bytes 8 n ++ ys) b
u64_then {b} n f ys fits h = >>=-Reads get_u64 f n b (le_bytes 8 n) ys (get_u64-Reads n fits) h

-- `deserialize` behind `serialize`, of a message whose text, readers and 64-bit fields fit: every field
-- comes back.
pub get_message-Reads : (m : Message) → IsMessage m → Reads get_message (put_message m) m
unfolding put_message get_message
get_message-Reads m h = uuid_then m.sender_id _ _ h.sender_valid (
    uuid_then m.channel_id _ _ h.channel_valid (
      u64_then m.snowflake _ _ h.snowflake_fits (
        u64_then m.created_at _ _ h.created_fits (
          u64_then m.modified_at _ _ h.modified_fits (
            string_then m.text _ _ h.text_fits (
              >>=-pure-Reads get_uuids (λ readers. record m { read_by = readers }) m.read_by
                (put_uuids m.read_by)
                (get_uuids-Reads m.read_by h.readers_fit h.readers_valid)))))))

-- `size` is the number of bytes that `serialize` appends, for a message whose readers are
-- identifiers of 16 bytes.
pub message_size-put_message :
    (m : Message) → All IsUuid m.read_by → length (put_message m) ≡ message_size m
unfolding put_message message_size
message_size-put_message m readers = omega (
  arith,
  length-append m.sender_id.value (
      put_uuid m.channel_id
      ++ (le_bytes 8 m.snowflake
          ++ (le_bytes 8 m.created_at
              ++ (le_bytes 8 m.modified_at ++ (put_string m.text ++ put_uuids m.read_by))))),
  length-append m.channel_id.value (
      le_bytes 8 m.snowflake
      ++ (le_bytes 8 m.created_at
          ++ (le_bytes 8 m.modified_at ++ (put_string m.text ++ put_uuids m.read_by)))),
  length-append (le_bytes 8 m.snowflake) (
      le_bytes 8 m.created_at
      ++ (le_bytes 8 m.modified_at ++ (put_string m.text ++ put_uuids m.read_by))),
  length-append (le_bytes 8 m.created_at)
      (le_bytes 8 m.modified_at ++ (put_string m.text ++ put_uuids m.read_by)),
  length-append (le_bytes 8 m.modified_at) (put_string m.text ++ put_uuids m.read_by),
  length-append m.text (put_uuids m.read_by),
  length-le_bytes 8 m.snowflake,
  length-le_bytes 8 m.created_at,
  length-le_bytes 8 m.modified_at,
  length-put_uuids m.read_by,
  uuids_size-sixteen m.read_by readers,
)
