-- ===== src/Requests/DeleteMessage.antt =====
-- src/message/delete_message.cpp: the snowflake travels with its highest byte first.
use wire_protocols.Prelude.{ℕ, ◌^◌, ◌<◌, ◌≡◌, Option, some, ◌++◌, arith, length, length-append}
use wire_protocols.Wire.{Bytes, Reader, ◌>>=◌, pure, run_reader}
use wire_protocols.Wire.Integers.{be_bytes, get_be, get_be-Reads, length-be_bytes}
use wire_protocols.Wire.Reads.{Reads, >>=-pure-Reads, run_reader-Reads}
use wire_protocols.Uuid.{Uuid, IsUuid, put_uuid, get_uuid, uuid_then}

pub record DeleteMessageMessage : Type 0 where
  pub channel_uid : Uuid
  pub message_snowflake : ℕ

-- `DeleteMessageMessage::serialize`: what it appends to the buffer.
unfoldable pub put_delete_message : DeleteMessageMessage → Bytes
unfolding put_uuid be_bytes
put_delete_message m = put_uuid m.channel_uid ++ be_bytes 8 m.message_snowflake

-- `DeleteMessageMessage::size`
abbrev pub delete_message_size : DeleteMessageMessage → ℕ
delete_message_size m = 24

-- `DeleteMessageMessage::deserialize`: `buf[16 + i]` is read in turn for `i` from 0 to 7.
unfoldable pub read_delete_message : Reader DeleteMessageMessage
unfolding get_uuid get_be
read_delete_message = do
  channel_uid ← get_uuid
  message_snowflake ← get_be 8 0
  pure (record { channel_uid = channel_uid; message_snowflake = message_snowflake })

-- From the front of the payload.
unfoldable pub get_delete_message : Bytes → Option DeleteMessageMessage
get_delete_message buf = run_reader buf read_delete_message

pub record IsDeleteMessage (m : DeleteMessageMessage) : Type 0 where
  pub channel_valid : IsUuid m.channel_uid
  pub snowflake_fits : m.message_snowflake < 2 ^ 64

read_delete_message-Reads :
    (m : DeleteMessageMessage)
    → IsDeleteMessage m
    → Reads read_delete_message (put_delete_message m) m
unfolding read_delete_message put_delete_message
read_delete_message-Reads m h = uuid_then m.channel_uid _ _ h.channel_valid (
    >>=-pure-Reads (get_be 8 0) (λ n. record m { message_snowflake = n }) m.message_snowflake
      (be_bytes 8 m.message_snowflake) (get_be-Reads m.message_snowflake h.snowflake_fits))

-- A deletion is read back, whatever follows it.
pub get_delete_message-put_delete_message :
    (m : DeleteMessageMessage) (rest : Bytes)
    → IsDeleteMessage m
    → get_delete_message (put_delete_message m ++ rest) ≡ some m
unfolding get_delete_message
get_delete_message-put_delete_message m rest h =
    run_reader-Reads read_delete_message m (put_delete_message m) rest
      (read_delete_message-Reads m h)

pub delete_message_size-put_delete_message :
    (m : DeleteMessageMessage)
    → IsUuid m.channel_uid
    → length (put_delete_message m) ≡ delete_message_size m
unfolding put_delete_message
delete_message_size-put_delete_message m h = omega (
  arith,
  length-append m.channel_uid.value (be_bytes 8 m.message_snowflake),
  length-be_bytes 8 m.message_snowflake,
  h.sixteen,
)
