-- ===== src/Requests/SendMessage.antt =====
-- src/message/send_message.cpp
use wire_protocols.Prelude.{ℕ, ◌+◌, ◌≡◌, Option, some, ◌++◌, arith, length, length-append}
use wire_protocols.Wire.{Bytes, Reader, ◌>>=◌, pure, run_reader, get_string, put_string, Fits}
use wire_protocols.Wire.Reads.{Reads, >>=-pure-Reads, run_reader-Reads, get_string-Reads}
use wire_protocols.Uuid.{Uuid, IsUuid, put_uuid, get_uuid, uuid_size, uuid_then}

pub record SendMessageMessage : Type 0 where
  pub channel_uid : Uuid
  pub sender_uid : Uuid
  pub text : Bytes

-- `SendMessageMessage::serialize`: what it appends to the buffer.
unfoldable pub put_send_message : SendMessageMessage → Bytes
unfolding put_uuid
put_send_message m = put_uuid m.channel_uid ++ (put_uuid m.sender_uid ++ put_string m.text)

-- `SendMessageMessage::size`
unfoldable pub send_message_size : SendMessageMessage → ℕ
unfolding uuid_size
send_message_size m = uuid_size m.channel_uid + uuid_size m.sender_uid + 1 + length m.text

-- `SendMessageMessage::deserialize`
unfoldable pub read_send_message : Reader SendMessageMessage
unfolding get_uuid get_string
read_send_message = do
  channel_uid ← get_uuid
  sender_uid ← get_uuid
  text ← get_string
  pure (record { channel_uid = channel_uid; sender_uid = sender_uid; text = text })

-- From the front of the payload.
unfoldable pub get_send_message : Bytes → Option SendMessageMessage
get_send_message buf = run_reader buf read_send_message

pub record IsSendMessage (m : SendMessageMessage) : Type 0 where
  pub channel_valid : IsUuid m.channel_uid
  pub sender_valid : IsUuid m.sender_uid
  pub text_fits : Fits m.text

read_send_message-Reads :
    (m : SendMessageMessage) → IsSendMessage m → Reads read_send_message (put_send_message m) m
unfolding read_send_message put_send_message
read_send_message-Reads m h = uuid_then m.channel_uid _ _ h.channel_valid (
    uuid_then m.sender_uid _ _ h.sender_valid (
      >>=-pure-Reads get_string (λ text. record m { text = text }) m.text (put_string m.text)
        (get_string-Reads m.text h.text_fits)))

-- A message to send is read back, whatever follows it.
pub get_send_message-put_send_message :
    (m : SendMessageMessage) (rest : Bytes)
    → IsSendMessage m
    → get_send_message (put_send_message m ++ rest) ≡ some m
unfolding get_send_message
get_send_message-put_send_message m rest h =
    run_reader-Reads read_send_message m (put_send_message m) rest (read_send_message-Reads m h)

pub send_message_size-put_send_message :
    (m : SendMessageMessage) → length (put_send_message m) ≡ send_message_size m
unfolding put_send_message send_message_size put_string
send_message_size-put_send_message m = omega (
  arith,
  length-append m.channel_uid.value (put_uuid m.sender_uid ++ put_string m.text),
  length-append m.sender_uid.value (put_string m.text),
)
