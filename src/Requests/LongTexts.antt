-- ===== src/Requests/LongTexts.antt =====
-- Texts of src/message/send_message.cpp that are longer than their length byte can tell.
use wire_protocols.Prelude.{
  ◌≡◌, ap, ◌∙◌, subst, some, ◌∷◌, ◌++◌, arith, length, take, drop, append_assoc, take-drop,
  length-take,
}
use wire_protocols.Wire.{Bytes, get_bytes, get_string, put_string, u8}
use wire_protocols.Wire.Reads.{Reads, byte_then, get_bytes-Reads, >>=-pure-Reads, run_reader-Reads}
use wire_protocols.Uuid.{IsUuid, put_uuid, uuid_then}
use wire_protocols.Requests.{
  SendMessageMessage, put_send_message, get_send_message, read_send_message,
}

-- What the length byte of a text leaves of it.
abbrev pub carried : Bytes → Bytes
carried s = take (u8 (length s)) s

get_string-carried : (s : Bytes) → Reads get_string (u8 (length s) ∷ carried s) (carried s)
unfolding get_string
get_string-carried s = byte_then (u8 (length s)) get_bytes (carried s) (
    subst (λ k. Reads (get_bytes k) (carried s) (carried s))
      (length-take (u8 (length s)) s (omega arith)) (get_bytes-Reads (carried s)))

read_send_message-carried :
    (m : SendMessageMessage)
    → IsUuid m.channel_uid
    → IsUuid m.sender_uid
    → Reads read_send_message
        (put_uuid m.channel_uid ++ (put_uuid m.sender_uid ++ (u8 (length m.text) ∷ carried m.text)))
        (record m { text = carried m.text })
unfolding read_send_message
read_send_message-carried m channel sender = uuid_then m.channel_uid _ _ channel (
    uuid_then m.sender_uid _ _ sender (
      >>=-pure-Reads get_string (λ text. record m { text = text }) (carried m.text)
        (u8 (length m.text) ∷ carried m.text) (get_string-carried m.text)))

-- A message to send whose identifiers have 16 bytes, with a text of any length, is read back with
-- the first bytes of its text only, as many as the length of the text modulo 256.
pub get_send_message-carried :
    (m : SendMessageMessage)
    → IsUuid m.channel_uid
    → IsUuid m.sender_uid
    → get_send_message (put_send_message m) ≡ some (record m { text = carried m.text })
unfolding get_send_message put_send_message put_string
get_send_message-carried m channel sender =
    let k = u8 (length m.text) in
    let front = put_uuid m.sender_uid ++ (k ∷ carried m.text) in
    let behind = drop k m.text in
    let whole : (put_uuid m.channel_uid ++ front) ++ behind
        ≡ put_uuid m.channel_uid ++ (put_uuid m.sender_uid ++ (k ∷ m.text)) =
      append_assoc (put_uuid m.channel_uid) front behind
      ∙ ap (λ t. put_uuid m.channel_uid ++ t)
          (append_assoc (put_uuid m.sender_uid) (k ∷ carried m.text) behind
            ∙ ap (λ t. put_uuid m.sender_uid ++ (k ∷ t)) (take-drop k m.text)) in
    rw (← whole) (
      run_reader-Reads read_send_message (record m { text = carried m.text })
        (put_uuid m.channel_uid ++ front) behind (read_send_message-carried m channel sender))
