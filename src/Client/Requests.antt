-- ===== src/Client/Requests.antt =====
-- src/bin/client/model/tcp_client.cpp: the requests that the windows have the client write.
use wire_protocols.Prelude.{List}
use wire_protocols.Wire.{Bytes}
use wire_protocols.Uuid.{Uuid}
use wire_protocols.Models.Message.{Message}
use wire_protocols.Requests
use wire_protocols.Requests.{register, login, list_accounts, send_message, put_packet}

-- What each call writes to the socket.
unfoldable pub register_user : Bytes → Bytes → Bytes → Bytes
unfolding put_packet
register_user username display_name password =
    put_packet
      (register (record { username = username; password = password; display_name = display_name }))

unfoldable pub login_user : Bytes → Bytes → Bytes
unfolding put_packet
login_user username password =
    put_packet (login (record { username = username; password = password }))

unfoldable pub search_accounts : Bytes → Bytes
unfolding put_packet
search_accounts regex = put_packet (list_accounts (record { regex = regex }))

unfoldable pub delete_account : Bytes → Bytes → Bytes
unfolding put_packet
delete_account username password =
    put_packet (Requests.delete_account (record { username = username; password = password }))

unfoldable pub create_channel : Bytes → List Uuid → Bytes
unfolding put_packet
create_channel channel_name members =
    put_packet (Requests.create_channel (record { channel_name = channel_name; members = members }))

unfoldable pub send_text_message : Uuid → Uuid → Bytes → Bytes
unfolding put_packet
send_text_message channel_uid sender_uid text =
    put_packet
      (send_message (record { channel_uid = channel_uid; sender_uid = sender_uid; text = text }))

unfoldable pub delete_message : Message → Bytes
unfolding put_packet
delete_message message = put_packet (
    Requests.delete_message
      (record { channel_uid = message.channel_id; message_snowflake = message.snowflake }))
