-- ===== src/Responses.antt =====
-- src/message: the responses that the server sends, as the `switch` of the client sees them. Each
-- class holds a `std::variant` of a value and an error message.
mod Payload
mod Listing
pub mod RoundTrip
unfoldable pub use Payload.*
unfoldable pub use Listing.*
use wire_protocols.Prelude.{ℕ, Option, none, some, List, [], ◌++◌, map}
use wire_protocols.Prelude.Try.{◌>>=◌}
use wire_protocols.Wire.{Bytes, Fits, u8, run_reader}
use wire_protocols.Uuid.{Uuid}
use wire_protocols.Header
use wire_protocols.Header.{Operation, packet_header, put_header}
use wire_protocols.Models.User.{
  User, IsUser, put_user, get_user, user_size, received_user, blank_user,
}
use wire_protocols.Models.Message.{Message, IsMessage, put_message, get_message, message_size}
use wire_protocols.Models.Channel.{
  Channel, IsChannel, put_channel, get_channel, channel_size, received_channel, blank_channel,
}

pub data Response : Type 0 where
  registered : Variant (Unit {0}) → Response
  logged_in : Variant User → Response
  accounts_listed : Variant (List User) → Response
  account_deleted : Variant User → Response
  message_sent : Variant Message → Response
  message_deleted : Variant Message → Response
  channel_created : Variant Channel → Response

-- The operation that `serialize_msg` of the class names.
unfoldable pub response_operation : Response → Operation
response_operation (registered v) = Header.register_account
response_operation (logged_in v) = Header.login
response_operation (accounts_listed v) = Header.list_accounts
response_operation (account_deleted v) = Header.delete_account
response_operation (message_sent v) = Header.send_message
response_operation (message_deleted v) = Header.delete_message
response_operation (channel_created v) = Header.create_channel

-- `RegisterAccountResponse` has no value to send.
unfoldable pub put_monostate : Unit {0} → Bytes
put_monostate u = []

unfoldable pub monostate_size : Unit {0} → ℕ
monostate_size u = 0

unfoldable pub get_monostate : Bytes → Option (Unit {0})
get_monostate buf = some tt

unfoldable pub put_response : Response → Bytes
unfolding put_variant put_monostate
put_response (registered v) = put_variant put_monostate v
put_response (logged_in v) = put_variant put_user v
put_response (accounts_listed v) = put_variant put_listing v
put_response (account_deleted v) = put_variant put_user v
put_response (message_sent v) = put_variant put_message v
put_response (message_deleted v) = put_variant put_message v
put_response (channel_created v) = put_variant put_channel v

unfoldable pub response_size : Response → ℕ
unfolding variant_size monostate_size
response_size (registered v) = variant_size monostate_size v
response_size (logged_in v) = variant_size user_size v
response_size (accounts_listed v) = variant_size listing_size v
response_size (account_deleted v) = variant_size user_size v
response_size (message_sent v) = variant_size message_size v
response_size (message_deleted v) = variant_size message_size v
response_size (channel_created v) = variant_size channel_size v

-- `serialize_msg` of each class, which the server hands to `write_data`: header and payload.
unfoldable pub put_response_packet : Response → Bytes
unfolding response_operation response_size put_response
put_response_packet r =
    put_header (packet_header (response_operation r) (response_size r)) ++ put_response r

-- What the client makes of a payload.
pub data Arrival : Type 0 where
  arrived : Response → Arrival
  unknown_operation : Arrival

unfoldable pub decode_user : Bytes → Option User
decode_user buf = run_reader buf (get_user blank_user)

unfoldable pub decode_message : Bytes → Option Message
decode_message buf = run_reader buf get_message

unfoldable pub decode_channel : Bytes → Option Channel
decode_channel buf = run_reader buf (get_channel blank_channel)

-- The `deserialize` of each case in the `switch` of `TcpClient::onReadyRead`: the line that logs the
-- response is `prints_response` of Framing/Client.
unfoldable pub get_response : Operation → Bytes → Option Arrival
get_response Header.register_account msg = do
  v ← get_variant get_monostate msg
  some (arrived (registered v))
get_response Header.login msg = do v ← get_variant decode_user msg; some (arrived (logged_in v))
get_response Header.list_accounts msg = do
  v ← get_variant get_listing msg
  some (arrived (accounts_listed v))
get_response Header.delete_account msg = do
  v ← get_variant decode_user msg
  some (arrived (account_deleted v))
get_response Header.delete_message msg = do
  v ← get_variant decode_message msg
  some (arrived (message_deleted v))
get_response Header.create_channel msg = do
  v ← get_variant decode_channel msg
  some (arrived (channel_created v))
get_response Header.send_message msg = do
  v ← get_variant decode_message msg
  some (arrived (message_sent v))
get_response _ msg = some unknown_operation

-- The texts and the lists of the value, or the error message, fit their length bytes.
abbrev pub IsResponse : Response → Type 0
IsResponse (registered v) = IsVariant (λ _. Unit {0}) v
IsResponse (logged_in v) = IsVariant IsUser v
IsResponse (accounts_listed v) = IsVariant IsListing v
IsResponse (account_deleted v) = IsVariant IsUser v
IsResponse (message_sent v) = IsVariant IsMessage v
IsResponse (message_deleted v) = IsVariant IsMessage v
IsResponse (channel_created v) = IsVariant IsChannel v

-- A response as the client gets it: a user comes without key and channels, and a channel with the
-- lowest byte of each snowflake.
abbrev pub on_arrival : Response → Response
on_arrival (registered v) = registered v
on_arrival (logged_in v) = logged_in (map_variant (received_user blank_user) v)
on_arrival (accounts_listed v) = accounts_listed (map_variant received_listing v)
on_arrival (account_deleted v) = account_deleted (map_variant (received_user blank_user) v)
on_arrival (message_sent v) = message_sent v
on_arrival (message_deleted v) = message_deleted v
on_arrival (channel_created v) = channel_created (map_variant (received_channel blank_channel) v)
