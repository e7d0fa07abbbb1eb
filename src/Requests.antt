-- ===== src/Requests.antt =====
-- src/message: the messages that a client sends. Each class appends its payload to a buffer
-- (`serialize`), tells its size (`size`) and is read back from a payload (`deserialize`). Here the
-- classes stand side by side, as the `switch` of the server sees them.
mod RegisterAccount
mod Credentials
mod ListAccounts
mod SendMessage
mod CreateChannel
mod DeleteMessage
pub mod RoundTrip
pub mod LongTexts
unfoldable pub use RegisterAccount.*
unfoldable pub use Credentials.*
unfoldable pub use ListAccounts.*
unfoldable pub use SendMessage.*
unfoldable pub use CreateChannel.*
unfoldable pub use DeleteMessage.*
use wire_protocols.Prelude.{ℕ, Option, none, some, [], ◌++◌}
use wire_protocols.Prelude.Try.{◌>>=◌}
use wire_protocols.Wire.{Bytes, Fits}
use wire_protocols.Header
use wire_protocols.Header.{Operation, packet_header, put_header}

pub data Request : Type 0 where
  register : RegisterAccountMessage → Request
  login : LoginMessage → Request
  list_accounts : ListAccountsMessage → Request
  delete_account : DeleteAccountMessage → Request
  send_message : SendMessageMessage → Request
  delete_message : DeleteMessageMessage → Request
  create_channel : CreateChannelMessage → Request

-- The operation that `serialize_msg` of the class names.
unfoldable pub request_operation : Request → Operation
request_operation (register m) = Header.register_account
request_operation (login m) = Header.login
request_operation (list_accounts m) = Header.list_accounts
request_operation (delete_account m) = Header.delete_account
request_operation (send_message m) = Header.send_message
request_operation (delete_message m) = Header.delete_message
request_operation (create_channel m) = Header.create_channel

unfoldable pub request_size : Request → ℕ
request_size (register m) = register_size m
request_size (login m) = login_size m
request_size (list_accounts m) = list_accounts_size m
request_size (delete_account m) = delete_account_size m
request_size (send_message m) = send_message_size m
request_size (delete_message m) = delete_message_size m
request_size (create_channel m) = create_channel_size m

unfoldable pub put_request : Request → Bytes
put_request (register m) = put_register m
put_request (login m) = put_login m
put_request (list_accounts m) = put_list_accounts m
put_request (delete_account m) = put_delete_account m
put_request (send_message m) = put_send_message m
put_request (delete_message m) = put_delete_message m
put_request (create_channel m) = put_create_channel m

-- `serialize_msg` of each class, which `TcpClient` writes to its socket: header and payload.
unfoldable pub put_packet : Request → Bytes
unfolding request_operation request_size put_request
put_packet r = put_header (packet_header (request_operation r) (request_size r)) ++ put_request r

-- What the server makes of a payload: a request for its handler, or `Unknown operation`.
pub data Dispatch : Type 0 where
  handle : Request → Dispatch
  unknown_operation : Dispatch

unfoldable pub no_members : CreateChannelMessage
no_members = record { channel_name = []; members = [] }

-- The `deserialize` of each case in the `switch` of `ClientHandler::on_read_data`: the line that logs
-- the message is `prints_request` of Framing/Server. `none`: the payload is too short for its
-- message, and the code reads outside its buffer.
unfoldable pub get_request : Operation → Bytes → Option Dispatch
unfolding no_members
get_request Header.register_account msg = do m ← get_register msg; some (handle (register m))
get_request Header.login msg = do m ← get_login msg; some (handle (login m))
get_request Header.delete_account msg = do
  m ← get_delete_account msg
  some (handle (delete_account m))
get_request Header.list_accounts msg = do m ← get_list_accounts msg; some (handle (list_accounts m))
get_request Header.create_channel msg = do
  m ← get_create_channel no_members msg
  some (handle (create_channel m))
get_request Header.send_message msg = do m ← get_send_message msg; some (handle (send_message m))
get_request Header.delete_message msg = do
  m ← get_delete_message msg
  some (handle (delete_message m))
get_request _ msg = some unknown_operation

-- The texts and the lists of the request fit their length bytes.
abbrev pub IsRequest : Request → Type 0
IsRequest (register m) = IsRegister m
IsRequest (login m) = Fits m.username × Fits m.password
IsRequest (list_accounts m) = Fits m.regex
IsRequest (delete_account m) = Fits m.username × Fits m.password
IsRequest (send_message m) = IsSendMessage m
IsRequest (delete_message m) = IsDeleteMessage m
IsRequest (create_channel m) = IsCreateChannel m
