-- ===== src/Json/Requests.antt =====
-- `to_json` and `from_json` of the messages that a client sends (src/message).
pub mod RoundTrip
use wire_protocols.Prelude.{ℕ, Option, none, some, List, [], ◌∷◌, ◌++◌, codes, length}
use wire_protocols.Prelude.Try.{◌>>=◌}
use wire_protocols.Wire.{Bytes}
use wire_protocols.Uuid.{Uuid}
use wire_protocols.Uuid.Text.{to_string}
use wire_protocols.Header
use wire_protocols.Header.{Operation}
use wire_protocols.Requests
use wire_protocols.Requests.{
  Request, RegisterAccountMessage, LoginMessage, ListAccountsMessage, DeleteAccountMessage,
  SendMessageMessage, DeleteMessageMessage, CreateChannelMessage, register, login, list_accounts,
  delete_account, send_message, delete_message, create_channel, Dispatch, handle, unknown_operation,
  no_members,
}
use wire_protocols.Json.{
  Library, assign, dump_object, text_at, number_at, of_uuids, uuid_of, uuid_at, each,
}

module _ (L : Library) where
  register_fields : RegisterAccountMessage → List (Bytes × L.Value)
  register_fields m =
      (codes "username", L.of_text m.username)
      ∷ (codes "password", L.of_text m.password)
      ∷ (codes "display_name", L.of_text m.display_name)
      ∷ []

  -- `RegisterAccountMessage::to_json`
  unfoldable pub register_to_json : RegisterAccountMessage → Option Bytes
  unfolding dump_object register_fields
  register_to_json m = dump_object L (register_fields m)

  -- `RegisterAccountMessage::from_json`
  unfoldable pub register_from_json : Bytes → Option RegisterAccountMessage
  unfolding text_at
  register_from_json json = do
    j ← L.parse json
    username ← text_at L (codes "username") j
    password ← text_at L (codes "password") j
    display_name ← text_at L (codes "display_name") j
    some (record { username = username; password = password; display_name = display_name })

  credential_fields : Bytes → Bytes → List (Bytes × L.Value)
  credential_fields username password =
      (codes "username", L.of_text username) ∷ (codes "password", L.of_text password) ∷ []

  -- `LoginMessage::to_json`
  unfoldable pub login_to_json : LoginMessage → Option Bytes
  unfolding dump_object credential_fields
  login_to_json m = dump_object L (credential_fields m.username m.password)

  -- `LoginMessage::from_json`
  unfoldable pub login_from_json : Bytes → Option LoginMessage
  unfolding text_at
  login_from_json json = do
    j ← L.parse json
    username ← text_at L (codes "username") j
    password ← text_at L (codes "password") j
    some (record { username = username; password = password })

  -- `DeleteAccountMessage::to_json`
  unfoldable pub delete_account_to_json : DeleteAccountMessage → Option Bytes
  unfolding dump_object credential_fields
  delete_account_to_json m = dump_object L (credential_fields m.username m.password)

  -- `DeleteAccountMessage::from_json`
  unfoldable pub delete_account_from_json : Bytes → Option DeleteAccountMessage
  unfolding text_at
  delete_account_from_json json = do
    j ← L.parse json
    username ← text_at L (codes "username") j
    password ← text_at L (codes "password") j
    some (record { username = username; password = password })

  search_fields : ListAccountsMessage → List (Bytes × L.Value)
  search_fields m = (codes "regex", L.of_text m.regex) ∷ []

  -- `ListAccountsMessage::to_json`
  unfoldable pub list_accounts_to_json : ListAccountsMessage → Option Bytes
  unfolding dump_object search_fields
  list_accounts_to_json m = dump_object L (search_fields m)

  -- `ListAccountsMessage::from_json`
  unfoldable pub list_accounts_from_json : Bytes → Option ListAccountsMessage
  unfolding text_at
  list_accounts_from_json json = do
    j ← L.parse json
    regex ← text_at L (codes "regex") j
    some (record { regex = regex })

  sending_fields : SendMessageMessage → List (Bytes × L.Value)
  unfolding to_string
  sending_fields m =
      (codes "channel_uid", L.of_text (to_string m.channel_uid))
      ∷ (codes "sender_uid", L.of_text (to_string m.sender_uid))
      ∷ (codes "text", L.of_text m.text)
      ∷ []

  -- `SendMessageMessage::to_json`
  unfoldable pub send_message_to_json : SendMessageMessage → Option Bytes
  unfolding dump_object sending_fields
  send_message_to_json m = dump_object L (sending_fields m)

  deletion_fields : DeleteMessageMessage → List (Bytes × L.Value)
  unfolding to_string
  deletion_fields m =
      (codes "channel_uid", L.of_text (to_string m.channel_uid))
      ∷ (codes "message_snowflake", L.of_number m.message_snowflake)
      ∷ []

  -- `DeleteMessageMessage::to_json`
  unfoldable pub delete_message_to_json : DeleteMessageMessage → Option Bytes
  unfolding dump_object deletion_fields
  delete_message_to_json m = dump_object L (deletion_fields m)

  creation_fields : CreateChannelMessage → List (Bytes × L.Value)
  unfolding of_uuids
  creation_fields m =
      (codes "channel_name", L.of_text m.channel_name)
      ∷ (codes "members", of_uuids L m.members)
      ∷ []

  -- `CreateChannelMessage::to_json`
  unfoldable pub create_channel_to_json : CreateChannelMessage → Option Bytes
  unfolding dump_object creation_fields
  create_channel_to_json m = dump_object L (creation_fields m)

  -- `serialize` of each class, where `PROTOCOL_JSON` is set.
  unfoldable pub request_to_json : Request → Option Bytes
  unfolding register_to_json login_to_json list_accounts_to_json delete_account_to_json
      send_message_to_json delete_message_to_json create_channel_to_json
  request_to_json (register m) = register_to_json m
  request_to_json (login m) = login_to_json m
  request_to_json (list_accounts m) = list_accounts_to_json m
  request_to_json (delete_account m) = delete_account_to_json m
  request_to_json (send_message m) = send_message_to_json m
  request_to_json (delete_message m) = delete_message_to_json m
  request_to_json (create_channel m) = create_channel_to_json m

  module _ (drawn : Bytes → Uuid) where
    -- `SendMessageMessage::from_json`
    unfoldable pub send_message_from_json : Bytes → Option SendMessageMessage
    unfolding uuid_at text_at
    send_message_from_json json = do
      j ← L.parse json
      channel_uid ← uuid_at L drawn (codes "channel_uid") j
      sender_uid ← uuid_at L drawn (codes "sender_uid") j
      text ← text_at L (codes "text") j
      some (record { channel_uid = channel_uid; sender_uid = sender_uid; text = text })

    -- `DeleteMessageMessage::from_json`
    unfoldable pub delete_message_from_json : Bytes → Option DeleteMessageMessage
    unfolding uuid_at number_at
    delete_message_from_json json = do
      j ← L.parse json
      channel_uid ← uuid_at L drawn (codes "channel_uid") j
      message_snowflake ← number_at L (codes "message_snowflake") j
      some (record { channel_uid = channel_uid; message_snowflake = message_snowflake })

    -- `CreateChannelMessage::from_json` into the object `old`: the members are appended to its own.
    unfoldable pub create_channel_from_json :
        CreateChannelMessage → Bytes → Option CreateChannelMessage
    unfolding uuid_of text_at each
    create_channel_from_json old json = do
      j ← L.parse json
      channel_name ← text_at L (codes "channel_name") j
      listed ← L.at (codes "members") j
      members ← each L (uuid_of L drawn) (L.items listed)
      some (record { channel_name = channel_name; members = old.members ++ members })

    -- The `switch` of `ClientHandler::on_read_data`, where `PROTOCOL_JSON` is set. `none`: an
    -- exception of the library or of `UUID::from_string`.
    unfoldable pub request_from_json : Operation → Bytes → Option Dispatch
    unfolding register_from_json login_from_json list_accounts_from_json delete_account_from_json
        send_message_from_json delete_message_from_json create_channel_from_json no_members
    request_from_json Header.register_account msg = do
      m ← register_from_json msg
      some (handle (register m))
    request_from_json Header.login msg = do m ← login_from_json msg; some (handle (login m))
    request_from_json Header.delete_account msg = do
      m ← delete_account_from_json msg
      some (handle (delete_account m))
    request_from_json Header.list_accounts msg = do
      m ← list_accounts_from_json msg
      some (handle (list_accounts m))
    request_from_json Header.create_channel msg = do
      m ← create_channel_from_json no_members msg
      some (handle (create_channel m))
    request_from_json Header.send_message msg = do
      m ← send_message_from_json msg
      some (handle (send_message m))
    request_from_json Header.delete_message msg = do
      m ← delete_message_from_json msg
      some (handle (delete_message m))
    request_from_json _ msg = some unknown_operation
