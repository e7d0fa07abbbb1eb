-- ===== src/Client/Handlers.antt =====
-- src/bin/client/model/message_handlers.cpp: what the client does with a response.
use wire_protocols.Prelude.{◌+◌, Option, none, some, List, [], ◌∷◌, ◌++◌, length}
use wire_protocols.Prelude.Try.{◌>>=◌}
use wire_protocols.Wire.{Bytes}
use wire_protocols.Models.User
use wire_protocols.Models.User.{User}
use wire_protocols.Models.Message.{Message}
use wire_protocols.Models.Channel.{Channel}
use wire_protocols.Responses
use wire_protocols.Responses.{
  Variant, success, failure, Response, registered, logged_in, accounts_listed, account_deleted,
  channel_created, Arrival, arrived, unknown_operation,
}
use wire_protocols.Client.{
  Session, add_message, remove_message, add_channel, set_active_channel, reset,
}

-- The signals of `TcpClient` and of `Session` to the windows, and the calls of the main window.
pub data Notice : Type 0 where
  registration_success login_success delete_account_success : Notice
  update_active_channel window_reset authentication_page : Notice
  registration_failure login_failure search_failure delete_account_failure : Bytes → Notice
  create_channel_failure send_message_failure delete_message_failure : Bytes → Notice
  search_success : List User → Notice
  create_channel_success : Channel → Notice
  send_message_success : Message → Notice
  delete_message_success : Message → Notice

-- A handler leaves the session and its signals in their order. `none`: an exception leaves it, or it
-- follows a null pointer.
abbrev pub Handled : Type 0
Handled = Option (Session × List Notice)

unfoldable pub on_register_account_response : Variant (Unit {0}) → Session → Handled
on_register_account_response (success u) s = some (s, registration_success ∷ [])
on_register_account_response (failure e) s = some (s, registration_failure e ∷ [])

unfoldable pub on_login_response : Variant User → Session → Handled
on_login_response (success user) s =
    some (record s { authenticated_user = some user }, login_success ∷ [])
on_login_response (failure e) s = some (s, login_failure e ∷ [])

unfoldable pub on_list_accounts_response : Variant (List User) → Session → Handled
on_list_accounts_response (success users) s = some (s, search_success users ∷ [])
on_list_accounts_response (failure e) s = some (s, search_failure e ∷ [])

unfoldable pub on_delete_account_response : Variant User → Session → Handled
unfolding reset
on_delete_account_response (success user) s =
    some (reset s, window_reset ∷ authentication_page ∷ delete_account_success ∷ [])
on_delete_account_response (failure e) s = some (s, delete_account_failure e ∷ [])

-- The channel was just made: its object is a new one.
unfoldable pub open_new_channel : Channel → User → Session → Session
unfolding add_channel set_active_channel User.add_channel
open_new_channel c user s =
    let object = length s.objects in
    set_active_channel object (
      add_channel object c (record s {
        authenticated_user = some (User.add_channel c.uid user);
        objects = s.objects ++ (c ∷ []);
      }))

unfoldable pub on_create_channel_response : Variant Channel → Session → Handled
unfolding open_new_channel
on_create_channel_response (success c) s = elim s.authenticated_user [
  | none ↦ none
  | some user ↦
      some (open_new_channel c user s, update_active_channel ∷ create_channel_success c ∷ [])
]
on_create_channel_response (failure e) s = some (s, create_channel_failure e ∷ [])

-- A message that was just made is a new object.
unfoldable pub on_send_message_response : Variant Message → Session → Handled
unfolding add_message
on_send_message_response (success m) s = do
  s' ← add_message s.made m (record s { made = s.made + 1 })
  some (s', send_message_success m ∷ [])
on_send_message_response (failure e) s = some (s, send_message_failure e ∷ [])

unfoldable pub on_delete_message_response : Variant Message → Session → Handled
unfolding remove_message
on_delete_message_response (success m) s = do
  s' ← remove_message s.made m (record s { made = s.made + 1 })
  some (s', delete_message_success m ∷ [])
on_delete_message_response (failure e) s = some (s, delete_message_failure e ∷ [])

-- `MessageHandler::dispatch` with the handlers of `init_message_handlers`.
unfoldable pub handle_response : Response → Session → Handled
handle_response (registered v) s = on_register_account_response v s
handle_response (logged_in v) s = on_login_response v s
handle_response (accounts_listed v) s = on_list_accounts_response v s
handle_response (account_deleted v) s = on_delete_account_response v s
handle_response (Responses.message_sent v) s = on_send_message_response v s
handle_response (Responses.message_deleted v) s = on_delete_message_response v s
handle_response (channel_created v) s = on_create_channel_response v s

-- What the loop of `onReadyRead` does with the packets that it decodes, one after the other.
unfoldable pub handle_responses : List Response → Session → Handled
handle_responses [] s = some (s, [])
handle_responses (r ∷ rs) s = do
  (s', notices) ← handle_response r s
  (last, more) ← handle_responses rs s'
  some (last, notices ++ more)
