-- ===== src/Tests/Sessions.antt =====
-- Runs of the client: a burst of bytes, and the response to a deletion.
use wire_protocols.Prelude.{◌≡◌, refl, none, some, List, [], ◌∷◌, codes, arith, ℕ_discrete}
use wire_protocols.Uuid.{uuid_discrete}
use wire_protocols.Responses.{Response, success}
use wire_protocols.Database.Table.{find}
use wire_protocols.Client.{Session, new_session}
use wire_protocols.Client.Handlers.{Notice, handle_responses}
use wire_protocols.Database.Table.{update}
use wire_protocols.Responses.{
  failure, registered, logged_in, channel_created, message_sent, message_deleted, response_size,
  put_response_packet,
}
use wire_protocols.Responses.{variant_size, monostate_size}
use wire_protocols.Framing.{Socket, unread}
use wire_protocols.Wire.Reads.{concat_map}
use wire_protocols.Client
use wire_protocols.Client.{
  put, add_message_at, remove_message, remove_message_at, set_active_channel,
}
use wire_protocols.Client.Handlers.{
  Handled, handle_response, registration_success, registration_failure,
  on_register_account_response, on_login_response, on_create_channel_response,
  on_send_message_response, on_delete_message_response, open_new_channel,
}
use wire_protocols.Client.Receiving.{receive, receive-burst}
use wire_protocols.Prelude.{◌↔◌, arith}
use wire_protocols.Models.Channel.{Channel}
use wire_protocols.Client.Exceptions.{handle_response-none}
use wire_protocols.Tests.Json.{packed, packed-IsLawful}
use wire_protocols.Tests.{id, id-IsUuid}
use wire_protocols.Uuid.Text.{to_string}
use wire_protocols.Uuid.Parse.{from_string, from_string-to_string}
use wire_protocols.Prelude.{ℕ}
use wire_protocols.Models.Message.{Message}
use wire_protocols.Client.{get_active_channel, get_active_channel_messages}
use wire_protocols.Client.Active.{get_active_channel_messages_total}
use wire_protocols.Client.Deletion.{handle_response-deletion_kept}
use wire_protocols.Header.{put_header}
use wire_protocols.Wire.{put_string}
use wire_protocols.Tests.{ann, room, hello}

abbrev burst_socket : Socket
burst_socket = record {
  available =
      concat_map put_response_packet
        (registered (success tt) ∷ registered (failure (codes "Username is taken")) ∷ []);
  later = [];
}

receive-burst_example :
    (left : Socket) × (receive packed 3 burst_socket new_session
      ≡ some (
        new_session,
        registration_success ∷ registration_failure (codes "Username is taken") ∷ [],
        left,
      ))
    × (unread left ≡ [])
unfolding handle_responses handle_response on_register_account_response put_response_packet
    put_header put_string packed-IsLawful
receive-burst_example =
    receive-burst packed packed-IsLawful
      (registered (success tt) ∷ registered (failure (codes "Username is taken")) ∷ []) burst_socket
      new_session new_session
      (registration_success ∷ registration_failure (codes "Username is taken") ∷ [])
      (
        (tt, (unfold response_size variant_size monostate_size in omega arith, tt)),
        ((omega arith, (unfold response_size variant_size in omega arith, tt)), tt),
      )
      refl (omega arith) refl

-- The session of Ann in her room, with a message in it.
abbrev after : Handled → Session
after none = new_session
after (some (s, ns)) = s

abbrev notices_of : Handled → List Notice
notices_of none = []
notices_of (some (s, ns)) = ns

abbrev arrived_first : List Response
arrived_first =
    logged_in (success ann) ∷ channel_created (success room) ∷ message_sent (success hello) ∷ []

abbrev with_hello : Handled
with_hello = handle_responses arrived_first new_session

abbrev without_hello : Handled
without_hello = handle_response (message_deleted (success hello)) (after with_hello)

handle_response-deletion_kept_example :
    find uuid_discrete (id 9) (after without_hello).channel_messages
    ≡ find uuid_discrete (id 9) (after with_hello).channel_messages
unfolding handle_responses handle_response on_login_response on_create_channel_response
    on_send_message_response on_delete_message_response open_new_channel Client.add_message
    add_message_at remove_message remove_message_at put find update new_session uuid_discrete
    Client.add_channel set_active_channel ℕ_discrete
handle_response-deletion_kept_example =
    handle_response-deletion_kept arrived_first hello (after with_hello) (after without_hello)
      (notices_of with_hello) (notices_of without_hello) refl refl (id 9)

-- Nobody is logged in.
handle_response-none_example :
    (handle_response (channel_created (success room)) new_session ≡ none) ↔ (
      (c : Channel) × (channel_created (success room) ≡ channel_created (success c))
      × (new_session.authenticated_user ≡ none))
unfolding handle_responses
handle_response-none_example =
    handle_response-none [] (channel_created (success room)) new_session [] refl

from_string-to_string_example : from_string (id 7) (to_string (id 200)) ≡ some (id 200)
from_string-to_string_example =
    from_string-to_string (id 200) (id 7) (id-IsUuid 200 (omega arith)) refl

get_active_channel_messages_total_example :
    ((ms : List (ℕ × Message)) × (get_active_channel_messages (after with_hello) ≡ some ms))
    × ((i : ℕ)
        → (after with_hello).open_channel ≡ some i
        → (c : Channel) × (get_active_channel (after with_hello) ≡ some c)
          × (get_active_channel_messages (after with_hello)
              ≡ find uuid_discrete c.uid (after with_hello).channel_messages))
unfolding handle_responses handle_response on_login_response on_create_channel_response
    on_send_message_response on_delete_message_response open_new_channel Client.add_message
    add_message_at remove_message remove_message_at put find update new_session uuid_discrete
    Client.add_channel set_active_channel ℕ_discrete
get_active_channel_messages_total_example =
    get_active_channel_messages_total arrived_first (after with_hello) (notices_of with_hello) refl
