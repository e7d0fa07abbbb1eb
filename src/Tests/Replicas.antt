-- ===== src/Tests/Replicas.antt =====
-- A run of the server with one client.
use wire_protocols.Prelude.{
  ℕ, ◌≡◌, refl, subst, Option, none, some, List, [], ◌∷◌, codes, false, map, arith, ℕ_discrete, All,
  member,
}
use wire_protocols.Uuid.{Uuid, uuid_discrete}
use wire_protocols.Models.Channel.{Channel}
use wire_protocols.Requests.{Request, register, login, send_message, create_channel}
use wire_protocols.Responses.{Response, success, on_arrival}
use wire_protocols.Database.{Database, empty_database, find_user, find_channel}
use wire_protocols.Database.Table.{find}
use wire_protocols.Database.Linked.{Linked, Unused}
use wire_protocols.Server.{Draws, handle_request}
use wire_protocols.Server.References.{served, empty, Served-Linked}
use wire_protocols.Server.Connections.{Connection, new_connection, World, serve, connect}
use wire_protocols.Client.{Session, new_session}
use wire_protocols.Client.Handlers.{Notice, handle_responses}
use wire_protocols.Client.View.{shown}
use wire_protocols.Replica.{visible}
use wire_protocols.Models.Message.{new_message}
use wire_protocols.Replica.Delivered.{send_message-Delivered}
use wire_protocols.Replica.Worlds.{
  Run, start, connected, asked, handle_responses-InStep, receive-InStep,
}
use wire_protocols.Server.{on_register_account, on_login, on_create_channel, on_send_message}
use wire_protocols.Database.{
  get_uid_from_username, add_user, verify_password, sha256, add_channel, add_message,
}
use wire_protocols.Models.User.{new_user}
use wire_protocols.Models.Channel.{new_channel}
use wire_protocols.Wire.{bytes_discrete}
use wire_protocols.Database.Table.{update}
use wire_protocols.Models.User.{User, user_size}
use wire_protocols.Models.Channel.{channel_size}
use wire_protocols.Responses.{
  registered, logged_in, channel_created, response_size, put_response_packet,
}
use wire_protocols.Responses.{variant_size, monostate_size}
use wire_protocols.Framing.{Socket, unread}
use wire_protocols.Framing.Client.{Sendable}
use wire_protocols.Wire.Reads.{concat_map}
use wire_protocols.Client.Receiving.{receive}
use wire_protocols.Header.{put_header}
use wire_protocols.Models.User.{put_user}
use wire_protocols.Models.Channel.{put_channel}
use wire_protocols.Database.{emit_each}
use wire_protocols.Tests.Json.{packed, packed-IsLawful}
use wire_protocols.Models.User.{blank_user}
use wire_protocols.Models.Channel.{blank_channel}
use wire_protocols.Tests.{only_entry, id, id-IsUuid}
use wire_protocols.Tests.Logins.{digest, any, bob}

abbrev at : ℕ → Draws
at n = record { uid = id n; salt = codes "s"; snowflake = n; now = 1738022400000 }

abbrev reached : Option World → World
reached none = record { db = empty_database; connections = [] }
reached (some w) = w

abbrev connected_world : World
connected_world = record { db = empty_database; connections = (0, new_connection) ∷ [] }

abbrev asked_on_0 : ℕ → Request → World → World
asked_on_0 n r w = reached (serve digest any (at n) 0 r w)

abbrev on_0 : World → Connection
on_0 w = elim (find ℕ_discrete 0 w.connections) [ none ↦ new_connection | some c ↦ c ]

abbrev registered_world : World
registered_world = asked_on_0 3 (register bob) connected_world

abbrev login_world : World
login_world =
    asked_on_0 4 (login (record { username = codes "bob"; password = codes "word" }))
      registered_world

abbrev channel_world : World
channel_world =
    asked_on_0 5 (create_channel (record { channel_name = codes "talk"; members = id 3 ∷ [] }))
      login_world

-- Draws that a database without channels and messages does not have.
Unused-early :
    (n : ℕ) (db : Database)
    → find_user (id n) db ≡ none
    → db.channels ≡ []
    → db.messages ≡ []
    → Unused (id n) n db
unfolding find
Unused-early n db fresh cs ms = record {
  no_user = fresh;
  no_channel = rw cs refl;
  no_message = rw ms refl;
  no_member = λ cid c e.
      let never = subst (λ (t : List (Uuid × Channel)). find uuid_discrete cid t ≡ some c) cs e in
      cc;
  no_listing = λ cid c e.
      let never = subst (λ (t : List (Uuid × Channel)). find uuid_discrete cid t ≡ some c) cs e in
      cc;
}

registered-Run : Run digest any registered_world
unfolding find empty_database connect serve ℕ_discrete handle_request
registered-Run =
    asked registered_world (at 3) 0 (register bob) new_connection (connected 0 start refl) refl tt
      (Unused-early 3 empty_database refl refl refl) refl

login-Run : Run digest any login_world
unfolding find empty_database connect serve ℕ_discrete handle_request on_register_account
    get_uid_from_username add_user uuid_discrete new_user on_login bytes_discrete verify_password
    sha256
login-Run =
    asked login_world (at 4) 0 (login (record { username = codes "bob"; password = codes "word" }))
      (on_0 registered_world) registered-Run refl refl
      (Unused-early 4 registered_world.db refl refl refl) refl

channel-Run : Run digest any channel_world
unfolding find empty_database connect serve ℕ_discrete handle_request on_register_account
    get_uid_from_username add_user uuid_discrete new_user on_login bytes_discrete verify_password
    sha256 on_create_channel add_channel new_channel
channel-Run =
    asked channel_world (at 5) 0
      (create_channel (record { channel_name = codes "talk"; members = id 3 ∷ [] }))
      (on_0 login_world) login-Run refl (refl, tt) (Unused-early 5 login_world.db refl refl refl)
      refl

-- Draws that a database of one channel without messages does not have.
Unused-later :
    (n : ℕ) (k : Uuid) (c : Channel) (db : Database)
    → find_user (id n) db ≡ none
    → find_channel (id n) db ≡ none
    → db.channels ≡ (k, c) ∷ []
    → db.messages ≡ []
    → member uuid_discrete (id n) c.user_uids ≡ false
    → member ℕ_discrete n c.message_snowflakes ≡ false
    → Unused (id n) n db
unfolding find
Unused-later n k c db no_user no_channel cs ms stranger unlisted = record {
  no_user = no_user;
  no_channel = no_channel;
  no_message = rw ms refl;
  no_member = λ cid d e.
      subst (λ (x : Channel). member uuid_discrete (id n) x.user_uids ≡ false) (only cid d e)
        stranger;
  no_listing = λ cid d e.
      subst (λ (x : Channel). member ℕ_discrete n x.message_snowflakes ≡ false) (only cid d e)
        unlisted;
}
  where
    only : (cid : Uuid) (d : Channel) → find_channel cid db ≡ some d → c ≡ d
    only cid d e =
        only_entry k cid c d
          (subst (λ (t : List (Uuid × Channel)). find uuid_discrete cid t ≡ some d) cs e)

-- Bob sends a message to his channel.
abbrev message_world : World
message_world =
    asked_on_0 6
      (send_message (record { channel_uid = id 5; sender_uid = id 3; text = codes "hi" }))
      channel_world

message-Run : Run digest any message_world
unfolding find empty_database connect serve ℕ_discrete handle_request on_register_account
    get_uid_from_username add_user uuid_discrete new_user on_login bytes_discrete verify_password
    sha256 on_create_channel add_channel new_channel on_send_message add_message update
message-Run =
    asked message_world (at 6) 0
      (send_message (record { channel_uid = id 5; sender_uid = id 3; text = codes "hi" }))
      (on_0 channel_world) channel-Run refl tt
      (Unused-later 6 (id 5) (new_channel (codes "talk") (id 3 ∷ []) (id 5)) channel_world.db refl
        refl refl refl refl refl)
      refl

handle_responses-InStep_example :
    (last : Session) × (notices : List Notice) × (handle_responses
        (map on_arrival (on_0 message_world).sent)
        new_session
      ≡ some (last, notices))
    × ((cid : Uuid) → shown last cid ≡ visible (id 3) message_world.db cid)
unfolding find empty_database connect serve ℕ_discrete handle_request on_register_account
    get_uid_from_username add_user uuid_discrete new_user on_login bytes_discrete verify_password
    sha256 on_create_channel add_channel new_channel on_send_message add_message update
handle_responses-InStep_example =
    handle_responses-InStep digest any message_world 0 (on_0 message_world) (id 3) message-Run refl
      refl

abbrev bob_user : User
bob_user = new_user (codes "bob") (codes "Bob") (id 3)

abbrev talk_channel : Channel
talk_channel = new_channel (codes "talk") (id 3 ∷ []) (id 5)

abbrev first_responses : List Response
first_responses =
    registered (success tt)
    ∷ logged_in (success bob_user)
    ∷ channel_created (success talk_channel)
    ∷ []

first_responses-Sendable : All (Sendable packed packed-IsLawful) first_responses
unfolding new_user new_channel response_size variant_size user_size channel_size monostate_size
    packed-IsLawful blank_channel blank_user
first_responses-Sendable = (
  (tt, (omega arith, tt)),
  (
    (
      record {
        uid_valid = id-IsUuid 3 (omega arith);
        username_fits = omega arith;
        display_name_fits = omega arith;
        profile_pic_fits = omega arith;
      },
      (
        omega arith,
        record {
          uid_valid = id-IsUuid 3 (omega arith);
          username_text = tt;
          display_name_text = tt;
          profile_pic_text = tt;
        },
      ),
    ),
    (
      (
        record {
          uid_valid = id-IsUuid 5 (omega arith);
          name_fits = omega arith;
          users_fit = omega arith;
          users_valid = (id-IsUuid 3 (omega arith), tt);
          snowflakes_fit = omega arith;
        },
        (
          omega arith,
          record {
            uid_valid = id-IsUuid 5 (omega arith);
            name_text = tt;
            users_valid = (id-IsUuid 3 (omega arith), tt);
            snowflakes_fit = tt;
          },
        ),
      ),
      tt,
    ),
  ),
)

abbrev first_socket : Socket
first_socket = record { available = concat_map put_response_packet first_responses; later = [] }

receive-InStep_example :
    (last : Session) × (notices : List Notice) × (left : Socket) × (receive packed 4 first_socket
        new_session
      ≡ some (last, notices, left))
    × (unread left ≡ [])
    × ((cid : Uuid) → shown last cid ≡ visible (id 3) channel_world.db cid)
unfolding find empty_database connect serve ℕ_discrete handle_request on_register_account
    get_uid_from_username add_user uuid_discrete new_user on_login bytes_discrete verify_password
    sha256 on_create_channel add_channel new_channel emit_each put_response_packet put_header
    put_user put_channel packed-IsLawful
receive-InStep_example =
    receive-InStep digest any packed packed-IsLawful channel_world 0 (on_0 channel_world) (id 3)
      first_socket channel-Run refl refl first_responses-Sendable refl (omega arith)

Served-Linked_example : Linked (on_register_account digest (at 3) bob empty_database none).db
unfolding handle_request
Served-Linked_example =
    Served-Linked digest any (on_register_account digest (at 3) bob empty_database none).db (
      served (at 3) (register bob) none (on_register_account digest (at 3) bob empty_database none)
        empty (unfold empty_database find in Unused-early 3 empty_database refl refl refl) refl)

send_message-Delivered_example :
    (w' : World) × (c' : Connection) × (last : Session) × (notices : List Notice) × (serve digest
        any
        (at 6)
        0
        (send_message (record { channel_uid = id 5; sender_uid = id 3; text = codes "hi" }))
        channel_world
      ≡ some w')
    × (find ℕ_discrete 0 w'.connections ≡ some c')
    × (handle_responses (map on_arrival c'.sent) new_session ≡ some (last, notices))
    × (shown last (id 5) ≡ some (new_message (id 3) (id 5) (codes "hi") 6 1738022400000 ∷ []))
unfolding find empty_database connect serve ℕ_discrete handle_request on_register_account
    get_uid_from_username add_user uuid_discrete new_user on_login bytes_discrete verify_password
    sha256 on_create_channel add_channel new_channel update
send_message-Delivered_example =
    send_message-Delivered digest any channel_world (at 6) 0 0
      (record { channel_uid = id 5; sender_uid = id 3; text = codes "hi" }) (on_0 channel_world)
      (on_0 channel_world) (id 3) talk_channel channel-Run refl refl refl
      (Unused-later 6 (id 5) talk_channel channel_world.db refl refl refl refl refl refl) refl refl
