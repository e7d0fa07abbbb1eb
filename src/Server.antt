-- ===== src/Server.antt =====
-- src/bin/server/model/message_handlers.cpp, src/bin/server/model/client_handler.cpp: the handlers
-- of the requests of one client, over the database that all clients share.
pub mod Accounts
pub mod Races
pub mod Drawing
pub mod Throws
pub mod Login
pub mod Outcomes
pub mod Exceptions
pub mod References
pub mod Connections
pub mod Snowflakes
pub mod Generated
pub mod Registry
use wire_protocols.Prelude.{
  ℕ, ◌+◌, ite, Option, none, some, List, [], ◌∷◌, ◌++◌, Bool, true, false, codes, if◌then◌else◌,
  map,
}
use wire_protocols.Wire.{Bytes}
use wire_protocols.Uuid.{Uuid}
use wire_protocols.Models.User.{User, new_user}
use wire_protocols.Models.Message.{Message}
use wire_protocols.Models.Channel.{Channel}
use wire_protocols.Requests.{
  Request, register, login, list_accounts, delete_account, send_message, delete_message,
  create_channel, RegisterAccountMessage, LoginMessage, ListAccountsMessage, DeleteAccountMessage,
  SendMessageMessage, DeleteMessageMessage, CreateChannelMessage,
}
use wire_protocols.Responses.{
  Variant, success, failure, Response, registered, logged_in, accounts_listed, account_deleted,
  message_sent, message_deleted, channel_created,
}
use wire_protocols.Database
use wire_protocols.Database.{
  Database, Signal, find_user, find_channel, find_message, get_uid_from_username, add_user,
  verify_password,
}
use wire_protocols.Database.Removal

-- What a handler leaves: the database, the user that the client is logged in as, what it writes to
-- the client, and the signals that it makes users emit.
pub record Step : Type 0 where
  pub db : Database
  pub authenticated : Option Uuid
  pub written : List Response
  pub signals : List Signal

-- The random identifier and salt that a handler may draw, the next snowflake, and the clock.
pub record Draws : Type 0 where
  pub uid : Uuid
  pub salt : Bytes
  pub snowflake : ℕ
  pub now : ℕ

abbrev pub reply : Database → Option Uuid → Response → Step
reply db who r = record { db = db; authenticated = who; written = r ∷ []; signals = [] }

abbrev pub name_taken : Bytes
name_taken = codes "Username already exists"

abbrev pub name_missing : Bytes
name_missing = codes "Username does not exist"

abbrev pub wrong_password : Bytes
wrong_password = codes "Incorrect password"

abbrev pub no_match : Bytes
no_match = codes "Username and password do not match"

-- The messages of a channel that are in the message table, as they are sent after a login.
unfoldable pub replay_messages : List ℕ → Database → List Response
replay_messages [] db = []
replay_messages (n ∷ ns) db =
    let rest = replay_messages ns db in
    elim (find_message n db) [ none ↦ rest | some m ↦ message_sent (success m) ∷ rest ]

-- The channels of the user that are there, each followed by its messages.
unfoldable pub replay : List Uuid → Database → List Response
unfolding replay_messages
replay [] db = []
replay (uid ∷ uids) db =
    let rest = replay uids db in
    elim (find_channel uid db) [
      | none ↦ rest
      | some c ↦ channel_created (success c) ∷ (replay_messages c.message_snowflakes db ++ rest)
    ]

-- The regular expressions of the standard library: an expression is refused with the text of its
-- error, or tells which texts it matches, where `std::regex_match` completes.
abbrev pub Regex : Type 0
Regex = Bytes → Variant (Bytes → Bool)

-- `UserTable::get_uuids_matching_regex`, once the expression is compiled.
unfoldable pub matching : (Bytes → Bool) → List (Uuid × User) → List Uuid
matching accepts [] = []
matching accepts ((uid, user) ∷ rest) =
    let later = matching accepts rest in if accepts user.username then uid ∷ later else later

-- `db.get_user_by_uid` of each identifier; one that is missing is passed over.
unfoldable pub users_of : List Uuid → Database → List User
users_of [] db = []
users_of (uid ∷ uids) db =
    let rest = users_of uids db in elim (find_user uid db) [ none ↦ rest | some u ↦ u ∷ rest ]

-- The response of `on_list_accounts` to what the regular expression gave.
unfoldable pub searched : Variant (Bytes → Bool) → Database → Option Uuid → Step
unfolding matching users_of
searched (failure what) db who =
    reply db who (accounts_listed (failure (codes "Regex error: " ++ what)))
searched (success accepts) db who =
    reply db who (accounts_listed (success (users_of (matching accepts db.users) db)))

unfoldable pub on_list_accounts : Regex → ListAccountsMessage → Database → Option Uuid → Step
unfolding searched
on_list_accounts regex msg db who = searched (regex msg.regex) db who

unfoldable pub on_delete_message : DeleteMessageMessage → Database → Option Uuid → Step
on_delete_message msg db who =
    let (db', result, signals) = Removal.remove_message msg.message_snowflake db in
    record { db = db'; authenticated = who; written = []; signals = signals }

unfoldable pub on_create_channel : Draws → CreateChannelMessage → Database → Option Uuid → Step
on_create_channel draws msg db who =
    let (db', result, signals) = Database.add_channel msg.channel_name msg.members draws.uid db in
    record { db = db'; authenticated = who; written = []; signals = signals }

unfoldable pub on_send_message : Draws → SendMessageMessage → Database → Option Uuid → Step
on_send_message draws msg db who =
    let (db', result, signals) =
      Database.add_message msg.sender_uid msg.channel_uid msg.text draws.snowflake draws.now db in
    record { db = db'; authenticated = who; written = []; signals = signals }

-- The handlers that need the digest of the passwords.
module _ (evp_sha256 : Bytes → Bytes) where
  -- The rest of `on_register_account`, once `get_uid_from_username` has answered: other threads may
  -- change the database in between.
  unfoldable pub answer_registration :
      Option Uuid → Draws → RegisterAccountMessage → Database → Option Uuid → Step
  answer_registration (some uid) draws msg db who = reply db who (registered (failure name_taken))
  answer_registration none draws msg db who =
      let user = new_user msg.username msg.display_name draws.uid in
      let (db', result) = add_user evp_sha256 user msg.password draws.salt db in
      reply db' who (registered result)

  -- The whole handler, where no other thread comes between.
  unfoldable pub on_register_account :
      Draws → RegisterAccountMessage → Database → Option Uuid → Step
  unfolding answer_registration
  on_register_account draws msg db who =
      answer_registration (get_uid_from_username msg.username db) draws msg db who

  -- The response to a login once the password is checked. `none`: the user is not in its table, and
  -- `value()` throws.
  finish_login : Variant Bool → Uuid → Database → Option Uuid → Option Step
  unfolding replay
  finish_login (failure e) uid db who = some (reply db who (logged_in (failure e)))
  finish_login (success false) uid db who = some (reply db who (logged_in (failure wrong_password)))
  finish_login (success true) uid db who = elim (find_user uid db) [
    | none ↦ none
    | some user ↦ some (record {
      db = db;
      authenticated = some uid;
      written = logged_in (success user) ∷ replay user.channels db;
      signals = [];
    })
  ]

  -- `none`: the line that logs `user_uid.value()` throws, since no user has the name. The parent of
  -- the socket is the `ClientHandler` that made it, so that the cast in front does not fail.
  unfoldable pub on_login : LoginMessage → Database → Option Uuid → Option Step
  unfolding finish_login
  on_login msg db who = elim (get_uid_from_username msg.username db) [
    | none ↦ none
    | some uid ↦ finish_login (verify_password evp_sha256 uid msg.password db) uid db who
  ]

  finish_deletion : Variant Bool → Uuid → Database → Option Uuid → Step
  finish_deletion (failure e) uid db who = reply db who (account_deleted (failure e))
  finish_deletion (success false) uid db who = reply db who (account_deleted (failure no_match))
  finish_deletion (success true) uid db who =
      let (db', result, signals) = Removal.remove_user uid db in
      record {
        db = db';
        authenticated = who;
        written = account_deleted result ∷ [];
        signals = signals;
      }

  unfoldable pub on_delete_account : DeleteAccountMessage → Database → Option Uuid → Step
  unfolding finish_deletion
  on_delete_account msg db who = elim (get_uid_from_username msg.username db) [
    | none ↦ reply db who (account_deleted (failure name_missing))
    | some uid ↦ finish_deletion (verify_password evp_sha256 uid msg.password db) uid db who
  ]

  -- `MessageHandler::dispatch` with the handlers of `init_message_handlers`, given the snowflake that
  -- `nextId` issued. `none`: an exception leaves the handler. Server/Drawing asks the generator, and
  -- logs the responses.
  unfoldable pub handle_request : Regex → Draws → Request → Database → Option Uuid → Option Step
  handle_request regex draws (register m) db who = some (on_register_account draws m db who)
  handle_request regex draws (login m) db who = on_login m db who
  handle_request regex draws (list_accounts m) db who = some (on_list_accounts regex m db who)
  handle_request regex draws (delete_account m) db who = some (on_delete_account m db who)
  handle_request regex draws (send_message m) db who = some (on_send_message draws m db who)
  handle_request regex draws (delete_message m) db who = some (on_delete_message m db who)
  handle_request regex draws (create_channel m) db who = some (on_create_channel draws m db who)
