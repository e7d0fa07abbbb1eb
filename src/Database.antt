-- ===== src/Database.antt =====
-- src/bin/server/db, include/server/db: the four tables, and the operations that keep them in step.
-- Each table takes its mutex for one operation; an operation of the database is a sequence of them.
pub mod Table
pub mod Removal
pub mod Passwords
pub mod Names
pub mod Messages
pub mod Departure
pub mod Linked
use wire_protocols.Prelude.{
  ℕ, zero, suc, ◌+◌, ◌≡◌, refl, ite, Option, none, some, List, [], ◌∷◌, ◌++◌, Bool, true, false,
  codes, length, take, drop, get_elem?, remove_all, ℕ_discrete,
}
use wire_protocols.Wire.{Bytes, bytes_discrete}
use wire_protocols.Uuid.{Uuid, uuid_discrete}
use wire_protocols.Uuid.Text.{hex}
use wire_protocols.Models.User
use wire_protocols.Models.User.{User}
use wire_protocols.Models.Message.{Message, new_message}
use wire_protocols.Models.Channel
use wire_protocols.Models.Channel.{Channel, new_channel}
use wire_protocols.Responses.{Variant, success, failure}
use Table.{find, insert, erase, update}

pub record Database : Type 0 where
  pub users : List (Uuid × User)
  pub messages : List (ℕ × Message)
  pub channels : List (Uuid × Channel)
  pub passwords : List (Uuid × (Bytes × Bytes))

unfoldable pub empty_database : Database
empty_database = record { users = []; messages = []; channels = []; passwords = [] }

-- The Qt signals of `User`, with the identifier of the user that emits them.
pub data Signal : Type 0 where
  message_received : Uuid → Message → Signal
  message_deleted : Uuid → Message → Signal
  channel_added : Uuid → Channel → Signal

abbrev pub user_missing : Bytes
user_missing = codes "User does not exist"

abbrev pub channel_missing : Bytes
channel_missing = codes "Channel does not exist"

abbrev pub message_missing : Bytes
message_missing = codes "Message does not exist"

abbrev pub find_user : Uuid → Database → Option User
find_user uid db = find uuid_discrete uid db.users

abbrev pub find_message : ℕ → Database → Option Message
find_message snowflake db = find ℕ_discrete snowflake db.messages

abbrev pub find_channel : Uuid → Database → Option Channel
find_channel uid db = find uuid_discrete uid db.channels

-- `UserTable::get_uid_from_username`: the first entry of that name.
unfoldable pub uid_of_name : Bytes → List (Uuid × User) → Option Uuid
uid_of_name name [] = none
uid_of_name name ((uid, user) ∷ rest) =
    let later = uid_of_name name rest in ite (bytes_discrete user.username name) (some uid) later

unfoldable pub get_uid_from_username : Bytes → Database → Option Uuid
unfolding uid_of_name
get_uid_from_username name db = uid_of_name name db.users

-- `for (auto user_uid : uids)`: the users among them that are there emit the signal.
unfoldable pub emit_each : (Uuid → Signal) → List (Uuid × User) → List Uuid → List Signal
emit_each signal users [] = []
emit_each signal users (uid ∷ uids) =
    let rest = emit_each signal users uids in
    elim (find uuid_discrete uid users) [ none ↦ rest | some u ↦ signal uid ∷ rest ]

-- `PasswordTable`, over OpenSSL's digest, which is the parameter `evp_sha256`.
module _ (evp_sha256 : Bytes → Bytes) where
  unfoldable pub sha256 : Bytes → Bytes
  unfolding hex
  sha256 text = hex (evp_sha256 text)

  -- `PasswordTable::add_password`, with the salt that `generate_salt` draws.
  unfoldable pub add_password : Uuid → Bytes → Bytes → Database → Database
  unfolding insert
  add_password uid password salt db = record db {
    passwords = insert uuid_discrete uid (sha256 (password ++ salt), salt) db.passwords;
  }

  -- The comparison of `PasswordTable::verify_password` with the entry that it finds.
  unfoldable pub check_entry : Bytes → Option (Bytes × Bytes) → Variant Bool
  check_entry password none = failure user_missing
  check_entry password (some (hash, salt)) =
      ite (bytes_discrete hash (sha256 (password ++ salt))) (success true) (success false)

  unfoldable pub verify_password : Uuid → Bytes → Database → Variant Bool
  unfolding check_entry
  verify_password uid password db = check_entry password (find uuid_discrete uid db.passwords)

  -- `Database::add_user`: the password first, then the user.
  unfoldable pub add_user : User → Bytes → Bytes → Database → Database × Variant (Unit {0})
  unfolding add_password
  add_user user password salt db =
      let db' = add_password user.uid password salt db in
      (record db' { users = insert uuid_discrete user.uid user db'.users }, success tt)

-- `PasswordTable::remove_password`
unfoldable pub remove_password : Uuid → Database → Database × Variant (Unit {0})
remove_password uid db = elim (find uuid_discrete uid db.passwords) [
  | none ↦ (db, failure user_missing)
  | some entry ↦ (record db { passwords = erase uuid_discrete uid db.passwords }, success tt)
]

-- `Database::add_message` into the channel that it finds, with the snowflake and the time that
-- `Message(...)` gets.
unfoldable pub add_message_to :
    Channel → Message → Uuid → Database → Database × Variant Message × List Signal
add_message_to channel message channel_uid db = (
  record db {
    messages = insert ℕ_discrete message.snowflake message db.messages;
    channels = update uuid_discrete channel_uid (Channel.add_message message.snowflake) db.channels;
  },
  success message,
  emit_each (λ uid. message_received uid message) db.users channel.user_uids,
)

unfoldable pub add_message :
    Uuid → Uuid → Bytes → ℕ → ℕ → Database → Database × Variant Message × List Signal
unfolding add_message_to
add_message sender_uid channel_uid content snowflake now db = elim (find_channel channel_uid db) [
  | none ↦ (db, failure channel_missing, [])
  | some channel ↦
      add_message_to channel (new_message sender_uid channel_uid content snowflake now) channel_uid
        db
]

-- The loop of `Database::add_channel` over the members; a member that is missing is passed over.
unfoldable pub enrol : Uuid → List Uuid → List (Uuid × User) → List (Uuid × User)
enrol channel_uid [] users = users
enrol channel_uid (uid ∷ uids) users =
    enrol channel_uid uids (update uuid_discrete uid (User.add_channel channel_uid) users)

-- `Database::add_channel`, with the identifier that `Channel(...)` draws.
unfoldable pub add_channel :
    Bytes → List Uuid → Uuid → Database → Database × Variant Channel × List Signal
unfolding enrol
add_channel channel_name members uid db =
    let channel = new_channel channel_name members uid in
    (
      record db {
        users = enrol uid members db.users;
        channels = insert uuid_discrete uid channel db.channels;
      },
      success channel,
      emit_each (λ user_uid. channel_added user_uid channel) db.users members,
    )
