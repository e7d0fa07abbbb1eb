-- ===== src/Database/Removal.antt =====
-- The operations of src/bin/server/db/database.cpp that take entries out of the tables, and
-- `add_user_to_channel`.
use wire_protocols.Prelude.{
  ℕ, zero, suc, ite, Option, none, some, List, [], ◌∷◌, ◌++◌, length, take, drop, get_elem?,
  remove_all, ℕ_discrete,
}
use wire_protocols.Uuid.{Uuid, uuid_discrete}
use wire_protocols.Models.User
use wire_protocols.Models.User.{User}
use wire_protocols.Models.Message.{Message}
use wire_protocols.Models.Channel
use wire_protocols.Models.Channel.{Channel}
use wire_protocols.Responses.{Variant, success, failure}
use wire_protocols.Database.{
  Database, Signal, message_deleted, user_missing, channel_missing, message_missing, find_user,
  find_message, find_channel, emit_each,
}
use wire_protocols.Database.Table.{find, erase, update}

-- `Database::add_user_to_channel`
unfoldable pub add_user_to_channel : Uuid → Uuid → Database → Database × Variant (Unit {0})
add_user_to_channel user_uid channel_uid db = elim (find_user user_uid db) [
  | none ↦ (db, failure user_missing)
  | some user ↦ elim (find_channel channel_uid db) [
    | none ↦ (db, failure channel_missing)
    | some channel ↦ (
      record db {
        users = update uuid_discrete user_uid (User.add_channel channel_uid) db.users;
        channels = update uuid_discrete channel_uid (Channel.add_user user_uid) db.channels;
      },
      success tt,
    )
  ]
]

-- `Database::remove_message`: the message and its entry in its channel.
unfoldable pub remove_message_from :
    Channel → Message → ℕ → Database → Database × Variant (Unit {0}) × List Signal
remove_message_from channel message snowflake db = (
  record db {
    messages = erase ℕ_discrete snowflake db.messages;
    channels =
        update uuid_discrete message.channel_id (Channel.remove_message snowflake) db.channels;
  },
  success tt,
  emit_each (λ uid. message_deleted uid message) db.users channel.user_uids,
)

unfoldable pub remove_message : ℕ → Database → Database × Variant (Unit {0}) × List Signal
unfolding remove_message_from
remove_message snowflake db = elim (find_message snowflake db) [
  | none ↦ (db, failure message_missing, [])
  | some message ↦ elim (find_channel message.channel_id db) [
    | none ↦ (db, failure channel_missing, [])
    | some channel ↦ remove_message_from channel message snowflake db
  ]
]

-- The loops of `Database::remove_channel` over the members and over the messages.
unfoldable pub withdraw : Uuid → List Uuid → List (Uuid × User) → List (Uuid × User)
withdraw channel_uid [] users = users
withdraw channel_uid (uid ∷ uids) users =
    withdraw channel_uid uids (update uuid_discrete uid (User.remove_channel channel_uid) users)

unfoldable pub erase_each : List ℕ → List (ℕ × Message) → List (ℕ × Message)
erase_each [] messages = messages
erase_each (n ∷ ns) messages = erase_each ns (erase ℕ_discrete n messages)

-- `Database::remove_channel`. `none`: `channel.value()` throws, since the channel is not there.
unfoldable pub remove_channel : Uuid → Database → Option (Database × Variant (Unit {0}))
unfolding withdraw erase_each
remove_channel channel_uid db = elim (find_channel channel_uid db) [
  | none ↦ none
  | some channel ↦ some (
    record db {
      users = withdraw channel_uid channel.user_uids db.users;
      messages = erase_each channel.message_snowflakes db.messages;
      channels = erase uuid_discrete channel_uid db.channels;
    },
    success tt,
  )
]

-- The memory of a channel's snowflakes while `Database::remove_user` walks over it: `erase` moves
-- the elements that stay to the front, and leaves the cells behind the new end as they were. The
-- loop keeps the end that the vector had at first, so that it goes on into those cells. (The C++
-- standard leaves that undefined; this is what the vector of the compilers' libraries does.)
pub record Cells : Type 0 where
  pub memory : List ℕ
  pub size : ℕ

unfoldable pub elements : Cells → List ℕ
elements c = take c.size c.memory

unfoldable pub erase_cells : ℕ → Cells → Cells
unfolding remove_all elements
erase_cells n c =
    let kept = remove_all ℕ_discrete n (elements c) in
    record { memory = kept ++ drop (length kept) c.memory; size = length kept }

-- The cell at an index: the loop stays within the memory.
unfoldable pub cell : Option ℕ → ℕ
cell none = 0
cell (some n) = n

-- What one round of the loop deletes: a message that is there and that the user sent.
unfoldable pub own_message : Uuid → Option Message → Option Message
own_message user none = none
own_message user (some m) = ite (uuid_discrete m.sender_id user) (some m) none

-- The loop, with the rounds that are left and the index of the next cell; the messages of the user
-- that it came upon are listed in that order.
unfoldable pub purge : ℕ → ℕ → Uuid → List (ℕ × Message) → Cells → Cells × List Message
unfolding own_message erase_cells cell
purge zero k user messages c = (c, [])
purge (suc rounds) k user messages c =
    let n = cell (get_elem? c.memory k) in
    let skip = purge rounds (suc k) user messages c in
    let (c', later) = purge rounds (suc k) user messages (erase_cells n c) in
    elim (own_message user (find ℕ_discrete n messages)) [ none ↦ skip | some m ↦ (c', m ∷ later) ]

-- `channel->remove_user(user_uid)`, and the deletion of the user's messages from the channel.
unfoldable pub purge_channel : Uuid → List (ℕ × Message) → Channel → Channel × List Message
unfolding purge
purge_channel user messages channel =
    let c = Channel.remove_user user channel in
    let n = length c.message_snowflakes in
    let (cells, own) =
      purge n 0 user messages (record { memory = c.message_snowflakes; size = n }) in
    (record c { message_snowflakes = elements cells }, own)

-- `emit user.value()->message_deleted(...)` for each message, to the users that are left in the channel.
emit_deleted : List (Uuid × User) → List Uuid → List Message → List Signal
emit_deleted users uids [] = []
emit_deleted users uids (m ∷ ms) =
    emit_each (λ uid. message_deleted uid m) users uids ++ emit_deleted users uids ms

-- The loop over the channels of the user. The messages stay in the message table.
unfoldable pub leave_channels :
    Uuid → List Uuid → Database → List (Uuid × Channel) → List (Uuid × Channel) × List Signal
unfolding purge_channel emit_deleted
leave_channels user [] db channels = (channels, [])
leave_channels user (uid ∷ uids) db channels = elim (find uuid_discrete uid channels) [
  | none ↦ leave_channels user uids db channels
  | some channel ↦
      let (left, own) = purge_channel user db.messages channel in
      let (rest, signals) =
        leave_channels user uids db (update uuid_discrete uid (λ _. left) channels) in
      (rest, emit_deleted db.users left.user_uids own ++ signals)
]

-- `Database::remove_user`: the user leaves the channels and the user table.
unfoldable pub remove_user : Uuid → Database → Database × Variant User × List Signal
unfolding leave_channels
remove_user user_uid db = elim (find_user user_uid db) [
  | none ↦ (db, failure user_missing, [])
  | some user ↦
      let (channels, signals) = leave_channels user_uid user.channels db db.channels in
      (
        record db { users = erase uuid_discrete user_uid db.users; channels = channels },
        success user,
        signals,
      )
]
