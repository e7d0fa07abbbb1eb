-- ===== src/Replica.antt =====
-- What a client shows next to what the server keeps: src/bin/client/model/session.cpp over
-- src/bin/server/db/database.cpp.
pub mod Hearing
pub mod Sending
pub mod Creating
pub mod Replaying
pub mod Steps
pub mod Answers
pub mod Fits
pub mod Worlds
pub mod Delivered
use wire_protocols.Prelude.{
  ℕ, ◌≡◌, refl, ap, ite, Option, none, some, List, [], ◌∷◌, ◌++◌, Bool, true, false, if◌then◌else◌,
  arith, member, Distinct, ℕ_discrete,
}
use wire_protocols.Uuid.{Uuid, uuid_discrete}
use wire_protocols.Models.Message.{Message}
use wire_protocols.Models.Channel.{Channel}
use wire_protocols.Database.{Database, find_message, find_channel}
use wire_protocols.Database.Table.{find}

abbrev pub listed : Option Message → List Message → List Message
listed none ms = ms
listed (some m) ms = m ∷ ms

-- The messages of the snowflakes that are in the message table.
abbrev pub messages_of : List ℕ → List (ℕ × Message) → List Message
messages_of [] t = []
messages_of (n ∷ ns) t = listed (find ℕ_discrete n t) (messages_of ns t)

-- The messages of a channel to a user: none where the channel is not there or the user is not in it.
abbrev pub log_of : Uuid → List (ℕ × Message) → Option Channel → Option (List Message)
log_of uid t none = none
log_of uid t (some c) =
    if member uuid_discrete uid c.user_uids then some (messages_of c.message_snowflakes t) else none

-- What a user is to see of each channel.
abbrev pub visible : Uuid → Database → Uuid → Option (List Message)
visible uid db cid = log_of uid db.messages (find_channel cid db)

-- No channel has a member twice.
abbrev pub Once : Database → Type 0
Once db =
    (cid : Uuid) (c : Channel) → find_channel cid db ≡ some c → Distinct uuid_discrete c.user_uids
