-- ===== src/Client.antt =====
-- src/bin/client/model/session.cpp, include/client/model/session.hpp: what the client knows of its
-- user's channels and messages. Channels and messages are shared objects: a channel is a position in
-- `objects`, and a message carries the number of its object, which is what two pointers to messages
-- are compared by.
pub mod Handlers
pub mod Requests
pub mod View
pub mod Deletion
pub mod Invariants
pub mod Exceptions
pub mod Active
pub mod Receiving
pub mod Windows
pub mod Events
pub mod Shown
pub mod Settled
pub mod Reappearing
pub mod Registry
use wire_protocols.Prelude.{
  ℕ, zero, suc, ◌+◌, ite, Option, none, some, List, [], ◌∷◌, ◌++◌, length, get_elem?, map,
  ℕ_discrete,
}
use wire_protocols.Uuid.{Uuid, uuid_discrete}
use wire_protocols.Models.User.{User}
use wire_protocols.Models.Message.{Message}
use wire_protocols.Models.Channel
use wire_protocols.Models.Channel.{Channel}
use wire_protocols.Database.Table.{find, insert, update}

pub record Session : Type 0 where
  pub authenticated_user : Option User
  pub channels : List (Uuid × ℕ)
  pub channel_messages : List (Uuid × List (ℕ × Message))
  pub open_channel : Option ℕ
  pub objects : List Channel
  -- How many message objects there have been.
  pub made : ℕ

unfoldable pub new_session : Session
new_session = record {
  authenticated_user = none;
  channels = [];
  channel_messages = [];
  open_channel = none;
  objects = [];
  made = 0;
}

-- `map[k] = v`
unfoldable pub put : {V : Type 0} → Uuid → V → List (Uuid × V) → List (Uuid × V)
unfolding find update
put k v t = elim (find uuid_discrete k t) [
  | none ↦ (k, v) ∷ t
  | some old ↦ update uuid_discrete k (λ _. v) t
]

-- A change of the channel that a pointer leads to.
unfoldable pub modify : ℕ → (Channel → Channel) → List Channel → List Channel
modify i f [] = []
modify zero f (c ∷ cs) = f c ∷ cs
modify (suc i) f (c ∷ cs) = c ∷ modify i f cs

-- `messages.erase(std::remove(begin, end, message), end)`: pointers are compared.
unfoldable pub discard : ℕ → List (ℕ × Message) → List (ℕ × Message)
discard object [] = []
discard object ((i, m) ∷ ms) =
    let rest = discard object ms in ite (ℕ_discrete i object) rest ((i, m) ∷ rest)

-- `Session::reset`, less the windows.
unfoldable pub reset : Session → Session
reset s = record s {
  authenticated_user = none;
  channels = [];
  channel_messages = [];
  open_channel = none;
}

-- `Session::add_channel`
unfoldable pub add_channel : ℕ → Channel → Session → Session
unfolding put
add_channel object c s = record s {
  channels = put c.uid object s.channels;
  channel_messages = put c.uid [] s.channel_messages;
}

-- `Session::set_active_channel`
unfoldable pub set_active_channel : ℕ → Session → Session
set_active_channel object s = record s { open_channel = some object }

-- The two changes of `add_message` to a channel that is there. `none`: `channels[uid]` makes a null
-- pointer, and the code follows it.
unfoldable pub add_message_at : Option ℕ → ℕ → Message → Session → Option Session
unfolding update modify Channel.add_message
add_message_at none object m s = none
add_message_at (some channel) object m s = some (record s {
  channel_messages =
      update uuid_discrete m.channel_id (λ ms. ms ++ ((object, m) ∷ [])) s.channel_messages;
  objects = modify channel (Channel.add_message m.snowflake) s.objects;
})

-- `Session::add_message`: a message of a channel that is not there is passed over.
unfoldable pub add_message : ℕ → Message → Session → Option Session
unfolding find add_message_at
add_message object m s = elim (find uuid_discrete m.channel_id s.channel_messages) [
  | none ↦ some s
  | some ms ↦ add_message_at (find uuid_discrete m.channel_id s.channels) object m s
]

unfoldable pub remove_message_at : Option ℕ → ℕ → Message → Session → Option Session
unfolding update modify discard Channel.remove_message
remove_message_at none object m s = none
remove_message_at (some channel) object m s = some (record s {
  channel_messages = update uuid_discrete m.channel_id (discard object) s.channel_messages;
  objects = modify channel (Channel.remove_message m.snowflake) s.objects;
})

-- `Session::remove_message`
unfoldable pub remove_message : ℕ → Message → Session → Option Session
unfolding find remove_message_at
remove_message object m s = elim (find uuid_discrete m.channel_id s.channel_messages) [
  | none ↦ some s
  | some ms ↦ remove_message_at (find uuid_discrete m.channel_id s.channels) object m s
]

-- `Session::get_active_channel`
unfoldable pub get_active_channel : Session → Option Channel
get_active_channel s = elim s.open_channel [ none ↦ none | some i ↦ get_elem? s.objects i ]

-- `Session::get_active_channel_messages`. `none`: `at` throws.
unfoldable pub get_active_channel_messages : Session → Option (List (ℕ × Message))
unfolding get_active_channel find
get_active_channel_messages s = elim (get_active_channel s) [
  | none ↦ some []
  | some c ↦ find uuid_discrete c.uid s.channel_messages
]

-- `Session::get_active_user_id`
unfoldable pub get_active_user_id : Session → Option Uuid
get_active_user_id s = elim s.authenticated_user [ none ↦ none | some u ↦ some u.uid ]
