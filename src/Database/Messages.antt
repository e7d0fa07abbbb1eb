-- ===== src/Database/Messages.antt =====
-- `add_message` and `remove_message` of src/bin/server/db/database.cpp, one after the other.
use wire_protocols.Prelude.{
  ℕ, ◌≡◌, ◌≢◌, refl, ap, ◌∙◌, if_pos, if_neg, none, some, List, [], ◌∷◌, ◌++◌, All, remove_all,
  ℕ_discrete,
}
use wire_protocols.Wire.{Bytes}
use wire_protocols.Uuid.{Uuid, uuid_discrete}
use wire_protocols.Models.Message.{Message, new_message}
use wire_protocols.Models.Channel
use wire_protocols.Models.Channel.{Channel}
use wire_protocols.Responses.{success}
use wire_protocols.Database.{
  Database, message_received, message_deleted, find_message, find_channel, emit_each, add_message,
  add_message_to,
}
use wire_protocols.Database.Removal.{remove_message, remove_message_from}
use wire_protocols.Database.Table.{update, find-insert_fresh, erase-insert, find-update_self}

-- A snowflake that a channel does not list.
abbrev pub Unlisted : ℕ → Channel → Type 0
Unlisted snowflake c = All (λ n. n ≢ snowflake) c.message_snowflakes

remove_all-append :
    (n : ℕ) (ns : List ℕ) → All (λ m. m ≢ n) ns → remove_all ℕ_discrete n (ns ++ (n ∷ [])) ≡ ns
unfolding remove_all
remove_all-append n [] h = rw (if_pos _ refl)
remove_all-append n (m ∷ ns) h =
    rw (if_neg _ h.0) (ap (λ (x : List ℕ). m ∷ x) (remove_all-append n ns h.1))

remove_message-add_message_listed :
    (n : ℕ) (c : Channel) → Unlisted n c → Channel.remove_message n (Channel.add_message n c) ≡ c
unfolding Channel.remove_message Channel.add_message
remove_message-add_message_listed n c h =
    ap (λ (x : List ℕ). record c { message_snowflakes = x })
      (remove_all-append n c.message_snowflakes h)

relisted :
    (n : ℕ) (uid : Uuid) (t : List (Uuid × Channel))
    → All (λ entry. Unlisted n entry.1) t
    → update uuid_discrete uid
        (Channel.remove_message n)
        (update uuid_discrete uid (Channel.add_message n) t)
      ≡ t
unfolding update
relisted n uid [] h = refl
relisted n uid ((j, c) ∷ t) h =
    let rest = relisted n uid t h.1 in
    elim (uuid_discrete j uid) [
      | yes p ↦ rw (if_pos _ p, if_pos _ p, remove_message-add_message_listed n c h.0, rest) refl
      | no p ↦ rw (if_neg _ p, if_neg _ p, rest) refl
    ]

module _ (message : Message) (db : Database) (channel : Channel)
    (there : find_channel message.channel_id db ≡ some channel)
    (fresh : find_message message.snowflake db ≡ none)
    (unlisted : All (λ entry. Unlisted message.snowflake entry.1) db.channels) where
  sent_db : Database
  sent_db = (add_message_to channel message message.channel_id db).0

  stored : find_message message.snowflake sent_db ≡ some message
  unfolding add_message_to sent_db
  stored = rw (
    find-insert_fresh ℕ_discrete message.snowflake message.snowflake message db.messages fresh,
    if_pos _ refl,
  )

  listed :
      find_channel message.channel_id sent_db ≡ some (Channel.add_message message.snowflake channel)
  unfolding add_message_to sent_db
  listed =
      find-update_self uuid_discrete message.channel_id (Channel.add_message message.snowflake)
        db.channels
      ∙ rw there

  removed :
      remove_message message.snowflake sent_db
      ≡ (db, success tt, emit_each (λ u. message_deleted u message) db.users channel.user_uids)
  unfolding remove_message
  removed =
      rw (stored, remove_message, listed)
        (unfold sent_db remove_message_from add_message_to in
          rw
            (
              erase-insert ℕ_discrete message.snowflake message db.messages fresh,
              relisted message.snowflake message.channel_id db.channels unlisted,
            )
            (unfold Channel.add_message in refl))

-- A message that is sent into a channel and then deleted, when no message and no channel's list has
-- its snowflake: both succeed, the database is what it was before, and the members that are users
-- get a signal that the message came and, in the same order, one that it went.
pub remove_message-add_message :
    (sender uid : Uuid) (content : Bytes) (snowflake now : ℕ) (db : Database) (channel : Channel)
    → find_channel uid db ≡ some channel
    → find_message snowflake db ≡ none
    → All (λ entry. Unlisted snowflake entry.1) db.channels
    → let message = new_message sender uid content snowflake now in
      let sent = add_message sender uid content snowflake now db in
      let gone = remove_message snowflake sent.0 in
      (sent.1 ≡ success message)
      × (sent.2 ≡ emit_each (λ u. message_received u message) db.users channel.user_uids)
      × (gone
          ≡ (db, success tt, emit_each (λ u. message_deleted u message) db.users channel.user_uids))
unfolding add_message
remove_message-add_message sender uid content snowflake now db channel there fresh unlisted =
    let message = new_message sender uid content snowflake now in
    rw (there, add_message)
      (
        unfold add_message_to in refl,
        unfold add_message_to in refl,
        unfold new_message sent_db in removed message db channel there fresh unlisted,
      )
