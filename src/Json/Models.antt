-- ===== src/Json/Models.antt =====
-- `to_json` and `from_json` of src/models/user.cpp, message.cpp and channel.cpp.
pub mod RoundTrip
use wire_protocols.Prelude.{
  ℕ, ◌^◌, ◌<◌, ◌≡◌, refl, Option, none, some, List, [], ◌∷◌, ◌++◌, map, All, codes, arith,
}
use wire_protocols.Prelude.Try.{◌>>=◌}
use wire_protocols.Wire.{Bytes, bytes_discrete}
use wire_protocols.Uuid.{Uuid, IsUuid}
use wire_protocols.Uuid.Text.{to_string}
use wire_protocols.Models.User.{User, received_user}
use wire_protocols.Models.Message.{Message}
use wire_protocols.Models.Channel.{Channel}
use wire_protocols.Json.{
  Library, IsLawful, assign, dump_object, text_at, number_at, of_uuids, uuid_of, uuid_at, each,
}
use wire_protocols.Json.Laws.{
  IsDrawn, Carries, under, text_at-object, number_at-object, array_at-object, uuid_at-object,
  uuid-IsClean, of_uuids-IsClean, each-uuids, dump_object-Carries,
}

module _ (L : Library) where
  user_fields : User → List (Bytes × L.Value)
  unfolding to_string
  user_fields u =
      (codes "uid", L.of_text (to_string u.uid))
      ∷ (codes "username", L.of_text u.username)
      ∷ (codes "display_name", L.of_text u.display_name)
      ∷ (codes "profile_pic", L.of_text u.profile_pic)
      ∷ []

  -- `User::to_json`
  unfoldable pub user_to_json : User → Option Bytes
  unfolding dump_object user_fields
  user_to_json u = dump_object L (user_fields u)

  message_fields : Message → List (Bytes × L.Value)
  unfolding to_string of_uuids
  message_fields m =
      (codes "sender_id", L.of_text (to_string m.sender_id))
      ∷ (codes "channel_id", L.of_text (to_string m.channel_id))
      ∷ (codes "snowflake", L.of_number m.snowflake)
      ∷ (codes "created_at", L.of_number m.created_at)
      ∷ (codes "modified_at", L.of_number m.modified_at)
      ∷ (codes "text", L.of_text m.text)
      ∷ (codes "read_by", of_uuids L m.read_by)
      ∷ []

  -- `Message::to_json`
  unfoldable pub message_to_json : Message → Option Bytes
  unfolding dump_object message_fields
  message_to_json m = dump_object L (message_fields m)

  channel_fields : Channel → List (Bytes × L.Value)
  unfolding to_string of_uuids
  channel_fields c =
      (codes "uid", L.of_text (to_string c.uid))
      ∷ (codes "name", L.of_text c.name)
      ∷ (codes "user_uids", of_uuids L c.user_uids)
      ∷ (codes "message_snowflakes", L.of_array (map (λ n. L.of_number n) c.message_snowflakes))
      ∷ []

  -- `Channel::to_json`
  unfoldable pub channel_to_json : Channel → Option Bytes
  unfolding dump_object channel_fields
  channel_to_json c = dump_object L (channel_fields c)

  module _ (drawn : Bytes → Uuid) where
    -- `User::from_json` into the object `old`.
    unfoldable pub user_from_json : User → Bytes → Option User
    unfolding uuid_at text_at
    user_from_json old json = do
      j ← L.parse json
      uid ← uuid_at L drawn (codes "uid") j
      username ← text_at L (codes "username") j
      display_name ← text_at L (codes "display_name") j
      profile_pic ← text_at L (codes "profile_pic") j
      some (record old {
        uid = uid;
        username = username;
        display_name = display_name;
        profile_pic = profile_pic;
      })

    -- `Message::from_json` sets every field.
    unfoldable pub message_from_json : Bytes → Option Message
    unfolding uuid_at uuid_of number_at text_at each
    message_from_json json = do
      j ← L.parse json
      sender_id ← uuid_at L drawn (codes "sender_id") j
      channel_id ← uuid_at L drawn (codes "channel_id") j
      snowflake ← number_at L (codes "snowflake") j
      created_at ← number_at L (codes "created_at") j
      modified_at ← number_at L (codes "modified_at") j
      text ← text_at L (codes "text") j
      readers ← L.at (codes "read_by") j
      read_by ← each L (uuid_of L drawn) (L.items readers)
      some (record {
        snowflake = snowflake;
        sender_id = sender_id;
        channel_id = channel_id;
        created_at = created_at;
        modified_at = modified_at;
        read_by = read_by;
        text = text;
      })

    -- `Channel::from_json` into the object `old`: the members are appended to its own, and the
    -- snowflakes replaced.
    unfoldable pub channel_from_json : Channel → Bytes → Option Channel
    unfolding uuid_at uuid_of text_at each
    channel_from_json old json = do
      j ← L.parse json
      uid ← uuid_at L drawn (codes "uid") j
      name ← text_at L (codes "name") j
      members ← L.at (codes "user_uids") j
      user_uids ← each L (uuid_of L drawn) (L.items members)
      numbers ← L.at (codes "message_snowflakes") j
      listed ← L.get_array numbers
      message_snowflakes ← each L (λ v. L.get_number v) listed
      some (record {
        uid = uid;
        name = name;
        user_uids = old.user_uids ++ user_uids;
        message_snowflakes = message_snowflakes;
      })
