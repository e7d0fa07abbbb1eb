-- ===== src/Json/Models/RoundTrip.antt =====
-- The models through their JSON texts.
use wire_protocols.Prelude.{
  ℕ, ◌^◌, ◌<◌, ◌≡◌, refl, some, List, [], ◌∷◌, ◌++◌, map, All, codes, arith, ℕ_discrete,
}
use wire_protocols.Prelude.Try.{◌>>=◌}
use wire_protocols.Wire.{Bytes, bytes_discrete}
use wire_protocols.Uuid.{Uuid, IsUuid}
use wire_protocols.Uuid.Text.{to_string}
use wire_protocols.Models.User.{User, received_user}
use wire_protocols.Models.Message.{Message}
use wire_protocols.Models.Channel.{Channel}
use wire_protocols.Json.{Library, IsLawful, of_uuids, each}
use wire_protocols.Json.Laws.{
  IsDrawn, Carries, text_at-object, number_at-object, array_at-object, uuid_at-object, uuid-IsClean,
  of_uuids-IsClean, each-uuids, dump_object-Carries,
}
use wire_protocols.Json.Models.{
  user_to_json, user_from_json, user_fields, message_to_json, message_from_json, message_fields,
  channel_to_json, channel_from_json, channel_fields,
}

module _ (L : Library) (lawful : IsLawful L) where
  open lawful use {
    Text, of_text-IsClean, of_number-IsClean, of_array-IsClean, get_number-of_number,
    get_array-of_array, items-of_array,
  }

  -- The texts are valid UTF-8, and the identifiers have 16 bytes.
  pub record IsUser (u : User) : Type 0 where
    pub uid_valid : IsUuid u.uid
    pub username_text : Text u.username
    pub display_name_text : Text u.display_name
    pub profile_pic_text : Text u.profile_pic

  pub record IsMessage (m : Message) : Type 0 where
    pub sender_valid : IsUuid m.sender_id
    pub channel_valid : IsUuid m.channel_id
    pub snowflake_fits : m.snowflake < 2 ^ 64
    pub created_fits : m.created_at < 2 ^ 64
    pub modified_fits : m.modified_at < 2 ^ 64
    pub text_valid : Text m.text
    pub readers_valid : All IsUuid m.read_by

  pub record IsChannel (c : Channel) : Type 0 where
    pub uid_valid : IsUuid c.uid
    pub name_text : Text c.name
    pub users_valid : All IsUuid c.user_uids
    pub snowflakes_fit : All (λ n. n < 2 ^ 64) c.message_snowflakes

  module _ (drawn : Bytes → Uuid) (sixteen : IsDrawn drawn) where
    pub user-Carries :
        (old u : User)
        → IsUser u
        → Carries L lawful (user_to_json L u) (user_from_json L drawn old) (received_user old u)
    unfolding user_to_json user_from_json user_fields bytes_discrete ℕ_discrete
    user-Carries old u h =
        let fields = user_fields L u in
        dump_object-Carries L lawful fields _ (received_user old u) (omega arith)
          (
            uuid-IsClean L lawful u.uid h.uid_valid,
            (
              of_text-IsClean u.username h.username_text,
              (
                of_text-IsClean u.display_name h.display_name_text,
                (of_text-IsClean u.profile_pic h.profile_pic_text, tt),
              ),
            ),
          )
          (rw
            (
              uuid_at-object L lawful drawn sixteen (codes "uid") fields u.uid h.uid_valid refl,
              text_at-object L lawful (codes "username") fields u.username refl,
              text_at-object L lawful (codes "display_name") fields u.display_name refl,
              text_at-object L lawful (codes "profile_pic") fields u.profile_pic refl,
              ◌>>=◌,
            )
            refl)

    pub message-Carries :
        (m : Message)
        → IsMessage m
        → Carries L lawful (message_to_json L m) (message_from_json L drawn) m
    unfolding message_to_json message_from_json message_fields bytes_discrete ℕ_discrete of_uuids
    message-Carries m h =
        let fields = message_fields L m in
        let uuid_from = uuid_at-object L lawful drawn sixteen in
        let number_from = number_at-object L lawful in
        let readers = map (λ u. L.of_text (to_string u)) m.read_by in
        dump_object-Carries L lawful fields _ m (omega arith)
          (
            uuid-IsClean L lawful m.sender_id h.sender_valid,
            (
              uuid-IsClean L lawful m.channel_id h.channel_valid,
              (
                of_number-IsClean m.snowflake h.snowflake_fits,
                (
                  of_number-IsClean m.created_at h.created_fits,
                  (
                    of_number-IsClean m.modified_at h.modified_fits,
                    (
                      of_text-IsClean m.text h.text_valid,
                      (of_uuids-IsClean L lawful m.read_by h.readers_valid, tt),
                    ),
                  ),
                ),
              ),
            ),
          )
          (rw
            (
              uuid_from (codes "sender_id") fields m.sender_id h.sender_valid refl,
              uuid_from (codes "channel_id") fields m.channel_id h.channel_valid refl,
              number_from (codes "snowflake") fields m.snowflake h.snowflake_fits refl,
              number_from (codes "created_at") fields m.created_at h.created_fits refl,
              number_from (codes "modified_at") fields m.modified_at h.modified_fits refl,
              text_at-object L lawful (codes "text") fields m.text refl,
              array_at-object L lawful (codes "read_by") fields readers refl,
              ◌>>=◌,
              items-of_array readers,
              each-uuids L lawful drawn sixteen m.read_by h.readers_valid,
            )
            refl)

    numbers_clean :
        (ns : List ℕ)
        → All (λ n. n < 2 ^ 64) ns
        → All (λ v. lawful.IsClean v) (map (λ n. L.of_number n) ns)
    numbers_clean [] h = tt
    numbers_clean (n ∷ ns) (hn, hns) = (of_number-IsClean n hn, numbers_clean ns hns)

    each-numbers :
        (ns : List ℕ)
        → All (λ n. n < 2 ^ 64) ns
        → each L (λ v. L.get_number v) (map (λ n. L.of_number n) ns) ≡ some ns
    unfolding each
    each-numbers [] h = refl
    each-numbers (n ∷ ns) (hn, hns) =
        rw (get_number-of_number n hn, each-numbers ns hns, ◌>>=◌) refl

    -- The channel that `old` becomes: its snowflakes come whole.
    pub channel-Carries :
        (old c : Channel)
        → IsChannel c
        → Carries L lawful
            (channel_to_json L c)
            (channel_from_json L drawn old)
            (record c { user_uids = old.user_uids ++ c.user_uids })
    unfolding channel_to_json channel_from_json channel_fields bytes_discrete ℕ_discrete of_uuids
    channel-Carries old c h =
        let fields = channel_fields L c in
        let users = map (λ u. L.of_text (to_string u)) c.user_uids in
        let numbers = map (λ n. L.of_number n) c.message_snowflakes in
        dump_object-Carries L lawful fields _
          (record c { user_uids = old.user_uids ++ c.user_uids }) (omega arith)
          (
            uuid-IsClean L lawful c.uid h.uid_valid,
            (
              of_text-IsClean c.name h.name_text,
              (
                of_uuids-IsClean L lawful c.user_uids h.users_valid,
                (
                  of_array-IsClean numbers (numbers_clean c.message_snowflakes h.snowflakes_fit),
                  tt,
                ),
              ),
            ),
          )
          (rw
            (
              uuid_at-object L lawful drawn sixteen (codes "uid") fields c.uid h.uid_valid refl,
              text_at-object L lawful (codes "name") fields c.name refl,
              array_at-object L lawful (codes "user_uids") fields users refl,
              array_at-object L lawful (codes "message_snowflakes") fields numbers refl,
              ◌>>=◌,
              items-of_array users,
              each-uuids L lawful drawn sixteen c.user_uids h.users_valid,
              get_array-of_array numbers,
              each-numbers c.message_snowflakes h.snowflakes_fit,
            )
            refl)
