-- ===== src/Json/Requests/RoundTrip.antt =====
-- The requests through their JSON texts.
use wire_protocols.Prelude.{◌^◌, ◌<◌, refl, Option, some, ◌++◌, map, All, codes, arith, ℕ_discrete}
use wire_protocols.Prelude.Try.{◌>>=◌}
use wire_protocols.Wire.{Bytes, bytes_discrete}
use wire_protocols.Uuid.{Uuid, IsUuid}
use wire_protocols.Uuid.Text.{to_string}
use wire_protocols.Requests.{
  Request, RegisterAccountMessage, LoginMessage, ListAccountsMessage, DeleteAccountMessage,
  SendMessageMessage, DeleteMessageMessage, CreateChannelMessage, register, login, list_accounts,
  delete_account, send_message, delete_message, create_channel, handle, no_members,
  request_operation,
}
use wire_protocols.Json.{Library, IsLawful, of_uuids}
use wire_protocols.Json.Laws.{
  IsDrawn, Carries, text_at-object, number_at-object, array_at-object, uuid_at-object, uuid-IsClean,
  of_uuids-IsClean, each-uuids, dump_object-Carries,
}
use wire_protocols.Json.Requests.{
  register_fields, register_to_json, register_from_json, credential_fields, login_to_json,
  login_from_json, delete_account_to_json, delete_account_from_json, search_fields,
  list_accounts_to_json, list_accounts_from_json, sending_fields, send_message_to_json,
  send_message_from_json, deletion_fields, delete_message_to_json, delete_message_from_json,
  creation_fields, create_channel_to_json, create_channel_from_json, request_to_json,
  request_from_json,
}

module _ (L : Library) (lawful : IsLawful L) where
  open lawful use {Text, of_text-IsClean, of_number-IsClean, items-of_array}

  -- The texts of the request are valid UTF-8, its identifiers have 16 bytes, and its snowflake has
  -- 64 bits.
  abbrev pub IsJsonRequest : Request → Type 0
  IsJsonRequest (register m) = Text m.username × Text m.password × Text m.display_name
  IsJsonRequest (login m) = Text m.username × Text m.password
  IsJsonRequest (list_accounts m) = Text m.regex
  IsJsonRequest (delete_account m) = Text m.username × Text m.password
  IsJsonRequest (send_message m) = IsUuid m.channel_uid × IsUuid m.sender_uid × Text m.text
  IsJsonRequest (delete_message m) = IsUuid m.channel_uid × (m.message_snowflake < 2 ^ 64)
  IsJsonRequest (create_channel m) = Text m.channel_name × All IsUuid m.members

  register-Carries :
      (m : RegisterAccountMessage)
      → IsJsonRequest (register m)
      → Carries L lawful (register_to_json L m) (register_from_json L) m
  unfolding register_to_json register_from_json register_fields bytes_discrete ℕ_discrete
  register-Carries m (name, word, shown) =
      let fields = register_fields L m in
      dump_object-Carries L lawful fields _ m (omega arith)
        (
          of_text-IsClean m.username name,
          (of_text-IsClean m.password word, (of_text-IsClean m.display_name shown, tt)),
        )
        (rw
          (
            text_at-object L lawful (codes "username") fields m.username refl,
            text_at-object L lawful (codes "password") fields m.password refl,
            text_at-object L lawful (codes "display_name") fields m.display_name refl,
            ◌>>=◌,
          )
          refl)

  login-Carries :
      (m : LoginMessage)
      → IsJsonRequest (login m)
      → Carries L lawful (login_to_json L m) (login_from_json L) m
  unfolding login_to_json login_from_json credential_fields bytes_discrete ℕ_discrete
  login-Carries m (name, word) =
      let fields = credential_fields L m.username m.password in
      dump_object-Carries L lawful fields _ m (omega arith)
        (of_text-IsClean m.username name, (of_text-IsClean m.password word, tt))
        (rw
          (
            text_at-object L lawful (codes "username") fields m.username refl,
            text_at-object L lawful (codes "password") fields m.password refl,
            ◌>>=◌,
          )
          refl)

  delete_account-Carries :
      (m : DeleteAccountMessage)
      → IsJsonRequest (delete_account m)
      → Carries L lawful (delete_account_to_json L m) (delete_account_from_json L) m
  unfolding delete_account_to_json delete_account_from_json credential_fields bytes_discrete
      ℕ_discrete
  delete_account-Carries m (name, word) =
      let fields = credential_fields L m.username m.password in
      dump_object-Carries L lawful fields _ m (omega arith)
        (of_text-IsClean m.username name, (of_text-IsClean m.password word, tt))
        (rw
          (
            text_at-object L lawful (codes "username") fields m.username refl,
            text_at-object L lawful (codes "password") fields m.password refl,
            ◌>>=◌,
          )
          refl)

  list_accounts-Carries :
      (m : ListAccountsMessage)
      → IsJsonRequest (list_accounts m)
      → Carries L lawful (list_accounts_to_json L m) (list_accounts_from_json L) m
  unfolding list_accounts_to_json list_accounts_from_json search_fields bytes_discrete ℕ_discrete
  list_accounts-Carries m h =
      let fields = search_fields L m in
      dump_object-Carries L lawful fields _ m (omega arith) (of_text-IsClean m.regex h, tt)
        (rw (text_at-object L lawful (codes "regex") fields m.regex refl, ◌>>=◌) refl)

  module _ (drawn : Bytes → Uuid) (sixteen : IsDrawn drawn) where
    send_message-Carries :
        (m : SendMessageMessage)
        → IsJsonRequest (send_message m)
        → Carries L lawful (send_message_to_json L m) (send_message_from_json L drawn) m
    unfolding send_message_to_json send_message_from_json sending_fields bytes_discrete ℕ_discrete
    send_message-Carries m (channel, sender, text) =
        let fields = sending_fields L m in
        let uuid_from = uuid_at-object L lawful drawn sixteen in
        dump_object-Carries L lawful fields _ m (omega arith)
          (
            uuid-IsClean L lawful m.channel_uid channel,
            (uuid-IsClean L lawful m.sender_uid sender, (of_text-IsClean m.text text, tt)),
          )
          (rw
            (
              uuid_from (codes "channel_uid") fields m.channel_uid channel refl,
              uuid_from (codes "sender_uid") fields m.sender_uid sender refl,
              text_at-object L lawful (codes "text") fields m.text refl,
              ◌>>=◌,
            )
            refl)

    delete_message-Carries :
        (m : DeleteMessageMessage)
        → IsJsonRequest (delete_message m)
        → Carries L lawful (delete_message_to_json L m) (delete_message_from_json L drawn) m
    unfolding delete_message_to_json delete_message_from_json deletion_fields bytes_discrete
        ℕ_discrete
    delete_message-Carries m (channel, fits) =
        let fields = deletion_fields L m in
        let n = m.message_snowflake in
        dump_object-Carries L lawful fields _ m (omega arith)
          (uuid-IsClean L lawful m.channel_uid channel, (of_number-IsClean n fits, tt))
          (rw
            (
              uuid_at-object L lawful drawn sixteen (codes "channel_uid") fields m.channel_uid
                  channel refl,
              number_at-object L lawful (codes "message_snowflake") fields n fits refl,
              ◌>>=◌,
            )
            refl)

    create_channel-Carries :
        (old m : CreateChannelMessage)
        → IsJsonRequest (create_channel m)
        → Carries L lawful
            (create_channel_to_json L m)
            (create_channel_from_json L drawn old)
            (record m { members = old.members ++ m.members })
    unfolding create_channel_to_json create_channel_from_json creation_fields bytes_discrete
        ℕ_discrete of_uuids
    create_channel-Carries old m (name, valid) =
        let fields = creation_fields L m in
        let listed = map (λ u. L.of_text (to_string u)) m.members in
        dump_object-Carries L lawful fields _ (record m { members = old.members ++ m.members })
          (omega arith)
          (of_text-IsClean m.channel_name name, (of_uuids-IsClean L lawful m.members valid, tt))
          (rw
            (
              text_at-object L lawful (codes "channel_name") fields m.channel_name refl,
              array_at-object L lawful (codes "members") fields listed refl,
              ◌>>=◌,
              items-of_array listed,
              each-uuids L lawful drawn sixteen m.members valid,
            )
            refl)

    -- What `switch` gets for a class from what its `from_json` makes of the text.
    Carries-handle :
        {A : Type 0} {to : Option Bytes} {from : Bytes → Option A} {a : A}
        → (as_request : A → Request) → Carries L lawful to from a
        → Carries L lawful to
            (λ s. from s >>= λ x. some (handle (as_request x)))
            (handle (as_request a))
    Carries-handle as_request (s, written, text, back) = (s, written, text, rw (back, ◌>>=◌) refl)

    -- In JSON mode, with a lawful JSON library: `serialize` of a request whose texts are valid UTF-8,
    -- whose identifiers have 16 bytes and whose snowflake has 64 bits does not throw; it writes a valid
    -- UTF-8 text, of which the server's `switch` makes that request, for each of the seven kinds,
    -- whatever 16 bytes `UUID::from_string` draws.
    pub request-Carries :
        (r : Request)
        → IsJsonRequest r
        → Carries L lawful
            (request_to_json L r)
            (request_from_json L drawn (request_operation r))
            (handle r)
    unfolding request_to_json request_from_json request_operation no_members
    request-Carries (register m) h = Carries-handle register (register-Carries m h)
    request-Carries (login m) h = Carries-handle login (login-Carries m h)
    request-Carries (list_accounts m) h = Carries-handle list_accounts (list_accounts-Carries m h)
    request-Carries (delete_account m) h =
        Carries-handle delete_account (delete_account-Carries m h)
    request-Carries (send_message m) h = Carries-handle send_message (send_message-Carries m h)
    request-Carries (delete_message m) h =
        Carries-handle delete_message (delete_message-Carries m h)
    request-Carries (create_channel m) h =
        Carries-handle create_channel (create_channel-Carries no_members m h)
