-- ===== src/Json/Responses.antt =====
-- `to_json` and `from_json` of the responses that the server sends (src/message).
mod Variants
pub mod RoundTrip
use wire_protocols.Prelude.{
  ℕ, Bool, true, false, Option, none, some, List, [], ◌∷◌, codes, if◌then◌else◌,
}
use wire_protocols.Prelude.Try.{◌>>=◌}
use wire_protocols.Wire.{Bytes}
use wire_protocols.Uuid.{Uuid}
use wire_protocols.Header
use wire_protocols.Header.{Operation}
use wire_protocols.Models.User.{User, blank_user}
use wire_protocols.Models.Message.{Message}
use wire_protocols.Models.Channel.{Channel, blank_channel}
use wire_protocols.Responses.{
  Variant, success, failure, Response, registered, logged_in, accounts_listed, account_deleted,
  message_sent, message_deleted, channel_created, Arrival, arrived, unknown_operation,
}
use wire_protocols.Json.{Library, assign, dump_object, text_at, bool_at}
use wire_protocols.Json.Models.{
  user_to_json, user_from_json, message_to_json, message_from_json, channel_to_json,
  channel_from_json,
}

module _ (L : Library) where
  error_fields : Bytes → List (Bytes × L.Value)
  error_fields e = (codes "error", L.of_text e) ∷ []

  -- The error message under its key.
  unfoldable pub error_at : {A : Type 0} → L.Value → Option (Variant A)
  unfolding text_at
  error_at j = do e ← text_at L (codes "error") j; some (failure e)

  -- A value stands in the response as the text of its own `to_json`, a string.
  unfoldable pub nested : {A : Type 0} → (A → Option Bytes) → A → Option L.Value
  nested to a = do s ← to a; some (L.of_text s)

  unfoldable pub unnested : {A : Type 0} → (Bytes → Option A) → L.Value → Option A
  unnested from v = do s ← L.get_text v; from s

  -- The loop over the users of a listing.
  unfoldable pub nested_all : {A : Type 0} → (A → Option Bytes) → List A → Option (List L.Value)
  unfolding nested
  nested_all to [] = some []
  nested_all to (a ∷ as') = do v ← nested to a; vs ← nested_all to as'; some (v ∷ vs)

  unfoldable pub unnested_all : {A : Type 0} → (Bytes → Option A) → List L.Value → Option (List A)
  unfolding unnested
  unnested_all from [] = some []
  unnested_all from (v ∷ vs) = do a ← unnested from v; rest ← unnested_all from vs; some (a ∷ rest)

  module _ {A : Type 0} (key : Bytes) where
    -- `to_json` of the classes that tell a value from an error by its key.
    unfoldable pub named_to_json : (A → Option L.Value) → Variant A → Option Bytes
    unfolding dump_object error_fields
    named_to_json to (success a) = do v ← to a; dump_object L ((key, v) ∷ [])
    named_to_json to (failure e) = dump_object L (error_fields e)

    unfoldable pub named_from_json : (L.Value → Option A) → Bytes → Option (Variant A)
    unfolding error_at
    named_from_json from json = do
      j ← L.parse json
      let value = do v ← L.at key j; a ← from v; some (success a)
      if L.contains key j then value else error_at j

    -- `to_json` of the classes with a Boolean under `success`.
    unfoldable pub flagged_to_json : (A → Option L.Value) → Variant A → Option Bytes
    unfolding dump_object error_fields
    flagged_to_json to (success a) = do
      v ← to a
      dump_object L ((codes "success", L.of_bool true) ∷ (key, v) ∷ [])
    flagged_to_json to (failure e) =
        dump_object L ((codes "success", L.of_bool false) ∷ error_fields e)

    unfoldable pub flagged_from_json : (L.Value → Option A) → Bytes → Option (Variant A)
    unfolding error_at bool_at
    flagged_from_json from json = do
      j ← L.parse json
      succeeded ← bool_at L (codes "success") j
      let value = do v ← L.at key j; a ← from v; some (success a)
      if succeeded then value else error_at j

  -- `RegisterAccountResponse::to_json`
  unfoldable pub registered_to_json : Variant (Unit {0}) → Option Bytes
  unfolding dump_object error_fields
  registered_to_json (success a) = dump_object L ((codes "success", L.of_bool true) ∷ [])
  registered_to_json (failure e) =
      dump_object L ((codes "success", L.of_bool false) ∷ error_fields e)

  -- `RegisterAccountResponse::from_json`
  unfoldable pub registered_from_json : Bytes → Option (Variant (Unit {0}))
  unfolding error_at bool_at
  registered_from_json json = do
    j ← L.parse json
    succeeded ← bool_at L (codes "success") j
    if succeeded then some (success tt) else error_at j

  -- `LoginResponse::to_json`
  unfoldable pub logged_in_to_json : Variant User → Option Bytes
  unfolding named_to_json nested user_to_json
  logged_in_to_json = named_to_json (codes "user") (nested (user_to_json L))

  -- `ListAccountsResponse::to_json`
  unfoldable pub accounts_listed_to_json : Variant (List User) → Option Bytes
  unfolding named_to_json nested_all user_to_json
  accounts_listed_to_json =
      named_to_json (codes "users")
        (λ us. do vs ← nested_all (user_to_json L) us; some (L.of_array vs))

  -- `CreateChannelResponse::to_json`
  unfoldable pub channel_created_to_json : Variant Channel → Option Bytes
  unfolding named_to_json nested channel_to_json
  channel_created_to_json = named_to_json (codes "channel") (nested (channel_to_json L))

  -- `DeleteAccountResponse::to_json`
  unfoldable pub account_deleted_to_json : Variant User → Option Bytes
  unfolding flagged_to_json nested user_to_json
  account_deleted_to_json = flagged_to_json (codes "user") (nested (user_to_json L))

  -- `SendMessageResponse::to_json` and `DeleteMessageResponse::to_json`
  unfoldable pub message_response_to_json : Variant Message → Option Bytes
  unfolding flagged_to_json nested message_to_json
  message_response_to_json = flagged_to_json (codes "message") (nested (message_to_json L))

  -- `serialize` of each class, where `PROTOCOL_JSON` is set.
  unfoldable pub response_to_json : Response → Option Bytes
  unfolding registered_to_json logged_in_to_json accounts_listed_to_json account_deleted_to_json
      message_response_to_json channel_created_to_json
  response_to_json (registered v) = registered_to_json v
  response_to_json (logged_in v) = logged_in_to_json v
  response_to_json (accounts_listed v) = accounts_listed_to_json v
  response_to_json (account_deleted v) = account_deleted_to_json v
  response_to_json (message_sent v) = message_response_to_json v
  response_to_json (message_deleted v) = message_response_to_json v
  response_to_json (channel_created v) = channel_created_to_json v

  module _ (drawn : Bytes → Uuid) where
    -- `LoginResponse::from_json`
    unfoldable pub logged_in_from_json : Bytes → Option (Variant User)
    unfolding named_from_json unnested user_from_json blank_user
    logged_in_from_json =
        named_from_json (codes "user") (unnested (user_from_json L drawn blank_user))

    -- `ListAccountsResponse::from_json`
    unfoldable pub accounts_listed_from_json : Bytes → Option (Variant (List User))
    unfolding named_from_json unnested_all user_from_json blank_user
    accounts_listed_from_json =
        named_from_json (codes "users")
          (λ v. unnested_all (user_from_json L drawn blank_user) (L.items v))

    -- `CreateChannelResponse::from_json`
    unfoldable pub channel_created_from_json : Bytes → Option (Variant Channel)
    unfolding named_from_json unnested channel_from_json blank_channel
    channel_created_from_json =
        named_from_json (codes "channel") (unnested (channel_from_json L drawn blank_channel))

    -- `DeleteAccountResponse::from_json`
    unfoldable pub account_deleted_from_json : Bytes → Option (Variant User)
    unfolding flagged_from_json unnested user_from_json blank_user
    account_deleted_from_json =
        flagged_from_json (codes "user") (unnested (user_from_json L drawn blank_user))

    -- `SendMessageResponse::from_json` and `DeleteMessageResponse::from_json`
    unfoldable pub message_response_from_json : Bytes → Option (Variant Message)
    unfolding flagged_from_json unnested message_from_json
    message_response_from_json =
        flagged_from_json (codes "message") (unnested (message_from_json L drawn))

    -- The `switch` of `TcpClient::onReadyRead`, where `PROTOCOL_JSON` is set.
    unfoldable pub response_from_json : Operation → Bytes → Option Arrival
    unfolding registered_from_json logged_in_from_json accounts_listed_from_json
        account_deleted_from_json message_response_from_json channel_created_from_json
    response_from_json Header.register_account msg = do
      v ← registered_from_json msg
      some (arrived (registered v))
    response_from_json Header.login msg = do
      v ← logged_in_from_json msg
      some (arrived (logged_in v))
    response_from_json Header.list_accounts msg = do
      v ← accounts_listed_from_json msg
      some (arrived (accounts_listed v))
    response_from_json Header.delete_account msg = do
      v ← account_deleted_from_json msg
      some (arrived (account_deleted v))
    response_from_json Header.delete_message msg = do
      v ← message_response_from_json msg
      some (arrived (message_deleted v))
    response_from_json Header.create_channel msg = do
      v ← channel_created_from_json msg
      some (arrived (channel_created v))
    response_from_json Header.send_message msg = do
      v ← message_response_from_json msg
      some (arrived (message_sent v))
    response_from_json _ msg = some unknown_operation
