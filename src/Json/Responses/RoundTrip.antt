-- ===== src/Json/Responses/RoundTrip.antt =====
-- The responses through their JSON texts.
use wire_protocols.Prelude.{◌≡◌, refl, Option, some, List, All, codes, arith}
use wire_protocols.Prelude.Try.{◌>>=◌}
use wire_protocols.Wire.{Bytes}
use wire_protocols.Uuid.{Uuid}
use wire_protocols.Models.User.{User, received_user, blank_user}
use wire_protocols.Models.Message.{Message}
use wire_protocols.Models.Channel.{Channel, blank_channel}
use wire_protocols.Responses.{
  Variant, success, failure, Response, registered, logged_in, accounts_listed, account_deleted,
  message_sent, message_deleted, channel_created, arrived, response_operation, map_variant,
  received_listing,
}
use wire_protocols.Json.{Library, IsLawful}
use wire_protocols.Json.Laws.{IsDrawn, Carries}
use wire_protocols.Json.Models.{
  user_to_json, user_from_json, message_to_json, message_from_json, channel_to_json,
  channel_from_json,
}
use wire_protocols.Json.Models.RoundTrip.{
  IsUser, IsMessage, IsChannel, user-Carries, message-Carries, channel-Carries,
}
use wire_protocols.Json.Responses.{
  nested, unnested, nested_all, unnested_all, logged_in_to_json, logged_in_from_json,
  accounts_listed_to_json, accounts_listed_from_json, channel_created_to_json,
  channel_created_from_json, account_deleted_to_json, account_deleted_from_json,
  message_response_to_json, message_response_from_json, response_to_json, response_from_json,
}
use wire_protocols.Json.Responses.Variants.{
  IsJsonVariant, Places, nested-Places, nested_all-values, named-Carries, flagged-Carries,
  registered-Carries,
}

-- A response as the client gets it: a user comes without key and channels.
abbrev pub on_json_arrival : Response → Response
on_json_arrival (registered v) = registered v
on_json_arrival (logged_in v) = logged_in (map_variant (received_user blank_user) v)
on_json_arrival (accounts_listed v) = accounts_listed (map_variant received_listing v)
on_json_arrival (account_deleted v) = account_deleted (map_variant (received_user blank_user) v)
on_json_arrival (message_sent v) = message_sent v
on_json_arrival (message_deleted v) = message_deleted v
on_json_arrival (channel_created v) = channel_created v

module _ (L : Library) (lawful : IsLawful L) where
  open lawful use {
    Text, IsClean, of_text-IsClean, of_bool-IsClean, of_array-IsClean, get_text-of_text,
    items-of_array,
  }

  -- The texts of the value, or the error message, are valid UTF-8, identifiers have 16 bytes, and
  -- 64-bit fields fit.
  abbrev pub IsJsonResponse : Response → Type 0
  IsJsonResponse (registered v) = IsJsonVariant L lawful (λ _. Unit {0}) v
  IsJsonResponse (logged_in v) = IsJsonVariant L lawful (IsUser L lawful) v
  IsJsonResponse (accounts_listed v) = IsJsonVariant L lawful (All (IsUser L lawful)) v
  IsJsonResponse (account_deleted v) = IsJsonVariant L lawful (IsUser L lawful) v
  IsJsonResponse (message_sent v) = IsJsonVariant L lawful (IsMessage L lawful) v
  IsJsonResponse (message_deleted v) = IsJsonVariant L lawful (IsMessage L lawful) v
  IsJsonResponse (channel_created v) = IsJsonVariant L lawful (IsChannel L lawful) v

  map_variant_same : {A : Type 0} (r : Variant A) → map_variant (λ a. a) r ≡ r
  map_variant_same (success a) = refl
  map_variant_same (failure e) = refl

  -- What `switch` gets for a class from what its `from_json` makes of the text.
  Carries-arrived :
      {A : Type 0} {to : Option Bytes} {from : Bytes → Option A} {a : A}
      → (as_response : A → Response) → Carries L lawful to from a
      → Carries L lawful to
          (λ s. from s >>= λ x. some (arrived (as_response x)))
          (arrived (as_response a))
  Carries-arrived as_response (s, written, text, back) = (s, written, text, rw (back, ◌>>=◌) refl)

  module _ (drawn : Bytes → Uuid) (sixteen : IsDrawn drawn) where
    user-Places :
        (u : User)
        → IsUser L lawful u
        → Places L lawful
            (nested L (user_to_json L) u)
            (unnested L (user_from_json L drawn blank_user))
            (received_user blank_user u)
    user-Places u h =
        nested-Places L lawful (user_to_json L) (user_from_json L drawn blank_user) u
          (received_user blank_user u) (user-Carries L lawful drawn sixteen blank_user u h)

    message-Places :
        (m : Message)
        → IsMessage L lawful m
        → Places L lawful
            (nested L (message_to_json L) m)
            (unnested L (message_from_json L drawn))
            m
    message-Places m h =
        nested-Places L lawful (message_to_json L) (message_from_json L drawn) m m
          (message-Carries L lawful drawn sixteen m h)

    channel-Places :
        (c : Channel)
        → IsChannel L lawful c
        → Places L lawful
            (nested L (channel_to_json L) c)
            (unnested L (channel_from_json L drawn blank_channel))
            c
    unfolding blank_channel
    channel-Places c h =
        nested-Places L lawful (channel_to_json L) (channel_from_json L drawn blank_channel) c c
          (channel-Carries L lawful drawn sixteen blank_channel c h)

    listing-Places :
        (us : List User)
        → All (IsUser L lawful) us
        → Places L lawful
            (nested_all L (user_to_json L) us >>= λ vs. some (L.of_array vs))
            (λ v. unnested_all L (user_from_json L drawn blank_user) (L.items v))
            (received_listing us)
    listing-Places us h =
        let (vs, placed, clean, back) =
          nested_all-values L lawful (user_to_json L) (user_from_json L drawn blank_user)
            (received_user blank_user) (user-Carries L lawful drawn sixteen blank_user) us h in
        (
          L.of_array vs,
          rw (placed, ◌>>=◌) refl,
          of_array-IsClean vs clean,
          rw (items-of_array vs) back,
        )

    -- In JSON mode, with a lawful JSON library: `serialize` of a response whose texts are valid UTF-8,
    -- whose identifiers have 16 bytes and whose 64-bit fields fit does not throw; it writes a valid
    -- UTF-8 text, of which the client's `switch` makes that response, for each of the seven kinds, with
    -- a value and with an error: only the key and the channels of a user are not sent, and a channel
    -- comes with its snowflakes whole.
    pub response-Carries :
        (r : Response)
        → IsJsonResponse r
        → Carries L lawful
            (response_to_json L r)
            (response_from_json L drawn (response_operation r))
            (arrived (on_json_arrival r))
    unfolding response_to_json response_from_json response_operation logged_in_to_json
        logged_in_from_json accounts_listed_to_json accounts_listed_from_json
        account_deleted_to_json account_deleted_from_json message_response_to_json
        message_response_from_json channel_created_to_json channel_created_from_json blank_channel
    response-Carries (registered v) h = Carries-arrived registered (registered-Carries L lawful v h)
    response-Carries (logged_in v) h = Carries-arrived logged_in (
        named-Carries L lawful (codes "user") (omega arith) _ _ (received_user blank_user)
          user-Places v h)
    response-Carries (accounts_listed v) h = Carries-arrived accounts_listed (
        named-Carries L lawful (codes "users") (omega arith) _ _ received_listing listing-Places v
          h)
    response-Carries (account_deleted v) h = Carries-arrived account_deleted (
        flagged-Carries L lawful (codes "user") (omega arith) _ _ (received_user blank_user)
          user-Places v h)
    response-Carries (message_sent v) h = Carries-arrived message_sent (
        rw map_variant_same at (
          flagged-Carries L lawful (codes "message") (omega arith) _ _ (λ m. m) message-Places v h))
    response-Carries (message_deleted v) h = Carries-arrived message_deleted (
        rw map_variant_same at (
          flagged-Carries L lawful (codes "message") (omega arith) _ _ (λ m. m) message-Places v h))
    response-Carries (channel_created v) h = Carries-arrived channel_created (
        rw map_variant_same at
          (named-Carries L lawful (codes "channel") (omega arith) _ _ (λ c. c) channel-Places v h))
