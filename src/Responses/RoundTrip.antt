-- ===== src/Responses/RoundTrip.antt =====
-- serialize, size and deserialize of the response classes of src/message, together.
use wire_protocols.Prelude.{◌≡◌, refl, some, [], length, append-nil}
use wire_protocols.Wire.Reads.{run_reader-Reads}
use wire_protocols.Models.User.{
  User, IsUser, put_user, user_size, user_size-put_user, received_user, blank_user, get_user,
  get_user-Reads,
}
use wire_protocols.Models.Message.{
  Message, IsMessage, put_message, message_size, get_message, get_message-Reads,
  message_size-put_message,
}
use wire_protocols.Models.Channel.{
  Channel, IsChannel, put_channel, channel_size, received_channel, blank_channel, get_channel,
  get_channel-Reads, channel_size-put_channel,
}
use wire_protocols.Responses.{
  Variant, success, failure, IsVariant, map_variant, get_variant, put_variant,
  get_variant-put_variant, variant_size-put_variant, Response, registered, logged_in,
  accounts_listed, account_deleted, message_sent, message_deleted, channel_created,
  response_operation, response_size, put_response, get_response, arrived, IsResponse, on_arrival,
  put_monostate, get_monostate, monostate_size, decode_user, decode_message, decode_channel,
  put_listing, get_listing, listing_size, received_listing, get_listing-put_listing,
  listing_size-put_listing,
}

decode_user-put_user :
    (u : User) → IsUser u → decode_user (put_user u) ≡ some (received_user blank_user u)
unfolding decode_user
decode_user-put_user u h =
    let whole =
      run_reader-Reads (get_user blank_user) (received_user blank_user u) (put_user u) []
        (get_user-Reads blank_user u h) in
    rw append-nil at whole

decode_message-put_message : (m : Message) → IsMessage m → decode_message (put_message m) ≡ some m
unfolding decode_message
decode_message-put_message m h =
    let whole = run_reader-Reads get_message m (put_message m) [] (get_message-Reads m h) in
    rw append-nil at whole

decode_channel-put_channel :
    (c : Channel)
    → IsChannel c
    → decode_channel (put_channel c) ≡ some (received_channel blank_channel c)
unfolding decode_channel
decode_channel-put_channel c h =
    let whole =
      run_reader-Reads (get_channel blank_channel) (received_channel blank_channel c)
        (put_channel c) [] (get_channel-Reads blank_channel c h) in
    rw append-nil at whole

user_back :
    (v : Variant User)
    → IsVariant IsUser v
    → get_variant decode_user (put_variant put_user v)
      ≡ some (map_variant (received_user blank_user) v)
user_back =
    get_variant-put_variant put_user decode_user (received_user blank_user) decode_user-put_user

same_variant {ℓ} : {A : Type ℓ} (v : Variant A) → map_variant (λ a. a) v ≡ v
same_variant (success a) = refl
same_variant (failure e) = refl

message_back :
    (v : Variant Message)
    → IsVariant IsMessage v
    → get_variant decode_message (put_variant put_message v) ≡ some v
message_back v h = rw (
  get_variant-put_variant put_message decode_message (λ m. m) decode_message-put_message v h,
  same_variant v,
)

monostate_back :
    (v : Variant (Unit {0}))
    → IsVariant (λ _. Unit {0}) v
    → get_variant get_monostate (put_variant put_monostate v) ≡ some v
unfolding get_monostate
monostate_back v h =
    rw (
      get_variant-put_variant put_monostate get_monostate (λ u. u) (λ _ _. refl) v h,
      same_variant v,
    )

-- What the client's `switch` gets from the payload of a response whose fields fit is that response
-- as `on_arrival` describes it: users without key and channels, channels with the lowest byte of each
-- snowflake, and the rest as it was sent.
pub get_response-put_response :
    (r : Response)
    → IsResponse r
    → get_response (response_operation r) (put_response r) ≡ some (arrived (on_arrival r))
unfolding get_response response_operation put_response
get_response-put_response (registered v) h = rw (monostate_back v h)
get_response-put_response (logged_in v) h = rw (user_back v h)
get_response-put_response (accounts_listed v) h =
    rw
      (get_variant-put_variant put_listing get_listing received_listing get_listing-put_listing v h)
get_response-put_response (account_deleted v) h = rw (user_back v h)
get_response-put_response (message_sent v) h = rw (message_back v h)
get_response-put_response (message_deleted v) h = rw (message_back v h)
get_response-put_response (channel_created v) h = rw (
    get_variant-put_variant put_channel decode_channel (received_channel blank_channel)
      decode_channel-put_channel v h)

user_sized :
    (v : Variant User)
    → IsVariant IsUser v
    → length (put_variant put_user v) ≡ response_size (logged_in v)
unfolding response_size
user_sized = variant_size-put_variant put_user user_size (λ u _. user_size-put_user u)

message_sized :
    (v : Variant Message)
    → IsVariant IsMessage v
    → length (put_variant put_message v) ≡ response_size (message_sent v)
unfolding response_size
message_sized =
    variant_size-put_variant put_message message_size
      (λ m h. message_size-put_message m h.readers_valid)

-- The size that the header of a response announces is the number of bytes of its payload, for a
-- response whose fields fit.
pub response_size-put_response :
    (r : Response) → IsResponse r → length (put_response r) ≡ response_size r
unfolding put_response response_size
response_size-put_response (registered v) h =
    variant_size-put_variant put_monostate monostate_size
      (λ u _. unfold put_monostate monostate_size in refl) v h
response_size-put_response (logged_in v) h = user_sized v h
response_size-put_response (accounts_listed v) h =
    variant_size-put_variant put_listing listing_size (λ us _. listing_size-put_listing us) v h
response_size-put_response (account_deleted v) h = user_sized v h
response_size-put_response (message_sent v) h = message_sized v h
response_size-put_response (message_deleted v) h = message_sized v h
response_size-put_response (channel_created v) h =
    variant_size-put_variant put_channel channel_size (λ c _. channel_size-put_channel c) v h
