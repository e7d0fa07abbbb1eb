-- ===== src/Tests/Payloads.antt =====
-- Runs of the formats of the payloads.
use wire_protocols.Prelude.{zero, suc, ℕ, ◌+◌, ◌≡◌, refl, some, [], ◌∷◌, ◌++◌, arith, length}
use wire_protocols.Wire.{Bytes}
use wire_protocols.Wire.Reads.{At}
use wire_protocols.Models.User.{blank_user, put_user, get_user, received_user, get_user-Reads}
use wire_protocols.Models.Channel.{put_channel, get_channel, received_channel, get_channel-Reads}
use wire_protocols.Requests.{
  create_channel, handle, request_operation, put_request, request_size, get_request,
  SendMessageMessage, put_send_message, get_send_message,
}
use wire_protocols.Requests.LongTexts.{get_send_message-carried}
use wire_protocols.Requests.RoundTrip.{get_request-put_request, request_size-put_request}
use wire_protocols.Responses.{
  success, channel_created, arrived, on_arrival, response_operation, put_response, response_size,
  get_response,
}
use wire_protocols.Responses.RoundTrip.{get_response-put_response, response_size-put_response}
use wire_protocols.Tests.{
  id, id-IsUuid, talk, talk-IsRequest, ann, ann-IsUser, room, room-IsChannel,
}

-- Bytes behind one byte of something else, with one more behind them.
abbrev within : Bytes → Bytes
within bytes = 5 ∷ (bytes ++ (6 ∷ []))

within-At : (bytes : Bytes) → At (within bytes) 1 bytes (6 ∷ [])
within-At bytes = record { inside = omega arith; found = refl }

get_request-put_request_example :
    get_request (request_operation (create_channel talk)) (put_request (create_channel talk))
    ≡ some (handle (create_channel talk))
get_request-put_request_example = get_request-put_request (create_channel talk) talk-IsRequest

request_size-put_request_example :
    length (put_request (create_channel talk)) ≡ request_size (create_channel talk)
request_size-put_request_example = request_size-put_request (create_channel talk) talk-IsRequest

get_response-put_response_example :
    get_response
      (response_operation (channel_created (success room)))
      (put_response (channel_created (success room)))
    ≡ some (arrived (on_arrival (channel_created (success room))))
get_response-put_response_example =
    get_response-put_response (channel_created (success room)) room-IsChannel

response_size-put_response_example :
    length (put_response (channel_created (success room)))
    ≡ response_size (channel_created (success room))
response_size-put_response_example =
    response_size-put_response (channel_created (success room)) room-IsChannel

get_channel-Reads_example :
    get_channel room (within (put_channel room)) 1
    ≡ some (received_channel room room, 1 + length (put_channel room))
get_channel-Reads_example =
    get_channel-Reads room room room-IsChannel (within (put_channel room)) (6 ∷ []) 1
      (within-At (put_channel room))

get_user-Reads_example :
    get_user blank_user (within (put_user ann)) 1
    ≡ some (received_user blank_user ann, 1 + length (put_user ann))
get_user-Reads_example =
    get_user-Reads blank_user ann ann-IsUser (within (put_user ann)) (6 ∷ []) 1
      (within-At (put_user ann))

abbrev letters : ℕ → Bytes
letters zero = []
letters (suc n) = 97 ∷ letters n

-- Its text is two bytes longer than a length byte can tell: one byte of it arrives.
abbrev longer_message : SendMessageMessage
longer_message = record { channel_uid = id 9; sender_uid = id 1; text = letters 257 }

get_send_message-carried_example :
    get_send_message (put_send_message longer_message)
    ≡ some (record longer_message { text = 97 ∷ [] })
get_send_message-carried_example =
    get_send_message-carried longer_message (id-IsUuid 9 (omega arith)) (id-IsUuid 1 (omega arith))
