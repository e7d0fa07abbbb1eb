-- ===== src/Tests/Packets.antt =====
-- Runs of the loops that take packets off a socket.
use wire_protocols.Prelude.{
  ℕ, ◌+◌, ◌≤◌, ◌<◌, ◌≡◌, refl, some, List, [], ◌∷◌, ◌++◌, arith, length, map, codes, false,
}
use wire_protocols.Header
use wire_protocols.Header.{Header, IsHeader, put_header, header_size}
use wire_protocols.Models.Channel.{channel_size, put_channel, blank_channel}
use wire_protocols.Requests
use wire_protocols.Requests.{Dispatch, create_channel, handle, put_packet, get_request}
use wire_protocols.Responses.{
  Response, success, failure, channel_created, registered, arrived, on_arrival, put_response_packet,
}
use wire_protocols.Framing.{logged-got, Socket, unread, got, timed_out, other_version, read_packet}
use wire_protocols.Framing.Delivery.{read_packet_starved, read_packet-other_version}
use wire_protocols.Framing.Server.{prints_request, on_read_data, on_read_data-put_packet}
use wire_protocols.Framing.Progress.{read_packet-consumes}
use wire_protocols.Framing.Client.{
  Received, on_ready_read, on_ready_read_total, on_ready_read-burst,
}
use wire_protocols.Json.Responses.RoundTrip.{IsJsonResponse}
use wire_protocols.Tests.Json.{packed, packed-IsLawful}
use wire_protocols.Tests.{id-IsUuid, talk, talk-IsRequest, room, room-IsChannel}

-- A whole packet, with a byte behind it and one on its way.
abbrev whole_socket : Socket
whole_socket = record {
  available = put_packet (create_channel talk) ++ (7 ∷ []);
  later = (8 ∷ []) ∷ [];
}

on_read_data-put_packet_example :
    ((on_read_data packed whole_socket).0 ≡ got (handle (create_channel talk)))
    × (unread (on_read_data packed whole_socket).1 ≡ 7 ∷ 8 ∷ [])
unfolding put_packet put_header Requests.put_create_channel packed-IsLawful
on_read_data-put_packet_example =
    on_read_data-put_packet packed packed-IsLawful (create_channel talk) (7 ∷ 8 ∷ []) whole_socket
      talk-IsRequest (tt, (id-IsUuid 1 (omega arith), (id-IsUuid 2 (omega arith), tt))) refl
      (omega arith)

-- A response with a channel, and one with an error text.
abbrev burst : List Response
burst = channel_created (success room) ∷ registered (failure (codes "Username is taken")) ∷ []

arrived_room-IsJsonResponse :
    IsJsonResponse packed packed-IsLawful (on_arrival (channel_created (success room)))
unfolding packed-IsLawful blank_channel
arrived_room-IsJsonResponse = record {
  uid_valid = id-IsUuid 9 (omega arith);
  name_text = tt;
  users_valid = (id-IsUuid 1 (omega arith), (id-IsUuid 2 (omega arith), tt));
  snowflakes_fit = omega arith;
}

abbrev burst_socket : Socket
burst_socket = record {
  available =
      put_response_packet (channel_created (success room))
      ++ (put_response_packet (registered (failure (codes "Username is taken"))) ++ []);
  later = [];
}

on_ready_read-burst_example :
    (last : Socket) × (on_ready_read packed 3 burst_socket
      ≡ some (record {
        arrivals = map (λ r. arrived (on_arrival r)) burst;
        escaped = false;
        left = last;
      }))
    × (unread last ≡ [])
unfolding put_response_packet channel_size put_header put_channel packed-IsLawful
on_ready_read-burst_example =
    on_ready_read-burst packed packed-IsLawful burst burst_socket
      (
        (room-IsChannel, (omega arith, arrived_room-IsJsonResponse)),
        ((omega arith, (omega arith, tt)), tt),
      )
      refl (omega arith)

-- A header of this version that announces 300 bytes, and three bytes behind it.
abbrev header : ℕ → Header
header version = record { version = version; operation = Header.login; packet_length = 300 }

header-IsHeader : (version : ℕ) → version < 16 → IsHeader (header version)
header-IsHeader version h = record {
  version_fits = h;
  operation_known = tt;
  length_fits = omega arith;
}

abbrev header_socket : ℕ → Socket
header_socket version = record {
  available = put_header (header version) ++ (1 ∷ 2 ∷ []);
  later = (3 ∷ []) ∷ [];
}

read_packet_starved_example :
    ((read_packet get_request (header_socket 1)).0 ≡ timed_out)
    × (unread (read_packet get_request (header_socket 1)).1 ≡ 1 ∷ 2 ∷ 3 ∷ [])
unfolding put_header
read_packet_starved_example =
    read_packet_starved get_request (header 1) (1 ∷ 2 ∷ 3 ∷ []) (header_socket 1)
      (header-IsHeader 1 (omega arith)) refl refl (omega arith) (omega arith)

read_packet-other_version_example :
    ((read_packet get_request (header_socket 2)).0 ≡ other_version)
    × (unread (read_packet get_request (header_socket 2)).1 ≡ 1 ∷ 2 ∷ 3 ∷ [])
unfolding put_header
read_packet-other_version_example =
    read_packet-other_version get_request (header 2) (1 ∷ 2 ∷ 3 ∷ []) (header_socket 2)
      (header-IsHeader 2 (omega arith)) (omega arith) refl (omega arith)

on_ready_read_total_example : (r : Received) × (on_ready_read packed 8 (header_socket 1) ≡ some r)
unfolding put_header
on_ready_read_total_example = on_ready_read_total packed 8 (header_socket 1) (omega arith)

read_packet-consumes_example :
    length (unread (read_packet get_request whole_socket).1) + header_size
    ≤ length (unread whole_socket)
unfolding on_read_data
read_packet-consumes_example =
    read_packet-consumes get_request whole_socket (handle (create_channel talk)) (
      logged-got (prints_request packed) (read_packet get_request whole_socket).0
        (handle (create_channel talk)) on_read_data-put_packet_example.0)
