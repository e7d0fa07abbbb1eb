-- ===== src/Client/Receiving.antt =====
-- `TcpClient::onReadyRead` of src/bin/client/model/tcp_client.cpp with the handlers that it calls:
-- bytes in, a session out.
use wire_protocols.Prelude.{
  ℕ, suc, ◌≤◌, ◌≡◌, refl, ap, Option, some, List, [], ◌∷◌, ◌++◌, length, map, All, none,
  if◌then◌else◌,
}
use wire_protocols.Prelude.Try.{◌>>=◌}
use wire_protocols.Wire.Reads.{concat_map}
use wire_protocols.Responses.{
  Response, Arrival, arrived, unknown_operation, on_arrival, put_response_packet,
}
use wire_protocols.Json.{Library, IsLawful}
use wire_protocols.Framing.{Socket, unread}
use wire_protocols.Framing.Client.{on_ready_read, on_ready_read-burst, Sendable}
use wire_protocols.Client.{Session}
use wire_protocols.Client.Handlers.{Notice, Handled, handle_response, handle_responses}

-- The packets in their order; one of an unknown operation is passed over.
unfoldable pub handle_arrivals : List Arrival → Session → Handled
handle_arrivals [] s = some (s, [])
handle_arrivals (unknown_operation ∷ later) s = handle_arrivals later s
handle_arrivals (arrived r ∷ later) s = do
  (s', notices) ← handle_response r s
  (last, more) ← handle_arrivals later s'
  some (last, notices ++ more)

-- All that one call does. `none`: the fuel ran out, a handler does not complete, or the line that
-- logs a response throws.
unfoldable pub receive : Library → ℕ → Socket → Session → Option (Session × List Notice × Socket)
unfolding on_ready_read
receive L fuel socket s = do
  received ← on_ready_read L fuel socket
  (last, notices) ← handle_arrivals received.arrivals s
  if received.escaped then none else some (last, notices, received.left)

handle_arrivals-arrived :
    (rs : List Response) (s : Session)
    → handle_arrivals (map (λ r. arrived (on_arrival r)) rs) s
      ≡ handle_responses (map on_arrival rs) s
unfolding handle_arrivals handle_responses
handle_arrivals-arrived [] s = refl
handle_arrivals-arrived (r ∷ rs) s =
    ap
      (λ (f : Session → Handled). do
        (s', notices) ← handle_response (on_arrival r) s
        (last, more) ← f s'
        some (last, notices ++ more))
      (λ i s'. handle_arrivals-arrived rs s' i)

-- A burst of responses whose fields fit and whose texts are valid UTF-8, each with a payload below
-- 65536 bytes, that is all of what the client's socket holds and will get, where handling the
-- responses as they arrive completes, with a lawful JSON library for the line that logs them: one
-- call, in one round more than there are responses, leaves the socket empty and the session as
-- handling them one after the other leaves it, with the same signals.
pub receive-burst :
    (L : Library) (lawful : IsLawful L) (rs : List Response) (socket : Socket) (s last : Session)
    (notices : List Notice)
    → All (Sendable L lawful) rs
    → unread socket ≡ concat_map put_response_packet rs
    → length socket.later ≤ 0
    → handle_responses (map on_arrival rs) s ≡ some (last, notices)
    → (left : Socket) × (receive L (suc (length rs)) socket s ≡ some (last, notices, left))
      × (unread left ≡ [])
unfolding receive
receive-burst L lawful rs socket s last notices fit e done handled =
    let (left, read, empty) = on_ready_read-burst L lawful rs socket fit e done in
    (left, rw (read, handle_arrivals-arrived rs s, handled, ◌>>=◌) refl, empty)
