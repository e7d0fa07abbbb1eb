-- ===== src/Framing/Server.antt =====
-- `ClientHandler::on_read_data`: one packet for each signal that there is something to read.
use wire_protocols.Prelude.{
  is_some, ◌≤◌, ◌≡◌, refl, ◌++◌, Bool, true, arith, length, length-append, ◌∙◌, append_assoc, [],
  ◌∷◌,
}
use wire_protocols.Wire.{Bytes}
use wire_protocols.Header.{IsOperation, put_header, packet_header}
use wire_protocols.Requests.{
  Request, Dispatch, unknown_operation, IsRequest, handle, request_operation, request_size,
  put_request, put_packet, get_request, register,
}
use wire_protocols.Requests.RoundTrip.{
  get_request-put_request, request_size-put_request, request_size_bound,
}
use wire_protocols.Json.{Library, IsLawful}
use wire_protocols.Json.Laws.{IsDrawn}
use wire_protocols.Json.Requests.{request_to_json}
use wire_protocols.Json.Requests.RoundTrip.{IsJsonRequest, request-Carries}
use wire_protocols.Framing.{Socket, unread, Outcome, got, logged, read_packet}
use wire_protocols.Framing.Delivery.{read_packet-delivered}

-- An identifier's bytes.
abbrev pub zeros : Bytes
zeros = 0 ∷ 0 ∷ 0 ∷ 0 ∷ 0 ∷ 0 ∷ 0 ∷ 0 ∷ 0 ∷ 0 ∷ 0 ∷ 0 ∷ 0 ∷ 0 ∷ 0 ∷ 0 ∷ []

-- Whether the line that logs what was decoded completes.
unfoldable pub prints_request : Library → Dispatch → Bool
unfolding request_to_json
prints_request L (handle r) = is_some (request_to_json L r)
prints_request L unknown_operation = true

unfoldable pub on_read_data : Library → Socket → Outcome Dispatch × Socket
unfolding read_packet get_request logged prints_request
on_read_data L s =
    let (outcome, left) = read_packet get_request s in (logged (prints_request L) outcome, left)

request_known : (r : Request) → IsOperation (request_operation r)
unfolding request_operation
request_known (register m) = tt
request_known _ = tt

module _ (L : Library) (lawful : IsLawful L) where
  request_printed : (r : Request) → IsJsonRequest L lawful r → prints_request L (handle r) ≡ true
  unfolding prints_request
  request_printed r valid =
      let sixteen : IsDrawn (λ s. record { value = zeros }) = λ s. refl in
      let (s, written, text, back) =
        request-Carries L lawful (λ s. record { value = zeros }) sixteen r valid in
      rw written refl

  -- A request whose fields fit their length fields and whose texts are valid UTF-8, with its whole
  -- packet in the buffer of the socket, reaches its handler exactly as the client made it, and what
  -- stands behind it stays unread, with a lawful JSON library for the line that logs it.
  pub on_read_data-put_packet :
      (r : Request) (rest : Bytes) (s : Socket)
      → IsRequest r
      → IsJsonRequest L lawful r
      → unread s ≡ put_packet r ++ rest
      → length (put_packet r) ≤ length s.available
      → ((on_read_data L s).0 ≡ got (handle r)) × (unread (on_read_data L s).1 ≡ rest)
  unfolding on_read_data put_packet logged put_header
  on_read_data-put_packet r rest s valid texts e there =
      let size = request_size-put_request r valid in
      let header = put_header (packet_header (request_operation r) (request_size r)) in
      let (dispatched, left) =
        read_packet-delivered get_request (request_operation r) (put_request r) rest (handle r) s
          (request_known r) (omega (arith, size, request_size_bound r valid))
          (get_request-put_request r valid) (rw size (e ∙ append_assoc header (put_request r) rest))
          (omega (arith, there, length-append header (put_request r))) in
      (rw (dispatched, logged, request_printed r texts) refl, left)
