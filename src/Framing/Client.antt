-- ===== src/Framing/Client.antt =====
-- `TcpClient::onReadyRead`: packets are read until one is not there in full. Each packet that was
-- decoded goes to its handler before the next is read; here the arrivals are listed in that order.
use wire_protocols.Prelude.{
  is_some, Bool, true, false, ltb, ℕ, zero, suc, ◌≤◌, ◌<◌, ◌^◌, ◌≡◌, refl, ap, sym, ◌∙◌, Option,
  none, some, List, [], ◌∷◌, ◌++◌, map, arith, length, length-append, flatten, append_assoc, All,
}
use wire_protocols.Wire.{Bytes}
use wire_protocols.Wire.Reads.{concat_map}
use wire_protocols.Header.{IsOperation, put_header, packet_header, header_size}
use wire_protocols.Responses.{
  Response, Arrival, arrived, unknown_operation, registered, IsResponse, on_arrival,
  response_operation, response_size, put_response, put_response_packet, get_response,
}
use wire_protocols.Responses.RoundTrip.{get_response-put_response, response_size-put_response}
use wire_protocols.Framing.{
  Socket, unread, Outcome, got, short_header, other_version, timed_out, bad_payload, threw,
  read_packet, logged, logged-got,
}
use wire_protocols.Json.{Library, IsLawful}
use wire_protocols.Json.Laws.{IsDrawn}
use wire_protocols.Json.Responses.{response_to_json}
use wire_protocols.Json.Responses.RoundTrip.{IsJsonResponse, response-Carries}
use wire_protocols.Framing.Server.{zeros}
use wire_protocols.Framing.Delivery.{read_packet-delivered, settled}
use wire_protocols.Framing.Progress.{read_packet-consumes, read_packet-chunks}

-- What a call of the loop dispatched, whether it ended with the exception of the line that logs a
-- response, and the socket then.
pub record Received : Type 0 where
  pub arrivals : List Arrival
  pub escaped : Bool
  pub left : Socket

-- How a round goes on, given the rest of the loop.
after_round : Outcome Arrival → Socket → Option Received → Option Received
after_round (got a) left none = none
after_round (got a) left (some r) = some (record r { arrivals = a ∷ r.arrivals })
after_round short_header left rest = some (record { arrivals = []; escaped = false; left = left })
after_round other_version left rest = some (record { arrivals = []; escaped = false; left = left })
after_round timed_out left rest = some (record { arrivals = []; escaped = false; left = left })
after_round bad_payload left rest = some (record { arrivals = []; escaped = false; left = left })
after_round threw left rest = some (record { arrivals = []; escaped = true; left = left })

-- Whether the line that logs a response completes.
unfoldable pub prints_response : Library → Arrival → Bool
unfolding response_to_json
prints_response L (arrived r) = is_some (response_to_json L r)
prints_response L unknown_operation = true

-- One round.
unfoldable pub read_response : Library → Socket → Outcome Arrival × Socket
unfolding read_packet get_response logged prints_response
read_response L s =
    let (outcome, left) = read_packet get_response s in (logged (prints_response L) outcome, left)

-- The `while (true)` loop. `none`: the fuel ran out, which the loop does not know.
unfoldable pub on_ready_read : Library → ℕ → Socket → Option Received
unfolding read_response after_round
on_ready_read L zero s = none
on_ready_read L (suc fuel) s =
    let (outcome, left) = read_response L s in
    let rest = on_ready_read L fuel left in after_round outcome left rest

after_round_total :
    (o : Outcome Arrival) (left : Socket) (rest : Option Received)
    → ((a : Arrival) → o ≡ got a → (r : Received) × (rest ≡ some r))
    → (r : Received) × (after_round o left rest ≡ some r)
unfolding after_round
after_round_total (got a) left rest h =
    let (r, e) = h a refl in (record r { arrivals = a ∷ r.arrivals }, rw (e, after_round))
after_round_total short_header left rest h = (_, refl)
after_round_total other_version left rest h = (_, refl)
after_round_total timed_out left rest h = (_, refl)
after_round_total bad_payload left rest h = (_, refl)
after_round_total threw left rest h = (_, refl)

read_response-consumes :
    (L : Library) (s : Socket) (a : Arrival)
    → (read_response L s).0 ≡ got a
    → length (unread (read_response L s).1) < length (unread s)
unfolding read_response
read_response-consumes L s a e = omega (
  arith,
  read_packet-consumes get_response s a
      (logged-got (prints_response L) (read_packet get_response s).0 a e),
)

-- The loop ends on every input: more rounds than there are unread bytes are enough.
pub on_ready_read_total :
    (L : Library) (fuel : ℕ) (s : Socket)
    → length (unread s) < fuel
    → (r : Received) × (on_ready_read L fuel s ≡ some r)
unfolding on_ready_read
on_ready_read_total L zero s h = absurd (omega arith)
on_ready_read_total L (suc fuel) s h =
    let (outcome, left) = read_response L s in
    after_round_total outcome left (on_ready_read L fuel left)
      λ a e. on_ready_read_total L fuel left (omega (arith, read_response-consumes L s a e))

response_known : (r : Response) → IsOperation (response_operation r)
unfolding response_operation
response_known (registered v) = tt
response_known _ = tt

-- What the loop makes of a round.
on_ready_read_round :
    (L : Library) (fuel : ℕ) (s : Socket) (outcome : Outcome Arrival) (left : Socket)
    → read_response L s ≡ (outcome, left)
    → on_ready_read L (suc fuel) s ≡ after_round outcome left (on_ready_read L fuel left)
unfolding on_ready_read
on_ready_read_round L fuel s outcome left e =
    ap (λ (r : Outcome Arrival × Socket). after_round r.0 r.1 (on_ready_read L fuel r.1)) e

nothing_left : (L : Library) (s : Socket) → unread s ≡ [] → read_response L s ≡ (short_header, s)
unfolding read_response read_packet logged
nothing_left L s e =
    let empty : length s.available < header_size =
      omega (arith, ap length e, length-append s.available (flatten s.later)) in
    let test : ltb (length s.available) header_size ≡ true = ground arith in rw test refl

-- With nothing on its way, what is to be read is in the buffer.
packet_there :
    (packet rest : Bytes) (s : Socket)
    → unread s ≡ packet ++ rest
    → length s.later ≤ 0
    → length packet ≤ length s.available
packet_there packet rest s e done =
    omega (arith, ap length (sym (settled s.available s.later done) ∙ e), length-append packet rest)

module _ (L : Library) (lawful : IsLawful L) where
  -- A response that fits the 16-bit length of its header, and whose texts are valid UTF-8 as they
  -- arrive.
  abbrev pub Sendable : Response → Type 0
  Sendable r = IsResponse r × ((response_size r < 2 ^ 16) × IsJsonResponse L lawful (on_arrival r))

  response_printed :
      (r : Response) → IsJsonResponse L lawful r → prints_response L (arrived r) ≡ true
  unfolding prints_response
  response_printed r valid =
      let sixteen : IsDrawn (λ s. record { value = zeros }) = λ s. refl in
      let (s, written, text, back) =
        response-Carries L lawful (λ s. record { value = zeros }) sixteen r valid in
      rw written refl

  one_response :
      (r : Response) (rest : Bytes) (s : Socket)
      → Sendable r
      → unread s ≡ put_response_packet r ++ rest
      → length s.later ≤ 0
      → ((read_response L s).0 ≡ got (arrived (on_arrival r)))
        × (unread (read_response L s).1 ≡ rest)
  unfolding put_response_packet put_header read_response logged
  one_response r rest s (valid, (small, texts)) e done =
      let size = response_size-put_response r valid in
      let header = put_header (packet_header (response_operation r) (response_size r)) in
      let there = packet_there (header ++ put_response r) rest s e done in
      let (dispatched, left) =
        read_packet-delivered get_response (response_operation r) (put_response r) rest
          (arrived (on_arrival r)) s (response_known r) (omega (arith, size))
          (get_response-put_response r valid)
          (rw size (e ∙ append_assoc header (put_response r) rest))
          (omega (arith, there, length-append header (put_response r))) in
      (rw (dispatched, logged, response_printed (on_arrival r) texts) refl, left)

  read_response-chunks : (s : Socket) → length (read_response L s).1.later ≤ length s.later
  unfolding read_response
  read_response-chunks s = read_packet-chunks get_response s

  -- A burst of responses whose fields fit and whose texts are valid UTF-8, each with a payload below
  -- 65536 bytes, that is all of what the client's socket holds and will get, with a lawful JSON
  -- library for the line that logs them: the loop dispatches each of them as it arrives, in the
  -- order in which they were sent, in one round more than there are responses, and ends without an
  -- exception, with nothing left.
  pub on_ready_read-burst :
      (rs : List Response) (s : Socket)
      → All Sendable rs
      → unread s ≡ concat_map put_response_packet rs
      → length s.later ≤ 0
      → (last : Socket) × (on_ready_read L (suc (length rs)) s
          ≡ some (record {
            arrivals = map (λ r. arrived (on_arrival r)) rs;
            escaped = false;
            left = last;
          }))
        × (unread last ≡ [])
  unfolding after_round
  on_ready_read-burst [] s h e done =
      (s, on_ready_read_round L 0 s short_header s (nothing_left L s e), e)
  on_ready_read-burst (r ∷ rs) s (hr, hrs) e done =
      let (first, behind) = one_response r (concat_map put_response_packet rs) s hr e done in
      let left = (read_response L s).1 in
      let (last, rest, none_left) =
        on_ready_read-burst rs left hrs behind (omega (arith, read_response-chunks s)) in
      (
        last,
        on_ready_read_round L (suc (length rs)) s (got (arrived (on_arrival r))) left
              (ap (λ o. (o, left)) first)
            ∙ rw (rest, after_round) refl,
        none_left,
      )
