-- ===== src/Framing.antt =====
-- How packets are taken off a socket: `ClientHandler::on_read_data` of
-- src/bin/server/model/client_handler.cpp and `TcpClient::onReadyRead` of
-- src/bin/client/model/tcp_client.cpp. The socket is Qt's: here it is the bytes in its buffer and the
-- chunks that are still on their way, which the event loop puts into the buffer between two slots.
pub mod Delivery
pub mod Server
pub mod Progress
pub mod Client
use wire_protocols.Prelude.{
  ℕ, zero, suc, ◌+◌, ◌≡◌, arith, Option, none, some, Bool, true, false, List, [], ◌∷◌, ◌++◌, length,
  take, drop, ltb, ◌==◌, if◌then◌else◌, flatten, not,
}
use wire_protocols.Wire.{Bytes, run_reader}
use wire_protocols.Header.{Header, Operation, get_header, header_size, protocol_version}

pub record Socket : Type 0 where
  pub available : Bytes
  pub later : List Bytes

-- All that the peer sends and nobody has read.
abbrev pub unread : Socket → Bytes
unread s = s.available ++ flatten s.later

-- One `QThread::msleep(100)`: the thread is blocked, so that its event loop cannot fill the buffer.
unfoldable pub sleep : Socket → Socket
sleep s = s

-- `socket->read(n)`: what it returns, and what it leaves.
unfoldable pub read : ℕ → Socket → Bytes × Socket
read n s = (take n s.available, record s { available = drop n s.available })

-- MAX_RETRIES
abbrev pub max_retries : ℕ
max_retries = 100

-- `while (socket->bytesAvailable() < n) { if (++retries > MAX_RETRIES) return; msleep(100); }`,
-- with the sleeps that are left. The answer tells whether the bytes are there.
unfoldable pub wait_for : ℕ → ℕ → Socket → Bool × Socket
wait_for zero n s = (not (ltb (length s.available) n), s)
wait_for (suc tries) n s =
    let rest = wait_for tries n (sleep s) in if ltb (length s.available) n then rest else (true, s)

-- How one round ends: with what the `switch` made of the payload, or early. `bad_payload` is a read
-- outside the payload, and `threw` an exception of the line that logs what was decoded.
pub data Outcome {ℓ} (A : Type ℓ) : Type ℓ where
  short_header other_version timed_out bad_payload threw : Outcome A
  got : A → Outcome A

-- `qDebug() << message.to_json().c_str()`, between `deserialize` and `dispatch`: `prints` tells
-- whether `to_json` gives a text, and does not throw.
unfoldable pub logged {ℓ} : {A : Type ℓ} → (A → Bool) → Outcome A → Outcome A
logged prints (got a) = if prints a then got a else threw
logged prints short_header = short_header
logged prints other_version = other_version
logged prints timed_out = timed_out
logged prints bad_payload = bad_payload
logged prints threw = threw

pub logged-got {ℓ} :
    {A : Type ℓ} (prints : A → Bool) (o : Outcome A) (a : A) → logged prints o ≡ got a → o ≡ got a
unfolding logged
logged-got prints (got b) a e = ground arith
logged-got prints short_header a e = e
logged-got prints other_version a e = e
logged-got prints timed_out a e = e
logged-got prints bad_payload a e = e
logged-got prints threw a e = e

module _ {ℓ} {A : Type ℓ} (decode : Operation → Bytes → Option A) where
  -- The payload, and the `switch` on the operation.
  unfoldable pub read_payload : Header → Socket → Outcome A × Socket
  unfolding wait_for read
  read_payload h s =
      let (there, t) = wait_for max_retries h.packet_length s in
      let (msg, left) = read h.packet_length t in
      if there
      then (elim (decode h.operation msg) [ none ↦ bad_payload | some a ↦ got a ], left)
      else (timed_out, t)

  -- The version is tested before the payload is waited for.
  unfoldable pub check_version : Option Header → Socket → Outcome A × Socket
  check_version none s = (bad_payload, s)
  check_version (some h) s =
      if h.version == protocol_version then read_payload h s else (other_version, s)

  -- One packet: header, version, payload.
  unfoldable pub read_packet : Socket → Outcome A × Socket
  unfolding read
  read_packet s =
      let (vec, left) = read header_size s in
      if ltb (length s.available) header_size
      then (short_header, s)
      else check_version (run_reader vec get_header) left
