-- ===== src/Framing/Delivery.antt =====
-- Rounds of `on_read_data` and `onReadyRead` on packets that are there in full, of another version, or
-- not there in full.
use wire_protocols.Prelude.{
  ℕ, zero, suc, ◌+◌, ◌≤◌, ◌<◌, ◌^◌, ◌≡◌, refl, ◌∙◌, ◌≢◌, Option, some, true, false, List, [], ◌∷◌,
  ◌++◌, length, drop, length-drop, ltb, flatten, arith, append-nil, take-append_le, drop-append_le,
  take-append, drop-append,
}
use wire_protocols.Wire.{Bytes, run_reader}
use wire_protocols.Wire.Reads.{run_reader-Reads}
use wire_protocols.Header.{
  Header, Operation, IsOperation, IsHeader, get_header, put_header, packet_header, header_size,
  protocol_version, get_header-Reads,
}
use wire_protocols.Framing.{
  Socket, unread, sleep, read, max_retries, wait_for, other_version, timed_out, got, read_payload,
  check_version, read_packet,
}

pub unread-sleep : (s : Socket) → unread (sleep s) ≡ unread s
unfolding sleep
unread-sleep s = refl

pub chunks-sleep : (s : Socket) → length (sleep s).later ≡ length s.later
unfolding sleep
chunks-sleep s = refl

pub settled : (xs : Bytes) (chunks : List Bytes) → length chunks ≤ 0 → xs ++ flatten chunks ≡ xs
settled xs [] h = append-nil xs
settled xs (chunk ∷ chunks) h = absurd (omega arith)

-- The bytes are in the buffer: the loop does not sleep.
wait_for_there :
    (tries n : ℕ) (s : Socket) → n ≤ length s.available → wait_for tries n s ≡ (true, s)
unfolding wait_for
wait_for_there zero n s enough =
    let test : ltb (length s.available) n ≡ false = ground arith in rw test refl
wait_for_there (suc tries) n s enough =
    let test : ltb (length s.available) n ≡ false = ground arith in rw test refl

-- Too few bytes: the loop gives up after its sleeps, and has read nothing.
wait_for_starved :
    (tries n : ℕ) (s : Socket) → length s.available < n → wait_for tries n s ≡ (false, s)
unfolding wait_for sleep
wait_for_starved zero n s short =
    let test : ltb (length s.available) n ≡ true = ground arith in rw test refl
wait_for_starved (suc tries) n s short =
    let test : ltb (length s.available) n ≡ true = ground arith in
    rw test (wait_for_starved tries n s short)

-- Reading `xs` off the front of what the peer sends.
read-front :
    (xs rest : Bytes) (s : Socket)
    → unread s ≡ xs ++ rest
    → length xs ≤ length s.available
    → ((read (length xs) s).0 ≡ xs) × (unread (read (length xs) s).1 ≡ rest)
unfolding read
read-front xs rest s e enough = (
  take-append_le (length xs) s.available (flatten s.later) enough ∙ rw e (take-append xs rest),
  drop-append_le (length xs) s.available (flatten s.later) enough ∙ rw e (drop-append xs rest),
)

packet_header-IsHeader : (op : Operation) (n : ℕ) → IsOperation op → IsHeader (packet_header op n)
unfolding packet_header
packet_header-IsHeader op n known = record {
  version_fits = omega arith;
  operation_known = known;
  length_fits = omega arith;
}

header_read :
    (op : Operation) (n : ℕ)
    → IsOperation op
    → run_reader (put_header (packet_header op n)) get_header ≡ some (packet_header op n)
header_read op n known =
    let h = packet_header op n in
    let whole =
      run_reader-Reads get_header h (put_header h) []
        (get_header-Reads h (packet_header-IsHeader op n known)) in
    rw append-nil at whole

module _ {ℓ} {A : Type ℓ} (decode : Operation → Bytes → Option A) where
  read_payload_lem :
      (h : Header) (msg rest : Bytes) (a : A) (s : Socket)
      → h.packet_length ≡ length msg
      → decode h.operation msg ≡ some a
      → unread s ≡ msg ++ rest
      → length msg ≤ length s.available
      → ((read_payload decode h s).0 ≡ got a) × (unread (read_payload decode h s).1 ≡ rest)
  unfolding read_payload
  read_payload_lem h msg rest a s len decoded e enough =
      let (msg_read, rest_left) = read-front msg rest s e enough in
      rw (len, wait_for_there max_retries (length msg) s enough, msg_read, decoded)
        (refl, rest_left)

  check_version_current :
      (op : Operation) (n : ℕ) (s : Socket)
      → check_version decode (some (packet_header op n)) s
        ≡ read_payload decode (packet_header op n) s
  unfolding check_version packet_header
  check_version_current op n s = refl

  -- A packet that is in the buffer in full is decoded, and what follows it stays unread.
  pub read_packet-delivered :
      (op : Operation) (msg rest : Bytes) (a : A) (s : Socket)
      → IsOperation op
      → length msg < 2 ^ 16
      → decode op msg ≡ some a
      → unread s ≡ put_header (packet_header op (length msg)) ++ (msg ++ rest)
      → header_size + length msg ≤ length s.available
      → ((read_packet decode s).0 ≡ got a) × (unread (read_packet decode s).1 ≡ rest)
  unfolding read_packet put_header read
  read_packet-delivered op msg rest a s known small decoded e there =
      let h = packet_header op (length msg) in
      let (vec, behind) = read-front (put_header h) (msg ++ rest) s e (omega (arith, there)) in
      let left : length msg ≤ length (drop header_size s.available) =
        omega (arith, there, length-drop header_size s.available) in
      let test : ltb (length s.available) header_size ≡ false = ground arith in
      let announced : h.packet_length ≡ length msg = unfold packet_header in omega arith in
      let op_same : h.operation ≡ op = unfold packet_header in refl in
      rw (test, vec, header_read op (length msg) known, check_version_current op (length msg))
        (read_payload_lem h msg rest a (read header_size s).1 announced (rw op_same decoded) behind
          left)

  check_version_same :
      (h : Header) (s : Socket)
      → h.version ≡ protocol_version
      → check_version decode (some h) s ≡ read_payload decode h s
  unfolding check_version
  check_version_same h s e = rw e

  check_version_differs :
      (h : Header) (s : Socket)
      → h.version ≢ protocol_version
      → check_version decode (some h) s ≡ (other_version, s)
  unfolding check_version
  check_version_differs h s ne = ground arith

  -- One round on a whole header: it is consumed, and the version decides.
  read_packet-header :
      (h : Header) (tail : Bytes) (s : Socket)
      → IsHeader h
      → unread s ≡ put_header h ++ tail
      → header_size ≤ length s.available
      → (read_packet decode s ≡ check_version decode (some h) (read header_size s).1)
        × (unread (read header_size s).1 ≡ tail)
  unfolding read_packet put_header
  read_packet-header h tail s valid e there =
      let (vec, behind) = read-front (put_header h) tail s e there in
      let test : ltb (length s.available) header_size ≡ false = ground arith in
      let parsed = run_reader-Reads get_header h (put_header h) [] (get_header-Reads h valid) in
      let alone : run_reader (put_header h) get_header ≡ some h = rw append-nil at parsed in
      (rw (test, vec, alone), behind)

  -- A packet whose header, which is available, names another protocol version: the header is
  -- consumed, and its payload stays unread.
  pub read_packet-other_version :
      (h : Header) (tail : Bytes) (s : Socket)
      → IsHeader h
      → h.version ≢ protocol_version
      → unread s ≡ put_header h ++ tail
      → header_size ≤ length s.available
      → ((read_packet decode s).0 ≡ other_version) × (unread (read_packet decode s).1 ≡ tail)
  read_packet-other_version h tail s valid other e there =
      let (whole, behind) = read_packet-header h tail s valid e there in
      rw (whole, check_version_differs h (read header_size s).1 other) (refl, behind)

  -- A header of the protocol's version is in the buffer, and behind it less than the payload that it
  -- announces, whether or not the rest is on its way: the round times out, the header is consumed,
  -- and the part of the payload that came and will come stays unread, where the next round takes it
  -- for a header.
  pub read_packet_starved :
      (h : Header) (tail : Bytes) (s : Socket)
      → IsHeader h
      → h.version ≡ protocol_version
      → unread s ≡ put_header h ++ tail
      → header_size ≤ length s.available
      → length s.available < header_size + h.packet_length
      → ((read_packet decode s).0 ≡ timed_out) × (unread (read_packet decode s).1 ≡ tail)
  unfolding read_payload read
  read_packet_starved h tail s valid same e there short =
      let (whole, behind) = read_packet-header h tail s valid e there in
      let left = (read header_size s).1 in
      let missing : length (drop header_size s.available) < h.packet_length =
        omega (arith, short, there, length-drop header_size s.available) in
      let stopped = wait_for_starved max_retries h.packet_length left missing in
      rw (whole, check_version_same h left same, read_payload, stopped) (refl, behind)
