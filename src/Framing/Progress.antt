-- ===== src/Framing/Progress.antt =====
-- What every round of `on_read_data` and `onReadyRead` does to the socket, whatever the bytes are.
use wire_protocols.Prelude.{
  ℕ, zero, suc, ◌+◌, ◌-◌, ◌≤◌, ◌≡◌, refl, ◌∙◌, Option, none, some, length, drop, ltb, ◌==◌, flatten,
  arith, length-append, length-drop, Bool-cases, inl, inr,
}
use wire_protocols.Wire.{Bytes, run_reader}
use wire_protocols.Header.{Header, Operation, get_header, header_size, protocol_version}
use wire_protocols.Framing.{
  Socket, unread, sleep, read, max_retries, wait_for, got, read_payload, check_version, read_packet,
}
use wire_protocols.Framing.Delivery.{unread-sleep, chunks-sleep}

wait_for-unread : (tries n : ℕ) (s : Socket) → unread (wait_for tries n s).1 ≡ unread s
unfolding wait_for
wait_for-unread zero n s = refl
wait_for-unread (suc tries) n s =
    let again = wait_for-unread tries n (sleep s) ∙ unread-sleep s in
    elim (Bool-cases (ltb (length s.available) n)) [ inl e ↦ rw e again | inr e ↦ rw e ]

wait_for-chunks : (tries n : ℕ) (s : Socket) → length (wait_for tries n s).1.later ≤ length s.later
unfolding wait_for
wait_for-chunks zero n s = omega arith
wait_for-chunks (suc tries) n s =
    let again = wait_for-chunks tries n (sleep s) in
    elim (Bool-cases (ltb (length s.available) n)) [
      | inl e ↦ rw e (omega (arith, again, chunks-sleep s))
      | inr e ↦ rw e (omega arith)
    ]

read-unread :
    (n : ℕ) (s : Socket)
    → length (unread (read n s).1) ≡ length s.available - n + length (flatten s.later)
unfolding read
read-unread n s =
    omega (arith, length-append (drop n s.available) (flatten s.later), length-drop n s.available)

read-le : (n : ℕ) (s : Socket) → length (unread (read n s).1) ≤ length (unread s)
read-le n s = omega (arith, read-unread n s, length-append s.available (flatten s.later))

read-chunks : (n : ℕ) (s : Socket) → (read n s).1.later ≡ s.later
unfolding read
read-chunks n s = refl

module _ {ℓ} {A : Type ℓ} (decode : Operation → Bytes → Option A) where
  read_payload-le :
      (h : Header) (s : Socket) → length (unread (read_payload decode h s).1) ≤ length (unread s)
  unfolding read_payload
  read_payload-le h s =
      let t = (wait_for max_retries h.packet_length s).1 in
      let kept = wait_for-unread max_retries h.packet_length s in
      elim (Bool-cases (wait_for max_retries h.packet_length s).0) [
        | inl e ↦ rw (e, ← kept) (read-le h.packet_length t)
        | inr e ↦ rw (e, kept) (omega arith)
      ]

  read_payload-chunks :
      (h : Header) (s : Socket) → length (read_payload decode h s).1.later ≤ length s.later
  unfolding read_payload
  read_payload-chunks h s =
      let t = (wait_for max_retries h.packet_length s).1 in
      let fewer = wait_for-chunks max_retries h.packet_length s in
      elim (Bool-cases (wait_for max_retries h.packet_length s).0) [
        | inl e ↦ rw (e, read-chunks h.packet_length t) fewer
        | inr e ↦ rw e fewer
      ]

  check_version-le :
      (o : Option Header) (s : Socket)
      → (length (unread (check_version decode o s).1) ≤ length (unread s))
        × (length (check_version decode o s).1.later ≤ length s.later)
  unfolding check_version
  check_version-le none s = omega arith
  check_version-le (some h) s = elim (Bool-cases (h.version == protocol_version)) [
    | inl e ↦ rw e (read_payload-le h s, read_payload-chunks h s)
    | inr e ↦ rw e (omega arith)
  ]

  -- A round that ends with a decoded packet consumes the four bytes of the header at least.
  pub read_packet-consumes :
      (s : Socket) (a : A)
      → (read_packet decode s).0 ≡ got a
      → length (unread (read_packet decode s).1) + header_size ≤ length (unread s)
  unfolding read_packet
  read_packet-consumes s a e = ground (
    arith,
    length-append s.available (flatten s.later),
    read-unread header_size s,
    check_version-le (run_reader (read header_size s).0 get_header) (read header_size s).1,
  )

  pub read_packet-chunks : (s : Socket) → length (read_packet decode s).1.later ≤ length s.later
  unfolding read_packet
  read_packet-chunks s = ground (
    arith,
    read-chunks header_size s,
    check_version-le (run_reader (read header_size s).0 get_header) (read header_size s).1,
  )
