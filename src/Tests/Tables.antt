-- ===== src/Tests/Tables.antt =====
-- Runs of the operations of the database.
use wire_protocols.Prelude.{
  ℕ, ◌≡◌, ◌≢◌, ◌↔◌, refl, none, some, [], ◌∷◌, arith, codes, true, ℕ_discrete, All, get_elem?,
}
use wire_protocols.Wire.{Bytes}
use wire_protocols.Uuid.{Uuid, uuid_discrete}
use wire_protocols.Models.Message.{new_message}
use wire_protocols.Responses.{success}
use wire_protocols.Database.{
  Database, find_user, find_channel, message_received, message_deleted, emit_each, add_message,
  add_password, verify_password, sha256,
}
use wire_protocols.Database.Removal.{remove_message, remove_user}
use wire_protocols.Database.Table.{find}
use wire_protocols.Database.Messages.{remove_message-add_message}
use wire_protocols.Database.Departure.{Left, remove_user-Left}
use wire_protocols.Database.Passwords.{verify_password-add_password}
use wire_protocols.Tests.{id, ann, hello, room}

-- Ann, in a channel with a message of hers.
abbrev one_room : Database
one_room = record {
  users = (id 1, ann) ∷ [];
  messages = (7000, hello) ∷ [];
  channels = (id 9, room) ∷ [];
  passwords = (id 1, (codes "digest", codes "salt")) ∷ [];
}

remove_message-add_message_example :
    let message = new_message (id 1) (id 9) (codes "bye") 7001 1738022400001 in
    let sent = add_message (id 1) (id 9) (codes "bye") 7001 1738022400001 one_room in
    let gone = remove_message 7001 sent.0 in
    (sent.1 ≡ success message)
    × (sent.2 ≡ emit_each (λ u. message_received u message) one_room.users room.user_uids)
    × (gone ≡ (
      one_room,
      success tt,
      emit_each (λ u. message_deleted u message) one_room.users room.user_uids,
    ))
unfolding find uuid_discrete ℕ_discrete
remove_message-add_message_example =
    remove_message-add_message (id 1) (id 9) (codes "bye") 7001 1738022400001 one_room room refl
      refl ((omega arith, (omega arith, tt)), tt)

remove_user-Left_example :
    let (after, result, signals) = remove_user (id 1) one_room in
    (result ≡ success ann)
    × (find_user (id 1) after ≡ none)
    × ((other : Uuid) → id 1 ≢ other → find_user other after ≡ find_user other one_room)
    × ((i : ℕ) (cid : Uuid)
        → get_elem? (id 9 ∷ []) i ≡ some cid
        → Left (id 1) (find_channel cid after))
    × ((cid : Uuid)
        → All (λ joined. joined ≢ cid) (id 9 ∷ [])
        → find_channel cid after ≡ find_channel cid one_room)
    × (after.messages ≡ one_room.messages)
    × (after.passwords ≡ one_room.passwords)
unfolding find uuid_discrete ℕ_discrete
remove_user-Left_example = remove_user-Left (id 1) one_room ann refl

-- A stand-in for the digest: the bytes themselves.
abbrev digest : Bytes → Bytes
digest b = b

verify_password-add_password_example :
    ((verify_password digest
          (id 2)
          (codes "word")
          (add_password digest (id 2) (codes "word") (codes "s") one_room)
        ≡ success true)
      ↔ (sha256 digest (codes "words") ≡ sha256 digest (codes "words")))
    × ((other : Uuid)
        → id 2 ≢ other
        → verify_password digest other
            (codes "word")
            (add_password digest (id 2) (codes "word") (codes "s") one_room)
          ≡ verify_password digest other (codes "word") one_room)
unfolding find uuid_discrete ℕ_discrete
verify_password-add_password_example =
    verify_password-add_password digest (id 2) (codes "word") (codes "s") (codes "word") one_room
      refl
