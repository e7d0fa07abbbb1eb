-- ===== src/Database/Passwords.antt =====
-- What `verify_password` promises about a password that `add_password` stored.
use wire_protocols.Prelude.{◌≡◌, ◌≢◌, ◌↔◌, refl, ite, if_pos, if_neg, none, some, ◌++◌, true, arith}
use wire_protocols.Wire.{Bytes}
use wire_protocols.Uuid.{Uuid, uuid_discrete}
use wire_protocols.Responses.{success}
use wire_protocols.Database.{Database, sha256, add_password, verify_password, check_entry}
use wire_protocols.Database.Table.{find, find-insert_fresh}

module _ (evp_sha256 : Bytes → Bytes) where
  pub find-add_password :
      (uid other : Uuid) (password salt : Bytes) (db : Database)
      → find uuid_discrete uid db.passwords ≡ none
      → find uuid_discrete other (add_password evp_sha256 uid password salt db).passwords
        ≡ ite
            (uuid_discrete uid other)
            (some (sha256 evp_sha256 (password ++ salt), salt))
            (find uuid_discrete other db.passwords)
  unfolding add_password
  find-add_password uid other password salt db fresh =
      find-insert_fresh uuid_discrete uid other (sha256 evp_sha256 (password ++ salt), salt)
        db.passwords fresh

  accepted_iff :
      (hash salt word : Bytes)
      → (check_entry evp_sha256 word (some (hash, salt)) ≡ success true)
        ↔ (hash ≡ sha256 evp_sha256 (word ++ salt))
  unfolding check_entry
  accepted_iff hash salt word = ground arith

  -- A password is stored under an identifier that has none: a word is then accepted for it exactly
  -- if its digest with the salt is that of the password, and any word for another identifier is
  -- judged as before.
  pub verify_password-add_password :
      (uid : Uuid) (password salt word : Bytes) (db : Database)
      → find uuid_discrete uid db.passwords ≡ none
      → ((verify_password evp_sha256 uid word (add_password evp_sha256 uid password salt db)
            ≡ success true)
          ↔ (sha256 evp_sha256 (password ++ salt) ≡ sha256 evp_sha256 (word ++ salt)))
        × ((other : Uuid)
            → uid ≢ other
            → verify_password evp_sha256 other word (add_password evp_sha256 uid password salt db)
              ≡ verify_password evp_sha256 other word db)
  unfolding verify_password
  verify_password-add_password uid password salt word db fresh = (
    rw (find-add_password uid uid password salt db fresh, if_pos _ refl)
        (accepted_iff (sha256 evp_sha256 (password ++ salt)) salt word),
    λ other ne. rw (find-add_password uid other password salt db fresh, if_neg _ ne),
  )
