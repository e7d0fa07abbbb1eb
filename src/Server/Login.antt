-- ===== src/Server/Login.antt =====
-- `on_login` after `on_register_account`.
use wire_protocols.Prelude.{
  ◌≡◌, ◌≢◌, refl, ◌∙◌, ite, if_pos, if_neg, Option, none, some, List, [], ◌∷◌, ◌++◌, true, false,
  arith,
}
use wire_protocols.Wire.{Bytes, bytes_discrete}
use wire_protocols.Uuid.{Uuid, uuid_discrete}
use wire_protocols.Models.User.{User, new_user}
use wire_protocols.Requests.{RegisterAccountMessage}
use wire_protocols.Responses.{success, failure, logged_in}
use wire_protocols.Database.{
  Database, find_user, get_uid_from_username, add_user, verify_password, check_entry, sha256,
  uid_of_name,
}
use wire_protocols.Database.Table.{find, insert, find-insert_fresh}
use wire_protocols.Database.Passwords.{find-add_password}
use wire_protocols.Server.{
  Draws, reply, wrong_password, on_register_account, on_login, finish_login, replay,
}

name_of_insert :
    (user : User) (users : List (Uuid × User))
    → find uuid_discrete user.uid users ≡ none
    → uid_of_name user.username (insert uuid_discrete user.uid user users) ≡ some user.uid
unfolding insert uid_of_name
name_of_insert user users fresh = rw (fresh, insert) (ground arith)

module _ (evp_sha256 : Bytes → Bytes) where
  -- The database after a registration.
  registered_db : Draws → RegisterAccountMessage → Database → Database
  registered_db draws m db =
      (add_user evp_sha256 (new_user m.username m.display_name draws.uid) m.password draws.salt
        db).0

  login_found :
      (name word : Bytes) (uid : Uuid) (db : Database) (who : Option Uuid)
      → get_uid_from_username name db ≡ some uid
      → on_login evp_sha256 (record { username = name; password = word }) db who
        ≡ finish_login evp_sha256 (verify_password evp_sha256 uid word db) uid db who
  unfolding on_login
  login_found name word uid db who e = rw (e, on_login)

  module _ (draws : Draws) (m : RegisterAccountMessage) (db : Database)
      (fresh_user : find_user draws.uid db ≡ none)
      (fresh_password : find uuid_discrete draws.uid db.passwords ≡ none) where
    found_name : get_uid_from_username m.username (registered_db draws m db) ≡ some draws.uid
    unfolding registered_db add_user get_uid_from_username new_user
    found_name = name_of_insert (new_user m.username m.display_name draws.uid) db.users fresh_user

    found_user :
        find_user draws.uid (registered_db draws m db)
        ≡ some (new_user m.username m.display_name draws.uid)
    unfolding registered_db add_user new_user
    found_user = rw (
      find-insert_fresh uuid_discrete draws.uid draws.uid
          (new_user m.username m.display_name draws.uid) db.users fresh_user,
      if_pos _ refl,
    )

    checked :
        (word : Bytes)
        → verify_password evp_sha256 draws.uid word (registered_db draws m db)
          ≡ ite
              (bytes_discrete
                (sha256 evp_sha256 (m.password ++ draws.salt))
                (sha256 evp_sha256 (word ++ draws.salt)))
              (success true)
              (success false)
    unfolding registered_db add_user verify_password check_entry new_user
    checked word = rw (
      find-add_password evp_sha256 draws.uid draws.uid m.password draws.salt db fresh_password,
      if_pos _ refl,
    )

    accepted :
        verify_password evp_sha256 draws.uid m.password (registered_db draws m db) ≡ success true
    accepted = rw (checked m.password, if_pos _ refl)

    refused :
        (word : Bytes)
        → sha256 evp_sha256 (m.password ++ draws.salt) ≢ sha256 evp_sha256 (word ++ draws.salt)
        → verify_password evp_sha256 draws.uid word (registered_db draws m db) ≡ success false
    refused word differ = rw (checked word, if_neg _ differ)

    -- A name that was free is registered, with an identifier that no user and no password has. Then a
    -- login under the name with the password answers with the new user, replays nothing and
    -- authenticates the client as that user; a login with a word whose salted digest differs is
    -- answered by the error, and the client stays authenticated as it was. Neither changes the
    -- database.
    pub on_login-on_register_account :
        (who client : Option Uuid) (word : Bytes)
        → get_uid_from_username m.username db ≡ none
        → let after = (on_register_account evp_sha256 draws m db who).db in
          (on_login evp_sha256
              (record { username = m.username; password = m.password })
              after
              client
            ≡ some (record {
              db = after;
              authenticated = some draws.uid;
              written = logged_in (success (new_user m.username m.display_name draws.uid)) ∷ [];
              signals = [];
            }))
          × (sha256 evp_sha256 (m.password ++ draws.salt) ≢ sha256 evp_sha256 (word ++ draws.salt)
              → on_login evp_sha256 (record { username = m.username; password = word }) after client
                ≡ some (reply after client (logged_in (failure wrong_password))))
    unfolding on_login finish_login replay
    on_login-on_register_account who client word free =
        let after : (on_register_account evp_sha256 draws m db who).db ≡ registered_db draws m db =
          unfold on_register_account registered_db in rw (free, on_register_account) in
        rw after (
          login_found m.username m.password draws.uid (registered_db draws m db) client found_name
              ∙ rw (accepted, finish_login, found_user) (unfold new_user in refl),
          λ differ.
              login_found m.username word draws.uid (registered_db draws m db) client found_name
              ∙ rw (refused word differ, finish_login),
        )
