-- ===== src/Server/Races.antt =====
-- Two registrations at once, in src/bin/server/model/message_handlers.cpp: each connection has a
-- thread of its own, and `on_register_account` takes the lock of the user table once to look for the
-- name, and again to enter the user.
use wire_protocols.Prelude.{
  ◌≡◌, ◌≢◌, refl, sym, subst, ◌∙◌, Option, none, some, [], ◌∷◌, if_pos, if_neg,
}
use wire_protocols.Wire.{Bytes}
use wire_protocols.Uuid.{Uuid, uuid_discrete}
use wire_protocols.Models.User.{User, new_user}
use wire_protocols.Requests.{RegisterAccountMessage}
use wire_protocols.Responses.{success, registered}
use wire_protocols.Database.{Database, find_user, get_uid_from_username, add_user}
use wire_protocols.Database.Table.{find, insert, find-insert_fresh}
use wire_protocols.Server.{Draws, answer_registration}

-- The user that a registration enters.
abbrev pub entered : Draws → RegisterAccountMessage → User
entered draws m = new_user m.username m.display_name draws.uid

module _ (evp_sha256 : Bytes → Bytes) where
  -- Two clients register one name that is free, with different new identifiers, and both handlers
  -- look for the name before either has entered its user: both clients are told of success, and
  -- afterwards both users are in the table, under that name.
  pub registrations_race :
      (draws draws' : Draws) (m m' : RegisterAccountMessage) (db : Database)
      (who who' : Option Uuid)
      → m'.username ≡ m.username
      → get_uid_from_username m.username db ≡ none
      → find_user draws.uid db ≡ none
      → find_user draws'.uid db ≡ none
      → draws.uid ≢ draws'.uid
      → let seen = get_uid_from_username m.username db in
        let seen' = get_uid_from_username m'.username db in
        let first = answer_registration evp_sha256 seen draws m db who in
        let second = answer_registration evp_sha256 seen' draws' m' first.db who' in
        (first.written ≡ registered (success tt) ∷ [])
        × (second.written ≡ registered (success tt) ∷ [])
        × (find_user draws.uid second.db ≡ some (entered draws m))
        × (find_user draws'.uid second.db ≡ some (entered draws' m'))
        × ((entered draws m).username ≡ (entered draws' m').username)
  unfolding answer_registration add_user new_user
  registrations_race draws draws' m m' db who who' same free fresh fresh' apart =
      let users = insert uuid_discrete draws.uid (entered draws m) db.users in
      let absent : find uuid_discrete draws'.uid users ≡ none =
        find-insert_fresh uuid_discrete draws.uid draws'.uid (entered draws m) db.users fresh
        ∙ (if_neg (uuid_discrete draws.uid draws'.uid) apart _ _ ∙ fresh') in
      let apart' : draws'.uid ≢ draws.uid = λ e. apart (sym e) in
      let free' : get_uid_from_username m'.username db ≡ none =
        subst (λ name. get_uid_from_username name db ≡ none) (sym same) free in
      rw (free, free')
        (
          refl,
          refl,
          find-insert_fresh uuid_discrete draws'.uid draws.uid (entered draws' m') users absent
              ∙ (if_neg (uuid_discrete draws'.uid draws.uid) apart' _ _
                  ∙ (find-insert_fresh uuid_discrete draws.uid draws.uid (entered draws m) db.users
                        fresh
                      ∙ if_pos (uuid_discrete draws.uid draws.uid) refl _ _)),
          find-insert_fresh uuid_discrete draws'.uid draws'.uid (entered draws' m') users absent
              ∙ if_pos (uuid_discrete draws'.uid draws'.uid) refl _ _,
          sym same,
        )
