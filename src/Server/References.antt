-- ===== src/Server/References.antt =====
-- The references between the tables, over the handlers of
-- src/bin/server/model/message_handlers.cpp.
use wire_protocols.Prelude.{
  ◌≡◌, refl, sym, Option, some, Bool, true, false, subst, inl, inr, Option-cases,
}
use wire_protocols.Wire.{Bytes}
use wire_protocols.Uuid.{Uuid}
use wire_protocols.Models.User.{new_user}
use wire_protocols.Models.Message.{new_message}
use wire_protocols.Requests.{
  Request, register, login, list_accounts, delete_account, send_message, delete_message,
  create_channel, RegisterAccountMessage, DeleteAccountMessage,
}
use wire_protocols.Responses.{Variant, success, failure}
use wire_protocols.Database.{
  Database, empty_database, get_uid_from_username, find_channel, verify_password, add_user,
  add_password, add_message,
}
use wire_protocols.Database.Linked.{
  Linked, Unused, empty_database-Linked, insert-Linked, add_message_to-Linked,
}
use wire_protocols.Database.Linked.Channels.{add_channel-Linked}
use wire_protocols.Database.Linked.Removals.{remove_message-Linked, remove_user-Linked}
use wire_protocols.Server.{
  Step, Draws, Regex, on_register_account, on_delete_account, finish_deletion, on_send_message,
  on_delete_message, on_create_channel, handle_request,
}
use wire_protocols.Server.Accounts.{search-db, login-db, db_of}

pub add_message-Linked :
    (draws : Draws) (sender channel_uid : Uuid) (text : Bytes) (db : Database)
    → Unused draws.uid draws.snowflake db
    → Linked db
    → Linked (add_message sender channel_uid text draws.snowflake draws.now db).0
unfolding add_message
add_message-Linked draws sender channel_uid text db unused l =
    elim (Option-cases (find_channel channel_uid db)) [
      | inl gone ↦ rw (gone, add_message) l
      | inr (c, there) ↦
          rw (there, add_message)
            (unfold new_message in
              add_message_to-Linked c
                (new_message sender channel_uid text draws.snowflake draws.now) db unused.no_message
                unused.no_listing l)
    ]

module _ (evp_sha256 : Bytes → Bytes) where
  register-Linked :
      (draws : Draws) (m : RegisterAccountMessage) (db : Database) (who : Option Uuid)
      → Unused draws.uid draws.snowflake db
      → Linked db
      → Linked (on_register_account evp_sha256 draws m db who).db
  unfolding on_register_account
  register-Linked draws m db who unused l =
      elim (Option-cases (get_uid_from_username m.username db)) [
        | inr (uid, taken) ↦ rw (taken, on_register_account) l
        | inl free ↦
            rw (free, on_register_account)
              (unfold add_user new_user in
                insert-Linked db (new_user m.username m.display_name draws.uid)
                  (add_password evp_sha256 draws.uid m.password draws.salt db).passwords refl
                  unused.no_user unused.no_member l)
      ]

  deletion-Linked :
      (m : DeleteAccountMessage) (db : Database) (who : Option Uuid)
      → Linked db
      → Linked (on_delete_account evp_sha256 m db who).db
  unfolding on_delete_account
  deletion-Linked m db who l = elim (Option-cases (get_uid_from_username m.username db)) [
    | inl e ↦ rw (e, on_delete_account) l
    | inr (uid, e) ↦
        rw (e, on_delete_account) (go uid (verify_password evp_sha256 uid m.password db))
  ]
    where
      go : (uid : Uuid) (v : Variant Bool) → Linked (finish_deletion evp_sha256 v uid db who).db
      go uid (failure e) = unfold finish_deletion in l
      go uid (success false) = unfold finish_deletion in l
      go uid (success true) = unfold finish_deletion in remove_user-Linked uid db l

  -- Every request that a handler completes, with an identifier and a snowflake drawn that the
  -- database does not have, keeps the references between the tables.
  pub handle_request-Linked :
      (regex : Regex) (draws : Draws) (r : Request) (db : Database) (who : Option Uuid) (st : Step)
      → handle_request evp_sha256 regex draws r db who ≡ some st
      → Unused draws.uid draws.snowflake db
      → Linked db
      → Linked st.db
  unfolding handle_request on_send_message on_delete_message on_create_channel
  handle_request-Linked regex draws (register m) db who st e unused l =
      subst (λ o. Linked (db_of o)) e (register-Linked draws m db who unused l)
  handle_request-Linked regex draws (login m) db who st e unused l =
      subst Linked (sym (login-db evp_sha256 m db who st e)) l
  handle_request-Linked regex draws (list_accounts m) db who st e unused l =
      subst (λ o. Linked (db_of o)) e (subst Linked (sym (search-db regex m db who)) l)
  handle_request-Linked regex draws (delete_account m) db who st e unused l =
      subst (λ o. Linked (db_of o)) e (deletion-Linked m db who l)
  handle_request-Linked regex draws (send_message m) db who st e unused l =
      subst (λ o. Linked (db_of o)) e
        (add_message-Linked draws m.sender_uid m.channel_uid m.text db unused l)
  handle_request-Linked regex draws (delete_message m) db who st e unused l =
      subst (λ o. Linked (db_of o)) e (remove_message-Linked m.message_snowflake db l)
  handle_request-Linked regex draws (create_channel m) db who st e unused l =
      subst (λ o. Linked (db_of o)) e
        (add_channel-Linked m.channel_name m.members draws.uid db unused.no_channel l)

  -- The databases that requests lead to when each draws what the database does not have.
  pub data Served (regex : Regex) : Database → Type 0 where
    empty : Served regex empty_database
    served :
        {db : Database} (draws : Draws) (r : Request) (who : Option Uuid) (st : Step)
        → Served regex db
        → Unused draws.uid draws.snowflake db
        → handle_request evp_sha256 regex draws r db who ≡ some st
        → Served regex st.db

  -- From the empty database on, by requests of any clients in any order, each with an identifier and
  -- a snowflake that the database does not have: a channel stands under its own identifier, a
  -- message that a channel lists and that is there was sent to it, a user lists exactly the channels
  -- that list the user, as far as both are there, and no channel that is not there.
  pub Served-Linked : (regex : Regex) (db : Database) → Served regex db → Linked db
  Served-Linked regex db empty = empty_database-Linked
  Served-Linked regex db (served draws r who st before unused e) =
      handle_request-Linked regex draws r _ who st e unused (Served-Linked regex _ before)
