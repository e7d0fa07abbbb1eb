-- ===== src/Server/Accounts.antt =====
-- Registration, login and the names of users.
use wire_protocols.Prelude.{
  ℕ, ◌≡◌, refl, sym, ap, ◌∙◌, Option, none, some, List, Bool, true, false, arith, subst, inl, inr,
  Option-cases,
}
use wire_protocols.Wire.{Bytes}
use wire_protocols.Uuid.{Uuid, uuid_discrete}
use wire_protocols.Models.User.{User, new_user}
use wire_protocols.Requests.{
  Request, register, login, list_accounts, delete_account, send_message, delete_message,
  create_channel, RegisterAccountMessage, LoginMessage, ListAccountsMessage, DeleteAccountMessage,
}
use wire_protocols.Responses.{Variant, success, failure}
use wire_protocols.Database
use wire_protocols.Database.{
  Database, empty_database, find_user, find_channel, find_message, get_uid_from_username, add_user,
  verify_password, uid_of_name,
}
use wire_protocols.Database.Removal
use wire_protocols.Database.Table.{find, insert}
use wire_protocols.Database.Names.{
  NamesUnique, NamesKept, NamesKept-NamesUnique, NamesKept-enrol, NamesKept-erase, NamesKept-refl,
  insert-NamesUnique,
}
use wire_protocols.Server.{
  Step, Draws, Regex, on_register_account, on_login, finish_login, on_list_accounts, searched,
  on_delete_account, finish_deletion, on_send_message, on_delete_message, on_create_channel,
  handle_request,
}

kept_users : (db db' : Database) → db'.users ≡ db.users → NamesUnique db → NamesUnique db'
kept_users db db' e =
    NamesKept-NamesUnique db db' (λ u b f. (b, sym (ap (find uuid_discrete u) e) ∙ f, refl))

enrolled_users :
    (name : Bytes) (members : List Uuid) (uid : Uuid) (db : Database)
    → NamesUnique db
    → NamesUnique (Database.add_channel name members uid db).0
unfolding Database.add_channel
enrolled_users name members uid db =
    NamesKept-NamesUnique db (Database.add_channel name members uid db).0
      (NamesKept-enrol uid members db.users)

pub send-users :
    (sender channel : Uuid) (text : Bytes) (n now : ℕ) (db : Database)
    → (Database.add_message sender channel text n now db).0.users ≡ db.users
unfolding Database.add_message
send-users sender channel text n now db = elim (Option-cases (find_channel channel db)) [
  | inl e ↦ rw (e, Database.add_message)
  | inr (c, e) ↦ rw (e, Database.add_message)
]

delete-users : (n : ℕ) (db : Database) → (Removal.remove_message n db).0.users ≡ db.users
unfolding Removal.remove_message
delete-users n db = elim (Option-cases (find_message n db)) [
  | inl e ↦ rw (e, Removal.remove_message)
  | inr (m, e) ↦ elim (Option-cases (find_channel m.channel_id db)) [
    | inl f ↦ rw (e, f, Removal.remove_message)
    | inr (c, f) ↦ rw (e, f, Removal.remove_message)
  ]
]

removed-NamesKept :
    (uid : Uuid) (db : Database) → NamesKept db.users (Removal.remove_user uid db).0.users
unfolding Removal.remove_user
removed-NamesKept uid db = elim (Option-cases (find_user uid db)) [
  | inl e ↦ rw (e, Removal.remove_user) (NamesKept-refl db.users)
  | inr (u, e) ↦ rw (e, Removal.remove_user) (NamesKept-erase uid db.users)
]

removed_users :
    (uid : Uuid) (db : Database) → NamesUnique db → NamesUnique (Removal.remove_user uid db).0
removed_users uid db =
    NamesKept-NamesUnique db (Removal.remove_user uid db).0 (removed-NamesKept uid db)

pub search-db :
    (regex : Regex) (m : ListAccountsMessage) (db : Database) (who : Option Uuid)
    → (on_list_accounts regex m db who).db ≡ db
unfolding on_list_accounts
search-db regex m db who = go (regex m.regex)
  where
    go : (v : Variant (Bytes → Bool)) → (searched v db who).db ≡ db
    go (failure e) = refl
    go (success f) = refl

-- The database of a completed step.
abbrev pub db_of : Option Step → Database
db_of none = empty_database
db_of (some st) = st.db

module _ (evp_sha256 : Bytes → Bytes) where
  add_user-users :
      (user : User) (password salt : Bytes) (db : Database)
      → (add_user evp_sha256 user password salt db).0.users
        ≡ insert uuid_discrete user.uid user db.users
  unfolding add_user
  add_user-users user password salt db = refl

  register-NamesUnique :
      (draws : Draws) (m : RegisterAccountMessage) (db : Database) (who : Option Uuid)
      → NamesUnique db
      → NamesUnique (on_register_account evp_sha256 draws m db who).db
  unfolding on_register_account
  register-NamesUnique draws m db who unique =
      let user = new_user m.username m.display_name draws.uid in
      elim (Option-cases (get_uid_from_username m.username db)) [
        | inr (uid, taken) ↦ rw (taken, on_register_account) unique
        | inl free ↦
            rw (free, on_register_account)
              (insert-NamesUnique db (add_user evp_sha256 user m.password draws.salt db).0 user
                (add_user-users user m.password draws.salt db) (unfold new_user in free) unique)
      ]

  finish_deletion-NamesUnique :
      (v : Variant Bool) (uid : Uuid) (db : Database) (who : Option Uuid)
      → NamesUnique db
      → NamesUnique (finish_deletion evp_sha256 v uid db who).db
  unfolding finish_deletion
  finish_deletion-NamesUnique (failure e) uid db who unique = unique
  finish_deletion-NamesUnique (success false) uid db who unique = unique
  finish_deletion-NamesUnique (success true) uid db who unique = removed_users uid db unique

  deletion-NamesUnique :
      (m : DeleteAccountMessage) (db : Database) (who : Option Uuid)
      → NamesUnique db
      → NamesUnique (on_delete_account evp_sha256 m db who).db
  unfolding on_delete_account
  deletion-NamesUnique m db who unique = elim (Option-cases (get_uid_from_username m.username db)) [
    | inl e ↦ rw (e, on_delete_account) unique
    | inr (uid, e) ↦
        rw (e, on_delete_account)
          (finish_deletion-NamesUnique (verify_password evp_sha256 uid m.password db) uid db who
            unique)
  ]

  finish_login-db :
      (v : Variant Bool) (uid : Uuid) (db : Database) (who : Option Uuid) (st : Step)
      → finish_login evp_sha256 v uid db who ≡ some st
      → st.db ≡ db
  unfolding finish_login
  finish_login-db (failure x) uid db who st e = cc
  finish_login-db (success false) uid db who st e = cc
  finish_login-db (success true) uid db who st e = ground arith

  pub login-db :
      (m : LoginMessage) (db : Database) (who : Option Uuid) (st : Step)
      → on_login evp_sha256 m db who ≡ some st
      → st.db ≡ db
  unfolding on_login
  login-db m db who st e = ground (
    arith,
    λ (uid : Uuid). finish_login-db (verify_password evp_sha256 uid m.password db) uid db who st,
  )

  -- Every request that a handler completes leaves the names of the users distinct.
  pub handle_request-NamesUnique :
      (regex : Regex) (draws : Draws) (r : Request) (db : Database) (who : Option Uuid) (st : Step)
      → handle_request evp_sha256 regex draws r db who ≡ some st
      → NamesUnique db
      → NamesUnique st.db
  unfolding handle_request on_send_message on_delete_message on_create_channel
  handle_request-NamesUnique regex draws (register m) db who st e unique =
      subst (λ o. NamesUnique (db_of o)) e (register-NamesUnique draws m db who unique)
  handle_request-NamesUnique regex draws (login m) db who st e unique =
      kept_users db st.db (ap (λ (d : Database). d.users) (login-db m db who st e)) unique
  handle_request-NamesUnique regex draws (list_accounts m) db who st e unique =
      subst (λ o. NamesUnique (db_of o)) e (rw (search-db regex m db who) unique)
  handle_request-NamesUnique regex draws (delete_account m) db who st e unique =
      subst (λ o. NamesUnique (db_of o)) e (deletion-NamesUnique m db who unique)
  handle_request-NamesUnique regex draws (send_message m) db who st e unique =
      subst (λ o. NamesUnique (db_of o)) e
        (kept_users db (on_send_message draws m db who).db
          (send-users m.sender_uid m.channel_uid m.text draws.snowflake draws.now db) unique)
  handle_request-NamesUnique regex draws (delete_message m) db who st e unique =
      subst (λ o. NamesUnique (db_of o)) e
        (kept_users db (on_delete_message m db who).db (delete-users m.message_snowflake db) unique)
  handle_request-NamesUnique regex draws (create_channel m) db who st e unique =
      subst (λ o. NamesUnique (db_of o)) e
        (enrolled_users m.channel_name m.members draws.uid db unique)

  -- The databases that the requests of any clients can lead to, in any order, one handler after the
  -- other.
  pub data Reachable (regex : Regex) : Database → Type 0 where
    start : Reachable regex empty_database
    serve :
        {db : Database} (draws : Draws) (r : Request) (who : Option Uuid) (st : Step)
        → Reachable regex db
        → handle_request evp_sha256 regex draws r db who ≡ some st
        → Reachable regex st.db

  -- In every database that requests of any clients lead to from the empty one on, in any order, where
  -- each handler ends before the next begins: no two users have one name.
  pub Reachable-NamesUnique : (regex : Regex) (db : Database) → Reachable regex db → NamesUnique db
  unfolding empty_database find
  Reachable-NamesUnique regex db start = λ u v a b e. cc
  Reachable-NamesUnique regex db (serve draws r who st before e) =
      handle_request-NamesUnique regex draws r _ who st e (Reachable-NamesUnique regex _ before)
