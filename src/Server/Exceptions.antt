-- ===== src/Server/Exceptions.antt =====
-- The logins of src/bin/server/model/message_handlers.cpp under a name that no user has.
use wire_protocols.Prelude.{
  ◌≡◌, ◌≢◌, ◌↔◌, refl, sym, subst, Option, none, some, List, [], ◌∷◌, Bool, true, false, arith,
  Option-cases, inl, inr,
}
use wire_protocols.Wire.{Bytes}
use wire_protocols.Uuid.{Uuid, uuid_discrete}
use wire_protocols.Models.User.{User}
use wire_protocols.Requests.{
  Request, register, login, list_accounts, delete_account, send_message, delete_message,
  create_channel, LoginMessage,
}
use wire_protocols.Responses.{Variant, success, failure}
use wire_protocols.Database.{
  Database, find_user, get_uid_from_username, uid_of_name, verify_password,
}
use wire_protocols.Database.Table.{find}
use wire_protocols.Server.{Draws, Regex, finish_login, on_login, handle_request}

uid_of_name-find :
    (name : Bytes) (users : List (Uuid × User)) (uid : Uuid)
    → uid_of_name name users ≡ some uid
    → find uuid_discrete uid users ≢ none
unfolding uid_of_name find
uid_of_name-find name [] uid e = λ _. cc
uid_of_name-find name ((j, v) ∷ users) uid e = ground (arith, uid_of_name-find name users uid)

module _ (evp_sha256 : Bytes → Bytes) where
  finish_login-none :
      (checked : Variant Bool) (uid : Uuid) (db : Database) (who : Option Uuid)
      → find_user uid db ≢ none
      → finish_login evp_sha256 checked uid db who ≢ none
  unfolding finish_login
  finish_login-none (failure e) uid db who there = λ e. cc
  finish_login-none (success false) uid db who there = λ e. cc
  finish_login-none (success true) uid db who there = elim (Option-cases (find_user uid db)) [
    | inl gone ↦ absurd (there gone)
    | inr (u, e) ↦ rw (e, finish_login) (λ e. cc)
  ]

  on_login-none :
      (m : LoginMessage) (db : Database) (who : Option Uuid)
      → (on_login evp_sha256 m db who ≡ none) ↔ (get_uid_from_username m.username db ≡ none)
  unfolding on_login get_uid_from_username
  on_login-none m db who = elim (Option-cases (get_uid_from_username m.username db)) [
    | inl free ↦ rw (free, on_login) ((λ _. refl), (λ _. refl))
    | inr (uid, e) ↦
        rw (e, on_login)
          (
            (λ thrown. absurd (
                finish_login-none (verify_password evp_sha256 uid m.password db) uid db who
                  (uid_of_name-find m.username db.users uid e) thrown)),
            (λ o. cc),
          )
  ]

  -- Given the snowflake, and where nothing that the handler logs throws: `handle_request` has no step
  -- exactly if the request is a login and no user has its name.
  pub handle_request-none :
      (regex : Regex) (draws : Draws) (r : Request) (db : Database) (who : Option Uuid)
      → (handle_request evp_sha256 regex draws r db who ≡ none)
        ↔ ((m : LoginMessage) × (r ≡ login m) × (get_uid_from_username m.username db ≡ none))
  unfolding handle_request
  handle_request-none regex draws (register m) db who = ((λ e. cc), (λ (n, e, f). cc))
  handle_request-none regex draws (login m) db who =
      let (there, back) = on_login-none m db who in
      (
        (λ e. (m, refl, there e)),
        (λ (n, e, f).
            let same : m ≡ n = cc in
            back (
              subst (λ (x : LoginMessage). get_uid_from_username x.username db ≡ none) (sym same)
                f)),
      )
  handle_request-none regex draws (list_accounts m) db who = ((λ e. cc), (λ (n, e, f). cc))
  handle_request-none regex draws (delete_account m) db who = ((λ e. cc), (λ (n, e, f). cc))
  handle_request-none regex draws (send_message m) db who = ((λ e. cc), (λ (n, e, f). cc))
  handle_request-none regex draws (delete_message m) db who = ((λ e. cc), (λ (n, e, f). cc))
  handle_request-none regex draws (create_channel m) db who = ((λ e. cc), (λ (n, e, f). cc))
