-- ===== src/Server/Outcomes.antt =====
-- `on_login` of src/bin/server/model/message_handlers.cpp: what a completed call leaves.
use wire_protocols.Prelude.{
  ◌≡◌, subst, Option, none, some, [], ◌∷◌, Option-cases, true, false, Bool, inl, inr,
}
use wire_protocols.Wire.{Bytes}
use wire_protocols.Uuid.{Uuid}
use wire_protocols.Models.User.{User}
use wire_protocols.Requests.{LoginMessage}
use wire_protocols.Responses.{Variant, success, failure, logged_in}
use wire_protocols.Database.{Database, find_user, get_uid_from_username, verify_password}
use wire_protocols.Server.{Step, reply, wrong_password, on_login, finish_login, replay}

pub data Outcome (db : Database) (who : Option Uuid) : Step → Type 0 where
  refused : (e : Bytes) → Outcome db who (reply db who (logged_in (failure e)))
  entered :
      (uid : Uuid) (user : User)
      → find_user uid db ≡ some user
      → Outcome db who (record {
        db = db;
        authenticated = some uid;
        written = logged_in (success user) ∷ replay user.channels db;
        signals = [];
      })

abbrev Ends : Database → Option Uuid → Option Step → Type 0
Ends db who none = Unit {0}
Ends db who (some st) = Outcome db who st

module _ (evp_sha256 : Bytes → Bytes) where
  finish_login-Ends :
      (v : Variant Bool) (uid : Uuid) (db : Database) (who : Option Uuid)
      → Ends db who (finish_login evp_sha256 v uid db who)
  unfolding finish_login
  finish_login-Ends (failure e) uid db who = refused e
  finish_login-Ends (success false) uid db who = refused wrong_password
  finish_login-Ends (success true) uid db who = elim (Option-cases (find_user uid db)) [
    | inl gone ↦ rw (gone, finish_login) tt
    | inr (user, there) ↦ rw (there, finish_login) (entered uid user there)
  ]

  on_login-Ends :
      (m : LoginMessage) (db : Database) (who : Option Uuid)
      → Ends db who (on_login evp_sha256 m db who)
  unfolding on_login
  on_login-Ends m db who = elim (Option-cases (get_uid_from_username m.username db)) [
    | inl gone ↦ rw (gone, on_login) tt
    | inr (uid, there) ↦
        rw (there, on_login)
          (finish_login-Ends (verify_password evp_sha256 uid m.password db) uid db who)
  ]

  -- A login that completes is refused, or enters a user that is there.
  pub on_login-Outcome :
      (m : LoginMessage) (db : Database) (who : Option Uuid) (st : Step)
      → on_login evp_sha256 m db who ≡ some st
      → Outcome db who st
  on_login-Outcome m db who st e = subst (Ends db who) e (on_login-Ends m db who)
