-- ===== src/Replica/Steps.antt =====
-- One request of src/bin/server/model/message_handlers.cpp, as the clients that are logged in see it.
use wire_protocols.Prelude.{
  ◌≡◌, refl, ap, ◌∙◌, subst, Option, none, some, List, [], ◌∷◌, Bool, Distinct, Option-cases, inl,
  inr, map,
}
use wire_protocols.Wire.{Bytes}
use wire_protocols.Uuid.{Uuid, uuid_discrete}
use wire_protocols.Models.User
use wire_protocols.Models.User.{User, new_user}
use wire_protocols.Requests.{
  Request, register, login, list_accounts, delete_account, send_message, delete_message,
  create_channel, RegisterAccountMessage, ListAccountsMessage, SendMessageMessage,
  CreateChannelMessage,
}
use wire_protocols.Responses.{Variant, success, failure, on_arrival}
use wire_protocols.Database.{
  Database, find_user, get_uid_from_username, add_user, add_channel, enrol,
}
use wire_protocols.Database.Table.{find, update, missing-insert, missing-update}
use wire_protocols.Database.Linked.{Unused}
use wire_protocols.Server.{
  Step, Draws, Regex, on_register_account, on_list_accounts, on_send_message, on_create_channel,
  searched, handle_request,
}
use wire_protocols.Server.Accounts.{send-users}
use wire_protocols.Server.Connections.{heard_from}
use wire_protocols.Client.{Session}
use wire_protocols.Server.Outcomes.{Outcome, refused, entered, on_login-Outcome}
use mathlib.Core.Option
use wire_protocols.Client.View.{Shows, Runs}
use wire_protocols.Replica.{visible, Once}
use wire_protocols.Replica.Sending.{add_message-Shows, add_message-Once}
use wire_protocols.Replica.Creating.{add_channel-Shows, add_channel-Once}

-- A request that takes nothing away: no deletion, no channel that names a member twice, and no login
-- on a connection that is logged in.
abbrev pub Orderly : Request → Option Uuid → Type 0
Orderly (register m) who = Unit {0}
Orderly (login m) who = who ≡ none
Orderly (list_accounts m) who = Unit {0}
Orderly (delete_account m) who = ⊥
Orderly (send_message m) who = Unit {0}
Orderly (delete_message m) who = ⊥
Orderly (create_channel m) who = Distinct uuid_discrete m.members

-- What a request leaves of the users that were there.
pub record Steady (db : Database) (st : Step) : Type 0 where
  pub stays :
      (uid : Uuid) (u : User)
      → find_user uid db ≡ some u
      → (u' : User) × (find_user uid st.db ≡ some u')
  pub follows :
      (uid : Uuid) (u : User) (s : Session)
      → find_user uid db ≡ some u
      → Shows (visible uid db) s
      → Runs (map on_arrival (heard_from uid st.signals)) s (Shows (visible uid st.db))
  pub once : Once st.db

-- Who was there is there, if who is missing was missing.
still :
    (uid : Uuid) (u : User) (before after : List (Uuid × User))
    → (find uuid_discrete uid after ≡ none → find uuid_discrete uid before ≡ none)
    → find uuid_discrete uid before ≡ some u
    → (u' : User) × (find uuid_discrete uid after ≡ some u')
still uid u before after back e = elim (Option-cases (find uuid_discrete uid after)) [
  | inl gone ↦ let never = back gone in cc
  | inr there ↦ there
]

missing-enrol :
    (ch uid : Uuid) (uids : List Uuid) (t : List (Uuid × User))
    → find uuid_discrete uid (enrol ch uids t) ≡ none
    → find uuid_discrete uid t ≡ none
unfolding enrol
missing-enrol ch uid [] t e = e
missing-enrol ch uid (x ∷ uids) t e =
    missing-update uuid_discrete x uid (User.add_channel ch) t
      (missing-enrol ch uid uids (update uuid_discrete x (User.add_channel ch) t) e)

quiet-Steady : (db : Database) (st : Step) → st.db ≡ db → st.signals ≡ [] → Once db → Steady db st
quiet-Steady db st same silent once = record {
  stays = λ uid u e. (u, rw same e);
  follows = λ uid u s e v. rw (same, silent) (unfold heard_from in v);
  once = rw same once;
}

send-Steady :
    (draws : Draws) (m : SendMessageMessage) (db : Database) (who : Option Uuid)
    → Unused draws.uid draws.snowflake db
    → Once db
    → Steady db (on_send_message draws m db who)
unfolding on_send_message
send-Steady draws m db who unused once = record {
  stays = λ uid u e. (
    u,
    ap (find uuid_discrete uid)
          (send-users m.sender_uid m.channel_uid m.text draws.snowflake draws.now db)
        ∙ e,
  );
  follows = λ uid u s e v.
      add_message-Shows m.sender_uid m.channel_uid m.text draws.snowflake draws.now db uid u s
        unused.no_message unused.no_listing once e v;
  once = add_message-Once m.sender_uid m.channel_uid m.text draws.snowflake draws.now db once;
}

create-Steady :
    (draws : Draws) (m : CreateChannelMessage) (db : Database) (who : Option Uuid)
    → Unused draws.uid draws.snowflake db
    → Distinct uuid_discrete m.members
    → Once db
    → Steady db (on_create_channel draws m db who)
unfolding on_create_channel add_channel
create-Steady draws m db who unused distinct once = record {
  stays = λ uid u e.
      still uid u db.users _ (λ gone. missing-enrol draws.uid uid m.members db.users gone) e;
  follows = λ uid u s e v.
      add_channel-Shows m.channel_name m.members draws.uid db unused.no_channel uid u s e distinct
        v;
  once = add_channel-Once m.channel_name m.members draws.uid db unused.no_channel distinct once;
}

outcome-Steady :
    (db : Database) (who : Option Uuid) (st : Step) → Outcome db who st → Once db → Steady db st
outcome-Steady db who st (refused e) once = quiet-Steady db _ refl refl once
outcome-Steady db who st (entered uid user there) once = quiet-Steady db _ refl refl once

search-Steady :
    (regex : Regex) (m : ListAccountsMessage) (db : Database) (who : Option Uuid)
    → Once db
    → Steady db (on_list_accounts regex m db who)
unfolding on_list_accounts
search-Steady regex m db who once = go (regex m.regex)
  where
    go : (v : Variant (Bytes → Bool)) → Steady db (searched v db who)
    go (failure e) = unfold searched in quiet-Steady db _ refl refl once
    go (success f) = unfold searched in quiet-Steady db _ refl refl once

module _ (evp_sha256 : Bytes → Bytes) where
  register-Steady :
      (draws : Draws) (m : RegisterAccountMessage) (db : Database) (who : Option Uuid)
      → Unused draws.uid draws.snowflake db
      → Once db
      → Steady db (on_register_account evp_sha256 draws m db who)
  unfolding on_register_account
  register-Steady draws m db who unused once =
      elim (Option-cases (get_uid_from_username m.username db)) [
        | inr (uid, taken) ↦ rw (taken, on_register_account) (quiet-Steady db _ refl refl once)
        | inl free ↦
            rw (free, on_register_account)
              (record {
                stays = λ uid u e.
                    unfold add_user new_user in
                    still uid u db.users _
                      (λ gone.
                        (missing-insert uuid_discrete draws.uid uid
                          (new_user m.username m.display_name draws.uid) db.users unused.no_user
                          gone).1)
                      e;
                follows = λ uid u s e v. unfold heard_from add_user in v;
                once = unfold add_user in once;
              })
      ]

  pub handle_request-Steady :
      (regex : Regex) (draws : Draws) (r : Request) (db : Database) (who : Option Uuid) (st : Step)
      → handle_request evp_sha256 regex draws r db who ≡ some st
      → Orderly r who
      → Unused draws.uid draws.snowflake db
      → Once db
      → Steady db st
  unfolding handle_request
  handle_request-Steady regex draws (register m) db who st e o unused once =
      subst (Steady db) (Option.some-injective _ _ e) (register-Steady draws m db who unused once)
  handle_request-Steady regex draws (login m) db who st e o unused once =
      outcome-Steady db who st (on_login-Outcome evp_sha256 m db who st e) once
  handle_request-Steady regex draws (list_accounts m) db who st e o unused once =
      subst (Steady db) (Option.some-injective _ _ e) (search-Steady regex m db who once)
  handle_request-Steady regex draws (delete_account m) db who st e o unused once = absurd o
  handle_request-Steady regex draws (send_message m) db who st e o unused once =
      subst (Steady db) (Option.some-injective _ _ e) (send-Steady draws m db who unused once)
  handle_request-Steady regex draws (delete_message m) db who st e o unused once = absurd o
  handle_request-Steady regex draws (create_channel m) db who st e o unused once =
      subst (Steady db) (Option.some-injective _ _ e) (create-Steady draws m db who unused o once)
