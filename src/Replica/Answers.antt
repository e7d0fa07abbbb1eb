-- ===== src/Replica/Answers.antt =====
-- What the connection that asked gets, in src/bin/server/model/message_handlers.cpp, as its client
-- takes it in.
use wire_protocols.Prelude.{
  ◌≡◌, refl, subst, Option, none, some, List, [], ◌∷◌, Bool, Option-cases, inl, inr, map, ◌++◌,
  codes,
}
use wire_protocols.Wire.{Bytes}
use wire_protocols.Uuid.{Uuid}
use wire_protocols.Models.User.{User}
use wire_protocols.Requests.{
  Request, register, login, list_accounts, delete_account, send_message, delete_message,
  create_channel, RegisterAccountMessage, ListAccountsMessage,
}
use wire_protocols.Responses.{
  Variant, success, failure, Response, registered, logged_in, accounts_listed, on_arrival,
}
use wire_protocols.Database.{Database, find_user, get_uid_from_username}
use wire_protocols.Server.{
  Step, Draws, Regex, on_register_account, on_list_accounts, users_of, matching, on_send_message,
  on_create_channel, searched, handle_request, replay,
}
use wire_protocols.Client.{Session}
use wire_protocols.Client.Handlers.{
  handle_response, on_register_account_response, on_list_accounts_response, on_login_response,
  registration_success, registration_failure, search_success, search_failure, login_failure,
}
use wire_protocols.Responses.{received_listing}
use wire_protocols.Server.Outcomes.{Outcome, refused, entered, on_login-Outcome}
use mathlib.Core.Option
use wire_protocols.Client.View.{Runs}
use wire_protocols.Replica.Steps.{Orderly}

-- Responses that leave the session as it is.
abbrev pub Quiet : List Response → Type 0
Quiet rs = (s : Session) → Runs (map on_arrival rs) s (λ t. t ≡ s)

-- What the connection that asked gets: a quiet answer, or the entry of a user.
pub data Answered (db : Database) (who : Option Uuid) (st : Step) : Type 0 where
  kept : st.authenticated ≡ who → Quiet st.written → Answered db who st
  opened :
      (uid : Uuid) (user : User)
      → who ≡ none
      → find_user uid db ≡ some user
      → st.authenticated ≡ some uid
      → st.db ≡ db
      → st.signals ≡ []
      → st.written ≡ logged_in (success user) ∷ replay user.channels db
      → Answered db who st

registered-Quiet : (v : Variant (Unit {0})) → Quiet (registered v ∷ [])
unfolding handle_response on_register_account_response
registered-Quiet (success u) s = (s, registration_success ∷ [], refl, refl)
registered-Quiet (failure e) s = (s, registration_failure e ∷ [], refl, refl)

listed-Quiet : (v : Variant (List User)) → Quiet (accounts_listed v ∷ [])
unfolding handle_response on_list_accounts_response
listed-Quiet (success us) s = (s, search_success (received_listing us) ∷ [], refl, refl)
listed-Quiet (failure e) s = (s, search_failure e ∷ [], refl, refl)

refused-Quiet : (e : Bytes) → Quiet (logged_in (failure e) ∷ [])
unfolding handle_response on_login_response
refused-Quiet e s = (s, login_failure e ∷ [], refl, refl)

outcome-Answered :
    (db : Database) (who : Option Uuid) (st : Step)
    → Outcome db who st
    → who ≡ none
    → Answered db who st
outcome-Answered db who st (refused e) o = kept refl (refused-Quiet e)
outcome-Answered db who st (entered uid user there) o = opened uid user o there refl refl refl refl

search-Answered :
    (regex : Regex) (m : ListAccountsMessage) (db : Database) (who : Option Uuid)
    → Answered db who (on_list_accounts regex m db who)
unfolding on_list_accounts
search-Answered regex m db who = go (regex m.regex)
  where
    go : (v : Variant (Bytes → Bool)) → Answered db who (searched v db who)
    go (failure e) =
        unfold searched in kept refl (listed-Quiet (failure (codes "Regex error: " ++ e)))
    go (success f) =
        unfold searched in kept refl (listed-Quiet (success (users_of (matching f db.users) db)))

module _ (evp_sha256 : Bytes → Bytes) where
  register-Answered :
      (draws : Draws) (m : RegisterAccountMessage) (db : Database) (who : Option Uuid)
      → Answered db who (on_register_account evp_sha256 draws m db who)
  unfolding on_register_account
  register-Answered draws m db who = elim (Option-cases (get_uid_from_username m.username db)) [
    | inr (uid, taken) ↦ rw (taken, on_register_account) (kept refl (registered-Quiet _))
    | inl free ↦ rw (free, on_register_account) (kept refl (registered-Quiet _))
  ]

  pub handle_request-Answered :
      (regex : Regex) (draws : Draws) (r : Request) (db : Database) (who : Option Uuid) (st : Step)
      → handle_request evp_sha256 regex draws r db who ≡ some st
      → Orderly r who
      → Answered db who st
  unfolding handle_request
  handle_request-Answered regex draws (register m) db who st e o =
      subst (Answered db who) (Option.some-injective _ _ e) (register-Answered draws m db who)
  handle_request-Answered regex draws (login m) db who st e o =
      outcome-Answered db who st (on_login-Outcome evp_sha256 m db who st e) o
  handle_request-Answered regex draws (list_accounts m) db who st e o =
      subst (Answered db who) (Option.some-injective _ _ e) (search-Answered regex m db who)
  handle_request-Answered regex draws (delete_account m) db who st e o = absurd o
  handle_request-Answered regex draws (send_message m) db who st e o =
      subst (Answered db who) (Option.some-injective _ _ e)
        (unfold on_send_message in kept refl λ s. refl)
  handle_request-Answered regex draws (delete_message m) db who st e o = absurd o
  handle_request-Answered regex draws (create_channel m) db who st e o =
      subst (Answered db who) (Option.some-injective _ _ e)
        (unfold on_create_channel in kept refl λ s. refl)
