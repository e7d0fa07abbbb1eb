-- ===== src/Tests/Logins.antt =====
-- Runs of the server's handlers.
use wire_protocols.Prelude.{◌≡◌, ◌≢◌, refl, none, some, [], ◌∷◌, codes, true}
use wire_protocols.Wire.{Bytes}
use wire_protocols.Models.User.{new_user}
use wire_protocols.Requests.{Request, register, login, RegisterAccountMessage}
use wire_protocols.Responses.{success, failure, logged_in, registered}
use wire_protocols.Database.{empty_database, find_user, get_uid_from_username, sha256}
use wire_protocols.Database.Table.{find}
use wire_protocols.Database.Names.{NamesUnique}
use wire_protocols.Server.{
  Step, Draws, reply, wrong_password, on_register_account, on_login, handle_request, Regex,
  answer_registration,
}
use wire_protocols.Server.Accounts.{Reachable, start, serve, Reachable-NamesUnique}
use wire_protocols.Server.Login.{on_login-on_register_account}
use wire_protocols.Snowflake.Backwards.{Backwards}
use wire_protocols.Server.Races.{entered, registrations_race}
use wire_protocols.Snowflake.{Generator}
use wire_protocols.Tests.{id}

-- Stand-ins for the digest and for the library of regular expressions.
abbrev pub digest : Bytes → Bytes
digest b = b

abbrev pub any : Regex
any text = success (λ name. true)

abbrev pub draws : Draws
draws = record { uid = id 3; salt = codes "s"; snowflake = 1; now = 1738022400000 }

abbrev pub bob : RegisterAccountMessage
bob = record { username = codes "bob"; password = codes "word"; display_name = codes "Bob" }

on_login-on_register_account_example :
    let after = (on_register_account digest draws bob empty_database none).db in
    (on_login digest (record { username = codes "bob"; password = codes "word" }) after none
      ≡ some (record {
        db = after;
        authenticated = some (id 3);
        written = logged_in (success (new_user (codes "bob") (codes "Bob") (id 3))) ∷ [];
        signals = [];
      }))
    × (sha256 digest (codes "words") ≢ sha256 digest (codes "worms")
        → on_login digest (record { username = codes "bob"; password = codes "worm" }) after none
          ≡ some (reply after none (logged_in (failure wrong_password))))
unfolding find get_uid_from_username empty_database
on_login-on_register_account_example =
    on_login-on_register_account digest draws bob empty_database refl refl none none (codes "worm")
      refl

abbrev bob_in : Request
bob_in = login (record { username = codes "bob"; password = codes "word" })

-- The generator of the server, before its first identifier.
abbrev fresh : Generator
fresh = record { machine_id = 1; process_id = 1; last_timestamp = none; sequence = 0 }

abbrev other_draws : Draws
other_draws = record { uid = id 4; salt = codes "t"; snowflake = 1; now = 1738022400000 }

abbrev robert : RegisterAccountMessage
robert = record { username = codes "bob"; password = codes "other"; display_name = codes "Robert" }

registrations_race_example :
    let seen = get_uid_from_username (codes "bob") empty_database in
    let first = answer_registration digest seen draws bob empty_database none in
    let second = answer_registration digest seen other_draws robert first.db none in
    (first.written ≡ registered (success tt) ∷ [])
    × (second.written ≡ registered (success tt) ∷ [])
    × (find_user (id 3) second.db ≡ some (entered draws bob))
    × (find_user (id 4) second.db ≡ some (entered other_draws robert))
    × ((entered draws bob).username ≡ (entered other_draws robert).username)
unfolding empty_database get_uid_from_username find new_user
registrations_race_example =
    registrations_race digest draws other_draws bob robert empty_database none none refl refl refl
      refl (λ e. cc)

-- The database after the registration of Bob.
abbrev first_step : Step
first_step = on_register_account digest draws bob empty_database none

first_step-Reachable : Reachable digest any first_step.db
unfolding handle_request
first_step-Reachable = serve draws (register bob) none first_step start refl

Reachable-NamesUnique_example : NamesUnique first_step.db
Reachable-NamesUnique_example = Reachable-NamesUnique digest any first_step.db first_step-Reachable
