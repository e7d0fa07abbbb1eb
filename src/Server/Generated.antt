-- ===== src/Server/Generated.antt =====
-- The handlers of src/bin/server/model/message_handlers.cpp with the generator of
-- src/models/snowflake.cpp: a new message takes the next identifier, all other requests take none.
use wire_protocols.Prelude.{
  ℕ, ◌≤◌, ◌≡◌, sym, ◌∙◌, subst, Option, none, some, List, false, arith, member, ℕ_discrete,
  Bool-cases, inl, inr, All, ltb,
}
use mathlib.Core.Option
use wire_protocols.Wire.{Bytes}
use wire_protocols.Uuid.{Uuid}
use wire_protocols.Models.Channel.{Channel}
use wire_protocols.Requests.{Request, send_message, SendMessageMessage}
use wire_protocols.Database.{Database, empty_database, find_message, find_channel}
use wire_protocols.Database.Table.{find}
use wire_protocols.Database.Linked.{Linked, empty_database-Linked}
use wire_protocols.Server.{Step, Draws, Regex, handle_request}
use wire_protocols.Server.References.{handle_request-Linked}
use wire_protocols.Snowflake.{
  Generator, max_machine_id, max_process_id, new_generator, issued, next_id,
}
use wire_protocols.Snowflake.Digits.{Readable}
use wire_protocols.Snowflake.Increase.{IsGenerator, stamp, Advance, next_id-Advance}
use wire_protocols.Server.Snowflakes.{
  Old, Old-fresh, Unused-Old, UnusedUid, Messageless, other-Old, sent-Old, unused_snowflake,
}

new_generator-IsGenerator :
    (machine process : ℕ) (g : Generator) → new_generator machine process ≡ some g → IsGenerator g
unfolding new_generator
new_generator-IsGenerator machine process g e = elim (Bool-cases (ltb max_machine_id machine)) [
  | inl over ↦ let never = rw (new_generator, over) at e in cc
  | inr fits ↦ elim (Bool-cases (ltb max_process_id process)) [
    | inl over ↦ let never = rw (new_generator, fits, over) at e in cc
    | inr fits' ↦
        let made = rw (new_generator, fits, fits') at e in
        subst IsGenerator (Option.some-injective _ g made) (record {
          machine_fits = ground arith;
          process_fits = ground arith;
          sequence_fits = omega arith;
          since_epoch = λ t f. cc;
        })
  ]
]

module _ (evp_sha256 : Bytes → Bytes) where
  -- The databases that requests lead to, and the generator then, whatever the clock shows.
  pub data Life (regex : Regex) : Generator → Database → Type 0 where
    begun :
        (machine process : ℕ) (g : Generator)
        → new_generator machine process ≡ some g
        → Life regex g empty_database
    sent :
        {g : Generator} {db : Database} (g' : Generator) (draws : Draws) (clock rest : List ℕ)
        (m : SendMessageMessage) (who : Option Uuid) (st : Step)
        → Life regex g db
        → next_id g clock ≡ issued draws.snowflake g' rest
        → All Readable clock
        → UnusedUid draws.uid db
        → handle_request evp_sha256 regex draws (send_message m) db who ≡ some st
        → Life regex g' st.db
    done :
        {g : Generator} {db : Database} (draws : Draws) (r : Request) (who : Option Uuid)
        (st : Step)
        → Life regex g db
        → Messageless r db
        → UnusedUid draws.uid db
        → handle_request evp_sha256 regex draws r db who ≡ some st
        → Life regex g st.db

  record Living (g : Generator) (db : Database) : Type 0 where
    valid : IsGenerator g
    linked : Linked db
    old : Old (stamp g) db

  Life-Living : (regex : Regex) (g : Generator) (db : Database) → Life regex g db → Living g db
  unfolding empty_database find
  Life-Living regex g db (begun machine process g₀ e) = record {
    valid = new_generator-IsGenerator machine process g e;
    linked = empty_database-Linked;
    old = record { stored = λ k m f. cc; listed = λ k cid c f l. cc };
  }
  Life-Living regex g' db'
        (sent {g = g} {db = db} _ draws clock rest m who st life drawn ok unused e) =
      let living = Life-Living regex g db life in
      let (valid, (at, past)) = subst (Advance g) drawn (next_id-Advance g clock living.valid ok) in
      let above : stamp g ≤ draws.snowflake = omega (arith, at, past) in
      let fresh = Unused-Old draws.uid (stamp g) draws.snowflake db living.old above unused in
      record {
        valid = valid;
        linked =
            handle_request-Linked evp_sha256 regex draws (send_message m) db who st e fresh
              living.linked;
        old =
            subst (λ k. Old k st.db) at
              (sent-Old evp_sha256 regex (stamp g) draws m db who st e above fresh.no_message
                living.old);
      }
  Life-Living regex g db' (done {db = db} draws r who st life o unused e) =
      let living = Life-Living regex g db life in
      let fresh = Unused-Old draws.uid (stamp g) (stamp g) db living.old (omega arith) unused in
      record {
        valid = living.valid;
        linked =
            handle_request-Linked evp_sha256 regex (record draws { snowflake = stamp g }) r db who
              st (sym (unused_snowflake evp_sha256 regex draws r db who (stamp g) o) ∙ e) fresh
              living.linked;
        old =
            other-Old evp_sha256 regex (stamp g) draws r db who st e o unused.no_channel living.old;
      }

  -- From the empty database and a new generator on, by requests of any clients in any order, each
  -- with an identifier that the database does not have, where a message that is made takes the next
  -- snowflake of the generator, and the clock shows any times from the epoch on for 2^41
  -- milliseconds: a channel stands under its own identifier, a message that a channel lists and that
  -- is there was sent to it, a user lists exactly the channels that list the user, as far as both are
  -- there, and no channel that is not there; and whatever snowflake the generator issues next is that
  -- of no message in the table and of no entry of a channel.
  pub Life-Linked :
      (regex : Regex) (g : Generator) (db : Database)
      → Life regex g db
      → Linked db
        × ((n : ℕ) (g' : Generator) (clock rest : List ℕ)
            → next_id g clock ≡ issued n g' rest
            → All Readable clock
            → (find_message n db ≡ none)
              × ((cid : Uuid) (c : Channel)
                  → find_channel cid db ≡ some c
                  → member ℕ_discrete n c.message_snowflakes ≡ false))
  Life-Linked regex g db life =
      let living = Life-Living regex g db life in
      (
        living.linked,
        λ n g' clock rest e ok.
            let (valid, (at, past)) =
              subst (Advance g) e (next_id-Advance g clock living.valid ok) in
            Old-fresh (stamp g) n db living.old (omega (arith, at, past)),
      )
