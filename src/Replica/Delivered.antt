-- ===== src/Replica/Delivered.antt =====
-- A message that is sent while the members of its channel are logged in: from
-- src/bin/server/model/message_handlers.cpp to the sessions of src/bin/client/model/session.cpp.
use wire_protocols.Prelude.{
  ℕ, ◌≡◌, refl, sym, ap, ◌∙◌, subst, ite, if_pos, if_neg, Option, some, List, [], ◌∷◌, ◌++◌, map,
  true, ℕ_discrete, member,
}
use mathlib.Core.Option
use wire_protocols.Prelude.Try.{◌>>=◌}
use wire_protocols.Wire.{Bytes}
use wire_protocols.Uuid.{Uuid, uuid_discrete}
use wire_protocols.Models.Message.{new_message}
use wire_protocols.Models.Channel.{Channel}
use wire_protocols.Requests.{SendMessageMessage, send_message}
use wire_protocols.Responses.{on_arrival}
use wire_protocols.Database.{Database, find_channel, add_message}
use wire_protocols.Database.Table.{find}
use wire_protocols.Database.Linked.{Unused}
use wire_protocols.Server.{Step, Draws, Regex, handle_request, on_send_message}
use wire_protocols.Server.Connections.{Connection, hear, answer, World, settle, serve}
use wire_protocols.Client.{Session, new_session}
use wire_protocols.Client.Handlers.{Notice, handle_responses}
use wire_protocols.Client.View.{shown}
use wire_protocols.Replica.{messages_of, visible}
use wire_protocols.Replica.Sending.{visible_there}
use wire_protocols.Replica.Worlds.{Run, asked, handle_responses-InStep}

find-settle :
    (i j : ℕ) (st : Step) (cs : List (ℕ × Connection)) (c : Connection)
    → find ℕ_discrete j cs ≡ some c
    → find ℕ_discrete j (settle i st cs)
      ≡ some (ite (ℕ_discrete j i) (answer st c) (hear st.signals c))
unfolding settle find
find-settle i j st [] c e = cc
find-settle i j st ((k, d) ∷ cs) c e = elim (ℕ_discrete k j) [
  | yes p ↦
      let mine =
        Option.some-injective d c
          (sym (if_pos (ℕ_discrete k j) p (some d) (find ℕ_discrete j cs)) ∙ e) in
      if_pos (ℕ_discrete k j) p (some (ite (ℕ_discrete k i) (answer st d) (hear st.signals d)))
        (find ℕ_discrete j (settle i st cs))
      ∙ subst
          (λ n.
            some (ite (ℕ_discrete k i) (answer st d) (hear st.signals d))
            ≡ some (ite (ℕ_discrete n i) (answer st c) (hear st.signals c)))
          p (ap (λ x. some (ite (ℕ_discrete k i) (answer st x) (hear st.signals x))) mine)
  | no p ↦
      if_neg (ℕ_discrete k j) p (some (ite (ℕ_discrete k i) (answer st d) (hear st.signals d)))
        (find ℕ_discrete j (settle i st cs))
      ∙ find-settle i j st cs c
          (sym (if_neg (ℕ_discrete k j) p (some d) (find ℕ_discrete j cs)) ∙ e)
]

-- A request that leaves its connection logged in as it was leaves all of them so.
stays_in :
    (i j : ℕ) (st : Step) (a c : Connection) (cs : List (ℕ × Connection))
    → find ℕ_discrete i cs ≡ some a
    → find ℕ_discrete j cs ≡ some c
    → st.authenticated ≡ a.authenticated
    → (ite (ℕ_discrete j i) (answer st c) (hear st.signals c)).authenticated ≡ c.authenticated
unfolding answer hear
stays_in i j st a c cs asking there same = elim (ℕ_discrete j i) [
  | yes p ↦
      let one =
        Option.some-injective a c
          (sym asking ∙ subst (λ k. find ℕ_discrete k cs ≡ some c) p there) in
      rw (if_pos (ℕ_discrete j i) p (answer st c) (hear st.signals c))
        (same ∙ ap (λ (x : Connection). x.authenticated) one)
  | no p ↦ rw (if_neg (ℕ_discrete j i) p (answer st c) (hear st.signals c)) refl
]

visible_added :
    (draws : Draws) (m : SendMessageMessage) (db : Database) (who : Option Uuid) (uid : Uuid)
    (c : Channel)
    → Unused draws.uid draws.snowflake db
    → find_channel m.channel_uid db ≡ some c
    → member uuid_discrete uid c.user_uids ≡ true
    → visible uid (on_send_message draws m db who).db m.channel_uid
      ≡ some (
          messages_of c.message_snowflakes db.messages
          ++ (new_message m.sender_uid m.channel_uid m.text draws.snowflake draws.now ∷ []))
unfolding on_send_message add_message new_message
visible_added draws m db who uid c unused there listed =
    rw (there, add_message)
      (visible_there (new_message m.sender_uid m.channel_uid m.text draws.snowflake draws.now) c db
          uid unused.no_message unused.no_listing there
        ∙ rw listed refl)

module _ (evp_sha256 : Bytes → Bytes) (regex : Regex) where
  -- From the empty server on, connections coming and going, after requests that take nothing away (no
  -- deletion, no channel that names a member twice, no login on a connection that is logged in, each
  -- with an identifier and a snowflake that the database does not have): a message that any client
  -- sends to a channel that is there, with an identifier and a snowflake drawn that the database does
  -- not have, is handled, and the client of every connection that is logged in as a member of the
  -- channel, handling from a new session on all that was written to the connection as it arrives,
  -- then shows the channel's messages from before, in their order, and the new one behind them.
  pub send_message-Delivered :
      (w : World) (draws : Draws) (i j : ℕ) (m : SendMessageMessage) (a c : Connection) (uid : Uuid)
      (channel : Channel)
      → Run evp_sha256 regex w
      → find ℕ_discrete i w.connections ≡ some a
      → find ℕ_discrete j w.connections ≡ some c
      → c.authenticated ≡ some uid
      → Unused draws.uid draws.snowflake w.db
      → find_channel m.channel_uid w.db ≡ some channel
      → member uuid_discrete uid channel.user_uids ≡ true
      → (w' : World) × (c' : Connection) × (last : Session) × (notices : List Notice) × (serve
            evp_sha256 regex draws i
            (send_message m)
            w
          ≡ some w')
        × (find ℕ_discrete j w'.connections ≡ some c')
        × (handle_responses (map on_arrival c'.sent) new_session ≡ some (last, notices))
        × (shown last m.channel_uid
            ≡ some (
                messages_of channel.message_snowflakes w.db.messages
                ++ (new_message m.sender_uid m.channel_uid m.text draws.snowflake draws.now ∷ [])))
  unfolding serve handle_request
  send_message-Delivered w draws i j m a c uid channel run asking there who unused known listed =
      let st = on_send_message draws m w.db a.authenticated in
      let w' : World = record { db = st.db; connections = settle i st w.connections } in
      let c' = ite (ℕ_discrete j i) (answer st c) (hear st.signals c) in
      let done : serve evp_sha256 regex draws i (send_message m) w ≡ some w' =
        rw (serve, asking, ◌>>=◌) refl in
      let found = find-settle i j st w.connections c there in
      let logged =
        stays_in i j st a c w.connections asking there (unfold on_send_message in refl) ∙ who in
      let (last, notices, handled, in_step) =
        handle_responses-InStep evp_sha256 regex w' j c' uid
          (asked w' draws i (send_message m) a run asking tt unused done) found logged in
      (
        w',
        c',
        last,
        notices,
        done,
        found,
        handled,
        in_step m.channel_uid
            ∙ visible_added draws m w.db a.authenticated uid channel unused known listed,
      )
