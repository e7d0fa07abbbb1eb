-- ===== src/Replica/Worlds.antt =====
-- The server of src/bin/server with all its connections, next to the sessions of the clients behind
-- them.
use wire_protocols.Prelude.{
  ℕ, ◌≡◌, refl, sym, ◌∙◌, subst, none, some, List, [], map, Option-cases, inl, inr, ℕ_discrete,
}
use mathlib.Core.Option
use wire_protocols.Prelude.Try.{◌>>=◌}
use wire_protocols.Wire.{Bytes}
use wire_protocols.Uuid.{Uuid}
use wire_protocols.Requests.{Request}
use wire_protocols.Responses.{on_arrival}
use wire_protocols.Database.{empty_database}
use wire_protocols.Database.Table.{find, found-insert, found-erase}
use wire_protocols.Database.Linked.{Linked, Unused, empty_database-Linked}
use wire_protocols.Server.{Step, Draws, Regex, handle_request}
use wire_protocols.Server.References.{handle_request-Linked}
use wire_protocols.Server.Connections.{
  Connection, new_connection, hear, World, settle, connect, disconnect, serve,
}
use wire_protocols.Client.{Session, new_session}
use wire_protocols.Client.Handlers.{Notice, handle_responses}
use wire_protocols.Client.View.{shown, Shows, Runs-handled}
use wire_protocols.Replica.{visible, Once}
use wire_protocols.Replica.Steps.{Orderly, Steady, handle_request-Steady}
use wire_protocols.Replica.Answers.{Answered, handle_request-Answered}
use wire_protocols.Replica.Fits.{Fit, AllFit, found-settle, hear-Fit, answer-Fit}
use wire_protocols.Prelude.{suc, ◌≤◌, length, All}
use wire_protocols.Wire.Reads.{concat_map}
use wire_protocols.Responses.{put_response_packet}
use wire_protocols.Json.{Library, IsLawful}
use wire_protocols.Framing.{Socket, unread}
use wire_protocols.Framing.Client.{Sendable}
use wire_protocols.Client.Receiving.{receive, receive-burst}

module _ (evp_sha256 : Bytes → Bytes) (regex : Regex) where
  -- What the server and its clients go through: connections come and go, and requests that take
  -- nothing away arrive on them in any order, each with an identifier and a snowflake that the
  -- database does not have.
  pub data Run : World → Type 0 where
    start : Run (record { db = empty_database; connections = [] })
    connected :
        {w : World} (i : ℕ) → Run w → find ℕ_discrete i w.connections ≡ none → Run (connect i w)
    disconnected : {w : World} (i : ℕ) → Run w → Run (disconnect i w)
    asked :
        {w : World} (w' : World) (draws : Draws) (i : ℕ) (r : Request) (c : Connection)
        → Run w
        → find ℕ_discrete i w.connections ≡ some c
        → Orderly r c.authenticated
        → Unused draws.uid draws.snowflake w.db
        → serve evp_sha256 regex draws i r w ≡ some w'
        → Run w'

  record Synced (w : World) : Type 0 where
    linked : Linked w.db
    once : Once w.db
    fits : AllFit w

  -- One request of connection `i`.
  settle-Fits :
      (w : World) (i : ℕ) (c : Connection) (st : Step)
      → Synced w
      → find ℕ_discrete i w.connections ≡ some c
      → Steady w.db st
      → Answered w.db c.authenticated st
      → AllFit (record { db = st.db; connections = settle i st w.connections })
  settle-Fits w i c st synced there steady answered = λ j c' e.
      let (d, found, how) = found-settle i j st w.connections c' e in
      elim how [
        | inl (p, q) ↦
            let one =
              Option.some-injective d c
                (sym found ∙ subst (λ k. find ℕ_discrete k w.connections ≡ some c) p there) in
            subst (λ (x : Connection). Fit st.db x.authenticated (map on_arrival x.sent)) (sym q)
              (answer-Fit w.db st d synced.linked steady
                (subst (λ (x : Connection). Answered w.db x.authenticated st) (sym one) answered)
                (synced.fits j d found))
        | inr (p, q) ↦
            subst (λ (x : Connection). Fit st.db x.authenticated (map on_arrival x.sent)) (sym q)
              (unfold hear in
                hear-Fit w.db st d.authenticated d.sent steady (synced.fits j d found))
      ]

  served-Synced :
      (w w' : World) (draws : Draws) (i : ℕ) (r : Request) (c : Connection)
      → Synced w
      → find ℕ_discrete i w.connections ≡ some c
      → Orderly r c.authenticated
      → Unused draws.uid draws.snowflake w.db
      → serve evp_sha256 regex draws i r w ≡ some w'
      → Synced w'
  unfolding serve
  served-Synced w w' draws i r c synced there o unused e =
      elim (Option-cases (handle_request evp_sha256 regex draws r w.db c.authenticated)) [
        | inl gone ↦ let never = rw (serve, there, gone, ◌>>=◌) at e in cc
        | inr (st, done) ↦
            let steady =
              handle_request-Steady evp_sha256 regex draws r w.db c.authenticated st done o unused
                synced.once in
            let next : World = record { db = st.db; connections = settle i st w.connections } in
            let same : some next ≡ some w' = rw (serve, there, done, ◌>>=◌) at e in
            subst Synced (Option.some-injective next w' same) (record {
              linked =
                  handle_request-Linked evp_sha256 regex draws r w.db c.authenticated st done unused
                    synced.linked;
              once = steady.once;
              fits =
                  settle-Fits w i c st synced there steady (
                    handle_request-Answered evp_sha256 regex draws r w.db c.authenticated st done
                      o);
            })
      ]

  Run-Synced : (w : World) → Run w → Synced w
  unfolding find empty_database connect disconnect
  Run-Synced w start = record {
    linked = empty_database-Linked;
    once = λ cid c e. cc;
    fits = λ i c e. cc;
  }
  Run-Synced w (connected {w = before} i run fresh) =
      let synced = Run-Synced before run in
      record {
        linked = synced.linked;
        once = synced.once;
        fits = λ j c e.
            elim (found-insert ℕ_discrete i j new_connection before.connections c fresh e) [
              | inl (p, q) ↦
                  subst (λ (x : Connection). Fit before.db x.authenticated (map on_arrival x.sent))
                    q refl
              | inr (p, f) ↦ synced.fits j c f
            ];
      }
  Run-Synced w (disconnected {w = before} i run) =
      let synced = Run-Synced before run in
      record {
        linked = synced.linked;
        once = synced.once;
        fits = λ j c e. synced.fits j c (found-erase ℕ_discrete i j before.connections c e).1;
      }
  Run-Synced w (asked {w = before} w' draws i r c run there o unused e) =
      served-Synced before w draws i r c (Run-Synced before run) there o unused e

  -- While requests take nothing away (no deletion, no channel that names a member twice, no login on
  -- a connection that is logged in, each with an identifier and a snowflake that the database does
  -- not have), connections coming and going: the client of a connection that is logged in as a user,
  -- handling from a new session on all that was written to the connection as it arrives, meets no
  -- exception, and its session then has exactly the channels of the user that the server has, each
  -- with the messages that the server keeps for it, in their order.
  pub handle_responses-InStep :
      (w : World) (i : ℕ) (c : Connection) (uid : Uuid)
      → Run w
      → find ℕ_discrete i w.connections ≡ some c
      → c.authenticated ≡ some uid
      → (last : Session) × (notices : List Notice) × (handle_responses
            (map on_arrival c.sent)
            new_session
          ≡ some (last, notices))
        × ((cid : Uuid) → shown last cid ≡ visible uid w.db cid)
  handle_responses-InStep w i c uid run there who =
      let synced = Run-Synced w run in
      let fit = subst (λ a. Fit w.db a (map on_arrival c.sent)) who (synced.fits i c there) in
      let (last, notices, done, shows) =
        Runs-handled (map on_arrival c.sent) new_session (Shows (visible uid w.db)) fit.1 in
      (last, notices, done, shows.in_step)

  -- While requests take nothing away (no deletion, no channel that names a member twice, no login on
  -- a connection that is logged in, each with an identifier and a snowflake that the database does
  -- not have), connections coming and going: where a connection is logged in as a user, the fields of
  -- what was written to it fit and its texts are valid UTF-8, each payload is below 65536 bytes, and
  -- the client's socket holds all of it and nothing else, with a lawful JSON library for the line
  -- that logs the responses, one call of `onReadyRead` on a new session, in one round more than there
  -- are responses, reads the socket to its end and leaves the session with exactly the channels of
  -- the user that the server has, each with the messages that the server keeps for it, in their
  -- order.
  pub receive-InStep :
      (L : Library) (lawful : IsLawful L) (w : World) (i : ℕ) (c : Connection) (uid : Uuid)
      (socket : Socket)
      → Run w
      → find ℕ_discrete i w.connections ≡ some c
      → c.authenticated ≡ some uid
      → All (Sendable L lawful) c.sent
      → unread socket ≡ concat_map put_response_packet c.sent
      → length socket.later ≤ 0
      → (last : Session) × (notices : List Notice) × (left : Socket) × (receive L
            (suc (length c.sent))
            socket
            new_session
          ≡ some (last, notices, left))
        × (unread left ≡ [])
        × ((cid : Uuid) → shown last cid ≡ visible uid w.db cid)
  receive-InStep L lawful w i c uid socket run there who fit held done =
      let (last, notices, handled, in_step) = handle_responses-InStep w i c uid run there who in
      let (left, read, empty) =
        receive-burst L lawful c.sent socket new_session last notices fit held done handled in
      (last, notices, left, read, empty, in_step)
