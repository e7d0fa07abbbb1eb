-- ===== src/Server/Connections.antt =====
-- src/bin/server/model/client_handler.cpp: the connections of the server, each with a thread of its
-- own, and the slots by which a connection hears the signals of the user that it is logged in as.
-- One request is handled at a time, and the slots that its signals are queued for run before the
-- next one.
use wire_protocols.Prelude.{ℕ, ite, Option, none, some, List, [], ◌∷◌, ◌++◌, ℕ_discrete}
use wire_protocols.Prelude.Try.{◌>>=◌}
use wire_protocols.Wire.{Bytes}
use wire_protocols.Uuid.{Uuid, uuid_discrete}
use wire_protocols.Requests.{Request}
use wire_protocols.Responses
use wire_protocols.Responses.{Response, success}
use wire_protocols.Database.{Database, Signal, message_received, message_deleted, channel_added}
use wire_protocols.Database.Table.{find, insert, erase}
use wire_protocols.Server.{Step, Draws, Regex, handle_request}

-- The user that the connection is subscribed to, and all that was written to its socket.
pub record Connection : Type 0 where
  pub authenticated : Option Uuid
  pub sent : List Response

-- `ClientHandler::handle_client`
abbrev pub new_connection : Connection
new_connection = record { authenticated = none; sent = [] }

-- The user that emits a signal.
unfoldable pub emitter : Signal → Uuid
emitter (message_received uid m) = uid
emitter (message_deleted uid m) = uid
emitter (channel_added uid c) = uid

-- `on_message_received`, `on_message_deleted`, `on_channel_added`: what the slot writes.
unfoldable pub slot : Signal → Response
slot (message_received uid m) = Responses.message_sent (success m)
slot (message_deleted uid m) = Responses.message_deleted (success m)
slot (channel_added uid c) = Responses.channel_created (success c)

-- What the slots of a connection that is subscribed to a user write.
unfoldable pub heard_from : Uuid → List Signal → List Response
unfolding emitter slot
heard_from uid [] = []
heard_from uid (s ∷ ss) =
    let rest = heard_from uid ss in ite (uuid_discrete (emitter s) uid) (slot s ∷ rest) rest

unfoldable pub heard : Option Uuid → List Signal → List Response
unfolding heard_from
heard none ss = []
heard (some uid) ss = heard_from uid ss

-- A connection while another one's request is handled.
unfoldable pub hear : List Signal → Connection → Connection
unfolding heard
hear ss c = record c { sent = c.sent ++ heard c.authenticated ss }

-- The connection whose request is handled: the slots run at once where the signal is emitted, which
-- is before the handler writes its response.
unfoldable pub answer : Step → Connection → Connection
unfolding heard
answer st c = record {
  authenticated = st.authenticated;
  sent = c.sent ++ (heard c.authenticated st.signals ++ st.written);
}

pub record World : Type 0 where
  pub db : Database
  pub connections : List (ℕ × Connection)

-- The connections after a request of connection `i`.
unfoldable pub settle : ℕ → Step → List (ℕ × Connection) → List (ℕ × Connection)
unfolding hear answer
settle i st [] = []
settle i st ((j, c) ∷ cs) =
    (j, ite (ℕ_discrete j i) (answer st c) (hear st.signals c)) ∷ settle i st cs

-- `TcpServer::incomingConnection` under the number of a socket, and `on_disconnected`.
unfoldable pub connect : ℕ → World → World
unfolding insert
connect i w = record w { connections = insert ℕ_discrete i new_connection w.connections }

unfoldable pub disconnect : ℕ → World → World
unfolding erase
disconnect i w = record w { connections = erase ℕ_discrete i w.connections }

module _ (evp_sha256 : Bytes → Bytes) (regex : Regex) where
  -- A request that arrives on connection `i`. `none`: there is no such connection, or an exception
  -- leaves the handler.
  unfoldable pub serve : Draws → ℕ → Request → World → Option World
  unfolding settle
  serve draws i r w = do
    c ← find ℕ_discrete i w.connections
    st ← handle_request evp_sha256 regex draws r w.db c.authenticated
    some (record { db = st.db; connections = settle i st w.connections })
