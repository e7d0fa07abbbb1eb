-- ===== src/Server/Drawing.antt =====
-- The handlers of src/bin/server/model/message_handlers.cpp with what may throw on their way: the
-- generator of src/models/snowflake.cpp, where a message is made, and the line that logs a response
-- before it is written. OpenSSL's digest and `std::regex_match` are taken to complete.
use wire_protocols.Prelude.{
  is_some, ℕ, Option, none, some, List, [], ◌∷◌, Bool, true, false, ◌&&◌, if◌then◌else◌,
}
use wire_protocols.Wire.{Bytes}
use wire_protocols.Uuid.{Uuid}
use wire_protocols.Requests.{
  Request, register, login, list_accounts, delete_account, send_message, delete_message,
  create_channel,
}
use wire_protocols.Responses.{Response}
use wire_protocols.Json.{Library}
use wire_protocols.Json.Responses.{response_to_json}
use wire_protocols.Database.{Database, find_channel}
use wire_protocols.Snowflake.{Generator, Draw, issued, moved_backwards, still_waiting, next_id}
use wire_protocols.Server.{Step, Draws, Regex, handle_request}

-- How a request ends: with what the handler did, the generator and the readings of the clock that
-- are left; by an exception; or not yet, in the generator's wait for the next millisecond.
pub data Served : Type 0 where
  answered : Step → Generator → List ℕ → Served
  threw : Served
  waiting : Served

-- Whether a message is made: the channel is there.
unfoldable pub makes_message : Request → Database → Bool
makes_message (send_message m) db = is_some (find_channel m.channel_uid db)
makes_message (register m) db = false
makes_message (login m) db = false
makes_message (list_accounts m) db = false
makes_message (delete_account m) db = false
makes_message (delete_message m) db = false
makes_message (create_channel m) db = false

module _ (L : Library) where
  -- `response.to_json()` of each response, before it is written.
  unfoldable pub all_printed : List Response → Bool
  all_printed [] = true
  all_printed (r ∷ rs) = is_some (response_to_json L r) && all_printed rs

  unfoldable pub finish : Generator → List ℕ → Option Step → Served
  unfolding all_printed
  finish g clock none = threw
  finish g clock (some st) = if all_printed st.written then answered st g clock else threw

  -- The handler, once the generator has been asked.
  unfoldable pub with_draw : (ℕ → Option Step) → Draw → Served
  unfolding finish
  with_draw handle (issued n g rest) = finish g rest (handle n)
  with_draw handle moved_backwards = threw
  with_draw handle still_waiting = waiting

  -- A request, with the generator of the messages' identifiers.
  unfoldable pub serve_request :
      (Bytes → Bytes)
      → Regex
      → Draws
      → Generator
      → List ℕ
      → Request
      → Database
      → Option Uuid
      → Served
  unfolding with_draw makes_message handle_request
  serve_request evp_sha256 regex draws g clock r db who =
      if makes_message r db
      then with_draw
          (λ n. handle_request evp_sha256 regex (record draws { snowflake = n }) r db who)
          (next_id g clock)
      else finish g clock (handle_request evp_sha256 regex draws r db who)
