-- ===== src/Server/Throws.antt =====
-- When a request of src/bin/server/model/message_handlers.cpp ends by an exception.
use wire_protocols.Prelude.{◌≡◌, ◌⊎◌, Option, none, some, List, [], ◌∷◌, false}
use mathlib.Core.Option
use wire_protocols.Wire.{Bytes}
use wire_protocols.Uuid.{Uuid}
use wire_protocols.Requests.{Request, login, send_message, LoginMessage, SendMessageMessage}
use wire_protocols.Models.Channel.{Channel}
use wire_protocols.Responses.{Response}
use wire_protocols.Json.{Library}
use wire_protocols.Json.Responses.{response_to_json}
use wire_protocols.Database.{Database, find_channel, get_uid_from_username}
use wire_protocols.Snowflake.Backwards.{Backwards}
use wire_protocols.Server.{Step, Draws, Regex, handle_request}
use wire_protocols.Server.Drawing.{all_printed}

-- A login, and no user has its name.
abbrev pub UnknownLogin : Request → Database → Type 0
UnknownLogin r db =
    (m : LoginMessage) × (r ≡ login m) × (get_uid_from_username m.username db ≡ none)

-- A message to a channel that is there.
abbrev pub Deliverable : Request → Database → Type 0
Deliverable r db =
    (m : SendMessageMessage) × (c : Channel) × (r ≡ send_message m)
    × (find_channel m.channel_uid db ≡ some c)

-- `to_json` of one of the responses throws.
abbrev pub Unloggable : Library → List Response → Type 0
Unloggable L [] = ⊥
Unloggable L (r ∷ rs) = (response_to_json L r ≡ none) ⊎ Unloggable L rs

module _ (evp_sha256 : Bytes → Bytes) (regex : Regex) where
  module _ (L : Library) where
    -- The step writes a response that cannot be logged.
    abbrev Unprinted : Draws → Request → Database → Option Uuid → Type 0
    Unprinted draws r db who =
        (st : Step) × (handle_request evp_sha256 regex draws r db who ≡ some st)
        × (all_printed L st.written ≡ false)

    -- The handler completes, and `to_json` of one of the responses that it writes throws.
    abbrev pub Unlogged : Draws → Request → Database → Option Uuid → Type 0
    Unlogged draws r db who =
        (st : Step) × (handle_request evp_sha256 regex draws r db who ≡ some st)
        × Unloggable L st.written
