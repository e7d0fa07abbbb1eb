-- ===== src/Client/Windows/Chat.antt =====
-- The chat: src/bin/client/gui/chat_area.cpp, active_chats_tab.cpp and components/message_widget.cpp.
-- Widgets are listed by what they show; sizes and scrolling are left out, and so is the limit of the
-- input, `setMaxLength(255)`: the input may hold any text.
use wire_protocols.Prelude.{
  ℕ, ◌==◌, ite, Option, none, some, List, [], ◌∷◌, ◌++◌, Bool, true, false, not, ◌&&◌,
  if◌then◌else◌,
}
use wire_protocols.Prelude.Try.{◌>>=◌}
use wire_protocols.Wire.{Bytes}
use wire_protocols.Uuid.{uuid_discrete}
use wire_protocols.Models.User.{User}
use wire_protocols.Models.Message.{Message}
use wire_protocols.Client.{Session, get_active_channel, get_active_channel_messages}
use wire_protocols.Client.Requests.{send_text_message, delete_message}

-- `MessageWidget`: its message, and whether it has the button that deletes the message.
pub record MessageWidget : Type 0 where
  pub message : Message
  pub has_delete_button : Bool

pub record ChatArea : Type 0 where
  pub chat_title : Bytes
  -- The widgets in the layout, from the top.
  pub message_layout : List MessageWidget
  pub message_input : Bytes
  pub input_enabled : Bool
  pub send_enabled : Bool

abbrev pub is_empty : Bytes → Bool
is_empty [] = true
is_empty (c ∷ text) = false

abbrev pub has_value {ℓ} : {A : Type ℓ} → Option A → Bool
has_value none = false
has_value (some a) = true

-- `ChatArea::validateMessage`
unfoldable pub validate_message : Session → ChatArea → ChatArea
unfolding get_active_channel
validate_message s a = record a {
  send_enabled = has_value (get_active_channel s) && not (is_empty a.message_input);
}

-- The text of the input changes, and `textChanged` is emitted.
unfoldable pub set_text : Session → Bytes → ChatArea → ChatArea
unfolding validate_message
set_text s text a = validate_message s (record a { message_input = text })

-- `ChatArea::sendMessage`, with what it writes. `none`: `authenticated_user.value()` throws.
unfoldable pub send_message : Session → ChatArea → Option (ChatArea × List Bytes)
unfolding get_active_channel set_text
send_message s a = elim (get_active_channel s) [
  | none ↦ some (a, [])
  | some channel ↦
      let packet = (do
        user ← s.authenticated_user
        some (set_text s [] a, send_text_message channel.uid user.uid a.message_input ∷ [])) in
      if is_empty a.message_input then some (a, []) else packet
]

-- The widget that the user gets for a message: one's own have the button, whoever is logged in later.
unfoldable pub widget_for : User → Message → MessageWidget
widget_for user m = record {
  message = m;
  has_delete_button = ite (uuid_discrete m.sender_id user.uid) true false;
}

-- `MessageWidget(message)`. `none`: `authenticated_user.value()` throws.
unfoldable pub message_widget : Session → Message → Option MessageWidget
unfolding widget_for
message_widget s m = elim s.authenticated_user [
  | none ↦ none
  | some user ↦ some (widget_for user m)
]

-- `ChatArea::addMessageToLayout`, for each message in turn.
unfoldable pub add_messages_to_layout : Session → List (ℕ × Message) → ChatArea → Option ChatArea
unfolding message_widget
add_messages_to_layout s [] a = some a
add_messages_to_layout s ((object, m) ∷ ms) a = do
  widget ← message_widget s m
  add_messages_to_layout s ms (record a { message_layout = a.message_layout ++ (widget ∷ []) })

-- `ChatArea::onActiveChannelChanged`
unfoldable pub on_active_channel_changed : Session → ChatArea → Option ChatArea
unfolding get_active_channel get_active_channel_messages add_messages_to_layout
on_active_channel_changed s a = elim (get_active_channel s) [
  | none ↦ some (record a { chat_title = [] })
  | some channel ↦ do
    messages ← get_active_channel_messages s
    add_messages_to_layout s messages
        (record a { input_enabled = true; chat_title = channel.name; message_layout = [] })
]

-- Whether the open channel is that of the message.
unfoldable pub in_active_channel : Session → Message → Bool
unfolding get_active_channel
in_active_channel s m = elim (get_active_channel s) [
  | none ↦ false
  | some channel ↦ ite (uuid_discrete channel.uid m.channel_id) true false
]

-- `ChatArea::onSendMessageSuccess`
unfoldable pub on_send_message_success : Session → Message → ChatArea → Option ChatArea
unfolding message_widget in_active_channel
on_send_message_success s m a =
    let shown = (do
      widget ← message_widget s m
      some (record a { message_layout = a.message_layout ++ (widget ∷ []) })) in
    if in_active_channel s m then shown else some a

-- The loop that removes the first widget with the snowflake.
unfoldable pub remove_widget : ℕ → List MessageWidget → List MessageWidget
remove_widget snowflake [] = []
remove_widget snowflake (w ∷ ws) =
    let rest = remove_widget snowflake ws in
    if w.message.snowflake == snowflake then ws else w ∷ rest

-- `ChatArea::onDeleteMessageSuccess`
unfoldable pub on_delete_message_success : Session → Message → ChatArea → ChatArea
unfolding in_active_channel remove_widget
on_delete_message_success s m a =
    if in_active_channel s m
    then (record a { message_layout = remove_widget m.snowflake a.message_layout })
    else a

-- `ChatArea::reset`: the session is reset by then. The layout stays.
unfoldable pub reset_area : Session → ChatArea → ChatArea
unfolding set_text
reset_area s a = record (set_text s [] (record a { input_enabled = false })) {
  send_enabled = false;
  chat_title = [];
}

-- `MessageWidget::deleteMessage`
unfoldable pub click_delete : Message → List Bytes
click_delete m = delete_message m ∷ []

-- `ActiveChatsTab`: the channels of the widgets, which are shared objects, and the current item.
pub record ActiveChatsTab : Type 0 where
  pub active_chats : List ℕ
  pub current_item : Option ℕ

-- `ActiveChatsTab::onCreateChannelSuccess`
unfoldable pub on_create_channel_success : ℕ → ActiveChatsTab → ActiveChatsTab
on_create_channel_success channel t = record {
  active_chats = t.active_chats ++ (channel ∷ []);
  current_item = some channel;
}

-- `ActiveChatsTab::reset`
unfoldable pub reset_chats : ActiveChatsTab → ActiveChatsTab
reset_chats t = record { active_chats = []; current_item = none }
