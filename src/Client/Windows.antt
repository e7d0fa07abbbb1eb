-- ===== src/Client/Windows.antt =====
-- src/bin/client/gui: the windows of the client, beside its session and its socket. The signals of
-- the handlers reach their slots at once, and the user's actions and the socket's signals are events.
mod Forms
mod Chat
unfoldable pub use Forms.*
unfoldable pub use Chat.*
use wire_protocols.Prelude.{
  ℕ, ◌==◌, ite, Option, none, some, List, [], ◌∷◌, ◌++◌, map, Bool, true, false, codes, get_elem?,
  ltb, if◌then◌else◌,
}
use wire_protocols.Prelude.Try.{◌>>=◌}
use wire_protocols.Wire.{Bytes}
use wire_protocols.Uuid.{Uuid, uuid_discrete}
use wire_protocols.Models.User.{User}
use wire_protocols.Models.Message.{Message}
use wire_protocols.Responses.{Response}
use wire_protocols.Client.{Session, new_session, set_active_channel, reset}
use wire_protocols.Client.Requests.{create_channel, delete_account}
use wire_protocols.Client.Handlers
use wire_protocols.Client.Handlers.{Notice, handle_response}

-- `Window` and `Tab`
abbrev pub connection_page : ℕ
connection_page = 0

abbrev pub authentication_page : ℕ
authentication_page = 1

abbrev pub main_page : ℕ
main_page = 2

-- `StackedWindow` and what stands in it.
pub record Windows : Type 0 where
  pub current_index : ℕ
  pub connection : ConnectionWindow
  pub login_tab : LoginTab
  pub registration_tab : RegistrationTab
  pub authentication_tab : ℕ
  pub sidebar_tab : ℕ
  pub active_chats_tab : ActiveChatsTab
  pub search_tab : SearchTab
  pub chat_area : ChatArea

unfoldable pub new_windows : Windows
new_windows = record {
  current_index = 0;
  connection = record { host = []; port = []; loading = false };
  login_tab = record { username = []; password = []; loading = false };
  registration_tab = record { username = []; display_name = []; password = []; loading = false };
  authentication_tab = 0;
  sidebar_tab = 0;
  active_chats_tab = record { active_chats = []; current_item = none };
  search_tab = record { search_field = []; search_results = []; loading = false };
  chat_area = record {
    chat_title = [];
    message_layout = [];
    message_input = [];
    input_enabled = false;
    send_enabled = false;
  };
}

-- `StackedWindow::animatePageTransition`, less the animation.
unfoldable pub animate_page_transition : ℕ → Windows → Windows
animate_page_transition next w =
    if next == w.current_index
    then w
    else if ltb next 3
    then (record w { current_index = next })
    else w

-- `StackedWindow::reset`, with `reset` of `AuthenticationWindow`, `ChatWindow` and `ChatSidebar`.
unfoldable pub reset_windows : Session → Windows → Windows
unfolding reset_connection reset_login reset_registration reset_chats reset_search reset_area
reset_windows s w = record w {
  connection = reset_connection w.connection;
  login_tab = reset_login w.login_tab;
  registration_tab = reset_registration w.registration_tab;
  active_chats_tab = reset_chats w.active_chats_tab;
  search_tab = reset_search w.search_tab;
  chat_area = reset_area s w.chat_area;
}

-- `ActiveChatsTab::onCreateChannelSuccess`: the channel is the one that the handler has just opened.
unfoldable pub show_new_channel : Option ℕ → Windows → Windows
unfolding on_create_channel_success
show_new_channel none w = w
show_new_channel (some channel) w = record w {
  active_chats_tab = on_create_channel_success channel w.active_chats_tab;
}

-- `RegistrationTab::onRegistrationSuccess`
unfoldable pub on_registration_success : Windows → Windows
unfolding set_registration_loading
on_registration_success w = record w {
  registration_tab = set_registration_loading false w.registration_tab;
  authentication_tab = 0;
}

-- `RegistrationTab::onRegistrationFailure`
unfoldable pub on_registration_failure : Windows → Windows
unfolding set_registration_loading
on_registration_failure w = record w {
  registration_tab = set_registration_loading false w.registration_tab;
}

-- `LoginTab::onLoginSuccess`
unfoldable pub on_login_success : Windows → Windows
unfolding set_login_loading animate_page_transition
on_login_success w =
    animate_page_transition main_page (record w { login_tab = set_login_loading false w.login_tab })

-- `LoginTab::onLoginFailure`
unfoldable pub on_login_failure : Windows → Windows
unfolding set_login_loading
on_login_failure w = record w { login_tab = set_login_loading false w.login_tab }

-- `SearchTab::onSearchFailure`
unfoldable pub on_search_failure : Windows → Windows
unfolding set_search_loading
on_search_failure w = record w { search_tab = set_search_loading false w.search_tab }

-- What the slots do with a signal, at the session that the handler leaves: it has made all its
-- changes when it emits. `none`: an exception leaves a slot.
unfoldable pub show : Notice → Session → Windows → Option Windows
unfolding animate_page_transition reset_windows show_new_channel on_registration_success
    on_registration_failure on_login_success on_login_failure on_search_success on_search_failure
    on_active_channel_changed on_send_message_success on_delete_message_success
show Handlers.registration_success s w = some (on_registration_success w)
show (Handlers.registration_failure e) s w = some (on_registration_failure w)
show Handlers.login_success s w = some (on_login_success w)
show (Handlers.login_failure e) s w = some (on_login_failure w)
show (Handlers.search_success users) s w =
    some (record w { search_tab = on_search_success users w.search_tab })
show (Handlers.search_failure e) s w = some (on_search_failure w)
show Handlers.update_active_channel s w = do
  area ← on_active_channel_changed s w.chat_area
  some (record w { chat_area = area })
show (Handlers.create_channel_success c) s w = some (show_new_channel s.open_channel w)
show (Handlers.create_channel_failure e) s w = some w
show (Handlers.send_message_success m) s w = do
  area ← on_send_message_success s m w.chat_area
  some (record w { chat_area = area })
show (Handlers.send_message_failure e) s w = some w
show (Handlers.delete_message_success m) s w =
    some (record w { chat_area = on_delete_message_success s m w.chat_area })
show (Handlers.delete_message_failure e) s w = some w
show Handlers.window_reset s w = some (reset_windows s w)
show Handlers.authentication_page s w = some (animate_page_transition authentication_page w)
show Handlers.delete_account_success s w = some w
show (Handlers.delete_account_failure e) s w = some w

unfoldable pub show_all : List Notice → Session → Windows → Option Windows
unfolding show
show_all [] s w = some w
show_all (n ∷ ns) s w = do w' ← show n s w; show_all ns s w'

-- The program: its session, its windows, and the state of its socket.
pub record App : Type 0 where
  pub session : Session
  pub windows : Windows
  pub socket_state : SocketState

unfoldable pub new_app : App
unfolding new_session new_windows
new_app = record { session = new_session; windows = new_windows; socket_state = unconnected }

-- A response: its handler, and the slots of its signals.
unfoldable pub respond : Response → App → Option App
unfolding handle_response show_all
respond r app = do
  (s, notices) ← handle_response r app.session
  w ← show_all notices s app.windows
  some (record app { session = s; windows = w })

-- What the socket is asked for.
pub data Effect : Type 0 where
  write : Bytes → Effect
  connect_to_host : Bytes → ℕ → Effect
  disconnect_from_host : Effect

abbrev pub Done : Type 0
Done = Option (App × List Effect)

-- `session.reset()`, with the windows.
unfoldable pub reset_all : App → App
unfolding reset reset_windows
reset_all app =
    let s = reset app.session in record app { session = s; windows = reset_windows s app.windows }

-- `ActiveChatsTab::onChatSelected` of the item in a row, and `Session::set_active_channel` with the
-- slot of its signal.
unfoldable pub on_chat_selected : ℕ → App → Option App
unfolding set_active_channel on_active_channel_changed
on_chat_selected row app =
    let w = app.windows in
    elim (get_elem? w.active_chats_tab.active_chats row) [
      | none ↦ some app
      | some channel ↦
          let s = set_active_channel channel app.session in
          on_active_channel_changed s w.chat_area >>= λ area. some (record app {
            session = s;
            windows = record w {
              chat_area = area;
              active_chats_tab = record w.active_chats_tab { current_item = some channel };
            };
          })
    ]

-- `ProfileWidget::onMessageButtonClicked`. `none`: `authenticated_user.value()` throws.
unfoldable pub on_message_button_clicked : User → App → Done
on_message_button_clicked user app = do
  me ← app.session.authenticated_user
  some (
    record app { windows = record app.windows { sidebar_tab = 0 } },
    write (
          create_channel (me.display_name ++ (codes ", " ++ user.display_name))
            (me.uid ∷ user.uid ∷ []))
        ∷ [],
  )

-- The button of a message's widget, where it has one.
unfoldable pub on_delete_clicked : MessageWidget → List Effect
unfolding click_delete
on_delete_clicked w =
    if w.has_delete_button then (map (λ p. write p) (click_delete w.message)) else []

-- The dialog of `ChatWindow::onDeleteAccount`, once it is accepted.
unfoldable pub on_delete_account_accepted : Bytes → Bytes → List Effect
on_delete_account_accepted username password =
    if is_empty username
    then []
    else if is_empty password
    then []
    else write (delete_account username password) ∷ []
