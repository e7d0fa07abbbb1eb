-- ===== src/Client/Events.antt =====
-- What happens to the client: responses, the signals of its socket (src/bin/client/model/tcp_client.cpp)
-- and the actions of its user (src/bin/client/gui), one after the other.
-- An event may come at any time, also from a widget that is hidden or disabled just then.
pub mod Runs
use wire_protocols.Prelude.{
  ℕ, Option, none, some, List, [], ◌∷◌, ◌++◌, map, get_elem?, if◌then◌else◌,
}
use wire_protocols.Prelude.Try.{◌>>=◌}
use wire_protocols.Wire.{Bytes}
use wire_protocols.Responses.{Response}
use wire_protocols.Client.{Session}
use wire_protocols.Client.Windows.{
  Validators, SocketState, App, Effect, write, connect_to_host, disconnect_from_host, Done, Written,
  submit_connection, submit_login, submit_registration, submit_search, set_text, send_message,
  respond, reset_all, on_chat_selected, on_message_button_clicked, on_delete_clicked,
  on_delete_account_accepted, animate_page_transition, connection_page, authentication_page,
}

pub data Event : Type 0 where
  received : Response → Event
  socket_connected socket_disconnected : Event
  socket_state_changed : SocketState → Event
  host_typed port_typed : Bytes → Event
  login_name_typed login_password_typed : Bytes → Event
  name_typed display_name_typed password_typed : Bytes → Event
  search_typed message_typed : Bytes → Event
  connect_clicked login_clicked register_clicked search_clicked send_clicked : Event
  -- Rows of the lists.
  chat_clicked delete_clicked profile_clicked : ℕ → Event
  tab_selected sidebar_tab_selected : ℕ → Event
  login_disconnect_clicked registration_disconnect_clicked chat_disconnect_clicked : Event
  account_deletion_accepted : Bytes → Bytes → Event

-- What the bytes of a slot are written to.
abbrev writes : List Bytes → List Effect
writes = map (λ p. write p)

abbrev dials : List (Bytes × ℕ) → List Effect
dials = map (λ d. connect_to_host d.0 d.1)

abbrev quiet : App → Done
quiet app = some (app, [])

-- What an event leaves of the program, and what the socket is asked for. `none`: an exception leaves
-- the slot.
unfoldable pub step : Validators → Event → App → Done
unfolding respond animate_page_transition set_text submit_connection submit_login
    submit_registration submit_search send_message on_chat_selected reset_all
    on_message_button_clicked on_delete_clicked on_delete_account_accepted
step v (received r) app = do app' ← respond r app; quiet app'
step v socket_connected app =
    quiet (record app { windows = animate_page_transition authentication_page app.windows })
step v socket_disconnected app =
    quiet (record app { windows = animate_page_transition connection_page app.windows })
step v (socket_state_changed state) app = quiet (record app { socket_state = state })
step v (host_typed text) app = quiet (record app {
  windows = record app.windows { connection = record app.windows.connection { host = text } };
})
step v (port_typed text) app = quiet (record app {
  windows = record app.windows { connection = record app.windows.connection { port = text } };
})
step v (login_name_typed text) app = quiet (record app {
  windows = record app.windows { login_tab = record app.windows.login_tab { username = text } };
})
step v (login_password_typed text) app = quiet (record app {
  windows = record app.windows { login_tab = record app.windows.login_tab { password = text } };
})
step v (name_typed text) app = quiet (record app {
  windows = record app.windows {
    registration_tab = record app.windows.registration_tab { username = text };
  };
})
step v (display_name_typed text) app = quiet (record app {
  windows = record app.windows {
    registration_tab = record app.windows.registration_tab { display_name = text };
  };
})
step v (password_typed text) app = quiet (record app {
  windows = record app.windows {
    registration_tab = record app.windows.registration_tab { password = text };
  };
})
step v (search_typed text) app = quiet (record app {
  windows = record app.windows {
    search_tab = record app.windows.search_tab { search_field = text };
  };
})
step v (message_typed text) app = quiet (record app {
  windows = record app.windows { chat_area = set_text app.session text app.windows.chat_area };
})
step v connect_clicked app =
    let (w, dialed) = submit_connection v app.socket_state app.windows.connection in
    some (record app { windows = record app.windows { connection = w } }, dials dialed)
step v login_clicked app =
    let (t, written) = submit_login v app.windows.login_tab in
    some (record app { windows = record app.windows { login_tab = t } }, writes written)
step v register_clicked app =
    let (t, written) = submit_registration v app.windows.registration_tab in
    some (record app { windows = record app.windows { registration_tab = t } }, writes written)
step v search_clicked app =
    let (t, written) = submit_search app.windows.search_tab in
    some (record app { windows = record app.windows { search_tab = t } }, writes written)
step v send_clicked app = do
  (a, written) ← send_message app.session app.windows.chat_area
  some (record app { windows = record app.windows { chat_area = a } }, writes written)
step v (chat_clicked row) app = do app' ← on_chat_selected row app; quiet app'
step v (delete_clicked row) app = some (
  app,
  elim (get_elem? app.windows.chat_area.message_layout row) [
    | none ↦ []
    | some w ↦ on_delete_clicked w
  ],
)
step v (profile_clicked row) app = elim (get_elem? app.windows.search_tab.search_results row) [
  | none ↦ quiet app
  | some user ↦ on_message_button_clicked user app
]
step v (tab_selected tab) app =
    quiet (record app { windows = record app.windows { authentication_tab = tab } })
step v (sidebar_tab_selected tab) app =
    quiet (record app { windows = record app.windows { sidebar_tab = tab } })
step v login_disconnect_clicked app = some (reset_all app, disconnect_from_host ∷ [])
step v registration_disconnect_clicked app = some (app, disconnect_from_host ∷ [])
step v chat_disconnect_clicked app = some (reset_all app, disconnect_from_host ∷ [])
step v (account_deletion_accepted username password) app =
    some (app, on_delete_account_accepted username password)

unfoldable pub run : Validators → List Event → App → Done
unfolding step
run v [] app = some (app, [])
run v (e ∷ es) app = do
  (app', effects) ← step v e app
  (last, more) ← run v es app'
  some (last, effects ++ more)
