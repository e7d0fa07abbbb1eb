-- ===== src/Client/Windows/Forms.antt =====
-- The windows with texts to submit: src/bin/client/gui/connection_window.cpp, login_tab.cpp,
-- registration_tab.cpp and search_tab.cpp. The texts are held as the UTF-8 bytes of `toStdString`.
use wire_protocols.Prelude.{ℕ, Bool, true, false, not, ◌||◌, List, [], ◌∷◌, if◌then◌else◌}
use wire_protocols.Wire.{Bytes, u16}
use wire_protocols.Models.User.{User}
use wire_protocols.Client.Requests.{register_user, login_user, search_accounts}

-- `QValidator::State`
pub data Acceptance : Type 0 where
  invalid intermediate acceptable : Acceptance

-- The validators of Qt that the windows make: of one word (`^\S+$`), and of a port.
pub record Validators : Type 0 where
  pub word : Bytes → Acceptance
  pub port : Bytes → Acceptance
  -- `QString::toUInt`
  pub to_uint : Bytes → ℕ

-- `validate_text`, less the colour of the border: only `Intermediate` is refused.
unfoldable pub validate_text : (Bytes → Acceptance) → Bytes → Bool
validate_text validate text = elim (validate text) [ intermediate ↦ false | _ ↦ true ]

-- The inputs, and whether the spinner is shown in their place.
pub record ConnectionWindow : Type 0 where
  pub host : Bytes
  pub port : Bytes
  pub loading : Bool

pub record LoginTab : Type 0 where
  pub username : Bytes
  pub password : Bytes
  pub loading : Bool

pub record RegistrationTab : Type 0 where
  pub username : Bytes
  pub display_name : Bytes
  pub password : Bytes
  pub loading : Bool

pub record SearchTab : Type 0 where
  pub search_field : Bytes
  pub search_results : List User
  pub loading : Bool

-- What a slot leaves of its window, and what the client writes to its socket.
abbrev pub Written : Type 0 → Type 0
Written W = W × List Bytes

-- `QAbstractSocket::SocketState`
pub data SocketState : Type 0 where
  unconnected host_lookup connecting connected bound listening closing : SocketState

-- `TcpClient::connectToServer`: the calls of `connectToHost`.
unfoldable pub connect_to_server : SocketState → Bytes → ℕ → List (Bytes × ℕ)
connect_to_server connected host port = []
connect_to_server connecting host port = []
connect_to_server _ host port = (host, port) ∷ []

-- `ConnectionWindow::set_loading`
unfoldable pub set_connection_loading : Bool → ConnectionWindow → ConnectionWindow
set_connection_loading is_loading w = record w { loading = is_loading }

-- `ConnectionWindow::reset`
unfoldable pub reset_connection : ConnectionWindow → ConnectionWindow
unfolding set_connection_loading
reset_connection w = set_connection_loading false (record w { host = []; port = [] })

-- `ConnectionWindow::on_submit`, with the calls of `connectToHost`.
unfoldable pub submit_connection :
    Validators → SocketState → ConnectionWindow → ConnectionWindow × List (Bytes × ℕ)
unfolding validate_text connect_to_server set_connection_loading
submit_connection v state w =
    let loading = set_connection_loading true w in
    let is_valid_hostname = validate_text v.word loading.host in
    let is_valid_port = validate_text v.port loading.port in
    if not is_valid_hostname || not is_valid_port
    then (set_connection_loading false loading, [])
    else (
      set_connection_loading false loading,
      connect_to_server state loading.host (u16 (v.to_uint loading.port)),
    )

-- `LoginTab::set_loading`
unfoldable pub set_login_loading : Bool → LoginTab → LoginTab
set_login_loading is_loading t = record t { loading = is_loading }

-- `LoginTab::reset`
unfoldable pub reset_login : LoginTab → LoginTab
unfolding set_login_loading
reset_login t = set_login_loading false (record t { username = []; password = [] })

-- `LoginTab::on_submit`
unfoldable pub submit_login : Validators → LoginTab → Written LoginTab
unfolding validate_text set_login_loading
submit_login v t =
    let is_valid_username = validate_text v.word t.username in
    let is_valid_password = validate_text v.word t.password in
    if not is_valid_username || not is_valid_password
    then (t, [])
    else (set_login_loading true t, login_user t.username t.password ∷ [])

-- `RegistrationTab::set_loading`
unfoldable pub set_registration_loading : Bool → RegistrationTab → RegistrationTab
set_registration_loading is_loading t = record t { loading = is_loading }

-- `RegistrationTab::reset`
unfoldable pub reset_registration : RegistrationTab → RegistrationTab
unfolding set_registration_loading
reset_registration t =
    set_registration_loading false (record t { username = []; display_name = []; password = [] })

-- `RegistrationTab::on_submit`
unfoldable pub submit_registration : Validators → RegistrationTab → Written RegistrationTab
unfolding validate_text set_registration_loading
submit_registration v t =
    let is_valid_username = validate_text v.word t.username in
    let is_valid_display_name = validate_text v.word t.display_name in
    let is_valid_password = validate_text v.word t.password in
    if not is_valid_username || (not is_valid_display_name || not is_valid_password)
    then (t, [])
    else (set_registration_loading true t, register_user t.username t.display_name t.password ∷ [])

-- `SearchTab::set_loading`
unfoldable pub set_search_loading : Bool → SearchTab → SearchTab
set_search_loading loading t = record t { loading = loading }

-- `SearchTab::search`
unfoldable pub submit_search : SearchTab → Written SearchTab
unfolding set_search_loading
submit_search t = (set_search_loading true t, search_accounts t.search_field ∷ [])

-- `SearchTab::onSearchSuccess`
unfoldable pub on_search_success : List User → SearchTab → SearchTab
unfolding set_search_loading
on_search_success accounts t = record (set_search_loading false t) { search_results = accounts }

-- `SearchTab::reset`
unfoldable pub reset_search : SearchTab → SearchTab
unfolding set_search_loading
reset_search t = set_search_loading false (record t { search_field = []; search_results = [] })
