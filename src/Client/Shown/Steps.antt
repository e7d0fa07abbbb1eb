-- ===== src/Client/Shown/Steps.antt =====
-- What the chat area shows after responses, signals of the socket and actions of the user, in any
-- order.
use wire_protocols.Prelude.{
  ℕ, ◌+◌, ◌≡◌, refl, sym, false, subst, Option, none, some, List, [], ◌∙◌, map, arith, Option-cases,
  inl, inr, All, Bool-cases, get_elem?,
}
use wire_protocols.Prelude.Try.{◌>>=◌}
use wire_protocols.Wire.{Bytes}
use wire_protocols.Models.Message.{Message}
use wire_protocols.Models.Channel.{Channel}
use wire_protocols.Responses.{
  Response, success, failure, registered, logged_in, accounts_listed, account_deleted, message_sent,
  message_deleted, channel_created,
}
use wire_protocols.Client.{
  Session, new_session, add_message, set_active_channel, reset, get_active_channel,
  get_active_channel_messages,
}
use wire_protocols.Client.Handlers.{
  handle_response, on_register_account_response, on_login_response, on_list_accounts_response,
  on_delete_account_response, on_create_channel_response, on_send_message_response,
  on_delete_message_response, open_new_channel,
}
use wire_protocols.Client.Windows.{
  Validators, ChatArea, Windows, App, new_app, Effect, show, show_all, respond, reset_all,
  on_active_channel_changed, on_send_message_success, on_chat_selected, send_message, set_text,
  validate_message, is_empty, write, on_message_button_clicked, main_page, connection_page,
  authentication_page, set_login_loading, animate_page_transition, show_new_channel,
}
use wire_protocols.Client.Events
use wire_protocols.Client.Events.{Event, step, run}
use wire_protocols.Client.Events.Runs.{DoneAfter, run-DoneAfter}
use wire_protocols.Client.Shown.{
  contents, Log, messages_of, Shows, AreaAfter, GrownAfter, add_message-Grown,
  on_active_channel_changed-Shows, on_send_message_success-Shows,
}

abbrev pub AppShows : App → Type 0
AppShows app = Shows app.session app.windows.chat_area

abbrev pub AppAfter : Option App → Type 0
AppAfter none = Unit {0}
AppAfter (some app) = AppShows app

-- Any response but that of a message's deletion.
abbrev pub Undeleted : Response → Type 0
Undeleted (message_deleted (success m)) = ⊥
Undeleted _ = Unit {0}

abbrev pub UndeletedEvent : Event → Type 0
UndeletedEvent (Events.received r) = Undeleted r
UndeletedEvent _ = Unit {0}

animated : (next : ℕ) (w : Windows) → (animate_page_transition next w).chat_area ≡ w.chat_area
unfolding animate_page_transition
animated next w = ground arith

AreaAfter-some :
    (s : Session) (o : Option ChatArea) (a : ChatArea) → AreaAfter s o → o ≡ some a → Shows s a
AreaAfter-some s o a h e = subst (AreaAfter s) e h

sent-Shows :
    (m : Message) (app : App) → AppShows app → AppAfter (respond (message_sent (success m)) app)
unfolding respond handle_response on_send_message_response show_all show
sent-Shows m app h =
    let s₁ : Session = record app.session { made = app.session.made + 1 } in
    elim (Option-cases (add_message app.session.made m s₁)) [
      | inl gone ↦ rw (gone, ◌>>=◌) tt
      | inr (s', added) ↦
          let grown = subst (GrownAfter m s₁) added (add_message-Grown app.session.made m s₁) in
          elim (Option-cases (on_send_message_success s' m app.windows.chat_area)) [
            | inl thrown ↦ rw (added, ◌>>=◌, show_all, show, thrown) tt
            | inr (a, shown) ↦
                rw (added, ◌>>=◌, show_all, show, shown)
                  (AreaAfter-some s' _ a
                    (on_send_message_success-Shows m s₁ s' app.windows.chat_area grown h) shown)
          ]
    ]

opened-Shows :
    (c : Channel) (app : App) → AppShows app → AppAfter (respond (channel_created (success c)) app)
unfolding respond handle_response on_create_channel_response show_all show open_new_channel
    set_active_channel show_new_channel
opened-Shows c app h = elim (Option-cases app.session.authenticated_user) [
  | inl out ↦ rw (out, on_create_channel_response, ◌>>=◌) tt
  | inr (user, known) ↦
      let s' = open_new_channel c user app.session in
      elim (Option-cases (on_active_channel_changed s' app.windows.chat_area)) [
        | inl thrown ↦ rw (known, on_create_channel_response, ◌>>=◌, show_all, show, thrown) tt
        | inr (a, changed) ↦
            rw (known, on_create_channel_response, ◌>>=◌, show_all, show, changed)
              (AreaAfter-some s' _ a (on_active_channel_changed-Shows s' app.windows.chat_area)
                changed)
      ]
]

respond-Shows : (r : Response) (app : App) → Undeleted r → AppShows app → AppAfter (respond r app)
unfolding respond handle_response on_register_account_response on_login_response
    on_list_accounts_response on_delete_account_response on_create_channel_response
    on_send_message_response on_delete_message_response show_all show animate_page_transition
    get_active_channel get_active_channel_messages reset
respond-Shows (registered (success u)) app ok h = h
respond-Shows (registered (failure e)) app ok h = h
respond-Shows (logged_in (success u)) app ok h = λ c ms e f.
    subst (λ (a : ChatArea). (a.chat_title ≡ c.name) × (contents a ≡ messages_of ms))
      (sym (
        animated main_page
          (record app.windows { login_tab = set_login_loading false app.windows.login_tab })))
      (h c ms e f)
respond-Shows (logged_in (failure e)) app ok h = h
respond-Shows (accounts_listed (success u)) app ok h = h
respond-Shows (accounts_listed (failure e)) app ok h = h
respond-Shows (account_deleted (success u)) app ok h = λ c ms e f. cc
respond-Shows (account_deleted (failure e)) app ok h = h
respond-Shows (channel_created (success c)) app ok h = opened-Shows c app h
respond-Shows (channel_created (failure e)) app ok h = h
respond-Shows (message_sent (success m)) app ok h = sent-Shows m app h
respond-Shows (message_sent (failure e)) app ok h = h
respond-Shows (message_deleted (success m)) app ok h = elim ok [ ]
respond-Shows (message_deleted (failure e)) app ok h = h

on_chat_selected-Shows : (row : ℕ) (app : App) → AppShows app → AppAfter (on_chat_selected row app)
unfolding on_chat_selected
on_chat_selected-Shows row app h =
    elim (Option-cases (get_elem? app.windows.active_chats_tab.active_chats row)) [
      | inl missing ↦ rw (missing, on_chat_selected) h
      | inr (channel, there) ↦
          let s = set_active_channel channel app.session in
          elim (Option-cases (on_active_channel_changed s app.windows.chat_area)) [
            | inl thrown ↦ rw (there, on_chat_selected, thrown, ◌>>=◌) tt
            | inr (a, changed) ↦
                rw (there, on_chat_selected, changed, ◌>>=◌)
                  (AreaAfter-some s _ a (on_active_channel_changed-Shows s app.windows.chat_area)
                    changed)
          ]
    ]

AppAfter-quiet : (o : Option App) → AppAfter o → DoneAfter AppShows (o >>= (λ app. some (app, [])))
AppAfter-quiet none h = tt
AppAfter-quiet (some app) h = h

-- What a slot leaves of an area that it does not draw.
abbrev Undrawn : ChatArea → Option (ChatArea × List Bytes) → Type 0
Undrawn a none = Unit {0}
Undrawn a (some (b, written)) = (b.chat_title ≡ a.chat_title) × (contents b ≡ contents a)

send_message-Undrawn : (s : Session) (a : ChatArea) → Undrawn a (send_message s a)
unfolding send_message set_text validate_message
send_message-Undrawn s a = elim (Option-cases (get_active_channel s)) [
  | inl closed ↦ rw (closed, send_message) (refl, refl)
  | inr (c, is) ↦ elim (Bool-cases (is_empty a.message_input)) [
    | inl empty ↦ rw (is, send_message, empty) (refl, refl)
    | inr full ↦ elim (Option-cases s.authenticated_user) [
      | inl out ↦ rw (is, send_message, full, out, ◌>>=◌) tt
      | inr (user, known) ↦ rw (is, send_message, full, known, ◌>>=◌) (refl, refl)
    ]
  ]
]

send-Shows :
    (v : Validators) (app : App)
    → AppShows app
    → DoneAfter AppShows (step v Events.send_clicked app)
unfolding step
send-Shows v app h =
    drawn (send_message app.session app.windows.chat_area)
      (send_message-Undrawn app.session app.windows.chat_area)
  where
    drawn :
        (o : Option (ChatArea × List Bytes))
        → Undrawn app.windows.chat_area o
        → DoneAfter AppShows (
            o >>= (λ p. some (
              record app { windows = record app.windows { chat_area = p.0 } },
              map (λ b. write b) p.1,
            )))
    drawn none same = tt
    drawn (some (b, written)) (title, layout) =
        λ c ms e f. (title ∙ (h c ms e f).0, layout ∙ (h c ms e f).1)

profile-Shows :
    (v : Validators) (row : ℕ) (app : App)
    → AppShows app
    → DoneAfter AppShows (step v (Events.profile_clicked row) app)
unfolding step on_message_button_clicked
profile-Shows v row app h =
    elim (Option-cases (get_elem? app.windows.search_tab.search_results row)) [
      | inl missing ↦ rw (missing, step) h
      | inr (user, there) ↦ elim (Option-cases app.session.authenticated_user) [
        | inl out ↦ rw (there, step, out, ◌>>=◌) tt
        | inr (me, known) ↦ rw (there, step) (rw (known, ◌>>=◌) h)
      ]
    ]

step-Shows :
    (v : Validators) (e : Event) (app : App)
    → UndeletedEvent e
    → AppShows app
    → DoneAfter AppShows (step v e app)
unfolding step get_active_channel get_active_channel_messages reset_all reset set_text
    validate_message
step-Shows v (Events.received r) app ok h =
    AppAfter-quiet (respond r app) (respond-Shows r app ok h)
step-Shows v Events.socket_connected app ok h = λ c ms e f.
    subst (λ (a : ChatArea). (a.chat_title ≡ c.name) × (contents a ≡ messages_of ms))
      (sym (animated authentication_page app.windows)) (h c ms e f)
step-Shows v Events.socket_disconnected app ok h = λ c ms e f.
    subst (λ (a : ChatArea). (a.chat_title ≡ c.name) × (contents a ≡ messages_of ms))
      (sym (animated connection_page app.windows)) (h c ms e f)
step-Shows v (Events.socket_state_changed state) app ok h = h
step-Shows v (Events.host_typed text) app ok h = h
step-Shows v (Events.port_typed text) app ok h = h
step-Shows v (Events.login_name_typed text) app ok h = h
step-Shows v (Events.login_password_typed text) app ok h = h
step-Shows v (Events.name_typed text) app ok h = h
step-Shows v (Events.display_name_typed text) app ok h = h
step-Shows v (Events.password_typed text) app ok h = h
step-Shows v (Events.search_typed text) app ok h = h
step-Shows v (Events.message_typed text) app ok h = h
step-Shows v Events.connect_clicked app ok h = h
step-Shows v Events.login_clicked app ok h = h
step-Shows v Events.register_clicked app ok h = h
step-Shows v Events.search_clicked app ok h = h
step-Shows v Events.send_clicked app ok h = send-Shows v app h
step-Shows v (Events.chat_clicked row) app ok h =
    AppAfter-quiet (on_chat_selected row app) (on_chat_selected-Shows row app h)
step-Shows v (Events.delete_clicked row) app ok h = h
step-Shows v (Events.profile_clicked row) app ok h = profile-Shows v row app h
step-Shows v (Events.tab_selected tab) app ok h = h
step-Shows v (Events.sidebar_tab_selected tab) app ok h = h
step-Shows v Events.login_disconnect_clicked app ok h = λ c ms e f. cc
step-Shows v Events.registration_disconnect_clicked app ok h = h
step-Shows v Events.chat_disconnect_clicked app ok h = λ c ms e f. cc
step-Shows v (Events.account_deletion_accepted username password) app ok h = h

-- However the client got there from its start, by responses other than successful deletions of
-- messages, by signals of its socket and by actions of its user, where no handler and no slot threw:
-- if a channel is open and its messages can be asked for, then the chat area has the channel's name
-- for a title and shows exactly its messages, in their order.
pub run-Shows :
    (v : Validators) (es : List Event) (app : App) (effects : List Effect)
    → All UndeletedEvent es
    → run v es new_app ≡ some (app, effects)
    → (c : Channel) (ms : Log) → get_active_channel app.session ≡ some c
    → get_active_channel_messages app.session ≡ some ms
    → (app.windows.chat_area.chat_title ≡ c.name)
      × (contents app.windows.chat_area ≡ messages_of ms)
unfolding new_app new_session get_active_channel
run-Shows v es app effects ok e c ms is listed =
    run-DoneAfter AppShows v UndeletedEvent (step-Shows v) es new_app app effects ok
      (λ d ns f g. cc) e c ms is listed
