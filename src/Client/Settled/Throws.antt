-- ===== src/Client/Settled/Throws.antt =====
-- Which events of the client throw.
use wire_protocols.Prelude.{
  ℕ, ◌≡◌, refl, sym, subst, Option, none, some, List, [], ◌∷◌, ◌++◌, Option-cases, Bool-cases, ◌⊎◌,
  inl, inr, get_elem?, map, All-Unit, false, arith, codes,
}
use mathlib.Core.Option
use wire_protocols.Prelude.Try.{◌>>=◌}
use wire_protocols.Wire.{Bytes}
use wire_protocols.Responses.{
  Response, success, failure, registered, logged_in, accounts_listed, account_deleted, message_sent,
  message_deleted, channel_created,
}
use wire_protocols.Client.{Session, new_session, set_active_channel, reset}
use wire_protocols.Client.Handlers.{
  handle_response, on_register_account_response, on_login_response, on_list_accounts_response,
  on_delete_account_response, on_create_channel_response, on_send_message_response,
  on_delete_message_response,
}
use wire_protocols.Client.Requests.{create_channel}
use wire_protocols.Client.Windows.{
  Validators, ChatArea, Windows, App, Effect, Done, new_app, new_windows, respond, show, show_all,
  reset_all, reset_windows, reset_chats, animate_page_transition, on_chat_selected,
  on_message_button_clicked, send_message, is_empty, main_page, connection_page,
  authentication_page, set_login_loading, write,
}
use wire_protocols.Client.Events
use wire_protocols.Client.Events.{Event, step, run}
use wire_protocols.Client.Events.Runs.{DoneAfter, run-DoneAfter}
use wire_protocols.Client.Settled.{Fine, Settled, Settled-kept}
use wire_protocols.Client.Settled.Steps.{
  AppSettled, Completes, opened-Completes, sent-Completes, deleted-Completes, opened_channel,
  no_channel, on_active_channel_changed_total,
}

-- The causes of an exception: the response's handler throws, or the message button of a profile is
-- clicked with no user logged in.
abbrev pub Throws : Event → App → Type 0
Throws (Events.received r) app = handle_response r app.session ≡ none
Throws (Events.profile_clicked row) app = app.session.authenticated_user ≡ none
Throws _ app = ⊥

animated :
    (next : ℕ) (w : Windows)
    → (animate_page_transition next w).active_chats_tab ≡ w.active_chats_tab
unfolding animate_page_transition
animated next w = ground arith

animated-Settled :
    (s : Session) (next : ℕ) (w : Windows)
    → Settled s w.active_chats_tab.active_chats
    → Settled s (animate_page_transition next w).active_chats_tab.active_chats
animated-Settled s next w h = rw (animated next w) h

reset-Settled : (app : App) → AppSettled (reset_all app)
unfolding reset_all reset reset_windows reset_chats
reset-Settled app = record { opened = λ i e. cc; rows = λ row i e. cc }

respond-Completes : (r : Response) (app : App) → AppSettled app → Completes r app
unfolding respond handle_response on_register_account_response on_login_response
    on_list_accounts_response on_delete_account_response on_create_channel_response
    on_send_message_response on_delete_message_response show_all show reset reset_windows
    reset_chats reset_all
respond-Completes (registered (success u)) app h = inr (_, refl, h)
respond-Completes (registered (failure e)) app h = inr (_, refl, h)
respond-Completes (logged_in (success u)) app h = inr (
  _,
  refl,
  animated-Settled (record app.session { authenticated_user = some u }) main_page
      (record app.windows { login_tab = set_login_loading false app.windows.login_tab })
      (Settled-kept app.session (record app.session { authenticated_user = some u })
        app.windows.active_chats_tab.active_chats refl (λ i (there, who). (there, (u, refl))) h),
)
respond-Completes (logged_in (failure e)) app h = inr (_, refl, h)
respond-Completes (accounts_listed (success u)) app h = inr (_, refl, h)
respond-Completes (accounts_listed (failure e)) app h = inr (_, refl, h)
respond-Completes (account_deleted (success u)) app h = inr (
  _,
  refl,
  animated-Settled (reset app.session) authentication_page
      (reset_windows (reset app.session) app.windows) (reset-Settled app),
)
respond-Completes (account_deleted (failure e)) app h = inr (_, refl, h)
respond-Completes (channel_created (success c)) app h = opened-Completes c app h
respond-Completes (channel_created (failure e)) app h = inr (_, refl, h)
respond-Completes (message_sent (success m)) app h = sent-Completes m app h
respond-Completes (message_sent (failure e)) app h = inr (_, refl, h)
respond-Completes (message_deleted (success m)) app h = deleted-Completes m app h
respond-Completes (message_deleted (failure e)) app h = inr (_, refl, h)

-- A step completes in a settled state.
abbrev Went : Done → Type 0
Went o = (app' : App) × ((effects : List Effect) × (o ≡ some (app', effects)) × AppSettled app')

chat-Went :
    (row : ℕ) (app : App)
    → AppSettled app
    → Went (on_chat_selected row app >>= (λ app'. some (app', [])))
unfolding on_chat_selected set_active_channel
chat-Went row app h =
    let w = app.windows in
    elim (Option-cases (get_elem? w.active_chats_tab.active_chats row)) [
      | inl missing ↦ (app, ([], rw (missing, on_chat_selected, ◌>>=◌) refl, h))
      | inr (channel, there) ↦
          let s = set_active_channel channel app.session in
          let settled : Settled s w.active_chats_tab.active_chats = record {
            opened = λ i e.
                subst (Fine app.session) (Option.some-injective channel i e)
                  (h.rows row channel there);
            rows = h.rows;
          } in
          let (a, changed) = on_active_channel_changed_total s settled.opened w.chat_area in
          let after : App = record app {
            session = s;
            windows = record w {
              chat_area = a;
              active_chats_tab = record w.active_chats_tab { current_item = some channel };
            };
          } in
          (after, ([], rw (there, on_chat_selected, changed, ◌>>=◌) refl, settled))
    ]

abbrev IsSome : {A : Type 0} → Option A → Type 0
IsSome none = ⊥
IsSome (some a) = Unit {0}

-- The slot of the send button completes.
send_message-IsSome :
    (s : Session) (a : ChatArea)
    → ((i : ℕ) → s.open_channel ≡ some i → Fine s i)
    → IsSome (send_message s a)
unfolding send_message
send_message-IsSome s a fine = elim (Option-cases s.open_channel) [
  | inl closed ↦ rw (no_channel s fine closed, send_message) tt
  | inr (i, is) ↦
      let (c, (ms, active, listed, (u, known))) = opened_channel s fine i is in
      elim (Bool-cases (is_empty a.message_input)) [
        | inl empty ↦ rw (active, send_message, empty) tt
        | inr full ↦ rw (active, send_message, full, known, ◌>>=◌) tt
      ]
]

send-Went : (v : Validators) (app : App) → AppSettled app → Went (step v Events.send_clicked app)
unfolding step
send-Went v app h =
    written (send_message app.session app.windows.chat_area)
      (send_message-IsSome app.session app.windows.chat_area h.opened)
  where
    written :
        (o : Option (ChatArea × List Bytes))
        → IsSome o
        → Went (
            o >>= (λ p. some (
              record app { windows = record app.windows { chat_area = p.0 } },
              map (λ b. write b) p.1,
            )))
    written none empty = elim empty [ ]
    written (some (b, bytes)) there = (
      record app { windows = record app.windows { chat_area = b } },
      (map (λ p. write p) bytes, refl, h),
    )

-- An event throws for one of the two causes, or completes.
abbrev Outcome : Validators → Event → App → Type 0
Outcome v e app = (Throws e app × (step v e app ≡ none)) ⊎ Went (step v e app)

profile-Outcome :
    (v : Validators) (row : ℕ) (app : App)
    → AppSettled app
    → Outcome v (Events.profile_clicked row) app
unfolding step on_message_button_clicked
profile-Outcome v row app h =
    elim (Option-cases (get_elem? app.windows.search_tab.search_results row)) [
      | inl missing ↦ inr (app, ([], rw (missing, step) refl, h))
      | inr (user, there) ↦ elim (Option-cases app.session.authenticated_user) [
        | inl out ↦ inl (out, rw (there, step) (rw (out, ◌>>=◌) refl))
        | inr (me, known) ↦
            let asked =
              write (
                create_channel (me.display_name ++ (codes ", " ++ user.display_name))
                  (me.uid ∷ user.uid ∷ []))
              ∷ [] in
            inr (
              record app { windows = record app.windows { sidebar_tab = 0 } },
              (asked, rw (there, step) (rw (known, ◌>>=◌) refl), h),
            )
      ]
    ]

response-Outcome :
    (v : Validators) (r : Response) (app : App) → AppSettled app → Outcome v (Events.received r) app
unfolding step respond
response-Outcome v r app h = elim (respond-Completes r app h) [
  | inl threw ↦ inl (threw, rw (threw, ◌>>=◌) refl)
  | inr (app', done, settled) ↦ inr (app', ([], rw (done, ◌>>=◌) refl, settled))
]

step-Outcome : (v : Validators) (e : Event) (app : App) → AppSettled app → Outcome v e app
unfolding step
step-Outcome v (Events.received r) app h = response-Outcome v r app h
step-Outcome v Events.socket_connected app h =
    inr (_, (_, refl, animated-Settled app.session authentication_page app.windows h))
step-Outcome v Events.socket_disconnected app h =
    inr (_, (_, refl, animated-Settled app.session connection_page app.windows h))
step-Outcome v (Events.chat_clicked row) app h = inr (chat-Went row app h)
step-Outcome v Events.send_clicked app h = inr (send-Went v app h)
step-Outcome v (Events.profile_clicked row) app h = profile-Outcome v row app h
step-Outcome v Events.login_disconnect_clicked app h = inr (_, (_, refl, reset-Settled app))
step-Outcome v Events.chat_disconnect_clicked app h = inr (_, (_, refl, reset-Settled app))
step-Outcome v e app h = inr (_, (_, refl, h))

step-DoneAfter :
    (v : Validators) (e : Event) (app : App)
    → Unit {0}
    → AppSettled app
    → DoneAfter AppSettled (step v e app)
step-DoneAfter v e app any h = elim (step-Outcome v e app h) [
  | inl (cause, threw) ↦ subst (DoneAfter AppSettled) (sym threw) tt
  | inr (after, (asked, done, settled)) ↦ subst (DoneAfter AppSettled) (sym done) settled
]

new_app-Settled : AppSettled new_app
unfolding new_app new_session new_windows
new_app-Settled = record { opened = λ i e. cc; rows = λ row i e. cc }

-- Whatever the client has done is settled.
pub run-AppSettled :
    (v : Validators) (es : List Event) (app : App) (effects : List Effect)
    → run v es new_app ≡ some (app, effects)
    → AppSettled app
run-AppSettled v es app effects reached =
    run-DoneAfter AppSettled v (λ e. Unit {0}) (step-DoneAfter v) es new_app app effects
      (All-Unit es) new_app-Settled reached

-- However the client got there from its start, by responses of any kind, by signals of its socket
-- and by actions of its user, without an exception so far: an event throws only if it is a response
-- whose handler throws, or a click on the message button of a profile while no user is logged in. No
-- slot of a handler's signals throws, nor does the choice of a chat or the sending of a text.
pub step-Throws :
    (v : Validators) (es : List Event) (app : App) (effects : List Effect)
    → run v es new_app ≡ some (app, effects)
    → (e : Event) → step v e app ≡ none
    → Throws e app
step-Throws v es app effects reached e threw =
    elim (step-Outcome v e app (run-AppSettled v es app effects reached)) [
      | inl (cause, _) ↦ cause
      | inr (after, (asked, done, settled)) ↦ cc
    ]
