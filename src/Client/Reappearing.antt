-- ===== src/Client/Reappearing.antt =====
-- Deleted messages in the chat area of src/bin/client/gui/chat_area.cpp.
pub mod Selection
use wire_protocols.Prelude.{
  ℕ, ◌+◌, ◌≡◌, refl, sym, ap, ◌∙◌, subst, Option, none, some, List, [], ◌∷◌, Option-cases, inl, inr,
  All, All-Unit, get_elem?, map,
}
use mathlib.Core.Option
use wire_protocols.Prelude.Try.{◌>>=◌}
use wire_protocols.Wire.{Bytes}
use wire_protocols.Uuid.{uuid_discrete}
use wire_protocols.Models.Message.{Message}
use wire_protocols.Responses.{Response, success, message_deleted}
use wire_protocols.Database.Table.{find}
use wire_protocols.Client.{Session, new_session, set_active_channel, reset}
use wire_protocols.Client.Handlers.{Notice, handle_response}
use wire_protocols.Client.Windows.{
  Validators, ChatArea, App, Effect, new_app, respond, show_all, reset_all, on_chat_selected,
  on_active_channel_changed, on_message_button_clicked, send_message, write,
}
use wire_protocols.Client.Events
use wire_protocols.Client.Events.{Event, step, run}
use wire_protocols.Client.Events.Runs.{DoneAfter, run-DoneAfter}
use wire_protocols.Client.Deletion.{Log, Numbered, InOrder, handle_response-InOrder, deletion_keeps}

-- The numbers of the message objects are those that were given out.
abbrev pub AppNumbered : App → Type 0
AppNumbered app = Numbered app.session.made app.session.channel_messages

respond-Numbered :
    (v : Validators) (r : Response) (app : App)
    → AppNumbered app
    → DoneAfter AppNumbered (step v (Events.received r) app)
unfolding step respond
respond-Numbered v r app h = elim (Option-cases (handle_response r app.session)) [
  | inl threw ↦ rw (threw, ◌>>=◌) tt
  | inr ((s, notices), handled) ↦
      let kept = subst InOrder handled (handle_response-InOrder r app.session h) in
      elim (Option-cases (show_all notices s app.windows)) [
        | inl threw ↦ rw (handled, ◌>>=◌, threw) tt
        | inr (w, shown) ↦ rw (handled, ◌>>=◌, shown) kept
      ]
]

chat-Numbered :
    (v : Validators) (row : ℕ) (app : App)
    → AppNumbered app
    → DoneAfter AppNumbered (step v (Events.chat_clicked row) app)
unfolding step on_chat_selected set_active_channel
chat-Numbered v row app h =
    elim (Option-cases (get_elem? app.windows.active_chats_tab.active_chats row)) [
      | inl missing ↦ rw (missing, on_chat_selected, ◌>>=◌) h
      | inr (channel, there) ↦
          let s = set_active_channel channel app.session in
          elim (Option-cases (on_active_channel_changed s app.windows.chat_area)) [
            | inl threw ↦ rw (there, on_chat_selected, threw, ◌>>=◌) tt
            | inr (a, changed) ↦ rw (there, on_chat_selected, changed, ◌>>=◌) h
          ]
    ]

send-Numbered :
    (v : Validators) (app : App)
    → AppNumbered app
    → DoneAfter AppNumbered (step v Events.send_clicked app)
unfolding step
send-Numbered v app h = written (send_message app.session app.windows.chat_area)
  where
    written :
        (o : Option (ChatArea × List Bytes))
        → DoneAfter AppNumbered (
            o >>= (λ p. some (
              record app { windows = record app.windows { chat_area = p.0 } },
              map (λ b. write b) p.1,
            )))
    written none = tt
    written (some (b, bytes)) = h

profile-Numbered :
    (v : Validators) (row : ℕ) (app : App)
    → AppNumbered app
    → DoneAfter AppNumbered (step v (Events.profile_clicked row) app)
unfolding step on_message_button_clicked
profile-Numbered v row app h =
    elim (Option-cases (get_elem? app.windows.search_tab.search_results row)) [
      | inl missing ↦ rw (missing, step) h
      | inr (user, there) ↦ elim (Option-cases app.session.authenticated_user) [
        | inl out ↦ rw (there, step, out, ◌>>=◌) tt
        | inr (me, known) ↦ rw (there, step) (rw (known, ◌>>=◌) h)
      ]
    ]

step-Numbered :
    (v : Validators) (e : Event) (app : App)
    → Unit {0}
    → AppNumbered app
    → DoneAfter AppNumbered (step v e app)
unfolding step reset_all reset find
step-Numbered v (Events.received r) app any h = respond-Numbered v r app h
step-Numbered v (Events.chat_clicked row) app any h = chat-Numbered v row app h
step-Numbered v Events.send_clicked app any h = send-Numbered v app h
step-Numbered v (Events.profile_clicked row) app any h = profile-Numbered v row app h
step-Numbered v Events.login_disconnect_clicked app any h = λ cid ms e. cc
step-Numbered v Events.chat_disconnect_clicked app any h = λ cid ms e. cc
step-Numbered v e app any h = h

-- Whatever the client has done, its message objects are numbered.
pub run-AppNumbered :
    (v : Validators) (es : List Event) (app : App) (effects : List Effect)
    → run v es new_app ≡ some (app, effects)
    → AppNumbered app
unfolding new_app new_session find
run-AppNumbered v es app effects reached =
    run-DoneAfter AppNumbered v (λ e. Unit {0}) (step-Numbered v) es new_app app effects
      (All-Unit es) (λ cid ms e. cc) reached
