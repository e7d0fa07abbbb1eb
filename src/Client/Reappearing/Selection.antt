-- ===== src/Client/Reappearing/Selection.antt =====
-- A chat that is chosen after the deletion of a message.
use wire_protocols.Prelude.{
  ℕ, ◌+◌, ◌≡◌, refl, sym, ap, ◌∙◌, subst, Option, none, some, List, [], ◌∷◌, Option-cases, inl, inr,
  get_elem?,
}
use mathlib.Core.Option
use wire_protocols.Prelude.Try.{◌>>=◌}
use wire_protocols.Uuid.{Uuid, uuid_discrete}
use wire_protocols.Models.Message.{Message}
use wire_protocols.Models.Channel
use wire_protocols.Models.Channel.{Channel}
use wire_protocols.Responses.{success, message_deleted}
use wire_protocols.Database.Table.{find}
use wire_protocols.Client.{
  Session, set_active_channel, remove_message, remove_message_at, get_active_channel,
}
use wire_protocols.Client.Handlers.{
  delete_message_success, handle_response, on_delete_message_response,
}
use wire_protocols.Client.Windows.{
  Validators, App, Effect, new_app, respond, show, show_all, on_chat_selected,
  on_delete_message_success,
}
use wire_protocols.Client.Events.{Event, run}
use wire_protocols.Client.Deletion.{deletion_keeps}
use wire_protocols.Client.Shown.{
  contents, Log, messages_of, AreaAfter, modified_elem, listed_under,
  on_active_channel_changed-Shows,
}
use wire_protocols.Client.Settled.{Fine, Settled-kept, FineAfter, remove_message-FineAfter}
use wire_protocols.Client.Settled.Steps.{
  AppSettled, on_active_channel_changed_total, opened_channel,
}
use wire_protocols.Client.Settled.Throws.{run-AppSettled}
use wire_protocols.Client.Reappearing.{run-AppNumbered}

-- What the area shows once a chat is chosen: the messages that the session lists for its channel.
chosen :
    (row channel : ℕ) (app after : App)
    → AppSettled app
    → get_elem? app.windows.active_chats_tab.active_chats row ≡ some channel
    → on_chat_selected row app ≡ some after
    → (c : Channel) × ((ms : Log) × (get_elem? app.session.objects channel ≡ some c)
        × (find uuid_discrete c.uid app.session.channel_messages ≡ some ms)
        × (contents after.windows.chat_area ≡ messages_of ms))
unfolding on_chat_selected set_active_channel get_active_channel
chosen row channel app after h there e =
    let s = set_active_channel channel app.session in
    let opened : (i : ℕ) → s.open_channel ≡ some i → Fine s i = λ i f.
      subst (Fine app.session) (Option.some-injective channel i f) (h.rows row channel there) in
    let (c, (ms, active, listed, who)) = opened_channel s opened channel refl in
    let (b, changed) = on_active_channel_changed_total s opened app.windows.chat_area in
    let shows =
      subst (AreaAfter s) changed (on_active_channel_changed-Shows s app.windows.chat_area) in
    let same =
      ap (λ (x : App). contents x.windows.chat_area)
        (Option.some-injective _ after (rw (there, on_chat_selected, changed, ◌>>=◌) at e)) in
    (
      c,
      (ms, active, sym (listed_under s c active) ∙ listed, sym same ∙ (shows c ms active listed).1),
    )

-- The identifiers of the channels that a call leaves.
abbrev UidsKept : Session → Option Session → Type 0
UidsKept s none = Unit {0}
UidsKept s (some s') =
    (i : ℕ) (d : Channel)
    → get_elem? s'.objects i ≡ some d
    → (c : Channel) × (get_elem? s.objects i ≡ some c) × (d.uid ≡ c.uid)

remove_message-UidsKept : (k : ℕ) (m : Message) (s : Session) → UidsKept s (remove_message k m s)
unfolding remove_message remove_message_at Channel.remove_message
remove_message-UidsKept k m s =
    elim (Option-cases (find uuid_discrete m.channel_id s.channel_messages)) [
      | inl gone ↦ rw (gone, remove_message) (λ i d e. (d, e, refl))
      | inr (ms, there) ↦ elim (Option-cases (find uuid_discrete m.channel_id s.channels)) [
        | inl lost ↦ rw (there, remove_message, lost) tt
        | inr (j, at) ↦
            rw (there, remove_message, at)
              (λ i d e.
                let (c, found, uid, name) =
                  modified_elem (Channel.remove_message m.snowflake) s.objects i j d
                    (λ c. (refl, refl)) e in
                (c, found, uid))
      ]
    ]

-- The same list is found for the channel of a row after the call.
same_layout :
    (row channel : ℕ) (app app' before after : App)
    → AppSettled app
    → AppSettled app'
    → UidsKept app.session (some app'.session)
    → ((cid : Uuid)
        → find uuid_discrete cid app'.session.channel_messages
          ≡ find uuid_discrete cid app.session.channel_messages)
    → get_elem? app.windows.active_chats_tab.active_chats row ≡ some channel
    → get_elem? app'.windows.active_chats_tab.active_chats row ≡ some channel
    → on_chat_selected row app ≡ some before
    → on_chat_selected row app' ≡ some after
    → contents after.windows.chat_area ≡ contents before.windows.chat_area
same_layout row channel app app' before after h h' uids same there there' e e' =
    let (c, (ms, is, listed, shown)) = chosen row channel app before h there e in
    let (d, (ns, is', listed', shown')) = chosen row channel app' after h' there' e' in
    let (c', found, uid) = uids channel d is' in
    let one = ap (λ (x : Channel). x.uid) (Option.some-injective c' c (sym found ∙ is)) in
    let at_c =
      subst (λ u. find uuid_discrete u app'.session.channel_messages ≡ some ns) (uid ∙ one)
        listed' in
    let equal = Option.some-injective ns ms (sym at_c ∙ (same c.uid ∙ listed)) in
    shown' ∙ (ap messages_of equal ∙ sym shown)

-- However the client got there from its start, when the response to the deletion of a message has
-- been handled and its signals shown, choosing any chat of the list shows the very messages that
-- choosing it before that response would have shown: the message is there again.
pub on_chat_selected-respond :
    (v : Validators) (es : List Event) (app app' before after : App) (effects : List Effect)
    (m : Message) (row channel : ℕ)
    → run v es new_app ≡ some (app, effects)
    → respond (message_deleted (success m)) app ≡ some app'
    → get_elem? app.windows.active_chats_tab.active_chats row ≡ some channel
    → on_chat_selected row app ≡ some before
    → on_chat_selected row app' ≡ some after
    → contents after.windows.chat_area ≡ contents before.windows.chat_area
unfolding respond handle_response on_delete_message_response show_all show
on_chat_selected-respond v es app app' before after effects m row channel reached done there e e' =
    let settled = run-AppSettled v es app effects reached in
    let s₁ : Session = record app.session { made = app.session.made + 1 } in
    elim (Option-cases (remove_message app.session.made m s₁)) [
      | inl threw ↦ let never = rw (threw, ◌>>=◌) at done in cc
      | inr (s', taken) ↦
          let (open_same, fine) =
            subst (FineAfter s₁) taken (remove_message-FineAfter app.session.made m s₁) in
          let uids = subst (UidsKept s₁) taken (remove_message-UidsKept app.session.made m s₁) in
          let handled : handle_response (message_deleted (success m)) app.session
              ≡ some (s', delete_message_success m ∷ []) =
            rw (taken, ◌>>=◌) refl in
          let (next, lists) =
            deletion_keeps m app.session s' (delete_message_success m ∷ [])
              (run-AppNumbered v es app effects reached) handled in
          let left : App = record app {
            session = s';
            windows = record app.windows {
              chat_area = on_delete_message_success s' m app.windows.chat_area;
            };
          } in
          let is_left =
            Option.some-injective left app' (rw (taken, ◌>>=◌, show_all, show) at done) in
          same_layout row channel app left before after settled
            (Settled-kept app.session s' app.windows.active_chats_tab.active_chats open_same fine
              settled)
            uids lists there there e
            (subst (λ x. on_chat_selected row x ≡ some after) (sym is_left) e')
    ]
