-- ===== src/Client/Settled/Steps.antt =====
-- Where the slots of src/bin/client/gui throw.
use wire_protocols.Prelude.{
  ℕ, zero, suc, ◌+◌, ◌≡◌, refl, subst, none, some, List, [], ◌∷◌, ◌++◌, Option-cases, Bool-cases,
  ◌⊎◌, inl, inr, get_elem?, length, true,
}
use mathlib.Core.Option
use wire_protocols.Prelude.Try.{◌>>=◌}
use wire_protocols.Models.User.{User}
use wire_protocols.Models.Message.{Message}
use wire_protocols.Models.Channel.{Channel}
use wire_protocols.Responses.{Response, success, message_sent, message_deleted, channel_created}
use wire_protocols.Client.{
  Session, add_message, remove_message, set_active_channel, get_active_channel,
  get_active_channel_messages,
}
use wire_protocols.Client.Handlers.{
  handle_response, on_create_channel_response, on_send_message_response, on_delete_message_response,
  open_new_channel,
}
use wire_protocols.Client.Windows.{
  ChatArea, App, widget_for, message_widget, add_messages_to_layout, on_active_channel_changed,
  in_active_channel, on_send_message_success, show, show_all, respond, show_new_channel,
  on_create_channel_success, on_delete_message_success,
}
use wire_protocols.Client.Settled.{
  Log, Fine, Settled, Settled-kept, FineAfter, add_message-FineAfter, remove_message-FineAfter,
  open_new_channel-Fine, open_new_channel-new,
}

module _ (s : Session) (fine : (i : ℕ) → s.open_channel ≡ some i → Fine s i) where
  layout_total :
      (u : User)
      → s.authenticated_user ≡ some u
      → (ms : Log) (a : ChatArea) → (b : ChatArea) × (add_messages_to_layout s ms a ≡ some b)
  unfolding add_messages_to_layout message_widget
  layout_total u known [] a = (a, refl)
  layout_total u known ((k, m) ∷ ms) a =
      let (b, laid) =
        layout_total u known ms
          (record a { message_layout = a.message_layout ++ (widget_for u m ∷ []) }) in
      (b, rw (known, message_widget, ◌>>=◌) laid)

  pub opened_channel :
      (i : ℕ)
      → s.open_channel ≡ some i
      → (c : Channel) × ((ms : Log) × (get_active_channel s ≡ some c)
          × (get_active_channel_messages s ≡ some ms)
          × ((u : User) × (s.authenticated_user ≡ some u)))
  unfolding get_active_channel get_active_channel_messages
  opened_channel i is =
      let ((c, there, (ms, listed)), who) = fine i is in
      let active : get_active_channel s ≡ some c = rw (is, get_active_channel) there in
      (c, (ms, active, rw (get_active_channel_messages, active) listed, who))

  pub no_channel : s.open_channel ≡ none → get_active_channel s ≡ none
  unfolding get_active_channel
  no_channel e = rw (e, get_active_channel) refl

  -- The slot of the open channel's change completes.
  pub on_active_channel_changed_total :
      (a : ChatArea) → (b : ChatArea) × (on_active_channel_changed s a ≡ some b)
  unfolding on_active_channel_changed
  on_active_channel_changed_total a = elim (Option-cases s.open_channel) [
    | inl closed ↦
        (record a { chat_title = [] }, rw (no_channel closed, on_active_channel_changed) refl)
    | inr (i, is) ↦
        let (c, (ms, active, listed, (u, known))) = opened_channel i is in
        let cleared : ChatArea = record a {
          input_enabled = true;
          chat_title = c.name;
          message_layout = [];
        } in
        let (b, laid) = layout_total u known ms cleared in
        (b, rw (active, on_active_channel_changed, listed, ◌>>=◌) laid)
  ]

  pub on_send_message_success_total :
      (m : Message) (a : ChatArea) → (b : ChatArea) × (on_send_message_success s m a ≡ some b)
  unfolding on_send_message_success in_active_channel message_widget
  on_send_message_success_total m a = elim (Option-cases s.open_channel) [
    | inl closed ↦ (a, rw (no_channel closed, in_active_channel) refl)
    | inr (i, is) ↦
        let (c, (ms, active, listed, (u, known))) = opened_channel i is in
        elim (Bool-cases (in_active_channel s m)) [
          | inl here ↦ (
            record a { message_layout = a.message_layout ++ (widget_for u m ∷ []) },
            rw (here, message_widget, known, ◌>>=◌) refl,
          )
          | inr away ↦ (a, rw away refl)
        ]
  ]

abbrev pub AppSettled : App → Type 0
AppSettled app = Settled app.session app.windows.active_chats_tab.active_chats

-- A response: its handler throws, or all completes.
abbrev pub Completes : Response → App → Type 0
Completes r app =
    (handle_response r app.session ≡ none)
    ⊎ ((app' : App) × (respond r app ≡ some app') × AppSettled app')

elem-append_one :
    (xs : List ℕ) (x row i : ℕ)
    → get_elem? (xs ++ (x ∷ [])) row ≡ some i
    → (get_elem? xs row ≡ some i) ⊎ (x ≡ i)
elem-append_one [] x zero i e = inr (Option.some-injective x i e)
elem-append_one [] x (suc row) i e = cc
elem-append_one (y ∷ xs) x zero i e = inl e
elem-append_one (y ∷ xs) x (suc row) i e = elem-append_one xs x row i e

-- After a new channel, where the list of chats has its pointer too.
opened-Settled :
    (c : Channel) (user : User) (s : Session) (chats : List ℕ)
    → Settled s chats
    → Settled (open_new_channel c user s) (chats ++ (length s.objects ∷ []))
unfolding open_new_channel set_active_channel
opened-Settled c user s chats h = record {
  opened = λ i e.
      subst (Fine (open_new_channel c user s)) (Option.some-injective (length s.objects) i e)
        (open_new_channel-new c user s);
  rows = λ row i e. elim (elem-append_one chats (length s.objects) row i e) [
    | inl old ↦ open_new_channel-Fine c user s i (h.rows row i old)
    | inr new ↦ subst (Fine (open_new_channel c user s)) new (open_new_channel-new c user s)
  ];
}

pub opened-Completes :
    (c : Channel) (app : App) → AppSettled app → Completes (channel_created (success c)) app
unfolding respond handle_response on_create_channel_response show_all show show_new_channel
    on_create_channel_success open_new_channel set_active_channel
opened-Completes c app h = elim (Option-cases app.session.authenticated_user) [
  | inl out ↦ inl (rw (out, on_create_channel_response) refl)
  | inr (user, known) ↦
      let s' = open_new_channel c user app.session in
      let w = app.windows in
      let channel = length app.session.objects in
      let settled = opened-Settled c user app.session w.active_chats_tab.active_chats h in
      let (a, shown) = on_active_channel_changed_total s' settled.opened w.chat_area in
      let after : App = record app {
        session = s';
        windows = show_new_channel (some channel) (record w { chat_area = a });
      } in
      inr
        (after, rw (known, on_create_channel_response, ◌>>=◌, show_all, show, shown) refl, settled)
]

pub sent-Completes :
    (m : Message) (app : App) → AppSettled app → Completes (message_sent (success m)) app
unfolding respond handle_response on_send_message_response show_all show
sent-Completes m app h =
    let s₁ : Session = record app.session { made = app.session.made + 1 } in
    elim (Option-cases (add_message app.session.made m s₁)) [
      | inl gone ↦ inl (rw (gone, ◌>>=◌) refl)
      | inr (s', added) ↦
          let (same, keeps) =
            subst (FineAfter s₁) added (add_message-FineAfter app.session.made m s₁) in
          let settled =
            Settled-kept app.session s' app.windows.active_chats_tab.active_chats same keeps h in
          let (a, shown) =
            on_send_message_success_total s' settled.opened m app.windows.chat_area in
          inr (
            record app { session = s'; windows = record app.windows { chat_area = a } },
            rw (added, ◌>>=◌, show_all, show, shown) refl,
            settled,
          )
    ]

pub deleted-Completes :
    (m : Message) (app : App) → AppSettled app → Completes (message_deleted (success m)) app
unfolding respond handle_response on_delete_message_response show_all show
deleted-Completes m app h =
    let s₁ : Session = record app.session { made = app.session.made + 1 } in
    elim (Option-cases (remove_message app.session.made m s₁)) [
      | inl gone ↦ inl (rw (gone, ◌>>=◌) refl)
      | inr (s', taken) ↦
          let (same, keeps) =
            subst (FineAfter s₁) taken (remove_message-FineAfter app.session.made m s₁) in
          let a = on_delete_message_success s' m app.windows.chat_area in
          inr (
            record app { session = s'; windows = record app.windows { chat_area = a } },
            rw (taken, ◌>>=◌, show_all, show) refl,
            Settled-kept app.session s' app.windows.active_chats_tab.active_chats same keeps h,
          )
    ]
