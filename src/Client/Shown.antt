-- ===== src/Client/Shown.antt =====
-- What the chat area of src/bin/client/gui/chat_area.cpp shows, beside the session.
pub mod Steps
use wire_protocols.Prelude.{
  ℕ, zero, suc, ◌+◌, ◌≡◌, ◌≢◌, refl, sym, ap, ◌∙◌, subst, ite, if_pos, if_neg, Option, none, some,
  List, [], ◌∷◌, ◌++◌, map, Option-cases, inl, inr, get_elem?, All, true, false, append-nil,
  append_assoc, if◌then◌else◌,
}
use mathlib.Core.Option
use wire_protocols.Prelude.Try.{◌>>=◌}
use wire_protocols.Wire.{Bytes}
use wire_protocols.Uuid.{Uuid, uuid_discrete}
use wire_protocols.Models.Message.{Message}
use wire_protocols.Models.Channel
use wire_protocols.Models.Channel.{Channel}
use wire_protocols.Database.Table.{find, update, found-update}
use wire_protocols.Client.{
  Session, modify, add_message, add_message_at, get_active_channel, get_active_channel_messages,
}
use wire_protocols.Client.Windows.{
  ChatArea, MessageWidget, widget_for, message_widget, add_messages_to_layout,
  on_active_channel_changed, in_active_channel, on_send_message_success,
}

abbrev pub Log : Type 0
Log = List (ℕ × Message)

abbrev pub messages_of : Log → List Message
messages_of = map (λ p. p.1)

-- The messages that the area shows, from the top.
abbrev pub contents : ChatArea → List Message
contents a = map (λ w. w.message) a.message_layout

contents-append_one :
    (ws : List MessageWidget) (w : MessageWidget)
    → map (λ x. x.message) (ws ++ (w ∷ [])) ≡ map (λ x. x.message) ws ++ (w.message ∷ [])
contents-append_one [] w = refl
contents-append_one (v ∷ ws) w = ap (◌∷◌ v.message) (contents-append_one ws w)

-- Where a channel is open, the area has its name for a title and its messages for widgets.
abbrev pub Shows : Session → ChatArea → Type 0
Shows s a =
    (c : Channel) (ms : Log)
    → get_active_channel s ≡ some c
    → get_active_channel_messages s ≡ some ms
    → (a.chat_title ≡ c.name) × (contents a ≡ messages_of ms)

-- What a slot leaves of the area, where it completes.
abbrev pub AreaAfter : Session → Option ChatArea → Type 0
AreaAfter s none = Unit {0}
AreaAfter s (some a) = Shows s a

messages_of-append_one :
    (ms : Log) (k : ℕ) (m : Message)
    → messages_of (ms ++ ((k, m) ∷ [])) ≡ messages_of ms ++ (m ∷ [])
messages_of-append_one [] k m = refl
messages_of-append_one (p ∷ ms) k m = ap (◌∷◌ p.1) (messages_of-append_one ms k m)

-- The area after the loop over the messages, where it completes.
abbrev Laid : ChatArea → Log → Option ChatArea → Type 0
Laid a ms none = Unit {0}
Laid a ms (some b) = (b.chat_title ≡ a.chat_title) × (contents b ≡ contents a ++ messages_of ms)

add_messages_to_layout-Laid :
    (s : Session) (ms : Log) (a : ChatArea) → Laid a ms (add_messages_to_layout s ms a)
unfolding add_messages_to_layout message_widget
add_messages_to_layout-Laid s [] a = (refl, sym (append-nil (contents a)))
add_messages_to_layout-Laid s ((k, m) ∷ ms) a = elim (Option-cases s.authenticated_user) [
  | inl out ↦ rw (out, message_widget, ◌>>=◌) tt
  | inr (user, known) ↦
      let b : ChatArea = record a {
        message_layout = a.message_layout ++ (widget_for user m ∷ []);
      } in
      rw (known, message_widget, ◌>>=◌)
        (later b (add_messages_to_layout s ms b) refl
          (unfold widget_for in contents-append_one a.message_layout (widget_for user m))
          (add_messages_to_layout-Laid s ms b))
]
  where
    later :
        (b : ChatArea) (o : Option ChatArea)
        → b.chat_title ≡ a.chat_title
        → contents b ≡ contents a ++ (m ∷ [])
        → Laid b ms o
        → Laid a ((k, m) ∷ ms) o
    later b none t l h = tt
    later b (some c) t l (ht, hl) = (
      ht ∙ t,
      hl
          ∙ (ap (λ xs. xs ++ messages_of ms) l
              ∙ append_assoc (contents a) (m ∷ []) (messages_of ms)),
    )

-- After the change of the open channel the area shows it.
pub on_active_channel_changed-Shows :
    (s : Session) (a : ChatArea) → AreaAfter s (on_active_channel_changed s a)
unfolding on_active_channel_changed
on_active_channel_changed-Shows s a = elim (Option-cases (get_active_channel s)) [
  | inl closed ↦ rw (closed, on_active_channel_changed) (λ c ms e f. cc)
  | inr (c, is) ↦ elim (Option-cases (get_active_channel_messages s)) [
    | inl gone ↦ rw (is, on_active_channel_changed, gone, ◌>>=◌) tt
    | inr (ms, listed) ↦
        rw (is, on_active_channel_changed, listed, ◌>>=◌)
          (shown c ms is listed
            (add_messages_to_layout s ms
              (record a { input_enabled = true; chat_title = c.name; message_layout = [] }))
            (add_messages_to_layout-Laid s ms
              (record a { input_enabled = true; chat_title = c.name; message_layout = [] })))
  ]
]
  where
    shown :
        (c : Channel) (ms : Log)
        → get_active_channel s ≡ some c
        → get_active_channel_messages s ≡ some ms
        → (o : Option ChatArea)
        → Laid (record a { input_enabled = true; chat_title = c.name; message_layout = [] }) ms o
        → AreaAfter s o
    shown c ms is listed none h = tt
    shown c ms is listed (some b) (title, layout) = λ d ns e f. (
      title ∙ ap (λ (x : Channel). x.name) (Option.some-injective c d (sym is ∙ e)),
      layout ∙ ap messages_of (Option.some-injective ms ns (sym listed ∙ f)),
    )

pub modified_elem :
    (f : Channel → Channel) (cs : List Channel) (i j : ℕ) (d : Channel)
    → ((c : Channel) → ((f c).uid ≡ c.uid) × ((f c).name ≡ c.name))
    → get_elem? (modify j f cs) i ≡ some d
    → (c : Channel) × (get_elem? cs i ≡ some c) × (d.uid ≡ c.uid) × (d.name ≡ c.name)
unfolding modify
modified_elem f [] i j d keeps e = cc
modified_elem f (x ∷ cs) zero zero d keeps e =
    let same = Option.some-injective (f x) d e in
    (
      x,
      refl,
      sym (ap (λ (c : Channel). c.uid) same) ∙ (keeps x).0,
      sym (ap (λ (c : Channel). c.name) same) ∙ (keeps x).1,
    )
modified_elem f (x ∷ cs) zero (suc j) d keeps e = (d, e, refl, refl)
modified_elem f (x ∷ cs) (suc i) zero d keeps e = (d, e, refl, refl)
modified_elem f (x ∷ cs) (suc i) (suc j) d keeps e = modified_elem f cs i j d keeps e

pub listed_under :
    (s : Session) (c : Channel)
    → get_active_channel s ≡ some c
    → get_active_channel_messages s ≡ find uuid_discrete c.uid s.channel_messages
unfolding get_active_channel_messages
listed_under s c e = rw (e, get_active_channel_messages) refl

-- How a message that comes changes what the session has of the open channel.
abbrev pub Grown : Message → Session → Session → Type 0
Grown m s s' =
    (d : Channel) (ms : Log)
    → get_active_channel s' ≡ some d
    → get_active_channel_messages s' ≡ some ms
    → (c : Channel) × ((old : Log) × (get_active_channel s ≡ some c)
        × (get_active_channel_messages s ≡ some old)
        × (d.name ≡ c.name)
        × (messages_of ms
            ≡ ite (uuid_discrete d.uid m.channel_id) (messages_of old ++ (m ∷ []))
                (messages_of old)))

abbrev pub GrownAfter : Message → Session → Option Session → Type 0
GrownAfter m s none = Unit {0}
GrownAfter m s (some s') = Grown m s s'

opened_in :
    (s : Session)
    → (c : Channel) → get_active_channel s ≡ some c
    → (i : ℕ) × (s.open_channel ≡ some i) × (get_elem? s.objects i ≡ some c)
unfolding get_active_channel
opened_in s c e = elim (Option-cases s.open_channel) [
  | inl closed ↦ let never = rw (closed, get_active_channel) at e in cc
  | inr (i, is) ↦ (i, is, rw (is, get_active_channel) at e)
]

-- The messages that are listed after the update of one channel's list.
grown_list :
    (k : ℕ) (m : Message) (t : List (Uuid × Log)) (u : Uuid) (ms : Log)
    → find uuid_discrete u (update uuid_discrete m.channel_id (λ ns. ns ++ ((k, m) ∷ [])) t)
      ≡ some ms
    → (old : Log) × (find uuid_discrete u t ≡ some old)
      × (messages_of ms
          ≡ ite (uuid_discrete u m.channel_id) (messages_of old ++ (m ∷ [])) (messages_of old))
grown_list k m t u ms e =
    let (old, there, same) =
      found-update uuid_discrete m.channel_id u (λ ns. ns ++ ((k, m) ∷ [])) t ms e in
    elim (uuid_discrete m.channel_id u) [
      | yes p ↦ (
        old,
        there,
        ap messages_of (same ∙ if_pos (uuid_discrete m.channel_id u) p _ _)
            ∙ messages_of-append_one old k m
            ∙ sym (if_pos (uuid_discrete u m.channel_id) (sym p) _ _),
      )
      | no p ↦ (
        old,
        there,
        ap messages_of (same ∙ if_neg (uuid_discrete m.channel_id u) p _ _)
            ∙ sym (if_neg (uuid_discrete u m.channel_id) (λ q. p (sym q)) _ _),
      )
    ]

pub add_message-Grown : (k : ℕ) (m : Message) (s : Session) → GrownAfter m s (add_message k m s)
unfolding add_message add_message_at get_active_channel Channel.add_message
add_message-Grown k m s = elim (Option-cases (find uuid_discrete m.channel_id s.channel_messages)) [
  | inl gone ↦
      rw (gone, add_message)
        (λ d ms e f.
          let listed : find uuid_discrete d.uid s.channel_messages ≡ some ms =
            sym (listed_under s d e) ∙ f in
          let apart : d.uid ≢ m.channel_id = λ p.
            let here = subst (λ u. find uuid_discrete u s.channel_messages ≡ some ms) p listed in
            cc in
          (d, (ms, e, f, refl, sym (if_neg (uuid_discrete d.uid m.channel_id) apart _ _))))
  | inr (old, there) ↦ elim (Option-cases (find uuid_discrete m.channel_id s.channels)) [
    | inl lost ↦ rw (there, add_message, lost) tt
    | inr (j, at) ↦ rw (there, add_message, at) (grown j)
  ]
]
  where
    grown :
        (j : ℕ)
        → Grown m s (record s {
          channel_messages =
              update uuid_discrete m.channel_id (λ ms. ms ++ ((k, m) ∷ [])) s.channel_messages;
          objects = modify j (Channel.add_message m.snowflake) s.objects;
        })
    grown j d ms e f =
        let s' : Session = record s {
          channel_messages =
              update uuid_discrete m.channel_id (λ ms. ms ++ ((k, m) ∷ [])) s.channel_messages;
          objects = modify j (Channel.add_message m.snowflake) s.objects;
        } in
        let (i, is, elem) = opened_in s' d e in
        let (c, found, same_uid, same_name) =
          modified_elem (Channel.add_message m.snowflake) s.objects i j d (λ c. (refl, refl))
            elem in
        let open_before : get_active_channel s ≡ some c = rw (is, get_active_channel) found in
        let (old, there, grows) =
          grown_list k m s.channel_messages d.uid ms (sym (listed_under s' d e) ∙ f) in
        let under_c =
          subst (λ u. find uuid_discrete u s.channel_messages ≡ some old) same_uid there in
        (c, (old, open_before, listed_under s c open_before ∙ under_c, same_name, grows))

-- A message that comes is added to the area where the session adds it to the open channel's list.
pub on_send_message_success-Shows :
    (m : Message) (s s' : Session) (a : ChatArea)
    → Grown m s s'
    → Shows s a
    → AreaAfter s' (on_send_message_success s' m a)
unfolding on_send_message_success in_active_channel message_widget get_active_channel_messages
on_send_message_success-Shows m s s' a grown shown = elim (Option-cases (get_active_channel s')) [
  | inl closed ↦ rw (closed, in_active_channel) (λ c ms e f. cc)
  | inr (d, is) ↦ elim (uuid_discrete d.uid m.channel_id) [
    | yes p ↦
        rw (is, in_active_channel, if_pos (uuid_discrete d.uid m.channel_id) p true false)
          (elim (Option-cases s'.authenticated_user) [
            | inl out ↦ rw (out, message_widget, ◌>>=◌) tt
            | inr (user, known) ↦
                rw (known, message_widget, ◌>>=◌)
                  (λ c ms e f.
                    let (c₀, (old, e₀, f₀, name, grows)) = grown c ms e f in
                    let (title, layout) = shown c₀ old e₀ f₀ in
                    let here =
                      ap (λ (x : Channel). x.uid) (Option.some-injective c d (sym e ∙ is)) ∙ p in
                    (
                      title ∙ sym name,
                      (unfold widget_for in
                            contents-append_one a.message_layout (widget_for user m))
                          ∙ ap (λ ns. ns ++ (m ∷ [])) layout
                          ∙ sym (grows ∙ if_pos (uuid_discrete c.uid m.channel_id) here _ _),
                    ))
          ])
    | no p ↦
        rw (is, in_active_channel, if_neg (uuid_discrete d.uid m.channel_id) p true false)
          (λ c ms e f.
            let (c₀, (old, e₀, f₀, name, grows)) = grown c ms e f in
            let (title, layout) = shown c₀ old e₀ f₀ in
            let same = ap (λ (x : Channel). x.uid) (Option.some-injective c d (sym e ∙ is)) in
            let away : c.uid ≢ m.channel_id = λ q. p (sym same ∙ q) in
            (
              title ∙ sym name,
              layout ∙ sym (grows ∙ if_neg (uuid_discrete c.uid m.channel_id) away _ _),
            ))
  ]
]
