-- ===== src/Client/View.antt =====
-- What the session shows of each channel, and how a response changes it.
use wire_protocols.Prelude.{
  ℕ, ◌+◌, ◌≡◌, ◌≢◌, refl, sym, ap, ◌∙◌, subst, ite, if_pos, if_neg, Option, none, some, List, [],
  ◌∷◌, ◌++◌, length, Option-cases, inl, inr,
}
use mathlib.Core.Option
use mathlib.Core.Logic.{apply_ite}
use wire_protocols.Prelude.Try.{◌>>=◌}
use wire_protocols.Uuid.{Uuid, uuid_discrete}
use wire_protocols.Models.User
use wire_protocols.Models.User.{User}
use wire_protocols.Models.Message.{Message}
use wire_protocols.Models.Channel
use wire_protocols.Models.Channel.{Channel}
use wire_protocols.Responses
use wire_protocols.Responses.{Variant, success, Response, channel_created}
use wire_protocols.Database.Table.{find, update, find-update_self, find-update_ne}
use wire_protocols.Client.{
  Session, modify, put, add_message, add_message_at, add_channel, set_active_channel,
}
use wire_protocols.Client.Handlers.{
  send_message_success, update_active_channel, create_channel_success, Notice, handle_response,
  handle_responses, on_create_channel_response, on_send_message_response, open_new_channel,
}

-- The messages of a channel, as they are listed, without their objects.
abbrev pub texts_of : List (ℕ × Message) → List Message
texts_of [] = []
texts_of ((i, m) ∷ ms) = m ∷ texts_of ms

abbrev pub shown : Session → Uuid → Option (List Message)
shown s cid = Option.map texts_of (find uuid_discrete cid s.channel_messages)

-- The session of a user that shows of each channel what `view` says.
pub record Shows (view : Uuid → Option (List Message)) (s : Session) : Type 0 where
  pub user : (u : User) × (s.authenticated_user ≡ some u)
  pub in_step : (cid : Uuid) → shown s cid ≡ view cid
  pub pointers :
      (cid : Uuid)
      → find uuid_discrete cid s.channels ≡ none
      → find uuid_discrete cid s.channel_messages ≡ none

-- A view that differs at one channel.
abbrev pub with_log :
    Uuid → List Message → (Uuid → Option (List Message)) → Uuid → Option (List Message)
with_log k log view cid = ite (uuid_discrete k cid) (some log) (view cid)

-- The responses are handled without an exception, and what `P` says holds of the session then.
abbrev pub Runs : List Response → Session → (Session → Type 0) → Type 0
Runs [] s P = P s
Runs (r ∷ rs) s P =
    (next : Session) × (notices : List Notice) × (handle_response r s ≡ some (next, notices))
    × Runs rs next P

pub find-put :
    {V : Type 0} (k j : Uuid) (v : V) (t : List (Uuid × V))
    → find uuid_discrete j (put k v t) ≡ ite (uuid_discrete k j) (some v) (find uuid_discrete j t)
unfolding put find
find-put k j v t = elim (Option-cases (find uuid_discrete k t)) [
  | inl gone ↦ rw (gone, put)
  | inr (w, there) ↦
      rw (there, put)
        (elim (uuid_discrete k j) [
          | yes p ↦ rw (if_pos _ p) (
              subst (λ i. find uuid_discrete i (update uuid_discrete k (λ _. v) t) ≡ some v) p
                (find-update_self uuid_discrete k (λ _. v) t ∙ ap (Option.map (λ _. v)) there))
          | no p ↦ rw (if_neg _ p) (find-update_ne uuid_discrete k j (λ _. v) t p)
        ])
]

pub missing-put :
    {V : Type 0} (k j : Uuid) (v : V) (t : List (Uuid × V))
    → find uuid_discrete j (put k v t) ≡ none
    → (k ≢ j) × (find uuid_discrete j t ≡ none)
missing-put k j v t e =
    let found = sym (find-put k j v t) ∙ e in
    elim (uuid_discrete k j) [
      | yes p ↦ cc (if_pos (uuid_discrete k j) p (some v) (find uuid_discrete j t))
      | no p ↦ (p, sym (if_neg (uuid_discrete k j) p (some v) (find uuid_discrete j t)) ∙ found)
    ]

texts_of-append :
    (ms : List (ℕ × Message)) (i : ℕ) (m : Message)
    → texts_of (ms ++ ((i, m) ∷ [])) ≡ texts_of ms ++ (m ∷ [])
texts_of-append [] i m = refl
texts_of-append ((j, n) ∷ ms) i m = ap (λ (x : List Message). n ∷ x) (texts_of-append ms i m)

-- The responses one after the other.
pub Runs-append :
    (rs more : List Response) (s : Session) (P Q : Session → Type 0)
    → Runs rs s P
    → ((mid : Session) → P mid → Runs more mid Q)
    → Runs (rs ++ more) s Q
Runs-append [] more s P Q run k = k s run
Runs-append (r ∷ rs) more s P Q (next, ns, e, run) k =
    (next, ns, e, Runs-append rs more next P Q run k)

pub Runs-map :
    (rs : List Response) (s : Session) (P Q : Session → Type 0)
    → Runs rs s P
    → ((last : Session) → P last → Q last)
    → Runs rs s Q
Runs-map [] s P Q run k = k s run
Runs-map (r ∷ rs) s P Q (next, ns, e, run) k = (next, ns, e, Runs-map rs next P Q run k)

-- A run is what the loop over the packets does.
pub Runs-handled :
    (rs : List Response) (s : Session) (P : Session → Type 0)
    → Runs rs s P
    → (last : Session) × (notices : List Notice) × (handle_responses rs s ≡ some (last, notices))
      × P last
unfolding handle_responses
Runs-handled [] s P p = (s, [], refl, p)
Runs-handled (r ∷ rs) s P (next, ns, e, run) =
    let (last, more, f, p) = Runs-handled rs next P run in
    (last, ns ++ more, rw (e, f, ◌>>=◌) refl, p)

-- Two views that say the same.
pub Shows-same :
    (V W : Uuid → Option (List Message)) (s : Session)
    → ((cid : Uuid) → V cid ≡ W cid)
    → Shows V s
    → Shows W s
Shows-same V W s e v = record {
  user = v.user;
  in_step = λ cid. v.in_step cid ∙ e cid;
  pointers = v.pointers;
}

pub created-Shows :
    (V : Uuid → Option (List Message)) (c : Channel) (s : Session)
    → Shows V s
    → Runs (channel_created (success c) ∷ []) s (Shows (with_log c.uid [] V))
unfolding handle_response on_create_channel_response open_new_channel add_channel set_active_channel
created-Shows V c s v =
    let (user, known) = v.user in
    (
      open_new_channel c user s,
      update_active_channel ∷ create_channel_success c ∷ [],
      rw (known, on_create_channel_response) refl,
      record {
        user = (User.add_channel c.uid user, refl);
        in_step = λ cid.
            ap (Option.map texts_of) (find-put c.uid cid [] s.channel_messages)
            ∙ apply_ite (Option.map texts_of) (uuid_discrete c.uid cid) (some [])
                (find uuid_discrete cid s.channel_messages)
            ∙ ap (λ o. ite (uuid_discrete c.uid cid) (some []) o) (v.in_step cid);
        pointers = λ cid gone.
            let (apart, before) = missing-put c.uid cid (length s.objects) s.channels gone in
            find-put c.uid cid [] s.channel_messages
            ∙ if_neg (uuid_discrete c.uid cid) apart (some [])
                (find uuid_discrete cid s.channel_messages)
            ∙ v.pointers cid before;
      },
    )

pub sent-Shows :
    (V : Uuid → Option (List Message)) (m : Message) (l : List Message) (s : Session)
    → V m.channel_id ≡ some l
    → Shows V s
    → Runs
        (Responses.message_sent (success m) ∷ [])
        s
        (Shows (with_log m.channel_id (l ++ (m ∷ [])) V))
unfolding handle_response on_send_message_response add_message add_message_at
sent-Shows V m l s e v = elim (Option-cases (find uuid_discrete m.channel_id s.channel_messages)) [
  | inl gone ↦ let never = sym (ap (Option.map texts_of) gone) ∙ v.in_step m.channel_id ∙ e in cc
  | inr (ms, there) ↦ elim (Option-cases (find uuid_discrete m.channel_id s.channels)) [
    | inl lost ↦ let never = v.pointers m.channel_id lost in cc
    | inr (i, at) ↦
        let log : texts_of ms ≡ l =
          Option.some-injective (texts_of ms) l
            (sym (ap (Option.map texts_of) there) ∙ v.in_step m.channel_id ∙ e) in
        (
          record s {
            made = s.made + 1;
            channel_messages =
                update uuid_discrete m.channel_id (λ ms. ms ++ ((s.made, m) ∷ []))
                  s.channel_messages;
            objects = modify i (Channel.add_message m.snowflake) s.objects;
          },
          send_message_success m ∷ [],
          rw (there, add_message, at, ◌>>=◌) refl,
          record {
            user = v.user;
            in_step = λ cid. elim (uuid_discrete m.channel_id cid) [
              | yes p ↦
                  subst
                    (λ i.
                      Option.map texts_of (
                        find uuid_discrete i (
                          update uuid_discrete m.channel_id (λ ms. ms ++ ((s.made, m) ∷ []))
                            s.channel_messages))
                      ≡ some (l ++ (m ∷ [])))
                    p
                    (ap (Option.map texts_of) (
                        find-update_self uuid_discrete m.channel_id (λ ms. ms ++ ((s.made, m) ∷ []))
                          s.channel_messages
                        ∙ ap (Option.map (λ (ms : List (ℕ × Message)). ms ++ ((s.made, m) ∷ [])))
                            there)
                      ∙ ap some (
                          texts_of-append ms s.made m
                          ∙ ap (λ (x : List Message). x ++ (m ∷ [])) log))
                  ∙ sym (if_pos (uuid_discrete m.channel_id cid) p (some (l ++ (m ∷ []))) (V cid))
              | no p ↦
                  ap (Option.map texts_of) (
                    find-update_ne uuid_discrete m.channel_id cid (λ ms. ms ++ ((s.made, m) ∷ []))
                      s.channel_messages p)
                  ∙ v.in_step cid
                  ∙ sym (if_neg (uuid_discrete m.channel_id cid) p (some (l ++ (m ∷ []))) (V cid))
            ];
            pointers = λ cid gone. elim (uuid_discrete m.channel_id cid) [
              | yes p ↦
                  let never =
                    sym (subst (λ i. find uuid_discrete i s.channels ≡ none) (sym p) gone) ∙ at in
                  cc
              | no p ↦
                  find-update_ne uuid_discrete m.channel_id cid (λ ms. ms ++ ((s.made, m) ∷ []))
                    s.channel_messages p
                  ∙ v.pointers cid gone
            ];
          },
        )
  ]
]
