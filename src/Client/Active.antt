-- ===== src/Client/Active.antt =====
-- The open channel of src/bin/client/model/session.cpp.
use wire_protocols.Prelude.{
  ℕ, zero, suc, ◌+◌, ◌≡◌, refl, sym, ap, ◌∙◌, subst, if_pos, Option, none, some, List, [], ◌∷◌,
  ◌++◌, Option-cases, inl, inr, length, get_elem?,
}
use mathlib.Core.Option
use wire_protocols.Prelude.Try.{◌>>=◌}
use wire_protocols.Uuid.{Uuid, uuid_discrete}
use wire_protocols.Models.Message.{Message}
use wire_protocols.Models.Channel
use wire_protocols.Models.Channel.{Channel}
use wire_protocols.Responses
use wire_protocols.Responses.{
  success, failure, Response, registered, logged_in, accounts_listed, account_deleted,
  channel_created,
}
use wire_protocols.Database.Table.{find, update, missing-update}
use wire_protocols.Client.{
  Session, new_session, modify, discard, add_message, add_message_at, remove_message,
  remove_message_at, add_channel, set_active_channel, reset, get_active_channel,
  get_active_channel_messages,
}
use wire_protocols.Client.Handlers.{
  Notice, handle_response, handle_responses, on_register_account_response, on_login_response,
  on_list_accounts_response, on_delete_account_response, on_create_channel_response,
  on_send_message_response, on_delete_message_response, open_new_channel,
}
use wire_protocols.Client.View.{find-put}
use wire_protocols.Client.Invariants.{After, handle_responses-After}

-- The open channel is an object that there is, and its messages are listed.
abbrev Open : Session → Type 0
Open s =
    (i : ℕ)
    → s.open_channel ≡ some i
    → (c : Channel) × (get_elem? s.objects i ≡ some c)
      × ((ms : List (ℕ × Message)) × (find uuid_discrete c.uid s.channel_messages ≡ some ms))

pub get_elem?-modify :
    (f : Channel → Channel) (cs : List Channel) (i j : ℕ) (c : Channel)
    → ((d : Channel) → (f d).uid ≡ d.uid)
    → get_elem? cs i ≡ some c
    → (d : Channel) × (get_elem? (modify j f cs) i ≡ some d) × (d.uid ≡ c.uid)
unfolding modify
get_elem?-modify f [] i j c keeps e = cc
get_elem?-modify f (x ∷ cs) zero zero c keeps e =
    (f x, refl, keeps x ∙ ap (λ (o : Channel). o.uid) (Option.some-injective x c e))
get_elem?-modify f (x ∷ cs) zero (suc j) c keeps e =
    (x, refl, ap (λ (o : Channel). o.uid) (Option.some-injective x c e))
get_elem?-modify f (x ∷ cs) (suc i) zero c keeps e = (c, e, refl)
get_elem?-modify f (x ∷ cs) (suc i) (suc j) c keeps e = get_elem?-modify f cs i j c keeps e

pub get_elem?-last :
    (cs : List Channel) (c : Channel) → get_elem? (cs ++ (c ∷ [])) (length cs) ≡ some c
get_elem?-last [] c = refl
get_elem?-last (x ∷ cs) c = get_elem?-last cs c

-- The messages of a channel changed, and the channel too, but for its identifier.
changed-Open :
    (s : Session) (at : Uuid) (j : ℕ) (f : Channel → Channel)
    (g : List (ℕ × Message) → List (ℕ × Message))
    → ((d : Channel) → (f d).uid ≡ d.uid)
    → Open s
    → Open (record s {
      channel_messages = update uuid_discrete at g s.channel_messages;
      objects = modify j f s.objects;
    })
changed-Open s at j f g keeps whole = λ i e.
    let (c, there, (ms, listed)) = whole i e in
    let (d, found, same) = get_elem?-modify f s.objects i j c keeps there in
    (
      d,
      found,
      elim (Option-cases
          (find uuid_discrete d.uid (update uuid_discrete at g s.channel_messages))) [
            | inl gone ↦
                let never = missing-update uuid_discrete at d.uid g s.channel_messages gone in
                let here =
                  subst (λ k. find uuid_discrete k s.channel_messages ≡ some ms) (sym same)
                    listed in
                cc
            | inr kept ↦ kept
          ],
    )

abbrev Leaves : Option Session → Type 0
Leaves none = Unit {0}
Leaves (some s) = Open s

add_message-Leaves : (k : ℕ) (m : Message) (s : Session) → Open s → Leaves (add_message k m s)
unfolding add_message add_message_at
add_message-Leaves k m s whole =
    elim (Option-cases (find uuid_discrete m.channel_id s.channel_messages)) [
      | inl gone ↦ rw (gone, add_message) whole
      | inr (ms, there) ↦ elim (Option-cases (find uuid_discrete m.channel_id s.channels)) [
        | inl lost ↦ rw (there, add_message, lost) tt
        | inr (j, at) ↦
            rw (there, add_message, at)
              (changed-Open s m.channel_id j (Channel.add_message m.snowflake)
                (λ ms. ms ++ ((k, m) ∷ [])) (unfold Channel.add_message in λ d. refl) whole)
      ]
    ]

remove_message-Leaves : (k : ℕ) (m : Message) (s : Session) → Open s → Leaves (remove_message k m s)
unfolding remove_message remove_message_at
remove_message-Leaves k m s whole =
    elim (Option-cases (find uuid_discrete m.channel_id s.channel_messages)) [
      | inl gone ↦ rw (gone, remove_message) whole
      | inr (ms, there) ↦ elim (Option-cases (find uuid_discrete m.channel_id s.channels)) [
        | inl lost ↦ rw (there, remove_message, lost) tt
        | inr (j, at) ↦
            rw (there, remove_message, at)
              (changed-Open s m.channel_id j (Channel.remove_message m.snowflake) (discard k)
                (unfold Channel.remove_message in λ d. refl) whole)
      ]
    ]

After-Leaves :
    (o : Option Session) (ns : List Notice) → Leaves o → After Open (o >>= (λ s'. some (s', ns)))
After-Leaves none ns h = tt
After-Leaves (some s') ns h = h

handle_response-Open : (r : Response) (s : Session) → Open s → After Open (handle_response r s)
unfolding handle_response on_register_account_response on_login_response on_list_accounts_response
    on_delete_account_response on_create_channel_response on_send_message_response
    on_delete_message_response open_new_channel add_channel set_active_channel reset
handle_response-Open (registered (success u)) s h = h
handle_response-Open (registered (failure e)) s h = h
handle_response-Open (logged_in (success u)) s h = h
handle_response-Open (logged_in (failure e)) s h = h
handle_response-Open (accounts_listed (success u)) s h = h
handle_response-Open (accounts_listed (failure e)) s h = h
handle_response-Open (account_deleted (success u)) s h = λ i e. cc
handle_response-Open (account_deleted (failure e)) s h = h
handle_response-Open (channel_created (success c)) s h = elim (Option-cases s.authenticated_user) [
  | inl out ↦ rw (out, on_create_channel_response) tt
  | inr (user, known) ↦
      rw (known, on_create_channel_response)
        λ i e.
          let opened = Option.some-injective (length s.objects) i e in
          (
            c,
            subst (λ k. get_elem? (s.objects ++ (c ∷ [])) k ≡ some c) opened
                (get_elem?-last s.objects c),
            (
              [],
              find-put c.uid c.uid [] s.channel_messages
                  ∙ if_pos (uuid_discrete c.uid c.uid) refl (some [])
                      (find uuid_discrete c.uid s.channel_messages),
            ),
          )
]
handle_response-Open (channel_created (failure e)) s h = h
handle_response-Open (Responses.message_sent (success m)) s h =
    After-Leaves _ _ (add_message-Leaves s.made m (record s { made = s.made + 1 }) h)
handle_response-Open (Responses.message_sent (failure e)) s h = h
handle_response-Open (Responses.message_deleted (success m)) s h =
    After-Leaves _ _ (remove_message-Leaves s.made m (record s { made = s.made + 1 }) h)
handle_response-Open (Responses.message_deleted (failure e)) s h = h

-- Whatever responses a new session has handled, the messages of the open channel can be asked for:
-- `at` in `get_active_channel_messages` does not throw, and where a channel is open, it is an object
-- of the session and its messages are those that the session lists under its identifier.
pub get_active_channel_messages_total :
    (rs : List Response) (s : Session) (notices : List Notice)
    → handle_responses rs new_session ≡ some (s, notices)
    → ((ms : List (ℕ × Message)) × (get_active_channel_messages s ≡ some ms))
      × ((i : ℕ)
          → s.open_channel ≡ some i
          → (c : Channel) × (get_active_channel s ≡ some c)
            × (get_active_channel_messages s ≡ find uuid_discrete c.uid s.channel_messages))
unfolding new_session get_active_channel get_active_channel_messages
get_active_channel_messages_total rs s notices e =
    let whole =
      handle_responses-After Open handle_response-Open rs new_session s notices (λ i f. cc) e in
    (
      elim (Option-cases s.open_channel) [
        | inl closed ↦ ([], rw (get_active_channel_messages, get_active_channel, closed) refl)
        | inr (i, is) ↦
            let (c, there, (ms, listed)) = whole i is in
            (ms, rw (get_active_channel_messages, get_active_channel, is, there) listed)
      ],
      λ i is.
          let (c, there, (ms, listed)) = whole i is in
          (
            c,
            rw (get_active_channel, is) there,
            rw (get_active_channel_messages, get_active_channel, is, there) refl,
          ),
    )
