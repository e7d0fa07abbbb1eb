-- ===== src/Client/Exceptions.antt =====
-- When a handler of src/bin/client/model/message_handlers.cpp does not complete.
use wire_protocols.Prelude.{
  ℕ, ◌≡◌, ◌↔◌, refl, sym, ◌∙◌, subst, if_neg, Option, none, some, List, [], ◌∷◌, ◌++◌, Option-cases,
  inl, inr, length, ◌+◌,
}
use wire_protocols.Prelude.Try.{◌>>=◌}
use wire_protocols.Uuid.{Uuid, uuid_discrete}
use wire_protocols.Models.Message.{Message}
use wire_protocols.Models.Channel.{Channel}
use wire_protocols.Responses
use wire_protocols.Responses.{
  Variant, success, failure, Response, registered, logged_in, accounts_listed, account_deleted,
  channel_created,
}
use wire_protocols.Database.Table.{find, update, find-update_ne}
use wire_protocols.Client.{
  Session, new_session, discard, add_message, add_message_at, remove_message, remove_message_at,
  add_channel, set_active_channel, reset,
}
use wire_protocols.Client.Handlers.{
  Notice, Handled, handle_response, handle_responses, on_register_account_response,
  on_login_response, on_list_accounts_response, on_delete_account_response,
  on_create_channel_response, on_send_message_response, on_delete_message_response,
  open_new_channel,
}
use wire_protocols.Client.View.{find-put, missing-put}
use wire_protocols.Client.Invariants.{After, handle_responses-After}

-- A channel that is shown is there.
abbrev Safe : Session → Type 0
Safe s =
    (cid : Uuid)
    → find uuid_discrete cid s.channels ≡ none
    → find uuid_discrete cid s.channel_messages ≡ none

-- A change of the messages of a channel that is there.
updated_Safe :
    (s : Session) (at : Uuid) (f : List (ℕ × Message) → List (ℕ × Message)) (i : ℕ)
    → find uuid_discrete at s.channels ≡ some i
    → Safe s
    → (cid : Uuid) → find uuid_discrete cid s.channels ≡ none
    → find uuid_discrete cid (update uuid_discrete at f s.channel_messages) ≡ none
updated_Safe s at f i there safe cid gone = elim (uuid_discrete at cid) [
  | yes p ↦
      let never = sym (subst (λ k. find uuid_discrete k s.channels ≡ none) (sym p) gone) ∙ there in
      cc
  | no p ↦ find-update_ne uuid_discrete at cid f s.channel_messages p ∙ safe cid gone
]

-- Messages are added and removed without an exception, and a channel that is shown stays there.
abbrev Completes : Option Session → Type 0
Completes none = ⊥
Completes (some s) = Safe s

add_message-Completes : (k : ℕ) (m : Message) (s : Session) → Safe s → Completes (add_message k m s)
unfolding add_message add_message_at
add_message-Completes k m s safe =
    elim (Option-cases (find uuid_discrete m.channel_id s.channel_messages)) [
      | inl gone ↦ rw (gone, add_message) safe
      | inr (ms, there) ↦ elim (Option-cases (find uuid_discrete m.channel_id s.channels)) [
        | inl lost ↦ let never = safe m.channel_id lost in cc
        | inr (i, at) ↦
            rw (there, add_message, at)
              (updated_Safe s m.channel_id (λ ms. ms ++ ((k, m) ∷ [])) i at safe)
      ]
    ]

remove_message-Completes :
    (k : ℕ) (m : Message) (s : Session) → Safe s → Completes (remove_message k m s)
unfolding remove_message remove_message_at
remove_message-Completes k m s safe =
    elim (Option-cases (find uuid_discrete m.channel_id s.channel_messages)) [
      | inl gone ↦ rw (gone, remove_message) safe
      | inr (ms, there) ↦ elim (Option-cases (find uuid_discrete m.channel_id s.channels)) [
        | inl lost ↦ let never = safe m.channel_id lost in cc
        | inr (i, at) ↦
            rw (there, remove_message, at) (updated_Safe s m.channel_id (discard k) i at safe)
      ]
    ]

-- How a handler ends on a session whose channels are there.
abbrev Ends : Response → Session → Handled → Type 0
Ends r s none = (c : Channel) × (r ≡ channel_created (success c)) × (s.authenticated_user ≡ none)
Ends r s (some (s', ns)) = Safe s'

Ends-by :
    (r : Response) (s : Session) (o : Option Session) (ns : List Notice)
    → Completes o
    → Ends r s (o >>= (λ s'. some (s', ns)))
Ends-by r s none ns h = absurd h
Ends-by r s (some s') ns h = h

handle_response-Ends : (r : Response) (s : Session) → Safe s → Ends r s (handle_response r s)
unfolding handle_response on_register_account_response on_login_response on_list_accounts_response
    on_delete_account_response on_create_channel_response on_send_message_response
    on_delete_message_response open_new_channel add_channel set_active_channel reset find
handle_response-Ends (registered (success u)) s h = h
handle_response-Ends (registered (failure e)) s h = h
handle_response-Ends (logged_in (success u)) s h = h
handle_response-Ends (logged_in (failure e)) s h = h
handle_response-Ends (accounts_listed (success u)) s h = h
handle_response-Ends (accounts_listed (failure e)) s h = h
handle_response-Ends (account_deleted (success u)) s h = λ cid e. refl
handle_response-Ends (account_deleted (failure e)) s h = h
handle_response-Ends (channel_created (success c)) s h = elim (Option-cases s.authenticated_user) [
  | inl out ↦ rw (out, on_create_channel_response) (c, refl, refl)
  | inr (user, known) ↦
      rw (known, on_create_channel_response)
        λ cid gone.
          let (apart, before) = missing-put c.uid cid (length s.objects) s.channels gone in
          find-put c.uid cid [] s.channel_messages
          ∙ if_neg (uuid_discrete c.uid cid) apart (some [])
              (find uuid_discrete cid s.channel_messages)
          ∙ h cid before
]
handle_response-Ends (channel_created (failure e)) s h = h
handle_response-Ends (Responses.message_sent (success m)) s h =
    Ends-by _ s _ _ (add_message-Completes s.made m (record s { made = s.made + 1 }) h)
handle_response-Ends (Responses.message_sent (failure e)) s h = h
handle_response-Ends (Responses.message_deleted (success m)) s h =
    Ends-by _ s _ _ (remove_message-Completes s.made m (record s { made = s.made + 1 }) h)
handle_response-Ends (Responses.message_deleted (failure e)) s h = h

handle_response-Safe : (r : Response) (s : Session) → Safe s → After Safe (handle_response r s)
handle_response-Safe r s h = go (handle_response r s) (handle_response-Ends r s h)
  where
    go : (o : Handled) → Ends r s o → After Safe o
    go none e = tt
    go (some (s', ns)) e = e

-- Whatever responses a new session has handled, the handler of the next one does not complete
-- exactly if that is a channel and no user is logged in: no handler follows a null pointer, and no
-- other exception leaves one.
pub handle_response-none :
    (rs : List Response) (r : Response) (s : Session) (notices : List Notice)
    → handle_responses rs new_session ≡ some (s, notices)
    → (handle_response r s ≡ none)
      ↔ ((c : Channel) × (r ≡ channel_created (success c)) × (s.authenticated_user ≡ none))
unfolding handle_response on_create_channel_response new_session find
handle_response-none rs r s notices e =
    let safe =
      handle_responses-After Safe handle_response-Safe rs new_session s notices (λ cid g. refl) e in
    (
      (λ none_left. subst (Ends r s) none_left (handle_response-Ends r s safe)),
      (λ (c, is, out). rw (is, out, on_create_channel_response) refl),
    )
