-- ===== src/Client/Deletion.antt =====
-- `Session::remove_message` of src/bin/client/model/session.cpp, over the responses that reach it.
use wire_protocols.Prelude.{
  ℕ, ◌+◌, ◌<◌, ◌≡◌, ◌≢◌, refl, sym, ap, ◌∙◌, subst, if_pos, if_neg, Option, none, some, List, [],
  ◌∷◌, ◌++◌, arith, All, ℕ_discrete, Option-cases, inl, inr,
}
use mathlib.Core.Option
use wire_protocols.Prelude.Try.{◌>>=◌}
use wire_protocols.Uuid.{Uuid, uuid_discrete}
use wire_protocols.Models.Message.{Message}
use wire_protocols.Responses
use wire_protocols.Responses.{
  Variant, success, failure, Response, registered, logged_in, accounts_listed, account_deleted,
  channel_created,
}
use wire_protocols.Database.Table.{find, update, found-update, find-update_self, find-update_ne}
use wire_protocols.Client.{
  Session, new_session, add_channel, set_active_channel, reset, put, discard, add_message,
  add_message_at, remove_message, remove_message_at,
}
use wire_protocols.Client.Handlers.{
  Notice, Handled, on_register_account_response, on_login_response, on_list_accounts_response,
  on_delete_account_response, open_new_channel, handle_response, handle_responses,
  on_delete_message_response, on_send_message_response, on_create_channel_response,
}
use wire_protocols.Client.Invariants.{After, handle_responses-After}
use wire_protocols.Client.View.{find-put}

abbrev pub Log : Type 0
Log = List (ℕ × Message)

-- The objects of the messages were all made before the `n`th.
abbrev pub Below : ℕ → Log → Type 0
Below n ms = All (λ (p : ℕ × Message). p.0 < n) ms

abbrev pub Numbered : ℕ → List (Uuid × Log) → Type 0
Numbered n t = (cid : Uuid) (ms : Log) → find uuid_discrete cid t ≡ some ms → Below n ms

Below-suc : (n : ℕ) (ms : Log) → Below n ms → Below (n + 1) ms
Below-suc n [] h = tt
Below-suc n (p ∷ ms) (h, hs) = (omega arith, Below-suc n ms hs)

Below-append : (n : ℕ) (m : Message) (ms : Log) → Below n ms → Below (n + 1) (ms ++ ((n, m) ∷ []))
Below-append n m [] h = (omega arith, tt)
Below-append n m (p ∷ ms) (h, hs) = (omega arith, Below-append n m ms hs)

-- A new object is on no list.
discard_new : (n : ℕ) (ms : Log) → Below n ms → discard n ms ≡ ms
unfolding discard
discard_new n [] h = refl
discard_new n ((i, m) ∷ ms) (h, hs) =
    let apart : i ≢ n = λ p. omega (arith, p) in
    if_neg (ℕ_discrete i n) apart (discard n ms) ((i, m) ∷ discard n ms)
    ∙ ap (◌∷◌ (i, m)) (discard_new n ms hs)

-- What is found after objects that are on no list were taken off.
find-update-discard :
    (n : ℕ) (at cid : Uuid) (t : List (Uuid × Log))
    → Numbered n t
    → find uuid_discrete cid (update uuid_discrete at (discard n) t) ≡ find uuid_discrete cid t
find-update-discard n at cid t h = elim (uuid_discrete at cid) [
  | yes p ↦
      subst
        (λ i. find uuid_discrete i (update uuid_discrete at (discard n) t) ≡ find uuid_discrete i t)
        p (find-update_self uuid_discrete at (discard n) t ∙ same (find uuid_discrete at t) (h at))
  | no p ↦ find-update_ne uuid_discrete at cid (discard n) t p
]
  where
    same : (o : Option Log) → ((ms : Log) → o ≡ some ms → Below n ms) → Option.map (discard n) o ≡ o
    same none k = refl
    same (some ms) k = ap some (discard_new n ms (k ms refl))

Numbered-later : (n : ℕ) (t : List (Uuid × Log)) → Numbered n t → Numbered (n + 1) t
Numbered-later n t h = λ cid ms e. Below-suc n ms (h cid ms e)

put-Numbered : (n : ℕ) (k : Uuid) (t : List (Uuid × Log)) → Numbered n t → Numbered n (put k [] t)
put-Numbered n k t h = λ cid ms e.
    let found = sym (find-put k cid [] t) ∙ e in
    elim (uuid_discrete k cid) [
      | yes p ↦
          subst (Below n)
            (Option.some-injective _ _
              (sym (if_pos (uuid_discrete k cid) p (some []) (find uuid_discrete cid t)) ∙ found))
            tt
      | no p ↦
          h cid ms
            (sym (if_neg (uuid_discrete k cid) p (some []) (find uuid_discrete cid t)) ∙ found)
    ]

append-Numbered :
    (n : ℕ) (m : Message) (at : Uuid) (t : List (Uuid × Log))
    → Numbered n t
    → Numbered (n + 1) (update uuid_discrete at (λ ms. ms ++ ((n, m) ∷ [])) t)
append-Numbered n m at t h = λ cid ms e.
    let (old, there, same) = found-update uuid_discrete at cid (λ ms. ms ++ ((n, m) ∷ [])) t ms e in
    elim (uuid_discrete at cid) [
      | yes p ↦ rw (same, if_pos (uuid_discrete at cid) p) (Below-append n m old (h cid old there))
      | no p ↦ rw (same, if_neg (uuid_discrete at cid) p) (Below-suc n old (h cid old there))
    ]

-- What a call leaves of the lists, where it completes.
abbrev Kept : Session → Option Session → Type 0
Kept s none = Unit {0}
Kept s (some s') =
    (s'.made ≡ s.made)
    × ((cid : Uuid)
        → find uuid_discrete cid s'.channel_messages ≡ find uuid_discrete cid s.channel_messages)

remove_message-Kept :
    (k : ℕ) (m : Message) (s : Session)
    → Numbered k s.channel_messages
    → Kept s (remove_message k m s)
unfolding remove_message remove_message_at
remove_message-Kept k m s h =
    elim (Option-cases (find uuid_discrete m.channel_id s.channel_messages)) [
      | inl gone ↦ rw (gone, remove_message) (refl, λ cid. refl)
      | inr (ms, there) ↦ elim (Option-cases (find uuid_discrete m.channel_id s.channels)) [
        | inl lost ↦ rw (there, remove_message, lost) tt
        | inr (i, at) ↦
            rw (there, remove_message, at)
              (refl, λ cid. find-update-discard k m.channel_id cid s.channel_messages h)
      ]
    ]

-- How one deletion response changes the lists: it does not.
pub deletion_keeps :
    (m : Message) (s s' : Session) (ns : List Notice)
    → Numbered s.made s.channel_messages
    → handle_response (Responses.message_deleted (success m)) s ≡ some (s', ns)
    → (s'.made ≡ s.made + 1)
      × ((cid : Uuid)
          → find uuid_discrete cid s'.channel_messages ≡ find uuid_discrete cid s.channel_messages)
unfolding handle_response on_delete_message_response
deletion_keeps m s s' ns h e =
    let s₁ : Session = record s { made = s.made + 1 } in
    let kept = remove_message-Kept s.made m s₁ h in
    elim (Option-cases (remove_message s.made m s₁)) [
      | inl gone ↦ let never = rw (gone, ◌>>=◌) at e in cc
      | inr (s₂, done) ↦
          let same : s₂ ≡ s' =
            ap (λ (p : Session × List Notice). p.0)
              (Option.some-injective _ _ (rw (done, ◌>>=◌) at e)) in
          subst (λ x. Kept s₁ (some x)) same (subst (Kept s₁) done kept)
    ]

abbrev pub InOrder : Handled → Type 0
InOrder = After (λ s. Numbered s.made s.channel_messages)

sent-InOrder :
    (m : Message) (s : Session)
    → Numbered s.made s.channel_messages
    → InOrder (on_send_message_response (success m) s)
unfolding on_send_message_response add_message add_message_at
sent-InOrder m s h = elim (Option-cases (find uuid_discrete m.channel_id s.channel_messages)) [
  | inl gone ↦ rw (gone, add_message, ◌>>=◌) (Numbered-later s.made s.channel_messages h)
  | inr (ms, there) ↦ elim (Option-cases (find uuid_discrete m.channel_id s.channels)) [
    | inl lost ↦ rw (there, add_message, lost, ◌>>=◌) tt
    | inr (i, at) ↦
        rw (there, add_message, at, ◌>>=◌)
          (append-Numbered s.made m m.channel_id s.channel_messages h)
  ]
]

pub handle_response-InOrder :
    (r : Response) (s : Session)
    → Numbered s.made s.channel_messages
    → InOrder (handle_response r s)
unfolding handle_response on_register_account_response on_login_response on_list_accounts_response
    on_delete_account_response on_create_channel_response on_send_message_response
    on_delete_message_response open_new_channel add_channel set_active_channel reset find
handle_response-InOrder (registered (success u)) s h = h
handle_response-InOrder (registered (failure e)) s h = h
handle_response-InOrder (logged_in (success u)) s h = h
handle_response-InOrder (logged_in (failure e)) s h = h
handle_response-InOrder (accounts_listed (success u)) s h = h
handle_response-InOrder (accounts_listed (failure e)) s h = h
handle_response-InOrder (account_deleted (success u)) s h = λ cid ms e. cc
handle_response-InOrder (account_deleted (failure e)) s h = h
handle_response-InOrder (channel_created (success c)) s h =
    elim (Option-cases s.authenticated_user) [
      | inl out ↦ rw (out, on_create_channel_response) tt
      | inr (user, known) ↦
          rw (known, on_create_channel_response) (put-Numbered s.made c.uid s.channel_messages h)
    ]
handle_response-InOrder (channel_created (failure e)) s h = h
handle_response-InOrder (Responses.message_sent (success m)) s h = sent-InOrder m s h
handle_response-InOrder (Responses.message_sent (failure e)) s h = h
handle_response-InOrder (Responses.message_deleted (success m)) s h =
    elim (Option-cases (handle_response (Responses.message_deleted (success m)) s)) [
      | inl gone ↦ subst InOrder (sym gone) tt
      | inr ((s', ns), done) ↦
          let (next, same) = deletion_keeps m s s' ns h done in
          subst InOrder (sym done) (λ cid ms e.
            subst (λ k. Below k ms) (sym next)
              (Below-suc s.made ms (h cid ms (sym (same cid) ∙ e))))
    ]
handle_response-InOrder (Responses.message_deleted (failure e)) s h = h

-- Whatever responses a new session has handled, the response to a deletion, where its handler
-- completes, takes no message off the list of any channel.
pub handle_response-deletion_kept :
    (rs : List Response) (m : Message) (s s' : Session) (before after : List Notice)
    → handle_responses rs new_session ≡ some (s, before)
    → handle_response (Responses.message_deleted (success m)) s ≡ some (s', after)
    → (cid : Uuid)
    → find uuid_discrete cid s'.channel_messages ≡ find uuid_discrete cid s.channel_messages
unfolding new_session find
handle_response-deletion_kept rs m s s' before after e d =
    (deletion_keeps m s s' after
      (handle_responses-After (λ s. Numbered s.made s.channel_messages) handle_response-InOrder rs
        new_session s before (λ cid ms e. cc) e)
      d).1
