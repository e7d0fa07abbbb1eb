-- ===== src/Replica/Replaying.antt =====
-- What a login sends after its answer, in src/bin/server/model/message_handlers.cpp, as the client
-- takes it in: the channels of the user, each followed by its messages.
use wire_protocols.Prelude.{
  ℕ, ◌≡◌, ◌≢◌, refl, sym, ap, ◌∙◌, subst, if_pos, if_neg, Option, none, some, List, [], ◌∷◌, ◌++◌,
  Bool, true, false, if◌then◌else◌, member, member-cons_later, Option-cases, inl, inr, map,
  append-nil, append_assoc, ℕ_discrete,
}
use mathlib.Core.Option
use mathlib.Core.List.{map-append}
use wire_protocols.Uuid.{Uuid, uuid_discrete}
use wire_protocols.Models.User.{User}
use wire_protocols.Models.Message.{Message}
use wire_protocols.Models.Channel.{Channel, blank_channel, received_channel}
use wire_protocols.Responses.{Response, on_arrival}
use wire_protocols.Database.{Database, find_user, find_message, find_channel}
use wire_protocols.Database.Linked.{Linked}
use wire_protocols.Server.{replay, replay_messages}
use wire_protocols.Client.{Session}
use wire_protocols.Client.View.{
  Shows, Runs, Runs-map, Runs-append, with_log, Shows-same, created-Shows, sent-Shows,
}
use wire_protocols.Replica.{messages_of, log_of, visible}

abbrev View : Type 0
View = Uuid → Option (List Message)

-- A view that is written twice at one channel.
with_log_twice :
    (V : View) (cid : Uuid) (l l' : List Message) (j : Uuid)
    → with_log cid l' (with_log cid l V) j ≡ with_log cid l' V j
with_log_twice V cid l l' j = elim (uuid_discrete cid j) [
  | yes p ↦
      if_pos (uuid_discrete cid j) p (some l') (with_log cid l V j)
      ∙ sym (if_pos (uuid_discrete cid j) p (some l') (V j))
  | no p ↦
      if_neg (uuid_discrete cid j) p (some l') (with_log cid l V j)
      ∙ if_neg (uuid_discrete cid j) p (some l) (V j)
      ∙ sym (if_neg (uuid_discrete cid j) p (some l') (V j))
]

with_log_there :
    (V : View) (cid : Uuid) (l : List Message) (j : Uuid)
    → V cid ≡ some l
    → V j ≡ with_log cid (l ++ []) V j
with_log_there V cid l j e = elim (uuid_discrete cid j) [
  | yes p ↦
      subst (λ i. V i ≡ some l) p e
      ∙ ap some (sym (append-nil l))
      ∙ sym (if_pos (uuid_discrete cid j) p (some (l ++ [])) (V j))
  | no p ↦ sym (if_neg (uuid_discrete cid j) p (some (l ++ [])) (V j))
]

-- The messages of one channel.
replay_messages-Runs :
    (ns : List ℕ) (db : Database) (cid : Uuid) (V : View) (l : List Message) (s : Session)
    → V cid ≡ some l
    → ((n : ℕ) (m : Message)
        → member ℕ_discrete n ns ≡ true
        → find_message n db ≡ some m
        → m.channel_id ≡ cid)
    → Shows V s
    → Runs
        (map on_arrival (replay_messages ns db))
        s
        (Shows (with_log cid (l ++ messages_of ns db.messages) V))
unfolding replay_messages
replay_messages-Runs [] db cid V l s e filed v =
    Shows-same V _ s (λ j. with_log_there V cid l j e) v
replay_messages-Runs (n ∷ ns) db cid V l s e filed v =
    let later : (k : ℕ) (m : Message)
        → member ℕ_discrete k ns ≡ true
        → find_message k db ≡ some m
        → m.channel_id ≡ cid =
      λ k m listed found. filed k m (member-cons_later ℕ_discrete k n ns listed) found in
    elim (Option-cases (find_message n db)) [
      | inl gone ↦ rw (gone, replay_messages) (replay_messages-Runs ns db cid V l s e later v)
      | inr (m, found) ↦
          let here = filed n m (if_pos (ℕ_discrete n n) refl true (member ℕ_discrete n ns)) found in
          let (next, notices, runs, shows) =
            sent-Shows V m l s (subst (λ i. V i ≡ some l) (sym here) e) v in
          let shows' = subst (λ i. Shows (with_log i (l ++ (m ∷ [])) V) next) here shows in
          let logged : with_log cid (l ++ (m ∷ [])) V cid ≡ some (l ++ (m ∷ [])) =
            if_pos (uuid_discrete cid cid) refl (some (l ++ (m ∷ []))) (V cid) in
          let whole =
            Runs-map (map on_arrival (replay_messages ns db)) next _
              (Shows (with_log cid (l ++ (m ∷ messages_of ns db.messages)) V))
              (replay_messages-Runs ns db cid (with_log cid (l ++ (m ∷ [])) V) (l ++ (m ∷ [])) next
                logged later shows')
              (λ last w.
                Shows-same _ _ last
                  (λ j.
                    with_log_twice V cid (l ++ (m ∷ []))
                      ((l ++ (m ∷ [])) ++ messages_of ns db.messages) j
                    ∙ ap (λ x. with_log cid x V j)
                        (append_assoc l (m ∷ []) (messages_of ns db.messages)))
                  w) in
          rw (found, replay_messages) (next, notices, runs, whole)
    ]

module _ (db : Database) where
  -- What the entry of a channel adds to the view.
  abbrev entered : Uuid → View → Option Channel → View
  entered x V none = V
  entered x V (some c) = with_log x (messages_of c.message_snowflakes db.messages) V

  abbrev replayed : List Uuid → View → View
  replayed [] V = V
  replayed (x ∷ xs) V = replayed xs (entered x V (find_channel x db))

  -- What the entries of the channels `uids` add to a view.
  chosen : Option (List Message) → Option (List Message) → Option (List Message)
  chosen none old = old
  chosen (some l) old = some l

  full : Uuid → Option (List Message)
  full cid =
      Option.map (λ (c : Channel). messages_of c.message_snowflakes db.messages)
        (find_channel cid db)

  entered_at : (x : Uuid) (V : View) → entered x V (find_channel x db) x ≡ chosen (full x) (V x)
  unfolding chosen full
  entered_at x V = elim (Option-cases (find_channel x db)) [
    | inl gone ↦ rw gone refl
    | inr (c, there) ↦ rw there (
        if_pos (uuid_discrete x x) refl (some (messages_of c.message_snowflakes db.messages)) (V x))
  ]

  entered_past :
      (x cid : Uuid) (V : View) (o : Option Channel) → x ≢ cid → entered x V o cid ≡ V cid
  entered_past x cid V none ne = refl
  entered_past x cid V (some c) ne =
      if_neg (uuid_discrete x cid) ne (some (messages_of c.message_snowflakes db.messages)) (V cid)

  chosen_twice : (o p : Option (List Message)) → chosen o (chosen o p) ≡ chosen o p
  unfolding chosen
  chosen_twice none p = refl
  chosen_twice (some l) p = refl

  chosen_either :
      (b : Bool) (o p q : Option (List Message))
      → q ≡ chosen o p
      → (if b then chosen o q else q) ≡ chosen o p
  chosen_either true o p q e = ap (chosen o) e ∙ chosen_twice o p
  chosen_either false o p q e = e

  replayed_at :
      (uids : List Uuid) (V : View) (cid : Uuid)
      → replayed uids V cid
        ≡ (if member uuid_discrete cid uids then chosen (full cid) (V cid) else V cid)
  replayed_at [] V cid = refl
  replayed_at (x ∷ xs) V cid =
      let later = replayed_at xs (entered x V (find_channel x db)) cid in
      elim (uuid_discrete x cid) [
        | yes p ↦
            let here : entered x V (find_channel x db) cid ≡ chosen (full cid) (V cid) =
              subst (λ i. entered x V (find_channel x db) i ≡ chosen (full i) (V i)) p
                (entered_at x V) in
            later
            ∙ chosen_either (member uuid_discrete cid xs) (full cid) (V cid)
                (entered x V (find_channel x db) cid) here
            ∙ sym (
                ap (λ (b : Bool). if b then chosen (full cid) (V cid) else V cid)
                  (if_pos (uuid_discrete x cid) p true (member uuid_discrete cid xs)))
        | no p ↦
            later
            ∙ ap (λ o. if member uuid_discrete cid xs then chosen (full cid) o else o)
                (entered_past x cid V (find_channel x db) p)
            ∙ sym (
                ap (λ (b : Bool). if b then chosen (full cid) (V cid) else V cid)
                  (if_neg (uuid_discrete x cid) p true (member uuid_discrete cid xs)))
      ]

  replay-Runs :
      (l : Linked db) (uids : List Uuid) (V : View) (s : Session)
      → Shows V s
      → Runs (map on_arrival (replay uids db)) s (Shows (replayed uids V))
  unfolding replay
  replay-Runs l [] V s v = v
  replay-Runs l (x ∷ xs) V s v = elim (Option-cases (find_channel x db)) [
    | inl gone ↦ rw (gone, replay) (replay-Runs l xs V s v)
    | inr (c, there) ↦
        let (next, notices, runs, shows) = created-Shows V (received_channel blank_channel c) s v in
        let opened = subst (λ i. Shows (with_log i [] V) next) (l.keyed x c there) shows in
        let logged = if_pos (uuid_discrete x x) refl (some []) (V x) in
        let sent =
          replay_messages-Runs c.message_snowflakes db x (with_log x [] V) [] next logged
            (λ n m listed found. l.filed x c n m there listed found) opened in
        let whole =
          Runs-append _ _ next _
            (Shows (replayed xs (with_log x (messages_of c.message_snowflakes db.messages) V))) sent
            (λ mid w.
              replay-Runs l xs (with_log x (messages_of c.message_snowflakes db.messages) V) mid (
                Shows-same _ _ mid
                  (λ j. with_log_twice V x [] (messages_of c.message_snowflakes db.messages) j)
                  w)) in
        rw (there, replay)
          (
            next,
            notices,
            runs,
            subst
                (λ (rs : List Response). Runs rs next (
                  Shows
                    (replayed xs (with_log x (messages_of c.message_snowflakes db.messages) V))))
                (sym
                  (map-append on_arrival (replay_messages c.message_snowflakes db) (replay xs db)))
                whole,
          )
  ]

  -- The replay of a user's own channels.
  replayed_own :
      (l : Linked db) (uid : Uuid) (user : User) (cid : Uuid)
      → find_user uid db ≡ some user
      → replayed user.channels (λ _. none) cid ≡ visible uid db cid
  unfolding chosen full
  replayed_own l uid user cid known =
      replayed_at user.channels (λ _. none) cid ∙ elim (Option-cases (find_channel cid db)) [
        | inl gone ↦
            ap (λ (b : Bool). if b then chosen (full cid) none else none)
              (l.known uid cid user known gone)
            ∙ sym (ap (log_of uid db.messages) gone)
        | inr (c, there) ↦
            ap (λ (b : Bool). if b then chosen (full cid) none else none)
              (l.joined uid cid user c known there)
            ∙ ap
                (λ o.
                  if member uuid_discrete uid c.user_uids
                  then chosen
                      (Option.map (λ (c : Channel). messages_of c.message_snowflakes db.messages) o)
                      none
                  else none)
                there
            ∙ sym (ap (log_of uid db.messages) there)
      ]

  pub replay-Shows :
      (l : Linked db) (uid : Uuid) (user : User) (s : Session)
      → find_user uid db ≡ some user
      → Shows (λ _. none) s
      → Runs (map on_arrival (replay user.channels db)) s (Shows (visible uid db))
  replay-Shows l uid user s known v =
      Runs-map _ s _ (Shows (visible uid db)) (replay-Runs l user.channels (λ _. none) s v)
        (λ last w. Shows-same _ _ last (λ cid. replayed_own l uid user cid known) w)
