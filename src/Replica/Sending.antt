-- ===== src/Replica/Sending.antt =====
-- `Database::add_message` of src/bin/server/db/database.cpp, as the members of the channel see it.
use wire_protocols.Prelude.{
  ℕ, ◌≡◌, ◌≢◌, refl, sym, ap, ◌∙◌, subst, if_pos, if_neg, Option, none, some, List, [], ◌∷◌, ◌++◌,
  true, false, if◌then◌else◌, member, ℕ_discrete, Option-cases, Bool-cases, inl, inr, map, ite-kept,
}
use mathlib.Core.Option
use wire_protocols.Wire.{Bytes}
use wire_protocols.Uuid.{Uuid, uuid_discrete}
use wire_protocols.Models.User.{User}
use wire_protocols.Models.Message.{Message, new_message}
use wire_protocols.Models.Channel
use wire_protocols.Models.Channel.{Channel}
use wire_protocols.Responses.{success, on_arrival, message_sent}
use wire_protocols.Database.{
  Database, find_user, find_message, find_channel, add_message, add_message_to, message_received,
}
use wire_protocols.Database.Table.{
  find, insert, find-insert_fresh, find-update_self, find-update_ne, found-update,
}
use wire_protocols.Server.Connections.{emitter, slot, heard_from}
use wire_protocols.Client.{Session}
use wire_protocols.Client.View.{Shows, Runs, with_log, Shows-same, sent-Shows}
use wire_protocols.Replica.{listed, messages_of, log_of, visible, Once}
use wire_protocols.Replica.Hearing.{heard_from-emit_each}

listed-append :
    (o : Option Message) (xs ys : List Message) → listed o (xs ++ ys) ≡ listed o xs ++ ys
listed-append none xs ys = refl
listed-append (some m) xs ys = refl

-- A message of a new snowflake is entered in the message table, and `ns` does not name it.
module _ (n : ℕ) (m : Message) (t : List (ℕ × Message)) (fresh : find ℕ_discrete n t ≡ none) where
  find_other :
      (k : ℕ) (ns : List ℕ)
      → member ℕ_discrete n (k ∷ ns) ≡ false
      → (find ℕ_discrete k (insert ℕ_discrete n m t) ≡ find ℕ_discrete k t)
        × (member ℕ_discrete n ns ≡ false)
  find_other k ns e = elim (ℕ_discrete k n) [
    | yes p ↦ cc (if_pos (ℕ_discrete k n) p true (member ℕ_discrete n ns))
    | no p ↦ (
      find-insert_fresh ℕ_discrete n k m t fresh
          ∙ if_neg (ℕ_discrete n k) (λ q. p (sym q)) (some m) (find ℕ_discrete k t),
      sym (if_neg (ℕ_discrete k n) p true (member ℕ_discrete n ns)) ∙ e,
    )
  ]

  messages_of-insert_other :
      (ns : List ℕ)
      → member ℕ_discrete n ns ≡ false
      → messages_of ns (insert ℕ_discrete n m t) ≡ messages_of ns t
  messages_of-insert_other [] e = refl
  messages_of-insert_other (k ∷ ns) e =
      let (same, later) = find_other k ns e in
      ap (λ o. listed o (messages_of ns (insert ℕ_discrete n m t))) same
      ∙ ap (listed (find ℕ_discrete k t)) (messages_of-insert_other ns later)

  messages_of-insert_last :
      (ns : List ℕ)
      → member ℕ_discrete n ns ≡ false
      → messages_of (ns ++ (n ∷ [])) (insert ℕ_discrete n m t) ≡ messages_of ns t ++ (m ∷ [])
  messages_of-insert_last [] e =
      ap (λ o. listed o [])
        (find-insert_fresh ℕ_discrete n n m t fresh
          ∙ if_pos (ℕ_discrete n n) refl (some m) (find ℕ_discrete n t))
  messages_of-insert_last (k ∷ ns) e =
      let (same, later) = find_other k ns e in
      ap (λ o. listed o (messages_of (ns ++ (n ∷ [])) (insert ℕ_discrete n m t))) same
      ∙ ap (listed (find ℕ_discrete k t)) (messages_of-insert_last ns later)
      ∙ listed-append (find ℕ_discrete k t) (messages_of ns t) (m ∷ [])

log_of-insert_other :
    (uid : Uuid) (o : Option Channel) (n : ℕ) (m : Message) (t : List (ℕ × Message))
    → find ℕ_discrete n t ≡ none
    → ((c : Channel) → o ≡ some c → member ℕ_discrete n c.message_snowflakes ≡ false)
    → log_of uid (insert ℕ_discrete n m t) o ≡ log_of uid t o
log_of-insert_other uid none n m t fresh h = refl
log_of-insert_other uid (some c) n m t fresh h =
    rw (messages_of-insert_other n m t fresh c.message_snowflakes (h c refl)) refl

-- A message that is entered in the channel `c`, and what the user `uid` is to see then.
module _ (m : Message) (c : Channel) (db : Database) (uid : Uuid)
    (fresh : find_message m.snowflake db ≡ none)
    (unlisted : (cid : Uuid) (c : Channel)
      → find_channel cid db ≡ some c
      → member ℕ_discrete m.snowflake c.message_snowflakes ≡ false)
    (there : find_channel m.channel_id db ≡ some c) where
  visible_elsewhere :
      (cid : Uuid)
      → m.channel_id ≢ cid
      → visible uid (add_message_to c m m.channel_id db).0 cid ≡ visible uid db cid
  unfolding add_message_to
  visible_elsewhere cid ne =
      ap (log_of uid (insert ℕ_discrete m.snowflake m db.messages)) (
        find-update_ne uuid_discrete m.channel_id cid (Channel.add_message m.snowflake) db.channels
          ne)
      ∙ log_of-insert_other uid (find_channel cid db) m.snowflake m db.messages fresh (unlisted cid)

  pub visible_there : visible uid (add_message_to c m m.channel_id db).0 m.channel_id ≡ (
      if member uuid_discrete uid c.user_uids
      then some (messages_of c.message_snowflakes db.messages ++ (m ∷ []))
      else none)
  unfolding add_message_to Channel.add_message
  visible_there =
      ap (log_of uid (insert ℕ_discrete m.snowflake m db.messages)) (
        find-update_self uuid_discrete m.channel_id (Channel.add_message m.snowflake) db.channels
        ∙ ap (Option.map (Channel.add_message m.snowflake)) there)
      ∙ rw
          (messages_of-insert_last m.snowflake m db.messages fresh c.message_snowflakes
            (unlisted m.channel_id c there))
          refl

  visible-add_message_in :
      (cid : Uuid)
      → member uuid_discrete uid c.user_uids ≡ true
      → with_log m.channel_id
          (messages_of c.message_snowflakes db.messages ++ (m ∷ []))
          (visible uid db)
          cid
        ≡ visible uid (add_message_to c m m.channel_id db).0 cid
  visible-add_message_in cid e = elim (uuid_discrete m.channel_id cid) [
    | yes p ↦
        if_pos (uuid_discrete m.channel_id cid) p
          (some (messages_of c.message_snowflakes db.messages ++ (m ∷ []))) (visible uid db cid)
        ∙ subst
            (λ i.
              some (messages_of c.message_snowflakes db.messages ++ (m ∷ []))
              ≡ visible uid (add_message_to c m m.channel_id db).0 i)
            p (sym (visible_there ∙ rw e refl))
    | no p ↦
        if_neg (uuid_discrete m.channel_id cid) p
          (some (messages_of c.message_snowflakes db.messages ++ (m ∷ []))) (visible uid db cid)
        ∙ sym (visible_elsewhere cid p)
  ]

  visible-add_message_out :
      (cid : Uuid)
      → member uuid_discrete uid c.user_uids ≡ false
      → visible uid db cid ≡ visible uid (add_message_to c m m.channel_id db).0 cid
  visible-add_message_out cid e = elim (uuid_discrete m.channel_id cid) [
    | yes p ↦
        subst (λ i. visible uid db i ≡ visible uid (add_message_to c m m.channel_id db).0 i) p
          (ap (log_of uid db.messages) there
            ∙ ◌∙◌ {b = none} (rw e refl) (sym (visible_there ∙ rw e refl)))
    | no p ↦ sym (visible_elsewhere cid p)
  ]

  heard_added :
      (user : User)
      → find_user uid db ≡ some user
      → Once db
      → heard_from uid (add_message_to c m m.channel_id db).2
        ≡ (if member uuid_discrete uid c.user_uids then message_sent (success m) ∷ [] else [])
  unfolding add_message_to
  heard_added user known once =
      heard_from-emit_each (λ x. message_received x m) (message_sent (success m))
        (unfold emitter in λ x. refl) (unfold slot in λ x. refl) db.users uid user c.user_uids known
        (once m.channel_id c there)

  add_message_to-Shows :
      (user : User) (s : Session)
      → find_user uid db ≡ some user
      → Once db
      → Shows (visible uid db) s
      → Runs
          (map on_arrival (heard_from uid (add_message_to c m m.channel_id db).2))
          s
          (Shows (visible uid (add_message_to c m m.channel_id db).0))
  add_message_to-Shows user s known once v =
      let heard = heard_added user known once in
      elim (Bool-cases (member uuid_discrete uid c.user_uids)) [
        | inl e ↦
            let logged : visible uid db m.channel_id
                ≡ some (messages_of c.message_snowflakes db.messages) =
              ap (log_of uid db.messages) there ∙ rw e refl in
            let (next, notices, runs, shows) =
              sent-Shows (visible uid db) m (messages_of c.message_snowflakes db.messages) s logged
                v in
            rw (heard, e)
              (next, notices, runs, Shows-same _ _ next (λ cid. visible-add_message_in cid e) shows)
        | inr e ↦ rw (heard, e) (Shows-same _ _ s (λ cid. visible-add_message_out cid e) v)
      ]

-- A user that is logged in while a message is sent: the session stays in step.
pub add_message-Shows :
    (sender at : Uuid) (text : Bytes) (n now : ℕ) (db : Database) (uid : Uuid) (user : User)
    (s : Session)
    → find_message n db ≡ none
    → ((cid : Uuid) (c : Channel)
        → find_channel cid db ≡ some c
        → member ℕ_discrete n c.message_snowflakes ≡ false)
    → Once db
    → find_user uid db ≡ some user
    → Shows (visible uid db) s
    → Runs
        (map on_arrival (heard_from uid (add_message sender at text n now db).2))
        s
        (Shows (visible uid (add_message sender at text n now db).0))
unfolding add_message new_message
add_message-Shows sender at text n now db uid user s fresh unlisted once known v =
    elim (Option-cases (find_channel at db)) [
      | inl gone ↦ rw (gone, add_message) (unfold heard_from in v)
      | inr (c, there) ↦
          rw (there, add_message)
            (add_message_to-Shows (new_message sender at text n now) c db uid fresh unlisted there
              user s known once v)
    ]

pub add_message-Once :
    (sender at : Uuid) (text : Bytes) (n now : ℕ) (db : Database)
    → Once db
    → Once (add_message sender at text n now db).0
unfolding add_message add_message_to Channel.add_message new_message
add_message-Once sender at text n now db once = elim (Option-cases (find_channel at db)) [
  | inl gone ↦ rw (gone, add_message) once
  | inr (c, there) ↦
      rw (there, add_message)
        λ cid c' e.
          let (old, found, same) =
            found-update uuid_discrete at cid (Channel.add_message n) db.channels c' e in
          rw same (
            rw
              (ite-kept (λ (x : Channel). x.user_uids) (uuid_discrete at cid)
                (Channel.add_message n old) old refl)
              (once cid old found))
]
