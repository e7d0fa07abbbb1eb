-- ===== src/Server/Snowflakes.antt =====
-- The snowflakes that a database has, over the handlers of
-- src/bin/server/model/message_handlers.cpp.
use wire_protocols.Prelude.{
  ℕ, suc, ◌≤◌, ◌<◌, ◌≡◌, ◌≢◌, refl, sym, subst, Option, none, some, List, true, false, Bool, arith,
  member, ℕ_discrete, Option-cases, Bool-cases, inl, inr,
}
use wire_protocols.Wire.{Bytes}
use wire_protocols.Uuid.{Uuid, uuid_discrete}
use wire_protocols.Models.Message.{Message, new_message}
use wire_protocols.Models.Channel
use wire_protocols.Models.Channel.{Channel, new_channel}
use wire_protocols.Requests.{
  Request, register, login, list_accounts, delete_account, send_message, delete_message,
  create_channel, SendMessageMessage, RegisterAccountMessage, DeleteAccountMessage,
}
use wire_protocols.Responses.{Variant, success, failure}
use wire_protocols.Database.{
  Database, find_user, find_message, find_channel, get_uid_from_username, verify_password, add_user,
  add_message, add_message_to, add_channel,
}
use wire_protocols.Database.Table.{found-insert, found-update}
use wire_protocols.Database.Removal.{remove_user, remove_message}
use wire_protocols.Database.Linked.{Unused, listed_before}
use wire_protocols.Database.Linked.Removals.{Pruned, remove_message-Pruned, remove_user-Pruned}
use wire_protocols.Server.{
  Step, Draws, Regex, on_register_account, on_delete_account, finish_deletion, on_send_message,
  on_delete_message, on_create_channel, handle_request,
}
use wire_protocols.Server.Accounts.{search-db, login-db, db_of}

-- The snowflakes that a database has are below `n`.
pub record Old (n : ℕ) (db : Database) : Type 0 where
  pub stored : (k : ℕ) (m : Message) → find_message k db ≡ some m → k < n
  pub listed :
      (k : ℕ) (cid : Uuid) (c : Channel)
      → find_channel cid db ≡ some c
      → member ℕ_discrete k c.message_snowflakes ≡ true
      → k < n

-- An identifier that the database has nowhere.
pub record UnusedUid (uid : Uuid) (db : Database) : Type 0 where
  pub no_user : find_user uid db ≡ none
  pub no_channel : find_channel uid db ≡ none
  pub no_member :
      (cid : Uuid) (c : Channel)
      → find_channel cid db ≡ some c
      → member uuid_discrete uid c.user_uids ≡ false

pub Old-fresh :
    (n k : ℕ) (db : Database)
    → Old n db
    → n ≤ k
    → (find_message k db ≡ none)
      × ((cid : Uuid) (c : Channel)
          → find_channel cid db ≡ some c
          → member ℕ_discrete k c.message_snowflakes ≡ false)
Old-fresh n k db old above = (
  elim (Option-cases (find_message k db)) [
    | inl gone ↦ gone
    | inr (m, there) ↦ absurd (omega (arith, above, old.stored k m there))
  ],
  λ cid c e. elim (Bool-cases (member ℕ_discrete k c.message_snowflakes)) [
    | inl here ↦ absurd (omega (arith, above, old.listed k cid c e here))
    | inr unlisted ↦ unlisted
  ],
)

pub Unused-Old :
    (uid : Uuid) (n k : ℕ) (db : Database) → Old n db → n ≤ k → UnusedUid uid db → Unused uid k db
Unused-Old uid n k db old above unused = record {
  no_user = unused.no_user;
  no_channel = unused.no_channel;
  no_message = (Old-fresh n k db old above).0;
  no_member = unused.no_member;
  no_listing = (Old-fresh n k db old above).1;
}

Old-later : (n k : ℕ) (db : Database) → n ≤ k → Old n db → Old k db
Old-later n k db above old = record {
  stored = λ i m e. omega (arith, above, old.stored i m e);
  listed = λ i cid c e l. omega (arith, above, old.listed i cid c e l);
}

Old-Pruned :
    (n : ℕ) (P : Uuid → Type 0) (db db' : Database) → Pruned P db db' → Old n db → Old n db'
Old-Pruned n P db db' pruned old = record {
  stored = λ k m e. old.stored k m (pruned.messages k m e);
  listed = λ k cid c e l.
      let (before, there, less) = pruned.channels.present cid c e in
      old.listed k cid before there (less.listed k l);
}

create-Old :
    (n : ℕ) (name : Bytes) (members : List Uuid) (uid : Uuid) (db : Database)
    → find_channel uid db ≡ none
    → Old n db
    → Old n (add_channel name members uid db).0
unfolding add_channel new_channel
create-Old n name members uid db fresh old = record {
  stored = old.stored;
  listed = λ k cid c e l.
      elim (found-insert uuid_discrete uid cid (new_channel name members uid) db.channels c fresh
        e) [
          | inl (p, q) ↦
              let never =
                subst (λ (x : Channel). member ℕ_discrete k x.message_snowflakes ≡ true) (sym q)
                  l in
              cc
          | inr (p, f) ↦ old.listed k cid c f l
        ];
}

send_to-Old :
    (n : ℕ) (c : Channel) (m : Message) (db : Database)
    → n ≤ m.snowflake
    → find_message m.snowflake db ≡ none
    → Old n db
    → Old (suc m.snowflake) (add_message_to c m m.channel_id db).0
unfolding add_message_to Channel.add_message
send_to-Old n c m db above fresh old = record {
  stored = λ k x e. elim (found-insert ℕ_discrete m.snowflake k m db.messages x fresh e) [
    | inl (p, q) ↦ omega (arith, p)
    | inr (p, f) ↦ omega (arith, above, old.stored k x f)
  ];
  listed = λ k cid d e l.
      let (before, there, same) =
        found-update uuid_discrete m.channel_id cid (Channel.add_message m.snowflake) db.channels d
          e in
      elim (ℕ_discrete m.snowflake k) [
        | yes p ↦ omega (arith, p)
        | no p ↦
            let kept = listed_before m.channel_id cid m.snowflake k before d same l (inl p) in
            omega (arith, above, old.listed k cid before there kept)
      ];
}

send-Old :
    (n k now : ℕ) (sender at : Uuid) (text : Bytes) (db : Database)
    → n ≤ k
    → find_message k db ≡ none
    → Old n db
    → Old (suc k) (add_message sender at text k now db).0
unfolding add_message new_message
send-Old n k now sender at text db above fresh old = elim (Option-cases (find_channel at db)) [
  | inl gone ↦ rw (gone, add_message) (Old-later n (suc k) db (omega (arith, above)) old)
  | inr (c, there) ↦
      rw (there, add_message)
        (send_to-Old n c (new_message sender at text k now) db above fresh old)
]

-- A request that makes no message.
abbrev pub Messageless : Request → Database → Type 0
Messageless (send_message m) db = find_channel m.channel_uid db ≡ none
Messageless _ db = Unit {0}

module _ (evp_sha256 : Bytes → Bytes) where
  register-Old :
      (n : ℕ) (draws : Draws) (m : RegisterAccountMessage) (db : Database) (who : Option Uuid)
      → Old n db
      → Old n (on_register_account evp_sha256 draws m db who).db
  unfolding on_register_account
  register-Old n draws m db who old = elim (Option-cases (get_uid_from_username m.username db)) [
    | inr (uid, taken) ↦ rw (taken, on_register_account) old
    | inl free ↦
        rw (free, on_register_account)
          (unfold add_user in record { stored = old.stored; listed = old.listed })
  ]

  deletion-Old :
      (n : ℕ) (m : DeleteAccountMessage) (db : Database) (who : Option Uuid)
      → Old n db
      → Old n (on_delete_account evp_sha256 m db who).db
  unfolding on_delete_account
  deletion-Old n m db who old = elim (Option-cases (get_uid_from_username m.username db)) [
    | inl e ↦ rw (e, on_delete_account) old
    | inr (uid, e) ↦
        rw (e, on_delete_account) (go uid (verify_password evp_sha256 uid m.password db))
  ]
    where
      go : (uid : Uuid) (v : Variant Bool) → Old n (finish_deletion evp_sha256 v uid db who).db
      go uid (failure e) = unfold finish_deletion in old
      go uid (success false) = unfold finish_deletion in old
      go uid (success true) =
          unfold finish_deletion in
          Old-Pruned n (λ other. uid ≢ other) db (remove_user uid db).0 (remove_user-Pruned uid db)
            old

  pub other-Old :
      (regex : Regex) (n : ℕ) (draws : Draws) (r : Request) (db : Database) (who : Option Uuid)
      (st : Step)
      → handle_request evp_sha256 regex draws r db who ≡ some st
      → Messageless r db
      → find_channel draws.uid db ≡ none
      → Old n db
      → Old n st.db
  unfolding handle_request on_send_message on_delete_message on_create_channel add_message
  other-Old regex n draws (register m) db who st e o fresh old =
      subst (λ x. Old n (db_of x)) e (register-Old n draws m db who old)
  other-Old regex n draws (login m) db who st e o fresh old =
      subst (Old n) (sym (login-db evp_sha256 m db who st e)) old
  other-Old regex n draws (list_accounts m) db who st e o fresh old =
      subst (λ x. Old n (db_of x)) e (subst (Old n) (sym (search-db regex m db who)) old)
  other-Old regex n draws (delete_account m) db who st e o fresh old =
      subst (λ x. Old n (db_of x)) e (deletion-Old n m db who old)
  other-Old regex n draws (send_message m) db who st e o fresh old =
      subst (λ x. Old n (db_of x)) e (rw (o, add_message) old)
  other-Old regex n draws (delete_message m) db who st e o fresh old =
      subst (λ x. Old n (db_of x)) e
        (Old-Pruned n (λ uid. Unit {0}) db (remove_message m.message_snowflake db).0
          (remove_message-Pruned m.message_snowflake db) old)
  other-Old regex n draws (create_channel m) db who st e o fresh old =
      subst (λ x. Old n (db_of x)) e (create-Old n m.channel_name m.members draws.uid db fresh old)

  pub sent-Old :
      (regex : Regex) (n : ℕ) (draws : Draws) (m : SendMessageMessage) (db : Database)
      (who : Option Uuid) (st : Step)
      → handle_request evp_sha256 regex draws (send_message m) db who ≡ some st
      → n ≤ draws.snowflake
      → find_message draws.snowflake db ≡ none
      → Old n db
      → Old (suc draws.snowflake) st.db
  unfolding handle_request on_send_message
  sent-Old regex n draws m db who st e above fresh old =
      subst (λ x. Old (suc draws.snowflake) (db_of x)) e
        (send-Old n draws.snowflake draws.now m.sender_uid m.channel_uid m.text db above fresh old)

  -- Where no message is made, no snowflake is used.
  pub unused_snowflake :
      (regex : Regex) (draws : Draws) (r : Request) (db : Database) (who : Option Uuid) (k : ℕ)
      → Messageless r db
      → handle_request evp_sha256 regex draws r db who
        ≡ handle_request evp_sha256 regex (record draws { snowflake = k }) r db who
  unfolding handle_request on_send_message on_create_channel add_message on_register_account
  unused_snowflake regex draws (register m) db who k o =
      elim (Option-cases (get_uid_from_username m.username db)) [
        | inl free ↦ rw free refl
        | inr (uid, taken) ↦ rw taken refl
      ]
  unused_snowflake regex draws (login m) db who k o = refl
  unused_snowflake regex draws (list_accounts m) db who k o = refl
  unused_snowflake regex draws (delete_account m) db who k o = refl
  unused_snowflake regex draws (send_message m) db who k o = rw (o, add_message) refl
  unused_snowflake regex draws (delete_message m) db who k o = refl
  unused_snowflake regex draws (create_channel m) db who k o = refl
