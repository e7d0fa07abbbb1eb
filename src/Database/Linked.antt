-- ===== src/Database/Linked.antt =====
-- How the tables of src/bin/server/db/database.cpp refer to one another.
pub mod Channels
pub mod Removals
use wire_protocols.Prelude.{
  ℕ, ◌≡◌, ◌≢◌, ◌⊎◌, refl, sym, ap, ◌∙◌, subst, ite, if_pos, if_neg, Option, none, some, List, [],
  ◌∷◌, ◌++◌, Bool, true, false, arith, member, Distinct, member-append_one, ℕ_discrete,
  Option-cases, ite-kept, inl, inr,
}
use wire_protocols.Wire.{Bytes}
use wire_protocols.Uuid.{Uuid, uuid_discrete}
use wire_protocols.Models.User
use wire_protocols.Models.User.{User}
use wire_protocols.Models.Message.{Message, new_message}
use wire_protocols.Models.Channel
use wire_protocols.Models.Channel.{Channel, new_channel}
use wire_protocols.Database
use wire_protocols.Database.{
  Database, empty_database, find_user, find_message, find_channel, add_message, add_message_to,
  add_channel, enrol,
}
use wire_protocols.Database.Table.{
  find, insert, update, find-insert_fresh, found-insert, missing-insert, found-update,
  missing-update,
}

-- The snowflakes, members and channels that the entries of one table name in another.
pub record Linked (db : Database) : Type 0 where
  pub keyed : (cid : Uuid) (c : Channel) → find_channel cid db ≡ some c → c.uid ≡ cid
  pub filed :
      (cid : Uuid) (c : Channel) (n : ℕ) (m : Message)
      → find_channel cid db ≡ some c
      → member ℕ_discrete n c.message_snowflakes ≡ true
      → find_message n db ≡ some m
      → m.channel_id ≡ cid
  pub joined :
      (uid cid : Uuid) (u : User) (c : Channel)
      → find_user uid db ≡ some u
      → find_channel cid db ≡ some c
      → member uuid_discrete cid u.channels ≡ member uuid_discrete uid c.user_uids
  pub known :
      (uid cid : Uuid) (u : User)
      → find_user uid db ≡ some u
      → find_channel cid db ≡ none
      → member uuid_discrete cid u.channels ≡ false

-- An identifier and a snowflake that the database has nowhere.
pub record Unused (uid : Uuid) (snowflake : ℕ) (db : Database) : Type 0 where
  pub no_user : find_user uid db ≡ none
  pub no_channel : find_channel uid db ≡ none
  pub no_message : find_message snowflake db ≡ none
  pub no_member :
      (cid : Uuid) (c : Channel)
      → find_channel cid db ≡ some c
      → member uuid_discrete uid c.user_uids ≡ false
  pub no_listing :
      (cid : Uuid) (c : Channel)
      → find_channel cid db ≡ some c
      → member ℕ_discrete snowflake c.message_snowflakes ≡ false

pub empty_database-Linked : Linked empty_database
unfolding empty_database find
empty_database-Linked = record {
  keyed = λ cid c e. cc;
  filed = λ cid c n m e l f. cc;
  joined = λ uid cid u c e f. cc;
  known = λ uid cid u e f. cc;
}

-- A new user, in no channel.
pub insert-Linked :
    (db : Database) (user : User) (passwords : List (Uuid × (Bytes × Bytes)))
    → user.channels ≡ []
    → find_user user.uid db ≡ none
    → ((cid : Uuid) (c : Channel)
        → find_channel cid db ≡ some c
        → member uuid_discrete user.uid c.user_uids ≡ false)
    → Linked db
    → Linked
        (record db { users = insert uuid_discrete user.uid user db.users; passwords = passwords })
insert-Linked db user passwords alone fresh uninvited l = record {
  keyed = l.keyed;
  filed = l.filed;
  joined = λ uid cid u c fu fc.
      elim (found-insert uuid_discrete user.uid uid user db.users u fresh fu) [
        | inl (p, e) ↦ rw (sym p, sym e, alone) (sym (uninvited cid c fc))
        | inr (p, e) ↦ l.joined uid cid u c e fc
      ];
  known = λ uid cid u fu fc.
      elim (found-insert uuid_discrete user.uid uid user db.users u fresh fu) [
        | inl (p, e) ↦ rw (sym e, alone)
        | inr (p, e) ↦ l.known uid cid u e fc
      ];
}

-- A snowflake other than the new one was listed before.
pub listed_before :
    (at cid : Uuid) (n k : ℕ) (old c : Channel)
    → c ≡ ite (uuid_discrete at cid) (Channel.add_message n old) old
    → member ℕ_discrete k c.message_snowflakes ≡ true
    → (n ≢ k) ⊎ (at ≢ cid)
    → member ℕ_discrete k old.message_snowflakes ≡ true
unfolding Channel.add_message
listed_before at cid n k old c e listed other = elim (uuid_discrete at cid) [
  | yes p ↦
      let whole = e ∙ if_pos (uuid_discrete at cid) p (Channel.add_message n old) old in
      let added =
        sym (member-append_one ℕ_discrete k n old.message_snowflakes)
        ∙ sym (ap (λ (x : Channel). member ℕ_discrete k x.message_snowflakes) whole)
        ∙ listed in
      elim other [
        | inl ne ↦
            sym (if_neg (ℕ_discrete n k) ne true (member ℕ_discrete k old.message_snowflakes))
            ∙ added
        | inr apart ↦ absurd (apart p)
      ]
  | no p ↦
      let whole = e ∙ if_neg (uuid_discrete at cid) p (Channel.add_message n old) old in
      sym (ap (λ (x : Channel). member ℕ_discrete k x.message_snowflakes) whole) ∙ listed
]

-- A message that its channel's entry lists from now on.
pub add_message_to-Linked :
    (channel : Channel) (message : Message) (db : Database)
    → find_message message.snowflake db ≡ none
    → ((cid : Uuid) (c : Channel)
        → find_channel cid db ≡ some c
        → member ℕ_discrete message.snowflake c.message_snowflakes ≡ false)
    → Linked db
    → Linked (add_message_to channel message message.channel_id db).0
unfolding add_message_to Channel.add_message
add_message_to-Linked channel message db fresh unlisted l =
    let n = message.snowflake in
    let add = Channel.add_message n in
    let at = message.channel_id in
    record {
      keyed = λ cid c fc.
          let (old, found, e) = found-update uuid_discrete at cid add db.channels c fc in
          rw e (
            ite-kept (λ (x : Channel). x.uid) (uuid_discrete at cid) (add old) old refl
            ∙ l.keyed cid old found);
      filed = λ cid c k m fc listed fm.
          let (old, found, e) = found-update uuid_discrete at cid add db.channels c fc in
          elim (found-insert ℕ_discrete n k message db.messages m fresh fm) [
            | inl (p, q) ↦ elim (uuid_discrete at cid) [
              | yes here ↦ rw (sym q) here
              | no apart ↦
                  let stays = listed_before at cid n k old c e listed (inr apart) in
                  let never =
                    subst (λ i. member ℕ_discrete i old.message_snowflakes ≡ false) p
                      (unlisted cid old found) in
                  cc
            ]
            | inr (p, fm') ↦
                l.filed cid old k m found (listed_before at cid n k old c e listed (inl p)) fm'
          ];
      joined = λ uid cid u c fu fc.
          let (old, found, e) = found-update uuid_discrete at cid add db.channels c fc in
          l.joined uid cid u old fu found
          ∙ sym (
              ap (λ (x : Channel). member uuid_discrete uid x.user_uids) e
              ∙ ite-kept (λ (x : Channel). member uuid_discrete uid x.user_uids)
                  (uuid_discrete at cid) (add old) old refl);
      known = λ uid cid u fu fc.
          l.known uid cid u fu (missing-update uuid_discrete at cid add db.channels fc);
    }
