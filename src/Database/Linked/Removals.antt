-- ===== src/Database/Linked/Removals.antt =====
-- `Database::remove_message` and `Database::remove_user` and the references between the tables.
use wire_protocols.Prelude.{
  ℕ, zero, suc, ◌≡◌, ◌≢◌, refl, sym, ap, ◌∙◌, subst, if_pos, if_neg, some, none, List, [], ◌∷◌,
  true, member, member_of-remove_all, member-remove_all_ne, ℕ_discrete, length, take, drop,
  take-append, append-nil, get_elem?, remove_all, Option-cases, inl, inr,
}
use wire_protocols.Uuid.{Uuid, uuid_discrete}
use wire_protocols.Models.User.{User}
use wire_protocols.Models.Message.{Message}
use wire_protocols.Models.Channel
use wire_protocols.Models.Channel.{Channel}
use wire_protocols.Database.{Database, find_user, find_message, find_channel}
use wire_protocols.Database.Removal.{
  remove_message, remove_message_from, remove_user, leave_channels, purge_channel, purge,
  own_message, cell, Cells, elements, erase_cells,
}
use wire_protocols.Database.Table.{find, update, found-update, missing-update, found-erase}
use wire_protocols.Database.Linked.{Linked}

-- What an operation that takes entries out may leave of a channel, where it says nothing of the
-- members outside `P`.
pub record Less (P : Uuid → Type 0) (before behind : Channel) : Type 0 where
  pub same_uid : behind.uid ≡ before.uid
  pub listed :
      (n : ℕ)
      → member ℕ_discrete n behind.message_snowflakes ≡ true
      → member ℕ_discrete n before.message_snowflakes ≡ true
  pub members :
      (uid : Uuid)
      → P uid
      → member uuid_discrete uid behind.user_uids ≡ member uuid_discrete uid before.user_uids

Less-refl : (P : Uuid → Type 0) (c : Channel) → Less P c c
Less-refl P c = record { same_uid = refl; listed = λ n e. e; members = λ uid p. refl }

-- The same of a table of channels, which loses no channel.
pub record Shrunk (P : Uuid → Type 0) (before behind : List (Uuid × Channel)) : Type 0 where
  pub present :
      (cid : Uuid) (c : Channel)
      → find uuid_discrete cid behind ≡ some c
      → (old : Channel) × (find uuid_discrete cid before ≡ some old) × Less P old c
  pub missing :
      (cid : Uuid) → find uuid_discrete cid behind ≡ none → find uuid_discrete cid before ≡ none

Shrunk-refl : (P : Uuid → Type 0) (t : List (Uuid × Channel)) → Shrunk P t t
Shrunk-refl P t = record { present = λ cid c e. (c, e, Less-refl P c); missing = λ cid e. e }

Shrunk-trans :
    (P : Uuid → Type 0) (r s t : List (Uuid × Channel)) → Shrunk P r s → Shrunk P s t → Shrunk P r t
Shrunk-trans P r s t h k = record {
  present = λ cid c e.
      let (mid, fm, lm) = k.present cid c e in
      let (old, fo, lo) = h.present cid mid fm in
      (
        old,
        fo,
        record {
          same_uid = lm.same_uid ∙ lo.same_uid;
          listed = λ n q. lo.listed n (lm.listed n q);
          members = λ uid p. lm.members uid p ∙ lo.members uid p;
        },
      );
  missing = λ cid e. h.missing cid (k.missing cid e);
}

Shrunk-update :
    (P : Uuid → Type 0) (at : Uuid) (f : Channel → Channel) (t : List (Uuid × Channel))
    → ((c : Channel) → find uuid_discrete at t ≡ some c → Less P c (f c))
    → Shrunk P t (update uuid_discrete at f t)
Shrunk-update P at f t h = record {
  present = λ cid c e.
      let (old, fo, q) = found-update uuid_discrete at cid f t c e in
      (
        old,
        fo,
        elim (uuid_discrete at cid) [
          | yes p ↦
              subst (Less P old) (sym (q ∙ if_pos (uuid_discrete at cid) p (f old) old))
                (h old (subst (λ k. find uuid_discrete k t ≡ some old) (sym p) fo))
          | no p ↦
              subst (Less P old) (sym (q ∙ if_neg (uuid_discrete at cid) p (f old) old))
                (Less-refl P old)
        ],
      );
  missing = λ cid e. missing-update uuid_discrete at cid f t e;
}

-- A database that loses users and messages, and whose channels shrink.
pub record Pruned (P : Uuid → Type 0) (db db' : Database) : Type 0 where
  pub users :
      (uid : Uuid) (u : User) → find_user uid db' ≡ some u → P uid × (find_user uid db ≡ some u)
  pub messages : (n : ℕ) (m : Message) → find_message n db' ≡ some m → find_message n db ≡ some m
  pub channels : Shrunk P db.channels db'.channels

Linked-Pruned : (P : Uuid → Type 0) (db db' : Database) → Pruned P db db' → Linked db → Linked db'
Linked-Pruned P db db' pruned l =
    let s = pruned.channels in
    record {
      keyed = λ cid c fc. let (old, fo, q) = s.present cid c fc in q.same_uid ∙ l.keyed cid old fo;
      filed = λ cid c n m fc listed fm.
          let (old, fo, q) = s.present cid c fc in
          l.filed cid old n m fo (q.listed n listed) (pruned.messages n m fm);
      joined = λ uid cid u c fu fc.
          let (p, fu') = pruned.users uid u fu in
          let (old, fo, q) = s.present cid c fc in
          l.joined uid cid u old fu' fo ∙ sym (q.members uid p);
      known = λ uid cid u fu fc. l.known uid cid u (pruned.users uid u fu).1 (s.missing cid fc);
    }

-- `remove_message` takes the snowflake from its channel, and the message.
pub remove_message-Pruned :
    (n : ℕ) (db : Database) → Pruned (λ uid. Unit {0}) db (remove_message n db).0
unfolding remove_message remove_message_from Channel.remove_message
remove_message-Pruned n db = elim (Option-cases (find_message n db)) [
  | inl gone ↦ rw (gone, remove_message) same
  | inr (m, there) ↦ elim (Option-cases (find_channel m.channel_id db)) [
    | inl gone ↦ rw (there, remove_message, gone) same
    | inr (c, found) ↦
        rw (there, remove_message, found)
          (record {
            users = λ uid u e. (tt, e);
            messages = λ k w e. (found-erase ℕ_discrete n k db.messages w e).1;
            channels =
                Shrunk-update (λ uid. Unit {0}) m.channel_id (Channel.remove_message n) db.channels
                  (λ old e. record {
                    same_uid = refl;
                    listed = λ k e. member_of-remove_all ℕ_discrete n k old.message_snowflakes e;
                    members = λ uid p. refl;
                  });
          })
  ]
]
  where
    same : Pruned (λ uid. Unit {0}) db db
    same = record {
      users = λ uid u e. (tt, e);
      messages = λ k w e. e;
      channels = Shrunk-refl (λ uid. Unit {0}) db.channels;
    }

pub remove_message-Linked : (n : ℕ) (db : Database) → Linked db → Linked (remove_message n db).0
remove_message-Linked n db l =
    Linked-Pruned (λ uid. Unit {0}) db (remove_message n db).0 (remove_message-Pruned n db) l

elements-erase_cells :
    (n : ℕ) (c : Cells) → elements (erase_cells n c) ≡ remove_all ℕ_discrete n (elements c)
unfolding elements erase_cells
elements-erase_cells n c =
    let kept = remove_all ℕ_discrete n (take c.size c.memory) in
    take-append kept (drop (length kept) c.memory)

elements_all : (ns : List ℕ) → elements (record { memory = ns; size = length ns }) ≡ ns
unfolding elements
elements_all ns = ap (λ (x : List ℕ). take (length ns) x) (sym (append-nil ns)) ∙ take-append ns []

purge_listed :
    (rounds k : ℕ) (user : Uuid) (messages : List (ℕ × Message)) (c : Cells) (n : ℕ)
    → member ℕ_discrete n (elements (purge rounds k user messages c).0) ≡ true
    → member ℕ_discrete n (elements c) ≡ true
unfolding purge
purge_listed zero k user messages c n e = e
purge_listed (suc rounds) k user messages c n e =
    let i = cell (get_elem? c.memory k) in
    elim (Option-cases (own_message user (find ℕ_discrete i messages))) [
      | inl other ↦ purge_listed rounds (suc k) user messages c n (rw (other, purge) at e)
      | inr (m, own) ↦
          let later =
            purge_listed rounds (suc k) user messages (erase_cells i c) n (rw (own, purge) at e) in
          member_of-remove_all ℕ_discrete i n (elements c)
            (subst (λ (x : List ℕ). member ℕ_discrete n x ≡ true) (elements-erase_cells i c) later)
    ]

purge_channel-Less :
    (user : Uuid) (messages : List (ℕ × Message)) (c : Channel)
    → Less (λ uid. user ≢ uid) c (purge_channel user messages c).0
unfolding purge_channel Channel.remove_user
purge_channel-Less user messages c = record {
  same_uid = refl;
  listed = λ n e.
      let kept =
        purge_listed (length c.message_snowflakes) 0 user messages
          (record { memory = c.message_snowflakes; size = length c.message_snowflakes }) n e in
      subst (λ (x : List ℕ). member ℕ_discrete n x ≡ true) (elements_all c.message_snowflakes) kept;
  members = λ uid ne. member-remove_all_ne uuid_discrete user uid c.user_uids ne;
}

leave_channels-Shrunk :
    (user : Uuid) (uids : List Uuid) (db : Database) (t : List (Uuid × Channel))
    → Shrunk (λ uid. user ≢ uid) t (leave_channels user uids db t).0
unfolding leave_channels
leave_channels-Shrunk user [] db t = Shrunk-refl (λ uid. user ≢ uid) t
leave_channels-Shrunk user (cid ∷ uids) db t = elim (Option-cases (find uuid_discrete cid t)) [
  | inl gone ↦ rw (gone, leave_channels) (leave_channels-Shrunk user uids db t)
  | inr (c, there) ↦
      let left = (purge_channel user db.messages c).0 in
      let next = update uuid_discrete cid (λ _. left) t in
      rw (there, leave_channels)
        (Shrunk-trans (λ uid. user ≢ uid) t next (leave_channels user uids db next).0
          (Shrunk-update (λ uid. user ≢ uid) cid (λ _. left) t
            (λ old e.
              subst (λ x. Less (λ uid. user ≢ uid) x left) (cc)
                (purge_channel-Less user db.messages c)))
          (leave_channels-Shrunk user uids db next))
]

-- `remove_user` takes the user out of the channels, and its messages from their lists.
pub remove_user-Pruned :
    (uid : Uuid) (db : Database) → Pruned (λ other. uid ≢ other) db (remove_user uid db).0
unfolding remove_user
remove_user-Pruned uid db = elim (Option-cases (find_user uid db)) [
  | inl gone ↦
      rw (gone, remove_user)
        (record {
          users =
              λ other u e. ((λ p. let never = subst (λ i. find_user i db ≡ none) p gone in cc), e);
          messages = λ n m e. e;
          channels = Shrunk-refl (λ other. uid ≢ other) db.channels;
        })
  | inr (user, there) ↦
      rw (there, remove_user)
        (record {
          users = λ other u e. found-erase uuid_discrete uid other db.users u e;
          messages = λ n m e. e;
          channels = leave_channels-Shrunk uid user.channels db db.channels;
        })
]

pub remove_user-Linked : (uid : Uuid) (db : Database) → Linked db → Linked (remove_user uid db).0
remove_user-Linked uid db l =
    Linked-Pruned (λ other. uid ≢ other) db (remove_user uid db).0 (remove_user-Pruned uid db) l
