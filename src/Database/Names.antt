-- ===== src/Database/Names.antt =====
-- The names of the users of the database: how they are found, and how operations keep them apart.
use wire_protocols.Prelude.{
  ◌≡◌, ◌≢◌, refl, sym, if_neg, Option, none, some, List, [], ◌∷◌, arith, ap, ◌∙◌, inl, inr,
  Option-cases, All, subst,
}
use mathlib.Core.Option
use wire_protocols.Wire.{Bytes}
use wire_protocols.Uuid.{Uuid, uuid_discrete}
use wire_protocols.Models.User
use wire_protocols.Models.User.{User}
use wire_protocols.Database.{Database, find_user, uid_of_name, get_uid_from_username, enrol}
use wire_protocols.Database.Table.{
  find, insert, erase, update, find-insert_fresh, insert_present, find-update_self, find-update_ne,
  find-erase_self, find-erase_ne,
}

uid_of_name_free :
    (name : Bytes) (users : List (Uuid × User)) (uid : Uuid) (user : User)
    → uid_of_name name users ≡ none
    → find uuid_discrete uid users ≡ some user
    → user.username ≢ name
unfolding uid_of_name find
uid_of_name_free name [] uid user e found = λ _. cc
uid_of_name_free name ((j, v) ∷ users) uid user e found =
    ground (arith, uid_of_name_free name users uid user)

pub uid_of_name_taken :
    (name : Bytes) (users : List (Uuid × User))
    → All (λ entry. entry.1.username ≢ name) users
    → uid_of_name name users ≡ none
unfolding uid_of_name
uid_of_name_taken name [] h = refl
uid_of_name_taken name ((j, v) ∷ users) h = rw (if_neg _ h.0) (uid_of_name_taken name users h.1)

-- No two users have one name.
abbrev pub NamesUnique : Database → Type 0
NamesUnique db =
    (u v : Uuid) (a b : User)
    → find_user u db ≡ some a
    → find_user v db ≡ some b
    → a.username ≡ b.username
    → u ≡ v

-- What an operation may do to the users: each one that is there afterwards was there with the name.
abbrev pub NamesKept : List (Uuid × User) → List (Uuid × User) → Type 0
NamesKept before behind =
    (u : Uuid) (b : User)
    → find uuid_discrete u behind ≡ some b
    → (a : User) × (find uuid_discrete u before ≡ some a) × (a.username ≡ b.username)

pub NamesKept-NamesUnique :
    (db db' : Database) → NamesKept db.users db'.users → NamesUnique db → NamesUnique db'
NamesKept-NamesUnique db db' kept unique u v a b fa fb same =
    let (a', ga, ea) = kept u a fa in
    let (b', gb, eb) = kept v b fb in unique u v a' b' ga gb (ea ∙ same ∙ sym eb)

pub NamesKept-refl : (users : List (Uuid × User)) → NamesKept users users
NamesKept-refl users u b e = (b, e, refl)

NamesKept-trans :
    (xs ys zs : List (Uuid × User)) → NamesKept xs ys → NamesKept ys zs → NamesKept xs zs
NamesKept-trans xs ys zs h k u b e =
    let (c, fc, ec) = k u b e in let (a, fa, ea) = h u c fc in (a, fa, ea ∙ ec)

map-some :
    (o : Option User) (f : User → User) (b : User)
    → Option.map f o ≡ some b
    → (a : User) × (o ≡ some a) × (f a ≡ b)
map-some none f b e = cc
map-some (some a) f b e = (a, refl, cc)

NamesKept-update :
    (uid : Uuid) (f : User → User) (users : List (Uuid × User))
    → ((x : User) → (f x).username ≡ x.username)
    → NamesKept users (update uuid_discrete uid f users)
NamesKept-update uid f users same u b e = elim (uuid_discrete uid u) [
  | yes p ↦
      let found : Option.map f (find uuid_discrete u users) ≡ some b =
        sym (
          subst
            (λ k.
              find uuid_discrete u (update uuid_discrete k f users)
              ≡ Option.map f (find uuid_discrete u users))
            (sym p) (find-update_self uuid_discrete u f users))
        ∙ e in
      let (a, fa, ea) = map-some (find uuid_discrete u users) f b found in
      (a, fa, sym (same a) ∙ ap (λ (x : User). x.username) ea)
  | no p ↦ (b, sym (find-update_ne uuid_discrete uid u f users p) ∙ e, refl)
]

pub NamesKept-enrol :
    (channel : Uuid) (uids : List Uuid) (users : List (Uuid × User))
    → NamesKept users (enrol channel uids users)
unfolding enrol
NamesKept-enrol channel [] users = NamesKept-refl users
NamesKept-enrol channel (uid ∷ uids) users =
    let first = update uuid_discrete uid (User.add_channel channel) users in
    NamesKept-trans users first (enrol channel uids first)
      (NamesKept-update uid (User.add_channel channel) users (λ x. unfold User.add_channel in refl))
      (NamesKept-enrol channel uids first)

pub NamesKept-erase :
    (uid : Uuid) (users : List (Uuid × User)) → NamesKept users (erase uuid_discrete uid users)
NamesKept-erase uid users u b e = elim (uuid_discrete uid u) [
  | yes p ↦
      let gone : find uuid_discrete u (erase uuid_discrete uid users) ≡ none =
        subst (λ k. find uuid_discrete u (erase uuid_discrete k users) ≡ none) (sym p)
          (find-erase_self uuid_discrete u users) in
      cc
  | no p ↦ (b, sym (find-erase_ne uuid_discrete uid u users p) ∙ e, refl)
]

-- A new user whose name nobody has.
pub insert-NamesUnique :
    (db db' : Database) (user : User)
    → db'.users ≡ insert uuid_discrete user.uid user db.users
    → get_uid_from_username user.username db ≡ none
    → NamesUnique db
    → NamesUnique db'
unfolding get_uid_from_username
insert-NamesUnique db db' user e free unique u v a b fa fb same =
    elim (Option-cases (find uuid_discrete user.uid db.users)) [
      | inr (w, there) ↦
          let old : db'.users ≡ db.users =
            e ∙ insert_present uuid_discrete user.uid user w db.users there in
          unique u v a b (sym (ap (find uuid_discrete u) old) ∙ fa)
            (sym (ap (find uuid_discrete v) old) ∙ fb) same
      | inl fresh ↦
          let at_u =
            ap (find uuid_discrete u) e
            ∙ find-insert_fresh uuid_discrete user.uid u user db.users fresh in
          let at_v =
            ap (find uuid_discrete v) e
            ∙ find-insert_fresh uuid_discrete user.uid v user db.users fresh in
          ground (
            arith,
            at_u,
            at_v,
            unique u v a b,
            uid_of_name_free user.username db.users u a,
            uid_of_name_free user.username db.users v b,
          )
    ]
