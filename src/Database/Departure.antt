-- ===== src/Database/Departure.antt =====
-- What `Database::remove_user` takes out of the database, and what it leaves there.
use wire_protocols.Prelude.{
  ℕ, zero, suc, ◌≡◌, ◌≢◌, refl, sym, ◌∙◌, subst, if_pos, if_neg, Option, none, some, List, [], ◌∷◌,
  All, remove_all, get_elem?, Option-cases, inl, inr,
}
use wire_protocols.Uuid.{Uuid, uuid_discrete}
use wire_protocols.Models.User.{User}
use wire_protocols.Models.Channel
use wire_protocols.Models.Channel.{Channel}
use wire_protocols.Responses.{success}
use wire_protocols.Database.{Database, find_user, find_channel}
use wire_protocols.Database.Removal.{purge_channel, leave_channels, remove_user}
use wire_protocols.Database.Table.{
  find, update, find-update_self, find-update_ne, find-erase_self, find-erase_ne,
}

-- The channel, if it is there, does not list the user.
abbrev pub Left : Uuid → Option Channel → Type 0
Left user none = Unit {0}
Left user (some c) = All (λ member. member ≢ user) c.user_uids

remove_all-Left :
    (user : Uuid) (uids : List Uuid) → All (λ m. m ≢ user) (remove_all uuid_discrete user uids)
unfolding remove_all
remove_all-Left user [] = tt
remove_all-Left user (m ∷ uids) = elim (uuid_discrete m user) [
  | yes p ↦ rw (if_pos _ p) (remove_all-Left user uids)
  | no p ↦ rw (if_neg _ p) (p, remove_all-Left user uids)
]

module _ (user : Uuid) (db : Database) where
  -- The channels after one round of the loop.
  round : Uuid → Channel → List (Uuid × Channel) → List (Uuid × Channel)
  round uid c t = update uuid_discrete uid (λ _. (purge_channel user db.messages c).0) t

  round-Left :
      (uid cid : Uuid) (c : Channel) (t : List (Uuid × Channel))
      → find uuid_discrete uid t ≡ some c
      → (uid ≢ cid → Left user (find uuid_discrete cid t))
      → Left user (find uuid_discrete cid (round uid c t))
  unfolding round purge_channel
  round-Left uid cid c t there h = elim (uuid_discrete uid cid) [
    | yes p ↦
        let found : find uuid_discrete cid (round uid c t)
            ≡ some (purge_channel user db.messages c).0 =
          subst
            (λ k. find uuid_discrete k (round uid c t) ≡ some (purge_channel user db.messages c).0)
            p
            (find-update_self uuid_discrete uid (λ _. (purge_channel user db.messages c).0) t
              ∙ rw there) in
        subst (Left user) (sym found)
          (unfold purge_channel Channel.remove_user in remove_all-Left user c.user_uids)
    | no p ↦
        subst (Left user)
          (sym
            (find-update_ne uuid_discrete uid cid (λ _. (purge_channel user db.messages c).0) t p))
          (h p)
  ]

  stays-Left :
      (uids : List Uuid) (cid : Uuid) (t : List (Uuid × Channel))
      → Left user (find uuid_discrete cid t)
      → Left user (find uuid_discrete cid (leave_channels user uids db t).0)
  unfolding leave_channels round
  stays-Left [] cid t h = h
  stays-Left (uid ∷ uids) cid t h = elim (Option-cases (find uuid_discrete uid t)) [
    | inl gone ↦ rw (gone, leave_channels) (stays-Left uids cid t h)
    | inr (c, there) ↦
        rw (there, leave_channels)
          (stays-Left uids cid (round uid c t) (round-Left uid cid c t there (λ _. h)))
  ]

  leave_channels-Left :
      (uids : List Uuid) (i : ℕ) (cid : Uuid) (t : List (Uuid × Channel))
      → get_elem? uids i ≡ some cid
      → Left user (find uuid_discrete cid (leave_channels user uids db t).0)
  unfolding leave_channels round
  leave_channels-Left [] i cid t e = cc
  leave_channels-Left (uid ∷ uids) zero cid t e = elim (Option-cases (find uuid_discrete uid t)) [
    | inl gone ↦
        let same : uid ≡ cid = cc in
        rw (gone, leave_channels)
          (stays-Left uids cid t
            (subst (λ k. Left user (find uuid_discrete k t)) same (rw gone tt)))
    | inr (c, there) ↦
        rw (there, leave_channels)
          (stays-Left uids cid (round uid c t)
            (round-Left uid cid c t there (λ ne. absurd (ne cc))))
  ]
  leave_channels-Left (uid ∷ uids) (suc i) cid t e =
      elim (Option-cases (find uuid_discrete uid t)) [
        | inl gone ↦ rw (gone, leave_channels) (leave_channels-Left uids i cid t e)
        | inr (c, there) ↦
            rw (there, leave_channels) (leave_channels-Left uids i cid (round uid c t) e)
      ]

  leave_channels_other :
      (uids : List Uuid) (cid : Uuid) (t : List (Uuid × Channel))
      → All (λ uid. uid ≢ cid) uids
      → find uuid_discrete cid (leave_channels user uids db t).0 ≡ find uuid_discrete cid t
  unfolding leave_channels round
  leave_channels_other [] cid t h = refl
  leave_channels_other (uid ∷ uids) cid t h = elim (Option-cases (find uuid_discrete uid t)) [
    | inl gone ↦ rw (gone, leave_channels) (leave_channels_other uids cid t h.1)
    | inr (c, there) ↦
        rw (there, leave_channels)
          (leave_channels_other uids cid (round uid c t) h.1
            ∙ find-update_ne uuid_discrete uid cid (λ _. (purge_channel user db.messages c).0) t
                h.0)
  ]

-- A user that is there is removed: it is no longer found, and no channel that it had joined lists
-- it. Other users and the channels that it had not joined are as they were. The user's messages
-- stay in the message table, and its password stays in the password table.
pub remove_user-Left :
    (uid : Uuid) (db : Database) (user : User)
    → find_user uid db ≡ some user
    → let (after, result, signals) = remove_user uid db in
      (result ≡ success user)
      × (find_user uid after ≡ none)
      × ((other : Uuid) → uid ≢ other → find_user other after ≡ find_user other db)
      × ((i : ℕ) (cid : Uuid)
          → get_elem? user.channels i ≡ some cid
          → Left uid (find_channel cid after))
      × ((cid : Uuid)
          → All (λ joined. joined ≢ cid) user.channels
          → find_channel cid after ≡ find_channel cid db)
      × (after.messages ≡ db.messages)
      × (after.passwords ≡ db.passwords)
unfolding remove_user
remove_user-Left uid db user there =
    rw (there, remove_user)
      (
        refl,
        find-erase_self uuid_discrete uid db.users,
        (λ other ne. find-erase_ne uuid_discrete uid other db.users ne),
        (λ i cid e. leave_channels-Left uid db user.channels i cid db.channels e),
        (λ cid h. leave_channels_other uid db user.channels cid db.channels h),
        refl,
        refl,
      )
