-- ===== src/Database/Linked/Channels.antt =====
-- `Database::add_channel` and the references between the tables.
use wire_protocols.Prelude.{
  ◌≡◌, ◌≢◌, refl, sym, ap, ◌∙◌, subst, ite, if_pos, if_neg, some, none, List, [], ◌∷◌, true, ◌||◌,
  arith, member, member-append_one, ℕ_discrete, inl, inr,
}
use wire_protocols.Wire.{Bytes}
use wire_protocols.Uuid.{Uuid, uuid_discrete}
use wire_protocols.Models.User
use wire_protocols.Models.User.{User}
use wire_protocols.Models.Channel.{Channel, new_channel}
use wire_protocols.Database.{Database, find_channel, add_channel, enrol}
use wire_protocols.Database.Table.{find, update, found-insert, missing-insert, found-update}
use wire_protocols.Database.Linked.{Linked}

-- What enrolling one user does to the channels of another.
enrolled_one :
    (ch x uid cid : Uuid) (a b : User)
    → b ≡ ite (uuid_discrete x uid) (User.add_channel ch a) a
    → member uuid_discrete cid b.channels
      ≡ ite
          (uuid_discrete x uid)
          (ite (uuid_discrete ch cid) true (member uuid_discrete cid a.channels))
          (member uuid_discrete cid a.channels)
unfolding User.add_channel
enrolled_one ch x uid cid a b e = elim (uuid_discrete x uid) [
  | yes p ↦
      rw
        (
          e ∙ if_pos (uuid_discrete x uid) p (User.add_channel ch a) a,
          if_pos (uuid_discrete x uid) p,
        )
        (member-append_one uuid_discrete cid ch a.channels)
  | no p ↦
      rw (
        e ∙ if_neg (uuid_discrete x uid) p (User.add_channel ch a) a,
        if_neg (uuid_discrete x uid) p,
      )
]

-- A user after the loop over the members.
pub found-enrol :
    (ch uid : Uuid) (uids : List Uuid) (users : List (Uuid × User)) (b : User)
    → find uuid_discrete uid (enrol ch uids users) ≡ some b
    → (a : User) × (find uuid_discrete uid users ≡ some a)
      × ((cid : Uuid)
          → ch ≢ cid
          → member uuid_discrete cid b.channels ≡ member uuid_discrete cid a.channels)
      × (member uuid_discrete ch b.channels
          ≡ (member uuid_discrete uid uids || member uuid_discrete ch a.channels))
unfolding enrol
found-enrol ch uid [] users b e = (b, e, (λ cid ne. refl), refl)
found-enrol ch uid (x ∷ uids) users b e =
    let (a', fa', others, mine) =
      found-enrol ch uid uids (update uuid_discrete x (User.add_channel ch) users) b e in
    let (a, fa, ea) = found-update uuid_discrete x uid (User.add_channel ch) users a' fa' in
    (
      a,
      fa,
      (λ cid ne. others cid ne ∙ ground (arith, enrolled_one ch x uid cid a a' ea)),
      mine ∙ ground (arith, enrolled_one ch x uid ch a a' ea),
    )

-- A channel under an identifier that no channel has; its members need not be there.
pub add_channel-Linked :
    (name : Bytes) (members : List Uuid) (ch : Uuid) (db : Database)
    → find_channel ch db ≡ none
    → Linked db
    → Linked (add_channel name members ch db).0
unfolding add_channel new_channel
add_channel-Linked name members ch db fresh l =
    let c₀ = new_channel name members ch in
    record {
      keyed = λ cid c fc. elim (found-insert uuid_discrete ch cid c₀ db.channels c fresh fc) [
        | inl (p, q) ↦ rw (sym q) p
        | inr (p, f) ↦ l.keyed cid c f
      ];
      filed = λ cid c n m fc listed fm.
          elim (found-insert uuid_discrete ch cid c₀ db.channels c fresh fc) [
            | inl (p, q) ↦
                let listed' =
                  subst (λ (x : Channel). member ℕ_discrete n x.message_snowflakes ≡ true) (sym q)
                    listed in
                cc
            | inr (p, f) ↦ l.filed cid c n m f listed fm
          ];
      joined = λ uid cid u c fu fc.
          let (a, fa, others, mine) = found-enrol ch uid members db.users u fu in
          elim (found-insert uuid_discrete ch cid c₀ db.channels c fresh fc) [
            | inl (p, q) ↦
                let out = l.known uid ch a fa fresh in
                let mine' : member uuid_discrete ch u.channels ≡ member uuid_discrete uid members =
                  ground (arith, mine, out) in
                subst
                  (λ k. member uuid_discrete k u.channels ≡ member uuid_discrete uid c.user_uids) p
                  (mine' ∙ ap (λ (x : Channel). member uuid_discrete uid x.user_uids) q)
            | inr (p, f) ↦ others cid p ∙ l.joined uid cid a c fa f
          ];
      known = λ uid cid u fu fc.
          let (a, fa, others, mine) = found-enrol ch uid members db.users u fu in
          let (p, f) = missing-insert uuid_discrete ch cid c₀ db.channels fresh fc in
          others cid p ∙ l.known uid cid a fa f;
    }
