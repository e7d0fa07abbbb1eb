-- ===== src/Replica/Creating.antt =====
-- `Database::add_channel` of src/bin/server/db/database.cpp, as the members of the channel see it.
use wire_protocols.Prelude.{
  ◌≡◌, refl, sym, ap, ◌∙◌, subst, ite, if_pos, if_neg, none, some, List, [], ◌∷◌, false,
  if◌then◌else◌, member, Distinct, Bool-cases, inl, inr, map,
}
use wire_protocols.Wire.{Bytes}
use wire_protocols.Uuid.{Uuid, uuid_discrete}
use wire_protocols.Models.User.{User}
use wire_protocols.Models.Channel.{Channel, new_channel, blank_channel, received_channel}
use wire_protocols.Responses.{success, on_arrival, channel_created}
use wire_protocols.Database.{Database, find_user, find_channel, add_channel, channel_added}
use wire_protocols.Database.Table.{find-insert_fresh, found-insert}
use wire_protocols.Server.Connections.{emitter, slot, heard_from}
use wire_protocols.Client.{Session}
use wire_protocols.Client.View.{Shows, Runs, Shows-same, created-Shows}
use wire_protocols.Replica.{log_of, visible, Once}
use wire_protocols.Replica.Hearing.{heard_from-emit_each}

-- A channel of the users `members` under an identifier that no channel has.
module _ (name : Bytes) (members : List Uuid) (ch : Uuid) (db : Database)
    (fresh : find_channel ch db ≡ none) where
  visible_after :
      (uid cid : Uuid)
      → visible uid (add_channel name members ch db).0 cid
        ≡ ite
            (uuid_discrete ch cid)
            (if member uuid_discrete uid members then some [] else none)
            (visible uid db cid)
  unfolding add_channel new_channel
  visible_after uid cid =
      let found =
        find-insert_fresh uuid_discrete ch cid (new_channel name members ch) db.channels fresh in
      elim (uuid_discrete ch cid) [
        | yes p ↦
            ap (log_of uid db.messages) (
              found
              ∙ if_pos (uuid_discrete ch cid) p (some (new_channel name members ch))
                  (find_channel cid db))
            ∙ sym (
                if_pos (uuid_discrete ch cid) p
                  (if member uuid_discrete uid members then some [] else none) (visible uid db cid))
        | no p ↦
            ap (log_of uid db.messages) (
              found
              ∙ if_neg (uuid_discrete ch cid) p (some (new_channel name members ch))
                  (find_channel cid db))
            ∙ sym (
                if_neg (uuid_discrete ch cid) p
                  (if member uuid_discrete uid members then some [] else none) (visible uid db cid))
      ]

  visible_out :
      (uid cid : Uuid)
      → member uuid_discrete uid members ≡ false
      → visible uid db cid ≡ visible uid (add_channel name members ch db).0 cid
  visible_out uid cid e = elim (uuid_discrete ch cid) [
    | yes p ↦
        ap (log_of uid db.messages) (subst (λ i. find_channel i db ≡ none) p fresh)
        ∙ sym (visible_after uid cid ∙ rw (if_pos (uuid_discrete ch cid) p, e) refl)
    | no p ↦ sym (
        visible_after uid cid
        ∙ if_neg (uuid_discrete ch cid) p
            (if member uuid_discrete uid members then some [] else none) (visible uid db cid))
  ]

  heard_created :
      (uid : Uuid) (user : User)
      → find_user uid db ≡ some user
      → Distinct uuid_discrete members
      → heard_from uid (add_channel name members ch db).2 ≡ (
          if member uuid_discrete uid members
          then channel_created (success (new_channel name members ch)) ∷ []
          else [])
  unfolding add_channel
  heard_created uid user known once =
      heard_from-emit_each (λ x. channel_added x (new_channel name members ch))
        (channel_created (success (new_channel name members ch))) (unfold emitter in λ x. refl)
        (unfold slot in λ x. refl) db.users uid user members known once

  -- A user that is logged in while a channel is created: the session stays in step.
  pub add_channel-Shows :
      (uid : Uuid) (user : User) (s : Session)
      → find_user uid db ≡ some user
      → Distinct uuid_discrete members
      → Shows (visible uid db) s
      → Runs
          (map on_arrival (heard_from uid (add_channel name members ch db).2))
          s
          (Shows (visible uid (add_channel name members ch db).0))
  unfolding new_channel
  add_channel-Shows uid user s known once v =
      let heard = heard_created uid user known once in
      elim (Bool-cases (member uuid_discrete uid members)) [
        | inl e ↦
            let arriving = received_channel blank_channel (new_channel name members ch) in
            let (next, notices, runs, shows) = created-Shows (visible uid db) arriving s v in
            rw (heard, e)
              (
                next,
                notices,
                runs,
                Shows-same _ _ next (λ cid. sym (visible_after uid cid ∙ rw e refl)) shows,
              )
        | inr e ↦ rw (heard, e) (Shows-same _ _ s (λ cid. visible_out uid cid e) v)
      ]

  pub add_channel-Once :
      Distinct uuid_discrete members → Once db → Once (add_channel name members ch db).0
  unfolding add_channel new_channel
  add_channel-Once d once = λ cid c e.
      elim (found-insert uuid_discrete ch cid (new_channel name members ch) db.channels c fresh e) [
        | inl (p, q) ↦ subst (λ (x : Channel). Distinct uuid_discrete x.user_uids) q d
        | inr (p, f) ↦ once cid c f
      ]
