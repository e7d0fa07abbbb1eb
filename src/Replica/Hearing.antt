-- ===== src/Replica/Hearing.antt =====
-- Who hears the signals that src/bin/server/db/database.cpp makes the members of a channel emit.
use wire_protocols.Prelude.{
  ◌≡◌, ◌≢◌, refl, sym, ap, ◌∙◌, subst, if_pos, if_neg, none, some, List, [], ◌∷◌, true, false,
  if◌then◌else◌, member, Distinct, Option-cases, inl, inr,
}
use wire_protocols.Uuid.{Uuid, uuid_discrete}
use wire_protocols.Models.User.{User}
use wire_protocols.Responses.{Response}
use wire_protocols.Database.{Signal, emit_each}
use wire_protocols.Database.Table.{find}
use wire_protocols.Server.Connections.{emitter, slot, heard_from}

module _ (signal : Uuid → Signal) (r : Response) (own : (x : Uuid) → emitter (signal x) ≡ x)
    (same : (x : Uuid) → slot (signal x) ≡ r) (users : List (Uuid × User)) where
  emitted_none :
      (x : Uuid) (uids : List Uuid)
      → find uuid_discrete x users ≡ none
      → emit_each signal users (x ∷ uids) ≡ emit_each signal users uids
  unfolding emit_each
  emitted_none x uids e = rw (e, emit_each) refl

  emitted_some :
      (x : Uuid) (uids : List Uuid) (u : User)
      → find uuid_discrete x users ≡ some u
      → emit_each signal users (x ∷ uids) ≡ signal x ∷ emit_each signal users uids
  unfolding emit_each
  emitted_some x uids u e = rw (e, emit_each) refl

  heard_own : (x : Uuid) (ss : List Signal) → heard_from x (signal x ∷ ss) ≡ r ∷ heard_from x ss
  unfolding heard_from
  heard_own x ss =
      rw (own x, same x) (if_pos (uuid_discrete x x) refl (r ∷ heard_from x ss) (heard_from x ss))

  heard_other :
      (x uid : Uuid) (ss : List Signal)
      → x ≢ uid
      → heard_from uid (signal x ∷ ss) ≡ heard_from uid ss
  unfolding heard_from
  heard_other x uid ss ne =
      rw (own x)
        (if_neg (uuid_discrete x uid) ne (slot (signal x) ∷ heard_from uid ss) (heard_from uid ss))

  heard_past :
      (x uid : Uuid) (uids : List Uuid)
      → x ≢ uid
      → heard_from uid (emit_each signal users (x ∷ uids))
        ≡ heard_from uid (emit_each signal users uids)
  heard_past x uid uids ne = elim (Option-cases (find uuid_discrete x users)) [
    | inl gone ↦ ap (heard_from uid) (emitted_none x uids gone)
    | inr (u, found) ↦
        ap (heard_from uid) (emitted_some x uids u found)
        ∙ heard_other x uid (emit_each signal users uids) ne
  ]

  -- A signal of users that `uid` is not among.
  pub heard_from-emit_each_absent :
      (uid : Uuid) (uids : List Uuid)
      → member uuid_discrete uid uids ≡ false
      → heard_from uid (emit_each signal users uids) ≡ []
  heard_from-emit_each_absent uid [] e = unfold heard_from emit_each in refl
  heard_from-emit_each_absent uid (x ∷ uids) e = elim (uuid_discrete x uid) [
    | yes p ↦ cc (if_pos (uuid_discrete x uid) p true (member uuid_discrete uid uids))
    | no p ↦
        heard_past x uid uids p
        ∙ heard_from-emit_each_absent uid uids
            (sym (if_neg (uuid_discrete x uid) p true (member uuid_discrete uid uids)) ∙ e)
  ]

  -- A user that is there hears a signal of users among whom nobody stands twice once, or not at all.
  pub heard_from-emit_each :
      (uid : Uuid) (user : User) (uids : List Uuid)
      → find uuid_discrete uid users ≡ some user
      → Distinct uuid_discrete uids
      → heard_from uid (emit_each signal users uids)
        ≡ (if member uuid_discrete uid uids then r ∷ [] else [])
  heard_from-emit_each uid user [] there d = unfold heard_from emit_each in refl
  heard_from-emit_each uid user (x ∷ uids) there (fresh, d) = elim (uuid_discrete x uid) [
    | yes p ↦
        let found = subst (λ i. find uuid_discrete i users ≡ some user) (sym p) there in
        ap (heard_from uid) (emitted_some x uids user found)
        ∙ subst (λ i. heard_from i (signal x ∷ emit_each signal users uids) ≡ r ∷ []) p
            (heard_own x (emit_each signal users uids)
              ∙ ap (◌∷◌ r) (heard_from-emit_each_absent x uids fresh))
        ∙ sym (rw (if_pos (uuid_discrete x uid) p true (member uuid_discrete uid uids)) refl)
    | no p ↦
        heard_past x uid uids p
        ∙ heard_from-emit_each uid user uids there d
        ∙ sym (rw (if_neg (uuid_discrete x uid) p true (member uuid_discrete uid uids)) refl)
  ]
