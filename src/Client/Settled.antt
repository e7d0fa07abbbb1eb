-- ===== src/Client/Settled.antt =====
-- The pointers of the windows and of the session to channels, and who is logged in.
pub mod Steps
pub mod Throws
use wire_protocols.Prelude.{
  ℕ, zero, suc, ◌+◌, ◌≡◌, refl, sym, ap, ◌∙◌, subst, if_pos, if_neg, Option, none, some, List, [],
  ◌∷◌, ◌++◌, Option-cases, inl, inr, get_elem?, length,
}
use mathlib.Core.Option
use wire_protocols.Prelude.Try.{◌>>=◌}
use wire_protocols.Uuid.{Uuid, uuid_discrete}
use wire_protocols.Models.User.{User}
use wire_protocols.Models.Message.{Message}
use wire_protocols.Models.Channel
use wire_protocols.Models.Channel.{Channel}
use wire_protocols.Database.Table.{find, update, missing-update}
use wire_protocols.Client
use wire_protocols.Client.{
  Session, modify, discard, put, add_message, add_message_at, remove_message, remove_message_at,
}
use wire_protocols.Client.Handlers.{open_new_channel}
use wire_protocols.Client.View.{find-put}
use wire_protocols.Client.Active.{get_elem?-modify, get_elem?-last}

abbrev pub Log : Type 0
Log = List (ℕ × Message)

-- The pointer leads to a channel whose messages are listed, and a user is logged in.
abbrev pub Fine : Session → ℕ → Type 0
Fine s i =
    ((c : Channel) × (get_elem? s.objects i ≡ some c)
      × ((ms : Log) × (find uuid_discrete c.uid s.channel_messages ≡ some ms)))
    × ((u : User) × (s.authenticated_user ≡ some u))

-- So do the session's pointer to the open channel and the pointers of the list of chats.
pub record Settled (s : Session) (chats : List ℕ) : Type 0 where
  pub opened : (i : ℕ) → s.open_channel ≡ some i → Fine s i
  pub rows : (row i : ℕ) → get_elem? chats row ≡ some i → Fine s i

-- A change that no pointer notices.
pub Settled-kept :
    (s s' : Session) (chats : List ℕ)
    → s'.open_channel ≡ s.open_channel
    → ((i : ℕ) → Fine s i → Fine s' i)
    → Settled s chats
    → Settled s' chats
Settled-kept s s' chats same keeps h = record {
  opened = λ i e. keeps i (h.opened i (sym same ∙ e));
  rows = λ row i e. keeps i (h.rows row i e);
}

-- The messages of a channel changed, and the channel too, but for its identifier.
changed-Fine :
    (s : Session) (at : Uuid) (j : ℕ) (f : Channel → Channel) (g : Log → Log)
    → ((d : Channel) → (f d).uid ≡ d.uid)
    → (i : ℕ) → Fine s i
    → Fine
        (record s {
          channel_messages = update uuid_discrete at g s.channel_messages;
          objects = modify j f s.objects;
        })
        i
changed-Fine s at j f g keeps i ((c, there, (ms, listed)), who) =
    let (d, found, same) = get_elem?-modify f s.objects i j c keeps there in
    (
      (
        d,
        found,
        elim (Option-cases
            (find uuid_discrete d.uid (update uuid_discrete at g s.channel_messages))) [
              | inl gone ↦
                  let never = missing-update uuid_discrete at d.uid g s.channel_messages gone in
                  let here =
                    subst (λ u. find uuid_discrete u s.channel_messages ≡ some ms) (sym same)
                      listed in
                  cc
              | inr kept ↦ kept
            ],
      ),
      who,
    )

-- What is fine stays fine in the session that a call leaves, if it completes, and the open channel
-- is the same.
abbrev pub FineAfter : Session → Option Session → Type 0
FineAfter s none = Unit {0}
FineAfter s (some s') = (s'.open_channel ≡ s.open_channel) × ((i : ℕ) → Fine s i → Fine s' i)

pub add_message-FineAfter : (k : ℕ) (m : Message) (s : Session) → FineAfter s (add_message k m s)
unfolding add_message add_message_at Channel.add_message
add_message-FineAfter k m s =
    elim (Option-cases (find uuid_discrete m.channel_id s.channel_messages)) [
      | inl gone ↦ rw (gone, add_message) (refl, λ i h. h)
      | inr (ms, there) ↦ elim (Option-cases (find uuid_discrete m.channel_id s.channels)) [
        | inl lost ↦ rw (there, add_message, lost) tt
        | inr (j, at) ↦
            rw (there, add_message, at)
              (
                refl,
                changed-Fine s m.channel_id j (Channel.add_message m.snowflake)
                    (λ ms. ms ++ ((k, m) ∷ [])) (λ d. refl),
              )
      ]
    ]

pub remove_message-FineAfter :
    (k : ℕ) (m : Message) (s : Session) → FineAfter s (remove_message k m s)
unfolding remove_message remove_message_at Channel.remove_message
remove_message-FineAfter k m s =
    elim (Option-cases (find uuid_discrete m.channel_id s.channel_messages)) [
      | inl gone ↦ rw (gone, remove_message) (refl, λ i h. h)
      | inr (ms, there) ↦ elim (Option-cases (find uuid_discrete m.channel_id s.channels)) [
        | inl lost ↦ rw (there, remove_message, lost) tt
        | inr (j, at) ↦
            rw (there, remove_message, at)
              (
                refl,
                changed-Fine s m.channel_id j (Channel.remove_message m.snowflake) (discard k)
                    (λ d. refl),
              )
      ]
    ]

elem-later :
    (cs : List Channel) (c d : Channel) (i : ℕ)
    → get_elem? cs i ≡ some d
    → get_elem? (cs ++ (c ∷ [])) i ≡ some d
elem-later [] c d i e = cc
elem-later (x ∷ cs) c d zero e = e
elem-later (x ∷ cs) c d (suc i) e = elem-later cs c d i e

listed-put :
    (t : List (Uuid × Log)) (k u : Uuid) (ms : Log)
    → find uuid_discrete u t ≡ some ms
    → (ns : Log) × (find uuid_discrete u (put k [] t) ≡ some ns)
listed-put t k u ms e = elim (uuid_discrete k u) [
  | yes p ↦
      ([], find-put k u [] t ∙ if_pos (uuid_discrete k u) p (some []) (find uuid_discrete u t))
  | no p ↦ (
    ms,
    find-put k u [] t ∙ (if_neg (uuid_discrete k u) p (some []) (find uuid_discrete u t) ∙ e),
  )
]

module _ (c : Channel) (user : User) (s : Session) where
  pub open_new_channel-Fine : (i : ℕ) → Fine s i → Fine (open_new_channel c user s) i
  unfolding open_new_channel Client.add_channel Client.set_active_channel
  open_new_channel-Fine i ((d, there, (ms, listed)), (u, known)) = (
    (d, elem-later s.objects c d i there, listed-put s.channel_messages c.uid d.uid ms listed),
    (_, refl),
  )

  pub open_new_channel-new : Fine (open_new_channel c user s) (length s.objects)
  unfolding open_new_channel Client.add_channel Client.set_active_channel
  open_new_channel-new = (
    (
      c,
      get_elem?-last s.objects c,
      (
        [],
        find-put c.uid c.uid [] s.channel_messages
            ∙ if_pos (uuid_discrete c.uid c.uid) refl (some [])
                (find uuid_discrete c.uid s.channel_messages),
      ),
    ),
    (_, refl),
  )
