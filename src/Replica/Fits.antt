-- ===== src/Replica/Fits.antt =====
-- One connection of src/bin/server/model/client_handler.cpp next to the session of the client behind
-- it: what was written to the connection, handled as src/bin/client/model/message_handlers.cpp
-- handles it.
use wire_protocols.Prelude.{
  ℕ, ◌≡◌, ◌≢◌, refl, sym, ◌∙◌, subst, ite, if_pos, if_neg, Option, none, some, List, [], ◌∷◌, ◌++◌,
  map, inl, inr, ◌⊎◌, append-nil, append_assoc, ℕ_discrete,
}
use mathlib.Core.Option
use mathlib.Core.List.{map-append}
use wire_protocols.Uuid.{Uuid}
use wire_protocols.Models.User.{User, blank_user, received_user}
use wire_protocols.Responses.{Response, success, on_arrival, logged_in}
use wire_protocols.Database.{Database, find_user}
use wire_protocols.Database.Table.{find}
use wire_protocols.Database.Linked.{Linked}
use wire_protocols.Server.{Step, replay}
use wire_protocols.Server.Connections.{Connection, heard, heard_from, hear, answer, World, settle}
use wire_protocols.Client.{Session, new_session}
use wire_protocols.Client.Handlers.{handle_response, on_login_response, login_success}
use wire_protocols.Client.View.{Shows, Runs, Runs-append, Runs-map}
use wire_protocols.Replica.{visible}
use wire_protocols.Replica.Replaying.{replay-Shows}
use wire_protocols.Replica.Steps.{Steady}
use wire_protocols.Replica.Answers.{Quiet, Answered, kept, opened}

-- What the client makes of all that was written to its connection.
abbrev pub Fit : Database → Option Uuid → List Response → Type 0
Fit db none rs = Runs rs new_session (λ s. s ≡ new_session)
Fit db (some uid) rs =
    ((u : User) × (find_user uid db ≡ some u)) × Runs rs new_session (Shows (visible uid db))

abbrev pub AllFit : World → Type 0
AllFit w =
    (i : ℕ) (c : Connection)
    → find ℕ_discrete i w.connections ≡ some c
    → Fit w.db c.authenticated (map on_arrival c.sent)

pub found-settle :
    (i j : ℕ) (st : Step) (cs : List (ℕ × Connection)) (c' : Connection)
    → find ℕ_discrete j (settle i st cs) ≡ some c'
    → (c : Connection) × (find ℕ_discrete j cs ≡ some c)
      × (((i ≡ j) × (c' ≡ answer st c)) ⊎ ((i ≢ j) × (c' ≡ hear st.signals c)))
unfolding settle find
found-settle i j st [] c' e = cc
found-settle i j st ((k, c) ∷ cs) c' e = elim (ℕ_discrete k j) [
  | yes p ↦
      let now =
        sym (
          if_pos (ℕ_discrete k j) p (some (ite (ℕ_discrete k i) (answer st c) (hear st.signals c)))
            (find ℕ_discrete j (settle i st cs)))
        ∙ e in
      let whole =
        Option.some-injective (ite (ℕ_discrete k i) (answer st c) (hear st.signals c)) c' now in
      (
        c,
        if_pos (ℕ_discrete k j) p (some c) (find ℕ_discrete j cs),
        elim (ℕ_discrete k i) [
          | yes q ↦
              inl
                (sym q ∙ p, sym whole ∙ if_pos (ℕ_discrete k i) q (answer st c) (hear st.signals c))
          | no q ↦ inr (
            λ r. q (p ∙ sym r),
            sym whole ∙ if_neg (ℕ_discrete k i) q (answer st c) (hear st.signals c),
          )
        ],
      )
  | no p ↦
      let (d, there, how) = found-settle i j st cs c' (
        sym (
          if_neg (ℕ_discrete k j) p (some (ite (ℕ_discrete k i) (answer st c) (hear st.signals c)))
            (find ℕ_discrete j (settle i st cs)))
        ∙ e) in
      (d, if_neg (ℕ_discrete k j) p (some c) (find ℕ_discrete j cs) ∙ there, how)
]

-- A connection that hears of another one's request.
pub hear-Fit :
    (db : Database) (st : Step) (who : Option Uuid) (sent : List Response)
    → Steady db st
    → Fit db who (map on_arrival sent)
    → Fit st.db who (map on_arrival (sent ++ heard who st.signals))
unfolding heard
hear-Fit db st none sent steady fit = rw (append-nil sent) fit
hear-Fit db st (some uid) sent steady ((u, there), run) = (
  steady.stays uid u there,
  rw (map-append on_arrival sent (heard_from uid st.signals)) (
      Runs-append (map on_arrival sent) (map on_arrival (heard_from uid st.signals)) new_session
        (Shows (visible uid db)) (Shows (visible uid st.db)) run
        (λ mid v. steady.follows uid u mid there v)),
)

-- A quiet answer behind it.
quiet_after :
    (sent more : List Response) (P : Session → Type 0)
    → Quiet more
    → Runs (map on_arrival sent) new_session P
    → Runs (map on_arrival (sent ++ more)) new_session P
quiet_after sent more P quiet run = rw (map-append on_arrival sent more) (
    Runs-append (map on_arrival sent) (map on_arrival more) new_session P P run (λ mid v.
      Runs-map (map on_arrival more) mid (λ s. s ≡ mid) P (quiet mid)
        (λ last e. subst P (sym e) v)))

Quiet-Fit :
    (db : Database) (who : Option Uuid) (sent more : List Response)
    → Quiet more
    → Fit db who (map on_arrival sent)
    → Fit db who (map on_arrival (sent ++ more))
Quiet-Fit db none sent more quiet run = quiet_after sent more (λ s. s ≡ new_session) quiet run
Quiet-Fit db (some uid) sent more quiet (known, run) =
    (known, quiet_after sent more (Shows (visible uid db)) quiet run)

-- The answer to a login.
login-Runs :
    (db : Database) (uid : Uuid) (user : User)
    → Linked db
    → find_user uid db ≡ some user
    → Runs
        (map on_arrival (logged_in (success user) ∷ replay user.channels db))
        new_session
        (Shows (visible uid db))
unfolding handle_response on_login_response new_session find
login-Runs db uid user linked there = (
  record new_session { authenticated_user = some (received_user blank_user user) },
  login_success ∷ [],
  refl,
  replay-Shows db linked uid user _ there (record {
    user = (received_user blank_user user, refl);
    in_step = λ cid. refl;
    pointers = λ cid e. refl;
  }),
)

-- The connection that asked.
pub answer-Fit :
    (db : Database) (st : Step) (c : Connection)
    → Linked db
    → Steady db st
    → Answered db c.authenticated st
    → Fit db c.authenticated (map on_arrival c.sent)
    → Fit st.db (answer st c).authenticated (map on_arrival (answer st c).sent)
unfolding answer heard
answer-Fit db st c linked steady (kept who quiet) fit =
    let heard_first = hear-Fit db st c.authenticated c.sent steady fit in
    rw (who, sym (append_assoc c.sent (heard c.authenticated st.signals) st.written))
      (Quiet-Fit st.db c.authenticated (c.sent ++ heard c.authenticated st.signals) st.written quiet
        heard_first)
answer-Fit db st c linked steady (opened uid user out there who same silent written) fit =
    let first = subst (λ w. Fit db w (map on_arrival c.sent)) out fit in
    let entry = logged_in (success user) ∷ replay user.channels db in
    rw (who, out, same, written)
      (
        (user, there),
        rw (map-append on_arrival c.sent entry) (
            Runs-append (map on_arrival c.sent) (map on_arrival entry) new_session
              (λ s. s ≡ new_session) (Shows (visible uid db)) first
              (λ mid e.
                subst (λ s. Runs (map on_arrival entry) s (Shows (visible uid db))) (sym e)
                  (login-Runs db uid user linked there))),
      )
