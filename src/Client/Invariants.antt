-- ===== src/Client/Invariants.antt =====
-- What every handler of src/bin/client/model/message_handlers.cpp keeps, all of them in a row keep.
use wire_protocols.Prelude.{◌≡◌, ap, subst, none, some, List, [], ◌∷◌, ◌++◌, Option-cases, inl, inr}
use mathlib.Core.Option
use wire_protocols.Prelude.Try.{◌>>=◌}
use wire_protocols.Responses.{Response}
use wire_protocols.Client.{Session}
use wire_protocols.Client.Handlers.{Notice, Handled, handle_response, handle_responses}

-- What holds of the session that a handler leaves, if it completes.
abbrev pub After : (Session → Type 0) → Handled → Type 0
After P none = Unit {0}
After P (some (s, ns)) = P s

pub handle_responses-After :
    (P : Session → Type 0)
    → ((r : Response) (s : Session) → P s → After P (handle_response r s))
    → (rs : List Response) (s last : Session) (notices : List Notice) → P s
    → handle_responses rs s ≡ some (last, notices)
    → P last
unfolding handle_responses
handle_responses-After P step [] s last notices h e =
    subst P (ap (λ (p : Session × List Notice). p.0) (Option.some-injective _ _ e)) h
handle_responses-After P step (r ∷ rs) s last notices h e =
    elim (Option-cases (handle_response r s)) [
      | inl gone ↦ let never = rw (gone, ◌>>=◌) at e in cc
      | inr ((mid, ns), done) ↦
          let kept = subst (After P) done (step r s h) in
          elim (Option-cases (handle_responses rs mid)) [
            | inl gone ↦ let never = rw (done, gone, ◌>>=◌) at e in cc
            | inr ((s', more), rest) ↦
                let whole = handle_responses-After P step rs mid s' more kept rest in
                subst P
                  (ap (λ (p : Session × List Notice). p.0)
                    (Option.some-injective (s', ns ++ more) (last, notices)
                      (rw (done, rest, ◌>>=◌) at e)))
                  whole
          ]
    ]
