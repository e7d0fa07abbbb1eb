-- ===== src/Client/Events/Runs.antt =====
-- What every event keeps, a run keeps.
use wire_protocols.Prelude.{
  ◌≡◌, ap, subst, none, some, List, [], ◌∷◌, ◌++◌, Option-cases, inl, inr, All,
}
use mathlib.Core.Option
use wire_protocols.Prelude.Try.{◌>>=◌}
use wire_protocols.Client.Windows.{Validators, App, Effect, Done}
use wire_protocols.Client.Events.{Event, step, run}

module _ (P : App → Type 0) where
  -- What holds of the program that an event leaves, if nothing throws.
  abbrev pub DoneAfter : Done → Type 0
  DoneAfter none = Unit {0}
  DoneAfter (some (app, effects)) = P app

  module _ (v : Validators) (Q : Event → Type 0)
      (keeps : (e : Event) (app : App) → Q e → P app → DoneAfter (step v e app)) where
    pub run-DoneAfter :
        (es : List Event) (app last : App) (effects : List Effect)
        → All Q es
        → P app
        → run v es app ≡ some (last, effects)
        → P last
    unfolding run
    run-DoneAfter [] app last effects ok h e =
        subst P (ap (λ (p : App × List Effect). p.0) (Option.some-injective _ _ e)) h
    run-DoneAfter (ev ∷ es) app last effects (ok, oks) h e = elim (Option-cases (step v ev app)) [
      | inl thrown ↦ let never = rw (thrown, ◌>>=◌) at e in cc
      | inr ((mid, asked), done) ↦
          let kept = subst DoneAfter done (keeps ev app ok h) in
          elim (Option-cases (run v es mid)) [
            | inl thrown ↦ let never = rw (done, thrown, ◌>>=◌) at e in cc
            | inr ((end, more), rest) ↦
                let same =
                  ap (λ (p : App × List Effect). p.0)
                    (Option.some-injective (end, asked ++ more) (last, effects)
                      (rw (done, rest, ◌>>=◌) at e)) in
                subst P same (run-DoneAfter es mid end more oks kept rest)
          ]
    ]
