-- ===== src/Tests/Windows.antt =====
-- Runs of the client with its windows.
use wire_protocols.Prelude.{◌≡◌, refl, Option, none, some, List, [], ◌∷◌, codes, ℕ_discrete}
use wire_protocols.Wire.{Bytes}
use wire_protocols.Uuid.{uuid_discrete}
use wire_protocols.Models.Channel
use wire_protocols.Models.Channel.{Channel}
use wire_protocols.Responses.{success, logged_in, channel_created, message_sent, message_deleted}
use wire_protocols.Client.Handlers.{
  on_login_response, on_create_channel_response, on_send_message_response,
  on_delete_message_response,
}
use wire_protocols.Client.Windows.{
  Acceptance, acceptable, intermediate, Validators, App, Done, new_app, respond, on_chat_selected,
}
use wire_protocols.Client.Events
use wire_protocols.Client.Events.{Event, step, run}
use wire_protocols.Client.Shown.Steps.{run-Shows}
use wire_protocols.Client.Settled.Throws.{Throws, step-Throws}
use wire_protocols.Client.Reappearing.Selection.{on_chat_selected-respond}
use wire_protocols.Client.Shown.{contents}
use wire_protocols.Tests.{ann, room, hello}

-- Every text is accepted that is not empty.
nonempty : Bytes → Acceptance
nonempty [] = intermediate
nonempty (c ∷ text) = acceptable

abbrev validators : Validators
validators = record { word = nonempty; port = nonempty; to_uint = λ text. 8080 }

-- A login, a channel and a message of it.
abbrev opening : List Event
opening =
    Events.received (logged_in (success ann))
    ∷ Events.received (channel_created (success room))
    ∷ Events.received (message_sent (success hello))
    ∷ []

abbrev left_by : Done → App
left_by none = new_app
left_by (some (app, effects)) = app

abbrev left_by_slot : Option App → App
left_by_slot none = new_app
left_by_slot (some app) = app

abbrev opened : App
opened = left_by (run validators opening new_app)

run-Shows_example :
    (opened.windows.chat_area.chat_title ≡ codes "room")
    × (contents opened.windows.chat_area ≡ hello ∷ [])
unfolding run on_login_response on_create_channel_response on_send_message_response new_app
    uuid_discrete ℕ_discrete
run-Shows_example =
    run-Shows validators opening opened [] (tt, (tt, (tt, tt))) refl (Channel.add_message 7000 room)
      ((0, hello) ∷ []) refl refl

-- A channel comes to a client that nobody is logged in at.
step-Throws_example : Throws (Events.received (channel_created (success room))) new_app
unfolding run on_create_channel_response new_app
step-Throws_example =
    step-Throws validators [] new_app [] refl (Events.received (channel_created (success room)))
      refl

-- Ann deletes her message, and chooses the chat again.
abbrev deleted : App
deleted = left_by_slot (respond (message_deleted (success hello)) opened)

abbrev chosen : App → App
chosen app = left_by_slot (on_chat_selected 0 app)

on_chat_selected-respond_example :
    contents (chosen deleted).windows.chat_area ≡ contents (chosen opened).windows.chat_area
unfolding run on_login_response on_create_channel_response on_send_message_response
    on_delete_message_response new_app uuid_discrete ℕ_discrete
on_chat_selected-respond_example =
    on_chat_selected-respond validators opening opened deleted (chosen opened) (chosen deleted) []
      hello 0 0 refl refl refl refl refl
