-- ===== src/Tests/Lives.antt =====
-- A run of the server's handlers with the generator of snowflakes.
use wire_protocols.Prelude.{
  ℕ, ◌≡◌, refl, none, some, List, [], ◌∷◌, codes, false, arith, ℕ_discrete, All, member, subst,
}
use wire_protocols.Uuid.{Uuid, uuid_discrete}
use wire_protocols.Models.User.{new_user}
use wire_protocols.Models.Channel.{Channel, new_channel}
use wire_protocols.Requests.{register, create_channel}
use wire_protocols.Database.{
  empty_database, find_channel, find_message, get_uid_from_username, add_user, add_channel,
}
use wire_protocols.Database.Table.{find, update}
use wire_protocols.Database.Linked.{Linked}
use wire_protocols.Server.{
  Step, Draws, handle_request, on_register_account, on_create_channel, on_send_message,
}
use wire_protocols.Server.Generated.{Life, begun, sent, done, Life-Linked}
use wire_protocols.Snowflake.{Generator, epoch, new_generator, compose, issued, next_id}
use wire_protocols.Snowflake.Digits.{Readable}
use wire_protocols.Tests.{id, only_entry}
use wire_protocols.Tests.Logins.{digest, any, bob}

abbrev generator : Generator
generator = record { machine_id = 1; process_id = 1; last_timestamp = none; sequence = 0 }

abbrev generator_after : Generator
generator_after = record generator { last_timestamp = some epoch; sequence = 0 }

abbrev draws_of : ℕ → ℕ → Draws
draws_of n snowflake = record { uid = id n; salt = codes "s"; snowflake = snowflake; now = epoch }

abbrev registered_step : Step
registered_step = on_register_account digest (draws_of 3 0) bob empty_database none

abbrev channel_step : Step
channel_step =
    on_create_channel (draws_of 5 0) (record { channel_name = codes "talk"; members = id 3 ∷ [] })
      registered_step.db none

abbrev talk_channel : Channel
talk_channel = new_channel (codes "talk") (id 3 ∷ []) (id 5)

abbrev message_step : Step
message_step =
    on_send_message (draws_of 6 (compose 1 1 epoch 0))
      (record { channel_uid = id 5; sender_uid = id 3; text = codes "hi" }) channel_step.db none

registered-Life : Life digest any generator registered_step.db
unfolding handle_request new_generator empty_database find
registered-Life =
    done (draws_of 3 0) (register bob) none registered_step (begun 1 1 generator refl) tt
      (record { no_user = refl; no_channel = refl; no_member = λ cid c e. cc }) refl

channel-Life : Life digest any generator channel_step.db
unfolding handle_request empty_database find on_register_account get_uid_from_username add_user
    new_user uuid_discrete ℕ_discrete
channel-Life =
    done (draws_of 5 0)
      (create_channel (record { channel_name = codes "talk"; members = id 3 ∷ [] })) none
      channel_step registered-Life tt
      (record { no_user = refl; no_channel = refl; no_member = λ cid c e. cc }) refl

message-Life : Life digest any generator_after message_step.db
unfolding handle_request empty_database find update on_register_account get_uid_from_username
    add_user new_user uuid_discrete on_create_channel add_channel new_channel next_id ℕ_discrete
message-Life =
    sent generator_after (draws_of 6 (compose 1 1 epoch 0)) (epoch ∷ []) []
      (record { channel_uid = id 5; sender_uid = id 3; text = codes "hi" }) none message_step
      channel-Life refl ((omega arith, omega arith), tt)
      (record {
        no_user = refl;
        no_channel = refl;
        no_member = λ cid c e.
            subst (λ (x : Channel). member uuid_discrete (id 6) x.user_uids ≡ false)
              (only_entry (id 5) cid talk_channel c e) refl;
      })
      refl

Life-Linked_example :
    Linked message_step.db
    × ((n : ℕ) (g' : Generator) (clock rest : List ℕ)
        → next_id generator_after clock ≡ issued n g' rest
        → All Readable clock
        → (find_message n message_step.db ≡ none)
          × ((cid : Uuid) (c : Channel)
              → find_channel cid message_step.db ≡ some c
              → member ℕ_discrete n c.message_snowflakes ≡ false))
Life-Linked_example = Life-Linked digest any generator_after message_step.db message-Life
