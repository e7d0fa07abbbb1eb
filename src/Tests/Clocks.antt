-- ===== src/Tests/Clocks.antt =====
-- Runs of the generator of identifiers.
use wire_protocols.Prelude.{
  ◌+◌, ◌/◌, ◌%◌, ◌-◌, ◌<◌, ◌^◌, ◌≡◌, refl, none, some, [], ◌∷◌, All, arith,
}
use wire_protocols.Snowflake.{Generator, epoch, next_id, compose}
use wire_protocols.Snowflake.Digits.{compose-parts}
use wire_protocols.Snowflake.Increase.{IsGenerator}
use wire_protocols.Snowflake.Order.{Issues, stop, draw, Increasing, Issues-Increasing}

abbrev fresh : Generator
fresh = record { machine_id = 1; process_id = 1; last_timestamp = none; sequence = 0 }

fresh-IsGenerator : IsGenerator fresh
fresh-IsGenerator = record {
  machine_fits = omega arith;
  process_fits = omega arith;
  sequence_fits = omega arith;
  since_epoch = λ t e. cc;
}

abbrev once : Generator
once = record fresh { last_timestamp = some (epoch + 5) }

abbrev twice : Generator
twice = record once { sequence = 1 }

-- Two identifiers in one millisecond.
two_ids : Issues fresh (compose 1 1 (epoch + 5) 0 ∷ compose 1 1 (epoch + 5) 1 ∷ [])
unfolding next_id
two_ids =
    draw once ((epoch + 5) ∷ []) [] refl ((omega arith, omega arith), tt)
      (draw twice ((epoch + 5) ∷ []) [] refl ((omega arith, omega arith), tt) stop)

Issues-Increasing_example :
    All (λ n. n < 2 ^ 63) (compose 1 1 (epoch + 5) 0 ∷ compose 1 1 (epoch + 5) 1 ∷ [])
    × Increasing (compose 1 1 (epoch + 5) 0 ∷ compose 1 1 (epoch + 5) 1 ∷ [])
Issues-Increasing_example =
    Issues-Increasing fresh (compose 1 1 (epoch + 5) 0 ∷ compose 1 1 (epoch + 5) 1 ∷ [])
      fresh-IsGenerator two_ids

compose-parts_example :
    let n = compose 1 1 (epoch + 5) 3 in
    (n / 2 ^ 23 ≡ epoch + 5 - epoch)
    × (n / 2 ^ 13 % 2 ^ 10 ≡ 1)
    × (n / 2 ^ 8 % 2 ^ 5 ≡ 1)
    × (n % 2 ^ 8 ≡ 3)
    × (n < 2 ^ 64)
compose-parts_example =
    compose-parts 1 1 (epoch + 5) 3 (omega arith) (omega arith) (omega arith, omega arith)
      (omega arith)
