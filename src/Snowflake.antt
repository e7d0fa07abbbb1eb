-- ===== src/Snowflake.antt =====
-- src/models/snowflake.cpp, include/models/snowflake.hpp: the generator of message identifiers. The
-- clock is the list of its readings in milliseconds, in the order in which the generator takes them.
pub mod Digits
pub mod Increase
pub mod Order
pub mod Backwards
use wire_protocols.Prelude.{
  ℕ, zero, suc, ◌+◌, ◌-◌, ◌*◌, ◌^◌, Option, none, some, List, [], ◌∷◌, bit_and, bit_or,
  if◌then◌else◌, ltb, leb, ◌==◌,
}
use wire_protocols.Wire.{u64}

-- `last_timestamp` is -1 until the first identifier, here `none`: no reading of the clock is
-- negative.
pub record Generator : Type 0 where
  pub machine_id : ℕ
  pub process_id : ℕ
  pub last_timestamp : Option ℕ
  pub sequence : ℕ

abbrev pub epoch : ℕ
epoch = 1738022400000

abbrev pub max_machine_id : ℕ
max_machine_id = 2 ^ 10 - 1

abbrev pub max_process_id : ℕ
max_process_id = 2 ^ 5 - 1

abbrev pub max_sequence : ℕ
max_sequence = 2 ^ 8 - 1

-- The constructor, for identifiers that are not negative. `none`: it throws.
unfoldable pub new_generator : ℕ → ℕ → Option Generator
new_generator machine_id process_id =
    if ltb max_machine_id machine_id
    then none
    else if ltb max_process_id process_id
    then none
    else some (record {
      machine_id = machine_id;
      process_id = process_id;
      last_timestamp = none;
      sequence = 0;
    })

-- The 64 bits of the identifier, read as a `uint64_t`, which is what a message keeps: the difference
-- to the epoch wraps around as they do. As the `int64_t` of `nextId` they are the same number while
-- the first bit is clear.
unfoldable pub compose : ℕ → ℕ → ℕ → ℕ → ℕ
compose machine_id process_id timestamp sequence =
    bit_or
      (bit_or (bit_or (u64 (u64 (timestamp + (2 ^ 64 - epoch)) * 2 ^ 23)) (machine_id * 2 ^ 13))
        (process_id * 2 ^ 8))
      sequence

-- How a call ends: with an identifier, the generator and the readings that it did not take; by the
-- exception; or not yet, when all the readings are taken.
pub data Draw : Type 0 where
  issued : ℕ → Generator → List ℕ → Draw
  moved_backwards : Draw
  still_waiting : Draw

-- The end of `nextId`.
unfoldable pub issue : Generator → ℕ → ℕ → List ℕ → Draw
unfolding compose
issue g timestamp sequence clock =
    issued (compose g.machine_id g.process_id timestamp sequence)
      (record g { last_timestamp = some timestamp; sequence = sequence }) clock

-- `while (timestamp <= lastTimestamp) timestamp = currentTimestamp();`
unfoldable pub wait_past : Generator → ℕ → List ℕ → Draw
unfolding issue
wait_past g last [] = still_waiting
wait_past g last (now ∷ clock) =
    let rest = wait_past g last clock in if leb now last then rest else issue g now 0 clock

-- Another identifier in the millisecond of the last one.
unfoldable pub same_millisecond : Generator → ℕ → List ℕ → Draw
unfolding wait_past
same_millisecond g last clock =
    let sequence = bit_and (g.sequence + 1) max_sequence in
    if sequence == 0 then wait_past g last clock else issue g last sequence clock

-- The first reading against the last timestamp.
unfoldable pub after_last : Generator → Option ℕ → ℕ → List ℕ → Draw
unfolding same_millisecond
after_last g none now clock = issue g now 0 clock
after_last g (some last) now clock =
    if ltb now last
    then moved_backwards
    else if now == last
    then same_millisecond g last clock
    else issue g now 0 clock

-- `SnowflakeIDGenerator::nextId`
unfoldable pub next_id : Generator → List ℕ → Draw
unfolding after_last
next_id g [] = still_waiting
next_id g (now ∷ clock) = after_last g g.last_timestamp now clock
