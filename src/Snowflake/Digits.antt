-- ===== src/Snowflake/Digits.antt =====
-- The identifier that `nextId` of src/models/snowflake.cpp puts together, and the mask of its counter.
use wire_protocols.Prelude.{
  ℕ, zero, suc, ◌+◌, ◌-◌, ◌*◌, ◌/◌, ◌%◌, ◌^◌, ◌≤◌, ◌<◌, ◌≡◌, refl, Bool, true, false, arith,
  bit_and, if◌then◌else◌, ◌==◌,
}
use wire_protocols.Prelude.Bits.{bit_or_shifted}
use wire_protocols.Wire.{u64}
use wire_protocols.Snowflake.{epoch, max_sequence, compose}

-- A reading of the clock within the 41 bits of milliseconds that the identifier has room for.
abbrev pub Readable : ℕ → Type 0
Readable t = (epoch ≤ t) × (t < epoch + 2 ^ 41)

-- The identifier as a number in four digits.
abbrev pub value : ℕ → ℕ → ℕ → ℕ → ℕ
value machine process t sequence =
    ((t - epoch) * 2 ^ 10 + machine) * 2 ^ 13 + process * 2 ^ 8 + sequence

pub compose-value :
    (machine process t sequence : ℕ)
    → machine < 2 ^ 10
    → process < 2 ^ 5
    → Readable t
    → sequence < 2 ^ 8
    → compose machine process t sequence ≡ value machine process t sequence
unfolding compose
compose-value machine process t sequence hm hp ht hs =
    let time : u64 (u64 (t + (2 ^ 64 - epoch)) * 2 ^ 23) ≡ (t - epoch) * 2 ^ 23 = omega arith in
    let first = bit_or_shifted 23 (t - epoch) (machine * 2 ^ 13) (omega arith) in
    let first_digits : (t - epoch) * 2 ^ 23 + machine * 2 ^ 13
        ≡ ((t - epoch) * 2 ^ 10 + machine) * 2 ^ 13 =
      omega arith in
    let second =
      bit_or_shifted 13 ((t - epoch) * 2 ^ 10 + machine) (process * 2 ^ 8) (omega arith) in
    let second_digits : ((t - epoch) * 2 ^ 10 + machine) * 2 ^ 13 + process * 2 ^ 8
        ≡ (((t - epoch) * 2 ^ 10 + machine) * 2 ^ 5 + process) * 2 ^ 8 =
      omega arith in
    let third = bit_or_shifted 8 (((t - epoch) * 2 ^ 10 + machine) * 2 ^ 5 + process) sequence hs in
    rw (time, first, first_digits, second, second_digits, third) (omega arith)

-- The parts of an identifier, made for a machine and a process that fit their 10 and 5 bits, in a
-- millisecond that is readable, with a counter of 8 bits, can be read off it, and it fits 64 bits.
pub compose-parts :
    (machine process t sequence : ℕ)
    → machine < 2 ^ 10
    → process < 2 ^ 5
    → Readable t
    → sequence < 2 ^ 8
    → let n = compose machine process t sequence in
      (n / 2 ^ 23 ≡ t - epoch)
      × (n / 2 ^ 13 % 2 ^ 10 ≡ machine)
      × (n / 2 ^ 8 % 2 ^ 5 ≡ process)
      × (n % 2 ^ 8 ≡ sequence)
      × (n < 2 ^ 64)
compose-parts machine process t sequence hm hp ht hs =
    let whole = compose-value machine process t sequence hm hp ht hs in
    rw whole (omega arith, omega arith, omega arith, omega arith, omega arith)

-- The mask, tried on each number below a bound.
masked : ℕ → Bool
masked zero = true
masked (suc k) = let rest = masked k in if bit_and k max_sequence == k % 2 ^ 8 then rest else false

masked_lem : (k n : ℕ) → masked k ≡ true → n < k → bit_and n max_sequence ≡ n % 2 ^ 8
unfolding masked
masked_lem zero n e h = absurd (omega arith)
masked_lem (suc k) n e h = ground (arith, masked_lem k n)

pub bit_and-max_sequence : (n : ℕ) → n < 257 → bit_and n max_sequence ≡ n % 2 ^ 8
unfolding masked
bit_and-max_sequence n h = masked_lem 257 n refl h
