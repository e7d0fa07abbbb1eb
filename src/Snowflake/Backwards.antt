-- ===== src/Snowflake/Backwards.antt =====
-- When `nextId` of src/models/snowflake.cpp throws.
use wire_protocols.Prelude.{
  ℕ, ◌+◌, ◌<◌, ◌≡◌, ◌≢◌, ◌↔◌, inl, inr, refl, Option, none, some, List, [], ◌∷◌, arith, Bool-cases,
  ltb, leb, ◌==◌, bit_and,
}
use wire_protocols.Snowflake.{
  Generator, moved_backwards, next_id, after_last, same_millisecond, wait_past, max_sequence,
}

-- The first reading of the clock lies before the last timestamp.
abbrev pub Backwards : Generator → List ℕ → Type 0
Backwards g clock =
    (last : ℕ) × (now : ℕ) × (rest : List ℕ) × (g.last_timestamp ≡ some last)
    × (clock ≡ now ∷ rest)
    × (now < last)

wait_past-moved_backwards :
    (g : Generator) (last : ℕ) (clock : List ℕ) → wait_past g last clock ≢ moved_backwards
unfolding wait_past
wait_past-moved_backwards g last [] = λ e. cc
wait_past-moved_backwards g last (now ∷ clock) = elim (Bool-cases (leb now last)) [
  | inl before ↦ rw (before, wait_past) (wait_past-moved_backwards g last clock)
  | inr behind ↦ rw (behind, wait_past) (λ e. cc)
]

same_millisecond-moved_backwards :
    (g : Generator) (last : ℕ) (clock : List ℕ) → same_millisecond g last clock ≢ moved_backwards
unfolding same_millisecond
same_millisecond-moved_backwards g last clock =
    elim (Bool-cases (bit_and (g.sequence + 1) max_sequence == 0)) [
      | inl full ↦ rw (full, same_millisecond) (wait_past-moved_backwards g last clock)
      | inr more ↦ rw (more, same_millisecond) (λ e. cc)
    ]

-- The generator throws exactly if the first reading of the clock lies before its last timestamp.
after_last-moved_backwards :
    (g : Generator) (seen : Option ℕ) (now : ℕ) (clock : List ℕ)
    → (after_last g seen now clock ≡ moved_backwards)
      ↔ ((last : ℕ) × (seen ≡ some last) × (now < last))
unfolding after_last
after_last-moved_backwards g none now clock = ((λ e. cc), (λ (last, e, h). cc))
after_last-moved_backwards g (some last) now clock = elim (Bool-cases (ltb now last)) [
  | inl before ↦ rw (before, after_last) ((λ e. (last, refl, ground arith)), (λ h. refl))
  | inr from ↦ (
    elim (Bool-cases (now == last)) [
      | inl same ↦
          rw (from, after_last, same)
            (λ e. absurd (same_millisecond-moved_backwards g last clock e))
      | inr apart ↦ rw (from, after_last, apart) (λ e. cc)
    ],
    λ (l, e, h). let same : last ≡ l = cc in absurd (ground arith),
  )
]

pub next_id-moved_backwards :
    (g : Generator) (clock : List ℕ) → (next_id g clock ≡ moved_backwards) ↔ Backwards g clock
unfolding next_id
next_id-moved_backwards g [] = ((λ e. cc), (λ (last, now, rest, e, f, h). cc))
next_id-moved_backwards g (now ∷ clock) =
    let (there, back) = after_last-moved_backwards g g.last_timestamp now clock in
    (
      λ e. let (last, seen, h) = there e in (last, now, clock, seen, refl, h),
      λ (last, n, rest, seen, f, h).
          let same : now ≡ n = cc in back (last, seen, omega (arith, h, same)),
    )
