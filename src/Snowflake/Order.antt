-- ===== src/Snowflake/Order.antt =====
-- The order of the identifiers that one generator of src/models/snowflake.cpp issues, as values of
-- type `int64_t`.
use wire_protocols.Prelude.{
  ℕ, ◌+◌, ◌^◌, ◌≤◌, ◌<◌, ◌≡◌, refl, Option, none, some, List, [], ◌∷◌, All, arith, bit_and, ltb,
  leb, ◌==◌, Bool-cases, subst, inl, inr,
}
use wire_protocols.Snowflake.Digits.{Readable}
use wire_protocols.Snowflake.Increase.{IsGenerator, stamp, stamp_at, Advance, next_id-Advance}
use wire_protocols.Snowflake.{
  Generator, epoch, max_sequence, Draw, issued, issue, wait_past, same_millisecond, after_last,
  next_id,
}

-- Times that leave the sign bit of an identifier clear: until the year 2059.
abbrev pub Signed : ℕ → Type 0
Signed t = (epoch ≤ t) × (t < epoch + 2 ^ 40)

-- The last timestamp of the generator after a draw is such a time.
abbrev Dated : Draw → Type 0
Dated (issued n g clock) = (t : ℕ) → g.last_timestamp ≡ some t → Signed t
Dated _ = Unit {0}

issue-Dated :
    (g : Generator) (t sequence : ℕ) (clock : List ℕ) → Signed t → Dated (issue g t sequence clock)
unfolding issue
issue-Dated g t sequence clock h = λ u e. let same : t ≡ u = cc in subst Signed same h

wait_past-Dated :
    (g : Generator) (last : ℕ) (clock : List ℕ) → All Signed clock → Dated (wait_past g last clock)
unfolding wait_past
wait_past-Dated g last [] ok = tt
wait_past-Dated g last (now ∷ clock) (ht, ok) = elim (Bool-cases (leb now last)) [
  | inl before ↦ rw (before, wait_past) (wait_past-Dated g last clock ok)
  | inr behind ↦ rw (behind, wait_past) (issue-Dated g now 0 clock ht)
]

same_millisecond-Dated :
    (g : Generator) (last : ℕ) (clock : List ℕ)
    → Signed last
    → All Signed clock
    → Dated (same_millisecond g last clock)
unfolding same_millisecond
same_millisecond-Dated g last clock ht ok =
    elim (Bool-cases (bit_and (g.sequence + 1) max_sequence == 0)) [
      | inl full ↦ rw (full, same_millisecond) (wait_past-Dated g last clock ok)
      | inr more ↦
          rw (more, same_millisecond)
            (issue-Dated g last (bit_and (g.sequence + 1) max_sequence) clock ht)
    ]

after_last-Dated :
    (g : Generator) (seen : Option ℕ) (now : ℕ) (clock : List ℕ)
    → Signed now
    → All Signed clock
    → Dated (after_last g seen now clock)
unfolding after_last
after_last-Dated g none now clock ht ok = issue-Dated g now 0 clock ht
after_last-Dated g (some last) now clock ht ok = elim (Bool-cases (ltb now last)) [
  | inl before ↦ rw (before, after_last) tt
  | inr from ↦ elim (Bool-cases (now == last)) [
    | inl same ↦
        let at : now ≡ last = ground arith in
        rw (from, after_last, same) (same_millisecond-Dated g last clock (subst Signed at ht) ok)
    | inr apart ↦ rw (from, after_last, apart) (issue-Dated g now 0 clock ht)
  ]
]

next_id-Dated : (g : Generator) (clock : List ℕ) → All Signed clock → Dated (next_id g clock)
unfolding next_id
next_id-Dated g [] ok = tt
next_id-Dated g (now ∷ clock) (ht, ok) = after_last-Dated g g.last_timestamp now clock ht ok

Signed-Readable : (clock : List ℕ) → All Signed clock → All Readable clock
Signed-Readable [] h = tt
Signed-Readable (t ∷ clock) ((from, below), h) = ((from, omega arith), Signed-Readable clock h)

stamp_at-Signed :
    (last : Option ℕ) (g : Generator)
    → IsGenerator g
    → ((t : ℕ) → last ≡ some t → Signed t)
    → stamp_at last g ≤ 2 ^ 63
unfolding stamp_at
stamp_at-Signed none g h dated = omega arith
stamp_at-Signed (some t) g h dated =
    omega (arith, dated t refl, h.machine_fits, h.process_fits, h.sequence_fits)

-- The identifiers that one generator issues, draw after draw, each with its own readings of the
-- clock.
pub data Issues : Generator → List ℕ → Type 0 where
  stop : {g : Generator} → Issues g []
  draw :
      {g : Generator} {n : ℕ} {ns : List ℕ} (g' : Generator) (clock rest : List ℕ)
      → next_id g clock ≡ issued n g' rest
      → All Signed clock
      → Issues g' ns
      → Issues g (n ∷ ns)

-- Each number is below all that follow it.
abbrev pub Increasing : List ℕ → Type 0
Increasing [] = Unit {0}
Increasing (n ∷ ns) = All (λ m. n < m) ns × Increasing ns

All-map : (P Q : ℕ → Type 0) (ns : List ℕ) → ((n : ℕ) → P n → Q n) → All P ns → All Q ns
All-map P Q [] f h = tt
All-map P Q (n ∷ ns) f (h, hs) = (f n h, All-map P Q ns f hs)

Issues-from :
    (g : Generator) (ns : List ℕ)
    → IsGenerator g
    → Issues g ns
    → All (λ n. stamp g ≤ n) ns × (All (λ n. n < 2 ^ 63) ns × Increasing ns)
unfolding stamp_at
Issues-from g [] h stop = (tt, (tt, tt))
Issues-from g (n ∷ ns) h (draw g' clock rest e ok more) =
    let (valid, (at, past)) =
      subst (Advance g) e (next_id-Advance g clock h (Signed-Readable clock ok)) in
    let dated = subst Dated e (next_id-Dated g clock ok) in
    let below : stamp g' ≤ 2 ^ 63 = stamp_at-Signed g'.last_timestamp g' valid dated in
    let (from, (signed, increasing)) = Issues-from g' ns valid more in
    (
      (
        omega (arith, at, past),
        All-map (λ m. stamp g' ≤ m) (λ m. stamp g ≤ m) ns (λ m k. omega (arith, past, k)) from,
      ),
      (
        (omega (arith, at, below), signed),
        (
          All-map (λ m. stamp g' ≤ m) (λ m. n < m) ns (λ m k. omega (arith, at, k)) from,
          increasing,
        ),
      ),
    )

-- However often a valid generator is asked, and whatever the clock shows from the epoch on for 2^40
-- milliseconds: each identifier that it issues is greater than all that it issued before, and its
-- sign bit is clear, so that as an `int64_t` it is the same number.
pub Issues-Increasing :
    (g : Generator) (ns : List ℕ)
    → IsGenerator g
    → Issues g ns
    → All (λ n. n < 2 ^ 63) ns × Increasing ns
Issues-Increasing g ns h run = (Issues-from g ns h run).1
