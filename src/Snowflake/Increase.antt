-- ===== src/Snowflake/Increase.antt =====
-- How each identifier that a generator of src/models/snowflake.cpp issues moves it on.
use wire_protocols.Prelude.{
  ℕ, suc, ◌+◌, ◌*◌, ◌^◌, ◌≤◌, ◌<◌, ◌≡◌, refl, ap, sym, Option, none, some, List, [], ◌∷◌, All,
  arith, bit_and, ltb, leb, ◌==◌, Bool-cases, subst, inl, inr,
}
use wire_protocols.Snowflake.Digits.{Readable, value, compose-value, bit_and-max_sequence}
use wire_protocols.Snowflake.{
  Generator, epoch, max_sequence, Draw, issued, issue, wait_past, same_millisecond, after_last,
  next_id,
}

-- The generator's two identifiers and its counter fit their bits.
pub record IsGenerator (g : Generator) : Type 0 where
  pub machine_fits : g.machine_id < 2 ^ 10
  pub process_fits : g.process_id < 2 ^ 5
  pub sequence_fits : g.sequence < 2 ^ 8
  pub since_epoch : (t : ℕ) → g.last_timestamp ≡ some t → epoch ≤ t

-- One more than the last identifier, and 0 before the first.
unfoldable pub stamp_at : Option ℕ → Generator → ℕ
stamp_at none g = 0
stamp_at (some t) g = suc (value g.machine_id g.process_id t g.sequence)

abbrev pub stamp : Generator → ℕ
unfolding stamp_at
stamp g = stamp_at g.last_timestamp g

-- What an identifier that is issued does to the generator.
abbrev pub Advance : Generator → Draw → Type 0
Advance g (issued n g' clock) = IsGenerator g' × ((suc n ≡ stamp g') × (stamp g < stamp g'))
Advance g _ = Unit {0}

-- The time and the counter of the next identifier lie behind those of the last one.
abbrev Behind : Generator → Option ℕ → ℕ → ℕ → Type 0
Behind g none t sequence = Unit {0}
Behind g (some last) t sequence =
    (epoch ≤ last) × (last * 2 ^ 8 + g.sequence < t * 2 ^ 8 + sequence)

stamp-Behind :
    (g : Generator) (last : Option ℕ) (t sequence : ℕ)
    → IsGenerator g
    → epoch ≤ t
    → sequence < 2 ^ 8
    → Behind g last t sequence
    → stamp_at last g < suc (value g.machine_id g.process_id t sequence)
unfolding stamp_at
stamp-Behind g none t sequence h ht hs b = omega arith
stamp-Behind g (some last) t sequence h ht hs (old, b) =
    omega (arith, h.machine_fits, h.process_fits, h.sequence_fits, old, b)

issue-Advance :
    (g : Generator) (t sequence : ℕ) (clock : List ℕ)
    → IsGenerator g
    → Readable t
    → sequence < 2 ^ 8
    → Behind g g.last_timestamp t sequence
    → Advance g (issue g t sequence clock)
unfolding issue stamp_at
issue-Advance g t sequence clock h ht hs b = (
  record {
    machine_fits = h.machine_fits;
    process_fits = h.process_fits;
    sequence_fits = hs;
    since_epoch = λ u e. let same : t ≡ u = cc in omega (arith, ht.0, same);
  },
  (
    ap suc (compose-value g.machine_id g.process_id t sequence h.machine_fits h.process_fits ht hs),
    stamp-Behind g g.last_timestamp t sequence h ht.0 hs b,
  ),
)

wait_past-Advance :
    (g : Generator) (last : ℕ) (clock : List ℕ)
    → IsGenerator g
    → g.last_timestamp ≡ some last
    → All Readable clock
    → Advance g (wait_past g last clock)
unfolding wait_past
wait_past-Advance g last [] h e ok = tt
wait_past-Advance g last (now ∷ clock) h e (ht, ok) = elim (Bool-cases (leb now last)) [
  | inl before ↦ rw (before, wait_past) (wait_past-Advance g last clock h e ok)
  | inr behind ↦
      let past : last < now = ground arith in
      rw (behind, wait_past)
        (issue-Advance g now 0 clock h ht (omega arith)
          (rw e (h.since_epoch last e, omega (arith, past, h.sequence_fits))))
]

same_millisecond-Advance :
    (g : Generator) (last : ℕ) (clock : List ℕ)
    → IsGenerator g
    → g.last_timestamp ≡ some last
    → Readable last
    → All Readable clock
    → Advance g (same_millisecond g last clock)
unfolding same_millisecond
same_millisecond-Advance g last clock h e ht ok =
    let counted = bit_and-max_sequence (g.sequence + 1) (omega (arith, h.sequence_fits)) in
    elim (Bool-cases (bit_and (g.sequence + 1) max_sequence == 0)) [
      | inl full ↦ rw (full, same_millisecond) (wait_past-Advance g last clock h e ok)
      | inr more ↦
          rw (more, same_millisecond)
            (issue-Advance g last (bit_and (g.sequence + 1) max_sequence) clock h ht
              (omega (arith, counted))
              (rw e (h.since_epoch last e, ground (arith, counted, more, h.sequence_fits))))
    ]

after_last-Advance :
    (g : Generator) (seen : Option ℕ) (now : ℕ) (clock : List ℕ)
    → g.last_timestamp ≡ seen
    → IsGenerator g
    → Readable now
    → All Readable clock
    → Advance g (after_last g seen now clock)
unfolding after_last
after_last-Advance g none now clock e h ht ok =
    issue-Advance g now 0 clock h ht (omega arith) (subst (λ o. Behind g o now 0) (sym e) tt)
after_last-Advance g (some last) now clock e h ht ok = elim (Bool-cases (ltb now last)) [
  | inl before ↦ rw (before, after_last) tt
  | inr from ↦ elim (Bool-cases (now == last)) [
    | inl same ↦
        let at : last ≡ now = ground arith in
        rw (from, after_last, same)
          (same_millisecond-Advance g last clock h e (subst Readable (sym at) ht) ok)
    | inr apart ↦
        let past : last < now = ground arith in
        rw (from, after_last, apart)
          (issue-Advance g now 0 clock h ht (omega arith) (
            subst (λ o. Behind g o now 0) (sym e)
              (h.since_epoch last e, omega (arith, past, h.sequence_fits))))
  ]
]

pub next_id-Advance :
    (g : Generator) (clock : List ℕ)
    → IsGenerator g
    → All Readable clock
    → Advance g (next_id g clock)
unfolding next_id
next_id-Advance g [] h ok = tt
next_id-Advance g (now ∷ clock) h (ht, ok) =
    after_last-Advance g g.last_timestamp now clock refl h ht ok
