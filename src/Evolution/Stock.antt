-- ===== src/Evolution/Stock.antt =====
-- What the making of individuals uses up and keeps: slot numbers and references
-- (fuzzer/fuzzer/evolution.cpp, fuzzer/fuzzer/memory-manager.cpp).
use fuzzer_goal_directed.Prelude.{
  ℕ, suc, ◌+◌, ◌-◌, ◌<◌, ◌≡◌, refl, ap, some, List, arith, u64_mod, Option-cases, inl, inr,
}
use fuzzer_goal_directed.Result.{Returns, Returns-mono}
use fuzzer_goal_directed.OrderedMap.{lookup, lookup-assign}
use fuzzer_goal_directed.Heap.{Provides}
use fuzzer_goal_directed.Heap.Laws.{Provides-of_answer}
use fuzzer_goal_directed.Memory.{MemoryManager}
use fuzzer_goal_directed.Memory.Invariant.{IsValid, contents, contents-View}
use fuzzer_goal_directed.Memory.Release.{decrease_count_shared}
use fuzzer_goal_directed.Individual.{Individual, destroy}
use fuzzer_goal_directed.Individual.Clone.{Ready, Child}

-- A valid manager with numbers for `n` more slots and room for `n` more references to each slot.
pub record Stocked (m : MemoryManager) (n : ℕ) : Type 0 where
  pub valid : IsValid m
  pub supply : Provides m.heap
  pub slots : m.next_index + n < u64_mod
  pub counts : (j c : ℕ) → lookup j m.refs ≡ some c → c + n < u64_mod

-- Every slot that holds bytes keeps them.
abbrev pub Keeps : MemoryManager → MemoryManager → Type 0
Keeps m m' = (j : ℕ) (bytes : List ℕ) → contents m j ≡ some bytes → contents m' j ≡ some bytes

pub Keeps-refl : (m : MemoryManager) → Keeps m m
Keeps-refl m j bytes e = e

pub Keeps-trans : (m m' m'' : MemoryManager) → Keeps m m' → Keeps m' m'' → Keeps m m''
Keeps-trans m m' m'' k k' j bytes e = k' j bytes (k j bytes e)

counted :
    {m : MemoryManager} (i : ℕ) {bytes : List ℕ}
    → IsValid m
    → contents m i ≡ some bytes
    → (c : ℕ) × (lookup i m.refs ≡ some c)
counted {m} i v e =
    let w = contents-View v e in
    elim (Option-cases (lookup i m.refs)) [
      | inl q ↦ absurd (ground (arith, v.in_step i, w.memory, w.lengths))
      | inr (c, q) ↦ (c, q)
    ]

module _ {m : MemoryManager} {n : ℕ} (s : Stocked m (suc n)) (i : ℕ) {bytes : List ℕ}
    (holds : contents m i ≡ some bytes) where
  -- A slot that holds bytes can be cloned.
  pub Stocked-Ready : Ready m i bytes
  Stocked-Ready =
      let (c, e) = counted i s.valid holds in
      record {
        valid = s.valid;
        holds = holds;
        supply = s.supply;
        slots = omega (arith, s.slots);
        count = c;
        counted = e;
        counts = omega (arith, s.counts i c e);
      }

-- What there is after `n` slots at most were used up: the new individual holds `after`.
pub record Made (m : MemoryManager) (n : ℕ) (after : List ℕ) (c : Individual) (m' : MemoryManager)
    : Type 0 where
  pub stocked : Stocked m' n
  pub keeps : Keeps m m'
  pub holds : contents m' c.index ≡ some after

module _ {m : MemoryManager} {n i : ℕ} {bytes after : List ℕ} {c : Individual} {m' : MemoryManager}
    (s : Stocked m (suc n)) (ready : Ready m i bytes) (ch : Child m i ready.count after c m') where
  child_counts : (j k : ℕ) → lookup j m'.refs ≡ some k → k + n < u64_mod
  child_counts j k e = ground (
    arith,
    e,
    ch.grown.refs j,
    lookup-assign i j (ready.count + 1) m.refs,
    s.counts j k,
    s.slots,
    s.valid.started,
    s.counts i ready.count ready.counted,
  )

  pub Child-Made : Made m n after c m'
  unfolding contents
  Child-Made = record {
    stocked = record {
      valid = ch.grown.valid;
      supply = Provides-of_answer m.heap m'.heap ch.grown.answer s.supply;
      slots = omega (arith, ch.grown.next_index, s.slots);
      counts = child_counts;
    };
    keeps = λ j old e. ground (arith, ch.grown.holds j, e, (contents-View s.valid e).inside);
    holds = rw ch.index (ground (arith, ch.grown.holds m.next_index));
  }

  -- The slot that was cloned has one reference more, so at least two.
  pub Child-shared : (lookup i m'.refs ≡ some (ready.count + 1)) × (1 < ready.count + 1)
  Child-shared =
      let w = contents-View ready.valid ready.holds in
      (
        ground (arith, ch.grown.refs i, lookup-assign i i (ready.count + 1) m.refs, w.inside),
        ground (arith, ready.valid.in_step i, ready.counted, w.memory, w.lengths),
      )

module _ {m : MemoryManager} {n : ℕ} (s : Stocked m n) (i : Individual) (c : ℕ)
    (shared : lookup i.index m.refs ≡ some c) (more : 1 < c) where
  -- The end of a handle on a slot with other references takes one off, and nothing else.
  pub destroy-Stocked :
      Returns (λ m'. Stocked m' n × ((j : ℕ) → contents m' j ≡ contents m j)) (destroy m i)
  unfolding destroy contents
  destroy-Stocked =
      Returns-mono
        (λ m' (e, v). (
          record {
            valid = v;
            supply = rw e s.supply;
            slots = rw e s.slots;
            counts = λ j k q. ground (
              arith,
              ap (λ (x : MemoryManager). lookup j x.refs) e,
              q,
              lookup-assign i.index j (c - 1) m.refs,
              s.counts j k,
              s.counts i.index c shared,
            );
          },
          λ j. rw e refl,
        ))
        (decrease_count_shared m i.index s.valid c shared more
          (omega (arith, s.counts i.index c shared)))
