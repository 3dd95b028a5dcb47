-- ===== src/Individual/Clone.antt =====
-- What `Individual::clone` makes (fuzzer/fuzzer/evolution.cpp).
use fuzzer_goal_directed.Prelude.{
  ℕ, ◌+◌, ◌<◌, ◌≡◌, refl, ◌∙◌, true, false, some, List, arith, u64_mod, add64-small,
}
use fuzzer_goal_directed.Result.{Returns, returns, >>=-Returns}
use fuzzer_goal_directed.OrderedMap.{lookup, assign, lookup-assign}
use fuzzer_goal_directed.Heap.{Provides}
use fuzzer_goal_directed.Memory.{MemoryManager, increase_count, is_unknown}
use fuzzer_goal_directed.Memory.Invariant.{IsValid, contents, contents-View}
use fuzzer_goal_directed.Memory.Release.{increase_count-IsValid}
use fuzzer_goal_directed.Memory.Copy.{Grown, copy-Grown}
use fuzzer_goal_directed.Memory.Resize.{known_slot}
use fuzzer_goal_directed.Individual.{Individual, clone}

-- What an operation on the individual with slot `i` relies on: its slot holds `bytes`, the heap has
-- memory, and neither the slot numbers nor the reference count are about to wrap.
pub record Ready (m : MemoryManager) (i : ℕ) (bytes : List ℕ) : Type 0 where
  pub valid : IsValid m
  pub holds : contents m i ≡ some bytes
  pub supply : Provides m.heap
  pub slots : m.next_index + 1 < u64_mod
  pub count : ℕ
  pub counted : lookup i m.refs ≡ some count
  pub counts : count + 1 < u64_mod

module _ {m : MemoryManager} {i : ℕ} {bytes : List ℕ} (r : Ready m i bytes) where
  abbrev pub referenced : MemoryManager
  referenced = record m { refs = assign i (r.count + 1) m.refs }

  increase_count-Ready : increase_count m i ≡ referenced
  unfolding increase_count
  increase_count-Ready =
      let w = contents-View r.valid r.holds in
      let e : is_unknown m i ≡ false = known_slot w in
      rw (e, r.counted, add64-small r.count 1 r.counts)

  pub referenced-IsValid : IsValid referenced
  referenced-IsValid =
      rw increase_count-Ready at (increase_count-IsValid m i r.valid r.count r.counted r.counts)

  pub contents-referenced : (j : ℕ) → contents referenced j ≡ contents m j
  unfolding contents
  contents-referenced j = refl

-- A new individual without a test case id, in a new slot that holds `bytes` and is referenced once.
-- The other slots hold what they held; the one that was cloned has one reference more.
pub record Child (m : MemoryManager) (source : ℕ) (count : ℕ) (bytes : List ℕ) (c : Individual)
    (m' : MemoryManager) : Type 0 where
  pub index : c.index ≡ m.next_index
  pub id : c.id ≡ 0
  pub grown : Grown (record m { refs = assign source (count + 1) m.refs }) bytes m'

module _ (m : MemoryManager) (i : Individual) {bytes : List ℕ} (r : Ready m i.index bytes) where
  -- The clone of a ready individual is a new one with the same bytes, and does not fault; every other
  -- slot holds what it held, and the slot that was cloned has one reference more.
  pub clone-Child :
      Returns {A = Individual × MemoryManager}
        (λ c. Child m i.index r.count bytes c.0 c.1)
        (clone m i false)
  unfolding clone
  clone-Child = rw (increase_count-Ready r) (
      >>=-Returns _
        (copy-Grown (referenced r) i.index r.slots (referenced-IsValid r)
          (contents-referenced r i.index ∙ r.holds) r.supply)
        λ c (e, g). returns _ (record { index = e; id = refl; grown = g }))

  -- With `keep_id`, the clone of a ready individual is a second handle on its slot, which has one
  -- reference more; every slot holds what it held.
  pub clone_keep_id :
      Returns {A = Individual × MemoryManager}
        (λ c.
          (c.0 ≡ i)
          × (lookup i.index c.1.refs ≡ some (r.count + 1))
          × ((j : ℕ) → contents c.1 j ≡ contents m j))
        (clone m i true)
  unfolding clone
  clone_keep_id = rw (increase_count-Ready r) (
      returns _ (
        refl,
        ground (arith, lookup-assign i.index i.index (r.count + 1) m.refs),
        contents-referenced r,
      ))
