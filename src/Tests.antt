-- ===== src/Tests.antt =====
-- Concrete states, and each theorem that has hypotheses applied to them.
pub mod Breeding
pub mod Choice
pub mod Coverage
pub mod Crashes
pub mod Crossover
pub mod Digits
pub mod Evolution
pub mod Handler
pub mod Mating
pub mod Memory
pub mod Mutation
use fuzzer_goal_directed.Prelude.{
  ℕ, zero, suc, ◌+◌, ◌<◌, ◌≡◌, refl, ap, List, [], ◌∷◌, some, none, arith, length,
}
use fuzzer_goal_directed.OrderedMap.{lookup, insert, assign}
use fuzzer_goal_directed.Heap.{Heap, Provides, new_array}
use fuzzer_goal_directed.Heap.Laws.{IsFresh, IsHonest}
use fuzzer_goal_directed.Memory.{MemoryManager, init, create, adapted_size}
use fuzzer_goal_directed.Memory.Invariant.{IsValid, init-IsValid, contents, contents-View, View}
use fuzzer_goal_directed.Memory.Create.{create-IsValid}
use fuzzer_goal_directed.Memory.Copy.{create-Grown, Grown}
use fuzzer_goal_directed.Random.{Rand}
use fuzzer_goal_directed.Individual.{Individual}
use fuzzer_goal_directed.Individual.Clone.{Ready}

abbrev pub countdown : ℕ → List ℕ
countdown zero = []
countdown (suc n) = suc n ∷ countdown n

pub length-countdown : (n : ℕ) → length (countdown n) ≡ n
length-countdown zero = refl
length-countdown (suc n) = ap suc (length-countdown n)

-- A heap that hands out blocks that are not zero.
abbrev pub ample : Heap
ample = record { answer = λ c n. some (countdown n); next_address = 0; blocks = [] }

pub ample-IsHonest : IsHonest ample
ample-IsHonest c n = length-countdown n

pub ample-IsFresh : IsFresh ample
unfolding lookup
ample-IsFresh a h = refl

pub ample-Provides : Provides ample
ample-Provides c n = (countdown n, refl, length-countdown n)

abbrev pub no_slots : MemoryManager
no_slots = init ample

pub no_slots-IsValid : IsValid no_slots
no_slots-IsValid = init-IsValid ample ample-IsHonest ample-IsFresh

-- One slot, number 1, with the bytes 3, 2, 1.
abbrev pub one_slot : MemoryManager
one_slot = (create no_slots 3).1

pub one_slot-IsValid : IsValid one_slot
unfolding init
one_slot-IsValid = create-IsValid no_slots 3 (omega arith) no_slots-IsValid

pub one_slot-contents : contents one_slot 1 ≡ some (3 ∷ 2 ∷ 1 ∷ [])
unfolding contents create init lookup insert assign new_array
one_slot-contents = refl

pub one_slot-View : View one_slot 1 (3 ∷ 2 ∷ 1 ∷ [])
one_slot-View = contents-View one_slot-IsValid one_slot-contents

pub one_slot-Provides : Provides one_slot.heap
unfolding create init new_array
one_slot-Provides = ample-Provides

pub one_slot-refs : lookup 1 one_slot.refs ≡ some 1
unfolding create init lookup insert assign
one_slot-refs = refl

abbrev pub parent : Individual
parent = record { index = 1; id = 9 }

pub parent-Ready : Ready one_slot parent.index (3 ∷ 2 ∷ 1 ∷ [])
unfolding create init
parent-Ready = record {
  valid = one_slot-IsValid;
  holds = one_slot-contents;
  supply = one_slot-Provides;
  slots = omega arith;
  count = 1;
  counted = one_slot-refs;
  counts = omega arith;
}

-- A generator that draws 0, 1, 2 and so on, from `n` on.
abbrev pub counter : ℕ → Rand
counter n = record { draws = λ k. k; position = n }
