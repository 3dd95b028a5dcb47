-- ===== src/Tests/Crossover.antt =====
-- The cross-overs at two individuals, of three and of five bytes.
use fuzzer_goal_directed.Prelude.{refl, [], ◌∷◌, arith}
use fuzzer_goal_directed.OrderedMap.{lookup, insert, assign}
use fuzzer_goal_directed.Heap.{new_array}
use fuzzer_goal_directed.Memory.{MemoryManager, init, create}
use fuzzer_goal_directed.Memory.Invariant.{IsValid, contents}
use fuzzer_goal_directed.Memory.Create.{create-IsValid}
use fuzzer_goal_directed.Random.{next_bool, next_number, next_char}
use fuzzer_goal_directed.Individual.{Individual}
use fuzzer_goal_directed.Individual.Clone.{Ready}
use fuzzer_goal_directed.Crossover.{uniform, single_point}
use fuzzer_goal_directed.Crossover.Laws.{Crosses, uniform_lem}
use fuzzer_goal_directed.Crossover.SinglePoint.{single_point_lem}
use fuzzer_goal_directed.Tests.{one_slot, one_slot-IsValid, ample-Provides, parent, counter}

abbrev two_slots : MemoryManager
two_slots = (create one_slot 5).1

two_slots-IsValid : IsValid two_slots
unfolding create init
two_slots-IsValid = create-IsValid one_slot 5 (omega arith) one_slot-IsValid

abbrev mate : Individual
mate = record { index = 2; id = 4 }

parent-Ready : Ready two_slots parent.index (3 ∷ 2 ∷ 1 ∷ [])
unfolding create init contents lookup insert assign new_array
parent-Ready = record {
  valid = two_slots-IsValid;
  holds = refl;
  supply = ample-Provides;
  slots = omega arith;
  count = 1;
  counted = refl;
  counts = omega arith;
}

mate-Ready : Ready two_slots mate.index (5 ∷ 4 ∷ 3 ∷ 2 ∷ 1 ∷ [])
unfolding create init contents lookup insert assign new_array
mate-Ready = record {
  valid = two_slots-IsValid;
  holds = refl;
  supply = ample-Provides;
  slots = omega arith;
  count = 1;
  counted = refl;
  counts = omega arith;
}

-- The child is as long as the mate. The coins show the parent and the mate in turn; at the last byte
-- they show the parent, which has none there, so the character 7 is drawn.
uniform_example :
    Crosses two_slots mate mate-Ready.count
      (3 ∷ 4 ∷ 1 ∷ 2 ∷ 7 ∷ [])
      (counter 8)
      (uniform (counter 1) two_slots parent mate)
unfolding next_bool next_number next_char
uniform_example =
    uniform_lem (counter 1) two_slots parent mate parent-Ready mate-Ready (omega arith)
      (omega arith)

single_point_example :
    Crosses two_slots mate mate-Ready.count
      (3 ∷ 2 ∷ 1 ∷ 4 ∷ 1 ∷ [])
      (counter 5)
      (single_point (counter 1) two_slots parent mate)
unfolding next_bool next_number next_char
single_point_example =
    single_point_lem (counter 1) two_slots parent mate parent-Ready mate-Ready (omega arith)
      (omega arith)
