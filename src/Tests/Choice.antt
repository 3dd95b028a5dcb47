-- ===== src/Tests/Choice.antt =====
-- The mutation of an individual with the bytes 3, 2, 1.
use fuzzer_goal_directed.Prelude.{arith}
use fuzzer_goal_directed.Random.{next_number}
use fuzzer_goal_directed.Mutation.Choice.{get_and_mutate}
use fuzzer_goal_directed.Mutation.Choice.Bred.{Bred}
use fuzzer_goal_directed.Mutation.Choice.Laws.{get_and_mutate_lem}
use fuzzer_goal_directed.Tests.{one_slot, parent, parent-Ready, counter}
use fuzzer_goal_directed.Tests.Mutation.{
  swap_front, swap_front-Perm, length-swap_front, swap_front-draws,
}

-- The first draw, 5, asks for a mutation.
get_and_mutate_example :
    Bred
      (counter 5)
      one_slot
      parent
      parent-Ready
      (get_and_mutate 2 swap_front 1 (counter 5) one_slot parent)
unfolding next_number
get_and_mutate_example =
    get_and_mutate_lem 2 swap_front swap_front-Perm length-swap_front swap_front-draws one_slot
      parent parent-Ready (omega arith) (omega arith) (counter 5) 0 0 (omega arith)
      (λ two. omega arith)
