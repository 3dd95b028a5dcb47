-- ===== src/Tests/Digits.antt =====
-- `ChangeASCIIIntegerMutator` at an individual with the text ":98", and a generator that draws 10,
-- 11, 12, ...
use fuzzer_goal_directed.Prelude.{ℕ, zero, suc, ◌+◌, List, [], ◌∷◌, some}
use fuzzer_goal_directed.Heap.{Heap}
use fuzzer_goal_directed.Memory.{MemoryManager, init, create}

abbrev falling : ℕ → List ℕ
falling zero = []
falling (suc n) = (56 + n) ∷ falling n

-- A heap whose blocks of three bytes hold ":98".
abbrev writing : Heap
writing = record { answer = λ c n. some (falling n); next_address = 0; blocks = [] }

abbrev one_text : MemoryManager
one_text = (create (init writing) 3).1
