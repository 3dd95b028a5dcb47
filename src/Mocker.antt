-- ===== src/Mocker.antt =====
-- Random traces to try the evolution on (fuzzer/fuzzer/mocker.cpp).
pub mod Laws
use fuzzer_goal_directed.Prelude.{ℕ, zero, suc, ◌+◌, List, [], ◌∷◌, ◌++◌}
use fuzzer_goal_directed.Random.{Rand, next_number}
use fuzzer_goal_directed.Trace.{
  TraceElement, trace_element, e_true_branch, e_enter_function, e_exit_function,
}

abbrev pub max_number_blocks : ℕ
max_number_blocks = 12

abbrev pub max_number_calls : ℕ
max_number_calls = 50

abbrev pub max_number_functions : ℕ
max_number_functions = 10

abbrev pub max_number_edges : ℕ
max_number_edges = 100

abbrev pub absolute_min_all : ℕ
absolute_min_all = 10

-- The loop over the edges of a call; 16705 is 0x4141.
unfoldable pub mock_edges : Rand → ℕ → ℕ → ℕ → List TraceElement × Rand
mock_edges r func_id pred_block zero = ([], r)
mock_edges r func_id pred_block (suc rounds) =
    let (cur_block, r1) = next_number r max_number_blocks in
    let (rest, r2) = mock_edges r1 func_id cur_block rounds in
    (trace_element e_true_branch 16705 func_id pred_block cur_block ∷ rest, r2)

-- The loop over the calls. The function stands where the constructor takes the thread in the
-- elements that enter and leave it.
unfoldable pub mock_calls : Rand → ℕ → ℕ → List TraceElement × Rand
unfolding mock_edges
mock_calls r num_functions zero = ([], r)
mock_calls r num_functions (suc rounds) =
    let (func_id, r1) = next_number r num_functions in
    let (num_edges, r2) = next_number r1 max_number_edges in
    let (edges, r3) = mock_edges r2 func_id 0 num_edges in
    let (rest, r4) = mock_calls r3 num_functions rounds in
    (
      trace_element e_enter_function func_id 0 0 0
          ∷ (edges ++ (trace_element e_exit_function func_id 0 0 0 ∷ rest)),
      r4,
    )

unfoldable pub generate_random_trace : Rand → List TraceElement × Rand
unfolding mock_calls
generate_random_trace r =
    let (functions, r1) = next_number r max_number_functions in
    let (calls, r2) = next_number r1 max_number_calls in
    mock_calls r2 (functions + absolute_min_all) (calls + absolute_min_all)
