-- ===== src/Mocker/Laws.antt =====
-- The shape of the mocked traces (fuzzer/fuzzer/mocker.cpp).
use fuzzer_goal_directed.Prelude.{
  ℕ, zero, suc, ◌<◌, ◌≡◌, refl, Bool, true, ◌&&◌, List, [], ◌∷◌, ◌++◌, arith, ltb, ◌==◌,
  if◌then◌else◌,
}
use fuzzer_goal_directed.Random.{Rand, next_number}
use fuzzer_goal_directed.Random.Laws.{next_number-lt}
use fuzzer_goal_directed.Trace.{TraceElement, trace_kind_number}
use fuzzer_goal_directed.Mocker.{mock_edges, mock_calls, generate_random_trace}

-- A block of an edge is below 12, and an element that enters or leaves a function names none.
abbrev pub mocked_element : TraceElement → Bool
mocked_element e =
    if trace_kind_number e.kind == 0
    then ltb e.pred_block_id 12 && ltb e.cur_block_id 12
    else e.func_id == 0 && e.cur_block_id == 0

abbrev pub all_mocked : List TraceElement → Bool
all_mocked [] = true
all_mocked (e ∷ es) = mocked_element e && all_mocked es

all_mocked-append :
    (es fs : List TraceElement)
    → all_mocked es ≡ true
    → all_mocked fs ≡ true
    → all_mocked (es ++ fs) ≡ true
all_mocked-append [] fs h k = k
all_mocked-append (e ∷ es) fs h k = ground (arith, all_mocked-append es fs)

all_mocked-mock_edges :
    (rounds : ℕ) (r : Rand) (f p : ℕ) → p < 12 → all_mocked (mock_edges r f p rounds).0 ≡ true
unfolding mock_edges
all_mocked-mock_edges zero r f p h = refl
all_mocked-mock_edges (suc rounds) r f p h =
    let c : (next_number r 12).0 < 12 = omega (arith, next_number-lt r 12) in
    let rest = all_mocked-mock_edges rounds (next_number r 12).1 f (next_number r 12).0 c in
    ground (arith, rest, c)

all_mocked-mock_calls :
    (rounds : ℕ) (r : Rand) (n : ℕ) → all_mocked (mock_calls r n rounds).0 ≡ true
unfolding mock_calls
all_mocked-mock_calls zero r n = refl
all_mocked-mock_calls (suc rounds) r n =
    let (f, r1) = next_number r n in
    let (k, r2) = next_number r1 100 in
    all_mocked-append (mock_edges r2 f 0 k).0 _ (all_mocked-mock_edges k r2 f 0 (omega arith))
      (all_mocked-mock_calls rounds (mock_edges r2 f 0 k).1 n)

-- In a mocked trace, the blocks of every edge are below 12, and no element that enters or leaves a
-- function names a function: the code passes its number as the thread.
pub generate_random_trace_lem : (r : Rand) → all_mocked (generate_random_trace r).0 ≡ true
unfolding generate_random_trace
generate_random_trace_lem r = all_mocked-mock_calls _ _ _
