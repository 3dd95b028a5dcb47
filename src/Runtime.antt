-- ===== src/Runtime.antt =====
-- The runtime inside the program under test (fuzzer/runtime/runtime.cpp): the calls of the
-- instrumented code, the buffered trace and its flush into the shared container. The flags of the
-- process are fields; its environment, the identity of its threads and its exit are parameters or
-- left out, as are breakpad and the creation of the shared memory, which is there from the start.
pub mod Laws
use fuzzer_goal_directed.Prelude.{
  ℕ, Bool, true, false, Option, none, some, List, [], ◌∷◌, ◌++◌, leb, if◌then◌else◌,
}
use fuzzer_goal_directed.Result.{Result, ok, fault, ◌>>=◌, null_pointer}
use fuzzer_goal_directed.Trace.{
  TraceKind, TraceElement, trace_element, Container, add_all, e_true_branch, e_false_branch,
  e_enter_function, e_exit_function, e_kill, e_terminated, e_crashed, e_timedout,
}

abbrev pub default_testcase_id : ℕ
default_testcase_id = 0

abbrev pub flush_event_rate : ℕ
flush_event_rate = 100

-- `environment` is the number in COVERAGE_FUZZING_TESTCASE_ID, if that is set; `writer` tells
-- whether the pointer to the writer is set.
pub record Runtime : Type 0 where
  pub environment : Option ℕ
  pub shared_memory_initialized : Bool
  pub writer : Bool
  pub testcase_id_fetched : Bool
  pub testcase_id : ℕ
  pub events_since_last_flush : ℕ
  pub trace : List TraceElement
  pub container : Container

abbrev pub start : Option ℕ → Container → Runtime
start env c = record {
  environment = env;
  shared_memory_initialized = false;
  writer = false;
  testcase_id_fetched = false;
  testcase_id = default_testcase_id;
  events_since_last_flush = 0;
  trace = [];
  container = c;
}

-- `__coverage_get_testcase_id`
unfoldable pub get_testcase_id : Runtime → ℕ × Runtime
get_testcase_id r = if r.testcase_id_fetched then (r.testcase_id, r) else elim r.environment [
  | none ↦ (r.testcase_id, r)
  | some i ↦ (i, record r { testcase_id = i; testcase_id_fetched = true })
]

-- `SHMRuntimeWriterSingleton::flush`, through the pointer `writer`.
unfoldable pub flush : Runtime → Result Runtime
unfolding get_testcase_id
flush r =
    if r.writer
    then elim r.trace [
      | [] ↦ ok r
      | e ∷ es ↦
          let (i, r') = get_testcase_id r in
          ok (record r' { container = add_all r'.container i r'.trace; trace = [] })
    ]
    else fault null_pointer

-- `SHMRuntimeWriterSingleton::add`, through the pointer `writer`.
unfoldable pub add : Runtime → TraceElement → Result Runtime
add r e = if r.writer then ok (record r { trace = r.trace ++ (e ∷ []) }) else fault null_pointer

unfoldable pub handle_trace_element : Runtime → TraceElement → Result Runtime
unfolding flush add
handle_trace_element r e = do
  r1 ← add r e
  if leb flush_event_rate r1.events_since_last_flush
      then (do r2 ← flush r1; ok (record r2 { events_since_last_flush = 0 }))
      else ok r1

-- What sets the writer on the first call.
abbrev pub initialized : Runtime → Runtime
initialized r =
    if r.shared_memory_initialized
    then r
    else record r { writer = true; shared_memory_initialized = true }

unfoldable pub reach_block : ℕ → Runtime → ℕ → ℕ → ℕ → Result Runtime
unfolding handle_trace_element
reach_block thread r f p c = handle_trace_element r (trace_element e_true_branch thread f p c)

unfoldable pub skip_block : ℕ → Runtime → ℕ → ℕ → ℕ → Result Runtime
unfolding handle_trace_element
skip_block thread r f p c = handle_trace_element r (trace_element e_false_branch thread f p c)

unfoldable pub enter_func : ℕ → Runtime → ℕ → Result Runtime
unfolding handle_trace_element
enter_func thread r f =
    handle_trace_element (initialized r) (trace_element e_enter_function thread f 0 0)

unfoldable pub exit_func : ℕ → Runtime → ℕ → Result Runtime
unfolding handle_trace_element
exit_func thread r f = handle_trace_element r (trace_element e_exit_function thread f 0 0)

unfoldable pub kill : ℕ → Runtime → ℕ → Result Runtime
unfolding handle_trace_element
kill thread r f = handle_trace_element r (trace_element e_kill thread f 0 0)

unfoldable pub terminated : Runtime → Result Runtime
unfolding handle_trace_element flush
terminated r = do
  r1 ← handle_trace_element (initialized r) (trace_element e_terminated 0 0 0 0)
  flush r1

-- `breakpad_dump_callback`
unfoldable pub crashed : Runtime → Result Runtime
unfolding handle_trace_element flush
crashed r = do r1 ← handle_trace_element r (trace_element e_crashed 0 0 0 0); flush r1

-- `handle_custom_signal`, up to its exit.
unfoldable pub timed_out : Runtime → Result Runtime
unfolding handle_trace_element flush
timed_out r = do r1 ← handle_trace_element r (trace_element e_timedout 0 0 0 0); flush r1

-- A call of the instrumented code.
pub data Event : Type 0 where
  reach skip : (func_id pred_block_id cur_block_id : ℕ) → Event
  enter exit killed : (func_id : ℕ) → Event

unfoldable pub call : ℕ → Runtime → Event → Result Runtime
unfolding reach_block skip_block enter_func exit_func kill
call t r (reach f p c) = reach_block t r f p c
call t r (skip f p c) = skip_block t r f p c
call t r (enter f) = enter_func t r f
call t r (exit f) = exit_func t r f
call t r (killed f) = kill t r f

-- A run of one thread.
unfoldable pub run : ℕ → Runtime → List Event → Result Runtime
unfolding call
run t r [] = ok r
run t r (e ∷ es) = do r' ← call t r e; run t r' es
