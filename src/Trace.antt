-- ===== src/Trace.antt =====
-- Traces and the container that the runtime and the fuzzer share (fuzzer/shared-data/shared-data.h,
-- shared-data.cpp). The shared memory of Boost finds a list by the name of its test case; here it is
-- a map from the test case. The mutex makes each operation one step.
pub mod Laws
use fuzzer_goal_directed.Prelude.{
  ℕ, ◌+◌, ◌*◌, ◌^◌, ◌%◌, Bool, true, false, ◌&&◌, Option, none, some, List, [], ◌∷◌, ◌++◌, ◌==◌,
  to_u32, u64_mod,
}
use fuzzer_goal_directed.OrderedMap.{lookup, assign, erase}

pub data TraceKind : Type 0 where
  e_true_branch e_false_branch e_enter_function e_exit_function e_exception_branch : TraceKind
  e_kill e_terminated e_crashed e_timedout e_unknown : TraceKind

abbrev pub trace_kind_number : TraceKind → ℕ
trace_kind_number e_true_branch = 0
trace_kind_number e_false_branch = 1
trace_kind_number e_enter_function = 2
trace_kind_number e_exit_function = 3
trace_kind_number e_exception_branch = 4
trace_kind_number e_kill = 5
trace_kind_number e_terminated = 6
trace_kind_number e_crashed = 7
trace_kind_number e_timedout = 8
trace_kind_number e_unknown = 255

pub record TraceElement : Type 0 where
  pub kind : TraceKind
  pub thread_id : ℕ
  pub func_id : ℕ
  pub pred_block_id : ℕ
  pub cur_block_id : ℕ

-- The constructor, with its conversions to 32 bits.
abbrev pub trace_element : TraceKind → ℕ → ℕ → ℕ → ℕ → TraceElement
trace_element k t f p c = record {
  kind = k;
  thread_id = t;
  func_id = to_u32 f;
  pred_block_id = to_u32 p;
  cur_block_id = to_u32 c;
}

-- `operator==`
unfoldable pub same_element : TraceElement → TraceElement → Bool
same_element a b =
    trace_kind_number a.kind == trace_kind_number b.kind
    && a.thread_id == b.thread_id
    && a.func_id == b.func_id
    && a.pred_block_id == b.pred_block_id
    && a.cur_block_id == b.cur_block_id

abbrev pub Container : Type 0
Container = List (ℕ × List TraceElement)

abbrev pub trace_or_empty : Option (List TraceElement) → List TraceElement
trace_or_empty none = []
trace_or_empty (some t) = t

-- `get_create_list`
abbrev pub get_create_list : Container → ℕ → List TraceElement
get_create_list c i = trace_or_empty (lookup i c)

-- `add` of one element.
unfoldable pub add_one : Container → ℕ → TraceElement → Container
add_one c i e = assign i (get_create_list c i ++ (e ∷ [])) c

-- `add` of a list.
unfoldable pub add_all : Container → ℕ → List TraceElement → Container
add_all c i es = assign i (get_create_list c i ++ es) c

unfoldable pub get_trace : Container → ℕ → Option (List TraceElement)
get_trace c i = lookup i c

unfoldable pub remove_trace : Container → ℕ → Container
remove_trace c i = erase i c

-- `to_unique_block_id` of the trace service (fuzzer/runtime-trace-service/main.cpp).
unfoldable pub to_unique_block_id : ℕ → ℕ → ℕ
to_unique_block_id func_id block_id = (func_id * 2 ^ 32 % u64_mod + block_id) % u64_mod
