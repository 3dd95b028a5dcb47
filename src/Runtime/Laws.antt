-- ===== src/Runtime/Laws.antt =====
-- From the calls of the instrumentation to the container (fuzzer/runtime/runtime.cpp).
use fuzzer_goal_directed.Prelude.{
  ℕ, ◌≡◌, refl, ap, sym, ◌∙◌, true, Option, none, some, List, [], ◌∷◌, ◌++◌, append_assoc,
  append-nil, ◌==◌, if◌then◌else◌,
}
use fuzzer_goal_directed.Result.{ok, ◌>>=◌, Returns, returns}
use fuzzer_goal_directed.Trace.{
  TraceElement, trace_element, Container, add_all, e_true_branch, e_false_branch, e_enter_function,
  e_exit_function, e_kill, e_terminated, get_trace, trace_or_empty,
}
use fuzzer_goal_directed.Trace.Laws.{add_all_lem}
use fuzzer_goal_directed.OrderedMap.{lookup}
use fuzzer_goal_directed.Runtime.{
  Runtime, start, get_testcase_id, flush, add, handle_trace_element, initialized, terminated, Event,
  reach, skip, enter, exit, killed, call, run, default_testcase_id, reach_block, skip_block,
  enter_func, exit_func, kill,
}

-- The trace element that an event stands for.
abbrev pub recorded : ℕ → Event → TraceElement
recorded t (reach f p c) = trace_element e_true_branch t f p c
recorded t (skip f p c) = trace_element e_false_branch t f p c
recorded t (enter f) = trace_element e_enter_function t f 0 0
recorded t (exit f) = trace_element e_exit_function t f 0 0
recorded t (killed f) = trace_element e_kill t f 0 0

abbrev pub recorded_all : ℕ → List Event → List TraceElement
recorded_all t [] = []
recorded_all t (e ∷ es) = recorded t e ∷ recorded_all t es

-- A runtime whose writer is set, and that has not flushed yet.
pub record Open (r : Runtime) : Type 0 where
  pub set : r.writer ≡ true
  pub flag : r.shared_memory_initialized ≡ true
  pub quiet : r.events_since_last_flush ≡ 0

abbrev pub appended : Runtime → List TraceElement → Runtime
appended r es = record r { trace = r.trace ++ es }

handled :
    (r : Runtime) (e : TraceElement) → Open r → handle_trace_element r e ≡ ok (appended r (e ∷ []))
unfolding handle_trace_element add
handled r e o = rw (o.set, o.quiet)

kept : (r : Runtime) → Open r → initialized r ≡ r
kept r o = rw o.flag refl

call_lem :
    (t : ℕ) (r : Runtime) (e : Event) → Open r → call t r e ≡ ok (appended r (recorded t e ∷ []))
unfolding call reach_block skip_block enter_func exit_func kill
call_lem t r (reach f p c) o = handled r _ o
call_lem t r (skip f p c) o = handled r _ o
call_lem t r (enter f) o =
    ap (λ q. handle_trace_element q (trace_element e_enter_function t f 0 0)) (kept r o)
    ∙ handled r _ o
call_lem t r (exit f) o = handled r _ o
call_lem t r (killed f) o = handled r _ o

-- A run buffers all of its events in their order, and never flushes: the count of events is not
-- increased anywhere.
pub run_lem :
    (t : ℕ) (es : List Event) (r : Runtime)
    → Open r
    → run t r es ≡ ok (appended r (recorded_all t es))
unfolding run
run_lem t [] r o = ap (λ x. ok (record r { trace = x })) (sym (append-nil r.trace))
run_lem t (e ∷ es) r o = rw (call_lem t r e o) (
    run_lem t es (appended r (recorded t e ∷ []))
      (record { set = o.set; flag = o.flag; quiet = o.quiet })
    ∙ ap (λ x. ok (record r { trace = x }))
        (append_assoc r.trace (recorded t e ∷ []) (recorded_all t es)))

abbrev pub environment_or_default : Option ℕ → ℕ
environment_or_default none = default_testcase_id
environment_or_default (some i) = i

-- The runtime after the first call.
abbrev attached : Option ℕ → Container → Runtime
attached env c = record (start env c) { shared_memory_initialized = true; writer = true }

abbrev buffered : Option ℕ → Container → List TraceElement → Runtime
buffered env c es = record (attached env c) { trace = es }

abbrev pub held : Option (List TraceElement) → List TraceElement
held none = []
held (some old) = old

-- Nothing is left in the buffer, and the container holds, for the test case of the environment, the
-- events `es` behind those that it held; the traces of the others are the same.
pub record Delivered (env : Option ℕ) (c : Container) (es : List TraceElement) (r : Runtime)
    : Type 0 where
  pub buffer : r.trace ≡ []
  pub traces :
      (j : ℕ)
      → let i = environment_or_default env in
        lookup j r.container ≡ (if i == j then some (held (lookup i c) ++ es) else lookup j c)

held_same : (o : Option (List TraceElement)) → trace_or_empty o ≡ held o
held_same none = refl
held_same (some old) = refl

delivered :
    (env : Option ℕ) (c : Container) (es : List TraceElement) (r : Runtime)
    → r.trace ≡ []
    → r.container ≡ add_all c (environment_or_default env) es
    → Delivered env c es r
unfolding get_trace
delivered env c es r e k =
    let i = environment_or_default env in
    record {
      buffer = e;
      traces = λ j.
          ap (lookup j) k
          ∙ add_all_lem c i j es
          ∙ ap (λ old. if i == j then some (old ++ es) else lookup j c) (held_same (lookup i c));
    }

flushed :
    (env : Option ℕ) (c : Container) (e : TraceElement) (es : List TraceElement)
    → Returns (Delivered env c (e ∷ es)) (flush (buffered env c (e ∷ es)))
unfolding flush get_testcase_id
flushed none c e es = returns _ (delivered none c (e ∷ es) _ refl refl)
flushed (some i) c e es = returns _ (delivered (some i) c (e ∷ es) _ refl refl)

-- A process that enters a function first and ends normally delivers all of its events, in their
-- order and with the end as the last, behind the trace of the test case in its environment, or else
-- of test case 0, and changes no other trace.
pub whole_run_lem :
    (env : Option ℕ) (c : Container) (t f : ℕ) (es : List Event)
    → Returns
        (Delivered env c
          (recorded_all t (enter f ∷ es) ++ (trace_element e_terminated 0 0 0 0 ∷ [])))
        (run t (start env c) (enter f ∷ es) >>= terminated)
whole_run_lem env c t f es =
    rw (started, ended)
      (flushed env c (recorded t (enter f))
        (recorded_all t es ++ (trace_element e_terminated 0 0 0 0 ∷ [])))
  where
    started :
        run t (start env c) (enter f ∷ es) ≡ ok (buffered env c (recorded_all t (enter f ∷ es)))
    started =
        unfold run call enter_func handle_trace_element add in
        run_lem t es (buffered env c (recorded t (enter f) ∷ []))
          (record { set = refl; flag = refl; quiet = refl })

    ended :
        terminated (buffered env c (recorded_all t (enter f ∷ es)))
        ≡ flush (
            buffered env c
              (recorded_all t (enter f ∷ es) ++ (trace_element e_terminated 0 0 0 0 ∷ [])))
    ended = unfold terminated handle_trace_element add in refl
