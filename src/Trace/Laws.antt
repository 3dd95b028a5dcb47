-- ===== src/Trace/Laws.antt =====
-- The operations of the shared container (fuzzer/shared-data/shared-data.cpp), and the numbers of the
-- trace service (fuzzer/runtime-trace-service/main.cpp).
use fuzzer_goal_directed.Prelude.{
  ℕ, ◌<◌, ◌≡◌, ap, ◌∙◌, true, none, some, List, ◌++◌, ◌==◌, if◌then◌else◌, arith, u32_mod,
  append_assoc,
}
use fuzzer_goal_directed.OrderedMap.{lookup, assign, lookup-assign, lookup-erase, assign-assign}
use fuzzer_goal_directed.Trace.{
  TraceKind, trace_kind_number, TraceElement, Container, get_create_list, trace_or_empty, add_all,
  get_trace, remove_trace, to_unique_block_id, same_element,
}

-- After a list of events is added, its test case has them behind those that it had, and the traces
-- of the other test cases are the same.
pub add_all_lem :
    (c : Container) (i j : ℕ) (es : List TraceElement)
    → get_trace (add_all c i es) j
      ≡ (if i == j then some (get_create_list c i ++ es) else get_trace c j)
unfolding add_all get_trace
add_all_lem c i j es = lookup-assign i j (get_create_list c i ++ es) c

created :
    (c : Container) (i : ℕ) (es : List TraceElement)
    → get_create_list (add_all c i es) i ≡ get_create_list c i ++ es
unfolding add_all
created c i es =
    let e : lookup i (assign i (get_create_list c i ++ es) c) ≡ some (get_create_list c i ++ es) =
      ground (arith, lookup-assign i i (get_create_list c i ++ es) c) in
    ap trace_or_empty e

-- Adding two lists one after the other is the same as adding them as one.
pub add_all-append :
    (c : Container) (i : ℕ) (es fs : List TraceElement)
    → add_all (add_all c i es) i fs ≡ add_all c i (es ++ fs)
add_all-append c i es fs =
    unfold add_all in
    (ap (λ t. assign i (t ++ fs) (add_all c i es)) (created c i es)
      ∙ assign-assign i ((get_create_list c i ++ es) ++ fs) (get_create_list c i ++ es) c
      ∙ ap (λ t. assign i t c) (append_assoc (get_create_list c i) es fs))

-- A trace that is removed is no longer found, and the others are the same.
pub remove_trace_lem :
    (c : Container) (i j : ℕ)
    → get_trace (remove_trace c i) j ≡ (if i == j then none else get_trace c j)
unfolding remove_trace get_trace
remove_trace_lem c i j = lookup-erase i j c

-- The number that the trace service gives a block determines its function and its block.
pub to_unique_block_id-injective :
    (f b g c : ℕ)
    → f < u32_mod
    → b < u32_mod
    → g < u32_mod
    → c < u32_mod
    → to_unique_block_id f b ≡ to_unique_block_id g c
    → (f ≡ g) × (b ≡ c)
unfolding to_unique_block_id
to_unique_block_id-injective f b g c hf hb hg hc e = (omega arith, omega arith)

kind_of_number : (k l : TraceKind) → trace_kind_number k ≡ trace_kind_number l → k ≡ l
kind_of_number k l e = ground arith

-- Two trace elements that compare as equal are the same.
pub same_element_sound : (a b : TraceElement) → same_element a b ≡ true → a ≡ b
unfolding same_element
same_element_sound a b e = ground (arith, kind_of_number a.kind b.kind)
