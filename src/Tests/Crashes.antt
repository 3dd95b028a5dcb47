-- ===== src/Tests/Crashes.antt =====
-- Tests of the crashes: the dumps that are decoded, and the directories that are read (fuzzer/fuzzer/
-- crash-analyzer.cpp and ui.cpp: `CrashAnalyzer`, `UICrashReader`).
use fuzzer_goal_directed.Prelude.{
  ℕ, ◌<◌, ◌≤◌, ◌^◌, ◌≡◌, refl, Option, none, some, List, [], ◌∷◌, ◌++◌, length, min, map, arith,
}
use fuzzer_goal_directed.OrderedMap.{lookup, insert, assign}
use fuzzer_goal_directed.Random.{insert_sorted}
use fuzzer_goal_directed.Memory.{contains}
use fuzzer_goal_directed.Result.{Returns, ok, fault, out_of_bounds, null_pointer}
use fuzzer_goal_directed.NameMap.{Name, find_name}
use fuzzer_goal_directed.Mutation.Digits.{decimal}
use fuzzer_goal_directed.CrashReader.{
  empty_reader, run, get_crash_id, get_crashers, max_number_crash_per_kind,
}
use fuzzer_goal_directed.CrashReader.Association.{IsConsistent}
use fuzzer_goal_directed.CrashReader.Laws.{Kept, run-Kept}
use fuzzer_goal_directed.CrashAnalyzer.{
  to_hex, Dump, Decoded, get_crashed_trace, decode_dumps, get_testcase_id, behind,
  env_testcase_id_eq,
}
use fuzzer_goal_directed.CrashAnalyzer.Addresses.{address_limit, to_hex_lem}
use fuzzer_goal_directed.CrashAnalyzer.Limit.{reported, found, Readable, decode_dumps_lem}
use fuzzer_goal_directed.CrashAnalyzer.Environment.{
  number_or, get_testcase_id_lem, get_testcase_id-decimal,
}

abbrev two_crashes : List (Name × List (Option ℕ))
two_crashes =
    ((97 ∷ [], some 7 ∷ none ∷ some 0 ∷ some 4 ∷ []) ∷ (98 ∷ [], some 4 ∷ some 9 ∷ []) ∷ [])

crashers : get_crashers (run empty_reader two_crashes) ≡ 4 ∷ 7 ∷ 9 ∷ []
unfolding get_crashers run empty_reader lookup insert_sorted insert assign
crashers = refl

-- The test case 4 was found under the first directory, and stays there.
first_crash : get_crash_id (run empty_reader two_crashes) 4 ≡ some (97 ∷ [])
unfolding get_crash_id run empty_reader lookup insert_sorted insert assign
first_crash = refl

second_crash : find_name (98 ∷ []) (run empty_reader two_crashes).crashes_mapping ≡ some (9 ∷ [])
unfolding find_name run empty_reader lookup insert_sorted insert assign
second_crash = refl

empty_reader-IsConsistent : IsConsistent empty_reader
unfolding empty_reader get_crash_id find_name contains lookup
empty_reader-IsConsistent = record { agrees = λ j name. refl; in_range = λ j k h. cc }

run-Kept_example : Kept empty_reader (run empty_reader two_crashes)
run-Kept_example = run-Kept empty_reader two_crashes empty_reader-IsConsistent

to_hex_lem_example :
    (255 < address_limit → Returns (λ text. length text ≤ 16) (to_hex 255))
    × (address_limit ≤ 255 → to_hex 255 ≡ fault out_of_bounds)
to_hex_lem_example = to_hex_lem 255 (omega arith)

hex_255 : to_hex 255 ≡ ok (48 ∷ 120 ∷ 102 ∷ 102 ∷ [])
unfolding to_hex
hex_255 = refl

long_address : to_hex (2 ^ 60) ≡ fault out_of_bounds
unfolding to_hex
long_address = refl

-- A frame without a module.
no_module :
    get_crashed_trace 0 (some (record { instruction = 9; module_base = none }) ∷ [])
    ≡ fault null_pointer
unfolding get_crashed_trace
no_module = refl

-- Memory with the variable of the test case 42, and the two frames of the call that crashed.
abbrev crashed : Dump
crashed = record {
  bytes = 0 ∷ 65 ∷ 32 ∷ (env_testcase_id_eq ++ (decimal 42 ++ (0 ∷ 9 ∷ 66 ∷ [])));
  crash_address = 4096;
  crash_reason = 83 ∷ [];
  call_stack = some (some (record { instruction = 700; module_base = some 512 }) ∷ none ∷ []);
}

get_testcase_id_lem_example :
    get_testcase_id crashed.bytes ≡ number_or (behind env_testcase_id_eq crashed.bytes) 0
get_testcase_id_lem_example = get_testcase_id_lem crashed.bytes

get_testcase_id-decimal_example : get_testcase_id crashed.bytes ≡ 42
unfolding behind decimal
get_testcase_id-decimal_example =
    get_testcase_id-decimal crashed.bytes (0 ∷ 9 ∷ 66 ∷ []) 42 refl refl (omega arith)

crashed-Readable : Readable crashed
crashed-Readable = record {
  address = omega arith;
  stack = (omega arith, (512, refl, omega arith), (omega arith, tt));
}

decode_dumps_lem_example :
    Returns
      (λ o.
        (map Decoded.testcase_id o.0 ≡ map (λ d. get_testcase_id d.bytes) (crashed ∷ crashed ∷ []))
        × ((name : Name) → reported name o.0 ≡ min max_number_crash_per_kind (found name o.0)))
      (decode_dumps (λ text. text) [] (crashed ∷ crashed ∷ []))
decode_dumps_lem_example =
    decode_dumps_lem (λ text. text) (crashed ∷ crashed ∷ [])
      (crashed-Readable, (crashed-Readable, tt)) (omega arith)
