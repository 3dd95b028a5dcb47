-- ===== src/CrashAnalyzer.antt =====
-- The decoding of crash dumps (fuzzer/fuzzer/crash-analyzer.h and crash-analyzer.cpp:
-- `CrashAnalyzer`, `BreakpadDumpDecoder`). What breakpad reads of a dump is an argument, as is the
-- hash; the report that is written as JSON is left out but for the texts of its addresses.
pub mod Addresses
pub mod Limit
pub mod Environment
use fuzzer_goal_directed.Prelude.{
  ℕ, zero, suc, ◌+◌, ◌-◌, ◌*◌, ◌/◌, ◌%◌, Bool, true, false, Option, none, some, List, [], ◌∷◌, ◌++◌,
  ltb, leb, ◌==◌, ◌&&◌, ◌||◌, if◌then◌else◌, length, u64_mod, add64, sub64,
}
use fuzzer_goal_directed.Result.{Result, ok, fault, ◌>>=◌, out_of_bounds, null_pointer}
use fuzzer_goal_directed.NameMap.{Name, find_name, put_name}
use fuzzer_goal_directed.CrashReader.{max_number_crash_per_kind}
use fuzzer_goal_directed.Mutation.Digits.{is_digit}

-- `%llx`; 16 digits are enough for 64 bits.
abbrev pub hex_digit : ℕ → ℕ
hex_digit d = if ltb d 10 then 48 + d else 87 + d

unfoldable pub hex_from : ℕ → ℕ → List ℕ → List ℕ
hex_from zero n digits = digits
hex_from (suc fuel) n digits =
    let digit = hex_digit (n % 16) in
    let more = hex_from fuel (n / 16) (digit ∷ digits) in if ltb n 16 then digit ∷ digits else more

-- `to_hex`: `sprintf` writes the text and a zero into a buffer of 17 bytes.
unfoldable pub to_hex : ℕ → Result Name
unfolding hex_from
to_hex value =
    let text = 48 ∷ 120 ∷ hex_from 16 value [] in
    if leb (length text + 1) 17 then ok text else fault out_of_bounds

-- A frame of the call stack: its instruction, and the base address of its module if it has one.
pub record Frame : Type 0 where
  pub instruction : ℕ
  pub module_base : Option ℕ

-- `get_crashed_trace`, from the frame `frame_num` on: the offsets. A frame can be null.
unfoldable pub get_crashed_trace : ℕ → List (Option Frame) → Result (List ℕ)
unfolding to_hex
get_crashed_trace frame_num [] = ok []
get_crashed_trace frame_num (none ∷ rest) =
    get_crashed_trace (frame_num + 1) rest >>= λ offsets. ok (frame_num ∷ offsets)
get_crashed_trace frame_num (some frame ∷ rest) =
    let later = get_crashed_trace (frame_num + 1) rest in
    to_hex frame.instruction >>= λ _. elim frame.module_base [
      | none ↦ fault null_pointer
      | some base ↦
          to_hex base >>= λ _. (later >>= λ offsets. ok (sub64 frame.instruction base ∷ offsets))
    ]

-- The text that identifies a crash, before it is hashed.
unfoldable pub offsets_text : List ℕ → Result Name
unfolding to_hex
offsets_text [] = ok []
offsets_text (offset ∷ rest) = do
  text ← to_hex offset
  more ← offsets_text rest
  ok (text ++ (44 ∷ more))

unfoldable pub create_crash_id : (Name → Name) → Name → List ℕ → Result Name
unfolding offsets_text
create_crash_id hash reason offset_trace = do
  text ← offsets_text offset_trace
  ok (hash (reason ++ (58 ∷ text)))

-- The words that `stream >> line` reads, of the bytes behind the word that was begun.
abbrev pub is_space : ℕ → Bool
is_space c = c == 32 || (leb 9 c && leb c 13)

abbrev pub with_word : Name → List Name → List Name
with_word [] words = words
with_word (c ∷ word) words = (c ∷ word) ∷ words

unfoldable pub words : Name → Name → List Name
words begun [] = with_word begun []
words begun (c ∷ rest) =
    let longer = words (begun ++ (c ∷ [])) rest in
    let next = words [] rest in if is_space c then with_word begun next else longer

-- What is behind a prefix.
abbrev pub strip : Name → Name → Option Name
strip [] s = some s
strip (x ∷ xs) [] = none
strip (x ∷ xs) (y ∷ ys) = if x == y then strip xs ys else none

-- `find`, and the addition of the length: what is behind the first occurrence.
unfoldable pub behind : Name → Name → Option Name
behind needle [] = strip needle []
behind needle (c ∷ rest) =
    let later = behind needle rest in
    elim (strip needle (c ∷ rest)) [ some found ↦ some found | none ↦ later ]

-- `testcase_id * 10 + (c - '0')` in 64 bits, as long as there are digits.
unfoldable pub leading_number : ℕ → Name → ℕ
leading_number testcase_id [] = testcase_id
leading_number testcase_id (c ∷ rest) =
    let later = leading_number ((testcase_id * 10 + (c - 48)) % u64_mod) rest in
    if is_digit c then later else testcase_id

-- `COVERAGE_FUZZING_TESTCASE_ID`, and the sign of equality.
abbrev pub env_testcase_id : Name
env_testcase_id =
    (67 ∷ 79 ∷ 86 ∷ 69 ∷ 82 ∷ 65 ∷ 71 ∷ 69 ∷ 95 ∷ 70 ∷ 85 ∷ 90 ∷ 90 ∷ 73 ∷ 78 ∷ 71 ∷ 95 ∷ 84 ∷ 69
      ∷ 83 ∷ 84 ∷ 67 ∷ 65 ∷ 83 ∷ 69 ∷ 95 ∷ 73 ∷ 68 ∷ [])

abbrev pub env_testcase_id_eq : Name
env_testcase_id_eq = env_testcase_id ++ (61 ∷ [])

unfoldable pub testcase_id_in : List Name → ℕ
unfolding behind leading_number
testcase_id_in [] = 0
testcase_id_in (line ∷ rest) =
    let later = testcase_id_in rest in
    elim (behind env_testcase_id_eq line) [ none ↦ later | some found ↦ leading_number 0 found ]

-- `get_testcase_id`, of the bytes of a dump.
unfoldable pub get_testcase_id : Name → ℕ
unfolding testcase_id_in words
get_testcase_id dump = testcase_id_in (words [] dump)

-- The count of `current_number_outputs`, and whether the report is written.
unfoldable pub count_output : Name → List (Name × ℕ) → Bool × List (Name × ℕ)
unfolding find_name put_name
count_output crash_id current_number_outputs = elim (find_name crash_id current_number_outputs) [
  | none ↦ (true, put_name crash_id 1 current_number_outputs)
  | some n ↦ (
    leb (add64 n 1) max_number_crash_per_kind,
    put_name crash_id (add64 n 1) current_number_outputs,
  )
]

-- A dump: its bytes, and what breakpad makes of it; there may be no call stack.
pub record Dump : Type 0 where
  pub bytes : Name
  pub crash_address : ℕ
  pub crash_reason : Name
  pub call_stack : Option (List (Option Frame))

-- What is known of a dump: `set_is_crashing` is called for its test case, and `create_info` says
-- whether a report is written.
pub record Decoded : Type 0 where
  pub testcase_id : ℕ
  pub crash_id : Name
  pub create_info : Bool

abbrev pub offset_trace_of : Option (List (Option Frame)) → Result (List ℕ)
unfolding get_crashed_trace
offset_trace_of none = ok []
offset_trace_of (some frames) = get_crashed_trace 0 frames

unfoldable pub handle_dump_file :
    (Name → Name) → List (Name × ℕ) → Dump → Result (Decoded × List (Name × ℕ))
unfolding to_hex create_crash_id count_output get_testcase_id
handle_dump_file hash current_number_outputs dump = do
  address ← to_hex dump.crash_address
  offset_trace ← offset_trace_of dump.call_stack
  crash_id ← create_crash_id hash dump.crash_reason offset_trace
  ok (
    record {
      testcase_id = get_testcase_id dump.bytes;
      crash_id = crash_id;
      create_info = (count_output crash_id current_number_outputs).0;
    },
    (count_output crash_id current_number_outputs).1,
  )

-- The loop of `CrashAnalyzer::run` over the dumps.
unfoldable pub decode_dumps :
    (Name → Name) → List (Name × ℕ) → List Dump → Result (List Decoded × List (Name × ℕ))
unfolding handle_dump_file
decode_dumps hash current_number_outputs [] = ok ([], current_number_outputs)
decode_dumps hash current_number_outputs (dump ∷ rest) = do
  first ← handle_dump_file hash current_number_outputs dump
  others ← decode_dumps hash first.1 rest
  ok (first.0 ∷ others.0, others.1)
