-- ===== src/CrashReader.antt =====
-- The crashes that are found on disk (fuzzer/fuzzer/ui.h and ui.cpp: `UICrashReader`). What the
-- directories hold is an argument: for each of them its name, and for each directory in it the
-- number that its name stands for, if it stands for one. The mutexes and the log are left out.
pub mod Association
pub mod Laws
use fuzzer_goal_directed.Prelude.{
  ℕ, suc, ◌+◌, Bool, true, false, Option, none, some, List, [], ◌∷◌, ◌++◌, ltb, leb, if◌then◌else◌,
  length, get_elem?, bytes_equal, ◌||◌,
}
use fuzzer_goal_directed.OrderedMap.{lookup, insert, keys}
use fuzzer_goal_directed.NameMap.{Name, find_name, put_name}
use fuzzer_goal_directed.Random.{insert_sorted}

pub record CrashReader : Type 0 where
  pub locked_crash_ids : List Name
  pub crashes_mapping : List (Name × List ℕ)
  pub crash_ids : List Name
  pub bimap : List (ℕ × ℕ)

unfoldable pub empty_reader : CrashReader
empty_reader = record { locked_crash_ids = []; crashes_mapping = []; crash_ids = []; bimap = [] }

abbrev pub max_number_crash_per_kind : ℕ
max_number_crash_per_kind = 250

-- `std::find` and `std::distance`: the first position, from `i` on.
unfoldable pub index_of : Name → ℕ → List Name → Option ℕ
index_of name i [] = none
index_of name i (x ∷ xs) =
    let later = index_of name (i + 1) xs in if bytes_equal x name then some i else later

-- `associated_bimap`: whether the test case had a crash identifier; it gets this one if it had none.
unfoldable pub associated_bimap : CrashReader → ℕ → Name → Bool × CrashReader
unfolding index_of
associated_bimap s testcase_id crash_id = elim (lookup testcase_id s.bimap) [
  | some index ↦ (true, s)
  | none ↦ elim (index_of crash_id 0 s.crash_ids) [
    | some index ↦ (false, record s { bimap = insert testcase_id index s.bimap })
    | none ↦ (
      false,
      record s {
        crash_ids = s.crash_ids ++ (crash_id ∷ []);
        bimap = insert testcase_id (length s.crash_ids) s.bimap;
      },
    )
  ]
]

-- `get_crash_id`; the empty string stands for no crash.
unfoldable pub get_crash_id : CrashReader → ℕ → Option Name
get_crash_id s testcase_id = elim (lookup testcase_id s.bimap) [
  | none ↦ none
  | some index ↦ get_elem? s.crash_ids index
]

abbrev pub or_empty : Option (List ℕ) → List ℕ
or_empty none = []
or_empty (some ids) = ids

-- A test case joins those of its crash identifier, which is locked once it has enough of them.
unfoldable pub file_testcase : CrashReader → Name → ℕ → CrashReader
unfolding find_name put_name
file_testcase s crash_id testcase_id =
    let ids = insert_sorted testcase_id (or_empty (find_name crash_id s.crashes_mapping)) in
    let filed = record s { crashes_mapping = put_name crash_id ids s.crashes_mapping } in
    if leb max_number_crash_per_kind (length ids)
    then record filed { locked_crash_ids = crash_id ∷ s.locked_crash_ids }
    else filed

-- One directory of a crash; its name does not stand for a number if the entry is `none`.
unfoldable pub read_testcase : CrashReader → Name → Option ℕ → CrashReader
unfolding associated_bimap file_testcase
read_testcase s crash_id none = s
read_testcase s crash_id (some testcase_id) =
    let read = associated_bimap s testcase_id crash_id in
    if ltb testcase_id 1
    then s
    else (if read.0 then read.1 else file_testcase read.1 crash_id testcase_id)

-- The loop over the directories of a crash.
unfoldable pub read_each : CrashReader → Name → List (Option ℕ) → CrashReader
unfolding read_testcase
read_each s crash_id [] = s
read_each s crash_id (entry ∷ rest) = read_each (read_testcase s crash_id entry) crash_id rest

abbrev pub is_locked : Name → List Name → Bool
is_locked name [] = false
is_locked name (x ∷ xs) = bytes_equal x name || is_locked name xs

unfoldable pub read_crash_dir : CrashReader → Name → List (Option ℕ) → CrashReader
unfolding read_each
read_crash_dir s crash_id entries =
    let known = or_empty (find_name crash_id s.crashes_mapping) in
    let opened = record s { crashes_mapping = put_name crash_id known s.crashes_mapping } in
    let read = read_each opened crash_id entries in
    if is_locked crash_id s.locked_crash_ids then s else read

-- `run`, once the directory of the crashes is there.
unfoldable pub run : CrashReader → List (Name × List (Option ℕ)) → CrashReader
unfolding read_crash_dir
run s [] = s
run s ((crash_id, entries) ∷ rest) = run (read_crash_dir s crash_id entries) rest

-- The keys of the map, which ascend.
unfoldable pub get_crashers : CrashReader → List ℕ
get_crashers s = keys s.bimap
