-- ===== src/Escape.antt =====
-- Escapes of strings (fuzzer/fuzzer/utils.cpp, fuzzer/runtime-trace-service/main.cpp), on lists of
-- bytes; `char` is signed.
pub mod Laws
use fuzzer_goal_directed.Prelude.{
  ℕ, Bool, true, false, ◌||◌, List, [], ◌∷◌, ◌++◌, ltb, leb, ◌==◌, if◌then◌else◌,
}
use fuzzer_goal_directed.Memory.{contains}
use fuzzer_goal_directed.Mutation.Digits.{decimal}

-- One character in `shell_escape`. A byte above 127 is a negative `char`, so below 32. The cast to
-- `uint8_t` makes the stream print the byte itself, behind a zero, and not its digits.
abbrev pub shell_escaped : ℕ → List ℕ
shell_escaped c =
    if ltb c 32 || leb 128 c
    then 92 ∷ 120 ∷ 48 ∷ c ∷ []
    else if c == 34 || (c == 92 || c == 39)
    then 92 ∷ c ∷ []
    else c ∷ []

abbrev pub shell_escaped_all : List ℕ → List ℕ
shell_escaped_all [] = []
shell_escaped_all (c ∷ rest) = shell_escaped c ++ shell_escaped_all rest

unfoldable pub shell_escape : List ℕ → List ℕ
shell_escape input =
    if contains 34 input
    then 34 ∷ (shell_escaped_all input ++ (34 ∷ []))
    else shell_escaped_all input

unfoldable pub html_escape : ℕ → List ℕ
unfolding decimal
html_escape c =
    if c == 38
    then 38 ∷ 97 ∷ 109 ∷ 112 ∷ 59 ∷ []
    else if c == 60
    then 38 ∷ 108 ∷ 116 ∷ 59 ∷ []
    else if c == 62
    then 38 ∷ 103 ∷ 116 ∷ 59 ∷ []
    else if c == 34
    then 38 ∷ 113 ∷ 117 ∷ 111 ∷ 116 ∷ 59 ∷ []
    else if c == 39
    then 38 ∷ 97 ∷ 112 ∷ 111 ∷ 115 ∷ 59 ∷ []
    else if ltb c 32 || (ltb 127 c || (c == 92 || c == 34))
    then 38 ∷ 35 ∷ (decimal c ++ (59 ∷ []))
    else c ∷ []

-- One character in `json_escape`.
abbrev pub json_escaped : ℕ → List ℕ
json_escaped c =
    if c == 13
    then 92 ∷ 117 ∷ 48 ∷ 48 ∷ 48 ∷ 100 ∷ []
    else if c == 10
    then 92 ∷ 117 ∷ 48 ∷ 48 ∷ 48 ∷ 97 ∷ []
    else if c == 34
    then 92 ∷ 34 ∷ []
    else c ∷ []

abbrev pub json_escaped_all : List ℕ → List ℕ
json_escaped_all [] = []
json_escaped_all (c ∷ rest) = json_escaped c ++ json_escaped_all rest

unfoldable pub json_escape : List ℕ → List ℕ
json_escape what = 34 ∷ (json_escaped_all what ++ (34 ∷ []))
