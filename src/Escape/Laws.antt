-- ===== src/Escape/Laws.antt =====
-- The escape of the trace service (fuzzer/runtime-trace-service/main.cpp).
use fuzzer_goal_directed.Prelude.{
  ℕ, ◌≡◌, refl, Bool, true, ◌&&◌, ◌||◌, not, List, [], ◌∷◌, ◌++◌, arith, ◌==◌,
}
use fuzzer_goal_directed.Escape.{json_escape, json_escaped, json_escaped_all}

-- No end of a line stands in the bytes.
abbrev pub one_line : List ℕ → Bool
one_line [] = true
one_line (c ∷ rest) = not (c == 13 || c == 10) && one_line rest

one_line-append :
    (xs ys : List ℕ) → one_line xs ≡ true → one_line ys ≡ true → one_line (xs ++ ys) ≡ true
one_line-append [] ys h k = k
one_line-append (x ∷ xs) ys h k = ground (arith, one_line-append xs ys)

one_line-json_escaped : (c : ℕ) → one_line (json_escaped c) ≡ true
one_line-json_escaped c = ground arith

one_line-json_escaped_all : (what : List ℕ) → one_line (json_escaped_all what) ≡ true
one_line-json_escaped_all [] = refl
one_line-json_escaped_all (c ∷ rest) =
    one_line-append (json_escaped c) (json_escaped_all rest) (one_line-json_escaped c)
      (one_line-json_escaped_all rest)

-- An escaped string is on one line, whatever the string is.
pub json_escape_lem : (what : List ℕ) → one_line (json_escape what) ≡ true
unfolding json_escape
json_escape_lem what =
    one_line-append (json_escaped_all what) (34 ∷ []) (one_line-json_escaped_all what) refl
