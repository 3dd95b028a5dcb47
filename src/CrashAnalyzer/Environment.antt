-- ===== src/CrashAnalyzer/Environment.antt =====
-- The number of the test case that a dump holds (fuzzer/fuzzer/crash-analyzer.cpp:
-- `get_testcase_id`).
use fuzzer_goal_directed.Prelude.{
  ℕ, ◌+◌, ◌-◌, ◌*◌, ◌%◌, ◌<◌, ◌≡◌, refl, sym, ap, ◌∙◌, List, [], ◌∷◌, ◌++◌, Option, none, some,
  arith, Bool, true, false, Bool-cases, Option-cases, inl, inr, u64_mod, append_assoc, append-nil,
  ◌==◌, ==_iff,
}
use fuzzer_goal_directed.NameMap.{Name}
use fuzzer_goal_directed.Mutation.Digits.{is_digit, accumulate, decimal}
use fuzzer_goal_directed.Mutation.Digits.Value.{AllDigits, decimal_from-AllDigits}
use fuzzer_goal_directed.Mutation.Digits.Laws.{accumulate-decimal}
use fuzzer_goal_directed.CrashAnalyzer.{
  words, is_space, with_word, strip, behind, leading_number, env_testcase_id_eq, testcase_id_in,
  get_testcase_id,
}

-- Text that has no space.
abbrev Plain : Name → Type 0
Plain [] = Unit {0}
Plain (x ∷ xs) = (is_space x ≡ false) × Plain xs

abbrev followed_by : Name → Option Name → Option Name
followed_by rest none = none
followed_by rest (some found) = some (found ++ rest)

abbrev or_else : Option Name → Option Name → Option Name
or_else none o = o
or_else (some found) o = some found

space_differs : (x c : ℕ) → is_space x ≡ false → is_space c ≡ true → (x == c) ≡ false
space_differs x c h k = elim (Bool-cases (x == c)) [
  | inl e ↦ let b : is_space x ≡ true = ap is_space ((==_iff x c).0 e) ∙ k in cc
  | inr e ↦ e
]

-- No match of a text without spaces reaches over a space.
strip-space :
    (needle word rest : Name) (c : ℕ)
    → Plain needle
    → is_space c ≡ true
    → strip needle (word ++ (c ∷ rest)) ≡ followed_by (c ∷ rest) (strip needle word)
strip-space [] word rest c p k = refl
strip-space (x ∷ xs) [] rest c p k = rw (space_differs x c p.0 k) refl
strip-space (x ∷ xs) (y ∷ ys) rest c p k = elim (Bool-cases (x == y)) [
  | inl e ↦ rw e (strip-space xs ys rest c p.1 k)
  | inr e ↦ rw e refl
]

behind-space :
    (x : ℕ) (xs word rest : Name) (c : ℕ)
    → Plain (x ∷ xs)
    → is_space c ≡ true
    → behind (x ∷ xs) (word ++ (c ∷ rest))
      ≡ or_else (followed_by (c ∷ rest) (behind (x ∷ xs) word)) (behind (x ∷ xs) rest)
unfolding behind
behind-space x xs [] rest c p k = rw (space_differs x c p.0 k, behind) refl
behind-space x xs (y ∷ ys) rest c p k =
    let later = behind-space x xs ys rest c p k in
    let here = strip-space (x ∷ xs) (y ∷ ys) rest c p k in
    elim (Option-cases (strip (x ∷ xs) (y ∷ ys))) [
      | inl e ↦ rw (here, e, later, behind) refl
      | inr (found, e) ↦ rw (here, e, behind) refl
    ]

space_no_digit : (c : ℕ) → is_space c ≡ true → is_digit c ≡ false
space_no_digit c h = ground arith

leading_number-space :
    (n : ℕ) (s rest : Name) (c : ℕ)
    → is_space c ≡ true
    → leading_number n (s ++ (c ∷ rest)) ≡ leading_number n s
unfolding leading_number
leading_number-space n [] rest c k = rw (space_no_digit c k) refl
leading_number-space n (d ∷ s) rest c k =
    rw (leading_number-space ((n * 10 + (d - 48)) % u64_mod) s rest c k) refl

env_testcase_id_eq-Plain : Plain env_testcase_id_eq
env_testcase_id_eq-Plain = ground arith

abbrev pub number_or : Option Name → ℕ → ℕ
number_or none n = n
number_or (some found) n = leading_number 0 found

testcase_id_in-with_word :
    (word : Name) (lines : List Name)
    → testcase_id_in (with_word word lines)
      ≡ number_or (behind env_testcase_id_eq word) (testcase_id_in lines)
unfolding testcase_id_in behind leading_number
testcase_id_in-with_word [] lines = refl
testcase_id_in-with_word (c ∷ word) lines =
    elim (Option-cases (behind env_testcase_id_eq (c ∷ word))) [
      | inl e ↦ rw (e, testcase_id_in) refl
      | inr (found, e) ↦ rw (e, testcase_id_in) refl
    ]

number_or-followed_by :
    (o p : Option Name) (c : ℕ) (rest : Name)
    → is_space c ≡ true
    → number_or o (number_or p 0) ≡ number_or (or_else (followed_by (c ∷ rest) o) p) 0
number_or-followed_by none p c rest k = refl
number_or-followed_by (some found) p c rest k = sym (leading_number-space 0 found rest c k)

no_lines : testcase_id_in [] ≡ 0
unfolding testcase_id_in
no_lines = refl

testcase_id_in-words :
    (begun s : Name)
    → testcase_id_in (words begun s) ≡ number_or (behind env_testcase_id_eq (begun ++ s)) 0
unfolding words
testcase_id_in-words begun [] =
    testcase_id_in-with_word begun []
    ∙ ap (number_or (behind env_testcase_id_eq begun)) no_lines
    ∙ ap (λ w. number_or (behind env_testcase_id_eq w) 0) (sym (append-nil begun))
testcase_id_in-words begun (c ∷ rest) = elim (Bool-cases (is_space c)) [
  | inl e ↦ rw e (
      testcase_id_in-with_word begun (words [] rest)
      ∙ ap (number_or (behind env_testcase_id_eq begun)) (testcase_id_in-words [] rest)
      ∙ number_or-followed_by _ _ c rest e
      ∙ ap (λ o. number_or o 0) (sym (behind-space _ _ begun rest c env_testcase_id_eq-Plain e)))
  | inr e ↦ rw e (
      testcase_id_in-words (begun ++ (c ∷ [])) rest
      ∙ ap (λ w. number_or (behind env_testcase_id_eq w) 0) (append_assoc begun (c ∷ []) rest))
]

-- Reading the dump word by word is the same as searching it as a whole: the number is the one that
-- follows the first occurrence of `COVERAGE_FUZZING_TESTCASE_ID=`, and 0 if there is none.
pub get_testcase_id_lem :
    (dump : Name) → get_testcase_id dump ≡ number_or (behind env_testcase_id_eq dump) 0
unfolding get_testcase_id
get_testcase_id_lem dump = testcase_id_in-words [] dump

abbrev pub begins_with_digit : Name → Bool
begins_with_digit [] = false
begins_with_digit (c ∷ rest) = is_digit c

leading_number-accumulate :
    (n : ℕ) (digits rest : Name)
    → AllDigits digits
    → begins_with_digit rest ≡ false
    → leading_number n (digits ++ rest) ≡ accumulate n digits
unfolding leading_number accumulate
leading_number-accumulate n [] [] a b = refl
leading_number-accumulate n [] (c ∷ rest) a b = rw b refl
leading_number-accumulate n (d ∷ digits) rest a b =
    rw (a.0) (leading_number-accumulate ((n * 10 + (d - 48)) % u64_mod) digits rest a.1 b)

-- The number of a test case comes back from a dump: if behind the first occurrence of the variable
-- that the fuzzer sets there are the decimal digits of a number of 64 bits, and no digit more,
-- the analyzer reads that number.
pub get_testcase_id-decimal :
    (dump rest : Name) (testcase_id : ℕ)
    → behind env_testcase_id_eq dump ≡ some (decimal testcase_id ++ rest)
    → begins_with_digit rest ≡ false
    → testcase_id < u64_mod
    → get_testcase_id dump ≡ testcase_id
unfolding decimal
get_testcase_id-decimal dump rest testcase_id h b u =
    get_testcase_id_lem dump
    ∙ ap (λ o. number_or o 0) h
    ∙ leading_number-accumulate 0 (decimal testcase_id) rest
        (decimal_from-AllDigits 20 testcase_id [] tt) b
    ∙ accumulate-decimal testcase_id u
