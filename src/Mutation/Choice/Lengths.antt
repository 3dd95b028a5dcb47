-- ===== src/Mutation/Choice/Lengths.antt =====
-- No mutator gives an individual without bytes (fuzzer/fuzzer/mutations.cpp): the lengths that show it.
use fuzzer_goal_directed.Prelude.{
  ℕ, zero, suc, ◌+◌, ◌/◌, ◌%◌, ◌≤◌, ◌<◌, ◌≡◌, sym, List, [], ◌∷◌, ◌++◌, arith, ltb, leb, min,
  to_u32, if◌then◌else◌, length, get_or, take, drop, Bool-cases, inl, inr, dec_lt, lt→ltb, le→ltb,
  length-append, length-take, length-drop,
}
use mathlib.Core.List.{Perm}
use mathlib.Core.List.Perm
use fuzzer_goal_directed.Random.{Rand, next_number}
use fuzzer_goal_directed.Mutation.Digits.{parsed, changed_value, decimal, decimal_from}
use fuzzer_goal_directed.Mutation.Digits.Whole.{changed}

pub length_reordered :
    (after bytes : List ℕ) → Perm after bytes → 0 < length bytes → 0 < length after
length_reordered (x ∷ after) bytes p h = omega arith
length_reordered [] bytes p h =
    absurd (let e : bytes ≡ [] = sym (Perm.nil-eq p) in omega (arith, (rw e at h)))

pub length_around :
    (a b : ℕ) (bytes middle : List ℕ)
    → 0 < length middle
    → 0 < length (take a bytes ++ (middle ++ drop b bytes))
length_around a b bytes middle k = omega (
  arith,
  length-append (take a bytes) (middle ++ drop b bytes),
  length-append middle (drop b bytes),
)

pub length_erased :
    (idx : ℕ) (bytes : List ℕ)
    → 0 < length bytes
    → 0 < length (if ltb (length bytes) 2 then bytes else take idx bytes ++ drop (idx + 1) bytes)
length_erased idx bytes h = elim (dec_lt (length bytes) 2) [
  | yes l ↦ rw (lt→ltb (length bytes) 2 l) h
  | no n ↦ rw (le→ltb 2 (length bytes) (omega (arith, n))) (
      omega (
        arith,
        n,
        length-append (take idx bytes) (drop (idx + 1) bytes),
        length-take idx bytes,
        length-drop (idx + 1) bytes,
      ))
]

pub length_repeated :
    (a : ℕ) (bytes middle : List ℕ)
    → 0 < length bytes
    → 0 < length (take a bytes ++ (middle ++ drop a bytes))
length_repeated a bytes middle h = omega (
  arith,
  length-append (take a bytes) (middle ++ drop a bytes),
  length-append middle (drop a bytes),
  length-take a bytes,
  length-drop a bytes,
)

pub length_duplicated :
    (a range : ℕ) (bytes middle : List ℕ)
    → 0 < length bytes
    → 0
      < length
          (if leb (length bytes) range then bytes else take a bytes ++ (middle ++ drop a bytes))
length_duplicated a range bytes middle h = elim (Bool-cases (leb (length bytes) range)) [
  | inl e ↦ rw e h
  | inr e ↦ rw e (length_repeated a bytes middle h)
]

length_decimal_ge :
    (fuel n : ℕ) (digits : List ℕ) → length digits ≤ length (decimal_from fuel n digits)
unfolding decimal_from
length_decimal_ge zero n digits = omega arith
length_decimal_ge (suc fuel) n digits = elim (Bool-cases (ltb n 10)) [
  | inl e ↦ rw e (omega arith)
  | inr e ↦ rw e (omega (arith, length_decimal_ge fuel (n / 10) ((48 + n % 10) ∷ digits)))
]

length_decimal_pos : (n : ℕ) → 0 < length (decimal n)
unfolding decimal decimal_from
length_decimal_pos n = elim (Bool-cases (ltb n 10)) [
  | inl e ↦ rw e (omega arith)
  | inr e ↦ rw e (omega (arith, length_decimal_ge 19 (n / 10) ((48 + n % 10) ∷ [])))
]

pub length_changed :
    (r : Rand) (bytes : List ℕ) (runs : List (ℕ × ℕ))
    → 0 < length bytes
    → 0 < length (changed r bytes runs).0
length_changed r bytes [] h = h
length_changed r bytes (run ∷ runs) h =
    let (chosen, r1) = next_number r (to_u32 (length (run ∷ runs))) in
    let (start, n) = get_or (run ∷ runs) chosen (0, 0) in
    let digits = decimal (changed_value r1 (parsed bytes start n)).0 in
    length_around start (start + min n (length digits)) bytes digits (length_decimal_pos _)
