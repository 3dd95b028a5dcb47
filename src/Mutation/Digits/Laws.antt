-- ===== src/Mutation/Digits/Laws.antt =====
-- The runs of digits that `ChangeASCIIIntegerMutator` finds and the numbers that it reads and writes
-- (fuzzer/fuzzer/mutations.cpp).
use fuzzer_goal_directed.Prelude.{
  ℕ, zero, suc, ◌+◌, ◌*◌, ◌/◌, ◌%◌, ◌≤◌, ◌<◌, ◌≡◌, ap, ◌∙◌, List, [], ◌∷◌, ltb, arith, length,
  Bool-cases, inl, inr, u64_mod,
}
use fuzzer_goal_directed.Mutation.Digits.{
  is_digit, integers_from, accumulate, decimal, decimal_from,
}

-- Every run is within the bytes and is not empty.
abbrev pub Within : ℕ → List (ℕ × ℕ) → Type 0
Within size [] = Unit {0}
Within size ((start, n) ∷ rest) = (0 < n) × (start + n ≤ size) × Within size rest

integers_from-Within :
    (bytes : List ℕ) (position run size : ℕ)
    → run ≤ position
    → position + length bytes ≤ size
    → Within size (integers_from bytes position run)
unfolding integers_from
integers_from-Within [] position run size h k = elim (Bool-cases (ltb 0 run)) [
  | inl e ↦ rw e (ground arith, omega arith, tt)
  | inr e ↦ rw e tt
]
integers_from-Within (c ∷ rest) position run size h k =
    let longer =
      integers_from-Within rest (position + 1) (run + 1) size (omega arith) (omega arith) in
    let others = integers_from-Within rest (position + 1) 0 size (omega arith) (omega arith) in
    elim (Bool-cases (is_digit c)) [
      | inl e ↦ rw e longer
      | inr e ↦ elim (Bool-cases (ltb 0 run)) [
        | inl f ↦ rw (e, f) (ground arith, omega arith, others)
        | inr f ↦ rw (e, f) others
      ]
    ]

-- The runs of digits that the mutator finds lie within the bytes.
pub integers-Within : (bytes : List ℕ) → Within (length bytes) (integers_from bytes 0 0)
integers-Within bytes = integers_from-Within bytes 0 0 (length bytes) (omega arith) (omega arith)

abbrev power_of_ten : ℕ → ℕ
power_of_ten zero = 1
power_of_ten (suc n) = 10 * power_of_ten n

accumulate-decimal_from :
    (fuel n : ℕ) (digits : List ℕ)
    → n < power_of_ten fuel
    → n < u64_mod
    → accumulate 0 (decimal_from fuel n digits) ≡ accumulate n digits
unfolding accumulate decimal_from
accumulate-decimal_from zero n digits h k = ap (λ x. accumulate x digits) (omega arith)
accumulate-decimal_from (suc fuel) n digits h k = elim (Bool-cases (ltb n 10)) [
  | inl e ↦ rw e (ap (λ x. accumulate x digits) (let l : n < 10 = ground arith in omega arith))
  | inr e ↦ rw e (
      accumulate-decimal_from fuel (n / 10) ((48 + n % 10) ∷ digits) (omega arith) (omega arith)
      ∙ ap (λ x. accumulate x digits) (omega arith))
]

-- The decimal digits of a number of 64 bits read back as that number.
pub accumulate-decimal : (n : ℕ) → n < u64_mod → accumulate 0 (decimal n) ≡ n
unfolding decimal accumulate
accumulate-decimal n h = accumulate-decimal_from 20 n [] (omega arith) h
