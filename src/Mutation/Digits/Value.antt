-- ===== src/Mutation/Digits/Value.antt =====
-- The runs of digits, the numbers that they stand for and the changes of a number, described
-- independently of the code of `ChangeASCIIIntegerMutator` (fuzzer/fuzzer/mutations.cpp).
use fuzzer_goal_directed.Prelude.{
  ℕ, zero, suc, ◌+◌, ◌*◌, ◌-◌, ◌/◌, ◌%◌, ◌<◌, ◌≡◌, refl, ap, ◌∙◌, Bool, true, false, not, ◌&&◌,
  List, [], ◌∷◌, arith, ltb, ◌==◌, if◌then◌else◌, get_or, u64_mod, to_u32, Bool-cases, inl, inr,
}
use fuzzer_goal_directed.Random.{Rand, next_number}
use fuzzer_goal_directed.Random.Laws.{next_number-lt}
use fuzzer_goal_directed.Mutation.Digits.{
  is_digit, integers_from, accumulate, changed_value, decimal, decimal_from,
}

-- How many digits a text begins with.
abbrev pub leading_digits : List ℕ → ℕ
leading_digits [] = 0
leading_digits (c ∷ rest) = if is_digit c then suc (leading_digits rest) else 0

-- A run begins at every digit that no digit stands in front of, and goes on as long as there are
-- digits. `position` is where the text begins, and `behind` says whether a digit stands in front.
abbrev pub runs : Bool → ℕ → List ℕ → List (ℕ × ℕ)
runs behind position [] = []
runs behind position (c ∷ rest) =
    let later = runs (is_digit c) (position + 1) rest in
    if is_digit c && not behind then (position, leading_digits (c ∷ rest)) ∷ later else later

-- The runs behind `run` digits.
abbrev from_run : ℕ → List ℕ → ℕ → List (ℕ × ℕ)
from_run position bytes zero = runs false position bytes
from_run position bytes (suc run) =
    (position - suc run, suc run + leading_digits bytes) ∷ runs true position bytes

pair_eq : {a b c d : ℕ} → a ≡ c → b ≡ d → (xs : List (ℕ × ℕ)) → (a, b) ∷ xs ≡ (c, d) ∷ xs
pair_eq p q xs = rw (p, q) refl

began : (run : ℕ) → ltb 0 (suc run) ≡ true
began run = ground arith

integers_from-from_run :
    (bytes : List ℕ) (position run : ℕ)
    → integers_from bytes position run ≡ from_run position bytes run
unfolding integers_from
integers_from-from_run [] position zero = refl
integers_from-from_run [] position (suc run) = rw (began run) (pair_eq refl (omega arith) [])
integers_from-from_run (c ∷ rest) position zero =
    let longer : integers_from rest (position + 1) (0 + 1)
        ≡ (position + 1 - 1, 1 + leading_digits rest) ∷ runs true (position + 1) rest =
      integers_from-from_run rest (position + 1) 1 in
    let others = integers_from-from_run rest (position + 1) 0 in
    elim (Bool-cases (is_digit c)) [
      | inl e ↦ rw e (longer ∙ pair_eq (omega arith) (omega arith) (runs true (position + 1) rest))
      | inr e ↦ rw e others
    ]
integers_from-from_run (c ∷ rest) position (suc run) =
    let longer : integers_from rest (position + 1) (suc run + 1)
        ≡ (position + 1 - suc (suc run), suc (suc run) + leading_digits rest)
          ∷ runs true (position + 1) rest =
      ap (integers_from rest (position + 1)) (omega arith)
      ∙ integers_from-from_run rest (position + 1) (suc (suc run)) in
    let others = integers_from-from_run rest (position + 1) 0 in
    elim (Bool-cases (is_digit c)) [
      | inl e ↦ rw e (longer ∙ pair_eq (omega arith) (omega arith) (runs true (position + 1) rest))
      | inr e ↦
          rw (e, began run)
            (ap (◌∷◌ (position - suc run, suc run)) others
              ∙ pair_eq refl (omega arith) (runs false (position + 1) rest))
    ]

pub integers_from-runs : (bytes : List ℕ) → integers_from bytes 0 0 ≡ runs false 0 bytes
integers_from-runs bytes = integers_from-from_run bytes 0 0

-- The number that digits stand for, behind a number that stands in front of them.
abbrev pub number : ℕ → List ℕ → ℕ
number n [] = n
number n (c ∷ rest) = number (n * 10 + (c - 48)) rest

pub accumulate-number :
    (n : ℕ) (digits : List ℕ) → accumulate (n % u64_mod) digits ≡ number n digits % u64_mod
unfolding accumulate
accumulate-number n [] = refl
accumulate-number n (c ∷ rest) =
    ap (λ k. accumulate k rest) (omega arith) ∙ accumulate-number (n * 10 + (c - 48)) rest

-- The text of a number: digits that stand for it, the first of which is 0 for the number 0 only.
abbrev pub AllDigits : List ℕ → Type 0
AllDigits [] = Unit {0}
AllDigits (d ∷ digits) = (is_digit d ≡ true) × AllDigits digits

pub record IsDecimal (n : ℕ) (digits : List ℕ) : Type 0 where
  pub all : AllDigits digits
  pub reads : number 0 digits ≡ n
  pub no_more : 0 < n → 48 < get_or digits 0 0

abbrev power_of_ten : ℕ → ℕ
power_of_ten zero = 1
power_of_ten (suc n) = 10 * power_of_ten n

number-decimal_from :
    (fuel n : ℕ) (digits : List ℕ)
    → n < power_of_ten fuel
    → number 0 (decimal_from fuel n digits) ≡ number n digits
unfolding decimal_from
number-decimal_from zero n digits h = ap (λ x. number x digits) (omega arith)
number-decimal_from (suc fuel) n digits h = elim (Bool-cases (ltb n 10)) [
  | inl e ↦ rw e (ap (λ x. number x digits) (let l : n < 10 = ground arith in omega arith))
  | inr e ↦ rw e (
      number-decimal_from fuel (n / 10) ((48 + n % 10) ∷ digits) (omega arith)
      ∙ ap (λ x. number x digits) (omega arith))
]

pub decimal_from-AllDigits :
    (fuel n : ℕ) (digits : List ℕ) → AllDigits digits → AllDigits (decimal_from fuel n digits)
unfolding decimal_from
decimal_from-AllDigits zero n digits a = a
decimal_from-AllDigits (suc fuel) n digits a =
    let digit : is_digit (48 + n % 10) ≡ true = ground arith in
    elim (Bool-cases (ltb n 10)) [
      | inl e ↦ rw e (digit, a)
      | inr e ↦ rw e (decimal_from-AllDigits fuel (n / 10) ((48 + n % 10) ∷ digits) (digit, a))
    ]

first-decimal_from :
    (fuel n : ℕ) (digits : List ℕ)
    → n < power_of_ten fuel
    → 0 < n
    → 48 < get_or (decimal_from fuel n digits) 0 0
unfolding decimal_from
first-decimal_from zero n digits h p = absurd (omega (arith, h, p))
first-decimal_from (suc fuel) n digits h p = elim (Bool-cases (ltb n 10)) [
  | inl e ↦ rw e (let l : n < 10 = ground arith in omega (arith, p, l))
  | inr e ↦
      let l : 10 < n + 1 = ground arith in
      rw e
        (first-decimal_from fuel (n / 10) ((48 + n % 10) ∷ digits) (omega arith) (omega (arith, l)))
]

pub decimal-IsDecimal : (n : ℕ) → n < u64_mod → IsDecimal n (decimal n)
unfolding decimal
decimal-IsDecimal n h = record {
  all = decimal_from-AllDigits 20 n [] tt;
  reads = number-decimal_from 20 n [] (omega arith);
  no_more = λ p. first-decimal_from 20 n [] (omega arith) p;
}

-- The eleven changes of a number of 64 bits, each with the generator afterwards.
abbrev pub changes : Rand → ℕ → List (ℕ × Rand)
changes r n =
    (((n + 1) % u64_mod, r)
      ∷ ((n + u64_mod - 1) % u64_mod, r)
      ∷ (n * 2 % u64_mod, r)
      ∷ (n / 2, r)
      ∷ next_number r (to_u32 n)
      ∷ next_number r (to_u32 (n * n % u64_mod))
      ∷ (0, r)
      ∷ (255, r)
      ∷ (65535, r)
      ∷ (4294967295, r)
      ∷ (18446744073709551615, r)
      ∷ [])

abbrev pub change : Rand → ℕ → ℕ × Rand
change r n = let (kind, r1) = next_number r 11 in get_or (changes r1 n) kind (n, r1)

table :
    (kind : ℕ) (a0 a1 a2 a3 a4 a5 a6 a7 a8 a9 a10 d : ℕ × Rand)
    → kind < 11
    → (if kind == 0
        then a0
        else if kind == 1
        then a1
        else if kind == 2
        then a2
        else if kind == 3
        then a3
        else if kind == 4
        then a4
        else if kind == 5
        then a5
        else if kind == 6
        then a6
        else if kind == 7
        then a7
        else if kind == 8
        then a8
        else if kind == 9
        then a9
        else if kind == 10
        then a10
        else d)
      ≡ get_or (a0 ∷ a1 ∷ a2 ∷ a3 ∷ a4 ∷ a5 ∷ a6 ∷ a7 ∷ a8 ∷ a9 ∷ a10 ∷ []) kind d
table zero a0 a1 a2 a3 a4 a5 a6 a7 a8 a9 a10 d h = refl
table (suc zero) a0 a1 a2 a3 a4 a5 a6 a7 a8 a9 a10 d h = refl
table (suc (suc zero)) a0 a1 a2 a3 a4 a5 a6 a7 a8 a9 a10 d h = refl
table (suc (suc (suc zero))) a0 a1 a2 a3 a4 a5 a6 a7 a8 a9 a10 d h = refl
table (suc (suc (suc (suc zero)))) a0 a1 a2 a3 a4 a5 a6 a7 a8 a9 a10 d h = refl
table (suc (suc (suc (suc (suc zero))))) a0 a1 a2 a3 a4 a5 a6 a7 a8 a9 a10 d h = refl
table (suc (suc (suc (suc (suc (suc zero)))))) a0 a1 a2 a3 a4 a5 a6 a7 a8 a9 a10 d h = refl
table (suc (suc (suc (suc (suc (suc (suc zero))))))) a0 a1 a2 a3 a4 a5 a6 a7 a8 a9 a10 d h = refl
table (suc (suc (suc (suc (suc (suc (suc (suc zero)))))))) a0 a1 a2 a3 a4 a5 a6 a7 a8 a9 a10 d h =
    refl
table (suc (suc (suc (suc (suc (suc (suc (suc (suc zero))))))))) a0 a1 a2 a3 a4 a5 a6 a7 a8 a9 a10 d
      h =
    refl
table (suc (suc (suc (suc (suc (suc (suc (suc (suc (suc zero)))))))))) a0 a1 a2 a3 a4 a5 a6 a7 a8 a9
      a10 d h =
    refl
table (suc (suc (suc (suc (suc (suc (suc (suc (suc (suc (suc k))))))))))) a0 a1 a2 a3 a4 a5 a6 a7 a8
      a9 a10 d h =
    absurd (omega (arith, h))

pub changed_value-change : (r : Rand) (n : ℕ) → changed_value r n ≡ change r n
unfolding changed_value
changed_value-change r n =
    let (kind, r1) = next_number r 11 in table kind _ _ _ _ _ _ _ _ _ _ _ _ (next_number-lt r 11)

abbrev Below : List (ℕ × Rand) → Type 0
Below [] = Unit {0}
Below (o ∷ os) = (o.0 < u64_mod) × Below os

get_or-Below :
    (os : List (ℕ × Rand)) (k : ℕ) (d : ℕ × Rand)
    → Below os
    → d.0 < u64_mod
    → (get_or os k d).0 < u64_mod
get_or-Below [] k d b h = h
get_or-Below (o ∷ os) zero d b h = b.0
get_or-Below (o ∷ os) (suc k) d b h = get_or-Below os k d b.1 h

-- The changed number has 64 bits too.
pub change-lt : (r : Rand) (n : ℕ) → n < u64_mod → (change r n).0 < u64_mod
change-lt r n h =
    let (kind, r1) = next_number r 11 in
    get_or-Below (changes r1 n) kind (n, r1)
      (
        omega arith,
        (
          omega arith,
          (
            omega arith,
            (
              omega (arith, h),
              (
                omega (arith, next_number-lt r1 (to_u32 n)),
                (
                  omega (arith, next_number-lt r1 (to_u32 (n * n % u64_mod))),
                  (omega arith, (omega arith, (omega arith, (omega arith, (omega arith, tt))))),
                ),
              ),
            ),
          ),
        ),
      )
      h
