-- ===== src/Random/Sorted.antt =====
-- `std::set` of numbers as an ascending list (fuzzer/fuzzer/utils.cpp: `Rand::pick`): membership.
use fuzzer_goal_directed.Prelude.{
  ℕ, ◌≡◌, refl, Bool, true, false, ◌||◌, List, [], ◌∷◌, ltb, ◌==◌, ==_iff, Bool-cases, inl, inr,
}
use fuzzer_goal_directed.Memory.{contains}
use fuzzer_goal_directed.Random.{insert_sorted}

pub or_front : (a b c : Bool) → b || (a || c) ≡ (a || b) || c
or_front true true c = refl
or_front true false c = refl
or_front false b c = refl

pub or_last : (a b c : Bool) → a || (b || (c || false)) ≡ c || b || a
or_last true b true = refl
or_last true true false = refl
or_last true false false = refl
or_last false true true = refl
or_last false false true = refl
or_last false true false = refl
or_last false false false = refl

or_swap : (a b c : Bool) → a || (b || c) ≡ b || (a || c)
or_swap true true c = refl
or_swap true false c = refl
or_swap false b c = refl

or_twice : (a b : Bool) → a || b ≡ a || (a || b)
or_twice true b = refl
or_twice false b = refl

pub contains-insert_sorted :
    (j n : ℕ) (xs : List ℕ) → contains j (insert_sorted n xs) ≡ (j == n || contains j xs)
unfolding contains insert_sorted
contains-insert_sorted j n [] = refl
contains-insert_sorted j n (x ∷ xs) =
    let later = contains-insert_sorted j n xs in
    elim (Bool-cases (ltb n x)) [
      | inl e ↦ rw e refl
      | inr e ↦ rw e (elim (Bool-cases (n == x)) [
        | inl q ↦ rw (q, (==_iff n x).0 q) (or_twice (j == x) (contains j xs))
        | inr q ↦ rw (q, later) (or_swap (j == x) (j == n) (contains j xs))
      ])
    ]
