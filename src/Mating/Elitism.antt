-- ===== src/Mating/Elitism.antt =====
-- The pairs of the best individuals (fuzzer/fuzzer/mating-strategy.cpp: `ElitismMatingStrategy`).
use fuzzer_goal_directed.Prelude.{
  ℕ, zero, suc, ◌+◌, ◌/◌, ◌<◌, ◌≡◌, refl, subst, Bool, true, false, some, List, [], ◌∷◌, arith,
  ◌==◌, ◌||◌, length, Bool-cases, inl, inr,
}
use fuzzer_goal_directed.Result.{Returns, returns, >>=-Returns}
use fuzzer_goal_directed.OrderedMap.{lookup, insert, length-insert}
use fuzzer_goal_directed.Measure.{Measure, Floats, measure_gt}
use fuzzer_goal_directed.Mating.{IndexMap, insert_greater, by_measure, pair_up, elitism}
use fuzzer_goal_directed.Mating.Laws.{AllBelow, IsMatching, Matched, unused, insert-Matched}

abbrev occurs : ℕ → List (ℕ × Measure) → Bool
occurs q [] = false
occurs q ((i, s) ∷ rest) = q == i || occurs q rest

abbrev Distinct : List (ℕ × Measure) → Type 0
Distinct [] = Unit {0}
Distinct ((i, s) ∷ rest) = (occurs i rest ≡ false) × Distinct rest

pair_up-Matched :
    (size : ℕ) (view : List (ℕ × Measure)) (pairs : IndexMap)
    → Distinct view
    → ((q : ℕ) → occurs q view ≡ true → q < size)
    → Matched size (λ q. occurs q view) pairs
    → IsMatching (pair_up view pairs)
      × AllBelow size (pair_up view pairs)
      × (length (pair_up view pairs) ≡ length pairs + length view / 2)
unfolding pair_up
pair_up-Matched size [] pairs d f m = (m.matching, m.below, omega arith)
pair_up-Matched size (a ∷ []) pairs d f m = (m.matching, m.below, omega arith)
pair_up-Matched size ((a, s) ∷ (b, t) ∷ rest) pairs d f m =
    let now =
      insert-Matched m a b (ground arith) (ground arith) (ground (arith, d)) (λ q. occurs q rest)
        (f a (ground arith), f b (ground arith)) (λ q k. ground (arith, k, d)) in
    let (p, q, l) =
      pair_up-Matched size rest (insert a b pairs) d.1.1 (λ q k. f q (ground (arith, k))) now in
    (p, q, omega (arith, l, length-insert a b pairs (unused m a (ground arith))))

module _ {W : Type 0} (floats : Floats W) where
  occurs-insert_greater :
      (q i : ℕ) (s : Measure) (view : List (ℕ × Measure))
      → occurs q (insert_greater floats i s view) ≡ (q == i || occurs q view)
  unfolding insert_greater
  occurs-insert_greater q i s [] = refl
  occurs-insert_greater q i s ((j, t) ∷ rest) = ground (arith, occurs-insert_greater q i s rest)

  insert_greater-Distinct :
      (i : ℕ) (s : Measure) (view : List (ℕ × Measure))
      → occurs i view ≡ false
      → Distinct view
      → Distinct (insert_greater floats i s view)
  unfolding insert_greater
  insert_greater-Distinct i s [] h d = (refl, tt)
  insert_greater-Distinct i s ((j, t) ∷ rest) h d = elim (Bool-cases (measure_gt floats s t)) [
    | inl e ↦ rw e (h, d)
    | inr e ↦ rw e (
      ground (arith, occurs-insert_greater j i s rest, h, d),
      insert_greater-Distinct i s rest (ground (arith, h)) d.1,
    )
  ]

  length-insert_greater :
      (i : ℕ) (s : Measure) (view : List (ℕ × Measure))
      → length (insert_greater floats i s view) ≡ suc (length view)
  unfolding insert_greater
  length-insert_greater i s [] = refl
  length-insert_greater i s ((j, t) ∷ rest) = ground (arith, length-insert_greater i s rest)

  -- The view of the first `n` individuals.
  record View (n : ℕ) (view : List (ℕ × Measure)) : Type 0 where
    distinct : Distinct view
    below : (q : ℕ) → occurs q view ≡ true → q < n
    number : length view ≡ n

  View-insert_greater :
      (i : ℕ) (s : Measure) (view : List (ℕ × Measure))
      → View i view
      → View (suc i) (insert_greater floats i s view)
  View-insert_greater i s view v =
      let new : occurs i view ≡ false = elim (Bool-cases (occurs i view)) [
        | inl e ↦ absurd (omega (arith, v.below i e))
        | inr e ↦ e
      ] in
      record {
        distinct = insert_greater-Distinct i s view new v.distinct;
        below = λ q e. ground (arith, e, occurs-insert_greater q i s view, v.below q);
        number = omega (arith, length-insert_greater i s view, v.number);
      }

  by_measure-View :
      (fitness : List (ℕ × Measure)) (n number i : ℕ) (view : List (ℕ × Measure))
      → ((q : ℕ) → q < n → (s : Measure) × (lookup q fitness ≡ some s))
      → i + number ≡ n
      → View i view
      → Returns (View n) (by_measure floats fitness i number view)
  unfolding by_measure
  by_measure-View fitness n zero i view h e v =
      returns _ (subst (λ k. View k view) (let q : i ≡ n = omega (arith, e) in q) v)
  by_measure-View fitness n (suc number) i view h e v =
      let (s, f) = h i (omega (arith, e)) in
      rw f (
        by_measure-View fitness n number (i + 1) (insert_greater floats i s view) h
          (omega (arith, e))
          (subst (λ k. View k (insert_greater floats i s view))
            (let q : suc i ≡ i + 1 = omega arith in q) (View-insert_greater i s view v)))

  -- If every individual has a measure, the elitism strategy mates individuals of the population only,
  -- none of them twice and none with itself, and leaves out at most one.
  pub elitism-IsMatching :
      (fitness : List (ℕ × Measure)) (size : ℕ)
      → ((q : ℕ) → q < size → (s : Measure) × (lookup q fitness ≡ some s))
      → Returns
          (λ pairs. IsMatching pairs × AllBelow size pairs × (length pairs ≡ size / 2))
          (elitism floats fitness size)
  unfolding elitism lookup
  elitism-IsMatching fitness size h =
      >>=-Returns _
        (by_measure-View fitness size size 0 [] h (omega arith)
          (record { distinct = tt; below = λ q e. cc; number = refl }))
        λ view v.
          let (p, q, l) = pair_up-Matched size view [] v.distinct v.below (record {
            matching = record {
              other = λ i j e. cc;
              once = λ i j e. cc;
              injective = λ i k j e f. cc;
            };
            below = λ i j e. cc;
            taken = λ i j e. cc;
          }) in
          returns _ (p, q, omega (arith, l, v.number))
