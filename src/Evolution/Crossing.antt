-- ===== src/Evolution/Crossing.antt =====
-- What the evolution needs of a cross-over (fuzzer/fuzzer/cross-overs.cpp), and that the uniform one
-- and the one of a single point provide it.
use fuzzer_goal_directed.Prelude.{
  ℕ, zero, suc, ◌+◌, ◌<◌, ◌≡◌, ◌⊎◌, refl, ap, ◌∙◌, some, List, length, ltb, if◌then◌else◌,
  Bool-cases, inl, inr, to_u32, u32_mod,
}
use fuzzer_goal_directed.Result.{Returns, Returns-mono}
use fuzzer_goal_directed.Memory.{MemoryManager}
use fuzzer_goal_directed.Memory.Invariant.{contents}
use fuzzer_goal_directed.Random.{Rand, next_bool}
use fuzzer_goal_directed.Random.Laws.{next_bool-draws, next_number-draws, next_char-draws}
use fuzzer_goal_directed.Individual.{Individual}
use fuzzer_goal_directed.Individual.Clone.{Ready}
use fuzzer_goal_directed.Crossover.{uniform, single_point}
use fuzzer_goal_directed.Crossover.Loops.{picked, mixed, around}
use fuzzer_goal_directed.Crossover.Laws.{Crosses, uniform_lem, length-mixed}
use fuzzer_goal_directed.Crossover.SinglePoint.{cut, single_point_lem, length-around}
use fuzzer_goal_directed.Mutation.Single.{Outcome}
use fuzzer_goal_directed.Evolution.Breeding.{CrossOver}
use fuzzer_goal_directed.Evolution.Stock.{Stocked, Stocked-Ready, Made, Child-Made}

-- The outcome is a new individual as long as one of the parents, for one slot and one reference, and
-- a generator with the same draws.
abbrev pub Crossed : (ℕ → ℕ) → MemoryManager → ℕ → List ℕ → List ℕ → Outcome → Type 0
Crossed draws m n b1 b2 = Returns λ o.
    (bytes : List ℕ) × ((length bytes ≡ length b1) ⊎ (length bytes ≡ length b2))
    × Made m n bytes o.0 o.2
    × (o.1.draws ≡ draws)

-- What the evolution needs of a cross-over with a generator of the draws `draws`: two individuals
-- that hold bytes can be crossed, with a slot number and a reference to spare.
pub record IsCrossOver (draws : ℕ → ℕ) (cross_over : CrossOver) : Type 0 where
  pub crosses :
      (r : Rand) (m : MemoryManager) (i1 i2 : Individual) (b1 b2 : List ℕ) (n : ℕ)
      → r.draws ≡ draws
      → Stocked m (suc n)
      → contents m i1.index ≡ some b1
      → contents m i2.index ≡ some b2
      → 0 < length b1
      → 0 < length b2
      → length b1 < u32_mod
      → length b2 < u32_mod
      → Crossed draws m n b1 b2 (cross_over r m i1 i2)

picked-draws : (r : Rand) (bytes : List ℕ) (j : ℕ) → (picked r bytes j).1.draws ≡ r.draws
picked-draws r bytes j = elim (Bool-cases (ltb j (length bytes))) [
  | inl e ↦ rw e refl
  | inr e ↦ rw e (next_char-draws r)
]

mixed-draws : (n : ℕ) (r : Rand) (b1 b2 : List ℕ) (j : ℕ) → (mixed r b1 b2 j n).1.draws ≡ r.draws
mixed-draws zero r b1 b2 j = refl
mixed-draws (suc n) r b1 b2 j =
    mixed-draws n _ b1 b2 (j + 1)
    ∙ picked-draws (next_bool r).1 (if (next_bool r).0 then b1 else b2) j
    ∙ next_bool-draws r

around-draws :
    (n : ℕ) (r : Rand) (b1 b2 : List ℕ) (idx j : ℕ) → (around r b1 b2 idx j n).1.draws ≡ r.draws
around-draws zero r b1 b2 idx j = refl
around-draws (suc n) r b1 b2 idx j =
    around-draws n _ b1 b2 idx (j + 1) ∙ picked-draws r (if ltb j idx then b1 else b2) j

cut-draws : (r : Rand) (size : ℕ) → (cut r size).1.draws ≡ r.draws
cut-draws r size = elim (Bool-cases (ltb 1 size)) [
  | inl e ↦ rw e (next_number-draws r (to_u32 size))
  | inr e ↦ rw e refl
]

-- A cross-over that makes known bytes from the clone of one of the parents.
pub Crosses-Crossed :
    {m : MemoryManager} {n : ℕ} (s : Stocked m (suc n)) (i : Individual) {b bytes : List ℕ}
    (b1 b2 : List ℕ) (ready : Ready m i.index b) (r' : Rand) {o : Outcome} (draws : ℕ → ℕ)
    → (length bytes ≡ length b1) ⊎ (length bytes ≡ length b2)
    → r'.draws ≡ draws
    → Crosses m i ready.count bytes r' o
    → Crossed draws m n b1 b2 o
Crosses-Crossed s i {bytes = bytes} b1 b2 ready r' draws sized same =
    Returns-mono
      λ o (ch, q). (bytes, sized, Child-Made s ready ch, ap (λ (x : Rand). x.draws) q ∙ same)

module _ (draws : ℕ → ℕ) where
  pub uniform-IsCrossOver : IsCrossOver draws uniform
  uniform-IsCrossOver = record {
    crosses = λ r m i1 i2 b1 b2 n same s h1 h2 p1 p2 s1 s2.
        let ready1 = Stocked-Ready s i1.index h1 in
        let ready2 = Stocked-Ready s i2.index h2 in
        let r1 = (next_bool r).1 in
        let draws_of : (k : ℕ) → (mixed r1 b1 b2 0 k).1.draws ≡ draws =
          λ k. mixed-draws k r1 b1 b2 0 ∙ next_bool-draws r ∙ same in
        elim (Bool-cases (next_bool r).0) [
          | inl e ↦
              Crosses-Crossed s i1 b1 b2 ready1 _ draws (inl (length-mixed (length b1) r1 b1 b2 0))
                (draws_of (length b1)) (rw e at (uniform_lem r m i1 i2 ready1 ready2 s1 s2))
          | inr e ↦
              Crosses-Crossed s i2 b1 b2 ready2 _ draws (inr (length-mixed (length b2) r1 b1 b2 0))
                (draws_of (length b2)) (rw e at (uniform_lem r m i1 i2 ready1 ready2 s1 s2))
        ];
  }

  pub single_point-IsCrossOver : IsCrossOver draws single_point
  single_point-IsCrossOver = record {
    crosses = λ r m i1 i2 b1 b2 n same s h1 h2 p1 p2 s1 s2.
        let ready1 = Stocked-Ready s i1.index h1 in
        let ready2 = Stocked-Ready s i2.index h2 in
        let (coin, r1) = next_bool r in
        let (order, r2) = next_bool r1 in
        let first = if order then b1 else b2 in
        let second = if order then b2 else b1 in
        let sized : (k : ℕ)
            → let (idx, r3) = cut r2 k in length (around r3 first second idx 0 k).0 ≡ k =
          λ k. length-around k (cut r2 k).1 first second (cut r2 k).0 0 in
        let draws_of : (k : ℕ)
            → let (idx, r3) = cut r2 k in (around r3 first second idx 0 k).1.draws ≡ draws =
          λ k.
            around-draws k (cut r2 k).1 first second (cut r2 k).0 0
            ∙ cut-draws r2 k
            ∙ next_bool-draws r1
            ∙ next_bool-draws r
            ∙ same in
        elim (Bool-cases (next_bool r).0) [
          | inl e ↦
              Crosses-Crossed s i1 b1 b2 ready1 _ draws (inl (sized (length b1)))
                (draws_of (length b1)) (rw e at (single_point_lem r m i1 i2 ready1 ready2 s1 s2))
          | inr e ↦
              Crosses-Crossed s i2 b1 b2 ready2 _ draws (inr (sized (length b2)))
                (draws_of (length b2)) (rw e at (single_point_lem r m i1 i2 ready1 ready2 s1 s2))
        ];
  }
