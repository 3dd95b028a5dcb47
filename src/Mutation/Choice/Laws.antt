-- ===== src/Mutation/Choice/Laws.antt =====
-- The choice of a mutator and the mutation of an individual (fuzzer/fuzzer/evolution.cpp).
use fuzzer_goal_directed.Prelude.{
  ℕ, zero, suc, ◌+◌, ◌%◌, ◌^◌, ◌≤◌, ◌<◌, ◌≡◌, refl, ◌∙◌, List, [], ◌∷◌, arith, ltb, length,
  get_elem?, u32_mod, Bool-cases, inl, inr, lt→ltb,
}
use mathlib.Core.List.{Perm}
use fuzzer_goal_directed.Result.{
  Fault, Returns, returns, Returns-mono, >>=-Returns, or_fault, out_of_bounds,
}
use fuzzer_goal_directed.Memory.{MemoryManager}
use fuzzer_goal_directed.Memory.Bytes.{slot_length-View}
use fuzzer_goal_directed.Memory.Copy.{Grown-View}
use fuzzer_goal_directed.Random.{Rand, next_number}
use fuzzer_goal_directed.Random.Laws.{next_number-lt, next_number-draws}
use fuzzer_goal_directed.Individual.{Individual}
use fuzzer_goal_directed.Individual.Clone.{Ready, clone-Child}
use fuzzer_goal_directed.Mutation.Choice.{Mutation, mutations, choice, mutate_until, get_and_mutate}
use fuzzer_goal_directed.Mutation.Choice.Bred.{
  Bred, flip_bit-Bred, change_byte-Bred, insert_byte-Bred, erase_byte-Bred, duplicate_byte-Bred,
  duplicate_bytes-Bred, change_ascii_integer-Bred, swap_byte-Bred, shuffle_bytes-Bred, Differs,
}

infixr 5 ◌&◌
-- Every element of a list satisfies `P`.
pub data Every {ℓ κ} {A : Type ℓ} (P : A → Type κ) : List A → Type (ℓ ⊔ κ) where
  none_left : Every P []
  ◌&◌ : {x : A} {xs : List A} → P x → Every P xs → Every P (x ∷ xs)

pub Every-get_elem? {ℓ κ} :
    {A : Type ℓ} {P : A → Type κ} {xs : List A}
    → Every P xs
    → (k : ℕ) (e : Fault) → k < length xs
    → Returns P (or_fault (get_elem? xs k) e)
Every-get_elem? none_left k e h = absurd (omega (arith, h))
Every-get_elem? (p & all) zero e h = returns _ p
Every-get_elem? (p & all) (suc k) e h = Every-get_elem? all k e (omega (arith, h))

module _ (fuel : ℕ) (random_shuffle : Rand → List ℕ → List ℕ × Rand)
    (permutes : (r : Rand) (xs : List ℕ) → Perm (random_shuffle r xs).0 xs)
    (keeps_length : (r : Rand) (xs : List ℕ) → length (random_shuffle r xs).0 ≡ length xs)
    (steady : (r : Rand) (xs : List ℕ) → (random_shuffle r xs).1.draws ≡ r.draws)
    (m : MemoryManager) (i : Individual) {bytes : List ℕ} (ready : Ready m i.index bytes)
    (small : length bytes + 64 < u32_mod) (nonempty : 0 < length bytes) where
  mutations-Bred :
      (r : Rand) (k : ℕ)
      → k + 1 < fuel
      → (2 ≤ length bytes → Differs m i ready small nonempty r k)
      → Every (λ f. Bred r m i ready (f r m i)) (mutations fuel random_shuffle)
  unfolding mutations
  mutations-Bred r k rounds differs =
      flip_bit-Bred m i ready small nonempty r
      & insert_byte-Bred m i ready small nonempty r
      & erase_byte-Bred m i ready small nonempty r
      & change_byte-Bred m i ready small nonempty r
      & swap_byte-Bred m i ready small nonempty r fuel k rounds differs
      & shuffle_bytes-Bred m i ready small nonempty r random_shuffle permutes keeps_length steady
      & duplicate_byte-Bred m i ready small nonempty r
      & duplicate_bytes-Bred m i ready small nonempty r
      & change_ascii_integer-Bred m i ready small nonempty r
      & none_left

  choice-Bred :
      (r : Rand) (k : ℕ)
      → k + 1 < fuel
      → (2 ≤ length bytes → Differs m i ready small nonempty (next_number r 9).1 k)
      → Returns {A = Mutation × Rand}
          (λ x. Bred x.1 m i ready (x.0 x.1 m i) × (x.1.draws ≡ r.draws))
          (choice fuel random_shuffle r)
  unfolding choice mutations
  choice-Bred r k rounds differs =
      let (idx, r1) = next_number r 9 in
      let low : idx < 9 = omega (arith, next_number-lt r 9) in
      >>=-Returns _
        (Every-get_elem? (mutations-Bred r1 k rounds differs) (idx % 2 ^ 16) out_of_bounds
          (omega arith))
        λ f b. returns _ (b, next_number-draws r 9)

  mutate_until-Bred :
      (r : Rand) (k rounds : ℕ)
      → k + 1 < fuel
      → (2 ≤ length bytes → Differs m i ready small nonempty (next_number r 9).1 k)
      → Bred r m i ready (mutate_until fuel random_shuffle (suc rounds) r m i)
  unfolding mutate_until
  mutate_until-Bred r k rounds enough differs =
      >>=-Returns _ (choice-Bred r k enough differs) λ (f, r1) (bred, same).
        >>=-Returns _ bred λ (c, r2, m1) (after, pos, ch, same2).
          rw
            (
              ch.index,
              slot_length-View m1 m.next_index ch.grown.valid (Grown-View ch.grown),
              lt→ltb 0 (length after) pos,
            )
            (returns _
              (after, pos, record { index = refl; id = ch.id; grown = ch.grown }, same2 ∙ same))

  -- With a shuffle that permutes and draws from the generator, of a ready individual with bytes, less than 2 ^ 32 - 64 of them,
  -- `get_and_mutate` makes a new individual that also has bytes; it does not fault, no slot but the
  -- new one changes what it holds, and the generator will draw what it would have. One round of its loop is enough. Where there are two bytes or
  -- more, `SwapByteMutator` in place of the mutator drawn is to draw another index at draw `k` after
  -- the first, and its fuel to allow for it.
  pub get_and_mutate_lem :
      (r : Rand) (k rounds : ℕ)
      → k + 1 < fuel
      → (2 ≤ length bytes
          → Differs m i ready small nonempty (next_number (next_number r 5).1 9).1 k)
      → Bred r m i ready (get_and_mutate fuel random_shuffle (suc rounds) r m i)
  unfolding get_and_mutate
  get_and_mutate_lem r k rounds enough differs = elim (Bool-cases (ltb 0 (next_number r 5).0)) [
    | inl e ↦ rw e (
        >>=-Returns _ (clone-Child m i ready)
          λ c ch. returns _ (bytes, nonempty, ch, next_number-draws r 5))
    | inr e ↦ rw e (
        Returns-mono (λ o (after, pos, ch, same). (after, pos, ch, same ∙ next_number-draws r 5))
          (mutate_until-Bred (next_number r 5).1 k rounds enough differs))
  ]
