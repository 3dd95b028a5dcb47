-- ===== src/Mutation/Choice/Bred.antt =====
-- What the mutators have in common (fuzzer/fuzzer/mutations.cpp).
use fuzzer_goal_directed.Prelude.{
  ℕ, ◌+◌, ◌-◌, ◌%◌, ◌≤◌, ◌<◌, ◌≡◌, ◌≢◌, refl, ap, ◌∙◌, Bool, true, false, ltb, leb, if◌then◌else◌,
  List, [], ◌∷◌, arith, length, get_or, take, drop, u32_mod, dec_lt, lt→ltb, length-set,
  length-replicate, replicate,
}
use mathlib.Core.List.{Perm}
use fuzzer_goal_directed.Result.{Returns, returns, Returns-mono, >>=-Returns, Returns-IfOk}
use fuzzer_goal_directed.Memory.{MemoryManager}
use fuzzer_goal_directed.Memory.Bytes.{slot_length-View}
use fuzzer_goal_directed.Memory.Copy.{Grown-View}
use fuzzer_goal_directed.Random.{Rand, next_number, next_char}
use fuzzer_goal_directed.Random.Laws.{next_number-draws, next_char-draws}
use fuzzer_goal_directed.Individual.{Individual}
use fuzzer_goal_directed.Individual.Clone.{Ready, Child, clone-Child}
use fuzzer_goal_directed.Mutation.Single.{
  Outcome, flip_bit, change_byte, erase_byte, insert_byte, swap_byte, toggle,
}
use fuzzer_goal_directed.Mutation.Single.Laws.{
  Makes, flip_bit-toggle, change_byte_lem, erase_byte_lem, insert_byte_lem,
}
use fuzzer_goal_directed.Mutation.Single.Swap.{swap_byte_lem, swapped, length-swapped}
use fuzzer_goal_directed.Mutation.Block.{duplicate_byte, duplicate_bytes, shuffle_bytes}
use fuzzer_goal_directed.Mutation.Block.Loops.{repeat}
use fuzzer_goal_directed.Mutation.Block.Laws.{duplicate_byte_lem, duplicate_bytes_lem}
use fuzzer_goal_directed.Mutation.Block.Shuffle.{shuffle_bytes_lem}
use fuzzer_goal_directed.Mutation.Digits.{integers_from, change_ascii_integer}
use fuzzer_goal_directed.Mutation.Digits.Whole.{change_ascii_integer-changed}
use fuzzer_goal_directed.Mutation.Choice.Draws.{
  swap_byte-Steady, shuffle_bytes-Steady, changed-draws,
}
use fuzzer_goal_directed.Mutation.Choice.Lengths.{
  length_reordered, length_around, length_erased, length_duplicated, length_changed,
}

-- The outcome is a new individual with bytes, besides which the slots hold what they held, and a
-- generator that will draw what `r` will.
abbrev pub Bred :
    (r : Rand) (m : MemoryManager) (i : Individual) {bytes : List ℕ}
    → Ready m i.index bytes
    → Outcome
    → Type 0
Bred r m i ready = Returns λ o.
    (after : List ℕ) × (0 < length after)
    × Child m i.index ready.count after o.0 o.2
    × (o.1.draws ≡ r.draws)

Makes-Bred :
    (r : Rand) {m : MemoryManager} (i : Individual) {bytes : List ℕ} (ready : Ready m i.index bytes)
    {after : List ℕ} {r' : Rand} {o : Outcome}
    → 0 < length after
    → r'.draws ≡ r.draws
    → Makes m i ready after r' o
    → Bred r m i ready o
Makes-Bred r i ready {after} h same =
    Returns-mono λ a p. (after, h, p.0, ap (λ (x : Rand). x.draws) p.1 ∙ same)

if_draws :
    (b : Bool) (x y : Rand) {d : ℕ → ℕ} → x.draws ≡ d → y.draws ≡ d → (if b then x else y).draws ≡ d
if_draws true x y p q = p
if_draws false x y p q = q

module _ (m : MemoryManager) (i : Individual) {bytes : List ℕ} (ready : Ready m i.index bytes)
    (small : length bytes + 64 < u32_mod) (nonempty : 0 < length bytes) (r : Rand) where
  pub flip_bit-Bred : Bred r m i ready (flip_bit r m i)
  flip_bit-Bred =
      let (idx, r1) = next_number r (length bytes) in
      let (bit, r2) = next_number r1 8 in
      Makes-Bred r i ready (omega (arith, length-set bytes idx (toggle (get_or bytes idx 0) bit)))
        (next_number-draws r1 8 ∙ next_number-draws r (length bytes))
        (flip_bit-toggle r m i ready (omega arith))

  pub change_byte-Bred : Bred r m i ready (change_byte r m i)
  change_byte-Bred =
      let (idx, r1) = next_number r (length bytes) in
      let (x, r2) = next_char r1 in
      Makes-Bred r i ready (omega (arith, length-set bytes idx x))
        (next_char-draws r1 ∙ next_number-draws r (length bytes))
        (change_byte_lem r m i ready (omega arith))

  pub insert_byte-Bred : Bred r m i ready (insert_byte r m i)
  insert_byte-Bred =
      let (idx, r1) = next_number r (length bytes + 1) in
      let (x, r2) = next_char r1 in
      Makes-Bred r i ready (length_around idx idx bytes (x ∷ []) (omega arith))
        (next_char-draws r1 ∙ next_number-draws r (length bytes + 1))
        (insert_byte_lem r m i ready (omega arith))

  pub erase_byte-Bred : Bred r m i ready (erase_byte r m i)
  erase_byte-Bred =
      let (idx, r1) = next_number r (length bytes) in
      Makes-Bred r i ready (length_erased idx bytes nonempty)
        (if_draws (ltb (length bytes) 2) _ _ refl (next_number-draws r (length bytes)))
        (erase_byte_lem r m i ready (omega arith))

  pub duplicate_byte-Bred : Bred r m i ready (duplicate_byte r m i)
  duplicate_byte-Bred =
      let (idx, r1) = next_number r (length bytes) in
      let (n, r2) = next_number r1 4 in
      Makes-Bred r i ready
        (length_around idx idx bytes (replicate (n + 1) (get_or bytes idx 0))
          (omega (arith, length-replicate (n + 1) (get_or bytes idx 0))))
        (next_number-draws r1 4 ∙ next_number-draws r (length bytes))
        (duplicate_byte_lem r m i ready small nonempty)

  pub duplicate_bytes-Bred : Bred r m i ready (duplicate_bytes r m i)
  duplicate_bytes-Bred =
      let (k, r1) = next_number r 8 in
      let range = k + 1 in
      let (idx, r2) = next_number r1 (length bytes - range) in
      let (n, r3) = next_number r2 4 in
      Makes-Bred r i ready
        (length_duplicated (idx + range) range bytes (repeat (n + 1) (take range (drop idx bytes)))
          nonempty)
        (if_draws (leb (length bytes) range) _ _ (next_number-draws r 8) (
          next_number-draws r2 4
          ∙ next_number-draws r1 (length bytes - range)
          ∙ next_number-draws r 8))
        (duplicate_bytes_lem r m i ready small nonempty)

  pub change_ascii_integer-Bred : Bred r m i ready (change_ascii_integer r m i)
  change_ascii_integer-Bred =
      Makes-Bred r i ready (length_changed r bytes (integers_from bytes 0 0) nonempty)
        (changed-draws r bytes (integers_from bytes 0 0))
        (change_ascii_integer-changed r m i ready small)

  -- Draw `k` after the first index gives another index.
  abbrev pub Differs : ℕ → Type 0
  Differs k =
      let (idx, r1) = next_number r (length bytes) in
      r1.draws (r1.position + k) % length bytes ≢ idx

  pub swap_byte-Bred :
      (fuel k : ℕ)
      → k + 1 < fuel
      → (2 ≤ length bytes → Differs k)
      → Bred r m i ready (swap_byte fuel r m i)
  unfolding swap_byte
  swap_byte-Bred fuel k rounds differs = elim (dec_lt (length bytes) 2) [
    | yes l ↦ >>=-Returns _ (clone-Child m i ready) λ c ch.
        rw
          (
            ch.index,
            slot_length-View c.1 m.next_index ch.grown.valid (Grown-View ch.grown),
            lt→ltb (length bytes) 2 l,
          )
          (returns _ (bytes, nonempty, record { index = refl; id = ch.id; grown = ch.grown }, refl))
    | no n ↦
        let two : 2 ≤ length bytes = omega (arith, n) in
        let idx = (next_number r (length bytes)).0 in
        Returns-mono
          (λ o ((other, _, _, ch), same). (
            swapped bytes idx other,
            omega (arith, nonempty, length-swapped bytes idx other),
            ch,
            same,
          ))
          (Returns-IfOk (swap_byte_lem r m i ready (omega arith) fuel k two rounds (differs two))
            (swap_byte-Steady fuel r m i))
  ]

  module _ (random_shuffle : Rand → List ℕ → List ℕ × Rand)
      (permutes : (r : Rand) (xs : List ℕ) → Perm (random_shuffle r xs).0 xs)
      (keeps_length : (r : Rand) (xs : List ℕ) → length (random_shuffle r xs).0 ≡ length xs)
      (steady : (r : Rand) (xs : List ℕ) → (random_shuffle r xs).1.draws ≡ r.draws) where
    pub shuffle_bytes-Bred : Bred r m i ready (shuffle_bytes random_shuffle r m i)
    shuffle_bytes-Bred =
        Returns-mono
          (λ o ((after, p, ch), same). (after, length_reordered after bytes p nonempty, ch, same))
          (Returns-IfOk (shuffle_bytes_lem random_shuffle permutes keeps_length r m i ready small)
            (shuffle_bytes-Steady random_shuffle steady r m i))
