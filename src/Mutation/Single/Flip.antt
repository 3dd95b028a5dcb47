-- ===== src/Mutation/Single/Flip.antt =====
-- `FlipBitMutator` against the arithmetic of bits (fuzzer/fuzzer/mutations.cpp).
use fuzzer_goal_directed.Prelude.{
  ℕ, ◌+◌, ◌-◌, ◌/◌, ◌%◌, ◌^◌, ◌<◌, ◌≡◌, refl, true, List, ◌==◌, if◌then◌else◌, length, get_or, set,
  u32_mod, ==_iff, all_below, all_below_sound, subst,
}
use fuzzer_goal_directed.Memory.{MemoryManager}
use fuzzer_goal_directed.Random.{Rand, next_number}
use fuzzer_goal_directed.Random.Laws.{next_number-lt}
use fuzzer_goal_directed.Individual.{Individual}
use fuzzer_goal_directed.Individual.Clone.{Ready}
use fuzzer_goal_directed.Mutation.Single.{flip_bit, toggle}
use fuzzer_goal_directed.Mutation.Single.Laws.{Makes, flip_bit-toggle}

-- A number with one of its binary digits changed: 2 ^ bit more where the digit is 0, less where it
-- is 1.
abbrev pub flipped : ℕ → ℕ → ℕ
flipped x bit = if x / 2 ^ bit % 2 == 0 then x + 2 ^ bit else x - 2 ^ bit

toggle-flipped : (x bit : ℕ) → x < 256 → bit < 8 → toggle x bit ≡ flipped x bit
toggle-flipped x bit hx hb =
    (==_iff _ (flipped x bit)).0 (all_below_sound 256 _ x (all_below_sound 8 _ bit table hb) hx)
  where
    table : all_below 8 (λ b. all_below 256 (λ y. toggle y b == flipped y b)) ≡ true
    table = unfold toggle all_below in refl

-- Of a ready individual of less than 2 ^ 32 - 1 bytes, each below 256, `flip_bit` makes a new one that
-- differs in one binary digit of the byte drawn, the digit that is drawn next, and has no bytes where
-- there are none; it does not fault.
pub flip_bit_lem :
    (r : Rand) (m : MemoryManager) (i : Individual) {bytes : List ℕ} (ready : Ready m i.index bytes)
    → length bytes + 1 < u32_mod
    → ((j : ℕ) → get_or bytes j 0 < 256)
    → let (idx, r1) = next_number r (length bytes) in
      let (bit, r2) = next_number r1 8 in
      Makes m i ready (set bytes idx (flipped (get_or bytes idx 0) bit)) r2 (flip_bit r m i)
flip_bit_lem r m i {bytes = bytes} ready small low =
    let (idx, r1) = next_number r (length bytes) in
    let (bit, r2) = next_number r1 8 in
    subst (λ x. Makes m i ready (set bytes idx x) r2 (flip_bit r m i))
      (toggle-flipped (get_or bytes idx 0) bit (low idx) (next_number-lt r1 8))
      (flip_bit-toggle r m i ready small)
