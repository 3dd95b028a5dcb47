-- ===== src/Tests/Mutation.antt =====
-- The mutators at an individual with the bytes 3, 2, 1, and a generator that draws 0, 1, 2, ...
use fuzzer_goal_directed.Prelude.{
  ℕ, zero, suc, get_or, ◌<◌, ◌≡◌, ◌≢◌, refl, List, [], ◌∷◌, arith, length,
}
use mathlib.Core.List.{Perm}
use mathlib.Core.List.Perm
use fuzzer_goal_directed.Result.{Returns}
use fuzzer_goal_directed.Memory.{MemoryManager}
use fuzzer_goal_directed.Random.{Rand, next_number, next_char}
use fuzzer_goal_directed.Individual.{Individual}
use fuzzer_goal_directed.Individual.Clone.{Child}
use fuzzer_goal_directed.Mutation.Single.{
  flip_bit, change_byte, erase_byte, insert_byte, swap_byte, pick_other,
}
use fuzzer_goal_directed.Mutation.Single.Laws.{
  Makes, change_byte_lem, erase_byte_lem, insert_byte_lem,
}
use fuzzer_goal_directed.Mutation.Single.Swap.{swap_byte_lem, swapped, pick_other-total}
use fuzzer_goal_directed.Mutation.Block.{duplicate_byte, duplicate_bytes, shuffle_bytes}
use fuzzer_goal_directed.Mutation.Single.Flip.{flip_bit_lem}
use fuzzer_goal_directed.Mutation.Block.Laws.{duplicate_byte_lem, duplicate_bytes_lem}
use fuzzer_goal_directed.Mutation.Block.Shuffle.{shuffle_bytes_lem}
use fuzzer_goal_directed.Tests.{one_slot, parent, parent-Ready, counter}

three_bytes_low : (j : ℕ) → get_or (3 ∷ 2 ∷ 1 ∷ []) j 0 < 256
three_bytes_low zero = omega arith
three_bytes_low (suc zero) = omega arith
three_bytes_low (suc (suc zero)) = omega arith
three_bytes_low (suc (suc (suc j))) = omega arith

flip_bit_example :
    Makes one_slot parent parent-Ready
      (3 ∷ 6 ∷ 1 ∷ [])
      (counter 3)
      (flip_bit (counter 1) one_slot parent)
unfolding next_number
flip_bit_example =
    flip_bit_lem (counter 1) one_slot parent parent-Ready (omega arith) three_bytes_low

change_byte_example :
    Makes one_slot parent parent-Ready
      (3 ∷ 2 ∷ 3 ∷ [])
      (counter 4)
      (change_byte (counter 2) one_slot parent)
unfolding next_number next_char
change_byte_example = change_byte_lem (counter 2) one_slot parent parent-Ready (omega arith)

erase_byte_example :
    Makes one_slot parent parent-Ready
      (3 ∷ 1 ∷ [])
      (counter 2)
      (erase_byte (counter 1) one_slot parent)
unfolding next_number
erase_byte_example = erase_byte_lem (counter 1) one_slot parent parent-Ready (omega arith)

insert_byte_example :
    Makes one_slot parent parent-Ready
      (3 ∷ 2 ∷ 1 ∷ 4 ∷ [])
      (counter 5)
      (insert_byte (counter 3) one_slot parent)
unfolding next_number next_char
insert_byte_example = insert_byte_lem (counter 3) one_slot parent parent-Ready (omega arith)

swap_byte_example :
    Returns {A = Individual × Rand × MemoryManager}
      (λ o.
        (other : ℕ) × (other ≢ 0)
        × (other < 3)
        × Child one_slot 1 parent-Ready.count (swapped (3 ∷ 2 ∷ 1 ∷ []) 0 other) o.0 o.2)
      (swap_byte 4 (counter 0) one_slot parent)
unfolding next_number
swap_byte_example =
    swap_byte_lem (counter 0) one_slot parent parent-Ready (omega arith) 4 0 (omega arith)
      (omega arith) (omega arith)

pick_other-total_example : Returns (λ o. (o.0 ≢ 2) × (o.0 < 3)) (pick_other 5 (counter 5) 3 2 2)
pick_other-total_example =
    pick_other-total 1 5 (counter 5) 3 2 2 (omega arith) (omega arith) (omega arith)

duplicate_byte_example :
    Makes one_slot parent parent-Ready
      (3 ∷ 2 ∷ 2 ∷ 2 ∷ 2 ∷ 1 ∷ [])
      (counter 3)
      (duplicate_byte (counter 1) one_slot parent)
unfolding next_number
duplicate_byte_example =
    duplicate_byte_lem (counter 1) one_slot parent parent-Ready (omega arith) (omega arith)

duplicate_bytes_example :
    Makes one_slot parent parent-Ready
      (3 ∷ 2 ∷ 2 ∷ 2 ∷ 2 ∷ 1 ∷ [])
      (counter 3)
      (duplicate_bytes (counter 0) one_slot parent)
unfolding next_number
duplicate_bytes_example =
    duplicate_bytes_lem (counter 0) one_slot parent parent-Ready (omega arith) (omega arith)

abbrev pub swap_front : Rand → List ℕ → List ℕ × Rand
swap_front r (x ∷ y ∷ xs) = (y ∷ x ∷ xs, r)
swap_front r xs = (xs, r)

pub swap_front-Perm : (r : Rand) (xs : List ℕ) → Perm (swap_front r xs).0 xs
swap_front-Perm r [] = Perm.refl []
swap_front-Perm r (x ∷ []) = Perm.refl (x ∷ [])
swap_front-Perm r (x ∷ y ∷ xs) = Perm.swap x y xs

pub length-swap_front : (r : Rand) (xs : List ℕ) → length (swap_front r xs).0 ≡ length xs
length-swap_front r [] = refl
length-swap_front r (x ∷ []) = refl
length-swap_front r (x ∷ y ∷ xs) = refl

pub swap_front-draws : (r : Rand) (xs : List ℕ) → (swap_front r xs).1.draws ≡ r.draws
swap_front-draws r [] = refl
swap_front-draws r (x ∷ []) = refl
swap_front-draws r (x ∷ y ∷ xs) = refl

shuffle_bytes_example :
    Returns {A = Individual × Rand × MemoryManager}
      (λ o.
        (after : List ℕ) × Perm after (3 ∷ 2 ∷ 1 ∷ [])
        × Child one_slot 1 parent-Ready.count after o.0 o.2)
      (shuffle_bytes swap_front (counter 1) one_slot parent)
shuffle_bytes_example =
    shuffle_bytes_lem swap_front swap_front-Perm length-swap_front (counter 1) one_slot parent
      parent-Ready (omega arith)
