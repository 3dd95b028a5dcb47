-- ===== src/Mutation/Block/Shuffle.antt =====
-- `ShuffleBytesMutator` against permutations of lists (fuzzer/fuzzer/mutations.cpp).
use fuzzer_goal_directed.Prelude.{
  ℕ, ◌+◌, ◌-◌, ◌<◌, ◌≤◌, ◌≡◌, refl, sym, ap, ◌∙◌, List, ◌++◌, arith, length, max, min, take, drop,
  to_u32, u32_mod, add32, sub64, sub64-small, dec_lt, length-append, length-take, length-drop,
  lt→ltb, take-add, take-append-drop, subst, le→ltb, take_append_le, drop_append_le, append_assoc,
}
use mathlib.Core.List.{Perm}
use mathlib.Core.List.Perm
use fuzzer_goal_directed.Result.{Returns, returns, >>=-Returns}
use fuzzer_goal_directed.Memory.{MemoryManager}
use fuzzer_goal_directed.Memory.Bytes.{buffer-View, slot_length-View, reblocked-Updated}
use fuzzer_goal_directed.Heap.Laws.{read_range-live, write_range-live}
use fuzzer_goal_directed.Memory.Copy.{Grown-View, Grown-Updated}
use fuzzer_goal_directed.Random.{Rand, next_number}
use fuzzer_goal_directed.Random.Laws.{next_number-lt}
use fuzzer_goal_directed.Individual.{Individual}
use fuzzer_goal_directed.Individual.Clone.{Ready, Child, clone-Child}
use fuzzer_goal_directed.Mutation.Single.Laws.{to_u32-small}
use fuzzer_goal_directed.Mutation.Block.{shuffle_bytes}
use fuzzer_goal_directed.Mutation.Block.Laws.{length_run}

segment :
    (s n : ℕ) (xs pad : List ℕ)
    → s + n ≤ length xs
    → take n (drop s (xs ++ pad)) ≡ take n (drop s xs)
segment s n xs pad h =
    ap (take n) (drop_append_le s xs pad (omega arith))
    ∙ take_append_le n (drop s xs) pad (omega (arith, length-drop s xs))

rewritten :
    (s n : ℕ) (xs ys pad : List ℕ)
    → s + n ≤ length xs
    → take s (xs ++ pad) ++ (ys ++ drop (s + n) (xs ++ pad))
      ≡ (take s xs ++ (ys ++ drop (s + n) xs)) ++ pad
rewritten s n xs ys pad h =
    rw (take_append_le s xs pad (omega arith), drop_append_le (s + n) xs pad h) (simp append_assoc)

length_rewritten :
    (s n : ℕ) (xs ys : List ℕ)
    → s + n ≤ length xs
    → length ys ≡ n
    → length (take s xs ++ (ys ++ drop (s + n) xs)) ≡ length xs
length_rewritten s n xs ys h e = omega (
  arith,
  length-append (take s xs) (ys ++ drop (s + n) xs),
  length-append ys (drop (s + n) xs),
  length-take s xs,
  length-drop (s + n) xs,
)

reordered :
    (s n : ℕ) (xs ys : List ℕ)
    → s + n ≤ length xs
    → Perm ys (take n (drop s xs))
    → Perm (take s xs ++ (ys ++ drop (s + n) xs)) xs
reordered s n xs ys h p =
    let whole : take s xs ++ (take n (drop s xs) ++ drop (s + n) xs) ≡ xs =
      sym (append_assoc (take s xs) (take n (drop s xs)) (drop (s + n) xs))
      ∙ ap (λ k. k ++ drop (s + n) xs) (sym (take-add s n xs))
      ∙ take-append-drop (s + n) xs in
    subst (Perm (take s xs ++ (ys ++ drop (s + n) xs))) whole
      (Perm.append (Perm.refl (take s xs)) (Perm.append p (Perm.refl (drop (s + n) xs))))

module _ (random_shuffle : Rand → List ℕ → List ℕ × Rand)
    (permutes : (r : Rand) (xs : List ℕ) → Perm (random_shuffle r xs).0 xs)
    (keeps_length : (r : Rand) (xs : List ℕ) → length (random_shuffle r xs).0 ≡ length xs)
    (r : Rand) (m : MemoryManager) (i : Individual) {bytes : List ℕ} (ready : Ready m i.index bytes)
    (small : length bytes + 64 < u32_mod) where
  -- With a shuffle that permutes, `shuffle_bytes` makes of a ready individual of less than 2 ^ 32 - 64
  -- bytes a new one with the same bytes in some order; it does not fault.
  pub shuffle_bytes_lem :
      Returns {A = Individual × Rand × MemoryManager}
        (λ o. (after : List ℕ) × Perm after bytes × Child m i.index ready.count after o.0 o.2)
        (shuffle_bytes random_shuffle r m i)
  unfolding shuffle_bytes
  shuffle_bytes_lem = >>=-Returns _ (clone-Child m i ready) λ c ch.
      let w = Grown-View ch.grown in
      let (n, r1) = next_number r (min (length bytes) 8) in
      let amount = n + 1 in
      let (start, r2) = next_number r1 (length bytes - amount) in
      rw
        (
          ch.index,
          slot_length-View c.1 m.next_index ch.grown.valid w,
          buffer-View c.1 m.next_index ch.grown.valid w,
        )
        (elim (dec_lt (length bytes) 2) [
          | yes l ↦ rw (lt→ltb (length bytes) 2 l) (
              returns _
                (bytes, Perm.refl bytes, record { index = refl; id = ch.id; grown = ch.grown }))
          | no l ↦
              let drawn : n < max 1 (min (length bytes) 8) =
                next_number-lt r (min (length bytes) 8) in
              let inside : start < max 1 (length bytes - amount) =
                next_number-lt r1 (length bytes - amount) in
              let fits : start + amount ≤ length bytes = omega arith in
              let order = (random_shuffle r2 (take amount (drop start bytes))).0 in
              let sized : length order ≡ amount =
                keeps_length r2 (take amount (drop start bytes))
                ∙ length_run start amount bytes fits in
              let whole : length (take start bytes ++ (order ++ drop (start + amount) bytes))
                  ≡ length bytes =
                length_rewritten start amount bytes order fits sized in
              let e1 : to_u32 (min (length bytes) 8) ≡ min (length bytes) 8 = omega arith in
              let e2 : add32 n 1 ≡ amount = omega arith in
              let e3 : sub64 (length bytes) amount ≡ length bytes - amount =
                sub64-small (length bytes) amount (omega arith) (omega arith) in
              rw
                (
                  le→ltb 2 (length bytes) (omega arith),
                  e1,
                  e2,
                  e3,
                  to_u32-small (length bytes - amount) (omega arith),
                  read_range-live c.1.heap w.address start amount w.block
                      (omega (arith, length-append bytes w.pad)),
                  segment start amount bytes w.pad fits,
                  write_range-live c.1.heap w.address start order w.block
                      (omega (arith, sized, length-append bytes w.pad)),
                  sized,
                  rewritten start amount bytes order w.pad fits,
                )
                (returns _ (
                  take start bytes ++ (order ++ drop (start + amount) bytes),
                  reordered start amount bytes order fits
                      (permutes r2 (take amount (drop start bytes))),
                  record {
                    index = refl;
                    id = ch.id;
                    grown = Grown-Updated ch.grown (
                        reblocked-Updated c.1 m.next_index ch.grown.valid w
                          (take start bytes ++ (order ++ drop (start + amount) bytes)) w.pad
                          c.1.lengths (omega (arith, w.room, whole))
                          (λ j. ground (arith, w.lengths, whole)));
                  },
                ))
        ])
