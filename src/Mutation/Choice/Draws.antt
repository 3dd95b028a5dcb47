-- ===== src/Mutation/Choice/Draws.antt =====
-- No mutator changes what will be drawn (fuzzer/fuzzer/mutations.cpp).
use fuzzer_goal_directed.Prelude.{
  ℕ, zero, suc, ◌≡◌, refl, ◌∙◌, List, [], ◌∷◌, ltb, ◌==◌, Bool-cases, inl, inr, false, length,
  to_u32, u64_mod, min, add32, sub64, ◌*◌, ◌%◌, arith,
}
use fuzzer_goal_directed.Result.{IfOk, returned, faulted, >>=-IfOk, IfOk-any, IfOk-mono}
use fuzzer_goal_directed.Memory.{MemoryManager, slot_length, buffer}
use fuzzer_goal_directed.Memory.Bytes.{peek, poke}
use fuzzer_goal_directed.Heap.{read_range, write_range}
use fuzzer_goal_directed.Random.{Rand, next_number}
use fuzzer_goal_directed.Random.Laws.{next_number-draws}
use fuzzer_goal_directed.Individual.{Individual, clone}
use fuzzer_goal_directed.Mutation.Single.{Outcome, swap_byte, pick_other}
use fuzzer_goal_directed.Mutation.Block.{shuffle_bytes}
use fuzzer_goal_directed.Mutation.Digits.{changed_value}
use fuzzer_goal_directed.Mutation.Digits.Whole.{changed}

-- If there is an outcome, its generator will draw what `r` will.
abbrev pub Steady : Rand → Outcome → Type 0
Steady r = IfOk λ o. o.1.draws ≡ r.draws

pick_other-draws :
    (fuel : ℕ) (r : Rand) (size idx1 idx2 : ℕ)
    → IfOk (λ o. o.1.draws ≡ r.draws) (pick_other fuel r size idx1 idx2)
unfolding pick_other
pick_other-draws zero r size idx1 idx2 = faulted _
pick_other-draws (suc fuel) r size idx1 idx2 = elim (Bool-cases (idx2 == idx1)) [
  | inl e ↦
      let (n, r') = next_number r size in
      rw e (IfOk-mono (λ o q. q ∙ next_number-draws r size) (pick_other-draws fuel r' size idx1 n))
  | inr e ↦ rw e (returned _ refl)
]

changed_value-draws : (r : Rand) (value : ℕ) → (changed_value r value).1.draws ≡ r.draws
unfolding changed_value
changed_value-draws r value =
    let (kind, r1) = next_number r 11 in
    let below = next_number-draws r1 (to_u32 value) in
    let below_square = next_number-draws r1 (to_u32 (value * value % u64_mod)) in
    let same = next_number-draws r 11 in ground (arith, below, below_square, same)

pub changed-draws :
    (r : Rand) (bytes : List ℕ) (runs : List (ℕ × ℕ)) → (changed r bytes runs).1.draws ≡ r.draws
changed-draws r bytes [] = refl
changed-draws r bytes (run ∷ runs) =
    changed_value-draws _ _ ∙ next_number-draws r (to_u32 (length (run ∷ runs)))

pub swap_byte-Steady :
    (fuel : ℕ) (r : Rand) (m : MemoryManager) (i : Individual) → Steady r (swap_byte fuel r m i)
unfolding swap_byte
swap_byte-Steady fuel r m i = >>=-IfOk _ (IfOk-any (clone m i false)) λ (c, m1) _.
    elim (Bool-cases (ltb (slot_length m1 c.index) 2)) [
      | inl e ↦ rw e (returned _ refl)
      | inr e ↦
          let (idx1, r1) = next_number r (to_u32 (slot_length m1 c.index)) in
          rw e (
            >>=-IfOk _ (pick_other-draws fuel r1 (to_u32 (slot_length m1 c.index)) idx1 idx1)
              λ (idx2, r2) q.
                let p = buffer m1 c.index in
                >>=-IfOk _ (IfOk-any (peek m1 p idx1)) λ x1 _.
                  >>=-IfOk _ (IfOk-any (peek m1 p idx2)) λ x2 _.
                    >>=-IfOk _ (IfOk-any (poke m1 p idx2 x1)) λ m2 _.
                      >>=-IfOk _ (IfOk-any (poke m2 p idx1 x2)) λ m3 _.
                        returned _ (q ∙ next_number-draws r (to_u32 (slot_length m1 c.index))))
    ]

pub shuffle_bytes-Steady :
    (random_shuffle : Rand → List ℕ → List ℕ × Rand)
    → ((r : Rand) (xs : List ℕ) → (random_shuffle r xs).1.draws ≡ r.draws)
    → (r : Rand) (m : MemoryManager) (i : Individual)
    → Steady r (shuffle_bytes random_shuffle r m i)
unfolding shuffle_bytes
shuffle_bytes-Steady random_shuffle steady r m i =
    >>=-IfOk _ (IfOk-any (clone m i false)) λ (c, m1) _.
      let size = slot_length m1 c.index in
      let (n, r1) = next_number r (to_u32 (min size 8)) in
      let limit = to_u32 (sub64 size (add32 n 1)) in
      elim (Bool-cases (ltb size 2)) [
        | inl e ↦ rw e (returned _ refl)
        | inr e ↦ rw e (
            let p = buffer m1 c.index in
            let (start, r2) = next_number r1 limit in
            >>=-IfOk _ (IfOk-any (read_range m1.heap p start (add32 n 1))) λ bytes _.
              >>=-IfOk _ (IfOk-any (write_range m1.heap p start (random_shuffle r2 bytes).0)) λ h _.
                returned _ (
                  steady r2 bytes
                  ∙ next_number-draws r1 limit
                  ∙ next_number-draws r (to_u32 (min size 8))))
      ]
