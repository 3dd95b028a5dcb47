-- ===== src/Mutation/Digits/Whole.antt =====
-- What `ChangeASCIIIntegerMutator` makes of an individual (fuzzer/fuzzer/mutations.cpp).
use fuzzer_goal_directed.Prelude.{
  ℕ, zero, suc, ◌+◌, ◌/◌, ◌%◌, ◌≤◌, ◌<◌, ◌≡◌, refl, ap, ◌∙◌, some, List, [], ◌∷◌, arith, ltb,
  length, get_or, u32_mod, Bool-cases, inl, inr, length-append, to_u32,
}
use fuzzer_goal_directed.Result.{ok, Returns-eq, returns, >>=-Returns}
use fuzzer_goal_directed.Heap.{read_range}
use fuzzer_goal_directed.Heap.Laws.{Provides-of_answer, read_range-live}
use fuzzer_goal_directed.Memory.{MemoryManager}
use fuzzer_goal_directed.Memory.Bytes.{
  Updated-View, Updated-trans, buffer-View, slot_length-View, take_front,
}
use fuzzer_goal_directed.Memory.Copy.{Grown-View, Grown-Updated}
use fuzzer_goal_directed.Random.{Rand, next_number}
use fuzzer_goal_directed.Random.Laws.{next_number-lt}
use fuzzer_goal_directed.Individual.{Individual}
use fuzzer_goal_directed.Individual.Clone.{Ready, Child, clone-Child}
use fuzzer_goal_directed.Mutation.Single.Laws.{Makes}
use fuzzer_goal_directed.Mutation.Digits.{
  integers_from, parsed, changed_value, decimal, decimal_from, replace_integer,
  change_ascii_integer,
}
use fuzzer_goal_directed.Mutation.Digits.Laws.{Within, integers-Within}
use fuzzer_goal_directed.Mutation.Digits.Room.{replaced, room_for-Roomy, write_all-Rewrites}

length-decimal_from :
    (fuel n : ℕ) (digits : List ℕ) → length (decimal_from fuel n digits) ≤ fuel + length digits
unfolding decimal_from
length-decimal_from zero n digits = omega arith
length-decimal_from (suc fuel) n digits = elim (Bool-cases (ltb n 10)) [
  | inl e ↦ rw e (omega arith)
  | inr e ↦ rw e (omega (arith, length-decimal_from fuel (n / 10) ((48 + n % 10) ∷ digits)))
]

length-decimal : (n : ℕ) → length (decimal n) ≤ 20
unfolding decimal
length-decimal n = omega (arith, length-decimal_from 20 n [])

Within-get_or :
    (size : ℕ) (runs : List (ℕ × ℕ)) (k : ℕ)
    → Within size runs
    → k < length runs
    → (0 < (get_or runs k (0, 0)).1) × ((get_or runs k (0, 0)).0 + (get_or runs k (0, 0)).1 ≤ size)
Within-get_or size [] k w h = absurd (omega (arith, h))
Within-get_or size (run ∷ rest) zero w h = (w.0, w.1)
Within-get_or size (run ∷ rest) (suc k) w h = Within-get_or size rest k w.2 (omega (arith, h))

-- What becomes of the bytes, and the generator afterwards.
abbrev pub changed : Rand → List ℕ → List (ℕ × ℕ) → List ℕ × Rand
changed r bytes [] = (bytes, r)
changed r bytes (run ∷ runs) =
    let (chosen, r1) = next_number r (to_u32 (length (run ∷ runs))) in
    let (start, n) = get_or (run ∷ runs) chosen (0, 0) in
    let (value, r2) = changed_value r1 (parsed bytes start n) in
    (replaced bytes start n (decimal value), r2)

module _ (r : Rand) (m : MemoryManager) (i : Individual) {bytes : List ℕ}
    (ready : Ready m i.index bytes) (small : length bytes + 64 < u32_mod) where
  replace_integer-Child :
      (c : Individual) (m1 : MemoryManager) (runs : List (ℕ × ℕ))
      → Child m i.index ready.count bytes c m1
      → Within (length bytes) runs
      → let (after, r') = changed r bytes runs in
        Makes m i ready after r' (replace_integer r m1 c (length bytes) bytes runs)
  unfolding replace_integer
  replace_integer-Child c m1 [] ch inside = returns _ (ch, refl)
  replace_integer-Child c m1 (run ∷ runs) ch inside =
      let w = Grown-View ch.grown in
      let (chosen, r1) = next_number r (to_u32 (length (run ∷ runs))) in
      let (start, n) = get_or (run ∷ runs) chosen (0, 0) in
      let (value, r2) = changed_value r1 (parsed bytes start n) in
      let (some_digit, fits) =
        Within-get_or (length bytes) (run ∷ runs) chosen inside
          (omega (arith, next_number-lt r (to_u32 (length (run ∷ runs))))) in
      rw (ch.index) (
        >>=-Returns _
          (room_for-Roomy m1 m.next_index ch.grown.valid w start n (decimal value)
            (Provides-of_answer m.heap m1.heap ch.grown.answer ready.supply) fits
            (length-decimal value) small)
          λ m2 o.
            let v = Updated-View o.updated in
            rw (buffer-View m2 m.next_index o.updated.valid v) (
              >>=-Returns _
                (write_all-Rewrites (decimal value) m2 m.next_index o.updated.valid v start o.fits)
                λ m3 (u, _). returns _ (
                  record {
                    index = refl;
                    id = ch.id;
                    grown = rw o.writes at (Grown-Updated ch.grown (Updated-trans o.updated u));
                  },
                  refl,
                )))

  -- The mutator makes the bytes that `changed` describes with the operations of the code.
  pub change_ascii_integer-changed :
      let (after, r') = changed r bytes (integers_from bytes 0 0) in
      Makes m i ready after r' (change_ascii_integer r m i)
  unfolding change_ascii_integer
  change_ascii_integer-changed = >>=-Returns _ (clone-Child m i ready) λ c ch.
      let w = Grown-View ch.grown in
      let read : read_range c.1.heap (some w.address) 0 (length bytes) ≡ ok bytes =
        read_range-live c.1.heap w.address 0 (length bytes) w.block
          (omega (arith, length-append bytes w.pad))
        ∙ ap ok (take_front bytes w.pad) in
      let rest : Makes m i ready (changed r bytes (integers_from bytes 0 0)).0
          (changed r bytes (integers_from bytes 0 0)).1
          (replace_integer r c.1 c.0 (length bytes) bytes (integers_from bytes 0 0)) =
        replace_integer-Child c.0 c.1 (integers_from bytes 0 0) ch (integers-Within bytes) in
      rw
        (
          ch.index,
          slot_length-View c.1 m.next_index ch.grown.valid w,
          buffer-View c.1 m.next_index ch.grown.valid w,
        )
        (>>=-Returns _ (Returns-eq read) λ xs q. rw q (rw ch.index at rest))
