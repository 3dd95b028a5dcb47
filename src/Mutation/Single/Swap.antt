-- ===== src/Mutation/Single/Swap.antt =====
-- `SwapByteMutator` (fuzzer/fuzzer/mutations.cpp).
use fuzzer_goal_directed.Prelude.{
  ℕ, zero, suc, ◌+◌, ◌%◌, ◌<◌, ◌≤◌, ◌≡◌, ◌∙◌, ◌≢◌, refl, List, arith, ◌==◌, length, get_or, set,
  u32_mod, Bool-cases, inl, inr, length-set, le→ltb, ==_iff,
}
use fuzzer_goal_directed.Result.{Returns, returns, >>=-Returns}
use fuzzer_goal_directed.Memory.{MemoryManager}
use fuzzer_goal_directed.Memory.Bytes.{
  poke-Updated, peek_lem, buffer-View, slot_length-View, Updated-View, Updated-trans, same_address,
}
use fuzzer_goal_directed.Memory.Copy.{Grown-View, Grown-Updated}
use fuzzer_goal_directed.Random.{Rand, next_number}
use fuzzer_goal_directed.Random.Laws.{next_number-lt}
use fuzzer_goal_directed.Individual.{Individual}
use fuzzer_goal_directed.Individual.Clone.{Ready, Child, clone-Child}
use fuzzer_goal_directed.Mutation.Single.{pick_other, swap_byte}
use fuzzer_goal_directed.Mutation.Single.Laws.{to_u32-small}

-- The loop ends once a number other than `idx1` is drawn, with room for one more test.
pub pick_other_lem :
    (fuel k : ℕ) (r : Rand) (size idx1 idx2 : ℕ)
    → k < fuel
    → idx2 < size
    → (idx2 ≢ idx1)
    → Returns (λ o. (o.0 ≢ idx1) × (o.0 < size)) (pick_other fuel r size idx1 idx2)
unfolding pick_other
pick_other_lem zero k r size idx1 idx2 h l n = elim h [ ]
pick_other_lem (suc fuel) k r size idx1 idx2 h l n = elim (Bool-cases (idx2 == idx1)) [
  | inl e ↦ absurd (n ((==_iff idx2 idx1).0 e))
  | inr e ↦ rw e (returns _ (n, l))
]

-- The loop ends with an index below `size` other than `idx1`, as soon as draw `k` from here gives
-- one and the fuel allows for `k` more rounds and the last test.
pub pick_other-total :
    (k fuel : ℕ) (r : Rand) (size idx1 idx2 : ℕ)
    → k + 1 < fuel
    → idx2 < size
    → r.draws (r.position + k) % size ≢ idx1
    → Returns (λ o. (o.0 ≢ idx1) × (o.0 < size)) (pick_other fuel r size idx1 idx2)
unfolding pick_other next_number
pick_other-total k zero r size idx1 idx2 h l n = elim h [ ]
pick_other-total zero (suc fuel) r size idx1 idx2 h l n = elim (Bool-cases (idx2 == idx1)) [
  | inl e ↦
      rw (e, le→ltb 1 size (omega arith))
        (pick_other_lem fuel 0 _ size idx1 (r.draws r.position % size) (omega arith) (ground arith)
          (let f : r.position + 0 ≡ r.position = omega arith in rw f at n))
  | inr e ↦ rw e (returns _ (ground arith, l))
]
pick_other-total (suc k) (suc fuel) r size idx1 idx2 h l n = elim (Bool-cases (idx2 == idx1)) [
  | inl e ↦
      rw (e, le→ltb 1 size (omega arith))
        (pick_other-total k fuel _ size idx1 (r.draws r.position % size) (omega arith)
          (ground arith)
          (let f : r.position + suc k ≡ suc r.position + k = omega arith in rw f at n))
  | inr e ↦ rw e (returns _ (ground arith, l))
]

-- The bytes at `a` and `b` change places.
pub swapped : List ℕ → ℕ → ℕ → List ℕ
swapped bytes a b = set (set bytes b (get_or bytes a 0)) a (get_or bytes b 0)

pub length-swapped : (bytes : List ℕ) (a b : ℕ) → length (swapped bytes a b) ≡ length bytes
unfolding swapped
length-swapped bytes a b =
    length-set (set bytes b (get_or bytes a 0)) a (get_or bytes b 0)
    ∙ length-set bytes b (get_or bytes a 0)

module _ (r : Rand) (m : MemoryManager) (i : Individual) {bytes : List ℕ}
    (ready : Ready m i.index bytes) (small : length bytes < u32_mod) where
  -- Of a ready individual of two bytes or more, below 2 ^ 32, `swap_byte` makes a new one in which the
  -- byte at the first index drawn and a byte at another index have changed places, if draw `k` from
  -- there gives another index and the fuel allows for it; it does not fault.
  pub swap_byte_lem :
      (fuel k : ℕ)
      → 2 ≤ length bytes
      → k + 1 < fuel
      → let (idx, r1) = next_number r (length bytes) in
        r1.draws (r1.position + k) % length bytes ≢ idx
        → Returns {A = Individual × Rand × MemoryManager}
            (λ o.
              (other : ℕ) × (other ≢ idx)
              × (other < length bytes)
              × Child m i.index ready.count (swapped bytes idx other) o.0 o.2)
            (swap_byte fuel r m i)
  unfolding swap_byte swapped
  swap_byte_lem fuel k two rounds differs = >>=-Returns _ (clone-Child m i ready) λ c ch.
      let w = Grown-View ch.grown in
      let (idx, r1) = next_number r (length bytes) in
      let inside : idx < length bytes = omega (arith, next_number-lt r (length bytes)) in
      rw
        (
          ch.index,
          slot_length-View c.1 m.next_index ch.grown.valid w,
          buffer-View c.1 m.next_index ch.grown.valid w,
          to_u32-small (length bytes) small,
          le→ltb 2 (length bytes) two,
        )
        (>>=-Returns _ (pick_other-total k fuel r1 (length bytes) idx idx rounds inside differs)
          λ o (n, l).
            rw
              (
                peek_lem c.1 m.next_index ch.grown.valid w idx inside,
                peek_lem c.1 m.next_index ch.grown.valid w o.0 l,
              )
              (>>=-Returns _
                (poke-Updated c.1 m.next_index ch.grown.valid w o.0 (get_or bytes idx 0)
                  (omega arith))
                λ m2 (u, s).
                  let w2 = Updated-View u in
                  rw (same_address c.1 m2 m.next_index w w2 s) (
                    >>=-Returns _
                      (poke-Updated m2 m.next_index u.valid w2 idx (get_or bytes o.0 0)
                        (omega (arith, length-set bytes o.0 (get_or bytes idx 0))))
                      λ m3 (u', _). returns _ (
                        o.0,
                        n,
                        l,
                        record {
                          index = refl;
                          id = ch.id;
                          grown = Grown-Updated ch.grown (Updated-trans u u');
                        },
                      ))))
