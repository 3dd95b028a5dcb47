-- ===== src/Crossover/SinglePoint.antt =====
-- The children of the cross-over of one point (fuzzer/fuzzer/cross-overs.cpp: `SinglePointCrossOver`).
use fuzzer_goal_directed.Prelude.{
  ℕ, zero, suc, ◌+◌, ◌≡◌, ◌⊎◌, refl, ap, ◌&&◌, List, arith, ltb, leb, if◌then◌else◌, length, min,
  max, Bool-cases, inl, inr, to_u32, add32, u32_mod, ◌<◌,
}
use fuzzer_goal_directed.Result.{ok, assert, ◌>>◌, ◌>>=◌, returns, >>=-Returns}
use fuzzer_goal_directed.Memory.{MemoryManager, buffer, slot_length}
use fuzzer_goal_directed.Memory.Bytes.{buffer-View, slot_length-View}
use fuzzer_goal_directed.Memory.Copy.{Grown-View, Grown-Updated}
use fuzzer_goal_directed.Random.{Rand, next_bool, next_number}
use fuzzer_goal_directed.Individual.{Individual}
use fuzzer_goal_directed.Individual.Clone.{Ready, Child}
use fuzzer_goal_directed.Crossover.{single_point, fill_around, source_of, loop_ends}
use fuzzer_goal_directed.Crossover.Loops.{around, fill_around-Filled}
use fuzzer_goal_directed.Crossover.Laws.{
  Crosses, cloned, clone_keeps_source, assert_between, overwrite_all, loop_ends_lem,
}

pub length-around :
    (n : ℕ) (r : Rand) (b1 b2 : List ℕ) (idx j : ℕ) → length (around r b1 b2 idx j n).0 ≡ n
length-around zero r b1 b2 idx j = refl
length-around (suc n) r b1 b2 idx j = ap suc (length-around n _ b1 b2 idx (j + 1))

-- Where the cross-over of one point changes to the other parent, and the generator afterwards.
abbrev pub cut : Rand → ℕ → ℕ × Rand
cut r size =
    let (n, r') = next_number r (to_u32 size) in
    (if ltb 1 size then add32 n 1 else 0, if ltb 1 size then r' else r)

module _ (r : Rand) (m : MemoryManager) (i1 i2 : Individual) {b1 b2 : List ℕ}
    (ready1 : Ready m i1.index b1) (ready2 : Ready m i2.index b2) where
  -- What `single_point` does with the clone of `i`, once the parents are in their order.
  single_point_rest :
      (i : Individual) (b : List ℕ) (ready : Ready m i.index b)
      → (length b ≡ length b1) ⊎ (length b ≡ length b2)
      → length b < u32_mod
      → (c : Individual) (m1 : MemoryManager) → Child m i.index ready.count b c m1
      → let (idx, r2) = cut r (length b) in
        let (bytes, r') = around r2 b1 b2 idx 0 (length b) in
        Crosses m i ready.count bytes r' (do
          let size = slot_length m1 c.index
          let i1_size = slot_length m1 i1.index
          let i2_size = slot_length m1 i2.index
          assert (leb size (max i1_size i2_size) && leb (min i1_size i2_size) size)
          let (n, r3) = next_number r (to_u32 size)
          let idx = if ltb 1 size then add32 n 1 else 0
          loop_ends size
          (r4, m2) ←
              fill_around
                (if ltb 1 size then r3 else r)
                m1
                (buffer m1 c.index)
                (source_of m1 i1)
                (source_of m1 i2)
                idx
                0
                size
          ok (c, r4, m2))
  single_point_rest i b ready e small c m1 ch =
      let w = Grown-View ch.grown in
      let (p1, l1) = clone_keeps_source m i ready ch i1 b1 ready1 in
      let (p2, l2) = clone_keeps_source m i ready ch i2 b2 ready2 in
      let (idx, r2) = cut r (length b) in
      rw
        (
          ch.index,
          slot_length-View m1 m.next_index ch.grown.valid w,
          buffer-View m1 m.next_index ch.grown.valid w,
          l1,
          l2,
          assert_between (length b) (length b1) (length b2) e,
          loop_ends_lem (length b) small,
        )
        (>>=-Returns _
          (fill_around-Filled (length b) m1 m.next_index ch.grown.valid w i1.index i2.index b1 b2 _
            _ idx r2 0 p1 p2 (omega arith))
          λ o (u, _, q). returns _ (
            record {
              index = refl;
              id = ch.id;
              grown =
                  Grown-Updated ch.grown
                    (rw (overwrite_all b _ (length-around (length b) r2 b1 b2 idx 0)) at u);
            },
            q,
          ))

module _ (r : Rand) (m : MemoryManager) (i1 i2 : Individual) {b1 b2 : List ℕ}
    (ready1 : Ready m i1.index b1) (ready2 : Ready m i2.index b2) (small1 : length b1 < u32_mod)
    (small2 : length b2 < u32_mod) where
  -- The cross-over of one point of two ready individuals of less than 2 ^ 32 bytes ends and does not
  -- fault. It makes a new individual as long as the parent that the first coin shows. Its bytes below the cut are those of the parent that
  -- the second coin shows, the others those of the other parent, and the next character drawn where
  -- that parent has no byte.
  pub single_point_lem :
      let (coin, r1) = next_bool r in
      let (order, r2) = next_bool r1 in
      let b = if coin then b1 else b2 in
      let (idx, r3) = cut r2 (length b) in
      let (bytes, r') =
        around r3 (if order then b1 else b2) (if order then b2 else b1) idx 0 (length b) in
      Crosses m
        (if coin then i1 else i2)
        (if coin then ready1.count else ready2.count)
        bytes
        r'
        (single_point r m i1 i2)
  unfolding single_point
  single_point_lem =
      let r1 = (next_bool r).1 in
      let r2 = (next_bool r1).1 in
      elim (Bool-cases (next_bool r).0) [
        | inl e ↦ rw e (
            >>=-Returns _ (cloned r m i1 i2 ready1 ready2 i1 b1 ready1) λ o (ch, q).
              rw q (elim (Bool-cases (next_bool r1).0) [
                | inl f ↦ rw f (
                    single_point_rest r2 m i1 i2 ready1 ready2 i1 b1 ready1 (inl refl) small1 o.0
                      o.2 ch)
                | inr f ↦ rw f (
                    single_point_rest r2 m i2 i1 ready2 ready1 i1 b1 ready1 (inr refl) small1 o.0
                      o.2 ch)
              ]))
        | inr e ↦ rw e (
            >>=-Returns _ (cloned r m i1 i2 ready1 ready2 i2 b2 ready2) λ o (ch, q).
              rw q (elim (Bool-cases (next_bool r1).0) [
                | inl f ↦ rw f (
                    single_point_rest r2 m i1 i2 ready1 ready2 i2 b2 ready2 (inr refl) small2 o.0
                      o.2 ch)
                | inr f ↦ rw f (
                    single_point_rest r2 m i2 i1 ready2 ready1 i2 b2 ready2 (inl refl) small2 o.0
                      o.2 ch)
              ]))
      ]
