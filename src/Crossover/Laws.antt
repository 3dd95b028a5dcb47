-- ===== src/Crossover/Laws.antt =====
-- The children of the uniform cross-over (fuzzer/fuzzer/cross-overs.cpp: `UniformCrossOver`).
use fuzzer_goal_directed.Prelude.{
  ℕ, zero, suc, ◌+◌, ◌≡◌, ◌⊎◌, refl, ap, false, ◌&&◌, some, List, [], ◌∷◌, arith, leb,
  if◌then◌else◌, length, min, max, Bool-cases, inl, inr, ◌<◌, u32_mod, lt→ltb,
}
use fuzzer_goal_directed.Result.{ok, assert, ◌>>◌, ◌>>=◌, Returns, returns, >>=-Returns}
use fuzzer_goal_directed.Memory.{MemoryManager, buffer, slot_length}
use fuzzer_goal_directed.Memory.Invariant.{contents, contents-View}
use fuzzer_goal_directed.Memory.Bytes.{buffer-View, slot_length-View}
use fuzzer_goal_directed.Memory.Copy.{Grown-View, Grown-Updated}
use fuzzer_goal_directed.Random.{Rand, next_bool}
use fuzzer_goal_directed.Individual.{Individual, clone}
use fuzzer_goal_directed.Individual.Clone.{Ready, Child, clone-Child, contents-referenced}
use fuzzer_goal_directed.Mutation.Single.{Outcome}
use fuzzer_goal_directed.Mutation.Block.Overwrite.{overwrite}
use fuzzer_goal_directed.Crossover.{uniform, fill_mixed, source_of, loop_ends}
use fuzzer_goal_directed.Crossover.Loops.{mixed, Parent, fill_mixed-Filled}

pub length-mixed : (n : ℕ) (r : Rand) (b1 b2 : List ℕ) (j : ℕ) → length (mixed r b1 b2 j n).0 ≡ n
length-mixed zero r b1 b2 j = refl
length-mixed (suc n) r b1 b2 j = ap suc (length-mixed n _ b1 b2 (j + 1))

pub overwrite_all : (old bytes : List ℕ) → length bytes ≡ length old → overwrite old 0 bytes ≡ bytes
overwrite_all [] [] h = refl
overwrite_all [] (y ∷ ys) h = absurd (omega (arith, h))
overwrite_all (x ∷ xs) [] h = absurd (omega (arith, h))
overwrite_all (x ∷ xs) (y ∷ ys) h = ap (◌∷◌ y) (overwrite_all xs ys (omega (arith, h)))

module _ (m : MemoryManager) (i : Individual) {b : List ℕ} (ready : Ready m i.index b)
    {c : Individual} {m1 : MemoryManager} (ch : Child m i.index ready.count b c m1) where
  -- After the clone of `i`, a parent is as long as it was, and where it was, and is not the clone.
  pub clone_keeps_source :
      (k : Individual) (bytes : List ℕ)
      → Ready m k.index bytes
      → Parent m1 m.next_index k.index bytes (buffer m1 k.index, length bytes)
        × (slot_length m1 k.index ≡ length bytes)
  clone_keeps_source k bytes other =
      let old = contents-View other.valid other.holds in
      let kept : contents m1 k.index ≡ some bytes = ground (
        arith,
        ch.grown.holds k.index,
        contents-referenced ready k.index,
        other.holds,
        old.inside,
      ) in
      let w = contents-View ch.grown.valid kept in
      (
        record {
          holds = kept;
          view = w;
          at = buffer-View m1 k.index ch.grown.valid w;
          size = refl;
          other = ground (arith, old.inside);
        },
        slot_length-View m1 k.index ch.grown.valid w,
      )

pub assert_between :
    (n l1 l2 : ℕ) → (n ≡ l1) ⊎ (n ≡ l2) → assert (leb n (max l1 l2) && leb (min l1 l2) n) ≡ ok tt
assert_between n l1 l2 h = ground arith

pub loop_ends_lem : (n : ℕ) → n < u32_mod → loop_ends n ≡ ok tt
unfolding loop_ends
loop_ends_lem n h = rw (lt→ltb n u32_mod h) refl

-- The outcome is a new individual cloned from `i` that holds `bytes`, and the generator `r'`.
abbrev pub Crosses : (m : MemoryManager) (i : Individual) → ℕ → List ℕ → Rand → Outcome → Type 0
Crosses m i count bytes r' = Returns (λ o. Child m i.index count bytes o.0 o.2 × (o.1 ≡ r'))

module _ (r : Rand) (m : MemoryManager) (i1 i2 : Individual) {b1 b2 : List ℕ}
    (ready1 : Ready m i1.index b1) (ready2 : Ready m i2.index b2) where
  pub cloned :
      (i : Individual) (b : List ℕ) (ready : Ready m i.index b)
      → Crosses m i ready.count b
          (next_bool r).1
          (do (c, m1) ← clone m i false; ok (c, (next_bool r).1, m1))
  cloned i b ready = >>=-Returns _ (clone-Child m i ready) λ c ch. returns _ (ch, refl)

  -- What `uniform` does with the clone of `i`, which is one of the parents.
  uniform_rest :
      (i : Individual) (b : List ℕ) (ready : Ready m i.index b) (r1 : Rand)
      → (length b ≡ length b1) ⊎ (length b ≡ length b2)
      → length b < u32_mod
      → (c : Individual) (m1 : MemoryManager) → Child m i.index ready.count b c m1
      → let (bytes, r') = mixed r1 b1 b2 0 (length b) in
        Crosses m i ready.count bytes r' (do
          let size = slot_length m1 c.index
          let i1_size = slot_length m1 i1.index
          let i2_size = slot_length m1 i2.index
          assert (leb size (max i1_size i2_size) && leb (min i1_size i2_size) size)
          loop_ends size
          (r2, m2) ← fill_mixed r1 m1 (buffer m1 c.index) (source_of m1 i1) (source_of m1 i2) 0 size
          ok (c, r2, m2))
  uniform_rest i b ready r1 e small c m1 ch =
      let w = Grown-View ch.grown in
      let (p1, l1) = clone_keeps_source m i ready ch i1 b1 ready1 in
      let (p2, l2) = clone_keeps_source m i ready ch i2 b2 ready2 in
      let n = length b in
      rw
        (
          ch.index,
          slot_length-View m1 m.next_index ch.grown.valid w,
          buffer-View m1 m.next_index ch.grown.valid w,
          l1,
          l2,
          assert_between n (length b1) (length b2) e,
          loop_ends_lem n small,
        )
        (>>=-Returns _
          (fill_mixed-Filled n m1 m.next_index ch.grown.valid w i1.index i2.index b1 b2 _ _ r1 0 p1
            p2 (omega arith))
          λ o (u, _, q). returns _ (
            record {
              index = refl;
              id = ch.id;
              grown =
                  Grown-Updated ch.grown (rw (overwrite_all b _ (length-mixed n r1 b1 b2 0)) at u);
            },
            q,
          ))

module _ (r : Rand) (m : MemoryManager) (i1 i2 : Individual) {b1 b2 : List ℕ}
    (ready1 : Ready m i1.index b1) (ready2 : Ready m i2.index b2) (small1 : length b1 < u32_mod)
    (small2 : length b2 < u32_mod) where
  -- The uniform cross-over of two ready individuals of less than 2 ^ 32 bytes ends and does not fault. It makes a new individual as long
  -- as the parent that the first coin shows; each of its bytes is the one of the parent that the next
  -- coin shows, or the next character drawn where that parent has no byte.
  pub uniform_lem :
      let (coin, r1) = next_bool r in
      let b = if coin then b1 else b2 in
      let (bytes, r') = mixed r1 b1 b2 0 (length b) in
      Crosses m
        (if coin then i1 else i2)
        (if coin then ready1.count else ready2.count)
        bytes
        r'
        (uniform r m i1 i2)
  unfolding uniform
  uniform_lem = elim (Bool-cases (next_bool r).0) [
    | inl e ↦ rw e (
        >>=-Returns _ (cloned r m i1 i2 ready1 ready2 i1 b1 ready1) λ o (ch, q). rw q (
          uniform_rest r m i1 i2 ready1 ready2 i1 b1 ready1 (next_bool r).1 (inl refl) small1 o.0
            o.2 ch))
    | inr e ↦ rw e (
        >>=-Returns _ (cloned r m i1 i2 ready1 ready2 i2 b2 ready2) λ o (ch, q). rw q (
          uniform_rest r m i1 i2 ready1 ready2 i2 b2 ready2 (next_bool r).1 (inr refl) small2 o.0
            o.2 ch))
  ]
