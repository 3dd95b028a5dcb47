-- ===== src/Crossover/NPoints.antt =====
-- The children of the cross-over of N points (fuzzer/fuzzer/cross-overs.cpp: `NPointsCrossOver`).
use fuzzer_goal_directed.Prelude.{
  ℕ, zero, suc, Bool, true, false, ◌+◌, ◌/◌, ◌≤◌, ◌<◌, ◌≡◌, refl, ◌∙◌, List, [], ◌∷◌, arith, ltb,
  ◌==◌, if◌then◌else◌, length, max, Bool-cases, inl, inr, ltb→lt, lt→ltb, le→ltb, dec_lt, to_u32,
  u32_mod,
}
use native.Mathlib.Nat.{div-le_self}
use fuzzer_goal_directed.Result.{
  ok, ◌>>=◌, returns, >>=-Returns, IfOk, returned, faulted, IfOk-mono, IfOk-ok,
}
use fuzzer_goal_directed.Memory.{MemoryManager, buffer, slot_length}
use fuzzer_goal_directed.Memory.Bytes.{buffer-View, slot_length-View}
use fuzzer_goal_directed.Memory.Copy.{Grown-View, Grown-Updated}
use fuzzer_goal_directed.Random.{Rand, next_bool, next_number, pick, pick_from, insert_sorted}
use fuzzer_goal_directed.Random.Laws.{next_number-lt, next_number-draws}
use fuzzer_goal_directed.Random.Pick.{draws_of, different, Picked, pick-Picked}
use fuzzer_goal_directed.Individual.{Individual}
use fuzzer_goal_directed.Individual.Clone.{Ready, Child}
use fuzzer_goal_directed.Crossover.{
  n_points, fill_segments, source_of, min_segment_size, number_segments,
}
use fuzzer_goal_directed.Crossover.Points.{Rising, segments, fill_segments-Filled}
use fuzzer_goal_directed.Crossover.Laws.{Crosses, cloned, clone_keeps_source}
use fuzzer_goal_directed.Mutation.Block.Overwrite.{overwrite}
use fuzzer_goal_directed.Mutation.Single.Laws.{to_u32-small}
use fuzzer_goal_directed.Mutation.Single.{Outcome}

insert_sorted-Rising :
    (n low high : ℕ) (xs : List ℕ)
    → low ≤ n
    → n ≤ high
    → Rising low high xs
    → Rising low high (insert_sorted n xs)
unfolding insert_sorted
insert_sorted-Rising n low high [] h k r = (h, k)
insert_sorted-Rising n low high (x ∷ xs) h k r = elim (Bool-cases (ltb n x)) [
  | inl e ↦ rw e (h, (omega (arith, ltb→lt n x e), r.1))
  | inr e ↦ rw e (elim (Bool-cases (n == x)) [
    | inl q ↦ rw q r
    | inr q ↦ rw q (r.0, insert_sorted-Rising n x high xs (ground (arith, e)) k r.1)
  ])
]

pick_from-Rising :
    (fuel : ℕ) (r : Rand) (values : List ℕ) (number high : ℕ)
    → Rising 0 high values
    → IfOk (λ o. Rising 0 high o.0 × (o.1.draws ≡ r.draws)) (pick_from fuel r values number high)
unfolding pick_from
pick_from-Rising zero r values number high h = faulted _
pick_from-Rising (suc fuel) r values number high h =
    let (n, r') = next_number r high in
    elim (Bool-cases (length values == number)) [
      | inl e ↦ rw e (returned _ (h, refl))
      | inr e ↦ rw e (
          IfOk-mono (λ o (p, q). (p, q ∙ next_number-draws r high))
            (pick_from-Rising fuel r' (insert_sorted n values) number high (
              insert_sorted-Rising n 0 high values (omega arith)
                (omega (arith, next_number-lt r high)) h)))
    ]

-- What `pick` gives ascends.
pub pick-Rising :
    (fuel : ℕ) (r : Rand) (number high : ℕ)
    → IfOk (λ o. Rising 0 high o.0 × (o.1.draws ≡ r.draws)) (pick fuel r number high)
unfolding pick
pick-Rising fuel r number high = pick_from-Rising fuel r [] number high (omega arith)

-- The size of the segments of `size` bytes, and the generator afterwards.
abbrev pub segment_of : Rand → ℕ → ℕ × Rand
segment_of r size =
    let (n, r') = next_number r (max min_segment_size (size / number_segments)) in
    (max (n + 1) min_segment_size, r')

-- The bytes of a clone that holds `b`, with the points that were drawn, and the generator afterwards.
abbrev pub pointed : List ℕ → List ℕ → List ℕ → Rand → List ℕ → Rand → List ℕ × Rand
pointed b b1 b2 r points r3 =
    let (size, r2) = segment_of r (length b) in
    let (bytes, r4) = segments r3 b1 b2 0 points in
    if ltb (length b) size then (b, r2) else (overwrite b 0 bytes, r4)

module _ (fuel : ℕ) (r : Rand) (m : MemoryManager) (i1 i2 : Individual) {b1 b2 : List ℕ}
    (ready1 : Ready m i1.index b1) (ready2 : Ready m i2.index b2) (points : List ℕ)
    (r3 : Rand) where
  -- What `n_points` does with the clone of `i`.
  n_points_rest :
      (i : Individual) (b : List ℕ) (ready : Ready m i.index b) (r1 : Rand)
      → length b < u32_mod
      → (let (size, r2) = segment_of r1 (length b) in
          size ≤ length b → pick fuel r2 (length b / size) (length b) ≡ ok (points, r3))
      → (c : Individual) (m1 : MemoryManager) → Child m i.index ready.count b c m1
      → let (bytes, r') = pointed b b1 b2 r1 points r3 in
        Crosses m i ready.count bytes r' (do
          let size = slot_length m1 c.index
          let (n, r2) = next_number r1 (to_u32 (max min_segment_size (size / number_segments)))
          let segment_size = max (n + 1) min_segment_size
          let crossed : Outcome = (do
            (indices, r3) ← pick fuel r2 (to_u32 (size / segment_size)) (to_u32 size)
            (r4, m2) ←
                fill_segments r3 m1
                  (buffer m1 c.index)
                  (source_of m1 i1)
                  (source_of m1 i2)
                  0
                  indices
            ok (c, r4, m2))
          if ltb size segment_size then ok (c, r2, m1) else crossed)
  n_points_rest i b ready r1 small picked c m1 ch =
      let w = Grown-View ch.grown in
      let (p1, l1) = clone_keeps_source m i ready ch i1 b1 ready1 in
      let (p2, l2) = clone_keeps_source m i ready ch i2 b2 ready2 in
      let size = (segment_of r1 (length b)).0 in
      rw
        (
          ch.index,
          slot_length-View m1 m.next_index ch.grown.valid w,
          buffer-View m1 m.next_index ch.grown.valid w,
          l1,
          l2,
          to_u32-small (max min_segment_size (length b / number_segments)) (omega (arith, small)),
        )
        (elim (dec_lt (length b) size) [
          | yes l ↦
              rw (lt→ltb (length b) size l)
                (returns _ (record { index = refl; id = ch.id; grown = ch.grown }, refl))
          | no h ↦
              let r2 = (segment_of r1 (length b)).1 in
              let found = picked (omega (arith, h)) in
              let rising = IfOk-ok (pick-Rising fuel r2 (length b / size) (length b)) found in
              let few : length b / size < u32_mod =
                omega (arith, small, div-le_self (length b) size) in
              rw
                (
                  le→ltb size (length b) (omega (arith, h)),
                  to_u32-small (length b / size) few,
                  to_u32-small (length b) small,
                  found,
                )
                (>>=-Returns _
                  (fill_segments-Filled points m1 m.next_index ch.grown.valid w i1.index i2.index b1
                    b2 _ _ r3 0 p1 p2 rising.0)
                  λ o (u, _, q).
                    returns _
                      (record { index = refl; id = ch.id; grown = Grown-Updated ch.grown u }, q))
        ])

  -- The cross-over with the points that were drawn.
  n_points_drawn :
      let (coin, r1) = next_bool r in
      let b = if coin then b1 else b2 in
      let (size, r2) = segment_of r1 (length b) in
      let (bytes, r') = pointed b b1 b2 r1 points r3 in
      length b1 < u32_mod
      → length b2 < u32_mod
      → (size ≤ length b → pick fuel r2 (length b / size) (length b) ≡ ok (points, r3))
      → Crosses m
          (if coin then i1 else i2)
          (if coin then ready1.count else ready2.count)
          bytes
          r'
          (n_points fuel r m i1 i2)
  unfolding n_points
  n_points_drawn = elim (Bool-cases (next_bool r).0) [
    | inl e ↦ rw e (λ small1 small2 picked.
        >>=-Returns _ (cloned r m i1 i2 ready1 ready2 i1 b1 ready1)
          λ o (ch, q). rw q (n_points_rest i1 b1 ready1 (next_bool r).1 small1 picked o.0 o.2 ch))
    | inr e ↦ rw e (λ small1 small2 picked.
        >>=-Returns _ (cloned r m i1 i2 ready1 ready2 i2 b2 ready2)
          λ o (ch, q). rw q (n_points_rest i2 b2 ready2 (next_bool r).1 small2 picked o.0 o.2 ch))
  ]

-- What holds unless a test does.
abbrev pub Unless : Bool → Type 0 → Type 0
Unless true A = Unit {0}
Unless false A = A

module _ (k fuel : ℕ) (r : Rand) (m : MemoryManager) (i1 i2 : Individual) {b1 b2 : List ℕ}
    (ready1 : Ready m i1.index b1) (ready2 : Ready m i2.index b2) where
  -- The cross-over of N points of two ready individuals of less than 2 ^ 32 bytes ends and does not
  -- fault, if there are as many different numbers among `k` draws as points are wanted, and more
  -- rounds than `k`. The points are the different numbers of the first draws, in ascending order,
  -- as many as segments fit into the clone. It makes a new individual with the bytes of the parent
  -- that the first coin shows, of which those below the last point are overwritten segment by segment
  -- by those of the parent that the next coin shows, or by characters where that parent ends before
  -- the segment does. A clone that is shorter than a segment stays.
  pub n_points_lem :
      let (coin, r1) = next_bool r in
      let b = if coin then b1 else b2 in
      let (size, r2) = segment_of r1 (length b) in
      length b1 < u32_mod
      → length b2 < u32_mod
      → k < fuel
      → (size ≤ length b → length b / size ≤ different (draws_of k r2 [] (length b)).0)
      → (points : List ℕ) × (r3 : Rand) × Unless
          (ltb (length b) size)
          (Picked k r2 [] (length b / size) (length b) points r3)
        × (let (bytes, r') = pointed b b1 b2 r1 points r3 in
            Crosses m
              (if coin then i1 else i2)
              (if coin then ready1.count else ready2.count)
              bytes
              r'
              (n_points fuel r m i1 i2))
  n_points_lem small1 small2 more enough =
      let (coin, r1) = next_bool r in
      let b = if coin then b1 else b2 in
      let (size, r2) = segment_of r1 (length b) in
      elim (dec_lt (length b) size) [
        | yes l ↦ (
          [],
          r,
          rw (lt→ltb (length b) size l) tt,
          n_points_drawn fuel r m i1 i2 ready1 ready2 [] r small1 small2
              (λ h. absurd (omega (arith, l, h))),
        )
        | no n ↦
            let h : size ≤ length b = omega (arith, n) in
            let (points, r3, drawn, p) =
              pick-Picked k fuel r2 (length b / size) (length b) (enough h) more in
            (
              points,
              r3,
              rw (le→ltb size (length b) h) p,
              n_points_drawn fuel r m i1 i2 ready1 ready2 points r3 small1 small2 (λ g. drawn),
            )
      ]
