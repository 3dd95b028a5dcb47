-- ===== src/Crossover/Points.antt =====
-- The segments of the cross-over of N points (fuzzer/fuzzer/cross-overs.cpp: `NPointsCrossOver`).
use fuzzer_goal_directed.Prelude.{
  ℕ, zero, suc, ◌+◌, ◌-◌, ◌≤◌, ◌≡◌, refl, sym, ap, subst, ◌∙◌, some, List, [], ◌∷◌, ◌++◌, arith,
  ltb, ◌==◌, true, false, if◌then◌else◌, length, get_or, length-set, Bool-cases, inl, inr, dec_lt,
  lt→ltb, le→ltb,
}
use fuzzer_goal_directed.Result.{
  Result, ok, >>=_assoc, ◌>>=◌, Returns, returns, Returns-mono, >>=-Returns,
}
use fuzzer_goal_directed.Heap.{Pointer}
use fuzzer_goal_directed.Memory.{MemoryManager}
use fuzzer_goal_directed.Memory.Invariant.{IsValid, View}
use fuzzer_goal_directed.Memory.Bytes.{
  Updated, peek, poke-Updated, peek_lem, Updated-View, Updated-trans, Updated-refl, same_address,
}
use fuzzer_goal_directed.Random.{Rand, next_bool, next_char}
use fuzzer_goal_directed.Crossover.{Source, fill_random, fill_from, fill_segments}
use fuzzer_goal_directed.Crossover.Loops.{Parent, Parent-Updated, Filled, after_one}
use fuzzer_goal_directed.Mutation.Block.Overwrite.{
  overwrite, overwrite-nil, overwrite-cons, overwrite-append, length-overwrite,
}

-- `n` characters.
abbrev pub random_bytes : Rand → ℕ → List ℕ × Rand
random_bytes r zero = ([], r)
random_bytes r (suc n) =
    let (x, r1) = next_char r in let (rest, r2) = random_bytes r1 n in (x ∷ rest, r2)

-- The `n` bytes from position `j` on.
abbrev pub stretch : List ℕ → ℕ → ℕ → List ℕ
stretch b j zero = []
stretch b j (suc n) = get_or b j 0 ∷ stretch b (j + 1) n

pub length-random_bytes : (n : ℕ) (r : Rand) → length (random_bytes r n).0 ≡ n
length-random_bytes zero r = refl
length-random_bytes (suc n) r = ap suc (length-random_bytes n _)

pub length-stretch : (n : ℕ) (b : List ℕ) (j : ℕ) → length (stretch b j n) ≡ n
length-stretch zero b j = refl
length-stretch (suc n) b j = ap suc (length-stretch n b (j + 1))

fill_random-Filled :
    (n : ℕ) (m : MemoryManager) (i : ℕ) {old : List ℕ} (v : IsValid m) (w : View m i old) (r : Rand)
    (j : ℕ)
    → j + n ≤ length old
    → let (bytes, r') = random_bytes r n in
      Filled m i (overwrite old j bytes) r' (fill_random r m (some w.address) j n)
unfolding fill_random
fill_random-Filled zero m i {old} v w r j h =
    returns _ (rw (overwrite-nil old j) (Updated-refl v w), refl, refl)
fill_random-Filled (suc n) m i {old} v w r j h =
    let (x, r1) = next_char r in
    >>=-Returns _ (poke-Updated m i v w j x (omega (arith, h))) λ m' (u, s).
      after_one m m' i old j x _ _ u s (
        rw (same_address m m' i w (Updated-View u) s) (
          fill_random-Filled n m' i u.valid (Updated-View u) r1 (j + 1)
            (omega (arith, h, length-set old j x))))

fill_from-Filled :
    (n : ℕ) (m : MemoryManager) (i : ℕ) {old : List ℕ} (v : IsValid m) (w : View m i old) (k : ℕ)
    (b : List ℕ) (src : Source) (j : ℕ)
    → Parent m i k b src
    → j + n ≤ length old
    → j + n ≤ length b
    → Returns
        (λ m'. Updated m i (overwrite old j (stretch b j n)) m' × (m'.memory ≡ m.memory))
        (fill_from m (some w.address) src.0 j n)
unfolding fill_from
fill_from-Filled zero m i {old} v w k b src j p h l =
    returns _ (rw (overwrite-nil old j) (Updated-refl v w), refl)
fill_from-Filled (suc n) m i {old} v w k b src j p h l =
    let x = get_or b j 0 in
    let found : peek m src.0 j ≡ ok x = rw p.at (peek_lem m k v p.view j (omega (arith, l))) in
    rw found (
      >>=-Returns _ (poke-Updated m i v w j x (omega (arith, h))) λ m' (u, s).
        rw (same_address m m' i w (Updated-View u) s) (
          Returns-mono
            (λ m'' o.
              (rw (overwrite-cons old j x (stretch b (j + 1) n)) at (Updated-trans u o.0), o.1 ∙ s))
            (fill_from-Filled n m' i u.valid (Updated-View u) k b src (j + 1)
              (Parent-Updated v p u s) (omega (arith, h, length-set old j x)) (omega (arith, l)))))

-- The bytes of one segment, from `finger` to `i`: those of the parent, or characters if it is too
-- short.
abbrev pub segment : Rand → List ℕ → ℕ → ℕ → List ℕ × Rand
segment r b finger i =
    if ltb (length b) i then random_bytes r (i - finger) else (stretch b finger (i - finger), r)

-- The bytes of the segments between the points, each of the parent that the next coin shows.
unfoldable pub segments : Rand → List ℕ → List ℕ → ℕ → List ℕ → List ℕ × Rand
segments r b1 b2 finger [] = ([], r)
segments r b1 b2 finger (i ∷ rest) =
    let (coin, r1) = next_bool r in
    let (xs, r2) = segment r1 (if coin then b1 else b2) finger i in
    let (ys, r3) = segments r2 b1 b2 i rest in
    let skipped = segments r b1 b2 finger rest in if finger == i then skipped else (xs ++ ys, r3)

-- The points ascend from `low`, and none is past `high`.
abbrev pub Rising : ℕ → ℕ → List ℕ → Type 0
Rising low high [] = low ≤ high
Rising low high (i ∷ rest) = (low ≤ i) × Rising i high rest

Rising-le : (low high : ℕ) (points : List ℕ) → Rising low high points → low ≤ high
Rising-le low high [] h = h
Rising-le low high (i ∷ rest) h = omega (arith, h.0, Rising-le i high rest h.1)

length-segment :
    (r : Rand) (b : List ℕ) (finger i : ℕ) → length (segment r b finger i).0 ≡ i - finger
length-segment r b finger i = elim (Bool-cases (ltb (length b) i)) [
  | inl e ↦ rw e (length-random_bytes (i - finger) r)
  | inr e ↦ rw e (length-stretch (i - finger) b finger)
]

-- Filling one segment.
fill_segment : Rand → MemoryManager → Pointer → Source → ℕ → ℕ → Result (Rand × MemoryManager)
fill_segment r m p src finger i =
    let copied = (do m1 ← fill_from m p src.0 finger (i - finger); ok (r, m1)) in
    if ltb src.1 i then fill_random r m p finger (i - finger) else copied

fill_segment-Filled :
    (m : MemoryManager) (i : ℕ) {old : List ℕ} (v : IsValid m) (w : View m i old) (k : ℕ)
    (b : List ℕ) (src : Source) (r : Rand) (finger point : ℕ)
    → Parent m i k b src
    → finger ≤ point
    → point ≤ length old
    → let (bytes, r') = segment r b finger point in
      Filled m i
        (overwrite old finger bytes)
        r'
        (fill_segment r m (some w.address) src finger point)
unfolding fill_segment
fill_segment-Filled m i {old} v w k b src r finger point p h l =
    rw p.size (elim (dec_lt (length b) point) [
      | yes short ↦
          rw (lt→ltb (length b) point short)
            (fill_random-Filled (point - finger) m i v w r finger (omega (arith, h, l)))
      | no long ↦ rw (le→ltb point (length b) (omega (arith, long))) (
          >>=-Returns _
            (fill_from-Filled (point - finger) m i v w k b src finger p (omega (arith, h, l))
              (omega (arith, h, long)))
            λ m1 (u, s). returns _ (u, s, refl))
    ])

fill_segments-cons :
    (r : Rand) (m : MemoryManager) (p : Pointer) (first second : Source) (finger i : ℕ)
    (rest : List ℕ)
    → finger == i ≡ false
    → let (coin, r1) = next_bool r in
      fill_segments r m p first second finger (i ∷ rest)
      ≡ fill_segment r1 m p (if coin then first else second) finger i >>= λ o.
          fill_segments o.0 o.1 p first second i rest
unfolding fill_segments fill_segment
fill_segments-cons r m p first second finger i rest e =
    let (coin, r1) = next_bool r in
    let src = if coin then first else second in
    rw e (elim (Bool-cases (ltb src.1 i)) [
      | inl q ↦ rw q refl
      | inr q ↦ rw q (sym (>>=_assoc (fill_from m p src.0 finger (i - finger)) _ _))
    ])

fill_segments-nil :
    (r : Rand) (m : MemoryManager) (p : Pointer) (first second : Source) (finger : ℕ)
    → fill_segments r m p first second finger [] ≡ ok (r, m)
unfolding fill_segments
fill_segments-nil r m p first second finger = refl

fill_segments_skip :
    (r : Rand) (m : MemoryManager) (p : Pointer) (first second : Source) (finger i : ℕ)
    (rest : List ℕ)
    → finger == i ≡ true
    → fill_segments r m p first second finger (i ∷ rest)
      ≡ fill_segments r m p first second finger rest
unfolding fill_segments
fill_segments_skip r m p first second finger i rest e = rw e refl

Rising-lower :
    (low low' high : ℕ) (points : List ℕ)
    → low ≤ low'
    → Rising low' high points
    → Rising low high points
Rising-lower low low' high [] h k = omega (arith, h, k)
Rising-lower low low' high (i ∷ rest) h k = (omega (arith, h, k.0), k.1)

-- The bytes below the last point become those of the segments.
pub fill_segments-Filled :
    (points : List ℕ) (m : MemoryManager) (i : ℕ) {old : List ℕ} (v : IsValid m) (w : View m i old)
    (k1 k2 : ℕ) (b1 b2 : List ℕ) (first second : Source) (r : Rand) (finger : ℕ)
    → Parent m i k1 b1 first
    → Parent m i k2 b2 second
    → Rising finger (length old) points
    → let (bytes, r') = segments r b1 b2 finger points in
      Filled m i
        (overwrite old finger bytes)
        r'
        (fill_segments r m (some w.address) first second finger points)
unfolding segments
fill_segments-Filled [] m i {old} v w k1 k2 b1 b2 first second r finger p1 p2 h =
    rw (fill_segments-nil r m (some w.address) first second finger)
      (returns _ (rw (overwrite-nil old finger) (Updated-refl v w), refl, refl))
fill_segments-Filled (point ∷ rest) m i {old} v w k1 k2 b1 b2 first second r finger p1 p2 h =
    elim (Bool-cases (finger == point)) [
      | inl e ↦
          rw (e, fill_segments_skip r m (some w.address) first second finger point rest e)
            (fill_segments-Filled rest m i v w k1 k2 b1 b2 first second r finger p1 p2
              (Rising-lower finger point (length old) rest h.0 h.1))
      | inr e ↦
          let (coin, r1) = next_bool r in
          let (xs, r2) = segment r1 (if coin then b1 else b2) finger point in
          let first_segment : Filled m i (overwrite old finger xs) r2
              (fill_segment r1 m (some w.address) (if coin then first else second) finger point) =
            elim (Bool-cases (next_bool r).0) [
              | inl q ↦ rw q (
                  fill_segment-Filled m i v w k1 b1 first r1 finger point p1 h.0
                    (Rising-le point (length old) rest h.1))
              | inr q ↦ rw q (
                  fill_segment-Filled m i v w k2 b2 second r1 finger point p2 h.0
                    (Rising-le point (length old) rest h.1))
            ] in
          rw (e, fill_segments-cons r m (some w.address) first second finger point rest e)
            (>>=-Returns _ first_segment λ o (u, s, q).
              let sized : finger + length xs ≡ point =
                omega (arith, h.0, length-segment r1 (if coin then b1 else b2) finger point) in
              let ys = (segments r2 b1 b2 point rest).0 in
              let joined : overwrite (overwrite old finger xs) point ys
                  ≡ overwrite old finger (xs ++ ys) =
                ap (λ k. overwrite (overwrite old finger xs) k ys) (sym sized)
                ∙ overwrite-append old finger xs ys in
              rw (q, same_address m o.1 i w (Updated-View u) s)
                (Returns-mono
                  (λ o' t.
                    (subst (λ b. Updated m i b o'.1) joined (Updated-trans u t.0), t.1 ∙ s, t.2))
                  (fill_segments-Filled rest o.1 i u.valid (Updated-View u) k1 k2 b1 b2 first second
                    r2 point (Parent-Updated v p1 u s) (Parent-Updated v p2 u s)
                    (rw (sym (length-overwrite old finger xs)) at h.1))))
    ]
