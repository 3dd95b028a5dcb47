-- ===== src/Crossover/Loops.antt =====
-- The loops of the cross-overs that choose a parent for every byte (fuzzer/fuzzer/cross-overs.cpp).
use fuzzer_goal_directed.Prelude.{
  ℕ, zero, suc, ◌+◌, ◌≤◌, ◌<◌, ◌≡◌, ◌≢◌, refl, ap, ◌∙◌, some, List, [], ◌∷◌, arith, ltb,
  if◌then◌else◌, length, get_or, set, length-set, Bool-cases, inl, inr, ltb→lt,
}
use fuzzer_goal_directed.Result.{Result, ok, ◌>>=◌, Returns, returns, Returns-mono, >>=-Returns}
use fuzzer_goal_directed.Memory.{MemoryManager}
use fuzzer_goal_directed.Memory.Invariant.{IsValid, View, contents, contents-View}
use fuzzer_goal_directed.Memory.Bytes.{
  Updated, poke, poke-Updated, peek_lem, Updated-View, Updated-trans, Updated-refl, same_address,
}
use fuzzer_goal_directed.Random.{Rand, next_bool, next_char}
use fuzzer_goal_directed.Crossover.{Source, byte_or_random, fill_around, fill_mixed}
use fuzzer_goal_directed.Mutation.Block.Overwrite.{overwrite, overwrite-nil, overwrite-cons}

-- The byte of a parent at a position, or the next character drawn where it has none.
abbrev pub picked : Rand → List ℕ → ℕ → ℕ × Rand
picked r bytes j = if ltb j (length bytes) then (get_or bytes j 0, r) else next_char r

-- `n` bytes from position `j` on, each of the parent that the next coin shows.
abbrev pub mixed : Rand → List ℕ → List ℕ → ℕ → ℕ → List ℕ × Rand
mixed r b1 b2 j zero = ([], r)
mixed r b1 b2 j (suc n) =
    let (coin, r1) = next_bool r in
    let (x, r2) = picked r1 (if coin then b1 else b2) j in
    let (rest, r3) = mixed r2 b1 b2 (j + 1) n in (x ∷ rest, r3)

-- `n` bytes from position `j` on, of the first parent below position `idx`, of the other from there.
abbrev pub around : Rand → List ℕ → List ℕ → ℕ → ℕ → ℕ → List ℕ × Rand
around r b1 b2 idx j zero = ([], r)
around r b1 b2 idx j (suc n) =
    let (x, r1) = picked r (if ltb j idx then b1 else b2) j in
    let (rest, r2) = around r1 b1 b2 idx (j + 1) n in (x ∷ rest, r2)

-- Slot `k` holds the bytes of a parent, at the address of `src`, and is not slot `i`.
pub record Parent (m : MemoryManager) (i k : ℕ) (bytes : List ℕ) (src : Source) : Type 0 where
  pub holds : contents m k ≡ some bytes
  pub view : View m k bytes
  pub at : src.0 ≡ some view.address
  pub size : src.1 ≡ length bytes
  pub other : i ≢ k

pub Parent-Updated :
    {m m' : MemoryManager} {i k : ℕ} {b c : List ℕ} {src : Source}
    → IsValid m
    → Parent m i k b src
    → Updated m i c m'
    → m'.memory ≡ m.memory
    → Parent m' i k b src
Parent-Updated {m} {m'} {i} {k} {b} v p u e =
    let kept : contents m' k ≡ some b = ground (arith, u.holds k, p.holds, p.other) in
    let w = contents-View u.valid kept in
    record {
      holds = kept;
      view = w;
      at = p.at ∙ ap some (same_address m m' k p.view w e);
      size = p.size;
      other = p.other;
    }

module _ {m : MemoryManager} {i k : ℕ} {b : List ℕ} {src : Source} (v : IsValid m)
    (p : Parent m i k b src) where
  byte_or_random_lem : (r : Rand) (j : ℕ) → byte_or_random r m src.0 src.1 j ≡ ok (picked r b j)
  unfolding byte_or_random
  byte_or_random_lem r j =
      rw (p.at, p.size)
        (elim (Bool-cases (ltb j (length b))) [
          | inl e ↦ rw (e, peek_lem m k v p.view j (ltb→lt j (length b) e)) refl
          | inr e ↦ rw e refl
        ])

-- The slot holds its bytes overwritten from a position on, the pointers are as they were, and the
-- generator is `r'`.
abbrev pub Filled : MemoryManager → ℕ → List ℕ → Rand → Result (Rand × MemoryManager) → Type 0
Filled m i bytes r' = Returns (λ o. Updated m i bytes o.1 × (o.1.memory ≡ m.memory) × (o.0 ≡ r'))

-- The rest of a loop behind one byte.
pub after_one :
    (m m' : MemoryManager) (i : ℕ) (old : List ℕ) (j x : ℕ) (rest : List ℕ) (r' : Rand)
    {o : Result (Rand × MemoryManager)}
    → Updated m i (set old j x) m'
    → m'.memory ≡ m.memory
    → Filled m' i (overwrite (set old j x) (j + 1) rest) r' o
    → Filled m i (overwrite old j (x ∷ rest)) r' o
after_one m m' i old j x rest r' u s f =
    Returns-mono
      (λ o (u', s', e). (rw (overwrite-cons old j x rest) at (Updated-trans u u'), s' ∙ s, e)) f

-- One round of such a loop, whose parent is at `src`; `f` is what follows.
one_byte :
    (m : MemoryManager) (i : ℕ) {old : List ℕ} (v : IsValid m) (w : View m i old) (k : ℕ)
    (b : List ℕ) (src : Source) (r : Rand) (j : ℕ) (rest : List ℕ) (r' : Rand)
    (f : Rand → MemoryManager → Result (Rand × MemoryManager))
    → Parent m i k b src
    → j < length old
    → ((m' : MemoryManager)
        → Updated m i (set old j (picked r b j).0) m'
        → m'.memory ≡ m.memory
        → Filled m' i
            (overwrite (set old j (picked r b j).0) (j + 1) rest)
            r'
            (f (picked r b j).1 m'))
    → Filled m i
        (overwrite old j ((picked r b j).0 ∷ rest))
        r'
        (do (x, r1) ← byte_or_random r m src.0 src.1 j; m1 ← poke m (some w.address) j x; f r1 m1)
one_byte m i {old} v w k b src r j rest r' f p h g = rw (byte_or_random_lem v p r j) (
    >>=-Returns _ (poke-Updated m i v w j (picked r b j).0 (omega (arith, h)))
      λ m' (u, s). after_one m m' i old j (picked r b j).0 rest r' u s (g m' u s))

pub fill_mixed-Filled :
    (n : ℕ) (m : MemoryManager) (i : ℕ) {old : List ℕ} (v : IsValid m) (w : View m i old)
    (k1 k2 : ℕ) (b1 b2 : List ℕ) (first second : Source) (r : Rand) (j : ℕ)
    → Parent m i k1 b1 first
    → Parent m i k2 b2 second
    → j + n ≤ length old
    → let (bytes, r') = mixed r b1 b2 j n in
      Filled m i (overwrite old j bytes) r' (fill_mixed r m (some w.address) first second j n)
unfolding fill_mixed
fill_mixed-Filled zero m i {old} v w k1 k2 b1 b2 first second r j p1 p2 h =
    returns _ (rw (overwrite-nil old j) (Updated-refl v w), refl, refl)
fill_mixed-Filled (suc n) m i {old} v w k1 k2 b1 b2 first second r j p1 p2 h =
    let r1 = (next_bool r).1 in
    let more : (x : ℕ) (r2 : Rand) (m' : MemoryManager)
        → Updated m i (set old j x) m'
        → m'.memory ≡ m.memory
        → let (bytes, r') = mixed r2 b1 b2 (j + 1) n in
          Filled m' i (overwrite (set old j x) (j + 1) bytes) r'
            (fill_mixed r2 m' (some w.address) first second (j + 1) n) =
      λ x r2 m' u s. rw (same_address m m' i w (Updated-View u) s) (
        fill_mixed-Filled n m' i u.valid (Updated-View u) k1 k2 b1 b2 first second r2 (j + 1)
          (Parent-Updated v p1 u s) (Parent-Updated v p2 u s)
          (omega (arith, h, length-set old j x))) in
    elim (Bool-cases (next_bool r).0) [
      | inl e ↦ rw e (
          let (x, r2) = picked r1 b1 j in
          one_byte m i v w k1 b1 first r1 j _ _ _ p1 (omega (arith, h)) (more x r2))
      | inr e ↦ rw e (
          let (x, r2) = picked r1 b2 j in
          one_byte m i v w k2 b2 second r1 j _ _ _ p2 (omega (arith, h)) (more x r2))
    ]

pub fill_around-Filled :
    (n : ℕ) (m : MemoryManager) (i : ℕ) {old : List ℕ} (v : IsValid m) (w : View m i old)
    (k1 k2 : ℕ) (b1 b2 : List ℕ) (first second : Source) (idx : ℕ) (r : Rand) (j : ℕ)
    → Parent m i k1 b1 first
    → Parent m i k2 b2 second
    → j + n ≤ length old
    → let (bytes, r') = around r b1 b2 idx j n in
      Filled m i (overwrite old j bytes) r' (fill_around r m (some w.address) first second idx j n)
unfolding fill_around
fill_around-Filled zero m i {old} v w k1 k2 b1 b2 first second idx r j p1 p2 h =
    returns _ (rw (overwrite-nil old j) (Updated-refl v w), refl, refl)
fill_around-Filled (suc n) m i {old} v w k1 k2 b1 b2 first second idx r j p1 p2 h =
    let more : (x : ℕ) (r1 : Rand) (m' : MemoryManager)
        → Updated m i (set old j x) m'
        → m'.memory ≡ m.memory
        → let (bytes, r') = around r1 b1 b2 idx (j + 1) n in
          Filled m' i (overwrite (set old j x) (j + 1) bytes) r'
            (fill_around r1 m' (some w.address) first second idx (j + 1) n) =
      λ x r1 m' u s. rw (same_address m m' i w (Updated-View u) s) (
        fill_around-Filled n m' i u.valid (Updated-View u) k1 k2 b1 b2 first second idx r1 (j + 1)
          (Parent-Updated v p1 u s) (Parent-Updated v p2 u s)
          (omega (arith, h, length-set old j x))) in
    elim (Bool-cases (ltb j idx)) [
      | inl e ↦ rw e (
          let (x, r1) = picked r b1 j in
          one_byte m i v w k1 b1 first r j _ _ _ p1 (omega (arith, h)) (more x r1))
      | inr e ↦ rw e (
          let (x, r1) = picked r b2 j in
          one_byte m i v w k2 b2 second r j _ _ _ p2 (omega (arith, h)) (more x r1))
    ]
