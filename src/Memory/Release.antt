-- ===== src/Memory/Release.antt =====
-- Reference counts and the end of a slot (fuzzer/fuzzer/memory-manager.cpp): `dismiss`,
-- `increase_count`, `decrease_count` and `force_clean`.
use fuzzer_goal_directed.Prelude.{
  ℕ, ◌+◌, ◌<◌, ◌≡◌, refl, false, none, some, List, [], ◌∷◌, arith, u64_mod, ◌==◌, if◌then◌else◌,
  Option-cases, Bool-cases, ◌-◌, ◌∙◌, ltb, not, ◌&&◌, inl, inr, sub64,
}
use fuzzer_goal_directed.Result.{Returns, returns, Returns-mono, >>=-Returns}
use fuzzer_goal_directed.OrderedMap.{lookup, assign, erase, keys, lookup-assign, lookup-erase}
use fuzzer_goal_directed.Heap.{Heap}
use fuzzer_goal_directed.Heap.Laws.{delete_array-live, delete_array-null}
use fuzzer_goal_directed.Memory.{
  MemoryManager, dismiss, increase_count, decrease_count, is_unknown, force_clean, dismiss_all,
  inactive, contains, uninit_index,
}
use fuzzer_goal_directed.Memory.Invariant.{IsValid, contents, contents-frame, Pointer-cases}

abbrev removed : MemoryManager → ℕ → Heap → MemoryManager
removed m i h = record m {
  refs = erase i m.refs;
  memory = erase i m.memory;
  lengths = erase i m.lengths;
  heap = h;
}

module _ (m : MemoryManager) (i : ℕ) (v : IsValid m) where
  -- Without a pointer there is no block to delete.
  removed_null-IsValid : lookup i m.memory ≡ some none → IsValid (removed m i m.heap)
  removed_null-IsValid e = record {
    honest = v.honest;
    started = v.started;
    known = λ j. ground (arith, v.known j, lookup-erase i j m.memory);
    fresh = v.fresh;
    distinct = λ j k a f g.
        ground (arith, v.distinct j k a, lookup-erase i j m.memory, lookup-erase i k m.memory);
    in_step = λ j. ground (
      arith,
      v.in_step j,
      lookup-erase i j m.memory,
      lookup-erase i j m.lengths,
      lookup-erase i j m.refs,
    );
    backed = λ j a f.
        ground (arith, v.backed j a, lookup-erase i j m.memory, lookup-erase i j m.lengths);
  }

  removed-IsValid :
      (a : ℕ)
      → lookup i m.memory ≡ some (some a)
      → IsValid (removed m i (record m.heap { blocks = erase a m.heap.blocks }))
  removed-IsValid a e = record {
    honest = v.honest;
    started = v.started;
    known = λ j. ground (arith, v.known j, lookup-erase i j m.memory);
    fresh = λ b. ground (arith, v.fresh b, lookup-erase a b m.heap.blocks);
    distinct = λ j k b f g.
        ground (arith, v.distinct j k b, lookup-erase i j m.memory, lookup-erase i k m.memory);
    in_step = λ j. ground (
      arith,
      v.in_step j,
      lookup-erase i j m.memory,
      lookup-erase i j m.lengths,
      lookup-erase i j m.refs,
    );
    backed = λ j b f. ground (
      arith,
      v.backed j b,
      v.distinct i j a,
      lookup-erase i j m.memory,
      lookup-erase i j m.lengths,
      lookup-erase a b m.heap.blocks,
    );
  }

  live_block :
      (a : ℕ) → lookup i m.memory ≡ some (some a) → (b : List ℕ) × (lookup a m.heap.blocks ≡ some b)
  live_block a e = elim (Option-cases (lookup a m.heap.blocks)) [
    | inl f ↦ absurd (ground (arith, v.backed i a))
    | inr p ↦ p
  ]

-- The slot is gone, and all others hold what they held.
pub record Freed (m : MemoryManager) (i : ℕ) (m' : MemoryManager) : Type 0 where
  pub valid : IsValid m'
  pub gone : (j : ℕ) → contents m' j ≡ (if i == j then none else contents m j)

module _ (m : MemoryManager) (i : ℕ) (v : IsValid m) where
  -- In a valid manager, `dismiss` does not fault and leaves a valid one, in which the slot holds nothing
  -- and every other slot what it held.
  pub dismiss-Freed : Returns (Freed m i) (dismiss m i)
  unfolding dismiss contents
  dismiss-Freed = elim (Bool-cases (i == uninit_index)) [
    | inl e ↦ rw e (returns m (record { valid = v; gone = λ j. ground (arith, v.known j) }))
    | inr e ↦ rw e (elim (Pointer-cases (lookup i m.memory)) [
      | inl p ↦ rw p (returns m (record { valid = v; gone = λ j. ground arith }))
      | inr (inl p) ↦
          rw (p, delete_array-null m.heap)
            (returns _ (record {
              valid = removed_null-IsValid m i v p;
              gone = λ j. ground (arith, lookup-erase i j m.memory, lookup-erase i j m.lengths);
            }))
      | inr (inr (a, p)) ↦
          let (b, q) = live_block m i v a p in
          rw (p, delete_array-live m.heap a q)
            (returns _ (record {
              valid = removed-IsValid m i v a p;
              gone = λ j. elim (Bool-cases (i == j)) [
                | inl f ↦ rw f (ground (arith, lookup-erase i j m.memory))
                | inr f ↦ rw f (
                    contents-frame m
                      (removed m i (record m.heap { blocks = erase a m.heap.blocks })) j
                      (ground (arith, lookup-erase i j m.memory))
                      (ground (arith, lookup-erase i j m.lengths))
                      (λ b' g. ground (arith, lookup-erase a b' m.heap.blocks, v.distinct i j a)))
              ];
            }))
    ])
  ]

  -- One reference more keeps the manager valid, as long as the count does not wrap.
  pub increase_count-IsValid :
      (r : ℕ) → lookup i m.refs ≡ some r → r + 1 < u64_mod → IsValid (increase_count m i)
  unfolding increase_count
  increase_count-IsValid r e small = record {
    honest = ground (arith, v.honest);
    started = ground (arith, v.started);
    known = λ j. ground (arith, v.known j);
    fresh = λ a. ground (arith, v.fresh a);
    distinct = λ j k a. ground (arith, v.distinct j k a);
    in_step = λ j. ground (arith, v.in_step j, lookup-assign i j (r + 1) m.refs);
    backed = λ j a. ground (arith, v.backed j a);
  }

  kept-IsValid :
      (r : ℕ)
      → lookup i m.refs ≡ some r
      → 0 < r - 1
      → IsValid (record m { refs = assign i (r - 1) m.refs })
  kept-IsValid r e h = record {
    honest = v.honest;
    started = v.started;
    known = v.known;
    fresh = v.fresh;
    distinct = v.distinct;
    in_step = λ j. ground (arith, v.in_step j, lookup-assign i j (r - 1) m.refs);
    backed = v.backed;
  }

  counted_known : (r : ℕ) → lookup i m.refs ≡ some r → is_unknown m i ≡ false
  counted_known r e = ground (arith, v.in_step i, v.known i)

  -- In a valid manager, `decrease_count` of a slot with one reference does not fault and leaves a valid
  -- one, in which the slot holds nothing and every other slot what it held.
  pub decrease_count-Freed : lookup i m.refs ≡ some 1 → Returns (Freed m i) (decrease_count m i)
  unfolding decrease_count
  decrease_count-Freed e = rw (counted_known 1 e, e) dismiss-Freed

  -- In a valid manager, `decrease_count` of a slot with more than one reference takes one off: the
  -- manager stays valid, and every slot holds what it held.
  pub decrease_count_lem :
      (r : ℕ)
      → lookup i m.refs ≡ some r
      → 1 < r
      → r < u64_mod
      → Returns
          (λ m'.
            IsValid m'
            × (lookup i m'.refs ≡ some (r - 1))
            × ((j : ℕ) → contents m' j ≡ contents m j))
          (decrease_count m i)
  unfolding decrease_count contents
  decrease_count_lem r e more small =
      let g : sub64 r 1 ≡ r - 1 = omega arith in
      let k : ltb (r - 1) 1 ≡ false = ground (arith, more) in
      rw (counted_known r e, e, g, k)
        (returns _ (
          kept-IsValid r e (omega arith),
          ground (arith, lookup-assign i i (r - 1) m.refs),
          λ j. refl,
        ))

  -- The manager that `decrease_count` leaves then, written out.
  pub decrease_count_shared :
      (r : ℕ)
      → lookup i m.refs ≡ some r
      → 1 < r
      → r < u64_mod
      → Returns
          (λ m'. (m' ≡ record m { refs = assign i (r - 1) m.refs }) × IsValid m')
          (decrease_count m i)
  unfolding decrease_count
  decrease_count_shared r e more small =
      let g : sub64 r 1 ≡ r - 1 = omega arith in
      let k : ltb (r - 1) 1 ≡ false = ground (arith, more) in
      rw (counted_known r e, e, g, k) (returns _ (refl, kept-IsValid r e (omega arith)))

module _ (active : List ℕ) where
  dismiss_all_lem :
      (is : List ℕ) (m : MemoryManager)
      → IsValid m
      → Returns
          (λ m'.
            IsValid m' × ((j : ℕ) → contents m' j ≡ (if contains j is then none else contents m j)))
          (dismiss_all m is)
  unfolding dismiss_all contains
  dismiss_all_lem [] m v = returns m (v, λ j. refl)
  dismiss_all_lem (i ∷ is) m v =
      >>=-Returns (λ m'. dismiss_all m' is) (dismiss-Freed m i v)
        λ m' f.
          Returns-mono (λ m'' g. (g.0, λ j. ground (arith, g.1 j, f.gone j)))
            (dismiss_all_lem is m' f.valid)

  contains-inactive :
      (j : ℕ) (is : List ℕ)
      → contains j (inactive active is) ≡ (contains j is && not (contains j active))
  unfolding inactive contains
  contains-inactive j [] = refl
  contains-inactive j (i ∷ is) = ground (arith, contains-inactive j is, contains-inactive i is)

lookup-keys {ℓ} :
    {V : Type ℓ} (j : ℕ) (e : List (ℕ × V)) → contains j (keys e) ≡ false → lookup j e ≡ none
unfolding lookup contains
lookup-keys j [] h = refl
lookup-keys j ((k, x) ∷ e) h = ground (arith, lookup-keys j e)

-- In a valid manager, `force_clean` does not fault and leaves a valid one, in which the active slots
-- hold what they held, and no other slot holds bytes.
pub force_clean_lem :
    (m : MemoryManager) (active : List ℕ)
    → IsValid m
    → Returns
        (λ m'.
          IsValid m'
          × ((j : ℕ) → contents m' j ≡ (if contains j active then contents m j else none)))
        (force_clean m active)
unfolding force_clean
force_clean_lem m active v =
    Returns-mono
      (λ m' g. (g.0, λ j. g.1 j ∙ rw (contains-inactive active j (keys m.refs)) (cases j)))
      (dismiss_all_lem active (inactive active (keys m.refs)) m v)
  where
    unreferenced : (j : ℕ) → contains j (keys m.refs) ≡ false → contents m j ≡ none
    unreferenced j h = unfold contents in ground (arith, v.in_step j, lookup-keys j m.refs h)

    cases :
        (j : ℕ)
        → (if contains j (keys m.refs) && not (contains j active) then none else contents m j)
          ≡ (if contains j active then contents m j else none)
    cases j = ground (arith, unreferenced j)
