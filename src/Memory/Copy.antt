-- ===== src/Memory/Copy.antt =====
-- New slots with given bytes (fuzzer/fuzzer/memory-manager.cpp: `create`, `copy`).
use fuzzer_goal_directed.Prelude.{
  ℕ, ◌+◌, ◌<◌, ◌≤◌, ◌≡◌, refl, ◌∙◌, false, some, List, [], ◌∷◌, ◌++◌, arith, u64_mod, ◌==◌,
  if◌then◌else◌, Bool-cases, inl, inr, length, length-append, take, take_front_append,
  drop_front_append, length-take, add64-small, lt→ltb, le→ltb, dec_lt,
}
use native.Mathlib.Nat.{zero-add}
use fuzzer_goal_directed.Result.{Returns, returns, >>=-Returns}
use fuzzer_goal_directed.OrderedMap.{lookup}
use fuzzer_goal_directed.Heap.{Provides, memmove}
use fuzzer_goal_directed.Heap.Laws.{new_array_pointer, answer-new_array, memmove-live}
use fuzzer_goal_directed.Memory.{MemoryManager, create, adapted_size, copy}
use fuzzer_goal_directed.Memory.Invariant.{IsValid, contents, contents-frame, contents-View, View}
use fuzzer_goal_directed.Memory.Create.{
  create_memory, create_lengths, create_refs, new_block, create-IsValid,
}
use fuzzer_goal_directed.Memory.Bytes.{Updated, slot_length-View, reblocked-Updated}
use fuzzer_goal_directed.Memory.Resize.{known_slot}

-- `m'` has one slot more, number `m.next_index`, which holds `bytes`; the others hold what they held.
pub record Grown (m : MemoryManager) (bytes : List ℕ) (m' : MemoryManager) : Type 0 where
  pub valid : IsValid m'
  pub holds : (j : ℕ) → contents m' j ≡ (if m.next_index == j then some bytes else contents m j)
  pub next_index : m'.next_index ≡ m.next_index + 1
  pub answer : m'.heap.answer ≡ m.heap.answer
  pub refs : (j : ℕ) → lookup j m'.refs ≡ (if m.next_index == j then some 1 else lookup j m.refs)

nil_eq : (xs ys : List ℕ) → length xs ≤ 0 → length ys ≤ 0 → xs ≡ ys
nil_eq [] [] h k = refl
nil_eq (x ∷ xs) ys h k = elim h [ ]
nil_eq [] (y ∷ ys) h k = elim k [ ]

module _ (m : MemoryManager) (n : ℕ) (small : m.next_index + 1 < u64_mod) (v : IsValid m) where
  -- In a valid manager with a slot number left, `create` makes a slot of the length asked for with the
  -- bytes that the heap gave, if it gave some; no other slot changes.
  pub create-Grown :
      {b : List ℕ}
      → m.heap.answer m.heap.next_address (adapted_size n) ≡ some b
      → Grown m (take n b) (create m n).1
  unfolding create contents
  create-Grown {b} e = record {
    valid = create-IsValid m n small v;
    holds = λ j. elim (Bool-cases (m.next_index == j)) [
      | inl f ↦ ground (
        arith,
        create_memory m n small v j,
        create_lengths m n small v j,
        new_block m n small v m.heap.next_address,
        new_array_pointer m.heap (adapted_size n),
      )
      | inr f ↦ rw f (
          contents-frame m (create m n).1 j (rw (create_memory m n small v j, f))
            (rw (create_lengths m n small v j, f))
            (λ a g. ground (arith, v.backed j a, v.fresh a, new_block m n small v a)))
    ];
    next_index = add64-small m.next_index 1 small;
    answer = answer-new_array m.heap (adapted_size n);
    refs = create_refs m n small v;
  }

  pub create-index : (create m n).0.index ≡ m.next_index
  unfolding create
  create-index = refl

  pub create-length : (create m n).0.length ≡ n
  unfolding create
  create-length = refl

-- An update of the newest slot makes it a new slot with the other bytes.
pub Grown-Updated :
    {m m' m'' : MemoryManager} {b c : List ℕ}
    → Grown m b m'
    → Updated m' m.next_index c m''
    → Grown m c m''
Grown-Updated g u = record {
  valid = u.valid;
  holds = λ j. ground (arith, u.holds j, g.holds j);
  next_index = u.next_index ∙ g.next_index;
  answer = u.answer ∙ g.answer;
  refs = λ j. rw u.refs (g.refs j);
}

pub Grown-View : {m m' : MemoryManager} {b : List ℕ} → Grown m b m' → View m' m.next_index b
Grown-View {m} g = contents-View g.valid (ground (arith, g.holds m.next_index))

module _ (m : MemoryManager) (n : ℕ) (small : m.next_index + 1 < u64_mod) (v : IsValid m)
    (blank : List ℕ) (sized : length blank ≡ n) (g : Grown m blank (create m n).1) where
  new_pointer : (create m n).0.ptr ≡ some (Grown-View g).address
  new_pointer = ground (arith, create_memory m n small v m.next_index, (Grown-View g).memory)

  -- `memcpy` of `n` bytes into the new slot.
  pub filled :
      (a : ℕ) (bytes pad : List ℕ)
      → lookup a (create m n).1.heap.blocks ≡ some (bytes ++ pad)
      → length bytes ≡ n
      → Returns
          (λ h. Grown m bytes (record (create m n).1 { heap = h }))
          (memmove (create m n).1.heap (create m n).0.ptr 0 (some a) 0 n)
  filled a bytes pad e k =
      let w = Grown-View g in
      rw
        (
          new_pointer,
          memmove-live (create m n).1.heap w.address a 0 0 n w.block e
              (omega (arith, length-append bytes pad)) (omega (arith, length-append blank w.pad)),
          take_front_append n bytes pad k,
          zero-add n,
          drop_front_append n blank w.pad sized,
        )
        (returns _ (
          Grown-Updated g (
            reblocked-Updated (create m n).1 m.next_index g.valid w bytes w.pad
              (create m n).1.lengths (omega (arith, w.room)) (λ j. ground (arith, w.lengths)))))

module _ (m : MemoryManager) (i : ℕ) {old : List ℕ} (small : m.next_index + 1 < u64_mod)
    (v : IsValid m) (e : contents m i ≡ some old) where
  -- In a valid manager with memory on the heap and a slot number left, a deep copy of a slot with bytes
  -- does not fault: it is a new slot with the same bytes, and no other slot changes.
  pub copy-Grown :
      Provides m.heap
      → Returns {A = ℕ × MemoryManager}
          (λ r. (r.0 ≡ m.next_index) × Grown m old r.1)
          (copy m i false)
  unfolding copy
  copy-Grown supply =
      let (b, answered, size) = supply m.heap.next_address (adapted_size (length old)) in
      let w = contents-View v e in
      let g = create-Grown m (length old) small v answered in
      let blank_sized : length (take (length old) b) ≡ length old =
        ground (arith, length-take (length old) b, size) in
      let source =
        contents-View {m = (create m (length old)).1} {i = i} {bytes = old} g.valid
          (ground (arith, g.holds i, w.inside, e)) in
      rw
        (
          known_slot w,
          slot_length-View m i v w,
          create-length m (length old) small v,
          create-index m (length old) small v,
        )
        (elim (dec_lt 0 (length old)) [
          | yes p ↦
              rw (lt→ltb 0 (length old) p, source.memory)
                (>>=-Returns _
                  (filled m (length old) small v (take (length old) b) blank_sized g source.address
                    old source.pad source.block refl)
                  λ h k. returns _ (refl, k))
          | no p ↦ rw (le→ltb (length old) 0 (omega arith)) (
              returns _ (
                refl,
                let f : take (length old) b ≡ old =
                      nil_eq (take (length old) b) old (omega arith) (omega arith) in
                    rw f at g,
              ))
        ])
