-- ===== src/Memory/Bytes.antt =====
-- Reads and writes through the pointer of a slot, as the mutators make them
-- (fuzzer/fuzzer/memory-manager.cpp: `buffer`; fuzzer/fuzzer/mutations.cpp).
use fuzzer_goal_directed.Prelude.{
  ℕ, ◌+◌, ◌-◌, ◌<◌, ◌≡◌, refl, ap, ◌∙◌, some, List, ◌++◌, arith, ltb, ◌==◌, if◌then◌else◌,
  Bool-cases, inl, inr, max, length, length-append, take, take_append_le, take-length, set,
  get_elem?-append, get_or, get_elem?-get_or, length-set, set-append_any, dec_lt,
}
use fuzzer_goal_directed.Result.{Result, ok, Returns, returns, ◌>>=◌}
use fuzzer_goal_directed.OrderedMap.{lookup, assign, lookup-assign}
use fuzzer_goal_directed.Heap.{Pointer, load, store}
use fuzzer_goal_directed.Heap.Laws.{store-live, load-live}
use fuzzer_goal_directed.Memory.{MemoryManager, buffer, slot_length}
use fuzzer_goal_directed.Memory.Invariant.{IsValid, contents, contents-frame, contents-View, View}

-- `p[j] = v` and `p[j]`, on the manager's heap.
unfoldable pub poke : MemoryManager → Pointer → ℕ → ℕ → Result MemoryManager
poke m p j x = do h ← store m.heap p j x; ok (record m { heap = h })

unfoldable pub peek : MemoryManager → Pointer → ℕ → Result ℕ
peek m p j = load m.heap p j

-- Slot `i` holds `bytes` now; every other slot holds what it held.
pub record Updated (m : MemoryManager) (i : ℕ) (bytes : List ℕ) (m' : MemoryManager) : Type 0 where
  pub valid : IsValid m'
  pub holds : (j : ℕ) → contents m' j ≡ (if i == j then some bytes else contents m j)
  pub next_index : m'.next_index ≡ m.next_index
  pub answer : m'.heap.answer ≡ m.heap.answer
  pub refs : m'.refs ≡ m.refs

pub take_front : (bytes pad : List ℕ) → take (length bytes) (bytes ++ pad) ≡ bytes
take_front bytes pad = take_append_le (length bytes) bytes pad (omega arith) ∙ take-length bytes

-- A slot whose bytes are at the front of its block holds them.
View-contents : {m : MemoryManager} {i : ℕ} {b : List ℕ} → View m i b → contents m i ≡ some b
unfolding contents
View-contents {b = b} w = ground (arith, w.memory, w.lengths, w.block, take_front b w.pad)

pub Updated-trans :
    {m m' m'' : MemoryManager} {i : ℕ} {b c : List ℕ}
    → Updated m i b m'
    → Updated m' i c m''
    → Updated m i c m''
Updated-trans {i = i} u w = record {
  valid = w.valid;
  holds = λ j. ground (arith, u.holds j, w.holds j);
  next_index = w.next_index ∙ u.next_index;
  answer = w.answer ∙ u.answer;
  refs = w.refs ∙ u.refs;
}

pub Updated-refl :
    {m : MemoryManager} {i : ℕ} {b : List ℕ} → IsValid m → View m i b → Updated m i b m
Updated-refl {m} {i} {b} v w = record {
  valid = v;
  holds = λ j. elim (Bool-cases (i == j)) [
    | inl e ↦ rw e (ground (arith, View-contents w))
    | inr e ↦ rw e
  ];
  next_index = refl;
  answer = refl;
  refs = refl;
}

pub Updated-View : {m m' : MemoryManager} {i : ℕ} {b : List ℕ} → Updated m i b m' → View m' i b
Updated-View {i = i} u = contents-View u.valid (ground (arith, u.holds i))

module _ (m : MemoryManager) (i : ℕ) {old : List ℕ} (v : IsValid m) (w : View m i old) where
  abbrev reblocked : List ℕ → List (ℕ × ℕ) → MemoryManager
  reblocked b ls = record m {
    lengths = ls;
    heap = record m.heap { blocks = assign w.address b m.heap.blocks };
  }

  module _ (bytes pad : List ℕ) (ls : List (ℕ × ℕ)) (room : 0 < length bytes + length pad)
      (sized : (j : ℕ)
        → lookup j ls ≡ (if i == j then some (length bytes) else lookup j m.lengths)) where
    reblocked-IsValid : IsValid (reblocked (bytes ++ pad) ls)
    reblocked-IsValid = record {
      honest = v.honest;
      started = v.started;
      known = v.known;
      fresh = λ a.
          ground
            (arith, v.fresh a, w.block, lookup-assign w.address a (bytes ++ pad) m.heap.blocks);
      distinct = v.distinct;
      in_step = λ j. ground (arith, v.in_step j, w.memory, sized j);
      backed = λ j a e. ground (
        arith,
        v.backed j a,
        w.memory,
        v.distinct i j w.address,
        sized j,
        lookup-assign w.address a (bytes ++ pad) m.heap.blocks,
        length-append bytes pad,
      );
    }

    contents-reblocked : contents (reblocked (bytes ++ pad) ls) i ≡ some bytes
    unfolding contents
    contents-reblocked = ground (
      arith,
      w.memory,
      sized i,
      lookup-assign w.address w.address (bytes ++ pad) m.heap.blocks,
      take_front bytes pad,
    )

    pub reblocked-Updated : Updated m i bytes (reblocked (bytes ++ pad) ls)
    reblocked-Updated = record {
      valid = reblocked-IsValid;
      holds = λ j. elim (Bool-cases (i == j)) [
        | inl e ↦ ground (arith, contents-reblocked)
        | inr e ↦ rw e (
            contents-frame m (reblocked (bytes ++ pad) ls) j refl (rw (sized j, e)) (λ a f. ground (
              arith,
              v.distinct i j a,
              w.memory,
              lookup-assign w.address a (bytes ++ pad) m.heap.blocks,
            )))
      ];
      next_index = refl;
      answer = refl;
      refs = refl;
    }

  pub buffer-View : buffer m i ≡ some w.address
  unfolding buffer
  buffer-View = ground (arith, w.memory, w.inside)

  pub slot_length-View : slot_length m i ≡ length old
  unfolding slot_length
  slot_length-View = ground (arith, w.lengths, w.inside)

  -- A write into the bytes of the slot, or into the one byte that an empty slot has.
  pub poke-Updated :
      (j x : ℕ)
      → j < max 1 (length old)
      → Returns
          (λ m'. Updated m i (set old j x) m' × (m'.memory ≡ m.memory))
          (poke m (some w.address) j x)
  unfolding poke
  poke-Updated j x h =
      rw
        (
          store-live m.heap w.address j x w.block (omega (arith, length-append old w.pad, w.room)),
          set-append_any old w.pad j x,
        )
        (returns _ (
          reblocked-Updated (set old j x) rest m.lengths
              (ground (arith, w.room, length-set old j x, length-set w.pad (j - length old) x))
              (λ k. ground (arith, w.lengths, length-set old j x)),
          refl,
        ))
    where
      rest : List ℕ
      rest = if ltb j (length old) then w.pad else set w.pad (j - length old) x

  pub peek_lem : (j : ℕ) → j < length old → peek m (some w.address) j ≡ ok (get_or old j 0)
  unfolding peek
  peek_lem j h = rw (
    load-live m.heap w.address j w.block,
    get_elem?-append old w.pad j h,
    get_elem?-get_or old j 0 h,
  )

  -- A read from the block is defined also in the one byte of an empty slot.
  pub peek_in_block :
      (j : ℕ)
      → j < max 1 (length old)
      → Returns (λ x. j < length old → x ≡ get_or old j 0) (peek m (some w.address) j)
  peek_in_block j h = elim (dec_lt j (length old)) [
    | yes l ↦ rw (peek_lem j l) (returns _ (λ _. refl))
    | no n ↦
        unfold peek in
        rw
          (
            load-live m.heap w.address j w.block,
            get_elem?-get_or (old ++ w.pad) j 0 (omega (arith, length-append old w.pad, w.room)),
          )
          (returns _ (λ l. absurd (n l)))
  ]

-- The pointer stays the same as long as the map of pointers does.
pub same_address :
    (m m' : MemoryManager) (i : ℕ) {a b : List ℕ} (w : View m i a) (w' : View m' i b)
    → m'.memory ≡ m.memory
    → w.address ≡ w'.address
same_address m m' i w w' e =
    let f : lookup i m'.memory ≡ lookup i m.memory = ap (lookup i) e in
    ground (arith, w.memory, w'.memory, f)
