-- ===== src/Memory/Invariant.antt =====
-- What holds of a MemoryManager between any two calls (fuzzer/fuzzer/memory-manager.cpp).
use fuzzer_goal_directed.Prelude.{
  take, drop, length-take, length-drop, take-append-drop, ap, sym, ◌∙◌, ℕ, ◌+◌, ◌≤◌, ◌<◌, ◌≡◌, refl,
  Option, none, some, List, ◌++◌, arith, length, inl, inr, ◌⊎◌, Option-cases,
}
use fuzzer_goal_directed.OrderedMap.{lookup}
use fuzzer_goal_directed.Heap.{Heap, Pointer}
use fuzzer_goal_directed.Heap.Laws.{IsFresh, IsHonest}
use fuzzer_goal_directed.Memory.{MemoryManager, init}

-- The entries of one slot in `memory`, `lengths` and `refs`: all three or none, with a count of at
-- least one.
abbrev pub InStep : Option Pointer → Option ℕ → Option ℕ → Type 0
InStep none none none = Unit {0}
InStep (some p) (some n) (some c) = 0 < c
InStep _ _ _ = ⊥

-- A live pointer designates a block that is not empty and holds the slot's length.
abbrev pub Backed : Option ℕ → Option (List ℕ) → Type 0
Backed (some n) (some b) = (n ≤ length b) × (0 < length b)
Backed _ _ = ⊥

pub record IsValid (m : MemoryManager) : Type 0 where
  pub honest : IsHonest m.heap
  pub started : 0 < m.next_index
  pub known : (i : ℕ) → ((0 < i) × (i < m.next_index)) ⊎ (lookup i m.memory ≡ none)
  pub fresh : IsFresh m.heap
  pub distinct :
      (i j a : ℕ) → lookup i m.memory ≡ some (some a) → lookup j m.memory ≡ some (some a) → i ≡ j
  pub in_step : (i : ℕ) → InStep (lookup i m.memory) (lookup i m.lengths) (lookup i m.refs)
  pub backed :
      (i a : ℕ)
      → lookup i m.memory ≡ some (some a)
      → Backed (lookup i m.lengths) (lookup a m.heap.blocks)

pub init-IsValid : (h : Heap) → IsHonest h → IsFresh h → IsValid (init h)
unfolding init lookup
init-IsValid h honest fresh = record {
  honest = honest;
  started = omega arith;
  known = λ i. inr refl;
  fresh = fresh;
  distinct = λ i j a e f. cc;
  in_step = λ i. tt;
  backed = λ i a e. cc;
}

pub next_unused : {m : MemoryManager} → IsValid m → lookup m.next_index m.memory ≡ none
next_unused {m} v = ground (arith, v.known m.next_index)

abbrev prefix : Option ℕ → Option (List ℕ) → Option (List ℕ)
prefix (some n) (some b) = some (take n b)
prefix _ _ = none

abbrev bytes_of : List (ℕ × List ℕ) → Option Pointer → Option ℕ → Option (List ℕ)
bytes_of blocks (some (some a)) l = prefix l (lookup a blocks)
bytes_of blocks (some none) l = none
bytes_of blocks none l = none

-- The abstract view: the bytes of a slot; `none` where the slot is not in use or has a null pointer.
unfoldable pub contents : MemoryManager → ℕ → Option (List ℕ)
contents m i = bytes_of m.heap.blocks (lookup i m.memory) (lookup i m.lengths)

abbrev pub PointerCases : Option Pointer → Type 0
PointerCases o = (o ≡ none) ⊎ ((o ≡ some none) ⊎ ((a : ℕ) × (o ≡ some (some a))))

pub Pointer-cases : (o : Option Pointer) → PointerCases o
Pointer-cases none = inl refl
Pointer-cases (some none) = inr (inl refl)
Pointer-cases (some (some a)) = inr (inr (a, refl))

-- Where the bytes of a slot are: at the front of its block.
pub record View (m : MemoryManager) (i : ℕ) (bytes : List ℕ) : Type 0 where
  pub address : ℕ
  pub pad : List ℕ
  pub inside : (0 < i) × (i < m.next_index)
  pub memory : lookup i m.memory ≡ some (some address)
  pub lengths : lookup i m.lengths ≡ some (length bytes)
  pub block : lookup address m.heap.blocks ≡ some (bytes ++ pad)
  pub room : 0 < length bytes + length pad

view_at :
    {m : MemoryManager} {i : ℕ} {bytes : List ℕ} (a n : ℕ) (b : List ℕ)
    → IsValid m
    → contents m i ≡ some bytes
    → lookup i m.memory ≡ some (some a)
    → lookup i m.lengths ≡ some n
    → lookup a m.heap.blocks ≡ some b
    → View m i bytes
unfolding contents
view_at {m} {i} {bytes} a n b v e p q r = record {
  address = a;
  pad = drop n b;
  inside = ground (arith, v.known i);
  memory = p;
  lengths = rw q (ap some (sized ∙ ap length is_front));
  block = rw r (ap some (sym (take-append-drop n b) ∙ ap (λ x. x ++ drop n b) is_front));
  room = omega (arith, ap length is_front, length-take n b, length-drop n b, fits);
}
  where
    fits : (n ≤ length b) × (0 < length b)
    fits = ground (arith, v.backed i a)

    is_front : take n b ≡ bytes
    is_front = ground arith

    sized : n ≡ length (take n b)
    sized = omega (arith, length-take n b, fits)

pub contents-View :
    {m : MemoryManager} {i : ℕ} {bytes : List ℕ}
    → IsValid m
    → contents m i ≡ some bytes
    → View m i bytes
unfolding contents
contents-View {m} {i} {bytes} v e = elim (Pointer-cases (lookup i m.memory)) [
  | inl p ↦ absurd (ground arith)
  | inr (inl p) ↦ absurd (ground arith)
  | inr (inr (a, p)) ↦ elim (Option-cases (lookup i m.lengths)) [
    | inl q ↦ absurd (ground arith)
    | inr (n, q) ↦ elim (Option-cases (lookup a m.heap.blocks)) [
      | inl r ↦ absurd (ground arith)
      | inr (b, r) ↦ view_at a n b v e p q r
    ]
  ]
]

-- A slot whose entries and block are as they were holds what it held.
pub contents-frame :
    (m m' : MemoryManager) (j : ℕ)
    → lookup j m'.memory ≡ lookup j m.memory
    → lookup j m'.lengths ≡ lookup j m.lengths
    → ((a : ℕ)
        → lookup j m.memory ≡ some (some a)
        → lookup a m'.heap.blocks ≡ lookup a m.heap.blocks)
    → contents m' j ≡ contents m j
unfolding contents
contents-frame m m' j p q r = elim (Pointer-cases (lookup j m.memory)) [
  | inl e ↦ ground arith
  | inr (inl e) ↦ ground arith
  | inr (inr (a, e)) ↦ ground (arith, r a e)
]
