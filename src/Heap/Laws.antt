-- ===== src/Heap/Laws.antt =====
-- What the operations on the C++ heap do, as equations that leave the operations shut.
use fuzzer_goal_directed.Prelude.{
  ℕ, suc, ◌+◌, ◌≤◌, ◌<◌, ◌≡◌, refl, Option, none, some, List, ◌++◌, arith, ◌==◌, if◌then◌else◌,
  length, Option-cases, inl, inr, get_elem?, set, take, drop, length-take, length-drop, le→leb,
  lt→ltb,
}
use fuzzer_goal_directed.Result.{ok, or_fault, out_of_bounds}
use fuzzer_goal_directed.OrderedMap.{lookup, assign, erase, lookup-assign}
use fuzzer_goal_directed.Heap.{
  Heap, Pointer, Provides, allocated, new_array, block_of, delete_array, load, store, read_range,
  write_range, memmove,
}

abbrev pub IsFresh : Heap → Type 0
IsFresh h = (a : ℕ) → h.next_address ≤ a → lookup a h.blocks ≡ none

-- What `new[]` documents: a block of the size that was asked for, or null.
abbrev pub Sized : ℕ → Option (List ℕ) → Type 0
Sized n none = Unit {0}
Sized n (some b) = length b ≡ n

abbrev pub IsHonest : Heap → Type 0
IsHonest h = (c n : ℕ) → Sized n (h.answer c n)

abbrev address_of : ℕ → Option (List ℕ) → Pointer
address_of a none = none
address_of a (some b) = some a

module _ (h : Heap) (n : ℕ) where
  pub blocks-new_array :
      (a : ℕ)
      → IsFresh h
      → lookup a (new_array h n).1.blocks
        ≡ (if h.next_address == a then h.answer h.next_address n else lookup a h.blocks)
  unfolding new_array
  blocks-new_array a f = elim (Option-cases (h.answer h.next_address n)) [
    | inl e ↦ rw (e, allocated) (ground (arith, f a))
    | inr (b, e) ↦ rw (e, allocated) (lookup-assign h.next_address a b h.blocks)
  ]

  pub new_array_pointer : (new_array h n).0 ≡ address_of h.next_address (h.answer h.next_address n)
  unfolding new_array
  new_array_pointer = ground arith

  pub answer-new_array : (new_array h n).1.answer ≡ h.answer
  unfolding new_array
  answer-new_array = ground arith

  pub next_address-new_array : (new_array h n).1.next_address ≡ suc h.next_address
  unfolding new_array
  next_address-new_array = ground arith

-- `delete[]` of a live block.
pub delete_array-live :
    (h : Heap) (a : ℕ) {b : List ℕ}
    → lookup a h.blocks ≡ some b
    → delete_array h (some a) ≡ ok (record h { blocks = erase a h.blocks })
unfolding delete_array block_of
delete_array-live h a e = rw e

pub delete_array-null : (h : Heap) → delete_array h none ≡ ok h
unfolding delete_array
delete_array-null h = refl

-- `memmove` between live blocks, within their bounds.
pub memmove-live :
    (h : Heap) (a b ds ss n : ℕ) {src dst : List ℕ}
    → lookup a h.blocks ≡ some dst
    → lookup b h.blocks ≡ some src
    → ss + n ≤ length src
    → ds + n ≤ length dst
    → memmove h (some a) ds (some b) ss n
      ≡ ok (record h {
        blocks = assign a (take ds dst ++ (take n (drop ss src) ++ drop (ds + n) dst)) h.blocks;
      })
unfolding memmove read_range write_range block_of
memmove-live h a b ds ss n {src} {dst} p q hs hd =
    let sized : length (take n (drop ss src)) ≡ n =
      omega (arith, length-take n (drop ss src), length-drop ss src) in
    rw (q, le→leb _ _ hs, p, sized, le→leb _ _ hd)

pub store-live :
    (h : Heap) (a j x : ℕ) {b : List ℕ}
    → lookup a h.blocks ≡ some b
    → j < length b
    → store h (some a) j x ≡ ok (record h { blocks = assign a (set b j x) h.blocks })
unfolding store block_of
store-live h a j x e l = rw (e, lt→ltb _ _ l)

pub load-live :
    (h : Heap) (a j : ℕ) {b : List ℕ}
    → lookup a h.blocks ≡ some b
    → load h (some a) j ≡ or_fault (get_elem? b j) out_of_bounds
unfolding load block_of
load-live h a j e = rw e

pub new_array-supplied :
    (h : Heap) (n : ℕ) {b : List ℕ}
    → h.answer h.next_address n ≡ some b
    → new_array h n ≡ (
      some h.next_address,
      record h { next_address = suc h.next_address; blocks = assign h.next_address b h.blocks },
    )
unfolding new_array
new_array-supplied h n e = rw e

pub Provides-of_answer : (h h' : Heap) → h'.answer ≡ h.answer → Provides h → Provides h'
Provides-of_answer h h' e p = λ c n. rw e (p c n)

pub read_range-live :
    (h : Heap) (a start n : ℕ) {b : List ℕ}
    → lookup a h.blocks ≡ some b
    → start + n ≤ length b
    → read_range h (some a) start n ≡ ok (take n (drop start b))
unfolding read_range block_of
read_range-live h a start n e l = rw (e, le→leb _ _ l)

pub write_range-live :
    (h : Heap) (a start : ℕ) (bytes : List ℕ) {b : List ℕ}
    → lookup a h.blocks ≡ some b
    → start + length bytes ≤ length b
    → write_range h (some a) start bytes
      ≡ ok (record h {
        blocks = assign a (take start b ++ (bytes ++ drop (start + length bytes) b)) h.blocks;
      })
unfolding write_range block_of
write_range-live h a start bytes e l = rw (e, le→leb _ _ l)
