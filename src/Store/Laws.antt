-- ===== src/Store/Laws.antt =====
-- The numbers of the sources and the entries of the elements (fuzzer/common/store.cpp).
use fuzzer_goal_directed.Prelude.{
  ℕ, ◌+◌, ◌≤◌, ◌<◌, ◌≡◌, refl, Option, none, some, List, arith, if◌then◌else◌, ◌==◌,
  bytes_equal_refl, bytes_equal_sound, u32_mod, Option-cases, inl, inr,
}
use fuzzer_goal_directed.OrderedMap.{lookup, lookup-assign}
use fuzzer_goal_directed.Store.{
  StoreImpl, Element, find_source, add_source, get_next_id, add_element, element_at,
}

known_source :
    (s : StoreImpl) (n : List ℕ) (i : ℕ)
    → find_source n s.sources ≡ some i
    → add_source s n ≡ (i, s)
unfolding add_source
known_source s n i e = rw (add_source, e)

found_source :
    (s : StoreImpl) (n : List ℕ)
    → find_source n (add_source s n).1.sources ≡ some (add_source s n).0
unfolding add_source find_source
found_source s n = elim (Option-cases (find_source n s.sources)) [
  | inl e ↦ rw (add_source, e, bytes_equal_refl n)
  | inr (i, e) ↦ rw (add_source, e) e
]

-- A source that is added a second time keeps its number, and the store does not change.
pub add_source_again : (s : StoreImpl) (n : List ℕ) → let r = add_source s n in add_source r.1 n ≡ r
add_source_again s n = known_source (add_source s n).1 n (add_source s n).0 (found_source s n)

-- Every source has a number of its own among those handed out.
pub record Numbered (s : StoreImpl) : Type 0 where
  pub known : (n : List ℕ) (i : ℕ) → find_source n s.sources ≡ some i → (0 < i) × (i ≤ s.global_id)
  pub distinct :
      (n k : List ℕ) (i : ℕ)
      → find_source n s.sources ≡ some i
      → find_source k s.sources ≡ some i
      → n ≡ k

-- A new source gets a number that no other source has, as long as the numbers do not wrap.
pub add_source-Numbered :
    (s : StoreImpl) (n : List ℕ)
    → s.global_id + 1 < u32_mod
    → Numbered s
    → Numbered (add_source s n).1
unfolding add_source get_next_id find_source
add_source-Numbered s n small v = elim (Option-cases (find_source n s.sources)) [
  | inr (i, e) ↦ rw (add_source, e) v
  | inl e ↦
      rw (add_source, e)
        (record {
          known = λ k i f. ground (arith, v.known k i);
          distinct = λ k l i f g. ground (
            arith,
            v.distinct k l i,
            v.known k i,
            v.known l i,
            bytes_equal_sound n k,
            bytes_equal_sound n l,
          );
        })
]

-- An element that is added is found under its number, and no other entry changes; a null pointer
-- is not added.
pub add_element_lem :
    (s : StoreImpl) (i j : ℕ) (e : Option Element)
    → lookup j (add_element s i e).elements ≡ elim e [
      | none ↦ lookup j s.elements
      | some x ↦ if i == j then some (some x) else lookup j s.elements
    ]
unfolding add_element
add_element_lem s i j none = refl
add_element_lem s i j (some x) = lookup-assign i j (some x) s.elements

-- Looking an element up changes no entry but that of a missing key, which becomes null.
pub element_at_lem :
    (s : StoreImpl) (i j : ℕ)
    → lookup j (element_at s i).1.elements
      ≡ (if i == j then some (element_at s i).0 else lookup j s.elements)
unfolding element_at
element_at_lem s i j = elim (Option-cases (lookup i s.elements)) [
  | inl e ↦ rw (element_at, e) (lookup-assign i j none s.elements)
  | inr (x, e) ↦ rw (element_at, e) (ground (arith, e))
]
