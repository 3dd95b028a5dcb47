-- ===== src/OrderedMap.antt =====
-- `std::map` with numeric keys: an association list in ascending order of the keys.
use fuzzer_goal_directed.Prelude.{
  ℕ, suc, ◌≤◌, ◌≡◌, refl, Option, none, some, List, [], ◌∷◌, arith, ltb, ◌==◌, if◌then◌else◌,
  length, map,
}

module _ {ℓ} {V : Type ℓ} where
  -- `find`
  unfoldable pub lookup : ℕ → List (ℕ × V) → Option V
  lookup k [] = none
  lookup k ((j, v) ∷ m) = if j == k then some v else lookup k m

  -- `m[k] = v`: replaces the value of a key that is there.
  unfoldable pub assign : ℕ → V → List (ℕ × V) → List (ℕ × V)
  assign k v [] = (k, v) ∷ []
  assign k v ((j, w) ∷ m) =
      let rest = assign k v m in
      if ltb k j then (k, v) ∷ (j, w) ∷ m else if j == k then (k, v) ∷ m else (j, w) ∷ rest

  -- `insert`: keeps the value of a key that is there.
  unfoldable pub insert : ℕ → V → List (ℕ × V) → List (ℕ × V)
  insert k v m = elim (lookup k m) [ none ↦ assign k v m | some w ↦ m ]

  unfoldable pub erase : ℕ → List (ℕ × V) → List (ℕ × V)
  erase k [] = []
  erase k ((j, v) ∷ m) = let rest = erase k m in if j == k then rest else (j, v) ∷ rest

  abbrev pub keys : List (ℕ × V) → List ℕ
  keys = map (λ e. e.0)

  pub lookup-assign :
      (k j : ℕ) (v : V) (m : List (ℕ × V))
      → lookup j (assign k v m) ≡ (if k == j then some v else lookup j m)
  unfolding lookup assign
  lookup-assign k j v [] = refl
  lookup-assign k j v ((i, w) ∷ m) = ground (arith, lookup-assign k j v m)

  pub lookup-erase :
      (k j : ℕ) (m : List (ℕ × V)) → lookup j (erase k m) ≡ (if k == j then none else lookup j m)
  unfolding lookup erase
  lookup-erase k j [] = ground arith
  lookup-erase k j ((i, w) ∷ m) = ground (arith, lookup-erase k j m)

  -- A key that is there already keeps its value.
  pub lookup-insert :
      (k j : ℕ) (v : V) (m : List (ℕ × V))
      → lookup k m ≡ none
      → lookup j (insert k v m) ≡ (if k == j then some v else lookup j m)
  unfolding insert
  lookup-insert k j v m h = ground (arith, lookup-assign k j v m)

  -- The keys ascend strictly, from above `b`.
  abbrev pub Ascends : ℕ → List (ℕ × V) → Type 0
  Ascends b [] = Unit {0}
  Ascends b ((j, v) ∷ m) = (b ≤ j) × Ascends (suc j) m

  pub assign-Ascends :
      (b k : ℕ) (v : V) (m : List (ℕ × V)) → b ≤ k → Ascends b m → Ascends b (assign k v m)
  unfolding assign
  assign-Ascends b k v [] h a = (h, tt)
  assign-Ascends b k v ((j, w) ∷ m) h a = ground (arith, assign-Ascends (suc j) k v m)

  pub Ascends-mono : (b c : ℕ) (m : List (ℕ × V)) → b ≤ c → Ascends c m → Ascends b m
  Ascends-mono b c [] h a = tt
  Ascends-mono b c ((j, w) ∷ m) h a = (omega arith, a.1)

  pub erase-Ascends : (b k : ℕ) (m : List (ℕ × V)) → Ascends b m → Ascends b (erase k m)
  unfolding erase
  erase-Ascends b k [] a = tt
  erase-Ascends b k ((j, w) ∷ m) a =
      ground (arith, erase-Ascends (suc j) k m a.1, Ascends-mono b (suc j) (erase k m))

  pub length-assign :
      (k : ℕ) (v : V) (m : List (ℕ × V))
      → lookup k m ≡ none
      → length (assign k v m) ≡ suc (length m)
  unfolding lookup assign
  length-assign k v [] h = refl
  length-assign k v ((j, w) ∷ m) h = ground (arith, length-assign k v m)

  pub length-insert :
      (k : ℕ) (v : V) (m : List (ℕ × V))
      → lookup k m ≡ none
      → length (insert k v m) ≡ suc (length m)
  unfolding insert
  length-insert k v m h = ground (arith, h, length-assign k v m)

  length-erase_le : (k : ℕ) (m : List (ℕ × V)) → length (erase k m) ≤ length m
  unfolding erase
  length-erase_le k [] = omega arith
  length-erase_le k ((j, v) ∷ m) = ground (arith, length-erase_le k m)

  -- Erasing a key that is there makes a map shorter.
  pub length-erase :
      (k : ℕ) (v : V) (m : List (ℕ × V)) → lookup k m ≡ some v → suc (length (erase k m)) ≤ length m
  unfolding lookup erase
  length-erase k v [] h = cc
  length-erase k v ((j, w) ∷ m) h = ground (arith, length-erase k v m, length-erase_le k m)

  pub assign-assign :
      (k : ℕ) (v w : V) (m : List (ℕ × V)) → assign k v (assign k w m) ≡ assign k v m
  unfolding assign
  assign-assign k v w [] = ground arith
  assign-assign k v w ((j, x) ∷ m) = ground (arith, assign-assign k v w m)
