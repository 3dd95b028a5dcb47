-- ===== src/Mating/Laws.antt =====
-- What the strategies choose (fuzzer/fuzzer/mating-strategy.cpp).
use fuzzer_goal_directed.Prelude.{
  ℕ, zero, suc, ◌+◌, ◌/◌, ◌%◌, ◌<◌, ◌≡◌, ◌≢◌, ◌⊎◌, Bool, true, false, not, none, some, List, [],
  ◌∷◌, arith, ltb, ◌==◌, ◌&&◌, Option-cases, Bool-cases, inl, inr,
}
use fuzzer_goal_directed.OrderedMap.{lookup, insert, lookup-insert, lookup-assign}
use fuzzer_goal_directed.Memory.{contains}
use fuzzer_goal_directed.Random.{Rand, next_number}
use fuzzer_goal_directed.Random.Laws.{next_number-lt}
use fuzzer_goal_directed.Mating.{
  IndexMap, draw_pairs, uniform_mates, PairwiseScore, sort_bigger, indices_from, erase_index,
  mate_closest, closeness,
}

-- Both indices of every pair are below the size of the population.
abbrev pub AllBelow : ℕ → IndexMap → Type 0
AllBelow size pairs = (i j : ℕ) → lookup i pairs ≡ some j → (i < size) × (j < size)

insert-AllBelow :
    (size a b : ℕ) (pairs : IndexMap)
    → a < size
    → b < size
    → AllBelow size pairs
    → AllBelow size (insert a b pairs)
unfolding insert
insert-AllBelow size a b pairs h k all i j e = elim (Option-cases (lookup a pairs)) [
  | inl f ↦ ground (arith, f, lookup-assign a i b pairs, all i j)
  | inr (c, f) ↦ ground (arith, f, all i j)
]

draw_pairs-AllBelow :
    (size rounds : ℕ) (r : Rand) (pairs : IndexMap)
    → 0 < size
    → AllBelow size pairs
    → AllBelow size (draw_pairs r size rounds pairs).0
unfolding draw_pairs
draw_pairs-AllBelow size zero r pairs h all = all
draw_pairs-AllBelow size (suc rounds) r pairs h all =
    let r1 = (next_number r size).1 in
    draw_pairs-AllBelow size rounds (next_number r1 size).1
      (insert (next_number r size).0 (next_number r1 size).0 pairs) h
      (insert-AllBelow size (next_number r size).0 (next_number r1 size).0 pairs
        (omega (arith, next_number-lt r size)) (omega (arith, next_number-lt r1 size)) all)

-- The uniform strategy mates individuals of the population only.
pub uniform_mates-AllBelow : (r : Rand) (size : ℕ) → AllBelow size (uniform_mates r size).0
unfolding uniform_mates lookup
uniform_mates-AllBelow r zero = λ i j e. cc
uniform_mates-AllBelow r (suc n) =
    draw_pairs-AllBelow (suc n) (suc n / 2 + suc n % 2) r [] (omega arith) (λ i j e. cc)

-- No index is in two pairs, or twice in one.
pub record IsMatching (pairs : IndexMap) : Type 0 where
  pub other : (i j : ℕ) → lookup i pairs ≡ some j → i ≢ j
  pub once : (i j : ℕ) → lookup i pairs ≡ some j → lookup j pairs ≡ none
  pub injective : (i k j : ℕ) → lookup i pairs ≡ some j → lookup k pairs ≡ some j → i ≡ k

-- A matching of indices below `size` that are not free any more.
pub record Matched (size : ℕ) (free : ℕ → Bool) (pairs : IndexMap) : Type 0 where
  pub matching : IsMatching pairs
  pub below : AllBelow size pairs
  pub taken : (i j : ℕ) → lookup i pairs ≡ some j → (free i ≡ false) × (free j ≡ false)

module _ {size : ℕ} {free : ℕ → Bool} {pairs : IndexMap} (m : Matched size free pairs) where
  pub unused : (a : ℕ) → free a ≡ true → lookup a pairs ≡ none
  unused a f = elim (Option-cases (lookup a pairs)) [
    | inl e ↦ e
    | inr (j, e) ↦ ground (arith, f, m.taken a j e)
  ]

  not_second : (a k : ℕ) → free a ≡ true → lookup k pairs ≡ some a → ⊥
  not_second a k f e = ground (arith, f, m.taken k a e)

  module _ (a b : ℕ) (f : free a ≡ true) (g : free b ≡ true) (d : a ≢ b) where
    entries :
        (i j : ℕ)
        → lookup i (insert a b pairs) ≡ some j
        → ((i ≡ a) × (j ≡ b)) ⊎ ((i ≢ a) × (lookup i pairs ≡ some j))
    entries i j e = elim (Bool-cases (a == i)) [
      | inl h ↦ inl (ground (arith, e, h, lookup-insert a i b pairs (unused a f)))
      | inr h ↦ inr (ground (arith, e, h, lookup-insert a i b pairs (unused a f)))
    ]

    insert-IsMatching : IsMatching (insert a b pairs)
    insert-IsMatching = record {
      other = λ i j e. elim (entries i j e) [
        | inl (p, q) ↦ ground (arith, p, q, d)
        | inr (p, q) ↦ m.matching.other i j q
      ];
      once = λ i j e. elim (entries i j e) [
        | inl (p, q) ↦ ground (arith, p, q, d, lookup-insert a j b pairs (unused a f), unused b g)
        | inr (p, q) ↦ ground (
          arith,
          m.matching.once i j q,
          lookup-insert a j b pairs (unused a f),
          not_second a i f,
          q,
        )
      ];
      injective = λ i k j e e'. elim (entries i j e) [
        | inl (p, q) ↦ elim (entries k j e') [
          | inl (p', q') ↦ ground (arith, p, p')
          | inr (p', q') ↦ ground (arith, not_second b k g, q, q')
        ]
        | inr (p, q) ↦ elim (entries k j e') [
          | inl (p', q') ↦ ground (arith, not_second b i g, q, q')
          | inr (p', q') ↦ m.matching.injective i k j q q'
        ]
      ];
    }

    pub insert-Matched :
        (free' : ℕ → Bool)
        → (a < size) × (b < size)
        → ((q : ℕ) → free' q ≡ true → (free q ≡ true) × (q ≢ a) × (q ≢ b))
        → Matched size free' (insert a b pairs)
    insert-Matched free' s less = record {
      matching = insert-IsMatching;
      below = insert-AllBelow size a b pairs s.0 s.1 m.below;
      taken = λ i j e. elim (entries i j e) [
        | inl (p, q) ↦ (
          taken_now i (λ r. ground (arith, less i r, p)),
          taken_now j (λ r. ground (arith, less j r, q)),
        )
        | inr (p, q) ↦ (
          taken_now i (λ r. ground (arith, less i r, m.taken i j q)),
          taken_now j (λ r. ground (arith, less j r, m.taken i j q)),
        )
      ];
    }
      where
        taken_now : (x : ℕ) → (free' x ≡ true → ⊥) → free' x ≡ false
        taken_now x h = elim (Bool-cases (free' x)) [ inl e ↦ absurd (h e) | inr e ↦ e ]

contains-erase_index :
    (q i : ℕ) (xs : List ℕ) → contains q (erase_index i xs) ≡ (not (i == q) && contains q xs)
unfolding contains erase_index
contains-erase_index q i [] = ground arith
contains-erase_index q i (x ∷ xs) = ground (arith, contains-erase_index q i xs)

contains-indices_from :
    (q i number : ℕ) → contains q (indices_from i number) ≡ true → q < i + number
unfolding contains indices_from
contains-indices_from q i zero h = cc
contains-indices_from q i (suc number) h = ground (arith, contains-indices_from q (i + 1) number)

left_free :
    (q a b : ℕ) (result : List ℕ)
    → contains q (erase_index b (erase_index a result)) ≡ true
    → (contains q result ≡ true) × (q ≢ a) × (q ≢ b)
left_free q a b result k =
    ground
      (arith, contains-erase_index q b (erase_index a result), contains-erase_index q a result, k)

abbrev Free : ℕ → List ℕ → Type 0
Free size result = (q : ℕ) → contains q result ≡ true → q < size

mate_closest-Matched :
    (size : ℕ) (scores : List PairwiseScore) (result : List ℕ) (pairs : IndexMap)
    → Free size result
    → Matched size (λ q. contains q result) pairs
    → IsMatching (mate_closest scores result pairs)
      × AllBelow size (mate_closest scores result pairs)
unfolding mate_closest
mate_closest-Matched size [] result pairs f m = (m.matching, m.below)
mate_closest-Matched size (p ∷ rest) result pairs f m = elim (Bool-cases (ltb p.score 1)) [
  | inl e ↦ rw e (m.matching, m.below)
  | inr e ↦ elim (Bool-cases (p.index_1 == p.index_2)) [
    | inl g ↦ rw (e, g) (mate_closest-Matched size rest result pairs f m)
    | inr g ↦ elim (Bool-cases (contains p.index_1 result && contains p.index_2 result)) [
      | inr h ↦ rw (e, g, h) (mate_closest-Matched size rest result pairs f m)
      | inl h ↦
          let left = erase_index p.index_2 (erase_index p.index_1 result) in
          let (h1, h2) : (contains p.index_1 result ≡ true) × (contains p.index_2 result ≡ true) =
            ground (arith, h) in
          rw (e, g, h)
            (mate_closest-Matched size rest left (insert p.index_1 p.index_2 pairs)
              (λ q k. f q (left_free q p.index_1 p.index_2 result k).0)
              (insert-Matched m p.index_1 p.index_2 h1 h2 (ground (arith, g)) (λ q. contains q left)
                (f p.index_1 h1, f p.index_2 h2) (λ q k. left_free q p.index_1 p.index_2 result k)))
    ]
  ]
]

-- The closeness strategy mates individuals of the population only, none of them twice and none with
-- itself, whatever the scores of the pairs are.
pub closeness-IsMatching :
    (scores : List PairwiseScore) (size : ℕ)
    → IsMatching (closeness scores size) × AllBelow size (closeness scores size)
unfolding closeness lookup
closeness-IsMatching scores size =
    mate_closest-Matched size (sort_bigger scores) (indices_from 0 size) []
      (λ q h. omega (arith, contains-indices_from q 0 size h))
      (record {
        matching = record { other = λ i j e. cc; once = λ i j e. cc; injective = λ i k j e e'. cc };
        below = λ i j e. cc;
        taken = λ i j e. cc;
      })
