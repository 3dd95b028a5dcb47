-- ===== src/Evolution/Breeding/Alive.antt =====
-- Individuals that live, and what the parts of `Evolver::evolve` make of them
-- (fuzzer/fuzzer/evolution.cpp).
use fuzzer_goal_directed.Prelude.{
  ℕ, zero, suc, ◌+◌, ◌%◌, ◌≤◌, ◌<◌, ◌≡◌, ◌≢◌, ◌⊎◌, ap, some, List, [], ◌∷◌, ◌++◌, arith, length,
  get_elem?, u32_mod, dec_lt,
}
use fuzzer_goal_directed.Result.{Fault, Returns, returns, >>=-Returns, or_fault, ok, ◌>>=◌}
use fuzzer_goal_directed.Memory.{MemoryManager}
use fuzzer_goal_directed.Memory.Invariant.{contents}
use fuzzer_goal_directed.Individual.{Individual}
use fuzzer_goal_directed.Mutation.Single.{Outcome}
use fuzzer_goal_directed.Evolution.Stock.{Stocked, Keeps, Keeps-trans, Made}
use fuzzer_goal_directed.Evolution.Breeding.{Outcomes}

-- The individual holds bytes, less than 2 ^ 32 - 64 of them.
abbrev pub Breeds : MemoryManager → Individual → Type 0
Breeds m i =
    (bytes : List ℕ) × (contents m i.index ≡ some bytes)
    × (0 < length bytes)
    × (length bytes + 64 < u32_mod)

-- The individual holds bytes.
abbrev pub Lives : MemoryManager → Individual → Type 0
Lives m i = (bytes : List ℕ) × (contents m i.index ≡ some bytes) × (0 < length bytes)

abbrev pub All {ℓ κ} : {A : Type ℓ} → (A → Type κ) → List A → Type κ
All P [] = Unit
All P (x ∷ xs) = P x × All P xs

pub All-mono {ℓ κ} :
    {A : Type ℓ} {P Q : A → Type κ} → ((x : A) → P x → Q x) → (xs : List A) → All P xs → All Q xs
All-mono f [] h = h
All-mono f (x ∷ xs) h = (f x h.0, All-mono f xs h.1)

pub All-append {ℓ κ} :
    {A : Type ℓ} (P : A → Type κ) (xs ys : List A) → All P xs → All P ys → All P (xs ++ ys)
All-append P [] ys h k = k
All-append P (x ∷ xs) ys h k = (h.0, All-append P xs ys h.1 k)

pub All-get_elem? {ℓ κ} :
    {A : Type ℓ} {P : A → Type κ} (xs : List A) (k : ℕ) (e : Fault)
    → All P xs
    → k < length xs
    → Returns P (or_fault (get_elem? xs k) e)
All-get_elem? [] k e all h = absurd (omega (arith, h))
All-get_elem? (x ∷ xs) zero e all h = returns x all.0
All-get_elem? (x ∷ xs) (suc k) e all h = All-get_elem? xs k e all.1 (omega (arith, h))

pub All-any {ℓ} : {A : Type ℓ} (xs : List A) → All (λ x. Unit {0}) xs
All-any [] = tt
All-any (x ∷ xs) = (tt, All-any xs)

pub Lives-Keeps : (m m' : MemoryManager) → Keeps m m' → (i : Individual) → Lives m i → Lives m' i
Lives-Keeps m m' k i (bytes, e, p) = (bytes, k i.index bytes e, p)

pub Breeds-Keeps : (m m' : MemoryManager) → Keeps m m' → (i : Individual) → Breeds m i → Breeds m' i
Breeds-Keeps m m' k i (bytes, e, p, q) = (bytes, k i.index bytes e, p, q)

-- Wherever the generator stands, a second index is drawn within the fuel.
abbrev pub Lively : (ℕ → ℕ) → ℕ → Type 0
Lively draws fuel = (p n x : ℕ) → 2 ≤ n → (k : ℕ) × (k + 1 < fuel) × (draws (p + k) % n ≢ x)

pub Lively-at :
    (draws : ℕ → ℕ) (fuel : ℕ)
    → Lively draws fuel
    → (p n x : ℕ) → (k : ℕ) × (k + 1 < fuel) × (2 ≤ n → draws (p + k) % n ≢ x)
Lively-at draws fuel lively p n x = elim (dec_lt n 2) [
  | yes l ↦
      let (k, enough, d) = lively p 2 x (omega arith) in
      (k, enough, λ two. absurd (omega (arith, l, two)))
  | no h ↦ let (k, enough, d) = lively p n x (omega (arith, h)) in (k, enough, λ two. d)
]

-- The outcome is a new individual with bytes, for one slot and one reference.
abbrev pub Offspring : (ℕ → ℕ) → MemoryManager → ℕ → Outcome → Type 0
Offspring draws m n =
    Returns
      λ o. (after : List ℕ) × (0 < length after) × Made m n after o.0 o.2 × (o.1.draws ≡ draws)

-- The outcome is `number` individuals with bytes, for at most as many slots and references as there
-- were to spare beyond `n`.
abbrev pub Litter : (ℕ → ℕ) → MemoryManager → ℕ → ℕ → Outcomes → Type 0
Litter draws m number n = Returns λ o.
    (length o.0 ≡ number) × All (Lives o.2) o.0 × Stocked o.2 n × Keeps m o.2 × (o.1.draws ≡ draws)

-- A new individual in front of those that are made after it.
pub one_more :
    (draws : ℕ → ℕ) (m m1 : MemoryManager) (k n number : ℕ) (d : Individual) {after : List ℕ}
    (others : Outcomes)
    → 0 < length after
    → Made m k after d m1
    → Litter draws m1 number n others
    → Litter draws m (suc number) n (do (new, r2, m2) ← others; ok (d ∷ new, r2, m2))
one_more draws m m1 k n number d {after} others alive made litter =
    >>=-Returns _ litter λ (new, r2, m2) (count, lives, left, keeps, same). returns _ (
      ap suc count,
      ((after, keeps d.index after made.holds, alive), lives),
      left,
      Keeps-trans m m1 m2 made.keeps keeps,
      same,
    )

pub between :
    (b1 b2 bytes : List ℕ)
    → (length bytes ≡ length b1) ⊎ (length bytes ≡ length b2)
    → 0 < length b1
    → 0 < length b2
    → length b1 + 64 < u32_mod
    → length b2 + 64 < u32_mod
    → (0 < length bytes) × (length bytes + 64 < u32_mod)
between b1 b2 bytes sized p1 p2 s1 s2 = ground arith
