-- ===== src/Random/Pick.antt =====
-- The set that `Rand::pick` draws (fuzzer/fuzzer/utils.cpp), and that its loop ends.
use fuzzer_goal_directed.Prelude.{
  ℕ, zero, suc, ◌≤◌, ◌<◌, ◌≡◌, refl, ap, ◌∙◌, false, ◌||◌, List, [], ◌∷◌, arith, ltb, ◌==◌, ==_iff,
  if◌then◌else◌, length, Bool-cases, inl, inr, ltb→lt,
}
use fuzzer_goal_directed.Result.{ok}
use fuzzer_goal_directed.Memory.{contains}
use fuzzer_goal_directed.Random.{Rand, next_number, pick, pick_from, insert_sorted}
use fuzzer_goal_directed.Random.Sorted.{contains-insert_sorted}

-- The numbers of `k` draws below a limit, the last one first, in front of `earlier`; and the generator
-- afterwards.
abbrev pub draws_of : ℕ → Rand → List ℕ → ℕ → List ℕ × Rand
draws_of zero r earlier limit = (earlier, r)
draws_of (suc k) r earlier limit =
    let (n, r') = next_number r limit in draws_of k r' (n ∷ earlier) limit

-- How many different numbers there are in a list.
abbrev pub different : List ℕ → ℕ
different [] = 0
different (x ∷ xs) = if contains x xs then different xs else suc (different xs)

-- The numbers ascend strictly, from `low` on.
abbrev pub Ascending : ℕ → List ℕ → Type 0
Ascending low [] = Unit {0}
Ascending low (x ∷ xs) = (low ≤ x) × Ascending (suc x) xs

Ascending-insert_sorted :
    (low n : ℕ) (xs : List ℕ) → low ≤ n → Ascending low xs → Ascending low (insert_sorted n xs)
unfolding insert_sorted
Ascending-insert_sorted low n [] h a = (h, tt)
Ascending-insert_sorted low n (x ∷ xs) h a = elim (Bool-cases (ltb n x)) [
  | inl e ↦ rw e (h, (ltb→lt n x e, a.1))
  | inr e ↦ rw e (elim (Bool-cases (n == x)) [
    | inl q ↦ rw q a
    | inr q ↦ rw q (a.0, Ascending-insert_sorted (suc x) n xs (ground (arith, e, q)) a.1)
  ])
]

not_below : (low n : ℕ) (xs : List ℕ) → n < low → Ascending low xs → contains n xs ≡ false
unfolding contains
not_below low n [] h a = refl
not_below low n (x ∷ xs) h a =
    let later = not_below (suc x) n xs (omega (arith, h, a.0)) a.1 in ground (arith, later, h, a.0)

length-insert_sorted :
    (low n : ℕ) (xs : List ℕ)
    → Ascending low xs
    → length (insert_sorted n xs) ≡ (if contains n xs then length xs else suc (length xs))
unfolding insert_sorted contains
length-insert_sorted low n [] a = refl
length-insert_sorted low n (x ∷ xs) a =
    let later = length-insert_sorted (suc x) n xs a.1 in
    elim (Bool-cases (ltb n x)) [
      | inl e ↦
          let out = not_below (suc x) n xs (omega (arith, ltb→lt n x e)) a.1 in
          ground (arith, e, out)
      | inr e ↦ ground (arith, e, later)
    ]

-- `values` are the numbers of `earlier`, each once, in ascending order.
pub record Lists (values earlier : List ℕ) : Type 0 where
  pub ascending : Ascending 0 values
  pub members : (x : ℕ) → contains x values ≡ contains x earlier
  pub size : length values ≡ different earlier

Lists-insert_sorted :
    (n : ℕ) (values earlier : List ℕ)
    → Lists values earlier
    → Lists (insert_sorted n values) (n ∷ earlier)
unfolding contains
Lists-insert_sorted n values earlier l = record {
  ascending = Ascending-insert_sorted 0 n values (omega arith) l.ascending;
  members = λ x. contains-insert_sorted x n values ∙ ap (λ b. x == n || b) (l.members x);
  size = length-insert_sorted 0 n values l.ascending ∙ rw (l.members n, l.size) refl;
}

-- What `pick` gives: the different numbers of the first draws, as many as are wanted.
pub record Picked (k : ℕ) (r : Rand) (earlier : List ℕ) (number limit : ℕ) (points : List ℕ)
    (r' : Rand) : Type 0 where
  pub rounds : ℕ
  pub within : rounds ≤ k
  pub lists : Lists points (draws_of rounds r earlier limit).0
  pub enough : length points ≡ number
  pub generator : r' ≡ (draws_of rounds r earlier limit).1

pick_from-Picked :
    (k fuel : ℕ) (r : Rand) (values earlier : List ℕ) (number limit : ℕ)
    → Lists values earlier
    → length values ≤ number
    → number ≤ different (draws_of k r earlier limit).0
    → k < fuel
    → (points : List ℕ) × (r' : Rand) × (pick_from fuel r values number limit ≡ ok (points, r'))
      × Picked k r earlier number limit points r'
unfolding pick_from
pick_from-Picked k zero r values earlier number limit l h n f = elim f [ ]
pick_from-Picked zero (suc fuel) r values earlier number limit l h n f =
    let e : length values ≡ number = omega (arith, h, n, l.size) in
    (
      values,
      r,
      ground (arith, e),
      record { rounds = 0; within = omega arith; lists = l; enough = e; generator = refl },
    )
pick_from-Picked (suc k) (suc fuel) r values earlier number limit l h n f =
    let (x, r1) = next_number r limit in
    elim (Bool-cases (length values == number)) [
      | inl e ↦ (
        values,
        r,
        rw e refl,
        record {
          rounds = 0;
          within = omega arith;
          lists = l;
          enough = (==_iff _ _).0 e;
          generator = refl;
        },
      )
      | inr e ↦
          let more : length (insert_sorted x values) ≤ number =
            ground (arith, e, h, length-insert_sorted 0 x values l.ascending) in
          let (points, r', q, p) =
            pick_from-Picked k fuel r1 (insert_sorted x values) (x ∷ earlier) number limit
              (Lists-insert_sorted x values earlier l) more n (omega (arith, f)) in
          (
            points,
            r',
            rw e q,
            record {
              rounds = suc p.rounds;
              within = omega (arith, p.within);
              lists = p.lists;
              enough = p.enough;
              generator = p.generator;
            },
          )
    ]

-- If there are as many different numbers among the next `k` draws as are wanted, and more rounds than
-- draws, the loop ends.
pub pick-Picked :
    (k fuel : ℕ) (r : Rand) (number limit : ℕ)
    → number ≤ different (draws_of k r [] limit).0
    → k < fuel
    → (points : List ℕ) × (r' : Rand) × (pick fuel r number limit ≡ ok (points, r'))
      × Picked k r [] number limit points r'
unfolding pick
pick-Picked k fuel r number limit n f =
    pick_from-Picked k fuel r [] [] number limit
      (record { ascending = tt; members = λ x. refl; size = refl }) (omega arith) n f
