-- ===== src/Random.antt =====
-- `utils::Rand` (fuzzer/fuzzer/utils.h and utils.cpp). The generator of Boost is not modelled: what
-- it draws is a parameter, the sequence `draws`, of which `position` numbers are used up.
pub mod Laws
pub mod Sorted
pub mod Pick
use fuzzer_goal_directed.Prelude.{
  ℕ, zero, suc, ◌+◌, ◌-◌, ◌%◌, Bool, true, false, List, [], ◌∷◌, ltb, ◌==◌, if◌then◌else◌, length,
  get_or, to_u8, to_u32,
}
use fuzzer_goal_directed.Result.{Result, ok, fault, no_progress}

pub record Rand : Type 0 where
  pub draws : ℕ → ℕ
  pub position : ℕ

abbrev pub advance : Rand → Rand
advance r = record r { position = suc r.position }

-- `distributor(generator)`
abbrev pub draw : Rand → ℕ
draw r = r.draws r.position

unfoldable pub next_number : Rand → ℕ → ℕ × Rand
next_number r limit = if ltb limit 1 then (0, r) else (draw r % limit, advance r)

unfoldable pub next_int : Rand → ℕ × Rand
next_int r = (to_u32 (draw r), advance r)

unfoldable pub next_char : Rand → ℕ × Rand
next_char r = let (n, r') = next_number r 256 in (to_u8 n, r')

unfoldable pub next_bool : Rand → Bool × Rand
next_bool r = let (n, r') = next_number r 2 in (n == 0, r')

-- `"!*'();:@&=+$,/?%#[]123ABCxyz-`~."`, with the zero that ends it.
abbrev pub llvm_fuzzer_specials : List ℕ
llvm_fuzzer_specials =
    33 ∷ 42 ∷ 39 ∷ 40 ∷ 41 ∷ 59 ∷ 58 ∷ 64 ∷ 38 ∷ 61 ∷ 43 ∷ 36 ∷ 44 ∷ 47 ∷ 63 ∷ 37 ∷ 35 ∷ 91 ∷ 93
    ∷ 49 ∷ 50 ∷ 51 ∷ 65 ∷ 66 ∷ 67 ∷ 120 ∷ 121 ∷ 122 ∷ 45 ∷ 96 ∷ 126 ∷ 46 ∷ 0 ∷ []

-- `sizeof` of a `const char *`.
abbrev pub sizeof_pointer : ℕ
sizeof_pointer = 8

unfoldable pub next_ascii : Rand → ℕ × Rand
next_ascii r =
    let (coin, r1) = next_bool r in
    let (n, r2) = next_number r1 (sizeof_pointer - 1) in
    if coin then next_char r1 else (get_or llvm_fuzzer_specials n 0, r2)

-- The `std::set` of `pick`, in ascending order.
unfoldable pub insert_sorted : ℕ → List ℕ → List ℕ
insert_sorted n [] = n ∷ []
insert_sorted n (x ∷ xs) =
    let rest = insert_sorted n xs in
    if ltb n x then n ∷ x ∷ xs else if n == x then x ∷ xs else x ∷ rest

-- The loop of `pick`, which ends when enough different numbers came up; `fuel` bounds its rounds.
unfoldable pub pick_from : ℕ → Rand → List ℕ → ℕ → ℕ → Result (List ℕ × Rand)
pick_from zero r values number high = fault no_progress
pick_from (suc fuel) r values number high =
    let (n, r') = next_number r high in
    let rest = pick_from fuel r' (insert_sorted n values) number high in
    if length values == number then ok (values, r) else rest

unfoldable pub pick : ℕ → Rand → ℕ → ℕ → Result (List ℕ × Rand)
unfolding pick_from
pick fuel r number high = pick_from fuel r [] number high
