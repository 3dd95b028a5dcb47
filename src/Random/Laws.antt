-- ===== src/Random/Laws.antt =====
-- Ranges of what `utils::Rand` gives (fuzzer/fuzzer/utils.cpp).
use fuzzer_goal_directed.Prelude.{ℕ, ◌%◌, ◌<◌, ◌≡◌, refl, arith, max, ltb, Bool-cases, inl, inr}
use fuzzer_goal_directed.Random.{Rand, next_number, next_char, next_bool, draw, advance}

-- A number below the limit; 0 where the limit is 0.
pub next_number-lt : (r : Rand) (limit : ℕ) → (next_number r limit).0 < max 1 limit
unfolding next_number
next_number-lt r limit = ground arith

-- A limit of 0 draws nothing.
pub next_number-zero : (r : Rand) → next_number r 0 ≡ (0, r)
unfolding next_number
next_number-zero r = refl

pub next_char-lt : (r : Rand) → (next_char r).0 < 256
unfolding next_char
next_char-lt r = omega arith

-- A positive limit uses one draw.
pub next_number-pos :
    (r : Rand) (limit : ℕ) → 0 < limit → next_number r limit ≡ (draw r % limit, advance r)
unfolding next_number
next_number-pos r limit h = ground arith

-- What will be drawn stays; only the position moves.
pub next_number-draws : (r : Rand) (limit : ℕ) → (next_number r limit).1.draws ≡ r.draws
unfolding next_number
next_number-draws r limit = elim (Bool-cases (ltb limit 1)) [
  | inl e ↦ rw e refl
  | inr e ↦ rw e refl
]

pub next_char-draws : (r : Rand) → (next_char r).1.draws ≡ r.draws
unfolding next_char
next_char-draws r = next_number-draws r 256

pub next_bool-draws : (r : Rand) → (next_bool r).1.draws ≡ r.draws
unfolding next_bool
next_bool-draws r = next_number-draws r 2
