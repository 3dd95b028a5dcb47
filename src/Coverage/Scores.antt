-- ===== src/Coverage/Scores.antt =====
-- The scores of the coverage, and the numbers of blocks without a store (fuzzer/fuzzer/knowledge.cpp).
use fuzzer_goal_directed.Prelude.{
  ℕ, ◌+◌, ◌*◌, ◌≤◌, ◌<◌, ◌≡◌, Bool, Option, none, some, List, arith, leb, ◌==◌, if◌then◌else◌,
  add32, mul32, u32_mod, Option-cases, inl, inr, le→leb, lt→leb, dec_le,
}
use fuzzer_goal_directed.OrderedMap.{lookup, lookup-assign, lookup-insert}
use fuzzer_goal_directed.Measure.{Score}
use fuzzer_goal_directed.Coverage.{
  Knowledge, paired, update_score, update_local_coverage, score_or_zero,
}

-- An update of a score leaves the other test cases alone. It sets the score where it initializes, and
-- otherwise adds to it; a test case without a score has zeros.
pub update_score_lem :
    (scores : List (ℕ × Score)) (i j a d : ℕ) (initialize : Bool)
    → a < u32_mod
    → d < u32_mod
    → let old = score_or_zero (lookup i scores) in
      lookup j (update_score scores i a d initialize) ≡ (
        if i == j
        then some (
            if initialize
            then record { absolute = a; diff = d }
            else record { absolute = add32 old.absolute a; diff = add32 old.diff d })
        else lookup j scores)
unfolding update_score
update_score_lem scores i j a d initialize ha hd = elim (Option-cases (lookup i scores)) [
  | inl e ↦
      rw (update_score, e)
        (ground (arith, lookup-insert i j (record { absolute = a; diff = d }) scores))
  | inr (s, e) ↦
      rw (update_score, e)
        (ground (
          arith,
          lookup-assign i j (record { absolute = a; diff = d }) scores,
          lookup-assign i j (record { absolute = add32 s.absolute a; diff = add32 s.diff d })
              scores,
        ))
]

abbrev pub number_or_zero : Option ℕ → ℕ
number_or_zero none = 0
number_or_zero (some n) = n

-- The count of the element goes up by one, in 32 bits, and no other count changes.
pub update_local_coverage_lem :
    {B G V : Type 0} (k : Knowledge B G V) (e f : ℕ)
    → lookup f (update_local_coverage k e).local_coverage ≡ (
        if e == f
        then some (add32 (number_or_zero (lookup e k.local_coverage)) 1)
        else lookup f k.local_coverage)
unfolding update_local_coverage
update_local_coverage_lem k e f = elim (Option-cases (lookup e k.local_coverage)) [
  | inl h ↦ rw (update_local_coverage, h) (lookup-insert e f 1 k.local_coverage h)
  | inr (n, h) ↦ rw (update_local_coverage, h) (lookup-assign e f (add32 n 1) k.local_coverage)
]

square_le : (a b : ℕ) → a ≤ b → a * a ≤ b * b
square_le a b h = grind arith

square_mono : (a b : ℕ) → a < b → a * a + a + a < b * b
square_mono a b h =
    let e : (a + 1) * (a + 1) ≡ a * a + a + a + 1 = grind arith in
    omega (arith, square_le (a + 1) b (omega arith), e)

-- Below 65536 the pairing does not wrap.
paired-small :
    (f b : ℕ) → f < 65536 → b < 65536 → paired f b ≡ (if leb b f then f * f + f + b else f + b * b)
unfolding paired
paired-small f b hf hb =
    let sf : f * f ≤ 65535 * 65535 = square_le f 65535 (omega arith) in
    let sb : b * b ≤ 65535 * 65535 = square_le b 65535 (omega arith) in
    let e1 : mul32 f f ≡ f * f = omega arith in
    let e2 : mul32 b b ≡ b * b = omega arith in
    elim (dec_le b f) [
      | yes h ↦ rw (le→leb b f h, e1) (omega arith)
      | no h ↦ rw (lt→leb f b (omega arith), e2) (omega arith)
    ]

-- Without a store, the number of a block determines its function and its block, as long as both
-- numbers are below 65536.
pub paired-injective :
    (f b g c : ℕ)
    → f < 65536
    → b < 65536
    → g < 65536
    → c < 65536
    → paired f b ≡ paired g c
    → (f ≡ g) × (b ≡ c)
paired-injective f b g c hf hb hg hc e =
    let left = paired-small f b hf hb in
    let right = paired-small g c hg hc in
    ground (
      arith,
      left,
      right,
      e,
      square_mono f g,
      square_mono g f,
      square_mono f c,
      square_mono g b,
      square_mono b c,
      square_mono c b,
      square_le c f,
      square_le b g,
    )
