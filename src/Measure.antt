-- ===== src/Measure.antt =====
-- Scores and their order (fuzzer/fuzzer/measure.h, measure.cpp). The mathematics library and
-- `long double` are parameters.
pub mod Laws
use fuzzer_goal_directed.Prelude.{ℕ, Bool, not, ◌&&◌, ◌||◌, ltb, leb, ◌==◌, if◌then◌else◌}

pub record Score : Type 0 where
  pub absolute : ℕ
  pub diff : ℕ

abbrev pub zero_score : Score
zero_score = record { absolute = 0; diff = 0 }

pub record Measure : Type 0 where
  pub goal : Score
  pub edge : Score
  pub length : ℕ

-- `scaled_root a d` is `ceil(sqrt((pow(a, 2) + 9 * pow(d, 2)) / 10))`; `weighted x y` is
-- `0.3 * x + 0.7 * y`, a number of the type `W`.
pub record Floats (W : Type 0) : Type 0 where
  pub scaled_root : ℕ → ℕ → ℕ
  pub weighted : ℕ → ℕ → W
  pub same : W → W → Bool
  pub less : W → W → Bool

module _ {W : Type 0} (floats : Floats W) where
  unfoldable pub score_norm : Score → ℕ
  score_norm s = if s.absolute == 0 && s.diff == 0 then 0 else floats.scaled_root s.absolute s.diff

  abbrev pub weight : Measure → W
  weight m = floats.weighted (score_norm m.edge) (score_norm m.goal)

  -- `operator<`: of two measures with the same weight, the one of the longer input is smaller.
  unfoldable pub measure_lt : Measure → Measure → Bool
  measure_lt a b =
      if floats.same (weight a) (weight b)
      then ltb b.length a.length
      else floats.less (weight a) (weight b)

unfoldable pub score_eq : Score → Score → Bool
score_eq a b = a.absolute == b.absolute && a.diff == b.diff

unfoldable pub measure_eq : Measure → Measure → Bool
unfolding score_eq
measure_eq a b = score_eq a.goal b.goal && score_eq a.edge b.edge && a.length == b.length

module _ {W : Type 0} (floats : Floats W) where
  unfoldable pub measure_gt : Measure → Measure → Bool
  unfolding measure_eq measure_lt
  measure_gt a b = not (measure_eq a b) && not (measure_lt floats a b)

  unfoldable pub measure_le : Measure → Measure → Bool
  unfolding measure_eq measure_lt
  measure_le a b = measure_eq a b || measure_lt floats a b

  unfoldable pub measure_ge : Measure → Measure → Bool
  unfolding measure_eq measure_gt
  measure_ge a b = measure_eq a b || measure_gt a b
