-- ===== src/Measure/Laws.antt =====
-- How far the comparisons of measures are orders (fuzzer/fuzzer/measure.cpp).
use fuzzer_goal_directed.Prelude.{◌≡◌, true, false, arith}
use fuzzer_goal_directed.Measure.{
  Measure, Floats, weight, measure_lt, measure_eq, score_eq, measure_gt,
}

-- What the comparisons of numbers that are not NaN satisfy.
pub record IsOrdered {W : Type 0} (floats : Floats W) : Type 0 where
  pub same-refl : (x : W) → floats.same x x ≡ true
  pub same-sym : (x y : W) → floats.same x y ≡ floats.same y x
  pub same-trans :
      (x y z : W) → floats.same x y ≡ true → floats.same y z ≡ true → floats.same x z ≡ true
  pub less-same :
      (x y z : W) → floats.less x y ≡ true → floats.same y z ≡ true → floats.less x z ≡ true
  pub same-less :
      (x y z : W) → floats.same x y ≡ true → floats.less y z ≡ true → floats.less x z ≡ true
  pub less-trans :
      (x y z : W) → floats.less x y ≡ true → floats.less y z ≡ true → floats.less x z ≡ true
  pub less-distinct : (x y : W) → floats.less x y ≡ true → floats.same x y ≡ false

module _ {W : Type 0} (floats : Floats W) (o : IsOrdered floats) where
  -- No measure is smaller than itself.
  pub measure_lt-irreflexive : (a : Measure) → measure_lt floats a a ≡ false
  unfolding measure_lt
  measure_lt-irreflexive a = rw (o.same-refl (weight floats a)) (ground arith)

  -- `operator<` is transitive.
  pub measure_lt-transitive :
      (a b c : Measure)
      → measure_lt floats a b ≡ true
      → measure_lt floats b c ≡ true
      → measure_lt floats a c ≡ true
  unfolding measure_lt
  measure_lt-transitive a b c h k =
      let x = weight floats a in
      let y = weight floats b in
      let z = weight floats c in
      ground (
        arith,
        o.same-trans x y z,
        o.less-same x y z,
        o.same-less x y z,
        o.less-trans x y z,
        o.less-distinct x z,
        o.same-trans x z y,
        o.same-sym y z,
        o.same-sym x y,
        o.same-trans y x z,
        o.less-distinct x y,
        o.less-distinct y z,
      )

  -- `operator>` is no converse of `operator<`: of two different measures with the same weight and the
  -- same length, each is greater than the other, and neither is smaller.
  pub measure_gt-both :
      (a b : Measure)
      → floats.same (weight floats a) (weight floats b) ≡ true
      → a.length ≡ b.length
      → measure_eq a b ≡ false
      → (measure_gt floats a b ≡ true)
        × (measure_gt floats b a ≡ true)
        × (measure_lt floats a b ≡ false)
        × (measure_lt floats b a ≡ false)
  unfolding measure_gt measure_lt measure_eq score_eq
  measure_gt-both a b h l n = ground (arith, o.same-sym (weight floats a) (weight floats b))
