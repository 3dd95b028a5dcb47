-- ===== src/Mutation/Block/Loops.antt =====
-- The loops that fill and copy runs of bytes (fuzzer/fuzzer/mutations.cpp).
use fuzzer_goal_directed.Prelude.{
  ℕ, zero, suc, ◌+◌, ◌*◌, ◌≤◌, ◌≡◌, refl, sym, ap, ◌∙◌, List, [], ◌++◌, arith, some, length, get_or,
  set, take, drop, replicate, length-set, length-take, length-drop,
}
use fuzzer_goal_directed.Result.{Returns, returns, Returns-mono, >>=-Returns, Result}
use fuzzer_goal_directed.Memory.{MemoryManager}
use fuzzer_goal_directed.Memory.Invariant.{IsValid, View}
use fuzzer_goal_directed.Memory.Bytes.{
  Updated, poke-Updated, peek_lem, Updated-View, Updated-trans, Updated-refl, same_address,
}
use fuzzer_goal_directed.Mutation.Block.{fill, copy_run, copy_runs}
use fuzzer_goal_directed.Mutation.Block.Overwrite.{
  overwrite, length-overwrite, overwrite-nil, overwrite-cons, overwrite-append, take-drop-set,
  take-drop-overwrite, take-suc-drop,
}

-- `bytes` are in slot `i` now, and the pointers are as they were.
abbrev pub Rewrites : MemoryManager → ℕ → List ℕ → Result MemoryManager → Type 0
Rewrites m i bytes = Returns (λ m'. Updated m i bytes m' × (m'.memory ≡ m.memory))

pub fill-Rewrites :
    (n : ℕ) (m : MemoryManager) (i : ℕ) {old : List ℕ} (v : IsValid m) (w : View m i old)
    (start x : ℕ)
    → start + n ≤ length old
    → Rewrites m i (overwrite old start (replicate n x)) (fill m (some w.address) start n x)
unfolding fill
fill-Rewrites zero m i {old} v w start x h =
    returns m (rw (overwrite-nil old start) (Updated-refl v w), refl)
fill-Rewrites (suc n) m i {old} v w start x h =
    >>=-Returns _ (poke-Updated m i v w start x (omega arith)) λ m' (u, s).
      let w' = Updated-View u in
      rw (same_address m m' i w w' s) (
        Returns-mono
          (λ m'' (u', s').
            (rw (overwrite-cons old start x (replicate n x)) at (Updated-trans u u'), s' ∙ s))
          (fill-Rewrites n m' i u.valid w' (start + 1) x (omega (arith, length-set old start x))))

pub copy_run-Rewrites :
    (n : ℕ) (m : MemoryManager) (i : ℕ) {old : List ℕ} (v : IsValid m) (w : View m i old)
    (src dst : ℕ)
    → src + n ≤ dst
    → dst + n ≤ length old
    → Rewrites m i
        (overwrite old dst (take n (drop src old)))
        (copy_run m (some w.address) src dst n)
unfolding copy_run
copy_run-Rewrites zero m i {old} v w src dst h k =
    returns m (rw (overwrite-nil old dst) (Updated-refl v w), refl)
copy_run-Rewrites (suc n) m i {old} v w src dst h k = rw (peek_lem m i v w src (omega arith)) (
    >>=-Returns _ (poke-Updated m i v w dst x (omega arith)) λ m' (u, s).
      let w' = Updated-View u in
      rw (same_address m m' i w w' s) (
        Returns-mono (λ m'' (u', s'). (rw step at (Updated-trans u u'), s' ∙ s))
          (copy_run-Rewrites n m' i u.valid w' (src + 1) (dst + 1) (omega arith)
            (omega (arith, length-set old dst x)))))
  where
    x : ℕ
    x = get_or old src 0

    step :
        overwrite (set old dst x) (dst + 1) (take n (drop (src + 1) (set old dst x)))
        ≡ overwrite old dst (take (suc n) (drop src old))
    step =
        ap (overwrite (set old dst x) (dst + 1)) (take-drop-set old n (src + 1) dst x (omega arith))
        ∙ overwrite-cons old dst x (take n (drop (src + 1) old))
        ∙ ap (overwrite old dst) (sym (take-suc-drop old n src (omega arith)))

-- `n` copies of a list, one behind the other.
abbrev pub repeat : ℕ → List ℕ → List ℕ
repeat zero xs = []
repeat (suc n) xs = xs ++ repeat n xs

pub copy_runs-Rewrites :
    (n : ℕ) (m : MemoryManager) (i : ℕ) {old : List ℕ} (v : IsValid m) (w : View m i old)
    (src dst range : ℕ)
    → src + range ≤ dst
    → dst + n * range ≤ length old
    → Rewrites m i
        (overwrite old dst (repeat n (take range (drop src old))))
        (copy_runs m (some w.address) src dst range n)
unfolding copy_runs
copy_runs-Rewrites zero m i {old} v w src dst range h k =
    returns m (rw (overwrite-nil old dst) (Updated-refl v w), refl)
copy_runs-Rewrites (suc n) m i {old} v w src dst range h k =
    >>=-Returns _ (copy_run-Rewrites range m i v w src dst h (omega (arith, fits))) λ m' (u, s).
      let w' = Updated-View u in
      rw (same_address m m' i w w' s) (
        Returns-mono (λ m'' (u', s'). (rw step at (Updated-trans u u'), s' ∙ s))
          (copy_runs-Rewrites n m' i u.valid w' src (dst + range) range (omega arith)
            (omega (arith, fits, length-overwrite old dst segment))))
  where
    fits : dst + (range + n * range) ≤ length old
    fits = omega arith

    segment : List ℕ
    segment = take range (drop src old)

    sized : length segment ≡ range
    sized = omega (arith, length-take range (drop src old), length-drop src old)

    step :
        overwrite
          (overwrite old dst segment)
          (dst + range)
          (repeat n (take range (drop src (overwrite old dst segment))))
        ≡ overwrite old dst (segment ++ repeat n segment)
    step =
        ap (λ k. overwrite (overwrite old dst segment) (dst + range) (repeat n k))
          (take-drop-overwrite old range src dst segment h)
        ∙ ap (λ k. overwrite (overwrite old dst segment) (dst + k) (repeat n segment)) (sym sized)
        ∙ overwrite-append old dst segment (repeat n segment)
