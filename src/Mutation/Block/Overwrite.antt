-- ===== src/Mutation/Block/Overwrite.antt =====
-- Overwriting a segment of a list of bytes, for the loops of fuzzer/fuzzer/mutations.cpp.
use fuzzer_goal_directed.Prelude.{
  ℕ, zero, suc, ◌+◌, ◌<◌, ◌≤◌, ◌≡◌, refl, ap, ◌∙◌, List, [], ◌∷◌, ◌++◌, arith, length, get_or, set,
  take, drop,
}

-- `xs` with the bytes from `start` on replaced by `ys`.
abbrev pub overwrite : List ℕ → ℕ → List ℕ → List ℕ
overwrite [] start ys = []
overwrite (x ∷ xs) zero [] = x ∷ xs
overwrite (x ∷ xs) zero (y ∷ ys) = y ∷ overwrite xs zero ys
overwrite (x ∷ xs) (suc start) ys = x ∷ overwrite xs start ys

pub length-overwrite :
    (xs : List ℕ) (start : ℕ) (ys : List ℕ) → length (overwrite xs start ys) ≡ length xs
length-overwrite [] start ys = refl
length-overwrite (x ∷ xs) zero [] = refl
length-overwrite (x ∷ xs) zero (y ∷ ys) = ap suc (length-overwrite xs zero ys)
length-overwrite (x ∷ xs) (suc start) ys = ap suc (length-overwrite xs start ys)

pub overwrite-nil : (xs : List ℕ) (start : ℕ) → overwrite xs start [] ≡ xs
overwrite-nil [] start = refl
overwrite-nil (x ∷ xs) zero = refl
overwrite-nil (x ∷ xs) (suc start) = ap (◌∷◌ x) (overwrite-nil xs start)

-- Writing the first byte, and then the rest from the next place on.
pub overwrite-cons :
    (xs : List ℕ) (start y : ℕ) (ys : List ℕ)
    → overwrite (set xs start y) (start + 1) ys ≡ overwrite xs start (y ∷ ys)
overwrite-cons [] start y ys = refl
overwrite-cons (x ∷ xs) zero y ys = refl
overwrite-cons (x ∷ xs) (suc start) y ys =
    ap (λ k. overwrite (x ∷ set xs start y) k ys)
      (let e : suc start + 1 ≡ suc (start + 1) = omega arith in e)
    ∙ ap (◌∷◌ x) (overwrite-cons xs start y ys)

pub overwrite-append :
    (xs : List ℕ) (start : ℕ) (ys zs : List ℕ)
    → overwrite (overwrite xs start ys) (start + length ys) zs ≡ overwrite xs start (ys ++ zs)
overwrite-append [] start ys zs = refl
overwrite-append (x ∷ xs) zero [] zs = refl
overwrite-append (x ∷ xs) zero (y ∷ ys) zs =
    ap (λ k. overwrite (y ∷ overwrite xs zero ys) k zs)
      (let e : zero + length (y ∷ ys) ≡ suc (zero + length ys) = omega arith in e)
    ∙ ap (◌∷◌ y) (overwrite-append xs zero ys zs)
overwrite-append (x ∷ xs) (suc start) ys zs =
    ap (λ k. overwrite (x ∷ overwrite xs start ys) k zs)
      (let e : suc start + length ys ≡ suc (start + length ys) = omega arith in e)
    ∙ ap (◌∷◌ x) (overwrite-append xs start ys zs)

-- A gap that is overwritten to its end.
pub overwrite_gap :
    (front gap back ys : List ℕ)
    → length gap ≡ length ys
    → overwrite (front ++ (gap ++ back)) (length front) ys ≡ front ++ (ys ++ back)
overwrite_gap (x ∷ front) gap back ys e = ap (◌∷◌ x) (overwrite_gap front gap back ys e)
overwrite_gap [] [] back [] e = overwrite-nil back 0
overwrite_gap [] [] back (y ∷ ys) e = absurd (omega arith)
overwrite_gap [] (g ∷ gap) back [] e = absurd (omega arith)
overwrite_gap [] (g ∷ gap) back (y ∷ ys) e = ap (◌∷◌ y) (overwrite_gap [] gap back ys (omega arith))

-- What stands in front of a write is not changed by it.
pub take-drop-set :
    (xs : List ℕ) (n s d x : ℕ) → s + n ≤ d → take n (drop s (set xs d x)) ≡ take n (drop s xs)
take-drop-set xs zero s d x h = refl
take-drop-set [] (suc n) s d x h = refl
take-drop-set (y ∷ xs) (suc n) zero zero x h = elim (let h' : suc n ≤ zero = omega arith in h') [ ]
take-drop-set (y ∷ xs) (suc n) zero (suc d) x h =
    ap (◌∷◌ y) (take-drop-set xs n zero d x (omega arith))
take-drop-set (y ∷ xs) (suc n) (suc s) zero x h = absurd (omega arith)
take-drop-set (y ∷ xs) (suc n) (suc s) (suc d) x h = take-drop-set xs (suc n) s d x (omega arith)

pub take-drop-overwrite :
    (xs : List ℕ) (n s d : ℕ) (ys : List ℕ)
    → s + n ≤ d
    → take n (drop s (overwrite xs d ys)) ≡ take n (drop s xs)
take-drop-overwrite xs zero s d ys h = refl
take-drop-overwrite [] (suc n) s d ys h = refl
take-drop-overwrite (y ∷ xs) (suc n) zero zero ys h = absurd (omega arith)
take-drop-overwrite (y ∷ xs) (suc n) zero (suc d) ys h =
    ap (◌∷◌ y) (take-drop-overwrite xs n zero d ys (omega arith))
take-drop-overwrite (y ∷ xs) (suc n) (suc s) zero ys h = absurd (omega arith)
take-drop-overwrite (y ∷ xs) (suc n) (suc s) (suc d) ys h =
    take-drop-overwrite xs (suc n) s d ys (omega arith)

pub take-suc-drop :
    (xs : List ℕ) (n s : ℕ)
    → s < length xs
    → take (suc n) (drop s xs) ≡ get_or xs s 0 ∷ take n (drop (s + 1) xs)
take-suc-drop [] n s h = elim h [ ]
take-suc-drop (x ∷ xs) n zero h = refl
take-suc-drop (x ∷ xs) n (suc s) h =
    take-suc-drop xs n s (omega arith)
    ∙ ap (λ k. get_or xs s 0 ∷ take n (drop k (x ∷ xs)))
        (let e : suc (s + 1) ≡ suc s + 1 = omega arith in e)
