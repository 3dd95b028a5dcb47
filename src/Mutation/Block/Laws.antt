-- ===== src/Mutation/Block/Laws.antt =====
-- The mutators that repeat bytes against their references on lists (fuzzer/fuzzer/mutations.cpp).
use fuzzer_goal_directed.Prelude.{
  ℕ, zero, suc, ◌+◌, ◌-◌, ◌*◌, ◌<◌, ◌≤◌, ◌≡◌, refl, sym, ap, ◌∙◌, List, ◌++◌, arith, leb,
  if◌then◌else◌, length, get_or, take, drop, replicate, u32_mod, add32, mul32, sub64, sub64-small,
  dec_le, length-append, length-take, length-drop, length-replicate, le→leb, lt→leb, take-add,
  append_assoc, take_front_append, drop_front_append,
}
use fuzzer_goal_directed.Result.{returns, >>=-Returns}
use fuzzer_goal_directed.Memory.{MemoryManager}
use fuzzer_goal_directed.Memory.Bytes.{
  peek_lem, buffer-View, slot_length-View, Updated-View, Updated-trans,
}
use fuzzer_goal_directed.Memory.Insert.{insert_bytes-Opened}
use fuzzer_goal_directed.Heap.Laws.{Provides-of_answer}
use fuzzer_goal_directed.Memory.Copy.{Grown-View, Grown-Updated}
use fuzzer_goal_directed.Random.{Rand, next_number}
use fuzzer_goal_directed.Random.Laws.{next_number-lt}
use fuzzer_goal_directed.Individual.{Individual}
use fuzzer_goal_directed.Individual.Clone.{Ready, clone-Child}
use fuzzer_goal_directed.Mutation.Single.Laws.{to_u32-small, Makes, length_opened}
use fuzzer_goal_directed.Mutation.Block.{duplicate_byte, duplicate_bytes}
use fuzzer_goal_directed.Mutation.Block.Overwrite.{overwrite, overwrite_gap}
use fuzzer_goal_directed.Mutation.Block.Loops.{fill-Rewrites, copy_runs-Rewrites, repeat}

-- The gap that `insert_bytes` opened, overwritten to its end.
overwrite_opened :
    (n : ℕ) (xs gap ys : List ℕ)
    → n ≤ length xs
    → length gap ≡ length ys
    → overwrite (take n xs ++ (gap ++ drop n xs)) n ys ≡ take n xs ++ (ys ++ drop n xs)
overwrite_opened n xs gap ys le e =
    let size : length (take n xs) ≡ n = omega (arith, length-take n xs) in
    ap (λ k. overwrite (take n xs ++ (gap ++ drop n xs)) k ys) (sym size)
    ∙ overwrite_gap (take n xs) gap (drop n xs) ys e

bounded_area : (a b : ℕ) → a ≤ 4 → b ≤ 8 → a * b ≤ 32
bounded_area a b h k = grind arith

pub length_run : (s n : ℕ) (xs : List ℕ) → s + n ≤ length xs → length (take n (drop s xs)) ≡ n
length_run s n xs h = omega (arith, length-take n (drop s xs), length-drop s xs)

length-repeat : (n : ℕ) (xs : List ℕ) → length (repeat n xs) ≡ n * length xs
length-repeat zero xs = omega arith
length-repeat (suc n) xs = omega (arith, length-append xs (repeat n xs), length-repeat n xs)

-- A run that ends where the list is cut is in the front part.
front_run :
    (s n : ℕ) (xs back : List ℕ)
    → s + n ≤ length xs
    → take n (drop s (take (s + n) xs ++ back)) ≡ take n (drop s xs)
front_run s n xs back h =
    let front : length (take s xs) ≡ s = omega (arith, length-take s xs) in
    ap (λ k. take n (drop s (k ++ back))) (take-add s n xs)
    ∙ ap (λ k. take n (drop s k)) (append_assoc (take s xs) (take n (drop s xs)) back)
    ∙ ap (take n) (drop_front_append s (take s xs) (take n (drop s xs) ++ back) front)
    ∙ take_front_append n (take n (drop s xs)) back (length_run s n xs h)

module _ (r : Rand) (m : MemoryManager) (i : Individual) {bytes : List ℕ}
    (ready : Ready m i.index bytes) (small : length bytes + 64 < u32_mod)
    (nonempty : 0 < length bytes) where
  -- Of a ready individual with bytes, less than 2 ^ 32 - 64 of them, `duplicate_byte` makes a new one
  -- with the byte drawn repeated one to four times in front of itself; it does not fault.
  pub duplicate_byte_lem :
      let (idx, r1) = next_number r (length bytes) in
      let (n, r2) = next_number r1 4 in
      Makes m i ready
        (take idx bytes ++ (replicate (n + 1) (get_or bytes idx 0) ++ drop idx bytes))
        r2
        (duplicate_byte r m i)
  unfolding duplicate_byte
  duplicate_byte_lem = >>=-Returns _ (clone-Child m i ready) λ c ch.
      let w = Grown-View ch.grown in
      let (idx, r1) = next_number r (length bytes) in
      let (n, r2) = next_number r1 4 in
      let inside : idx < length bytes = omega (arith, next_number-lt r (length bytes)) in
      let few : n < 4 = omega (arith, next_number-lt r1 4) in
      let e1 : add32 n 1 ≡ n + 1 = omega arith in
      let e2 : add32 idx (n + 1) - idx ≡ n + 1 = omega arith in
      let x = get_or bytes idx 0 in
      rw
        (
          ch.index,
          slot_length-View c.1 m.next_index ch.grown.valid w,
          buffer-View c.1 m.next_index ch.grown.valid w,
          to_u32-small (length bytes) (omega arith),
          e1,
          peek_lem c.1 m.next_index ch.grown.valid w idx inside,
        )
        (>>=-Returns _
          (insert_bytes-Opened c.1 m.next_index ch.grown.valid w idx (n + 1)
            (Provides-of_answer m.heap c.1.heap ch.grown.answer ready.supply) (omega arith)
            (omega arith) (omega arith))
          λ m2 o.
            let v = Updated-View o.updated in
            let fits : idx + (n + 1) ≤ length (take idx bytes ++ (o.gap ++ drop idx bytes)) =
              omega (arith, length_opened idx bytes o.gap (omega arith), o.sized) in
            rw (buffer-View m2.1 m.next_index o.updated.valid v, e2)
              (>>=-Returns _ (fill-Rewrites (n + 1) m2.1 m.next_index o.updated.valid v idx x fits)
                λ m3 (u, _).
                  let e3 =
                    overwrite_opened idx bytes o.gap (replicate (n + 1) x) (omega arith)
                      (omega (arith, o.sized, length-replicate (n + 1) x)) in
                  returns _ (
                    record {
                      index = refl;
                      id = ch.id;
                      grown = rw e3 at (Grown-Updated ch.grown (Updated-trans o.updated u));
                    },
                    refl,
                  )))

  -- Of a ready individual with bytes, less than 2 ^ 32 - 64 of them, `duplicate_bytes` makes a new one
  -- with a run of one to eight bytes repeated one to four times behind itself, or with the same bytes
  -- if they are no more than the run; it does not fault.
  pub duplicate_bytes_lem :
      let (k, r1) = next_number r 8 in
      let range = k + 1 in
      let (idx, r2) = next_number r1 (length bytes - range) in
      let (n, r3) = next_number r2 4 in
      let run = take range (drop idx bytes) in
      Makes m i ready
        (if leb (length bytes) range
          then bytes
          else take (idx + range) bytes ++ (repeat (n + 1) run ++ drop (idx + range) bytes))
        (if leb (length bytes) range then r1 else r3)
        (duplicate_bytes r m i)
  unfolding duplicate_bytes
  duplicate_bytes_lem = >>=-Returns _ (clone-Child m i ready) λ c ch.
      let w = Grown-View ch.grown in
      let (k, r1) = next_number r 8 in
      let range = k + 1 in
      let (idx, r2) = next_number r1 (length bytes - range) in
      let (n, r3) = next_number r2 4 in
      let run = take range (drop idx bytes) in
      let d = idx + range in
      let short : k < 8 = omega (arith, next_number-lt r 8) in
      let few : n < 4 = omega (arith, next_number-lt r2 4) in
      let area : (n + 1) * range ≤ 32 = bounded_area (n + 1) range (omega arith) (omega arith) in
      let positive : 0 < (n + 1) * range = grind arith in
      let e1 : add32 k 1 ≡ range = omega arith in
      let e2 : add32 n 1 ≡ n + 1 = omega arith in
      rw (ch.index, slot_length-View c.1 m.next_index ch.grown.valid w, e1)
        (elim (dec_le (length bytes) range) [
          | yes l ↦
              rw (le→leb (length bytes) range l)
                (returns _ (record { index = refl; id = ch.id; grown = ch.grown }, refl))
          | no l ↦
              let inside : idx < length bytes - range =
                omega (arith, next_number-lt r1 (length bytes - range)) in
              let e3 : sub64 (length bytes) range ≡ length bytes - range =
                sub64-small (length bytes) range (omega arith) (omega arith) in
              let e4 : add32 idx range ≡ d = omega arith in
              let e5 : mul32 (n + 1) range ≡ (n + 1) * range = omega arith in
              rw
                (
                  lt→leb range (length bytes) (omega arith),
                  e3,
                  to_u32-small (length bytes - range) (omega arith),
                  e2,
                  e4,
                  e5,
                )
                (>>=-Returns _
                  (insert_bytes-Opened c.1 m.next_index ch.grown.valid w d ((n + 1) * range)
                    (Provides-of_answer m.heap c.1.heap ch.grown.answer ready.supply) (omega arith)
                    positive (omega arith))
                  λ m2 o.
                    let v = Updated-View o.updated in
                    let fits : d + (n + 1) * range
                        ≤ length (take d bytes ++ (o.gap ++ drop d bytes)) =
                      omega (arith, length_opened d bytes o.gap (omega arith), o.sized) in
                    rw (buffer-View m2.1 m.next_index o.updated.valid v) (
                      >>=-Returns _
                        (copy_runs-Rewrites (n + 1) m2.1 m.next_index o.updated.valid v idx d range
                          (omega arith) fits)
                        λ m3 (u, _).
                          let e6 =
                            front_run idx range bytes (o.gap ++ drop d bytes) (omega arith) in
                          let e7 =
                            overwrite_opened d bytes o.gap (repeat (n + 1) run) (omega arith) (
                              o.sized
                              ∙ sym (
                                  length-repeat (n + 1) run
                                  ∙ ap (λ t. (n + 1) * t)
                                      (length_run idx range bytes (omega arith)))) in
                          returns _ (
                            record {
                              index = refl;
                              id = ch.id;
                              grown =
                                  rw e7 at
                                    (rw e6 at (Grown-Updated ch.grown (Updated-trans o.updated u)));
                            },
                            refl,
                          )))
        ])
