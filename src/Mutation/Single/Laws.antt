-- ===== src/Mutation/Single/Laws.antt =====
-- Each mutator of one byte against its reference on lists of bytes (fuzzer/fuzzer/mutations.cpp).
use fuzzer_goal_directed.Prelude.{
  ℕ, ◌+◌, ◌<◌, ◌≤◌, ◌≡◌, refl, sym, ap, ◌∙◌, true, List, [], ◌∷◌, ◌++◌, arith, ltb, ◌==◌,
  if◌then◌else◌, length, get_or, set, take, drop, to_u32, u32_mod, set_past, set_at_length,
  length-append, length-take, length-drop, dec_lt, lt→ltb, le→ltb, sub64, sub64-small, add64-small,
  ==_iff,
}
use fuzzer_goal_directed.Result.{Returns, returns, >>=-Returns}
use fuzzer_goal_directed.Memory.{MemoryManager, slot_length}
use fuzzer_goal_directed.Memory.Bytes.{
  poke-Updated, peek_in_block, buffer-View, slot_length-View, Updated-View, Updated-trans,
}
use fuzzer_goal_directed.Memory.Insert.{insert_bytes-Opened}
use fuzzer_goal_directed.Memory.Remove.{remove_bytes_lem}
use fuzzer_goal_directed.Heap.Laws.{Provides-of_answer}
use fuzzer_goal_directed.Memory.Copy.{Grown-View, Grown-Updated}
use fuzzer_goal_directed.Random.{Rand, next_number, next_char}
use fuzzer_goal_directed.Random.Laws.{next_number-lt}
use fuzzer_goal_directed.Individual.{Individual}
use fuzzer_goal_directed.Individual.Clone.{Ready, Child, clone-Child}
use fuzzer_goal_directed.Mutation.Single.{
  Outcome, flip_bit, toggle, change_byte, erase_byte, insert_byte,
}

pub to_u32-small : (n : ℕ) → n < u32_mod → to_u32 n ≡ n
to_u32-small n h = omega arith

pub length_opened :
    (n : ℕ) (xs gap : List ℕ)
    → n ≤ length xs
    → length (take n xs ++ (gap ++ drop n xs)) ≡ length xs + length gap
length_opened n xs gap le = omega (
  arith,
  length-append (take n xs) (gap ++ drop n xs),
  length-append gap (drop n xs),
  length-take n xs,
  length-drop n xs,
)

set_in_gap :
    (n : ℕ) (xs gap : List ℕ) (x : ℕ)
    → n ≤ length xs
    → length gap ≡ 1
    → set (take n xs ++ (gap ++ drop n xs)) n x ≡ take n xs ++ (x ∷ drop n xs)
set_in_gap n xs [] x le e = absurd (omega arith)
set_in_gap n xs (g ∷ g' ∷ gap) x le e = absurd (omega arith)
set_in_gap n xs (g ∷ []) x le e =
    let size : length (take n xs) ≡ n = omega (arith, length-take n xs) in
    ap (λ k. set (take n xs ++ (g ∷ drop n xs)) k x) (sym size)
    ∙ set_at_length (take n xs) (drop n xs) g x

-- The outcome is a new individual that holds `after`, and the generator `r'`.
abbrev pub Makes :
    (m : MemoryManager) (i : Individual) {bytes : List ℕ}
    → Ready m i.index bytes
    → List ℕ
    → Rand
    → Outcome
    → Type 0
Makes m i ready after r' = Returns (λ o. Child m i.index ready.count after o.0 o.2 × (o.1 ≡ r'))

module _ (r : Rand) (m : MemoryManager) (i : Individual) {bytes : List ℕ}
    (ready : Ready m i.index bytes) (small : length bytes + 1 < u32_mod) where
  -- `flip_bit` toggles as `toggle` does, whatever the bytes are.
  pub flip_bit-toggle :
      let (idx, r1) = next_number r (length bytes) in
      let (bit, r2) = next_number r1 8 in
      Makes m i ready (set bytes idx (toggle (get_or bytes idx 0) bit)) r2 (flip_bit r m i)
  unfolding flip_bit
  flip_bit-toggle = >>=-Returns _ (clone-Child m i ready) λ c ch.
      let w = Grown-View ch.grown in
      rw
        (
          ch.index,
          slot_length-View c.1 m.next_index ch.grown.valid w,
          buffer-View c.1 m.next_index ch.grown.valid w,
          to_u32-small (length bytes) (omega arith),
        )
        (>>=-Returns _
          (peek_in_block c.1 m.next_index ch.grown.valid w idx (next_number-lt r (length bytes)))
          λ x e.
            >>=-Returns _
              (poke-Updated c.1 m.next_index ch.grown.valid w idx (toggle x bit)
                (next_number-lt r (length bytes)))
              λ m2 (u, _). returns _ (
                record {
                  index = refl;
                  id = ch.id;
                  grown = rw (same x e) at (Grown-Updated ch.grown u);
                },
                refl,
              ))
    where
      idx : ℕ
      idx = (next_number r (length bytes)).0

      bit : ℕ
      bit = (next_number (next_number r (length bytes)).1 8).0

      same :
          (x : ℕ)
          → (idx < length bytes → x ≡ get_or bytes idx 0)
          → set bytes idx (toggle x bit) ≡ set bytes idx (toggle (get_or bytes idx 0) bit)
      same x e = elim (dec_lt idx (length bytes)) [
        | yes l ↦ rw (e l)
        | no n ↦
            set_past bytes idx (toggle x bit) (omega arith)
            ∙ sym (set_past bytes idx (toggle (get_or bytes idx 0) bit) (omega arith))
      ]

  -- Of a ready individual of less than 2 ^ 32 - 1 bytes, `change_byte` makes a new one with the next
  -- character drawn for the byte drawn, and no bytes where there are none; it does not fault.
  pub change_byte_lem :
      let (idx, r1) = next_number r (length bytes) in
      let (x, r2) = next_char r1 in Makes m i ready (set bytes idx x) r2 (change_byte r m i)
  unfolding change_byte
  change_byte_lem = >>=-Returns _ (clone-Child m i ready) λ c ch.
      let w = Grown-View ch.grown in
      rw
        (
          ch.index,
          slot_length-View c.1 m.next_index ch.grown.valid w,
          buffer-View c.1 m.next_index ch.grown.valid w,
          to_u32-small (length bytes) (omega arith),
        )
        (>>=-Returns _
          (poke-Updated c.1 m.next_index ch.grown.valid w (next_number r (length bytes)).0
            (next_char (next_number r (length bytes)).1).0 (next_number-lt r (length bytes)))
          λ m2 (u, _).
            returns _ (record { index = refl; id = ch.id; grown = Grown-Updated ch.grown u }, refl))

  -- Of a ready individual of less than 2 ^ 32 - 1 bytes, `erase_byte` makes a new one without the byte
  -- drawn, or with the same bytes if there are fewer than two; it does not fault.
  pub erase_byte_lem :
      let (idx, r1) = next_number r (length bytes) in
      Makes m i ready
        (if ltb (length bytes) 2 then bytes else take idx bytes ++ drop (idx + 1) bytes)
        (if ltb (length bytes) 2 then r else r1)
        (erase_byte r m i)
  unfolding erase_byte
  erase_byte_lem = >>=-Returns _ (clone-Child m i ready) λ c ch.
      let w = Grown-View ch.grown in
      let idx = (next_number r (length bytes)).0 in
      rw
        (
          ch.index,
          slot_length-View c.1 m.next_index ch.grown.valid w,
          to_u32-small (length bytes) (omega arith),
        )
        (elim (dec_lt (length bytes) 2) [
          | yes l ↦
              rw (lt→ltb (length bytes) 2 l)
                (returns _ (record { index = refl; id = ch.id; grown = ch.grown }, refl))
          | no n ↦ rw (le→ltb 2 (length bytes) (omega arith)) (
              >>=-Returns _
                (remove_bytes_lem c.1 m.next_index ch.grown.valid w idx 1 (omega arith)
                  (omega (arith, next_number-lt r (length bytes))) (omega arith))
                λ m2 (_, u).
                  let size : sub64 (length bytes) 1 == slot_length m2.1 m.next_index ≡ true =
                    rw
                      (
                        slot_length-View m2.1 m.next_index u.valid (Updated-View u),
                        sub64-small (length bytes) 1 (omega arith) (omega arith),
                      )
                      ((==_iff _ _).1 (
                        omega (
                          arith,
                          length-append (take idx bytes) (drop (idx + 1) bytes),
                          length-take idx bytes,
                          length-drop (idx + 1) bytes,
                          next_number-lt r (length bytes),
                        ))) in
                  rw size (
                    returns _ (
                      record { index = refl; id = ch.id; grown = Grown-Updated ch.grown u },
                      refl,
                    )))
        ])

  -- Of a ready individual of less than 2 ^ 32 - 1 bytes, `insert_byte` makes a new one with the next
  -- character drawn in front of the byte at the index drawn, or at the end; it does not fault.
  pub insert_byte_lem :
      let (idx, r1) = next_number r (length bytes + 1) in
      let (x, r2) = next_char r1 in
      Makes m i ready (take idx bytes ++ (x ∷ drop idx bytes)) r2 (insert_byte r m i)
  unfolding insert_byte
  insert_byte_lem = >>=-Returns _ (clone-Child m i ready) λ c ch.
      let w = Grown-View ch.grown in
      let (idx, r1) = next_number r (length bytes + 1) in
      let (x, r2) = next_char r1 in
      let le : idx ≤ length bytes = omega (arith, next_number-lt r (length bytes + 1)) in
      rw
        (
          ch.index,
          slot_length-View c.1 m.next_index ch.grown.valid w,
          add64-small (length bytes) 1 (omega arith),
          to_u32-small (length bytes + 1) small,
        )
        (>>=-Returns _
          (insert_bytes-Opened c.1 m.next_index ch.grown.valid w idx 1
            (Provides-of_answer m.heap c.1.heap ch.grown.answer ready.supply) le (omega arith)
            (omega arith))
          λ m2 o.
            let v = Updated-View o.updated in
            let size : length bytes + 1 == slot_length m2.1 m.next_index ≡ true =
              rw (slot_length-View m2.1 m.next_index o.updated.valid v)
                ((==_iff _ _).1 (omega (arith, length_opened idx bytes o.gap le, o.sized))) in
            rw (size, buffer-View m2.1 m.next_index o.updated.valid v)
              (>>=-Returns _
                (poke-Updated m2.1 m.next_index o.updated.valid v idx x
                  (omega (arith, length_opened idx bytes o.gap le, o.sized)))
                λ m3 (u, _). returns _ (
                  record {
                    index = refl;
                    id = ch.id;
                    grown =
                        rw (set_in_gap idx bytes o.gap x le o.sized) at
                          (Grown-Updated ch.grown (Updated-trans o.updated u));
                  },
                  refl,
                )))
