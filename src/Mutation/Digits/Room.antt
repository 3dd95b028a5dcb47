-- ===== src/Mutation/Digits/Room.antt =====
-- How `ChangeASCIIIntegerMutator` makes room and writes its digits (fuzzer/fuzzer/mutations.cpp).
use fuzzer_goal_directed.Prelude.{
  ℕ, ◌+◌, ◌-◌, ◌≤◌, ◌<◌, ◌≡◌, refl, sym, ap, ◌∙◌, true, some, List, [], ◌∷◌, ◌++◌, arith, ◌==◌,
  length, take, drop, min, append_assoc, length-append, length-take, length-drop, length-set,
  take-append-drop, take-add, drop-drop, dec_lt, lt→ltb, le→ltb, ==_iff, u32_mod, add64,
}
use fuzzer_goal_directed.Result.{Returns, returns, Returns-mono, >>=-Returns}
use fuzzer_goal_directed.Heap.{Provides}
use fuzzer_goal_directed.Memory.{MemoryManager, slot_length}
use fuzzer_goal_directed.Memory.Invariant.{IsValid, View}
use fuzzer_goal_directed.Memory.Bytes.{
  Updated, poke-Updated, Updated-View, Updated-trans, Updated-refl, same_address, slot_length-View,
}
use fuzzer_goal_directed.Memory.Insert.{insert_bytes-Opened}
use fuzzer_goal_directed.Mutation.Block.Overwrite.{
  overwrite, overwrite-nil, overwrite-cons, overwrite_gap,
}
use fuzzer_goal_directed.Mutation.Block.Loops.{Rewrites}
use fuzzer_goal_directed.Mutation.Single.Laws.{to_u32-small, length_opened}
use fuzzer_goal_directed.Mutation.Digits.{write_all, room_for}

pub write_all-Rewrites :
    (digits : List ℕ) (m : MemoryManager) (i : ℕ) {old : List ℕ} (v : IsValid m) (w : View m i old)
    (start : ℕ)
    → start + length digits ≤ length old
    → Rewrites m i (overwrite old start digits) (write_all m (some w.address) start digits)
unfolding write_all
write_all-Rewrites [] m i {old} v w start h =
    returns m (rw (overwrite-nil old start) (Updated-refl v w), refl)
write_all-Rewrites (c ∷ rest) m i {old} v w start h =
    >>=-Returns _ (poke-Updated m i v w start c (omega arith)) λ m' (u, s).
      let w' = Updated-View u in
      rw (same_address m m' i w w' s) (
        Returns-mono
          (λ m'' (u', s'). (rw (overwrite-cons old start c rest) at (Updated-trans u u'), s' ∙ s))
          (write_all-Rewrites rest m' i u.valid w' (start + 1)
            (omega (arith, length-set old start c))))

-- The run of `n` bytes at `start` with the digits in its place; digits that are fewer replace the
-- front of the run only.
abbrev pub replaced : List ℕ → ℕ → ℕ → List ℕ → List ℕ
replaced bytes start n digits =
    take start bytes ++ (digits ++ drop (start + min n (length digits)) bytes)

overwrite_inside :
    (bytes : List ℕ) (start : ℕ) (digits : List ℕ)
    → start + length digits ≤ length bytes
    → overwrite bytes start digits
      ≡ take start bytes ++ (digits ++ drop (start + length digits) bytes)
overwrite_inside bytes start digits h =
    let d = length digits in
    let front = take start bytes in
    let back = drop (start + d) bytes in
    let run = take d (drop start bytes) in
    let whole : bytes ≡ front ++ (run ++ back) = sym (
      ap (λ b. front ++ (run ++ b)) (sym (drop-drop d start bytes))
      ∙ ap (λ b. front ++ b) (take-append-drop d (drop start bytes))
      ∙ take-append-drop start bytes) in
    ap (λ b. overwrite b start digits) whole
    ∙ ap (λ k. overwrite (front ++ (run ++ back)) k digits)
        (let e : start ≡ length front = omega (arith, length-take start bytes) in e)
    ∙ overwrite_gap front run back digits
        (omega (arith, length-take d (drop start bytes), length-drop start bytes))

overwrite_opened :
    (bytes : List ℕ) (start n : ℕ) (gap digits : List ℕ)
    → start + n ≤ length bytes
    → n + length gap ≡ length digits
    → overwrite (take (start + n) bytes ++ (gap ++ drop (start + n) bytes)) start digits
      ≡ take start bytes ++ (digits ++ drop (start + n) bytes)
overwrite_opened bytes start n gap digits h e =
    let front = take start bytes in
    let back = drop (start + n) bytes in
    let run = take n (drop start bytes) in
    let whole : take (start + n) bytes ++ (gap ++ back) ≡ front ++ ((run ++ gap) ++ back) =
      ap (λ b. b ++ (gap ++ back)) (take-add start n bytes)
      ∙ append_assoc front run (gap ++ back)
      ∙ ap (λ b. front ++ b) (sym (append_assoc run gap back)) in
    ap (λ b. overwrite b start digits) whole
    ∙ ap (λ k. overwrite (front ++ ((run ++ gap) ++ back)) k digits)
        (let q : start ≡ length front = omega (arith, length-take start bytes) in q)
    ∙ overwrite_gap front (run ++ gap) back digits (
        omega (
          arith,
          e,
          length-append run gap,
          length-take n (drop start bytes),
          length-drop start bytes,
        ))

-- There is room for the digits, whose writing replaces the run.
pub record Roomy (m : MemoryManager) (i : ℕ) (bytes : List ℕ) (start n : ℕ) (digits : List ℕ)
    (m' : MemoryManager) : Type 0 where
  pub roomy : List ℕ
  pub updated : Updated m i roomy m'
  pub fits : start + length digits ≤ length roomy
  pub writes : overwrite roomy start digits ≡ replaced bytes start n digits

pub room_for-Roomy :
    (m : MemoryManager) (i : ℕ) {bytes : List ℕ} (v : IsValid m) (w : View m i bytes) (start n : ℕ)
    (digits : List ℕ)
    → Provides m.heap
    → start + n ≤ length bytes
    → length digits ≤ 20
    → length bytes + 64 < u32_mod
    → Returns (Roomy m i bytes start n digits) (room_for m i (length bytes) start n (length digits))
unfolding room_for
room_for-Roomy m i {bytes} v w start n digits supply h few small = elim (dec_lt n (length digits)) [
  | no k ↦ rw (le→ltb (length digits) n (omega (arith, k))) (
      returns m (record {
        roomy = bytes;
        updated = Updated-refl v w;
        fits = omega (arith, h, k);
        writes =
            overwrite_inside bytes start digits (omega (arith, h, k))
            ∙ ap (λ x. take start bytes ++ (digits ++ drop (start + x) bytes)) (omega (arith, k));
      }))
  | yes l ↦
      rw
        (
          lt→ltb n (length digits) l,
          to_u32-small (length digits - n) (omega (arith, few)),
          to_u32-small (start + n) (omega (arith, h, small)),
        )
        (>>=-Returns _
          (insert_bytes-Opened m i v w (start + n) (length digits - n) supply h (omega (arith, l))
            (omega (arith, few, small)))
          λ r o.
            let long = length_opened (start + n) bytes o.gap h in
            let sized : add64 (length bytes) (length digits - n) == slot_length r.1 i ≡ true =
              rw (slot_length-View r.1 i o.updated.valid (Updated-View o.updated))
                ((==_iff _ _).1 (omega (arith, long, o.sized, few, small))) in
            rw sized (
              returns r.1 (record {
                roomy = take (start + n) bytes ++ (o.gap ++ drop (start + n) bytes);
                updated = o.updated;
                fits = omega (arith, long, o.sized, h, l);
                writes =
                    overwrite_opened bytes start n o.gap digits h (omega (arith, o.sized, l))
                    ∙ ap (λ x. take start bytes ++ (digits ++ drop (start + x) bytes))
                        (omega (arith, l));
              })))
]
