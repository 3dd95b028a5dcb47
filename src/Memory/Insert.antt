-- ===== src/Memory/Insert.antt =====
-- A gap in the bytes of a slot (fuzzer/fuzzer/memory-manager.cpp: `insert_bytes`).
use fuzzer_goal_directed.Prelude.{
  ℕ, ◌+◌, ◌-◌, ◌<◌, ◌≤◌, ◌≡◌, refl, ap, ◌∙◌, Bool, true, List, ◌++◌, arith, u64_mod, length,
  length-append, take, drop, take_append_le, take-length, append_assoc, append-nil, length-take,
  length-drop, add64, sub64, add64-small, sub64-small, drop_append_le, lt→ltb, le→ltb, drop_all,
  take-add, take_front_append, drop_front_append, dec_lt,
}
use fuzzer_goal_directed.Result.{ok, Returns, returns, Returns-mono, >>=-Returns, ◌>>=◌}
use fuzzer_goal_directed.Heap.{Provides, memmove}
use fuzzer_goal_directed.Heap.Laws.{memmove-live}
use fuzzer_goal_directed.Memory.{MemoryManager, buffer, resize_buffer, insert_bytes}
use fuzzer_goal_directed.Memory.Invariant.{IsValid, View}
use fuzzer_goal_directed.Memory.Bytes.{
  Updated, buffer-View, slot_length-View, reblocked-Updated, Updated-trans, Updated-View,
}
use fuzzer_goal_directed.Memory.Resize.{known_slot, resize_buffer_lem}

-- What `insert_bytes` is for: `number` bytes of whatever content in front of the byte at `start`.
pub record Opened (m : MemoryManager) (i : ℕ) (old : List ℕ) (start number : ℕ)
    (r : Bool × MemoryManager) : Type 0 where
  pub success : r.0 ≡ true
  pub gap : List ℕ
  pub sized : length gap ≡ number
  pub updated : Updated m i (take start old ++ (gap ++ drop start old)) r.1

module _ (m : MemoryManager) (i : ℕ) (old gap : List ℕ) (start number : ℕ)
    (sized : length gap ≡ number) (le : start ≤ length old) (small : length old + number < u64_mod)
    (v : IsValid m) (w : View m i (old ++ gap)) where
  abbrev opened : List ℕ
  opened = take number (drop start (old ++ gap))

  abbrev shifted_bytes : List ℕ
  shifted_bytes = take start old ++ (opened ++ drop start old)

  length-opened : length opened ≡ number
  length-opened = omega (
    arith,
    length-take number (drop start (old ++ gap)),
    length-drop start (old ++ gap),
    length-append old gap,
  )

  length-shifted : length shifted_bytes ≡ length (old ++ gap)
  length-shifted = omega (
    arith,
    length-append (take start old) (opened ++ drop start old),
    length-append opened (drop start old),
    length-opened,
    length-append old gap,
    length-take start old,
    length-drop start old,
  )

  shifted_block :
      take (start + number) ((old ++ gap) ++ w.pad)
        ++ (take (length old - start) (drop start ((old ++ gap) ++ w.pad))
            ++ drop (start + number + (length old - start)) ((old ++ gap) ++ w.pad))
      ≡ shifted_bytes ++ w.pad
  shifted_block =
      let whole : length (old ++ gap) ≡ length old + number =
        omega (arith, length-append old gap) in
      let front : take (start + number) ((old ++ gap) ++ w.pad) ≡ take start old ++ opened =
        take_append_le (start + number) (old ++ gap) w.pad (omega (arith, whole))
        ∙ take-add start number (old ++ gap)
        ∙ ap (λ x. x ++ opened) (take_append_le start old gap le) in
      let middle : take (length old - start) (drop start ((old ++ gap) ++ w.pad)) ≡ drop start old =
        ap (λ x. take (length old - start) (drop start x)) (append_assoc old gap w.pad)
        ∙ ap (take (length old - start)) (drop_append_le start old (gap ++ w.pad) le)
        ∙ take_front_append (length old - start) (drop start old) (gap ++ w.pad)
            (length-drop start old) in
      let back : drop (start + number + (length old - start)) ((old ++ gap) ++ w.pad) ≡ w.pad =
        drop_front_append (start + number + (length old - start)) (old ++ gap) w.pad
          (omega (arith, whole)) in
      rw (front, middle, back) (simp append_assoc)

  shift_lem :
      Returns {A = Bool × MemoryManager}
        (λ r. (r.0 ≡ true) × Updated m i shifted_bytes r.1)
        (memmove m.heap
            (buffer m i)
            (add64 start number)
            (buffer m i)
            start
            (sub64 (length old) start)
          >>= λ h. ok (true, record m { heap = h }))
  shift_lem =
      rw
        (
          buffer-View m i v w,
          add64-small start number (omega arith),
          sub64-small (length old) start le (omega arith),
          memmove-live m.heap w.address w.address (start + number) start (length old - start)
              w.block w.block
              (omega (arith, length-append old gap, length-append (old ++ gap) w.pad))
              (omega (arith, length-append old gap, length-append (old ++ gap) w.pad)),
          shifted_block,
        )
        (returns _ (
          refl,
          reblocked-Updated m i v w shifted_bytes w.pad m.lengths
              (omega (arith, w.room, length-shifted))
              (λ j. ground (arith, w.lengths, length-shifted)),
        ))

module _ (m : MemoryManager) (i : ℕ) {old : List ℕ} (v : IsValid m) (w : View m i old) where
  -- In a valid manager with memory on the heap, `insert_bytes` opens a gap of `number` bytes, at least
  -- one, at a `start` within the bytes or at their end, if the new length does not wrap: it does not
  -- fault, the manager stays valid, and no other slot changes.
  pub insert_bytes-Opened :
      (start number : ℕ)
      → Provides m.heap
      → start ≤ length old
      → 0 < number
      → length old + number < u64_mod
      → Returns (Opened m i old start number) (insert_bytes m i start number)
  unfolding insert_bytes
  insert_bytes-Opened start number supply le pos small = elim (dec_lt start (length old)) [
    | yes l ↦
        rw
          (
            known_slot w,
            slot_length-View m i v w,
            add64-small (length old) number small,
            lt→ltb start (length old) l,
          )
          (>>=-Returns _ grown λ r (p, (gap, sized, u)). rw p (
            let sized' : length gap ≡ number = omega arith in
            Returns-mono
              (λ r' s. record {
                success = s.0;
                gap = take number (drop start (old ++ gap));
                sized =
                    length-opened r.1 i old gap start number sized' le small u.valid
                      (Updated-View u);
                updated = Updated-trans u s.1;
              })
              (shift_lem r.1 i old gap start number sized' le small u.valid (Updated-View u))))
    | no n ↦
        rw
          (
            known_slot w,
            slot_length-View m i v w,
            add64-small (length old) number small,
            le→ltb (length old) start (omega arith),
          )
          (Returns-mono
            (λ r (p, (gap, sized, u)). record {
              success = p;
              gap = gap;
              sized = omega arith;
              updated =
                  let e : start ≡ length old = omega arith in
                  let f : take start old ++ (gap ++ drop start old) ≡ old ++ gap =
                    rw (e, take-length old, drop_all (length old) old (omega arith), append-nil gap)
                      refl in
                  rw f u;
            })
            grown)
  ]
    where
      grown :
          Returns
            (λ r.
              (r.0 ≡ true)
              × ((gap : List ℕ) × (length gap ≡ length old + number - length old)
                  × Updated m i (old ++ gap) r.1))
            (resize_buffer m i (length old + number))
      grown = resize_buffer_lem m i v w (length old + number) supply (omega arith) (omega arith)
