-- ===== src/Evolution/Best.antt =====
-- The container of the best individuals (fuzzer/fuzzer/evolution.cpp: `best_individuals_t`).
use fuzzer_goal_directed.Prelude.{
  ℕ, suc, ◌+◌, ◌≤◌, ◌<◌, ◌≡◌, refl, ap, ◌∙◌, Bool, true, false, not, ◌&&◌, ◌||◌, ◌==◌, ◌++◌, none,
  some, List, [], ◌∷◌, arith, if◌then◌else◌, length, Bool-cases, inl, inr, le→leb, lt→leb,
  length-append,
}
use fuzzer_goal_directed.Result.{ok, Returns, returns, >>=-Returns}
use fuzzer_goal_directed.OrderedMap.{lookup}
use fuzzer_goal_directed.Heap.Laws.{read_range-live}
use fuzzer_goal_directed.Memory.{MemoryManager, contains}
use fuzzer_goal_directed.Memory.Invariant.{contents, contents-View}
use fuzzer_goal_directed.Memory.Bytes.{buffer-View, slot_length-View, take_front}
use fuzzer_goal_directed.Random.{insert_sorted}
use fuzzer_goal_directed.Random.Sorted.{contains-insert_sorted}
use fuzzer_goal_directed.Individual.{Individual}
use fuzzer_goal_directed.Individual.Clone.{Ready, clone_keep_id}
use fuzzer_goal_directed.Measure.{Measure, Floats, measure_lt, measure_gt}
use fuzzer_goal_directed.Measure.Laws.{IsOrdered, measure_lt-irreflexive, measure_lt-transitive}
use fuzzer_goal_directed.Evolution.{
  BestIndividuals, insert_key, find_key, individual_hash, insert_best, drop_min,
  consolidate_min_key, stored,
}

module _ {W : Type 0} (floats : Floats W) where
  -- `m` is not greater than the first key.
  abbrev pub Starts : Measure → List (Measure × Individual) → Type 0
  Starts m [] = Unit {0}
  Starts m ((k, i) ∷ rest) = measure_lt floats k m ≡ false

  -- No key is smaller than the one before it.
  abbrev pub Sorted : List (Measure × Individual) → Type 0
  Sorted [] = Unit {0}
  Sorted ((k, i) ∷ rest) = Starts k rest × Sorted rest

  Starts-insert_key :
      (m s : Measure) (i : Individual) (c : List (Measure × Individual))
      → Starts m c
      → measure_lt floats s m ≡ false
      → Starts m (insert_key floats s i c)
  unfolding insert_key
  Starts-insert_key m s i [] h k = k
  Starts-insert_key m s i ((n, j) ∷ rest) h k = elim (Bool-cases (measure_lt floats s n)) [
    | inl e ↦ rw e k
    | inr e ↦ rw e h
  ]

  -- An insertion keeps the keys in their order.
  pub insert_key-Sorted :
      (o : IsOrdered floats) (s : Measure) (i : Individual) (c : List (Measure × Individual))
      → Sorted c
      → Sorted (insert_key floats s i c)
  unfolding insert_key
  insert_key-Sorted o s i [] h = (tt, tt)
  insert_key-Sorted o s i ((n, j) ∷ rest) h = elim (Bool-cases (measure_lt floats s n)) [
    | inl e ↦ rw e (reversed_lt e, h)
    | inr e ↦ rw e (Starts-insert_key n s i rest h.0 e, insert_key-Sorted o s i rest h.1)
  ]
    where
      reversed_lt : measure_lt floats s n ≡ true → measure_lt floats n s ≡ false
      reversed_lt e = elim (Bool-cases (measure_lt floats n s)) [
        | inl e' ↦
            ground (arith, measure_lt-irreflexive floats o s, measure_lt-transitive floats o s n s)
        | inr e' ↦ e'
      ]

  length-insert_key :
      (s : Measure) (i : Individual) (c : List (Measure × Individual))
      → length (insert_key floats s i c) ≡ suc (length c)
  unfolding insert_key
  length-insert_key s i [] = refl
  length-insert_key s i ((n, j) ∷ rest) = ground (arith, length-insert_key s i rest)

  -- Every key is no greater than `s`.
  abbrev pub NotAbove : Measure → List (Measure × Individual) → Type 0
  NotAbove s [] = Unit {0}
  NotAbove s ((k, j) ∷ rest) = (measure_lt floats s k ≡ false) × NotAbove s rest

  -- The first key, if there is one, is greater than `s`.
  abbrev pub Exceeds : Measure → List (Measure × Individual) → Type 0
  Exceeds s [] = Unit {0}
  Exceeds s ((k, j) ∷ rest) = measure_lt floats s k ≡ true

  -- One element is put in front of the first key that is greater; the others stay as they were.
  pub record Placed (s : Measure) (i : Individual) (old new : List (Measure × Individual))
      : Type 0 where
    pub front : List (Measure × Individual)
    pub back : List (Measure × Individual)
    pub before : old ≡ front ++ back
    pub after : new ≡ front ++ ((s, i) ∷ back)
    pub not_above : NotAbove s front
    pub exceeds : Exceeds s back

  insert_key-Placed :
      (s : Measure) (i : Individual) (c : List (Measure × Individual))
      → Placed s i c (insert_key floats s i c)
  unfolding insert_key
  insert_key-Placed s i [] = record {
    front = [];
    back = [];
    before = refl;
    after = refl;
    not_above = tt;
    exceeds = tt;
  }
  insert_key-Placed s i ((k, j) ∷ rest) =
      let p = insert_key-Placed s i rest in
      elim (Bool-cases (measure_lt floats s k)) [
        | inl e ↦ rw e (record {
          front = [];
          back = (k, j) ∷ rest;
          before = refl;
          after = refl;
          not_above = tt;
          exceeds = e;
        })
        | inr e ↦ rw e (record {
          front = (k, j) ∷ p.front;
          back = p.back;
          before = ap (◌∷◌ (k, j)) p.before;
          after = ap (◌∷◌ (k, j)) p.after;
          not_above = (e, p.not_above);
          exceeds = p.exceeds;
        })
      ]

  module _ (hash : List ℕ → ℕ) (m : MemoryManager) (i : Individual) {bytes : List ℕ}
      (ready : Ready m i.index bytes) (b : BestIndividuals) (score : Measure)
      (new : contains (hash bytes) b.hashes ≡ false) where
    hash_lem : individual_hash floats hash m i ≡ ok (hash bytes)
    unfolding individual_hash
    hash_lem =
        let w = contents-View ready.valid ready.holds in
        rw (
          buffer-View m i.index ready.valid w,
          slot_length-View m i.index ready.valid w,
          read_range-live m.heap w.address 0 (length bytes) w.block
              (omega (arith, length-append bytes w.pad)),
          take_front bytes w.pad,
        )

    stored_lem :
        (b' : BestIndividuals) (h : ℕ)
        → Returns {A = BestIndividuals × MemoryManager}
            (λ r.
              (r.0 ≡ record b' {
                container = insert_key floats score i b'.container;
                hashes = insert_sorted h b'.hashes;
              })
              × (lookup i.index r.1.refs ≡ some (ready.count + 1))
              × ((j : ℕ) → contents r.1 j ≡ contents m j))
            (stored floats hash b' m score i h)
    stored_lem b' h = >>=-Returns _ (clone_keep_id m i ready) λ c (s, k, u). returns _ (
      ap
          (λ x. record b' {
            container = insert_key floats score x b'.container;
            hashes = insert_sorted h b'.hashes;
          })
          s,
      k,
      u,
    )

    -- The individual is in the container in its place, its hash is among the hashes, the least and the
    -- greatest key take its score into account, it has a reference of its own, and every slot holds
    -- what it held.
    pub record Stored (r : Bool × BestIndividuals × MemoryManager) : Type 0 where
      pub better :
          r.0 ≡ (not (measure_lt floats score b.min_key) && measure_gt floats score b.max_key)
      pub placed : Placed score i b.container r.1.container
      pub hashed : (h : ℕ) → contains h r.1.hashes ≡ (h == hash bytes || contains h b.hashes)
      pub limit : r.1.max_size ≡ b.max_size
      pub least : r.1.min_key ≡ (if measure_lt floats score b.min_key then score else b.min_key)
      pub greatest : r.1.max_key ≡ (if r.0 then score else b.max_key)
      pub counted : lookup i.index r.2.refs ≡ some (ready.count + 1)
      pub unchanged : (j : ℕ) → contents r.2 j ≡ contents m j

    no_min : find_key floats b.min_key b.container ≡ none → drop_min floats hash b m ≡ ok (b, m)
    unfolding drop_min
    no_min absent = rw (drop_min, absent)

    abbrev keyed : Bool → Bool → BestIndividuals
    keyed lower better =
        if lower
        then record b { min_key = score }
        else if better
        then record b { max_key = score }
        else b

    -- What stays, and what becomes of the least and the greatest key.
    record Keyed (lower greater : Bool) (k : BestIndividuals) : Type 0 where
      container : k.container ≡ b.container
      hashes : k.hashes ≡ b.hashes
      limit : k.max_size ≡ b.max_size
      least : k.min_key ≡ (if lower then score else b.min_key)
      greatest : k.max_key ≡ (if not lower && greater then score else b.max_key)

    keyed-Keyed : (lower greater : Bool) → Keyed lower greater (keyed lower (not lower && greater))
    keyed-Keyed true greater = record {
      container = refl;
      hashes = refl;
      limit = refl;
      least = refl;
      greatest = refl;
    }
    keyed-Keyed false true = record {
      container = refl;
      hashes = refl;
      limit = refl;
      least = refl;
      greatest = refl;
    }
    keyed-Keyed false false = record {
      container = refl;
      hashes = refl;
      limit = refl;
      least = refl;
      greatest = refl;
    }

    -- Below the maximal size, a ready individual with a new hash is stored in front of the first greater
    -- key, with its hash and a reference of its own. The least key becomes its score if it is less, and
    -- otherwise the greatest one if it is greater, which is what is returned. The other elements and
    -- hashes stay, every slot holds what it held, and nothing faults.
    pub insert_best-Stored :
        length b.container < b.max_size → Returns Stored (insert_best floats hash b m score i)
    unfolding insert_best
    insert_best-Stored small =
        let lower = measure_lt floats score b.min_key in
        let greater = measure_gt floats score b.max_key in
        let better = not lower && greater in
        let k = keyed-Keyed lower greater in
        rw (hash_lem, new, lt→leb (length b.container) b.max_size small)
          (>>=-Returns _ (stored_lem (keyed lower better) (hash bytes)) λ r (c, n, u).
            returns _ (record {
              better = refl;
              placed = rw (c, k.container) (insert_key-Placed score i b.container);
              hashed = λ h.
                  ap (λ x. contains h x.hashes) c
                  ∙ contains-insert_sorted h (hash bytes) _
                  ∙ ap (λ hs. h == hash bytes || contains h hs) k.hashes;
              limit = ap (λ x. x.max_size) c ∙ k.limit;
              least = ap (λ x. x.min_key) c ∙ k.least;
              greatest = ap (λ x. x.max_key) c ∙ k.greatest;
              counted = n;
              unchanged = u;
            }))

    -- At the maximal size, a ready individual with a new hash whose score is not below `min_key` makes
    -- the container grow if no element has the key `min_key`.
    pub insert_best_overfull :
        b.max_size ≤ length b.container
        → measure_lt floats score b.min_key ≡ false
        → find_key floats b.min_key b.container ≡ none
        → Returns {A = Bool × BestIndividuals × MemoryManager}
            (λ r. length r.1.container ≡ suc (length b.container))
            (insert_best floats hash b m score i)
    unfolding insert_best consolidate_min_key
    insert_best_overfull full high absent =
        let better = measure_gt floats score b.max_key in
        rw (hash_lem, new, le→leb b.max_size (length b.container) full, high, no_min absent)
          (>>=-Returns _
            (stored_lem (if better then record b { max_key = score } else b) (hash bytes))
            λ r (c, k, u). returns _ (
              ap (λ x. length x.container) c
              ∙ length-insert_key score i _
              ∙ ap (λ x. suc (length x)) (kept better)))
      where
        kept :
            (better : Bool)
            → (if better then record b { max_key = score } else b).container ≡ b.container
        kept true = refl
        kept false = refl
