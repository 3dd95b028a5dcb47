-- ===== src/CrashReader/Association.antt =====
-- The association of test cases with crashes (fuzzer/fuzzer/ui.cpp:
-- `UICrashReader::associated_bimap`): what it changes, in tables that agree.
use fuzzer_goal_directed.Prelude.{
  ℕ, suc, ◌+◌, ◌<◌, ◌≡◌, refl, ap, Bool, true, false, Option, none, some, List, [], ◌∷◌, ◌++◌,
  arith, ◌==◌, if◌then◌else◌, length, length-append, append-nil, get_elem?, get_elem?-append,
  bytes_equal, bytes_equal_sound, Bool-cases, ◌⊎◌, Option-cases, inl, inr, subst,
}
use fuzzer_goal_directed.OrderedMap.{lookup, insert, lookup-insert}
use fuzzer_goal_directed.Memory.{contains}
use fuzzer_goal_directed.NameMap.{Name, find_name}
use fuzzer_goal_directed.CrashReader.{
  CrashReader, index_of, associated_bimap, get_crash_id, or_empty,
}

index_of_sound :
    (name : Name) (i k : ℕ) (xs : List Name)
    → index_of name i xs ≡ some k
    → (d : ℕ) × (k ≡ i + d) × (d < length xs) × (get_elem? xs d ≡ some name)
unfolding index_of
index_of_sound name i k [] h = cc
index_of_sound name i k (x ∷ xs) h = elim (Bool-cases (bytes_equal x name)) [
  | inl e ↦ (0, ground (arith, e, h), omega arith, ap some (bytes_equal_sound x name e))
  | inr e ↦
      let (d, q, l, f) = index_of_sound name (i + 1) k xs (rw e at h) in
      (suc d, omega (arith, q), omega (arith, l), f)
]

index_of-get_elem? :
    (name : Name) (k : ℕ) (xs : List Name)
    → index_of name 0 xs ≡ some k
    → (k < length xs) × (get_elem? xs k ≡ some name)
index_of-get_elem? name k xs h =
    let (d, q, l, f) = index_of_sound name 0 k xs h in
    let e : k ≡ d = omega (arith, q) in (omega (arith, e, l), rw e f)

-- Whether a crash identifier is the one that was found.
abbrev pub named : Option Name → Name → Bool
named none name = false
named (some n) name = bytes_equal n name

-- The two tables agree: a test case is filed under a crash identifier exactly if that is its crash
-- identifier; and every index is one of a crash identifier.
pub record IsConsistent (s : CrashReader) : Type 0 where
  pub agrees :
      (testcase_id : ℕ) (name : Name)
      → contains testcase_id (or_empty (find_name name s.crashes_mapping))
        ≡ named (get_crash_id s testcase_id) name
  pub in_range : (testcase_id k : ℕ) → lookup testcase_id s.bimap ≡ some k → k < length s.crash_ids

get_elem?-last : (xs : List Name) (x : Name) → get_elem? (xs ++ (x ∷ [])) (length xs) ≡ some x
get_elem?-last [] x = refl
get_elem?-last (y ∷ xs) x = get_elem?-last xs x

pub no_crash_id :
    (s : CrashReader) (testcase_id : ℕ)
    → lookup testcase_id s.bimap ≡ none
    → get_crash_id s testcase_id ≡ none
unfolding get_crash_id
no_crash_id s testcase_id e = rw (e, get_crash_id) refl

pub ==_comm : (a b : ℕ) → (a == b) ≡ (b == a)
==_comm a b = ground arith

-- What a new association changes.
pub record Associated (s : CrashReader) (testcase_id : ℕ) (crash_id : Name) (s1 : CrashReader)
    : Type 0 where
  pub mapping : s1.crashes_mapping ≡ s.crashes_mapping
  pub found :
      (j : ℕ) → get_crash_id s1 j ≡ (if testcase_id == j then some crash_id else get_crash_id s j)
  pub in_range : (j k : ℕ) → lookup j s1.bimap ≡ some k → k < length s1.crash_ids

pub associated_bimap-old :
    (s : CrashReader) (testcase_id : ℕ) (crash_id : Name) (k : ℕ)
    → lookup testcase_id s.bimap ≡ some k
    → associated_bimap s testcase_id crash_id ≡ (true, s)
unfolding associated_bimap
associated_bimap-old s testcase_id crash_id k e = rw (e, associated_bimap) refl

-- A new entry of the table leads to the crash identifier it was made for, the others where they
-- led, also if identifiers were added at the end.
found-insert :
    (j testcase_id index : ℕ) (crash_id : Name) (s : CrashReader) (more : List Name)
    → lookup testcase_id s.bimap ≡ none
    → ((k : ℕ) → lookup j s.bimap ≡ some k → k < length s.crash_ids)
    → get_elem? (s.crash_ids ++ more) index ≡ some crash_id
    → get_crash_id
        (record s { crash_ids = s.crash_ids ++ more; bimap = insert testcase_id index s.bimap })
        j
      ≡ (if testcase_id == j then some crash_id else get_crash_id s j)
unfolding get_crash_id
found-insert j testcase_id index crash_id s more e r g =
    let l = lookup-insert testcase_id j index s.bimap e in
    elim (Bool-cases (testcase_id == j)) [
      | inl t ↦ rw (l, t, g, get_crash_id) refl
      | inr f ↦ elim (Option-cases (lookup j s.bimap)) [
        | inl n ↦ rw (l, f, n, get_crash_id) refl
        | inr (k, q) ↦ rw (l, f, q, get_crash_id) (get_elem?-append s.crash_ids more k (r k q))
      ]
    ]

range-insert :
    (j k testcase_id index : ℕ) (m : List (ℕ × ℕ))
    → lookup testcase_id m ≡ none
    → lookup j (insert testcase_id index m) ≡ some k
    → (k ≡ index) ⊎ (lookup j m ≡ some k)
range-insert j k testcase_id index m e h =
    let l = lookup-insert testcase_id j index m e in
    elim (Bool-cases (testcase_id == j)) [
      | inl t ↦ inl (grind (arith, l, t, h))
      | inr f ↦ inr (grind (arith, l, f, h))
    ]

pub associated_bimap-new :
    (s : CrashReader) (testcase_id : ℕ) (crash_id : Name)
    → IsConsistent s
    → lookup testcase_id s.bimap ≡ none
    → (s1 : CrashReader) × (associated_bimap s testcase_id crash_id ≡ (false, s1))
      × Associated s testcase_id crash_id s1
unfolding associated_bimap
associated_bimap-new s testcase_id crash_id c e =
    elim (Option-cases (index_of crash_id 0 s.crash_ids)) [
      | inl q ↦ (
        record s {
          crash_ids = s.crash_ids ++ (crash_id ∷ []);
          bimap = insert testcase_id (length s.crash_ids) s.bimap;
        },
        ground (arith, e, q),
        record {
          mapping = refl;
          found = λ j.
              found-insert j testcase_id _ crash_id s (crash_id ∷ []) e (c.in_range j)
                (get_elem?-last s.crash_ids crash_id);
          in_range = λ j k h. elim (range-insert j k testcase_id (length s.crash_ids) s.bimap e h) [
            | inl t ↦ rw (t, length-append s.crash_ids (crash_id ∷ [])) (omega arith)
            | inr o ↦
                rw (length-append s.crash_ids (crash_id ∷ [])) (omega (arith, c.in_range j k o))
          ];
        },
      )
      | inr (index, q) ↦
          let (l, f) = index_of-get_elem? crash_id index s.crash_ids q in
          (
            record s { bimap = insert testcase_id index s.bimap },
            ground (arith, e, q),
            record {
              mapping = refl;
              found = λ j.
                  subst
                    (λ ids.
                      get_crash_id
                        (record s { crash_ids = ids; bimap = insert testcase_id index s.bimap }) j
                      ≡ (if testcase_id == j then some crash_id else get_crash_id s j))
                    (append-nil s.crash_ids)
                    (found-insert j testcase_id index crash_id s [] e (c.in_range j)
                      (rw (append-nil s.crash_ids) f));
              in_range = λ j k h. elim (range-insert j k testcase_id index s.bimap e h) [
                | inl t ↦ omega (arith, t, l)
                | inr o ↦ c.in_range j k o
              ];
            },
          )
    ]
