-- ===== src/CrashReader/Laws.antt =====
-- The two tables of `UICrashReader` (fuzzer/fuzzer/ui.cpp): the test cases of each crash, and the
-- crash of each test case.
use fuzzer_goal_directed.Prelude.{
  ℕ, ◌≡◌, refl, sym, ap, ◌∙◌, Bool, Option, none, some, List, [], ◌∷◌, ltb, leb, ◌==◌, ==_iff,
  if◌then◌else◌, length, bytes_equal, bytes_equal_sound, Bool-cases, Option-cases, inl, inr, subst,
}
use fuzzer_goal_directed.OrderedMap.{lookup}
use fuzzer_goal_directed.Memory.{contains}
use fuzzer_goal_directed.Random.{insert_sorted}
use fuzzer_goal_directed.Random.Sorted.{contains-insert_sorted}
use fuzzer_goal_directed.NameMap.{Name, find_name, put_name, find_name-put_name}
use fuzzer_goal_directed.CrashReader.{
  CrashReader, get_crash_id, or_empty, file_testcase, read_testcase, read_each, read_crash_dir, run,
  max_number_crash_per_kind, is_locked,
}
use fuzzer_goal_directed.CrashReader.Association.{
  IsConsistent, Associated, associated_bimap-old, associated_bimap-new, no_crash_id, named, ==_comm,
}

-- The tables stay consistent, and no test case that has a crash identifier gets another.
pub record Kept (s s1 : CrashReader) : Type 0 where
  pub consistent : IsConsistent s1
  pub stable :
      (testcase_id : ℕ) (name : Name)
      → get_crash_id s testcase_id ≡ some name
      → get_crash_id s1 testcase_id ≡ some name

filed-agrees :
    (s : CrashReader) (testcase_id : ℕ) (crash_id : Name) (j : ℕ) (name : Name)
    → IsConsistent s
    → lookup testcase_id s.bimap ≡ none
    → contains j (
        or_empty (
          find_name name (
            put_name crash_id
              (insert_sorted testcase_id (or_empty (find_name crash_id s.crashes_mapping)))
              s.crashes_mapping)))
      ≡ named (if testcase_id == j then some crash_id else get_crash_id s j) name
filed-agrees s testcase_id crash_id j name c e =
    let known = or_empty (find_name crash_id s.crashes_mapping) in
    rw (find_name-put_name crash_id name (insert_sorted testcase_id known) s.crashes_mapping)
      (elim (Bool-cases (bytes_equal crash_id name)) [
        | inl f ↦
            rw (f, contains-insert_sorted j testcase_id known, c.agrees j crash_id)
              (elim (Bool-cases (testcase_id == j)) [
                | inl t ↦ rw (t, f, sym (==_comm testcase_id j) ∙ t) refl
                | inr u ↦
                    rw (u, sym (==_comm testcase_id j) ∙ u)
                      (ap (named (get_crash_id s j)) (bytes_equal_sound crash_id name f))
              ])
        | inr f ↦
            rw (f, c.agrees j name)
              (elim (Bool-cases (testcase_id == j)) [
                | inl t ↦
                    rw (t, f, sym ((==_iff testcase_id j).0 t), no_crash_id s testcase_id e) refl
                | inr u ↦ rw u refl
              ])
      ])

Associated-stable :
    (s s1 : CrashReader) (testcase_id : ℕ) (crash_id : Name)
    → lookup testcase_id s.bimap ≡ none
    → Associated s testcase_id crash_id s1
    → (j : ℕ) (name : Name) → get_crash_id s j ≡ some name
    → get_crash_id s1 j ≡ some name
Associated-stable s s1 testcase_id crash_id e a j name h = elim (Bool-cases (testcase_id == j)) [
  | inl t ↦
      let n : get_crash_id s j ≡ none =
        subst (λ i. get_crash_id s i ≡ none) ((==_iff testcase_id j).0 t)
          (no_crash_id s testcase_id e) in
      cc
  | inr u ↦
      subst (λ b. get_crash_id s1 j ≡ (if b then some crash_id else get_crash_id s j)) u (a.found j)
      ∙ h
]

filed-Kept :
    (s s1 : CrashReader) (testcase_id : ℕ) (crash_id : Name) (locked : List Name)
    → IsConsistent s
    → lookup testcase_id s.bimap ≡ none
    → Associated s testcase_id crash_id s1
    → Kept s (record s1 {
      locked_crash_ids = locked;
      crashes_mapping =
          put_name crash_id
            (insert_sorted testcase_id (or_empty (find_name crash_id s1.crashes_mapping)))
            s1.crashes_mapping;
    })
unfolding get_crash_id
filed-Kept s s1 testcase_id crash_id locked c e a = record {
  consistent = record {
    agrees = λ j name.
        rw a.mapping (
          filed-agrees s testcase_id crash_id j name c e
          ∙ ap (λ o. named o name) (sym (a.found j)));
    in_range = a.in_range;
  };
  stable = Associated-stable s s1 testcase_id crash_id e a;
}

file_testcase-Kept :
    (s s1 : CrashReader) (testcase_id : ℕ) (crash_id : Name)
    → IsConsistent s
    → lookup testcase_id s.bimap ≡ none
    → Associated s testcase_id crash_id s1
    → Kept s (file_testcase s1 crash_id testcase_id)
unfolding file_testcase
file_testcase-Kept s s1 testcase_id crash_id c e a =
    let ids = insert_sorted testcase_id (or_empty (find_name crash_id s1.crashes_mapping)) in
    elim (Bool-cases (leb max_number_crash_per_kind (length ids))) [
      | inl l ↦ rw l (filed-Kept s s1 testcase_id crash_id (crash_id ∷ s1.locked_crash_ids) c e a)
      | inr l ↦ rw l (filed-Kept s s1 testcase_id crash_id s1.locked_crash_ids c e a)
    ]

read_testcase-Kept :
    (s : CrashReader) (crash_id : Name) (entry : Option ℕ)
    → IsConsistent s
    → Kept s (read_testcase s crash_id entry)
unfolding read_testcase
read_testcase-Kept s crash_id none c = record { consistent = c; stable = λ j n h. h }
read_testcase-Kept s crash_id (some testcase_id) c = elim (Bool-cases (ltb testcase_id 1)) [
  | inl z ↦ rw z (record { consistent = c; stable = λ j n h. h })
  | inr z ↦
      let step : Bool × CrashReader → Type 0 = λ read. Kept s (
        if ltb testcase_id 1
        then s
        else (if read.0 then read.1 else file_testcase read.1 crash_id testcase_id)) in
      elim (Option-cases (lookup testcase_id s.bimap)) [
        | inl e ↦
            let (s1, q, a) = associated_bimap-new s testcase_id crash_id c e in
            subst step (sym q) (rw z (file_testcase-Kept s s1 testcase_id crash_id c e a))
        | inr (k, e) ↦
            subst step (sym (associated_bimap-old s testcase_id crash_id k e))
              (rw z (record { consistent = c; stable = λ j n h. h }))
      ]
]

Kept-trans : (s s1 s2 : CrashReader) → Kept s s1 → Kept s1 s2 → Kept s s2
Kept-trans s s1 s2 k l = record {
  consistent = l.consistent;
  stable = λ j n h. l.stable j n (k.stable j n h);
}

read_each-Kept :
    (s : CrashReader) (crash_id : Name) (entries : List (Option ℕ))
    → IsConsistent s
    → Kept s (read_each s crash_id entries)
unfolding read_each
read_each-Kept s crash_id [] c = record { consistent = c; stable = λ j n h. h }
read_each-Kept s crash_id (entry ∷ rest) c =
    let k = read_testcase-Kept s crash_id entry c in
    Kept-trans s _ _ k (read_each-Kept (read_testcase s crash_id entry) crash_id rest k.consistent)

-- Opening the entry of a crash identifier changes no set of test cases.
opened-Kept :
    (s : CrashReader) (crash_id : Name)
    → IsConsistent s
    → Kept s (record s {
      crashes_mapping =
          put_name crash_id (or_empty (find_name crash_id s.crashes_mapping)) s.crashes_mapping;
    })
unfolding get_crash_id
opened-Kept s crash_id c =
    let known = or_empty (find_name crash_id s.crashes_mapping) in
    record {
      consistent = record {
        agrees = λ j name.
            ap (λ o. contains j (or_empty o))
              (find_name-put_name crash_id name known s.crashes_mapping)
            ∙ elim (Bool-cases (bytes_equal crash_id name)) [
              | inl f ↦ rw (f) (
                  c.agrees j crash_id
                  ∙ ap (named (get_crash_id s j)) (bytes_equal_sound crash_id name f))
              | inr f ↦ rw f (c.agrees j name)
            ];
        in_range = c.in_range;
      };
      stable = λ j n h. h;
    }

read_crash_dir-Kept :
    (s : CrashReader) (crash_id : Name) (entries : List (Option ℕ))
    → IsConsistent s
    → Kept s (read_crash_dir s crash_id entries)
unfolding read_crash_dir
read_crash_dir-Kept s crash_id entries c =
    elim (Bool-cases (is_locked crash_id s.locked_crash_ids)) [
      | inl l ↦ rw l (record { consistent = c; stable = λ j n h. h })
      | inr l ↦
          let k = opened-Kept s crash_id c in
          rw l (Kept-trans s _ _ k (read_each-Kept _ crash_id entries k.consistent))
    ]

-- Whatever the directories of the crashes hold, `run` keeps the two tables in agreement: a test
-- case is filed under a crash identifier exactly if that is the crash identifier found for it,
-- and every index of the second table is one of a crash identifier. No test case that had a
-- crash identifier gets another one.
pub run-Kept :
    (s : CrashReader) (crashes : List (Name × List (Option ℕ)))
    → IsConsistent s
    → Kept s (run s crashes)
unfolding run
run-Kept s [] c = record { consistent = c; stable = λ j n h. h }
run-Kept s ((crash_id, entries) ∷ rest) c =
    let k = read_crash_dir-Kept s crash_id entries c in
    Kept-trans s _ _ k (run-Kept (read_crash_dir s crash_id entries) rest k.consistent)
