-- ===== src/CrashAnalyzer/Limit.antt =====
-- How many reports of a crash are written (fuzzer/fuzzer/crash-analyzer.cpp: `handle_dump_file` and
-- `CrashAnalyzer::run`).
use fuzzer_goal_directed.Prelude.{
  ℕ, ◌+◌, ◌≤◌, ◌<◌, ◌≡◌, refl, sym, ap, ◌∙◌, subst, List, [], ◌∷◌, Option, none, some, leb, min,
  map, length, arith, bytes_equal, bytes_equal_sound, ◌&&◌, Bool, true, false, Bool-cases,
  Option-cases, inl, inr, u64_mod, add64, add64-small,
}
use fuzzer_goal_directed.Result.{Returns, Returns-mono, returns, >>=-Returns}
use fuzzer_goal_directed.NameMap.{Name, find_name, put_name, find_name-put_name}
use fuzzer_goal_directed.CrashReader.{max_number_crash_per_kind}
use fuzzer_goal_directed.CrashAnalyzer.{
  count_output, Dump, Decoded, handle_dump_file, decode_dumps, get_testcase_id,
}
use fuzzer_goal_directed.CrashAnalyzer.Addresses.{
  address_limit, to_hex-Returns, StackIsReadable, offset_trace_of-Short, create_crash_id-Returns,
}

-- How often a crash was found, as it is counted.
abbrev pub or_zero : Option ℕ → ℕ
or_zero none = 0
or_zero (some n) = n

abbrev pub outputs : Name → List (Name × ℕ) → ℕ
outputs name m = or_zero (find_name name m)

abbrev pub one_if : Bool → ℕ
one_if true = 1
one_if false = 0

-- Of the dumps that were decoded: those of a crash, and those whose report is written.
abbrev pub found : Name → List Decoded → ℕ
found name [] = 0
found name (d ∷ rest) = one_if (bytes_equal d.crash_id name) + found name rest

abbrev pub reported : Name → List Decoded → ℕ
reported name [] = 0
reported name (d ∷ rest) =
    one_if (bytes_equal d.crash_id name && d.create_info) + reported name rest

record Counted (crash_id : Name) (m : List (Name × ℕ)) (o : Bool × List (Name × ℕ)) : Type 0 where
  create_info : o.0 ≡ leb (outputs crash_id m + 1) max_number_crash_per_kind
  counts : (name : Name) → outputs name o.1 ≡ outputs name m + one_if (bytes_equal crash_id name)

one_if_le : (b : Bool) → one_if b ≤ 1
one_if_le true = omega arith
one_if_le false = omega arith

counts-put_name :
    (crash_id name : Name) (n : ℕ) (m : List (Name × ℕ))
    → outputs crash_id m + 1 ≡ n
    → outputs name (put_name crash_id n m) ≡ outputs name m + one_if (bytes_equal crash_id name)
counts-put_name crash_id name n m h =
    ap or_zero (find_name-put_name crash_id name n m)
    ∙ elim (Bool-cases (bytes_equal crash_id name)) [
      | inl e ↦ rw e (sym h ∙ ap (λ k. outputs k m + 1) (bytes_equal_sound crash_id name e))
      | inr e ↦ rw e (omega arith)
    ]

count_output-Counted :
    (crash_id : Name) (m : List (Name × ℕ))
    → outputs crash_id m + 1 < u64_mod
    → Counted crash_id m (count_output crash_id m)
unfolding count_output
count_output-Counted crash_id m h = elim (Option-cases (find_name crash_id m)) [
  | inl e ↦ record {
    create_info = rw (e, count_output) refl;
    counts = λ name. rw (e, count_output) (counts-put_name crash_id name 1 m (rw e refl));
  }
  | inr (n, e) ↦
      let small : add64 n 1 ≡ n + 1 = add64-small n 1 (rw e at h) in
      record {
        create_info = rw (e, count_output) (ap (λ k. leb k max_number_crash_per_kind) small);
        counts = λ name.
            rw (e, count_output) (counts-put_name crash_id name (add64 n 1) m (rw e (sym small)));
      }
]

pub record Readable (dump : Dump) : Type 0 where
  pub address : dump.crash_address < address_limit
  pub stack : StackIsReadable dump.call_stack

abbrev pub AllReadable : List Dump → Type 0
AllReadable [] = Unit {0}
AllReadable (dump ∷ rest) = Readable dump × AllReadable rest

handle_dump_file_lem :
    (hash : Name → Name) (m : List (Name × ℕ)) (dump : Dump)
    → Readable dump
    → Returns
        (λ o.
          (o.0.testcase_id ≡ get_testcase_id dump.bytes)
          × (count_output o.0.crash_id m ≡ (o.0.create_info, o.1)))
        (handle_dump_file hash m dump)
unfolding handle_dump_file
handle_dump_file_lem hash m dump d =
    >>=-Returns _ (to_hex-Returns dump.crash_address d.address) λ address p.
      >>=-Returns _ (offset_trace_of-Short dump.call_stack d.stack) λ offset_trace s.
        >>=-Returns _ (create_crash_id-Returns hash dump.crash_reason offset_trace s)
          λ crash_id q. returns _ (refl, refl)

report_within :
    (same create_info : Bool) (c r f : ℕ)
    → (same ≡ true → create_info ≡ leb (c + 1) max_number_crash_per_kind)
    → r + min max_number_crash_per_kind (c + one_if same)
      ≡ min max_number_crash_per_kind (c + one_if same + f)
    → one_if (same && create_info) + r + min max_number_crash_per_kind c
      ≡ min max_number_crash_per_kind (c + (one_if same + f))
report_within false create_info c r f k h = omega (arith, h)
report_within true create_info c r f k h =
    elim (Bool-cases (leb (c + 1) max_number_crash_per_kind)) [
      | inl e ↦ let l : c + 1 ≤ 250 = ground arith in rw (k refl ∙ e) (omega (arith, h, l))
      | inr e ↦ let l : 250 < c + 1 = ground arith in rw (k refl ∙ e) (omega (arith, h, l))
    ]

decode_dumps_from :
    (hash : Name → Name) (m : List (Name × ℕ)) (dumps : List Dump)
    → AllReadable dumps
    → ((name : Name) → outputs name m + length dumps < u64_mod)
    → Returns
        (λ o.
          (map Decoded.testcase_id o.0 ≡ map (λ d. get_testcase_id d.bytes) dumps)
          × ((name : Name)
              → reported name o.0 + min max_number_crash_per_kind (outputs name m)
                ≡ min max_number_crash_per_kind (outputs name m + found name o.0)))
        (decode_dumps hash m dumps)
unfolding decode_dumps
decode_dumps_from hash m [] a b = returns _ (refl, λ name. omega arith)
decode_dumps_from hash m (dump ∷ rest) a b =
    >>=-Returns _ (handle_dump_file_lem hash m dump a.0) λ first p.
      let c =
        subst (Counted first.0.crash_id m) p.1
          (count_output-Counted first.0.crash_id m (omega (arith, b first.0.crash_id))) in
      >>=-Returns _
        (decode_dumps_from hash first.1 rest a.1 (λ name.
          omega (arith, b name, c.counts name, one_if_le (bytes_equal first.0.crash_id name))))
        λ others q.
          returns (first.0 ∷ others.0, others.1)
            (
              ap (◌∷◌ first.0.testcase_id) q.0
                  ∙ ap (λ k. k ∷ map (λ d. get_testcase_id d.bytes) rest) p.0,
              λ name.
                  report_within (bytes_equal first.0.crash_id name) first.0.create_info
                    (outputs name m) (reported name others.0) (found name others.0)
                    (λ e.
                      c.create_info
                      ∙ ap (λ n. leb (outputs n m + 1) max_number_crash_per_kind)
                          (bytes_equal_sound first.0.crash_id name e))
                    (subst
                      (λ n.
                        reported name others.0 + min max_number_crash_per_kind n
                        ≡ min max_number_crash_per_kind (n + found name others.0))
                      (c.counts name) (q.1 name)),
            )

-- If the addresses of the dumps are below 2 ^ 56 and their frames have modules that begin at their
-- instructions or before, the analyzer decodes all dumps without a fault: each with the number of
-- its test case, in their order, and of each crash a report is written for as many dumps as there
-- are, up to 250. The dumps are fewer than 2 ^ 64.
pub decode_dumps_lem :
    (hash : Name → Name) (dumps : List Dump)
    → AllReadable dumps
    → length dumps < u64_mod
    → Returns
        (λ o.
          (map Decoded.testcase_id o.0 ≡ map (λ d. get_testcase_id d.bytes) dumps)
          × ((name : Name) → reported name o.0 ≡ min max_number_crash_per_kind (found name o.0)))
        (decode_dumps hash [] dumps)
unfolding find_name
decode_dumps_lem hash dumps a h =
    Returns-mono (λ o q. (q.0, λ name. omega (arith, q.1 name)))
      (decode_dumps_from hash [] dumps a (λ name. omega (arith, h)))
