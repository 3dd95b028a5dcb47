-- ===== src/CrashAnalyzer/Addresses.antt =====
-- The texts of addresses in the reports of crashes (fuzzer/fuzzer/crash-analyzer.cpp: `to_hex`,
-- `get_crashed_trace`, `create_crash_id`).
use fuzzer_goal_directed.Prelude.{
  ℕ, zero, suc, ◌+◌, ◌*◌, ◌/◌, ◌%◌, ◌^◌, ◌≤◌, ◌<◌, ◌≡◌, refl, List, [], ◌∷◌, Option, none, some,
  ltb, le→leb, lt→leb, length, arith, true, Bool-cases, inl, inr, sub64, u64_mod,
}
use fuzzer_goal_directed.Result.{fault, out_of_bounds, Returns, returns, >>=-Returns}
use fuzzer_goal_directed.NameMap.{Name}
use fuzzer_goal_directed.CrashAnalyzer.{
  hex_digit, hex_from, to_hex, Frame, get_crashed_trace, offsets_text, create_crash_id,
  offset_trace_of,
}

abbrev power_of_16 : ℕ → ℕ
power_of_16 zero = 1
power_of_16 (suc k) = 16 * power_of_16 k

length-hex_from_le :
    (k fuel n : ℕ) (digits : List ℕ)
    → n < power_of_16 (suc k)
    → length (hex_from fuel n digits) ≤ suc k + length digits
unfolding hex_from
length-hex_from_le k zero n digits h = omega arith
length-hex_from_le zero (suc fuel) n digits h =
    let e : ltb n 16 ≡ true = ground arith in rw e (omega arith)
length-hex_from_le (suc k) (suc fuel) n digits h = elim (Bool-cases (ltb n 16)) [
  | inl e ↦ rw e (omega arith)
  | inr e ↦
      let digit = hex_digit (n % 16) in
      rw e (omega (arith, length-hex_from_le k fuel (n / 16) (digit ∷ digits) (omega arith)))
]

power_of_16-positive : (k : ℕ) → 0 < power_of_16 k
power_of_16-positive zero = omega arith
power_of_16-positive (suc k) = omega (arith, power_of_16-positive k)

length-hex_from_grows :
    (fuel n : ℕ) (digits : List ℕ) → length digits ≤ length (hex_from fuel n digits)
unfolding hex_from
length-hex_from_grows zero n digits = omega arith
length-hex_from_grows (suc fuel) n digits = elim (Bool-cases (ltb n 16)) [
  | inl e ↦ rw e (omega arith)
  | inr e ↦
      let digit = hex_digit (n % 16) in
      rw e (omega (arith, length-hex_from_grows fuel (n / 16) (digit ∷ digits)))
]

length-hex_from_ge :
    (k fuel n : ℕ) (digits : List ℕ)
    → power_of_16 k ≤ n
    → k < fuel
    → k + length digits < length (hex_from fuel n digits)
unfolding hex_from
length-hex_from_ge k zero n digits h f = elim f [ ]
length-hex_from_ge zero (suc fuel) n digits h f = elim (Bool-cases (ltb n 16)) [
  | inl e ↦ rw e (omega arith)
  | inr e ↦
      let digit = hex_digit (n % 16) in
      rw e (omega (arith, length-hex_from_grows fuel (n / 16) (digit ∷ digits)))
]
length-hex_from_ge (suc k) (suc fuel) n digits h f = elim (Bool-cases (ltb n 16)) [
  | inl e ↦ let l : n < 16 = ground arith in absurd (omega (arith, power_of_16-positive k))
  | inr e ↦
      let digit = hex_digit (n % 16) in
      rw e (
        omega
          (arith, length-hex_from_ge k fuel (n / 16) (digit ∷ digits) (omega arith) (omega arith)))
]

-- The first number whose text does not fit.
abbrev pub address_limit : ℕ
address_limit = 2 ^ 56

-- The text of a number is written within the buffer of 17 bytes if the number is below 2 ^ 56,
-- and past its end if it is a larger one of 64 bits.
pub to_hex_lem :
    (value : ℕ)
    → value < u64_mod
    → (value < address_limit → Returns (λ text. length text ≤ 16) (to_hex value))
      × (address_limit ≤ value → to_hex value ≡ fault out_of_bounds)
unfolding to_hex
to_hex_lem value u = (
  λ h.
      let l = length-hex_from_le 13 16 value [] (omega arith) in
      rw (le→leb (suc (suc (length (hex_from 16 value []))) + 1) 17 (omega (arith, l)))
        (returns _ (omega (arith, l))),
  λ h.
      let l = length-hex_from_ge 14 16 value [] (omega arith) (omega arith) in
      rw (lt→leb 17 (suc (suc (length (hex_from 16 value []))) + 1) (omega (arith, l))) refl,
)

pub to_hex-Returns :
    (value : ℕ) → value < address_limit → Returns (λ text. length text ≤ 16) (to_hex value)
to_hex-Returns value h = (to_hex_lem value (omega arith)).0 h

-- The frames, from the frame `frame_num` on, have modules, and their offsets are short enough.
abbrev pub IsReadable : ℕ → List (Option Frame) → Type 0
IsReadable frame_num [] = Unit {0}
IsReadable frame_num (none ∷ rest) = (frame_num < address_limit) × IsReadable (frame_num + 1) rest
IsReadable frame_num (some frame ∷ rest) =
    (frame.instruction < address_limit)
    × ((base : ℕ) × (frame.module_base ≡ some base) × (base ≤ frame.instruction))
    × IsReadable (frame_num + 1) rest

abbrev pub Short : List ℕ → Type 0
Short [] = Unit {0}
Short (offset ∷ rest) = (offset < address_limit) × Short rest

get_crashed_trace-Short :
    (frame_num : ℕ) (frames : List (Option Frame))
    → IsReadable frame_num frames
    → Returns Short (get_crashed_trace frame_num frames)
unfolding get_crashed_trace
get_crashed_trace-Short frame_num [] h = returns [] tt
get_crashed_trace-Short frame_num (none ∷ rest) h =
    >>=-Returns _ (get_crashed_trace-Short (frame_num + 1) rest h.1)
      λ offsets s. returns (frame_num ∷ offsets) (h.0, s)
get_crashed_trace-Short frame_num (some frame ∷ rest) h =
    let (base, e, l) = h.1 in
    let small : sub64 frame.instruction base < address_limit = omega (arith, l, h.0) in
    >>=-Returns _ (to_hex-Returns frame.instruction h.0) λ t p. rw e (
      >>=-Returns _ (to_hex-Returns base (omega (arith, l, h.0))) λ u q.
        >>=-Returns _ (get_crashed_trace-Short (frame_num + 1) rest h.2)
          λ offsets s. returns (sub64 frame.instruction base ∷ offsets) (small, s))

offsets_text-Returns :
    (offsets : List ℕ) → Short offsets → Returns (λ text. Unit {0}) (offsets_text offsets)
unfolding offsets_text
offsets_text-Returns [] h = returns [] tt
offsets_text-Returns (offset ∷ rest) h =
    >>=-Returns _ (to_hex-Returns offset h.0)
      λ text p. >>=-Returns _ (offsets_text-Returns rest h.1) λ more q. returns _ tt

pub create_crash_id-Returns :
    (hash : Name → Name) (reason : Name) (offsets : List ℕ)
    → Short offsets
    → Returns (λ crash_id. Unit {0}) (create_crash_id hash reason offsets)
unfolding create_crash_id
create_crash_id-Returns hash reason offsets h =
    >>=-Returns _ (offsets_text-Returns offsets h) λ text p. returns _ tt

abbrev pub StackIsReadable : Option (List (Option Frame)) → Type 0
StackIsReadable none = Unit {0}
StackIsReadable (some frames) = IsReadable 0 frames

pub offset_trace_of-Short :
    (call_stack : Option (List (Option Frame)))
    → StackIsReadable call_stack
    → Returns Short (offset_trace_of call_stack)
unfolding offset_trace_of
offset_trace_of-Short none h = returns [] tt
offset_trace_of-Short (some frames) h = get_crashed_trace-Short 0 frames h
