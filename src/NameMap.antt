-- ===== src/NameMap.antt =====
-- `std::map` with strings as keys: an association list.
use fuzzer_goal_directed.Prelude.{
  ℕ, ◌≡◌, refl, sym, Option, none, some, List, [], ◌∷◌, if◌then◌else◌, bytes_equal,
  bytes_equal_sound, Bool-cases, inl, inr,
}

-- A `std::string`, by its bytes.
abbrev pub Name : Type 0
Name = List ℕ

module _ {ℓ} {V : Type ℓ} where
  unfoldable pub find_name : Name → List (Name × V) → Option V
  find_name name [] = none
  find_name name ((k, v) ∷ rest) =
      let later = find_name name rest in if bytes_equal k name then some v else later

  -- Sets the value of a key, which gets an entry if it has none.
  unfoldable pub put_name : Name → V → List (Name × V) → List (Name × V)
  put_name name v [] = (name, v) ∷ []
  put_name name v ((k, old) ∷ rest) =
      let later = put_name name v rest in
      if bytes_equal k name then (k, v) ∷ rest else (k, old) ∷ later

  pub find_name-put_name :
      (k j : Name) (v : V) (m : List (Name × V))
      → find_name j (put_name k v m) ≡ (if bytes_equal k j then some v else find_name j m)
  unfolding find_name put_name
  find_name-put_name k j v [] = refl
  find_name-put_name k j v ((q, old) ∷ rest) = elim (Bool-cases (bytes_equal q k)) [
    | inl e ↦
        rw (e, bytes_equal_sound q k e)
          (elim (Bool-cases (bytes_equal k j)) [ inl f ↦ rw f refl | inr f ↦ rw f refl ])
    | inr e ↦
        rw (e, find_name-put_name k j v rest)
          (elim (Bool-cases (bytes_equal k j)) [
            | inl f ↦ rw (f, sym (bytes_equal_sound k j f), e) refl
            | inr f ↦ rw f refl
          ])
  ]
