-- ===== src/Result.antt =====
-- Results of code that can go wrong: what C++ leaves undefined, a failed `assert` and a thrown
-- exception are faults. `Returns P r` says that `r` is a result that satisfies `P`, so it is a
-- statement of total correctness.
use fuzzer_goal_directed.Prelude.{Bool, true, false, Option, none, some, ◌≡◌, refl, subst}

pub data Fault : Type 0 where
  null_pointer out_of_bounds use_after_free assertion_failed out_of_range no_progress wrong_kind :
      Fault

pub data Result {ℓ} (A : Type ℓ) : Type ℓ where
  ok : A → Result A
  fault : Fault → Result A

infixl 5 ◌>>=◌ ◌>>◌
abbrev pub ◌>>=◌ {ℓ κ} : {A : Type ℓ} {B : Type κ} → Result A → (A → Result B) → Result B
ok a >>= f = f a
fault e >>= f = fault e

abbrev pub ◌>>◌ {ℓ} : {B : Type ℓ} → Result (Unit {0}) → Result B → Result B
m >> k = m >>= λ _. k

-- `assert(b)`
abbrev pub assert : Bool → Result (Unit {0})
assert true = ok tt
assert false = fault assertion_failed

abbrev pub or_fault {ℓ} : {A : Type ℓ} → Option A → Fault → Result A
or_fault none e = fault e
or_fault (some a) e = ok a

pub data Returns {ℓ κ} {A : Type ℓ} (P : A → Type κ) : Result A → Type (ℓ ⊔ κ) where
  returns : (a : A) → P a → Returns P (ok a)

module _ {ℓ κ μ} {A : Type ℓ} {B : Type κ} {P : A → Type μ} where
  -- The rule for a sequence of two steps.
  pub >>=-Returns {ν} :
      {Q : B → Type ν} {m : Result A} (f : A → Result B)
      → Returns P m
      → ((a : A) → P a → Returns Q (f a))
      → Returns Q (m >>= f)
  >>=-Returns f (returns a p) k = k a p

pub Returns-ok {ℓ κ} :
    {A : Type ℓ} {P : A → Type κ} {r : Result A} → Returns P r → (a : A) × (r ≡ ok a) × P a
Returns-ok (returns a p) = (a, refl, p)

-- If `r` is a result, then one that satisfies `P`.
pub data IfOk {ℓ κ} {A : Type ℓ} (P : A → Type κ) : Result A → Type (ℓ ⊔ κ) where
  returned : (a : A) → P a → IfOk P (ok a)
  faulted : (e : Fault) → IfOk P (fault e)

module _ {ℓ κ μ} {A : Type ℓ} {B : Type κ} {P : A → Type μ} where
  pub >>=-IfOk {ν} :
      {Q : B → Type ν} {m : Result A} (f : A → Result B)
      → IfOk P m
      → ((a : A) → P a → IfOk Q (f a))
      → IfOk Q (m >>= f)
  >>=-IfOk f (returned a p) k = k a p
  >>=-IfOk f (faulted e) k = faulted e

pub IfOk-any {ℓ} : {A : Type ℓ} (r : Result A) → IfOk (λ a. Unit {0}) r
IfOk-any (ok a) = returned a tt
IfOk-any (fault e) = faulted e

pub IfOk-mono {ℓ κ} :
    {A : Type ℓ} {P : A → Type κ} {Q : A → Type κ} {r : Result A}
    → ((a : A) → P a → Q a)
    → IfOk P r
    → IfOk Q r
IfOk-mono f (returned a p) = returned a (f a p)
IfOk-mono f (faulted e) = faulted e

pub ok-injective {ℓ} : {A : Type ℓ} {a b : A} → ok a ≡ ok b → a ≡ b
ok-injective e = cc

pub IfOk-ok {ℓ κ} : {A : Type ℓ} {P : A → Type κ} {r : Result A} {a : A} → IfOk P r → r ≡ ok a → P a
IfOk-ok {P = P} {a = a} (returned b p) e = subst P (let q : b ≡ a = cc in q) p
IfOk-ok (faulted x) e = cc

pub Returns-eq {ℓ} : {A : Type ℓ} {a : A} {r : Result A} → r ≡ ok a → Returns (λ b. b ≡ a) r
Returns-eq {a = a} e = rw e (returns a refl)

pub Returns-mono {ℓ κ μ} :
    {A : Type ℓ} {P : A → Type κ} {Q : A → Type μ} {r : Result A}
    → ((a : A) → P a → Q a)
    → Returns P r
    → Returns Q r
Returns-mono f (returns a p) = returns a (f a p)

-- A total result that satisfies `Q`, as every result here does.
pub Returns-IfOk {ℓ κ μ} :
    {A : Type ℓ} {P : A → Type κ} {Q : A → Type μ} {r : Result A}
    → Returns P r
    → IfOk Q r
    → Returns (λ a. P a × Q a) r
Returns-IfOk (returns a p) q = returns a (p, IfOk-ok q refl)

pub >>=_assoc {ℓ κ μ} :
    {A : Type ℓ} {B : Type κ} {C : Type μ} (r : Result A) (f : A → Result B) (g : B → Result C)
    → (r >>= f) >>= g ≡ r >>= (λ a. f a >>= g)
>>=_assoc (ok a) f g = refl
>>=_assoc (fault e) f g = refl
