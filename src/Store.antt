-- ===== src/Store.antt =====
-- What the instrumentation records of the program under test: elements (fuzzer/common/elements.h)
-- and the store that numbers them (fuzzer/common/store.h, store.cpp). Strings are lists of bytes.
-- The files that the store is read from and written to are not modelled.
pub mod Laws
use fuzzer_goal_directed.Prelude.{
  ℕ, Bool, Option, none, some, List, [], ◌∷◌, if◌then◌else◌, bytes_equal, add32,
}
use fuzzer_goal_directed.OrderedMap.{lookup, assign}

abbrev pub error_id : ℕ
error_id = 0

-- `Element::Kind`
pub data Kind : Type 0 where
  e_unknown e_source e_function e_block e_summary e_condition e_end : Kind

pub data TypeKind : Type 0 where
  ty_integer ty_buffer ty_struct ty_unknown : TypeKind

-- `other` is a number that names no operator, since the field is not initialised.
pub data Operator : Type 0 where
  op_buffer_read op_buffer_write op_buffer_read_write op_buffer_unknown : Operator
  op_integer_may_overflow op_integer_unknown op_cast_unsafe op_cast_unknown : Operator
  op_pass_through : Operator
  other : ℕ → Operator

pub record SourceElement : Type 0 where
  pub path : List ℕ
  pub functions : List ℕ

pub record FunctionElement : Type 0 where
  pub name : List ℕ
  pub signature : List ℕ
  pub mangled_name : List ℕ
  pub num_formals : ℕ
  pub blocks : List ℕ

pub record BlockElement : Type 0 where
  pub internal_block_id : ℕ
  pub predecessor_ids : List ℕ
  pub summaries : List ℕ
  pub condition_literals : List ℕ

pub record SummaryElement : Type 0 where
  pub op : Operator
  pub type_kind : TypeKind

pub record ConditionElement : Type 0 where
  pub string_literals : List (List ℕ)

-- The derived class of an element, with the fields that it adds.
pub data Body : Type 0 where
  source : SourceElement → Body
  function : FunctionElement → Body
  block : BlockElement → Body
  summary : SummaryElement → Body
  condition : ConditionElement → Body

pub record Element : Type 0 where
  pub id : ℕ
  pub parent_id : ℕ
  pub body : Body

-- `getKind()`, which the constructors of the derived classes set.
abbrev pub get_kind : Element → Kind
get_kind e = elim e.body [
  | source b ↦ e_source
  | function b ↦ e_function
  | block b ↦ e_block
  | summary b ↦ e_summary
  | condition b ↦ e_condition
]

-- What happens to be in the fields that no constructor sets.
pub record Leftover : Type 0 where
  pub num_formals : ℕ
  pub internal_block_id : ℕ
  pub op : Operator
  pub type_kind : TypeKind

abbrev element_with : ℕ → ℕ → Body → Option Element
element_with i p b = some (record { id = i; parent_id = p; body = b })

-- `Store::create`
unfoldable pub create_element : Leftover → Kind → ℕ → ℕ → Option Element
create_element g e_source i p =
    element_with i error_id (source (record { path = []; functions = [] }))
create_element g e_function i p = element_with i p (
    function (record {
      name = [];
      signature = [];
      mangled_name = [];
      num_formals = g.num_formals;
      blocks = [];
    }))
create_element g e_block i p = element_with i p (
    block (record {
      internal_block_id = g.internal_block_id;
      predecessor_ids = [];
      summaries = [];
      condition_literals = [];
    }))
create_element g e_summary i p =
    element_with i p (summary (record { op = g.op; type_kind = g.type_kind }))
create_element g e_condition i p = element_with i p (condition (record { string_literals = [] }))
create_element g e_unknown i p = none
create_element g e_end i p = none

-- The order of `sources` is not observed. A null entry of `elements` arises when `operator[]` is
-- asked for a key that is missing.
pub record StoreImpl : Type 0 where
  pub global_id : ℕ
  pub sources : List (List ℕ × ℕ)
  pub elements : List (ℕ × Option Element)

abbrev pub empty_store : StoreImpl
empty_store = record { global_id = error_id; sources = []; elements = [] }

unfoldable pub get_next_id : StoreImpl → ℕ × StoreImpl
get_next_id s = (add32 s.global_id 1, record s { global_id = add32 s.global_id 1 })

-- `sources.find`
unfoldable pub find_source : List ℕ → List (List ℕ × ℕ) → Option ℕ
find_source n [] = none
find_source n ((k, i) ∷ rest) = if bytes_equal k n then some i else find_source n rest

unfoldable pub add_source : StoreImpl → List ℕ → ℕ × StoreImpl
unfolding get_next_id
add_source s n = elim (find_source n s.sources) [
  | some i ↦ (i, s)
  | none ↦ let (i, s') = get_next_id s in (i, record s' { sources = (n, i) ∷ s'.sources })
]

unfoldable pub add_element : StoreImpl → ℕ → Option Element → StoreImpl
add_element s i none = s
add_element s i (some e) = record s { elements = assign i (some e) s.elements }

-- `elements()[i]`, which adds a null entry for a key that is missing.
unfoldable pub element_at : StoreImpl → ℕ → Option Element × StoreImpl
element_at s i = elim (lookup i s.elements) [
  | some e ↦ (e, s)
  | none ↦ (none, record s { elements = assign i none s.elements })
]
