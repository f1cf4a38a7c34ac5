-- ===== src/Wdgt/Operators.antt =====
-- bge/wdgt/fmt/parser.c: the operators of an evaluation block, and eval_closure, which computes it. The
-- doubles and their operations are C's.
use spacedbazaar.Common.{
  ℕ, zero, suc, ◌+◌, Bool, true, false, List, [], ◌∷◌, Option, none, some, ℤ, negsuc, if◌then◌else◌,
  ltb, get_elem?,
}

pub data Operator : Type 0 where
  add : Operator
  subtract : Operator
  multiply : Operator
  divide : Operator
  modulus : Operator
  power : Operator

abbrev pub operator_precedence : Operator → ℕ
operator_precedence add = 0
operator_precedence subtract = 0
operator_precedence multiply = 1
operator_precedence divide = 1
operator_precedence modulus = 1
operator_precedence power = 2

pub record EvalOperator : Type 0 where
  pub op : Operator
  pub pos : ℕ

-- -1 or 1: the operator that binds tighter comes first, and equal ones are never equal.
unfoldable pub cmp_operator : EvalOperator → EvalOperator → ℤ
cmp_operator a b =
    if ltb (operator_precedence b.op) (operator_precedence a.op) then negsuc 0 else ℤ.pos 1

-- The doubles, with fmod and pow.
pub record Doubles {ℓ} (D : Type ℓ) : Type ℓ where
  pub plus : D → D → D
  pub minus : D → D → D
  pub times : D → D → D
  pub over : D → D → D
  pub fmod : D → D → D
  pub pow : D → D → D
  pub zero_double : D
  pub minus_one : D

-- One cell of a buffer, written; past the end none is.
abbrev pub set_cell {ℓ} : {A : Type ℓ} → List A → ℕ → A → List A
set_cell [] i a = []
set_cell (x ∷ xs) zero a = a ∷ xs
set_cell (x ∷ xs) (suc i) a = x ∷ set_cell xs i a

-- `while (workbuf1[left_idx] < 0.0) left_idx--`: `none` is a read outside of the buffer.
abbrev pub seek_left : List Bool → ℕ → Option ℕ
seek_left alive zero = elim (get_elem? alive 0) [
  | none ↦ none
  | some a ↦ if a then some 0 else none
]
seek_left alive (suc i) =
    let before = seek_left alive i in
    elim (get_elem? alive (suc i)) [ none ↦ none | some a ↦ if a then some (suc i) else before ]

-- `while (workbuf1[right_idx] < 0.0) right_idx++`, over the cells from right_idx on.
abbrev pub seek_right_from : List Bool → ℕ → Option ℕ
seek_right_from [] i = none
seek_right_from (a ∷ alive) i =
    let after = seek_right_from alive (suc i) in if a then some i else after

abbrev pub drop_cells : List Bool → ℕ → List Bool
drop_cells alive zero = alive
drop_cells [] (suc i) = []
drop_cells (_ ∷ alive) (suc i) = drop_cells alive i

abbrev pub seek_right : List Bool → ℕ → Option ℕ
seek_right alive i = seek_right_from (drop_cells alive i) i

module _ {ℓ} {D : Type ℓ} (ds : Doubles D) where
  abbrev pub apply_operator : Operator → D → D → D
  apply_operator add left right = ds.plus left right
  apply_operator subtract left right = ds.minus left right
  apply_operator multiply left right = ds.times left right
  apply_operator divide left right = ds.over left right
  apply_operator modulus left right = ds.fmod left right
  apply_operator power left right = ds.pow left right

  -- workbuf0, workbuf1 as whether the cell is at least 0, and result.
  pub record Buffers : Type ℓ where
    pub workbuf0 : List D
    pub workbuf1 : List Bool
    pub result : D

  abbrev pub all_alive : List D → List Bool
  all_alive [] = []
  all_alive (_ ∷ vs) = true ∷ all_alive vs

  abbrev pub store_result : Operator → ℕ → ℕ → Buffers → Option D → Option D → Option Buffers
  store_result op left_idx right_idx b none right = none
  store_result op left_idx right_idx b (some left) none = none
  store_result op left_idx right_idx b (some left) (some right) =
      let value = apply_operator op left right in
      let b' : Buffers = record {
        workbuf0 = set_cell b.workbuf0 left_idx value;
        workbuf1 = set_cell (set_cell b.workbuf1 left_idx true) right_idx false;
        result = value;
      } in
      some b'

  abbrev pub at_indices : Operator → Buffers → Option ℕ → Option ℕ → Option Buffers
  at_indices op b none right = none
  at_indices op b (some left_idx) none = none
  at_indices op b (some left_idx) (some right_idx) =
      store_result op left_idx right_idx b (get_elem? b.workbuf0 left_idx)
        (get_elem? b.workbuf0 right_idx)

  unfoldable pub eval_operator : EvalOperator → Buffers → Option Buffers
  eval_operator o b =
      at_indices o.op b (seek_left b.workbuf1 o.pos) (seek_right b.workbuf1 (o.pos + 1))

  abbrev pub eval_operators : List EvalOperator → Buffers → Option Buffers
  unfolding eval_operator
  eval_operators [] b = some b
  eval_operators (o ∷ os) b = elim (eval_operator o b) [
    | none ↦ none
    | some b' ↦ eval_operators os b'
  ]

  -- `none` is an access outside of the buffers.
  unfoldable pub eval_closure : List EvalOperator → List D → Option D
  unfolding eval_operator
  eval_closure ops values =
      let b : Buffers = record {
        workbuf0 = values;
        workbuf1 = all_alive values;
        result = ds.zero_double;
      } in
      elim (eval_operators ops b) [ none ↦ none | some b' ↦ some b'.result ]
