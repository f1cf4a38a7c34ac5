-- ===== src/Wdgt/Merge.antt =====
-- bge/wdgt/fmt/parser.c: eval_closure. One round on the buffers, by recursion on them.
use spacedbazaar.Common.{
  ℕ, zero, suc, ◌<◌, ◌≡◌, refl, Bool, true, false, List, [], ◌∷◌, Option, none, some, arith, length,
  get_elem?, if◌then◌else◌, Bool-cases, inl, inr, ap, ◌∙◌, get_elem?-below,
}
use spacedbazaar.Wdgt.Operators.{
  Operator, Doubles, apply_operator, seek_left, seek_right, seek_right_from, drop_cells, set_cell,
}

seek_right_drop :
    (alive : List Bool) (i j : ℕ)
    → get_elem? alive i ≡ some true
    → seek_right_from (drop_cells alive i) j ≡ some j
seek_right_drop [] i j e = ground (arith, e)
seek_right_drop (a ∷ alive) zero j e = ground (arith, e)
seek_right_drop (a ∷ alive) (suc i) j e = seek_right_drop alive i j e

-- The cell on the right of an operator that was not computed yet is its own.
pub seek_right_own :
    (alive : List Bool) (i : ℕ) → get_elem? alive i ≡ some true → seek_right alive i ≡ some i
seek_right_own alive i e = seek_right_drop alive i i e

abbrev pub shift_left : Bool → Option ℕ → Option ℕ
shift_left a none = if a then some 0 else none
shift_left a (some j) = some (suc j)

pub seek_left_cons :
    (a : Bool) (alive : List Bool) (i : ℕ)
    → i < length alive
    → seek_left (a ∷ alive) (suc i) ≡ shift_left a (seek_left alive i)
seek_left_cons a [] i h = ground arith
seek_left_cons a (true ∷ alive) zero h = refl
seek_left_cons a (false ∷ alive) zero h = refl
seek_left_cons a (b ∷ alive) (suc i) h =
    let found = get_elem?-below alive i (omega (arith, h)) in
    let before = seek_left_cons a (b ∷ alive) i (omega (arith, h)) in
    elim (Bool-cases (found.0)) [
      | inl t ↦ ground (arith, found.1, t)
      | inr f ↦ ground (arith, found.1, f, before)
    ]

abbrev pub left_of : List Bool → ℕ → Option ℕ
left_of alive zero = none
left_of alive (suc q) = seek_left alive q

pub left_cons :
    (a : Bool) (alive : List Bool) (p : ℕ)
    → p < suc (length alive)
    → left_of (a ∷ alive) (suc p) ≡ shift_left a (left_of alive p)
left_cons true alive zero h = refl
left_cons false alive zero h = refl
left_cons a alive (suc q) h = seek_left_cons a alive q (omega (arith, h))

-- The values and the marks of the cells on the right of a cell of value v that is not used up.
pub record Merged {ℓ} (D : Type ℓ) : Type ℓ where
  pub head : D
  pub cells : List D
  pub marks : List Bool
  pub outcome : D

module _ {ℓ} {D : Type ℓ} (ds : Doubles D) (o : Operator) where
  abbrev pub onto : D → Bool → D → Merged D → Merged D
  onto v true x m = record {
    head = v;
    cells = m.head ∷ m.cells;
    marks = true ∷ m.marks;
    outcome = m.outcome;
  }
  onto v false x m = record {
    head = m.head;
    cells = x ∷ m.cells;
    marks = false ∷ m.marks;
    outcome = m.outcome;
  }

  abbrev pub merge : ℕ → D → List D → List Bool → Merged D
  merge p v [] alive = record { head = v; cells = []; marks = alive; outcome = v }
  merge p v (x ∷ xs) [] = record { head = v; cells = x ∷ xs; marks = []; outcome = v }
  merge zero v (x ∷ xs) (a ∷ alive) =
      let r = apply_operator ds o v x in
      record { head = r; cells = x ∷ xs; marks = false ∷ alive; outcome = r }
  merge (suc p) v (x ∷ xs) (a ∷ alive) = onto v a x (merge p (if a then x else v) xs alive)

  -- What a round writes, with the left cell given as the cells on the right of v tell it.
  abbrev pub written : ℕ → D → List D → List Bool → D → Option ℕ → Merged D
  written p v xs alive w none =
      let r = apply_operator ds o v w in
      record { head = r; cells = xs; marks = set_cell alive p false; outcome = r }
  written p v xs alive w (some j) =
      let r = apply_operator ds o (elim (get_elem? xs j) [ none ↦ w | some l ↦ l ]) w in
      record { head = v; cells = set_cell xs j r; marks = set_cell alive p false; outcome = r }

  written-onto :
      (p : ℕ) (v : D) (a : Bool) (x : D) (xs : List D) (alive : List Bool) (w : D) (m : Option ℕ)
      → written (suc p) v (x ∷ xs) (a ∷ alive) w (shift_left a m)
        ≡ onto v a x (written p (if a then x else v) xs alive w m)
  written-onto p v true x xs alive w none = refl
  written-onto p v true x xs alive w (some j) = refl
  written-onto p v false x xs alive w none = refl
  written-onto p v false x xs alive w (some j) = refl

  -- The cell of the left operand is the value before the operator in the recursion.
  pub merge-written :
      (p : ℕ) (v : D) (xs : List D) (alive : List Bool) (w : D)
      → p < length alive
      → length xs ≡ length alive
      → get_elem? xs p ≡ some w
      → written p v xs alive w (left_of alive p) ≡ merge p v xs alive
  merge-written p v [] alive w h e g = ground (arith, g)
  merge-written p v (x ∷ xs) [] w h e g = ground (arith, e)
  merge-written zero v (x ∷ xs) (a ∷ alive) w h e g = ground (arith, g)
  merge-written (suc p) v (x ∷ xs) (a ∷ alive) w h e g =
      ap (written (suc p) v (x ∷ xs) (a ∷ alive) w) (left_cons a alive p (omega (arith, h)))
      ∙ written-onto p v a x xs alive w (left_of alive p)
      ∙ ap (onto v a x)
          (merge-written p (if a then x else v) xs alive w (omega (arith, h)) (omega (arith, e)) g)
