-- ===== src/Wdgt/Contraction.antt =====
-- bge/wdgt/fmt/parser.c: eval_closure computes the reference.
use spacedbazaar.Common.{
  ℕ, zero, suc, ◌+◌, ◌<◌, ◌≡◌, refl, Bool, true, false, List, [], ◌∷◌, Option, none, some, arith,
  length, get_elem?, Option-cases, Bool-cases, inl, inr, ap, ◌∙◌, ◌==◌, get_elem?-below,
}
use spacedbazaar.Wdgt.Operators.{
  Operator, EvalOperator, Doubles, Buffers, eval_operator, seek_left, seek_right, at_indices,
  set_cell,
}
use spacedbazaar.Wdgt.Reference.{occurs, numbers, contract}
use spacedbazaar.Wdgt.Merge.{
  Merged, merge, seek_right_own, left_cons, shift_left, left_of, written, merge-written,
}

module _ {ℓ} {D : Type ℓ} (ds : Doubles D) where
  -- The operators that were not computed yet, with the values on their right.
  abbrev pub live : ℕ → List D → List Bool → List (ℕ × D)
  live i [] alive = []
  live i (x ∷ xs) [] = []
  live i (x ∷ xs) (true ∷ alive) = (i, x) ∷ live (suc i) xs alive
  live i (x ∷ xs) (false ∷ alive) = live (suc i) xs alive

  abbrev pub buffers_of : Merged D → Buffers ds
  buffers_of m = record {
    workbuf0 = m.head ∷ m.cells;
    workbuf1 = true ∷ m.marks;
    result = m.outcome;
  }

  cell-eq : (i j : ℕ) → i ≡ j → (i == j) ≡ true
  cell-eq i j e = ground (arith, e)

  pub contract-merge :
      (o : Operator) (p i q : ℕ) (v : D) (xs : List D) (alive : List Bool)
      → length xs ≡ length alive
      → get_elem? alive p ≡ some true
      → q ≡ p + i
      → let m = merge ds o p v xs alive in
        contract ds o q v (live i xs alive) ≡ some (m.head, live i m.cells m.marks)
  contract-merge o p i q v [] [] e g n = ground (arith, g)
  contract-merge o p i q v [] (a ∷ alive) e g n = ground (arith, e)
  contract-merge o p i q v (x ∷ xs) [] e g n = ground (arith, e)
  contract-merge o zero i q v (x ∷ xs) (true ∷ alive) e g n = ground (arith, n)
  contract-merge o zero i q v (x ∷ xs) (false ∷ alive) e g n = ground (arith, g)
  contract-merge o (suc p) i q v (x ∷ xs) (true ∷ alive) e g n =
      let ih = contract-merge o p (suc i) q x xs alive (omega (arith, e)) g (omega (arith, n)) in
      let off : (i == q) ≡ false = ground (arith, n) in ground (arith, off, ih)
  contract-merge o (suc p) i q v (x ∷ xs) (false ∷ alive) e g n =
      contract-merge o p (suc i) q v xs alive (omega (arith, e)) g (omega (arith, n))

  pub length-merge :
      (o : Operator) (p : ℕ) (v : D) (xs : List D) (alive : List Bool)
      → length xs ≡ length alive
      → let m = merge ds o p v xs alive in length m.cells ≡ length m.marks
  length-merge o p v [] alive e = e
  length-merge o p v (x ∷ xs) [] e = e
  length-merge o zero v (x ∷ xs) (a ∷ alive) e = e
  length-merge o (suc p) v (x ∷ xs) (true ∷ alive) e =
      ap suc (length-merge o p x xs alive (omega (arith, e)))
  length-merge o (suc p) v (x ∷ xs) (false ∷ alive) e =
      ap suc (length-merge o p v xs alive (omega (arith, e)))

  -- The last operator leaves its outcome in the first cell.
  pub outcome-merge :
      (o : Operator) (p i : ℕ) (v : D) (xs : List D) (alive : List Bool)
      → length xs ≡ length alive
      → get_elem? alive p ≡ some true
      → let m = merge ds o p v xs alive in live i m.cells m.marks ≡ [] → m.outcome ≡ m.head
  outcome-merge o p i v [] [] e g n = refl
  outcome-merge o p i v [] (a ∷ alive) e g n = refl
  outcome-merge o p i v (x ∷ xs) [] e g n = refl
  outcome-merge o zero i v (x ∷ xs) (a ∷ alive) e g n = refl
  outcome-merge o (suc p) i v (x ∷ xs) (true ∷ alive) e g n = ground (arith, n)
  outcome-merge o (suc p) i v (x ∷ xs) (false ∷ alive) e g n =
      outcome-merge o p (suc i) v xs alive (omega (arith, e)) g n

  live-above :
      (q i : ℕ) (xs : List D) (alive : List Bool) → q < i → occurs q (numbers (live i xs alive)) ≡ 0
  live-above q i [] alive h = refl
  live-above q i (x ∷ xs) [] h = refl
  live-above q i (x ∷ xs) (true ∷ alive) h =
      ground (arith, h, live-above q (suc i) xs alive (omega (arith, h)))
  live-above q i (x ∷ xs) (false ∷ alive) h = live-above q (suc i) xs alive (omega (arith, h))

  -- An operator that is left over has its own cell.
  pub alive-occurs :
      (p i q : ℕ) (xs : List D) (alive : List Bool)
      → q ≡ p + i
      → 0 < occurs q (numbers (live i xs alive))
      → get_elem? alive p ≡ some true
  alive-occurs p i q [] alive n h = ground (arith, h)
  alive-occurs p i q (x ∷ xs) [] n h = ground (arith, h)
  alive-occurs zero i q (x ∷ xs) (true ∷ alive) n h = refl
  alive-occurs zero i q (x ∷ xs) (false ∷ alive) n h =
      ground (arith, h, live-above q (suc i) xs alive (omega (arith, n)))
  alive-occurs (suc p) i q (x ∷ xs) (true ∷ alive) n h =
      alive-occurs p (suc i) q xs alive (omega (arith, n)) (ground (arith, n, h))
  alive-occurs (suc p) i q (x ∷ xs) (false ∷ alive) n h =
      alive-occurs p (suc i) q xs alive (omega (arith, n)) h

  seek_left-alive :
      (alive : List Bool) (i j : ℕ) → seek_left alive i ≡ some j → get_elem? alive j ≡ some true
  seek_left-alive alive zero j e = elim (Option-cases (get_elem? alive 0)) [
    | inl g ↦ ground (arith, g, e)
    | inr g ↦ elim (Bool-cases (g.0)) [
      | inl t ↦ ground (arith, g.1, t, e)
      | inr t ↦ ground (arith, g.1, t, e)
    ]
  ]
  seek_left-alive alive (suc i) j e = elim (Option-cases (get_elem? alive (suc i))) [
    | inl g ↦ ground (arith, g, e)
    | inr g ↦ elim (Bool-cases (g.0)) [
      | inl t ↦ ground (arith, g.1, t, e)
      | inr t ↦ seek_left-alive alive i j (ground (arith, g.1, t, e))
    ]
  ]

  get_elem-bound : (xs : List Bool) (i : ℕ) (a : Bool) → get_elem? xs i ≡ some a → i < length xs
  get_elem-bound [] i a e = ground (arith, e)
  get_elem-bound (x ∷ xs) zero a e = omega arith
  get_elem-bound (x ∷ xs) (suc i) a e = omega (arith, get_elem-bound xs i a e)

  set_cell-same :
      (xs : List Bool) (i : ℕ) (a : Bool) → get_elem? xs i ≡ some a → set_cell xs i a ≡ xs
  set_cell-same [] i a e = refl
  set_cell-same (x ∷ xs) zero a e = ground (arith, e)
  set_cell-same (x ∷ xs) (suc i) a e = ap (◌∷◌ x) (set_cell-same xs i a e)

  abbrev pub buffers_at : D → D → List D → List Bool → Buffers ds
  buffers_at r v xs alive = record { workbuf0 = v ∷ xs; workbuf1 = true ∷ alive; result = r }

  at_indices-written :
      (o : Operator) (p : ℕ) (r v : D) (xs : List D) (alive : List Bool) (w : D) (m : Option ℕ)
      → ((j : ℕ)
          → m ≡ some j
          → (l : D) × (get_elem? xs j ≡ some l) × (get_elem? alive j ≡ some true))
      → get_elem? xs p ≡ some w
      → at_indices ds o (buffers_at r v xs alive) (shift_left true m) (some (suc p))
        ≡ some (buffers_of (written ds o p v xs alive w m))
  at_indices-written o p r v xs alive w none f g = rw g
  at_indices-written o p r v xs alive w (some j) f g =
      let (l, got, mark) = f j refl in rw (g, got, set_cell-same alive j true mark)

  left_of-seen :
      (xs : List D) (alive : List Bool) (p : ℕ)
      → length xs ≡ length alive
      → (j : ℕ) → left_of alive p ≡ some j
      → (l : D) × (get_elem? xs j ≡ some l) × (get_elem? alive j ≡ some true)
  left_of-seen xs alive zero e j h = ground (arith, h)
  left_of-seen xs alive (suc q) e j h =
      let mark = seek_left-alive alive q j h in
      let l = get_elem?-below xs j (omega (arith, e, get_elem-bound alive j true mark)) in
      (l.0, l.1, mark)

  pub eval_operator-merge :
      (o : EvalOperator) (r v : D) (xs : List D) (alive : List Bool)
      → length xs ≡ length alive
      → get_elem? alive o.pos ≡ some true
      → eval_operator ds o (buffers_at r v xs alive)
        ≡ some (buffers_of (merge ds o.op o.pos v xs alive))
  unfolding eval_operator
  eval_operator-merge o r v xs alive e g =
      let m = left_of alive o.pos in
      let w = get_elem?-below xs o.pos (omega (arith, e, get_elem-bound alive o.pos true g)) in
      let left : seek_left (true ∷ alive) o.pos ≡ shift_left true m =
        left_cons true alive o.pos (omega (arith, get_elem-bound alive o.pos true g)) in
      let right : seek_right (true ∷ alive) (o.pos + 1) ≡ some (suc o.pos) =
        ap (seek_right (true ∷ alive)) {y = suc o.pos} (omega arith)
        ∙ seek_right_own (true ∷ alive) (suc o.pos) g in
      let seen = left_of-seen xs alive o.pos e in
      ap
        (λ l.
          at_indices ds o.op (buffers_at r v xs alive) l (seek_right (true ∷ alive) (o.pos + 1)))
        left
      ∙ ap (at_indices ds o.op (buffers_at r v xs alive) (shift_left true m)) right
      ∙ at_indices-written o.op o.pos r v xs alive w.0 m seen w.1
      ∙ ap (λ n. some (buffers_of n))
          (merge-written ds o.op o.pos v xs alive w.0 (get_elem-bound alive o.pos true g) e w.1)
