-- ===== src/Wdgt/Evaluation.antt =====
-- bge/wdgt/fmt/parser.c: eval_closure, with the operators in any order.
use spacedbazaar.Common.{
  ℤ, ◌↔◌, ℕ, suc, ◌+◌, ◌<◌, ◌≡◌, refl, List, [], ◌∷◌, none, some, arith, length, if◌then◌else◌,
  ◌==◌, ap, ◌∙◌, sym, Option-cases, inl, inr, Bool-cases, Bool,
}
use spacedbazaar.Wdgt.Operators.{
  Operator, EvalOperator, cmp_operator, operator_precedence, Doubles, Buffers, eval_operator,
  eval_operators, eval_closure, all_alive,
}
use spacedbazaar.Wdgt.Reference.{
  occurs, positions, count_from, chain_from, numbers, contract, contracted, block_value,
}
use spacedbazaar.Wdgt.Merge.{merge}
use spacedbazaar.Wdgt.Contraction.{
  live, buffers_at, contract-merge, length-merge, outcome-merge, alive-occurs, eval_operator-merge,
}

module _ {ℓ} {D : Type ℓ} (ds : Doubles D) where
  occurs-contract :
      (o : Operator) (p q : ℕ) (v v' : D) (r r' : List (ℕ × D))
      → contract ds o p v r ≡ some (v', r')
      → occurs q (numbers r) ≡ (if p == q then 1 else 0) + occurs q (numbers r')
  occurs-contract o p q v v' [] r' e = ground (arith, e)
  occurs-contract o p q v v' ((i, w) ∷ r) r' e = elim (Bool-cases (i == p)) [
    | inl t ↦ let at : some r ≡ some r' = ground (arith, t, e) in ground (arith, t, at)
    | inr f ↦ elim (Option-cases (contract ds o p w r)) [
      | inl n ↦ ground (arith, f, n, e)
      | inr s ↦
          let rest = s.0.1 in
          let ih = occurs-contract o p q w s.0.0 r rest s.1 in
          let kept : some ((i, s.0.0) ∷ rest) ≡ some r' = ground (arith, f, s.1, e) in
          ground (arith, ih, kept)
    ]
  ]

  none_left : (r : List (ℕ × D)) → ((q : ℕ) → 0 ≡ occurs q (numbers r)) → r ≡ []
  none_left [] h = refl
  none_left ((i, w) ∷ r) h = ground (arith, h i)

  live-all : (i : ℕ) (ws : List D) → live ds i ws (all_alive ds ws) ≡ chain_from i ws
  live-all i [] = refl
  live-all i (w ∷ ws) = ap (◌∷◌ (i, w)) (live-all (suc i) ws)

  length-all : (ws : List D) → length ws ≡ length (all_alive ds ws)
  length-all [] = refl
  length-all (w ∷ ws) = ap suc (length-all ws)

  numbers-chain : (i : ℕ) (ws : List D) → numbers (chain_from i ws) ≡ count_from i (length ws)
  numbers-chain i [] = refl
  numbers-chain i (w ∷ ws) = ap (◌∷◌ i) (numbers-chain (suc i) ws)

  chain-empty : (i : ℕ) (ws : List D) → chain_from i ws ≡ [] → length ws ≡ 0
  chain-empty i [] e = refl
  chain-empty i (w ∷ ws) e = ground (arith, e)

  operators-contracted :
      (ops : List EvalOperator) (r v : D) (xs : List D) (alive : List Bool)
      → length xs ≡ length alive
      → (live ds 0 xs alive ≡ [] → r ≡ v)
      → ((q : ℕ) → occurs q (positions ops) ≡ occurs q (numbers (live ds 0 xs alive)))
      → (b : Buffers ds) × (eval_operators ds ops (buffers_at ds r v xs alive) ≡ some b)
        × (contracted ds ops v (live ds 0 xs alive) ≡ some b.result)
  unfolding eval_operator
  operators-contracted [] r v xs alive e last all =
      let empty = none_left (live ds 0 xs alive) all in
      (buffers_at ds r v xs alive, refl, ap (contracted ds [] v) empty ∙ ap some (sym (last empty)))
  operators-contracted (o ∷ os) r v xs alive e last all =
      let mark = alive-occurs ds o.pos 0 o.pos xs alive (omega arith) (ground (arith, all o.pos)) in
      let m = merge ds o.op o.pos v xs alive in
      let there = contract-merge ds o.op o.pos 0 o.pos v xs alive e mark (omega arith) in
      let ih =
        operators-contracted os m.outcome m.head m.cells m.marks
          (length-merge ds o.op o.pos v xs alive e)
          (outcome-merge ds o.op o.pos 0 v xs alive e mark)
          (λ q. omega (
            arith,
            all q,
            occurs-contract o.op o.pos q v m.head (live ds 0 xs alive) (live ds 0 m.cells m.marks)
                there,
          )) in
      (
        ih.0,
        ap (λ b. elim b [ none ↦ none | some b' ↦ eval_operators ds os b' ])
              (eval_operator-merge ds o r v xs alive e mark)
            ∙ ih.1,
        ap (λ c. elim c [ none ↦ none | some (v', r') ↦ contracted ds os v' r' ]) there ∙ ih.2,
      )

  -- For one value and n more, n at least 1, and n operators that stand at the positions 0 to n - 1, in
  -- whatever order they are computed: eval_closure accesses no cell outside of its buffers and has
  -- a result, which is the value of the block when its operators are contracted in this order.
  pub eval_closure-block_value :
      (ops : List EvalOperator) (v : D) (ws : List D)
      → 0 < length ws
      → ((q : ℕ) → occurs q (positions ops) ≡ occurs q (count_from 0 (length ws)))
      → (r : D) × (eval_closure ds ops (v ∷ ws) ≡ some r) × (block_value ds ops v ws ≡ some r)
  unfolding eval_closure block_value eval_operator
  eval_closure-block_value ops v ws h all =
      let alive = all_alive ds ws in
      let chain = live-all 0 ws in
      let run =
        operators-contracted ops ds.zero_double v ws alive (length-all ws)
          (λ gone. ground (arith, h, chain-empty 0 ws (sym chain ∙ gone)))
          (λ q. all q ∙ ap (occurs q) (sym (ap numbers chain ∙ numbers-chain 0 ws))) in
      (
        run.0.result,
        ap (λ b. elim b [ none ↦ none | some b' ↦ some b'.result ]) run.1,
        ap (contracted ds ops v) (sym chain) ∙ run.2,
      )

-- Each of two operators comes after the other for cmp_operator exactly when they have the same
-- precedence: its answers are no order on them.
pub cmp_operator-same :
    (a b : EvalOperator)
    → ((cmp_operator a b ≡ ℤ.pos 1) × (cmp_operator b a ≡ ℤ.pos 1))
      ↔ (operator_precedence a.op ≡ operator_precedence b.op)
unfolding cmp_operator
cmp_operator-same a b = ground arith
