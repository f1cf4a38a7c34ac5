-- ===== src/Wdgt/Reference.antt =====
-- What an evaluation block means, for bge/wdgt/fmt/parser.c: eval_closure: a first value and, for each
-- operator, its number and the value on its right. To compute an operator is to contract it.
use spacedbazaar.Common.{ℕ, zero, suc, ◌+◌, List, [], ◌∷◌, Option, none, some, if◌then◌else◌, ◌==◌}
use spacedbazaar.Wdgt.Operators.{Operator, EvalOperator, Doubles, apply_operator}

-- How often a number is one of the list.
abbrev pub occurs : ℕ → List ℕ → ℕ
occurs q [] = 0
occurs q (p ∷ ps) = (if p == q then 1 else 0) + occurs q ps

abbrev pub positions : List EvalOperator → List ℕ
positions [] = []
positions (o ∷ os) = o.pos ∷ positions os

-- The numbers from i on, n of them.
abbrev pub count_from : ℕ → ℕ → List ℕ
count_from i zero = []
count_from i (suc n) = i ∷ count_from (suc i) n

module _ {ℓ} {D : Type ℓ} where
  abbrev pub chain_from : ℕ → List D → List (ℕ × D)
  chain_from i [] = []
  chain_from i (w ∷ ws) = (i, w) ∷ chain_from (suc i) ws

  abbrev pub numbers : List (ℕ × D) → List ℕ
  numbers [] = []
  numbers ((q, w) ∷ r) = q ∷ numbers r

  abbrev pub behind : D → ℕ → Option (D × List (ℕ × D)) → Option (D × List (ℕ × D))
  behind v q none = none
  behind v q (some (w, r)) = some (v, (q, w) ∷ r)

module _ {ℓ} {D : Type ℓ} (ds : Doubles D) where
  abbrev pub contract : Operator → ℕ → D → List (ℕ × D) → Option (D × List (ℕ × D))
  contract o p v [] = none
  contract o p v ((q, w) ∷ r) =
      let rest = contract o p w r in
      if q == p then some (apply_operator ds o v w, r) else behind v q rest

  -- `none` where an operator is missing or is left over.
  abbrev pub contracted : List EvalOperator → D → List (ℕ × D) → Option D
  contracted [] v [] = some v
  contracted [] v (_ ∷ _) = none
  contracted (o ∷ os) v r = elim (contract o.op o.pos v r) [
    | none ↦ none
    | some (v', r') ↦ contracted os v' r'
  ]

  unfoldable pub block_value : List EvalOperator → D → List D → Option D
  block_value os v ws = contracted os v (chain_from 0 ws)
