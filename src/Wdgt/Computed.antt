-- ===== src/Wdgt/Computed.antt =====
-- bge/wdgt/fmt/parser.c: parse_eval and eval_closure together.
use spacedbazaar.Common.{
  ℕ, suc, ◌<◌, ◌≡◌, List, [], ◌∷◌, Option, some, Text, length, All, arith, ℤ, ap, ◌∙◌, sym, subst,
}
use spacedbazaar.Wdgt.Operators.{EvalOperator, Doubles, eval_closure}
use spacedbazaar.Wdgt.Reference.{occurs, positions, count_from}
use spacedbazaar.Wdgt.Evaluation.{eval_closure-block_value}
use spacedbazaar.Wdgt.Expression.{
  Source, constant, math_closure, evaluation, other_source, Spec, Reader, parsed, ParseEnv,
}
use spacedbazaar.Wdgt.Blocks.{parse_eval}
use spacedbazaar.Wdgt.Escapes.{HasNoEscape, HasNoEscapes}
use spacedbazaar.Wdgt.Kept.{IsComputable, AllComputable, Keeps}
use spacedbazaar.Wdgt.Safe.{parse_eval-Keeps}

module _ {ℓ} {D : Type ℓ} (ds : Doubles D) where
  -- For every value of the arguments the evaluation accesses its buffers alone and has a result.
  abbrev pub HasResult : Source D → Type ℓ
  HasResult (evaluation key args ops) =
      (vs : List D) → length vs ≡ length args → (x : D) × (eval_closure ds ops vs ≡ some x)
  HasResult (constant key v) = Unit
  HasResult (math_closure key f arg) = Unit
  HasResult (other_source key) = Unit

  computable-HasResult : (v : Source D) → IsComputable v → HasResult v
  computable-HasResult (constant key v) h = tt
  computable-HasResult (math_closure key f arg) h = tt
  computable-HasResult (other_source key) h = tt
  computable-HasResult (evaluation key args ops) h = result
    where
      result : (vs : List D) → length vs ≡ length args → (x : D) × (eval_closure ds ops vs ≡ some x)
      result [] e = ground (arith, e, h.1)
      result (v ∷ ws) e =
          let len : length ws ≡ suc h.0 = omega (arith, e, h.1) in
          let run =
            eval_closure-block_value ds ops v ws (omega (arith, len))
              (λ q. h.2 q ∙ ap (λ m. occurs q (count_from 0 m)) (sym len)) in
          (run.0, run.1)

  HasResult-sources : (vs : List (Source D)) → AllComputable vs → All (HasResult) vs
  HasResult-sources [] all = tt
  HasResult-sources (v ∷ vs) all = (computable-HasResult v all.0, HasResult-sources vs all.1)

module _ {ℓ} {D : Type ℓ} (env : ParseEnv D) (macros : Option (List (Text × Text)))
    (sort_keeps : (cmp : EvalOperator → EvalOperator → ℤ) (ops : List EvalOperator) (q : ℕ)
      → occurs q (positions (env.sort cmp ops)) ≡ occurs q (positions ops))
    (plain_macros : HasNoEscapes macros) where
  -- Where the string and the replacements of the macros have no '#', so that parse_args is not called,
  -- the evaluations that the spec comes with are computable, the sort only reorders the operators, and
  -- the fuel is more than the characters left: after parse_eval has given a value, every evaluation of
  -- the spec, those of the blocks inside included, has a result for all values of its arguments, and
  -- accesses nothing outside of its buffers.
  pub parse_eval-HasResult :
      (ds : Doubles D) (fuel : ℕ) (r r' : Reader) (s s' : Spec D) (value : Text)
      → length r.p < fuel
      → HasNoEscape r.p
      → AllComputable s.sources
      → parse_eval env macros fuel r s ≡ parsed (value, r', s')
      → All (HasResult ds) s'.sources
  parse_eval-HasResult ds fuel r r' s s' value enough plain all e =
      let kept =
        subst (Keeps (length r.p)) e
          (parse_eval-Keeps env macros sort_keeps plain_macros fuel r s enough (all, plain)) in
      HasResult-sources ds s'.sources kept.1.0
