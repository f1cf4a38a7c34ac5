-- ===== src/Wdgt/Safe.antt =====
-- bge/wdgt/fmt/parser.c: parse_eval. Its loop ends, and leaves a spec that can be computed.
use spacedbazaar.Common.{
  ℕ, zero, suc, ◌<◌, ◌≤◌, ◌≡◌, refl, List, Option, Text, length, arith, ℤ, ◌≢◌, subst,
}
use spacedbazaar.Wdgt.Lexer.{eval_single_char_tokens}
use spacedbazaar.Wdgt.Operators.{EvalOperator}
use spacedbazaar.Wdgt.Reference.{occurs, positions}
use spacedbazaar.Wdgt.Expression.{
  Spec, Reader, out_of_fuel, ParseResult, parsed, failed, ParseEnv, Result, Block, eval_token,
  read_token,
}
use spacedbazaar.Wdgt.Blocks.{
  empty_values, finish_block, eval_round, is_close, eval_loop, parse_eval,
}
use spacedbazaar.Wdgt.Escapes.{HasNoEscape, HasNoEscapes, eval_token-plain}
use spacedbazaar.Wdgt.Kept.{
  AllComputable, IsPlain, Keeps, Keeps-elim, Shortens, read_token-Shortens,
}
use spacedbazaar.Wdgt.Alternating.{IsAlternating, Continues}
use spacedbazaar.Wdgt.Rounds.{Keeps-below, finish_block-Keeps, eval_round-Continues}

module _ {ℓ} {D : Type ℓ} (env : ParseEnv D) (macros : Option (List (Text × Text)))
    (sort_keeps : (cmp : EvalOperator → EvalOperator → ℤ) (ops : List EvalOperator) (q : ℕ)
      → occurs q (positions (env.sort cmp ops)) ≡ occurs q (positions ops))
    (plain_macros : HasNoEscapes macros) where
  on_token :
      (n : ℕ) (got : ParseResult (Text × Reader)) (k : Text → Reader → Result D)
      → Shortens n got
      → ((tok : Text) (r : Reader)
          → length r.p < n
          → HasNoEscape tok
          → HasNoEscape r.p
          → Keeps n (k tok r))
      → Keeps n (elim got [ failed e ↦ failed e | parsed (tok, r) ↦ k tok r ])
  on_token n (failed e) k h f = h
  on_token n (parsed (tok, r)) k h f = f tok r h.0 h.1 h.2

  on_round :
      (n : ℕ) (got : ParseResult (Block × Reader × Spec D)) (k : Block → Reader → Spec D → Result D)
      → Continues n got
      → ((b : Block) (r : Reader) (s : Spec D)
          → IsAlternating b
          → length r.p ≤ n
          → IsPlain r s
          → Keeps n (k b r s))
      → Keeps n (elim got [ failed e ↦ failed e | parsed (b, r, s) ↦ k b r s ])
  on_round n (failed e) k h f = h
  on_round n (parsed (b, r, s)) k h f = f b r s h.0 h.1 h.2

  -- One token of the loop, where the loop keeps what it is given after it.
  abbrev LoopKeeps : ℕ → ℕ → Type ℓ
  LoopKeeps fuel n =
      (r : Reader) (s : Spec D) (b : Block)
      → length r.p ≤ n
      → IsAlternating b
      → IsPlain r s
      → Keeps n (eval_loop env macros fuel r s b)

  empty-IsAlternating : IsAlternating empty_values
  empty-IsAlternating = (refl, omega arith, omega arith)

  round-Keeps :
      (fuel : ℕ) (tok : Text) (r : Reader) (s : Spec D) (b : Block)
      → HasNoEscape tok
      → IsAlternating b
      → IsPlain r s
      → LoopKeeps fuel (length r.p)
      → Keeps
          (length r.p)
          (elim (eval_round env macros
            (eval_token tok)
            tok
            r
            s
            b
            (λ r' s'. eval_loop env macros fuel r' s' empty_values)) [
              | failed e ↦ failed e
              | parsed (b', r', s') ↦ eval_loop env macros fuel r' s' b'
            ])
  round-Keeps fuel tok r s b plain h all loop =
      on_round (length r.p)
        (eval_round env macros (eval_token tok) tok r s b
          (λ r' s'. eval_loop env macros fuel r' s' empty_values))
        (λ b' r' s'. eval_loop env macros fuel r' s' b')
        (eval_round-Continues env macros sort_keeps plain_macros (eval_token tok) tok r s b
          (λ r' s'. eval_loop env macros fuel r' s' empty_values) (eval_token-plain tok plain) h all
          (λ r' s' below all'. loop r' s' empty_values below empty-IsAlternating all'))
        (λ b' r' s' h' below all'. loop r' s' b' below h' all')

  eval_loop-Keeps :
      (fuel : ℕ) (r : Reader) (s : Spec D) (b : Block)
      → length r.p < fuel
      → IsAlternating b
      → IsPlain r s
      → Keeps (length r.p) (eval_loop env macros fuel r s b)
  unfolding eval_loop
  eval_loop-Keeps zero r s b enough h all = ground (arith, enough)
  eval_loop-Keeps (suc fuel) r s b enough h all =
      on_token (length r.p) (read_token env macros eval_single_char_tokens r) _
        (read_token-Shortens env macros eval_single_char_tokens r plain_macros all.1)
        (λ tok r' shorter plain left.
          Keeps-below (length r'.p) (length r.p) _ (omega (arith, shorter)) (
            Keeps-elim (length r'.p) (is_close env macros (eval_token tok))
              (finish_block env b r' s) _
              (finish_block-Keeps env macros sort_keeps plain_macros b r' s h (all.0, left))
              (round-Keeps fuel tok r' s b plain h (all.0, left)
                (λ r'' s'' b'' below h'' all''.
                  Keeps-below (length r''.p) (length r'.p) (eval_loop env macros fuel r'' s'' b'')
                    below
                    (eval_loop-Keeps fuel r'' s'' b'' (omega (arith, below, shorter, enough)) h''
                      all'')))))

  pub parse_eval-Keeps :
      (fuel : ℕ) (r : Reader) (s : Spec D)
      → length r.p < fuel
      → IsPlain r s
      → Keeps (length r.p) (parse_eval env macros fuel r s)
  unfolding parse_eval
  parse_eval-Keeps fuel r s enough all =
      eval_loop-Keeps fuel r s empty_values enough empty-IsAlternating all

  -- Where the string and the replacements of the macros have no '#', so that parse_args is not called,
  -- the evaluations that the spec comes with are computable, the sort only reorders the operators, and
  -- the fuel is more than the characters left: parse_eval does not run out of it, and so it has a value
  -- or one of its own errors.
  pub parse_eval-terminates :
      (fuel : ℕ) (r : Reader) (s : Spec D)
      → length r.p < fuel
      → HasNoEscape r.p
      → AllComputable s.sources
      → parse_eval env macros fuel r s ≢ failed out_of_fuel
  parse_eval-terminates fuel r s enough plain all e =
      let kept = subst (Keeps (length r.p)) e (parse_eval-Keeps fuel r s enough (all, plain)) in
      ground (arith, kept)
