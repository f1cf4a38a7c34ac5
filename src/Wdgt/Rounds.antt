-- ===== src/Wdgt/Rounds.antt =====
-- bge/wdgt/fmt/parser.c: parse_eval. A round of its loop, and its end.
use spacedbazaar.Common.{
  ℕ, suc, ◌+◌, ◌<◌, ◌≤◌, ◌≡◌, refl, Bool, true, false, ◌||◌, List, [], ◌∷◌, Option, none, Text,
  if◌then◌else◌, ◌==◌, length, arith, ap, ◌∙◌, codes, ℤ,
}
use spacedbazaar.Wdgt.Lexer.{eval_single_char_tokens}
use spacedbazaar.Wdgt.Operators.{EvalOperator, cmp_operator}
use spacedbazaar.Wdgt.Reference.{occurs, positions, count_from}
use spacedbazaar.Wdgt.Expression.{
  math_closure, evaluation, Spec, Reader, invalid_syntax, math_closure, ParseResult, parsed, failed,
  ParseEnv, Result, MathFunction, Block, EvalToken, close, open_block, escape, math, operator,
  fundamental, add_anon, expect_token,
}
use spacedbazaar.Wdgt.Blocks.{
  after_open, value_step, sorted_ops, finish_values, finish_block, math_value, token_value,
  after_value, eval_round,
}
use spacedbazaar.Wdgt.Escapes.{HasNoEscape, HasNoEscapes, is_escape}
use spacedbazaar.Wdgt.Kept.{
  IsPlain, Keeps, ReaderBelow, add_anon-Keeps, parse_token_fundamental-Keeps, expect_token-below,
}
use spacedbazaar.Wdgt.Alternating.{
  IsAlternating, Continues, operator_step-Continues, value_step-Continues,
}

pub Keeps-below {ℓ} : {D : Type ℓ} (m n : ℕ) (x : Result D) → m ≤ n → Keeps m x → Keeps n x
Keeps-below m n (failed e) h k = k
Keeps-below m n (parsed (v, r, s)) h k = (omega (arith, h, k.0), k.1)

Continues-below {ℓ} :
    {D : Type ℓ} (m n : ℕ) (x : ParseResult (Block × Reader × Spec D))
    → m ≤ n
    → Continues m x
    → Continues n x
Continues-below m n (failed e) h k = k
Continues-below m n (parsed (b, r, s)) h k = (k.0, omega (arith, h, k.1), k.2)

module _ {ℓ} {D : Type ℓ} (env : ParseEnv D) (macros : Option (List (Text × Text)))
    (sort_keeps : (cmp : EvalOperator → EvalOperator → ℤ) (ops : List EvalOperator) (q : ℕ)
      → occurs q (positions (env.sort cmp ops)) ≡ occurs q (positions ops))
    (plain_macros : HasNoEscapes macros) where
  finish_values-Keeps :
      (values : List Text) (ops : List EvalOperator) (r : Reader) (s : Spec D)
      → IsPlain r s
      → ((n : ℕ)
          → length values ≡ suc (suc n)
          → (q : ℕ) → occurs q (positions ops) ≡ occurs q (count_from 0 (suc n)))
      → Keeps (length r.p) (finish_values env values ops r s)
  finish_values-Keeps [] ops r s all f = refl
  finish_values-Keeps (v ∷ []) ops r s all f = (omega arith, all)
  finish_values-Keeps (v ∷ w ∷ ws) ops r s all f =
      add_anon-Keeps env none r s (λ key. evaluation key (v ∷ w ∷ ws) ops) all
        (λ key. (length ws, refl, f (length ws) refl))

  pub finish_block-Keeps :
      (b : Block) (r : Reader) (s : Spec D)
      → IsAlternating b
      → IsPlain r s
      → Keeps (length r.p) (finish_block env b r s)
  unfolding finish_block cmp_operator
  finish_block-Keeps b r s h all =
      test ((length b.values == 0) || (length b.ops + 1 == length b.values)) refl
    where
      test :
          (t : Bool)
          → ((length b.values == 0) || (length b.ops + 1 == length b.values)) ≡ t
          → Keeps (length r.p) (
              if t
              then finish_values env b.values (sorted_ops env b) r s
              else failed invalid_syntax)
      test false e = refl
      test true e = finish_values-Keeps b.values (sorted_ops env b) r s all (λ n len q.
          sort_keeps cmp_operator b.ops q
          ∙ ap (occurs q) h.0
          ∙ ap (λ m. occurs q (count_from 0 m)) {x = length b.ops} {y = suc n}
              (ground (arith, len, e)))

  after_open-Keeps :
      (n : ℕ) (inside : Reader → Result D) (got : ParseResult Reader)
      → ReaderBelow n got
      → ((r : Reader) → length r.p < n → HasNoEscape r.p → Keeps n (inside r))
      → Keeps n (after_open env macros inside got)
  after_open-Keeps n inside (failed e) k f = k
  after_open-Keeps n inside (parsed r) k f = f r k.0 k.1

  math_value-Keeps :
      (n : ℕ) (m : MathFunction) (got : Result D)
      → Keeps n got
      → Keeps n (math_value env macros m got)
  math_value-Keeps n m (failed e) k = k
  math_value-Keeps n m (parsed (arg, r, s)) k =
      Keeps-below (length r.p) n (add_anon env none r s (λ key. math_closure key m arg)) k.0
        (add_anon-Keeps env none r s (λ key. math_closure key m arg) k.1 (λ key. tt))

  -- A block inside keeps what it is given, where it begins before n.
  abbrev pub BlockKeeps : ℕ → (Reader → Spec D → Result D) → Type ℓ
  BlockKeeps n block =
      (r : Reader) (s : Spec D) → length r.p ≤ n → IsPlain r s → Keeps n (block r s)

  token_value-Keeps :
      (t : EvalToken) (tok : Text) (r : Reader) (s : Spec D) (block : Reader → Spec D → Result D)
      → is_escape t ≡ false
      → IsPlain r s
      → BlockKeeps (length r.p) block
      → Keeps (length r.p) (token_value env macros t tok r s block)
  unfolding token_value
  token_value-Keeps open_block tok r s block e all f = f r s (omega arith) all
  token_value-Keeps escape tok r s block e all f = ground (arith, e)
  token_value-Keeps (math m) tok r s block e all f =
      after_open-Keeps (length r.p) (λ r'. math_value env macros m (block r' s))
        (expect_token env macros eval_single_char_tokens (codes "(") r)
        (expect_token-below env macros eval_single_char_tokens (codes "(") r plain_macros all.1)
        (λ r' h plain.
          math_value-Keeps (length r.p) m (block r' s) (f r' s (omega (arith, h)) (all.0, plain)))
  token_value-Keeps close tok r s block e all f =
      parse_token_fundamental-Keeps env macros r s tok all
  token_value-Keeps (operator op) tok r s block e all f =
      parse_token_fundamental-Keeps env macros r s tok all
  token_value-Keeps fundamental tok r s block e all f =
      parse_token_fundamental-Keeps env macros r s tok all

  after_value-Continues :
      (tok : Text) (n : ℕ) (b : Block) (got : Result D)
      → Keeps n got
      → IsAlternating b
      → Continues n (after_value env macros tok b got)
  unfolding value_step
  after_value-Continues tok n b (failed e) k h = k
  after_value-Continues tok n b (parsed (v, r, s)) k h =
      Continues-below (length r.p) n (value_step env tok v r s b) k.0
        (value_step-Continues env macros tok v b r s h k.1)

  pub eval_round-Continues :
      (t : EvalToken) (tok : Text) (r : Reader) (s : Spec D) (b : Block)
      (block : Reader → Spec D → Result D)
      → is_escape t ≡ false
      → IsAlternating b
      → IsPlain r s
      → BlockKeeps (length r.p) block
      → Continues (length r.p) (eval_round env macros t tok r s b block)
  unfolding eval_round
  eval_round-Continues (operator op) tok r s b block e h all f =
      operator_step-Continues env macros tok op b r s h all
  eval_round-Continues close tok r s b block e h all f =
      after_value-Continues tok (length r.p) b _ (token_value-Keeps close tok r s block e all f) h
  eval_round-Continues open_block tok r s b block e h all f =
      after_value-Continues tok (length r.p) b _
        (token_value-Keeps open_block tok r s block e all f) h
  eval_round-Continues escape tok r s b block e h all f = ground (arith, e)
  eval_round-Continues (math m) tok r s b block e h all f =
      after_value-Continues (codes "(") (length r.p) b _
        (token_value-Keeps (math m) tok r s block e all f) h
  eval_round-Continues fundamental tok r s b block e h all f =
      after_value-Continues tok (length r.p) b _
        (token_value-Keeps fundamental tok r s block e all f) h
