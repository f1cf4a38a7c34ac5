-- ===== src/Wdgt/Blocks.antt =====
-- bge/wdgt/fmt/parser.c: parse_eval, its loop over the tokens and the calls of itself.
use spacedbazaar.Common.{
  ℕ, zero, suc, ◌+◌, Bool, true, false, not, ◌||◌, List, [], ◌∷◌, ◌++◌, Option, none, some, Text,
  codes, if◌then◌else◌, ◌==◌, length,
}
use spacedbazaar.Wdgt.Lexer.{single_char_tokens, eval_single_char_tokens}
use spacedbazaar.Wdgt.Operators.{Operator, subtract, add, multiply, EvalOperator, cmp_operator}
use spacedbazaar.Wdgt.Expression.{
  MathFunction, constant, math_closure, evaluation, of_double, Spec, Reader, args_refused,
  one_argument, expected_operator, expected_value, empty_block, invalid_syntax, out_of_fuel,
  ParseResult, parsed, failed, ParseEnv, Block, EvalToken, close, open_block, escape, math,
  operator, eval_token, Result, add_anon, parse_token_fundamental, read_token, expect_token,
}

abbrev pub empty_values : Block
empty_values = record { values = []; ops = []; apply_negative = false }

-- `values->len == ops->len`.
abbrev pub expects_value : Block → Bool
expects_value b = length b.values == length b.ops

abbrev pub push_value : Text → Block → Block
push_value v b = record {
  values = b.values ++ v ∷ [];
  ops = b.ops;
  apply_negative = b.apply_negative;
}

abbrev pub push_operator : Operator → Block → Block
push_operator op b =
    let o : EvalOperator = record { op = op; pos = length b.ops } in
    record { values = b.values; ops = b.ops ++ o ∷ []; apply_negative = b.apply_negative }

abbrev pub set_negative : Bool → Block → Block
set_negative n b = record { values = b.values; ops = b.ops; apply_negative = n }

-- An operator where a value is expected is a sign.
unfoldable pub operator_step : Text → Operator → Block → ParseResult Block
operator_step tok op b =
    if expects_value b
    then elim op [
      | subtract ↦ parsed (set_negative (not b.apply_negative) b)
      | add ↦ parsed b
      | _ ↦ failed (expected_value tok)
    ]
    else parsed (push_operator op b)

module _ {ℓ} {D : Type ℓ} (env : ParseEnv D) where
  abbrev pub after_negative : Text → Block → Result D → ParseResult (Block × Reader × Spec D)
  after_negative value b (failed e) = failed e
  after_negative value b (parsed (key, r, s)) =
      parsed
        (push_value value (push_operator multiply (push_value key (set_negative false b))), r, s)

  -- A minus sign is the value -1.0 and a multiplication.
  abbrev pub negated : Text → Reader → Spec D → Block → ParseResult (Block × Reader × Spec D)
  negated value r s b =
      after_negative value b (add_anon env none r s (λ key. constant key (of_double env.minus_one)))

  -- A value: the token it came of, for the error, its name, what is left and the spec.
  unfoldable pub value_step :
      Text → Text → Reader → Spec D → Block → ParseResult (Block × Reader × Spec D)
  value_step tok value r s b =
      if expects_value b
      then if b.apply_negative then negated value r s b else parsed (push_value value b, r, s)
      else failed (expected_operator tok)

  abbrev pub sorted_ops : Block → List EvalOperator
  unfolding cmp_operator
  sorted_ops b = env.sort cmp_operator b.ops

  abbrev pub finish_values : List Text → List EvalOperator → Reader → Spec D → Result D
  finish_values [] ops r s = failed empty_block
  finish_values (v ∷ []) ops r s = parsed (v, r, s)
  finish_values (v ∷ w ∷ ws) ops r s =
      add_anon env none r s (λ key. evaluation key (v ∷ w ∷ ws) ops)

  -- After the closing parenthesis.
  unfoldable pub finish_block : Block → Reader → Spec D → Result D
  finish_block b r s =
      let done = finish_values b.values (sorted_ops b) r s in
      if (length b.values == 0) || (length b.ops + 1 == length b.values)
      then done
      else failed invalid_syntax

  abbrev pub escape_value : Option (List Text × Reader × Spec D) → Result D
  escape_value none = failed args_refused
  escape_value (some ([], r, s)) = failed one_argument
  escape_value (some (v ∷ [], r, s)) = parsed (v, r, s)
  escape_value (some (v ∷ w ∷ vs, r, s)) = failed one_argument

module _ {ℓ} {D : Type ℓ} (env : ParseEnv D) (macros : Option (List (Text × Text))) where
  abbrev pub after_open : (Reader → Result D) → ParseResult Reader → Result D
  after_open inside (failed e) = failed e
  after_open inside (parsed r) = inside r

  abbrev pub escape_token : Reader → Spec D → Result D
  escape_token r s =
      after_open (λ r'. escape_value env (env.parse_args r' s))
        (expect_token env macros single_char_tokens (codes "(") r)

  abbrev pub math_value : MathFunction → Result D → Result D
  math_value f (failed e) = failed e
  math_value f (parsed (arg, r, s)) = add_anon env none r s (λ key. math_closure key f arg)

  -- What a token leads to, where `block` parses the block that it opens.
  unfoldable pub token_value :
      EvalToken → Text → Reader → Spec D → (Reader → Spec D → Result D) → Result D
  unfolding parse_token_fundamental
  token_value open_block tok r s block = block r s
  token_value escape tok r s block = escape_token r s
  token_value (math f) tok r s block =
      after_open (λ r'. math_value f (block r' s))
        (expect_token env macros eval_single_char_tokens (codes "(") r)
  token_value _ tok r s block = parse_token_fundamental env macros r s tok

  -- The token that an error about this value names.
  abbrev pub shown_token : EvalToken → Text → Text
  shown_token escape tok = codes "("
  shown_token (math f) tok = codes "("
  shown_token _ tok = tok

  abbrev pub after_value : Text → Block → Result D → ParseResult (Block × Reader × Spec D)
  unfolding value_step
  after_value tok b (failed e) = failed e
  after_value tok b (parsed (v, r, s)) = value_step env tok v r s b

  abbrev pub after_operator :
      Reader → Spec D → ParseResult Block → ParseResult (Block × Reader × Spec D)
  after_operator r s (failed e) = failed e
  after_operator r s (parsed b) = parsed (b, r, s)

  -- A round of the loop that does not end it.
  unfoldable pub eval_round :
      EvalToken
      → Text
      → Reader
      → Spec D
      → Block
      → (Reader → Spec D → Result D)
      → ParseResult (Block × Reader × Spec D)
  unfolding operator_step token_value value_step
  eval_round (operator op) tok r s b block = after_operator r s (operator_step tok op b)
  eval_round t tok r s b block = after_value (shown_token t tok) b (token_value t tok r s block)

  abbrev pub is_close : EvalToken → Bool
  is_close close = true
  is_close _ = false

  unfoldable pub eval_loop : ℕ → Reader → Spec D → Block → Result D
  unfolding eval_round finish_block
  eval_loop zero r s b = failed out_of_fuel
  eval_loop (suc fuel) r s b = elim (read_token env macros eval_single_char_tokens r) [
    | failed e ↦ failed e
    | parsed (tok, r') ↦ elim (is_close (eval_token tok)) [
      | true ↦ finish_block env b r' s
      | false ↦
          elim (eval_round (eval_token tok) tok r' s b
            (λ r'' s''. eval_loop fuel r'' s'' empty_values)) [
              | failed e ↦ failed e
              | parsed (b', r'', s'') ↦ eval_loop fuel r'' s'' b'
            ]
    ]
  ]

  unfoldable pub parse_eval : ℕ → Reader → Spec D → Result D
  unfolding eval_loop
  parse_eval fuel r s = eval_loop fuel r s empty_values
