-- ===== src/Wdgt/Expression.antt =====
-- bge/wdgt/fmt/parser.c: parse_eval and parse_token_fundamental. A spec is the values that were added
-- to it, in order; whether it takes one more is a parameter, as are parse_args, of which no
-- law is assumed, GLib's parser of numbers and its sort. The fuel bounds the tokens.
use spacedbazaar.Common.{
  ℕ, ◌+◌, Bool, true, false, ◌||◌, List, [], ◌∷◌, ◌++◌, Option, none, some, Text, codes, text_eq, ℤ,
  if◌then◌else◌, ◌==◌,
}
use spacedbazaar.Wdgt.Lexer.{Cursor, has_char}
use spacedbazaar.Wdgt.Macros.{TokenError, Consumed, consumed, token_failed, consume_token}
use spacedbazaar.Wdgt.Operators.{
  Operator, add, subtract, multiply, divide, modulus, power, EvalOperator,
}

pub data MathFunction : Type 0 where
  ceil : MathFunction
  floor : MathFunction
  sin : MathFunction
  cos : MathFunction

pub data Constant {ℓ} (D : Type ℓ) : Type ℓ where
  of_double : D → Constant D
  of_int : ℤ → Constant D
  of_boolean : Bool → Constant D

-- What is added to a spec, under a name: evaluation is eval_closure with its arguments and operators.
pub data Source {ℓ} (D : Type ℓ) : Type ℓ where
  constant : Text → Constant D → Source D
  math_closure : Text → MathFunction → Text → Source D
  evaluation : Text → List Text → List EvalOperator → Source D
  other_source : Text → Source D

pub record Spec {ℓ} (D : Type ℓ) : Type ℓ where
  pub sources : List (Source D)
  pub n_anon_vals : ℕ

pub record Reader : Type 0 where
  pub p : Text
  pub cursor : Cursor

pub data EvalError : Type 0 where
  token_error : TokenError → EvalError
  unexpected_token : Text → Text → EvalError
  not_a_number : Text → EvalError
  value_refused : EvalError
  args_refused : EvalError
  one_argument : EvalError
  expected_operator : Text → EvalError
  expected_value : Text → EvalError
  empty_block : EvalError
  invalid_syntax : EvalError
  out_of_fuel : EvalError

pub data ParseResult {ℓ} (A : Type ℓ) : Type ℓ where
  parsed : A → ParseResult A
  failed : EvalError → ParseResult A

pub record ParseEnv {ℓ} (D : Type ℓ) : Type ℓ where
  pub is_space : ℕ → Bool
  pub is_digit : ℕ → Bool
  pub decimal : ℕ → Text
  pub variant_double : Text → Option D
  pub variant_int32 : Text → Option ℤ
  pub sort : (EvalOperator → EvalOperator → ℤ) → List EvalOperator → List EvalOperator
  pub accepts : List (Source D) → Source D → Bool
  pub parse_args : Reader → Spec D → Option (List Text × Reader × Spec D)
  pub minus_one : D

-- values, ops and apply_negative.
pub record Block : Type 0 where
  pub values : List Text
  pub ops : List EvalOperator
  pub apply_negative : Bool

pub data EvalToken : Type 0 where
  close : EvalToken
  open_block : EvalToken
  escape : EvalToken
  math : MathFunction → EvalToken
  operator : Operator → EvalToken
  fundamental : EvalToken

abbrev pub eval_token : Text → EvalToken
eval_token t =
    if text_eq t (codes ")")
    then close
    else if text_eq t (codes "(")
    then open_block
    else if text_eq t (codes "#")
    then escape
    else if text_eq t (codes "ceil")
    then math ceil
    else if text_eq t (codes "floor")
    then math floor
    else if text_eq t (codes "sin")
    then math sin
    else if text_eq t (codes "cos")
    then math cos
    else if text_eq t (codes "+")
    then operator add
    else if text_eq t (codes "-")
    then operator subtract
    else if text_eq t (codes "*")
    then operator multiply
    else if text_eq t (codes "/")
    then operator divide
    else if text_eq t (codes "%")
    then operator modulus
    else if text_eq t (codes "^")
    then operator power
    else fundamental

-- The value of a block or of a token, what is left, and the spec.
abbrev pub Result {ℓ} : Type ℓ → Type ℓ
Result D = ParseResult (Text × Reader × Spec D)

abbrev pub under_key {ℓ} : {D : Type ℓ} → Text → Reader → Option (Spec D) → Result D
under_key key r none = failed value_refused
under_key key r (some s) = parsed (key, r, s)

abbrev pub parsed_token : Consumed → ParseResult (Text × Reader)
parsed_token (token_failed e) = failed (token_error e)
parsed_token (consumed tok rest was_quoted cur) =
    let r : Reader = record { p = rest; cursor = cur } in parsed (tok, r)

abbrev pub check_token : Text → ParseResult (Text × Reader) → ParseResult Reader
check_token expect (failed e) = failed e
check_token expect (parsed (tok, r)) =
    if text_eq tok expect then parsed r else failed (unexpected_token expect tok)

module _ {ℓ} {D : Type ℓ} (env : ParseEnv D) (macros : Option (List (Text × Text))) where
  -- make_anon_name ((*n_anon_vals)++).
  abbrev pub make_anon_name : ℕ → Text
  make_anon_name n = codes "anon@" ++ env.decimal n

  abbrev pub next_anon : Spec D → Spec D
  next_anon s = record { sources = s.sources; n_anon_vals = s.n_anon_vals + 1 }

  abbrev pub add_source : Spec D → Source D → Option (Spec D)
  add_source s v =
      let s' : Spec D = record { sources = s.sources ++ v ∷ []; n_anon_vals = s.n_anon_vals } in
      if env.accepts s.sources v then some s' else none

  -- A value under the next anonymous name.
  abbrev pub add_anon : Reader → Spec D → (Text → Source D) → Result D
  add_anon r s v =
      let key = make_anon_name s.n_anon_vals in under_key key r (add_source (next_anon s) (v key))

  abbrev pub number_source : Reader → Spec D → Text → Option (Constant D) → Result D
  number_source r s tok none = failed (not_a_number tok)
  number_source r s tok (some v) = add_anon r s (λ key. constant key v)

  abbrev pub number_value : Text → Option (Constant D)
  number_value tok =
      if has_char tok 46
      then elim (env.variant_double tok) [ none ↦ none | some d ↦ some (of_double d) ]
      else elim (env.variant_int32 tok) [ none ↦ none | some i ↦ some (of_int i) ]

  abbrev pub starts_number : Text → Bool
  starts_number [] = env.is_digit 0
  starts_number (c ∷ s) = (c == 45) || env.is_digit c

  unfoldable pub parse_token_fundamental : Reader → Spec D → Text → Result D
  parse_token_fundamental r s tok =
      if starts_number tok
      then number_source r s tok (number_value tok)
      else if text_eq tok (codes "true")
      then add_anon r s (λ key. constant key (of_boolean true))
      else if text_eq tok (codes "false")
      then add_anon r s (λ key. constant key (of_boolean false))
      else parsed (tok, r, s)

  abbrev pub read_token : Text → Reader → ParseResult (Text × Reader)
  unfolding consume_token
  read_token singles r = parsed_token (consume_token env.is_space macros singles r.p false r.cursor)

  -- GET_TOKEN_EXPECT and GET_TOKEN_EVAL_EXPECT.
  abbrev pub expect_token : Text → Text → Reader → ParseResult Reader
  expect_token singles expect r = check_token expect (read_token singles r)
