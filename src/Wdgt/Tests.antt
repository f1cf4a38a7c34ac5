-- ===== src/Wdgt/Tests.antt =====
-- bge/wdgt/fmt/parser.c: the theorems at concrete strings and numbers, which stand for doubles.
use spacedbazaar.Common.{
  ℕ, ◌+◌, ◌-◌, ◌*◌, ◌/◌, ◌%◌, ◌^◌, ◌<◌, ◌≡◌, ◌≢◌, refl, Bool, true, false, ◌&&◌, List, [], ◌∷◌,
  Option, none, some, Text, text_eq, codes, length, ℤ, if◌then◌else◌, ◌==◌, leb, le_int, arith,
  Bool-cases, inl, inr, All, ap, ◌∙◌,
}
use spacedbazaar.Wdgt.Lexer.{
  Cursor, token, scan_token, consume_token_inner, eval_single_char_tokens,
}
use spacedbazaar.Wdgt.Tokens.{consume_token_inner-word, consume_token_inner-quoted}
use spacedbazaar.Wdgt.Progress.{consume_token_inner-shorter}
use spacedbazaar.Wdgt.Macros.{consume_token, expand, expanded, expand-first}
use spacedbazaar.Wdgt.Operators.{
  Operator, subtract, add, multiply, EvalOperator, cmp_operator, Doubles, eval_operator,
  eval_closure,
}
use spacedbazaar.Wdgt.Reference.{occurs, positions, block_value}
use spacedbazaar.Wdgt.Evaluation.{eval_closure-block_value}
use spacedbazaar.Wdgt.Expression.{
  constant, of_int, evaluation, Spec, Reader, parsed, failed, out_of_fuel, ParseEnv,
  parse_token_fundamental,
}
use spacedbazaar.Wdgt.Blocks.{
  parse_eval, eval_loop, eval_round, token_value, value_step, operator_step, finish_block,
}
use spacedbazaar.Wdgt.Safe.{parse_eval-terminates}
use spacedbazaar.Wdgt.Computed.{HasResult, parse_eval-HasResult}

abbrev numbers_as_doubles : Doubles ℕ
numbers_as_doubles = record {
  plus = λ a b. a + b;
  minus = λ a b. a - b;
  times = λ a b. a * b;
  over = λ a b. a / b;
  fmod = λ a b. a % b;
  pow = λ a b. a ^ b;
  zero_double = 0;
  minus_one = 1;
}

abbrev test_space : ℕ → Bool
test_space c = c == 32

abbrev test_int : Text → Option ℤ
test_int [] = none
test_int (c ∷ s) = some (ℤ.pos (c - 48))

abbrev no_cursor : Cursor
no_cursor = record { line = 0; column = 0 }

abbrev at_place : Operator → ℕ → EvalOperator
at_place op n = record { op = op; pos = n }

-- A sort by a comparison, from the right.
abbrev insert_operator :
    (EvalOperator → EvalOperator → ℤ) → EvalOperator → List EvalOperator → List EvalOperator
insert_operator cmp a [] = a ∷ []
insert_operator cmp a (b ∷ bs) =
    let rest = insert_operator cmp a bs in
    if le_int (cmp a b) (ℤ.pos 0) then a ∷ b ∷ bs else b ∷ rest

abbrev sort_operators : (EvalOperator → EvalOperator → ℤ) → List EvalOperator → List EvalOperator
sort_operators cmp [] = []
sort_operators cmp (a ∷ as') = insert_operator cmp a (sort_operators cmp as')

insert-occurs :
    (cmp : EvalOperator → EvalOperator → ℤ) (a : EvalOperator) (bs : List EvalOperator) (q : ℕ)
    → occurs q (positions (insert_operator cmp a bs)) ≡ occurs q (positions (a ∷ bs))
insert-occurs cmp a [] q = refl
insert-occurs cmp a (b ∷ bs) q = elim (Bool-cases (le_int (cmp a b) (ℤ.pos 0))) [
  | inl t ↦
      ap (λ x. occurs q (positions (if x then a ∷ b ∷ bs else b ∷ insert_operator cmp a bs))) t
  | inr f ↦
      ap (λ x. occurs q (positions (if x then a ∷ b ∷ bs else b ∷ insert_operator cmp a bs))) f
      ∙ omega (arith, insert-occurs cmp a bs q)
]

sort-occurs :
    (cmp : EvalOperator → EvalOperator → ℤ) (ops : List EvalOperator) (q : ℕ)
    → occurs q (positions (sort_operators cmp ops)) ≡ occurs q (positions ops)
sort-occurs cmp [] q = refl
sort-occurs cmp (a ∷ ops) q =
    omega (arith, insert-occurs cmp a (sort_operators cmp ops) q, sort-occurs cmp ops q)

-- It may give the string another end.
abbrev any_args : Reader → Spec ℕ → Option (List Text × Reader × Spec ℕ)
any_args r s =
    let r' : Reader = record { p = codes "1)"; cursor = r.cursor } in some (codes "x" ∷ [], r', s)

abbrev test_env : ParseEnv ℕ
test_env = record {
  is_space = test_space;
  is_digit = λ c. leb 48 c && leb c 57;
  decimal = λ n. (48 + n) ∷ [];
  variant_double = λ t. none;
  variant_int32 = test_int;
  sort = sort_operators;
  accepts = λ vs v. true;
  parse_args = any_args;
  minus_one = 1;
}

abbrev no_sources : Spec ℕ
no_sources = record { sources = []; n_anon_vals = 0 }

abbrev read_from : Text → Reader
read_from p = record { p = p; cursor = no_cursor }

eval_closure-block_value_example :
    (r : ℕ) × (eval_closure numbers_as_doubles
        (at_place multiply 1 ∷ at_place add 0 ∷ [])
        (1 ∷ 2 ∷ 3 ∷ [])
      ≡ some r)
    × (block_value numbers_as_doubles (at_place multiply 1 ∷ at_place add 0 ∷ []) 1 (2 ∷ 3 ∷ [])
        ≡ some r)
eval_closure-block_value_example =
    eval_closure-block_value numbers_as_doubles (at_place multiply 1 ∷ at_place add 0 ∷ []) 1
      (2 ∷ 3 ∷ []) (omega arith) (λ q. omega arith)

consume_token_inner-word_example :
    consume_token_inner test_space eval_single_char_tokens (codes " ab+c") false no_cursor
    ≡ token (codes "ab") (codes "+c") false (record { line = 0; column = 4 })
consume_token_inner-word_example =
    consume_token_inner-word test_space refl eval_single_char_tokens (codes " ") (codes "b")
      (codes "+c") 97 no_cursor (refl, tt) (refl, (refl, tt)) refl

consume_token_inner-quoted_example :
    consume_token_inner test_space eval_single_char_tokens
      (32 ∷ 34 ∷ 97 ∷ 32 ∷ 43 ∷ 34 ∷ 98 ∷ [])
      true
      no_cursor
    ≡ token (codes "a +") (codes "b") true (record { line = 0; column = 6 })
consume_token_inner-quoted_example =
    consume_token_inner-quoted test_space refl eval_single_char_tokens (codes " ") (codes "a +")
      (codes "b") true no_cursor (refl, tt) (refl, (refl, (refl, tt)))

word_read :
    consume_token_inner test_space eval_single_char_tokens (codes "ab c") false no_cursor
    ≡ token (codes "ab") (codes " c") false (record { line = 0; column = 3 })
unfolding consume_token_inner scan_token
word_read = refl

consume_token_inner-shorter_example : length (codes " c") < length (codes "ab c")
consume_token_inner-shorter_example =
    consume_token_inner-shorter test_space eval_single_char_tokens (codes "ab c") (codes "ab")
      (codes " c") false false no_cursor (record { line = 0; column = 3 }) word_read

abbrev name_table : List (Text × Text)
name_table = (codes "n", codes "3") ∷ []

expand-first_example : expand (some name_table) (codes "a@n@b@n@") ≡ expanded (codes "a3b@n@")
unfolding text_eq
expand-first_example =
    expand-first name_table (codes "a") (codes "n") (codes "b@n@") (codes "3") (refl, tt) (refl, tt)
      refl refl

parse_eval-terminates_example :
    parse_eval test_env none 5 (read_from (codes "1-2)")) no_sources ≢ failed out_of_fuel
parse_eval-terminates_example =
    parse_eval-terminates test_env none sort-occurs tt 5 (read_from (codes "1-2)")) no_sources
      (omega arith) (refl, (refl, (refl, (refl, tt)))) tt

abbrev sources_after : Spec ℕ
sources_after = record {
  sources =
      constant (codes "anon@0") (of_int (ℤ.pos 1))
      ∷ constant (codes "anon@1") (of_int (ℤ.pos 2))
      ∷ evaluation (codes "anon@2") (codes "anon@0" ∷ codes "anon@1" ∷ [])
          (at_place subtract 0 ∷ [])
      ∷ [];
  n_anon_vals = 3;
}

abbrev reader_after : Reader
reader_after = record { p = []; cursor = record { line = 0; column = 6 } }

block_parsed :
    parse_eval test_env none 5 (read_from (codes "1-2)")) no_sources
    ≡ parsed (codes "anon@2", reader_after, sources_after)
unfolding parse_eval eval_loop eval_round token_value value_step operator_step finish_block
    parse_token_fundamental consume_token consume_token_inner scan_token cmp_operator expand text_eq
    le_int
block_parsed = refl

parse_eval-HasResult_example : All (HasResult numbers_as_doubles) sources_after.sources
parse_eval-HasResult_example =
    parse_eval-HasResult test_env none sort-occurs tt numbers_as_doubles 5
      (read_from (codes "1-2)")) reader_after no_sources sources_after (codes "anon@2")
      (omega arith) (refl, (refl, (refl, (refl, tt)))) tt block_parsed

-- With this sort, 9 - 2 - 1 is computed from the right.
from_the_right :
    eval_closure numbers_as_doubles
      (sort_operators cmp_operator (at_place subtract 0 ∷ at_place subtract 1 ∷ []))
      (9 ∷ 2 ∷ 1 ∷ [])
    ≡ some 8
unfolding eval_closure eval_operator cmp_operator le_int
from_the_right = refl
