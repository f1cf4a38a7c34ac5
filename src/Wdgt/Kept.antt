-- ===== src/Wdgt/Kept.antt =====
-- bge/wdgt/fmt/parser.c: what the parts of parse_eval keep of the spec and take of the string.
use spacedbazaar.Common.{
  ℕ, suc, ◌+◌, ◌<◌, ◌≤◌, ◌≡◌, refl, Bool, true, false, List, [], ◌∷◌, ◌++◌, Option, none, some,
  Text, if◌then◌else◌, length, All, arith, codes, text_eq,
}
use spacedbazaar.Wdgt.Lexer.{
  token, unexpected_eof, expected_quote, Lexed, Cursor, consume_token_inner,
}
use spacedbazaar.Wdgt.Progress.{consume_token_inner-shorter}
use spacedbazaar.Wdgt.Macros.{
  consume_token, after_token, expand, expanded, not_expanded, Expanded, after_expansion,
}
use spacedbazaar.Wdgt.Escapes.{
  HasNoEscape, HasNoEscapes, LexedPlain, ExpandedPlain, consume_token_inner-plain, expand-plain,
}
use spacedbazaar.Wdgt.Reference.{occurs, positions, count_from}
use spacedbazaar.Wdgt.Expression.{
  Constant, Source, constant, math_closure, evaluation, other_source, Spec, Reader, EvalError,
  out_of_fuel, ParseResult, parsed, failed, ParseEnv, Result, make_anon_name, add_anon,
  number_source, number_value, starts_number, parse_token_fundamental, read_token, expect_token,
  parsed_token, under_key, check_token, unexpected_token, of_boolean,
}

abbrev pub is_fuel : EvalError → Bool
is_fuel out_of_fuel = true
is_fuel _ = false

-- The operators of an evaluation stand between its arguments, each at its own place.
abbrev pub IsComputable {ℓ} : {D : Type ℓ} → Source D → Type 0
IsComputable (evaluation key args ops) =
    (n : ℕ) × (length args ≡ suc (suc n))
    × ((q : ℕ) → occurs q (positions ops) ≡ occurs q (count_from 0 (suc n)))
IsComputable (constant key v) = Unit
IsComputable (math_closure key f arg) = Unit
IsComputable (other_source key) = Unit

abbrev pub AllComputable {ℓ} : {D : Type ℓ} → List (Source D) → Type 0
AllComputable vs = All IsComputable vs

AllComputable-append {ℓ} :
    {D : Type ℓ} (vs : List (Source D)) (v : Source D)
    → AllComputable vs
    → IsComputable v
    → AllComputable (vs ++ v ∷ [])
AllComputable-append [] v all h = (h, tt)
AllComputable-append (w ∷ vs) v all h = (all.0, AllComputable-append vs v all.1 h)

-- No escape is left in the string, and the evaluations of the spec are computable.
abbrev pub IsPlain {ℓ} : {D : Type ℓ} → Reader → Spec D → Type 0
IsPlain r s = AllComputable s.sources × HasNoEscape r.p

-- A result that has no more than n characters left, none of them an escape, and a spec of computable
-- values, or an error of the source.
abbrev pub Keeps {ℓ} : {D : Type ℓ} → ℕ → Result D → Type 0
Keeps n (parsed (v, r, s)) = (length r.p ≤ n) × IsPlain r s
Keeps n (failed e) = is_fuel e ≡ false

abbrev pub Shortens : ℕ → ParseResult (Text × Reader) → Type 0
Shortens n (parsed (tok, r)) = (length r.p < n) × HasNoEscape tok × HasNoEscape r.p
Shortens n (failed e) = is_fuel e ≡ false

pub Keeps-if {ℓ} :
    {D : Type ℓ} (n : ℕ) (b : Bool) (x y : Result D)
    → Keeps n x
    → Keeps n y
    → Keeps n (if b then x else y)
Keeps-if n true x y hx hy = hx
Keeps-if n false x y hx hy = hy

pub Keeps-elim {ℓ} :
    {D : Type ℓ} (n : ℕ) (b : Bool) (x y : Result D)
    → Keeps n x
    → Keeps n y
    → Keeps n (elim b [ true ↦ x | false ↦ y ])
Keeps-elim n true x y hx hy = hx
Keeps-elim n false x y hx hy = hy

Shortens-expanded :
    (n : ℕ) (rest : Text) (wq : Bool) (cur : Cursor) (x : Expanded)
    → length rest < n
    → HasNoEscape rest
    → ExpandedPlain x
    → Shortens n (parsed_token (after_expansion rest wq cur x))
Shortens-expanded n rest wq cur (expanded tok) h plain ht = (h, ht, plain)
Shortens-expanded n rest wq cur (not_expanded e) h plain ht = refl

Shortens-lexed :
    (m : Option (List (Text × Text))) (n : ℕ) (lexed : Lexed)
    → HasNoEscapes m
    → LexedPlain lexed
    → ((t rest : Text) (wq : Bool) (cur : Cursor) → lexed ≡ token t rest wq cur → length rest < n)
    → Shortens n (parsed_token (after_token m lexed))
unfolding expand
Shortens-lexed m n (token t rest wq cur) hm plain h =
    Shortens-expanded n rest wq cur (expand m t) (h t rest wq cur refl) plain.1
      (expand-plain m t hm plain.0)
Shortens-lexed m n unexpected_eof hm plain h = refl
Shortens-lexed m n expected_quote hm plain h = refl

-- The reader after an expected token.
abbrev pub ReaderBelow : ℕ → ParseResult Reader → Type 0
ReaderBelow n (parsed r) = (length r.p < n) × HasNoEscape r.p
ReaderBelow n (failed e) = is_fuel e ≡ false

expected-below :
    (n : ℕ) (expect : Text) (got : ParseResult (Text × Reader))
    → Shortens n got
    → ReaderBelow n (check_token expect got)
expected-below n expect (failed e) h = h
expected-below n expect (parsed (tok, r)) h =
    elim (text_eq tok expect)
      as (λ b. ReaderBelow n (if b then parsed r else failed (unexpected_token expect tok))) [
        | true ↦ (h.0, h.2)
        | false ↦ refl
      ]

module _ {ℓ} {D : Type ℓ} (env : ParseEnv D) (macros : Option (List (Text × Text))) where
  added-Keeps :
      (b : Bool) (key : Text) (r : Reader) (s : Spec D)
      → IsPlain r s
      → Keeps (length r.p) (under_key key r (if b then some s else none))
  added-Keeps true key r s all = (omega arith, all)
  added-Keeps false key r s all = refl

  pub add_anon-Keeps :
      (r : Reader) (s : Spec D) (v : Text → Source D)
      → IsPlain r s
      → ((key : Text) → IsComputable (v key))
      → Keeps (length r.p) (add_anon env macros r s v)
  add_anon-Keeps r s v all h =
      let key = make_anon_name env macros s.n_anon_vals in
      let s' : Spec D = record {
        sources = s.sources ++ v key ∷ [];
        n_anon_vals = s.n_anon_vals + 1;
      } in
      added-Keeps (env.accepts s.sources (v key)) key r s'
        (AllComputable-append s.sources (v key) all.0 (h key), all.1)

  number-Keeps :
      (r : Reader) (s : Spec D) (tok : Text) (v : Option (Constant D))
      → IsPlain r s
      → Keeps (length r.p) (number_source env macros r s tok v)
  number-Keeps r s tok none all = refl
  number-Keeps r s tok (some v) all = add_anon-Keeps r s (λ key. constant key v) all (λ key. tt)

  pub parse_token_fundamental-Keeps :
      (r : Reader) (s : Spec D) (tok : Text)
      → IsPlain r s
      → Keeps (length r.p) (parse_token_fundamental env macros r s tok)
  unfolding parse_token_fundamental
  parse_token_fundamental-Keeps r s tok all =
      let boolean : (b : Bool)
          → Keeps (length r.p) (add_anon env macros r s (λ key. constant key (of_boolean b))) =
        λ b. add_anon-Keeps r s (λ key. constant key (of_boolean b)) all (λ key. tt) in
      Keeps-if (length r.p) (starts_number env macros tok)
        (number_source env macros r s tok (number_value env macros tok)) _
        (number-Keeps r s tok (number_value env macros tok) all)
        (Keeps-if (length r.p) (text_eq tok (codes "true")) _ _ (boolean true) (
          Keeps-if (length r.p) (text_eq tok (codes "false")) _ _ (boolean false)
            (omega arith, all)))

  pub read_token-Shortens :
      (singles : Text) (r : Reader)
      → HasNoEscapes macros
      → HasNoEscape r.p
      → Shortens (length r.p) (read_token env macros singles r)
  unfolding consume_token
  read_token-Shortens singles r hm plain =
      Shortens-lexed macros (length r.p)
        (consume_token_inner env.is_space singles r.p false r.cursor) hm
        (consume_token_inner-plain env.is_space singles r.p false r.cursor plain)
        (λ t rest wq cur e.
          consume_token_inner-shorter env.is_space singles r.p t rest false wq r.cursor cur e)

  pub expect_token-below :
      (singles expect : Text) (r : Reader)
      → HasNoEscapes macros
      → HasNoEscape r.p
      → ReaderBelow (length r.p) (expect_token env macros singles expect r)
  expect_token-below singles expect r hm plain =
      expected-below (length r.p) expect (read_token env macros singles r)
        (read_token-Shortens singles r hm plain)
