-- ===== src/Wdgt/Macros.antt =====
-- bge/wdgt/fmt/parser.c: consume_token, which puts the replacements of a macro into a token.
use spacedbazaar.Common.{
  ℕ, Bool, ◌≡◌, refl, List, [], ◌∷◌, ◌++◌, Option, none, some, Text, text_eq, if◌then◌else◌, ◌==◌,
  All, arith, false,
}
use spacedbazaar.Wdgt.Lexer.{
  Cursor, Lexed, token, unexpected_eof, expected_quote, consume_token_inner,
}

pub data TokenError : Type 0 where
  at_eof : TokenError
  no_quote : TokenError
  unterminated_replacement : TokenError
  undefined_string : Text → TokenError

pub data Consumed : Type 0 where
  consumed : Text → Text → Bool → Cursor → Consumed
  token_failed : TokenError → Consumed

pub data Expanded : Type 0 where
  expanded : Text → Expanded
  not_expanded : TokenError → Expanded

-- The table of the replacements.
abbrev pub replacement : List (Text × Text) → Text → Option Text
replacement [] name = none
replacement ((k, v) ∷ m) name =
    let rest = replacement m name in if text_eq k name then some v else rest

abbrev pub with_char : ℕ → Option (Text × Text) → Option (Text × Text)
with_char c none = none
with_char c (some (before, after)) = some (c ∷ before, after)

-- g_utf8_strchr (s, -1, '@'): what is before it, and what is after it.
abbrev pub split_at_sign : Text → Option (Text × Text)
split_at_sign [] = none
split_at_sign (c ∷ s) =
    let rest = split_at_sign s in if c == 64 then some ([], s) else with_char c rest

-- The search for the next '@' has its arguments swapped: it looks for the character -1, which no
-- string has, and so there is one round of the loop.
abbrev pub with_replacement : Text → Text → Text → Option Text → Expanded
with_replacement before name after none = not_expanded (undefined_string name)
with_replacement before name after (some with) = expanded (before ++ (with ++ after))

abbrev pub expand_name : List (Text × Text) → Text → Option (Text × Text) → Expanded
expand_name m before none = not_expanded unterminated_replacement
expand_name m before (some (name, after)) = with_replacement before name after (replacement m name)

abbrev pub expand_signs : List (Text × Text) → Text → Option (Text × Text) → Expanded
expand_signs m tok none = expanded tok
expand_signs m tok (some (before, after)) = expand_name m before (split_at_sign after)

-- `none` is that no macro is expanded.
unfoldable pub expand : Option (List (Text × Text)) → Text → Expanded
expand none tok = expanded tok
expand (some m) tok = elim (replacement m tok) [
  | none ↦ expand_signs m tok (split_at_sign tok)
  | some r ↦ expanded r
]

abbrev pub after_expansion : Text → Bool → Cursor → Expanded → Consumed
after_expansion rest was_quoted cur (expanded tok) = consumed tok rest was_quoted cur
after_expansion rest was_quoted cur (not_expanded e) = token_failed e

abbrev pub after_token : Option (List (Text × Text)) → Lexed → Consumed
unfolding expand
after_token m (token tok rest was_quoted cur) = after_expansion rest was_quoted cur (expand m tok)
after_token m unexpected_eof = token_failed at_eof
after_token m expected_quote = token_failed no_quote

unfoldable pub consume_token :
    (ℕ → Bool) → Option (List (Text × Text)) → Text → Text → Bool → Cursor → Consumed
unfolding consume_token_inner
consume_token is_space m singles p quoted cur =
    after_token m (consume_token_inner is_space singles p quoted cur)

abbrev HasNoSign : Text → Type 0
HasNoSign t = All (λ c. (c == 64) ≡ false) t

split_at_sign-found :
    (before after : Text)
    → HasNoSign before
    → split_at_sign (before ++ 64 ∷ after) ≡ some (before, after)
split_at_sign-found [] after h = refl
split_at_sign-found (c ∷ before) after h = ground (arith, h.0, split_at_sign-found before after h.1)

-- Where the whole token has no replacement and the name between its first two signs has one, that
-- replacement takes its place, and whatever comes after is left as it is, further names included.
pub expand-first :
    (m : List (Text × Text)) (before name after with : Text)
    → HasNoSign before
    → HasNoSign name
    → replacement m (before ++ 64 ∷ (name ++ 64 ∷ after)) ≡ none
    → replacement m name ≡ some with
    → expand (some m) (before ++ 64 ∷ (name ++ 64 ∷ after)) ≡ expanded (before ++ (with ++ after))
unfolding expand
expand-first m before name after with hb hn whole known = ground (
  arith,
  whole,
  split_at_sign-found before (name ++ 64 ∷ after) hb,
  split_at_sign-found name after hn,
  known,
)
