-- ===== src/Wdgt/Lexer.antt =====
-- bge/wdgt/fmt/parser.c: consume_token_inner. The string is the list of the characters up to its end,
-- and a token is what lies between `*pp` and `p` when it is returned.
use spacedbazaar.Common.{
  ℕ, ◌+◌, Bool, true, false, not, ◌&&◌, ◌||◌, [], ◌∷◌, ◌++◌, Text, codes, if◌then◌else◌, ◌==◌,
}

-- Where an error is reported.
pub record Cursor : Type 0 where
  pub line : ℕ
  pub column : ℕ

abbrev pub count_char : ℕ → Cursor → Cursor
count_char c cur =
    let next_line : Cursor = record { line = cur.line + 1; column = 0 } in
    let next_column : Cursor = record { line = cur.line; column = cur.column + 1 } in
    if c == 10 then next_line else next_column

pub data Lexed : Type 0 where
  -- The token, what is left of the string, `*was_quoted` and the cursor.
  token : Text → Text → Bool → Cursor → Lexed
  unexpected_eof : Lexed
  expected_quote : Lexed

-- One round of the loop: to return, or to go on with the flag, `hit_non_space` and the token so far.
pub data CharRound : Type 0 where
  returned : Lexed → CharRound
  continued : Bool → Bool → Text → CharRound

-- g_utf8_strchr (single_chars, -1, ch) != NULL.
abbrev pub has_char : Text → ℕ → Bool
has_char [] c = false
has_char (d ∷ ds) c = (d == c) || has_char ds c

abbrev pub single_char_tokens : Text
single_char_tokens = codes "{}()=:;,"

abbrev pub eval_single_char_tokens : Text
eval_single_char_tokens = codes "#(),+-*/^%"

-- The character that opens the quotes, which IS_EOF may follow.
abbrev pub open_quotes : Text → CharRound
open_quotes [] = returned unexpected_eof
open_quotes (_ ∷ _) = continued true true []

-- g_unichar_isspace is GLib's.
module _ (is_space : ℕ → Bool) where
  abbrev pub is_whitespace : ℕ → Bool
  is_whitespace c = (c == 10) || is_space c

  abbrev pub whitespace_round : ℕ → Text → Bool → Bool → Text → Cursor → CharRound
  whitespace_round c s quoted hit tok cur =
      if not quoted && hit
      then returned (token tok (c ∷ s) false cur)
      else continued quoted hit (if hit then tok ++ c ∷ [] else [])

  abbrev pub quote_round : ℕ → Text → Bool → Bool → Text → Cursor → CharRound
  quote_round c s quoted hit tok cur =
      if hit then returned (token tok (if quoted then s else c ∷ s) true cur) else open_quotes s

  abbrev pub single_round : ℕ → Text → Bool → Text → Cursor → CharRound
  single_round c s hit tok cur =
      returned (if hit then token tok (c ∷ s) false cur else token (c ∷ []) s false cur)

  abbrev pub plain_round : Text → ℕ → Text → Bool → Bool → Text → Cursor → CharRound
  plain_round singles c s quoted hit tok cur =
      if quoted
      then if hit then continued true true (tok ++ c ∷ []) else returned expected_quote
      else if has_char singles c
      then single_round c s hit tok cur
      else continued false true (if hit then tok ++ c ∷ [] else c ∷ [])

  abbrev pub char_round : Text → ℕ → Text → Bool → Bool → Text → Cursor → CharRound
  char_round singles c s quoted hit tok cur =
      if is_whitespace c
      then whitespace_round c s quoted hit tok cur
      else if c == 34
      then quote_round c s quoted hit tok cur
      else plain_round singles c s quoted hit tok cur

  unfoldable pub scan_token : Text → Text → Bool → Bool → Text → Cursor → Lexed
  scan_token singles [] quoted hit tok cur =
      if not quoted && hit then token tok [] false cur else unexpected_eof
  scan_token singles (c ∷ s) quoted hit tok cur =
      elim (char_round singles c s quoted hit tok (count_char c cur)) [
        | returned out ↦ out
        | continued quoted' hit' tok' ↦ scan_token singles s quoted' hit' tok' (count_char c cur)
      ]

  -- `quoted` is TOKEN_PARSE_QUOTED in the flags. A NULL in single_chars is the empty list.
  unfoldable pub consume_token_inner : Text → Text → Bool → Cursor → Lexed
  unfolding scan_token
  consume_token_inner singles p quoted cur = scan_token singles p quoted false [] cur
