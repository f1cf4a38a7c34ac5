-- ===== src/Wdgt/Tokens.antt =====
-- bge/wdgt/fmt/parser.c: consume_token_inner. The tokens it finds, and what it leaves.
use mathlib.Core.List.{append_assoc, append-nil}
use spacedbazaar.Common.{
  ℕ, ◌≡◌, Bool, true, false, not, ◌&&◌, [], ◌∷◌, ◌++◌, Text, All, ◌==◌, arith, take, refl, ap, ◌∙◌,
  sym, Bool-cases, inl, inr, ==_iff,
}
use spacedbazaar.Wdgt.Lexer.{
  Cursor, count_char, token, has_char, is_whitespace, scan_token, consume_token_inner,
}

-- The cursor after each character was counted.
abbrev pub count_text : Text → Cursor → Cursor
count_text [] cur = cur
count_text (c ∷ s) cur = count_text s (count_char c cur)

abbrev pub starts_quoted : Text → Bool
starts_quoted [] = false
starts_quoted (c ∷ s) = c == 34

module _ (is_space : ℕ → Bool) (quote_no_space : is_space 34 ≡ false) where
  -- A character that a token without quotes goes on over, and one that ends it.
  abbrev pub is_plain : Text → ℕ → Bool
  is_plain singles c = not (is_whitespace is_space c) && (not (c == 34) && not (has_char singles c))

  abbrev pub IsPlain : Text → Text → Type 0
  IsPlain singles w = All (λ c. is_plain singles c ≡ true) w

  abbrev pub IsBlank : Text → Type 0
  IsBlank b = All (λ c. is_whitespace is_space c ≡ true) b

  abbrev pub HasNoQuote : Text → Type 0
  HasNoQuote t = All (λ c. (c == 34) ≡ false) t

  -- At the end of the string, or before a character that ends a token.
  abbrev pub Ends : Text → Text → Type 0
  Ends singles [] = Unit
  Ends singles (c ∷ s) = is_plain singles c ≡ false

  scan_token-end :
      (singles rest tok : Text) (cur : Cursor)
      → Ends singles rest
      → scan_token is_space singles rest false true tok cur
        ≡ token tok rest (starts_quoted rest) (count_text (take 1 rest) cur)
  unfolding scan_token
  scan_token-end singles [] tok cur e = refl
  scan_token-end singles (c ∷ s) tok cur e = elim (Bool-cases (c == 34)) [
    | inl q ↦ let n = ap is_space ((==_iff c 34).0 q) ∙ quote_no_space in ground (arith, q, n, e)
    | inr q ↦ ground (arith, q, e)
  ]

  scan_token-plain :
      (singles w rest tok : Text) (cur : Cursor)
      → IsPlain singles w
      → Ends singles rest
      → scan_token is_space singles (w ++ rest) false true tok cur
        ≡ token (tok ++ w) rest (starts_quoted rest) (count_text (take 1 rest) (count_text w cur))
  unfolding scan_token
  scan_token-plain singles [] rest tok cur p e =
      scan_token-end singles rest tok cur e
      ∙ ap (λ u. token u rest (starts_quoted rest) (count_text (take 1 rest) cur))
          (sym (append-nil tok))
  scan_token-plain singles (c ∷ w) rest tok cur p e =
      let more = scan_token-plain singles w rest (tok ++ c ∷ []) (count_char c cur) p.1 e in
      ground (arith, p.0, more, append_assoc tok (c ∷ []) w)

  scan_token-quoted :
      (singles t rest tok : Text) (cur : Cursor)
      → HasNoQuote t
      → scan_token is_space singles (t ++ 34 ∷ rest) true true tok cur
        ≡ token (tok ++ t) rest true (count_char 34 (count_text t cur))
  unfolding scan_token
  scan_token-quoted singles [] rest tok cur h = ground (arith, quote_no_space, append-nil tok)
  scan_token-quoted singles (c ∷ t) rest tok cur h =
      let more = scan_token-quoted singles t rest (tok ++ c ∷ []) (count_char c cur) h.1 in
      elim (Bool-cases (is_whitespace is_space c)) [
        | inl b ↦ ground (arith, b, h.0, more, append_assoc tok (c ∷ []) t)
        | inr b ↦ ground (arith, b, h.0, more, append_assoc tok (c ∷ []) t)
      ]

  scan_token-blank :
      (singles b p : Text) (quoted : Bool) (cur : Cursor)
      → IsBlank b
      → scan_token is_space singles (b ++ p) quoted false [] cur
        ≡ scan_token is_space singles p quoted false [] (count_text b cur)
  unfolding scan_token
  scan_token-blank singles [] p quoted cur h = refl
  scan_token-blank singles (c ∷ b) p quoted cur h =
      ground (arith, h.0, scan_token-blank singles b p quoted (count_char c cur) h.1)

  -- Where the double quote is no space: after any white space, a token of characters that are neither
  -- white space nor a quote nor single, and that such a character or the end of the string follows, is
  -- the token that is read. The rest of the string is left. The cursor counts the character that ends
  -- the token too, and was_quoted is whether that character is a quote.
  pub consume_token_inner-word :
      (singles b w rest : Text) (c : ℕ) (cur : Cursor)
      → IsBlank b
      → IsPlain singles (c ∷ w)
      → Ends singles rest
      → consume_token_inner is_space singles (b ++ (c ∷ w ++ rest)) false cur
        ≡ token
            (c ∷ w)
            rest
            (starts_quoted rest)
            (count_text (take 1 rest) (count_text (c ∷ w) (count_text b cur)))
  unfolding consume_token_inner scan_token
  consume_token_inner-word singles b w rest c cur blank plain ends =
      let more =
        scan_token-plain singles w rest (c ∷ []) (count_char c (count_text b cur)) plain.1 ends in
      scan_token-blank singles b (c ∷ w ++ rest) false cur blank ∙ ground (arith, plain.0, more)

  -- Where the double quote is no space: after any white space, whatever stands in quotes, with no quote in
  -- it, is the token that is read, white space and single characters included, with the flag of quotes
  -- or without. The string after the closing quote is left.
  pub consume_token_inner-quoted :
      (singles b t rest : Text) (quoted : Bool) (cur : Cursor)
      → IsBlank b
      → HasNoQuote t
      → consume_token_inner is_space singles (b ++ 34 ∷ (t ++ 34 ∷ rest)) quoted cur
        ≡ token t rest true (count_char 34 (count_text t (count_char 34 (count_text b cur))))
  unfolding consume_token_inner scan_token
  consume_token_inner-quoted singles b [] rest quoted cur blank none =
      scan_token-blank singles b (34 ∷ 34 ∷ rest) quoted cur blank ∙ ground (arith, quote_no_space)
  consume_token_inner-quoted singles b (c ∷ t) rest quoted cur blank none =
      let more =
        scan_token-quoted singles (c ∷ t) rest [] (count_char 34 (count_text b cur)) none in
      scan_token-blank singles b (34 ∷ (c ∷ t ++ 34 ∷ rest)) quoted cur blank
      ∙ ground (arith, quote_no_space, more)
