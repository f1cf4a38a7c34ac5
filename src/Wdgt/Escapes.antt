-- ===== src/Wdgt/Escapes.antt =====
-- bge/wdgt/fmt/parser.c: parse_eval. A string that has no '#', the escape to parse_args: its tokens
-- have none.
use spacedbazaar.Common.{
  ℕ, ◌≡◌, refl, Bool, true, false, not, ◌&&◌, List, [], ◌∷◌, ◌++◌, Option, none, some, Text,
  if◌then◌else◌, ◌==◌, All, arith, text_eq,
}
use spacedbazaar.Wdgt.Lexer.{
  Cursor, count_char, Lexed, token, unexpected_eof, expected_quote, CharRound, returned, continued,
  has_char, open_quotes, is_whitespace, whitespace_round, quote_round, single_round, char_round,
  scan_token, consume_token_inner,
}
use spacedbazaar.Wdgt.Macros.{
  Expanded, expanded, not_expanded, replacement, with_char, split_at_sign, with_replacement,
  expand_name, expand_signs, expand,
}
use spacedbazaar.Wdgt.Expression.{EvalToken, escape, eval_token}

abbrev pub HasNoEscape : Text → Type 0
HasNoEscape t = All (λ c. (c == 35) ≡ false) t

-- No replacement of a macro has the escape either.
abbrev pub HasNoEscapes : Option (List (Text × Text)) → Type 0
HasNoEscapes none = Unit
HasNoEscapes (some m) = All (λ row. HasNoEscape row.1) m

abbrev pub is_escape : EvalToken → Bool
is_escape escape = true
is_escape _ = false

abbrev pub LexedPlain : Lexed → Type 0
LexedPlain (token t rest wq cur) = HasNoEscape t × HasNoEscape rest
LexedPlain unexpected_eof = Unit
LexedPlain expected_quote = Unit

abbrev RoundPlain : CharRound → Type 0
RoundPlain (returned out) = LexedPlain out
RoundPlain (continued quoted hit tok) = HasNoEscape tok

abbrev pub ExpandedPlain : Expanded → Type 0
ExpandedPlain (expanded tok) = HasNoEscape tok
ExpandedPlain (not_expanded e) = Unit

if-holds {ℓ ℓ'} :
    {A : Type ℓ} (P : A → Type ℓ') (b : Bool) (x y : A) → P x → P y → P (if b then x else y)
if-holds P true x y hx hy = hx
if-holds P false x y hx hy = hy

append-HasNoEscape : (s t : Text) → HasNoEscape s → HasNoEscape t → HasNoEscape (s ++ t)
append-HasNoEscape [] t hs ht = ht
append-HasNoEscape (c ∷ s) t hs ht = (hs.0, append-HasNoEscape s t hs.1 ht)

open_quotes-plain : (s : Text) → RoundPlain (open_quotes s)
open_quotes-plain [] = tt
open_quotes-plain (c ∷ s) = tt

module _ (is_space : ℕ → Bool) (singles : Text) where
  char_round-plain :
      (c : ℕ) (s tok : Text) (quoted hit : Bool) (cur : Cursor)
      → HasNoEscape (c ∷ s)
      → HasNoEscape tok
      → RoundPlain (char_round is_space singles c s quoted hit tok cur)
  char_round-plain c s tok quoted hit cur h ht =
      let more = append-HasNoEscape tok (c ∷ []) ht (h.0, tt) in
      if-holds RoundPlain (is_whitespace is_space c)
        (whitespace_round is_space c s quoted hit tok cur) _
        (if-holds RoundPlain (not quoted && hit) _ _ (ht, h)
          (if-holds HasNoEscape hit (tok ++ c ∷ []) [] more tt))
        (if-holds RoundPlain (c == 34) (quote_round is_space c s quoted hit tok cur) _
          (if-holds RoundPlain hit (returned (token tok (if quoted then s else c ∷ s) true cur))
            (open_quotes s) (ht, if-holds HasNoEscape quoted s (c ∷ s) h.1 h) (open_quotes-plain s))
          (if-holds RoundPlain quoted
            (if hit then continued true true (tok ++ c ∷ []) else returned expected_quote) _
            (if-holds RoundPlain hit (continued true true (tok ++ c ∷ [])) (returned expected_quote)
              more tt)
            (if-holds RoundPlain (has_char singles c) (single_round is_space c s hit tok cur) _
              (if-holds LexedPlain hit (token tok (c ∷ s) false cur) (token (c ∷ []) s false cur)
                (ht, h) ((h.0, tt), h.1))
              (if-holds HasNoEscape hit (tok ++ c ∷ []) (c ∷ []) more (h.0, tt)))))

  after_round-plain :
      (s : Text) (cur : Cursor) (r : CharRound)
      → RoundPlain r
      → ((quoted hit : Bool) (tok : Text)
          → HasNoEscape tok
          → LexedPlain (scan_token is_space singles s quoted hit tok cur))
      → LexedPlain (elim r [
        | returned out ↦ out
        | continued quoted hit tok ↦ scan_token is_space singles s quoted hit tok cur
      ])
  after_round-plain s cur (returned out) h f = h
  after_round-plain s cur (continued quoted hit tok) h f = f quoted hit tok h

  scan_token-plain :
      (p tok : Text) (quoted hit : Bool) (cur : Cursor)
      → HasNoEscape p
      → HasNoEscape tok
      → LexedPlain (scan_token is_space singles p quoted hit tok cur)
  unfolding scan_token
  scan_token-plain [] tok quoted hit cur h ht =
      if-holds LexedPlain (not quoted && hit) (token tok [] false cur) unexpected_eof (ht, tt) tt
  scan_token-plain (c ∷ s) tok quoted hit cur h ht =
      after_round-plain s (count_char c cur)
        (char_round is_space singles c s quoted hit tok (count_char c cur))
        (char_round-plain c s tok quoted hit (count_char c cur) h ht)
        (λ quoted' hit' tok' ht'. scan_token-plain s tok' quoted' hit' (count_char c cur) h.1 ht')

  pub consume_token_inner-plain :
      (p : Text) (quoted : Bool) (cur : Cursor)
      → HasNoEscape p
      → LexedPlain (consume_token_inner is_space singles p quoted cur)
  unfolding consume_token_inner
  consume_token_inner-plain p quoted cur h = scan_token-plain p [] quoted false cur h tt

abbrev FoundPlain : Option Text → Type 0
FoundPlain none = Unit
FoundPlain (some t) = HasNoEscape t

abbrev SplitPlain : Option (Text × Text) → Type 0
SplitPlain none = Unit
SplitPlain (some (before, after)) = HasNoEscape before × HasNoEscape after

replacement-plain :
    (m : List (Text × Text)) (name : Text) → HasNoEscapes (some m) → FoundPlain (replacement m name)
replacement-plain [] name h = tt
replacement-plain ((k, v) ∷ m) name h =
    if-holds FoundPlain (text_eq k name) (some v) (replacement m name) h.0
      (replacement-plain m name h.1)

with_char-plain :
    (c : ℕ) (o : Option (Text × Text))
    → (c == 35) ≡ false
    → SplitPlain o
    → SplitPlain (with_char c o)
with_char-plain c none hc h = tt
with_char-plain c (some (before, after)) hc h = ((hc, h.0), h.1)

split_at_sign-plain : (s : Text) → HasNoEscape s → SplitPlain (split_at_sign s)
split_at_sign-plain [] h = tt
split_at_sign-plain (c ∷ s) h =
    if-holds SplitPlain (c == 64) (some ([], s)) (with_char c (split_at_sign s)) (tt, h.1)
      (with_char-plain c (split_at_sign s) h.0 (split_at_sign-plain s h.1))

with_replacement-plain :
    (before name after : Text) (found : Option Text)
    → HasNoEscape before
    → HasNoEscape after
    → FoundPlain found
    → ExpandedPlain (with_replacement before name after found)
with_replacement-plain before name after none hb ha h = tt
with_replacement-plain before name after (some with) hb ha h =
    append-HasNoEscape before (with ++ after) hb (append-HasNoEscape with after h ha)

expand_name-plain :
    (m : List (Text × Text)) (before : Text) (o : Option (Text × Text))
    → HasNoEscapes (some m)
    → HasNoEscape before
    → SplitPlain o
    → ExpandedPlain (expand_name m before o)
expand_name-plain m before none hm hb h = tt
expand_name-plain m before (some (name, after)) hm hb h =
    with_replacement-plain before name after (replacement m name) hb h.1
      (replacement-plain m name hm)

expand_signs-plain :
    (m : List (Text × Text)) (tok : Text) (o : Option (Text × Text))
    → HasNoEscapes (some m)
    → HasNoEscape tok
    → SplitPlain o
    → ExpandedPlain (expand_signs m tok o)
expand_signs-plain m tok none hm ht h = ht
expand_signs-plain m tok (some (before, after)) hm ht h =
    expand_name-plain m before (split_at_sign after) hm h.0 (split_at_sign-plain after h.1)

found-plain :
    (m : List (Text × Text)) (tok : Text) (found : Option Text)
    → HasNoEscapes (some m)
    → HasNoEscape tok
    → FoundPlain found
    → ExpandedPlain
        (elim found [ none ↦ expand_signs m tok (split_at_sign tok) | some r ↦ expanded r ])
found-plain m tok none hm ht h =
    expand_signs-plain m tok (split_at_sign tok) hm ht (split_at_sign-plain tok ht)
found-plain m tok (some r) hm ht h = h

pub expand-plain :
    (macros : Option (List (Text × Text))) (tok : Text)
    → HasNoEscapes macros
    → HasNoEscape tok
    → ExpandedPlain (expand macros tok)
unfolding expand
expand-plain none tok hm ht = ht
expand-plain (some m) tok hm ht =
    found-plain m tok (replacement m tok) hm ht (replacement-plain m tok hm)

pub eval_token-plain : (tok : Text) → HasNoEscape tok → is_escape (eval_token tok) ≡ false
unfolding text_eq
eval_token-plain [] h = refl
eval_token-plain (c ∷ s) h = ground (arith, h.0)
