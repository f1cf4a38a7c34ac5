-- ===== src/Search/Strings.antt =====
-- src/bz-search-engine.c: utf8_skip_to_next_of_class and test_strings. A string is the list of its
-- characters; their classes, their lower case and the doubles of the score are parameters.
use spacedbazaar.Common.{
  ℕ, zero, suc, ◌+◌, ◌-◌, ◌%◌, Bool, true, false, not, ◌&&◌, ◌||◌, List, [], ◌∷◌, ◌++◌, Option,
  none, some, Text, ℤ, pos, negsuc, if◌then◌else◌, ◌==◌, ltb, length,
}

-- A subtraction of gsize values, which wraps around.
abbrev pub gsize_sub : ℕ → ℕ → ℕ
gsize_sub a b = (a + (18446744073709551616 - b)) % 18446744073709551616

-- A token from its start to its end, its length as it is counted, and the string from its end on.
pub record SearchToken : Type 0 where
  pub token_text : Text
  pub utf8_len : ℕ
  pub token_end : Text

abbrev pub to_char : ℕ → Text × Text → Text × Text
to_char c (word, rest) = (c ∷ word, rest)

module _ (is_separator : ℕ → Bool) where
  abbrev pub skip_separators : Text → Text
  skip_separators [] = []
  skip_separators (c ∷ s) = let rest = skip_separators s in if is_separator c then rest else c ∷ s

  abbrev pub read_word : Text → Text × Text
  read_word [] = ([], [])
  read_word (c ∷ s) =
      let rest = read_word s in if is_separator c then ([], c ∷ s) else to_char c rest

  -- A string of separators is a token of all of them, with the length 0.
  abbrev pub token_from : Text → Text → SearchToken
  token_from s [] = record { token_text = s; utf8_len = 0; token_end = [] }
  token_from s (c ∷ w) =
      let word = read_word (c ∷ w) in
      record { token_text = word.0; utf8_len = length word.0; token_end = word.1 }

  unfoldable pub utf8_skip_to_next_of_class : Text → SearchToken
  utf8_skip_to_next_of_class s = token_from s (skip_separators s)

  -- UTF8_FOREACH_TOKEN_FORWARDS: `none` is that the fuel is used up.
  abbrev pub tokens_loop : ℕ → Text → Option (List SearchToken)
  tokens_loop zero s = none
  tokens_loop (suc fuel) [] = some []
  tokens_loop (suc fuel) (c ∷ s) =
      let t = utf8_skip_to_next_of_class (c ∷ s) in
      elim (tokens_loop fuel t.token_end) [ none ↦ none | some ts ↦ some (t ∷ ts) ]

  -- Each token has a character at least.
  unfoldable pub tokens_of : Text → Option (List SearchToken)
  tokens_of s = tokens_loop (length s + 1) s

module _ (tolower : ℕ → ℕ) where
  -- The loop over the query's token, from against_ptr on; the end of the string equals no character.
  abbrev pub starts_with : Text → Text → Bool
  starts_with [] s = true
  starts_with (q ∷ qs) [] = false
  starts_with (q ∷ qs) (c ∷ s) = (tolower c == tolower q) && starts_with qs s

  -- The loop over the characters of the token, with what comes behind it.
  abbrev pub match_loop : SearchToken → ℕ → ℕ → Text → Text → Bool
  match_loop q against_len consumed [] behind = false
  match_loop q against_len consumed (c ∷ s) behind =
      let rest = match_loop q against_len (consumed + 1) s behind in
      if ltb (gsize_sub against_len consumed) q.utf8_len
      then false
      else if starts_with q.token_text (c ∷ s ++ behind)
      then true
      else rest

  abbrev pub too_short : ℤ → ℕ → Bool
  too_short (pos n) len = ltb 0 n && ltb len n
  too_short (negsuc n) len = false

  unfoldable pub token_matches : SearchToken → SearchToken → Bool
  token_matches q a = match_loop q a.utf8_len 0 a.token_text a.token_end

  -- The doubles: the sum, and a token's share, which is of the lengths of the two.
  module _ {ℓ} {D : Type ℓ} (zero_score : D) (plus_score : D → D → D) (share : ℕ → ℕ → D) where
    abbrev pub against_loop : ℤ → SearchToken → List SearchToken → D → Bool → D × Bool
    against_loop minimum q [] score has_match = (score, has_match)
    against_loop minimum q (a ∷ as') score has_match =
        let match = not (too_short minimum a.utf8_len) && token_matches q a in
        against_loop minimum q as'
          (if match then plus_score score (share q.utf8_len a.utf8_len) else score)
          (match || has_match)

    abbrev pub query_loop : ℤ → List SearchToken → List SearchToken → D → D
    query_loop minimum as' [] score = score
    query_loop minimum as' (q ∷ qs) score =
        let found = against_loop minimum q as' score false in
        let rest = query_loop minimum as' qs found.0 in if found.1 then rest else zero_score

    abbrev pub score_tokens : ℤ → Option (List SearchToken) → Option (List SearchToken) → Option D
    score_tokens minimum none as' = none
    score_tokens minimum (some qs) none = none
    score_tokens minimum (some qs) (some as') = some (query_loop minimum as' qs zero_score)

module _ {ℓ} {D : Type ℓ} (is_separator : ℕ → Bool) (tolower : ℕ → ℕ) (zero_score : D)
    (plus_score : D → D → D) (share : ℕ → ℕ → D) where
  unfoldable pub test_strings : Text → Text → ℤ → Option D
  test_strings query against accept_min_size =
      score_tokens tolower zero_score plus_score share accept_min_size
        (tokens_of is_separator query) (tokens_of is_separator against)
