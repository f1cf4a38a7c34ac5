-- ===== src/Search/Missed.antt =====
-- src/bz-search-engine.c: test_strings. The strings that do not match.
use mathlib.Core.List.{Memᴰ}
use spacedbazaar.Common.{
  ℕ, ◌≡◌, ◌⊎◌, refl, Bool, true, false, List, [], ◌∷◌, some, Text, All, if◌then◌else◌, ℤ, arith,
  Bool-cases, inl, inr, ap, ◌∙◌, subst,
}
use spacedbazaar.Search.Strings.{
  SearchToken, too_short, token_matches, tokens_of, against_loop, query_loop, score_tokens,
  test_strings,
}

module _ {ℓ} {D : Type ℓ} (is_separator : ℕ → Bool) (tolower : ℕ → ℕ) (zero_score : D)
    (plus_score : D → D → D) (share : ℕ → ℕ → D) where
  -- No token of the other string is long enough and matches.
  abbrev pub IsMissed : ℤ → List SearchToken → SearchToken → Type 0
  IsMissed minimum as' q =
      All (λ a. (too_short tolower minimum a.utf8_len ≡ true) ⊎ (token_matches tolower q a ≡ false))
        as'

  against_loop-missed :
      (minimum : ℤ) (q : SearchToken) (as' : List SearchToken) (score : D) (b : Bool)
      → IsMissed minimum as' q
      → against_loop tolower zero_score plus_score share minimum q as' score b ≡ (score, b)
  against_loop-missed minimum q [] score b h = refl
  against_loop-missed minimum q (a ∷ as') score b h =
      let more = against_loop-missed minimum q as' score b h.1 in
      elim h.0 [ inl short ↦ ground (arith, short, more) | inr off ↦ ground (arith, off, more) ]

  query_loop-missed :
      (minimum : ℤ) (as' qs : List SearchToken) (q : SearchToken) (score : D)
      → Memᴰ q qs
      → IsMissed minimum as' q
      → query_loop tolower zero_score plus_score share minimum as' qs score ≡ zero_score
  query_loop-missed minimum as' [] q score m h = elim m [ ]
  query_loop-missed minimum as' (p ∷ qs) q score m h =
      let found = against_loop tolower zero_score plus_score share minimum p as' score false in
      elim m [
        | Memᴰ.head e ↦
            let missed =
              against_loop-missed minimum p as' score false (subst (IsMissed minimum as') e h) in
            ap
              (λ f.
                if f.1
                then query_loop tolower zero_score plus_score share minimum as' qs f.0
                else zero_score)
              missed
        | Memᴰ.tail later ↦ elim (Bool-cases found.1) [
          | inl t ↦
              ap
                (λ b.
                  if b
                  then query_loop tolower zero_score plus_score share minimum as' qs found.0
                  else zero_score)
                t
              ∙ query_loop-missed minimum as' qs q found.0 later h
          | inr f ↦
              ap
                (λ b.
                  if b
                  then query_loop tolower zero_score plus_score share minimum as' qs found.0
                  else zero_score)
                f
        ]
      ]

  -- Where a token of the query is in no token of the other string that is long enough, the score is 0,
  -- however many of the query's other tokens match.
  pub test_strings-missed :
      (query against : Text) (minimum : ℤ) (qs as' : List SearchToken) (q : SearchToken)
      → tokens_of is_separator query ≡ some qs
      → tokens_of is_separator against ≡ some as'
      → Memᴰ q qs
      → IsMissed minimum as' q
      → test_strings is_separator tolower zero_score plus_score share query against minimum
        ≡ some zero_score
  unfolding test_strings
  test_strings-missed query against minimum qs as' q cut cut' m h =
      ap
        (λ o.
          score_tokens tolower zero_score plus_score share minimum o
            (tokens_of is_separator against))
        cut
      ∙ ap (score_tokens tolower zero_score plus_score share minimum (some qs)) cut'
      ∙ ap some (query_loop-missed minimum as' qs q zero_score m h)
