-- ===== src/Search/Cut.antt =====
-- src/bz-search-engine.c: UTF8_FOREACH_TOKEN_FORWARDS. How a string is cut into tokens.
use spacedbazaar.Common.{
  ℕ, zero, suc, ◌+◌, ◌<◌, ◌≤◌, ◌≡◌, ◌⊎◌, refl, Bool, true, false, List, [], ◌∷◌, none, some, Text,
  All, if◌then◌else◌, length, arith, Bool-cases, inl, inr, ap, sym, subst,
}
use spacedbazaar.Search.Strings.{
  SearchToken, skip_separators, read_word, to_char, token_from, utf8_skip_to_next_of_class,
  tokens_loop, tokens_of,
}

module _ (is_separator : ℕ → Bool) where
  -- A word with no separator in it, counted and not empty, or what is left of a string that has
  -- separators alone, which counts for nothing and is the last.
  abbrev pub IsWord : SearchToken → Type 0
  IsWord t =
      All (λ c. is_separator c ≡ false) t.token_text
      × (t.utf8_len ≡ length t.token_text)
      × (0 < t.utf8_len)

  abbrev pub IsBlankEnd : SearchToken → Type 0
  IsBlankEnd t =
      All (λ c. is_separator c ≡ true) t.token_text × (t.utf8_len ≡ 0) × (t.token_end ≡ [])

  abbrev pub IsCut : SearchToken → Type 0
  IsCut t = IsWord t ⊎ IsBlankEnd t

  Starts : Text → Type 0
  Starts s =
      (d : ℕ) × (w : Text) × (skip_separators is_separator s ≡ d ∷ w)
      × (is_separator d ≡ false)
      × (length w < length s)

  skip-cases :
      (s : Text)
      → ((skip_separators is_separator s ≡ []) × All (λ c. is_separator c ≡ true) s) ⊎ Starts s
  unfolding Starts
  skip-cases [] = inl (refl, tt)
  skip-cases (c ∷ s) = elim (Bool-cases (is_separator c)) [
    | inl y ↦ elim (skip-cases s) [
      | inl blank ↦ inl (ground (arith, y, blank.0), (y, blank.1))
      | inr word ↦ inr (word.0, word.1, ground (arith, y, word.2), word.3, omega (arith, word.4))
    ]
    | inr n ↦ inr (c, s, ground (arith, n), n, omega arith)
  ]

  word-plain : (s : Text) → All (λ c. is_separator c ≡ false) ((read_word is_separator s).0)
  word-plain [] = tt
  word-plain (c ∷ s) = pick (is_separator c) refl (word-plain s)
    where
      pick :
          (b : Bool)
          → is_separator c ≡ b
          → All (λ d. is_separator d ≡ false) ((read_word is_separator s).0)
          → All
              (λ d. is_separator d ≡ false)
              ((if b then ([], c ∷ s) else to_char c (read_word is_separator s)).0)
      pick true e h = tt
      pick false e h = (e, h)

  word-shorter : (s : Text) → length ((read_word is_separator s).1) ≤ length s
  word-shorter [] = omega arith
  word-shorter (c ∷ s) = ground (arith, word-shorter s)

  abbrev CutFrom : Text → SearchToken → Type 0
  CutFrom s t = IsCut t × (length t.token_end < length s)

  word-CutFrom :
      (s : Text) (d : ℕ) (w : Text)
      → is_separator d ≡ false
      → length w < length s
      → CutFrom s (token_from is_separator s (d ∷ w))
  word-CutFrom s d w plain shorter = (
    inl (word-plain (d ∷ w), refl, ground (arith, plain)),
    ground (arith, plain, shorter, word-shorter w),
  )

  -- A token is cut and leaves a shorter string.
  skip-IsCut :
      (c : ℕ) (s : Text) → CutFrom (c ∷ s) (utf8_skip_to_next_of_class is_separator (c ∷ s))
  unfolding utf8_skip_to_next_of_class Starts
  skip-IsCut c s = elim (skip-cases (c ∷ s)) [
    | inl blank ↦
        subst (λ r. CutFrom (c ∷ s) (token_from is_separator (c ∷ s) r)) (sym blank.0)
          (inr (blank.1, refl, refl), omega arith)
    | inr word ↦
        subst (λ r. CutFrom (c ∷ s) (token_from is_separator (c ∷ s) r)) (sym word.2)
          (word-CutFrom (c ∷ s) word.0 word.1 word.3 word.4)
  ]

  tokens_loop-IsCut :
      (fuel : ℕ) (s : Text)
      → length s < fuel
      → (ts : List SearchToken) × (tokens_loop is_separator fuel s ≡ some ts) × All IsCut ts
  unfolding utf8_skip_to_next_of_class
  tokens_loop-IsCut zero s h = ground (arith, h)
  tokens_loop-IsCut (suc fuel) [] h = ([], refl, tt)
  tokens_loop-IsCut (suc fuel) (c ∷ s) h =
      let t = utf8_skip_to_next_of_class is_separator (c ∷ s) in
      let cut = skip-IsCut c s in
      let more = tokens_loop-IsCut fuel t.token_end (omega (arith, h, cut.1)) in
      (
        t ∷ more.0,
        ap (λ o. elim o [ none ↦ none | some ts ↦ some (t ∷ ts) ]) more.1,
        (cut.0, more.2),
      )

  -- Every string is cut: the loop over its tokens ends, and each token is a word of at least one
  -- character and no separator, with its length, or the separators at the end of the string, with
  -- the length 0.
  pub tokens_of-IsCut :
      (s : Text) → (ts : List SearchToken) × (tokens_of is_separator s ≡ some ts) × All IsCut ts
  unfolding tokens_of
  tokens_of-IsCut s = tokens_loop-IsCut (length s + 1) s (omega arith)
