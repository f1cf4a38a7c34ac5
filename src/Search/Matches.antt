-- ===== src/Search/Matches.antt =====
-- src/bz-search-engine.c: test_strings. What a match of two tokens is.
use spacedbazaar.Common.{
  ℕ, suc, ◌+◌, ◌-◌, ◌<◌, ◌≤◌, ◌≡◌, ◌↔◌, refl, true, false, [], ◌∷◌, ◌++◌, map, Text, ltb, length,
  length-append, arith, Bool-cases, inl, inr, ap, ◌∙◌, sym,
}
use spacedbazaar.Search.Strings.{SearchToken, gsize_sub, starts_with, match_loop, token_matches}

module _ (tolower : ℕ → ℕ) where
  -- The characters of the first are those of the second from some place on, in lower case.
  abbrev pub IsInside : Text → Text → Type 0
  IsInside q a =
      (before : Text) × (after : Text) × (map tolower a ≡ before ++ (map tolower q ++ after))

  starts_with-split :
      (q s : Text)
      → starts_with tolower q s ≡ true
      → (after : Text) × (map tolower s ≡ map tolower q ++ after)
  starts_with-split [] s e = (map tolower s, refl)
  starts_with-split (q ∷ qs) [] e = ground (arith, e)
  starts_with-split (q ∷ qs) (c ∷ s) e =
      let rest = starts_with-split qs s (ground (arith, e)) in
      let same : tolower c ≡ tolower q = ground (arith, e) in (rest.0, rw (same, rest.1))

  split-starts_with :
      (q s after : Text) → map tolower s ≡ map tolower q ++ after → starts_with tolower q s ≡ true
  split-starts_with [] s after e = refl
  split-starts_with (q ∷ qs) [] after e = ground (arith, e)
  split-starts_with (q ∷ qs) (c ∷ s) after e =
      let heads : tolower c ≡ tolower q = ground (arith, e) in
      let tails : map tolower s ≡ map tolower qs ++ after = ground (arith, e) in
      ground (arith, heads, split-starts_with qs s after tails)

  -- A prefix that is no longer than the string does not reach behind it.
  starts_with-within :
      (q s behind : Text)
      → length q ≤ length s
      → starts_with tolower q (s ++ behind) ≡ starts_with tolower q s
  starts_with-within [] s behind h = refl
  starts_with-within (q ∷ qs) [] behind h = ground (arith, h)
  starts_with-within (q ∷ qs) (c ∷ s) behind h =
      ground (arith, starts_with-within qs s behind (omega (arith, h)))

  gsize_sub-exact : (a b : ℕ) → b ≤ a → a < 18446744073709551616 → gsize_sub a b ≡ a - b
  gsize_sub-exact a b h w = omega (arith, h, w)

  length-map : (s : Text) → length (map tolower s) ≡ length s
  length-map [] = refl
  length-map (c ∷ s) = ap suc (length-map s)

  IsInside-length :
      (q a before after : Text)
      → map tolower a ≡ before ++ (map tolower q ++ after)
      → length q ≤ length a
  IsInside-length q a before after e =
      let whole = ap length e ∙ length-append before (map tolower q ++ after) in
      omega (arith, whole, length-append (map tolower q) after, length-map q, length-map a)

  -- The length of the token was counted and is not 0.
  abbrev pub IsCountedToken : SearchToken → Type 0
  IsCountedToken t = (t.utf8_len ≡ length t.token_text) × (0 < t.utf8_len)

  match_loop-IsInside :
      (q : SearchToken) (alen k : ℕ) (s behind : Text)
      → q.utf8_len ≡ length q.token_text
      → alen ≡ k + length s
      → alen < 18446744073709551616
      → match_loop tolower q alen k s behind ≡ true
      → IsInside q.token_text s
  match_loop-IsInside q alen k [] behind n h w e = ground (arith, e)
  match_loop-IsInside q alen k (c ∷ s) behind n h w e =
      let left = gsize_sub-exact alen k (omega (arith, h)) w in
      elim (Bool-cases (ltb (gsize_sub alen k) q.utf8_len)) [
        | inl t ↦ ground (arith, t, e)
        | inr f ↦ elim (Bool-cases (starts_with tolower q.token_text (c ∷ s ++ behind))) [
          | inl t ↦
              let fits : length q.token_text ≤ length (c ∷ s) = ground (arith, f, left, n, h) in
              let here =
                starts_with-split q.token_text (c ∷ s)
                  (sym (starts_with-within q.token_text (c ∷ s) behind fits) ∙ t) in
              ([], here.0, here.1)
          | inr t ↦
              let later =
                match_loop-IsInside q alen (k + 1) s behind n (omega (arith, h)) w
                  (ground (arith, f, t, e)) in
              (tolower c ∷ later.0, later.1, ap (◌∷◌ (tolower c)) later.2)
        ]
      ]

  IsInside-match_loop :
      (q : SearchToken) (alen k : ℕ) (s behind before after : Text)
      → IsCountedToken q
      → alen ≡ k + length s
      → alen < 18446744073709551616
      → map tolower s ≡ before ++ (map tolower q.token_text ++ after)
      → match_loop tolower q alen k s behind ≡ true
  IsInside-match_loop q alen k [] behind before after n h w e =
      ground (arith, n.0, n.1, IsInside-length q.token_text [] before after e)
  IsInside-match_loop q alen k (c ∷ s) behind [] after n h w e =
      let fits = IsInside-length q.token_text (c ∷ s) [] after e in
      let left = gsize_sub-exact alen k (omega (arith, h)) w in
      let guard : ltb (gsize_sub alen k) q.utf8_len ≡ false = ground (arith, left, n.0, h, fits) in
      let here =
        starts_with-within q.token_text (c ∷ s) behind fits
        ∙ split-starts_with q.token_text (c ∷ s) after e in
      ground (arith, guard, here)
  IsInside-match_loop q alen k (c ∷ s) behind (b ∷ before) after n h w e =
      let fits = IsInside-length q.token_text (c ∷ s) (b ∷ before) after e in
      let left = gsize_sub-exact alen k (omega (arith, h)) w in
      let guard : ltb (gsize_sub alen k) q.utf8_len ≡ false = ground (arith, left, n.0, h, fits) in
      let tails : map tolower s ≡ before ++ (map tolower q.token_text ++ after) =
        ground (arith, e) in
      let later =
        IsInside-match_loop q alen (k + 1) s behind before after n (omega (arith, h)) w tails in
      elim (Bool-cases (starts_with tolower q.token_text (c ∷ s ++ behind))) [
        | inl t ↦ ground (arith, guard, t)
        | inr f ↦ ground (arith, guard, f, later)
      ]

  -- For two tokens whose lengths were counted, that of the query not empty and the other's below
  -- 2^64, they match exactly when the characters of the query's are inside the other's in lower case,
  -- whatever the string has behind the token.
  pub token_matches-IsInside :
      (q a : SearchToken)
      → IsCountedToken q
      → a.utf8_len ≡ length a.token_text
      → a.utf8_len < 18446744073709551616
      → (token_matches tolower q a ≡ true) ↔ IsInside q.token_text a.token_text
  unfolding token_matches
  token_matches-IsInside q a n m w = (
    λ e. match_loop-IsInside q a.utf8_len 0 a.token_text a.token_end n.0 (omega (arith, m)) w e,
    λ i.
        IsInside-match_loop q a.utf8_len 0 a.token_text a.token_end i.0 i.1 n (omega (arith, m)) w
          i.2,
  )
