-- ===== src/Index/Score.antt =====
-- src/search-index.c: the scores that search_index_query ranks by.
use spacedbazaar.Common.{
  ℕ, ◌*◌, ◌≡◌, refl, sym, ◌∙◌, Bool, true, false, ◌||◌, List, [], ◌∷◌, Option, none, some, Text,
  All, if◌then◌else◌, length, ltb, arith, Bool-cases, inl, inr,
}
use spacedbazaar.Index.Read.{Entry}

-- The double arithmetic that scores use, and strcasestr.
pub record Scoring : Type 1 where
  pub Double : Type 0
  pub zero_score : Double
  pub one : Double
  pub one_half : Double  -- 1.5
  pub two : Double
  pub plus : Double → Double → Double
  pub times : Double → Double → Double
  pub ratio : ℕ → ℕ → Double
  pub exceeds : Double → Double → Bool  -- a > b
  pub at_most : Double → Double → Bool  -- a <= b
  pub has_term : Text → Text → Bool  -- strcasestr (field, term) != NULL
  pub zero-plus-zero : plus zero_score zero_score ≡ zero_score
  pub at_most-zero : at_most zero_score zero_score ≡ true
  pub not-exceeds-zero : exceeds zero_score zero_score ≡ false

module _ (c : Scoring) where
  open c use {
    Double, zero_score, one, one_half, two, plus, times, ratio, exceeds, at_most, has_term,
  }

  unfoldable pub score_field : Text → Option Text → Double → Double
  score_field [] field weight = zero_score
  score_field (b ∷ term) none weight = zero_score
  score_field (b ∷ term) (some field) weight =
      if has_term field (b ∷ term)
      then if ltb 0 (length field)
        then times weight (ratio (length (b ∷ term) * length (b ∷ term)) (length field))
        else zero_score
      else zero_score

  -- The four fields of one term, summed in order.
  unfoldable pub term_score : Entry → Text → Double
  term_score e term =
      plus
        (plus
          (plus (plus zero_score (score_field term e.title two)) (score_field term e.developer one))
          (score_field term e.description one))
        (score_field term e.search_tokens one_half)

  -- The loop over the terms from `total`; a NULL or empty term is passed over.
  unfoldable pub score_terms : Entry → Double → List (Option Text) → Double
  score_terms e total [] = total
  score_terms e total (none ∷ terms) = score_terms e total terms
  score_terms e total (some [] ∷ terms) = score_terms e total terms
  score_terms e total (some (b ∷ term) ∷ terms) =
      let rest = score_terms e (plus total (term_score e (b ∷ term))) terms in
      if at_most (term_score e (b ∷ term)) zero_score then zero_score else rest

  unfoldable pub score_entry : Entry → List (Option Text) → Double
  unfolding score_terms
  score_entry e terms = score_terms e zero_score terms

  abbrev pub occurs : Option Text → Text → Bool
  occurs none term = false
  occurs (some field) term = has_term field term

  -- A NULL or empty term asks for nothing; another stands in one of the four fields.
  abbrev pub IsFound : Entry → Option Text → Type 0
  IsFound e none = Unit
  IsFound e (some []) = Unit
  IsFound e (some (b ∷ term)) =
      (occurs e.title (b ∷ term)
        || (occurs e.developer (b ∷ term)
            || (occurs e.description (b ∷ term) || occurs e.search_tokens (b ∷ term))))
      ≡ true

  score_field_zero :
      (b : ℕ) (term : Text) (field : Option Text) (w : Double)
      → occurs field (b ∷ term) ≡ false
      → score_field (b ∷ term) field w ≡ zero_score
  unfolding score_field
  score_field_zero b term none w h = refl
  score_field_zero b term (some field) w h = rw h

  term_score_zero :
      (e : Entry) (b : ℕ) (term : Text)
      → occurs e.title (b ∷ term) ≡ false
      → occurs e.developer (b ∷ term) ≡ false
      → occurs e.description (b ∷ term) ≡ false
      → occurs e.search_tokens (b ∷ term) ≡ false
      → term_score e (b ∷ term) ≡ zero_score
  unfolding term_score
  term_score_zero e b term h₁ h₂ h₃ h₄ = cc (
    score_field_zero b term e.title two h₁,
    score_field_zero b term e.developer one h₂,
    score_field_zero b term e.description one h₃,
    score_field_zero b term e.search_tokens one_half h₄,
    c.zero-plus-zero,
  )

  pub score_terms-IsFound :
      (e : Entry) (total : Double) (terms : List (Option Text))
      → exceeds (score_terms e total terms) zero_score ≡ true
      → All (IsFound e) terms
  unfolding score_terms
  score_terms-IsFound e total [] h = tt
  score_terms-IsFound e total (none ∷ terms) h = (tt, score_terms-IsFound e total terms h)
  score_terms-IsFound e total (some [] ∷ terms) h = (tt, score_terms-IsFound e total terms h)
  score_terms-IsFound e total (some (b ∷ term) ∷ terms) h =
      elim (Bool-cases (at_most (term_score e (b ∷ term)) zero_score)) [
        | inl low ↦ absurd (cc (sym c.not-exceeds-zero ∙ (rw low at h)))
        | inr high ↦ (
          ground (arith, term_score_zero e b term, c.at_most-zero),
          score_terms-IsFound e (plus total (term_score e (b ∷ term))) terms (rw high at h),
        )
      ]
