-- ===== src/Search/Scored.antt =====
-- src/bz-search-engine.c: query_sub_task_fiber. When the score of a group is computed.
use spacedbazaar.Common.{
  ℕ, ◌≡◌, refl, Bool, true, false, ◌||◌, List, [], ◌∷◌, Option, none, some, Text, All, ℤ,
  strcmp0_eq, if◌then◌else◌, arith, ap, ◌∙◌,
}
use spacedbazaar.Search.Strings.{test_strings, score_tokens, query_loop, tokens_of}
use spacedbazaar.Search.Cut.{tokens_of-IsCut}
use spacedbazaar.Search.Scores.{
  SearchGroup, Bias, ScoreDoubles, apply_biases, boosted, has_id, add_text, text_score, base_score,
  title_eq, group_score,
}

abbrev pub Some {ℓ} : {D : Type ℓ} → Option D → Type ℓ
Some {D = D} o = (d : D) × (o ≡ some d)

-- A bias without boosts.
abbrev pub IsUnboosted {ℓ} : {D : Type ℓ} → Bias D → Type 0
IsUnboosted b = b.boosted_ids ≡ none

module _ {ℓ} {D : Type ℓ} (ds : ScoreDoubles D) (is_separator : ℕ → Bool) (tolower : ℕ → ℕ)
    (casecmp_eq : Text → Text → Bool) (query : Text) where
  test_strings-Some :
      (s : Text) (minimum : ℤ)
      → Some (test_strings is_separator tolower ds.none_found ds.plus ds.share query s minimum)
  unfolding test_strings
  test_strings-Some s minimum =
      let qs = tokens_of-IsCut is_separator query in
      let ts = tokens_of-IsCut is_separator s in
      (
        query_loop tolower ds.none_found ds.plus ds.share minimum ts.0 qs.0 ds.none_found,
        ap
              (λ o.
                score_tokens tolower ds.none_found ds.plus ds.share minimum o
                  (tokens_of is_separator s))
              qs.1
            ∙ ap (score_tokens tolower ds.none_found ds.plus ds.share minimum (some qs.0)) ts.1,
      )

  add_text-Some :
      (s : Option Text) (minimum : ℤ) (weight : D) (o : Option D)
      → Some o
      → Some (add_text ds is_separator tolower casecmp_eq query s minimum weight o)
  add_text-Some s minimum weight none h = ground (arith, h.1)
  add_text-Some none minimum weight (some score) h = (_, refl)
  add_text-Some (some s) minimum weight (some score) h =
      let v = test_strings-Some s minimum in
      (
        ds.plus score (ds.times v.0 weight),
        ap (λ o. elim o [ none ↦ none | some w ↦ some (ds.plus score (ds.times w weight)) ]) v.1,
      )

  text_score-Some : (g : SearchGroup) → Some (text_score ds is_separator tolower casecmp_eq query g)
  text_score-Some g = add_text-Some _ _ _ _ (
      add_text-Some _ _ _ _ (
        add_text-Some _ _ _ _
          (add_text-Some g.title _ _ (some ds.none_found) (ds.none_found, refl))))

  base_score-Some : (g : SearchGroup) → Some (base_score ds is_separator tolower casecmp_eq query g)
  unfolding strcmp0_eq
  base_score-Some g =
      pick
        (strcmp0_eq (some query) g.id || title_eq ds is_separator tolower casecmp_eq query g.title)
        (text_score-Some g)
    where
      pick :
          (b : Bool)
          → Some (text_score ds is_separator tolower casecmp_eq query g)
          → Some
              (if b then some ds.int_max else text_score ds is_separator tolower casecmp_eq query g)
      pick true h = (ds.int_max, refl)
      pick false h = h

  apply_biases-Some :
      (bs : List (Bias D)) (s : Text) (score : D) → Some (apply_biases ds bs (some s) score)
  apply_biases-Some [] s score = (score, refl)
  apply_biases-Some (b ∷ bs) s score =
      let x = one b.boosted_ids in
      let all = apply_biases-Some bs s x.0 in
      (
        all.0,
        ap (λ o. elim o [ none ↦ none | some score' ↦ apply_biases ds bs (some s) score' ]) x.1
            ∙ all.1,
      )
    where
      one :
          (o : Option (List Text))
          → Some (elim o [
            | none ↦ some score
            | some ids ↦ some (if has_id s ids then boosted ds b.boost_kind score else score)
          ])
      one none = (score, refl)
      one (some ids) = (_, refl)

  apply_biases-unboosted :
      (bs : List (Bias D)) (id : Option Text) (score : D)
      → All IsUnboosted bs
      → apply_biases ds bs id score ≡ some score
  apply_biases-unboosted [] id score all = refl
  apply_biases-unboosted (b ∷ bs) id score all =
      ground (arith, all.0, apply_biases-unboosted bs id score all.1)

  pub group_score-unboosted :
      (bs : List (Bias D)) (g : SearchGroup)
      → All IsUnboosted bs
      → Some (group_score ds is_separator tolower casecmp_eq query bs g)
  unfolding group_score strcmp0_eq
  group_score-unboosted bs g all =
      let base = base_score-Some g in
      (
        base.0,
        ap (λ o. elim o [ none ↦ none | some score ↦ apply_biases ds bs g.id score ]) base.1
            ∙ apply_biases-unboosted bs g.id base.0 all,
      )

  pub group_score-Some :
      (bs : List (Bias D)) (g : SearchGroup) (s : Text)
      → g.id ≡ some s
      → Some (group_score ds is_separator tolower casecmp_eq query bs g)
  unfolding group_score strcmp0_eq
  group_score-Some bs g s e =
      let base = base_score-Some g in
      let all = apply_biases-Some bs s base.0 in
      (
        all.0,
        ap (λ o. elim o [ none ↦ none | some score ↦ apply_biases ds bs g.id score ]) base.1
            ∙ ap (λ i. apply_biases ds bs i base.0) e
            ∙ all.1,
      )
