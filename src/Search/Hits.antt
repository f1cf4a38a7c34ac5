-- ===== src/Search/Hits.antt =====
-- src/bz-search-engine.c: query_sub_task_fiber. What a sub-task finds.
use spacedbazaar.Common.{
  ℕ, zero, suc, ◌+◌, ◌≤◌, ◌<◌, ◌≡◌, refl, Bool, true, List, [], ◌∷◌, Option, none, some, Text, All,
  ◌⊎◌, if◌then◌else◌, get_elem?, length, arith, Bool-cases, inl, inr, ap, ◌∙◌, subst,
  get_elem?-below,
}
use spacedbazaar.Search.Scored.{Some, IsUnboosted, group_score-Some, group_score-unboosted}
use spacedbazaar.Search.Scores.{
  SearchGroup, Bias, ScoreDoubles, group_score, append_score, query_sub_task,
}

module _ {ℓ} {D : Type ℓ} (ds : ScoreDoubles D) (is_separator : ℕ → Bool) (tolower : ℕ → ℕ)
    (casecmp_eq : Text → Text → Bool) (query : Text) where
  abbrev pub HasId : SearchGroup → Type 0
  HasId g = (s : Text) × (g.id ≡ some s)

  -- A score of a group at an index from lo on and below hi, which is searchable and above the
  -- threshold.
  abbrev pub IsHit : List (Bias D) → List SearchGroup → ℕ → ℕ → ℕ × D → Type ℓ
  IsHit bs groups lo hi (i, d) =
      (lo ≤ i)
      × (i < hi)
      × (g : SearchGroup) × (get_elem? groups i ≡ some g)
      × (g.is_searchable ≡ true)
      × (group_score ds is_separator tolower casecmp_eq query bs g ≡ some d)
      × (ds.is_above d ≡ true)

  later-IsHit :
      (bs : List (Bias D)) (groups : List SearchGroup) (lo hi hi' : ℕ) (out : List (ℕ × D))
      → hi ≡ hi'
      → All (IsHit bs groups (suc lo) hi) out
      → All (IsHit bs groups lo hi') out
  later-IsHit bs groups lo hi hi' [] e all = tt
  later-IsHit bs groups lo hi hi' ((i, d) ∷ out) e all =
      let first = all.0 in
      (
        (
          omega (arith, first.0),
          omega (arith, e, first.1),
          first.2,
          first.3,
          first.4,
          first.5,
          first.6,
        ),
        later-IsHit bs groups lo hi hi' out e all.1,
      )

  All-at :
      (groups : List SearchGroup) (i : ℕ) (g : SearchGroup)
      → All HasId groups
      → get_elem? groups i ≡ some g
      → HasId g
  All-at [] i g all e = ground (arith, e)
  All-at (h ∷ groups) zero g all e = let same : h ≡ g = ground (arith, e) in subst HasId same all.0
  All-at (h ∷ groups) (suc i) g all e = All-at groups i g all.1 e

  score_at-Some :
      (bs : List (Bias D)) (groups : List SearchGroup) (i : ℕ) (g : SearchGroup)
      → All HasId groups ⊎ All IsUnboosted bs
      → get_elem? groups i ≡ some g
      → Some (group_score ds is_separator tolower casecmp_eq query bs g)
  score_at-Some bs groups i g (inl ids) e =
      let id = All-at groups i g ids e in
      group_score-Some ds is_separator tolower casecmp_eq query bs g id.0 id.1
  score_at-Some bs groups i g (inr all) e =
      group_score-unboosted ds is_separator tolower casecmp_eq query bs g all

  -- For a part of a list of groups, where every group of the list has an id or no bias has boosts:
  -- the sub-task accesses nothing out of bounds and has scores, each of them that of a searchable group of its own part of the list, at the
  -- index of this group, and above the threshold.
  pub query_sub_task-IsHit :
      (bs : List (Bias D)) (groups : List SearchGroup) (idx n : ℕ)
      → idx + n ≤ length groups
      → All HasId groups ⊎ All IsUnboosted bs
      → (out : List (ℕ × D)) × (query_sub_task ds is_separator tolower casecmp_eq query bs groups
            idx n
          ≡ some out)
        × All (IsHit bs groups idx (idx + n)) out
  unfolding query_sub_task
  query_sub_task-IsHit bs groups idx zero h all = ([], refl, tt)
  query_sub_task-IsHit bs groups idx (suc n) h all =
      let at = get_elem?-below groups idx (omega (arith, h)) in
      let g = at.0 in
      let more = query_sub_task-IsHit bs groups (suc idx) n (omega (arith, h)) all in
      let later =
        later-IsHit bs groups idx (suc idx + n) (idx + suc n) more.0 (omega arith) more.2 in
      let score = score_at-Some bs groups idx g all at.1 in
      let rest = query_sub_task ds is_separator tolower casecmp_eq query bs groups (suc idx) n in
      let reached : query_sub_task ds is_separator tolower casecmp_eq query bs groups idx (suc n)
          ≡ (if g.is_searchable
              then append_score ds is_separator tolower casecmp_eq query idx (some score.0)
                  (some more.0)
              else some more.0) =
        ap
          (λ o. elim o [
            | none ↦ none
            | some g' ↦
                if g'.is_searchable
                then append_score ds is_separator tolower casecmp_eq query idx
                    (group_score ds is_separator tolower casecmp_eq query bs g') rest
                else rest
          ])
          at.1
        ∙ ap
            (λ o.
              if g.is_searchable
              then append_score ds is_separator tolower casecmp_eq query idx o rest
              else rest)
            score.1
        ∙ ap
            (λ r.
              if g.is_searchable
              then append_score ds is_separator tolower casecmp_eq query idx (some score.0) r
              else r)
            more.1 in
      let entry : ℕ × D = (idx, score.0) in
      let chosen : (b : Bool) → Option (List (ℕ × D)) = λ b.
        if b
        then append_score ds is_separator tolower casecmp_eq query idx (some score.0) (some more.0)
        else some more.0 in
      let kept : (b : Bool) → Option (List (ℕ × D)) =
        λ b. some (if b then entry ∷ more.0 else more.0) in
      elim (Bool-cases g.is_searchable) [
        | inr off ↦ (more.0, reached ∙ ap chosen off, later)
        | inl on ↦ elim (Bool-cases (ds.is_above score.0)) [
          | inr below ↦ (more.0, reached ∙ ap chosen on ∙ ap kept below, later)
          | inl up ↦ (
            entry ∷ more.0,
            reached ∙ ap chosen on ∙ ap kept up,
            ((omega arith, omega arith, g, at.1, on, score.1, up), later),
          )
        ]
      ]
