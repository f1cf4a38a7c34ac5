-- ===== src/Search/Scores.antt =====
-- src/bz-search-engine.c: query_sub_task_fiber. The doubles, strcasecmp and the characters' classes are
-- parameters; `none` is a read of the groups out of their range or of an id that is NULL.
use spacedbazaar.Common.{
  ℕ, zero, suc, Bool, false, ◌||◌, List, [], ◌∷◌, Option, none, some, Text, text_eq, ℤ, pos, negsuc,
  strcmp0_eq, if◌then◌else◌, get_elem?,
}
use spacedbazaar.Search.Strings.{test_strings}

pub record SearchGroup : Type 0 where
  pub id : Option Text
  pub title : Option Text
  pub developer : Option Text
  pub description : Option Text
  pub search_tokens : Option Text
  pub is_searchable : Bool

pub data BoostKind {ℓ} (D : Type ℓ) : Type ℓ where
  linear : D → D → BoostKind D
  exponential : D → D → BoostKind D
  no_boost : BoostKind D

-- The ids that a bias boosts, if it has any, and how.
pub record Bias {ℓ} (D : Type ℓ) : Type ℓ where
  pub boosted_ids : Option (List Text)
  pub boost_kind : BoostKind D

-- The doubles: 0.0, G_MAXINT, 1.0, 1.5 and 2.0, the operations, a token's share and the threshold.
pub record ScoreDoubles {ℓ} (D : Type ℓ) : Type ℓ where
  pub none_found : D
  pub int_max : D
  pub one : D
  pub one_and_half : D
  pub two : D
  pub plus : D → D → D
  pub times : D → D → D
  pub pow : D → D → D
  pub share : ℕ → ℕ → D
  pub is_above : D → Bool

abbrev pub has_id : Text → List Text → Bool
has_id s [] = false
has_id s (t ∷ ts) = text_eq t s || has_id s ts

module _ {ℓ} {D : Type ℓ} (ds : ScoreDoubles D) where
  abbrev pub boosted : BoostKind D → D → D
  boosted (linear slope y) score = ds.plus (ds.times slope score) y
  boosted (exponential factor y) score = ds.times (ds.pow factor score) y
  boosted no_boost score = score

  -- A bias with boosts looks the id up, which then must not be NULL.
  abbrev pub apply_bias : Bias D → Option Text → D → Option D
  apply_bias b id score = elim b.boosted_ids [
    | none ↦ some score
    | some ids ↦ elim id [
      | none ↦ none
      | some s ↦ some (if has_id s ids then boosted b.boost_kind score else score)
    ]
  ]

  abbrev pub apply_biases : List (Bias D) → Option Text → D → Option D
  apply_biases [] id score = some score
  apply_biases (b ∷ bs) id score = elim (apply_bias b id score) [
    | none ↦ none
    | some score' ↦ apply_biases bs id score'
  ]

  module _ (is_separator : ℕ → Bool) (tolower : ℕ → ℕ) (casecmp_eq : Text → Text → Bool)
      (query : Text) where
    -- EVALUATE_STRING, weighted and added.
    abbrev pub add_text : Option Text → ℤ → D → Option D → Option D
    add_text s minimum weight none = none
    add_text none minimum weight (some score) = some (ds.plus score (ds.times ds.none_found weight))
    add_text (some s) minimum weight (some score) =
        elim (test_strings is_separator tolower ds.none_found ds.plus ds.share query s minimum) [
          | none ↦ none
          | some v ↦ some (ds.plus score (ds.times v weight))
        ]

    abbrev pub title_eq : Option Text → Bool
    title_eq none = false
    title_eq (some t) = casecmp_eq query t

    abbrev pub text_score : SearchGroup → Option D
    text_score g = add_text g.search_tokens (negsuc 0) ds.one_and_half (
        add_text g.description (pos 3) ds.one (
          add_text g.developer (pos 2) ds.one
            (add_text g.title (pos 2) ds.two (some ds.none_found))))

    abbrev pub base_score : SearchGroup → Option D
    unfolding strcmp0_eq
    base_score g =
        let texts = text_score g in
        if strcmp0_eq (some query) g.id || title_eq g.title then some ds.int_max else texts

    -- The score of a searchable group.
    unfoldable pub group_score : List (Bias D) → SearchGroup → Option D
    unfolding strcmp0_eq
    group_score biases g = elim (base_score g) [
      | none ↦ none
      | some score ↦ apply_biases biases g.id score
    ]

    abbrev pub append_score : ℕ → Option D → Option (List (ℕ × D)) → Option (List (ℕ × D))
    append_score idx none rest = none
    append_score idx (some score) none = none
    append_score idx (some score) (some out) =
        some (if ds.is_above score then (idx, score) ∷ out else out)

    -- The groups from an index on, so many of them.
    unfoldable pub query_sub_task : List (Bias D) → List SearchGroup → ℕ → ℕ → Option (List (ℕ × D))
    query_sub_task biases groups idx zero = some []
    query_sub_task biases groups idx (suc n) =
        let rest = query_sub_task biases groups (suc idx) n in
        elim (get_elem? groups idx) [
          | none ↦ none
          | some g ↦ if g.is_searchable then append_score idx (group_score biases g) rest else rest
        ]
