-- ===== src/Search/StringTests.antt =====
-- src/bz-search-engine.c: test_strings at concrete strings. The score counts the characters.
use mathlib.Core.List.{Memᴰ}
use spacedbazaar.Common.{
  ℕ, ◌+◌, ◌*◌, ◌≡◌, ◌↔◌, refl, Bool, true, List, [], ◌∷◌, some, none, Text, text_eq, ltb, All,
  codes, ◌==◌, pos, arith, inl, inr,
}
use spacedbazaar.Search.Strings.{
  SearchToken, token_matches, tokens_of, utf8_skip_to_next_of_class, test_strings,
}
use spacedbazaar.Search.Matches.{IsInside, token_matches-IsInside}
use spacedbazaar.Search.Cut.{IsCut, tokens_of-IsCut}
use spacedbazaar.Search.Scores.{SearchGroup, ScoreDoubles, query_sub_task}
use spacedbazaar.Search.Hits.{IsHit, query_sub_task-IsHit}
use spacedbazaar.Search.Missed.{test_strings-missed}

abbrev is_gap : ℕ → Bool
is_gap c = c == 32

abbrev same_case : ℕ → ℕ
same_case c = c

abbrev product : ℕ → ℕ → ℕ
product q a = q * q + a

abbrev token_of : Text → Text → ℕ → SearchToken
token_of t rest n = record { token_text = t; utf8_len = n; token_end = rest }

abbrev fox : SearchToken
fox = token_of (codes "fox") [] 3

abbrev firefox : SearchToken
firefox = token_of (codes "firefox") (codes " web") 7

token_matches-IsInside_example :
    (token_matches same_case fox firefox ≡ true)
    ↔ IsInside same_case (codes "fox") (codes "firefox")
token_matches-IsInside_example =
    token_matches-IsInside same_case fox firefox (refl, omega arith) refl (omega arith)

tokens_of-IsCut_example :
    (ts : List SearchToken) × (tokens_of is_gap (codes "a bc ") ≡ some ts) × All (IsCut is_gap) ts
tokens_of-IsCut_example = tokens_of-IsCut is_gap (codes "a bc ")

abbrev query_tokens : List SearchToken
query_tokens = token_of (codes "web") (codes " cat") 3 ∷ token_of (codes "cat") [] 3 ∷ []

abbrev against_tokens : List SearchToken
against_tokens = firefox ∷ token_of (codes "web") [] 3 ∷ []

test_strings-missed_example :
    test_strings is_gap same_case 0
      (λ a b. a + b)
      product
      (codes "web cat")
      (codes "firefox web")
      (pos 2)
    ≡ some 0
unfolding tokens_of utf8_skip_to_next_of_class token_matches
test_strings-missed_example =
    test_strings-missed is_gap same_case 0 (λ a b. a + b) product (codes "web cat")
      (codes "firefox web") (pos 2) query_tokens against_tokens (token_of (codes "cat") [] 3) refl
      refl (Memᴰ.tail (Memᴰ.head refl)) (inr refl, (inr refl, tt))

-- A query of a part of a word, scored by it.
part_scored :
    test_strings is_gap same_case 0
      (λ a b. a + b)
      product
      (codes "fox")
      (codes "firefox web")
      (pos 2)
    ≡ some 16
unfolding test_strings tokens_of utf8_skip_to_next_of_class token_matches
part_scored = refl

abbrev counted : ScoreDoubles ℕ
counted = record {
  none_found = 0;
  int_max = 2147483647;
  one = 1;
  one_and_half = 1;
  two = 2;
  plus = λ a b. a + b;
  times = λ a b. a * b;
  pow = λ a b. a;
  share = product;
  is_above = λ a. ltb 1 a;
}

abbrev one_group : List SearchGroup
one_group =
    record {
      id = some (codes "org.firefox");
      title = some (codes "firefox");
      developer = none;
      description = none;
      search_tokens = none;
      is_searchable = true;
    }
    ∷ []

query_sub_task-IsHit_example :
    (out : List (ℕ × ℕ)) × (query_sub_task counted is_gap same_case text_eq
        (codes "fox")
        []
        one_group
        0
        1
      ≡ some out)
    × All (IsHit counted is_gap same_case text_eq (codes "fox") [] one_group 0 1) out
query_sub_task-IsHit_example =
    query_sub_task-IsHit counted is_gap same_case text_eq (codes "fox") [] one_group 0 1
      (omega arith) (inl ((codes "org.firefox", refl), tt))
