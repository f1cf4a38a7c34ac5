-- ===== src/Search/Tests.antt =====
-- src/bz-search-engine.c: the theorems at concrete numbers.
use spacedbazaar.Common.{[], ◌∷◌, ◌≡◌, refl, arith}
use spacedbazaar.Search.Work.{work_length, n_sub_tasks, query_visits, query_visits-upwards}

query_visits-upwards_example : query_visits 4 3 ≡ 0 ∷ 1 ∷ 2 ∷ []
query_visits-upwards_example = query_visits-upwards 4 3 (omega arith)

-- The last of three tasks takes the remainder.
three_tasks : n_sub_tasks 8 1700 ≡ 3
unfolding n_sub_tasks
three_tasks = refl

last_task : work_length 3 1700 2 ≡ 568
last_task = refl
