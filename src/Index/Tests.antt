-- ===== src/Index/Tests.antt =====
-- The search index at concrete groups, and the theorems about it at them.
use mathlib.Core.List.{Perm}
use mathlib.Core.List.Perm
use spacedbazaar.Common.{
  ℕ, ◌+◌, ◌*◌, ◌/◌, ◌%◌, ◌≡◌, refl, true, false, List, [], ◌∷◌, none, some, codes, has_prefix, ltb,
  leb, arith, if◌then◌else◌, Bool-cases, inl, inr, All, take, ◌⊎◌,
}
use spacedbazaar.Index.Write.{
  Group, Gio, Io, bz_write_search_index, count_eligible, entry_group_is_eligible, string_len,
}
use spacedbazaar.Index.Read.{
  Index, Disk, opened, refused, search_index_open, search_index_find, search_index_reload_if_stale,
}
use spacedbazaar.Index.Atomic.{index_bytes, bz_write_search_index-atomic}
use spacedbazaar.Index.RoundTrip.{open-write, all_titled, eligible, entry_of}
use spacedbazaar.Index.Score.{Scoring, IsFound}
use spacedbazaar.Index.Query.{
  Match, Sort, IsRanked, cmp_matches, search_index_query, search_index_query-hits, hits,
  hits-IsFound,
}
use spacedbazaar.Index.Lookup.{
  FindsFirst, search_index_find-FindsFirst, Reloads, search_index_reload-Reloads,
}

abbrev calm : Gio
calm = record {
  fails = λ _. false;
  put_uint32 = λ n. n % 256 ∷ n / 256 % 256 ∷ n / 65536 % 256 ∷ n / 16_777_216 % 256 ∷ [];
  put_little = λ n h. refl;
}

abbrev ink : Group
ink = record {
  id = some (codes "a.Ink");
  title = some (codes "Ink");
  developer = none;
  description = some (codes "Draw");
  search_tokens = none;
  icon_path = none;
  is_searchable = true;
  is_addon = false;
  removable = 0;
  eol = none;
}

-- An add-on is left out.
abbrev brushes : Group
brushes = record ink { id = some (codes "a.Brushes"); is_addon = true }

abbrev untitled : Group
untitled = record ink { title = none }

abbrev empty_disk : Io
empty_disk = record { calls = 0; out = []; final = none }

abbrev shelf : List Group → Disk
shelf groups = record {
  content = λ _. (bz_write_search_index calm groups empty_disk).0.final;
  st_mtime = λ _. some 7;
  calloc = λ _. true;
}

bz_write_search_index-atomic_example :
    let d = bz_write_search_index calm (brushes ∷ ink ∷ []) empty_disk in
    (((d.1 ≡ true) × (d.0.final ≡ some (index_bytes calm (brushes ∷ ink ∷ []))))
      ⊎ ((d.1 ≡ false) × (d.0.final ≡ none)))
    × (((n : ℕ) → false ≡ false) → d.1 ≡ true)
bz_write_search_index-atomic_example =
    bz_write_search_index-atomic calm (brushes ∷ ink ∷ []) empty_disk

abbrev ink_index : Index
ink_index = record { path = codes "/i"; mtime = 7; entries = entry_of ink ∷ []; count = 1 }

ink_written : (bz_write_search_index calm (brushes ∷ ink ∷ []) empty_disk).1 ≡ true
ink_written = (bz_write_search_index-atomic calm (brushes ∷ ink ∷ []) empty_disk).1 (λ n. refl)

open-write_example : search_index_open (shelf (brushes ∷ ink ∷ [])) (codes "/i") ≡ (
    if all_titled (eligible (brushes ∷ ink ∷ []))
    then opened (record {
      path = codes "/i";
      mtime = 7;
      entries = entry_of ink ∷ [];
      count = count_eligible (brushes ∷ ink ∷ []);
    })
    else refused)
unfolding entry_group_is_eligible count_eligible
open-write_example =
    open-write calm (brushes ∷ ink ∷ []) empty_disk (shelf (brushes ∷ ink ∷ [])) (codes "/i")
      ink_written refl refl (omega arith) (omega arith)

-- One eligible group with no title makes the index of all of them unreadable.
untitled_refused : search_index_open (shelf (ink ∷ untitled ∷ [])) (codes "/i") ≡ refused
unfolding entry_group_is_eligible count_eligible string_len
untitled_refused =
    open-write calm (ink ∷ untitled ∷ []) empty_disk (shelf (ink ∷ untitled ∷ [])) (codes "/i")
      ((bz_write_search_index-atomic calm (ink ∷ untitled ∷ []) empty_disk).1 (λ n. refl)) refl refl
      (omega arith) (omega arith)

search_index_find-FindsFirst_example :
    FindsFirst
      (codes "a.Ink")
      ink_index.entries
      (search_index_find (some ink_index) (some (codes "a.Ink")))
search_index_find-FindsFirst_example = search_index_find-FindsFirst ink_index (codes "a.Ink")

search_index_reload-Reloads_example :
    Reloads
      (shelf (ink ∷ []))
      ink_index
      (search_index_reload_if_stale (shelf (ink ∷ [])) (some ink_index))
search_index_reload-Reloads_example = search_index_reload-Reloads (shelf (ink ∷ [])) ink_index

-- Whole numbers stand for scores, in eighths; the test for a term looks at the field's start.
abbrev eighths : Scoring
eighths = record {
  Double = ℕ;
  zero_score = 0;
  one = 8;
  one_half = 12;
  two = 16;
  plus = λ a b. a + b;
  times = λ a b. a * b;
  ratio = λ a b. a / b;
  exceeds = λ a b. ltb b a;
  at_most = λ a b. leb a b;
  has_term = λ field term. has_prefix field term;
  zero-plus-zero = refl;
  at_most-zero = refl;
  not-exceeds-zero = refl;
}

insert : Match eighths → List (Match eighths) → List (Match eighths)
insert m [] = m ∷ []
insert m (k ∷ ks) = if ltb m.1 k.1 then k ∷ insert m ks else m ∷ k ∷ ks

insertion_sort : List (Match eighths) → List (Match eighths)
insertion_sort [] = []
insertion_sort (m ∷ ms) = insert m (insertion_sort ms)

insert-perm : (m : Match eighths) (ks : List (Match eighths)) → Perm (insert m ks) (m ∷ ks)
unfolding insert
insert-perm m [] = Perm.refl (m ∷ [])
insert-perm m (k ∷ ks) = elim (Bool-cases (ltb m.1 k.1)) [
  | inl below ↦ rw below (Perm.trans (Perm.cons k (insert-perm m ks)) (Perm.swap m k ks))
  | inr above ↦ rw above (Perm.refl (m ∷ k ∷ ks))
]

insertion_sort-perm : (ms : List (Match eighths)) → Perm (insertion_sort ms) ms
unfolding insertion_sort
insertion_sort-perm [] = Perm.refl []
insertion_sort-perm (m ∷ ms) =
    Perm.trans (insert-perm m (insertion_sort ms)) (Perm.cons m (insertion_sort-perm ms))

insert-IsRanked :
    (m : Match eighths) (ks : List (Match eighths))
    → IsRanked eighths ks
    → IsRanked eighths (insert m ks)
unfolding insert cmp_matches
insert-IsRanked m [] r = tt
insert-IsRanked m (k ∷ []) r = ground arith
insert-IsRanked m (k ∷ j ∷ ks) r = ground (arith, insert-IsRanked m (j ∷ ks) r.1)

insertion_sort-IsRanked : (ms : List (Match eighths)) → IsRanked eighths (insertion_sort ms)
unfolding insertion_sort
insertion_sort-IsRanked [] = tt
insertion_sort-IsRanked (m ∷ ms) =
    insert-IsRanked m (insertion_sort ms) (insertion_sort-IsRanked ms)

abbrev by_insertion : Sort eighths
by_insertion = record {
  qsort = insertion_sort;
  qsort-perm = insertion_sort-perm;
  qsort-IsRanked = insertion_sort-IsRanked;
}

search_index_query-hits_example :
    search_index_query eighths by_insertion (some ink_index) (some (codes "In") ∷ []) 2
    ≡ insertion_sort (take 2 (hits eighths (some (codes "In") ∷ []) ink_index.entries))
search_index_query-hits_example =
    search_index_query-hits eighths by_insertion ink_index (some (codes "In")) [] 2 (omega arith)

hits-IsFound_example :
    All
      (λ m. All (IsFound eighths m.0) (some (codes "In") ∷ []))
      (hits eighths (some (codes "In") ∷ []) ink_index.entries)
hits-IsFound_example = hits-IsFound eighths (some (codes "In") ∷ []) ink_index.entries
