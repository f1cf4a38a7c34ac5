-- ===== src/Newlines/Tests.antt =====
-- src/bz-newline-parser.c: the theorems at concrete data.
use spacedbazaar.Common.{
  ℕ, ◌≤◌, true, List, [], ◌∷◌, ◌++◌, some, Text, codes, ◌≡◌, refl, length, arith, text_eq,
}
use spacedbazaar.Newlines.Loop.{NewlineParser, process_bytes}
use spacedbazaar.Newlines.Lines.{process_bytes-lines}
use spacedbazaar.Newlines.Limit.{process_bytes-length}

-- A comment, an id, a line of one byte, another id, the first one again and one that is not ended.
abbrev some_data : List ℕ
some_data =
    codes "#ab"
    ++ 10 ∷ codes "ab"
    ++ 10 ∷ codes "c"
    ++ 10 ∷ codes "de"
    ++ 10 ∷ codes "ab"
    ++ 10 ∷ codes "f"

abbrev limited_to : ℕ → NewlineParser
limited_to m = record { comments = true; max_lines = m }

process_bytes-lines_example :
    process_bytes (limited_to 0) some_data ≡ some (codes "ab" ∷ codes "de" ∷ codes "f" ∷ [])
unfolding text_eq
process_bytes-lines_example = process_bytes-lines (limited_to 0) some_data

process_bytes-length_example :
    (set : List Text) × (process_bytes (limited_to 1) some_data ≡ some set) × (length set ≤ 2)
process_bytes-length_example = process_bytes-length (limited_to 1) some_data (omega arith)

-- A limit of one line keeps two.
two_lines : process_bytes (limited_to 1) some_data ≡ some (codes "ab" ∷ codes "de" ∷ [])
unfolding process_bytes text_eq
two_lines = refl
