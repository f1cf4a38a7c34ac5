-- ===== src/Newlines/Loop.antt =====
-- src/bz-newline-parser.c: bz_newline_parser_real_process_bytes. The contents are the bytes up to the
-- first NUL, which ends every search in them; the set is the list of its keys.
use spacedbazaar.Common.{
  ℕ, zero, suc, ◌+◌, Bool, false, ◌&&◌, ◌||◌, List, [], ◌∷◌, ◌++◌, Option, none, some, Text,
  text_eq, if◌then◌else◌, ◌==◌, ltb, leb, length,
}

pub record NewlineParser : Type 0 where
  pub comments : Bool
  pub max_lines : ℕ

-- The copy of the data as a C string.
abbrev pub contents_of : List ℕ → Text
contents_of [] = []
contents_of (b ∷ bs) = let rest = contents_of bs in if b == 0 then [] else b ∷ rest

-- The line up to the next newline, and what comes after it.
abbrev pub before_newline : ℕ → Option (Text × Text) → Option (Text × Text)
before_newline c none = none
before_newline c (some (line, rest)) = some (c ∷ line, rest)

abbrev pub find_newline : Text → Option (Text × Text)
find_newline [] = none
find_newline (c ∷ s) =
    let found = find_newline s in if c == 10 then some ([], s) else before_newline c found

-- g_str_has_prefix (beg, "#").
abbrev pub has_hash : Text → Bool
has_hash [] = false
has_hash (c ∷ s) = c == 35

abbrev pub has_line : Text → List Text → Bool
has_line line [] = false
has_line line (l ∷ ls) = text_eq l line || has_line line ls

abbrev pub add_line : Text → List Text → List Text
add_line line set = if has_line line set then set else set ++ line ∷ []

-- The last line, which no newline ends.
abbrev pub last_line : NewlineParser → Text → List Text → List Text
last_line p beg set = if p.comments && has_hash beg then set else add_line beg set

-- One round of the loop: to stop, or to go on with what is left.
pub data Round : Type 0 where
  stopped : List Text → Round
  next_line : Text → ℕ → List Text → Round

abbrev pub counted_line : NewlineParser → ℕ → Text → List Text → Round
counted_line p n rest set =
    if ltb 0 p.max_lines && ltb p.max_lines (n + 1) then stopped set else next_line rest (n + 1) set

abbrev pub whole_line : NewlineParser → Text → Text → Text → ℕ → List Text → Round
whole_line p beg line rest n set =
    if (p.comments && has_hash beg) || leb (length line) 1
    then next_line rest n set
    else counted_line p n rest (add_line line set)

abbrev pub loop_round : NewlineParser → Text → Option (Text × Text) → ℕ → List Text → Round
loop_round p beg none n set = stopped (last_line p beg set)
loop_round p beg (some (line, rest)) n set = whole_line p beg line rest n set

-- `none` is that the fuel is used up.
abbrev pub lines_loop : ℕ → NewlineParser → Text → ℕ → List Text → Option (List Text)
lines_loop zero p beg n set = none
lines_loop (suc fuel) p [] n set = some set
lines_loop (suc fuel) p (c ∷ s) n set = elim (loop_round p (c ∷ s) (find_newline (c ∷ s)) n set) [
  | stopped set' ↦ some set'
  | next_line rest n' set' ↦ lines_loop fuel p rest n' set'
]

-- Each round takes a byte at least.
unfoldable pub process_bytes : NewlineParser → List ℕ → Option (List Text)
process_bytes p bytes = let s = contents_of bytes in lines_loop (length s + 1) p s 0 []
