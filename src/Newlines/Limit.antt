-- ===== src/Newlines/Limit.antt =====
-- src/bz-newline-parser.c: how many lines a limited parser keeps.
use spacedbazaar.Common.{
  ℕ, zero, suc, ◌+◌, ◌-◌, ◌≤◌, ◌<◌, List, [], ◌∷◌, some, Text, inl, inr, length, ◌≡◌, arith,
  Bool-cases, length-append, length-take,
}
use spacedbazaar.Newlines.Loop.{NewlineParser, contents_of, has_line, add_line, process_bytes}
use spacedbazaar.Newlines.Lines.{lines_of, kept_lines, limited, add_lines, process_bytes-lines}

add_line-length : (l : Text) (set : List Text) → length (add_line l set) ≤ length set + 1
add_line-length l set = elim (Bool-cases (has_line l set)) [
  | inl on ↦ rw on (omega arith)
  | inr off ↦ rw off (omega (arith, length-append set (l ∷ [])))
]

add_lines-length : (ls set : List Text) → length (add_lines ls set) ≤ length set + length ls
add_lines-length [] set = omega arith
add_lines-length (l ∷ ls) set =
    omega (arith, add_lines-length ls (add_line l set), add_line-length l set)

limited-length : (m : ℕ) (ls : List Text) → 0 < m → length (limited m 0 ls) ≤ m + 1
limited-length zero ls h = absurd (omega (arith, h))
limited-length (suc m) ls h = omega (arith, length-take (m + 2 - 0) ls)

-- With a limit, any data gives a set, of at most one line more than the limit.
pub process_bytes-length :
    (p : NewlineParser) (bytes : List ℕ)
    → 0 < p.max_lines
    → (set : List Text) × (process_bytes p bytes ≡ some set) × (length set ≤ p.max_lines + 1)
process_bytes-length p bytes h =
    let (ls, last) = lines_of (contents_of bytes) in
    let kept = limited p.max_lines 0 (kept_lines p ls last) in
    (
      add_lines kept [],
      process_bytes-lines p bytes,
      omega (arith, add_lines-length kept [], limited-length p.max_lines (kept_lines p ls last) h),
    )
