-- ===== src/Newlines/Lines.antt =====
-- src/bz-newline-parser.c: the loop against the lines of the text.
use spacedbazaar.Common.{
  ℕ, zero, suc, ◌+◌, ◌-◌, ◌≤◌, ◌<◌, Bool, true, false, not, ◌&&◌, ◌||◌, List, [], ◌∷◌, Option, none,
  some, Text, inl, inr, if◌then◌else◌, ◌==◌, ltb, leb, length, take, ◌≡◌, refl, sym, ◌∙◌, ap, subst,
  arith, Bool-cases, Option-cases,
}
use spacedbazaar.Newlines.Loop.{
  NewlineParser, contents_of, find_newline, has_hash, add_line, last_line, Round, stopped,
  next_line, whole_line, loop_round, lines_loop, process_bytes,
}

-- The lines that a newline ends, and what comes after the last newline.
abbrev on_first : ℕ → List Text × Text → List Text × Text
on_first c ([], last) = ([], c ∷ last)
on_first c (l ∷ ls, last) = ((c ∷ l) ∷ ls, last)

abbrev pub lines_of : Text → List Text × Text
lines_of [] = ([], [])
lines_of (c ∷ s) =
    let (ls, last) = lines_of s in if c == 10 then ([] ∷ ls, last) else on_first c (ls, last)

-- The lines that count: of two bytes at least, or the last one if it is not ended, and no comments.
abbrev pub keeps : NewlineParser → Text → Bool
keeps p line = not (p.comments && has_hash line) && ltb 1 (length line)

abbrev pub kept_last : NewlineParser → Text → List Text
kept_last p [] = []
kept_last p (c ∷ s) = if p.comments && has_hash (c ∷ s) then [] else (c ∷ s) ∷ []

abbrev pub kept_lines : NewlineParser → List Text → Text → List Text
kept_lines p [] last = kept_last p last
kept_lines p (l ∷ ls) last = let rest = kept_lines p ls last in if keeps p l then l ∷ rest else rest

-- The limit, by the lines that were counted.
abbrev pub limited : ℕ → ℕ → List Text → List Text
limited zero n ls = ls
limited (suc m) n ls = take (m + 2 - n) ls

abbrev pub add_lines : List Text → List Text → List Text
add_lines [] set = set
add_lines (l ∷ ls) set = add_lines ls (add_line l set)

find_newline-none : (s : Text) → find_newline s ≡ none → lines_of s ≡ ([], s)
find_newline-none [] e = refl
find_newline-none (c ∷ s) e = elim (Bool-cases (c == 10)) [
  | inl on ↦ absurd (ground (arith, e, on))
  | inr off ↦ elim (Option-cases (find_newline s)) [
    | inl gone ↦ rw (off, find_newline-none s gone) refl
    | inr ((l, r), found) ↦ absurd (ground (arith, e, off, found))
  ]
]

abbrev Splits : Text → Text → Text → Type 0
Splits s line rest =
    (lines_of s ≡ (line ∷ (lines_of rest).0, (lines_of rest).1))
    × (has_hash s ≡ has_hash line)
    × (length rest < length s)

Splits-some :
    (s l r line rest : Text)
    → ◌≡◌ {A = Option (Text × Text)} (some (l, r)) (some (line, rest))
    → Splits s l r
    → Splits s line rest
Splits-some s l r line rest e h =
    let p : l ≡ line = ground (arith, e) in
    let q : r ≡ rest = ground (arith, e) in
    subst (λ x. Splits s line x) q (subst (λ x. Splits s x r) p h)

find_newline-some : (s line rest : Text) → find_newline s ≡ some (line, rest) → Splits s line rest
find_newline-some [] line rest e = absurd (ground (arith, e))
find_newline-some (c ∷ s) line rest e = elim (Bool-cases (c == 10)) [
  | inl on ↦
      Splits-some (c ∷ s) [] s line rest (ground (arith, e, on))
        (rw on refl, ground (arith, on), omega arith)
  | inr off ↦ elim (Option-cases (find_newline s)) [
    | inl gone ↦ absurd (ground (arith, e, off, gone))
    | inr (p, found) ↦
        let (li, h, lt) = find_newline-some s p.0 p.1 found in
        Splits-some (c ∷ s) (c ∷ p.0) p.1 line rest (ground (arith, e, off, found))
          (rw (off, li) refl, refl, omega (arith, lt))
  ]
]

-- The loop has not gone past the limit.
abbrev Below : ℕ → ℕ → Type 0
Below zero n = Unit
Below (suc m) n = n ≤ suc m

take-nil : (k : ℕ) → take {A = Text} k [] ≡ []
take-nil zero = refl
take-nil (suc k) = refl

limited-nil : (m n : ℕ) → limited m n [] ≡ []
limited-nil zero n = refl
limited-nil (suc m) n = take-nil (m + 2 - n)

limited-one : (m n : ℕ) (l : Text) → Below m n → limited m n (l ∷ []) ≡ l ∷ []
limited-one zero n l b = refl
limited-one (suc m) n l b =
    let h : m + 2 - n ≡ suc (m + 1 - n) = omega (arith, b) in
    rw h (ap (λ x. l ∷ x) (take-nil (m + 1 - n)))

limited-stop :
    (m n : ℕ) (l : Text) (ls : List Text)
    → Below m n
    → ltb 0 m && ltb m (n + 1) ≡ true
    → limited m n (l ∷ ls) ≡ l ∷ []
limited-stop zero n l ls b e = absurd (ground (arith, e))
limited-stop (suc m) n l ls b e = let h : m + 2 - n ≡ 1 = ground (arith, b, e) in rw h refl

limited-go :
    (m n : ℕ) (l : Text) (ls : List Text)
    → Below m n
    → ltb 0 m && ltb m (n + 1) ≡ false
    → (limited m n (l ∷ ls) ≡ l ∷ limited m (n + 1) ls) × Below m (n + 1)
limited-go zero n l ls b e = (refl, tt)
limited-go (suc m) n l ls b e =
    let h : m + 2 - n ≡ suc (m + 2 - (n + 1)) = ground (arith, b, e) in
    (rw h refl, ground (arith, b, e))

abbrev Loops : ℕ → NewlineParser → Text → ℕ → List Text → Type 0
Loops fuel p s n set =
    lines_loop fuel p s n set
    ≡ some (add_lines (limited p.max_lines n (kept_lines p (lines_of s).0 (lines_of s).1)) set)

last_line-kept :
    (p : NewlineParser) (c : ℕ) (s : Text) (n : ℕ) (set : List Text)
    → Below p.max_lines n
    → last_line p (c ∷ s) set ≡ add_lines (limited p.max_lines n (kept_last p (c ∷ s))) set
last_line-kept p c s n set b = elim (Bool-cases (p.comments && has_hash (c ∷ s))) [
  | inl on ↦ rw (on, limited-nil p.max_lines n) refl
  | inr off ↦ rw (off, limited-one p.max_lines n (c ∷ s) b) refl
]

abbrev go_on : ℕ → NewlineParser → Round → Option (List Text)
go_on fuel p r = elim r [
  | stopped set ↦ some set
  | next_line rest n set ↦ lines_loop fuel p rest n set
]

-- The round of a line that a newline ends.
whole_line-Loops :
    (fuel : ℕ) (p : NewlineParser) (s line rest : Text) (n : ℕ) (set : List Text)
    → Below p.max_lines n
    → has_hash s ≡ has_hash line
    → ((n' : ℕ) (set' : List Text) → Below p.max_lines n' → Loops fuel p rest n' set')
    → go_on fuel p (whole_line p s line rest n set)
      ≡ some (
          add_lines
            (limited p.max_lines n (kept_lines p (line ∷ (lines_of rest).0) (lines_of rest).1))
            set)
whole_line-Loops fuel p s line rest n set b h next =
    elim (Bool-cases ((p.comments && has_hash line) || leb (length line) 1)) [
      | inl skip ↦
          let k : keeps p line ≡ false = ground (arith, skip) in rw (h, skip, k) (next n set b)
      | inr keep ↦
          let k : keeps p line ≡ true = ground (arith, keep) in
          let ls = kept_lines p (lines_of rest).0 (lines_of rest).1 in
          elim (Bool-cases (ltb 0 p.max_lines && ltb p.max_lines (n + 1))) [
            | inl stop ↦ rw (h, keep, k, stop, limited-stop p.max_lines n line ls b stop) refl
            | inr more ↦
                let (same, b') = limited-go p.max_lines n line ls b more in
                rw (h, keep, k, more, same) (next (n + 1) (add_line line set) b')
          ]
    ]

abbrev outcome : NewlineParser → ℕ → List Text → List Text × Text → Option (List Text)
outcome p n set (ls, last) = some (add_lines (limited p.max_lines n (kept_lines p ls last)) set)

loop-Loops :
    (fuel : ℕ) (p : NewlineParser) (s : Text) (n : ℕ) (set : List Text)
    → Below p.max_lines n
    → length s < fuel
    → Loops fuel p s n set
loop-Loops zero p s n set b enough = absurd (omega (arith, enough))
loop-Loops (suc fuel) p [] n set b enough = rw (limited-nil p.max_lines n) refl
loop-Loops (suc fuel) p (c ∷ s) n set b enough = elim (Option-cases (find_newline (c ∷ s))) [
  | inl gone ↦
      ap (λ o. go_on fuel p (loop_round p (c ∷ s) o n set)) gone
      ∙ ap some (last_line-kept p c s n set b)
      ∙ ap (outcome p n set) (sym (find_newline-none (c ∷ s) gone))
  | inr (q, found) ↦
      let (li, h, lt) = find_newline-some (c ∷ s) q.0 q.1 found in
      ap (λ o. go_on fuel p (loop_round p (c ∷ s) o n set)) found
      ∙ whole_line-Loops fuel p (c ∷ s) q.0 q.1 n set b h
          (λ n' set' b'. loop-Loops fuel p q.1 n' set' b' (omega (arith, lt, enough)))
      ∙ ap (outcome p n set) (sym li)
]

-- The fuel is enough, and the set holds the lines of the text, each once, in their order: those of
-- two bytes at least that a newline ends, and the last one if it is not ended, without the comments
-- if these are skipped; with a limit, only the first of these, one more than the limit says.
pub process_bytes-lines :
    (p : NewlineParser) (bytes : List ℕ)
    → process_bytes p bytes
      ≡ some (
          add_lines
            (limited p.max_lines 0
              (kept_lines p (lines_of (contents_of bytes)).0 (lines_of (contents_of bytes)).1))
            [])
unfolding process_bytes
process_bytes-lines p bytes =
    let s = contents_of bytes in
    loop-Loops (length s + 1) p s 0 [] (start-Below p.max_lines) (omega arith)
  where
    start-Below : (m : ℕ) → Below m 0
    start-Below zero = tt
    start-Below (suc m) = omega arith
