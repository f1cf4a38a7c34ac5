-- ===== src/Index/Query.antt =====
-- src/search-index.c: search_index_query.
use mathlib.Core.List.{Perm, append_assoc, append-nil}
use spacedbazaar.Common.{
  ℕ, zero, suc, ◌+◌, ◌-◌, ◌*◌, ◌%◌, ◌<◌, ◌≤◌, ◌≡◌, ◌≢◌, refl, sym, ap, ◌∙◌, ◌&&◌, List, [], ◌∷◌,
  ◌++◌, Option, none, some, Text, All, if◌then◌else◌, length, take, ltb, arith, Bool-cases, inl,
  inr, ltb→lt, min, length-append,
}
use spacedbazaar.Index.Read.{Entry, Index}
use spacedbazaar.Index.Score.{Scoring, score_entry, IsFound, score_terms-IsFound}

pub data Sign : Type 0 where
  before same after : Sign

abbrev pub size_mod : ℕ
size_mod = 18_446_744_073_709_551_616

module _ (c : Scoring) where
  open c use {Double, zero_score, exceeds}

  abbrev pub Match : Type 0
  Match = Entry × Double

  unfoldable pub cmp_matches : Match → Match → Sign
  cmp_matches a b = if exceeds b.1 a.1 then after else if exceeds a.1 b.1 then before else same

  -- No neighbour is to be swapped.
  abbrev pub IsRanked : List Match → Type 0
  IsRanked [] = Unit
  IsRanked (a ∷ []) = Unit
  IsRanked (a ∷ b ∷ ms) = (cmp_matches a b ≢ after) × IsRanked (b ∷ ms)

  -- qsort by cmp_matches, which permutes the array into order.
  pub record Sort : Type 0 where
    pub qsort : List Match → List Match
    pub qsort-perm : (ms : List Match) → Perm (qsort ms) ms
    pub qsort-IsRanked : (ms : List Match) → IsRanked (qsort ms)

  -- The loop over the entries: `n_matches`, and `out` as far as it is filled.
  unfoldable pub scan : ℕ → List (Option Text) → List Entry → ℕ → List Match → ℕ × List Match
  scan max_results terms [] n out = (n, out)
  scan max_results terms (e ∷ es) n out =
      let limit = max_results * 8 % size_mod in
      let score = score_entry c e terms in
      let hit = exceeds score zero_score && ltb n limit in
      let rest =
        scan max_results terms es (if hit then n + 1 else n)
          (if hit && ltb n max_results then out ++ (e, score) ∷ [] else out) in
      if ltb n limit then rest else (n, out)

  -- The matches at the front of `out`; their number is what the function returns.
  unfoldable pub search_index_query : Sort → Option Index → List (Option Text) → ℕ → List Match
  search_index_query s none terms max_results = []
  search_index_query s (some idx) [] max_results = []
  search_index_query s (some idx) (t ∷ terms) max_results =
      let (n, out) = scan max_results (t ∷ terms) idx.entries 0 [] in
      s.qsort (take (if ltb max_results n then max_results else n) out)

  -- Every entry with a positive score, in the order of the index.
  abbrev pub hits : List (Option Text) → List Entry → List Match
  hits terms [] = []
  hits terms (e ∷ es) =
      let rest = hits terms es in
      if exceeds (score_entry c e terms) zero_score then (e, score_entry c e terms) ∷ rest else rest

  take_zero : (k : ℕ) (ms : List Match) → k ≡ 0 → take k ms ≡ []
  take_zero zero ms e = refl
  take_zero (suc k) ms e = absurd (omega arith)

  take_pos : (k : ℕ) (m : Match) (ms : List Match) → 0 < k → take k (m ∷ ms) ≡ m ∷ take (k - 1) ms
  take_pos zero m ms h = absurd (omega arith)
  take_pos (suc k) m ms h = let e : k ≡ suc k - 1 = omega arith in rw (← e)

  -- What the loop hands back, against the matches that are left.
  abbrev Scans : ℕ → List Match → ℕ → List Match → ℕ × List Match → Type 0
  Scans m hs n out r = (r.1 ≡ out ++ take (m - n) hs) × (length r.1 ≡ min r.0 m)

  Scans-full :
      (m : ℕ) (hs hs' : List Match) (n n' : ℕ) (out : List Match) (r : ℕ × List Match)
      → m ≤ n
      → m ≤ n'
      → Scans m hs n out r
      → Scans m hs' n' out r
  Scans-full m hs hs' n n' out r h h' (filled, len) = (
    filled
        ∙ ap (◌++◌ out)
            (take_zero (m - n) hs (omega arith) ∙ sym (take_zero (m - n') hs' (omega arith))),
    len,
  )

  Scans-hit :
      (m : ℕ) (hs : List Match) (n : ℕ) (out : List Match) (x : Match) (r : ℕ × List Match)
      → n < m
      → Scans m hs (n + 1) (out ++ x ∷ []) r
      → Scans m (x ∷ hs) n out r
  Scans-hit m hs n out x r h (filled, len) =
      let k : m - (n + 1) ≡ m - n - 1 = omega arith in
      (
        filled
            ∙ append_assoc out (x ∷ []) (take (m - (n + 1)) hs)
            ∙ ap (λ j. out ++ x ∷ take j hs) k
            ∙ ap (◌++◌ out) (sym (take_pos (m - n) x hs (omega arith))),
        len,
      )

  scan_lem :
      (max_results : ℕ) (terms : List (Option Text)) (es : List Entry) (n : ℕ) (out : List Match)
      → max_results * 8 < size_mod
      → length out ≡ min n max_results
      → Scans max_results (hits terms es) n out (scan max_results terms es n out)
  unfolding scan
  scan_lem m terms [] n out small len = (nothing (m - n), len)
    where
      nothing : (k : ℕ) → out ≡ out ++ take k []
      nothing zero = sym (append-nil out)
      nothing (suc k) = sym (append-nil out)
  scan_lem m terms (e ∷ es) n out small len =
      let limit : m * 8 % size_mod ≡ m * 8 = omega arith in
      rw limit (elim (Bool-cases (ltb n (m * 8))) [
        | inl more ↦ elim (Bool-cases (exceeds (score_entry c e terms) zero_score)) [
          | inl hit ↦ elim (Bool-cases (ltb n m)) [
            | inl room ↦
                rw (more, hit, room)
                  (Scans-hit m (hits terms es) n out _ _ (ltb→lt n m room) (
                    scan_lem m terms es (n + 1) (out ++ (e, score_entry c e terms) ∷ []) small (
                      omega (
                        arith,
                        length-append out ((e, score_entry c e terms) ∷ []),
                        ltb→lt n m room,
                        len,
                      ))))
            | inr full ↦
                rw (more, hit, full)
                  (Scans-full m (hits terms es) _ (n + 1) n out _ (ground arith) (ground arith)
                    (scan_lem m terms es (n + 1) out small (ground arith)))
          ]
          | inr miss ↦ rw (more, miss) (scan_lem m terms es n out small len)
        ]
        | inr stopped ↦ rw stopped (
            Scans-full m [] _ n n out (n, out) (ground arith) (ground arith)
              (
                sym (append-nil out) ∙ ap (◌++◌ out) (sym (take_zero (m - n) [] (ground arith))),
                len,
              ))
      ])

  take_exact : (k : ℕ) (ms : List Match) → k ≡ length ms → take k ms ≡ ms
  take_exact zero [] e = refl
  take_exact zero (m ∷ ms) e = absurd (omega arith)
  take_exact (suc k) [] e = absurd (omega arith)
  take_exact (suc k) (m ∷ ms) e = ap (◌∷◌ m) (take_exact k ms (omega arith))

  -- A query with at least one term gives the first `max_results` entries, in the order of the index,
  -- whose score is positive, then ranked by qsort: an entry behind them is left out whatever its
  -- score. The limit on the matches that are counted must not wrap.
  pub search_index_query-hits :
      (s : Sort) (idx : Index) (t : Option Text) (terms : List (Option Text)) (max_results : ℕ)
      → max_results * 8 < size_mod
      → search_index_query s (some idx) (t ∷ terms) max_results
        ≡ s.qsort (take max_results (hits (t ∷ terms) idx.entries))
  unfolding search_index_query
  search_index_query-hits s idx t terms m small =
      let (filled, len) = scan_lem m (t ∷ terms) idx.entries 0 [] small (omega arith) in
      let n : ℕ = (scan m (t ∷ terms) idx.entries 0 []).0 in
      let all : (if ltb m n then m else n) ≡ length (scan m (t ∷ terms) idx.entries 0 []).1 =
        ground (arith, len) in
      let k : m - 0 ≡ m = omega arith in
      ap s.qsort (
        take_exact (if ltb m n then m else n) _ all
        ∙ filled
        ∙ ap (λ j. take j (hits (t ∷ terms) idx.entries)) k)

  -- Every entry that a query ranks has each of the terms in its title, developer, description or
  -- search tokens.
  pub hits-IsFound :
      (terms : List (Option Text)) (es : List Entry)
      → All (λ m. All (IsFound c m.0) terms) (hits terms es)
  hits-IsFound terms [] = tt
  hits-IsFound terms (e ∷ es) = elim (Bool-cases (exceeds (score_entry c e terms) zero_score)) [
    | inl hit ↦ rw hit (
      score_terms-IsFound c e zero_score terms (unfold score_entry in hit),
      hits-IsFound terms es,
    )
    | inr miss ↦ rw miss (hits-IsFound terms es)
  ]
