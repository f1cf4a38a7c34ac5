-- ===== src/Groups/SavedLists.antt =====
-- src/bz-entry-group.c: the arrays that bz_entry_group_serialize writes.
use mathlib.Core.List.{append_assoc}
use spacedbazaar.Common.{
  ℕ, zero, suc, List, [], ◌∷◌, ◌++◌, none, some, Text, ◌≡◌, refl, ap, ◌∙◌, sym, arith, length,
  length-append, get_elem?,
}
use spacedbazaar.Groups.State.{StateFlags, find_string}
use spacedbazaar.Groups.Saved.{state_rows, version_rows}

get_elem-after {ℓ} :
    {A : Type ℓ} (pre : List A) (x : A) (xs : List A) (i : ℕ)
    → i ≡ length pre
    → get_elem? (pre ++ x ∷ xs) i ≡ some x
get_elem-after [] x xs i e = ground (arith, e)
get_elem-after (y ∷ pre) x xs zero e = ground (arith, e)
get_elem-after (y ∷ pre) x xs (suc i) e = get_elem-after pre x xs i (omega (arith, e))

pub version_rows-all :
    (pre vs ids : List Text) (i : ℕ)
    → i ≡ length pre
    → length vs ≡ length ids
    → version_rows (pre ++ vs) ids i ≡ vs
version_rows-all pre [] [] i e h = refl
version_rows-all pre [] (s ∷ ids) i e h = ground (arith, h)
version_rows-all pre (v ∷ vs) [] i e h = ground (arith, h)
version_rows-all pre (v ∷ vs) (s ∷ ids) i e h =
    let next =
      version_rows-all (pre ++ v ∷ []) vs ids (suc i) (omega (arith, e, length-append pre (v ∷ [])))
        (omega (arith, h)) in
    let moved = ap (λ l. version_rows l ids (suc i)) (sym (append_assoc pre (v ∷ []) vs)) ∙ next in
    rw (get_elem-after pre v vs i e, moved)

pub state_rows-all :
    (pre fs : List StateFlags) (ids : List Text) (i : ℕ)
    → i ≡ length pre
    → length fs ≡ length ids
    → state_rows (pre ++ fs) ids i ≡ some fs
state_rows-all pre [] [] i e h = refl
state_rows-all pre [] (s ∷ ids) i e h = ground (arith, h)
state_rows-all pre (f ∷ fs) [] i e h = ground (arith, h)
state_rows-all pre (f ∷ fs) (s ∷ ids) i e h =
    let next =
      state_rows-all (pre ++ f ∷ []) fs ids (suc i) (omega (arith, e, length-append pre (f ∷ [])))
        (omega (arith, h)) in
    let moved = ap (λ l. state_rows l ids (suc i)) (sym (append_assoc pre (f ∷ []) fs)) ∙ next in
    ap
      (λ o. elim o [
        | none ↦ none
        | some f' ↦ elim (state_rows (pre ++ f ∷ fs) ids (suc i)) [
          | none ↦ none
          | some fs' ↦ some (f' ∷ fs')
        ]
      ])
      (get_elem-after pre f fs i e)
    ∙ ap (λ o. elim o [ none ↦ none | some fs' ↦ some (f ∷ fs') ]) moved

-- No string of the second list is in the first or comes before itself.
abbrev pub AreNew : List Text → List Text → Type 0
AreNew pre [] = Unit
AreNew pre (s ∷ ids) = (find_string s pre ≡ none) × AreNew (pre ++ s ∷ []) ids
