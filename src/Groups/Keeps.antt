-- ===== src/Groups/Keeps.antt =====
-- src/bz-entry-group.c: lists of words that change at one place, and what counts them.
use spacedbazaar.Common.{
  ℕ, zero, suc, ◌<◌, List, [], ◌∷◌, ◌++◌, some, Text, text_eq, ◌≡◌, sym, subst, ap, ◌∙◌, pos, inl,
  inr, arith, length, get_elem?, Option-cases, Bool-cases,
}
use spacedbazaar.Groups.State.{StateFlags, Counters, find_string, remove_at, set}
use spacedbazaar.Groups.Counts.{
  total-remove_at, total-set, Counts, totals, NeverUpdatable, AllNever,
}
use spacedbazaar.Groups.Balance.{Balanced}

AllNever-get_elem? :
    (fs : List StateFlags) (i : ℕ) (f : StateFlags)
    → AllNever fs
    → get_elem? fs i ≡ some f
    → NeverUpdatable f
AllNever-get_elem? [] i f all e = absurd (ground (arith, e))
AllNever-get_elem? (x ∷ fs) zero f (n, all) e =
    let x≡f : x ≡ f = ground (arith, e) in subst NeverUpdatable x≡f n
AllNever-get_elem? (x ∷ fs) (suc i) f (n, all) e = AllNever-get_elem? fs i f all e

pub AllNever-set :
    (fs : List StateFlags) (i : ℕ) (f : StateFlags)
    → AllNever fs
    → NeverUpdatable f
    → AllNever (set fs i f)
AllNever-set [] i f all n = all
AllNever-set (x ∷ fs) zero f (m, all) n = (n, all)
AllNever-set (x ∷ fs) (suc i) f (m, all) n = (m, AllNever-set fs i f all n)

pub AllNever-append :
    (fs : List StateFlags) (f : StateFlags)
    → AllNever fs
    → NeverUpdatable f
    → AllNever (fs ++ f ∷ [])
AllNever-append [] f all n = (n, all)
AllNever-append (x ∷ fs) f (m, all) n = (m, AllNever-append fs f all n)

-- A word that is in the list, against the others.
pub Counts-Balanced :
    (fs : List StateFlags) (i : ℕ) (f : StateFlags) (c : Counters)
    → AllNever fs
    → get_elem? fs i ≡ some f
    → Counts c (totals fs)
    → Balanced (totals (remove_at fs i)) (c, f)
Counts-Balanced fs i f c all e (p, q, r, s, u, v) = (
  (
    p ∙ ap pos (total-remove_at (λ f. f.installable) fs i f e),
    q ∙ ap pos (total-remove_at (λ f. f.installable_available) fs i f e),
    r ∙ ap pos (total-remove_at (λ f. f.removable) fs i f e),
    s ∙ ap pos (total-remove_at (λ f. f.removable_available) fs i f e),
    u,
    v,
  ),
  AllNever-get_elem? fs i f all e,
)

-- And a word put in its place.
pub Balanced-Counts :
    (fs : List StateFlags) (i : ℕ) (f f' : StateFlags) (c : Counters)
    → get_elem? fs i ≡ some f
    → Balanced (totals (remove_at fs i)) (c, f')
    → Counts c (totals (set fs i f'))
Balanced-Counts fs i f f' c e ((p, q, r, s, u, v), n) = (
  p ∙ ap pos (sym (total-set (λ f. f.installable) fs i f f' e)),
  q ∙ ap pos (sym (total-set (λ f. f.installable_available) fs i f f' e)),
  r ∙ ap pos (sym (total-set (λ f. f.removable) fs i f f' e)),
  s ∙ ap pos (sym (total-set (λ f. f.removable_available) fs i f f' e)),
  u,
  v,
)

pub find_string-below :
    (s : Text) (ts : List Text) (i : ℕ) → find_string s ts ≡ some i → i < length ts
unfolding find_string
find_string-below s [] i e = absurd (ground (arith, e))
find_string-below s (t ∷ ts) i e = elim (Bool-cases (text_eq t s)) [
  | inl h ↦ ground (arith, h, e)
  | inr h ↦ elim (Option-cases (find_string s ts)) [
    | inl o ↦ ground (arith, h, o, e)
    | inr (j, o) ↦ ground (arith, h, o, e, find_string-below s ts j o)
  ]
]
