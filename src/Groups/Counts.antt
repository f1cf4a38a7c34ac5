-- ===== src/Groups/Counts.antt =====
-- src/bz-entry-group.c: the counters against the words of the entries' states.
use spacedbazaar.Common.{
  ℕ, zero, suc, ◌+◌, ◌<◌, Bool, true, false, List, [], ◌∷◌, ◌++◌, some, ◌≡◌, refl, arith, pos,
  length, get_elem?, Text,
}
use spacedbazaar.Groups.State.{StateFlags, Counters, EntryGroup, remove_at, set}

abbrev pub one_if : Bool → ℕ
one_if true = 1
one_if false = 0

-- How many words have the bit.
abbrev pub total : (StateFlags → Bool) → List StateFlags → ℕ
total p [] = 0
total p (f ∷ fs) = one_if (p f) + total p fs

pub total-append :
    (p : StateFlags → Bool) (fs : List StateFlags) (f : StateFlags)
    → total p (fs ++ f ∷ []) ≡ total p fs + one_if (p f)
total-append p [] f = omega arith
total-append p (x ∷ fs) f = omega (arith, total-append p fs f)

pub total-remove_at :
    (p : StateFlags → Bool) (fs : List StateFlags) (i : ℕ) (f : StateFlags)
    → get_elem? fs i ≡ some f
    → total p fs ≡ total p (remove_at fs i) + one_if (p f)
total-remove_at p [] i f e = absurd (ground (arith, e))
total-remove_at p (x ∷ fs) zero f e = ground (arith, e)
total-remove_at p (x ∷ fs) (suc i) f e = omega (arith, total-remove_at p fs i f e)

pub total-set :
    (p : StateFlags → Bool) (fs : List StateFlags) (i : ℕ) (f g : StateFlags)
    → get_elem? fs i ≡ some f
    → total p (set fs i g) ≡ total p (remove_at fs i) + one_if (p g)
total-set p [] i f g e = absurd (ground (arith, e))
total-set p (x ∷ fs) zero f g e = omega arith
total-set p (x ∷ fs) (suc i) f g e = omega (arith, total-set p fs i f g e)

pub length-set {ℓ} : {A : Type ℓ} (xs : List A) (i : ℕ) (x : A) → length (set xs i x) ≡ length xs
length-set [] i x = refl
length-set (y ∷ xs) zero x = refl
length-set (y ∷ xs) (suc i) x = omega (arith, length-set xs i x)

pub length-remove_at {ℓ} :
    {A : Type ℓ} (xs : List A) (i : ℕ) → i < length xs → length (remove_at xs i) + 1 ≡ length xs
length-remove_at [] i h = absurd (omega arith)
length-remove_at (x ∷ xs) zero h = omega arith
length-remove_at (x ∷ xs) (suc i) h = omega (arith, length-remove_at xs i (omega arith))

-- The counters are the totals plus given numbers.
pub record Rest : Type 0 where
  pub r_installable : ℕ
  pub r_installable_available : ℕ
  pub r_removable : ℕ
  pub r_removable_available : ℕ

-- No word has an `updatable` bit, and those counters stay 0.
abbrev pub Counts : Counters → Rest → Type 0
Counts c r =
    (c.n_installable ≡ pos r.r_installable)
    × (c.n_installable_available ≡ pos r.r_installable_available)
    × (c.n_removable ≡ pos r.r_removable)
    × (c.n_removable_available ≡ pos r.r_removable_available)
    × (c.n_updatable ≡ pos 0)
    × (c.n_updatable_available ≡ pos 0)

abbrev pub totals : List StateFlags → Rest
totals fs = record {
  r_installable = total (λ f. f.installable) fs;
  r_installable_available = total (λ f. f.installable_available) fs;
  r_removable = total (λ f. f.removable) fs;
  r_removable_available = total (λ f. f.removable_available) fs;
}

abbrev pub plus : Rest → StateFlags → Rest
plus r f = record {
  r_installable = r.r_installable + one_if f.installable;
  r_installable_available = r.r_installable_available + one_if f.installable_available;
  r_removable = r.r_removable + one_if f.removable;
  r_removable_available = r.r_removable_available + one_if f.removable_available;
}

abbrev pub NeverUpdatable : StateFlags → Type 0
NeverUpdatable f = (f.updatable ≡ false) × (f.updatable_available ≡ false)

abbrev pub AllNever : List StateFlags → Type 0
AllNever [] = Unit
AllNever (f ∷ fs) = NeverUpdatable f × AllNever fs

-- The lists belong together and the counters count the words.
pub record Books (ids versions : List Text) (words : List StateFlags) (c : Counters) : Type 0 where
  pub words_length : length words ≡ length ids
  pub versions_length : length versions ≡ length ids
  pub counted : Counts c (totals words)
  pub never : AllNever words

abbrev pub IsCounted : EntryGroup → Type 0
IsCounted g = Books g.unique_ids g.installed_versions g.state_flags g.counters
