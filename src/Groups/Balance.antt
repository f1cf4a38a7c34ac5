-- ===== src/Groups/Balance.antt =====
-- src/bz-entry-group.c: each change of a word keeps its counter in step.
use spacedbazaar.Common.{
  ℕ, suc, ◌+◌, Bool, true, false, ◌≡◌, refl, inl, inr, arith, pos, inc, dec, Bool-cases,
}
use spacedbazaar.Groups.Notify.{
  Tally, drop_installable, put_installable, drop_removable, put_removable,
  drop_installable_available, put_installable_available, drop_removable_available,
  put_removable_available, when_set,
}
use spacedbazaar.Groups.Counts.{Rest, Counts, plus, NeverUpdatable}

pub dec_suc : (n : ℕ) → dec (pos (n + 1)) ≡ pos n
unfolding dec
dec_suc n = let e : n + 1 ≡ suc n = omega arith in rw e refl

pub inc_pos : (n : ℕ) → inc (pos n) ≡ pos (n + 1)
unfolding inc
inc_pos n = let e : n + 1 ≡ suc n = omega arith in rw e refl

abbrev pub Balanced : Rest → Tally → Type 0
Balanced r (c, f) = Counts c (plus r f) × NeverUpdatable f

pub drop_installable-Balanced :
    (r : Rest) (t : Tally) → Balanced r t → Balanced r (drop_installable t)
unfolding drop_installable
drop_installable-Balanced r (c, f) h = elim (Bool-cases f.installable) [
  | inl on ↦ ground (arith, on, dec_suc r.r_installable)
  | inr off ↦ ground (arith, off)
]

pub put_installable-Balanced :
    (r : Rest) (t : Tally) → Balanced r t → Balanced r (put_installable t)
unfolding put_installable
put_installable-Balanced r (c, f) h = elim (Bool-cases f.installable) [
  | inl on ↦ ground (arith, on)
  | inr off ↦ ground (arith, off, inc_pos r.r_installable, inc_pos (r.r_installable + 0))
]

pub drop_installable_available-Balanced :
    (r : Rest) (t : Tally) → Balanced r t → Balanced r (drop_installable_available t)
unfolding drop_installable_available
drop_installable_available-Balanced r (c, f) h = elim (Bool-cases f.installable_available) [
  | inl on ↦ ground (arith, on, dec_suc r.r_installable_available)
  | inr off ↦ ground (arith, off)
]

pub put_installable_available-Balanced :
    (r : Rest) (t : Tally) → Balanced r t → Balanced r (put_installable_available t)
unfolding put_installable_available
put_installable_available-Balanced r (c, f) h = elim (Bool-cases f.installable_available) [
  | inl on ↦ ground (arith, on)
  | inr off ↦
      ground
        (arith, off, inc_pos r.r_installable_available, inc_pos (r.r_installable_available + 0))
]

pub drop_removable-Balanced : (r : Rest) (t : Tally) → Balanced r t → Balanced r (drop_removable t)
unfolding drop_removable
drop_removable-Balanced r (c, f) h = elim (Bool-cases f.removable) [
  | inl on ↦ ground (arith, on, dec_suc r.r_removable)
  | inr off ↦ ground (arith, off)
]

pub put_removable-Balanced : (r : Rest) (t : Tally) → Balanced r t → Balanced r (put_removable t)
unfolding put_removable
put_removable-Balanced r (c, f) h = elim (Bool-cases f.removable) [
  | inl on ↦ ground (arith, on)
  | inr off ↦ ground (arith, off, inc_pos r.r_removable, inc_pos (r.r_removable + 0))
]

pub drop_removable_available-Balanced :
    (r : Rest) (t : Tally) → Balanced r t → Balanced r (drop_removable_available t)
unfolding drop_removable_available
drop_removable_available-Balanced r (c, f) h = elim (Bool-cases f.removable_available) [
  | inl on ↦ ground (arith, on, dec_suc r.r_removable_available)
  | inr off ↦ ground (arith, off)
]

pub put_removable_available-Balanced :
    (r : Rest) (t : Tally) → Balanced r t → Balanced r (put_removable_available t)
unfolding put_removable_available
put_removable_available-Balanced r (c, f) h = elim (Bool-cases f.removable_available) [
  | inl on ↦ ground (arith, on)
  | inr off ↦
      ground (arith, off, inc_pos r.r_removable_available, inc_pos (r.r_removable_available + 0))
]

pub when_set-Balanced :
    (b : Bool) (step : Tally → Tally)
    → ((r : Rest) (t : Tally) → Balanced r t → Balanced r (step t))
    → (r : Rest) (t : Tally) → Balanced r t
    → Balanced r (when_set b step t)
when_set-Balanced true step keeps r t h = keeps r t h
when_set-Balanced false step keeps r t h = h
