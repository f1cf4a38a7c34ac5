-- ===== src/Groups/Tallies.antt =====
-- src/bz-entry-group.c: the counters keep in step with the words through a whole change.
use spacedbazaar.Common.{ℕ, ◌+◌, Bool, true, false, ◌≡◌, inl, inr, arith, ℤ, pos, Bool-cases}
use spacedbazaar.Groups.State.{StateFlags, Counters}
use spacedbazaar.Groups.Usefulness.{BzEntry}
use spacedbazaar.Groups.Add.{dec_if, revert, count_entry}
use spacedbazaar.Groups.Notify.{
  Tally, drop_installable, put_installable, drop_removable, put_removable,
  drop_installable_available, put_installable_available, drop_removable_available, when_set,
  tally_installed, tally_holding,
}
use spacedbazaar.Groups.Counts.{one_if, Rest, Counts}
use spacedbazaar.Groups.Balance.{
  Balanced, dec_suc, inc_pos, drop_installable-Balanced, put_installable-Balanced,
  drop_removable-Balanced, put_removable-Balanced, drop_installable_available-Balanced,
  put_installable_available-Balanced, drop_removable_available-Balanced,
  put_removable_available-Balanced, when_set-Balanced,
}

pub tally_holding-Balanced :
    (e : BzEntry) (r : Rest) (t : Tally) → Balanced r t → Balanced r (tally_holding e t)
unfolding tally_holding
tally_holding-Balanced e r t h = elim (Bool-cases e.is_holding) [
  | inl hold ↦ elim (Bool-cases e.is_installed) [
    | inl on ↦ rw (hold, on) (drop_removable_available-Balanced r t h)
    | inr off ↦ rw (hold, off) (drop_installable_available-Balanced r t h)
  ]
  | inr free ↦ elim (Bool-cases e.is_installed) [
    | inl on ↦ rw (free, on) (put_removable_available-Balanced r t h)
    | inr off ↦
        rw (free, off)
          (when_set-Balanced e.is_reinstallable put_installable_available
            put_installable_available-Balanced r t h)
  ]
]

installing-Balanced :
    (r : Rest) (t : Tally) → Balanced r t → Balanced r (put_removable (drop_installable t))
installing-Balanced r t h =
    put_removable-Balanced r (drop_installable t) (drop_installable-Balanced r t h)

removing-Balanced :
    (e : BzEntry) (r : Rest) (t : Tally)
    → Balanced r t
    → Balanced r (when_set e.is_reinstallable put_installable (drop_removable t))
removing-Balanced e r t h =
    when_set-Balanced e.is_reinstallable put_installable put_installable-Balanced r
      (drop_removable t) (drop_removable-Balanced r t h)

pub tally_installed-Balanced :
    (e : BzEntry) (r : Rest) (t : Tally) → Balanced r t → Balanced r (tally_installed e t)
unfolding tally_installed
tally_installed-Balanced e r t h = elim (Bool-cases e.is_installed) [
  | inl on ↦
      let t₁ = put_removable (drop_installable t) in
      let h₁ = installing-Balanced r t h in
      elim (Bool-cases e.is_holding) [
        | inl hold ↦ rw (on, hold) h₁
        | inr free ↦
            rw (on, free)
              (put_removable_available-Balanced r (drop_installable_available t₁)
                (drop_installable_available-Balanced r t₁ h₁))
      ]
  | inr off ↦
      let t₁ = when_set e.is_reinstallable put_installable (drop_removable t) in
      let h₁ = removing-Balanced e r t h in
      elim (Bool-cases e.is_holding) [
        | inl hold ↦ rw (off, hold) h₁
        | inr free ↦
            rw (off, free)
              (when_set-Balanced e.is_reinstallable put_installable_available
                put_installable_available-Balanced r (drop_removable_available t₁)
                (drop_removable_available-Balanced r t₁ h₁))
      ]
]

dec_if-pos : (b : Bool) (r : ℕ) (n : ℤ) → n ≡ pos (r + one_if b) → dec_if b n ≡ pos r
dec_if-pos true r n e = rw e (dec_suc r)
dec_if-pos false r n e = ground (arith, e)

-- Taking the word's share out of the counters.
pub revert-Counts :
    (r : Rest) (c : Counters) (f : StateFlags) → Balanced r (c, f) → Counts (revert f c) r
unfolding revert
revert-Counts r c f ((a, b, d, e, u, v), (never, never')) = (
  dec_if-pos f.installable r.r_installable c.n_installable a,
  dec_if-pos f.installable_available r.r_installable_available c.n_installable_available b,
  dec_if-pos f.removable r.r_removable c.n_removable d,
  dec_if-pos f.removable_available r.r_removable_available c.n_removable_available e,
  dec_if-pos f.updatable 0 c.n_updatable (rw never u),
  dec_if-pos f.updatable_available 0 c.n_updatable_available (rw never' v),
)

pub count_entry-Balanced :
    (e : BzEntry) (r : Rest) (c : Counters) → Counts c r → Balanced r (count_entry e c)
unfolding count_entry
count_entry-Balanced e r c h =
    let i₁ = inc_pos r.r_installable in
    let i₂ = inc_pos r.r_installable_available in
    let i₃ = inc_pos r.r_removable in
    let i₄ = inc_pos r.r_removable_available in
    elim (Bool-cases e.is_holding) [
      | inl b ↦ elim (Bool-cases e.is_installed) [
        | inl a ↦ rw (a, b) (ground (arith, i₃))
        | inr a ↦ elim (Bool-cases e.is_reinstallable) [
          | inl d ↦ rw (a, b, d) (ground (arith, i₁))
          | inr d ↦ rw (a, d) (ground arith)
        ]
      ]
      | inr b ↦ elim (Bool-cases e.is_installed) [
        | inl a ↦ rw (a, b) (ground (arith, i₃, i₄))
        | inr a ↦ elim (Bool-cases e.is_reinstallable) [
          | inl d ↦ rw (a, b, d) (ground (arith, i₁, i₂))
          | inr d ↦ rw (a, d) (ground arith)
        ]
      ]
    ]
