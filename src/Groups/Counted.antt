-- ===== src/Groups/Counted.antt =====
-- src/bz-entry-group.c: bz_entry_group_add, installed_changed and holding_changed on a group whose
-- counters count its words.
use spacedbazaar.Common.{
  ℕ, ◌<◌, Option, some, ◌≡◌, refl, ◌∙◌, inl, inr, arith, length, get_elem?, Option-cases,
  get_elem?-below,
}
use spacedbazaar.Groups.State.{StateFlags, EntryGroup, find_string, remove_at, set, or_empty}
use spacedbazaar.Groups.Usefulness.{BzEntry}
use spacedbazaar.Groups.Notify.{
  Tally, tally_installed, tally_holding, retally, forget, forget_sizes, installed_changed,
  holding_changed,
}
use spacedbazaar.Groups.Counts.{length-set, Rest, totals, IsCounted}
use spacedbazaar.Groups.Balance.{Balanced}
use spacedbazaar.Groups.Tallies.{tally_installed-Balanced, tally_holding-Balanced}
use spacedbazaar.Groups.Keeps.{AllNever-set, Counts-Balanced, Balanced-Counts, find_string-below}

-- The code ran, within its bounds, and what it leaves is counted.
abbrev pub Fine : Option EntryGroup → Type 0
Fine o = (g : EntryGroup) × (o ≡ some g) × IsCounted g

pub retally_at :
    (step : Tally → Tally) (g : EntryGroup) (i : ℕ) (f : StateFlags)
    → get_elem? g.state_flags i ≡ some f
    → retally step g i
      ≡ some (record g {
        counters = (step (g.counters, f)).0;
        state_flags = set g.state_flags i (step (g.counters, f)).1;
      })
unfolding retally
retally_at step g i f e = rw (retally, e) refl

tallied :
    (g : EntryGroup) (i : ℕ) (f : StateFlags) (t : Tally)
    → IsCounted g
    → get_elem? g.state_flags i ≡ some f
    → Balanced (totals (remove_at g.state_flags i)) t
    → IsCounted (record g { counters = t.0; state_flags = set g.state_flags i t.1 })
tallied g i f (c, f') ok e b = record {
  words_length = length-set g.state_flags i f' ∙ ok.words_length;
  versions_length = ok.versions_length;
  counted = Balanced-Counts g.state_flags i f f' c e b;
  never = AllNever-set g.state_flags i f' ok.never b.1;
}

retally-Fine :
    (step : Tally → Tally) (g : EntryGroup) (i : ℕ)
    → ((r : Rest) (t : Tally) → Balanced r t → Balanced r (step t))
    → IsCounted g
    → i < length g.unique_ids
    → Fine (retally step g i)
retally-Fine step g i keeps ok below =
    let (f, e) = get_elem?-below g.state_flags i (omega (arith, ok.words_length)) in
    let b =
      keeps (totals (remove_at g.state_flags i)) (g.counters, f)
        (Counts-Balanced g.state_flags i f g.counters ok.never e ok.counted) in
    (_, retally_at step g i f e, tallied g i f (step (g.counters, f)) ok e b)

forget-Fine : (o : Option EntryGroup) → Fine o → Fine (forget o)
forget-Fine o (g, e, ok) = (forget_sizes g, rw e refl, ok)

pub installed_changed-Fine :
    (g : EntryGroup) (e : BzEntry) → IsCounted g → Fine (installed_changed g e)
unfolding installed_changed
installed_changed-Fine g e ok = elim (Option-cases (find_string e.unique_id g.unique_ids)) [
  | inl gone ↦ (g, rw gone refl, ok)
  | inr (i, at) ↦
      let g₁ = record g {
        installed_versions = set g.installed_versions i (or_empty e.installed_version);
      } in
      let ok₁ : IsCounted g₁ = record {
        words_length = ok.words_length;
        versions_length =
            length-set g.installed_versions i (or_empty e.installed_version) ∙ ok.versions_length;
        counted = ok.counted;
        never = ok.never;
      } in
      rw at (
        forget-Fine (retally (tally_installed e) g₁ i) (
          retally-Fine (tally_installed e) g₁ i (tally_installed-Balanced e) ok₁
            (find_string-below e.unique_id g.unique_ids i at)))
]

pub holding_changed-Fine : (g : EntryGroup) (e : BzEntry) → IsCounted g → Fine (holding_changed g e)
unfolding holding_changed
holding_changed-Fine g e ok = elim (Option-cases (find_string e.unique_id g.unique_ids)) [
  | inl gone ↦ (g, rw gone refl, ok)
  | inr (i, at) ↦ rw at (
      retally-Fine (tally_holding e) g i (tally_holding-Balanced e) ok
        (find_string-below e.unique_id g.unique_ids i at))
]
