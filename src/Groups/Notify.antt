-- ===== src/Groups/Notify.antt =====
-- src/bz-entry-group.c: installed_changed and holding_changed, the handlers of an entry's changes.
use spacedbazaar.Common.{
  ℕ, Bool, true, false, Option, none, some, inc, dec, if◌then◌else◌, get_elem?,
}
use spacedbazaar.Groups.State.{StateFlags, Counters, EntryGroup, find_string, set, or_empty}
use spacedbazaar.Groups.Usefulness.{BzEntry}

-- The counters and the word of the entry that changed.
abbrev pub Tally : Type 0
Tally = Counters × StateFlags

-- `if (state_flags & X) { self->x--; state_flags &= ~X; }`, and its opposite.
unfoldable pub drop_installable : Tally → Tally
drop_installable (c, f) =
    if f.installable
    then (record c { n_installable = dec c.n_installable }, record f { installable = false })
    else (c, f)

unfoldable pub put_installable : Tally → Tally
put_installable (c, f) =
    if f.installable
    then (c, f)
    else (record c { n_installable = inc c.n_installable }, record f { installable = true })

unfoldable pub drop_removable : Tally → Tally
drop_removable (c, f) =
    if f.removable
    then (record c { n_removable = dec c.n_removable }, record f { removable = false })
    else (c, f)

unfoldable pub put_removable : Tally → Tally
put_removable (c, f) =
    if f.removable
    then (c, f)
    else (record c { n_removable = inc c.n_removable }, record f { removable = true })

unfoldable pub drop_installable_available : Tally → Tally
drop_installable_available (c, f) =
    if f.installable_available
    then (
      record c { n_installable_available = dec c.n_installable_available },
      record f { installable_available = false },
    )
    else (c, f)

unfoldable pub put_installable_available : Tally → Tally
put_installable_available (c, f) = if f.installable_available then (c, f) else (
  record c { n_installable_available = inc c.n_installable_available },
  record f { installable_available = true },
)

unfoldable pub drop_removable_available : Tally → Tally
drop_removable_available (c, f) =
    if f.removable_available
    then (
      record c { n_removable_available = dec c.n_removable_available },
      record f { removable_available = false },
    )
    else (c, f)

unfoldable pub put_removable_available : Tally → Tally
put_removable_available (c, f) = if f.removable_available then (c, f) else (
  record c { n_removable_available = inc c.n_removable_available },
  record f { removable_available = true },
)

abbrev pub when_set : Bool → (Tally → Tally) → Tally → Tally
when_set b step t = if b then step t else t

unfoldable pub tally_installed : BzEntry → Tally → Tally
tally_installed e t =
    if e.is_installed
    then (let t₁ = put_removable (drop_installable t) in
        if e.is_holding then t₁ else put_removable_available (drop_installable_available t₁))
    else (let t₁ = when_set e.is_reinstallable put_installable (drop_removable t) in
        if e.is_holding
        then t₁
        else when_set e.is_reinstallable put_installable_available (drop_removable_available t₁))

unfoldable pub tally_holding : BzEntry → Tally → Tally
tally_holding e t =
    if e.is_holding
    then (if e.is_installed then drop_removable_available t else drop_installable_available t)
    else if e.is_installed
    then put_removable_available t
    else when_set e.is_reinstallable put_installable_available t

-- The write of the word back; `none` is an access out of the array's bounds.
unfoldable pub retally : (Tally → Tally) → EntryGroup → ℕ → Option EntryGroup
retally step g i = elim (get_elem? g.state_flags i) [
  | none ↦ none
  | some f ↦
      let (c, f') = step (g.counters, f) in
      some (record g { counters = c; state_flags = set g.state_flags i f' })
]

abbrev pub forget_sizes : EntryGroup → EntryGroup
forget_sizes g = record g { user_data_size = 0; cache_size = 0 }

abbrev pub forget : Option EntryGroup → Option EntryGroup
forget none = none
forget (some g) = some (forget_sizes g)

abbrev pub installed_at : EntryGroup → BzEntry → Option ℕ → Option EntryGroup
installed_at g e none = some g
installed_at g e (some i) = forget (
    retally (tally_installed e)
      (record g { installed_versions = set g.installed_versions i (or_empty e.installed_version) })
      i)

unfoldable pub installed_changed : EntryGroup → BzEntry → Option EntryGroup
installed_changed g e = installed_at g e (find_string e.unique_id g.unique_ids)

abbrev pub holding_at : EntryGroup → BzEntry → Option ℕ → Option EntryGroup
holding_at g e none = some g
holding_at g e (some i) = retally (tally_holding e) g i

unfoldable pub holding_changed : EntryGroup → BzEntry → Option EntryGroup
holding_changed g e = holding_at g e (find_string e.unique_id g.unique_ids)
