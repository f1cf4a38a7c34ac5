-- ===== src/Groups/Reconcile.antt =====
-- src/bz-entry-group.c: bz_entry_group_reconcile_with_installed_set. The set is the hash table of
-- the versions that are installed, by unique id.
use spacedbazaar.Common.{
  ℕ, suc, Bool, true, false, ◌||◌, List, [], ◌∷◌, Option, none, some, Text, pos, inc, if◌then◌else◌,
  ltb, length,
}
use spacedbazaar.Groups.State.{StateFlags, no_state, Counters, EntryGroup, set, or_empty}

-- A key with its value, which may be NULL.
abbrev pub InstalledSet : Type 0
InstalledSet = Text → Option (Option Text)

abbrev pub version_of : Option (Option Text) → Option Text
version_of none = none
version_of (some v) = v

-- The counters, the words, the versions and `any_installed` as the loop leaves them.
pub record Scan : Type 0 where
  pub tallies : Counters
  pub words : List StateFlags
  pub versions : List Text
  pub any_installed : Bool

unfoldable pub count_uid : Option (Option Text) → Counters → Counters × StateFlags
count_uid none c = (
  record c {
    n_installable = inc c.n_installable;
    n_installable_available = inc c.n_installable_available;
  },
  record no_state { installable = true; installable_available = true },
)
count_uid (some v) c = (
  record c { n_removable = inc c.n_removable; n_removable_available = inc c.n_removable_available },
  record no_state { removable = true; removable_available = true },
)

abbrev pub is_member : Option (Option Text) → Bool
is_member none = false
is_member (some v) = true

-- `none` is the write to state_flags out of its bounds.
unfoldable pub scan_uid : InstalledSet → Text → ℕ → Scan → Option Scan
scan_uid installed uid i s =
    let (c, f) = count_uid (installed uid) s.tallies in
    if ltb i (length s.words)
    then some (record {
      tallies = c;
      words = set s.words i f;
      versions = set s.versions i (or_empty (version_of (installed uid)));
      any_installed = s.any_installed || is_member (installed uid);
    })
    else none

abbrev pub scan_rest : (Scan → Option Scan) → Option Scan → Option Scan
scan_rest f none = none
scan_rest f (some s) = f s

unfoldable pub scan_uids : InstalledSet → List Text → ℕ → Scan → Option Scan
scan_uids installed [] i s = some s
scan_uids installed (uid ∷ uids) i s =
    scan_rest (scan_uids installed uids (suc i)) (scan_uid installed uid i s)

abbrev pub scanned : EntryGroup → Option Scan → Option (EntryGroup × Bool)
scanned g none = none
scanned g (some s) = some (
  record g { counters = s.tallies; state_flags = s.words; installed_versions = s.versions },
  s.any_installed,
)

unfoldable pub reconcile_with_installed_set : EntryGroup → InstalledSet → Option (EntryGroup × Bool)
reconcile_with_installed_set g installed = scanned g (
    scan_uids installed g.unique_ids 0 record {
      tallies = record g.counters {
        n_installable = pos 0;
        n_removable = pos 0;
        n_installable_available = pos 0;
        n_removable_available = pos 0;
      };
      words = g.state_flags;
      versions = g.installed_versions;
      any_installed = false;
    })
